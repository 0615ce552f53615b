-- ===== src/Examples/Interrupt.antt =====
-- Interrupts on a concrete machine.
use cute_mac.Base.{ℕ, true, false, ◌<◌, ◌≢◌, inl, inr, ◌≡◌, refl, arith, ◌==◌, if◌then◌else◌}
use cute_mac.M68k.Flags.{get_ccr}
use cute_mac.M68k.Cpu.{Cpu, ok, ◌>>◌}
use cute_mac.M68k.Status.{get_sr, set_s_flag}
use cute_mac.M68k.Exception.Entry.{opened}
use cute_mac.M68k.Interrupt.{exception_interrupt, check_interrupts}
use cute_mac.M68k.Interrupt.Entry.{IsInterruptible}
use cute_mac.M68k.Interrupt.Service.{
  IsServiced, check_interrupts-IsServiced, rte-exception_interrupt,
}
use cute_mac.M68k.Lines.{set_virq, get_virq}
use cute_mac.M68k.Lines.Laws.{IsRouted, set_virq-IsRouted}
use cute_mac.M68k.Rte.{rte}
use cute_mac.M68k.Rte.RoundTrip.{IsRestorable, IsResumed}
use cute_mac.Examples.Machine.{Bytes, ram_host, shown, ram_host-IsRam, machine, machine-IsFlatAt}

-- A 68000 with a request of level 3 above its mask.
abbrev requested : Cpu Bytes
requested = record (machine 1 0x2000 λ a. if a == 110 then 0x40 else 0) {
  int_mask = 0x200;
  int_level = 0x300;
}

requested-IsInterruptible : IsInterruptible 0x100000 3 requested
unfolding set_s_flag
requested-IsInterruptible = record {
  stackable = record {
    flat = machine-IsFlatAt;
    top = omega arith;
    room = omega arith;
    below = omega arith;
    even = refl;
    vector_below = omega arith;
    vector_even = refl;
  };
  spare_below = omega arith;
  spare_even = refl;
  running = refl;
  no_master = refl;
}

highest-IsInterruptible : IsInterruptible 0x100000 7 (record requested { nmi_pending = false })
unfolding set_s_flag
highest-IsInterruptible = record {
  stackable = record {
    flat = machine-IsFlatAt;
    top = omega arith;
    room = omega arith;
    below = omega arith;
    even = refl;
    vector_below = omega arith;
    vector_even = refl;
  };
  spare_below = omega arith;
  spare_even = refl;
  running = refl;
  no_master = refl;
}

requested-IsRestorable : IsRestorable requested
unfolding get_sr get_ccr
requested-IsRestorable = record {
  status = record { t1 = inl refl; t0 = inl refl; s = inr refl; m = inl refl; mask = refl };
  admitted = refl;
}

stack_below : (opened requested).dar 15 < 0x100000
unfolding set_s_flag
stack_below = omega arith

check_interrupts-IsServiced_example :
    (d : Cpu Bytes) × (check_interrupts requested ≡ ok tt d) × IsServiced shown 0x100000 requested d
check_interrupts-IsServiced_example =
    check_interrupts-IsServiced shown ram_host-IsRam 0x100000 requested requested-IsInterruptible
      highest-IsInterruptible

rte-exception_interrupt_example :
    (e : Cpu Bytes) × ((exception_interrupt 3 >> rte 1) requested ≡ ok true e)
    × IsResumed requested.pc requested e
rte-exception_interrupt_example =
    rte-exception_interrupt shown ram_host-IsRam 3 0x100000 0 requested (omega arith)
      requested-IsInterruptible stack_below requested-IsRestorable refl

set_virq-IsRouted_example :
    (get_virq 4 (set_virq 4 true requested) ≡ true)
    × ((k : ℕ) → k < 32 → k ≢ 4 → get_virq k (set_virq 4 true requested) ≡ get_virq k requested)
    × IsRouted requested (set_virq 4 true requested)
set_virq-IsRouted_example = set_virq-IsRouted 4 true requested (omega arith)
