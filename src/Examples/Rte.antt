-- ===== src/Examples/Rte.antt =====
-- Returns from exceptions on a concrete stack.
use cute_mac.Base.{◌<◌, inl, inr, true, ◌≡◌, refl, arith, ◌==◌, if◌then◌else◌, bit_and}
use cute_mac.M68k.Cpu.{◌>>◌, Cpu, ok}
use cute_mac.M68k.Flags.{get_ccr}
use cute_mac.M68k.Exception.{exception_0000}
use cute_mac.M68k.Exception.Entry.{IsStackable, opened}
use cute_mac.M68k.Exception.Stacked.{IsEntry}
use cute_mac.M68k.Exception.Enter.{exception_0000-IsEntry}
use cute_mac.M68k.Rte.RoundTrip.{IsResumed, IsResumable, rte-exception_0000}
use cute_mac.M68k.Rte.{rte}
use cute_mac.M68k.Rte.Formats.{normal}
use cute_mac.M68k.Rte.Throwaway.{Frames, ends, behind, IsReturnedBy, rte-IsReturnedBy}
use cute_mac.M68k.Status.{set_sm_flag, set_s_flag, get_sr, set_sr_noint}
use cute_mac.M68k.Status.Laws.{status_bits, get_sr-set_sr_noint}
use cute_mac.Examples.Machine.{Bytes, ram_host, shown, ram_host-IsRam, machine, machine-IsFlatAt}

-- A 68020, with a frame of format 0 at 0x2000: status register 0x2700, program counter 0x512.
abbrev returning : Cpu Bytes
returning =
    machine 0x10 0x2000
      λ a. if a == 0x2000 then 0x27 else if a == 0x2004 then 5 else if a == 0x2005 then 0x12 else 0

get_sr-set_sr_noint_example :
    get_sr (set_sr_noint 0x2708 returning) ≡ bit_and (bit_and 0x2708 0xf71f) status_bits
get_sr-set_sr_noint_example = get_sr-set_sr_noint 0x2708 returning

-- A 68020, with a throwaway frame at 0x2000 whose status register 0x3700 selects the stack at
-- 0x3000, and there a frame of format 0: status register 0x2700, program counter 0x512.
abbrev thrown_away : Cpu Bytes
thrown_away = machine 0x10 0x2000 λ a.
    if a == 0x2000
    then 0x37
    else if a == 0x2006
    then 0x10
    else if a == 0x3000
    then 0x27
    else if a == 0x3004
    then 5
    else if a == 0x3005
    then 0x12
    else 0

thrown_away-Frames : Frames shown 2 0x100000 1 thrown_away
unfolding set_sr_noint set_sm_flag
thrown_away-Frames =
    behind
      (record {
        not_000 = refl;
        not_010 = refl;
        format = refl;
        flat = machine-IsFlatAt;
        top = omega arith;
        room = omega arith;
        even = refl;
      })
      (ends {f = 0} (normal refl refl) refl (record {
        flat = machine-IsFlatAt;
        top = omega arith;
        room = omega arith;
        even = refl;
        quiet = record { no_nmi = refl; masked = omega arith };
      }))

rte-IsReturnedBy_example :
    (c : Cpu Bytes) × (rte 2 thrown_away ≡ ok true c) × IsReturnedBy shown 2 c 1 thrown_away
rte-IsReturnedBy_example =
    rte-IsReturnedBy shown ram_host-IsRam 1 2 0x100000 2 thrown_away thrown_away-Frames refl
      (omega arith)

-- A 68000 with a stack at 0x2000, and a vector for A-line instructions.
abbrev interrupted : Cpu Bytes
interrupted = machine 1 0x2000 λ a. if a == 42 then 0x40 else 0

interrupted-IsStackable : IsStackable 0x100000 10 interrupted
unfolding set_s_flag
interrupted-IsStackable = record {
  flat = machine-IsFlatAt;
  top = omega arith;
  room = omega arith;
  below = omega arith;
  even = refl;
  vector_below = omega arith;
  vector_even = refl;
}

interrupted-IsResumable : IsResumable interrupted
unfolding get_sr get_ccr
interrupted-IsResumable = record {
  restorable = record {
    status = record { t1 = inl refl; t0 = inl refl; s = inr refl; m = inl refl; mask = refl };
    admitted = refl;
  };
  no_nmi = refl;
  masked = omega arith;
}

stack_below : (opened interrupted).dar 15 < 0x100000
unfolding set_s_flag
stack_below = omega arith

exception_0000-IsEntry_example :
    (d : Cpu Bytes) × (exception_0000 (λ c. c.ppc) 10 interrupted ≡ ok tt d)
    × IsEntry shown 0x100000 (opened interrupted).ppc 10 6 interrupted d
exception_0000-IsEntry_example =
    exception_0000-IsEntry shown ram_host-IsRam (λ c. c.ppc) 10 0x100000 interrupted
      interrupted-IsStackable

rte-exception_0000_example :
    (e : Cpu Bytes) × ((exception_0000 (λ c. c.ppc) 10 >> rte 1) interrupted ≡ ok true e)
    × IsResumed (opened interrupted).ppc interrupted e
rte-exception_0000_example =
    rte-exception_0000 shown ram_host-IsRam (λ c. c.ppc) 10 0x100000 0 interrupted (omega arith)
      interrupted-IsStackable stack_below interrupted-IsResumable
