-- ===== src/M68k/Exception/Enter.antt =====
-- About the exceptions with the frame of format 0, on a plain memory.
use cute_mac.Base.{ℕ, true, false, Bool-cases, inl, inr, ◌≡◌, refl, arith, if◌then◌else◌}
use cute_mac.M68k.Cpu.{Cpu, Host, ok, is_000}
use cute_mac.M68k.Memory.Ram.{IsRam}
use cute_mac.M68k.Status.{get_sr, set_s_flag}
use cute_mac.M68k.Exception.{exception_0000}
use cute_mac.M68k.Exception.Entry.{
  IsStackable, opened, framed, framed_000, vectored, entered_000, entered_other,
}
use cute_mac.M68k.Exception.Stacked.{IsEntry, IsOpened, framed_000-IsStacked, framed-IsStacked}

module _ {S : Type 0} (store : S → ℕ → ℕ) where
  opened-IsOpened :
      (vector limit : ℕ) (c : Cpu S)
      → IsStackable limit vector c
      → IsOpened store limit c (opened c)
  unfolding set_s_flag
  opened-IsOpened vector limit c ready = record {
    supervisor = refl;
    trace_off = refl;
    stack_at = refl;
    room = ready.room;
    bank_kept = refl;
    control_kept = (refl, refl, refl, ready.flat);
    registers_kept = λ i below. ground arith;
    memory_kept = refl;
  }

module _ {S : Type 0} ⦃host : Host S⦄ (store : S → ℕ → ℕ) (ram : IsRam host store) where
  abbrev pub Enters : ℕ → (Cpu S → ℕ) → ℕ → ℕ → Cpu S → Type 0
  Enters limit at_pc vector size c =
      (d : Cpu S) × (exception_0000 at_pc vector c ≡ ok tt d)
      × IsEntry store limit (at_pc (opened c)) vector size c d

  short_entry :
      (at_pc : Cpu S → ℕ) (vector limit : ℕ) (c : Cpu S)
      → IsStackable limit vector c
      → is_000 c.cpu_type ≡ true
      → Enters limit at_pc vector 6 c
  unfolding set_s_flag
  short_entry at_pc vector limit c ready t = (
    vectored store ram vector (framed_000 store ram (at_pc (opened c)) (get_sr c) (opened c)),
    entered_000 store ram at_pc vector limit c ready t,
    record {
      stacked =
          framed_000-IsStacked store ram (at_pc (opened c)) vector limit c (opened c)
            (opened-IsOpened store vector limit c ready);
      vector_taken = refl;
      level_kept = refl;
      nmi_kept = refl;
    },
  )

  long_entry :
      (at_pc : Cpu S → ℕ) (vector limit : ℕ) (c : Cpu S)
      → IsStackable limit vector c
      → is_000 c.cpu_type ≡ false
      → Enters limit at_pc vector 8 c
  unfolding set_s_flag
  long_entry at_pc vector limit c ready t = (
    vectored store ram vector (framed store ram (at_pc (opened c)) (get_sr c) vector (opened c)),
    entered_other store ram at_pc vector limit c ready t,
    record {
      stacked =
          framed-IsStacked store ram (at_pc (opened c)) vector limit c (opened c)
            (opened-IsOpened store vector limit c ready);
      vector_taken = refl;
      level_kept = refl;
      nmi_kept = refl;
    },
  )

  -- On a plain memory with the MMU off, an even supervisor stack with room for eight bytes and an
  -- even vector address below `limit`, an exception with the frame of format 0 is entered: the
  -- processor is in supervisor mode and not tracing, goes on where the vector points, and has
  -- stacked its status register, the program counter and, but for the 68000, the format word; the
  -- rest of the memory and the registers is as before.
  pub exception_0000-IsEntry :
      (at_pc : Cpu S → ℕ) (vector limit : ℕ) (c : Cpu S)
      → IsStackable limit vector c
      → Enters limit at_pc vector (if is_000 c.cpu_type then 6 else 8) c
  exception_0000-IsEntry at_pc vector limit c ready = elim (Bool-cases (is_000 c.cpu_type)) [
    | inl t ↦ rw t (short_entry at_pc vector limit c ready t)
    | inr t ↦ rw t (long_entry at_pc vector limit c ready t)
  ]
