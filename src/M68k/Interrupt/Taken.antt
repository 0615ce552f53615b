-- ===== src/M68k/Interrupt/Taken.antt =====
-- About m68ki_check_interrupts, on a plain memory, where the master stack is not in use.
use cute_mac.Base.{
  ℕ, true, false, Bool-cases, inl, inr, shl32, ◌≡◌, refl, arith, if◌then◌else◌, bit_and, not32,
}
use cute_mac.M68k.Cpu.{Cpu, Host, ok, is_000}
use cute_mac.M68k.Memory.{stop_level_stop}
use cute_mac.M68k.Memory.Ram.{IsRam}
use cute_mac.M68k.Status.{get_sr, set_s_flag}
use cute_mac.M68k.Exception.Entry.{framed, framed_000, stack_frame_000, stack_frame_other}
use cute_mac.M68k.Exception.Stacked.{IsStacked, IsOpened, framed_000-IsStacked, framed-IsStacked}
use cute_mac.M68k.Interrupt.{exception_interrupt}
use cute_mac.M68k.Interrupt.Entry.{
  IsInterruptible, autovector, level_opened, fetching, target_of, interrupted,
  exception_interrupt_lem,
}

-- `d` is `c` with an interrupt of `level` taken: the frame is stacked, execution goes on at the
-- vector's address or at that of the uninitialized interrupt, the mask is raised to the level, the
-- request is withdrawn and a STOP is over.
pub record IsTaken {S : Type 0} (store : S → ℕ → ℕ) (limit level size : ℕ) (c d : Cpu S)
    : Type 0 where
  pub stacked : IsStacked store limit c.pc (autovector level) size c d
  pub target : d.pc ≡ target_of store (autovector level) c
  pub mask_raised : d.int_mask ≡ shl32 level 8
  pub request_withdrawn : d.int_level ≡ 0
  pub awoken : d.stopped ≡ bit_and c.stopped (not32 stop_level_stop)
  pub nmi_kept : d.nmi_pending ≡ c.nmi_pending

abbrev pub size_of : {S : Type 0} → Cpu S → ℕ
size_of c = if is_000 c.cpu_type then 6 else 8

module _ {S : Type 0} (store : S → ℕ → ℕ) where
  level_IsOpened :
      (level limit : ℕ) (c : Cpu S)
      → IsInterruptible limit level c
      → IsOpened store limit c (fetching (level_opened level c))
  unfolding set_s_flag
  level_IsOpened level limit c ready = record {
    supervisor = refl;
    trace_off = refl;
    stack_at = refl;
    room = ready.stackable.room;
    bank_kept = refl;
    control_kept = (refl, refl, refl, ready.stackable.flat);
    registers_kept = λ i below. ground arith;
    memory_kept = refl;
  }

module _ {S : Type 0} ⦃host : Host S⦄ (store : S → ℕ → ℕ) (ram : IsRam host store) where
  abbrev pub Takes : ℕ → ℕ → ℕ → Cpu S → Type 0
  Takes limit level size c =
      (d : Cpu S) × (exception_interrupt level c ≡ ok tt d) × IsTaken store limit level size c d

  short_taken :
      (level limit : ℕ) (c : Cpu S)
      → IsInterruptible limit level c
      → is_000 c.cpu_type ≡ true
      → Takes limit level 6 c
  unfolding set_s_flag
  short_taken level limit c ready t =
      let o = fetching (level_opened level c) in
      let d = framed_000 store ram c.pc (get_sr c) o in
      let stack = ready.stackable in
      (
        interrupted (autovector level) (target_of store (autovector level) c) d,
        exception_interrupt_lem store ram level limit c d ready
            (stack_frame_000 store ram c.pc (get_sr c) (autovector level) limit o stack.flat
              stack.top stack.room stack.below stack.even t)
            ready.no_master,
        record {
          stacked =
              framed_000-IsStacked store ram c.pc (autovector level) limit c o
                (level_IsOpened store level limit c ready);
          target = refl;
          mask_raised = refl;
          request_withdrawn = refl;
          awoken = refl;
          nmi_kept = refl;
        },
      )

  long_taken :
      (level limit : ℕ) (c : Cpu S)
      → IsInterruptible limit level c
      → is_000 c.cpu_type ≡ false
      → Takes limit level 8 c
  unfolding set_s_flag
  long_taken level limit c ready t =
      let o = fetching (level_opened level c) in
      let d = framed store ram c.pc (get_sr c) (autovector level) o in
      let stack = ready.stackable in
      (
        interrupted (autovector level) (target_of store (autovector level) c) d,
        exception_interrupt_lem store ram level limit c d ready
            (stack_frame_other store ram c.pc (get_sr c) (autovector level) limit o stack.flat
              stack.top stack.room stack.below stack.even t)
            ready.no_master,
        record {
          stacked =
              framed-IsStacked store ram c.pc (autovector level) limit c o
                (level_IsOpened store level limit c ready);
          target = refl;
          mask_raised = refl;
          request_withdrawn = refl;
          awoken = refl;
          nmi_kept = refl;
        },
      )

  pub exception_interrupt-IsTaken :
      (level limit : ℕ) (c : Cpu S)
      → IsInterruptible limit level c
      → Takes limit level (size_of c) c
  exception_interrupt-IsTaken level limit c ready = elim (Bool-cases (is_000 c.cpu_type)) [
    | inl t ↦ rw t (short_taken level limit c ready t)
    | inr t ↦ rw t (long_taken level limit c ready t)
  ]
