-- ===== src/M68k/Interrupt/Entry.antt =====
-- About the interrupt exception, on a plain memory, where the master stack is not in use.
use cute_mac.Base.{
  ℕ, Bool, true, false, Bool-cases, inl, inr, ◌+◌, ◌%◌, ◌<◌, not, ◌==◌, bit_and, bit_or, u32, not32,
  shl32, sub32, ◌&&◌, ◌≡◌, refl, ap, ◌∙◌, if◌then◌else◌,
}
use cute_mac.M68k.Flags.{long}
use cute_mac.M68k.Cpu.{is_ec020_plus, Cpu, Host, M, ok, pure, is_000, then_lem, use_cycles}
use cute_mac.M68k.Memory.{stop_level_stop, function_code_user_data}
use cute_mac.M68k.Memory.Layout.{peek}
use cute_mac.M68k.Memory.Ram.{IsRam, IsFlat, read_data_lem}
use cute_mac.M68k.Status.{get_sr, set_s_flag}
use cute_mac.M68k.Exception.{leave_instruction_mode, init_exception, only_exception_cycles}
use cute_mac.M68k.Exception.Entry.{IsStackable, opened, vector_entry}
use cute_mac.M68k.Frames.{stack_frame_0000}
use cute_mac.M68k.Interrupt.{interrupt_target, interrupt_frames, exception_interrupt}
use cute_mac.M68k.Vectors.{
  instruction_no, exception_uninitialized_interrupt, exception_interrupt_autovector,
}

-- The processor ready to stack the frame of an interrupt.
abbrev pub awake : {S : Type 0} → Cpu S → Cpu S
awake c = record c {
  instr_mode = if is_000 c.cpu_type then instruction_no else c.instr_mode;
  stopped = bit_and c.stopped (not32 stop_level_stop);
}

abbrev pub level_opened : {S : Type 0} → ℕ → Cpu S → Cpu S
level_opened level c = record (opened (awake c)) { int_mask = shl32 level 8 }

abbrev pub autovector : ℕ → ℕ
autovector level = u32 (exception_interrupt_autovector + level)

-- The interrupt can be taken: the processor is not halted, the master stack is not in use, and
-- the stack and both vectors are in reach.
pub record IsInterruptible {S : Type 0} (limit level : ℕ) (c : Cpu S) : Type 0 where
  pub stackable : IsStackable limit (autovector level) c
  pub spare_below : vector_entry exception_uninitialized_interrupt c < limit
  pub spare_even : vector_entry exception_uninitialized_interrupt c % 2 ≡ 0
  pub running : (bit_and c.stopped (not32 stop_level_stop) == 0) ≡ true
  pub no_master : (c.m_flag == 0) ≡ true

-- Where the interrupt goes.
abbrev pub target_of : {S : Type 0} → (S → ℕ → ℕ) → ℕ → Cpu S → ℕ
target_of store vector c =
    if peek long (store c.bus) (vector_entry vector c) == 0
    then peek long (store c.bus) (vector_entry exception_uninitialized_interrupt c)
    else peek long (store c.bus) (vector_entry vector c)

abbrev pub fetching : {S : Type 0} → Cpu S → Cpu S
fetching d = record d { function_code = bit_or d.s_flag function_code_user_data }

abbrev pub interrupted : {S : Type 0} → ℕ → ℕ → Cpu S → Cpu S
interrupted vector target d = record d {
  pc = target;
  remaining_cycles = sub32 d.remaining_cycles (u32 (d.timing.exception vector));
  int_level = 0;
}

module _ {S : Type 0} where
  pub if_true :
      (m k : M S (Unit {0})) (c : Cpu S) → {b : Bool} → b ≡ true → (if b then m else k) c ≡ m c
  if_true m k c t = ap (λ (b : Bool). (if b then m else k) c) t

  pub if_false :
      (m k : M S (Unit {0})) (c : Cpu S) → {b : Bool} → b ≡ false → (if b then m else k) c ≡ k c
  if_false m k c t = ap (λ (b : Bool). (if b then m else k) c) t

module _ {S : Type 0} ⦃host : Host S⦄ (store : S → ℕ → ℕ) (ram : IsRam host store) where
  target_lem :
      (vector limit : ℕ) (d : Cpu S)
      → IsFlat limit d
      → vector_entry vector d < limit
      → vector_entry vector d % 2 ≡ 0
      → vector_entry exception_uninitialized_interrupt d < limit
      → vector_entry exception_uninitialized_interrupt d % 2 ≡ 0
      → interrupt_target vector d ≡ ok (target_of store vector d) (fetching d)
  unfolding interrupt_target
  target_lem vector limit d flat below even spare_below spare_even =
      then_lem _ (read_data_lem store ram long limit (vector_entry vector d) d flat below even)
      ∙ elim (Bool-cases (peek long (store d.bus) (vector_entry vector d) == 0)) [
        | inl t ↦ rw t (
            read_data_lem store ram long limit (vector_entry exception_uninitialized_interrupt d)
              (fetching d) flat spare_below spare_even)
        | inr t ↦ rw t refl
      ]

  frames_lem :
      (sr vector : ℕ) (c d : Cpu S)
      → stack_frame_0000 c.pc sr vector c ≡ ok tt d
      → (d.m_flag == 0) ≡ true
      → interrupt_frames sr vector c ≡ ok tt d
  unfolding interrupt_frames
  frames_lem sr vector c d stacked none =
      let off : (not (d.m_flag == 0) && is_ec020_plus d.cpu_type) ≡ false = rw none refl in
      then_lem _ stacked ∙ if_false _ (pure tt) d off

  pub exception_interrupt_lem :
      (level limit : ℕ) (c d : Cpu S)
      → IsInterruptible limit level c
      → stack_frame_0000 c.pc (get_sr c) (autovector level) (fetching (level_opened level c))
        ≡ ok tt d
      → (d.m_flag == 0) ≡ true
      → exception_interrupt level c
        ≡ ok tt (interrupted (autovector level) (target_of store (autovector level) c) d)
  unfolding exception_interrupt leave_instruction_mode init_exception only_exception_cycles
      use_cycles set_s_flag get_sr
  exception_interrupt_lem level limit c d ready stacked none =
      let on : not (not (bit_and c.stopped (not32 stop_level_stop) == 0)) ≡ true =
        rw ready.running refl in
      if_true _ (pure tt) (awake c) on
      ∙ then_lem _ (
          target_lem (autovector level) limit (level_opened level c) ready.stackable.flat
            ready.stackable.vector_below ready.stackable.vector_even ready.spare_below
            ready.spare_even)
      ∙ then_lem _ (
          frames_lem (get_sr c) (autovector level) (fetching (level_opened level c)) d stacked none)
