-- ===== src/M68k/Interrupt.antt =====
-- Interrupts in m68kcpu.h: the exception, the test for one, and the writes of the status register
-- that make it.
use cute_mac.Base.{
  ℕ, ◌+◌, bit_and, bit_or, false, ◌&&◌, ◌==◌, not, ltb, if◌then◌else◌, not32, u32, shl32, ◌>>>◌,
}
use cute_mac.M68k.Flags.{long}
use cute_mac.M68k.Cpu.{Host, M, pure, ◌>>=◌, ◌>>◌, gets, modify, when, is_ec020_plus}
use cute_mac.M68k.Memory.{read_data, stop_level_stop}
use cute_mac.M68k.Frames.{stack_frame_0000, stack_frame_0001}
use cute_mac.M68k.Status.{set_sm_flag, set_sr_noint}
use cute_mac.M68k.Exception.{init_exception, leave_instruction_mode, only_exception_cycles}
use cute_mac.M68k.Vectors.{exception_uninitialized_interrupt, exception_interrupt_autovector}
pub mod Entry
pub mod Taken
pub mod Service

module _ {S : Type 0} ⦃host : Host S⦄ where
  -- The new program counter: the vector's, or that of the uninitialized interrupt where it is 0.
  interrupt_target : ℕ → M S ℕ
  unfolding read_data
  interrupt_target vector = do
    entry ← gets (λ c. u32 (shl32 vector 2 + c.vbr))
    target ← read_data long entry
    spare ← gets (λ c. u32 (shl32 exception_uninitialized_interrupt 2 + c.vbr))
    if target == 0 then read_data long spare else pure target

  -- The frame, and on the 68020 and later a throwaway frame on the interrupt stack where the
  -- master stack was in use.
  interrupt_frames : ℕ → ℕ → M S (Unit {0})
  unfolding stack_frame_0000 stack_frame_0001
  interrupt_frames sr vector = do
    pc ← gets (λ c. c.pc)
    stack_frame_0000 pc sr vector
    master ← gets (λ c. not (c.m_flag == 0) && is_ec020_plus c.cpu_type)
    when master (do
      modify λ c. set_sm_flag c.s_flag c
      pc_again ← gets (λ c. c.pc)
      stack_frame_0001 pc_again (bit_or sr 0x2000) vector)

  -- m68ki_exception_interrupt; the acknowledge is configured to the autovector.
  unfoldable pub exception_interrupt : ℕ → M S (Unit {0})
  unfolding leave_instruction_mode init_exception interrupt_target interrupt_frames
      only_exception_cycles
  exception_interrupt level = do
    leave_instruction_mode
    modify λ c. record c { stopped = bit_and c.stopped (not32 stop_level_stop) }
    halted ← gets (λ c. not (c.stopped == 0))
    let vector = u32 (exception_interrupt_autovector + level)
    when (not halted) (do
      sr ← init_exception
      modify λ c. record c { int_mask = shl32 level 8 }
      target ← interrupt_target vector
      interrupt_frames sr vector
      modify λ c. record c { pc = target }
      only_exception_cycles vector
      modify λ c. record c { int_level = 0 })

  -- m68ki_check_interrupts.
  unfoldable pub check_interrupts : M S (Unit {0})
  unfolding exception_interrupt
  check_interrupts = do
    nmi ← gets (λ c. c.nmi_pending)
    level ← gets (λ c. c.int_level)
    mask ← gets (λ c. c.int_mask)
    if nmi
        then (do modify λ c. record c { nmi_pending = false }; exception_interrupt 7)
        else when (ltb mask level) (exception_interrupt (level >>> 8))

  -- m68ki_set_sr.
  unfoldable pub set_sr : ℕ → M S (Unit {0})
  unfolding check_interrupts
  set_sr value = do modify λ c. set_sr_noint value c; check_interrupts
