-- ===== src/M68k/Exception.antt =====
-- Exception processing in m68kcpu.h: the exceptions other than interrupts.
use cute_mac.Base.{ℕ, ◌+◌, bit_and, bit_or, ◌==◌, if◌then◌else◌, u32, sub32, shl32}
use cute_mac.M68k.Flags.{byte, long}
use cute_mac.M68k.Cpu.{
  Cpu, Host, M, pure, ◌>>=◌, ◌>>◌, gets, modify, is_000, is_010, is_010_less, is_ec020_plus,
  is_040_plus, use_cycles,
}
use cute_mac.M68k.Memory.{
  read_data, read_memory, run_mode_berr_aerr_reset, run_mode_berr_aerr_reset_wsf, stop_level_halt,
}
use cute_mac.M68k.Frames.{
  stack_frame_0000, stack_frame_0010, stack_frame_buserr, stack_frame_1000, stack_frame_1010,
  stack_frame_1011, stack_frame_0111,
}
use cute_mac.M68k.Status.{get_sr, set_s_flag, sflag_set}
use cute_mac.M68k.Vectors.{
  exception_bus_error, exception_address_error, exception_illegal_instruction,
  exception_privilege_violation, exception_1010, exception_1111, exception_format_error,
  instruction_no,
}
pub mod Entry
pub mod Stacked
pub mod Enter

module _ {S : Type 0} where
  -- m68ki_init_exception: the status register before, with tracing off and supervisor mode on.
  unfoldable pub init_exception : M S ℕ
  init_exception = do
    sr ← gets get_sr
    modify λ c. set_s_flag sflag_set (record c { t1_flag = 0; t0_flag = 0 })
    pure sr

  -- Clocks of an exception, less those of the instruction that it undoes.
  unfoldable pub exception_cycles : ℕ → M S (Unit {0})
  unfolding use_cycles
  exception_cycles vector = do
    n ← gets (λ c. sub32 (c.timing.exception vector) (c.timing.instruction c.ir))
    use_cycles n

  unfoldable pub only_exception_cycles : ℕ → M S (Unit {0})
  unfolding use_cycles
  only_exception_cycles vector = do n ← gets (λ c. c.timing.exception vector); use_cycles n

  -- The 68000 is in group 0 or 1 processing.
  unfoldable pub leave_instruction_mode : M S (Unit {0})
  leave_instruction_mode =
      modify
        λ c. record c { instr_mode = if is_000 c.cpu_type then instruction_no else c.instr_mode }

module _ {S : Type 0} ⦃host : Host S⦄ where
  -- m68ki_jump_vector.
  unfoldable pub jump_vector : ℕ → M S (Unit {0})
  unfolding read_data
  jump_vector vector = do
    entry ← gets (λ c. u32 (shl32 vector 2 + c.vbr))
    modify λ c. record c { pc = entry }
    target ← read_data long entry
    modify λ c. record c { pc = target }

  -- An exception that stacks the frame of format 0 with the given program counter; the callbacks
  -- for A-line, illegal and TRAP instructions are configured away.
  unfoldable pub exception_0000 : (Cpu S → ℕ) → ℕ → M S (Unit {0})
  unfolding init_exception stack_frame_0000 jump_vector exception_cycles
  exception_0000 at_pc vector = do
    sr ← init_exception
    pc ← gets at_pc
    stack_frame_0000 pc sr vector
    jump_vector vector
    exception_cycles vector

  -- m68ki_exception_trap.
  unfoldable pub exception_trap : ℕ → M S (Unit {0})
  unfolding init_exception stack_frame_0000 stack_frame_0010 jump_vector exception_cycles
  exception_trap vector = do
    sr ← init_exception
    short ← gets (λ c. is_010_less c.cpu_type)
    pc ← gets (λ c. c.pc)
    if short then stack_frame_0000 pc sr vector else stack_frame_0010 sr vector
    jump_vector vector
    exception_cycles vector

  -- m68ki_exception_trapN.
  unfoldable pub exception_trap_n : ℕ → M S (Unit {0})
  unfolding exception_0000
  exception_trap_n vector = exception_0000 (λ c. c.pc) vector

  unfoldable pub privilege_violation : M S (Unit {0})
  unfolding init_exception leave_instruction_mode stack_frame_0000 jump_vector exception_cycles
  privilege_violation = do
    sr ← init_exception
    leave_instruction_mode
    ppc ← gets (λ c. c.ppc)
    stack_frame_0000 ppc sr exception_privilege_violation
    jump_vector exception_privilege_violation
    exception_cycles exception_privilege_violation

  unfoldable pub illegal : M S (Unit {0})
  unfolding init_exception leave_instruction_mode stack_frame_0000 jump_vector exception_cycles
  illegal = do
    sr ← init_exception
    leave_instruction_mode
    ppc ← gets (λ c. c.ppc)
    stack_frame_0000 ppc sr exception_illegal_instruction
    jump_vector exception_illegal_instruction
    exception_cycles exception_illegal_instruction

  unfoldable pub a_line : M S (Unit {0})
  unfolding exception_0000
  a_line = exception_0000 (λ c. c.ppc) exception_1010

  unfoldable pub f_line : M S (Unit {0})
  unfolding exception_0000
  f_line = exception_0000 (λ c. c.ppc) exception_1111

  unfoldable pub format_error : M S (Unit {0})
  unfolding exception_0000
  format_error = exception_0000 (λ c. c.pc) exception_format_error

  bus_error_frame : ℕ → M S (Unit {0})
  unfolding stack_frame_0111 stack_frame_1010 stack_frame_1011 stack_frame_1000
  bus_error_frame sr = do
    c ← gets (λ c. c)
    let fault = c.fault
    let fc = bit_and fault.fc 7
    let ssw_040 =
        bit_or (if fault.is_mmu then 0x0400 else 0) (bit_or (if fault.rw_bit then 0x0100 else 0) fc)
    let ssw_size = if fault.size == 2 then 0x0010 else if fault.size == 4 then 0x0020 else 0
    let ssw_020 = bit_or 0x0100 (bit_or (if fault.rw_bit then 0x0040 else 0) (bit_or fc ssw_size))
    if is_040_plus c.cpu_type
        then stack_frame_0111 sr exception_bus_error c.ppc fault.address ssw_040
        else if is_ec020_plus c.cpu_type
        then (if fault.is_mmu
            then stack_frame_1010 sr exception_bus_error c.ppc fault.address ssw_020
            else stack_frame_1011 sr exception_bus_error c.ppc fault.address ssw_020)
        else stack_frame_1000 c.ppc sr exception_bus_error

  -- The rest of m68ki_exception_bus_error, at the place where `longjmp` lands: the registers are
  -- put back to what they were before the instruction.
  unfoldable pub bus_error : M S (Unit {0})
  unfolding exception_cycles init_exception bus_error_frame jump_vector
  bus_error = do
    modify λ c. record c { run_mode = run_mode_berr_aerr_reset_wsf }
    exception_cycles exception_bus_error
    modify λ c. record c { dar = c.dar_save }
    sr ← init_exception
    bus_error_frame sr
    jump_vector exception_bus_error
    modify λ c. record c { run_mode = run_mode_berr_aerr_reset }

  address_error_frame : ℕ → M S (Unit {0})
  unfolding stack_frame_buserr stack_frame_1010 stack_frame_1011 stack_frame_1000
  address_error_frame sr = do
    c ← gets (λ c. c)
    let fc = bit_and c.aerr_fc 7
    let ssw = bit_or 0x0140 (if fc == 0 then 6 else fc)
    if is_000 c.cpu_type
        then stack_frame_buserr sr
        else if is_010 c.cpu_type
        then stack_frame_1000 c.ppc sr exception_address_error
        else if c.aerr_address == c.ppc
        then stack_frame_1010 sr exception_address_error c.ppc c.aerr_address ssw
        else stack_frame_1011 sr exception_address_error c.ppc c.aerr_address ssw

  -- m68ki_exception_address_error; in the catastrophic case a byte is read and the processor
  -- halts.
  unfoldable pub address_error : M S (Unit {0})
  unfolding init_exception address_error_frame jump_vector only_exception_cycles read_memory
  address_error = do
    sr ← init_exception
    catastrophic ← gets (λ c. c.run_mode == run_mode_berr_aerr_reset_wsf)
    if catastrophic
        then (do
          ignored ← read_memory byte 0x00ffff01
          modify λ c. record c { stopped = stop_level_halt })
        else (do
          modify λ c. record c { run_mode = run_mode_berr_aerr_reset_wsf }
          address_error_frame sr
          jump_vector exception_address_error
          modify λ c. record c { run_mode = run_mode_berr_aerr_reset }
          only_exception_cycles exception_address_error)
