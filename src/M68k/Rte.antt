-- ===== src/M68k/Rte.antt =====
-- RTE, `m68k_op_rte_32` of m68kops.c: the return from an exception, by the frame's format.
use cute_mac.Base.{ℕ, zero, suc, ◌+◌, Bool, true, false, ◌==◌, if◌then◌else◌, u32, ◌>>>◌}
use cute_mac.M68k.Flags.{word, long}
use cute_mac.M68k.Cpu.{
  Host, M, pure, ◌>>=◌, ◌>>◌, gets, modify, stack_pointer, is_000, is_010, set_da,
}
use cute_mac.M68k.Memory.{read, pull, fake_pull, run_mode_normal}
use cute_mac.M68k.Status.{set_sr_noint}
use cute_mac.M68k.Exception.{format_error, privilege_violation}
use cute_mac.M68k.Interrupt.{set_sr}
use cute_mac.M68k.Vectors.{instruction_yes}
pub mod Passes
pub mod Returns
pub mod Formats
pub mod Throwaway
pub mod RoundTrip

module _ {S : Type 0} where
  -- The processor is in the middle of an instruction again.
  unfoldable pub resume : M S (Unit {0})
  resume = modify λ c. record c { instr_mode = instruction_yes; run_mode = run_mode_normal }

  -- `REG_A[7] = MASK_OUT_ABOVE_32(REG_A[7] + n)`.
  unfoldable pub skip : ℕ → M S (Unit {0})
  unfolding set_da
  skip n = do address ← gets stack_pointer; set_da 15 (u32 (address + n))

  -- The words of a format 8 frame after its format word.
  unfoldable pub skip_1000 : M S (Unit {0})
  unfolding fake_pull
  skip_1000 = do
    fake_pull word
    fake_pull long
    fake_pull word
    fake_pull word
    fake_pull word
    fake_pull word
    fake_pull word
    fake_pull word
    fake_pull long
    fake_pull long
    fake_pull long
    fake_pull long
    fake_pull long
    fake_pull long
    fake_pull long
    fake_pull long

module _ {S : Type 0} ⦃host : Host S⦄ where
  -- The status register and the program counter are pulled, what follows them on the stack is
  -- passed over, and execution goes on there.
  unfoldable pub return_by : M S (Unit {0}) → M S Bool
  unfolding pull set_sr resume
  return_by pass_over = do
    new_sr ← pull word
    new_pc ← pull long
    pass_over
    modify λ c. record c { pc = new_pc }
    set_sr new_sr
    resume
    pure true

  unfoldable pub bad_format : M S Bool
  unfolding resume format_error
  bad_format = do resume; format_error; pure true

  unfoldable pub rte_000 : M S Bool
  unfolding return_by
  rte_000 = return_by (pure tt)

  -- The format of the frame on top of the stack.
  unfoldable pub frame_format : M S ℕ
  unfolding read
  frame_format = do
    address ← gets (λ c. u32 (stack_pointer c + 6))
    format_word ← read word address
    pure (format_word >>> 12)

  unfoldable pub rte_010 : M S Bool
  unfolding frame_format return_by fake_pull skip_1000 bad_format
  rte_010 = do
    format ← frame_format
    if format == 0
        then return_by (fake_pull word)
        else if format == 8
        then return_by (fake_pull word >> skip_1000)
        else bad_format

  -- The formats of the 68020 and later that end the loop.
  unfoldable pub rte_format : ℕ → M S Bool
  unfolding return_by fake_pull skip bad_format
  rte_format format =
      if format == 0
      then return_by (fake_pull word)
      else if format == 2
      then return_by (fake_pull word >> fake_pull long)
      else if format == 7
      then return_by (fake_pull word >> skip 52)
      else if format == 10
      then return_by (fake_pull word >> skip 24)
      else if format == 11
      then return_by (fake_pull word >> skip 84)
      else bad_format

  -- A throwaway frame: only its status register is used.
  unfoldable pub throw_away : M S (Unit {0})
  unfolding pull fake_pull
  throw_away = do
    new_sr ← pull word
    fake_pull long
    fake_pull word
    modify λ c. set_sr_noint new_sr c

  -- `rte_loop`, at most `fuel` times; false where that was not enough.
  unfoldable pub rte_loop : ℕ → M S Bool
  unfolding frame_format throw_away rte_format
  rte_loop zero = pure false
  rte_loop (suc fuel) = do
    format ← frame_format
    let again = throw_away >> rte_loop fuel
    if format == 1 then again else rte_format format

  unfoldable pub rte : ℕ → M S Bool
  unfolding privilege_violation rte_000 rte_010 rte_loop
  rte fuel = do
    supervisor ← gets (λ c. c.s_flag)
    t ← gets (λ c. c.cpu_type)
    if supervisor == 0
        then (privilege_violation >> pure true)
        else if is_000 t
        then rte_000
        else if is_010 t
        then rte_010
        else rte_loop fuel
