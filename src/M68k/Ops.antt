-- ===== src/M68k/Ops.antt =====
-- What the handlers of m68kops.c share: writing a result to a register or back to memory, the
-- quick immediate, and the modes that an instruction names.
use cute_mac.Base.{ℕ, ◌+◌, ◌*◌, ◌/◌, ◌%◌, ◌^◌, bit_and, bit_or, sub32, ◌>>>◌}
use cute_mac.M68k.Flags.{Size, byte, word, long, Flags, mask_out_above}
use cute_mac.M68k.Cpu.{
  Cpu, Host, Outcome, ok, address_fault, bus_fault, M, pure, ◌>>=◌, ◌>>◌, gets, modify, update,
  set_da,
}
use cute_mac.M68k.Memory.{read, write}
use cute_mac.M68k.Ea.{Mode, dx, dy, ax, ay, ea_of}
use cute_mac.M68k.Alu.{Result}
pub mod Add
pub mod Sub
pub mod Cmp
pub mod Logic
pub mod Immediate
pub mod Unary
pub mod Move
pub mod Flow
pub mod Bits
pub mod Calls
pub mod Branches

-- `MASK_OUT_BELOW_8(*r_dst) | res` and its kin; a long replaces the whole register.
abbrev pub merge : Size → ℕ → ℕ → ℕ
merge byte old res = bit_or (old / 2 ^ 8 * 2 ^ 8) res
merge word old res = bit_or (old / 2 ^ 16 * 2 ^ 16) res
merge long old res = res

-- `(((REG_IR >> 9) - 1) & 7) + 1`, the operand of ADDQ, SUBQ and the shifts.
abbrev pub quick : {S : Type 0} → Cpu S → ℕ
quick c = bit_and (sub32 (c.ir >>> 9) 1) 7 + 1

module _ {S : Type 0} where
  unfoldable pub set_flags : Flags → M S (Unit {0})
  set_flags f = modify λ c. record c { flags = f }

  -- A register operand is replaced by what the operation makes of it.
  unfoldable pub update_reg : Size → (Cpu S → ℕ) → (ℕ → Flags → Result) → M S (Unit {0})
  unfolding set_flags set_da
  update_reg size r operation = do
    n ← gets r
    old ← gets (λ c. c.dar n)
    f ← gets (λ c. c.flags)
    let result = operation (mask_out_above size old) f
    set_flags result.flags
    set_da n (merge size old result.value)

  -- The same where the handler passes the whole register to the operation.
  unfoldable pub update_whole : Size → (Cpu S → ℕ) → (ℕ → Flags → Result) → M S (Unit {0})
  unfolding set_flags set_da
  update_whole size r operation = do
    n ← gets r
    old ← gets (λ c. c.dar n)
    f ← gets (λ c. c.flags)
    let result = operation old f
    set_flags result.flags
    set_da n (merge size old result.value)

module _ {S : Type 0} ⦃host : Host S⦄ where
  -- The operand at an address is replaced by what the operation makes of it.
  unfoldable pub update_at : Size → (ℕ → Flags → Result) → ℕ → M S (Unit {0})
  unfolding read write set_flags
  update_at size operation ea = do
    dst ← read size ea
    f ← gets (λ c. c.flags)
    let result = operation dst f
    set_flags result.flags
    write size ea result.value

  -- The same for the operand in memory that AY and the mode name.
  unfoldable pub update_mem : Size → Mode → (ℕ → Flags → Result) → M S (Unit {0})
  unfolding ea_of update_at
  update_mem size mode operation = do ea ← ea_of size ay mode; update_at size operation ea
