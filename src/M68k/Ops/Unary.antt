-- ===== src/M68k/Ops/Unary.antt =====
-- The handlers m68k_op_not_…, clr_… and tst_… of m68kops.c, by size.
use cute_mac.Base.{bit_and, not32, sext16, Bool, true, false, not, ◌&&◌, if◌then◌else◌}
use cute_mac.M68k.Flags.{Size, byte, word, long, nflag}
use cute_mac.M68k.Cpu.{Host, M, ◌>>=◌, ◌>>◌, gets, set_da, is_ec020_plus}
use cute_mac.M68k.Memory.{write}
use cute_mac.M68k.Exception.{illegal}
use cute_mac.M68k.Ea.{pcdi, pcix, Operand, dy, ay, ea_of, source}
use cute_mac.M68k.Ops.{set_flags}
use cute_mac.M68k.Ops.Logic.{set_logic_flags, logic_reg, not_whole, kept_bits, write_then_flags}

-- The operands of TST that the 68000 and the 68010 do not have.
abbrev pub later_operand : Operand → Bool
later_operand (Operand.mem pcdi) = true
later_operand (Operand.mem pcix) = true
later_operand Operand.addr_reg = true
later_operand Operand.imm = true
later_operand _ = false

module _ {S : Type 0} where
  clr_d : Size → M S (Unit {0})
  unfolding set_logic_flags set_da
  clr_d size = do
    n ← gets dy
    old ← gets (λ c. c.dar n)
    set_da n (bit_and old (kept_bits size))
    set_logic_flags size 0

module _ {S : Type 0} ⦃host : Host S⦄ where
  not_op : Size → Operand → M S (Unit {0})
  unfolding ea_of write_then_flags logic_reg
  not_op size (Operand.mem mode) = do ea ← ea_of size ay mode; write_then_flags size not32 ea
  not_op size _ = logic_reg size dy (not_whole size)

  unfoldable pub not_8 : Operand → M S (Unit {0})
  unfolding not_op
  not_8 operand = not_op byte operand

  unfoldable pub not_16 : Operand → M S (Unit {0})
  unfolding not_op
  not_16 operand = not_op word operand

  unfoldable pub not_32 : Operand → M S (Unit {0})
  unfolding not_op
  not_32 operand = not_op long operand

  clr : Size → Operand → M S (Unit {0})
  unfolding ea_of write set_logic_flags clr_d
  clr size (Operand.mem mode) = do ea ← ea_of size ay mode; write size ea 0; set_logic_flags size 0
  clr size _ = clr_d size

  unfoldable pub clr_8 : Operand → M S (Unit {0})
  unfolding clr
  clr_8 operand = clr byte operand

  unfoldable pub clr_16 : Operand → M S (Unit {0})
  unfolding clr
  clr_16 operand = clr word operand

  unfoldable pub clr_32 : Operand → M S (Unit {0})
  unfolding clr
  clr_32 operand = clr long operand

  -- tst_16_a tests the register's low word sign extended, and keeps all of it for Z.
  tst_value : Size → Operand → M S (Unit {0})
  unfolding source set_logic_flags set_flags
  tst_value word Operand.addr_reg = do
    res ← gets (λ c. sext16 (c.dar (ay c)))
    f ← gets (λ c. c.flags)
    set_flags record { x = f.x; n = nflag word res; not_z = res; v = 0; c = 0 }
  tst_value size operand = source size operand >>= set_logic_flags size

  tst : Size → Operand → M S (Unit {0})
  unfolding tst_value illegal
  tst size operand = do
    cpu_type ← gets (λ c. c.cpu_type)
    let test = tst_value size operand
    if later_operand operand && not (is_ec020_plus cpu_type) then illegal else test

  unfoldable pub tst_8 : Operand → M S (Unit {0})
  unfolding tst
  tst_8 operand = tst byte operand

  unfoldable pub tst_16 : Operand → M S (Unit {0})
  unfolding tst
  tst_16 operand = tst word operand

  unfoldable pub tst_32 : Operand → M S (Unit {0})
  unfolding tst
  tst_32 operand = tst long operand
