-- ===== src/M68k/Ops/Immediate.antt =====
-- The handlers m68k_op_andi_…, ori_… and eori_… of m68kops.c on registers and memory, by size.
use cute_mac.Base.{bit_and, bit_or, bit_xor}
use cute_mac.M68k.Flags.{Size, byte, word, long}
use cute_mac.M68k.Cpu.{Host, M, ◌>>=◌}
use cute_mac.M68k.Ea.{Operand, dy, ay, ea_of, oper_i}
use cute_mac.M68k.Ops.Logic.{logic_reg, and_whole, flags_then_write, write_then_flags}

module _ {S : Type 0} ⦃host : Host S⦄ where
  -- andi, ori and eori read the immediate before the address.
  andi : Size → Operand → M S (Unit {0})
  unfolding oper_i ea_of flags_then_write logic_reg
  andi size (Operand.mem mode) = do
    src ← oper_i size
    ea ← ea_of size ay mode
    flags_then_write size (bit_and src) ea
  andi size _ = do src ← oper_i size; logic_reg size dy (and_whole size src)

  unfoldable pub andi_8 : Operand → M S (Unit {0})
  unfolding andi
  andi_8 operand = andi byte operand

  unfoldable pub andi_16 : Operand → M S (Unit {0})
  unfolding andi
  andi_16 operand = andi word operand

  unfoldable pub andi_32 : Operand → M S (Unit {0})
  unfolding andi
  andi_32 operand = andi long operand

  ori : Size → Operand → M S (Unit {0})
  unfolding oper_i ea_of write_then_flags logic_reg
  ori size (Operand.mem mode) = do
    src ← oper_i size
    ea ← ea_of size ay mode
    write_then_flags size (bit_or src) ea
  ori size _ = do src ← oper_i size; logic_reg size dy (λ old. bit_or old src)

  unfoldable pub ori_8 : Operand → M S (Unit {0})
  unfolding ori
  ori_8 operand = ori byte operand

  unfoldable pub ori_16 : Operand → M S (Unit {0})
  unfolding ori
  ori_16 operand = ori word operand

  unfoldable pub ori_32 : Operand → M S (Unit {0})
  unfolding ori
  ori_32 operand = ori long operand

  eori : Size → Operand → M S (Unit {0})
  unfolding oper_i ea_of write_then_flags logic_reg
  eori size (Operand.mem mode) = do
    src ← oper_i size
    ea ← ea_of size ay mode
    write_then_flags size (bit_xor src) ea
  eori size _ = do src ← oper_i size; logic_reg size dy (λ old. bit_xor old src)

  unfoldable pub eori_8 : Operand → M S (Unit {0})
  unfolding eori
  eori_8 operand = eori byte operand

  unfoldable pub eori_16 : Operand → M S (Unit {0})
  unfolding eori
  eori_16 operand = eori word operand

  unfoldable pub eori_32 : Operand → M S (Unit {0})
  unfolding eori
  eori_32 operand = eori long operand
