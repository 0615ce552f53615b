-- ===== src/M68k/Ops/Sub.antt =====
-- The handlers m68k_op_sub_…, suba_…, subi_…, subq_…, subx_…, neg_… and negx_… of m68kops.c. A family of
-- handlers that differ in the addressing mode is one definition that takes the mode.
use cute_mac.Base.{sub32, sext16}
use cute_mac.M68k.Flags.{Size, byte, word, long, mask_out_above}
use cute_mac.M68k.Cpu.{Host, M, ◌>>=◌, gets, set_da}
use cute_mac.M68k.Ea.{Mode, Operand, dx, dy, ax, ay, ea_of, oper_of, oper_i, source}
use cute_mac.M68k.Alu.{alu_sub, alu_subx, alu_neg, alu_negx}
use cute_mac.M68k.Ops.{quick, update_reg, update_whole, update_at, update_mem}

module _ {S : Type 0} where
  -- subx_…_rr.
  subx_rr : Size → M S (Unit {0})
  unfolding update_reg
  subx_rr size = do
    src ← gets (λ c. mask_out_above size (c.dar (dy c)))
    update_reg size dx (alu_subx size src)

  unfoldable pub subx_8_rr : M S (Unit {0})
  unfolding subx_rr
  subx_8_rr = subx_rr byte

  unfoldable pub subx_16_rr : M S (Unit {0})
  unfolding subx_rr
  subx_16_rr = subx_rr word

  unfoldable pub subx_32_rr : M S (Unit {0})
  unfolding subx_rr
  subx_32_rr = subx_rr long

  subq_reg : Size → M S (Unit {0})
  unfolding update_reg
  subq_reg size = do src ← gets quick; update_reg size dy (alu_sub size src)

  -- subq_16_a and subq_32_a: the whole address register, and no flags.
  unfoldable pub subq_a : M S (Unit {0})
  unfolding set_da
  subq_a = do
    n ← gets ay
    difference ← gets (λ c. sub32 (c.dar (ay c)) (quick c))
    set_da n difference

module _ {S : Type 0} ⦃host : Host S⦄ where
  -- `DX -= <ea>`.
  sub_er : Size → Operand → M S (Unit {0})
  unfolding source update_reg
  sub_er size operand = do src ← source size operand; update_reg size dx (alu_sub size src)

  unfoldable pub sub_8_er : Operand → M S (Unit {0})
  unfolding sub_er
  sub_8_er operand = sub_er byte operand

  unfoldable pub sub_16_er : Operand → M S (Unit {0})
  unfolding sub_er
  sub_16_er operand = sub_er word operand

  unfoldable pub sub_32_er : Operand → M S (Unit {0})
  unfolding sub_er
  sub_32_er operand = sub_er long operand

  -- `<ea> -= DX`.
  sub_re : Size → Mode → M S (Unit {0})
  unfolding ea_of update_at
  sub_re size mode = do
    ea ← ea_of size ay mode
    src ← gets (λ c. mask_out_above size (c.dar (dx c)))
    update_at size (alu_sub size src) ea

  unfoldable pub sub_8_re : Mode → M S (Unit {0})
  unfolding sub_re
  sub_8_re mode = sub_re byte mode

  unfoldable pub sub_16_re : Mode → M S (Unit {0})
  unfolding sub_re
  sub_16_re mode = sub_re word mode

  unfoldable pub sub_32_re : Mode → M S (Unit {0})
  unfolding sub_re
  sub_32_re mode = sub_re long mode

  -- `AX -= <ea>`, a word sign extended; no flags.
  unfoldable pub suba_16 : Operand → M S (Unit {0})
  unfolding source set_da
  suba_16 operand = do
    src ← source word operand
    n ← gets ax
    dst ← gets (λ c. c.dar (ax c))
    set_da n (sub32 dst (sext16 src))

  unfoldable pub suba_32 : Operand → M S (Unit {0})
  unfolding source set_da
  suba_32 operand = do
    src ← source long operand
    n ← gets ax
    dst ← gets (λ c. c.dar (ax c))
    set_da n (sub32 dst src)

  -- subi_…_d, then the modes in memory, where the immediate is read before the address.
  subi_d : Size → M S (Unit {0})
  unfolding oper_i update_reg
  subi_d size = do src ← oper_i size; update_reg size dy (alu_sub size src)

  subi_mem : Size → Mode → M S (Unit {0})
  unfolding oper_i update_mem
  subi_mem size mode = do src ← oper_i size; update_mem size mode (alu_sub size src)

  subi : Size → Operand → M S (Unit {0})
  unfolding subi_d subi_mem
  subi size (Operand.mem mode) = subi_mem size mode
  subi size _ = subi_d size

  unfoldable pub subi_8 : Operand → M S (Unit {0})
  unfolding subi
  subi_8 operand = subi byte operand

  unfoldable pub subi_16 : Operand → M S (Unit {0})
  unfolding subi
  subi_16 operand = subi word operand

  unfoldable pub subi_32 : Operand → M S (Unit {0})
  unfolding subi
  subi_32 operand = subi long operand

  subq_mem : Size → Mode → M S (Unit {0})
  unfolding update_mem
  subq_mem size mode = do src ← gets quick; update_mem size mode (alu_sub size src)

  subq : Size → Operand → M S (Unit {0})
  unfolding subq_reg subq_a subq_mem
  subq size (Operand.mem mode) = subq_mem size mode
  subq size Operand.addr_reg = subq_a
  subq size _ = subq_reg size

  unfoldable pub subq_8 : Operand → M S (Unit {0})
  unfolding subq
  subq_8 operand = subq byte operand

  unfoldable pub subq_16 : Operand → M S (Unit {0})
  unfolding subq
  subq_16 operand = subq word operand

  unfoldable pub subq_32 : Operand → M S (Unit {0})
  unfolding subq
  subq_32 operand = subq long operand

  -- subx_…_mm: both operands before their registers are decremented; the modes are `pd`, or
  -- `pd7` for a byte through A7.
  subx_mm : Size → Mode → Mode → M S (Unit {0})
  unfolding oper_of ea_of update_at
  subx_mm size from to = do
    src ← oper_of size ay from
    ea ← ea_of size ax to
    update_at size (alu_subx size src) ea

  unfoldable pub subx_8_mm : Mode → Mode → M S (Unit {0})
  unfolding subx_mm
  subx_8_mm from to = subx_mm byte from to

  unfoldable pub subx_16_mm : M S (Unit {0})
  unfolding subx_mm
  subx_16_mm = subx_mm word Mode.pd Mode.pd

  unfoldable pub subx_32_mm : M S (Unit {0})
  unfolding subx_mm
  subx_32_mm = subx_mm long Mode.pd Mode.pd

  neg : Size → Operand → M S (Unit {0})
  unfolding update_whole update_mem
  neg size (Operand.mem mode) = update_mem size mode (alu_neg size)
  neg size _ = update_whole size dy (alu_neg size)

  unfoldable pub neg_8 : Operand → M S (Unit {0})
  unfolding neg
  neg_8 operand = neg byte operand

  unfoldable pub neg_16 : Operand → M S (Unit {0})
  unfolding neg
  neg_16 operand = neg word operand

  unfoldable pub neg_32 : Operand → M S (Unit {0})
  unfolding neg
  neg_32 operand = neg long operand

  negx : Size → Operand → M S (Unit {0})
  unfolding update_whole update_mem
  negx size (Operand.mem mode) = update_mem size mode (alu_negx size)
  negx size _ = update_whole size dy (alu_negx size)

  unfoldable pub negx_8 : Operand → M S (Unit {0})
  unfolding negx
  negx_8 operand = negx byte operand

  unfoldable pub negx_16 : Operand → M S (Unit {0})
  unfolding negx
  negx_16 operand = negx word operand

  unfoldable pub negx_32 : Operand → M S (Unit {0})
  unfolding negx
  negx_32 operand = negx long operand
