-- ===== src/M68k/Ops/Add.antt =====
-- The handlers m68k_op_add_…, adda_…, addi_…, addq_… and addx_… of m68kops.c. A family of
-- handlers that differ in the addressing mode is one definition that takes the mode.
use cute_mac.Base.{◌+◌, u32, sext16}
use cute_mac.M68k.Flags.{Size, byte, word, long, mask_out_above}
use cute_mac.M68k.Cpu.{Host, M, ◌>>=◌, gets, set_da}
use cute_mac.M68k.Ea.{Mode, Operand, dx, dy, ax, ay, ea_of, oper_of, oper_i, source}
use cute_mac.M68k.Alu.{alu_add, alu_addx}
use cute_mac.M68k.Ops.{quick, update_reg, update_at, update_mem}

module _ {S : Type 0} where
  -- addx_…_rr.
  addx_rr : Size → M S (Unit {0})
  unfolding update_reg
  addx_rr size = do
    src ← gets (λ c. mask_out_above size (c.dar (dy c)))
    update_reg size dx (alu_addx size src)

  unfoldable pub addx_8_rr : M S (Unit {0})
  unfolding addx_rr
  addx_8_rr = addx_rr byte

  unfoldable pub addx_16_rr : M S (Unit {0})
  unfolding addx_rr
  addx_16_rr = addx_rr word

  unfoldable pub addx_32_rr : M S (Unit {0})
  unfolding addx_rr
  addx_32_rr = addx_rr long

  addq_reg : Size → M S (Unit {0})
  unfolding update_reg
  addq_reg size = do src ← gets quick; update_reg size dy (alu_add size src)

  -- addq_16_a and addq_32_a: the whole address register, and no flags.
  unfoldable pub addq_a : M S (Unit {0})
  unfolding set_da
  addq_a = do n ← gets ay; sum ← gets (λ c. u32 (c.dar (ay c) + quick c)); set_da n sum

module _ {S : Type 0} ⦃host : Host S⦄ where
  -- `DX += <ea>`.
  add_er : Size → Operand → M S (Unit {0})
  unfolding source update_reg
  add_er size operand = do src ← source size operand; update_reg size dx (alu_add size src)

  unfoldable pub add_8_er : Operand → M S (Unit {0})
  unfolding add_er
  add_8_er operand = add_er byte operand

  unfoldable pub add_16_er : Operand → M S (Unit {0})
  unfolding add_er
  add_16_er operand = add_er word operand

  unfoldable pub add_32_er : Operand → M S (Unit {0})
  unfolding add_er
  add_32_er operand = add_er long operand

  -- `<ea> += DX`.
  add_re : Size → Mode → M S (Unit {0})
  unfolding ea_of update_at
  add_re size mode = do
    ea ← ea_of size ay mode
    src ← gets (λ c. mask_out_above size (c.dar (dx c)))
    update_at size (alu_add size src) ea

  unfoldable pub add_8_re : Mode → M S (Unit {0})
  unfolding add_re
  add_8_re mode = add_re byte mode

  unfoldable pub add_16_re : Mode → M S (Unit {0})
  unfolding add_re
  add_16_re mode = add_re word mode

  unfoldable pub add_32_re : Mode → M S (Unit {0})
  unfolding add_re
  add_32_re mode = add_re long mode

  -- `AX += <ea>`, a word sign extended; no flags.
  unfoldable pub adda_16 : Operand → M S (Unit {0})
  unfolding source set_da
  adda_16 operand = do
    src ← source word operand
    n ← gets ax
    dst ← gets (λ c. c.dar (ax c))
    set_da n (u32 (dst + sext16 src))

  unfoldable pub adda_32 : Operand → M S (Unit {0})
  unfolding source set_da
  adda_32 operand = do
    src ← source long operand
    n ← gets ax
    dst ← gets (λ c. c.dar (ax c))
    set_da n (u32 (dst + src))

  -- addi_…_d, then the modes in memory, where the immediate is read before the address.
  addi_d : Size → M S (Unit {0})
  unfolding oper_i update_reg
  addi_d size = do src ← oper_i size; update_reg size dy (alu_add size src)

  addi_mem : Size → Mode → M S (Unit {0})
  unfolding oper_i update_mem
  addi_mem size mode = do src ← oper_i size; update_mem size mode (alu_add size src)

  addi : Size → Operand → M S (Unit {0})
  unfolding addi_d addi_mem
  addi size (Operand.mem mode) = addi_mem size mode
  addi size _ = addi_d size

  unfoldable pub addi_8 : Operand → M S (Unit {0})
  unfolding addi
  addi_8 operand = addi byte operand

  unfoldable pub addi_16 : Operand → M S (Unit {0})
  unfolding addi
  addi_16 operand = addi word operand

  unfoldable pub addi_32 : Operand → M S (Unit {0})
  unfolding addi
  addi_32 operand = addi long operand

  addq_mem : Size → Mode → M S (Unit {0})
  unfolding update_mem
  addq_mem size mode = do src ← gets quick; update_mem size mode (alu_add size src)

  addq : Size → Operand → M S (Unit {0})
  unfolding addq_reg addq_a addq_mem
  addq size (Operand.mem mode) = addq_mem size mode
  addq size Operand.addr_reg = addq_a
  addq size _ = addq_reg size

  unfoldable pub addq_8 : Operand → M S (Unit {0})
  unfolding addq
  addq_8 operand = addq byte operand

  unfoldable pub addq_16 : Operand → M S (Unit {0})
  unfolding addq
  addq_16 operand = addq word operand

  unfoldable pub addq_32 : Operand → M S (Unit {0})
  unfolding addq
  addq_32 operand = addq long operand

  -- addx_…_mm: both operands before their registers are decremented; the modes are `pd`, or
  -- `pd7` for a byte through A7.
  addx_mm : Size → Mode → Mode → M S (Unit {0})
  unfolding oper_of ea_of update_at
  addx_mm size from to = do
    src ← oper_of size ay from
    ea ← ea_of size ax to
    update_at size (alu_addx size src) ea

  unfoldable pub addx_8_mm : Mode → Mode → M S (Unit {0})
  unfolding addx_mm
  addx_8_mm from to = addx_mm byte from to

  unfoldable pub addx_16_mm : M S (Unit {0})
  unfolding addx_mm
  addx_16_mm = addx_mm word Mode.pd Mode.pd

  unfoldable pub addx_32_mm : M S (Unit {0})
  unfolding addx_mm
  addx_32_mm = addx_mm long Mode.pd Mode.pd
