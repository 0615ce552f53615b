-- ===== src/M68k/Ops/Move.antt =====
-- The handlers m68k_op_move_…, movea_…, moveq_32, ext…, swap_32, lea_… and pea_… of m68kops.c. A
-- family of MOVE with one destination is one definition that takes the source.
use cute_mac.Base.{
  ◌+◌, ◌*◌, ◌%◌, ◌^◌, bit_and, bit_or, ◌==◌, if◌then◌else◌, u32, sext8, sext16, ◌>>>◌,
}
use cute_mac.M68k.Flags.{Size, byte, word, long}
use cute_mac.M68k.Cpu.{Host, M, ◌>>=◌, ◌>>◌, gets, set_da, is_ec020_plus}
use cute_mac.M68k.Memory.{write, push}
use cute_mac.M68k.Exception.{illegal}
use cute_mac.M68k.Ea.{
  Mode, ai, pi, pi7, pd, pd7, di, ix, aw, al, Operand, dx, dy, ax, ay, ea_of, source,
}
use cute_mac.M68k.Ops.{merge}
use cute_mac.M68k.Ops.Logic.{set_logic_flags, logic_reg}

module _ {S : Type 0} where
  unfoldable pub moveq_32 : M S (Unit {0})
  unfolding set_da set_logic_flags
  moveq_32 = do n ← gets dx; res ← gets (λ c. sext8 c.ir); set_da n res; set_logic_flags long res

  unfoldable pub ext_16 : M S (Unit {0})
  unfolding set_da set_logic_flags
  ext_16 = do
    n ← gets dy
    old ← gets (λ c. c.dar n)
    let sign = if bit_and old 0x80 == 0 then 0 else 0xff00
    let new = bit_or (bit_or (merge word old 0) (old % 2 ^ 8)) sign
    set_da n new
    set_logic_flags word new

  unfoldable pub ext_32 : M S (Unit {0})
  unfolding logic_reg
  ext_32 =
      logic_reg long dy
        λ old. bit_or (old % 2 ^ 16) (if bit_and old 0x8000 == 0 then 0 else 0xffff0000)

  unfoldable pub swap_32 : M S (Unit {0})
  unfolding logic_reg
  swap_32 = logic_reg long dy λ old. bit_or (old >>> 16) (u32 (old * 2 ^ 16))

module _ {S : Type 0} ⦃host : Host S⦄ where
  unfoldable pub extb_32 : M S (Unit {0})
  unfolding logic_reg illegal
  extb_32 = do
    cpu_type ← gets (λ c. c.cpu_type)
    let extend =
        logic_reg long dy
          λ old. bit_or (old % 2 ^ 8) (if bit_and old 0x80 == 0 then 0 else 0xffffff00)
    if is_ec020_plus cpu_type then extend else illegal

  move_to_d : Size → Operand → M S (Unit {0})
  unfolding source set_da set_logic_flags
  move_to_d size operand = do
    res ← source size operand
    n ← gets dx
    old ← gets (λ c. c.dar n)
    set_da n (merge size old res)
    set_logic_flags size res

  move_to : Size → Mode → Operand → M S (Unit {0})
  unfolding source ea_of write set_logic_flags
  move_to size mode operand = do
    res ← source size operand
    ea ← ea_of size ax mode
    write size ea res
    set_logic_flags size res

  -- MOVE.L to -(An) writes the low word first.
  move_to_pd_32 : Operand → M S (Unit {0})
  unfolding source ea_of write set_logic_flags
  move_to_pd_32 operand = do
    res ← source long operand
    ea ← ea_of long ax pd
    write word (u32 (ea + 2)) (bit_and res 0xffff)
    write word ea (bit_and (res >>> 16) 0xffff)
    set_logic_flags long res

  unfoldable pub move_8_d : Operand → M S (Unit {0})
  unfolding move_to_d
  move_8_d operand = move_to_d byte operand

  unfoldable pub move_8_ai : Operand → M S (Unit {0})
  unfolding move_to
  move_8_ai operand = move_to byte ai operand

  unfoldable pub move_8_pi : Operand → M S (Unit {0})
  unfolding move_to
  move_8_pi operand = move_to byte pi operand

  unfoldable pub move_8_pi7 : Operand → M S (Unit {0})
  unfolding move_to
  move_8_pi7 operand = move_to byte pi7 operand

  unfoldable pub move_8_pd : Operand → M S (Unit {0})
  unfolding move_to
  move_8_pd operand = move_to byte pd operand

  unfoldable pub move_8_pd7 : Operand → M S (Unit {0})
  unfolding move_to
  move_8_pd7 operand = move_to byte pd7 operand

  unfoldable pub move_8_di : Operand → M S (Unit {0})
  unfolding move_to
  move_8_di operand = move_to byte di operand

  unfoldable pub move_8_ix : Operand → M S (Unit {0})
  unfolding move_to
  move_8_ix operand = move_to byte ix operand

  unfoldable pub move_8_aw : Operand → M S (Unit {0})
  unfolding move_to
  move_8_aw operand = move_to byte aw operand

  unfoldable pub move_8_al : Operand → M S (Unit {0})
  unfolding move_to
  move_8_al operand = move_to byte al operand

  unfoldable pub move_16_d : Operand → M S (Unit {0})
  unfolding move_to_d
  move_16_d operand = move_to_d word operand

  unfoldable pub move_16_ai : Operand → M S (Unit {0})
  unfolding move_to
  move_16_ai operand = move_to word ai operand

  unfoldable pub move_16_pi : Operand → M S (Unit {0})
  unfolding move_to
  move_16_pi operand = move_to word pi operand

  unfoldable pub move_16_pd : Operand → M S (Unit {0})
  unfolding move_to
  move_16_pd operand = move_to word pd operand

  unfoldable pub move_16_di : Operand → M S (Unit {0})
  unfolding move_to
  move_16_di operand = move_to word di operand

  unfoldable pub move_16_ix : Operand → M S (Unit {0})
  unfolding move_to
  move_16_ix operand = move_to word ix operand

  unfoldable pub move_16_aw : Operand → M S (Unit {0})
  unfolding move_to
  move_16_aw operand = move_to word aw operand

  unfoldable pub move_16_al : Operand → M S (Unit {0})
  unfolding move_to
  move_16_al operand = move_to word al operand

  unfoldable pub move_32_d : Operand → M S (Unit {0})
  unfolding move_to_d
  move_32_d operand = move_to_d long operand

  unfoldable pub move_32_ai : Operand → M S (Unit {0})
  unfolding move_to
  move_32_ai operand = move_to long ai operand

  unfoldable pub move_32_pi : Operand → M S (Unit {0})
  unfolding move_to
  move_32_pi operand = move_to long pi operand

  unfoldable pub move_32_di : Operand → M S (Unit {0})
  unfolding move_to
  move_32_di operand = move_to long di operand

  unfoldable pub move_32_ix : Operand → M S (Unit {0})
  unfolding move_to
  move_32_ix operand = move_to long ix operand

  unfoldable pub move_32_aw : Operand → M S (Unit {0})
  unfolding move_to
  move_32_aw operand = move_to long aw operand

  unfoldable pub move_32_al : Operand → M S (Unit {0})
  unfolding move_to
  move_32_al operand = move_to long al operand

  unfoldable pub move_32_pd : Operand → M S (Unit {0})
  unfolding move_to_pd_32
  move_32_pd operand = move_to_pd_32 operand

  unfoldable pub movea_16 : Operand → M S (Unit {0})
  unfolding source set_da
  movea_16 operand = do src ← source word operand; n ← gets ax; set_da n (sext16 src)

  unfoldable pub movea_32 : Operand → M S (Unit {0})
  unfolding source set_da
  movea_32 operand = do src ← source long operand; n ← gets ax; set_da n src

  unfoldable pub lea_32 : Mode → M S (Unit {0})
  unfolding ea_of set_da
  lea_32 mode = do ea ← ea_of long ay mode; n ← gets ax; set_da n ea

  unfoldable pub pea_32 : Mode → M S (Unit {0})
  unfolding ea_of push
  pea_32 mode = do ea ← ea_of long ay mode; push long ea
