-- ===== src/M68k/Shift/Memory.antt =====
-- The shifts and rotates by one place of a word in memory, the handlers m68k_op_asr_16_ai,
-- asl_16_ai, lsr_16_…, lsl_16_…, ror_16_…, rol_16_…, roxr_16_… and roxl_16_… of m68kops.c.
use cute_mac.Base.{ℕ, bit_and, bit_or, ◌||◌, ◌==◌, if◌then◌else◌, shl32, ◌>>>◌}
use cute_mac.M68k.Flags.{word, Flags, mask_out_above, nflag, xflag_as_1}
use cute_mac.M68k.Cpu.{Host, M, ◌>>=◌, ◌>>◌, gets}
use cute_mac.M68k.Memory.{read, write}
use cute_mac.M68k.Ea.{Mode, ay, ea_of}
use cute_mac.M68k.Alu.{Result}
use cute_mac.M68k.Ops.{set_flags}

-- `res |= 0x8000` where the sign bit of the operand is set.
abbrev pub with_sign_bit : ℕ → ℕ → ℕ
with_sign_bit src res = if bit_and src 0x8000 == 0 then res else bit_or res 0x8000

-- A shift sets X and C to the same word, a rotate leaves X.
abbrev shifted_word : ℕ → ℕ → ℕ → Flags → Result
shifted_word value carry v f = record {
  value = value;
  flags = record { x = carry; n = nflag word value; not_z = value; v = v; c = carry };
}

abbrev rotated_word : ℕ → ℕ → Flags → Result
rotated_word value carry f = record {
  value = value;
  flags = record { x = f.x; n = nflag word value; not_z = value; v = 0; c = carry };
}

unfoldable pub alu_asr_1 : ℕ → Flags → Result
alu_asr_1 src f = shifted_word (with_sign_bit src (src >>> 1)) (shl32 src 8) 0 f

unfoldable pub alu_asl_1 : ℕ → Flags → Result
alu_asl_1 src f =
    let top = bit_and src 0xc000 in
    let v = if (top == 0) || (top == 0xc000) then 0 else 0x80 in
    shifted_word (mask_out_above word (shl32 src 1)) (src >>> 7) v f

unfoldable pub alu_lsr_1 : ℕ → Flags → Result
alu_lsr_1 src f = record {
  value = src >>> 1;
  flags = record { x = shl32 src 8; n = 0; not_z = src >>> 1; v = 0; c = shl32 src 8 };
}

unfoldable pub alu_lsl_1 : ℕ → Flags → Result
alu_lsl_1 src f = shifted_word (mask_out_above word (shl32 src 1)) (src >>> 7) 0 f

unfoldable pub alu_ror_1 : ℕ → Flags → Result
alu_ror_1 src f =
    rotated_word (mask_out_above word (bit_or (src >>> 1) (shl32 src 15))) (shl32 src 8) f

unfoldable pub alu_rol_1 : ℕ → Flags → Result
alu_rol_1 src f =
    rotated_word (mask_out_above word (bit_or (shl32 src 1) (src >>> 15))) (src >>> 7) f

-- ROR_17 and ROL_17 by one place, of the operand with X above it.
abbrev pub above_x : ℕ → Flags → ℕ
above_x src f = bit_or src (shl32 (xflag_as_1 f) 16)

abbrev pub ror_17 : ℕ → ℕ
ror_17 a = bit_or (a >>> 1) (shl32 a 16)

abbrev pub rol_17 : ℕ → ℕ
rol_17 a = bit_or (shl32 a 1) (a >>> 16)

module _ {S : Type 0} ⦃host : Host S⦄ where
  -- The word is written before the flags are set.
  unfoldable pub shift_mem : (ℕ → Flags → Result) → Mode → M S (Unit {0})
  unfolding ea_of read write set_flags
  shift_mem operation mode = do
    ea ← ea_of word ay mode
    src ← read word ea
    f ← gets (λ c. c.flags)
    let result = operation src f
    write word ea result.value
    set_flags result.flags

  -- X and C are set before the word is written, the others behind it.
  unfoldable pub rotate_mem : (ℕ → ℕ) → Mode → M S (Unit {0})
  unfolding ea_of read write set_flags
  rotate_mem rotate mode = do
    ea ← ea_of word ay mode
    src ← read word ea
    f ← gets (λ c. c.flags)
    let wide = rotate (above_x src f)
    let res = mask_out_above word wide
    set_flags (record f { x = wide >>> 8; c = wide >>> 8 })
    write word ea res
    set_flags (record { x = wide >>> 8; n = nflag word res; not_z = res; v = 0; c = wide >>> 8 })

  unfoldable pub asr_16_mem : Mode → M S (Unit {0})
  unfolding shift_mem
  asr_16_mem mode = shift_mem alu_asr_1 mode

  unfoldable pub asl_16_mem : Mode → M S (Unit {0})
  unfolding shift_mem
  asl_16_mem mode = shift_mem alu_asl_1 mode

  unfoldable pub lsr_16_mem : Mode → M S (Unit {0})
  unfolding shift_mem
  lsr_16_mem mode = shift_mem alu_lsr_1 mode

  unfoldable pub lsl_16_mem : Mode → M S (Unit {0})
  unfolding shift_mem
  lsl_16_mem mode = shift_mem alu_lsl_1 mode

  unfoldable pub ror_16_mem : Mode → M S (Unit {0})
  unfolding shift_mem
  ror_16_mem mode = shift_mem alu_ror_1 mode

  unfoldable pub rol_16_mem : Mode → M S (Unit {0})
  unfolding shift_mem
  rol_16_mem mode = shift_mem alu_rol_1 mode

  unfoldable pub roxr_16_mem : Mode → M S (Unit {0})
  unfolding rotate_mem
  roxr_16_mem mode = rotate_mem ror_17 mode

  unfoldable pub roxl_16_mem : Mode → M S (Unit {0})
  unfolding rotate_mem
  roxl_16_mem mode = rotate_mem rol_17 mode
