-- ===== src/M68k/Bcd.antt =====
-- Binary coded decimal arithmetic: the bodies of m68k_op_abcd_…, sbcd_… and nbcd_… of m68kops.c.
use cute_mac.Base.{
  ℕ, ◌+◌, ◌*◌, ◌/◌, ◌%◌, ◌^◌, bit_and, bit_or, Option, none, some, ◌==◌, ltb, if◌then◌else◌, u32,
  sub32, not32,
}
use cute_mac.M68k.Flags.{byte, Flags, mask_out_above, xflag_as_1, cflag_set}
use cute_mac.M68k.Alu.{Result}
pub mod Laws

-- LOW_NIBBLE and HIGH_NIBBLE.
abbrev pub low_nibble : ℕ → ℕ
low_nibble a = bit_and a 0x0f

abbrev pub high_nibble : ℕ → ℕ
high_nibble a = bit_and a 0xf0

-- `res` in ABCD before the carry is taken off, given the sum of the low nibbles.
abbrev pub abcd_adjusted : ℕ → ℕ → ℕ → ℕ
abcd_adjusted src dst low = (if ltb 9 low then low + 6 else low) + high_nibble src + high_nibble dst

unfoldable pub alu_abcd : ℕ → ℕ → Flags → Result
alu_abcd src dst f =
    let low = low_nibble src + low_nibble dst + xflag_as_1 f in
    let sum = abcd_adjusted src dst low in
    let over = ltb 0x99 sum in
    let res = if over then sub32 sum 0xa0 else sum in
    let carry = if over then cflag_set else 0 in
    record {
      value = mask_out_above byte res;
      flags = record {
        x = carry;
        n = res;
        not_z = bit_or f.not_z (mask_out_above byte res);
        v = bit_and (not32 low) res;
        c = carry;
      };
    }

-- The words are unsigned: a difference below 0 is a large number, and so above 9 and 0x99.
abbrev pub sbcd_adjusted : ℕ → ℕ → ℕ → ℕ
sbcd_adjusted src dst low =
    u32 ((if ltb 9 low then sub32 low 6 else low) + sub32 (high_nibble dst) (high_nibble src))

unfoldable pub alu_sbcd : ℕ → ℕ → Flags → Result
alu_sbcd src dst f =
    let low = sub32 (sub32 (low_nibble dst) (low_nibble src)) (xflag_as_1 f) in
    let difference = sbcd_adjusted src dst low in
    let under = ltb 0x99 difference in
    let res = mask_out_above byte (if under then u32 (difference + 0xa0) else difference) in
    let borrow = if under then cflag_set else 0 in
    record {
      value = res;
      flags = record {
        x = borrow;
        n = res;
        not_z = bit_or f.not_z res;
        v = bit_and (not32 low) res;
        c = borrow;
      };
    }

-- What NBCD writes, or `none` where it leaves the operand as it is, and the flags. The low digit
-- 10 becomes 0 with a carry into the high digit.
unfoldable pub alu_nbcd : ℕ → Flags → Option ℕ × Flags
alu_nbcd dst f =
    let res = mask_out_above byte (sub32 (sub32 0x9a dst) (xflag_as_1 f)) in
    let digits =
      mask_out_above byte (if bit_and res 0x0f == 0xa then bit_and res 0xf0 + 0x10 else res) in
    if res == 0x9a then (none, record f { v = 0; c = 0; x = 0; n = res }) else (
      some digits,
      record {
        x = cflag_set;
        n = digits;
        not_z = bit_or f.not_z digits;
        v = bit_and (not32 res) digits;
        c = cflag_set;
      },
    )
