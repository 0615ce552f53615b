-- ===== src/M68k/Bcd/Laws.antt =====
-- About ABCD, SBCD and NBCD, in decimal.
use cute_mac.Base.{
  ℕ, ◌+◌, ◌-◌, ◌*◌, ◌/◌, ◌%◌, ◌≤◌, ◌<◌, bit_and, Bool, ◌&&◌, ◌==◌, ltb, leb, if◌then◌else◌, ◌≡◌,
  ◌∙◌, arith, bool_to_ℕ, bit_and-mask, bit_and-low, sub32, Option, none, some,
}
use cute_mac.M68k.Flags.{Flags, cond, cs, eq, extend, xflag_as_1}
use cute_mac.M68k.Flags.Laws.{
  cond-cs, cond-eq, extend-bit, extend-ℕ, xflag_as_1-bit, bit_or-eq-zero,
}
use cute_mac.M68k.Bcd.{low_nibble, high_nibble, alu_abcd, alu_sbcd, alu_nbcd}

-- Two decimal digits in a byte.
pub record IsBcd (a : ℕ) : Type 0 where
  pub low : a % 16 ≤ 9
  pub high : a / 16 ≤ 9

abbrev pub decimal : ℕ → ℕ
decimal a = a / 16 * 10 + a % 16

-- The value is two digits that stand for `n` modulo 100, C and X are `over`, and Z stays set only
-- where it was and the value is 0.
pub record IsDecimal (n : ℕ) (over zero_before : Bool) (value : ℕ) (f : Flags) : Type 0 where
  pub digits : IsBcd value
  pub stands_for : decimal value ≡ n % 100
  pub carry : cond cs f ≡ over
  pub extended : extend f ≡ over
  pub zero_out : cond eq f ≡ (zero_before && value == 0)

abbrev nbcd_digits : ℕ → Flags → ℕ
nbcd_digits d f =
    let res = sub32 (sub32 0x9a d) (xflag_as_1 f) % 256 in
    (if bit_and res 0x0f == 0xa then bit_and res 0xf0 + 0x10 else res) % 256

low_nibble_lem : (a : ℕ) → low_nibble a ≡ a % 16
low_nibble_lem a = bit_and-mask 4 a

high_nibble_lem : (a : ℕ) → a < 256 → high_nibble a ≡ a - a % 16
high_nibble_lem a h = omega (
  arith,
  bit_and-low a 0xf0,
  bit_and-low (a / 2) 0x78,
  bit_and-low (a / 2 / 2) 0x3c,
  bit_and-low (a / 2 / 2 / 2) 0x1e,
  bit_and-mask 4 (a / 2 / 2 / 2 / 2),
)

-- ABCD: for operands of two decimal digits, the result is their decimal sum with the extend bit,
-- modulo 100; C and X are set exactly when the sum is 100 or more, and Z stays set only where it
-- was set and the result is 0.
pub alu_abcd-IsDecimal :
    (src dst : ℕ) (f : Flags)
    → IsBcd src
    → IsBcd dst
    → let n = decimal src + decimal dst + bool_to_ℕ (extend f) in
      let r = alu_abcd src dst f in IsDecimal n (leb 100 n) (cond eq f) r.value r.flags
unfolding alu_abcd
alu_abcd-IsDecimal s d f hs hd =
    let ls = low_nibble_lem s in
    let ld = low_nibble_lem d in
    let us = high_nibble_lem s (omega arith) in
    let ud = high_nibble_lem d (omega arith) in
    let x = xflag_as_1-bit f in
    rw (extend-ℕ f) (record {
      digits = record { low = ground arith; high = ground arith };
      stands_for = ground arith;
      carry = cond-cs _ ∙ ground arith;
      extended = extend-bit _ ∙ ground arith;
      zero_out = cond-eq _ ∙ rw cond-eq (bit_or-eq-zero f.not_z _);
    })

-- SBCD: for operands of two decimal digits, the result is their decimal difference less the
-- extend bit, modulo 100; C and X are set exactly when the difference is below 0, and Z stays set
-- only where it was set and the result is 0.
pub alu_sbcd-IsDecimal :
    (src dst : ℕ) (f : Flags)
    → IsBcd src
    → IsBcd dst
    → let n = decimal src + bool_to_ℕ (extend f) in
      let r = alu_sbcd src dst f in
      IsDecimal (decimal dst + 100 - n) (ltb (decimal dst) n) (cond eq f) r.value r.flags
unfolding alu_sbcd
alu_sbcd-IsDecimal s d f hs hd =
    let ls = low_nibble_lem s in
    let ld = low_nibble_lem d in
    let us = high_nibble_lem s (omega arith) in
    let ud = high_nibble_lem d (omega arith) in
    let x = xflag_as_1-bit f in
    rw (extend-ℕ f) (record {
      digits = record { low = ground arith; high = ground arith };
      stands_for = ground arith;
      carry = cond-cs _ ∙ ground arith;
      extended = extend-bit _ ∙ ground arith;
      zero_out = cond-eq _ ∙ rw cond-eq (bit_or-eq-zero f.not_z _);
    })

abbrev pub written : ℕ → Option ℕ → ℕ
written old none = old
written old (some v) = v

-- NBCD: for an operand of two decimal digits, what it holds afterwards is 0 less the operand and
-- the extend bit, modulo 100; C and X are set exactly when that is below 0, and Z stays set only
-- where it was set and the result is 0. The handler writes nothing exactly in the case of 0
-- without extend.
pub alu_nbcd-IsDecimal :
    (dst : ℕ) (f : Flags)
    → IsBcd dst
    → let n = decimal dst + bool_to_ℕ (extend f) in
      let r = alu_nbcd dst f in IsDecimal (200 - n) (ltb 0 n) (cond eq f) (written dst r.0) r.1
unfolding alu_nbcd
alu_nbcd-IsDecimal d f hd =
    let res = (sub32 (sub32 0x9a d) (xflag_as_1 f)) % 256 in
    let lr = bit_and-mask 4 res in
    let ur = high_nibble_lem res (omega arith) in
    let x = xflag_as_1-bit f in
    rw (extend-ℕ f) (record {
      digits = record { low = ground arith; high = ground arith };
      stands_for = ground arith;
      carry = cond-cs _ ∙ ground arith;
      extended = extend-bit _ ∙ ground arith;
      zero_out = cond-eq _ ∙ rw cond-eq (ground (arith, bit_or-eq-zero f.not_z (nbcd_digits d f)));
    })
