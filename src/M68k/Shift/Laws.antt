-- ===== src/M68k/Shift/Laws.antt =====
-- About LSL and LSR.
use native.Mathlib.Decide.{ℕ_discrete}
use native.Mathlib.Nat.{pow-le-pow_right, pow-suc, mul_right_comm, mul-div-mul_right, mul_assoc}
use cute_mac.Base.{
  ℕ, zero, suc, ◌+◌, ◌-◌, ◌*◌, ◌/◌, ◌%◌, ◌^◌, ◌≤◌, ◌<◌, bit, bit_and, bit_and-pow, pow_pos, false,
  Bool-cases, inl, inr, leb, ◌==◌, if◌then◌else◌, shl32, ◌≡◌, refl, sym, ap, ◌∙◌, arith,
}
use cute_mac.M68k.Flags.{
  nflag, Size, byte, word, long, width, Flags, cond, extend, eq, mi, vs, cs, mask_out_above,
}
use cute_mac.M68k.Flags.Laws.{cond-vs, cond-mi, cond-eq, cond-cs, extend-bit}
use cute_mac.M68k.Alu.{Result}
use cute_mac.M68k.Alu.Spec.{modulus, half}
use cute_mac.M68k.Shift.{shifted, not_shifted, alu_lsl, carry_left, carry_beyond, greatest}

-- The result is `value` and the last bit shifted out is `last`; X is that bit too, unless the
-- count is 0.
pub record IsShift (size : Size) (count value last : ℕ) (before : Flags) (r : Result) : Type 0 where
  pub value_is : r.value ≡ value
  pub carry_out : cond cs r.flags ≡ leb 1 last
  pub extend_out : extend r.flags ≡ (if count == 0 then extend before else leb 1 last)
  pub negative : cond mi r.flags ≡ leb (half size) value
  pub zero_out : cond eq r.flags ≡ (value == 0)
  pub no_overflow : cond vs r.flags ≡ false

pub pow_le : (k j : ℕ) → k ≤ j → 2 ^ k ≤ 2 ^ j
pow_le k j le = pow-le-pow_right {n = 2} (omega arith) {i = k} {j = j} le

pub pow_sum : (k j : ℕ) → 2 ^ (k + j) ≡ 2 ^ k * 2 ^ j
pow_sum zero j = ap (λ (t : ℕ). 2 ^ t) {x = 0 + j} {y = j} (omega arith) ∙ omega arith
pow_sum (suc k) j =
    ap (λ (t : ℕ). 2 ^ t) {x = suc k + j} {y = suc (k + j)} (omega arith)
    ∙ pow-suc 2 (k + j)
    ∙ rw (pow_sum k j, pow-suc 2 k) (mul_right_comm (2 ^ k) (2 ^ j) 2)

-- 2 ^ count as a multiple of 2 ^ k.
multiple : (src k count : ℕ) → k ≤ count → src * 2 ^ count ≡ src * 2 ^ (count - k) * 2 ^ k
multiple src k count le =
    ap (λ (t : ℕ). src * 2 ^ t) {x = count} {y = count - k + k} (omega arith)
    ∙ ap (λ (t : ℕ). src * t) (pow_sum (count - k) k)
    ∙ sym (mul_assoc src (2 ^ (count - k)) (2 ^ k))

pub left_value : (size : Size) (p : ℕ) → mask_out_above size (p % 2 ^ 32) ≡ p % modulus size
left_value byte p = omega arith
left_value word p = omega arith
left_value long p = omega arith

left_carry :
    (size : Size) (count src : ℕ)
    → src < modulus size
    → 0 < count
    → count ≤ greatest size
    → bit 8 (carry_left size count src) ≡ bit (width size) (src * 2 ^ count)
left_carry byte count src small above fits = omega arith
left_carry word count src small above fits = omega arith
left_carry long count src small above fits =
    let e : src * 2 ^ count / 2 ^ 32 ≡ src / 2 ^ (32 - count) =
      ap (λ (t : ℕ). src * 2 ^ count / t)
        (ap (λ (t : ℕ). 2 ^ t) {x = 32} {y = 32 - count + count} (omega arith)
          ∙ pow_sum (32 - count) count)
      ∙ mul-div-mul_right src (2 ^ (32 - count)) (pow_pos count) in
    omega (arith, e)

sign : (size : Size) (v : ℕ) → v < modulus size → leb 1 (bit 7 (nflag size v)) ≡ leb (half size) v
sign byte v below = ground arith
sign word v below = ground arith
sign long v below = ground arith

pub clear : (g : Flags) → g.v ≡ 0 → cond vs g ≡ false
clear g e = cond-vs g ∙ rw e refl

-- Any flags with the word `carry` for X and C, and N and Z of the value.
pub shifted-IsShift :
    (size : Size) (count value last carry : ℕ) (f : Flags)
    → value < modulus size
    → (count == 0) ≡ false
    → bit 8 carry ≡ last
    → IsShift size count value last f (shifted size value carry f)
shifted-IsShift size count value last carry f small nonzero out = record {
  value_is = refl;
  carry_out = cond-cs (shifted size value carry f).flags ∙ ap (leb 1) out;
  extend_out = rw nonzero (extend-bit (shifted size value carry f).flags ∙ ap (leb 1) out);
  negative = cond-mi (shifted size value carry f).flags ∙ sign size value small;
  zero_out = cond-eq (shifted size value carry f).flags;
  no_overflow = clear (shifted size value carry f).flags refl;
}

pub not_shifted-IsShift :
    (size : Size) (src last : ℕ) (f : Flags)
    → src < modulus size
    → last ≡ 0
    → IsShift size 0 src last f (not_shifted size src f)
not_shifted-IsShift size src last f small none = record {
  value_is = refl;
  carry_out = cond-cs (not_shifted size src f).flags ∙ rw none refl;
  extend_out = kept (not_shifted size src f).flags refl;
  negative = cond-mi (not_shifted size src f).flags ∙ sign size src small;
  zero_out = cond-eq (not_shifted size src f).flags;
  no_overflow = clear (not_shifted size src f).flags refl;
}
  where
    kept : (g : Flags) → g.x ≡ f.x → extend g ≡ extend f
    kept g e = extend-bit g ∙ ap (λ x. leb 1 (bit 8 x)) e ∙ sym (extend-bit f)

pub below_modulus : (size : Size) (p : ℕ) → p % modulus size < modulus size
below_modulus byte p = omega arith
below_modulus word p = omega arith
below_modulus long p = omega arith

beyond_value :
    (size : Size) (count src : ℕ) → greatest size < count → src * 2 ^ count % modulus size ≡ 0
beyond_value byte count src above = omega (arith, multiple src 8 count (omega arith))
beyond_value word count src above = omega (arith, multiple src 16 count (omega arith))
beyond_value long count src above = omega (arith, multiple src 32 count (omega arith))

beyond_carry :
    (size : Size) (count src : ℕ)
    → greatest size < count
    → bit 8 (carry_beyond size count (shl32 (bit_and src 1) 8)) ≡ bit (width size) (src * 2 ^ count)
beyond_carry byte count src above = omega (arith, multiple src 9 count (omega arith))
beyond_carry word count src above = omega (arith, multiple src 17 count (omega arith))
beyond_carry long count src above = elim (ℕ_discrete count 32) [
  | yes e ↦ rw e (omega (arith, bit_and-pow 0 src))
  | no e ↦
      let off : (count == 32) ≡ false = ground arith in
      rw off (omega (arith, multiple src 33 count (omega arith)))
]

unshifted : (size : Size) (src : ℕ) → src < modulus size → src * 2 ^ 0 % modulus size ≡ src
unshifted byte src small = omega arith
unshifted word src small = omega arith
unshifted long src small = omega arith

no_last : (size : Size) (src : ℕ) → src < modulus size → bit (width size) (src * 2 ^ 0) ≡ 0
no_last byte src small = omega arith
no_last word src small = omega arith
no_last long src small = omega arith

-- LSL by a register: an operand of the size times 2 ^ count, modulo the size; C is the last bit
-- that left it, which is bit `width` of the product, X is that bit too but as before where the
-- count is 0, N and Z are those of the result, and V is clear.
pub alu_lsl-IsShift :
    (size : Size) (count src : ℕ) (f : Flags)
    → src < modulus size
    → IsShift size count
        (src * 2 ^ count % modulus size)
        (bit (width size) (src * 2 ^ count))
        f
        (alu_lsl size count src f)
unfolding alu_lsl
alu_lsl-IsShift size count src f small = elim (ℕ_discrete count 0) [
  | yes e ↦
      let whole : src * 2 ^ 0 % modulus size ≡ src = unshifted size src small in
      rw (e, whole)
        (not_shifted-IsShift size src (bit (width size) (src * 2 ^ 0)) f small
          (no_last size src small))
  | no e ↦
      let nonzero : (count == 0) ≡ false = ground arith in
      elim (Bool-cases (leb count (greatest size))) [
        | inl t ↦
            rw (nonzero, t, left_value size (src * 2 ^ count))
              (shifted-IsShift size count (src * 2 ^ count % modulus size)
                (bit (width size) (src * 2 ^ count)) (carry_left size count src) f
                (below_modulus size (src * 2 ^ count)) nonzero
                (left_carry size count src small (omega arith) (ground arith)))
        | inr t ↦
            rw (nonzero, t, beyond_value size count src (ground arith))
              (shifted-IsShift size count 0 (bit (width size) (src * 2 ^ count))
                (carry_beyond size count (shl32 (bit_and src 1) 8)) f
                (omega (arith, below_modulus size 0)) nonzero
                (beyond_carry size count src (ground arith)))
      ]
]
