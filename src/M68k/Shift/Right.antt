-- ===== src/M68k/Shift/Right.antt =====
-- About LSR, and the shifts with a count in the instruction.
use native.Mathlib.Decide.{ℕ_discrete}
use native.Mathlib.Nat.{mul-div-mul_right, div-eq_of_lt, div-le_self, mul_assoc}
use cute_mac.Base.{
  ℕ, suc, ◌+◌, ◌-◌, ◌*◌, ◌/◌, ◌^◌, ◌≤◌, ◌<◌, bit, bit_and, bit_and-pow, half_pow, pow_pos, false,
  Bool-cases, inl, inr, leb, ◌==◌, shl32, ◌>>>◌, ◌≡◌, refl, sym, ap, ◌∙◌, arith,
}
use cute_mac.M68k.Flags.{Size, byte, word, long, Flags}
use cute_mac.M68k.Flags.Laws.{cond-mi, cond-eq, cond-cs, extend-bit}
use cute_mac.M68k.Alu.{Result}
use cute_mac.M68k.Alu.Spec.{modulus, half}
use cute_mac.M68k.Shift.{alu_lsr, alu_lsr_s, carry_right, carry_beyond, greatest}
use cute_mac.M68k.Shift.Laws.{
  IsShift, clear, pow_le, pow_sum, not_shifted-IsShift, shifted-IsShift, below_modulus,
}

abbrev right : ℕ → ℕ → Flags → Result
right value carry f = record {
  value = value;
  flags = record { x = carry; n = 0; not_z = value; v = 0; c = carry };
}

right-IsShift :
    (size : Size) (count value last carry : ℕ) (f : Flags)
    → value < half size
    → (count == 0) ≡ false
    → bit 8 carry ≡ last
    → IsShift size count value last f (right value carry f)
right-IsShift size count value last carry f small nonzero out = record {
  value_is = refl;
  carry_out = cond-cs (right value carry f).flags ∙ ap (leb 1) out;
  extend_out = rw nonzero (extend-bit (right value carry f).flags ∙ ap (leb 1) out);
  negative = cond-mi (right value carry f).flags ∙ low size value small;
  zero_out = cond-eq (right value carry f).flags;
  no_overflow = clear (right value carry f).flags refl;
}
  where
    low : (size : Size) (v : ℕ) → v < half size → false ≡ leb (half size) v
    low byte v below = ground arith
    low word v below = ground arith
    low long v below = ground arith

-- A shift by a count above 0 halves first.
halved : (src count : ℕ) → 0 < count → src / 2 ^ count ≡ src / 2 / 2 ^ (count - 1)
halved src count above =
    ap (λ (t : ℕ). src / 2 ^ t) {x = count} {y = suc (count - 1)} (omega arith)
    ∙ half_pow src (count - 1)

right_bound :
    (size : Size) (count src : ℕ) → src < modulus size → 0 < count → src / 2 ^ count < half size
right_bound byte count src small above =
    omega (arith, halved src count above, div-le_self (src / 2) (2 ^ (count - 1)))
right_bound word count src small above =
    omega (arith, halved src count above, div-le_self (src / 2) (2 ^ (count - 1)))
right_bound long count src small above =
    omega (arith, halved src count above, div-le_self (src / 2) (2 ^ (count - 1)))

-- The bit shifted out last, by a left shift of the rest.
by_left :
    (src count : ℕ) → 0 < count → count ≤ 8 → bit 8 (shl32 src (9 - count)) ≡ bit count (src * 2)
by_left src count above fits =
    let split : 2 ^ 8 ≡ 2 ^ count * 2 ^ (8 - count) =
      ap (λ (t : ℕ). 2 ^ t) {x = 8} {y = count + (8 - count)} (omega arith)
      ∙ pow_sum count (8 - count) in
    let up : src * 2 ^ (9 - count) ≡ src * 2 * 2 ^ (8 - count) =
      ap (λ (t : ℕ). src * 2 ^ t) {x = 9 - count} {y = 1 + (8 - count)} (omega arith)
      ∙ ap (λ (t : ℕ). src * t) (pow_sum 1 (8 - count))
      ∙ sym (mul_assoc src 2 (2 ^ (8 - count))) in
    let e : src * 2 ^ (9 - count) / 2 ^ 8 ≡ src * 2 / 2 ^ count =
      ap (λ (t : ℕ). t / 2 ^ 8) up
      ∙ ap (λ (t : ℕ). src * 2 * 2 ^ (8 - count) / t) split
      ∙ mul-div-mul_right (src * 2) (2 ^ count) (pow_pos (8 - count)) in
    omega (arith, e)

by_right : (src count : ℕ) → 0 < count → bit 8 (shl32 (src >>> (count - 1)) 8) ≡ bit count (src * 2)
by_right src count above =
    let e : src * 2 / 2 ≡ src = omega arith in
    let h : src * 2 / 2 ^ count ≡ src / 2 ^ (count - 1) =
      halved (src * 2) count above ∙ ap (λ (t : ℕ). t / 2 ^ (count - 1)) e in
    omega (arith, h)

right_carry :
    (size : Size) (count src : ℕ)
    → 0 < count
    → count ≤ greatest size
    → bit 8 (carry_right size count src) ≡ bit count (src * 2)
right_carry byte count src above fits = by_left src count above fits
right_carry word count src above fits = by_right src count above
right_carry long count src above fits = by_right src count above

gone :
    (size : Size) (count src : ℕ) → src < modulus size → greatest size < count → src / 2 ^ count ≡ 0
gone byte count src small above =
    div-eq_of_lt (let le = pow_le 8 count (omega arith) in omega (arith, le))
gone word count src small above =
    div-eq_of_lt (let le = pow_le 16 count (omega arith) in omega (arith, le))
gone long count src small above =
    div-eq_of_lt (let le = pow_le 32 count (omega arith) in omega (arith, le))

gone_carry :
    (size : Size) (count src : ℕ)
    → src < modulus size
    → greatest size < count
    → bit 8 (carry_beyond size count (bit_and src 0x80000000 >>> 23)) ≡ bit count (src * 2)
gone_carry byte count src small above =
    let le = pow_le 9 count (omega arith) in
    let e : src * 2 / 2 ^ count ≡ 0 = div-eq_of_lt (omega (arith, le)) in omega (arith, e)
gone_carry word count src small above =
    let le = pow_le 17 count (omega arith) in
    let e : src * 2 / 2 ^ count ≡ 0 = div-eq_of_lt (omega (arith, le)) in omega (arith, e)
gone_carry long count src small above = elim (ℕ_discrete count 32) [
  | yes e ↦ rw e (omega (arith, bit_and-pow 31 src))
  | no e ↦
      let off : (count == 32) ≡ false = ground arith in
      let le = pow_le 33 count (omega arith) in
      let z : src * 2 / 2 ^ count ≡ 0 = div-eq_of_lt (omega (arith, le)) in
      rw off (omega (arith, z))
]

-- LSR by a register: the quotient of an operand of the size by 2 ^ count; C is the last bit that
-- left it, which is bit `count` of twice the operand, X is that bit too but as before where the
-- count is 0, N and Z are those of the result, and V is clear.
pub alu_lsr-IsShift :
    (size : Size) (count src : ℕ) (f : Flags)
    → src < modulus size
    → IsShift size count (src / 2 ^ count) (bit count (src * 2)) f (alu_lsr size count src f)
unfolding alu_lsr
alu_lsr-IsShift size count src f small = elim (ℕ_discrete count 0) [
  | yes e ↦
      let whole : src / 2 ^ 0 ≡ src = omega arith in
      rw (e, whole) (not_shifted-IsShift size src (bit 0 (src * 2)) f small (omega arith))
  | no e ↦
      let nonzero : (count == 0) ≡ false = ground arith in
      elim (Bool-cases (leb count (greatest size))) [
        | inl t ↦
            rw (nonzero, t)
              (right-IsShift size count (src / 2 ^ count) (bit count (src * 2))
                (carry_right size count src) f (right_bound size count src small (omega arith))
                nonzero (right_carry size count src (omega arith) (ground arith)))
        | inr t ↦
            rw (nonzero, t, gone size count src small (ground arith))
              (shifted-IsShift size count 0 (bit count (src * 2))
                (carry_beyond size count (bit_and src 0x80000000 >>> 23)) f
                (omega (arith, below_modulus size 0)) nonzero
                (gone_carry size count src small (ground arith)))
      ]
]

-- LSR by a count of 1 to 8 in the instruction: the quotient of an operand of the size by 2 ^
-- count; C and X are the last bit that left it, which is bit `count` of twice the operand, N and
-- Z are those of the result, and V is clear.
pub alu_lsr_s-IsShift :
    (size : Size) (count src : ℕ) (f : Flags)
    → src < modulus size
    → 0 < count
    → count ≤ 8
    → IsShift size count (src / 2 ^ count) (bit count (src * 2)) f (alu_lsr_s size count src f)
unfolding alu_lsr_s
alu_lsr_s-IsShift size count src f small above fits =
    right-IsShift size count (src / 2 ^ count) (bit count (src * 2)) (shl32 src (9 - count)) f
      (right_bound size count src small above) (ground arith) (by_left src count above fits)
