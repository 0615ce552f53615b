-- ===== src/M68k/Shift/Immediate.antt =====
-- About LSL with a count in the instruction.
use native.Mathlib.Nat.{mul-div-mul_right, div-div-eq-div-mul}
use cute_mac.Base.{
  ℕ, ◌+◌, ◌-◌, ◌*◌, ◌/◌, ◌%◌, ◌^◌, ◌≤◌, ◌<◌, bit, pow_pos, ◌>>>◌, ◌≡◌, sym, ap, ◌∙◌, arith,
}
use cute_mac.M68k.Flags.{Size, byte, word, long, width, Flags}
use cute_mac.M68k.Alu.Spec.{modulus}
use cute_mac.M68k.Shift.{alu_lsl_s, carry_left_s}
use cute_mac.M68k.Shift.Laws.{IsShift, pow_sum, shifted-IsShift, left_value, below_modulus}

last_left :
    (k src count : ℕ) → count ≤ k → src >>> (k - count) / 2 ^ 8 ≡ src * 2 ^ count / 2 ^ (k + 8)
last_left k src count le =
    div-div-eq-div-mul src (2 ^ (k - count)) (2 ^ 8)
    ∙ sym (
        ap (λ (t : ℕ). src * 2 ^ count / t)
          (ap (λ (t : ℕ). 2 ^ t) {x = k + 8} {y = k - count + 8 + count} (omega arith)
            ∙ pow_sum (k - count + 8) count
            ∙ ap (λ (t : ℕ). t * 2 ^ count) (pow_sum (k - count) 8))
        ∙ mul-div-mul_right src (2 ^ (k - count) * 2 ^ 8) (pow_pos count))

left_carry_s :
    (size : Size) (count src : ℕ)
    → count ≤ 8
    → bit 8 (carry_left_s size count src) ≡ bit (width size) (src * 2 ^ count)
left_carry_s byte count src fits = omega arith
left_carry_s word count src fits = omega (arith, last_left 8 src count fits)
left_carry_s long count src fits = omega (arith, last_left 24 src count (omega arith))

-- LSL by a count of 1 to 8 in the instruction: the operand times 2 ^ count, modulo the size; C
-- and X are the last bit that left it, which is bit `width` of the product, N and Z are those of
-- the result, and V is clear.
pub alu_lsl_s-IsShift :
    (size : Size) (count src : ℕ) (f : Flags)
    → 0 < count
    → count ≤ 8
    → IsShift size count
        (src * 2 ^ count % modulus size)
        (bit (width size) (src * 2 ^ count))
        f
        (alu_lsl_s size count src f)
unfolding alu_lsl_s
alu_lsl_s-IsShift size count src f above fits = rw (left_value size (src * 2 ^ count)) (
    shifted-IsShift size count (src * 2 ^ count % modulus size) (bit (width size) (src * 2 ^ count))
      (carry_left_s size count src) f (below_modulus size (src * 2 ^ count)) (ground arith)
      (left_carry_s size count src fits))
