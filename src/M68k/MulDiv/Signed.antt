-- ===== src/M68k/MulDiv/Signed.antt =====
-- About MULS with word operands.
use native.Mathlib.Nat.{mul_comm, mul-add, add-mul, mul-le-mul}
use cute_mac.Base.{
  ℕ, suc, ◌+◌, ◌-◌, ◌*◌, ◌%◌, ◌^◌, ◌≤◌, ◌<◌, true, false, ltb, ◌≡◌, refl, sym, ap, ◌∙◌, arith,
  Bool-cases, inl, inr, u32, sext16, pos, negsuc, ◌*ℤ◌, sub_ℕ,
}
use cute_mac.M68k.Flags.{long, word, Flags, cond, extend}
use cute_mac.M68k.Flags.Laws.{cond-mi, cond-eq}
use cute_mac.M68k.Alu.Spec.{signed}
use cute_mac.M68k.MulDiv.{alu_muls, product_flags}
use cute_mac.M68k.MulDiv.Laws.{IsExact, sign_of_long}

-- The product of the 32-bit words of two small integers, with one or two of them negative.
one_negative :
    (a b : ℕ) → a < 2 ^ 16 → 0 < b → b ≤ 2 ^ 15 → u32 (a * (2 ^ 32 - b)) ≡ (2 ^ 32 - a * b) % 2 ^ 32
one_negative a b small nonzero low =
    let bound : a * b ≤ 65535 * 32768 = mul-le-mul {n₂ = 65535} {m₂ = 32768} (omega arith) low in
    let whole : a * (2 ^ 32 - b) + a * b ≡ a * 2 ^ 32 =
      sym (mul-add a (2 ^ 32 - b) b)
      ∙ ap (λ (t : ℕ). a * t) {x = 2 ^ 32 - b + b} {y = 2 ^ 32} (omega arith) in
    omega (arith, whole, bound)

two_negative :
    (a b : ℕ) → 0 < a → a ≤ 2 ^ 15 → 0 < b → b ≤ 2 ^ 15 → u32 ((2 ^ 32 - a) * (2 ^ 32 - b)) ≡ a * b
two_negative a b pos_a low_a pos_b low_b =
    let bound : a * b ≤ 32768 * 32768 = mul-le-mul {n₂ = 32768} {m₂ = 32768} low_a low_b in
    let outer : (2 ^ 32 - a) * (2 ^ 32 - b) + a * (2 ^ 32 - b) ≡ 2 ^ 32 * (2 ^ 32 - b) =
      sym (add-mul (2 ^ 32 - a) a (2 ^ 32 - b))
      ∙ ap (λ (t : ℕ). t * (2 ^ 32 - b)) {x = 2 ^ 32 - a + a} {y = 2 ^ 32} (omega arith) in
    let inner : a * (2 ^ 32 - b) + a * b ≡ a * 2 ^ 32 =
      sym (mul-add a (2 ^ 32 - b) b)
      ∙ ap (λ (t : ℕ). a * t) {x = 2 ^ 32 - b + b} {y = 2 ^ 32} (omega arith) in
    omega (arith, outer, inner, bound)

signed_negative : (p : ℕ) → p ≤ 2 ^ 31 → signed long ((2 ^ 32 - p) % 2 ^ 32) ≡ sub_ℕ 0 p
signed_negative p small = ground arith

signed_positive : (p : ℕ) → p < 2 ^ 31 → signed long p ≡ pos p
signed_positive p small = ground arith

negative_times : (a b : ℕ) → 0 < a → negsuc (a - 1) *ℤ pos b ≡ sub_ℕ 0 (a * b)
unfolding ◌*ℤ◌
negative_times a b pos_a = let e : suc (a - 1) ≡ a = omega arith in rw e (ground arith)

times_negative : (a b : ℕ) → 0 < b → pos a *ℤ negsuc (b - 1) ≡ sub_ℕ 0 (a * b)
unfolding ◌*ℤ◌
times_negative a b pos_b = let e : suc (b - 1) ≡ b = omega arith in rw e (ground arith)

both_negative : (a b : ℕ) → 0 < a → 0 < b → negsuc (a - 1) *ℤ negsuc (b - 1) ≡ pos (a * b)
unfolding ◌*ℤ◌
both_negative a b pos_a pos_b =
    let e : suc (a - 1) ≡ a = omega arith in
    let g : suc (b - 1) ≡ b = omega arith in rw (e, g) (ground arith)

both_positive : (a b : ℕ) → pos a *ℤ pos b ≡ pos (a * b)
unfolding ◌*ℤ◌
both_positive a b = ground arith

-- A word that is negative, as the 32-bit word that it is widened to.
widened : (x : ℕ) → x < 2 ^ 16 → ltb x 0x8000 ≡ false → sext16 x ≡ 2 ^ 32 - (2 ^ 16 - x)
widened x small t = ground arith

kept : (x : ℕ) → ltb x 0x8000 ≡ true → sext16 x ≡ x
kept x t = ground arith

signed_product :
    (x y : ℕ)
    → x < 2 ^ 16
    → y < 2 ^ 16
    → signed long (u32 (sext16 x * sext16 y)) ≡ signed word x *ℤ signed word y
signed_product x y hx hy = elim (Bool-cases (ltb x 0x8000)) [
  | inl t ↦ elim (Bool-cases (ltb y 0x8000)) [
    | inl u ↦
        let bound : x * y ≤ 32767 * 32767 =
          mul-le-mul {n₂ = 32767} {m₂ = 32767} (ground arith) (ground arith) in
        let e : u32 (x * y) ≡ x * y = omega (arith, bound) in
        rw (kept x t, kept y u, t, u, e, both_positive x y)
          (signed_positive (x * y) (omega (arith, bound)))
    | inr u ↦
        let b = 2 ^ 16 - y in
        let bound : x * b ≤ 32767 * 32768 =
          mul-le-mul {n₂ = 32767} {m₂ = 32768} (ground arith) (ground arith) in
        rw
          (
            kept x t,
            widened y hy u,
            t,
            u,
            one_negative x b hx (omega arith) (ground arith),
            times_negative x b (omega arith),
          )
          (signed_negative (x * b) (omega (arith, bound)))
  ]
  | inr t ↦ elim (Bool-cases (ltb y 0x8000)) [
    | inl u ↦
        let a = 2 ^ 16 - x in
        let bound : y * a ≤ 32767 * 32768 =
          mul-le-mul {n₂ = 32767} {m₂ = 32768} (ground arith) (ground arith) in
        rw
          (
            widened x hx t,
            kept y u,
            t,
            u,
            negative_times a y (omega arith),
            mul_comm (2 ^ 32 - a) y,
            mul_comm a y,
            one_negative y a hy (omega arith) (ground arith),
          )
          (signed_negative (y * a) (omega (arith, bound)))
    | inr u ↦
        let a = 2 ^ 16 - x in
        let b = 2 ^ 16 - y in
        let bound : a * b ≤ 32768 * 32768 =
          mul-le-mul {n₂ = 32768} {m₂ = 32768} (ground arith) (ground arith) in
        rw
          (
            widened x hx t,
            widened y hy u,
            t,
            u,
            two_negative a b (omega arith) (ground arith) (omega arith) (ground arith),
            both_negative a b (omega arith) (omega arith),
          )
          (signed_positive (a * b) (omega (arith, bound)))
  ]
]

-- MULS, for every pair of words: the result is the signed product of the operand and the low word
-- of the register, N and Z are those of the result, V and C are clear, and X is as before.
pub alu_muls-IsExact :
    (src dst : ℕ) (f : Flags)
    → src < 2 ^ 16
    → (v : ℕ) × (v < 2 ^ 32)
      × (signed long v ≡ signed word src *ℤ signed word (dst % 2 ^ 16))
      × IsExact v f (alu_muls src dst f)
unfolding alu_muls cond extend
alu_muls-IsExact src dst f small =
    let v = u32 (sext16 src * sext16 (dst % 2 ^ 16)) in
    (
      v,
      omega arith,
      signed_product src (dst % 2 ^ 16) small (omega arith),
      record {
        value_is = refl;
        negative = cond-mi (product_flags v f) ∙ sign_of_long v (omega arith);
        zero_out = cond-eq (product_flags v f);
        no_overflow = refl;
        no_carry = refl;
        extend_kept = refl;
      },
    )
