-- ===== src/M68k/MulDiv/Laws.antt =====
-- About MULU, MULS, DIVU and DIVS with word operands.
use native.Mathlib.Nat.{mul-le-mul, mul-le-mul_left, div-add-mod, mod-lt}
use cute_mac.Base.{
  bit_or_comm, sym, ℕ, ◌+◌, ◌*◌, ◌/◌, ◌%◌, ◌^◌, ◌≤◌, ◌<◌, bit, bit_or-fields, some, true, false,
  ltb, leb, ◌==◌, ◌≡◌, refl, ◌∙◌, arith, Bool-cases, inl, inr, u32, ◌>>>◌,
}
use cute_mac.M68k.Flags.{Flags, cond, extend, eq, mi, vs, cs}
use cute_mac.M68k.Flags.Laws.{cond-mi, cond-eq}
use cute_mac.M68k.Alu.{Result}
use cute_mac.M68k.MulDiv.{alu_mulu, alu_divu, packed, product_flags, quotient_flags}

pub below_product : (a b : ℕ) → a < 2 ^ 16 → b < 2 ^ 16 → a * b < 2 ^ 32
below_product a b p q =
    let h : a * b ≤ 65535 * 65535 =
      mul-le-mul {n₂ = 65535} {m₂ = 65535} (omega arith) (omega arith) in
    omega arith

packed_parts : (q r : ℕ) → q < 2 ^ 16 → r < 2 ^ 16 → packed q r ≡ r * 2 ^ 16 + q
packed_parts q r small fits =
    let low : q % 2 ^ 16 ≡ q = omega arith in
    let high : r * 2 ^ 16 % 2 ^ 32 ≡ r * 2 ^ 16 = omega arith in
    rw (low, high, bit_or_comm q (r * 2 ^ 16), bit_or-fields 16 r q small) (omega arith)

pub sign_of_long : (v : ℕ) → v < 2 ^ 32 → leb 1 (bit 7 (v >>> 24)) ≡ leb (2 ^ 31) v
sign_of_long v small = ground arith

sign_of_word : (v : ℕ) → v < 2 ^ 16 → leb 1 (bit 7 (v >>> 8)) ≡ leb (2 ^ 15) v
sign_of_word v small = ground arith

-- The result is `value`, as a long word that cannot have overflowed: N and Z are its own, V and C
-- are clear, and X is as before.
pub record IsExact (value : ℕ) (before : Flags) (r : Result) : Type 0 where
  pub value_is : r.value ≡ value
  pub negative : cond mi r.flags ≡ leb (2 ^ 31) value
  pub zero_out : cond eq r.flags ≡ (value == 0)
  pub no_overflow : cond vs r.flags ≡ false
  pub no_carry : cond cs r.flags ≡ false
  pub extend_kept : extend r.flags ≡ extend before

-- MULU, for every pair of words: the result is the product of the operand and the low word of the
-- register, N and Z are those of the result, V and C are clear, and X is as before.
pub alu_mulu-IsExact :
    (src dst : ℕ) (f : Flags) → src < 2 ^ 16 → IsExact (src * (dst % 2 ^ 16)) f (alu_mulu src dst f)
unfolding alu_mulu cond extend
alu_mulu-IsExact src dst f small =
    let bound = below_product src (dst % 2 ^ 16) small (omega arith) in
    let e : u32 (src * (dst % 2 ^ 16)) ≡ src * (dst % 2 ^ 16) = omega arith in
    rw e (record {
      value_is = refl;
      negative =
          cond-mi (product_flags (src * (dst % 2 ^ 16)) f)
          ∙ sign_of_long (src * (dst % 2 ^ 16)) (omega (arith, bound));
      zero_out = cond-eq (product_flags (src * (dst % 2 ^ 16)) f);
      no_overflow = refl;
      no_carry = refl;
      extend_kept = refl;
    })

-- The register after a division whose quotient fits in a word, or did not fit.
pub data Divided (src dst : ℕ) (before : Flags) (r : Result) : Type 0 where
  fits :
      (q m : ℕ)
      → dst ≡ src * q + m
      → m < src
      → q < 2 ^ 16
      → r.value ≡ m * 2 ^ 16 + q
      → cond mi r.flags ≡ leb (2 ^ 15) q
      → cond eq r.flags ≡ (q == 0)
      → cond vs r.flags ≡ false
      → cond cs r.flags ≡ false
      → Divided src dst before r
  overflows : src * 2 ^ 16 ≤ dst → r.value ≡ dst → cond vs r.flags ≡ true → Divided src dst before r

-- DIVU by a divisor other than 0: quotient and remainder where the quotient fits in a word, and
-- otherwise V is set and the register is as before.
pub alu_divu-Divided :
    (src dst : ℕ) (f : Flags)
    → 0 < src
    → src < 2 ^ 16
    → (r : Result) × (alu_divu src dst f ≡ some r) × Divided src dst f r
unfolding alu_divu cond
alu_divu-Divided src dst f pos small =
    let nonzero : (src == 0) ≡ false = ground arith in
    elim (Bool-cases (ltb (dst / src) 0x10000)) [
      | inl t ↦
          let quotient : dst / src < 2 ^ 16 = ground arith in
          rw (nonzero, t)
            (
              _,
              refl,
              fits (dst / src) (dst % src) (sym (div-add-mod dst src)) (mod-lt dst pos) quotient
                  (packed_parts (dst / src) (dst % src) quotient (omega (arith, mod-lt dst pos)))
                  (cond-mi (quotient_flags (dst / src) f) ∙ sign_of_word (dst / src) quotient)
                  (cond-eq (quotient_flags (dst / src) f)) refl refl,
            )
      | inr t ↦
          let large : 2 ^ 16 ≤ dst / src = ground arith in
          let multiple : src * 2 ^ 16 ≤ src * (dst / src) = mul-le-mul_left src large in
          rw (nonzero, t)
            (_, refl, overflows (omega (arith, multiple, div-add-mod dst src)) refl refl)
    ]
