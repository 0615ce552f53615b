-- ===== src/M68k/Alu/Add.antt =====
-- About ADD and ADDX: the results and the condition codes.
use cute_mac.Base.{
  ℕ, ◌+◌, ◌-◌, ◌/◌, ◌%◌, ◌≤◌, ◌<◌, min, bit_and, bit_or, bit_xor, Bool, true, ◌&&◌, leb, ◌==◌, ◌≡◌,
  ◌↔◌, pos, ◌+ℤ◌, u32, not32, arith, bit_and-bit, bit_or-bit, bit_xor-bit, bit, ap, ◌∙◌, bool_to_ℕ,
}
use cute_mac.M68k.Flags.{
  Size, byte, word, long, width, Flags, cond, extend, eq, xflag_as_1, vflag_add, cflag_add,
  mask_out_above, nflag,
}
use cute_mac.M68k.Flags.Laws.{
  cond-cs, cond-vc, cond-mi, cond-eq, extend-bit, xflag_as_1-bit, extend-ℕ, bit_or-eq-zero,
}
use cute_mac.M68k.Alu.{Result, alu_add, alu_addx}
use cute_mac.M68k.Alu.Spec.{modulus, half, signed, IsSum}

-- Bit 7 of the overflow word of a sum.
vflag_add-bit :
    (size : Size) (s d r : ℕ)
    → bit 7 (vflag_add size s d r)
      ≡ min
          ((bit (width size - 1) s + bit (width size - 1) r) % 2)
          ((bit (width size - 1) d + bit (width size - 1) r) % 2)
vflag_add-bit byte s d r =
    omega (arith, bit_and-bit 7 (bit_xor s r) (bit_xor d r), bit_xor-bit 7 s r, bit_xor-bit 7 d r)
vflag_add-bit word s d r =
    omega
      (arith, bit_and-bit 15 (bit_xor s r) (bit_xor d r), bit_xor-bit 15 s r, bit_xor-bit 15 d r)
vflag_add-bit long s d r =
    omega
      (arith, bit_and-bit 31 (bit_xor s r) (bit_xor d r), bit_xor-bit 31 s r, bit_xor-bit 31 d r)

cflag_add-bit :
    (size : Size) (s d x : ℕ)
    → s < modulus size
    → d < modulus size
    → x ≤ 1
    → bit 8 (cflag_add size s d (u32 (s + d + x))) ≡ (s + d + x) / modulus size
cflag_add-bit byte s d x hs hd hx = omega arith
cflag_add-bit word s d x hs hd hx = omega arith
cflag_add-bit long s d x hs hd hx =
    let r = u32 (s + d + x) in
    omega (
      arith,
      bit_or-bit 31 (bit_and s d) (bit_and (not32 r) (bit_or s d)),
      bit_and-bit 31 s d,
      bit_and-bit 31 (not32 r) (bit_or s d),
      bit_or-bit 31 s d,
    )

-- The overflow word says whether the signed sum fits.
overflow_add :
    (size : Size) (s d x : ℕ)
    → s < modulus size
    → d < modulus size
    → x ≤ 1
    → ((bit 7 (vflag_add size s d (u32 (s + d + x))) == 0) ≡ true)
      ↔ (signed size ((s + d + x) % modulus size) ≡ signed size s +ℤ signed size d +ℤ pos x)
unfolding ◌+ℤ◌
overflow_add byte s d x hs hd hx = ground (arith, vflag_add-bit byte s d (u32 (s + d + x)))
overflow_add word s d x hs hd hx = ground (arith, vflag_add-bit word s d (u32 (s + d + x)))
overflow_add long s d x hs hd hx = ground (arith, vflag_add-bit long s d (u32 (s + d + x)))

mask_out_above-sum : (size : Size) (a : ℕ) → mask_out_above size (u32 a) ≡ a % modulus size
mask_out_above-sum byte a = omega arith
mask_out_above-sum word a = omega arith
mask_out_above-sum long a = omega arith

carry_div :
    (size : Size) (s d x : ℕ)
    → s < modulus size
    → d < modulus size
    → x ≤ 1
    → leb 1 ((s + d + x) / modulus size) ≡ leb (modulus size) (s + d + x)
carry_div byte s d x hs hd hx = ground arith
carry_div word s d x hs hd hx = ground arith
carry_div long s d x hs hd hx = ground arith

nflag-bit :
    (size : Size) (a : ℕ) → leb 1 (bit 7 (nflag size (u32 a))) ≡ leb (half size) (a % modulus size)
nflag-bit byte a = ground arith
nflag-bit word a = ground arith
nflag-bit long a = ground arith

-- What the handlers build from a sum, with Z's word left open.
abbrev sum_result : Size → ℕ → ℕ → ℕ → ℕ → Result
sum_result size s d res not_z =
    let carry = cflag_add size s d res in
    record {
      value = mask_out_above size res;
      flags = record {
        x = carry;
        n = nflag size res;
        not_z = not_z;
        v = vflag_add size s d res;
        c = carry;
      };
    }

sum_result-IsSum :
    (size : Size) (s d x not_z : ℕ) (zero_before : Bool)
    → s < modulus size
    → d < modulus size
    → x ≤ 1
    → (not_z == 0) ≡ (zero_before && (s + d + x) % modulus size == 0)
    → IsSum size s d x zero_before (sum_result size s d (u32 (s + d + x)) not_z)
sum_result-IsSum size s d x not_z zb hs hd hx hz = record {
  value = mask_out_above-sum size (s + d + x);
  carry_out =
      cond-cs _ ∙ ap (leb 1) (cflag_add-bit size s d x hs hd hx) ∙ carry_div size s d x hs hd hx;
  extend_out =
      extend-bit _ ∙ ap (leb 1) (cflag_add-bit size s d x hs hd hx) ∙ carry_div size s d x hs hd hx;
  negative = rw mask_out_above-sum (cond-mi _ ∙ nflag-bit size (s + d + x));
  zero_out = rw mask_out_above-sum (cond-eq _ ∙ hz);
  fits = rw mask_out_above-sum (rw cond-vc (overflow_add size s d x hs hd hx));
}

-- ADD: for operands of the size, the result is their sum modulo the size, C and X say whether the
-- unsigned sum is out of range, V is clear exactly when the signed sum is in range, and N and Z
-- are those of the result.
pub alu_add-IsSum :
    (size : Size) (src dst : ℕ) (f : Flags)
    → src < modulus size
    → dst < modulus size
    → IsSum size src dst 0 true (alu_add size src dst f)
unfolding alu_add
alu_add-IsSum size s d f hs hd =
    let e : s + d + 0 ≡ s + d = omega arith in
    rw e at (
      sum_result-IsSum size s d 0 (mask_out_above size (u32 (s + d + 0))) true hs hd (omega arith)
        (ap (λ (t : ℕ). t == 0) (mask_out_above-sum size (s + d + 0))))

-- ADDX: for operands of the size, the result is the sum of both and the extend bit modulo the
-- size, C and X say whether the unsigned sum is out of range, V is clear exactly when the signed
-- sum is in range, N is that of the result, and Z stays set only where it was set and the result
-- is 0.
pub alu_addx-IsSum :
    (size : Size) (src dst : ℕ) (f : Flags)
    → src < modulus size
    → dst < modulus size
    → IsSum size src dst (bool_to_ℕ (extend f)) (cond eq f) (alu_addx size src dst f)
unfolding alu_addx
alu_addx-IsSum size s d f hs hd = rw (extend-ℕ f) (
    sum_result-IsSum size s d (xflag_as_1 f)
      (bit_or f.not_z (mask_out_above size (u32 (s + d + xflag_as_1 f)))) (cond eq f) hs hd
      (omega (arith, xflag_as_1-bit f))
      (rw (mask_out_above-sum, cond-eq)
        (bit_or-eq-zero f.not_z ((s + d + xflag_as_1 f) % modulus size))))
