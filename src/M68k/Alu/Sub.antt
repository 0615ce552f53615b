-- ===== src/M68k/Alu/Sub.antt =====
-- About SUB, SUBX, NEG and NEGX: the results and the condition codes.
use cute_mac.Base.{
  ℕ, ◌+◌, ◌-◌, ◌%◌, ◌≤◌, ◌<◌, min, bit_and, bit_or, bit_xor, Bool, true, ◌&&◌, ltb, leb, ◌==◌, ◌≡◌,
  ◌↔◌, ℤ, pos, pos_part, neg_part, ◌-ℤ◌, eq-sub-sub_iff, sub32, not32, arith, bit_and-bit,
  bit_or-bit, bit_xor-bit, bit, ap, ◌∙◌, bool_to_ℕ,
}
use cute_mac.M68k.Flags.{
  Size, byte, word, long, width, Flags, cond, extend, eq, xflag_as_1, vflag_sub, cflag_sub,
  mask_out_above, nflag,
}
use cute_mac.M68k.Flags.Laws.{
  cond-cs, cond-vc, cond-mi, cond-eq, extend-bit, xflag_as_1-bit, extend-ℕ, bit_or-eq-zero,
}
use cute_mac.M68k.Alu.{Result, alu_sub, alu_subx}
use cute_mac.M68k.Alu.Spec.{modulus, half, signed, IsDifference}

-- `dst - src - x`, as the handlers compute it.
abbrev pub difference : ℕ → ℕ → ℕ → ℕ
difference s d x = sub32 (sub32 d s) x

abbrev pub low_difference : Size → ℕ → ℕ → ℕ → ℕ
low_difference size s d x = (d + modulus size - s + modulus size - x) % modulus size

-- Bit 7 of the overflow word of a difference.
pub vflag_sub-bit :
    (size : Size) (s d r : ℕ)
    → bit 7 (vflag_sub size s d r)
      ≡ min
          ((bit (width size - 1) s + bit (width size - 1) d) % 2)
          ((bit (width size - 1) r + bit (width size - 1) d) % 2)
vflag_sub-bit byte s d r =
    omega (arith, bit_and-bit 7 (bit_xor s d) (bit_xor r d), bit_xor-bit 7 s d, bit_xor-bit 7 r d)
vflag_sub-bit word s d r =
    omega
      (arith, bit_and-bit 15 (bit_xor s d) (bit_xor r d), bit_xor-bit 15 s d, bit_xor-bit 15 r d)
vflag_sub-bit long s d r =
    omega
      (arith, bit_and-bit 31 (bit_xor s d) (bit_xor r d), bit_xor-bit 31 s d, bit_xor-bit 31 r d)

pub cflag_sub-bit :
    (size : Size) (s d x : ℕ)
    → s < modulus size
    → d < modulus size
    → x ≤ 1
    → leb 1 (bit 8 (cflag_sub size s d (difference s d x))) ≡ ltb d (s + x)
cflag_sub-bit byte s d x hs hd hx = ground arith
cflag_sub-bit word s d x hs hd hx = ground arith
cflag_sub-bit long s d x hs hd hx =
    let r = difference s d x in
    ground (
      arith,
      bit_or-bit 31 (bit_and s r) (bit_and (not32 d) (bit_or s r)),
      bit_and-bit 31 s r,
      bit_and-bit 31 (not32 d) (bit_or s r),
      bit_or-bit 31 s r,
    )

mask_out_above-difference :
    (size : Size) (s d x : ℕ)
    → s < modulus size
    → d < modulus size
    → x ≤ 1
    → mask_out_above size (difference s d x) ≡ low_difference size s d x
mask_out_above-difference byte s d x hs hd hx = omega arith
mask_out_above-difference word s d x hs hd hx = omega arith
mask_out_above-difference long s d x hs hd hx = omega arith

-- The overflow word says whether the signed difference fits.
FitsSub : (size : Size) (s d x : ℕ) → ℤ → ℤ → ℤ → Type 0
FitsSub size s d x sr sd ss =
    ((bit 7 (vflag_sub size s d (difference s d x)) == 0) ≡ true)
    ↔ (pos_part sr + neg_part sd + pos_part ss + x ≡ neg_part sr + pos_part sd + neg_part ss)

overflow_sub_parts :
    (size : Size) (s d x : ℕ)
    → s < modulus size
    → d < modulus size
    → x ≤ 1
    → FitsSub size s d x (signed size (low_difference size s d x)) (signed size d) (signed size s)
unfolding FitsSub
overflow_sub_parts byte s d x hs hd hx = ground (arith, vflag_sub-bit byte s d (difference s d x))
overflow_sub_parts word s d x hs hd hx = ground (arith, vflag_sub-bit word s d (difference s d x))
overflow_sub_parts long s d x hs hd hx = ground (arith, vflag_sub-bit long s d (difference s d x))

overflow_sub :
    (size : Size) (s d x : ℕ)
    → s < modulus size
    → d < modulus size
    → x ≤ 1
    → ((bit 7 (vflag_sub size s d (difference s d x)) == 0) ≡ true)
      ↔ (signed size (low_difference size s d x) ≡ signed size d -ℤ signed size s -ℤ pos x)
unfolding FitsSub
overflow_sub size s d x hs hd hx =
    let e =
      eq-sub-sub_iff (signed size (low_difference size s d x)) (signed size d) (signed size s) x in
    let f = overflow_sub_parts size s d x hs hd hx in ((λ h. e.1 (f.0 h)), (λ h. f.1 (e.0 h)))

nflag-bit :
    (size : Size) (s d x : ℕ)
    → s < modulus size
    → d < modulus size
    → x ≤ 1
    → leb 1 (bit 7 (nflag size (difference s d x))) ≡ leb (half size) (low_difference size s d x)
nflag-bit byte s d x hs hd hx = ground arith
nflag-bit word s d x hs hd hx = ground arith
nflag-bit long s d x hs hd hx = ground arith

-- What the handlers build from a difference, with Z's word left open.
abbrev pub difference_result : Size → ℕ → ℕ → ℕ → ℕ → Result
difference_result size s d res not_z =
    let borrow = cflag_sub size s d res in
    record {
      value = mask_out_above size res;
      flags = record {
        x = borrow;
        n = nflag size res;
        not_z = not_z;
        v = vflag_sub size s d res;
        c = borrow;
      };
    }

difference_result-IsDifference :
    (size : Size) (s d x not_z : ℕ) (zero_before : Bool)
    → s < modulus size
    → d < modulus size
    → x ≤ 1
    → (not_z == 0) ≡ (zero_before && low_difference size s d x == 0)
    → IsDifference size s d x zero_before (difference_result size s d (difference s d x) not_z)
difference_result-IsDifference size s d x not_z zb hs hd hx hz =
    let low = mask_out_above-difference size s d x hs hd hx in
    record {
      value = low;
      carry_out = cond-cs _ ∙ cflag_sub-bit size s d x hs hd hx;
      extend_out = extend-bit _ ∙ cflag_sub-bit size s d x hs hd hx;
      negative = rw low (cond-mi _ ∙ nflag-bit size s d x hs hd hx);
      zero_out = rw low (cond-eq _ ∙ hz);
      fits = rw low (rw cond-vc (overflow_sub size s d x hs hd hx));
    }

pub no_borrow :
    (size : Size) (s d : ℕ) → s < modulus size → d < modulus size → difference s d 0 ≡ sub32 d s
no_borrow byte s d hs hd = omega arith
no_borrow word s d hs hd = omega arith
no_borrow long s d hs hd = omega arith

-- SUB: for operands of the size, the result is their difference modulo the size, C and X say
-- whether the unsigned difference is below 0, V is clear exactly when the signed difference is in
-- range, and N and Z are those of the result.
pub alu_sub-IsDifference :
    (size : Size) (src dst : ℕ) (f : Flags)
    → src < modulus size
    → dst < modulus size
    → IsDifference size src dst 0 true (alu_sub size src dst f)
unfolding alu_sub
alu_sub-IsDifference size s d f hs hd = rw (no_borrow size s d hs hd) at (
    difference_result-IsDifference size s d 0 (mask_out_above size (difference s d 0)) true hs hd
      (omega arith)
      (ap (λ (t : ℕ). t == 0) (mask_out_above-difference size s d 0 hs hd (omega arith))))

-- SUBX: for operands of the size, the result is their difference less the extend bit modulo the
-- size, C and X say whether the unsigned difference is below 0, V is clear exactly when the
-- signed difference is in range, N is that of the result, and Z stays set only where it was set
-- and the result is 0.
pub alu_subx-IsDifference :
    (size : Size) (src dst : ℕ) (f : Flags)
    → src < modulus size
    → dst < modulus size
    → IsDifference size src dst (bool_to_ℕ (extend f)) (cond eq f) (alu_subx size src dst f)
unfolding alu_subx
alu_subx-IsDifference size s d f hs hd =
    let small : xflag_as_1 f ≤ 1 = omega (arith, xflag_as_1-bit f) in
    rw (extend-ℕ f) (
      difference_result-IsDifference size s d (xflag_as_1 f)
        (bit_or f.not_z (mask_out_above size (difference s d (xflag_as_1 f)))) (cond eq f) hs hd
        small
        (rw (mask_out_above-difference size s d (xflag_as_1 f) hs hd small, cond-eq)
          (bit_or-eq-zero f.not_z (low_difference size s d (xflag_as_1 f)))))
