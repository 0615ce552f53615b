-- ===== src/M68k/Alu/Compare.antt =====
-- About CMP: the conditions of m68kcpu.h after it.
use cute_mac.Base.{
  ℕ, ◌+◌, ◌-◌, ◌%◌, ◌<◌, bit_xor, Bool, true, false, not, ◌&&◌, ◌||◌, ltb, leb, ◌==◌, ◌≡◌, refl,
  pos, negsuc, ◌-ℤ◌, ltb_ℤ, leb_ℤ, sub32, arith, bit_xor-bit, bit_and-pow, bit, ◌∙◌,
}
use cute_mac.M68k.Flags.{
  Size, byte, word, long, Flags, Condition, cond, hi, ls, cc, cs, ne, eq, vc, vs, pl, mi, ge, lt,
  gt, le, mask_out_above, nflag, vflag_sub,
}
use cute_mac.M68k.Flags.Laws.{cond-cs, cond-vs, cond-mi, cond-eq}
use cute_mac.M68k.Alu.{alu_cmp}
use cute_mac.M68k.Alu.Spec.{modulus, half, signed}
use cute_mac.M68k.Alu.Sub.{cflag_sub-bit, vflag_sub-bit, no_borrow}

-- What a condition says of the operands of `CMP src,dst`.
unfoldable pub compares : Condition → Size → ℕ → ℕ → Bool
compares hi size s d = ltb s d
compares ls size s d = leb d s
compares cc size s d = leb s d
compares cs size s d = ltb d s
compares ne size s d = not (s == d)
compares eq size s d = s == d
compares mi size s d = leb (half size) ((d + modulus size - s) % modulus size)
compares pl size s d = ltb ((d + modulus size - s) % modulus size) (half size)
compares vc size s d =
    leb_ℤ (negsuc (half size - 1)) (signed size d -ℤ signed size s)
    && ltb_ℤ (signed size d -ℤ signed size s) (pos (half size))
compares vs size s d =
    ltb_ℤ (signed size d -ℤ signed size s) (negsuc (half size - 1))
    || leb_ℤ (pos (half size)) (signed size d -ℤ signed size s)
compares ge size s d = leb_ℤ (signed size s) (signed size d)
compares lt size s d = ltb_ℤ (signed size d) (signed size s)
compares gt size s d = ltb_ℤ (signed size s) (signed size d)
compares le size s d = leb_ℤ (signed size d) (signed size s)

module _ (size : Size) (s d : ℕ) (hs : s < modulus size) (hd : d < modulus size) where
  Negative : Type 0
  Negative =
      leb 1 (bit 7 (nflag size (sub32 d s)))
      ≡ leb (half size) ((d + modulus size - s) % modulus size)

  Overflow : Type 0
  Overflow = leb 1 (bit 7 (vflag_sub size s d (sub32 d s))) ≡ compares vs size s d

negative_lem :
    (size : Size) (s d : ℕ) (hs : s < modulus size) (hd : d < modulus size)
    → Negative size s d hs hd
unfolding Negative
negative_lem byte s d hs hd = ground arith
negative_lem word s d hs hd = ground arith
negative_lem long s d hs hd = ground arith

overflow_lem :
    (size : Size) (s d : ℕ) (hs : s < modulus size) (hd : d < modulus size)
    → Overflow size s d hs hd
unfolding Overflow compares ◌-ℤ◌
overflow_lem byte s d hs hd = ground (arith, vflag_sub-bit byte s d (sub32 d s))
overflow_lem word s d hs hd = ground (arith, vflag_sub-bit word s d (sub32 d s))
overflow_lem long s d hs hd = ground (arith, vflag_sub-bit long s d (sub32 d s))

-- The low part of a difference is 0 exactly when the operands are equal.
zero_lem :
    (size : Size) (s d : ℕ)
    → s < modulus size
    → d < modulus size
    → (mask_out_above size (sub32 d s) == 0) ≡ (s == d)
zero_lem byte s d hs hd = ground arith
zero_lem word s d hs hd = ground arith
zero_lem long s d hs hd = ground arith

less_lem :
    (size : Size) (s d : ℕ)
    → s < modulus size
    → d < modulus size
    → leb 1 ((bit 7 (nflag size (sub32 d s)) + bit 7 (vflag_sub size s d (sub32 d s))) % 2)
      ≡ ltb_ℤ (signed size d) (signed size s)
less_lem byte s d hs hd = ground (arith, vflag_sub-bit byte s d (sub32 d s))
less_lem word s d hs hd = ground (arith, vflag_sub-bit word s d (sub32 d s))
less_lem long s d hs hd = ground (arith, vflag_sub-bit long s d (sub32 d s))

signed_eq :
    (size : Size) (s d : ℕ)
    → s < modulus size
    → d < modulus size
    → (ltb_ℤ (signed size d) (signed size s) || s == d) ≡ leb_ℤ (signed size d) (signed size s)
signed_eq byte s d hs hd = ground arith
signed_eq word s d hs hd = ground arith
signed_eq long s d hs hd = ground arith

not-not : (b : Bool) → not (not b) ≡ b
not-not true = refl
not-not false = refl

cond-lt : (f : Flags) → cond lt f ≡ leb 1 ((bit 7 f.n + bit 7 f.v) % 2)
unfolding cond
cond-lt f = ground (arith, bit_and-pow 7 (bit_xor f.n f.v), bit_xor-bit 7 f.n f.v)

-- The five conditions that the others are made of.
record Basic (size : Size) (s d : ℕ) (f : Flags) : Type 0 where
  carry : cond cs f ≡ ltb d s
  same : cond eq f ≡ (s == d)
  negative : cond mi f ≡ compares mi size s d
  overflow : cond vs f ≡ compares vs size s d
  less : cond lt f ≡ ltb_ℤ (signed size d) (signed size s)

alu_cmp-Basic :
    (size : Size) (s d : ℕ) (f : Flags)
    → s < modulus size
    → d < modulus size
    → Basic size s d (alu_cmp size s d f)
unfolding alu_cmp Negative Overflow compares
alu_cmp-Basic size s d f hs hd = record {
  carry =
      let e : s + 0 ≡ s = omega arith in
      cond-cs _
      ∙ (rw (no_borrow size s d hs hd, e) at (cflag_sub-bit size s d 0 hs hd (omega arith)));
  same = cond-eq _ ∙ zero_lem size s d hs hd;
  negative = cond-mi _ ∙ negative_lem size s d hs hd;
  overflow = cond-vs _ ∙ overflow_lem size s d hs hd;
  less = cond-lt _ ∙ less_lem size s d hs hd;
}

Basic-compares :
    (k : Condition) (size : Size) (s d : ℕ) (f : Flags)
    → s < modulus size
    → d < modulus size
    → Basic size s d f
    → cond k f ≡ compares k size s d
unfolding cond compares
Basic-compares hi size s d f hs hd b = ground arith
Basic-compares ls size s d f hs hd b = ground arith
Basic-compares cc size s d f hs hd b = ground arith
Basic-compares cs size s d f hs hd b = ground arith
Basic-compares ne size s d f hs hd b = ground arith
Basic-compares eq size s d f hs hd b = ground arith
Basic-compares mi size s d f hs hd b = ground arith
Basic-compares pl size s d f hs hd b = ground arith
Basic-compares vc size s d f hs hd b = ground arith
Basic-compares vs size s d f hs hd b = ground arith
Basic-compares ge size s d f hs hd b = ground arith
Basic-compares lt size s d f hs hd b = ground arith
Basic-compares gt size s d f hs hd b = ground (arith, signed_eq size s d hs hd)
Basic-compares le size s d f hs hd b = ground (arith, signed_eq size s d hs hd)

-- After `CMP src,dst` on operands of the size, each of the 14 conditions holds exactly when the
-- comparison that it is named for holds of `dst` and `src`: HI, LS, CC and CS compare them as
-- unsigned numbers, GE, LT, GT and LE as signed ones, NE and EQ test equality, PL and MI the sign
-- of the wrapped difference, VC and VS whether the signed difference is in range.
pub alu_cmp-compares :
    (k : Condition) (size : Size) (src dst : ℕ) (f : Flags)
    → src < modulus size
    → dst < modulus size
    → cond k (alu_cmp size src dst f) ≡ compares k size src dst
alu_cmp-compares k size s d f hs hd =
    Basic-compares k size s d (alu_cmp size s d f) hs hd (alu_cmp-Basic size s d f hs hd)
