-- ===== src/M68k/Flags/Laws.antt =====
-- About m68ki_get_ccr and m68ki_set_ccr.
use cute_mac.Base.{
  ℕ, zero, suc, ◌%◌, ◌<◌, Bool, true, ◌&&◌, false, if◌then◌else◌, ◌==◌, ==_iff, leb, ◌≡◌, refl,
  arith, bit_and-pow, bit, bit_or, le-bit_or_left, le-bit_or_right, bit_or-le-add, bool_to_ℕ, ◌>>>◌,
}
use cute_mac.M68k.Flags.{Flags, get_ccr, set_ccr, cond, cs, vs, vc, mi, eq, extend, xflag_as_1}

-- Each condition as a test of one digit.
pub cond-cs : (f : Flags) → cond cs f ≡ leb 1 (bit 8 f.c)
unfolding cond
cond-cs f = ground (arith, bit_and-pow 8 f.c)

pub cond-vs : (f : Flags) → cond vs f ≡ leb 1 (bit 7 f.v)
unfolding cond
cond-vs f = ground (arith, bit_and-pow 7 f.v)

pub cond-vc : (f : Flags) → cond vc f ≡ (bit 7 f.v == 0)
unfolding cond
cond-vc f = ground (arith, bit_and-pow 7 f.v)

pub cond-mi : (f : Flags) → cond mi f ≡ leb 1 (bit 7 f.n)
unfolding cond
cond-mi f = ground (arith, bit_and-pow 7 f.n)

pub cond-eq : (f : Flags) → cond eq f ≡ (f.not_z == 0)
unfolding cond
cond-eq f = ground arith

pub extend-bit : (f : Flags) → extend f ≡ leb 1 (bit 8 f.x)
unfolding extend
extend-bit f = ground (arith, bit_and-pow 8 f.x)

pub xflag_as_1-bit : (f : Flags) → xflag_as_1 f ≡ bit 8 f.x
xflag_as_1-bit f = omega (arith, bit_and-pow 0 (f.x >>> 8))

-- The extend bit as the number that ADDX, SUBX and NEGX use.
pub extend-ℕ : (f : Flags) → bool_to_ℕ (extend f) ≡ xflag_as_1 f
extend-ℕ f = ground (arith, extend-bit f, xflag_as_1-bit f)

pub bit_or-eq-zero : (a b : ℕ) → (bit_or a b == 0) ≡ ((a == 0) && (b == 0))
bit_or-eq-zero a b = ground (arith, le-bit_or_left a b, le-bit_or_right a b, bit_or-le-add a b)

-- A test that passes on every number below a bound.
passes : (ℕ → Bool) → ℕ → Bool
passes test zero = true
passes test (suc bound) = if test bound then passes test bound else false

passes_at :
    (test : ℕ → Bool) (bound value : ℕ)
    → passes test bound ≡ true
    → value < bound
    → test value ≡ true
unfolding passes
passes_at test zero value ok below = elim below [ ]
passes_at test (suc bound) value ok below = ground (arith, passes_at test bound value)

ccr_passes : passes (λ v. get_ccr (set_ccr v) == v) 32 ≡ true
unfolding passes get_ccr set_ccr
ccr_passes = refl

set_ccr_low : (value : ℕ) → set_ccr value ≡ set_ccr (value % 32)
unfolding set_ccr
set_ccr_low value = ground (
  arith,
  bit_and-pow 4 value,
  bit_and-pow 3 value,
  bit_and-pow 2 value,
  bit_and-pow 1 value,
  bit_and-pow 0 value,
  bit_and-pow 4 (value % 32),
  bit_and-pow 3 (value % 32),
  bit_and-pow 2 (value % 32),
  bit_and-pow 1 (value % 32),
  bit_and-pow 0 (value % 32),
)

-- Writing a value to the condition code register and reading it gives its five low bits.
pub get_ccr-set_ccr : (value : ℕ) → get_ccr (set_ccr value) ≡ value % 32
get_ccr-set_ccr value = rw (set_ccr_low value) (
    (==_iff _ _).0
      (passes_at (λ v. get_ccr (set_ccr v) == v) 32 (value % 32) ccr_passes (omega arith)))
