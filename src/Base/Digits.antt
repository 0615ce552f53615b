-- ===== src/Base/Digits.antt =====
-- The digits of a power of 2, and of a complement.
use Prim.Native.Nat.{ℕ, zero, suc, ◌-◌, ◌/◌, ◌%◌, ◌^◌, ◌<◌, bit_xor}
use mathlib.Core.Path.{◌≡◌, refl, ap, ◌∙◌}
use mathlib.Core.Logic.{◌≢◌}
use native.Mathlib.Nat.{pow-suc}
use native.Mathlib.Omega.{arith}
use cute_mac.Base.Words.{bit}
use cute_mac.Base.Bits.{half_pow, pow_pos, bit_xor-low}

half_of_pow : (k : ℕ) → 2 ^ suc k / 2 ≡ 2 ^ k
half_of_pow k = omega (arith, pow-suc 2 k)

pub bit-pow_same : (k : ℕ) → bit k (2 ^ k) ≡ 1
bit-pow_same zero = refl
bit-pow_same (suc k) =
    ap (λ t. t % 2) (half_pow (2 ^ suc k) k) ∙ rw (half_of_pow k) (bit-pow_same k)

none_above : (k : ℕ) → bit (suc k) 1 ≡ 0
none_above k = ap (λ t. t % 2) (half_pow 1 k) ∙ zero_digits k
  where
    zero_digits : (k : ℕ) → bit k 0 ≡ 0
    zero_digits zero = refl
    zero_digits (suc k) = ap (λ t. t % 2) (half_pow 0 k) ∙ zero_digits k

pub bit-pow_other : (k l : ℕ) → k ≢ l → bit k (2 ^ l) ≡ 0
bit-pow_other zero zero apart = absurd (apart refl)
bit-pow_other zero (suc l) apart = omega (arith, pow-suc 2 l)
bit-pow_other (suc k) zero apart = none_above k
bit-pow_other (suc k) (suc l) apart =
    ap (λ t. t % 2) (half_pow (2 ^ suc l) k)
    ∙ rw (half_of_pow l) (bit-pow_other k l (λ e. apart (ap suc e)))

pub bit-complement : (n k a : ℕ) → a < 2 ^ n → k < n → bit k (2 ^ n - 1 - a) ≡ 1 - bit k a
bit-complement zero k a below small = absurd (omega arith)
bit-complement (suc n) zero a below small = omega (arith, pow-suc 2 n, pow_pos n)
bit-complement (suc n) (suc k) a below small =
    let e : (2 ^ suc n - 1 - a) / 2 ≡ 2 ^ n - 1 - a / 2 = omega (arith, pow-suc 2 n, pow_pos n) in
    ap (λ t. t % 2) (half_pow (2 ^ suc n - 1 - a) k)
    ∙ rw e (
        bit-complement n k (a / 2) (omega (arith, pow-suc 2 n)) (omega arith)
        ∙ rw (half_pow a k) refl)

-- `^` is its own inverse, and stays below a power of two.
xor_cancel_below : (n a b : ℕ) → a < 2 ^ n → b < 2 ^ n → bit_xor (bit_xor a b) b ≡ a
xor_cancel_below zero a b small small' =
    let (e, e') : (a ≡ 0) × (b ≡ 0) = (omega arith, omega arith) in rw (e, e') refl
xor_cancel_below (suc n) a b small small' = omega (
  arith,
  bit_xor-low (bit_xor a b) b,
  bit_xor-low a b,
  pow-suc 2 n,
  ap (λ x. bit_xor x (b / 2)) (half n a b),
  xor_cancel_below n (a / 2) (b / 2) (omega (arith, pow-suc 2 n)) (omega (arith, pow-suc 2 n)),
)
  where
    half : (n a b : ℕ) → bit_xor a b / 2 ≡ bit_xor (a / 2) (b / 2)
    half n a b = omega (arith, bit_xor-low a b)

pub bit_xor-below : (n a b : ℕ) → a < 2 ^ n → b < 2 ^ n → bit_xor a b < 2 ^ n
bit_xor-below zero a b small small' =
    let (e, e') : (a ≡ 0) × (b ≡ 0) = (omega arith, omega arith) in rw (e, e') (omega arith)
bit_xor-below (suc n) a b small small' = omega (
  arith,
  bit_xor-low a b,
  pow-suc 2 n,
  bit_xor-below n (a / 2) (b / 2) (omega (arith, pow-suc 2 n)) (omega (arith, pow-suc 2 n)),
)

pub bit_xor_cancel : (a b : ℕ) → a < 256 → b < 256 → bit_xor (bit_xor a b) b ≡ a
bit_xor_cancel a b = xor_cancel_below 8 a b
