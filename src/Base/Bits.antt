-- ===== src/Base/Bits.antt =====
-- The binary digits of `&`, `|` and `^`, at every position, from the recursion on digits that the
-- native operations stand for.
use Prim.Native.Nat.{
  ℕ, zero, suc, ◌+◌, ◌-◌, ◌*◌, ◌/◌, ◌%◌, ◌^◌, ◌≤◌, ◌<◌, min, max, digits, bitwise, bit_and, bit_or,
  bit_xor, bit_and-bitwise, bit_or-bitwise, bit_xor-bitwise, differ,
}
use mathlib.Core.Path.{◌≡◌, refl, ap, ◌∙◌, sym}
use native.Mathlib.Nat.{pow-suc, div-div-eq-div-mul, div-add-mod}
use native.Mathlib.Omega.{arith}
use native.Mathlib.Decide.{ℕ_discrete}
use cute_mac.Base.Words.{bit}

-- One more unit of fuel than the operand needs changes nothing.
module _ (z : ℕ → ℕ) (f : ℕ → ℕ → ℕ) where
  spare_fuel : (fuel x y : ℕ) → x ≤ fuel → digits z f (suc fuel) x y ≡ digits z f fuel x y
  spare_fuel fuel zero y fits = none_left fuel
    where
      none_left : (k : ℕ) → digits z f (suc k) 0 y ≡ digits z f k 0 y
      none_left zero = refl
      none_left (suc k) = refl
  spare_fuel zero (suc x) y fits = absurd (omega arith)
  spare_fuel (suc fuel) (suc x) y fits = rw (spare_fuel fuel (suc x / 2) (y / 2) (omega arith)) refl

  any_fuel :
      (more fuel x y : ℕ) → fuel ≤ more → x ≤ fuel → digits z f more x y ≡ digits z f fuel x y
  any_fuel zero fuel x y le fits = let e : fuel ≡ 0 = omega arith in rw e refl
  any_fuel (suc more) fuel x y le fits = elim (ℕ_discrete fuel (suc more)) [
    | yes same ↦ rw same refl
    | no differ ↦ spare_fuel more x y (omega arith) ∙ any_fuel more fuel x y (omega arith) fits
  ]

  lowest_digit :
      (x y : ℕ)
      → bitwise z f (suc x) y ≡ f (suc x % 2) (y % 2) + bitwise z f (suc x / 2) (y / 2) * 2
  lowest_digit x y =
      omega (arith, any_fuel x (suc x / 2) (suc x / 2) (y / 2) (omega arith) (omega arith))

pub bit_and-low : (x y : ℕ) → bit_and x y ≡ bit_and (x / 2) (y / 2) * 2 + min (x % 2) (y % 2)
bit_and-low zero y = simp bit_and-bitwise (omega arith)
bit_and-low (suc x) y = simp bit_and-bitwise (omega (arith, lowest_digit (λ d. 0) min x y))

pub bit_or-low : (x y : ℕ) → bit_or x y ≡ bit_or (x / 2) (y / 2) * 2 + max (x % 2) (y % 2)
bit_or-low zero y = simp bit_or-bitwise (omega arith)
bit_or-low (suc x) y = simp bit_or-bitwise (omega (arith, lowest_digit (λ d. d) max x y))

differ_below_two : (x y : ℕ) → x < 2 → y < 2 → differ x y ≡ (x + y) % 2
differ_below_two zero y p q = omega arith
differ_below_two (suc zero) zero p q = refl
differ_below_two (suc zero) (suc zero) p q = refl
differ_below_two (suc zero) (suc (suc y)) p q = absurd (omega arith)
differ_below_two (suc (suc x)) y p q = absurd (omega arith)

differ_digits : (a b : ℕ) → differ (a % 2) (b % 2) ≡ (a + b) % 2
differ_digits a b = omega (arith, differ_below_two (a % 2) (b % 2) (omega arith) (omega arith))

pub bit_xor-low : (x y : ℕ) → bit_xor x y ≡ bit_xor (x / 2) (y / 2) * 2 + (x + y) % 2
bit_xor-low zero y = simp bit_xor-bitwise (omega arith)
bit_xor-low (suc x) y =
    simp bit_xor-bitwise (omega (arith, lowest_digit (λ d. d) differ x y, differ_digits (suc x) y))

-- The digit at `k` of each operation, from the digits at `k`.
pub half_pow : (a k : ℕ) → a / 2 ^ suc k ≡ a / 2 / 2 ^ k
half_pow a k = rw (pow-suc 2 k) (rw div-div-eq-div-mul (ap (λ (t : ℕ). a / t) (omega arith)))

pub bit_and-bit : (k a b : ℕ) → bit k (bit_and a b) ≡ min (bit k a) (bit k b)
bit_and-bit zero a b = omega (arith, bit_and-low a b)
bit_and-bit (suc k) a b =
    rw (half_pow (bit_and a b) k, half_pow a k, half_pow b k)
      (ap (bit k) {x = bit_and a b / 2} {y = bit_and (a / 2) (b / 2)}
          (omega (arith, bit_and-low a b))
        ∙ bit_and-bit k (a / 2) (b / 2))

pub bit_or-bit : (k a b : ℕ) → bit k (bit_or a b) ≡ max (bit k a) (bit k b)
bit_or-bit zero a b = omega (arith, bit_or-low a b)
bit_or-bit (suc k) a b =
    rw (half_pow (bit_or a b) k, half_pow a k, half_pow b k)
      (ap (bit k) {x = bit_or a b / 2} {y = bit_or (a / 2) (b / 2)} (omega (arith, bit_or-low a b))
        ∙ bit_or-bit k (a / 2) (b / 2))

pub bit_xor-bit : (k a b : ℕ) → bit k (bit_xor a b) ≡ (bit k a + bit k b) % 2
bit_xor-bit zero a b = omega (arith, bit_xor-low a b)
bit_xor-bit (suc k) a b =
    rw (half_pow (bit_xor a b) k, half_pow a k, half_pow b k)
      (ap (bit k) {x = bit_xor a b / 2} {y = bit_xor (a / 2) (b / 2)}
          (omega (arith, bit_xor-low a b))
        ∙ bit_xor-bit k (a / 2) (b / 2))

pub bit_and-zero : (a : ℕ) → bit_and a 0 ≡ 0
bit_and-zero a = zero_below a a (omega arith)
  where
    zero_below : (n a : ℕ) → a ≤ n → bit_and a 0 ≡ 0
    zero_below n zero h = refl
    zero_below zero (suc a) h = absurd (omega arith)
    zero_below (suc n) (suc a) h =
        omega (arith, bit_and-low (suc a) 0, zero_below n (suc a / 2) (omega arith))

pub pow_pos : (k : ℕ) → 0 < 2 ^ k
pow_pos zero = omega arith
pow_pos (suc k) = omega (arith, pow-suc 2 k, pow_pos k)

pow_half : (k : ℕ) → 2 ^ k * 2 / 2 ≡ 2 ^ k
pow_half k = omega arith

mask_half : (k : ℕ) → (2 ^ k * 2 - 1) / 2 ≡ 2 ^ k - 1
mask_half k = omega arith

mask_odd : (k : ℕ) → (2 ^ k * 2 - 1) % 2 ≡ 1
mask_odd k = omega (arith, pow_pos k)

mod_double : (m a : ℕ) → 0 < m → a % (m * 2) ≡ a / 2 % m * 2 + a % 2
mod_double m a h = omega (
  arith,
  div-add-mod a (m * 2),
  div-add-mod (a / 2) m,
  ap (λ (t : ℕ). m * 2 * t)
      (ap (λ (t : ℕ). a / t) {x = m * 2} {y = 2 * m} (omega arith)
        ∙ sym (div-div-eq-div-mul a 2 m)),
)

-- A mask of one bit.
pub bit_and-pow : (k a : ℕ) → bit_and a (2 ^ k) ≡ bit k a * 2 ^ k
bit_and-pow zero a = omega (arith, bit_and-low a 1, bit_and-zero (a / 2))
bit_and-pow (suc k) a =
    bit_and-low a (2 ^ suc k)
    ∙ rw (half_pow a k, pow-suc 2 k)
        (rw (pow_half k) (omega (arith, ap (λ (t : ℕ). t * 2) (bit_and-pow k (a / 2)), pow_pos k)))

-- A mask of `k` low bits.
pub bit_and-mask : (k a : ℕ) → bit_and a (2 ^ k - 1) ≡ a % 2 ^ k
bit_and-mask zero a = omega (arith, bit_and-zero a)
bit_and-mask (suc k) a =
    bit_and-low a (2 ^ suc k - 1)
    ∙ rw (pow-suc 2 k) (
        rw (mask_half k)
          (omega (arith, bit_and-mask k (a / 2), mod_double (2 ^ k) a (pow_pos k), mask_odd k)))

-- `|` lies between the larger operand and the sum.
or_bounds : (n a b : ℕ) → a + b ≤ n → (a ≤ bit_or a b) × (b ≤ bit_or a b) × (bit_or a b ≤ a + b)
or_bounds zero a b h =
    let ea : a ≡ 0 = omega arith in
    let eb : b ≡ 0 = omega arith in rw (ea, eb) (omega (arith, bit_or-low 0 0))
or_bounds (suc n) zero zero h = omega (arith, bit_or-low 0 0)
or_bounds (suc n) a b h = omega (arith, bit_or-low a b, or_bounds n (a / 2) (b / 2) (omega arith))

pub le-bit_or_left : (a b : ℕ) → a ≤ bit_or a b
le-bit_or_left a b = (or_bounds (a + b) a b (omega arith)).0

pub le-bit_or_right : (a b : ℕ) → b ≤ bit_or a b
le-bit_or_right a b = (or_bounds (a + b) a b (omega arith)).1

pub bit_or-le-add : (a b : ℕ) → bit_or a b ≤ a + b
bit_or-le-add a b = (or_bounds (a + b) a b (omega arith)).2

even_half : (q k : ℕ) → q * 2 ^ suc k / 2 ≡ q * 2 ^ k
even_half q k = omega (arith, ap (λ (t : ℕ). q * t) (pow-suc 2 k))

-- `(q << k) | r` is a sum where `r` fits in `k` digits.
pub bit_or-fields : (k q r : ℕ) → r < 2 ^ k → bit_or (q * 2 ^ k) r ≡ q * 2 ^ k + r
bit_or-fields zero q r h =
    let e : r ≡ 0 = omega arith in
    rw e (omega (arith, le-bit_or_left (q * 1) 0, bit_or-le-add (q * 1) 0))
bit_or-fields (suc k) q r h =
    bit_or-low (q * 2 ^ suc k) r
    ∙ rw (even_half q k) (
        omega (
          arith,
          bit_or-fields k q (r / 2) (omega (arith, pow-suc 2 k)),
          ap (λ (t : ℕ). q * t) (pow-suc 2 k),
        ))

-- A mask whose digits from `k` up are those of `h`, and below `k` those of `l`.
pub bit_and-split :
    (k a h l : ℕ)
    → l < 2 ^ k
    → bit_and a (h * 2 ^ k + l) ≡ bit_and (a / 2 ^ k) h * 2 ^ k + bit_and a l
bit_and-split zero a h l below =
    let e : l ≡ 0 = omega arith in
    rw (e, bit_and-zero a)
      (let whole : h * 2 ^ 0 + 0 ≡ h = omega arith in
        let same : a / 2 ^ 0 ≡ a = omega arith in rw (whole, same) (omega arith))
bit_and-split (suc k) a h l below =
    bit_and-low a (h * 2 ^ suc k + l)
    ∙ rw (half_pow a k) (
        omega (
          arith,
          ap (bit_and (a / 2)) {x = (h * 2 ^ suc k + l) / 2} {y = h * 2 ^ k + l / 2}
              (omega (arith, ap (λ (t : ℕ). h * t) (pow-suc 2 k))),
          bit_and-split k (a / 2) h (l / 2) (omega (arith, pow-suc 2 k)),
          bit_and-low a l,
          ap (λ (t : ℕ). h * t) (pow-suc 2 k),
          ap (λ (t : ℕ). bit_and (a / 2 / 2 ^ k) h * t) (pow-suc 2 k),
        ))

or_swap : (n a b : ℕ) → a + b ≤ n → bit_or a b ≡ bit_or b a
or_swap zero a b h = let p : a ≡ 0 = omega arith in let q : b ≡ 0 = omega arith in rw (p, q) refl
or_swap (suc n) a b h = elim (ℕ_discrete (a + b) 0) [
  | yes none ↦ or_swap n a b (omega arith)
  | no some ↦ omega (arith, bit_or-low a b, bit_or-low b a, or_swap n (a / 2) (b / 2) (omega arith))
]

pub bit_or_comm : (a b : ℕ) → bit_or a b ≡ bit_or b a
bit_or_comm a b = or_swap (a + b) a b (omega arith)
