-- ===== src/Base/Slices.antt =====
-- Parts of lists, and lists with a value replaced.
use Prim.Native.Nat.{ℕ, zero, suc, ◌+◌, ◌-◌, ◌≤◌, ◌<◌, min}
use mathlib.Core.Path.{◌≡◌, refl, sym, ap, ◌∙◌}
use mathlib.Core.Logic.{◌≢◌}
use mathlib.Core.Option.{some}
use mathlib.Core.List.{List, [], ◌∷◌, ◌++◌}
use native.Mathlib.Omega.{arith}
use cute_mac.Base.Lists.{length, take, drop, mid, get_elem?, set}

module _ {ℓ} {A : Type ℓ} where
  pub length-drop : (n : ℕ) (xs : List A) → length (drop n xs) ≡ length xs - n
  unfolding drop
  length-drop zero xs = omega arith
  length-drop (suc n) [] = omega arith
  length-drop (suc n) (x ∷ xs) = omega (arith, length-drop n xs)

  pub length-take : (n : ℕ) (xs : List A) → length (take n xs) ≡ min n (length xs)
  unfolding take
  length-take zero xs = omega arith
  length-take (suc n) [] = omega arith
  length-take (suc n) (x ∷ xs) = omega (arith, length-take n xs)

  pub drop-all : (n : ℕ) (xs : List A) → length xs ≤ n → drop n xs ≡ []
  unfolding drop
  drop-all zero [] h = refl
  drop-all zero (x ∷ xs) h = absurd (omega arith)
  drop-all (suc n) [] h = refl
  drop-all (suc n) (x ∷ xs) h = drop-all n xs (omega arith)

  pub take-all : (n : ℕ) (xs : List A) → length xs ≤ n → take n xs ≡ xs
  unfolding take
  take-all zero [] h = refl
  take-all zero (x ∷ xs) h = absurd (omega arith)
  take-all (suc n) [] h = refl
  take-all (suc n) (x ∷ xs) h = ap (λ l. x ∷ l) (take-all n xs (omega arith))

  -- A prefix that is exactly as long as what is dropped or taken.
  pub drop-append_exact : (n : ℕ) (xs ys : List A) → length xs ≡ n → drop n (xs ++ ys) ≡ ys
  unfolding drop
  drop-append_exact zero [] ys h = refl
  drop-append_exact zero (x ∷ xs) ys h = absurd (omega arith)
  drop-append_exact (suc n) [] ys h = absurd (omega arith)
  drop-append_exact (suc n) (x ∷ xs) ys h = drop-append_exact n xs ys (omega arith)

  pub take-append_exact : (n : ℕ) (xs ys : List A) → length xs ≡ n → take n (xs ++ ys) ≡ xs
  unfolding take
  take-append_exact zero [] ys h = refl
  take-append_exact zero (x ∷ xs) ys h = absurd (omega arith)
  take-append_exact (suc n) [] ys h = absurd (omega arith)
  take-append_exact (suc n) (x ∷ xs) ys h =
      ap (λ l. x ∷ l) (take-append_exact n xs ys (omega arith))

  -- A part that ends within the prefix.
  pub mid-append_left :
      (start count : ℕ) (xs ys : List A)
      → start + count ≤ length xs
      → mid (xs ++ ys) start count ≡ mid xs start count
  unfolding take drop
  mid-append_left zero zero xs ys h = refl
  mid-append_left zero (suc count) [] ys h = absurd (omega arith)
  mid-append_left zero (suc count) (x ∷ xs) ys h =
      ap (λ l. x ∷ l) (mid-append_left zero count xs ys (omega arith))
  mid-append_left (suc start) count [] ys h = absurd (omega arith)
  mid-append_left (suc start) count (x ∷ xs) ys h = mid-append_left start count xs ys (omega arith)

  -- The same within what is taken.
  pub mid-take :
      (start count n : ℕ) (xs : List A)
      → start + count ≤ n
      → mid (take n xs) start count ≡ mid xs start count
  unfolding take drop
  mid-take zero zero n xs h = refl
  mid-take zero (suc count) zero xs h = absurd (omega arith)
  mid-take zero (suc count) (suc n) [] h = refl
  mid-take zero (suc count) (suc n) (x ∷ xs) h =
      ap (λ l. x ∷ l) (mid-take zero count n xs (omega arith))
  mid-take (suc start) count zero xs h = absurd (omega arith)
  mid-take (suc start) count (suc n) [] h = refl
  mid-take (suc start) count (suc n) (x ∷ xs) h = mid-take start count n xs (omega arith)

  pub drop-append_past :
      (n k : ℕ) (xs ys : List A) → n ≡ length xs + k → drop n (xs ++ ys) ≡ drop k ys
  unfolding drop
  drop-append_past n k [] ys h = let e : n ≡ k = omega arith in ap (λ i. drop i ys) e
  drop-append_past zero k (x ∷ xs) ys h = absurd (omega arith)
  drop-append_past (suc n) k (x ∷ xs) ys h = drop-append_past n k xs ys (omega arith)

  pub drop-drop : (m n k : ℕ) (xs : List A) → n + m ≡ k → drop m (drop n xs) ≡ drop k xs
  unfolding drop
  drop-drop m zero k xs h = let e : m ≡ k = omega arith in ap (λ i. drop i xs) e
  drop-drop m (suc n) k [] h = drop-all m [] (omega arith) ∙ sym (drop-all k [] (omega arith))
  drop-drop m (suc n) zero (x ∷ xs) h = absurd (omega arith)
  drop-drop m (suc n) (suc k) (x ∷ xs) h = drop-drop m n k xs (omega arith)

  pub length-set : (xs : List A) (i : ℕ) (y : A) → length (set xs i y) ≡ length xs
  unfolding set
  length-set [] i y = refl
  length-set (x ∷ xs) zero y = refl
  length-set (x ∷ xs) (suc i) y = ap suc (length-set xs i y)

  pub set-append :
      (xs ys : List A) (i : ℕ) (y : A) → i < length xs → set (xs ++ ys) i y ≡ set xs i y ++ ys
  unfolding set
  set-append [] ys i y h = absurd (omega arith)
  set-append (x ∷ xs) ys zero y h = refl
  set-append (x ∷ xs) ys (suc i) y h = ap (λ l. x ∷ l) (set-append xs ys i y (omega arith))

  pub get_elem?-set :
      (xs : List A) (i : ℕ) (y : A) → i < length xs → get_elem? (set xs i y) i ≡ some y
  unfolding set get_elem?
  get_elem?-set [] i y h = absurd (omega arith)
  get_elem?-set (x ∷ xs) zero y h = refl
  get_elem?-set (x ∷ xs) (suc i) y h = get_elem?-set xs i y (omega arith)

  pub get_elem?-set_other :
      (xs : List A) (i j : ℕ) (y : A) → i ≢ j → get_elem? (set xs i y) j ≡ get_elem? xs j
  unfolding set get_elem?
  get_elem?-set_other [] i j y h = refl
  get_elem?-set_other (x ∷ xs) zero zero y h = absurd (h refl)
  get_elem?-set_other (x ∷ xs) zero (suc j) y h = refl
  get_elem?-set_other (x ∷ xs) (suc i) zero y h = refl
  get_elem?-set_other (x ∷ xs) (suc i) (suc j) y h =
      get_elem?-set_other xs i j y (λ e. h (ap suc e))

  pub get_elem?-append :
      (xs ys : List A) (i : ℕ) → i < length xs → get_elem? (xs ++ ys) i ≡ get_elem? xs i
  unfolding get_elem?
  get_elem?-append [] ys i h = absurd (omega arith)
  get_elem?-append (x ∷ xs) ys zero h = refl
  get_elem?-append (x ∷ xs) ys (suc i) h = get_elem?-append xs ys i (omega arith)
