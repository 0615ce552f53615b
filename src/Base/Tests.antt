-- ===== src/Base/Tests.antt =====
-- Boolean tests on the native numbers, and the conditional.
use Prim.Native.Nat.{ℕ, compare, Ordering}
use mathlib.Core.Path.{◌≡◌, refl, ap}
use mathlib.Core.Logic.{◌↔◌, ◌⊎◌, inl, inr}
use mathlib.Core.Option.{Option, none, some}
use mathlib.Core.Bool.{Bool, true, false}
use native.Mathlib.Omega.{arith}

abbrev pub ltb : ℕ → ℕ → Bool
ltb a b = elim (compare a b) [ Ordering.lt ↦ true | _ ↦ false ]

abbrev pub leb : ℕ → ℕ → Bool
leb a b = elim (compare a b) [ Ordering.gt ↦ false | _ ↦ true ]

infix 50 ◌==◌
abbrev pub ◌==◌ : ℕ → ℕ → Bool
a == b = elim (compare a b) [ Ordering.eq ↦ true | _ ↦ false ]

infix 1 if◌then◌else◌
abbrev pub if◌then◌else◌ {ℓ} : {A : Type ℓ} → Bool → A → A → A
if true then x else y = x
if false then x else y = y

pub ==_iff : (a b : ℕ) → ((a == b) ≡ true) ↔ (a ≡ b)
==_iff a b = ground arith

-- To split on a computed value and keep the equation.
pub Bool-cases : (b : Bool) → (b ≡ true) ⊎ (b ≡ false)
Bool-cases true = inl refl
Bool-cases false = inr refl

-- The 0 or 1 of a C comparison.
abbrev pub bool_to_ℕ : Bool → ℕ
bool_to_ℕ true = 1
bool_to_ℕ false = 0

pub if_holds : {A : Type 0} {b : Bool} (x y : A) → b ≡ true → (if b then x else y) ≡ x
if_holds x y h = ap (λ (b : Bool). if b then x else y) h

pub if_fails : {A : Type 0} {b : Bool} (x y : A) → b ≡ false → (if b then x else y) ≡ y
if_fails x y h = ap (λ (b : Bool). if b then x else y) h

-- What holds of both branches holds of the conditional.
pub if_both {ℓ} :
    {A : Type 0} (P : A → Type ℓ) (b : Bool) (x y : A)
    → (b ≡ true → P x)
    → (b ≡ false → P y)
    → P (if b then x else y)
if_both P true x y h k = h refl
if_both P false x y h k = k refl

pub option_both {ℓ} :
    {A B : Type 0} (P : B → Type ℓ) (o : Option A) (x : B) (k : A → B)
    → P x
    → ((a : A) → P (k a))
    → P (elim o [ none ↦ x | some a ↦ k a ])
option_both P none x k h hs = h
option_both P (some a) x k h hs = hs a

pub option_none :
    {A B : Type 0} {o : Option A} (x : B) (k : A → B)
    → o ≡ none
    → elim o [ none ↦ x | some a ↦ k a ] ≡ x
option_none x k h = ap (λ o. elim o [ none ↦ x | some a ↦ k a ]) h

pub option_some :
    {A B : Type 0} {o : Option A} {a : A} (x : B) (k : A → B)
    → o ≡ some a
    → elim o [ none ↦ x | some a ↦ k a ] ≡ k a
option_some x k h = ap (λ o. elim o [ none ↦ x | some a ↦ k a ]) h

-- The same where the test is known.
pub on_true {ℓ} :
    {A : Type 0} (P : A → Type ℓ) {b : Bool} (x y : A) → b ≡ true → P x → P (if b then x else y)
on_true P x y h p = rw h p

pub on_false {ℓ} :
    {A : Type 0} (P : A → Type ℓ) {b : Bool} (x y : A) → b ≡ false → P y → P (if b then x else y)
on_false P x y h p = rw h p
