-- ===== src/M68k/Lines/Laws.antt =====
-- About the interrupt inputs.
use native.Mathlib.Nat.{pow-le-pow_right}
use native.Mathlib.Decide.{ℕ_discrete}
use cute_mac.Base.{
  ℕ, zero, suc, ◌*◌, ◌^◌, ◌≤◌, ◌<◌, bit, bit_and, bit_and-pow, pow_pos, bit_or-bit, bit_and-bit,
  bit-pow_same, bit-pow_other, bit-complement, Bool, true, false, ◌&&◌, ◌||◌, not, ◌==◌, Bool-cases,
  inl, inr, ◌⊎◌, ◌≡◌, ◌≢◌, refl, sym, ap, ◌∙◌, arith, not32, shl32,
}
use cute_mac.M68k.Cpu.{Cpu}
use cute_mac.M68k.Lines.{highest, line_state, set_irq, set_virq, get_virq}

shifted : (k : ℕ) → k < 32 → shl32 1 k ≡ 2 ^ k
shifted k small =
    let bound : 2 ^ k ≤ 2 ^ 31 =
      pow-le-pow_right {n = 2} (omega arith) {i = k} {j = 31} (omega arith) in
    omega (arith, bound)

below_word : (k : ℕ) → k < 32 → 2 ^ k < 2 ^ 32
below_word k small =
    let bound : 2 ^ k ≤ 2 ^ 31 =
      pow-le-pow_right {n = 2} (omega arith) {i = k} {j = 31} (omega arith) in
    omega (arith, bound)

-- A line of `state` is a digit.
line : (k state : ℕ) → k < 32 → not (bit_and state (shl32 1 k) == 0) ≡ (bit k state == 1)
line k state small =
    rw (shifted k small, bit_and-pow k state)
      (digit (bit k state) (2 ^ k) (omega arith) (omega (arith, pow_pos k)))
  where
    digit : (d p : ℕ) → d < 2 → 0 < p → not (d * p == 0) ≡ (d == 1)
    digit zero p small above = ground arith
    digit (suc zero) p small above = ground arith
    digit (suc (suc d)) p small above = absurd (omega arith)

-- Setting one line changes that line only.
line_state_same :
    (level : ℕ) (active : Bool) (state : ℕ)
    → level < 32
    → (bit level (line_state level active state) == 1) ≡ active
unfolding line_state
line_state_same level true state small =
    rw (shifted level small, bit_or-bit level state (2 ^ level), bit-pow_same level) (ground arith)
line_state_same level false state small =
    rw (shifted level small, bit_and-bit level state (not32 (2 ^ level)))
      (let e : bit level (not32 (2 ^ level)) ≡ 0 =
          bit-complement 32 level (2 ^ level) (below_word level small) small
          ∙ rw (bit-pow_same level) refl in
        rw e (ground arith))

line_state_other :
    (level k : ℕ) (active : Bool) (state : ℕ)
    → level < 32
    → k < 32
    → k ≢ level
    → bit k (line_state level active state) ≡ bit k state
unfolding line_state
line_state_other level k true state small fits apart =
    rw (shifted level small, bit_or-bit k state (2 ^ level), bit-pow_other k level apart)
      (ground arith)
line_state_other level k false state small fits apart =
    rw (shifted level small, bit_and-bit k state (not32 (2 ^ level)))
      (let e : bit k (not32 (2 ^ level)) ≡ 1 =
          bit-complement 32 k (2 ^ level) (below_word level small) fits
          ∙ rw (bit-pow_other k level apart) refl in
        rw e (omega arith))

pub highest_bound : (n state : ℕ) → highest n state ≤ n
unfolding highest
highest_bound zero state = omega arith
highest_bound (suc n) state = elim (Bool-cases (bit_and state (2 ^ suc n) == 0)) [
  | inl t ↦ rw t (omega (arith, highest_bound n state))
  | inr t ↦ rw t (omega arith)
]

highest_active : (n state : ℕ) → (highest n state ≡ 0) ⊎ (bit (highest n state) state ≡ 1)
unfolding highest
highest_active zero state = inl refl
highest_active (suc n) state = elim (Bool-cases (bit_and state (2 ^ suc n) == 0)) [
  | inl t ↦ rw t (highest_active n state)
  | inr t ↦ rw t (
      inr (
        digit_one (bit (suc n) state) (2 ^ suc n) (omega arith)
          (rw (bit_and-pow (suc n) state) at t)))
]
  where
    digit_one : (d p : ℕ) → d < 2 → (d * p == 0) ≡ false → d ≡ 1
    digit_one zero p small t = absurd (ground arith)
    digit_one (suc zero) p small t = refl
    digit_one (suc (suc d)) p small t = absurd (omega arith)

highest_above : (n k state : ℕ) → highest n state < k → k ≤ n → bit k state ≡ 0
unfolding highest
highest_above zero k state above fits = absurd (omega arith)
highest_above (suc n) k state above fits = elim (Bool-cases (bit_and state (2 ^ suc n) == 0)) [
  | inl t ↦ elim (ℕ_discrete k (suc n)) [
    | yes e ↦ rw e (
        digit_zero (bit (suc n) state) (2 ^ suc n) (omega arith) (pow_pos (suc n))
          (rw (bit_and-pow (suc n) state) at t))
    | no e ↦ highest_above n k state (rw t at above) (omega arith)
  ]
  | inr t ↦ absurd (let high : suc n < k = rw t at above in omega arith)
]
  where
    digit_zero : (d p : ℕ) → d < 2 → 0 < p → (d * p == 0) ≡ true → d ≡ 0
    digit_zero zero p small pos t = refl
    digit_zero (suc zero) p small pos t = absurd (ground arith)
    digit_zero (suc (suc d)) p small pos t = absurd (omega arith)

-- The level that the processor sees after a change of the inputs: `top` is the highest active
-- line from 7 down to 1, or 0, and a step up to 7 leaves a non-maskable interrupt pending.
pub record IsRouted {S : Type 0} (c d : Cpu S) : Type 0 where
  pub top : ℕ
  pub top_bound : top ≤ 7
  pub level_is : d.int_level ≡ top * 2 ^ 8
  pub top_active : (top ≡ 0) ⊎ (get_virq top d ≡ true)
  pub top_highest : (k : ℕ) → top < k → k ≤ 7 → get_virq k d ≡ false
  pub nmi : d.nmi_pending ≡ (c.nmi_pending || (top == 7 && not (c.int_level == 0x700)))

module _ {S : Type 0} where
  -- After m68k_set_virq on one of 32 lines, that line reads back as it was set, every other line
  -- as before, and the level is that of the highest active line from 7 down to 1.
  pub set_virq-IsRouted :
      (level : ℕ) (active : Bool) (c : Cpu S)
      → level < 32
      → (get_virq level (set_virq level active c) ≡ active)
        × ((k : ℕ) → k < 32 → k ≢ level → get_virq k (set_virq level active c) ≡ get_virq k c)
        × IsRouted c (set_virq level active c)
  unfolding set_virq set_irq get_virq
  set_virq-IsRouted level active c small =
      let state = line_state level active c.virq_state in
      let bound = highest_bound 7 state in
      (
        line level state small ∙ line_state_same level active c.virq_state small,
        λ k fits apart.
            line k state fits
            ∙ ap (λ d. d == 1) (line_state_other level k active c.virq_state small fits apart)
            ∙ sym (line k c.virq_state fits),
        record {
          top = highest 7 state;
          top_bound = bound;
          level_is = omega (arith, bound);
          top_active = elim (highest_active 7 state) [
            | inl e ↦ inl e
            | inr e ↦ inr (line (highest 7 state) state (omega (arith, bound)) ∙ rw e refl)
          ];
          top_highest = λ k above fits.
              line k state (omega arith) ∙ rw (highest_above 7 k state above fits) refl;
          nmi = ground (arith, bound);
        },
      )
