-- ===== src/M68k/Rte/Passes.antt =====
-- The parts of RTE that only move the stack pointer over the rest of a frame.
use cute_mac.Base.{ℕ, ◌+◌, ◌^◌, ◌<◌, Bool-cases, inl, inr, ◌==◌, ◌≡◌, refl, ap, ◌∙◌, fun_ext, arith}
use cute_mac.M68k.Flags.{Size, word, long}
use cute_mac.M68k.Cpu.{Cpu, M, ok, pure, ◌>>◌, update, set_da, then_lem}
use cute_mac.M68k.Memory.{bytes, fake_pull}
use cute_mac.M68k.Memory.Ram.{u32-small}
use cute_mac.M68k.Rte.{skip, skip_1000}

-- A statement that does nothing but move the stack pointer up by `n`.
abbrev pub Passes : {S : Type 0} → ℕ → M S (Unit {0}) → Type 0
Passes {S = S} n pass =
    (c : Cpu S)
    → c.dar 15 + n < 2 ^ 32
    → pass c ≡ ok tt (record c { dar = update c.dar 15 (c.dar 15 + n) })

pub update_hit : (regs : ℕ → ℕ) (i v : ℕ) → update regs i v i ≡ v
update_hit regs i v = ground arith

pub update_twice : (regs : ℕ → ℕ) (i v w : ℕ) → update (update regs i v) i w ≡ update regs i w
update_twice regs i v w =
    fun_ext (λ j. elim (Bool-cases (j == i)) [ inl t ↦ rw t refl | inr t ↦ rw t refl ])

pub update_same : (regs : ℕ → ℕ) (i v : ℕ) → v ≡ regs i → update regs i v ≡ regs
update_same regs i v same = fun_ext (λ j. ground (arith, ap regs {x = j} {y = i}))

module _ {S : Type 0} where
  pub none-Passes : Passes {S = S} 0 (pure tt)
  none-Passes c room = rw (update_same c.dar 15 (c.dar 15 + 0) (omega arith)) refl

  pub fake_pull-Passes : (size : Size) → Passes {S = S} (bytes size) (fake_pull {S = S} size)
  unfolding fake_pull set_da
  fake_pull-Passes size c room = rw (u32-small (c.dar 15 + bytes size) room) refl

  pub skip-Passes : (n : ℕ) → Passes {S = S} n (skip {S = S} n)
  unfolding skip set_da
  skip-Passes n c room = rw (u32-small (c.dar 15 + n) room) refl

  pub then-Passes :
      (n m : ℕ) (p q : M S (Unit {0})) → Passes n p → Passes m q → Passes (n + m) (p >> q)
  then-Passes n m p q first second c room =
      then_lem _ (first c (omega arith))
      ∙ second (record c { dar = update c.dar 15 (c.dar 15 + n) }) (omega arith)
      ∙ rw (update_twice c.dar 15 (c.dar 15 + n) (c.dar 15 + n + m))
          (let e : c.dar 15 + n + m ≡ c.dar 15 + (n + m) = omega arith in rw e refl)

  pub skip_1000-Passes : Passes {S = S} 50 skip_1000
  unfolding skip_1000
  skip_1000-Passes =
      let w = fake_pull-Passes word in
      let l = fake_pull-Passes long in
      then-Passes 2 48 _ _ w (
        then-Passes 4 44 _ _ l (
          then-Passes 2 42 _ _ w (
            then-Passes 2 40 _ _ w (
              then-Passes 2 38 _ _ w (
                then-Passes 2 36 _ _ w (
                  then-Passes 2 34 _ _ w (
                    then-Passes 2 32 _ _ w (
                      then-Passes 4 28 _ _ l (
                        then-Passes 4 24 _ _ l (
                          then-Passes 4 20 _ _ l (
                            then-Passes 4 16 _ _ l (
                              then-Passes 4 12 _ _ l
                                (then-Passes 4 8 _ _ l (then-Passes 4 4 _ _ l (l)))))))))))))))
