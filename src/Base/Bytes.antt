-- ===== src/Base/Bytes.antt =====
-- Facts about every byte, by computing them at each of the 256.
use Prim.Native.Nat.{ℕ, zero, suc, ◌<◌}
use mathlib.Core.Path.{◌≡◌}
use mathlib.Core.Bool.{Bool, true, ◌&&◌}
use native.Mathlib.Decide.{ℕ_discrete}
use native.Mathlib.Omega.{arith}

abbrev pub holds_below : ℕ → (ℕ → Bool) → Bool
holds_below zero test = true
holds_below (suc n) test = test n && holds_below n test

pub holds_below_lem :
    (n : ℕ) (test : ℕ → Bool) → holds_below n test ≡ true → (k : ℕ) → k < n → test k ≡ true
holds_below_lem zero test all k less = absurd (omega arith)
holds_below_lem (suc n) test all k less = elim (ℕ_discrete k n) [
  | yes same ↦ rw same (ground arith)
  | no other ↦ holds_below_lem n test (ground arith) k (omega arith)
]
