-- ===== src/Prelude/Ranges.antt =====
-- A test of every number below a bound, by evaluation.
use Prim.Native.Nat.{ℕ, zero, suc, ◌<◌}
use mathlib.Core.Path.{◌≡◌}
use mathlib.Core.Bool.{Bool, true, ◌&&◌}
use native.Mathlib.Decide.{ℕ_discrete}
use native.Mathlib.Omega.{arith}

unfoldable pub holds_below : ℕ → (ℕ → Bool) → Bool
holds_below zero f = true
holds_below (suc n) f = f n && holds_below n f

pub holds_below_sound :
    (n : ℕ) (f : ℕ → Bool) → holds_below n f ≡ true → (d : ℕ) → d < n → f d ≡ true
unfolding holds_below
holds_below_sound zero f h d less = absurd (omega arith)
holds_below_sound (suc n) f h d less = elim (ℕ_discrete d n) [
  | yes e ↦ ground arith
  | no e ↦ holds_below_sound n f (ground arith) d (omega arith)
]
