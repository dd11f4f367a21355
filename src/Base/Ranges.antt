-- ===== src/Base/Ranges.antt =====
-- Properties of all numbers of a range, one number at a time.
use Prim.Native.Nat.{ℕ, ◌+◌, ◌≤◌, ◌<◌}
use mathlib.Core.Path.{subst}
use native.Mathlib.Decide.{ℕ_discrete}
use native.Mathlib.Omega.{arith}

-- From i + 1 on, and at i.
pub extend_down {ℓ} :
    (P : ℕ → Type ℓ) (i n : ℕ)
    → P i
    → ((j : ℕ) → i + 1 ≤ j → j < n → P j)
    → (j : ℕ) → i ≤ j
    → j < n
    → P j
extend_down P i n p h j lo hi = elim (ℕ_discrete i j) [
  | yes e ↦ subst P e p
  | no ne ↦ h j (omega arith) hi
]
