-- ===== src/Tree/Find.antt =====
-- tfind after tsearch.
use Prim.Native.Nat.{Ordering}
use Prim.Native.Nat.Ordering.{eq}
use jaclibc.Base.{◌≡◌, arith, some}
use mathlib.Core.Option
use jaclibc.Tree.{Tree, leaf, node, descend}
use jaclibc.Tree.Order.{IsComparison}

module _ {ℓ} {K : Type ℓ} (compar : K → K → Ordering) (laws : IsComparison compar) where
  -- The node that a key finds has an equal key.
  descend_sound : (t : Tree K) (q x : K) → descend compar t q ≡ some x → compar q x ≡ eq
  unfolding descend
  descend_sound leaf q x h = cc
  descend_sound (node l k r) q x h = ground (arith, descend_sound l q x, descend_sound r q x)
