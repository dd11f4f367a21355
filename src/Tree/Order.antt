-- ===== src/Tree/Order.antt =====
-- What a comparison function has to satisfy, and the search-tree order.
use Prim.Native.Nat.{Ordering}
use Prim.Native.Nat.Ordering.{lt, eq, gt}
use jaclibc.Base.{◌≡◌, Bool, arith, true, false}
use jaclibc.Tree.{Tree, leaf, node, grow}

abbrev pub opposite : Ordering → Ordering
opposite lt = gt
opposite eq = eq
opposite gt = lt

-- A total preorder, as the C standard asks of a comparison function: keys that compare equal need
-- not be the same pointer.
pub record IsComparison {ℓ} {K : Type ℓ} (compar : K → K → Ordering) : Type ℓ where
  pub self : (a : K) → compar a a ≡ eq
  pub flip : (a b : K) → compar b a ≡ opposite (compar a b)
  pub trans : (a b c : K) → compar a b ≡ lt → compar b c ≡ lt → compar a c ≡ lt
  pub same : (a b c : K) → compar a b ≡ eq → compar a c ≡ compar b c

module _ {ℓ} {K : Type ℓ} where
  -- Every key of the tree has the property.
  abbrev pub Every {μ} : (K → Type μ) → Tree K → Type μ
  Every P leaf = Unit
  Every P (node l k r) = P k × Every P l × Every P r

  pub Every-imp {μ ν} :
      {P : K → Type μ} {Q : K → Type ν}
      → ((k : K) → P k → Q k)
      → (t : Tree K) → Every P t
      → Every Q t
  Every-imp f leaf h = tt
  Every-imp f (node l k r) h = (f k h.0, Every-imp f l h.1, Every-imp f r h.2)

module _ {ℓ} {K : Type ℓ} (compar : K → K → Ordering) where
  -- Keys to the left of a node compare less than its key, those to the right greater.
  abbrev pub IsOrdered : Tree K → Type 0
  IsOrdered leaf = Unit
  IsOrdered (node l k r) =
      Every (λ x. compar x k ≡ lt) l × Every (λ x. compar k x ≡ lt) r × IsOrdered l × IsOrdered r

module _ {ℓ} {K : Type ℓ} (compar : K → K → Ordering) (laws : IsComparison compar) where
  Every-grow {μ} :
      (P : K → Type μ) (allocated : Bool) (t : Tree K) (q : K)
      → P q
      → Every P t
      → Every P (grow compar allocated t q)
  unfolding grow
  Every-grow P true leaf q p h = (p, tt, tt)
  Every-grow P false leaf q p h = tt
  Every-grow P allocated (node l k r) q p h =
      ground (arith, Every-grow P allocated l q, Every-grow P allocated r q)

  pub grow-IsOrdered :
      (allocated : Bool) (t : Tree K) (q : K)
      → IsOrdered compar t
      → IsOrdered compar (grow compar allocated t q)
  unfolding grow
  grow-IsOrdered true leaf q h = (tt, tt, tt, tt)
  grow-IsOrdered false leaf q h = tt
  grow-IsOrdered allocated (node l k r) q h = ground (
    arith,
    grow-IsOrdered allocated l q,
    grow-IsOrdered allocated r q,
    Every-grow (λ x. compar x k ≡ lt) allocated l q,
    Every-grow (λ x. compar k x ≡ lt) allocated r q,
    laws.flip q k,
  )
