-- ===== src/Tree.antt =====
-- include/search.h: the binary search tree of tsearch, tfind, tdelete and twalk.
-- NULL is `leaf`. A node holds the caller's pointer to a key, and the comparison function that the
-- caller passes is a parameter. The address of the root pointer and the function are not NULL.
pub mod Order
pub mod Find
pub mod Delete
pub mod Gone
pub mod Walk
use Prim.Native.Nat.{Ordering}
use Prim.Native.Nat.Ordering.{lt, eq, gt}
use jaclibc.Base.{ℕ, ◌+◌, ◌≡◌, Bool, true, false, Option, none, some, List, [], ◌∷◌, ◌++◌}

-- struct __jacl_tnode
pub data Tree {ℓ} (K : Type ℓ) : Type ℓ where
  leaf : Tree K
  node : Tree K → K → Tree K → Tree K

-- typedef enum { preorder, postorder, endorder, leaf } VISIT;
pub data Visit : Type 0 where
  preorder postorder endorder at_leaf : Visit

-- A node's key, NULL because there is no such node, or NULL with errno EINVAL.
pub data Outcome {ℓ} (A : Type ℓ) : Type ℓ where
  found : A → Outcome A
  missing : Outcome A
  invalid : Outcome A

module _ {ℓ} {K : Type ℓ} where
  -- The leftmost key of a node's tree, and the tree without it: *succ_p = succ->right.
  unfoldable pub successor : Tree K → K → Tree K → K × Tree K
  successor leaf k r = (k, r)
  successor (node ll lk lr) k r = let (least, rest) = successor ll lk lr in (least, node rest k r)

  -- The tree that takes the place of a node with these children.
  unfoldable pub unlink : Tree K → Tree K → Tree K
  unfolding successor
  unlink (node ll lk lr) (node rl rk rr) =
      let (least, rest) = successor rl rk rr in node (node ll lk lr) least rest
  unlink (node ll lk lr) leaf = node ll lk lr
  unlink leaf r = r

module _ {ℓ} {K : Type ℓ} (compar : K → K → Ordering) where
  -- while (*p) { ... }
  unfoldable pub descend : Tree K → K → Option K
  descend leaf key = none
  descend (node l k r) key = elim (compar key k) [
    | eq ↦ some k
    | lt ↦ descend l key
    | gt ↦ descend r key
  ]

  unfoldable pub tfind : Tree K → K → Outcome K
  unfolding descend
  tfind leaf key = invalid
  tfind (node l k r) key = elim (descend (node l k r) key) [ some k' ↦ found k' | none ↦ missing ]

  -- The tree with a new node where the descent ends, if the allocation succeeds.
  unfoldable pub grow : Bool → Tree K → K → Tree K
  grow allocated leaf key = elim allocated [ true ↦ node leaf key leaf | false ↦ leaf ]
  grow allocated (node l k r) key = elim (compar key k) [
    | eq ↦ node l k r
    | lt ↦ node (grow allocated l key) k r
    | gt ↦ node l k (grow allocated r key)
  ]

  -- `allocated` says whether malloc returns a node. The result is the tree and the returned node's key.
  unfoldable pub tsearch : Bool → Tree K → K → Tree K × Option K
  unfolding descend grow
  tsearch allocated t key = (
    grow allocated t key,
    elim (descend t key) [
      | some k ↦ some k
      | none ↦ elim allocated [ true ↦ some key | false ↦ none ]
    ],
  )

  unfoldable pub remove : Tree K → K → Option (Tree K)
  unfolding unlink
  remove leaf key = none
  remove (node l k r) key = elim (compar key k) [
    | eq ↦ some (unlink l r)
    | lt ↦ elim (remove l key) [ none ↦ none | some l' ↦ some (node l' k r) ]
    | gt ↦ elim (remove r key) [ none ↦ none | some r' ↦ some (node l k r') ]
  ]

  -- return *rootp, which is NULL for an empty tree.
  unfoldable pub root_of : Tree K → Outcome (Tree K)
  root_of leaf = missing
  root_of (node l k r) = found (node l k r)

  -- The tree that is left, and what tdelete returns: its root, NULL, or NULL with errno EINVAL.
  unfoldable pub tdelete : Tree K → K → Tree K × Outcome (Tree K)
  unfolding remove root_of
  tdelete leaf key = (leaf, invalid)
  tdelete (node l k r) key = elim (remove (node l k r) key) [
    | some t ↦ (t, root_of t)
    | none ↦ (node l k r, missing)
  ]

-- The calls of the action, in order: the node's key, the visit and the depth.
abbrev pub Event {ℓ} : Type ℓ → Type ℓ
Event K = K × Visit × ℕ

abbrev pub leaf_event {ℓ} : {K : Type ℓ} → Tree K → Tree K → K → ℕ → List (Event K)
leaf_event leaf leaf k d = (k, at_leaf, d) ∷ []
leaf_event leaf (node _ _ _) k d = []
leaf_event (node _ _ _) r k d = []

unfoldable pub walk {ℓ} : {K : Type ℓ} → Tree K → ℕ → List (Event K)
walk leaf d = []
walk (node l k r) d =
    (k, preorder, d)
    ∷ (leaf_event l r k d
        ++ (walk l (d + 1) ++ (walk r (d + 1) ++ ((k, postorder, d) ∷ (k, endorder, d) ∷ []))))

unfoldable pub twalk {ℓ} : {K : Type ℓ} → Tree K → List (Event K)
unfolding walk
twalk t = walk t 0
