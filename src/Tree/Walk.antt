-- ===== src/Tree/Walk.antt =====
-- twalk: in which order the nodes are visited.
use mathlib.Core.List.{append-nil}
use jaclibc.Base.{ℕ, ◌+◌, ◌≡◌, Bool, true, false, List, [], ◌∷◌, ◌++◌, if◌then◌else◌, refl, arith}
use jaclibc.Tree.{
  Tree, leaf, node, Visit, preorder, postorder, endorder, at_leaf, Event, leaf_event, walk, twalk,
}

abbrev pub visit_eq : Visit → Visit → Bool
visit_eq preorder preorder = true
visit_eq postorder postorder = true
visit_eq endorder endorder = true
visit_eq at_leaf at_leaf = true
visit_eq _ _ = false

module _ {ℓ} {K : Type ℓ} where
  -- The keys of the events of one kind, in order.
  abbrev pub visited : Visit → List (Event K) → List K
  visited v [] = []
  visited v ((k, w, d) ∷ es) = if visit_eq v w then k ∷ visited v es else visited v es

  visited-append :
      (v : Visit) (es fs : List (Event K)) → visited v (es ++ fs) ≡ visited v es ++ visited v fs
  visited-append v [] fs = refl
  visited-append v ((k, w, d) ∷ es) fs = ground (arith, visited-append v es fs)

  -- Each node before its children.
  abbrev pub pre_keys : Tree K → List K
  pre_keys leaf = []
  pre_keys (node l k r) = k ∷ (pre_keys l ++ pre_keys r)

  -- Each node after both of its children.
  abbrev pub post_keys : Tree K → List K
  post_keys leaf = []
  post_keys (node l k r) = post_keys l ++ (post_keys r ++ k ∷ [])

  -- The nodes with no children, from left to right.
  abbrev pub leaf_keys : Tree K → List K
  leaf_keys leaf = []
  leaf_keys (node leaf k leaf) = k ∷ []
  leaf_keys (node l k r) = leaf_keys l ++ leaf_keys r

  leaf_quiet :
      (v : Visit) (l : Tree K) (k : K) (r : Tree K) (d : ℕ)
      → visit_eq v at_leaf ≡ false
      → visited v (leaf_event l r k d) ≡ []
  leaf_quiet v leaf k leaf d h = ground arith
  leaf_quiet v leaf k (node _ _ _) d h = refl
  leaf_quiet v (node _ _ _) k r d h = refl

  leaf_keys-node :
      (l : Tree K) (k : K) (r : Tree K) (d : ℕ)
      → leaf_keys (node l k r)
        ≡ visited at_leaf (leaf_event l r k d) ++ (leaf_keys l ++ leaf_keys r)
  leaf_keys-node leaf k leaf d = refl
  leaf_keys-node leaf k (node _ _ _) d = refl
  leaf_keys-node (node _ _ _) k r d = refl

  walk-preorder : (t : Tree K) (d : ℕ) → visited preorder (walk t d) ≡ pre_keys t
  unfolding walk
  walk-preorder leaf d = refl
  walk-preorder (node l k r) d = simp (
    visited-append,
    leaf_quiet preorder l k r d refl,
    walk-preorder l (d + 1),
    walk-preorder r (d + 1),
    append-nil,
  )

  walk-postorder : (t : Tree K) (d : ℕ) → visited postorder (walk t d) ≡ post_keys t
  unfolding walk
  walk-postorder leaf d = refl
  walk-postorder (node l k r) d = simp (
    visited-append,
    leaf_quiet postorder l k r d refl,
    walk-postorder l (d + 1),
    walk-postorder r (d + 1),
  )

  walk-endorder : (t : Tree K) (d : ℕ) → visited endorder (walk t d) ≡ post_keys t
  unfolding walk
  walk-endorder leaf d = refl
  walk-endorder (node l k r) d = simp (
    visited-append,
    leaf_quiet endorder l k r d refl,
    walk-endorder l (d + 1),
    walk-endorder r (d + 1),
  )

  walk-leaf : (t : Tree K) (d : ℕ) → visited at_leaf (walk t d) ≡ leaf_keys t
  unfolding walk
  walk-leaf leaf d = refl
  walk-leaf (node l k r) d =
      rw (leaf_keys-node l k r d)
        (simp (visited-append, walk-leaf l (d + 1), walk-leaf r (d + 1), append-nil))

  -- twalk visits each node as `preorder` before its children, as `postorder` and again as `endorder`
  -- after both of them, and a node with no children as `leaf` too, from left to right.
  pub twalk_lem :
      (t : Tree K)
      → (visited preorder (twalk t) ≡ pre_keys t)
        × (visited postorder (twalk t) ≡ post_keys t)
        × (visited endorder (twalk t) ≡ post_keys t)
        × (visited at_leaf (twalk t) ≡ leaf_keys t)
  unfolding twalk
  twalk_lem t = (walk-preorder t 0, walk-postorder t 0, walk-endorder t 0, walk-leaf t 0)
