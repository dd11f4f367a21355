-- ===== src/Tree/Gone.antt =====
-- What a search finds after tdelete.
use Prim.Native.Nat.{Ordering}
use Prim.Native.Nat.Ordering.{lt, eq, gt}
use jaclibc.Base.{◌≡◌, ◌≢◌, arith, refl, some, none, ◌∙◌, ◌⊎◌, ◌↔◌, inl, inr, Option-cases}
use mathlib.Core.Option
use jaclibc.Tree.{
  Tree, leaf, node, descend, successor, unlink, remove, root_of, tdelete, found, missing, invalid,
}
use jaclibc.Tree.Order.{IsComparison, IsOrdered, Every, Every-imp}
use jaclibc.Tree.Delete.{Every-successor, remove-IsOrdered}

module _ {ℓ} {K : Type ℓ} (compar : K → K → Ordering) (laws : IsComparison compar) where
  descend-below : (t : Tree K) (p : K) → Every (λ x. compar x p ≡ lt) t → descend compar t p ≡ none
  unfolding descend
  descend-below leaf p h = refl
  descend-below (node l x r) p h = ground (arith, laws.flip x p, descend-below r p h.2)

  descend-above : (t : Tree K) (p : K) → Every (λ x. compar p x ≡ lt) t → descend compar t p ≡ none
  unfolding descend
  descend-above leaf p h = refl
  descend-above (node l x r) p h = ground (arith, descend-above l p h.1)

  -- Below k, and k is at most p.
  low_side :
      (t : Tree K) (k p : K)
      → compar p k ≢ lt
      → Every (λ x. compar x k ≡ lt) t
      → descend compar t p ≡ none
  low_side t k p ne h = descend-below t p (
      Every-imp
        (λ x e.
          ground (
            arith,
            laws.trans x k p e,
            laws.flip p k,
            laws.flip x p,
            laws.flip x k,
            laws.same p k x,
          ))
        t h)

  high_side :
      (t : Tree K) (k p : K)
      → compar p k ≢ gt
      → Every (λ x. compar k x ≡ lt) t
      → descend compar t p ≡ none
  high_side t k p ne h = descend-above t p (
      Every-imp
        (λ x e. ground (arith, λ (h' : compar p k ≡ lt). laws.trans p k x h' e, laws.same p k x)) t
        h)

  descend-successor :
      (l : Tree K) (k : K) (r : Tree K) (p : K)
      → IsOrdered compar (node l k r)
      → descend compar (node l k r) p ≡ (elim (compar p (successor l k r).0) [
        | eq ↦ some (successor l k r).0
        | lt ↦ none
        | gt ↦ descend compar (successor l k r).1 p
      ])
  unfolding descend successor
  descend-successor leaf k r p o = ground arith
  descend-successor (node ll lk lr) k r p o =
      let m = (successor ll lk lr).0 in
      let least = (Every-successor (λ x. compar x k ≡ lt) ll lk lr o.0).0 in
      ground (
        arith,
        descend-successor ll lk lr p o.2,
        least,
        laws.same p m k,
        λ (h : compar p m ≡ lt). laws.trans p m k h least,
      )

  descend-unlink_ne :
      (l : Tree K) (k : K) (r : Tree K) (p : K)
      → IsOrdered compar (node l k r)
      → compar p k ≢ eq
      → descend compar (unlink l r) p ≡ descend compar (node l k r) p
  unfolding descend unlink
  descend-unlink_ne (node ll lk lr) k (node rl rk rr) p o ne =
      let m = (successor rl rk rr).0 in
      let least = (Every-successor (λ x. compar k x ≡ lt) rl rk rr o.1).0 in
      ground (
        arith,
        descend-successor rl rk rr p o.3,
        least,
        λ (h : compar p k ≡ lt). laws.trans p k m h least,
        λ (h : compar p k ≢ lt). low_side (node ll lk lr) k p h o.0,
      )
  descend-unlink_ne (node ll lk lr) k leaf p o ne =
      ground (arith, λ (h : compar p k ≢ lt). low_side (node ll lk lr) k p h o.0)
  descend-unlink_ne leaf k r p o ne = ground (arith, λ (h : compar p k ≢ gt). high_side r k p h o.1)

  descend-unlink_self :
      (l : Tree K) (k : K) (r : Tree K) (p : K)
      → IsOrdered compar (node l k r)
      → compar p k ≡ eq
      → descend compar (unlink l r) p ≡ none
  unfolding descend unlink
  descend-unlink_self (node ll lk lr) k (node rl rk rr) p o e =
      let m = (successor rl rk rr).0 in
      let least = (Every-successor (λ x. compar k x ≡ lt) rl rk rr o.1).0 in
      let same : compar p m ≡ lt = laws.same p k m e ∙ least in
      ground (arith, same, low_side (node ll lk lr) k p (λ h. cc) o.0)
  descend-unlink_self (node ll lk lr) k leaf p o e = low_side (node ll lk lr) k p (λ h. cc) o.0
  descend-unlink_self leaf k r p o e = high_side r k p (λ h. cc) o.1

  descend-remove_self :
      (t : Tree K) (q : K)
      → IsOrdered compar t
      → descend compar (Option.get_or (remove compar t q) t) q ≡ none
  unfolding descend remove
  descend-remove_self leaf q o = refl
  descend-remove_self (node l k r) q o = ground (
    arith,
    descend-remove_self l q o.2,
    descend-remove_self r q o.3,
    descend-unlink_self l k r q o,
  )

  descend-remove_ne :
      (t : Tree K) (q p : K)
      → IsOrdered compar t
      → compar p q ≢ eq
      → descend compar (Option.get_or (remove compar t q) t) p ≡ descend compar t p
  unfolding descend remove
  descend-remove_ne leaf q p o ne = refl
  descend-remove_ne (node l k r) q p o ne = ground (
    arith,
    descend-remove_ne l q p o.2 ne,
    descend-remove_ne r q p o.3 ne,
    descend-unlink_ne l k r p o,
    laws.same q k p,
    laws.flip p k,
    laws.flip p q,
  )

  -- A key is removed exactly where a search finds it.
  remove-some : (t : Tree K) (q : K) → (remove compar t q ≡ none) ↔ (descend compar t q ≡ none)
  unfolding descend remove
  remove-some leaf q = (λ e. refl, λ e. refl)
  remove-some (node l k r) q = (
    λ e. ground (arith, (remove-some l q).0, (remove-some r q).0),
    λ e. ground (arith, (remove-some l q).1, (remove-some r q).1),
  )

  deleted :
      (l : Tree K) (k : K) (r : Tree K) (q : K) (t' : Tree K)
      → remove compar (node l k r) q ≡ some t'
      → ((t' ≢ leaf) × (tdelete compar (node l k r) q ≡ (t', found t')))
        ⊎ ((t' ≡ leaf) × (tdelete compar (node l k r) q ≡ (t', missing)))
  unfolding tdelete root_of
  deleted l k r q leaf e = inr (refl, rw (e, tdelete))
  deleted l k r q (node a b c) e = inl (λ h. absurd (ground (arith, h)), rw (e, tdelete))

  -- On an ordered tree tdelete returns NULL with EINVAL for an empty tree, and NULL where a search finds no key;
  -- both leave the tree as it was. Else it leaves an ordered tree in which the key and its equals are not
  -- found and every other key finds what it found before, and returns the root of it, which is NULL where
  -- the last node went.
  pub tdelete_lem :
      (t : Tree K) (q : K)
      → IsOrdered compar t
      → ((tdelete compar t q ≡ (t, invalid)) × (t ≡ leaf))
        ⊎ ((tdelete compar t q ≡ (t, missing)) × (t ≢ leaf) × (descend compar t q ≡ none))
        ⊎ ((t' : Tree K) × (((t' ≢ leaf) × (tdelete compar t q ≡ (t', found t')))
              ⊎ ((t' ≡ leaf) × (tdelete compar t q ≡ (t', missing))))
            × (descend compar t q ≢ none)
            × IsOrdered compar t'
            × (descend compar t' q ≡ none)
            × ((p : K) → compar p q ≢ eq → descend compar t' p ≡ descend compar t p))
  unfolding tdelete
  tdelete_lem leaf q o = inl (refl, refl)
  tdelete_lem (node l k r) q o = elim (Option-cases (remove compar (node l k r) q)) [
    | inl e ↦
        inr (
          inl
            (rw (e, tdelete), (λ h. absurd (ground (arith, h))), (remove-some (node l k r) q).0 e))
    | inr (t', e) ↦ inr (
        inr (
          t',
          deleted l k r q t' e,
          λ h. ground (arith, (remove-some (node l k r) q).1 h),
          rw e at (remove-IsOrdered compar laws (node l k r) q o),
          rw e at (descend-remove_self (node l k r) q o),
          λ p ne. rw e at (descend-remove_ne (node l k r) q p o ne),
        ))
  ]
