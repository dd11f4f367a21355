-- ===== src/Tree/Delete.antt =====
-- tdelete: the key is gone, the others stay, and the order is kept.
use Prim.Native.Nat.{Ordering}
use Prim.Native.Nat.Ordering.{lt, eq, gt}
use jaclibc.Base.{◌≡◌, arith, Option, some, none}
use mathlib.Core.Option
use jaclibc.Tree.{Tree, leaf, node, successor, unlink, remove}
use jaclibc.Tree.Order.{IsComparison, IsOrdered, Every, Every-imp}

module _ {ℓ} {K : Type ℓ} where
  pub Every-successor {μ} :
      (P : K → Type μ) (l : Tree K) (k : K) (r : Tree K)
      → Every P (node l k r)
      → P (successor l k r).0 × Every P (successor l k r).1
  unfolding successor
  Every-successor P leaf k r h = (h.0, h.2)
  Every-successor P (node ll lk lr) k r h =
      let (least, rest) = Every-successor P ll lk lr h.1 in (least, (h.0, rest, h.2))

  pub Every-unlink {μ} :
      (P : K → Type μ) (l r : Tree K) → Every P l → Every P r → Every P (unlink l r)
  unfolding unlink
  Every-unlink P (node ll lk lr) (node rl rk rr) hl hr =
      let (least, rest) = Every-successor P rl rk rr hr in (least, hl, rest)
  Every-unlink P (node ll lk lr) leaf hl hr = hl
  Every-unlink P leaf r hl hr = hr

module _ {ℓ} {K : Type ℓ} (compar : K → K → Ordering) (laws : IsComparison compar) where
  successor-IsOrdered :
      (l : Tree K) (k : K) (r : Tree K)
      → IsOrdered compar (node l k r)
      → Every (λ x. compar (successor l k r).0 x ≡ lt) (successor l k r).1
        × IsOrdered compar (successor l k r).1
  unfolding successor
  successor-IsOrdered leaf k r o = (o.1, o.3)
  successor-IsOrdered (node ll lk lr) k r o =
      let (above, ordered) = successor-IsOrdered ll lk lr o.2 in
      let (least, rest) = Every-successor (λ x. compar x k ≡ lt) ll lk lr o.0 in
      ((least, above, Every-imp (λ x h. laws.trans _ k x least h) r o.1), (rest, o.1, ordered, o.3))

  unlink-IsOrdered :
      (l : Tree K) (k : K) (r : Tree K)
      → IsOrdered compar (node l k r)
      → IsOrdered compar (unlink l r)
  unfolding unlink
  unlink-IsOrdered (node ll lk lr) k (node rl rk rr) o =
      let (above, ordered) = successor-IsOrdered rl rk rr o.3 in
      let (high, _) = Every-successor (λ x. compar k x ≡ lt) rl rk rr o.1 in
      (Every-imp (λ x h. laws.trans x k _ h high) (node ll lk lr) o.0, above, o.2, ordered)
  unlink-IsOrdered (node ll lk lr) k leaf o = o.2
  unlink-IsOrdered leaf k r o = o.3

  Every-remove {μ} :
      (P : K → Type μ) (t : Tree K) (q : K)
      → Every P t
      → Every P (Option.get_or (remove compar t q) t)
  unfolding remove
  Every-remove P leaf q h = h
  Every-remove P (node l k r) q h =
      ground (arith, Every-remove P l q h.1, Every-remove P r q h.2, Every-unlink P l r h.1 h.2)

  pub remove-IsOrdered :
      (t : Tree K) (q : K)
      → IsOrdered compar t
      → IsOrdered compar (Option.get_or (remove compar t q) t)
  unfolding remove
  remove-IsOrdered leaf q o = o
  remove-IsOrdered (node l k r) q o =
      let left = remove-IsOrdered l q o.2 in
      let right = remove-IsOrdered r q o.3 in
      let low = Every-remove (λ x. compar x k ≡ lt) l q o.0 in
      let high = Every-remove (λ x. compar k x ≡ lt) r q o.1 in
      let met = unlink-IsOrdered l k r o in
      go (compar q k) (remove compar l q) (remove compar r q) left right low high met
    where
      go :
          (c : Ordering) (a b : Option (Tree K))
          → IsOrdered compar (Option.get_or a l)
          → IsOrdered compar (Option.get_or b r)
          → Every (λ x. compar x k ≡ lt) (Option.get_or a l)
          → Every (λ x. compar k x ≡ lt) (Option.get_or b r)
          → IsOrdered compar (unlink l r)
          → IsOrdered compar (
              Option.get_or
                (elim c [
                  | eq ↦ some (unlink l r)
                  | lt ↦ elim a [ none ↦ none | some l' ↦ some (node l' k r) ]
                  | gt ↦ elim b [ none ↦ none | some r' ↦ some (node l k r') ]
                ])
                (node l k r))
      go eq a b left right low high met = met
      go lt none b left right low high met = o
      go lt (some l') b left right low high met = (low, o.1, left, o.3)
      go gt a none left right low high met = o
      go gt a (some r') left right low high met = (o.0, high, o.2, right)
