-- ===== src/Sort/Rearranged.antt =====
-- Arrays that hold the same elements in another order.
use Prim.Native.Nat.{Ordering}
use jaclibc.Base.{
  ℕ, zero, suc, ◌+◌, ◌-◌, ◌/◌, ◌≤◌, ◌<◌, ◌≡◌, ◌⊎◌, inl, inr, ◌==◌, if◌then◌else◌, arith, refl, ◌∙◌,
  ap, if_both,
}
use jaclibc.Sort.{Array, is_gt, swap, exchange, median, bubble_pass, bubble}

abbrev transpose : ℕ → ℕ → ℕ → ℕ
transpose a b q = if q == a then b else if q == b then a else q

module _ {ℓ} {A : Type ℓ} where
  -- arr' holds the elements of arr in another order, the n from base on among themselves: `to` is
  -- a permutation of the indices, with its inverse `back`, that moves no index outside these.
  pub record IsRearranged (base n : ℕ) (arr arr' : Array A) : Type ℓ where
    pub to : ℕ → ℕ
    pub back : ℕ → ℕ
    pub to_back : (q : ℕ) → to (back q) ≡ q
    pub back_to : (q : ℕ) → back (to q) ≡ q
    pub moved : (q : ℕ) → arr' q ≡ arr (to q)
    pub fixed : (q : ℕ) → (q < base) ⊎ (base + n ≤ q) → to q ≡ q

  pub IsRearranged-none : (base n : ℕ) (arr : Array A) → IsRearranged base n arr arr
  IsRearranged-none base n arr = record {
    to = λ q. q;
    back = λ q. q;
    to_back = λ q. refl;
    back_to = λ q. refl;
    moved = λ q. refl;
    fixed = λ q out. refl;
  }

  pub IsRearranged-trans :
      {base n : ℕ} {x y z : Array A}
      → IsRearranged base n x y
      → IsRearranged base n y z
      → IsRearranged base n x z
  IsRearranged-trans r s = record {
    to = λ q. r.to (s.to q);
    back = λ q. s.back (r.back q);
    to_back = λ q. ap r.to (s.to_back (r.back q)) ∙ r.to_back q;
    back_to = λ q. ap s.back (r.back_to (s.to q)) ∙ s.back_to q;
    moved = λ q. s.moved q ∙ r.moved (s.to q);
    fixed = λ q out. ap r.to (s.fixed q out) ∙ r.fixed q out;
  }

  pub IsRearranged-wider :
      {base n : ℕ} {x y : Array A} (base' n' : ℕ)
      → IsRearranged base n x y
      → base' ≤ base
      → base + n ≤ base' + n'
      → IsRearranged base' n' x y
  IsRearranged-wider {base = base} {n = n} base' n' r lo hi = record {
    to = r.to;
    back = r.back;
    to_back = r.to_back;
    back_to = r.back_to;
    moved = r.moved;
    fixed = λ q out. r.fixed q (further out);
  }
    where
      further : {q : ℕ} → (q < base') ⊎ (base' + n' ≤ q) → (q < base) ⊎ (base + n ≤ q)
      further (inl p) = inl (omega arith)
      further (inr p) = inr (omega arith)

  pub swap-IsRearranged :
      (base n : ℕ) (arr : Array A) (a b : ℕ)
      → base ≤ a
      → a < base + n
      → base ≤ b
      → b < base + n
      → IsRearranged base n arr (swap arr a b)
  unfolding swap
  swap-IsRearranged base n arr a b la ha lb hb = record {
    to = transpose a b;
    back = transpose a b;
    to_back = λ q. ground arith;
    back_to = λ q. ground arith;
    moved = λ q. ground arith;
    fixed = λ q out. ground arith;
  }

module _ {ℓ} {A : Type ℓ} (compar : A → A → Ordering) where
  pub exchange-IsRearranged :
      (base n : ℕ) (arr : Array A) (a b : ℕ)
      → base ≤ a
      → a < base + n
      → base ≤ b
      → b < base + n
      → IsRearranged base n arr (exchange compar arr a b)
  unfolding exchange
  exchange-IsRearranged base n arr a b la ha lb hb =
      if_both (λ (x : Array A). IsRearranged base n arr x) (is_gt (compar (arr a) (arr b))) _ _
        (swap-IsRearranged base n arr a b la ha lb hb) (IsRearranged-none base n arr)

  pub median-IsRearranged :
      (arr : Array A) (base n : ℕ) → 2 ≤ n → IsRearranged base n arr (median compar arr base n)
  unfolding median
  median-IsRearranged arr base n two =
      let low = base in
      let high = base + (n - 1) in
      let mid = base + (n - 1) / 2 in
      IsRearranged-trans
        (IsRearranged-trans
          (exchange-IsRearranged base n arr low mid (omega arith) (omega arith) (omega arith)
            (omega arith))
          (exchange-IsRearranged base n _ mid high (omega arith) (omega arith) (omega arith)
            (omega arith)))
        (exchange-IsRearranged base n _ low mid (omega arith) (omega arith) (omega arith)
          (omega arith))

  pub bubble_pass-IsRearranged :
      (left j : ℕ) (arr : Array A) (base n : ℕ)
      → j + left < n
      → IsRearranged base n arr (bubble_pass compar left j arr base)
  unfolding bubble_pass
  bubble_pass-IsRearranged zero j arr base n lt = IsRearranged-none base n arr
  bubble_pass-IsRearranged (suc left) j arr base n lt =
      IsRearranged-trans
        (exchange-IsRearranged base n arr (base + j) (base + (j + 1)) (omega arith) (omega arith)
          (omega arith) (omega arith))
        (bubble_pass-IsRearranged left (j + 1) _ base n (omega arith))

  pub bubble-IsRearranged :
      (left : ℕ) (arr : Array A) (base n : ℕ)
      → left < n
      → IsRearranged base n arr (bubble compar left arr base)
  unfolding bubble
  bubble-IsRearranged zero arr base n lt = IsRearranged-none base n arr
  bubble-IsRearranged (suc left) arr base n lt =
      IsRearranged-trans (bubble_pass-IsRearranged (suc left) 0 arr base n (omega arith))
        (bubble-IsRearranged left _ base n (omega arith))
