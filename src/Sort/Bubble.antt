-- ===== src/Sort/Bubble.antt =====
-- The loops that qsort falls back to where malloc gives no room for the pivot.
use Prim.Native.Nat.{Ordering}
use Prim.Native.Nat.Ordering.{gt}
use jaclibc.Base.{
  ℕ, zero, suc, ◌+◌, ◌-◌, ◌≤◌, ◌<◌, ◌≡◌, ◌≢◌, ◌⊎◌, inl, inr, Bool, true, false, ltb, Option, some,
  arith, refl, sym, ap, ◌∙◌, subst, ℕ_discrete, dec_lt, if_cases, not, ◌||◌,
}
use jaclibc.Tree.Order.{IsComparison}
use jaclibc.Sort.{Array, exchange, swap, median, bubble_pass, bubble, sort_again, qsort}
use jaclibc.Sort.Rearranged.{
  IsRearranged, IsRearranged-none, IsRearranged-trans, IsRearranged-wider, exchange-IsRearranged,
  median-IsRearranged, bubble-IsRearranged,
}

module _ {ℓ} {A : Type ℓ} where
  IsRearranged-sym :
      {base n : ℕ} {x y : Array A} → IsRearranged base n x y → IsRearranged base n y x
  IsRearranged-sym {x = x} r = record {
    to = r.back;
    back = r.to;
    to_back = r.back_to;
    back_to = r.to_back;
    moved = λ q. sym (r.moved (r.back q) ∙ ap x (r.to_back q));
    fixed = λ q out. ap r.back (sym (r.fixed q out)) ∙ r.back_to q;
  }

  -- An index of the part stays in the part.
  stays :
      {base n : ℕ} {x y : Array A} (r : IsRearranged base n x y) (p : ℕ)
      → base ≤ p
      → p < base + n
      → (base ≤ r.to p) × (r.to p < base + n)
  stays {base = base} {n = n} r p lo hi = elim (dec_lt (r.to p) base) [
    | yes out ↦ absurd (back_in (inl out))
    | no above ↦ elim (dec_lt (r.to p) (base + n)) [
      | yes below ↦ (omega arith, below)
      | no out ↦ absurd (back_in (inr (omega arith)))
    ]
  ]
    where
      back_in : ¬ ((r.to p < base) ⊎ (base + n ≤ r.to p))
      back_in out =
          let same : r.to p ≡ p =
            sym (r.back_to (r.to p)) ∙ ap r.back (r.fixed (r.to p) out) ∙ r.back_to p in
          elim out [ inl l ↦ omega arith | inr h ↦ omega arith ]

  -- What holds of all elements of a part holds of them in any order.
  all_moved {κ} :
      {base n : ℕ} {x y : Array A} (P : A → Type κ)
      → IsRearranged base n x y
      → ((p : ℕ) → base ≤ p → p < base + n → P (x p))
      → (p : ℕ) → base ≤ p
      → p < base + n
      → P (y p)
  all_moved P r h p lo hi =
      let (lo', hi') = stays r p lo hi in subst P (sym (r.moved p)) (h (r.to p) lo' hi')

module _ {ℓ} {A : Type ℓ} (compar : A → A → Ordering) (laws : IsComparison compar) where
  abbrev AtMost : A → A → Type 0
  AtMost a b = compar a b ≢ gt

  AtMost-trans : (a b c : A) → AtMost a b → AtMost b c → AtMost a c
  AtMost-trans a b c h k = ground (
    arith,
    laws.trans a b c,
    laws.same a b c,
    laws.same b c a,
    laws.flip a b,
    laws.flip b a,
    laws.flip a c,
  )

  exchange-AtMost :
      (arr : Array A) (a b : ℕ)
      → a ≢ b
      → AtMost (exchange compar arr a b a) (exchange compar arr a b b)
  unfolding exchange swap
  exchange-AtMost arr a b ne = ground (arith, laws.flip (arr a) (arr b))

  bubble_pass-tight :
      (left j : ℕ) (arr : Array A) (base : ℕ)
      → IsRearranged (base + j) (left + 1) arr (bubble_pass compar left j arr base)
  unfolding bubble_pass
  bubble_pass-tight zero j arr base = IsRearranged-none (base + j) 1 arr
  bubble_pass-tight (suc left) j arr base =
      IsRearranged-trans
        (exchange-IsRearranged compar (base + j) (suc left + 1) arr (base + j) (base + (j + 1))
          (omega arith) (omega arith) (omega arith) (omega arith))
        (IsRearranged-wider (base + j) (suc left + 1)
          (bubble_pass-tight left (j + 1) (exchange compar arr (base + j) (base + (j + 1))) base)
          (omega arith) (omega arith))

  -- One pass carries a greatest element to the end of the part.
  bubble_pass-AtMost :
      (left j : ℕ) (arr : Array A) (base last p : ℕ)
      → last ≡ base + j + left
      → base + j ≤ p
      → p ≤ last
      → AtMost (bubble_pass compar left j arr base p) (bubble_pass compar left j arr base last)
  unfolding bubble_pass
  bubble_pass-AtMost zero j arr base last p e lo hi =
      let same : p ≡ last = omega arith in
      subst (λ (k : ℕ). AtMost (arr p) (arr k)) same (λ h. ground (arith, laws.self (arr p)))
  bubble_pass-AtMost (suc left) j arr base last p e lo hi =
      let x = exchange compar arr (base + j) (base + (j + 1)) in
      let y = bubble_pass compar left (j + 1) x base in
      let r = bubble_pass-tight left (j + 1) x base in
      let rest : (q : ℕ)
          → base + (j + 1) ≤ q
          → q < base + (j + 1) + (left + 1)
          → AtMost (y q) (y last) =
        λ q lo' hi'.
          bubble_pass-AtMost left (j + 1) x base last q (omega arith) lo' (omega arith) in
      elim (ℕ_discrete (base + j) p) [
        | yes same ↦
            subst (λ (k : ℕ). AtMost (y k) (y last)) same
              (subst (λ (v : A). AtMost v (y last))
                (sym (r.moved (base + j) ∙ ap x (r.fixed (base + j) (inl (omega arith)))))
                (AtMost-trans (x (base + j)) (x (base + (j + 1))) (y last)
                  (exchange-AtMost arr (base + j) (base + (j + 1)) (omega arith))
                  (all_moved (λ (v : A). AtMost v (y last)) (IsRearranged-sym r) rest
                    (base + (j + 1)) (omega arith) (omega arith))))
        | no ne ↦ rest p (omega arith) (omega arith)
      ]

  bubble-AtMost :
      (left : ℕ) (arr : Array A) (base p q : ℕ)
      → base ≤ p
      → p < q
      → q ≤ base + left
      → AtMost (bubble compar left arr base p) (bubble compar left arr base q)
  unfolding bubble
  bubble-AtMost zero arr base p q lo lt' hi = absurd (omega arith)
  bubble-AtMost (suc left) arr base p q lo lt' hi =
      let x = bubble_pass compar (suc left) 0 arr base in
      let r = bubble-IsRearranged compar left x base (left + 1) (omega arith) in
      elim (ℕ_discrete q (base + suc left)) [
        | yes same ↦
            subst (λ (v : A). AtMost (bubble compar left x base p) v)
              (sym (r.moved q ∙ ap x (r.fixed q (inr (omega arith)))))
              (all_moved (λ (v : A). AtMost v (x q)) r
                (λ k lo' hi'.
                  bubble_pass-AtMost (suc left) 0 arr base q k (omega arith) (omega arith)
                    (omega arith))
                p lo (omega arith))
        | no ne ↦ bubble-AtMost left x base p q lo lt' (omega arith)
      ]

  -- Where malloc gives no room for the pivot of the whole array qsort still ends, with the elements
  -- of the array in order. The comparison is a total preorder.
  pub qsort_no_memory :
      (allocated : ℕ → ℕ → Bool) (arr : Array A) (n : ℕ)
      → allocated 0 n ≡ false
      → (arr' : Array A) × (qsort compar true allocated arr n ≡ some arr')
        × IsRearranged 0 n arr arr'
        × ((i j : ℕ) → i < j → j < n → compar (arr' i) (arr' j) ≢ gt)
  unfolding qsort sort_again
  qsort_no_memory allocated arr zero full =
      (arr, refl, IsRearranged-none 0 0 arr, λ i j lt' hi. absurd (omega arith))
  qsort_no_memory allocated arr (suc n) full =
      if_cases Answer (not true || ltb (suc n) 2) _ _
        (λ few. (arr, refl, IsRearranged-none 0 (suc n) arr, λ i j lt' hi. absurd (ground arith)))
        (λ many.
          let few : ltb (suc n) 2 ≡ false = ground arith in
          let two : 2 ≤ suc n = ground arith in
          let x = median compar arr 0 (suc n) in
          rw (few, full)
            (
              bubble compar (suc n - 1) x 0,
              refl,
              IsRearranged-trans (median-IsRearranged compar arr 0 (suc n) two)
                  (bubble-IsRearranged compar (suc n - 1) x 0 (suc n) (omega arith)),
              λ i j lt' hi. bubble-AtMost (suc n - 1) x 0 i j (omega arith) lt' (omega arith),
            ))
    where
      Answer : Option (Array A) → Type ℓ
      Answer o =
          (arr' : Array A) × (o ≡ some arr')
          × IsRearranged 0 (suc n) arr arr'
          × ((i j : ℕ) → i < j → j < suc n → compar (arr' i) (arr' j) ≢ gt)
