-- ===== src/Sort/Search.antt =====
-- bsearch finds an element equal to the key exactly where there is one.
use Prim.Native.Nat.{Ordering}
use Prim.Native.Nat.Ordering.{lt, eq, gt}
use jaclibc.Base.{
  ℕ, zero, suc, ◌+◌, ◌-◌, ◌/◌, ◌≤◌, ◌<◌, ◌≡◌, ◌≢◌, ◌⊎◌, inl, inr, true, ◌==◌, ltb, Option, some,
  none, arith, refl, sym, ap, ◌∙◌, if_cases, ℕ_discrete, dec_lt,
}
use jaclibc.Sort.{Array, bsearch_loop, bsearch}

Ordering-cases : (o : Ordering) → (o ≡ lt) ⊎ ((o ≡ eq) ⊎ (o ≡ gt))
Ordering-cases lt = inl refl
Ordering-cases eq = inr (inl refl)
Ordering-cases gt = inr (inr refl)

module _ {ℓ κ} {A : Type ℓ} {K : Type κ} (compar : K → A → Ordering) where
  -- The first n elements are in order for the key: first those below it, then those equal to it, then
  -- those above it.
  abbrev pub IsSplit : K → Array A → ℕ → Type 0
  IsSplit key arr n =
      (i j : ℕ)
      → i < j
      → j < n
      → (compar key (arr j) ≡ gt → compar key (arr i) ≡ gt)
        × (compar key (arr i) ≡ lt → compar key (arr j) ≡ lt)

  -- What a search among the first n elements returns.
  abbrev pub Finds : K → Array A → ℕ → Option (Option ℕ) → Type 0
  Finds key arr n o =
      ((o ≡ some none) × ((i : ℕ) → i < n → compar key (arr i) ≢ eq))
      ⊎ ((i : ℕ) × (i < n) × (o ≡ some (some i)) × (compar key (arr i) ≡ eq))

  module _ (key : K) (arr : Array A) (n : ℕ) (split : IsSplit key arr n) where
    differs_lt : {o : Ordering} → o ≡ lt → o ≢ eq
    differs_lt e e' = ground arith

    differs_gt : {o : Ordering} → o ≡ gt → o ≢ eq
    differs_gt e e' = ground arith

    bsearch_loop_lem :
        (f low high : ℕ)
        → high < low + f
        → low ≤ high
        → high ≤ n
        → ((i : ℕ) → i < low → compar key (arr i) ≢ eq)
        → ((i : ℕ) → high ≤ i → i < n → compar key (arr i) ≢ eq)
        → Finds key arr n (bsearch_loop compar f arr key low high)
    unfolding bsearch_loop
    bsearch_loop_lem zero low high fuel le top before behind = absurd (omega arith)
    bsearch_loop_lem (suc f) low high fuel le top before behind =
        if_cases (Finds key arr n) (ltb low high) _ _
          (λ e'.
            let apart : low < high = ground arith in
            let mid = low + (high - low) / 2 in
            let inside : (low ≤ mid) × (mid < high) = omega arith in
            elim (Ordering-cases (compar key (arr mid))) [
              | inl e ↦ rw e (
                  bsearch_loop_lem f low mid (omega arith) inside.0 (omega arith) before (λ i lo hi.
                    elim (ℕ_discrete mid i) [
                      | yes same ↦ differs_lt (ap (λ k. compar key (arr k)) (sym same) ∙ e)
                      | no ne ↦ differs_lt ((split mid i (omega arith) hi).1 e)
                    ]))
              | inr (inl e) ↦ rw e (inr (mid, omega arith, refl, e))
              | inr (inr e) ↦ rw e (
                  bsearch_loop_lem f (mid + 1) high (omega arith) (omega arith) top
                    (λ i hi. elim (ℕ_discrete mid i) [
                      | yes same ↦ differs_gt (ap (λ k. compar key (arr k)) (sym same) ∙ e)
                      | no ne ↦ differs_gt ((split i mid (omega arith) (omega arith)).0 e)
                    ])
                    behind)
            ])
          (λ closed. inl (refl, λ i lt' e. outside (ground arith) i lt' e))
      where
        outside : high ≤ low → (i : ℕ) → i < n → compar key (arr i) ≢ eq
        outside met i lt' = elim (dec_lt i low) [
          | yes l ↦ before i l
          | no r ↦ behind i (omega arith) lt'
        ]

    -- bsearch returns the index of an element that compares equal to the key, and NULL exactly where
    -- there is none. The elements are in order for the key, no pointer is NULL, and the size is not 0.
    pub bsearch_lem : Finds key arr n (bsearch compar true arr key n)
    unfolding bsearch
    bsearch_lem =
        if_cases (Finds key arr n) (n == 0) _ _
          (λ empty. inl (refl, λ i lt' e. absurd (ground arith)))
          (λ e.
            bsearch_loop_lem (suc n) 0 n (omega arith) (omega arith) (omega arith)
              (λ i lt'. absurd (omega arith)) (λ i lo hi. absurd (omega arith)))
