-- ===== src/Linear/Search.antt =====
-- What lfind and lsearch find.
use jaclibc.Base.{
  ℕ, zero, suc, ◌+◌, ◌≤◌, ◌<◌, ◌≡◌, ◌⊎◌, inl, inr, Bool, true, false, Option, none, some, arith,
  refl, sym, ap, subst, ◌∙◌, ℕ_discrete, Bool-cases,
}
use jaclibc.Alloc.{put}
use jaclibc.Alloc.Split.{put_at, put_off}
use jaclibc.Linear.{lfind_loop, lfind, lsearch}

module _ {ℓ} {A : Type ℓ} (same : A → A → Bool) (key : A) (base : ℕ → A) where
  -- No element from i on is the key, or the first one that is stands at k.
  abbrev IsFirst : ℕ → ℕ → Option ℕ → Type 0
  IsFirst i stop none = (j : ℕ) → i ≤ j → j < stop → same key (base j) ≡ false
  IsFirst i stop (some k) =
      (i ≤ k)
      × (k < stop)
      × (same key (base k) ≡ true)
      × ((j : ℕ) → i ≤ j → j < k → same key (base j) ≡ false)

  lfind_loop-IsFirst : (left i : ℕ) → IsFirst i (i + left) (lfind_loop same left i key base)
  unfolding lfind_loop
  lfind_loop-IsFirst zero i = λ j lo hi. absurd (omega arith)
  lfind_loop-IsFirst (suc left) i = elim (Bool-cases (same key (base i))) [
    | inl yes_here ↦
        rw yes_here (omega arith, omega arith, yes_here, λ j lo hi. absurd (omega arith))
    | inr not_here ↦
        rw not_here
          (go (lfind_loop same left (i + 1) key base) not_here (lfind_loop-IsFirst left (i + 1)))
  ]
    where
      here_or_later :
          (stop : ℕ)
          → same key (base i) ≡ false
          → ((j : ℕ) → i + 1 ≤ j → j < stop → same key (base j) ≡ false)
          → (j : ℕ) → i ≤ j
          → j < stop
          → same key (base j) ≡ false
      here_or_later stop e all j lo hi = elim (ℕ_discrete j i) [
        | yes at ↦ ap (λ (k : ℕ). same key (base k)) at ∙ e
        | no ne ↦ all j (omega arith) hi
      ]

      go :
          (o : Option ℕ)
          → same key (base i) ≡ false
          → IsFirst (i + 1) (i + 1 + left) o
          → IsFirst i (i + suc left) o
      go none e all = λ j lo hi. here_or_later (i + 1 + left) e all j lo (omega arith)
      go (some k) e h = (omega (arith, h.0), omega (arith, h.1), h.2, here_or_later k e h.3)

  lfind-loop : (n : ℕ) → lfind same true key base n ≡ lfind_loop same n 0 key base
  unfolding lfind
  lfind-loop zero = refl
  lfind-loop (suc n) = ground arith

  lfind-IsFirst : (n : ℕ) → IsFirst 0 n (lfind same true key base n)
  lfind-IsFirst n =
      let whole : 0 + n ≡ n = omega arith in
      subst (λ (o : Option ℕ). IsFirst 0 n o) (sym (lfind-loop n))
        (subst (λ (k : ℕ). IsFirst 0 k (lfind_loop same n 0 key base)) whole
          (lfind_loop-IsFirst n 0))

  -- lsearch returns the index of the first element that the comparison takes for the key and changes
  -- nothing, or, if there is none, puts the key behind the elements, counts it and returns its index; the
  -- elements that were there stay.
  pub lsearch_lem :
      (n : ℕ)
      → (i n' : ℕ) × (base' : ℕ → A) × (lsearch same true key base n ≡ (some i, n', base'))
        × ((j : ℕ) → j < n → base' j ≡ base j)
        × ((j : ℕ) → j < i → same key (base j) ≡ false)
        × (((i < n) × (same key (base i) ≡ true) × (n' ≡ n))
            ⊎ ((i ≡ n) × (n' ≡ n + 1) × (base' n ≡ key)))
  unfolding lsearch
  lsearch_lem n = go (lfind same true key base n) (lfind-IsFirst n)
    where
      outcome : Option ℕ → Option ℕ × ℕ × (ℕ → A)
      outcome none = (some n, n + 1, put base n key)
      outcome (some i) = (some i, n, base)

      go :
          (o : Option ℕ)
          → IsFirst 0 n o
          → (i n' : ℕ) × (base' : ℕ → A) × (outcome o ≡ (some i, n', base'))
            × ((j : ℕ) → j < n → base' j ≡ base j)
            × ((j : ℕ) → j < i → same key (base j) ≡ false)
            × (((i < n) × (same key (base i) ≡ true) × (n' ≡ n))
                ⊎ ((i ≡ n) × (n' ≡ n + 1) × (base' n ≡ key)))
      go none all = (
        n,
        n + 1,
        put base n key,
        refl,
        λ j lt. put_off base n key j (omega arith),
        λ j lt. all j (omega arith) lt,
        inr (refl, refl, put_at base n key),
      )
      go (some k) h =
          (k, n, base, refl, λ j lt. refl, λ j lt. h.3 j (omega arith) lt, inl (h.1, h.2, refl))
