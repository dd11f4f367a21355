-- ===== src/Route/Decide.antt =====
-- route_match decides what a pattern is meant for.
use jaclibc.Base.{
  ℕ, zero, suc, ◌+◌, ◌<◌, ◌≡◌, ◌≢◌, ◌⊎◌, inl, inr, true, ltb, if◌then◌else◌, Option, some, none,
  ◌==◌, if_cases, List, [], ◌∷◌, ◌++◌, length, arith, refl, sym, subst, ◌∙◌, ℕ_discrete,
}
use jaclibc.Route.{Signs, Text, skip_name, match_loop, route_match, wildcard}
use jaclibc.Route.Spec.{
  Fits, ends, plain, escaped, one_name, all_names, has_no_sets, skip_name-IsName, Fits-plain,
  Fits-escaped, Fits-name,
}

-- The pointers are stored as long as there is room.
abbrev pub store : ℕ → List Text → List Text → List Text
store msize found [] = found
store msize found (h ∷ cs) =
    store msize (if ltb (length found) msize then found ++ h ∷ [] else found) cs

-- The answer says whether the path fits.
Decides : Signs → ℕ → Text → Text → List Text → Option (Option (List Text)) → Type 0
Decides s msize p h found o =
    ((cs : List Text) × Fits s p h cs × (o ≡ some (some (store msize found cs))))
    ⊎ ((o ≡ some none) × ((cs : List Text) → ¬ Fits s p h cs))

head_eq : (x c : ℕ) (t u : Text) → x ∷ t ≡ c ∷ u → x ≡ c
head_eq x c t u e = ground (arith, e)

tail_eq : (x c : ℕ) (t u : Text) → x ∷ t ≡ c ∷ u → t ≡ u
tail_eq x c t u e = ground (arith, e)

module _ (s : Signs) (msize : ℕ) where
  Decides-end :
      (h : Text) (found : List Text) (f : ℕ)
      → Decides s msize [] h found (match_loop s (suc f) msize [] h found)
  unfolding match_loop Decides
  Decides-end [] found f = inl ([], ends, refl)
  Decides-end (x ∷ h) found f = inr (ground arith, λ cs w. no_rest w)
    where
      no_rest : {cs : List Text} → ¬ Fits s [] (x ∷ h) cs
      no_rest w = elim w [ ]

  -- A byte of its own.
  Decides-plain :
      (c : ℕ) (p h : Text) (found : List Text) (f : ℕ)
      → c ≢ s.any
      → c ≢ s.esc
      → ((t : Text) → Decides s msize p t found (match_loop s f msize p t found))
      → Decides s msize (c ∷ p) h found (match_loop s (suc f) msize (c ∷ p) h found)
  unfolding match_loop Decides
  Decides-plain c p [] found f na ne rest = inr (
    ground (arith, na, ne),
    λ cs w. let (t, e, _) = Fits-plain s c p [] cs na ne w in ground (arith, e),
  )
  Decides-plain c p (x ∷ t) found f na ne rest = elim (ℕ_discrete c x) [
    | yes e ↦ elim (rest t) [
      | inl (cs, w, o) ↦ inl (cs, plain c x na ne e w, ground (arith, na, ne, e, o))
      | inr (o, not_fits) ↦ inr (
        ground (arith, na, ne, e, o),
        λ cs w.
            let (t', e', w') = Fits-plain s c p (x ∷ t) cs na ne w in
            not_fits cs (subst (λ (u : Text). Fits s p u cs) (sym (tail_eq x c t t' e')) w'),
      )
    ]
    | no ne' ↦ inr (
      ground (arith, na, ne, ne'),
      λ cs w.
          let (t', e', w') = Fits-plain s c p (x ∷ t) cs na ne w in ne' (sym (head_eq x c t t' e')),
    )
  ]

  -- A byte behind an escape.
  Decides-escaped :
      (c d : ℕ) (p h : Text) (found : List Text) (f : ℕ)
      → c ≢ s.any
      → c ≡ s.esc
      → ((t : Text) → Decides s msize p t found (match_loop s f msize p t found))
      → Decides s msize (c ∷ d ∷ p) h found (match_loop s (suc f) msize (c ∷ d ∷ p) h found)
  unfolding match_loop Decides
  Decides-escaped c d p [] found f na e rest = inr (
    ground (arith, na, e),
    λ cs w. let (t, e', _) = Fits-escaped s c d p [] cs na e w in ground (arith, e'),
  )
  Decides-escaped c d p (x ∷ t) found f na e rest = elim (ℕ_discrete d x) [
    | yes same ↦ elim (rest t) [
      | inl (cs, w, o) ↦ inl (cs, escaped c d x na e same w, ground (arith, na, e, same, o))
      | inr (o, not_fits) ↦ inr (
        ground (arith, na, e, same, o),
        λ cs w.
            let (t', e', w') = Fits-escaped s c d p (x ∷ t) cs na e w in
            not_fits cs (subst (λ (u : Text). Fits s p u cs) (sym (tail_eq x d t t' e')) w'),
      )
    ]
    | no other ↦ inr (
      ground (arith, na, e, other),
      λ cs w.
          let (t', e', w') = Fits-escaped s c d p (x ∷ t) cs na e w in
          other (sym (head_eq x d t t' e')),
    )
  ]

  -- A wildcard for one name.
  Decides-name :
      (c : ℕ) (p h : Text) (found : List Text) (f : ℕ)
      → c ≡ s.any
      → p ≢ s.any ∷ []
      → wildcard s p h ≡ some (some (p, skip_name s.div h))
      → ((t : Text) (found' : List Text)
          → Decides s msize p t found' (match_loop s f msize p t found'))
      → Decides s msize (c ∷ p) h found (match_loop s (suc f) msize (c ∷ p) h found)
  unfolding match_loop Decides
  Decides-name c p h found f a ne step rest =
      let found' = if ltb (length found) msize then found ++ h ∷ [] else found in
      let t = skip_name s.div h in
      let (name, n) = skip_name-IsName s.div h in
      let stepped : match_loop s (suc f) msize (c ∷ p) h found ≡ match_loop s f msize p t found' =
        ground (arith, a, step) in
      elim (rest t found') [
        | inl (cs, w, o) ↦ inl (h ∷ cs, one_name c a ne name t n w, stepped ∙ o)
        | inr (o, not_fits) ↦
            inr (
              stepped ∙ o,
              λ cs w. let (cs', e, w') = Fits-name s c p h cs a ne w in not_fits cs' w',
            )
      ]

  -- Two wildcards at the end of the pattern.
  Decides-all :
      (c d : ℕ) (h : Text) (found : List Text) (f : ℕ)
      → c ≡ s.any
      → d ≡ s.any
      → d ≢ b'['
      → Decides s msize (c ∷ d ∷ []) h found (match_loop s (suc (suc f)) msize (c ∷ d ∷ []) h found)
  unfolding match_loop wildcard Decides
  Decides-all c d h found f a b not_set =
      inl (h ∷ [], all_names c d a b, ground (arith, a, b, not_set))

  wildcard_end : (h : Text) → wildcard s [] h ≡ some (some ([], skip_name s.div h))
  unfolding wildcard
  wildcard_end h = refl

  wildcard_name :
      (d : ℕ) (q h : Text)
      → d ≢ b'['
      → (d ≢ s.any) ⊎ (length q ≢ 0)
      → wildcard s (d ∷ q) h ≡ some (some (d ∷ q, skip_name s.div h))
  unfolding wildcard
  wildcard_name d q h not_set not_deep = ground (arith, not_set, not_deep)

  Decides-wild :
      (c d : ℕ) (p h : Text) (found : List Text) (f : ℕ)
      → 0 < f
      → c ≡ s.any
      → d ≢ b'['
      → ((t : Text) (found' : List Text)
          → Decides s msize (d ∷ p) t found' (match_loop s f msize (d ∷ p) t found'))
      → Decides s msize (c ∷ d ∷ p) h found (match_loop s (suc f) msize (c ∷ d ∷ p) h found)
  Decides-wild c d p h found zero lt a not_set rest = absurd (omega arith)
  Decides-wild c d [] h found (suc f) lt a not_set rest = elim (ℕ_discrete d s.any) [
    | yes b ↦ Decides-all c d h found f a b not_set
    | no nb ↦
        Decides-name c (d ∷ []) h found (suc f) a (λ e. nb (head_eq d s.any [] [] e))
          (wildcard_name d [] h not_set (inl nb)) rest
  ]
  Decides-wild c d (x ∷ p) h found (suc f) lt a not_set rest =
      Decides-name c (d ∷ x ∷ p) h found (suc f) a
        (λ e. ground (arith, tail_eq d s.any (x ∷ p) [] e))
        (wildcard_name d (x ∷ p) h not_set (inr (λ e. omega arith))) rest

  match_loop_lem :
      (f : ℕ) (p h : Text) (found : List Text)
      → length p < f
      → has_no_sets s p ≡ true
      → Decides s msize p h found (match_loop s f msize p h found)
  match_loop_lem zero p h found lt ok = absurd (omega arith)
  match_loop_lem (suc f) [] h found lt ok = Decides-end h found f
  match_loop_lem (suc f) (c ∷ []) h found lt ok = elim (ℕ_discrete c s.any) [
    | yes a ↦
        Decides-name c [] h found f a (λ e. ground (arith, e)) (wildcard_end h)
          (λ t found'. match_loop_lem f [] t found' (omega arith) refl)
    | no na ↦
        Decides-plain c [] h found f na (λ e. ground (arith, ok, na, e))
          (λ t. match_loop_lem f [] t found (omega arith) refl)
  ]
  match_loop_lem (suc f) (c ∷ d ∷ p) h found lt ok = elim (ℕ_discrete c s.any) [
    | yes a ↦
        let not_set : d ≢ b'[' = ground (arith, ok, a) in
        let ok' : has_no_sets s (d ∷ p) ≡ true = ground (arith, ok, a) in
        Decides-wild c d p h found f (omega arith) a not_set
          (λ t found'. match_loop_lem f (d ∷ p) t found' (omega arith) ok')
    | no na ↦ elim (ℕ_discrete c s.esc) [
      | yes e ↦
          Decides-escaped c d p h found f na e
            (λ t. match_loop_lem f p t found (omega arith) (ground (arith, ok, na, e)))
      | no ne ↦
          Decides-plain c (d ∷ p) h found f na ne
            (λ t. match_loop_lem f (d ∷ p) t found (omega arith) (ground (arith, ok, na, ne)))
    ]
  ]

-- For a pattern in which no wildcard has a set and a byte follows each escape, route_match decides
-- whether the path fits, by the rules of Fits: it answers with the path and with what each wildcard
-- takes, up to msize of them, if it fits, and with 0 if it does not. With msize 0 it answers with 0.
pub route_match_lem :
    (s : Signs) (path pattern : Text) (msize : ℕ)
    → has_no_sets s pattern ≡ true
    → ((0 < msize)
        × ((cs : List Text) × Fits s pattern path cs
            × (route_match s path pattern msize ≡ some (some (store msize (path ∷ []) cs)))))
      ⊎ ((0 < msize)
          × (route_match s path pattern msize ≡ some none)
          × ((cs : List Text) → ¬ Fits s pattern path cs))
      ⊎ ((msize ≡ 0) × (route_match s path pattern msize ≡ some none))
unfolding route_match Decides
route_match_lem s path pattern zero ok = inr (inr (refl, refl))
route_match_lem s path pattern (suc n) ok =
    elim (if_cases (Decides s (suc n) pattern path (path ∷ [])) (suc n == 0) (some none)
      (match_loop s (length pattern + 1) (suc n) pattern path (path ∷ []))
      (λ e. absurd (ground (arith, e)))
      (λ _.
        match_loop_lem s (suc n) (length pattern + 1) pattern path (path ∷ []) (omega arith) ok)) [
          | inl fits ↦ inl (omega arith, fits)
          | inr fails ↦ inr (inl (omega arith, fails.0, fails.1))
        ]
