-- ===== src/Glob/Items.antt =====
-- With no flags one_item reads the items of the specification.
use jaclibc.Base.{
  ℕ, ◌≡◌, ◌≢◌, ◌⊎◌, inl, inr, Bool, true, false, not, ◌==◌, if_cases, arith, refl, sym, subst, ap,
  ◌∙◌, if◌then◌else◌, ◌>>=◌, Option, some, none, List, [], ◌∷◌, Bool-cases,
}
use jaclibc.Glob.{Text, backslash, has, qmark, bracket, same_char, literal, one_item}
use jaclibc.Glob.Spec.{Entry, IsIn, Item, any, itself, escaped, among, outside}
use jaclibc.Glob.Brackets.{
  has_some, has_some-IsIn, bracket_reads, bracket_reads_not, bracket_entries,
}

module _ (signed : Bool) (c : ℕ) where
  item_any : (x : ℕ) (p : Text) → x ≡ b'?' → one_item signed 0 none x p c ≡ some p
  unfolding one_item qmark has
  item_any x p e = ground (arith, e)

  item_itself :
      (x : ℕ) (p : Text)
      → x ≢ b'?'
      → x ≢ b'['
      → (x ≢ backslash) ⊎ (p ≡ [])
      → x ≡ c
      → one_item signed 0 none x p c ≡ some p
  unfolding one_item literal same_char has
  item_itself x [] q b l e = ground (arith, q, b, l, e)
  item_itself x (y ∷ p) q b l e = ground (arith, q, b, l, e)

  item_escaped :
      (x y : ℕ) (p : Text) → x ≡ backslash → y ≡ c → one_item signed 0 none x (y ∷ p) c ≡ some p
  unfolding one_item literal same_char has
  item_escaped x y p b e = ground (arith, b, e)

  item_bracket :
      (x : ℕ) (p p' : Text)
      → x ≡ b'['
      → bracket signed 0 c p ≡ some (true, p')
      → one_item signed 0 none x p c ≡ some p'
  unfolding one_item has
  item_bracket x p p' e h = ground (arith, e, h)

  -- An item of the specification is one that the code takes.
  pub Item-one_item :
      {x : ℕ} {p p' : Text} → Item signed x p c p' → one_item signed 0 none x p c ≡ some p'
  Item-one_item (any e) = item_any _ _ e
  Item-one_item (itself star q b l e) = item_itself _ _ q b l e
  Item-one_item (escaped b e) = item_escaped _ _ _ b e
  Item-one_item (among {p' = p'} {es = es} e no_bang no_hat d here) = item_bracket _ _ _ e (
      bracket_reads signed c _ _ _ es no_bang no_hat d
      ∙ ap (λ (b : Bool). some (b, p')) ((has_some-IsIn signed c es).1 here))
  Item-one_item (outside {p' = p'} {es = es} e negated d away) = item_bracket _ _ _ e (
      bracket_reads_not signed c _ _ _ es negated d
      ∙ ap (λ (b : Bool). some (b, p')) (missing es away))
    where
      missing : (es : List Entry) → ¬ IsIn signed c es → not (has_some signed c es) ≡ true
      missing es away = elim (Bool-cases (has_some signed c es)) [
        | inl found ↦ absurd (away ((has_some-IsIn signed c es).0 found))
        | inr gone ↦ ground (arith, gone)
      ]

  -- The result of a bracket that matched.
  bracket_true :
      (o : Option (Bool × Text)) (p' : Text)
      → (o >>= λ r. if r.0 then some r.1 else none) ≡ some p'
      → o ≡ some (true, p')
  bracket_true none p' h = absurd (ground (arith, h))
  bracket_true (some (true, q)) p' h = ground (arith, h)
  bracket_true (some (false, q)) p' h = absurd (ground (arith, h))

  abbrev Literals : ℕ → Text → Text → Type 0
  Literals x p p' =
      ((x ≢ b'?') × (x ≢ b'[') × ((x ≢ backslash) ⊎ (p ≡ [])) × (x ≡ c) × (p' ≡ p))
      ⊎ ((x ≡ backslash) × (y : ℕ) × (q : Text) × (p ≡ y ∷ q) × (y ≡ c) × (p' ≡ q))

  literal_cases :
      (x : ℕ) (p p' : Text)
      → x ≢ b'?'
      → x ≢ b'['
      → (if (literal 0 c x p).0 then some (literal 0 c x p).1 else none) ≡ some p'
      → Literals x p p'
  unfolding literal same_char has
  literal_cases x [] p' q b h = inl (q, b, inr refl, ground (arith, h), ground (arith, h))
  literal_cases x (y ∷ p) p' q b h = elim (Bool-cases (x == backslash)) [
    | inl e ↦ inr (ground (arith, e), y, p, refl, ground (arith, h, e), ground (arith, h, e))
    | inr e ↦ inl (q, b, inl (ground (arith, e)), ground (arith, h, e), ground (arith, h, e))
  ]

  abbrev Items : ℕ → Text → Text → Type 0
  Items x p p' =
      ((x ≡ b'?') × (p' ≡ p))
      ⊎ ((x ≡ b'[') × (bracket signed 0 c p ≡ some (true, p')))
      ⊎ Literals x p p'

  one_item_cases : (x : ℕ) (p p' : Text) → one_item signed 0 none x p c ≡ some p' → Items x p p'
  unfolding one_item literal same_char has qmark
  one_item_cases x p p' h =
      if_cases (λ o. o ≡ some p' → Items x p p') (x == b'?') _ _
        (λ e k. inl (ground (arith, e), ground (arith, k)))
        (λ e.
          if_cases (λ o. o ≡ some p' → Items x p p') (x == b'[') _ _
            (λ b k.
              inr (
                inl
                  (ground (arith, b), bracket_true (bracket signed 0 c p) p' (ground (arith, k)))))
            (λ b k. inr (inr (literal_cases x p p' (ground (arith, e)) (ground (arith, b)) k))))
        h

  bracket-Item :
      (x : ℕ) (p p' : Text)
      → x ≡ b'['
      → bracket signed 0 c p ≡ some (true, p')
      → Item signed x p c p'
  bracket-Item x p p' e b = elim (bracket_entries signed c p true p' b) [
    | inl (y, q, split, no_bang, no_hat, es, d) ↦
        let found : has_some signed c es ≡ true = ground (
          arith,
          b,
          ap (bracket signed 0 c) split,
          bracket_reads signed c y q p' es no_bang no_hat d,
        ) in
        subst (λ (t : Text). Item signed x t c p') (sym split)
          (among e no_bang no_hat d ((has_some-IsIn signed c es).0 found))
    | inr (y, q, split, negated, es, d) ↦
        let gone : has_some signed c es ≡ false = ground (
          arith,
          b,
          ap (bracket signed 0 c) split,
          bracket_reads_not signed c y q p' es negated d,
        ) in
        subst (λ (t : Text). Item signed x t c p') (sym split)
          (outside e negated d
            (λ m. absurd (ground (arith, gone, (has_some-IsIn signed c es).1 m))))
  ]

  -- What the code takes is an item of the specification.
  pub one_item-Item :
      (x : ℕ) (p p' : Text)
      → x ≢ b'*'
      → one_item signed 0 none x p c ≡ some p'
      → Item signed x p c p'
  one_item-Item x p p' star h = elim (one_item_cases x p p' h) [
    | inl (e, same) ↦ subst (λ (t : Text). Item signed x p c t) (sym same) (any e)
    | inr (inl (e, b)) ↦ bracket-Item x p p' e b
    | inr (inr (inl (q, b, l, e, same))) ↦
        subst (λ (t : Text). Item signed x p c t) (sym same) (itself star q b l e)
    | inr (inr (inr (b, y, q, split, e, same))) ↦
        subst (λ (t : Text). Item signed x t c p') (sym split)
          (subst (λ (t : Text). Item signed x (y ∷ q) c t) (sym same) (escaped b e))
  ]
