-- ===== src/Glob/Brackets.antt =====
-- With no flags `bracket` reads the entries of the specification.
use jaclibc.Base.{
  ℕ, ◌≡◌, ◌≢◌, ◌⊎◌, ◌↔◌, inl, inr, Bool, true, false, not, ◌&&◌, ◌||◌, ◌==◌, if_cases, arith, refl,
  sym, subst, Option, some, List, [], ◌∷◌, Bool-cases, Option-cases,
}
use jaclibc.Str.{char_lt}
use jaclibc.Glob.{Text, has, fold, bracket_loop, bracket}
use jaclibc.Glob.Spec.{Entry, one, span, Has, IsIn, Entries, close, to, byte}

module _ (signed : Bool) (c : ℕ) where
  has_entry : Entry → Bool
  has_entry (one x) = c == x
  has_entry (span lo hi) = not (char_lt signed c lo) && not (char_lt signed hi c)

  pub has_some : List Entry → Bool
  has_some [] = false
  has_some (e ∷ es) = has_entry e || has_some es

  has_entry-Has : (e : Entry) → (has_entry e ≡ true) ↔ Has signed c e
  unfolding has_entry char_lt
  has_entry-Has (one x) = (λ h. ground (arith, h), λ h. ground (arith, h))
  has_entry-Has (span lo hi) = elim (Bool-cases signed) [
    | inl e ↦ rw e (λ h. (ground (arith, h), ground (arith, h)), λ h. ground (arith, h.0, h.1))
    | inr e ↦ rw e (λ h. (ground (arith, h), ground (arith, h)), λ h. ground (arith, h.0, h.1))
  ]

  pub has_some-IsIn : (es : List Entry) → (has_some es ≡ true) ↔ IsIn signed c es
  unfolding has_some
  has_some-IsIn [] = (λ h. absurd (ground (arith, h)), λ h. absurd h)
  has_some-IsIn (e ∷ es) = (
    λ h. elim (Bool-cases (has_entry e)) [
      | inl here ↦ inl ((has_entry-Has e).0 here)
      | inr not_here ↦ inr ((has_some-IsIn es).0 (ground (arith, h, not_here)))
    ],
    λ h. elim h [
      | inl here ↦ ground (arith, (has_entry-Has e).1 here)
      | inr later ↦ ground (arith, (has_some-IsIn es).1 later)
    ],
  )

  loop_close :
      (m : Bool) (prev x : ℕ) (p : Text)
      → x ≡ b']'
      → bracket_loop signed 0 c (x ∷ p) m prev false ≡ some (m || has_some [], p)
  unfolding bracket_loop has_some
  loop_close m prev x [] e = ground (arith, e)
  loop_close m prev x (y ∷ p) e = ground (arith, e)

  loop_to :
      (m first : Bool) (prev x y : ℕ) (p p' : Text) (es : List Entry)
      → x ≡ b'-'
      → y ≢ b']'
      → ((n : Bool) → bracket_loop signed 0 c p n 0 false ≡ some (n || has_some es, p'))
      → bracket_loop signed 0 c (x ∷ y ∷ p) m prev first
        ≡ some (m || has_some (span prev y ∷ es), p')
  unfolding bracket_loop has_some has_entry fold has
  loop_to m first prev x y p p' es e ne more =
      let in_range = not (char_lt signed c prev) && not (char_lt signed y c) in
      ground (arith, more (m || in_range))

  loop_byte :
      (m first : Bool) (prev x y : ℕ) (p p' : Text) (es : List Entry)
      → (x ≢ b']') ⊎ (first ≡ true)
      → (x ≢ b'-') ⊎ (y ≡ b']')
      → ((n : Bool) → bracket_loop signed 0 c (y ∷ p) n x false ≡ some (n || has_some es, p'))
      → bracket_loop signed 0 c (x ∷ y ∷ p) m prev first ≡ some (m || has_some (one x ∷ es), p')
  unfolding bracket_loop has_some has_entry fold has
  loop_byte m first prev x y p p' es not_close not_dash more = ground (arith, more (m || c == x))

  -- The loop of a bracket with those entries.
  loop_reads :
      {first : Bool} {prev : ℕ} {p p' : Text} {es : List Entry}
      → Entries first prev p es p'
      → (m : Bool) → bracket_loop signed 0 c p m prev first ≡ some (m || has_some es, p')
  loop_reads (close e) m = loop_close m _ _ _ e
  loop_reads (to e ne more) m = loop_to m _ _ _ _ _ _ _ e ne (loop_reads more)
  loop_reads (byte not_close not_dash more) m =
      loop_byte m _ _ _ _ _ _ _ not_close not_dash (loop_reads more)

  last_closes :
      (x : ℕ) (m : Bool) (prev : ℕ) (first r : Bool) (p' : Text)
      → bracket_loop signed 0 c (x ∷ []) m prev first ≡ some (r, p')
      → (x ≡ b']') × (first ≡ false) × (p' ≡ [])
  unfolding bracket_loop
  last_closes x m prev first r p' h =
      if_cases (λ o. o ≡ some (r, p') → (x ≡ b']') × (first ≡ false) × (p' ≡ []))
        (x == b']' && not first) _ _
        (λ e k. (ground (arith, e), ground (arith, e), ground (arith, k)))
        (λ e k. absurd (ground (arith, k))) h

  no_loop :
      (m : Bool) (prev : ℕ) (first r : Bool) (p' : Text)
      → bracket_loop signed 0 c [] m prev first ≢ some (r, p')
  unfolding bracket_loop
  no_loop m prev first r p' h = ground (arith, h)

  closes :
      (x prev : ℕ) (first : Bool) (p p' : Text)
      → x ≡ b']'
      → first ≡ false
      → p' ≡ p
      → Entries first prev (x ∷ p) [] p'
  closes x prev first p p' ex ef ep =
      subst (λ (b : Bool). Entries b prev (x ∷ p) [] p') (sym ef)
        (subst (λ (q : Text). Entries false prev (x ∷ p) [] q) (sym ep) (close ex))

  abbrev Steps : ℕ → ℕ → Text → Bool → Option (Bool × Text) → Text → Type 0
  Steps x y p first o p' =
      ((x ≡ b']') × (first ≡ false) × (p' ≡ y ∷ p))
      ⊎ ((x ≡ b'-') × (y ≢ b']') × (n : Bool) × (bracket_loop signed 0 c p n 0 false ≡ o))
      ⊎ (((x ≢ b']') ⊎ (first ≡ true))
          × ((x ≢ b'-') ⊎ (y ≡ b']'))
          × (n : Bool) × (bracket_loop signed 0 c (y ∷ p) n x false ≡ o))

  -- What the loop does with a byte that is not the last of the pattern.
  loop_cases :
      (x y : ℕ) (p : Text) (m : Bool) (prev : ℕ) (first r : Bool) (p' : Text)
      → bracket_loop signed 0 c (x ∷ y ∷ p) m prev first ≡ some (r, p')
      → Steps x y p first (some (r, p')) p'
  unfolding bracket_loop
  loop_cases x y p m prev first r p' h =
      if_cases (λ o. o ≡ some (r, p') → Steps x y p first (some (r, p')) p')
        (x == b']' && not first) _ _
        (λ e k. inl (ground (arith, e), ground (arith, e), ground (arith, k)))
        (λ e.
          if_cases (λ o. o ≡ some (r, p') → Steps x y p first (some (r, p')) p')
            (x == b'-' && not (y == b']')) _ _
            (λ d k. inr (inl (ground (arith, d), ground (arith, d), _, k)))
            (λ d k. inr (inr (not_closing x first e, not_to x y d, _, k))))
        h
    where
      not_closing :
          (x : ℕ) (first : Bool) → (x == b']' && not first) ≡ false → (x ≢ b']') ⊎ (first ≡ true)
      not_closing x true e = inr refl
      not_closing x false e = inl (ground (arith, e))

      not_to : (x y : ℕ) → (x == b'-' && not (y == b']')) ≡ false → (x ≢ b'-') ⊎ (y ≡ b']')
      not_to x y e = elim (Bool-cases (y == b']')) [
        | inl same ↦ inr (ground (arith, same))
        | inr other ↦ inl (ground (arith, e, other))
      ]

  -- A bracket that the loop gets through has entries.
  loop-Entries :
      (p : Text) (m : Bool) (prev : ℕ) (first : Bool) (r : Bool) (p' : Text)
      → bracket_loop signed 0 c p m prev first ≡ some (r, p')
      → (es : List Entry) × Entries first prev p es p'
  loop-Entries [] m prev first r p' h = absurd (no_loop m prev first r p' h)
  loop-Entries (x ∷ []) m prev first r p' h =
      let (ex, ef, ep) = last_closes x m prev first r p' h in
      ([], closes x prev first [] p' ex ef ep)
  loop-Entries (x ∷ y ∷ p) m prev first r p' h = elim (loop_cases x y p m prev first r p' h) [
    | inl (ex, ef, ep) ↦ ([], closes x prev first (y ∷ p) p' ex ef ep)
    | inr (inl (ex, ne, n, k)) ↦
        let (es, more) = loop-Entries p n 0 false r p' k in (span prev y ∷ es, to ex ne more)
    | inr (inr (not_close, not_dash, n, k)) ↦
        let (es, more) = loop-Entries (y ∷ p) n x false r p' k in
        (one x ∷ es, byte not_close not_dash more)
  ]

  pub bracket_reads :
      (y : ℕ) (p p' : Text) (es : List Entry)
      → y ≢ b'!'
      → y ≢ b'^'
      → Entries true 0 (y ∷ p) es p'
      → bracket signed 0 c (y ∷ p) ≡ some (has_some es, p')
  unfolding bracket
  bracket_reads y p p' es no_bang no_hat d = ground (arith, loop_reads d false)

  pub bracket_reads_not :
      (y : ℕ) (p p' : Text) (es : List Entry)
      → (y ≡ b'!') ⊎ (y ≡ b'^')
      → Entries true 0 p es p'
      → bracket signed 0 c (y ∷ p) ≡ some (not (has_some es), p')
  unfolding bracket
  bracket_reads_not y p p' es negated d = ground (arith, negated, loop_reads d false)

  abbrev pub Bracketed : Text → Text → Type 0
  Bracketed p p' =
      ((y : ℕ) × (q : Text) × (p ≡ y ∷ q)
        × (y ≢ b'!')
        × (y ≢ b'^')
        × (es : List Entry) × Entries true 0 (y ∷ q) es p')
      ⊎ ((y : ℕ) × (q : Text) × (p ≡ y ∷ q)
          × ((y ≡ b'!') ⊎ (y ≡ b'^'))
          × (es : List Entry) × Entries true 0 q es p')

  -- What a bracket that is closed consists of.
  pub bracket_entries :
      (p : Text) (r : Bool) (p' : Text) → bracket signed 0 c p ≡ some (r, p') → Bracketed p p'
  unfolding bracket
  bracket_entries [] r p' h = absurd (ground (arith, h))
  bracket_entries (y ∷ p) r p' h =
      if_cases (λ o. o ≡ some (r, p') → Bracketed (y ∷ p) p') (y == b'!' || y == b'^') _ _
        (λ e k. elim (Option-cases (bracket_loop signed 0 c p false 0 true)) [
          | inl n ↦ absurd (ground (arith, k, n))
          | inr ((b, q), l) ↦
              let (es, d) = loop-Entries p false 0 true b q l in
              inr (
                y,
                p,
                refl,
                bang_or_hat y e,
                es,
                subst (λ (t : Text). Entries true 0 p es t) (ground (arith, k, l)) d,
              )
        ])
        (λ e k.
          let (es, d) = loop-Entries (y ∷ p) false 0 true r p' k in
          inl (y, p, refl, ground (arith, e), ground (arith, e), es, d))
        h
    where
      bang_or_hat : (y : ℕ) → (y == b'!' || y == b'^') ≡ true → (y ≡ b'!') ⊎ (y ≡ b'^')
      bang_or_hat y e = elim (Bool-cases (y == b'!')) [
        | inl bang ↦ inl (ground (arith, bang))
        | inr other ↦ inr (ground (arith, e, other))
      ]
