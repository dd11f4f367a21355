-- ===== src/Glob/Decide.antt =====
-- With no flags fnmatch decides the relation `Matches`.
use jaclibc.Base.{
  ℕ, zero, suc, ◌<◌, ◌≡◌, ◌≢◌, ◌⊎◌, ◌↔◌, inl, inr, Bool, true, false, ◌==◌, ==_iff, if_cases, arith,
  refl, sym, Option, some, none, [], ◌∷◌, length, Bool-cases, subst,
}
use jaclibc.Glob.{Text, skip_stars, star_loop, star, one_item, engine, fnmatch}
use jaclibc.Glob.Spec.{Item, any, itself, escaped, among, outside, Matches, end, item, leave, take}
use jaclibc.Glob.Items.{Item-one_item, one_item-Item}
use jaclibc.Glob.Total.{length-skip_stars, one_item-length}

module _ (signed : Bool) where
  -- The answer is there, and it is right about the question.
  abbrev Decides : Type 0 → Option Bool → Type 0
  Decides G none = ⊥
  Decides G (some true) = G
  Decides G (some false) = ¬ G

  Decides-map : {G H : Type 0} (r : Option Bool) → G ↔ H → Decides G r → Decides H r
  Decides-map none e d = d
  Decides-map (some true) e d = e.0 d
  Decides-map (some false) e d = λ h. d (e.1 h)

  -- No item begins with a star.
  Item-head : {x c : ℕ} {p p' : Text} → Item signed x p c p' → x ≢ b'*'
  Item-head (any e) = λ star. ground (arith, e, star)
  Item-head (itself no_star q b l e) = no_star
  Item-head (escaped b e) = λ star. ground (arith, b, star)
  Item-head (among e no_bang no_hat d here) = λ star. ground (arith, e, star)
  Item-head (outside e negated d away) = λ star. ground (arith, e, star)

  two_stars :
      {a b : ℕ} {p s : Text}
      → a ≡ b'*'
      → b ≡ b'*'
      → Matches signed (a ∷ b ∷ p) s
      → Matches signed (b ∷ p) s
  two_stars ea eb (item i d) = absurd (Item-head i ea)
  two_stars ea eb (leave e d) = d
  two_stars ea eb (take e d) = take eb (two_stars ea eb d)

  -- Stars in a row are one star.
  skip_stars_lem :
      (p s : Text) → Matches signed (b'*' ∷ skip_stars p) s ↔ Matches signed (b'*' ∷ p) s
  unfolding skip_stars
  skip_stars_lem [] s = (λ d. d, λ d. d)
  skip_stars_lem (y ∷ p) s = elim (Bool-cases (y == b'*')) [
    | inl e ↦
        let same : y ≡ b'*' = ground arith in
        let (onward, back) = skip_stars_lem p s in
        rw e (
          λ d. leave refl (subst (λ (t : ℕ). Matches signed (t ∷ p) s) (sym same) (onward d)),
          λ d. back (subst (λ (t : ℕ). Matches signed (t ∷ p) s) same (two_stars refl same d)),
        )
    | inr e ↦ rw e (λ d. d, λ d. d)
  ]

  -- Behind its stars a pattern is empty or begins with another byte.
  skip_stars-head : (p : Text) (x : ℕ) (q : Text) → skip_stars p ≡ x ∷ q → x ≢ b'*'
  unfolding skip_stars
  skip_stars-head [] x q e = absurd (ground arith)
  skip_stars-head (y ∷ p) x q e = ground (arith, skip_stars-head p x q)

  -- An item needs a byte of the text.
  item_needs : {x : ℕ} {q : Text} → x ≢ b'*' → ¬ Matches signed (x ∷ q) []
  item_needs ne (leave e d) = ne e

  star_at_end : {x : ℕ} {q : Text} → Matches signed (x ∷ q) [] → Matches signed q []
  star_at_end (leave e d) = d

  star_cases :
      {x c : ℕ} {q s : Text}
      → x ≡ b'*'
      → Matches signed (x ∷ q) (c ∷ s)
      → Matches signed q (c ∷ s) ⊎ Matches signed (x ∷ q) s
  star_cases e (item i d) = absurd (Item-head i e)
  star_cases e (leave _ d) = inl d
  star_cases e (take _ d) = inr d

  item_inv :
      {x c : ℕ} {p s : Text}
      → x ≢ b'*'
      → Matches signed (x ∷ p) (c ∷ s)
      → (p' : Text) × (one_item signed 0 none x p c ≡ some p') × Matches signed p' s
  item_inv ne (item {p' = q} i d) = (q, Item-one_item signed _ i, d)
  item_inv ne (leave e d) = absurd (ne e)
  item_inv ne (take e d) = absurd (ne e)

  all_run : (s : Text) → Matches signed (b'*' ∷ []) s
  all_run [] = leave refl end
  all_run (c ∷ s) = take refl (all_run s)

  star_loop-Decides :
      (x : ℕ) (q : Text) (go : Text → Option Bool) (prev : Option ℕ) (s : Text)
      → x ≢ b'*'
      → ((u : Text) → Decides (Matches signed (x ∷ q) u) (go u))
      → Decides (Matches signed (b'*' ∷ x ∷ q) s) (star_loop 0 go prev s)
  unfolding star_loop
  star_loop-Decides x q go prev [] ne right = λ d. item_needs ne (star_at_end d)
  star_loop-Decides x q go prev (c ∷ s) ne right =
      pick (go (c ∷ s)) (star_loop 0 go (some c) s) (right (c ∷ s))
        (star_loop-Decides x q go (some c) s ne right)
    where
      pick :
          (r rest : Option Bool)
          → Decides (Matches signed (x ∷ q) (c ∷ s)) r
          → Decides (Matches signed (b'*' ∷ x ∷ q) s) rest
          → Decides
              (Matches signed (b'*' ∷ x ∷ q) (c ∷ s))
              (elim r [ none ↦ none | some true ↦ some true | some false ↦ rest ])
      pick none rest h more = h
      pick (some true) rest h more = leave refl h
      pick (some false) rest h more =
          Decides-map rest
            (
              λ d. take refl d,
              λ d. elim (star_cases refl d) [ inl here ↦ absurd (h here) | inr on ↦ on ],
            )
            more

  star-Decides :
      (q : Text) (go : Text → Option Bool) (prev : Option ℕ) (s : Text)
      → ((x : ℕ) (q' : Text) → q ≡ x ∷ q' → x ≢ b'*')
      → ((u : Text) → Decides (Matches signed q u) (go u))
      → Decides (Matches signed (b'*' ∷ q) s) (star 0 go q prev s)
  unfolding star
  star-Decides [] go prev [] head right = all_run []
  star-Decides [] go prev (c ∷ s) head right = all_run (c ∷ s)
  star-Decides (x ∷ q) go prev s head right = star_loop-Decides x q go prev s (head x q refl) right

  one_item-prev :
      (prev : Option ℕ) (x : ℕ) (p : Text) (c : ℕ)
      → one_item signed 0 prev x p c ≡ one_item signed 0 none x p c
  unfolding one_item
  one_item-prev prev x p c = refl

  star_pattern :
      (x : ℕ) (p : Text) (go : Text → Option Bool) (prev : Option ℕ) (s : Text)
      → x ≡ b'*'
      → ((u : Text) → Decides (Matches signed (skip_stars p) u) (go u))
      → Decides (Matches signed (x ∷ p) s) (star 0 go (skip_stars p) prev s)
  star_pattern x p go prev s same right =
      subst (λ (t : ℕ). Decides (Matches signed (t ∷ p) s) (star 0 go (skip_stars p) prev s))
        (sym same)
        (Decides-map (star 0 go (skip_stars p) prev s) (skip_stars_lem p s)
          (star-Decides (skip_stars p) go prev s (skip_stars-head p) right))

  item_pattern :
      (x : ℕ) (p : Text) (c : ℕ) (s : Text) (o : Option Text) (go : Text → Option Bool)
      → x ≢ b'*'
      → one_item signed 0 none x p c ≡ o
      → ((p' : Text) → o ≡ some p' → Decides (Matches signed p' s) (go p'))
      → Decides (Matches signed (x ∷ p) (c ∷ s)) (elim o [ none ↦ some false | some p' ↦ go p' ])
  item_pattern x p c s none go ne e right =
      λ d. let (q, h, _) = item_inv ne d in absurd (ground (arith, h))
  item_pattern x p c s (some p') go ne e right =
      Decides-map (go p')
        (
          item (one_item-Item signed c x p p' ne e),
          λ d.
              let (q, h, more) = item_inv ne d in
              subst (λ (t : Text). Matches signed t s) (ground (arith, h, e)) more,
        )
        (right p' refl)

  engine-Decides :
      (f : ℕ) (p : Text) (prev : Option ℕ) (s : Text)
      → length p < f
      → Decides (Matches signed p s) (engine signed 0 f p prev s)
  unfolding engine
  engine-Decides zero p prev s lt = absurd (omega arith)
  engine-Decides (suc f) [] prev [] lt = end
  engine-Decides (suc f) [] prev (c ∷ s) lt = λ d. elim d [ ]
  engine-Decides (suc f) (x ∷ p) prev [] lt =
      if_cases (Decides (Matches signed (x ∷ p) [])) (x == b'*') _ _
        (λ e.
          star_pattern x p _ prev [] ((==_iff x b'*').0 e)
            (λ u. engine-Decides f (skip_stars p) none u (omega (arith, length-skip_stars p))))
        (λ e. item_needs (ground (arith, e)))
  engine-Decides (suc f) (x ∷ p) prev (c ∷ s) lt =
      if_cases (Decides (Matches signed (x ∷ p) (c ∷ s))) (x == b'*') _ _
        (λ e.
          star_pattern x p _ prev (c ∷ s) ((==_iff x b'*').0 e)
            (λ u. engine-Decides f (skip_stars p) none u (omega (arith, length-skip_stars p))))
        (λ e.
          item_pattern x p c s (one_item signed 0 prev x p c)
            (λ p'. engine signed 0 f p' (some c) s) (ground (arith, e))
            (sym (one_item-prev prev x p c))
            (λ p' h.
              engine-Decides f p' (some c) s
                (omega (arith, one_item-length signed 0 prev x p c p' h))))

  answer_true :
      {G : Type 0} (r : Option Bool)
      → Decides G r
      → ((r ≡ some true) ↔ G) × ((r ≡ some false) ↔ (¬ G))
  answer_true none d = elim d [ ]
  answer_true (some true) d =
      ((λ e. d, λ g. refl), (λ e. absurd (ground (arith, e)), λ n. absurd (n d)))
  answer_true (some false) d =
      ((λ e. absurd (ground (arith, e)), λ g. absurd (d g)), (λ e. d, λ n. refl))

  -- With no flags fnmatch always answers: FNM_MATCH exactly for the texts that the pattern matches,
  -- and FNM_NOMATCH exactly for the others. A star matches any bytes, a question mark any byte, the byte behind
  -- a backslash itself, and so does every other byte and a backslash at the end. A bracket matches the bytes and
  -- ranges of its entries, or with `!` or `^` in front the bytes that are in none; a `]` in the first place is an
  -- entry, a dash in the first place or behind a range begins a range at NUL, and a bracket that is not closed
  -- matches nothing.
  pub fnmatch_lem :
      (p s : Text)
      → ((fnmatch signed (some p) (some s) 0 ≡ some true) ↔ Matches signed p s)
        × ((fnmatch signed (some p) (some s) 0 ≡ some false) ↔ (¬ Matches signed p s))
  unfolding fnmatch
  fnmatch_lem p s =
      answer_true (engine signed 0 (suc (length p)) p none s)
        (engine-Decides (suc (length p)) p none s (omega arith))
