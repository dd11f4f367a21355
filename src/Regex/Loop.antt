-- ===== src/Regex/Loop.antt =====
-- What the loops of in_class say, entry by entry.
use jaclibc.Base.{
  ℕ, zero, suc, ◌+◌, ◌<◌, ◌≡◌, refl, sym, ap, subst, ◌∙◌, arith, Bool, true, false, not, ◌&&◌, ◌||◌,
  ◌==◌, leb, if◌then◌else◌, List,
}
use jaclibc.Regex.{Ranges, entry_has, member_loop, in_class}
use jaclibc.Regex.Merge.{Extends}

module _ (is_named : List ℕ → ℕ → Bool) (towlower : ℕ → ℕ) where
  -- One round of the loop.
  abbrev pub step : Ranges → ℕ → ℕ → ℕ → Bool × Bool × Bool → Bool × Bool × Bool
  step m i cp cid (found, in_range, neg) =
      let same = m.rcid i == cid in
      (
        found || same,
        in_range || (same && entry_has is_named towlower m i cp),
        if same then m.rneg i else neg,
      )

  member_loop-last :
      (left i : ℕ) (m : Ranges) (cp cid : ℕ) (found in_range neg : Bool)
      → member_loop is_named towlower (suc left) i m cp cid found in_range neg
        ≡ step m
            (i + left)
            cp
            cid
            (member_loop is_named towlower left i m cp cid found in_range neg)
  unfolding member_loop
  member_loop-last zero i m cp cid found in_range neg =
      ap (λ k. step m k cp cid (found, in_range, neg)) (omega arith)
  member_loop-last (suc left) i m cp cid found in_range neg =
      member_loop-last left (i + 1) m cp cid _ _ _
      ∙ ap
          (λ k.
            step m k cp cid
              (member_loop is_named towlower (suc left) i m cp cid found in_range neg))
          (omega arith)

  entry_has-same :
      (i : ℕ) (m m' : Ranges) (cp : ℕ)
      → (m'.rlo i ≡ m.rlo i)
        × (m'.rhi i ≡ m.rhi i)
        × (m'.rcid i ≡ m.rcid i)
        × (m'.rneg i ≡ m.rneg i)
        × (m'.cname i ≡ m.cname i)
      → entry_has is_named towlower m' i cp ≡ entry_has is_named towlower m i cp
  unfolding entry_has
  entry_has-same i m m' cp (a, b, c, d, e) = ground (arith, a, b, e)

  step-same :
      (i : ℕ) (m m' : Ranges) (cp cid : ℕ) (found in_range neg : Bool)
      → (m'.rlo i ≡ m.rlo i)
        × (m'.rhi i ≡ m.rhi i)
        × (m'.rcid i ≡ m.rcid i)
        × (m'.rneg i ≡ m.rneg i)
        × (m'.cname i ≡ m.cname i)
      → step m' i cp cid (found, in_range, neg) ≡ step m i cp cid (found, in_range, neg)
  step-same i m m' cp cid found in_range neg (a, b, c, d, e) =
      ground (arith, c, d, entry_has-same i m m' cp (a, b, c, d, e))

  member_loop-same :
      (left i : ℕ) (m m' : Ranges) (cp cid : ℕ) (found in_range neg : Bool)
      → ((j : ℕ)
          → j < i + left
          → (m'.rlo j ≡ m.rlo j)
            × (m'.rhi j ≡ m.rhi j)
            × (m'.rcid j ≡ m.rcid j)
            × (m'.rneg j ≡ m.rneg j)
            × (m'.cname j ≡ m.cname j))
      → member_loop is_named towlower left i m' cp cid found in_range neg
        ≡ member_loop is_named towlower left i m cp cid found in_range neg
  unfolding member_loop
  member_loop-same zero i m m' cp cid found in_range neg same = refl
  member_loop-same (suc left) i m m' cp cid found in_range neg same =
      member_loop-same left (i + 1) m m' cp cid _ _ _ (λ j lt. same j (omega arith))
      ∙ ap (λ t. member_loop is_named towlower left (i + 1) m cp cid t.0 t.1 t.2)
          (step-same i m m' cp cid found in_range neg (same i (omega arith)))

  -- In a class without a negation the loop leaves neg clear, and finds no character without the class.
  pub member_loop-positive :
      (left i : ℕ) (m : Ranges) (cp cid : ℕ) (found in_range : Bool)
      → ((j : ℕ) → j < i + left → m.rcid j ≡ cid → m.rneg j ≡ false)
      → (in_range ≡ true → found ≡ true)
      → let (f, r, n) = member_loop is_named towlower left i m cp cid found in_range false in
        (n ≡ false) × (r ≡ true → f ≡ true)
  unfolding member_loop
  member_loop-positive zero i m cp cid found in_range positive h = (refl, h)
  member_loop-positive (suc left) i m cp cid found in_range positive h =
      let same = m.rcid i == cid in
      let clear : (if same then m.rneg i else false) ≡ false =
        ground (arith, positive i (omega arith)) in
      subst
        (λ n.
          let (f, r, n') =
            member_loop is_named towlower left (i + 1) m cp cid (found || same)
              (in_range || (same && entry_has is_named towlower m i cp)) n in
          (n' ≡ false) × (r ≡ true → f ≡ true))
        (sym clear)
        (member_loop-positive left (i + 1) m cp cid (found || same)
          (in_range || (same && entry_has is_named towlower m i cp))
          (λ j lt. positive j (omega arith)) (ground (arith, h)))

  abbrev pub holds : Bool × Bool × Bool → Bool
  holds (found, in_range, neg) = if not found then false else if neg then not in_range else in_range

  pub in_class-holds :
      (m : Ranges) (cp cid : ℕ)
      → in_class is_named towlower m cp cid false
        ≡ holds (member_loop is_named towlower m.nr 0 m cp cid false false false)
  unfolding in_class
  in_class-holds m cp cid = ground arith

  -- The last entry apart.
  pub in_class-suc :
      (m : Ranges) (k cp cid : ℕ)
      → m.nr ≡ suc k
      → in_class is_named towlower m cp cid false
        ≡ holds (step m k cp cid (member_loop is_named towlower k 0 m cp cid false false false))
  in_class-suc m k cp cid total =
      in_class-holds m cp cid
      ∙ ap (λ n. holds (member_loop is_named towlower n 0 m cp cid false false false)) total
      ∙ ap holds (member_loop-last k 0 m cp cid false false false)
      ∙ ap
          (λ i.
            holds (step m i cp cid (member_loop is_named towlower k 0 m cp cid false false false)))
          (omega arith)

  -- What the last entry of m' adds to the first ones of m.
  pub in_class-Extends :
      (m m' : Ranges) (k lo hi cid cp cid' : ℕ)
      → Extends m m' k lo hi cid
      → in_class is_named towlower m' cp cid' false
        ≡ holds (step m' k cp cid' (member_loop is_named towlower k 0 m cp cid' false false false))
  in_class-Extends m m' k lo hi cid cp cid' (count, same, _, _, _, _, _) =
      in_class-holds m' cp cid'
      ∙ ap (λ n. holds (member_loop is_named towlower n 0 m' cp cid' false false false)) count
      ∙ ap holds (member_loop-last k 0 m' cp cid' false false false)
      ∙ ap (λ t. holds (step m' (0 + k) cp cid' t))
          (member_loop-same k 0 m m' cp cid' false false false (λ j lt. same j (omega arith)))
      ∙ ap
          (λ i.
            holds
              (step m' i cp cid' (member_loop is_named towlower k 0 m cp cid' false false false)))
          (omega arith)

  -- The new entry, which holds what is in [lo, hi].
  pub step-new :
      (m m' : Ranges) (k lo hi cid cp cid' : ℕ) (found in_range neg : Bool)
      → Extends m m' k lo hi cid
      → step m' k cp cid' (found, in_range, neg) ≡ (
          if cid == cid'
          then (true, in_range || (leb lo cp && leb cp hi), false)
          else (found, in_range, neg))
  unfolding entry_has
  step-new m m' k lo hi cid cp cid' found in_range neg (_, _, l, h, c, n, e) =
      ground (arith, l, h, c, n, e)
