-- ===== src/Route/Table/Laws.antt =====
-- Which handlers a dispatch runs.
use jaclibc.Base.{
  zero, suc, subst, dec_lt, ◌<◌, ◌+◌, ◌≤◌, ◌≡◌, ◌≢◌, ◌⊎◌, inl, inr, Bool, true, false, ◌==◌,
  if◌then◌else◌, ℤ, pos, negsuc, Option, none, some, List, [], ◌∷◌, ◌++◌, length, arith, refl, ap,
  sym, ◌∙◌,
}
use jaclibc.Route.{Signs, Text, route_match}
use jaclibc.Route.Table.{Route, Context, forward_loop, route_forward, forward_max, match_max}

module _ {ℓ κ} {H : Type ℓ} {S : Type κ} (run : H → List Text → Context S → ℤ × Context S)
    (signs : Signs) where
  -- The handlers whose patterns the path fits, in order, with what the patterns take.
  abbrev pub Matching : List (Route H) → Text → List (H × List Text) → Type ℓ
  Matching [] path hs = hs ≡ []
  Matching (r ∷ routes) path hs =
      (rest : List (H × List Text)) × Matching routes path rest
      × (((route_match signs path r.pattern match_max ≡ some none) × (hs ≡ rest))
          ⊎ ((argv : List Text) × (route_match signs path r.pattern match_max ≡ some (some argv))
              × (hs ≡ (r.handler, argv) ∷ rest)))

  -- These handlers, one after the other, answer 0 and take the context from c to c'.
  abbrev pub Silent : List (H × List Text) → Context S → Context S → Type κ
  Silent [] c c' = c' ≡ c
  Silent ((h, argv) ∷ hs) c c' = (d : Context S) × (run h argv c ≡ (pos 0, d)) × Silent hs d c'

  -- All answered 0, or the last one that ran did not.
  abbrev pub Outcome :
      List (H × List Text) → Bool → Context S → Option (ℤ × Context S) → Type (ℓ ⊔ κ)
  Outcome hs matched c o =
      ((c' : Context S) × Silent hs c c'
        × (o ≡ some ((if matched then pos 0 else if length hs == 0 then negsuc 0 else pos 0), c')))
      ⊎ ((before after : List (H × List Text)) × (h : H) × (argv : List Text) × (c' d : Context S)
          × (r : ℤ) × (hs ≡ before ++ (h, argv) ∷ after)
          × Silent before c c'
          × (run h argv c' ≡ (r, d))
          × (r ≢ pos 0)
          × (o ≡ some (r, d)))

  -- A handler that answers 0 is passed over.
  pass_over :
      (h : H) (argv : List Text) (rest : List (H × List Text)) (matched : Bool) (c d : Context S)
      (o : Option (ℤ × Context S))
      → run h argv c ≡ (pos 0, d)
      → Outcome rest true d o
      → Outcome ((h, argv) ∷ rest) matched c o
  pass_over h argv rest matched c d o e (inl (c', silent, same)) =
      inl (c', (d, e, silent), same ∙ ground arith)
  pass_over h argv rest matched c d o e
        (inr (before, after, g, args, c', d', r, same, silent, ran, ne, ended)) =
      inr (
        (h, argv) ∷ before,
        after,
        g,
        args,
        c',
        d',
        r,
        ap (λ (l : List (H × List Text)). (h, argv) ∷ l) same,
        (d, e, silent),
        ran,
        ne,
        ended,
      )

  first_runs :
      (h : H) (argv : List Text) (rest : List (H × List Text)) (matched : Bool) (c : Context S)
      (next : Context S → Option (ℤ × Context S))
      → ((d : Context S) → Outcome rest true d (next d))
      → (x : ℤ × Context S) → run h argv c ≡ x
      → Outcome
          ((h, argv) ∷ rest)
          matched
          c
          (elim x.0 [ pos zero ↦ next x.1 | other ↦ some (other, x.1) ])
  first_runs h argv rest matched c next all (pos zero, d) e =
      pass_over h argv rest matched c d (next d) e (all d)
  first_runs h argv rest matched c next all (pos (suc n), d) e =
      inr ([], rest, h, argv, c, d, pos (suc n), refl, refl, e, (λ z. ground (arith, z)), refl)
  first_runs h argv rest matched c next all (negsuc n, d) e =
      inr ([], rest, h, argv, c, d, negsuc n, refl, refl, e, (λ z. ground (arith, z)), refl)

  skip_step :
      (r : Route H) (routes : List (Route H)) (path : Text) (matched : Bool) (c : Context S)
      → route_match signs path r.pattern match_max ≡ some none
      → forward_loop run signs (r ∷ routes) path matched c
        ≡ forward_loop run signs routes path matched c
  unfolding forward_loop
  skip_step r routes path matched c e = ground (arith, e)

  run_step :
      (r : Route H) (routes : List (Route H)) (path : Text) (argv : List Text) (matched : Bool)
      (c : Context S)
      → route_match signs path r.pattern match_max ≡ some (some argv)
      → forward_loop run signs (r ∷ routes) path matched c ≡ (elim (run r.handler argv c).0 [
        | pos zero ↦ forward_loop run signs routes path true (run r.handler argv c).1
        | other ↦ some (other, (run r.handler argv c).1)
      ])
  unfolding forward_loop
  run_step r routes path argv matched c e = ground (arith, e)

  forward_loop_lem :
      (routes : List (Route H)) (path : Text) (hs : List (H × List Text)) (matched : Bool)
      (c : Context S)
      → Matching routes path hs
      → Outcome hs matched c (forward_loop run signs routes path matched c)
  unfolding forward_loop
  forward_loop_lem [] path hs matched c m =
      inl (c, subst (λ (l : List (H × List Text)). Silent l c c) (sym m) refl, ground (arith, m))
  forward_loop_lem (r ∷ routes) path hs matched c (rest, m, inl (e, same)) =
      subst
        (λ (l : List (H × List Text)).
          Outcome l matched c (forward_loop run signs (r ∷ routes) path matched c))
        (sym same)
        (subst (Outcome rest matched c) (sym (skip_step r routes path matched c e))
          (forward_loop_lem routes path rest matched c m))
  forward_loop_lem (r ∷ routes) path hs matched c (rest, m, inr (argv, e, same)) =
      subst
        (λ (l : List (H × List Text)).
          Outcome l matched c (forward_loop run signs (r ∷ routes) path matched c))
        (sym same)
        (subst (Outcome ((r.handler, argv) ∷ rest) matched c)
          (sym (run_step r routes path argv matched c e))
          (first_runs r.handler argv rest matched c (λ d. forward_loop run signs routes path true d)
            (λ d. forward_loop_lem routes path rest true d m) (run r.handler argv c) refl))

  -- More than 16 forwards run no handler and answer 0. Else the handlers whose patterns the path fits
  -- are run in the order of registration, with what their patterns take, up to the first that does not
  -- answer 0, whose answer is the result; if all answer 0, the result is 0, and -1 if no pattern fits.
  -- The patterns read nothing outside of the strings.
  pub route_forward_lem :
      (routes : List (Route H)) (path : Text) (hs : List (H × List Text)) (c : Context S)
      → Matching routes path hs
      → let c' : Context S = record c { hops = c.hops + 1 } in
        ((forward_max < c.hops) × (route_forward run signs routes path c ≡ some (pos 0, c')))
        ⊎ ((c.hops ≤ forward_max) × Outcome hs false c' (route_forward run signs routes path c))
  unfolding route_forward
  route_forward_lem routes path hs c m =
      let c' : Context S = record c { hops = c.hops + 1 } in
      elim (dec_lt forward_max c.hops) [
        | yes far ↦ inl (far, ground (arith, far))
        | no near ↦
            let on : route_forward run signs routes path c
                ≡ forward_loop run signs routes path false c' =
              ground (arith, near) in
            inr (
              omega arith,
              subst (Outcome hs false c') (sym on) (forward_loop_lem routes path hs false c' m),
            )
      ]
