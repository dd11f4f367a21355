-- ===== src/Exit/Order.antt =====
-- In which order the handlers run.
use mathlib.Core.List.{reverse, reverse-append, append_assoc, append-nil}
use jaclibc.Base.{
  ℕ, zero, suc, ◌≤◌, ◌<◌, ◌≡◌, ltb, Bool, if◌then◌else◌, Option, none, some, List, [], ◌∷◌, ◌++◌, ℤ,
  pos, negsuc, length, take, get_or, get_elem?, arith, refl, sym, ap, ◌∙◌,
}
use jaclibc.Exit.{Handlers, no_handlers, atexit_max, register, atexit, run_loop, run_handlers}

shift : (a b : ℕ) → ltb a b ≡ ltb (suc a) (suc b)
shift a b = ground arith

module _ {ℓ} {F : Type ℓ} where
  -- The table after these handlers, one after the other, are registered.
  abbrev pub registered : Handlers F → List F → Handlers F
  registered slots [] = slots
  registered slots (f ∷ fs) = registered (atexit slots (some f)).1 fs

  -- A table of k slots that holds these handlers from the first slot on, as many as fit.
  abbrev filled : ℕ → List F → Handlers F
  filled zero fs = []
  filled (suc k) [] = none ∷ filled k []
  filled (suc k) (f ∷ fs) = some f ∷ filled k fs

  register-filled :
      (k : ℕ) (fs : List F) (g : F)
      → register (filled k fs) g
        ≡ ((if ltb (length fs) k then pos 0 else negsuc 0), filled k (fs ++ g ∷ []))
  unfolding register
  register-filled zero [] g = refl
  register-filled zero (f ∷ fs) g = ground arith
  register-filled (suc k) [] g = ground arith
  register-filled (suc k) (f ∷ fs) g =
      ap (λ (r : ℤ × Handlers F). (r.0, some f ∷ r.1)) (register-filled k fs g)
      ∙ ap (λ (b : Bool). ((if b then pos 0 else negsuc 0), some f ∷ filled k (fs ++ g ∷ [])))
          (shift (length fs) k)

  registered-filled : (k : ℕ) (fs gs : List F) → registered (filled k fs) gs ≡ filled k (fs ++ gs)
  unfolding atexit
  registered-filled k fs [] = ap (λ (l : List F). filled k l) (sym (append-nil fs))
  registered-filled k fs (g ∷ gs) =
      ap (λ (r : ℤ × Handlers F). registered r.1 gs) (register-filled k fs g)
      ∙ registered-filled k (fs ++ g ∷ []) gs
      ∙ ap (λ (l : List F). filled k l) (append_assoc fs (g ∷ []) gs)

  get_or-filled : (k i : ℕ) (fs : List F) → i < k → get_or (filled k fs) i none ≡ get_elem? fs i
  get_or-filled zero i fs lt = absurd (omega arith)
  get_or-filled (suc k) zero [] lt = refl
  get_or-filled (suc k) zero (f ∷ fs) lt = refl
  get_or-filled (suc k) (suc i) [] lt = get_or-filled k i [] (omega arith)
  get_or-filled (suc k) (suc i) (f ∷ fs) lt = get_or-filled k i fs (omega arith)

  take_past_end : (i : ℕ) (fs : List F) → get_elem? fs i ≡ none → take (suc i) fs ≡ take i fs
  take_past_end zero [] e = refl
  take_past_end zero (f ∷ fs) e = absurd (ground (arith, e))
  take_past_end (suc i) [] e = refl
  take_past_end (suc i) (f ∷ fs) e = ap (λ (l : List F). f ∷ l) (take_past_end i fs e)

  take_one_more :
      (i : ℕ) (fs : List F) (g : F)
      → get_elem? fs i ≡ some g
      → take (suc i) fs ≡ take i fs ++ g ∷ []
  take_one_more zero [] g e = absurd (ground (arith, e))
  take_one_more zero (f ∷ fs) g e = ground (arith, e)
  take_one_more (suc i) [] g e = absurd (ground (arith, e))
  take_one_more (suc i) (f ∷ fs) g e = ap (λ (l : List F). f ∷ l) (take_one_more i fs g e)

  run_loop-filled :
      (k i : ℕ) (fs : List F)
      → i ≤ k
      → run_loop i (λ j. get_or (filled k fs) j none) ≡ reverse (take i fs)
  unfolding run_loop
  run_loop-filled k zero fs le = refl
  run_loop-filled k (suc i) fs le =
      let rest = run_loop-filled k i fs (omega arith) in
      let at = get_or-filled k i fs (omega arith) in go (get_or (filled k fs) i none) at rest
    where
      go :
          {l : List F} (o : Option F)
          → o ≡ get_elem? fs i
          → l ≡ reverse (take i fs)
          → (elim o [ none ↦ l | some func ↦ func ∷ l ]) ≡ reverse (take (suc i) fs)
      go none at rest = rest ∙ ap reverse (sym (take_past_end i fs (sym at)))
      go (some g) at rest =
          ap (λ (l : List F). g ∷ l) rest
          ∙ sym (reverse-append (take i fs) (g ∷ []))
          ∙ ap reverse (sym (take_one_more i fs g (sym at)))

  -- Of the handlers that atexit is given, none of them NULL, the first 32 are run, the last of them
  -- first, and a further one is taken if fewer than 32 were given before, and else refused.
  pub run_handlers-registered :
      (fs : List F) (g : F)
      → (run_handlers (registered no_handlers fs) ≡ reverse (take atexit_max fs))
        × ((atexit (registered no_handlers fs) (some g)).0
            ≡ (if ltb (length fs) atexit_max then pos 0 else negsuc 0))
  unfolding run_handlers atexit
  run_handlers-registered fs g =
      let table : registered no_handlers fs ≡ filled atexit_max fs =
        registered-filled atexit_max [] fs in
      (
        ap run_handlers table ∙ run_loop-filled atexit_max atexit_max fs (omega arith),
        ap (λ (s : Handlers F). (register s g).0) table
            ∙ ap (λ (r : ℤ × Handlers F). r.0) (register-filled atexit_max fs g),
      )
