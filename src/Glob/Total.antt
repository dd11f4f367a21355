-- ===== src/Glob/Total.antt =====
-- The engine's fuel: one unit for each byte of the pattern and one more.
use jaclibc.Base.{
  ℕ, zero, suc, ◌≤◌, ◌<◌, ◌≡◌, ◌≢◌, inl, inr, Bool, true, false, ◌==◌, ◌&&◌, ◌||◌, not, arith, refl,
  if◌then◌else◌, Option, some, none, [], ◌∷◌, length, Option-cases, if_both,
}
use jaclibc.Str.{char_lt}
use jaclibc.Glob.{
  Text, fold, bracket_loop, bracket, literal, skip_stars, star_loop, star, one_item, engine,
  fnmatch,
}

-- A result that leaves at most n bytes of the pattern, if it leaves any.
abbrev LeavesAtMost : ℕ → Option (Bool × Text) → Type 0
LeavesAtMost n none = Unit
LeavesAtMost n (some r) = length r.1 ≤ n

bracket_loop-length :
    (signed : Bool) (flags c : ℕ) (p : Text) (matched : Bool) (prev : ℕ) (first : Bool) (n : ℕ)
    → length p ≤ n
    → LeavesAtMost n (bracket_loop signed flags c p matched prev first)
unfolding bracket_loop
bracket_loop-length signed flags c [] matched prev first n h = tt
bracket_loop-length signed flags c (x ∷ []) matched prev first n h = ground arith
bracket_loop-length signed flags c (x ∷ y ∷ p) matched prev first n h =
    let in_range =
      not (char_lt signed (fold flags c) (fold flags prev))
      && not (char_lt signed (fold flags y) (fold flags c)) in
    let range = bracket_loop signed flags c p (matched || in_range) 0 false in
    let single =
      bracket_loop signed flags c (y ∷ p) (matched || fold flags c == fold flags x) x false in
    if_both (LeavesAtMost n) (x == b']' && not first) (some (matched, y ∷ p))
      (if x == b'-' && not (y == b']') then range else single) (omega arith)
      (if_both (LeavesAtMost n) (x == b'-' && not (y == b']')) range single
        (bracket_loop-length signed flags c p (matched || in_range) 0 false n (omega arith))
        (bracket_loop-length signed flags c (y ∷ p) (matched || fold flags c == fold flags x) x
          false n (omega arith)))

bracket-length :
    (signed : Bool) (flags c : ℕ) (p : Text) (r : Bool × Text)
    → bracket signed flags c p ≡ some r
    → length r.1 ≤ length p
unfolding bracket
bracket-length signed flags c [] r h = absurd (ground arith)
bracket-length signed flags c (x ∷ p) r h = ground (
  arith,
  bracket_loop-length signed flags c p false 0 true (length p) (omega arith),
  bracket_loop-length signed flags c (x ∷ p) false 0 true (length (x ∷ p)) (omega arith),
)

literal-length : (flags c pc : ℕ) (p : Text) → length (literal flags c pc p).1 ≤ length p
unfolding literal
literal-length flags c pc [] = omega arith
literal-length flags c pc (x ∷ p) = ground arith

pub one_item-length :
    (signed : Bool) (flags : ℕ) (prev : Option ℕ) (x : ℕ) (p : Text) (c : ℕ) (p' : Text)
    → one_item signed flags prev x p c ≡ some p'
    → length p' ≤ length p
unfolding one_item
one_item-length signed flags prev x p c p' h = elim (Option-cases (bracket signed flags c p)) [
  | inl e ↦ ground (arith, literal-length flags c x p)
  | inr (r, e) ↦ ground (arith, literal-length flags c x p, bracket-length signed flags c p r e)
]

pub length-skip_stars : (p : Text) → length (skip_stars p) ≤ length p
unfolding skip_stars
length-skip_stars [] = omega arith
length-skip_stars (x ∷ p) = ground (arith, length-skip_stars p)

star_loop-total :
    (flags : ℕ) (go : Text → Option Bool) (prev : Option ℕ) (s : Text)
    → ((u : Text) → go u ≢ none)
    → star_loop flags go prev s ≢ none
unfolding star_loop
star_loop-total flags go prev [] total = λ e. cc
star_loop-total flags go prev (c ∷ s) total =
    ground (arith, total (c ∷ s), star_loop-total flags go (some c) s total)

star-total :
    (flags : ℕ) (go : Text → Option Bool) (p : Text) (prev : Option ℕ) (s : Text)
    → ((u : Text) → go u ≢ none)
    → star flags go p prev s ≢ none
unfolding star
star-total flags go [] prev [] total = λ e. cc
star-total flags go [] prev (c ∷ s) total = ground arith
star-total flags go (x ∷ p) prev s total = star_loop-total flags go prev s total

engine-total :
    (signed : Bool) (flags f : ℕ) (p : Text) (prev : Option ℕ) (s : Text)
    → length p < f
    → engine signed flags f p prev s ≢ none
unfolding engine
engine-total signed flags zero p prev s lt = absurd (omega arith)
engine-total signed flags (suc f) [] prev [] lt = λ e. cc
engine-total signed flags (suc f) [] prev (c ∷ s) lt = λ e. cc
engine-total signed flags (suc f) (x ∷ p) prev [] lt = ground (
  arith,
  star-total flags (engine signed flags f (skip_stars p) none) (skip_stars p) prev []
      (λ u. engine-total signed flags f (skip_stars p) none u (omega (arith, length-skip_stars p))),
)
engine-total signed flags (suc f) (x ∷ p) prev (c ∷ s) lt =
    let by_star =
      star-total flags (engine signed flags f (skip_stars p) none) (skip_stars p) prev (c ∷ s) (λ u.
        engine-total signed flags f (skip_stars p) none u (omega (arith, length-skip_stars p))) in
    elim (Option-cases (one_item signed flags prev x p c)) [
      | inl e ↦ ground (arith, by_star)
      | inr (p', e) ↦ ground (
        arith,
        by_star,
        engine-total signed flags f p' (some c) s
            (omega (arith, one_item-length signed flags prev x p c p' e)),
      )
    ]

-- fnmatch always returns, whatever the pattern, the text and the flags.
pub fnmatch_total :
    (signed : Bool) (p s : Option Text) (flags : ℕ)
    → (b : Bool) × (fnmatch signed p s flags ≡ some b)
unfolding fnmatch
fnmatch_total signed none s flags = (false, refl)
fnmatch_total signed (some p) none flags = (false, refl)
fnmatch_total signed (some p) (some s) flags =
    elim (Option-cases (engine signed flags (suc (length p)) p none s)) [
      | inl e ↦ absurd (engine-total signed flags (suc (length p)) p none s (omega arith) e)
      | inr found ↦ found
    ]
