-- ===== src/Glob.antt =====
-- include/fnmatch.h: matching a file name against a pattern. Both texts are the bytes before their
-- NUL. The text carries the byte before the current one, `none` at the start that the code compares
-- with (`s == string`). `int flags` is a bit set. The engine takes fuel for its calls of itself.
pub mod Total
pub mod Spec
pub mod Brackets
pub mod Items
pub mod Decide
pub mod Path
use jaclibc.Base.{
  ℕ, zero, suc, ◌+◌, Bool, true, false, not, ◌&&◌, ◌||◌, ◌==◌, if◌then◌else◌, Option, none, some,
  List, [], ◌∷◌, bit_and, ◌>>=◌, length,
}
use jaclibc.Ctype.{tolower}
use jaclibc.Str.{char_lt}

abbrev pub Text : Type 0
Text = List ℕ

abbrev pub fnm_pathname : ℕ
fnm_pathname = 0x01

abbrev pub fnm_period : ℕ
fnm_period = 0x02

abbrev pub fnm_noescape : ℕ
fnm_noescape = 0x04

abbrev pub fnm_casefold : ℕ
fnm_casefold = 0x10

abbrev pub backslash : ℕ
backslash = 92

-- flags & flag
unfoldable pub has : ℕ → ℕ → Bool
has flags flag = not (bit_and flags flag == 0)

-- The current byte begins the text, or a part of the path.
unfoldable pub at_start : Option ℕ → Bool
at_start none = true
at_start (some c) = c == b'/'

unfoldable pub contains : Text → ℕ → Bool
contains [] c = false
contains (x ∷ xs) c = x == c || contains xs c

-- FNM_MATCH is `true`.
unfoldable pub qmark : ℕ → Option ℕ → Text → Bool
unfolding has at_start
qmark flags prev [] = false
qmark flags prev (c ∷ s) =
    not (has flags fnm_pathname && c == b'/')
    && not (has flags fnm_period && c == b'.' && at_start prev)

unfoldable pub fold : ℕ → ℕ → ℕ
unfolding has tolower
fold flags c = if has flags fnm_casefold then tolower c else c

-- The loop of the bracket, from the byte after the `[` and the negation on. The result is whether
-- a byte or a range matched, and the pattern behind the `]`; `none` where there is no `]`.
unfoldable pub bracket_loop : Bool → ℕ → ℕ → Text → Bool → ℕ → Bool → Option (Bool × Text)
unfolding fold char_lt
bracket_loop signed flags c [] matched prev first = none
bracket_loop signed flags c (x ∷ []) matched prev first =
    if x == b']' && not first then some (matched, []) else none
bracket_loop signed flags c (x ∷ y ∷ p) matched prev first =
    let in_range =
      not (char_lt signed (fold flags c) (fold flags prev))
      && not (char_lt signed (fold flags y) (fold flags c)) in
    let range = bracket_loop signed flags c p (matched || in_range) 0 false in
    let single =
      bracket_loop signed flags c (y ∷ p) (matched || fold flags c == fold flags x) x false in
    if x == b']' && not first
    then some (matched, y ∷ p)
    else if x == b'-' && not (y == b']')
    then range
    else single

-- From the byte after the `[` on.
unfoldable pub bracket : Bool → ℕ → ℕ → Text → Option (Bool × Text)
unfolding bracket_loop
bracket signed flags c [] = none
bracket signed flags c (x ∷ p) =
    if x == b'!' || x == b'^'
    then (bracket_loop signed flags c p false 0 true >>= λ r. some (not r.0, r.1))
    else bracket_loop signed flags c (x ∷ p) false 0 true

-- The byte pc of the pattern against the byte c.
unfoldable pub same_char : ℕ → ℕ → ℕ → Bool
unfolding has tolower
same_char flags pc c = pc == c || (has flags fnm_casefold && tolower pc == tolower c)

-- Whether the pattern's first byte, or the escaped one, is c, and the pattern behind it.
unfoldable pub literal : ℕ → ℕ → ℕ → Text → Bool × Text
unfolding same_char
literal flags c pc [] = (same_char flags pc c, [])
literal flags c pc (x ∷ p) =
    if pc == backslash && not (has flags fnm_noescape)
    then (same_char flags x c, p)
    else (same_char flags pc c, x ∷ p)

unfoldable pub skip_stars : Text → Text
skip_stars [] = []
skip_stars (x ∷ p) = let rest = skip_stars p in if x == b'*' then rest else x ∷ p

-- while (*string) { ... }: `engine` matches the rest of the pattern from the current byte on.
unfoldable pub star_loop : ℕ → (Text → Option Bool) → Option ℕ → Text → Option Bool
unfolding has at_start
star_loop flags engine prev [] = some false
star_loop flags engine prev (c ∷ s) =
    let rest = star_loop flags engine (some c) s in
    let tried : Option Bool = elim (engine (c ∷ s)) [
      | none ↦ none
      | some true ↦ some true
      | some false ↦ rest
    ] in
    if has flags fnm_pathname && c == b'/'
    then some false
    else if has flags fnm_period && c == b'.' && at_start prev
    then rest
    else tried

-- A star, with the pattern behind all the stars.
unfoldable pub star : ℕ → (Text → Option Bool) → Text → Option ℕ → Text → Option Bool
unfolding star_loop contains
star flags engine [] prev [] = some true
star flags engine [] prev (c ∷ s) =
    if has flags fnm_period && c == b'.' && at_start prev
    then some false
    else if has flags fnm_pathname
    then some (not (contains (c ∷ s) b'/'))
    else some true
star flags engine (x ∷ p) prev s = star_loop flags engine prev s

-- The pattern behind one item that is no star, where the item matches the byte c.
unfoldable pub one_item : Bool → ℕ → Option ℕ → ℕ → Text → ℕ → Option Text
unfolding qmark bracket literal
one_item signed flags prev x p c =
    if x == b'?'
    then (if qmark flags prev (c ∷ []) then some p else none)
    else if x == b'['
    then (if (has flags fnm_pathname && c == b'/')
          || (has flags fnm_period && c == b'.' && at_start prev)
        then none
        else bracket signed flags c p >>= λ r. if r.0 then some r.1 else none)
    else if (literal flags c x p).0
    then some (literal flags c x p).1
    else none

-- `none` means that the fuel ran out. The end of the text matches no item but a star: its NUL is
-- neither in a bracket nor equal to a byte of the pattern.
unfoldable pub engine : Bool → ℕ → ℕ → Text → Option ℕ → Text → Option Bool
unfolding skip_stars star one_item
engine signed flags zero p prev s = none
engine signed flags (suc f) [] prev [] = some true
engine signed flags (suc f) [] prev (c ∷ s) = some false
engine signed flags (suc f) (x ∷ p) prev [] =
    if x == b'*'
    then star flags (engine signed flags f (skip_stars p) none) (skip_stars p) prev []
    else some false
engine signed flags (suc f) (x ∷ p) prev (c ∷ s) =
    let next : Option Bool = elim (one_item signed flags prev x p c) [
      | none ↦ some false
      | some p' ↦ engine signed flags f p' (some c) s
    ] in
    let run = star flags (engine signed flags f (skip_stars p) none) (skip_stars p) prev (c ∷ s) in
    if x == b'*' then run else next

-- NULL for either text gives FNM_NOMATCH.
unfoldable pub fnmatch : Bool → Option Text → Option Text → ℕ → Option Bool
unfolding engine
fnmatch signed (some p) (some s) flags = engine signed flags (suc (length p)) p none s
fnmatch signed _ _ flags = some false
