-- ===== src/Environ/Laws.antt =====
-- getenv after setenv and after unsetenv.
use jaclibc.Base.{
  ◌≡◌, ◌≢◌, ◌⊎◌, inl, inr, Bool, true, false, none, some, List, [], ◌∷◌, ◌++◌, arith, refl,
  Bool-cases, Option-cases, if◌then◌else◌,
}
use jaclibc.Environ.{
  Text, done, equals_sign, has_name, has_equals, is_name, find_entry, getenv, replace_entry, putenv,
  setenv, remove_entries, unsetenv,
}
use jaclibc.Environ.Lookup.{has_name-other, drop_self, has_name_self, name_of_self}

-- The names other than this one are looked up with the same result.
abbrev pub OthersKept : Text → List Text → List Text → Type 0
OthersKept name es es' =
    (other : Text)
    → has_equals other ≡ false
    → name ≢ other
    → find_entry es' other ≡ find_entry es other

module _ (name value : Text) (named : has_equals name ≡ false) where
  own_entry : find_entry ((name ++ equals_sign ∷ value) ∷ []) name ≡ some value
  unfolding find_entry
  own_entry = ground (arith, has_name_self name value, drop_self name value)

  replace_entry_lem :
      (es : List Text)
      → ((replace_entry es name (name ++ equals_sign ∷ value) ≡ none) × (find_entry es name ≡ none))
        ⊎ ((es' : List Text) × (replace_entry es name (name ++ equals_sign ∷ value) ≡ some es')
            × (find_entry es' name ≡ some value)
            × OthersKept name es es')
  unfolding replace_entry find_entry
  replace_entry_lem [] = inl (refl, refl)
  replace_entry_lem (e ∷ es) = elim (Bool-cases (has_name e name)) [
    | inl here ↦ rw here (
        inr (
          (name ++ equals_sign ∷ value) ∷ es,
          refl,
          ground (arith, has_name_self name value, drop_self name value),
          λ other ho ne. ground (
            arith,
            has_name-other e name other named ho ne here,
            has_name-other (name ++ equals_sign ∷ value) name other named ho ne
                (has_name_self name value),
          ),
        ))
    | inr away ↦ elim (replace_entry_lem es) [
      | inl (r, l) ↦ rw (away, r) (inl (refl, l))
      | inr (es', r, l, kept) ↦
          rw (away, r)
            (inr (e ∷ es', refl, ground arith, λ other ho ne. ground (arith, kept other ho ne)))
    ]
  ]

  append_lem :
      (es : List Text)
      → find_entry es name ≡ none
      → (find_entry (es ++ (name ++ equals_sign ∷ value) ∷ []) name ≡ some value)
        × OthersKept name es (es ++ (name ++ equals_sign ∷ value) ∷ [])
  unfolding find_entry
  append_lem [] h = (
    own_entry,
    λ other ho ne. ground (
      arith,
      has_name-other (name ++ equals_sign ∷ value) name other named ho ne
          (has_name_self name value),
    ),
  )
  append_lem (e ∷ es) h = elim (Bool-cases (has_name e name)) [
    | inl here ↦ absurd (ground arith)
    | inr away ↦
        let (l, kept) = append_lem es (ground arith) in
        (ground arith, λ other ho ne. ground (arith, kept other ho ne))
  ]

  remove_entries_lem :
      (es : List Text)
      → (find_entry (remove_entries es name) name ≡ none)
        × OthersKept name es (remove_entries es name)
  unfolding find_entry remove_entries
  remove_entries_lem [] = (refl, λ other ho ne. refl)
  remove_entries_lem (e ∷ es) =
      let (l, kept) = remove_entries_lem es in
      elim (Bool-cases (has_name e name)) [
        | inl here ↦ rw here (
          l,
          λ other ho ne.
              ground (arith, kept other ho ne, has_name-other e name other named ho ne here),
        )
        | inr away ↦ rw away (ground arith, λ other ho ne. ground (arith, kept other ho ne))
      ]

  putenv_lem :
      (es : List Text)
      → (es' : List Text) × (putenv true es (some (name ++ equals_sign ∷ value)) ≡ (done, es'))
        × (find_entry es' name ≡ some value)
        × OthersKept name es es'
  unfolding putenv
  putenv_lem es = elim (replace_entry_lem es) [
    | inl (r, l) ↦
        let (now, kept) = append_lem es l in
        (
          es ++ (name ++ equals_sign ∷ value) ∷ [],
          ground (arith, name_of_self name value named, r),
          now,
          kept,
        )
    | inr (es', r, now, kept) ↦ (es', ground (arith, name_of_self name value named, r), now, kept)
  ]

is_name-plain : (name : Text) → is_name name ≡ true → has_equals name ≡ false
unfolding is_name
is_name-plain [] h = refl
is_name-plain (c ∷ cs) h = ground arith

-- With memory, setenv of a name that is not empty and has no '=' in it gives it the value that getenv
-- then returns, unless overwriting is off and the name has a value, which then stays; other
-- names keep theirs.
pub setenv_lem :
    (name value : Text) (es : List Text) (overwrite : Bool)
    → is_name name ≡ true
    → (es' : List Text) × (setenv true true es (some name) (some value) overwrite ≡ (done, es'))
      × (getenv es' (some name) ≡ (
          if overwrite
          then some value
          else (elim (getenv es (some name)) [ some old ↦ some old | none ↦ some value ])))
      × OthersKept name es es'
unfolding setenv getenv
setenv_lem name value es overwrite valid =
    let named : has_equals name ≡ false = is_name-plain name valid in
    let (es', run, now, kept) = putenv_lem name value named es in
    elim (Bool-cases overwrite) [
      | inl o ↦ rw (valid, o) (es', run, now, kept)
      | inr o ↦ elim (Option-cases (find_entry es name)) [
        | inl l ↦ rw (valid, o, l) (es', run, now, kept)
        | inr (old, l) ↦ rw (valid, o, l) (es, refl, l, λ other ho ne. refl)
      ]
    ]

-- unsetenv of a name that is not empty and has no '=' in it takes out all its entries, so that getenv
-- finds none, and other names keep their values.
pub unsetenv_lem :
    (name : Text) (es : List Text)
    → is_name name ≡ true
    → (es' : List Text) × (unsetenv es (some name) ≡ (done, es'))
      × (getenv es' (some name) ≡ none)
      × OthersKept name es es'
unfolding unsetenv getenv
unsetenv_lem name es valid =
    let (l, kept) = remove_entries_lem name [] (is_name-plain name valid) es in
    rw valid (remove_entries es name, refl, l, kept)
