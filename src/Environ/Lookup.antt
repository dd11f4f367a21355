-- ===== src/Environ/Lookup.antt =====
-- How the entries for a name and for another one lie side by side.
use jaclibc.Base.{
  suc, ◌+◌, ◌≡◌, ◌≢◌, true, false, some, [], ◌∷◌, ◌++◌, arith, refl, ℕ_discrete, drop, length,
}
use jaclibc.Environ.{Text, equals_sign, has_name, has_equals, name_of}

-- An entry is for one name only.
pub has_name-other :
    (e name other : Text)
    → has_equals name ≡ false
    → has_equals other ≡ false
    → name ≢ other
    → has_name e name ≡ true
    → has_name e other ≡ false
unfolding has_equals has_name
has_name-other [] name other hn ho ne h = refl
has_name-other (c ∷ e) [] [] hn ho ne h = absurd (ne refl)
has_name-other (c ∷ e) [] (o ∷ other) hn ho ne h = ground arith
has_name-other (c ∷ e) (n ∷ name) [] hn ho ne h = ground arith
has_name-other (c ∷ e) (n ∷ name) (o ∷ other) hn ho ne h = elim (ℕ_discrete n o) [
  | yes same ↦
      let rest : name ≢ other = λ e'. ne (rw (same, e') refl) in
      ground (arith, has_name-other e name other, rest)
  | no apart ↦ ground arith
]

pub drop_self : (name value : Text) → drop (length name + 1) (name ++ equals_sign ∷ value) ≡ value
drop_self [] value = refl
drop_self (n ∷ name) value =
    let e : length (n ∷ name) + 1 ≡ suc (length name + 1) = omega arith in
    rw e (drop_self name value)

pub has_name_self : (name value : Text) → has_name (name ++ equals_sign ∷ value) name ≡ true
unfolding has_name
has_name_self [] value = ground arith
has_name_self (n ∷ name) value = ground (arith, has_name_self name value)

pub name_of_self :
    (name value : Text)
    → has_equals name ≡ false
    → name_of (name ++ equals_sign ∷ value) ≡ some name
unfolding has_equals name_of
name_of_self [] value h = ground arith
name_of_self (n ∷ name) value h = ground (arith, name_of_self name value)
