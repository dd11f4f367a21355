-- ===== src/Environ.antt =====
-- include/stdlib.h: putenv, setenv and unsetenv, and getenv of include/unistd.h. `environ` is the list
-- of its strings, each the bytes before its NUL; a call that stores a pointer to a string stores the
-- string, which its owner leaves as it is.
pub mod Lookup
pub mod Laws
use jaclibc.Base.{
  ℕ, Bool, true, false, not, ◌&&◌, ◌||◌, ◌==◌, if◌then◌else◌, Option, none, some, List, [], ◌∷◌,
  ◌++◌, ◌+◌, drop, length,
}

abbrev pub Text : Type 0
Text = List ℕ

-- What a call reports: 0, or -1 with errno.
pub data Status : Type 0 where
  done einval enomem : Status

abbrev pub equals_sign : ℕ
equals_sign = b'='

-- strncmp(*ep, name, namelen) == 0 && (*ep)[namelen] == '='
unfoldable pub has_name : Text → Text → Bool
has_name [] name = false
has_name (c ∷ entry) [] = c == equals_sign
has_name (c ∷ entry) (n ∷ name) = c == n && has_name entry name

-- The loop of getenv. The value begins at &(*env)[len + 1].
unfoldable pub find_entry : List Text → Text → Option Text
unfolding has_name
find_entry [] name = none
find_entry (e ∷ es) name =
    let rest = find_entry es name in
    if has_name e name then some (drop (length name + 1) e) else rest

-- `name` is `none` for NULL.
unfoldable pub getenv : List Text → Option Text → Option Text
unfolding find_entry
getenv environ none = none
getenv environ (some name) = find_entry environ name

-- strchr(name, '=')
unfoldable pub has_equals : Text → Bool
has_equals [] = false
has_equals (c ∷ cs) = c == equals_sign || has_equals cs

-- The namelen bytes before the first '='; `none` where there is none.
unfoldable pub name_of : Text → Option Text
name_of [] = none
name_of (c ∷ cs) =
    if c == equals_sign
    then some []
    else (elim (name_of cs) [ none ↦ none | some name ↦ some (c ∷ name) ])

-- The first loop of putenv, with the new list where it finds the name.
unfoldable pub replace_entry : List Text → Text → Text → Option (List Text)
unfolding has_name
replace_entry [] name string = none
replace_entry (e ∷ es) name string =
    let rest : Option (List Text) = elim (replace_entry es name string) [
      | none ↦ none
      | some es' ↦ some (e ∷ es')
    ] in
    if has_name e name then some (string ∷ es) else rest

-- `string` is `none` for NULL; `room` says whether malloc gives the new array.
unfoldable pub putenv : Bool → List Text → Option Text → Status × List Text
unfolding name_of replace_entry
putenv room environ none = (einval, environ)
putenv room environ (some string) = elim (name_of string) [
  | none ↦ (einval, environ)
  | some name ↦ elim (replace_entry environ name string) [
    | some environ' ↦ (done, environ')
    | none ↦ if room then (done, environ ++ string ∷ []) else (enomem, environ)
  ]
]

-- !name || !*name || strchr(name, '=')
unfoldable pub is_name : Text → Bool
unfolding has_equals
is_name [] = false
is_name (c ∷ cs) = not (has_equals (c ∷ cs))

-- `own_room` says whether malloc gives the string of the new entry.
unfoldable pub setenv :
    Bool → Bool → List Text → Option Text → Option Text → Bool → Status × List Text
unfolding putenv is_name getenv
setenv own_room room environ none value overwrite = (einval, environ)
setenv own_room room environ (some name) none overwrite = (einval, environ)
setenv own_room room environ (some name) (some value) overwrite =
    let string = name ++ equals_sign ∷ value in
    let store = if own_room then putenv room environ (some string) else (enomem, environ) in
    if not (is_name name)
    then (einval, environ)
    else if overwrite
    then store
    else (elim (getenv environ (some name)) [ some _ ↦ (done, environ) | none ↦ store ])

-- while (*ep) { ... }: each entry of the name is taken out.
unfoldable pub remove_entries : List Text → Text → List Text
unfolding has_name
remove_entries [] name = []
remove_entries (e ∷ es) name =
    let rest = remove_entries es name in if has_name e name then rest else e ∷ rest

unfoldable pub unsetenv : List Text → Option Text → Status × List Text
unfolding remove_entries is_name
unsetenv environ none = (einval, environ)
unsetenv environ (some name) =
    if is_name name then (done, remove_entries environ name) else (einval, environ)
