-- ===== src/Tests/Names.antt =====
-- Runs of setenv, unsetenv, strcasecmp, a64l and l64a.
use jaclibc.Base.{◌%◌, ◌^◌, ◌≡◌, ◌↔◌, true, some, none, List, [], ◌∷◌, take, pos, refl, arith}
use jaclibc.Digits.{a64l, l64a}
use jaclibc.Digits.Round.{a64l-l64a}
use jaclibc.Environ.{Text, done, setenv, unsetenv, getenv, is_name}
use jaclibc.Environ.Laws.{OthersKept, setenv_lem, unsetenv_lem}
use jaclibc.Fold.{strcasecmp, strncasecmp}
use jaclibc.Fold.Compare.{SameFolded, strcasecmp_lem}
use jaclibc.Tests.{sample_memory, list_text, word_text, list_there, word_there}

-- "A=1" and "B=2"
abbrev two_entries : List Text
two_entries = (65 ∷ 61 ∷ 49 ∷ []) ∷ (66 ∷ 61 ∷ 50 ∷ []) ∷ []

setenv_lem_example :
    (es' : List Text) × (setenv true true two_entries (some (66 ∷ [])) (some (51 ∷ [])) true
      ≡ (done, es'))
    × (getenv es' (some (66 ∷ [])) ≡ some (51 ∷ []))
    × OthersKept (66 ∷ []) two_entries es'
unfolding is_name
setenv_lem_example = setenv_lem (66 ∷ []) (51 ∷ []) two_entries true refl

unsetenv_run :
    (es' : List Text) × (unsetenv two_entries (some (65 ∷ [])) ≡ (done, es'))
    × (getenv es' (some (65 ∷ [])) ≡ none)
    × OthersKept (65 ∷ []) two_entries es'
unfolding is_name
unsetenv_run = unsetenv_lem (65 ∷ []) two_entries refl

strcasecmp_run :
    ((strcasecmp 5 sample_memory 1 8 ≡ some (pos 0)) ↔ SameFolded list_text word_text)
    × ((strncasecmp sample_memory 1 8 2 ≡ pos 0) ↔ SameFolded (take 2 list_text) (take 2 word_text))
strcasecmp_run =
    strcasecmp_lem 5 2 list_text word_text sample_memory 1 8 (omega arith) (omega arith)
      (omega arith) list_there word_there

a64l-l64a_run : a64l (l64a 5000000000) ≡ 5000000000 % 2 ^ 32
a64l-l64a_run = a64l-l64a 5000000000
