-- ===== src/Tests/Patterns.antt =====
-- Runs of fnmatch, and of the classes of include/ctype.h.
use jaclibc.Base.{◌≡◌, ◌↔◌, refl, arith, true, false, Bool, some, [], ◌∷◌}
use jaclibc.Ctype.{tolower}
use jaclibc.Ctype.Classes.{ctype_classes}
use jaclibc.Glob.{Text, fnmatch, has}
use jaclibc.Glob.Decide.{fnmatch_lem}
use jaclibc.Glob.Path.{fnmatch_star_slash}
use jaclibc.Glob.Spec.{Matches}
use jaclibc.Glob.Total.{fnmatch_total}

ctype_classes_run : tolower (tolower 65) ≡ tolower 65
ctype_classes_run = (ctype_classes 65 (omega arith)).5

-- "*[!a-c]\?"
abbrev bracket_pattern : Text
bracket_pattern = 42 ∷ 91 ∷ 33 ∷ 97 ∷ 45 ∷ 99 ∷ 93 ∷ 92 ∷ 63 ∷ []

-- "ad?"
abbrev bracket_text : Text
bracket_text = 97 ∷ 100 ∷ 63 ∷ []

fnmatch_lem_example :
    ((fnmatch true (some bracket_pattern) (some bracket_text) 0 ≡ some true)
      ↔ Matches true bracket_pattern bracket_text)
    × ((fnmatch true (some bracket_pattern) (some bracket_text) 0 ≡ some false)
        ↔ (¬ Matches true bracket_pattern bracket_text))
fnmatch_lem_example = fnmatch_lem true bracket_pattern bracket_text

bracket_text_run : fnmatch true (some bracket_pattern) (some bracket_text) 0 ≡ some true
unfolding fnmatch
bracket_text_run = refl

-- "[!]abc]" and "]"
bracket_first_run :
    fnmatch true (some (91 ∷ 33 ∷ 93 ∷ 97 ∷ 98 ∷ 99 ∷ 93 ∷ [])) (some (93 ∷ [])) 0 ≡ some false
unfolding fnmatch
bracket_first_run = refl

-- "[-a]" and "A"
bracket_dash_run : fnmatch true (some (91 ∷ 45 ∷ 97 ∷ 93 ∷ [])) (some (65 ∷ [])) 0 ≡ some true
unfolding fnmatch
bracket_dash_run = refl

fnmatch_total_run : (b : Bool) × (fnmatch true (some (91 ∷ 97 ∷ [])) (some (97 ∷ [])) 7 ≡ some b)
fnmatch_total_run = fnmatch_total true (some (91 ∷ 97 ∷ [])) (some (97 ∷ [])) 7

-- "*/c" and "a/c"
fnmatch_star_slash_run :
    fnmatch true (some (42 ∷ 47 ∷ 99 ∷ [])) (some (97 ∷ 47 ∷ 99 ∷ [])) 1 ≡ some false
unfolding has
fnmatch_star_slash_run = fnmatch_star_slash true (99 ∷ []) (97 ∷ 47 ∷ 99 ∷ []) 1 refl
