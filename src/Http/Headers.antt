-- ===== src/Http/Headers.antt =====
-- The headers of a request: how a line is stored, and how its value is found again.
use jaclibc.Base.{◌&&◌, ◌||◌, ◌==◌, Bool, Option, none, some, [], ◌∷◌, true, false}
use jaclibc.Http.{Text}

abbrev pub all_blank : Text → Bool
all_blank [] = true
all_blank (c ∷ s) = (c == b' ' || c == 9) && all_blank s

abbrev pub starts_blank : Text → Bool
starts_blank [] = false
starts_blank (c ∷ s) = c == b' ' || c == 9

-- The first of two values.
abbrev pub or_else : Option Text → Option Text → Option Text
or_else none b = b
or_else (some a) b = some a
