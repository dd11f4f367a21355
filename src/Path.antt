-- ===== src/Path.antt =====
-- include/libgen.h: splitname, basename and dirname. The path is its bytes in front of the NUL, the results
-- are the strings that the two pointers lead to when the NULs are written into the path.
pub mod Split
use jaclibc.Base.{
  ℕ, zero, suc, Bool, true, false, ◌==◌, ltb, leb, not, ◌&&◌, if◌then◌else◌, List, [], ◌∷◌, Option,
  none, some, length, get_or, take, drop, ◌-◌,
}

abbrev pub slash : ℕ
slash = 47

-- "."
abbrev pub dot_name : List ℕ
dot_name = 46 ∷ []

-- "/"
abbrev pub root_name : List ℕ
root_name = slash ∷ []

pub record Names : Type 0 where
  pub dir : List ℕ
  pub base : List ℕ

-- while (len > 1 && p[len - 1] == '/') len--
unfoldable pub strip : (ℕ → ℕ) → ℕ → ℕ
strip p zero = 0
strip p (suc len) =
    let shorter = strip p len in if ltb 0 len && p len == slash then shorter else suc len

-- while (slash > p && *(slash - 1) != '/') slash--
unfoldable pub name_start : (ℕ → ℕ) → ℕ → ℕ
name_start p zero = 0
name_start p (suc at) =
    let before = name_start p at in if not (p at == slash) then before else suc at

-- while (dir_end > p && *(dir_end - 1) == '/') dir_end--
unfoldable pub dir_stop : (ℕ → ℕ) → ℕ → ℕ
dir_stop p zero = 0
dir_stop p (suc stop) = let before = dir_stop p stop in if p stop == slash then before else suc stop

-- What the two pointers are set to, for the place where the stripped path, the name and the directory
-- end.
unfoldable pub names_at : List ℕ → ℕ → ℕ → ℕ → Names
names_at path len at stop =
    let base = drop at (take len path) in
    if length path == 0
    then record { dir = dot_name; base = dot_name }
    else if len == 1 && get_or path 0 0 == slash
    then record { dir = root_name; base = root_name }
    else if at == 0
    then record { dir = dot_name; base = base }
    else record { dir = if stop == 0 then root_name else take stop path; base = base }

-- No argument is NULL.
unfoldable pub splitname : List ℕ → Names
unfolding strip name_start dir_stop names_at
splitname path =
    let p : ℕ → ℕ = λ i. get_or path i 0 in
    let len = strip p (length path) in
    let at = name_start p len in names_at path len at (dir_stop p (at - 1))

-- `none` is NULL.
unfoldable pub basename : Option (List ℕ) → List ℕ
unfolding splitname
basename none = dot_name
basename (some path) = (splitname path).base

unfoldable pub dirname : Option (List ℕ) → List ℕ
unfolding splitname
dirname none = dot_name
dirname (some path) = (splitname path).dir
