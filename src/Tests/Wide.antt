-- ===== src/Tests/Wide.antt =====
-- Runs of the wide strings of include/wchar.h.
use jaclibc.Base.{
  ℕ, ◌-◌, ◌≡◌, pos, some, List, [], ◌∷◌, length, take, min, get_or, refl, arith, none, inr, ◌==◌,
  if◌then◌else◌,
}
use jaclibc.Memory.{Memory, IsString}
use jaclibc.Memory.Regions.{SameOutside}
use jaclibc.Wide.{
  wcslcpy, wcsncmp, wcstok, wcsspn, wcscspn, wcschr, wide_order_bounded, wide_span, wide_char,
}
use jaclibc.Wide.Bounded.{wcslcpy_lem}

-- "ab,c" at 20 in wide characters above a byte, with the delimiter at 40, and zero elsewhere.
abbrev letters : List ℕ
letters = 0x3B1 ∷ 0x3B2 ∷ b',' ∷ 0x3B3 ∷ []

abbrev wide_memory : Memory
wide_memory q = if◌then◌else◌ (q == 40) b',' (get_or letters (q - 20) 0)

-- Two equal strings are unequal to wcsncmp where the bound is behind their end.
short_strings : wcsncmp wide_memory 20 20 5 ≡ pos 1
unfolding wcsncmp wide_order_bounded
short_strings = refl

first_token :
    let found = wcstok 9 wide_memory 20 40 0 in
    elim found as (λ _. Type 0) [
      | none ↦ ⊥
      | some (token, save, m) ↦ (token ≡ 20) × (save ≡ 23) × (m 22 ≡ 0)
    ]
unfolding wcstok wcsspn wcscspn wcschr wide_span wide_char
first_token = (refl, refl, refl)

letters_at_20 : IsString wide_memory 20 letters
letters_at_20 = (
  refl,
  (λ e. omega arith),
  (refl, (λ e. omega arith), (refl, (λ e. omega arith), (refl, (λ e. omega arith), refl))),
)

wcslcpy_lem_example :
    (m' : Memory) × (wcslcpy 9 wide_memory 60 20 3 ≡ some (length letters, m'))
    × IsString m' 60 (take (min (3 - 1) (length letters)) letters)
    × SameOutside wide_memory m' 60 3
wcslcpy_lem_example =
    wcslcpy_lem letters 9 wide_memory 60 20 3 (omega arith) letters_at_20 (inr (omega arith))
      (omega arith)
