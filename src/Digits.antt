-- ===== src/Digits.antt =====
-- include/stdlib.h: a64l and l64a, numbers written with 64 digits, the lowest first. A string is the
-- bytes before its NUL; `long` has 64 bits, and a long that l64a takes is given as its unsigned value.
pub mod Round
use jaclibc.Base.{
  ℕ, zero, suc, ◌+◌, ◌*◌, ◌/◌, ◌%◌, ◌^◌, ◌==◌, if◌then◌else◌, Option, none, some, List, [], ◌∷◌,
  get_or,
}

-- BASE64: './', the digits, the upper-case letters and the lower-case letters.
abbrev pub base64 : List ℕ
base64 =
    46 ∷ 47 ∷ 48 ∷ 49 ∷ 50 ∷ 51 ∷ 52 ∷ 53 ∷ 54 ∷ 55 ∷ 56 ∷ 57 ∷ 65 ∷ 66 ∷ 67 ∷ 68 ∷ 69 ∷ 70 ∷ 71
    ∷ 72 ∷ 73 ∷ 74 ∷ 75 ∷ 76 ∷ 77 ∷ 78 ∷ 79 ∷ 80 ∷ 81 ∷ 82 ∷ 83 ∷ 84 ∷ 85 ∷ 86 ∷ 87 ∷ 88 ∷ 89 ∷ 90
    ∷ 97 ∷ 98 ∷ 99 ∷ 100 ∷ 101 ∷ 102 ∷ 103 ∷ 104 ∷ 105 ∷ 106 ∷ 107 ∷ 108 ∷ 109 ∷ 110 ∷ 111 ∷ 112
    ∷ 113 ∷ 114 ∷ 115 ∷ 116 ∷ 117 ∷ 118 ∷ 119 ∷ 120 ∷ 121 ∷ 122 ∷ []

-- strchr(BASE64, c) - BASE64
unfoldable pub digit_of : List ℕ → ℕ → Option ℕ
digit_of [] c = none
digit_of (d ∷ ds) c =
    let rest : Option ℕ = elim (digit_of ds c) [ none ↦ none | some k ↦ some (suc k) ] in
    if d == c then some 0 else rest

-- for (i = 0; i < 6 && *s; i++, s++) { ... }: `left` is 6 - i.
unfoldable pub a64l_loop : ℕ → List ℕ → ℕ → ℕ → ℕ
unfolding digit_of
a64l_loop zero s result mult = result
a64l_loop (suc left) [] result mult = result
a64l_loop (suc left) (c ∷ s) result mult = elim (digit_of base64 c) [
  | none ↦ result
  | some k ↦ a64l_loop left s (result + k * mult) (mult * 64)
]

unfoldable pub a64l : List ℕ → ℕ
unfolding a64l_loop
a64l s = a64l_loop 6 s 0 1

-- for (i = 0; i < 6 && v; i++, v >>= 6) { ... }: `left` is 6 - i, and v & 0x3F is v % 64.
unfoldable pub l64a_loop : ℕ → ℕ → List ℕ
l64a_loop zero v = []
l64a_loop (suc left) v =
    let rest = l64a_loop left (v / 64) in if v == 0 then [] else get_or base64 (v % 64) 0 ∷ rest

-- The bytes that l64a leaves in its buffer before the NUL.
unfoldable pub l64a : ℕ → List ℕ
unfolding l64a_loop
l64a value = l64a_loop 6 (value % 2 ^ 32)
