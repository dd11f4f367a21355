-- ===== src/Regex/Basic.antt =====
-- include/regex.h: how regcomp turns a basic pattern into an extended one, in a buffer of max_len bytes. The
-- pattern is its bytes in front of the NUL, and the result the bytes in front of the NUL that is stored at
-- the end; max_len is not 0.
pub mod Pieces
use jaclibc.Base.{
  ℕ, zero, suc, ◌+◌, ◌-◌, Bool, true, false, ◌||◌, ◌==◌, ltb, if◌then◌else◌, List, [], ◌∷◌,
}

-- strchr(specials, c) for a byte that is not NUL
unfoldable pub is_special : ℕ → Bool
is_special c =
    c == b'.'
    || c == b'?'
    || c == b'*'
    || c == b'+'
    || c == b'{'
    || c == b'}'
    || c == b'|'
    || c == b'('
    || c == b')'
    || c == b'^'
    || c == b'$'
    || c == b'\\'

-- The loop, by whether a backslash has just been read.
unfoldable pub bre_loop : ℕ → Bool → List ℕ → ℕ → List ℕ
bre_loop max_len false [] cnt = []
bre_loop max_len true [] cnt = b'\\' ∷ []
bre_loop max_len true (c ∷ s) cnt = elim (is_special c) [
  | true ↦ c ∷ bre_loop max_len false s (cnt + 1)
  | false ↦ b'\\' ∷ c ∷ bre_loop max_len false s (cnt + 2)
]
bre_loop max_len false (c ∷ s) cnt = elim (ltb cnt (max_len - 1)) [
  | false ↦ []
  | true ↦ elim (c == b'\\') [
    | true ↦ bre_loop max_len true s cnt
    | false ↦ elim (is_special c) [
      | true ↦ b'\\' ∷ c ∷ bre_loop max_len false s (cnt + 2)
      | false ↦ c ∷ bre_loop max_len false s (cnt + 1)
    ]
  ]
]

-- __jacl_bre_trans
unfoldable pub bre_trans : List ℕ → ℕ → List ℕ
bre_trans bre max_len = bre_loop max_len false bre 0
