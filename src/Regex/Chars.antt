-- ===== src/Regex/Chars.antt =====
-- The characters of a subject are those that wcrtomb encodes.
use jaclibc.Base.{ℕ, ◌+◌, ◌/◌, ◌%◌, ◌≡◌, List, [], ◌∷◌, ◌++◌, some, arith, dec_lt}
use jaclibc.Utf.{wcrtomb}
use jaclibc.Utf.Trip.{IsScalar}
use jaclibc.Regex.{utf8_next}

-- wcrtomb encodes every character, and __jacl_match_utf8_next reads it back from these bytes, whatever
-- follows, and leaves what follows.
pub utf8_next-wcrtomb :
    (wc : ℕ) (more : List ℕ)
    → IsScalar wc
    → (s : List ℕ) × (wcrtomb wc ≡ some s) × (utf8_next (s ++ more) ≡ (wc, more))
unfolding wcrtomb utf8_next
utf8_next-wcrtomb wc more valid = elim (dec_lt wc 0x80) [
  | yes one ↦ (wc ∷ [], ground arith, ground arith)
  | no n1 ↦ elim (dec_lt wc 0x800) [
    | yes two ↦ ((0xC0 + wc / 64) ∷ (0x80 + wc % 64) ∷ [], ground arith, ground arith)
    | no n2 ↦ elim (dec_lt wc 0x10000) [
      | yes three ↦ (
        (0xE0 + wc / 4096) ∷ (0x80 + wc / 64 % 64) ∷ (0x80 + wc % 64) ∷ [],
        ground arith,
        ground arith,
      )
      | no n3 ↦ (
        (0xF0 + wc / 262144)
            ∷ (0x80 + wc / 4096 % 64)
            ∷ (0x80 + wc / 64 % 64)
            ∷ (0x80 + wc % 64)
            ∷ [],
        ground arith,
        ground arith,
      )
    ]
  ]
]
