-- ===== src/Utf/Trip.antt =====
-- Encoding and decoding one character.
use jaclibc.Base.{
  ℕ, ◌+◌, ◌/◌, ◌%◌, ◌≤◌, ◌<◌, ◌≡◌, ◌⊎◌, true, List, [], ◌∷◌, ◌++◌, some, length, arith, dec_lt,
  ◌==◌, if◌then◌else◌,
}
use jaclibc.Utf.{done, mbrtowc, wcrtomb, read2, read3, read4}

-- A code that Unicode gives to characters.
abbrev pub IsScalar : ℕ → Type 0
IsScalar wc = (wc < 0xD800) ⊎ ((0xE000 ≤ wc) × (wc < 0x110000))

-- wcrtomb encodes every character, in four bytes at most, and mbrtowc reads the character back
-- from these bytes, whatever follows, and returns their number, or 0 for NUL.
pub mbrtowc-wcrtomb :
    (wc : ℕ) (more : List ℕ)
    → IsScalar wc
    → (s : List ℕ) × (wcrtomb wc ≡ some s)
      × (length s ≤ 4)
      × (mbrtowc true (s ++ more) ≡ done (if wc == 0 then 0 else length s) wc)
unfolding wcrtomb mbrtowc read2 read3 read4
mbrtowc-wcrtomb wc more valid = elim (dec_lt wc 0x80) [
  | yes one ↦ (wc ∷ [], ground arith, omega arith, ground arith)
  | no n1 ↦ elim (dec_lt wc 0x800) [
    | yes two ↦ ((0xC0 + wc / 64) ∷ (0x80 + wc % 64) ∷ [], ground arith, omega arith, ground arith)
    | no n2 ↦ elim (dec_lt wc 0x10000) [
      | yes three ↦ (
        (0xE0 + wc / 4096) ∷ (0x80 + wc / 64 % 64) ∷ (0x80 + wc % 64) ∷ [],
        ground arith,
        omega arith,
        ground arith,
      )
      | no n3 ↦ (
        (0xF0 + wc / 262144)
            ∷ (0x80 + wc / 4096 % 64)
            ∷ (0x80 + wc / 64 % 64)
            ∷ (0x80 + wc % 64)
            ∷ [],
        ground arith,
        omega arith,
        ground arith,
      )
    ]
  ]
]
