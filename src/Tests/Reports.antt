-- ===== src/Tests/Reports.antt =====
-- Runs of strerror_r, strdup and strndup.
use jaclibc.Base.{
  ℕ, ◌≡◌, ◌≤◌, ◌<◌, ◌⊎◌, ◌+◌, ◌-◌, inr, inl, refl, arith, some, pos, get_or, ltb, if◌then◌else◌,
  List, [], ◌∷◌,
}
use jaclibc.Memory.{Memory, IsString}
use jaclibc.Messages.{strerror_r, strdup, strndup, erange, error_message}
use jaclibc.Messages.Copies.{strdup_lem, strndup_lem}
use jaclibc.Messages.Errors.{strerror_r_lem}
use jaclibc.Tests.{sample_memory, word_text, word_there}

strdup_run : strdup 5 sample_memory 0 0 8 ≡ some (0, sample_memory, 0)
strdup_run =
    (strdup_lem word_text 5 sample_memory 0 0 8 (omega arith) word_there (omega arith)
        (inl (omega arith))).0
      refl

strndup_run : (strndup sample_memory 0 20 8 1).0 ≡ 20
strndup_run =
    (strndup_lem word_text sample_memory 0 20 8 1 (omega arith) (omega arith) word_there
      (inr (omega arith))).0

-- "I/O error" at 100.
abbrev io_error_text : List ℕ
io_error_text = 73 ∷ 47 ∷ 79 ∷ 32 ∷ 101 ∷ 114 ∷ 114 ∷ 111 ∷ 114 ∷ []

abbrev message_memory : Memory
message_memory q = if ltb q 100 then 0 else get_or io_error_text (q - 100) 0

io_error_there : IsString message_memory 100 io_error_text
io_error_there = ground arith

-- Four bytes have room for "I/O".
strerror_r_run :
    (m' : Memory) × (strerror_r (λ text. 100) 64 message_memory 200 (pos 5) 300 4
      ≡ some (erange, m'))
    × IsString m' 300 (73 ∷ 47 ∷ 79 ∷ [])
    × ((q : ℕ) → (q < 300) ⊎ (300 + 4 ≤ q) → (q < 200) ⊎ (200 + 64 ≤ q) → m' q ≡ message_memory q)
unfolding error_message
strerror_r_run =
    strerror_r_lem (λ text. 100) 64 message_memory 200 (pos 5) 300 4 (omega arith) (omega arith)
      (omega arith) (omega arith) (omega arith) io_error_there (inr (omega arith))
      (inr (omega arith))
