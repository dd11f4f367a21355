-- ===== src/Tests/Scanning.antt =====
-- Runs of the routines that search a string and cut it into tokens.
use jaclibc.Base.{ℕ, ◌≡◌, ◌≢◌, ◌⊎◌, ◌<◌, ◌≤◌, ◌+◌, refl, arith, some, [], ◌∷◌, get_or}
use jaclibc.Memory.{Ptr, IsString}
use jaclibc.Scan.{strchr, strrchr, strspn, strcspn, strtok_r, Token}
use jaclibc.Scan.Find.{strchr_lem, strrchr_lem}
use jaclibc.Scan.Tokens.{strspn_lem, AreBytes}
use jaclibc.Scan.Cut.{strtok_r_lem, strtok_r_end}
use jaclibc.Tests.{sample_memory, list_text, word_text, comma_text, list_there, comma_there}

list_AreBytes : AreBytes list_text
list_AreBytes = (omega arith, (omega arith, (omega arith, (omega arith, tt))))

strchr_run :
    ((strchr 5 sample_memory 1 44 ≡ some 0) × ((j : ℕ) → j ≤ 4 → get_or list_text j 0 ≢ 44))
    ⊎ ((j : ℕ) × (strchr 5 sample_memory 1 44 ≡ some (1 + j))
        × (j ≤ 4)
        × (get_or list_text j 0 ≡ 44)
        × ((k : ℕ) → k < j → get_or list_text k 0 ≢ 44))
strchr_run = strchr_lem list_text 5 sample_memory 1 44 (omega arith) list_there (omega arith)

strrchr_run :
    ((strrchr 5 sample_memory 1 256 ≡ some 0) × ((j : ℕ) → j ≤ 4 → get_or list_text j 0 ≢ 0))
    ⊎ ((j : ℕ) × (strrchr 5 sample_memory 1 256 ≡ some (1 + j))
        × (j ≤ 4)
        × (get_or list_text j 0 ≡ 0)
        × ((k : ℕ) → j < k → k ≤ 4 → get_or list_text k 0 ≢ 0))
strrchr_run = strrchr_lem list_text 5 sample_memory 1 256 (omega arith) list_there (omega arith)

strspn_run : (strspn 5 sample_memory 1 6 ≡ some 0) × (strcspn 5 sample_memory 1 6 ≡ some 2)
strspn_run =
    strspn_lem list_text comma_text 5 sample_memory 1 6 (omega arith) (omega arith) list_AreBytes
      list_there comma_there (omega arith) (omega arith)

strtok_r_lem_example :
    (t : Token) × (strtok_r 5 sample_memory 1 6 0 ≡ some t)
    × (t.start ≡ 1)
    × IsString t.mem t.start word_text
    × IsString t.mem t.save (99 ∷ [])
    × ((q : Ptr) → q ≢ 3 → t.mem q ≡ sample_memory q)
strtok_r_lem_example =
    strtok_r_lem list_text comma_text 5 sample_memory 1 6 0 1 refl (omega arith) (omega arith)
      list_AreBytes list_there comma_there (omega arith) (omega arith) (omega arith)

-- The string of delimiters only is gone through from the saved pointer.
strtok_r_end_run :
    strtok_r 5 sample_memory 0 6 6 ≡ some (record { start = 0; save = 0; mem = sample_memory })
strtok_r_end_run =
    strtok_r_end comma_text comma_text 5 sample_memory 0 6 6 6 refl (omega arith) (omega arith)
      (omega arith, tt) comma_there comma_there (omega arith) (omega arith) refl
