-- ===== src/Tests/Bytes.antt =====
-- Runs of the mem* routines of include/string.h.
use jaclibc.Base.{ℕ, ◌≡◌, ◌≢◌, inl, ◌⊎◌, ◌<◌, ◌≤◌, ◌+◌, negsuc, arith}
use jaclibc.Mem.{memset, memmove, memcpy, memcmp, memchr, memmem}
use jaclibc.Mem.Copy.{memset_lem, memmove_lem, memcpy_lem}
use jaclibc.Mem.Find.{memcmp_lem, memchr_lem, memmem_lem, SameBytes}
use jaclibc.Tests.{sample_memory}

memset_run : (memset sample_memory 20 300 3).1 21 ≡ 44
memset_run = (memset_lem sample_memory 20 300 3 (omega arith)).1 21 (omega arith) (omega arith)

-- The two regions overlap.
memmove_lem_example : (memmove sample_memory 3 1 4).1 (3 + 2) ≡ sample_memory (1 + 2)
memmove_lem_example =
    (memmove_lem sample_memory 3 1 4 (omega arith) (omega arith)).1 2 (omega arith)

memcpy_run : (memcpy sample_memory 1 3 4).1 (1 + 2) ≡ sample_memory (3 + 2)
memcpy_run =
    (memcpy_lem sample_memory 1 3 4 (omega arith) (omega arith) (inl (omega arith))).1 2
      (omega arith)

memcmp_run : memcmp sample_memory 6 8 2 ≡ negsuc 0
memcmp_run =
    ((memcmp_lem sample_memory 6 8 2 (omega arith) (omega arith)).1 0 (omega arith)
        (λ k lt. absurd (omega arith))).0
      (omega arith)

memchr_run :
    ((memchr sample_memory 1 300 4 ≡ 0) × ((j : ℕ) → j < 4 → sample_memory (1 + j) ≢ 44))
    ⊎ ((j : ℕ) × (j < 4)
        × (memchr sample_memory 1 300 4 ≡ 1 + j)
        × (sample_memory (1 + j) ≡ 44)
        × ((k : ℕ) → k < j → sample_memory (1 + k) ≢ 44))
memchr_run = memchr_lem sample_memory 1 300 4 (omega arith)

memmem_run :
    ((memmem sample_memory 1 4 8 2 ≡ 0)
      × ((j : ℕ) → j + 2 ≤ 4 → ¬ SameBytes sample_memory (1 + j) 8 2))
    ⊎ ((j : ℕ) × (j + 2 ≤ 4)
        × (memmem sample_memory 1 4 8 2 ≡ 1 + j)
        × SameBytes sample_memory (1 + j) 8 2
        × ((k : ℕ) → k < j → ¬ SameBytes sample_memory (1 + k) 8 2))
memmem_run = memmem_lem sample_memory 1 4 8 2 (omega arith) (omega arith) (omega arith)
