-- ===== src/Str/Length.antt =====
-- strlen and strnlen on a string that stands in the memory.
use jaclibc.Base.{ℕ, zero, suc, ◌+◌, ◌<◌, ◌≡◌, ◌≢◌, List, [], ◌∷◌, some, length, arith, min}
use jaclibc.Memory.{Memory, Ptr, IsString}
use jaclibc.Str.{length_loop, strlen, bounded_length, strnlen}

pub length_loop_lem :
    (cs : List ℕ) (f : ℕ) (m : Memory) (s i p : ℕ)
    → p ≡ s + i
    → IsString m p cs
    → length cs < f
    → length_loop f m s i ≡ some (i + length cs)
unfolding length_loop
length_loop_lem cs zero m s i p e h lt = absurd (omega arith)
length_loop_lem [] (suc f) m s i p e h lt = ground arith
length_loop_lem (c ∷ cs) (suc f) m s i p e h lt =
    ground (arith, h.1, length_loop_lem cs f m s (i + 1) (p + 1) (omega arith) h.2 (omega arith))

-- strlen returns the number of bytes before the NUL: one round for each byte and one for the NUL
-- are enough fuel. s is not NULL.
pub strlen_lem :
    (cs : List ℕ) (f : ℕ) (m : Memory) (s : Ptr)
    → s ≢ 0
    → IsString m s cs
    → length cs < f
    → strlen f m s ≡ some (length cs)
unfolding strlen
strlen_lem cs f m s hs h lt = ground (arith, length_loop_lem cs f m s 0 s (omega arith) h lt)

bounded_length_lem :
    (cs : List ℕ) (left i : ℕ) (m : Memory) (s p : ℕ)
    → p ≡ s + i
    → IsString m p cs
    → bounded_length left i m s ≡ i + min left (length cs)
unfolding bounded_length
bounded_length_lem cs zero i m s p e h = omega arith
bounded_length_lem [] (suc left) i m s p e h = ground arith
bounded_length_lem (c ∷ cs) (suc left) i m s p e h =
    ground (arith, h.1, bounded_length_lem cs left (i + 1) m s (p + 1) (omega arith) h.2)

-- strnlen returns the length of the string or the bound, whichever is less. s is not NULL.
pub strnlen_lem :
    (cs : List ℕ) (m : Memory) (s : Ptr) (n : ℕ)
    → s ≢ 0
    → IsString m s cs
    → strnlen m s n ≡ min n (length cs)
unfolding strnlen
strnlen_lem cs m s n hs h = ground (arith, bounded_length_lem cs n 0 m s s (omega arith) h)
