-- ===== src/Memory.antt =====
-- The memory that the routines of include/string.h and include/strings.h read and write: a byte
-- at each address. A pointer is its address, and 0 is NULL. An object does not wrap round the end
-- of the address space, so a pointer plus an offset is a plain sum.
pub mod Regions
use jaclibc.Base.{ℕ, zero, suc, ◌+◌, ◌≡◌, ◌≢◌, List, [], ◌∷◌, ◌==◌, if◌then◌else◌}

abbrev pub Memory : Type 0
Memory = ℕ → ℕ

abbrev pub Ptr : Type 0
Ptr = ℕ

abbrev pub null : Ptr
null = 0

-- *p = v
abbrev pub store : Memory → Ptr → ℕ → Memory
store m p v q = if q == p then v else m q

-- The n bytes from p on.
abbrev pub bytes_at : Memory → Ptr → ℕ → List ℕ
bytes_at m p zero = []
bytes_at m p (suc n) = m p ∷ bytes_at m (p + 1) n

-- A NUL-terminated string with the bytes cs stands at p.
abbrev pub IsString : Memory → Ptr → List ℕ → Type 0
IsString m p [] = m p ≡ 0
IsString m p (c ∷ cs) = (m p ≡ c) × (c ≢ 0) × IsString m (p + 1) cs
