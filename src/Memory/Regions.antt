-- ===== src/Memory/Regions.antt =====
-- Memories that agree on a region, and apart regions.
use jaclibc.Base.{ℕ, ◌+◌, ◌≤◌, ◌<◌, ◌≡◌, ◌≢◌, ◌⊎◌, List, [], ◌∷◌, length, arith, ◌∙◌}
use jaclibc.Memory.{Memory, Ptr, IsString, store}

-- The n bytes from p on are the same in both memories.
abbrev pub SameAt : Memory → Memory → Ptr → ℕ → Type 0
SameAt m m' p n = (i : ℕ) → i < n → m' (p + i) ≡ m (p + i)

-- m' differs from m within the n bytes from p on at most.
abbrev pub SameOutside : Memory → Memory → Ptr → ℕ → Type 0
SameOutside m m' p n = (q : ℕ) → (q < p) ⊎ (p + n ≤ q) → m' q ≡ m q

-- Two regions with no byte in common.
abbrev pub IsApart : Ptr → ℕ → Ptr → ℕ → Type 0
IsApart p n q k = (p + n ≤ q) ⊎ (q + k ≤ p)

pub store-at : (m : Memory) (p v : ℕ) → store m p v p ≡ v
store-at m p v = ground arith

pub store-off : (m : Memory) (p q v : ℕ) → q ≢ p → store m p v q ≡ m q
store-off m p q v ne = ground arith

-- A byte of a string is read by its index.
pub IsString-head : (m : Memory) (p : Ptr) (c : ℕ) (cs : List ℕ) → IsString m p (c ∷ cs) → m p ≢ 0
IsString-head m p c cs h e = h.1 (omega arith)

-- A string stays where its bytes and its NUL are not written.
pub IsString-frame :
    (cs : List ℕ) (m m' : Memory) (p : Ptr)
    → ((q : ℕ) → p ≤ q → q ≤ p + length cs → m' q ≡ m q)
    → IsString m p cs
    → IsString m' p cs
IsString-frame [] m m' p same h = same p (omega arith) (omega arith) ∙ h
IsString-frame (c ∷ cs) m m' p same h = (
  same p (omega arith) (omega arith) ∙ h.0,
  h.1,
  IsString-frame cs m m' (p + 1) (λ q lo hi. same q (omega arith) (omega arith)) h.2,
)
