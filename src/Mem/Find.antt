-- ===== src/Mem/Find.antt =====
-- memcmp, memchr, memmem and memccpy: what they find, and that they find the first.
use jaclibc.Base.{
  ℕ, zero, suc, ◌+◌, ◌-◌, ◌%◌, ◌≤◌, ◌<◌, ◌≡◌, ◌≢◌, ◌⊎◌, ◌↔◌, inl, inr, arith, refl, ℤ, pos, negsuc,
  ◌==◌, Bool-cases, extend_down,
}
use jaclibc.Memory.{Memory, Ptr}
use jaclibc.Mem.{compare_loop, memcmp, find_loop, memchr, window_loop, memmem}

-- The n bytes at a and at b are equal.
abbrev pub SameBytes : Memory → Ptr → Ptr → ℕ → Type 0
SameBytes m a b n = (i : ℕ) → i < n → m (a + i) ≡ m (b + i)

zero_cases : (r : ℤ) → (r ≡ pos 0) ⊎ (r ≢ pos 0)
zero_cases (pos zero) = inl refl
zero_cases (pos (suc n)) = inr (λ e. cc)
zero_cases (negsuc n) = inr (λ e. cc)

compare_loop-same :
    (left i : ℕ) (m : Memory) (x y : Ptr)
    → ((j : ℕ) → i ≤ j → j < i + left → m (x + j) ≡ m (y + j))
    → compare_loop left i m x y ≡ pos 0
unfolding compare_loop
compare_loop-same zero i m x y h = refl
compare_loop-same (suc left) i m x y h =
    let here : m (x + i) ≡ m (y + i) = h i (omega arith) (omega arith) in
    let rest : compare_loop left (i + 1) m x y ≡ pos 0 =
      compare_loop-same left (i + 1) m x y (λ j lo hi. h j (omega arith) (omega arith)) in
    ground arith

-- The sign is that of the first difference, as numbers from 0 to 255.
compare_loop-first :
    (left i : ℕ) (m : Memory) (x y : Ptr) (j : ℕ)
    → i ≤ j
    → j < i + left
    → ((k : ℕ) → i ≤ k → k < j → m (x + k) ≡ m (y + k))
    → (m (x + j) < m (y + j) → compare_loop left i m x y ≡ negsuc 0)
      × (m (y + j) < m (x + j) → compare_loop left i m x y ≡ pos 1)
unfolding compare_loop
compare_loop-first zero i m x y j lo hi same = absurd (omega arith)
compare_loop-first (suc left) i m x y j lo hi same = elim (Bool-cases (i == j)) [
  | inl e ↦ (λ lt. ground arith, λ gt. ground arith)
  | inr ne ↦
      let here : m (x + i) ≡ m (y + i) = same i (omega arith) (ground arith) in
      let rest =
        compare_loop-first left (i + 1) m x y j (ground arith) (omega arith)
          (λ k lo' hi'. same k (omega arith) hi') in
      (λ lt. ground (arith, rest.0 lt), λ gt. ground (arith, rest.1 gt))
]

compare_loop-zero :
    (left i : ℕ) (m : Memory) (x y : Ptr)
    → compare_loop left i m x y ≡ pos 0
    → (j : ℕ) → i ≤ j
    → j < i + left
    → m (x + j) ≡ m (y + j)
unfolding compare_loop
compare_loop-zero zero i m x y h j lo hi = absurd (omega arith)
compare_loop-zero (suc left) i m x y h j lo hi = elim (Bool-cases (i == j)) [
  | inl e ↦ ground arith
  | inr ne ↦ compare_loop-zero left (i + 1) m x y (ground arith) j (ground arith) (omega arith)
]

-- For pointers other than NULL, memcmp is 0 exactly where the two regions hold the same bytes, and
-- else is -1 or 1 as the first byte that differs is less or greater at a.
pub memcmp_lem :
    (m : Memory) (a b : Ptr) (n : ℕ)
    → a ≢ 0
    → b ≢ 0
    → ((memcmp m a b n ≡ pos 0) ↔ SameBytes m a b n)
      × ((j : ℕ)
          → j < n
          → SameBytes m a b j
          → (m (a + j) < m (b + j) → memcmp m a b n ≡ negsuc 0)
            × (m (b + j) < m (a + j) → memcmp m a b n ≡ pos 1))
unfolding memcmp
memcmp_lem m a b n ha hb = (
  (
    λ e i lt. compare_loop-zero n 0 m a b (ground arith) i (omega arith) (omega arith),
    λ same. ground (arith, compare_loop-same n 0 m a b (λ j _ lt. same j (omega arith))),
  ),
  λ j lt same.
      let first =
        compare_loop-first n 0 m a b j (omega arith) (omega arith) (λ k _ k<j. same k k<j) in
      (λ less. ground (arith, first.0 less), λ more. ground (arith, first.1 more)),
)

find_loop_lem :
    (left i : ℕ) (m : Memory) (p c : ℕ)
    → ((find_loop left i m p c ≡ 0) × ((j : ℕ) → i ≤ j → j < i + left → m (p + j) ≢ c % 256))
      ⊎ ((j : ℕ) × (i ≤ j)
          × (j < i + left)
          × (find_loop left i m p c ≡ p + j)
          × (m (p + j) ≡ c % 256)
          × ((k : ℕ) → i ≤ k → k < j → m (p + k) ≢ c % 256))
unfolding find_loop
find_loop_lem zero i m p c = inl (refl, λ j lo hi. absurd (omega arith))
find_loop_lem (suc left) i m p c = elim (Bool-cases (m (p + i) == c % 256)) [
  | inl e ↦
      inr (i, omega arith, omega arith, ground arith, ground arith, λ k lo hi. absurd (omega arith))
  | inr ne ↦ elim (find_loop_lem left (i + 1) m p c) [
    | inl (e, no_byte) ↦ inl (
      ground arith,
      extend_down (λ j. m (p + j) ≢ c % 256) i (i + suc left) (ground arith)
          (λ j lo hi. no_byte j lo (omega arith)),
    )
    | inr (j, lo, hi, e, at, before) ↦ inr (
      j,
      omega arith,
      omega arith,
      ground arith,
      at,
      extend_down (λ k. m (p + k) ≢ c % 256) i j (ground arith) before,
    )
  ]
]

-- memchr returns the address of the first of the n bytes from s on that is the low byte of c, and
-- NULL exactly where none of them is. s is not NULL.
pub memchr_lem :
    (m : Memory) (s c n : ℕ)
    → s ≢ 0
    → ((memchr m s c n ≡ 0) × ((j : ℕ) → j < n → m (s + j) ≢ c % 256))
      ⊎ ((j : ℕ) × (j < n)
          × (memchr m s c n ≡ s + j)
          × (m (s + j) ≡ c % 256)
          × ((k : ℕ) → k < j → m (s + k) ≢ c % 256))
unfolding memchr
memchr_lem m s c n h = elim (find_loop_lem n 0 m s c) [
  | inl (e, no_byte) ↦ inl (ground arith, λ j lt. no_byte j (omega arith) (omega arith))
  | inr (j, lo, hi, e, at, before) ↦
      inr (j, omega arith, ground arith, at, λ k lt. before k (omega arith) lt)
]

window_loop_lem :
    (left i : ℕ) (m : Memory) (h ndl : Ptr) (nl : ℕ)
    → h ≢ 0
    → ndl ≢ 0
    → ((window_loop left i m h ndl nl ≡ 0)
        × ((j : ℕ) → i ≤ j → j < i + left → ¬ SameBytes m (h + j) ndl nl))
      ⊎ ((j : ℕ) × (i ≤ j)
          × (j < i + left)
          × (window_loop left i m h ndl nl ≡ h + j)
          × SameBytes m (h + j) ndl nl
          × ((k : ℕ) → i ≤ k → k < j → ¬ SameBytes m (h + k) ndl nl))
unfolding window_loop
window_loop_lem zero i m h ndl nl hh hn = inl (refl, λ j lo hi. absurd (omega arith))
window_loop_lem (suc left) i m h ndl nl hh hn = elim (zero_cases (memcmp m (h + i) ndl nl)) [
  | inl e ↦
      inr (i, omega arith, omega arith, ground arith, same.0 e, λ k lo hi. absurd (omega arith))
  | inr ne ↦ elim (window_loop_lem left (i + 1) m h ndl nl hh hn) [
    | inl (e, none_at) ↦ inl (
      ground arith,
      extend_down (λ j. ¬ SameBytes m (h + j) ndl nl) i (i + suc left) (λ b. ne (same.1 b))
          (λ j lo hi. none_at j lo (omega arith)),
    )
    | inr (j, lo, hi, e, at, before) ↦ inr (
      j,
      omega arith,
      omega arith,
      ground arith,
      at,
      extend_down (λ k. ¬ SameBytes m (h + k) ndl nl) i j (λ b. ne (same.1 b)) before,
    )
  ]
]
  where
    same : (memcmp m (h + i) ndl nl ≡ pos 0) ↔ SameBytes m (h + i) ndl nl
    same = (memcmp_lem m (h + i) ndl nl (omega arith) hn).0

-- memmem returns the first place of the haystack where the needle's bytes stand, and NULL exactly
-- where they stand nowhere in it, for a needle that is not the longer and pointers other than NULL.
pub memmem_lem :
    (m : Memory) (h : Ptr) (hl : ℕ) (ndl : Ptr) (nl : ℕ)
    → h ≢ 0
    → ndl ≢ 0
    → nl ≤ hl
    → ((memmem m h hl ndl nl ≡ 0) × ((j : ℕ) → j + nl ≤ hl → ¬ SameBytes m (h + j) ndl nl))
      ⊎ ((j : ℕ) × (j + nl ≤ hl)
          × (memmem m h hl ndl nl ≡ h + j)
          × SameBytes m (h + j) ndl nl
          × ((k : ℕ) → k < j → ¬ SameBytes m (h + k) ndl nl))
unfolding memmem
memmem_lem m h hl ndl nl hh hn fits = elim (window_loop_lem (hl - nl + 1) 0 m h ndl nl hh hn) [
  | inl (e, none_at) ↦ inl (ground arith, λ j le. none_at j (omega arith) (omega arith))
  | inr (j, lo, hi, e, at, before) ↦
      inr (j, omega arith, ground arith, at, λ k lt. before k (omega arith) lt)
]
