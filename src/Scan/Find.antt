-- ===== src/Scan/Find.antt =====
-- strchr, strrchr and strpbrk: which byte of a string they find.
use jaclibc.Base.{
  ℕ, zero, suc, ◌+◌, ◌%◌, ◌≤◌, ◌<◌, ◌≡◌, ◌≢◌, ◌⊎◌, inl, inr, List, [], ◌∷◌, Option, some, none,
  length, arith, ◌==◌, if◌then◌else◌, get_or, ℕ_discrete, sym,
}
use jaclibc.Memory.{Memory, Ptr, IsString}
use mathlib.Core.Option
use jaclibc.Scan.{find_char, strchr, find_last, strrchr}

-- The index of the first c of a string, or of its NUL where c is 0; none where there is no c.
abbrev pub first_index : List ℕ → ℕ → Option ℕ
first_index [] c = if c == 0 then some 0 else none
first_index (x ∷ xs) c =
    let rest = Option.map suc (first_index xs c) in if x == c then some 0 else rest

abbrev pub last_index : List ℕ → ℕ → Option ℕ
last_index [] c = if c == 0 then some 0 else none
last_index (x ∷ xs) c =
    let rest = last_index xs c in
    elim rest [ some i ↦ some (suc i) | none ↦ if x == c then some 0 else none ]

-- The address of an index, and NULL for none.
abbrev pub address : Ptr → Option ℕ → Ptr
address s none = 0
address s (some i) = s + i

find_char_lem :
    (cs : List ℕ) (f : ℕ) (m : Memory) (s c : ℕ)
    → IsString m s cs
    → length cs < f
    → find_char f m s c ≡ some (address s (first_index cs (c % 256)))
unfolding find_char
find_char_lem cs zero m s c h lt = absurd (omega arith)
find_char_lem [] (suc f) m s c h lt = ground arith
find_char_lem (x ∷ xs) (suc f) m s c h lt =
    ground (arith, h.1, find_char_lem xs f m (s + 1) c h.2 (omega arith))

find_last_lem :
    (cs : List ℕ) (f : ℕ) (m : Memory) (s c r : ℕ)
    → IsString m s cs
    → length cs < f
    → find_last f m s c r ≡ some (elim (last_index cs (c % 256)) [ none ↦ r | some i ↦ s + i ])
unfolding find_last
find_last_lem cs zero m s c r h lt = absurd (omega arith)
find_last_lem [] (suc f) m s c r h lt = ground arith
find_last_lem (x ∷ xs) (suc f) m s c r h lt =
    ground (
      arith,
      h.1,
      find_last_lem xs f m (s + 1) c (if m s == c % 256 then s else r) h.2 (omega arith),
    )

-- What `first_index` means, with the NUL read as the byte at the string's length.
first_index_lem :
    (cs : List ℕ) (c : ℕ)
    → ((first_index cs c ≡ none) × ((j : ℕ) → j ≤ length cs → get_or cs j 0 ≢ c))
      ⊎ ((j : ℕ) × (first_index cs c ≡ some j)
          × (j ≤ length cs)
          × (get_or cs j 0 ≡ c)
          × ((k : ℕ) → k < j → get_or cs k 0 ≢ c))
first_index_lem [] c = elim (ℕ_discrete c 0) [
  | yes e ↦ inr (0, ground arith, omega arith, sym e, λ k lt. absurd (omega arith))
  | no ne ↦ inl (ground arith, λ j le e. ne (sym e))
]
first_index_lem (x ∷ xs) c = elim (ℕ_discrete x c) [
  | yes e ↦ inr (0, ground arith, omega arith, e, λ k lt. absurd (omega arith))
  | no ne ↦ elim (first_index_lem xs c) [
    | inl (e, absent) ↦
        inl (ground arith, elim [ zero ↦ λ le. ne | suc j ↦ λ le. absent j (omega arith) ])
    | inr (j, e, le, at, before) ↦ inr (
      suc j,
      ground arith,
      omega arith,
      at,
      elim [ zero ↦ λ lt. ne | suc k ↦ λ lt. before k (omega arith) ],
    )
  ]
]

last_index_lem :
    (cs : List ℕ) (c : ℕ)
    → ((last_index cs c ≡ none) × ((j : ℕ) → j ≤ length cs → get_or cs j 0 ≢ c))
      ⊎ ((j : ℕ) × (last_index cs c ≡ some j)
          × (j ≤ length cs)
          × (get_or cs j 0 ≡ c)
          × ((k : ℕ) → j < k → k ≤ length cs → get_or cs k 0 ≢ c))
last_index_lem [] c = elim (ℕ_discrete c 0) [
  | yes e ↦ inr (0, ground arith, omega arith, sym e, λ k lt le. absurd (omega arith))
  | no ne ↦ inl (ground arith, λ j le e. ne (sym e))
]
last_index_lem (x ∷ xs) c = elim (last_index_lem xs c) [
  | inr (j, e, le, at, after) ↦ inr (
    suc j,
    rw e,
    omega arith,
    at,
    elim [
      | zero ↦ λ lt le'. absurd (omega arith)
      | suc k ↦ λ lt le'. after k (omega arith) (omega arith)
    ],
  )
  | inl (e, absent) ↦ elim (ℕ_discrete x c) [
    | yes same ↦ inr (
      0,
      rw e (ground arith),
      omega arith,
      same,
      elim [ zero ↦ λ lt le'. absurd (omega arith) | suc k ↦ λ lt le'. absent k (omega arith) ],
    )
    | no ne ↦
        inl (rw e (ground arith), elim [ zero ↦ λ le. ne | suc j ↦ λ le. absent j (omega arith) ])
  ]
]

module _ (cs : List ℕ) (f : ℕ) (m : Memory) (s c : ℕ) (not_null : s ≢ 0) (h : IsString m s cs)
    (fuel : length cs < f) where
  -- strchr returns the address of the first byte of the string, its NUL included, that is the low
  -- byte of c, and NULL exactly where there is none. One round for each byte and one for the NUL are
  -- enough fuel. s is not NULL.
  pub strchr_lem :
      ((strchr f m s c ≡ some 0) × ((j : ℕ) → j ≤ length cs → get_or cs j 0 ≢ c % 256))
      ⊎ ((j : ℕ) × (strchr f m s c ≡ some (s + j))
          × (j ≤ length cs)
          × (get_or cs j 0 ≡ c % 256)
          × ((k : ℕ) → k < j → get_or cs k 0 ≢ c % 256))
  unfolding strchr
  strchr_lem =
      let run = find_char_lem cs f m s c h fuel in
      elim (first_index_lem cs (c % 256)) [
        | inl (e, absent) ↦ inl (ground arith, absent)
        | inr (j, e, le, at, before) ↦ inr (j, ground arith, le, at, before)
      ]

  -- strrchr returns the address of the last byte of the string, its NUL included, that is the low
  -- byte of c, and NULL exactly where there is none, under the same conditions.
  pub strrchr_lem :
      ((strrchr f m s c ≡ some 0) × ((j : ℕ) → j ≤ length cs → get_or cs j 0 ≢ c % 256))
      ⊎ ((j : ℕ) × (strrchr f m s c ≡ some (s + j))
          × (j ≤ length cs)
          × (get_or cs j 0 ≡ c % 256)
          × ((k : ℕ) → j < k → k ≤ length cs → get_or cs k 0 ≢ c % 256))
  unfolding strrchr
  strrchr_lem =
      let run = find_last_lem cs f m s c 0 h fuel in
      elim (last_index_lem cs (c % 256)) [
        | inl (e, absent) ↦ inl (ground arith, absent)
        | inr (j, e, le, at, after) ↦ inr (j, ground arith, le, at, after)
      ]
