-- ===== src/Str/Bounded.antt =====
-- The copies with a bound on the destination: strlcpy, strlcat, strncpy.
use jaclibc.Base.{
  ℕ, zero, suc, ◌+◌, ◌-◌, ◌≤◌, ◌<◌, ◌≡◌, ◌≢◌, ◌⊎◌, inl, inr, List, [], ◌∷◌, ◌++◌, some, length,
  take, arith, min, ◌∙◌, leb, if◌then◌else◌, subst, ap, sym,
}
use jaclibc.Memory.{Memory, Ptr, IsString, store}
use jaclibc.Memory.Regions.{SameOutside, IsApart}
use jaclibc.Mem.{memcpy}
use jaclibc.Mem.Copy.{memcpy_lem}
use jaclibc.Str.{strlcpy, strlcat}
use jaclibc.Str.Length.{strlen_lem}
use jaclibc.Str.Copy.{IsString-append}

-- The first k bytes of a string, copied and closed by a NUL, are a string.
pub IsString-take :
    (cs : List ℕ) (k : ℕ) (m m' : Memory) (d s : Ptr)
    → k ≤ length cs
    → IsString m s cs
    → ((j : ℕ) → j < k → m' (d + j) ≡ m (s + j))
    → m' (d + k) ≡ 0
    → IsString m' d (take k cs)
IsString-take cs zero m m' d s le h same end = let e : d + 0 ≡ d = omega arith in rw e at end
IsString-take [] (suc k) m m' d s le h same end = absurd (omega arith)
IsString-take (c ∷ cs) (suc k) m m' d s le h same end =
    let shift : (j : ℕ) → (d + 1 + j ≡ d + suc j) × (s + 1 + j ≡ s + suc j) = λ j. omega arith in
    let zero_d : d + 0 ≡ d = omega arith in
    let zero_s : s + 0 ≡ s = omega arith in
    let first : m' (d + 0) ≡ m (s + 0) = same 0 (omega arith) in
    (
      ap m' (sym zero_d) ∙ first ∙ ap m zero_s ∙ h.0,
      h.1,
      IsString-take cs k m m' (d + 1) (s + 1) (omega arith) h.2
          (λ j lt. ap m' (shift j).0 ∙ same (suc j) (omega arith) ∙ ap m (sym (shift j).1))
          (ap m' (shift k).0 ∙ end),
    )

-- memcpy of the first k bytes of a string, and a NUL behind them.
pub copy_prefix :
    (cs : List ℕ) (k n : ℕ) (m : Memory) (d s : Ptr)
    → d ≢ 0
    → s ≢ 0
    → IsString m s cs
    → k ≤ length cs
    → k < n
    → IsApart d n s (length cs + 1)
    → let m' = store (memcpy m d s k).1 (d + k) 0 in
      IsString m' d (take k cs) × SameOutside m m' d n
copy_prefix cs k n m d s hd hs h le lt apart =
    let (_, inside, outside) = memcpy_lem m d s k hd hs (disjoint apart) in
    (
      IsString-take cs k m (store (memcpy m d s k).1 (d + k) 0) d s le h
          (λ j lt'. ground (arith, inside j)) (ground arith),
      λ q out. ground (arith, outside q),
    )
  where
    disjoint : IsApart d n s (length cs + 1) → (d ≤ s) ⊎ (s + k ≤ d)
    disjoint (inl p) = inl (omega arith)
    disjoint (inr p) = inr (omega arith)

-- strlcpy returns the length of the source. With room for n > 0 bytes the destination then holds
-- the first n - 1 bytes of the source at most, closed by a NUL, and no byte outside the n bytes of
-- the destination is written. The regions are apart, no pointer is NULL, and there is fuel for strlen.
pub strlcpy_lem :
    (cs : List ℕ) (f : ℕ) (m : Memory) (d s : Ptr) (n : ℕ)
    → d ≢ 0
    → s ≢ 0
    → 0 < n
    → IsString m s cs
    → IsApart d n s (length cs + 1)
    → length cs < f
    → (m' : Memory) × (strlcpy f m d s n ≡ some (length cs, m'))
      × IsString m' d (take (min (n - 1) (length cs)) cs)
      × SameOutside m m' d n
unfolding strlcpy
strlcpy_lem cs f m d s n hd hs room h apart lt =
    let k : ℕ = if leb n (length cs) then n - 1 else length cs in
    let e : k ≡ min (n - 1) (length cs) = ground arith in
    let (is, same) = copy_prefix cs k n m d s hd hs h (omega arith) (omega arith) apart in
    (
      store (memcpy m d s k).1 (d + k) 0,
      ground (arith, strlen_lem cs f m s hs h lt),
      subst (λ (t : ℕ). IsString (store (memcpy m d s k).1 (d + k) 0) d (take t cs)) e is,
      same,
    )

-- Where the string at the destination ends within the n bytes of the buffer, strlcat returns the sum of
-- the two lengths and puts as much of the source as fits behind it, closed by a NUL, and no byte
-- outside the buffer is written. The source is apart from the buffer, no pointer is NULL, and
-- there is fuel for both strlen calls.
pub strlcat_lem :
    (ds cs : List ℕ) (f : ℕ) (m : Memory) (d s : Ptr) (n : ℕ)
    → d ≢ 0
    → s ≢ 0
    → length ds < n
    → IsString m d ds
    → IsString m s cs
    → IsApart d n s (length cs + 1)
    → length ds < f
    → length cs < f
    → (m' : Memory) × (strlcat f m d s n ≡ some (length ds + length cs, m'))
      × IsString m' d (ds ++ take (min (n - 1 - length ds) (length cs)) cs)
      × SameOutside m m' (d + length ds) (n - length ds)
unfolding strlcat
strlcat_lem ds cs f m d s n hd hs room first h apart ltd lt =
    let k : ℕ = if leb n (length ds + length cs) then n - length ds - 1 else length cs in
    let e : k ≡ min (n - 1 - length ds) (length cs) = ground arith in
    let m' : Memory = store (memcpy m (d + length ds) s k).1 (d + length ds + k) 0 in
    let (is, same) =
      copy_prefix cs k (n - length ds) m (d + length ds) s (omega arith) hs h (omega arith)
        (omega arith) (omega arith) in
    (
      m',
      ground (arith, strlen_lem cs f m s hs h lt, strlen_lem ds f m d hd first ltd),
      IsString-append ds (take (min (n - 1 - length ds) (length cs)) cs) m m' d first
          (λ q below. same q (inl below))
          (subst (λ (t : ℕ). IsString m' (d + length ds) (take t cs)) e is),
      same,
    )

-- A buffer that is full already is left alone: strlcat then returns n and the length of the source.
pub strlcat_full :
    (ds cs : List ℕ) (f : ℕ) (m : Memory) (d s : Ptr) (n : ℕ)
    → d ≢ 0
    → s ≢ 0
    → n ≤ length ds
    → IsString m d ds
    → IsString m s cs
    → length ds < f
    → length cs < f
    → 0 < n
    → strlcat f m d s n ≡ some (n + length cs, m)
unfolding strlcat
strlcat_full ds cs f m d s n hd hs full first h ltd lt room =
    ground (arith, strlen_lem cs f m s hs h lt, strlen_lem ds f m d hd first ltd)
