-- ===== src/Str/Copy.antt =====
-- The copies of strings: what stands at the destination afterwards, and what stays as it was.
use jaclibc.Base.{
  ℕ, zero, suc, ◌+◌, ◌<◌, ◌≡◌, ◌≢◌, inl, List, [], ◌∷◌, ◌++◌, some, length, arith, ◌∙◌,
}
use jaclibc.Memory.{Memory, Ptr, IsString, store}
use jaclibc.Memory.Regions.{SameOutside, IsApart, IsString-frame}
use jaclibc.Str.{copy_string, strcpy, strcat}
use jaclibc.Str.Length.{strlen_lem}

-- The string cs is copied to p, and nothing else than its bytes and its NUL is written.
abbrev pub Copied : Memory → Memory → Ptr → List ℕ → Type 0
Copied m m' p cs = IsString m' p cs × SameOutside m m' p (length cs + 1)

copy_string_lem :
    (cs : List ℕ) (f : ℕ) (m : Memory) (p src : Ptr)
    → IsString m src cs
    → IsApart p (length cs + 1) src (length cs + 1)
    → length cs < f
    → (m' : Memory) × (copy_string f m p src ≡ some m') × Copied m m' p cs
unfolding copy_string
copy_string_lem cs zero m p src h apart lt = absurd (omega arith)
copy_string_lem [] (suc f) m p src h apart lt =
    (store m p (m src), ground arith, (ground arith, λ q out. ground arith))
copy_string_lem (c ∷ cs) (suc f) m p src h apart lt =
    let m1 = store m p (m src) in
    let (m', runs, done) =
      copy_string_lem cs f m1 (p + 1) (src + 1)
        (IsString-frame cs m m1 (src + 1) (λ q lo hi. ground arith) h.2) (omega arith)
        (omega arith) in
    (
      m',
      ground (arith, h.1),
      (
        (done.1 p (omega arith) ∙ ground arith, h.1, done.0),
        λ q out. done.1 q (omega arith) ∙ ground arith,
      ),
    )

-- strcpy returns its destination, where a copy of the string stands afterwards; nothing but the
-- copy's bytes and its NUL is written. The two regions are apart, no pointer is NULL, and one round
-- for each byte and one for the NUL are enough fuel.
pub strcpy_lem :
    (cs : List ℕ) (f : ℕ) (m : Memory) (d s : Ptr)
    → d ≢ 0
    → s ≢ 0
    → IsString m s cs
    → IsApart d (length cs + 1) s (length cs + 1)
    → length cs < f
    → (m' : Memory) × (strcpy f m d s ≡ some (d, m')) × Copied m m' d cs
unfolding strcpy
strcpy_lem cs f m d s hd hs h apart lt =
    let (m', runs, done) = copy_string_lem cs f m d s h apart lt in (m', ground (arith, runs), done)

-- A string that ends where another one begins makes one string with it.
pub IsString-append :
    (ds cs : List ℕ) (m m' : Memory) (d : Ptr)
    → IsString m d ds
    → ((q : ℕ) → q < d + length ds → m' q ≡ m q)
    → IsString m' (d + length ds) cs
    → IsString m' d (ds ++ cs)
IsString-append [] cs m m' d h same tail = let e : d ≡ d + 0 = omega arith in rw e tail
IsString-append (x ∷ ds) cs m m' d h same tail =
    let e : d + 1 + length ds ≡ d + suc (length ds) = omega arith in
    (
      same d (omega arith) ∙ h.0,
      h.1,
      IsString-append ds cs m m' (d + 1) h.2 (λ q lt. same q (omega arith)) (rw e tail),
    )

-- strcat returns its destination, where the two strings stand one after the other afterwards;
-- nothing is written but the bytes and the NUL behind the first string.
pub strcat_lem :
    (ds cs : List ℕ) (f : ℕ) (m : Memory) (d s : Ptr)
    → d ≢ 0
    → s ≢ 0
    → IsString m d ds
    → IsString m s cs
    → IsApart (d + length ds) (length cs + 1) s (length cs + 1)
    → length ds < f
    → length cs < f
    → (m' : Memory) × (strcat f m d s ≡ some (d, m'))
      × IsString m' d (ds ++ cs)
      × SameOutside m m' (d + length ds) (length cs + 1)
unfolding strcat
strcat_lem ds cs f m d s hd hs first second apart lt lt' =
    let (m', runs, done) = copy_string_lem cs f m (d + length ds) s second apart lt' in
    (
      m',
      ground (arith, runs, strlen_lem ds f m d hd first lt),
      IsString-append ds cs m m' d first (λ q below. done.1 q (inl below)) done.0,
      done.1,
    )
