-- ===== src/Messages/Copies.antt =====
-- What strerror_r, strdup and strndup leave in the memory they write.
use jaclibc.Base.{
  ℕ, zero, suc, ◌+◌, ◌≤◌, ◌<◌, ◌≡◌, ◌≢◌, ◌⊎◌, inl, inr, List, [], ◌∷◌, some, length, take, arith,
  min, refl, ltb, ℤ, pos, negsuc, get_or, ◌∙◌, ap, Bool, true, ◌&&◌, subst,
}
use jaclibc.Memory.{Memory, Ptr, IsString, store}
use jaclibc.Memory.Regions.{SameOutside, IsApart}
use jaclibc.Mem.{memcpy}
use jaclibc.Mem.Copy.{memcpy_lem}
use jaclibc.Str.Bounded.{copy_prefix, IsString-take}
use jaclibc.Str.Length.{strlen_lem, strnlen_lem}
use jaclibc.Messages.{error_message, put_message, strdup, strndup}
use jaclibc.Messages.Tables.{error_table, unknown_error}

IsString-end : (cs : List ℕ) (m : Memory) (s : Ptr) → IsString m s cs → m (s + length cs) ≡ 0
IsString-end [] m s h = let e : s + 0 ≡ s = omega arith in ap m e ∙ h
IsString-end (c ∷ cs) m s h =
    let e : s + suc (length cs) ≡ s + 1 + length cs = omega arith in
    ap m e ∙ IsString-end cs m (s + 1) h.2

pub take_all : (cs : List ℕ) → take (length cs) cs ≡ cs
take_all [] = refl
take_all (c ∷ cs) = ap (λ (xs : List ℕ). c ∷ xs) (take_all cs)

-- memcpy of a string with its NUL.
pub copy_whole :
    (cs : List ℕ) (n : ℕ) (m : Memory) (d s : Ptr)
    → d ≢ 0
    → s ≢ 0
    → IsString m s cs
    → length cs < n
    → IsApart d n s (length cs + 1)
    → let m' = (memcpy m d s (length cs + 1)).1 in
      ((memcpy m d s (length cs + 1)).0 ≡ d) × IsString m' d cs × SameOutside m m' d n
copy_whole cs n m d s hd hs h lt apart =
    let (back, inside, outside) = memcpy_lem m d s (length cs + 1) hd hs (disjoint apart) in
    let m' = (memcpy m d s (length cs + 1)).1 in
    (
      back,
      subst (λ (xs : List ℕ). IsString m' d xs) (take_all cs)
          (IsString-take cs (length cs) m m' d s (omega arith) h (λ j lt'. inside j (omega arith))
            (inside (length cs) (omega arith) ∙ IsString-end cs m s h)),
      λ q out. outside q (further out),
    )
  where
    disjoint : IsApart d n s (length cs + 1) → (d ≤ s) ⊎ (s + (length cs + 1) ≤ d)
    disjoint (inl p) = inl (omega arith)
    disjoint (inr p) = inr (omega arith)

    further : {q : ℕ} → (q < d) ⊎ (d + n ≤ q) → (q < d) ⊎ (d + (length cs + 1) ≤ q)
    further (inl p) = inl p
    further (inr p) = inr (omega arith)

abbrev all_short : List (List ℕ) → Bool
all_short [] = true
all_short (t ∷ ts) = ltb (length t) 64 && all_short ts

all_short_lem :
    (ts : List (List ℕ)) (n : ℕ) (d : List ℕ)
    → all_short ts ≡ true
    → length d < 64
    → length (get_or ts n d) < 64
all_short_lem [] n d h lt = lt
all_short_lem (t ∷ ts) zero d h lt = ground arith
all_short_lem (t ∷ ts) (suc n) d h lt = all_short_lem ts n d (ground arith) lt

pub error_message_short : (err : ℤ) → length (error_message err) < 64
unfolding error_message
error_message_short (pos n) = all_short_lem error_table n unknown_error refl (omega arith)
error_message_short (negsuc n) = omega arith

-- strdup returns the fresh memory, where a copy of the string then stands, and writes nothing but
-- the copy; without memory it returns NULL and writes nothing. The string is apart from the fresh
-- memory, s is not NULL, and there is fuel for strlen.
pub strdup_lem :
    (cs : List ℕ) (f : ℕ) (m : Memory) (errno fresh s : ℕ)
    → s ≢ 0
    → IsString m s cs
    → length cs < f
    → IsApart fresh (length cs + 1) s (length cs + 1)
    → (fresh ≡ 0 → strdup f m errno fresh s ≡ some (0, m, errno))
      × (fresh ≢ 0
          → (m' : Memory) × (strdup f m errno fresh s ≡ some (fresh, m', errno))
            × IsString m' fresh cs
            × SameOutside m m' fresh (length cs + 1))
unfolding strdup
strdup_lem cs f m errno fresh s hs h lt apart = (
  λ none_left. ground (arith, strlen_lem cs f m s hs h lt),
  λ some_left.
      let (back, is, same) =
        copy_whole cs (length cs + 1) m fresh s some_left hs h (omega arith) apart in
      (
        (memcpy m fresh s (length cs + 1)).1,
        ground (arith, strlen_lem cs f m s hs h lt, back),
        is,
        same,
      ),
)

-- strndup returns the fresh memory, where a copy of the first n bytes of the string, or of all of it
-- where it is shorter, then stands as a string, and writes nothing but the copy. Neither pointer is
-- NULL, and the string is apart from the fresh memory.
pub strndup_lem :
    (cs : List ℕ) (m : Memory) (errno fresh s n : ℕ)
    → s ≢ 0
    → fresh ≢ 0
    → IsString m s cs
    → IsApart fresh (min n (length cs) + 1) s (length cs + 1)
    → let (p, m', errno') = strndup m errno fresh s n in
      (p ≡ fresh)
      × (errno' ≡ errno)
      × IsString m' fresh (take (min n (length cs)) cs)
      × SameOutside m m' fresh (min n (length cs) + 1)
unfolding strndup
strndup_lem cs m errno fresh s n hs some_left h apart =
    let k = min n (length cs) in
    let (is, same) =
      copy_prefix cs k (k + 1) m fresh s some_left hs h (omega arith) (omega arith) apart in
    ground (arith, strnlen_lem cs m s n hs h, is, same)

pub put_message_lem :
    (cs : List ℕ) (f : ℕ) (m : Memory) (buffer msg : Ptr)
    → buffer ≢ 0
    → msg ≢ 0
    → IsString m msg cs
    → length cs < 64
    → length cs < f
    → IsApart buffer 64 msg (length cs + 1)
    → (m' : Memory) × (put_message f m buffer msg ≡ some (buffer, m'))
      × IsString m' buffer cs
      × SameOutside m m' buffer 64
unfolding put_message
put_message_lem cs f m buffer msg hb hm h short lt apart =
    let (is, same) = copy_prefix cs (length cs) 64 m buffer msg hb hm h (omega arith) short apart in
    let m' = store (memcpy m buffer msg (length cs)).1 (buffer + length cs) 0 in
    (
      m',
      ground (arith, strlen_lem cs f m msg hm h lt),
      subst (λ (xs : List ℕ). IsString m' buffer xs) (take_all cs) is,
      same,
    )
