-- ===== src/Wide/Bounded.antt =====
-- wcslcpy, which copies and measures in two loops that follow each other.
use jaclibc.Base.{
  ℕ, zero, suc, ◌+◌, ◌-◌, ◌≤◌, ◌<◌, ◌≡◌, ◌⊎◌, inl, inr, List, [], ◌∷◌, some, length, take, drop,
  length-drop, get_or, arith, min, refl, ◌∙◌, subst, ap,
}
use jaclibc.Memory.{Memory, Ptr, IsString, store}
use jaclibc.Memory.Regions.{SameOutside, IsApart, IsString-frame}
use jaclibc.Str.{copy_bounded}
use jaclibc.Str.Length.{length_loop_lem}
use jaclibc.Str.Padded.{copy_bounded_lem}
use jaclibc.Str.Bounded.{IsString-take}
use jaclibc.Wide.{wcslcpy}

IsString-drop :
    (k : ℕ) (cs : List ℕ) (m : Memory) (p : Ptr)
    → k ≤ length cs
    → IsString m p cs
    → IsString m (p + k) (drop k cs)
IsString-drop zero cs m p le h = subst (λ q. IsString m q cs) (omega arith) h
IsString-drop (suc k) [] m p le h = absurd (omega arith)
IsString-drop (suc k) (c ∷ cs) m p le h =
    subst (λ q. IsString m q (drop k cs)) (omega arith)
      (IsString-drop k cs m (p + 1) (omega arith) h.2)

IsString-get :
    (cs : List ℕ) (m : Memory) (p : Ptr) (j : ℕ)
    → j < length cs
    → IsString m p cs
    → m (p + j) ≡ get_or cs j 0
IsString-get [] m p j lt h = absurd (omega arith)
IsString-get (c ∷ cs) m p zero lt h = ap m (omega arith) ∙ h.0
IsString-get (c ∷ cs) m p (suc j) lt h =
    ap m (omega arith) ∙ IsString-get cs m (p + 1) j (omega arith) h.2

-- With room for n > 0 wide characters wcslcpy returns the length of the source, the destination then holds
-- the first n - 1 of the source at most, closed by a NUL, and nothing outside of the destination is
-- written. The regions are apart, and there is fuel for the loop that measures.
pub wcslcpy_lem :
    (cs : List ℕ) (f : ℕ) (m : Memory) (d s : Ptr) (n : ℕ)
    → 0 < n
    → IsString m s cs
    → IsApart d n s (length cs + 1)
    → length cs < f
    → (m' : Memory) × (wcslcpy f m d s n ≡ some (length cs, m'))
      × IsString m' d (take (min (n - 1) (length cs)) cs)
      × SameOutside m m' d n
unfolding wcslcpy
wcslcpy_lem cs f m d s n room h apart lt =
    let (count, inside, outside) =
      copy_bounded_lem cs (n - 1) 0 m d s s (omega arith) h (omega arith) in
    let k : ℕ = (copy_bounded (n - 1) 0 m d s).0 in
    let m1 : Memory = (copy_bounded (n - 1) 0 m d s).1 in
    let m' : Memory = store m1 (d + k) 0 in
    let same : SameOutside m m' d n = λ q out. ground (arith, outside q) in
    let kept : IsString m' s cs =
      IsString-frame cs m m' s (λ q lo hi. same q (apart_at apart q lo hi)) h in
    let rest =
      length_loop_lem (drop k cs) f m' s k (s + k) refl (IsString-drop k cs m' s (omega arith) kept)
        (omega (arith, length-drop k cs)) in
    (
      m',
      ground (arith, rest, length-drop k cs),
      subst (λ (t : ℕ). IsString m' d (take t cs)) (omega (arith, count))
          (IsString-take cs k m m' d s (omega (arith, count)) h
            (λ j j_lt. ground (arith, inside j, IsString-get cs m s j (omega (arith, count)) h))
            (ground arith)),
      same,
    )
  where
    apart_at :
        IsApart d n s (length cs + 1) → (q : ℕ) → s ≤ q → q ≤ s + length cs → (q < d) ⊎ (d + n ≤ q)
    apart_at (inl a) q lo hi = inr (omega arith)
    apart_at (inr a) q lo hi = inl (omega arith)
