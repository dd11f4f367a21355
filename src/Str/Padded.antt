-- ===== src/Str/Padded.antt =====
-- strncpy, stpncpy and strncat: a bounded copy, and the zero bytes behind it.
use jaclibc.Base.{
  ℕ, zero, suc, ◌+◌, ◌-◌, ◌≤◌, ◌<◌, ◌≡◌, ◌≢◌, ◌⊎◌, inl, inr, List, [], ◌∷◌, length, get_or, arith,
  min, refl, ◌∙◌, ℕ_discrete, Bool-cases, ltb,
}
use jaclibc.Memory.{Memory, Ptr, IsString, store}
use jaclibc.Memory.Regions.{SameOutside, IsApart, IsString-frame}
use jaclibc.Str.{strncpy, stpncpy, copy_bounded, pad_loop}

pad_loop_lem :
    (left i : ℕ) (m : Memory) (d q : ℕ)
    → (((d + i ≤ q) × (q < d + i + left)) → pad_loop left i m d q ≡ 0)
      × ((q < d + i) ⊎ (d + i + left ≤ q) → pad_loop left i m d q ≡ m q)
unfolding pad_loop
pad_loop_lem zero i m d q = (λ h. absurd (omega arith), λ h. refl)
pad_loop_lem (suc left) i m d q =
    let rest = pad_loop_lem left (i + 1) (store m (d + i) 0) d q in
    (
      λ h. elim (ℕ_discrete q (d + i)) [
        | yes e ↦ rest.1 (inl (omega arith)) ∙ ground arith
        | no ne ↦ rest.0 (omega arith, omega arith)
      ],
      λ h. rest.1 (omega arith) ∙ ground arith,
    )

-- The copy stops at the bound or at the end of the string cs, of which d gets the bytes.
pub copy_bounded_lem :
    (cs : List ℕ) (left i : ℕ) (m : Memory) (d s p : ℕ)
    → p ≡ s + i
    → IsString m p cs
    → IsApart (d + i) left p (length cs + 1)
    → ((copy_bounded left i m d s).0 ≡ i + min left (length cs))
      × ((j : ℕ)
          → j < min left (length cs)
          → (copy_bounded left i m d s).1 (d + i + j) ≡ get_or cs j 0)
      × SameOutside m (copy_bounded left i m d s).1 (d + i) (min left (length cs))
unfolding copy_bounded
copy_bounded_lem cs zero i m d s p e h apart =
    (omega arith, λ j lt. absurd (omega arith), λ q out. refl)
copy_bounded_lem [] (suc left) i m d s p e h apart =
    (ground arith, λ j lt. absurd (omega arith), λ q out. ground arith)
copy_bounded_lem (c ∷ cs) (suc left) i m d s p e h apart =
    let m1 = store m (d + i) (m (s + i)) in
    let (count, inside, outside) =
      copy_bounded_lem cs left (i + 1) m1 d s (p + 1) (omega arith)
        (IsString-frame cs m m1 (p + 1) (λ q lo hi. ground arith) h.2) (omega arith) in
    let more : m (s + i) ≢ 0 = ground (arith, h.1) in
    (
      ground arith,
      elim [
        | zero ↦ λ lt. ground (arith, outside (d + i + 0))
        | suc j ↦ λ lt. ground (arith, inside j (omega arith))
      ],
      λ q out. ground (arith, outside q),
    )

-- The bytes of a string, then zero bytes without end.
abbrev pub padded : List ℕ → ℕ → ℕ
padded cs j = get_or cs j 0

padded-beyond : (cs : List ℕ) (j : ℕ) → length cs ≤ j → padded cs j ≡ 0
padded-beyond [] j h = refl
padded-beyond (c ∷ cs) zero h = absurd (omega arith)
padded-beyond (c ∷ cs) (suc j) h = padded-beyond cs j (omega arith)

module _ (cs : List ℕ) (m : Memory) (d s : Ptr) (n : ℕ) (h : IsString m s cs)
    (apart : IsApart d n s (length cs + 1)) where
  padded_copy : Memory
  padded_copy =
      pad_loop (n - (copy_bounded n 0 m d s).0) (copy_bounded n 0 m d s).0
        (copy_bounded n 0 m d s).1 d

  padded_copy_lem :
      ((j : ℕ) → j < n → padded_copy (d + j) ≡ padded cs j) × SameOutside m padded_copy d n
  unfolding padded_copy
  padded_copy_lem =
      let (count, inside, outside) =
        copy_bounded_lem cs n 0 m d s s (omega arith) h (omega arith) in
      let k : ℕ = (copy_bounded n 0 m d s).0 in
      let m1 : Memory = (copy_bounded n 0 m d s).1 in
      (
        λ j lt. elim (Bool-cases (ltb j (length cs))) [
          | inl below ↦ ground (arith, (pad_loop_lem (n - k) k m1 d (d + j)).1, inside j)
          | inr beyond ↦ ground (arith, (pad_loop_lem (n - k) k m1 d (d + j)).0, padded-beyond cs j)
        ],
        λ q out. ground (arith, (pad_loop_lem (n - k) k m1 d q).1, outside q),
      )

  -- strncpy writes exactly n bytes at the destination: those of the string and then zero bytes, so
  -- there is no NUL where the string is not shorter than n. stpncpy writes the same and returns the
  -- address of the first zero byte, or the end of the n bytes. The regions are apart, and no pointer is NULL.
  pub strncpy_lem :
      d ≢ 0
      → s ≢ 0
      → ((strncpy m d s n).0 ≡ d)
        × ((j : ℕ) → j < n → (strncpy m d s n).1 (d + j) ≡ padded cs j)
        × SameOutside m (strncpy m d s n).1 d n
        × ((stpncpy m d s n).1 ≡ (strncpy m d s n).1)
        × ((stpncpy m d s n).0 ≡ d + min n (length cs))
  unfolding strncpy stpncpy padded_copy
  strncpy_lem hd hs =
      let (inside, outside) = padded_copy_lem in
      let (count, _, _) = copy_bounded_lem cs n 0 m d s s (omega arith) h (omega arith) in
      (
        ground arith,
        λ j lt. ground (arith, inside j),
        λ q out. ground (arith, outside q),
        ground arith,
        ground arith,
      )
