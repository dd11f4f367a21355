-- ===== src/Alloc/Safety.antt =====
-- What __jacl_alloc_bins promises: it hands out a free block, and no block in use is touched.
use jaclibc.Base.{
  ℕ, zero, suc, ◌-◌, ◌≤◌, ◌<◌, ◌≡◌, ◌≢◌, ◌⊎◌, inl, inr, Option, none, some, ltb, ◌==◌, ==_iff, List,
  [], ◌∷◌, arith, refl, sym, ap, subst, ◌∙◌, if_cases, if◌then◌else◌,
}
use jaclibc.Alloc.{
  Header, Segment, first_set, membin_get, bin_count, membin_pop, membin_push, pop_bin, take_block,
  alloc_in, alloc_bins, hdr_alloc,
}
use jaclibc.Alloc.Tiles.{Tiles}
use jaclibc.Alloc.Lists.{IsSegment, Popped, nothing, taken, pop_bin_lem}
use jaclibc.Alloc.Split.{push-IsSegment, IsKept}
use jaclibc.Alloc.Take.{push-fields, take_block_lem}

-- The segment is valid, and every block of s that is in use is there as it was.
pub record Holds (start : ℕ) (s s' : Segment) : Type 0 where
  pub lists : ℕ → List ℕ
  pub valid : IsSegment start s' lists
  pub used : (x : ℕ) → Tiles s.headers start x → (s.headers x).flags ≢ 0 → IsKept start s s' x

-- The block was free, and is now marked as in use and large enough.
pub record IsHanded (start : ℕ) (s s' : Segment) (need off : ℕ) : Type 0 where
  pub was_free : (s.headers off).flags ≡ 0
  pub starts : Tiles s'.headers start off
  pub enough : need ≤ (s'.headers off).size
  pub marked : (s'.headers off).flags ≡ hdr_alloc

same_headers :
    (start : ℕ) (s s' : Segment) (lists : ℕ → List ℕ)
    → s'.headers ≡ s.headers
    → IsSegment start s' lists
    → Holds start s s'
same_headers start s s' lists e valid = record {
  lists = lists;
  valid = valid;
  used = λ x t u. record {
    starts = subst (λ (hd : ℕ → Header). Tiles hd start x) (sym e) t;
    size = ap (λ (hd : ℕ → Header). (hd x).size) e;
    flags = ap (λ (hd : ℕ → Header). (hd x).flags) e;
  };
}

abbrev pub Outcome : ℕ → Segment → ℕ → ℕ × Segment → Type 0
Outcome start s need r =
    Holds start s r.1 × ((r.0 ≡ 0) ⊎ ((r.0 ≢ 0) × IsHanded start s r.1 need r.0))

-- The rest of the round, once a block is popped or not.
use_popped :
    (start : ℕ) (s : Segment) (need i : ℕ) (r : ℕ × Segment)
    → 32 ≤ need
    → Popped start s i r
    → Outcome start s need (
        if r.0 == 0
        then (0, r.1)
        else if ltb (r.1.headers r.0).size need
        then (0, membin_push r.1 r.0)
        else (r.0, take_block r.1 r.0 need))
use_popped start s need i _ small (nothing s' lists e l valid) =
    (same_headers start s s' lists e valid, inl refl)
use_popped start s need i _ small (taken off s' lists ne e l valid out free) =
    if_cases (Outcome start s need) (off == 0) _ _ (λ z. absurd (ne ((==_iff off 0).0 z)))
      (λ nz.
        let at : Tiles s'.headers start off =
          subst (λ (hd : ℕ → Header). Tiles hd start off) (sym e) free.starts in
        let low : off < s'.limit = omega (arith, free.inside, l) in
        let clean : (s'.headers off).flags ≡ 0 =
          ap (λ (hd : ℕ → Header). (hd off).flags) e ∙ free.unused in
        if_cases (Outcome start s need) (ltb (s'.headers off).size need) _ _
          (λ small_block.
            let (lists', valid', others) =
              push-IsSegment start s' lists off valid at low clean out in
            (
              same_headers start s (membin_push s' off) lists' ((push-fields s' off).0 ∙ e) valid',
              inl refl,
            ))
          (λ fits.
            let (l', marked) =
              take_block_lem start s' lists off need valid at low out small
                (ground (arith, fits)) in
            (
              record {
                lists = l'.lists;
                valid = l'.valid;
                used = λ x t u.
                    let ne' : x ≢ off =
                      λ same. u (ap (λ (k : ℕ). (s.headers k).flags) same ∙ free.unused) in
                    let k =
                      l'.kept x ne' (subst (λ (hd : ℕ → Header). Tiles hd start x) (sym e) t) in
                    record {
                      starts = k.starts;
                      size = k.size ∙ ap (λ (hd : ℕ → Header). (hd x).size) e;
                      flags = k.flags ∙ ap (λ (hd : ℕ → Header). (hd x).flags) e;
                    };
              },
              inr (
                ne,
                record {
                  was_free = free.unused;
                  starts = l'.starts;
                  enough = l'.enough;
                  marked = marked;
                },
              ),
            )))

membin_pop_lem :
    (start : ℕ) (s : Segment) (lists : ℕ → List ℕ) (need : ℕ)
    → IsSegment start s lists
    → (i : ℕ) × Popped start s i (membin_pop s need)
unfolding membin_pop
membin_pop_lem start s lists need h =
    go (first_set (bin_count - membin_get need) (membin_get need) s.bitmap)
  where
    go :
        (o : Option ℕ)
        → (i : ℕ) × Popped start s i (elim o [ none ↦ (0, s) | some i ↦ pop_bin s i ])
    go none = (0, nothing s lists refl refl h)
    go (some i) = (i, pop_bin_lem start s lists i (lists i) h refl)

pub alloc_in_lem :
    (start : ℕ) (s : Segment) (lists : ℕ → List ℕ) (need : ℕ)
    → IsSegment start s lists
    → 32 ≤ need
    → Outcome start s need (alloc_in s need)
unfolding alloc_in
alloc_in_lem start s lists need h small =
    let (i, p) = membin_pop_lem start s lists need h in
    use_popped start s need i (membin_pop s need) small p

-- Each segment is valid from its first block on.
abbrev pub AreSegments : List ℕ → List Segment → Type 0
AreSegments [] [] = Unit
AreSegments (start ∷ starts) (s ∷ ss) =
    ((lists : ℕ → List ℕ) × IsSegment start s lists) × AreSegments starts ss
AreSegments _ _ = ⊥

-- All segments are valid, and their blocks in use are there as they were.
abbrev pub AllHold : List ℕ → List Segment → List Segment → Type 0
AllHold (start ∷ starts) (s ∷ ss) (s' ∷ ss') = Holds start s s' × AllHold starts ss ss'
AllHold [] [] [] = Unit
AllHold _ _ _ = ⊥

-- The block at the offset in the segment of that number is the one handed out.
abbrev pub HandedIn : List ℕ → List Segment → List Segment → ℕ → ℕ → ℕ → Type 0
HandedIn (start ∷ starts) (s ∷ ss) (s' ∷ ss') need zero off =
    (off ≢ 0) × IsHanded start s s' need off
HandedIn (start ∷ starts) (s ∷ ss) (s' ∷ ss') need (suc k) off = HandedIn starts ss ss' need k off
HandedIn _ _ _ need k off = ⊥

abbrev pub Answer : List ℕ → List Segment → List Segment → ℕ → Option (ℕ × ℕ) → Type 0
Answer starts segs segs' need none = Unit
Answer starts segs segs' need (some (k, off)) = HandedIn starts segs segs' need k off

untouched :
    (starts : List ℕ) (segs : List Segment) → AreSegments starts segs → AllHold starts segs segs
untouched [] [] h = tt
untouched (start ∷ starts) (s ∷ ss) h =
    (same_headers start s s h.0.0 refl h.0.1, untouched starts ss h.1)
untouched [] (s ∷ ss) h = h
untouched (start ∷ starts) [] h = h

-- On valid segments __jacl_alloc_bins leaves valid segments, in which every block in use before is
-- at its place with its size and flags; a block that it hands out was free, is at least as large as
-- needed and is marked as in use. At least 32 bytes are needed.
pub alloc_bins_lem :
    (starts : List ℕ) (segs : List Segment) (need : ℕ)
    → AreSegments starts segs
    → 32 ≤ need
    → let (found, segs') = alloc_bins segs need in
      AllHold starts segs segs' × Answer starts segs segs' need found
unfolding alloc_bins
alloc_bins_lem [] [] need h small = (tt, tt)
alloc_bins_lem [] (s ∷ ss) need h small = absurd h
alloc_bins_lem (start ∷ starts) [] need h small = absurd h
alloc_bins_lem (start ∷ starts) (s ∷ ss) need h small =
    let (holds, here) = alloc_in_lem start s h.0.0 need h.0.1 small in
    let (rest, answer) = alloc_bins_lem starts ss need h.1 small in
    let (off, s') = alloc_in s need in
    if_cases
      (λ (r : Option (ℕ × ℕ) × List Segment).
        AllHold (start ∷ starts) (s ∷ ss) r.1 × Answer (start ∷ starts) (s ∷ ss) r.1 need r.0)
      (off == 0) _ _
      (λ none_here. (
        (holds, rest),
        pass start starts s ss s' (alloc_bins ss need).1 need (alloc_bins ss need).0 answer,
      ))
      (λ found. (
        (holds, untouched starts ss h.1),
        elim here [ inl z ↦ absurd (ground (arith, z)) | inr ok ↦ ok ],
      ))
  where
    pass :
        (start' : ℕ) (starts' : List ℕ) (t : Segment) (ts : List Segment) (t' : Segment)
        (ts' : List Segment) (n : ℕ) (o : Option (ℕ × ℕ))
        → Answer starts' ts ts' n o
        → Answer
            (start' ∷ starts')
            (t ∷ ts)
            (t' ∷ ts')
            n
            (elim o [ none ↦ none | some (k, off) ↦ some (suc k, off) ])
    pass start' starts' t ts t' ts' n none a = tt
    pass start' starts' t ts t' ts' n (some (k, off)) a = a
