-- ===== src/Heap/Valid.antt =====
-- What malloc promises for a large block: the segments stay valid, and at most one is added.
use jaclibc.Base.{
  ℕ, ◌+◌, ◌-◌, ◌%◌, ◌^◌, ◌≤◌, ◌<◌, ◌≡◌, ◌≢◌, ◌⊎◌, inl, inr, Bool, false, Option, none, some, ◌==◌,
  not, ◌||◌, List, [], ◌∷◌, ◌++◌, length, get_or, arith, refl, sym, ap, subst, if_cases,
  if◌then◌else◌,
}
use jaclibc.Alloc.{Header, Segment, put, header_bytes, alloc_in, alloc_bins}
use jaclibc.Alloc.Tiles.{filled, block}
use jaclibc.Alloc.Lists.{IsSegment}
use jaclibc.Alloc.Split.{push-IsSegment}
use jaclibc.Alloc.Safety.{
  Holds, IsHanded, AreSegments, AllHold, HandedIn, Answer, Outcome, alloc_in_lem, alloc_bins_lem,
}
use jaclibc.Heap.{
  Heap, Place, empty_segment, change, alloc_need, alloc_recycle, alloc_arena, alloc_block,
  grow_size, grow_heap, new_segment, can_grow, find_block, malloc,
}
use jaclibc.Heap.Sizes.{alloc_need_lem}

-- The segments, or these and one new segment.
pub data Extended (starts : List ℕ) (segs : List Segment) : List ℕ → List Segment → Type 0 where
  same : Extended starts segs starts segs
  grown :
      (size : ℕ)
      → Extended starts segs (starts ++ header_bytes ∷ []) (segs ++ new_segment size ∷ [])

AllHold-append :
    (starts : List ℕ) (ss ss' : List Segment) (start : ℕ) (s s' : Segment)
    → AllHold starts ss ss'
    → Holds start s s'
    → AllHold (starts ++ start ∷ []) (ss ++ s ∷ []) (ss' ++ s' ∷ [])
AllHold-append [] [] [] start s s' a h = (h, tt)
AllHold-append (b ∷ starts) (t ∷ ss) (t' ∷ ss') start s s' a h =
    (a.0, AllHold-append starts ss ss' start s s' a.1 h)
AllHold-append [] [] (t' ∷ ss') start s s' a h = absurd a
AllHold-append [] (t ∷ ss) ss' start s s' a h = absurd a
AllHold-append (b ∷ starts) [] ss' start s s' a h = absurd a
AllHold-append (b ∷ starts) (t ∷ ss) [] start s s' a h = absurd a

HandedIn-last :
    (starts : List ℕ) (ss ss' : List Segment) (start : ℕ) (s s' : Segment) (need off : ℕ)
    → AllHold starts ss ss'
    → off ≢ 0
    → IsHanded start s s' need off
    → HandedIn (starts ++ start ∷ []) (ss ++ s ∷ []) (ss' ++ s' ∷ []) need (length ss') off
HandedIn-last [] [] [] start s s' need off a ne h = (ne, h)
HandedIn-last (b ∷ starts) (t ∷ ss) (t' ∷ ss') start s s' need off a ne h =
    HandedIn-last starts ss ss' start s s' need off a.1 ne h
HandedIn-last [] [] (t' ∷ ss') start s s' need off a ne h = absurd a
HandedIn-last [] (t ∷ ss) ss' start s s' need off a ne h = absurd a
HandedIn-last (b ∷ starts) [] ss' start s s' need off a ne h = absurd a
HandedIn-last (b ∷ starts) (t ∷ ss) [] start s s' need off a ne h = absurd a

get_or-last : (ss : List Segment) (s e : Segment) → get_or (ss ++ s ∷ []) (length ss) e ≡ s
get_or-last [] s e = refl
get_or-last (t ∷ ss) s e = get_or-last ss s e

change-last :
    (ss : List Segment) (s s' : Segment)
    → change (ss ++ s ∷ []) (length ss) (λ t. s') ≡ ss ++ s' ∷ []
unfolding change
change-last [] s s' = refl
change-last (t ∷ ss) s s' = ap (λ (l : List Segment). t ∷ l) (change-last ss s s')

-- A new segment with room for a block.
new_segment_lem :
    (size : ℕ)
    → 344 ≤ size
    → size < 2 ^ 64
    → (lists : ℕ → List ℕ) × IsSegment header_bytes (new_segment size) lists
unfolding new_segment
new_segment_lem size lo hi =
    let limit = (size + 2 ^ 64 - 288) % 2 ^ 64 in
    let first : Header = record {
      size = (limit + 2 ^ 64 - header_bytes) % 2 ^ 64;
      prev_size = 0;
      flags = 0;
    } in
    let bare : Segment = record {
      limit = limit;
      bins = λ i. 0;
      bitmap = λ i. false;
      headers = put empty_segment.headers header_bytes first;
      links = λ q. 0;
    } in
    let measured : header_bytes + first.size ≡ limit = omega arith in
    let valid : IsSegment header_bytes bare (λ i. []) = record {
      start_in = omega arith;
      tiled = block (omega arith) (filled measured);
      chained = λ i. refl;
      free = λ i x m. absurd m;
    } in
    let (lists, pushed, others) =
      push-IsSegment header_bytes bare (λ i. []) header_bytes valid (filled refl) (omega arith) refl
        (λ j m. m) in
    (lists, pushed)

-- The new segment has room for what is needed, or there is none.
grow_size_lem :
    (h : Heap) (need : ℕ)
    → need + 4096 < 2 ^ 32
    → h.most < 2 ^ 64
    → (grow_size h need ≡ 0) ⊎ ((need ≤ grow_size h need) × (grow_size h need < 2 ^ 64))
unfolding grow_size
grow_size_lem h need small most = ground arith

alloc_recycle_large : (h : Heap) (n : ℕ) → 128 < n → alloc_recycle h n ≡ (none, h)
unfolding alloc_recycle
alloc_recycle_large h n large = ground arith

alloc_arena_large : (h : Heap) (n need : ℕ) → 128 < n → alloc_arena h n need ≡ (none, h)
unfolding alloc_arena
alloc_arena_large h n need large = ground arith

-- A round of __jacl_alloc_bins over the valid segments, or over these and a new one.
abbrev Served : List ℕ → List Segment → ℕ → Option Place × Heap → Type 0
Served starts segs need r =
    (starts' : List ℕ) × (segs' : List Segment) × Extended starts segs starts' segs'
    × AllHold starts' segs' r.1.segments
    × Answer starts' segs' r.1.segments need r.0

module _ (starts : List ℕ) (h : Heap) (need : ℕ) (low : 344 ≤ need) (high : need + 4096 < 2 ^ 32)
    (most : h.most < 2 ^ 64) where
  serve_grown :
      (size : ℕ) (segs : List Segment) (off : ℕ) (s' : Segment) (g : Heap)
      → AllHold starts h.segments segs
      → Outcome header_bytes (new_segment size) need (off, s')
      → g.segments ≡ segs ++ s' ∷ []
      → Served starts h.segments need ((if off == 0 then none else some (length segs, off)), g)
  serve_grown size segs off s' g held (holds, answer) e = (
    starts ++ header_bytes ∷ [],
    h.segments ++ new_segment size ∷ [],
    grown size,
    subst
        (λ (l : List Segment).
          AllHold (starts ++ header_bytes ∷ []) (h.segments ++ new_segment size ∷ []) l)
        (sym e)
        (AllHold-append starts h.segments segs header_bytes (new_segment size) s' held holds),
    subst
        (λ (l : List Segment).
          Answer (starts ++ header_bytes ∷ []) (h.segments ++ new_segment size ∷ []) l need
            (if off == 0 then none else some (length segs, off)))
        (sym e)
        (if_cases
          (λ (o : Option Place).
            Answer (starts ++ header_bytes ∷ []) (h.segments ++ new_segment size ∷ [])
              (segs ++ s' ∷ []) need o)
          (off == 0) _ _ (λ none_here. tt)
          (λ found. elim answer [
            | inl z ↦ absurd (ground (arith, z))
            | inr ok ↦
                HandedIn-last starts h.segments segs header_bytes (new_segment size) s' need off
                  held ok.0 ok.1
          ])),
  )

  -- What alloc_block does with the new segment, which is the last of g.
  abbrev after_growth : List Segment → Option Heap → Option Place × Heap
  after_growth segs none = (none, record h { segments = segs })
  after_growth segs (some g) =
      let last = length segs in
      let (off, s) = alloc_in (get_or g.segments last empty_segment) need in
      (
        (if off == 0 then none else some (last, off)),
        record g { segments = change g.segments last (λ t. s) },
      )

  after_growth_lem :
      (size current : ℕ) (segs : List Segment)
      → AllHold starts h.segments segs
      → need ≤ size
      → size < 2 ^ 64
      → Served starts h.segments need (
          after_growth segs
            (some (record h { segments = segs ++ new_segment size ∷ []; current = current })))
  after_growth_lem size current segs held lo hi =
      let (lists, fresh) = new_segment_lem size (omega arith) hi in
      let (off, s') = alloc_in (new_segment size) need in
      subst
        (λ (t : Segment).
          let (off', t') = alloc_in t need in
          Served starts h.segments need (
            (if off' == 0 then none else some (length segs, off')),
            record h {
              segments = change (segs ++ new_segment size ∷ []) (length segs) (λ _. t');
              current = current;
            },
          ))
        (sym (get_or-last segs (new_segment size) empty_segment))
        (serve_grown size segs off s'
          (record h {
            segments = change (segs ++ new_segment size ∷ []) (length segs) (λ _. s');
            current = current;
          })
          held (alloc_in_lem header_bytes (new_segment size) lists need fresh (omega arith))
          (change-last segs (new_segment size) s'))

  grow_heap_lem :
      (mapped : Bool) (segs : List Segment)
      → AllHold starts h.segments segs
      → Served starts h.segments need
          (after_growth segs (grow_heap mapped (record h { segments = segs }) need))
  unfolding grow_heap
  grow_heap_lem mapped segs held =
      let here : Heap = record h { segments = segs } in
      let size = grow_size here need in
      let room : (size ≡ 0) ⊎ ((need ≤ size) × (size < 2 ^ 64)) =
        grow_size_lem here need high most in
      if_cases (λ (o : Option Heap). Served starts h.segments need (after_growth segs o))
        (not (can_grow here) || size == 0 || not mapped) _ _
        (λ full. (starts, h.segments, same, held, tt))
        (λ grows. elim room [
          | inl z ↦ absurd (ground (arith, z, grows))
          | inr bounds ↦ after_growth_lem size (h.current + size) segs held bounds.0 bounds.1
        ])

  alloc_block_lem :
      (mapped : Bool)
      → AreSegments starts h.segments
      → Served starts h.segments need (alloc_block mapped h need)
  unfolding alloc_block
  alloc_block_lem mapped valid =
      let (held, answer) = alloc_bins_lem starts h.segments need valid (omega arith) in
      let (found, segs) = alloc_bins h.segments need in
      go segs (after_growth segs (grow_heap mapped (record h { segments = segs }) need)) found
        answer (grow_heap_lem mapped segs held) held
    where
      go :
          (segs : List Segment) (rest : Option Place × Heap) (found : Option Place)
          → Answer starts h.segments segs need found
          → Served starts h.segments need rest
          → AllHold starts h.segments segs
          → Served starts h.segments need
              (elim found [ some p ↦ (some p, record h { segments = segs }) | none ↦ rest ])
      go segs rest (some p) answer served held = (starts, h.segments, same, held, answer)
      go segs rest none answer served held = served

-- A large block is neither recycled nor from the arena.
find_block_large :
    (mapped : Bool) (h : Heap) (n need : ℕ)
    → 128 < n
    → find_block mapped h n need ≡ alloc_block mapped h need
unfolding find_block
find_block_large mapped h n need large =
    ground (arith, alloc_recycle_large h n large, alloc_arena_large h n need large)

malloc_large :
    (mapped : Bool) (h : Heap) (n : ℕ)
    → 128 < n
    → 0 < alloc_need n
    → malloc mapped h n ≡ alloc_block mapped h (alloc_need n)
unfolding malloc
malloc_large mapped h n large some_need =
    if_cases (λ (r : Option Place × Heap). r ≡ alloc_block mapped h (alloc_need n))
      (alloc_need n == 0) _ _ (λ e. absurd (ground (arith, e, some_need)))
      (λ e. find_block_large mapped h n (alloc_need n) large)

-- malloc of n bytes, from 320 to about 2 ^ 32, on a heap with valid segments: it looks for a need of n
-- bytes and a header at least; it leaves valid segments, the old ones or these and one new one, in
-- which every block in use before is at its place with its size and flags; and if it returns a
-- block, the block was free, is at least as large as the need and is marked as in use. The limit
-- of the heap fits in 64 bits.
pub malloc_lem :
    (starts : List ℕ) (mapped : Bool) (h : Heap) (n : ℕ)
    → AreSegments starts h.segments
    → 320 ≤ n
    → n + 4200 < 2 ^ 32
    → h.most < 2 ^ 64
    → let (p, h') = malloc mapped h n in
      (need : ℕ) × (n + 24 ≤ need)
      × (starts' : List ℕ) × (segs' : List Segment) × Extended starts h.segments starts' segs'
      × AllHold starts' segs' h'.segments
      × Answer starts' segs' h'.segments need p
unfolding malloc
malloc_lem starts mapped h n valid low high most = elim ((alloc_need_lem n).0) [
  | inl (_, lo, up, _, _) ↦
      let r = alloc_need n in
      let served : Served starts h.segments r (malloc mapped h n) =
        subst (λ (r' : Option Place × Heap). Served starts h.segments r r')
          (sym (malloc_large mapped h n (omega arith) (omega arith)))
          (alloc_block_lem starts h r (omega arith) (omega arith) most mapped valid) in
      (r, lo, served.0, served.1, served.2, served.3, served.4)
  | inr (inl (big, _, _)) ↦ absurd (omega arith)
  | inr (inr (big, _)) ↦ absurd (omega arith)
]
