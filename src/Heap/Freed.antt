-- ===== src/Heap/Freed.antt =====
-- What free promises for a block of the bins that is neither recycled nor merged with another.
use jaclibc.Base.{
  ℕ, zero, suc, ◌+◌, ◌-◌, ◌^◌, ◌≤◌, ◌⊎◌, inl, inr, true, not, ◌&&◌, ltb, ◌<◌, ◌≡◌, none, some, leb,
  bit_and, List, [], ◌∷◌, get_or, arith, dec_lt, refl, ap, ◌∙◌, if_cases,
}
use jaclibc.Alloc.{
  header_bytes, is_alloc, merge_next, merge_previous, Header, Segment, put, hdr_alloc, hdr_arena,
  membin_push, free_coalesce,
}
use jaclibc.Alloc.Tiles.{Tiles}
use jaclibc.Alloc.Safety.{AreSegments}
use jaclibc.Heap.{
  Heap, Place, data_size, empty_segment, change, header_at, with_flags, free, free_recycle,
}
use jaclibc.Heap.Released.{released, Frees, push-Frees}

-- There is no free block behind the block at the offset, and none in front of it.
abbrev pub IsAlone : Segment → ℕ → Type 0
IsAlone s off =
    let v = s.headers off in
    ((s.limit ≤ off + v.size) ⊎ (is_alloc (s.headers (off + v.size)) ≡ true))
    × ((v.prev_size ≡ 0) ⊎ (off < v.prev_size) ⊎ (is_alloc (s.headers (off - v.prev_size)) ≡ true))

-- A block in use of the segment of that number, of more than 72 bytes, which is too large to be recycled,
-- and of less than 1024 bytes or between blocks in use, so that it is not merged.
abbrev pub MiddleIn : List ℕ → List Segment → ℕ → ℕ → Type 0
MiddleIn (start ∷ starts) (s ∷ ss) zero off =
    Tiles s.headers start off
    × (off < s.limit)
    × ((s.headers off).flags ≡ hdr_alloc)
    × (72 < (s.headers off).size)
    × ((s.headers off).size < 2 ^ 64)
    × (((s.headers off).size < 1024) ⊎ IsAlone s off)
MiddleIn (start ∷ starts) (s ∷ ss) (suc k) off = MiddleIn starts ss k off
MiddleIn _ _ k off = ⊥

-- In the segment of that number the block is freed, and no other segment changes.
abbrev pub FreedIn : List ℕ → List Segment → List Segment → ℕ → ℕ → Type 0
FreedIn (start ∷ starts) (s ∷ ss) (s' ∷ ss') zero off = Frees start s s' off × (ss' ≡ ss)
FreedIn (start ∷ starts) (s ∷ ss) (s' ∷ ss') (suc k) off = (s' ≡ s) × FreedIn starts ss ss' k off
FreedIn _ _ _ k off = ⊥

abbrev freed_segment : List Segment → ℕ → ℕ → Segment
freed_segment segs k off = membin_push (released (get_or segs k empty_segment) off) off

change-FreedIn :
    (starts : List ℕ) (segs : List Segment) (k off : ℕ)
    → AreSegments starts segs
    → MiddleIn starts segs k off
    → FreedIn starts segs (change segs k (λ t. freed_segment segs k off)) k off
unfolding change
change-FreedIn (start ∷ starts) (s ∷ ss) zero off h m =
    (push-Frees start s h.0.0 off h.0.1 m.0 m.1 (λ e. ground (arith, e, m.2)), refl)
change-FreedIn (start ∷ starts) (s ∷ ss) (suc k) off h m =
    (refl, change-FreedIn starts ss k off h.1 m)
change-FreedIn [] segs k off h m = absurd m
change-FreedIn (start ∷ starts) [] k off h m = absurd m

-- The header of such a block.
MiddleIn-header :
    (starts : List ℕ) (segs : List Segment) (k off : ℕ)
    → MiddleIn starts segs k off
    → let v = (get_or segs k empty_segment).headers off in
      (v.flags ≡ hdr_alloc) × (72 < v.size) × (v.size < 2 ^ 64)
MiddleIn-header (start ∷ starts) (s ∷ ss) zero off m = (m.2, m.3, m.4)
MiddleIn-header (start ∷ starts) (s ∷ ss) (suc k) off m = MiddleIn-header starts ss k off m
MiddleIn-header [] segs k off m = absurd m
MiddleIn-header (start ∷ starts) [] k off m = absurd m

-- The last change counts.
change-change :
    (segs : List Segment) (k : ℕ) (f : Segment → Segment) (t : Segment)
    → change (change segs k f) k (λ _. t) ≡ change segs k (λ _. t)
unfolding change
change-change [] k f t = refl
change-change (s ∷ ss) zero f t = refl
change-change (s ∷ ss) (suc k) f t = ap (λ (l : List Segment). s ∷ l) (change-change ss k f t)

get_or-change :
    (starts : List ℕ) (segs : List Segment) (k off : ℕ) (f : Segment → Segment)
    → MiddleIn starts segs k off
    → get_or (change segs k f) k empty_segment ≡ f (get_or segs k empty_segment)
unfolding change
get_or-change (start ∷ starts) (s ∷ ss) zero off f m = refl
get_or-change (start ∷ starts) (s ∷ ss) (suc k) off f m = get_or-change starts ss k off f m
get_or-change [] segs k off f m = absurd m
get_or-change (start ∷ starts) [] k off f m = absurd m

free_recycle_middle :
    (h : Heap) (p : Place) (v : Header)
    → 72 < v.size
    → v.size < 2 ^ 64
    → free_recycle h p (data_size v) ≡ none
unfolding free_recycle
free_recycle_middle h p v lo hi = ground arith

free_coalesce_small :
    (f : ℕ) (s : Segment) (off : ℕ)
    → (s.headers off).size < 1024
    → free_coalesce f s off ≡ some (membin_push s off)
unfolding free_coalesce
free_coalesce_small f s off lt =
    if_cases (λ o. o ≡ some (membin_push s off)) (leb 1024 (s.headers off).size) _ _
      (λ big. absurd (ground (arith, big))) (λ small. refl)

-- A block between blocks in use is not merged.
merge_next_alone :
    (f : ℕ) (s : Segment) (off : ℕ)
    → (s.limit ≤ off + (s.headers off).size)
      ⊎ (is_alloc (s.headers (off + (s.headers off).size)) ≡ true)
    → merge_next f s off ≡ some s
unfolding merge_next
merge_next_alone f s off alone =
    if_cases (λ o. o ≡ some s)
      (ltb (off + (s.headers off).size) s.limit
        && not (is_alloc (s.headers (off + (s.headers off).size))))
      _ _
      (λ merges.
        absurd
          (elim alone [ inl e ↦ ground (arith, e, merges) | inr e ↦ ground (arith, e, merges) ]))
      (λ _. refl)

merge_previous_alone :
    (f : ℕ) (s : Segment) (off : ℕ)
    → let back = (s.headers off).prev_size in
      (back ≡ 0) ⊎ (off < back) ⊎ (is_alloc (s.headers (off - back)) ≡ true)
      → merge_previous f s off ≡ some (off, s)
unfolding merge_previous
merge_previous_alone f s off alone =
    let back = (s.headers off).prev_size in
    if_cases (λ o. o ≡ some (off, s))
      (ltb 0 off
        && ltb 0 back
        && leb back off
        && leb (off - back + header_bytes) s.limit
        && not (is_alloc (s.headers (off - back))))
      _ _
      (λ merges. absurd (elim alone [
        | inl e ↦ ground (arith, e, merges)
        | inr (inl e) ↦ ground (arith, e, merges)
        | inr (inr e) ↦ ground (arith, e, merges)
      ]))
      (λ _. refl)

free_coalesce_alone :
    (f : ℕ) (s : Segment) (off : ℕ)
    → IsAlone s off
    → free_coalesce f s off ≡ some (membin_push s off)
unfolding free_coalesce
free_coalesce_alone f s off (next, previous) =
    if_cases (λ o. o ≡ some (membin_push s off)) (leb 1024 (s.headers off).size) _ _
      (λ big. rw (merge_next_alone f s off next, merge_previous_alone f s off previous) refl)
      (λ small. refl)

-- Marking the block as free leaves it alone.
released-IsAlone :
    (s : Segment) (off : ℕ)
    → 0 < (s.headers off).size
    → IsAlone s off
    → IsAlone (released s off) off
released-IsAlone s off some_size (next, previous) = (
  elim next [ inl e ↦ inl (ground (arith, e)) | inr e ↦ inr (ground (arith, e, some_size)) ],
  elim (dec_lt 0 (s.headers off).prev_size) [
    | yes above ↦ elim previous [
      | inl e ↦ inl (ground (arith, e))
      | inr (inl e) ↦ inr (inl (ground (arith, e)))
      | inr (inr e) ↦ elim (dec_lt off (s.headers off).prev_size) [
        | yes far ↦ inr (inl (ground (arith, far)))
        | no near ↦ inr (inr (ground (arith, e, above, near)))
      ]
    ]
    | no none_above ↦ inl (ground (arith, none_above))
  ],
)

MiddleIn-unmerged :
    (f : ℕ) (starts : List ℕ) (segs : List Segment) (k off : ℕ)
    → MiddleIn starts segs k off
    → free_coalesce f (released (get_or segs k empty_segment) off) off
      ≡ some (freed_segment segs k off)
MiddleIn-unmerged f (start ∷ starts) (s ∷ ss) zero off m = elim (m.5) [
  | inl small ↦ free_coalesce_small f (released s off) off (ground (arith, small))
  | inr alone ↦
      free_coalesce_alone f (released s off) off (released-IsAlone s off (omega (arith, m.3)) alone)
]
MiddleIn-unmerged f (start ∷ starts) (s ∷ ss) (suc k) off m = MiddleIn-unmerged f starts ss k off m
MiddleIn-unmerged f [] segs k off m = absurd m
MiddleIn-unmerged f (start ∷ starts) [] k off m = absurd m

-- What free makes of a block that is neither of the arena, nor recycled, nor merged.
free_middle :
    (f : ℕ) (h : Heap) (p : Place) (t : Segment)
    → (header_at h p).flags ≡ hdr_alloc
    → free_recycle h p (data_size (header_at h p)) ≡ none
    → free_coalesce f (get_or (with_flags h p 0).segments p.0 empty_segment) p.1 ≡ some t
    → free f h p
      ≡ some
          (record (with_flags h p 0) { segments = change (with_flags h p 0).segments p.0 (λ _. t) })
unfolding free
free_middle f h p t marked kept pushed =
    let arena : bit_and (header_at h p).flags hdr_arena ≡ 0 =
      ap (λ (n : ℕ). bit_and n hdr_arena) marked in
    let used : bit_and (header_at h p).flags hdr_alloc ≡ 1 =
      ap (λ (n : ℕ). bit_and n hdr_alloc) marked in
    ground (arith, arena, used, kept, pushed)

-- free of a block of the bins in use, of more than 72 bytes and of less than 1024 or between blocks in
-- use, on a heap with valid segments, returns, on any fuel: its segment stays valid, the block is free with
-- the same size and the first of its bin, which the bitmap marks; the other blocks in use are at their places
-- with their sizes and flags, and no other segment changes.
pub free_lem :
    (starts : List ℕ) (f : ℕ) (h : Heap) (k off : ℕ)
    → AreSegments starts h.segments
    → MiddleIn starts h.segments k off
    → (h' : Heap) × (free f h (k, off) ≡ some h') × FreedIn starts h.segments h'.segments k off
unfolding free
free_lem starts f h k off valid m =
    let v = header_at h (k, off) in
    let (e, lo, hi) = MiddleIn-header starts h.segments k off m in
    let seg = get_or h.segments k empty_segment in
    let flags_off : Segment → Segment =
      λ s. record s { headers = put s.headers off (record v { flags = 0 }) } in
    let here = get_or-change starts h.segments k off flags_off m in
    let pushed = MiddleIn-unmerged f starts h.segments k off m in
    (
      record h { segments = change h.segments k (λ t. freed_segment h.segments k off) },
      free_middle f h (k, off) (freed_segment h.segments k off) e
            (free_recycle_middle h (k, off) v lo hi)
            (ap (λ (t : Segment). free_coalesce f t off) here ∙ pushed)
          ∙ ap (λ (ss : List Segment). some (record h { segments = ss }))
              (change-change h.segments k flags_off (freed_segment h.segments k off)),
      change-FreedIn starts h.segments k off valid m,
    )
