-- ===== src/Tests/Allocating.antt =====
-- Runs of the allocator of include/core/memory.h.
use jaclibc.Base.{
  inl, Bool, ℕ, List, ◌+◌, ◌-◌, ◌^◌, ◌≤◌, ◌<◌, ◌≡◌, ◌⊎◌, ◌%◌, [], ◌∷◌, Option, some, none, true,
  arith, refl,
}
use jaclibc.Alloc.{Segment, put, hdr_alloc, alloc_bins}
use jaclibc.Alloc.Tiles.{filled, block}
use jaclibc.Alloc.Lists.{IsSegment}
use jaclibc.Heap.Valid.{Extended, malloc_lem}
use jaclibc.Heap.Freed.{FreedIn, free_lem}
use jaclibc.Alloc.Safety.{AllHold, Answer, alloc_bins_lem}
use jaclibc.Heap.{
  arena_end, alloc_need, malloc, free, realloc, header_at, heap_init, empty_segment, Heap, Place,
}
use jaclibc.Heap.Start.{start_segment, start-IsSegment, membin_init}
use jaclibc.Heap.Sizes.{alloc_need_lem}

alloc_bins_lem_example :
    let (found, segs') = alloc_bins (start_segment ∷ []) 232 in
    AllHold (arena_end ∷ []) (start_segment ∷ []) segs'
    × Answer (arena_end ∷ []) (start_segment ∷ []) segs' 232 found
alloc_bins_lem_example =
    alloc_bins_lem (arena_end ∷ []) (start_segment ∷ []) 232 (start-IsSegment, tt) (omega arith)

alloc_need_lem_example :
    (((200 + 55 < 2 ^ 32)
        × (200 + 24 ≤ alloc_need 200)
        × (alloc_need 200 ≤ 200 + 56)
        × (alloc_need 200 % 8 ≡ 0)
        × (32 ≤ alloc_need 200))
      ⊎ ((2 ^ 32 ≤ 200 + 55) × (200 ≤ 2 ^ 64 - 25) × (alloc_need 200 < 200))
      ⊎ ((2 ^ 64 - 25 < 200) × (alloc_need 200 ≡ 0)))
    × ((mapped : Bool) (h : Heap) → alloc_need 200 ≡ 0 → malloc mapped h 200 ≡ (none, h))
alloc_need_lem_example = alloc_need_lem 200

-- The first large block is the start of the part behind the arena.
malloc_large : (malloc true (membin_init heap_init) 200).0 ≡ some (0, 65536)
unfolding malloc jaclibc.Alloc.membin_get
malloc_large = refl

abbrev arena_used_up : Heap
arena_used_up = record (membin_init (2 ^ 30)) {
  tls_cursor = arena_end;
  tls_off = arena_end;
  tls_end = arena_end;
}

-- Two blocks stand side by side; the second is recycled, the first is merged with it, and then both
-- are asked for again.
abbrev reused : Option (Option Place × Option Place)
reused =
    let (large, h1) = malloc true arena_used_up 1100 in
    let (small, h2) = malloc true h1 40 in
    elim (free 9 h2 (0, arena_end + 1152)) [
      | none ↦ none
      | some h3 ↦ elim (free 9 h3 (0, arena_end)) [
        | none ↦ none
        | some h4 ↦
            let (large', h5) = malloc true h4 1180 in
            let (small', h6) = malloc true h5 40 in some (large', small')
      ]
    ]

-- The small block, 1152 bytes behind the large one, lies inside its 1180 bytes.
reused_inside : reused ≡ some (some (0, 65536), some (0, 66688))
unfolding malloc free jaclibc.Alloc.membin_get jaclibc.Heap.change
reused_inside = refl

-- The first block of the arena, asked to grow to nearly the whole address space.
abbrev regrown : Option (Option Place × ℕ)
regrown =
    let (p, h) = malloc true (membin_init (2 ^ 30)) 40 in
    elim (realloc 9 true h p (2 ^ 64 - 8)) [
      | none ↦ none
      | some (q, g) ↦ some (q, (header_at g (0, 0)).size)
    ]

-- The same pointer is returned, and the block now measures 0 bytes.
regrown_empty : regrown ≡ some (some (0, 0), 0)
unfolding malloc realloc jaclibc.Heap.change
regrown_empty = refl

malloc_lem_example :
    let (p, h') = malloc true (membin_init (2 ^ 30)) 400 in
    (need : ℕ) × (400 + 24 ≤ need)
    × (starts' : List ℕ) × (segs' : List Segment) × Extended
        (arena_end ∷ [])
        (start_segment ∷ [])
        starts'
        segs'
    × AllHold starts' segs' h'.segments
    × Answer starts' segs' h'.segments need p
malloc_lem_example =
    malloc_lem (arena_end ∷ []) true (membin_init (2 ^ 30)) 400 (start-IsSegment, tt) (omega arith)
      (omega arith) (omega arith)

-- A segment with one block of 200 bytes, in use.
abbrev one_block : Segment
one_block = record empty_segment {
  limit = 224;
  headers = put empty_segment.headers 24 (record { size = 200; prev_size = 0; flags = hdr_alloc });
}

one_block-IsSegment : IsSegment 24 one_block (λ i. [])
one_block-IsSegment = record {
  start_in = omega arith;
  tiled = block (omega arith) (filled refl);
  chained = λ i. refl;
  free = λ i x m. absurd m;
}

abbrev one_heap : Heap
one_heap = record (membin_init (2 ^ 30)) { segments = one_block ∷ [] }

free_lem_example :
    (h' : Heap) × (free 0 one_heap (0, 24) ≡ some h')
    × FreedIn (24 ∷ []) (one_block ∷ []) h'.segments 0 24
free_lem_example =
    free_lem (24 ∷ []) 0 one_heap 0 24 (((λ i. []), one_block-IsSegment), tt)
      (filled refl, omega arith, refl, omega arith, omega arith, inl (omega arith))
