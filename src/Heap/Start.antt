-- ===== src/Heap/Start.antt =====
-- include/core/memory.h: __jacl_membin_init, and the heap that it makes.
use jaclibc.Base.{ℕ, ◌-◌, List, [], ◌∷◌, arith, refl}
use jaclibc.Alloc.{Segment, put, membin_push}
use jaclibc.Alloc.Tiles.{filled, block}
use jaclibc.Alloc.Lists.{IsSegment}
use jaclibc.Alloc.Split.{push-IsSegment}
use jaclibc.Heap.{Heap, heap_init, arena_end, align_up, empty_segment}

abbrev start_off : ℕ
start_off = align_up arena_end 8

-- One block behind the arena.
abbrev bare_segment : Segment
bare_segment = record empty_segment {
  limit = heap_init;
  headers =
      put empty_segment.headers start_off
        (record { size = heap_init - start_off; prev_size = 0; flags = 0 });
}

abbrev pub start_segment : Segment
start_segment = membin_push bare_segment start_off

-- JACL_HEAP_MAX is `most`.
abbrev pub membin_init : ℕ → Heap
membin_init most = record {
  segments = start_segment ∷ [];
  tls_cursor = 0;
  tls_off = 0;
  tls_end = 0;
  recycling = λ bin. [];
  current = heap_init;
  most = most;
}

bare-IsSegment : IsSegment arena_end bare_segment (λ i. [])
bare-IsSegment = record {
  start_in = omega arith;
  tiled = block (omega arith) (filled refl);
  chained = λ i. refl;
  free = λ i x m. absurd m;
}

pub start-IsSegment : (lists : ℕ → List ℕ) × IsSegment arena_end start_segment lists
start-IsSegment =
    let (lists, valid, others) =
      push-IsSegment arena_end bare_segment (λ i. []) start_off bare-IsSegment (filled refl)
        (omega arith) refl (λ j m. m) in
    (lists, valid)
