-- ===== src/Heap.antt =====
-- include/core/memory.h: malloc, free, calloc, realloc and reallocarray of one thread, on the segments
-- of Alloc. The first segment is the static heap, whose first quarter is the arena. A pointer is the
-- number of its segment and the offset of the header in front of it; the payload is not modelled, nor
-- are the locks. JACL_ALIGNMENT is 8, and the mask of JACL_ALIGN_UP and of __jacl_round_size, an
-- unsigned int, leaves 32 bits of a size.
pub mod Sizes
pub mod Start
pub mod Valid
pub mod Released
pub mod Freed
use jaclibc.Base.{
  ℕ, zero, suc, ◌+◌, ◌-◌, ◌/◌, ◌*◌, ◌%◌, ◌^◌, Bool, true, false, not, ◌&&◌, ◌||◌, ◌==◌, ltb, leb,
  if◌then◌else◌, Option, none, some, List, [], ◌∷◌, ◌++◌, bit_and, length, get_or,
}
use jaclibc.Alloc.{
  Header, Segment, put, hdr_alloc, hdr_arena, header_bytes, is_alloc, membin_push, alloc_in,
  alloc_bins, free_coalesce,
}

abbrev pub heap_init : ℕ
heap_init = 262144

abbrev pub arena_end : ℕ
arena_end = heap_init / 4

abbrev pub Place : Type 0
Place = ℕ × ℕ

pub record Heap : Type 0 where
  pub segments : List Segment
  pub tls_cursor : ℕ
  pub tls_off : ℕ
  pub tls_end : ℕ
  pub recycling : ℕ → List Place
  pub current : ℕ
  pub most : ℕ

abbrev pub empty_segment : Segment
empty_segment = record {
  limit = 0;
  bins = λ i. 0;
  bitmap = λ i. false;
  headers = λ q. record { size = 0; prev_size = 0; flags = 0 };
  links = λ q. 0;
}

-- (x + (a - 1)) & ~(a - 1), for a power of two a.
abbrev pub align_up : ℕ → ℕ → ℕ
align_up x a = (x + (a - 1)) / a * a % 2 ^ 32

unfoldable pub round_size : ℕ → ℕ
round_size sz =
    if leb sz 128
    then (sz + 7) / 8 * 8
    else if leb sz 512
    then (sz + 15) / 16 * 16
    else align_up sz 32

-- Behind the test, which sets ENOMEM, the sum does not wrap.
unfoldable pub alloc_need : ℕ → ℕ
unfolding round_size
alloc_need n =
    let n' = if n == 0 then 1 else n in
    if ltb (2 ^ 64 - 1 - header_bytes) n' then 0 else round_size (n' + header_bytes)

-- The segments, with one of them changed.
unfoldable pub change : List Segment → ℕ → (Segment → Segment) → List Segment
change [] k f = []
change (s ∷ ss) zero f = f s ∷ ss
change (s ∷ ss) (suc k) f = s ∷ change ss k f

abbrev pub header_at : Heap → Place → Header
header_at h p = (get_or h.segments p.0 empty_segment).headers p.1

abbrev pub with_header : Heap → Place → Header → Heap
with_header h p v = record h {
  segments = change h.segments p.0 (λ (s : Segment). record s { headers = put s.headers p.1 v });
}

abbrev pub with_flags : Heap → Place → ℕ → Heap
with_flags h p v = with_header h p (record (header_at h p) { flags = v })

-- The bin for a payload of that size, from 16 to 48 bytes.
abbrev pub recycle_bin : ℕ → ℕ
recycle_bin size = size / 8 - 2

unfoldable pub alloc_recycle : Heap → ℕ → Option Place × Heap
alloc_recycle h n =
    let bin = recycle_bin ((n + 7) / 8 * 8) in
    if ltb n 16 || ltb 48 n || leb 4 bin then (none, h) else (elim (h.recycling bin) [
      | [] ↦ (none, h)
      | p ∷ ps ↦ (some p, with_flags (record h { recycling = put h.recycling bin ps }) p hdr_alloc)
    ])

-- With JACL_TLS_CHUNK = 4096.
unfoldable pub tls_refill : Heap → Bool × Heap
tls_refill h =
    let cur = h.tls_cursor in
    let h' : Heap = record h { tls_cursor = (cur + 4096) % 2 ^ 32 } in
    let available = if ltb arena_end (cur + 4096) then arena_end - cur else 4096 in
    if leb arena_end cur || ltb available 64
    then (false, h')
    else (true, record h' { tls_off = align_up cur 8; tls_end = cur + available })

-- The refill, if one is needed, and the block.
unfoldable pub alloc_arena : Heap → ℕ → ℕ → Option Place × Heap
unfolding tls_refill
alloc_arena h n need =
    let (can, h') : Bool × Heap =
      if leb (h.tls_off + need) h.tls_end then (true, h) else tls_refill h in
    let block : Header = record { size = need; prev_size = 0; flags = hdr_alloc + hdr_arena } in
    if ltb 128 n
    then (none, h)
    else if not can || ltb arena_end (h'.tls_off + need)
    then (none, h')
    else (
      some (0, h'.tls_off),
      record (with_header h' (0, h'.tls_off) block) { tls_off = h'.tls_off + need },
    )

-- The size of a new segment, or 0; JACL_HEAP_SEG is 2 ^ 20.
unfoldable pub grow_size : Heap → ℕ → ℕ
grow_size h need =
    let size = if ltb (2 ^ 20) need then align_up need 4096 else 2 ^ 20 in
    let rest = h.most - h.current in
    if ltb h.most (h.current + size) then (if ltb rest need then 0 else rest) else size

-- __jacl_segment and __jacl_segment_init on seg_size bytes of fresh memory; __jacl_memseg_t has 288.
unfoldable pub new_segment : ℕ → Segment
unfolding membin_push
new_segment seg_size =
    let limit = (seg_size + 2 ^ 64 - 288) % 2 ^ 64 in
    let first : Header = record {
      size = (limit + 2 ^ 64 - header_bytes) % 2 ^ 64;
      prev_size = 0;
      flags = 0;
    } in
    membin_push
      (record {
        limit = limit;
        bins = λ i. 0;
        bitmap = λ i. false;
        headers = put empty_segment.headers header_bytes first;
        links = λ q. 0;
      })
      header_bytes

-- __jacl_grow_check
abbrev pub can_grow : Heap → Bool
can_grow h = not (h.most == heap_init) && ltb h.current h.most

-- `mapped` says whether the system gives the memory; the new segment is the last.
unfoldable pub grow_heap : Bool → Heap → ℕ → Option Heap
unfolding grow_size new_segment
grow_heap mapped h need =
    let size = grow_size h need in
    if not (can_grow h) || size == 0 || not mapped
    then none
    else some
        (record h { segments = h.segments ++ new_segment size ∷ []; current = h.current + size })

-- The bins, and a new segment where they have no block.
unfoldable pub alloc_block : Bool → Heap → ℕ → Option Place × Heap
unfolding alloc_bins alloc_in grow_heap
alloc_block mapped h need =
    let (found, segs) = alloc_bins h.segments need in
    let h' : Heap = record h { segments = segs } in
    elim found [
      | some p ↦ (some p, h')
      | none ↦ elim (grow_heap mapped h' need) [
        | none ↦ (none, h')
        | some g ↦
            let last = length segs in
            let (off, s) = alloc_in (get_or g.segments last empty_segment) need in
            (
              (if off == 0 then none else some (last, off)),
              record g { segments = change g.segments last (λ t. s) },
            )
      ]
    ]

-- The block for a need that is not 0: recycled, from the arena, or from the bins.
unfoldable pub find_block : Bool → Heap → ℕ → ℕ → Option Place × Heap
unfolding alloc_recycle alloc_arena alloc_block
find_block mapped h n need =
    let (recycled, h1) = alloc_recycle h n in
    let (small, h2) = alloc_arena h1 n need in
    elim recycled [
      | some p ↦ (some p, h1)
      | none ↦ elim small [ some p ↦ (some p, h2) | none ↦ alloc_block mapped h2 need ]
    ]

-- `none` is NULL.
unfoldable pub malloc : Bool → Heap → ℕ → Option Place × Heap
unfolding alloc_need find_block
malloc mapped h n = if alloc_need n == 0 then (none, h) else find_block mapped h n (alloc_need n)

-- JACL_RECYCLING is 12. The block keeps its place in the segment, with no flag.
unfoldable pub free_recycle : Heap → Place → ℕ → Option Heap
free_recycle h p size =
    let bin = recycle_bin size in
    if ltb size 16 || ltb 48 size || leb 4 bin || leb 12 (length (h.recycling bin))
    then none
    else some (record (with_flags h p 0) { recycling = put h.recycling bin (p ∷ h.recycling bin) })

-- What __jacl_free_arena leaves of a block of the arena, or `none`.
abbrev pub free_arena : Heap → Place → Option Heap
free_arena h p =
    let v = header_at h p in
    if bit_and v.flags hdr_arena == 0
    then none
    else some (if is_alloc v then with_flags h p 0 else h)

-- h->size - sizeof(__jacl_memhdr_t)
abbrev pub data_size : Header → ℕ
data_size v = (v.size + 2 ^ 64 - header_bytes) % 2 ^ 64

-- For a pointer that malloc gave. `none` means that the fuel ran out.
unfoldable pub free : ℕ → Heap → Place → Option Heap
unfolding free_recycle free_coalesce
free f h p =
    let v = header_at h p in
    let h' = with_flags h p 0 in
    elim (free_arena h p) [
      | some g ↦ some g
      | none ↦ if not (is_alloc v) then some h else (elim (free_recycle h p (data_size v)) [
        | some g ↦ some g
        | none ↦ elim (free_coalesce f (get_or h'.segments p.0 empty_segment) p.1) [
          | none ↦ none
          | some s ↦ some (record h' { segments = change h'.segments p.0 (λ t. s) })
        ]
      ])
    ]

-- nmemb && size > SIZE_MAX / nmemb
abbrev pub overflows : ℕ → ℕ → Bool
overflows nmemb size = not (nmemb == 0) && ltb ((2 ^ 64 - 1) / nmemb) size

unfoldable pub calloc : Bool → Heap → ℕ → ℕ → Option Place × Heap
unfolding malloc
calloc mapped h nmemb size =
    if overflows nmemb size then (none, h) else malloc mapped h (nmemb * size)

-- The block at the end of the arena's piece in use may grow at its place.
unfoldable pub grow_in_arena : Heap → Place → ℕ → Option Heap
unfolding alloc_need
grow_in_arena h p size =
    let v = header_at h p in
    let total = alloc_need size in
    let growth = (total + 2 ^ 64 - v.size) % 2 ^ 64 in
    if not (bit_and v.flags hdr_arena == 0)
      && p.0 == 0
      && p.1 + v.size == h.tls_off
      && leb ((h.tls_off + growth) % 2 ^ 64) h.tls_end
    then some (record (with_header h p (record v { size = total })) {
      tls_off = (h.tls_off + growth) % 2 ^ 32;
    })
    else none

-- The pointer is `none` for NULL. The outer `none` means that the fuel ran out.
unfoldable pub realloc : ℕ → Bool → Heap → Option Place → ℕ → Option (Option Place × Heap)
unfolding malloc free grow_in_arena
realloc f mapped h none size = some (malloc mapped h size)
realloc f mapped h (some p) size =
    let v = header_at h p in
    let (fresh, g) = malloc mapped h size in
    if size == 0
    then (elim (free f h p) [ none ↦ none | some h' ↦ some (none, h') ])
    else if leb size (data_size v)
    then some (some p, h)
    else (elim (grow_in_arena h p size) [
      | some h' ↦ some (some p, h')
      | none ↦ elim fresh [
        | none ↦ some (none, g)
        | some q ↦
            if not (bit_and (header_at g p).flags hdr_arena == 0)
            then some (some q, g)
            else (elim (free f g p) [ none ↦ none | some h' ↦ some (some q, h') ])
      ]
    ])

unfoldable pub reallocarray : ℕ → Bool → Heap → Option Place → ℕ → ℕ → Option (Option Place × Heap)
unfolding realloc
reallocarray f mapped h p nmemb size =
    if overflows nmemb size then some (none, h) else realloc f mapped h p (nmemb * size)
