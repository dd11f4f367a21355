-- ===== src/Alloc.antt =====
-- include/core/memory.h: the bins of free blocks. A segment is its size, its bins and bitmap, and at
-- each offset the header that stands there and the word behind that header, which links the free
-- blocks of a bin. The payload of a block is not in the model; a caller writes over the link of its own
-- block only. size_t has 64 bits, a header 24 bytes.
pub mod Tiles
pub mod Lists
pub mod Split
pub mod Take
pub mod Safety
use jaclibc.Base.{
  ℕ, zero, suc, ◌+◌, ◌-◌, ◌/◌, ◌*◌, ◌%◌, ◌^◌, Bool, true, false, not, ◌&&◌, ◌||◌, ◌==◌, ltb, leb,
  if◌then◌else◌, Option, none, some, List, [], ◌∷◌, bit_and,
}

abbrev pub header_bytes : ℕ
header_bytes = 24

abbrev pub bin_count : ℕ
bin_count = 32

-- JACL_HDR_ALLOC
abbrev pub hdr_alloc : ℕ
hdr_alloc = 1

-- JACL_HDR_ARENA
abbrev pub hdr_arena : ℕ
hdr_arena = 2

pub record Header : Type 0 where
  pub size : ℕ
  pub prev_size : ℕ
  pub flags : ℕ

pub record Segment : Type 0 where
  pub limit : ℕ
  pub bins : ℕ → ℕ
  pub bitmap : ℕ → Bool
  pub headers : ℕ → Header
  pub links : ℕ → ℕ

abbrev pub put {ℓ} : {A : Type ℓ} → (ℕ → A) → ℕ → A → ℕ → A
put f k v q = if q == k then v else f q

abbrev pub is_alloc : Header → Bool
is_alloc h = not (bit_and h.flags hdr_alloc == 0)

-- while (q > 1 && i < 31) { q >>= 1; i++; }: `left` is 31 - i.
unfoldable pub class_loop : ℕ → ℕ → ℕ → ℕ
class_loop zero q i = i
class_loop (suc left) q i =
    let more = class_loop left (q / 2) (i + 1) in if ltb 1 q then more else i

unfoldable pub membin_get : ℕ → ℕ
unfolding class_loop
membin_get sz =
    let i = if leb sz 128 then (sz + 7) / 8 else class_loop 15 (sz / 128) 16 in
    if leb bin_count i then bin_count - 1 else i

-- __jacl_membin_safety
abbrev pub unsafe : Segment → ℕ → Bool
unsafe seg off = leb seg.limit off || ltb seg.limit (off + header_bytes)

-- The lowest bit set from i on, which __jacl_ctz32 finds; `left` is 32 - i.
unfoldable pub first_set : ℕ → ℕ → (ℕ → Bool) → Option ℕ
first_set zero i bitmap = none
first_set (suc left) i bitmap = if bitmap i then some i else first_set left (i + 1) bitmap

abbrev pub clear_bit : Segment → ℕ → Segment
clear_bit seg i = record seg { bitmap = put seg.bitmap i false }

-- From `off = seg->bins[i]` on: the offset of the block, or 0, and the segment.
unfoldable pub pop_bin : Segment → ℕ → ℕ × Segment
pop_bin seg i =
    let off = seg.bins i in
    let next = seg.links off in
    let popped : Segment = record seg { bins = put seg.bins i next } in
    if off == 0
    then (0, clear_bit seg i)
    else if unsafe seg off
    then (0, seg)
    else if ltb seg.limit (off + header_bytes + 8)
    then (0, clear_bit (record seg { bins = put seg.bins i 0 }) i)
    else (off, if next == 0 then clear_bit popped i else popped)

unfoldable pub membin_pop : Segment → ℕ → ℕ × Segment
unfolding first_set pop_bin
membin_pop seg need = elim (first_set (bin_count - membin_get need) (membin_get need) seg.bitmap) [
  | none ↦ (0, seg)
  | some i ↦ pop_bin seg i
]

unfoldable pub membin_push : Segment → ℕ → Segment
membin_push seg off =
    let i = membin_get (seg.headers off).size in
    if unsafe seg off then seg else record seg {
      links = put seg.links off (seg.bins i);
      bins = put seg.bins i off;
      bitmap = put seg.bitmap i true;
    }

-- while (cur) { ... }: `none` means that the fuel ran out.
unfoldable pub unlink_loop : ℕ → (ℕ → ℕ) → ℕ → ℕ → Option (ℕ → ℕ)
unlink_loop zero links cur off = none
unlink_loop (suc f) links cur off =
    let rest = unlink_loop f links (links cur) off in
    if cur == 0
    then some links
    else if links cur == off
    then some (put links cur (links off))
    else rest

unfoldable pub membin_remove : ℕ → Segment → ℕ → Option Segment
unfolding unlink_loop
membin_remove f seg off =
    let i = membin_get (seg.headers off).size in
    let tidy : Segment → Segment = λ s. if s.bins i == 0 then clear_bit s i else s in
    if unsafe seg off
    then some seg
    else if seg.bins i == off
    then some (tidy (record seg { bins = put seg.bins i (seg.links off) }))
    else (elim (unlink_loop f seg.links (seg.bins i) off) [
      | none ↦ none
      | some links' ↦ some (tidy (record seg { links = links' }))
    ])

abbrev pub set_header : Segment → ℕ → Header → Segment
set_header seg off h = record seg { headers = put seg.headers off h }

-- if (h->size >= need + sizeof(__jacl_memhdr_t) + 8) { ... }
unfoldable pub split_block : Segment → ℕ → ℕ → Segment
unfolding membin_push
split_block seg off need =
    let h = seg.headers off in
    let rem : Header = record { size = h.size - need; prev_size = need; flags = 0 } in
    let parted = set_header (set_header seg (off + need) rem) off (record h { size = need }) in
    if leb (need + header_bytes + 8) h.size then membin_push parted (off + need) else seg

-- if (next_off < seg->size) next->prev_size = h->size
unfoldable pub tell_next : Segment → ℕ → Segment
tell_next seg off =
    let size = (seg.headers off).size in
    let next = off + size in
    if ltb next seg.limit
    then set_header seg next (record (seg.headers next) { prev_size = size })
    else seg

-- From the test of the remainder to `h->flags = JACL_HDR_ALLOC`.
unfoldable pub take_block : Segment → ℕ → ℕ → Segment
unfolding split_block tell_next
take_block seg off need =
    let s = tell_next (split_block seg off need) off in
    set_header s off (record (s.headers off) { flags = hdr_alloc })

-- One round of the loop of __jacl_alloc_bins: the offset of the block, or 0 to go on with the
-- next segment.
unfoldable pub alloc_in : Segment → ℕ → ℕ × Segment
unfolding membin_pop membin_push take_block
alloc_in seg need =
    let (off, s) = membin_pop seg need in
    if off == 0
    then (0, s)
    else if ltb (s.headers off).size need
    then (0, membin_push s off)
    else (off, take_block s off need)

-- The number of the segment and the offset of the header, with all segments.
unfoldable pub alloc_bins : List Segment → ℕ → Option (ℕ × ℕ) × List Segment
unfolding alloc_in
alloc_bins [] need = (none, [])
alloc_bins (seg ∷ segs) need =
    let (off, s) = alloc_in seg need in
    let (found, ss) = alloc_bins segs need in
    if off == 0
    then (elim found [ none ↦ none | some (k, o) ↦ some (suc k, o) ], s ∷ ss)
    else (some (0, off), s ∷ segs)

-- if (!(next->flags & JACL_HDR_ALLOC)) { ... }, where there is a block behind.
unfoldable pub merge_next : ℕ → Segment → ℕ → Option Segment
unfolding membin_remove
merge_next f seg off =
    let next = off + (seg.headers off).size in
    let joined : Segment → Segment = λ s.
      let size = (s.headers off).size + (s.headers next).size in
      let s' = set_header s off (record (s.headers off) { size = size }) in
      let after = (off + size) % 2 ^ 32 in
      if ltb after s'.limit
      then set_header s' after (record (s'.headers after) { prev_size = size })
      else s' in
    if ltb next seg.limit && not (is_alloc (seg.headers next))
    then (elim (membin_remove f seg next) [ none ↦ none | some s ↦ some (joined s) ])
    else some seg

-- The same with the block in front: the segment and the offset where the joined block begins.
unfoldable pub merge_previous : ℕ → Segment → ℕ → Option (ℕ × Segment)
unfolding membin_remove
merge_previous f seg off =
    let back = (seg.headers off).prev_size in
    let prev = off - back in
    let joined : Segment → Segment = λ s.
      let size = (s.headers prev).size + (s.headers off).size in
      let s' = set_header s prev (record (s.headers prev) { size = size }) in
      let after = prev + size in
      if ltb after s'.limit
      then set_header s' after (record (s'.headers after) { prev_size = size })
      else s' in
    if ltb 0 off
      && ltb 0 back
      && leb back off
      && leb (prev + header_bytes) seg.limit
      && not (is_alloc (seg.headers prev))
    then (elim (membin_remove f seg prev) [ none ↦ none | some s ↦ some (prev, joined s) ])
    else some (off, seg)

-- __jacl_free_coalesce, with JACL_COALESCING = 1024.
unfoldable pub free_coalesce : ℕ → Segment → ℕ → Option Segment
unfolding merge_next merge_previous membin_push
free_coalesce f seg off =
    if leb 1024 (seg.headers off).size
    then (elim (merge_next f seg off) [
      | none ↦ none
      | some s ↦ elim (merge_previous f s off) [
        | none ↦ none
        | some (off', s') ↦ some (membin_push s' off')
      ]
    ])
    else some (membin_push seg off)
