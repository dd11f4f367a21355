-- ===== src/Alloc/Take.antt =====
-- What splitting a block, telling the next one and marking it leave of a segment.
use jaclibc.Base.{
  ℕ, ◌+◌, ◌-◌, ◌≤◌, ◌<◌, ◌≡◌, ◌≢◌, ltb, leb, ◌==◌, ==_iff, leb→le, List, arith, refl, sym, ap,
  subst, ◌∙◌, if_cases,
}
use jaclibc.Alloc.{
  Header, Segment, put, membin_get, membin_push, split_block, tell_next, take_block, hdr_alloc,
  header_bytes, unsafe,
}
use jaclibc.Alloc.Tiles.{Tiles, Tiles-apart, Tiles-frame, Tiles-split, split_rest}
use jaclibc.Alloc.Lists.{In, IsSegment, IsOut}
use jaclibc.Alloc.Split.{put_off, put_at, push-IsSegment, reheader-IsSegment, Leaves}

pub push-fields :
    (s : Segment) (off : ℕ)
    → ((membin_push s off).headers ≡ s.headers) × ((membin_push s off).limit ≡ s.limit)
unfolding membin_push
push-fields s off =
    if_cases (λ (t : Segment). (t.headers ≡ s.headers) × (t.limit ≡ s.limit)) (unsafe s off) _ _
      (λ u. (refl, refl)) (λ safe. (refl, refl))

module _ (start : ℕ) (s : Segment) (lists : ℕ → List ℕ) (off need : ℕ) (h : IsSegment start s lists)
    (at : Tiles s.headers start off) (low : off < s.limit) (out : IsOut lists off)
    (small : 32 ≤ need) (fits : need ≤ (s.headers off).size) where
  whole : (32 ≤ (s.headers off).size) × (off + (s.headers off).size ≤ s.limit)
  whole = Tiles-apart at h.tiled low

  unsplit : Leaves start s off need s
  unsplit = record {
    lists = lists;
    valid = h;
    out = out;
    limit = refl;
    starts = at;
    enough = fits;
    kept = λ x ne t. record { starts = t; size = refl; flags = refl };
  }

  module _ (room : need + 32 ≤ (s.headers off).size) where
    rem : Header
    rem = record { size = (s.headers off).size - need; prev_size = need; flags = 0 }

    headers' : ℕ → Header
    headers' = put (put s.headers (off + need) rem) off (record (s.headers off) { size = need })

    at_off : headers' off ≡ record (s.headers off) { size = need }
    unfolding headers'
    at_off = put_at (put s.headers (off + need) rem) off (record (s.headers off) { size = need })

    at_rest : headers' (off + need) ≡ rem
    unfolding headers'
    at_rest =
        put_off (put s.headers (off + need) rem) off (record (s.headers off) { size = need })
          (off + need) (omega arith)
        ∙ put_at s.headers (off + need) rem

    elsewhere : (q : ℕ) → q ≢ off → q ≢ off + need → headers' q ≡ s.headers q
    unfolding headers'
    elsewhere q ne ne' =
        put_off (put s.headers (off + need) rem) off (record (s.headers off) { size = need }) q ne
        ∙ put_off s.headers (off + need) rem q ne'

    moved : (x : ℕ) → Tiles s.headers start x → Tiles headers' start x
    unfolding rem
    moved =
        Tiles-split s.headers headers' start off need at small room
          (ap (λ (k : Header). k.size) at_off) (ap (λ (k : Header). k.size) at_rest)
          (λ q ne ne'. ap (λ (k : Header). k.size) (elsewhere q ne ne'))

    second : Tiles headers' start (off + need)
    unfolding rem
    second =
        split_rest s.headers headers' start off need at small room
          (ap (λ (k : Header). k.size) at_off) (ap (λ (k : Header). k.size) at_rest)
          (λ q ne ne'. ap (λ (k : Header). k.size) (elsewhere q ne ne'))

    -- No block begins within another.
    not_inside : (x : ℕ) → Tiles s.headers start x → x ≢ off + need
    not_inside x t e = let (_, le) = Tiles-apart at t (omega arith) in omega arith

    same_header : (x : ℕ) → x ≢ off → Tiles s.headers start x → headers' x ≡ s.headers x
    same_header x ne t = elsewhere x ne (not_inside x t)

    parted : Segment
    parted = record s { headers = headers' }

    parted-IsSegment : IsSegment start parted lists
    unfolding parted
    parted-IsSegment = record {
      start_in = h.start_in;
      tiled = moved s.limit h.tiled;
      chained = h.chained;
      free = λ j x m.
          let f = h.free j x m in
          let same = same_header x (λ e. out j (subst (λ (k : ℕ). In k (lists j)) e m)) f.starts in
          record {
            class = ap (λ (k : Header). membin_get k.size) same ∙ f.class;
            starts = moved x f.starts;
            inside = f.inside;
            unused = ap (λ (k : Header). k.flags) same ∙ f.unused;
          };
    }

    split : Leaves start s off need (membin_push parted (off + need))
    unfolding parted rem
    split =
        let (lists', valid, others) =
          push-IsSegment start parted lists (off + need) parted-IsSegment second
            (omega (arith, whole.1)) (ap (λ (k : Header). k.flags) at_rest)
            (λ j m. not_inside (off + need) (h.free j (off + need) m).starts refl) in
        let (same_headers, same_limit) = push-fields parted (off + need) in
        let pick : (P : (ℕ → Header) → Type 0)
            → P headers'
            → P (membin_push parted (off + need)).headers =
          λ P p. subst P (sym same_headers) p in
        record {
          lists = lists';
          valid = valid;
          out = others off (omega arith) out;
          limit = same_limit;
          starts = pick (λ hd. Tiles hd start off) (moved off at);
          enough =
              pick (λ hd. need ≤ (hd off).size) (omega (arith, ap (λ (k : Header). k.size) at_off));
          kept = λ x ne t. record {
            starts = pick (λ hd. Tiles hd start x) (moved x t);
            size =
                pick (λ hd. (hd x).size ≡ (s.headers x).size)
                  (ap (λ (k : Header). k.size) (same_header x ne t));
            flags =
                pick (λ hd. (hd x).flags ≡ (s.headers x).flags)
                  (ap (λ (k : Header). k.flags) (same_header x ne t));
          };
        }

  split_block_lem : Leaves start s off need (split_block s off need)
  unfolding split_block split parted headers' rem
  split_block_lem =
      if_cases (Leaves start s off need) (leb (need + header_bytes + 8) (s.headers off).size) _ _
        (λ e. split (omega (arith, leb→le (need + 24 + 8) (s.headers off).size e))) (λ e. unsplit)

-- Headers that keep every size, and the flags of all blocks but the one at off.
Leaves-reheader :
    (start : ℕ) (s : Segment) (off need : ℕ) (s' : Segment) (headers' : ℕ → Header)
    → Leaves start s off need s'
    → ((q : ℕ) → (headers' q).size ≡ (s'.headers q).size)
    → ((q : ℕ) → q ≢ off → (headers' q).flags ≡ (s'.headers q).flags)
    → Leaves start s off need (record s' { headers = headers' })
Leaves-reheader start s off need s' headers' l sizes flags = record {
  lists = l.lists;
  valid = reheader-IsSegment start s' l.lists headers' off l.valid l.out sizes flags;
  out = l.out;
  limit = l.limit;
  starts = Tiles-frame (λ q lo hi. sizes q) l.starts;
  enough = omega (arith, sizes off, l.enough);
  kept = λ x ne t.
      let k = l.kept x ne t in
      record {
        starts = Tiles-frame (λ q lo hi. sizes q) k.starts;
        size = sizes x ∙ k.size;
        flags = flags x ne ∙ k.flags;
      };
}

-- Writing one header in which the size stays.
put-size :
    (headers : ℕ → Header) (k : ℕ) (v : Header) (q : ℕ)
    → v.size ≡ (headers k).size
    → (put headers k v q).size ≡ (headers q).size
put-size headers k v q e =
    if_cases (λ (a : Header). a.size ≡ (headers q).size) (q == k) _ _
      (λ same. e ∙ ap (λ (n : ℕ). (headers n).size) (sym ((==_iff q k).0 same))) (λ other. refl)

put-flags :
    (headers : ℕ → Header) (k : ℕ) (v : Header) (q : ℕ)
    → v.flags ≡ (headers k).flags
    → (put headers k v q).flags ≡ (headers q).flags
put-flags headers k v q e =
    if_cases (λ (a : Header). a.flags ≡ (headers q).flags) (q == k) _ _
      (λ same. e ∙ ap (λ (n : ℕ). (headers n).flags) (sym ((==_iff q k).0 same))) (λ other. refl)

tell_next_lem :
    (start : ℕ) (s : Segment) (off need : ℕ) (s' : Segment)
    → Leaves start s off need s'
    → Leaves start s off need (tell_next s' off)
unfolding tell_next
tell_next_lem start s off need s' l =
    if_cases (Leaves start s off need) (ltb (off + (s'.headers off).size) s'.limit) _ _
      (λ e.
        Leaves-reheader start s off need s' _ l (λ q. put-size s'.headers _ _ q refl)
          (λ q ne. put-flags s'.headers _ _ q refl))
      (λ e. l)

-- A free block that is in no list, and is large enough, is handed out: it is marked, has the size
-- needed, and every other block keeps its place, size and flags.
pub take_block_lem :
    (start : ℕ) (s : Segment) (lists : ℕ → List ℕ) (off need : ℕ)
    → IsSegment start s lists
    → Tiles s.headers start off
    → off < s.limit
    → IsOut lists off
    → 32 ≤ need
    → need ≤ (s.headers off).size
    → let s' = take_block s off need in
      Leaves start s off need s' × ((s'.headers off).flags ≡ hdr_alloc)
unfolding take_block
take_block_lem start s lists off need h at low out small fits =
    let t = tell_next (split_block s off need) off in
    let l =
      tell_next_lem start s off need (split_block s off need)
        (split_block_lem start s lists off need h at low out small fits) in
    let marked : Header = record (t.headers off) { flags = hdr_alloc } in
    (
      Leaves-reheader start s off need t (put t.headers off marked) l
          (λ q. put-size t.headers off marked q refl)
          (λ q ne. ap (λ (k : Header). k.flags) (put_off t.headers off marked q ne)),
      ap (λ (k : Header). k.flags) (put_at t.headers off marked),
    )
