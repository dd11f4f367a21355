-- ===== src/Heap/Released.antt =====
-- A block of include/core/memory.h that is marked as free and pushed to its bin, without a merge.
use jaclibc.Base.{
  ℕ, ◌+◌, ◌≤◌, inl, true, false, ◌<◌, ◌≡◌, ◌≢◌, List, [], ◌∷◌, arith, sym, ap, subst, ◌∙◌, if_cases,
}
use jaclibc.Alloc.{unsafe, Header, Segment, put, membin_get, membin_push, set_header}
use jaclibc.Alloc.Tiles.{Tiles, Tiles-frame, Tiles-le, Tiles-apart}
use jaclibc.Alloc.Lists.{In, Chain, IsSegment, IsOut}
use jaclibc.Alloc.Split.{push-IsSegment, IsKept, put_at}
use jaclibc.Alloc.Take.{push-fields}

-- The block at the offset is marked as free.
abbrev pub released : Segment → ℕ → Segment
released s off = set_header s off (record (s.headers off) { flags = 0 })

-- s' is valid, its block at the offset is free, in the list of its bin, where the next search begins, and the
-- other blocks of s that are in use are as they were.
pub record Frees (start : ℕ) (s s' : Segment) (off : ℕ) : Type 0 where
  pub lists : ℕ → List ℕ
  pub valid : IsSegment start s' lists
  pub clean : (s'.headers off).flags ≡ 0
  pub size : (s'.headers off).size ≡ (s.headers off).size
  pub listed : In off (lists (membin_get (s.headers off).size))
  pub head : s'.bins (membin_get (s.headers off).size) ≡ off
  pub marked : s'.bitmap (membin_get (s.headers off).size) ≡ true
  pub used : (x : ℕ) → x ≢ off → Tiles s.headers start x → IsKept start s s' x

Chain-head :
    (links : ℕ → ℕ) (first off : ℕ) (xs : List ℕ)
    → Chain links first xs
    → first ≡ off
    → off ≢ 0
    → In off xs
Chain-head links first off [] c e ne = absurd (ground (arith, c, e, ne))
Chain-head links first off (x ∷ xs) c e ne = inl (sym e ∙ c.0)

module _ (start : ℕ) (s : Segment) (lists : ℕ → List ℕ) (off : ℕ) (h : IsSegment start s lists)
    (at : Tiles s.headers start off) (low : off < s.limit) (busy : (s.headers off).flags ≢ 0) where
  same_size : (q : ℕ) → ((released s off).headers q).size ≡ (s.headers q).size
  same_size q = ground arith

  other : (q : ℕ) → q ≢ off → (released s off).headers q ≡ s.headers q
  other q ne = ground arith

  own : (released s off).headers off ≡ record (s.headers off) { flags = 0 }
  own = ground arith

  tiles : {x : ℕ} → Tiles s.headers start x → Tiles (released s off).headers start x
  tiles t = Tiles-frame (λ q lo hi. same_size q) t

  is_out : IsOut lists off
  is_out j m = busy (h.free j off m).unused

  released-IsSegment : IsSegment start (released s off) lists
  released-IsSegment = record {
    start_in = h.start_in;
    tiled = tiles h.tiled;
    chained = h.chained;
    free = λ j x m.
        let f = h.free j x m in
        let ne : x ≢ off = λ e. is_out j (subst (λ (k : ℕ). In k (lists j)) e m) in
        let e = other x ne in
        record {
          class = subst (λ (v : Header). membin_get v.size ≡ j) (sym e) f.class;
          starts = tiles f.starts;
          inside = f.inside;
          unused = ap (λ (v : Header). v.flags) e ∙ f.unused;
        };
  }

  -- The header of the block is in the segment, so that the push is not refused.
  fits : (32 ≤ (s.headers off).size) × (off + (s.headers off).size ≤ s.limit)
  fits = Tiles-apart at h.tiled low

  not_unsafe : unsafe (released s off) off ≡ false
  not_unsafe = ground (arith, fits.0, fits.1, low)

  abbrev class : ℕ
  class = membin_get (s.headers off).size

  pushed_there :
      ((membin_push (released s off) off).bins class ≡ off)
      × ((membin_push (released s off) off).bitmap class ≡ true)
  unfolding membin_push
  pushed_there =
      if_cases (λ (t : Segment). (t.bins class ≡ off) × (t.bitmap class ≡ true))
        (unsafe (released s off) off) _ _ (λ u. absurd (ground (arith, u, not_unsafe)))
        (λ safe. (
          subst (λ (j : ℕ). put s.bins j off class ≡ off) (sym same_class)
              (put_at s.bins class off),
          subst (λ (j : ℕ). put s.bitmap j true class ≡ true) (sym same_class)
              (put_at s.bitmap class true),
        ))
    where
      same_class : membin_get ((released s off).headers off).size ≡ class
      same_class = ap membin_get (same_size off)

  pub push-Frees : Frees start s (membin_push (released s off) off) off
  push-Frees =
      let (lists', valid, others) =
        push-IsSegment start (released s off) lists off released-IsSegment (tiles at) low
          (ap (λ (v : Header). v.flags) own) is_out in
      let e = (push-fields (released s off) off).0 in
      record {
        lists = lists';
        valid = valid;
        clean = ap (λ (hd : ℕ → Header). (hd off).flags) e ∙ ap (λ (v : Header). v.flags) own;
        size = ap (λ (hd : ℕ → Header). (hd off).size) e ∙ same_size off;
        listed =
            Chain-head (membin_push (released s off) off).links _ off (lists' class)
              (valid.chained class) pushed_there.0 (omega (arith, Tiles-le at, h.start_in));
        head = pushed_there.0;
        marked = pushed_there.1;
        used = λ x ne t. record {
          starts = subst (λ (hd : ℕ → Header). Tiles hd start x) (sym e) (tiles t);
          size = ap (λ (hd : ℕ → Header). (hd x).size) e ∙ same_size x;
          flags =
              ap (λ (hd : ℕ → Header). (hd x).flags) e ∙ ap (λ (v : Header). v.flags) (other x ne);
        };
      }
