-- ===== src/Regex.antt =====
-- include/core/match.h: the characters of a subject, and the classes of characters of a pattern. A matcher keeps
-- 32 ranges in arrays, each with the number of its class. Whether a character is in a named class, which
-- wctype.h decides by its tables, is a parameter, and so is towlower.
pub mod Basic
pub mod Chars
pub mod Matcher
pub mod Api
pub mod Merge
pub mod Nodes
pub mod Prims
pub mod Loop
pub mod Classes
use jaclibc.Base.{
  ℕ, zero, suc, ◌+◌, ◌-◌, ◌*◌, ◌/◌, ◌%◌, ◌^◌, min, max, Bool, true, false, not, ◌&&◌, ◌||◌, ◌==◌,
  ltb, leb, if◌then◌else◌, Option, none, some, List, [], ◌∷◌,
}
use jaclibc.Alloc.{put}

-- while (len-- && *p < end) { ... }: the code and the bytes that are left.
unfoldable pub tail_loop : ℕ → ℕ → List ℕ → ℕ × List ℕ
tail_loop zero cp s = (cp, s)
tail_loop (suc len) cp [] = (cp, [])
tail_loop (suc len) cp (b ∷ s) = tail_loop len (cp * 64 + b % 64) s

-- On the bytes as far as `end`. The masks are quotients and remainders of a byte.
unfoldable pub utf8_next : List ℕ → ℕ × List ℕ
unfolding tail_loop
utf8_next [] = (0xFFFD, [])
utf8_next (b ∷ s) =
    if ltb b 0x80
    then (b, s)
    else if b / 32 == 6
    then tail_loop 1 (b % 32) s
    else if b / 16 == 14
    then tail_loop 2 (b % 16) s
    else if b / 8 == 30
    then tail_loop 3 (b % 8) s
    else (0xFFFD, [])

-- The ranges of a matcher_t: the first nr entries of its arrays. A name is `none` where cname is NULL.
pub record Ranges : Type 0 where
  pub nr : ℕ
  pub rlo : ℕ → ℕ
  pub rhi : ℕ → ℕ
  pub rcid : ℕ → ℕ
  pub rneg : ℕ → Bool
  pub cname : ℕ → Option (List ℕ)
  pub has_unicode : Bool

-- The entry i is of another class, or is neither next to lo to hi nor meets it, in 32 bits.
unfoldable pub passes : Ranges → ℕ → ℕ → ℕ → ℕ → Bool
passes m i lo hi cid =
    not (m.rcid i == cid)
    || ltb ((m.rhi i + 1) % 2 ^ 32) lo
    || ltb hi ((m.rlo i + 2 ^ 32 - 1) % 2 ^ 32)

-- memmove(&m->rlo[i], &m->rlo[i+1], count * 4), which moves that many entries of rlo.
unfoldable pub shift_low : (ℕ → ℕ) → ℕ → ℕ → ℕ → ℕ
shift_low rlo i count j = if leb i j && ltb j (i + count) then rlo (j + 1) else rlo j

-- for (int i = 0; i < m->nr; i++) { ... }, with `left` entries from i on: the ranges, lo and hi. `none` is
-- a memmove that goes beyond rlo. A name that is freed stays, as its pointer does.
unfoldable pub merge_loop : ℕ → ℕ → Ranges → ℕ → ℕ → ℕ → Option (Ranges × ℕ × ℕ)
merge_loop zero i m lo hi cid = some (m, lo, hi)
merge_loop (suc left) i m lo hi cid =
    let count = (m.nr - 1 - i) * 4 in
    let passed = merge_loop left (i + 1) m lo hi cid in
    let merged =
      merge_loop left i (record m { nr = m.nr - 1; rlo = shift_low m.rlo i count })
        (min lo (m.rlo i)) (max hi (m.rhi i)) cid in
    if passes m i lo hi cid then passed else if ltb 32 (i + 1 + count) then none else merged

-- The line behind the loop of add_range.
abbrev pub append_range : Ranges → ℕ → ℕ → ℕ → Bool → Ranges
append_range m lo hi cid neg = record m {
  nr = m.nr + 1;
  rlo = put m.rlo m.nr lo;
  rhi = put m.rhi m.nr hi;
  rcid = put m.rcid m.nr cid;
  rneg = put m.rneg m.nr neg;
  cname = put m.cname m.nr none;
}

unfoldable pub add_range : Ranges → ℕ → ℕ → ℕ → Bool → Option Ranges
add_range m lo hi cid neg =
    let m0 : Ranges = record m { has_unicode = m.has_unicode || leb 128 lo } in
    if ltb hi lo || leb 32 m.nr then some m else (elim (merge_loop m.nr 0 m0 lo hi cid) [
      | none ↦ none
      | some (m', lo', hi') ↦ some (append_range m' lo' hi' cid neg)
    ])

-- Where there is room for the name.
unfoldable pub resolve_cclass : Ranges → List ℕ → ℕ → Bool → Ranges
resolve_cclass m name cid neg = if leb 32 m.nr then m else record m {
  nr = m.nr + 1;
  rlo = put m.rlo m.nr 0;
  rhi = put m.rhi m.nr 0;
  rcid = put m.rcid m.nr cid;
  rneg = put m.rneg m.nr neg;
  cname = put m.cname m.nr (some name);
  has_unicode = true;
}

module _ (is_named : List ℕ → ℕ → Bool) (towlower : ℕ → ℕ) where
  unfoldable pub match_fold : ℕ → ℕ → Bool → Bool
  match_fold cp m ic = cp == m || (ic && towlower cp == towlower m)

  -- What the entry i says of cp.
  unfoldable pub entry_has : Ranges → ℕ → ℕ → Bool
  entry_has m i cp = elim (m.cname i) [
    | some name ↦ is_named name cp
    | none ↦ leb (m.rlo i) cp && leb cp (m.rhi i)
  ]

  -- for (int i = 0; i < m->nr; i++) { ... }: found, in_range and neg.
  unfoldable pub member_loop : ℕ → ℕ → Ranges → ℕ → ℕ → Bool → Bool → Bool → Bool × Bool × Bool
  member_loop zero i m cp cid found in_range neg = (found, in_range, neg)
  member_loop (suc left) i m cp cid found in_range neg =
      let same = m.rcid i == cid in
      member_loop left (i + 1) m cp cid (found || same) (in_range || (same && entry_has m i cp))
        (if same then m.rneg i else neg)

  -- The second loop, for the letter f in the other case.
  unfoldable pub case_loop : ℕ → ℕ → Ranges → ℕ → ℕ → Bool
  case_loop zero i m f cid = false
  case_loop (suc left) i m f cid =
      let named : Bool = elim (m.cname i) [ none ↦ false | some _ ↦ true ] in
      (m.rcid i == cid && not named && leb (m.rlo i) f && leb f (m.rhi i))
      || case_loop left (i + 1) m f cid

  unfoldable pub in_class : Ranges → ℕ → ℕ → Bool → Bool
  in_class m cp cid ic =
      let (found, in_range, neg) = member_loop m.nr 0 m cp cid false false false in
      let f =
        if leb b'A' cp && leb cp b'Z'
        then cp + 32
        else if leb b'a' cp && leb cp b'z'
        then cp - 32
        else cp in
      if not found
      then false
      else if neg
      then not in_range
      else if in_range
      then true
      else ic && ltb cp 0x80 && case_loop m.nr 0 m f cid
