-- ===== src/Regex/Prims.antt =====
-- include/core/match.h: the primitive matchers, over a call of matchfind. The arrays of the workspace of
-- repetitions are shared by all calls. iswalnum with '_' is `is_word`.
use jaclibc.Base.{
  ℕ, zero, suc, ◌+◌, ◌-◌, ◌*◌, ◌/◌, ◌%◌, Bool, true, false, not, ◌&&◌, ◌||◌, ◌==◌, ltb, leb,
  if◌then◌else◌, Option, none, some, List, length, get_or,
}
use jaclibc.Alloc.{put}
use jaclibc.Regex.{match_fold, in_class}
use jaclibc.Regex.Nodes.{
  Caps, Ctx, Find, Node, Subject, after, einternal, is_edepth, is_seq, is_success, max_backtrack,
  max_offsets, next_at, skip_back, skip_tails,
}

module _ (is_named : List ℕ → ℕ → Bool) (towlower : ℕ → ℕ) (is_word : ℕ → Bool) (e : Subject) where
  abbrev pub fail : Ctx → Option (Ctx × Option ℕ)
  fail c = some (c, none)

  abbrev pub at_end : ℕ → Bool
  at_end pos = leb (length e.s) pos

  unfoldable pub prim_char : Find → Node → Ctx → ℕ → Option (Ctx × Option ℕ)
  prim_char run n c pos =
      let b = get_or e.s pos 0 in
      let (cp, next) = next_at e.s (length e.s) pos in
      if at_end pos
      then fail c
      else if ltb b 0x80
      then (if match_fold is_named towlower b n.val c.ic then run c n.b (pos + 1) else fail c)
      else if match_fold is_named towlower cp n.val c.ic
      then run c n.b next
      else fail c

  unfoldable pub prim_class : Find → Node → Ctx → ℕ → Option (Ctx × Option ℕ)
  prim_class run n c pos =
      let b = get_or e.s pos 0 in
      let (cp, next) : ℕ × ℕ =
        if not e.m.ranges.has_unicode && ltb b 0x80
        then (b, pos + 1)
        else next_at e.s (length e.s) pos in
      if at_end pos
      then fail c
      else if in_class is_named towlower e.m.ranges cp n.val c.ic
      then run c n.b next
      else fail c

  unfoldable pub prim_any : Find → Node → Ctx → ℕ → Option (Ctx × Option ℕ)
  prim_any run n c pos =
      let b = get_or e.s pos 0 in
      let next =
        if ltb b 0x80 then pos + 1 else skip_tails (length e.s - (pos + 1)) e.s (pos + 1) in
      if at_end pos then fail c else if not n.dotall && b == 10 then fail c else run c n.b next

  unfoldable pub prim_bol : Find → Node → Ctx → ℕ → Option (Ctx × Option ℕ)
  prim_bol run n c pos =
      if e.notbol
      then fail c
      else if pos == 0 || (e.nl && ltb 0 pos && get_or e.s (pos - 1) 0 == 10)
      then run c n.b pos
      else fail c

  unfoldable pub prim_eol : Find → Node → Ctx → ℕ → Option (Ctx × Option ℕ)
  prim_eol run n c pos =
      if e.noteol
      then fail c
      else if pos == length e.s || (e.nl && ltb pos (length e.s) && get_or e.s pos 0 == 10)
      then run c n.b pos
      else fail c

  -- The captures of the group get back what they had.
  abbrev pub undo : Ctx → Ctx → ℕ → Ctx
  undo c0 c idx = record c {
    caps = put (put c.caps idx (c0.caps idx)) (idx + 1) (c0.caps (idx + 1));
  }

  unfoldable pub prim_cap : Find → Node → Ctx → ℕ → Option (Ctx × Option ℕ)
  prim_cap run n c pos =
      let idx = n.cap_id * 2 in
      if leb max_offsets (idx + 1)
      then fail (record c { err = einternal })
      else after (run (record c { caps = put c.caps idx (some pos) }) n.a pos)
          (λ c1. fail (undo c c1 idx))
          (λ c1 r.
            if not (is_success c1.err)
            then fail (undo c c1 idx)
            else after (run (record c1 { caps = put c1.caps (idx + 1) (some r) }) n.b r)
                (λ c2. fail (undo c c2 idx)) (λ c2 q. some (c2, some q)))

  -- The loop, which takes as many rounds as its argument, and the line behind it.
  unfoldable pub seq_loop : ℕ → Find → Ctx → ℕ → ℕ → Option (Ctx × Option ℕ)
  seq_loop zero run c i pos = none
  seq_loop (suc f) run c i pos =
      let n = e.m.arena i in
      let go_on : Ctx → ℕ → Option (Ctx × Option ℕ) = λ c1 r.
        seq_loop f run (if n.b == 0 then c1 else record c1 { ic = (e.m.arena n.b).icase || c1.ic })
          n.b r in
      elim (i == 0 || not (is_seq n.type)) [
        | true ↦ run c i pos
        | false ↦
            after (run c n.a pos) fail
              (λ c1 r. elim (is_success c1.err) [ true ↦ go_on c1 r | false ↦ fail c1 ])
      ]

  unfoldable pub prim_alt : Find → Node → Ctx → ℕ → Option (Ctx × Option ℕ)
  prim_alt run n c pos =
      after (run c n.a pos)
        (λ c1. if is_edepth c1.err then fail c1 else run (record c1 { caps = c.caps }) n.b pos)
        (λ c1 r. some (c1, some r))

  -- while (k < MATCH_MAX_BACKTRACK - 1 && ...) { ... }, with `left` rounds to the bound: k.
  unfoldable pub rep_grow : ℕ → Find → Node → Ctx → ℕ → Option (Ctx × ℕ)
  rep_grow zero run n c k = some (c, k)
  rep_grow (suc left) run n c k =
      let grown : Ctx → ℕ → Ctx = λ c1 next. record c1 {
        path = put c1.path (k + 1) next;
        cpath = put c1.cpath (k + 1) c1.caps;
      } in
      elim (n.most == 255 || ltb k n.most) [
        | false ↦ some (c, k)
        | true ↦
            after (run (record c { cpath = put c.cpath (k + 1) c.caps }) n.a (c.path k))
              (λ c1. some (c1, k))
              (λ c1 next. elim (next == c1.path k) [
                | true ↦ some (c1, k)
                | false ↦ rep_grow left run n (grown c1 next) (k + 1)
              ])
      ]

  -- The loop over the lengths, with `count` of them from i on, upwards where it is lazy.
  unfoldable pub rep_try : ℕ → Find → Node → Ctx → ℕ → Option (Ctx × Option ℕ)
  rep_try zero run n c i = fail c
  rep_try (suc count) run n c i =
      let c1 : Ctx = record c { caps = c.cpath i } in
      elim (n.b == 0) [
        | true ↦ some (c1, some (c1.path i))
        | false ↦
            after (run c1 n.b (c1.path i))
              (λ c2. elim (is_edepth c2.err) [
                | true ↦ fail c2
                | false ↦ rep_try count run n c2 (if n.lazy then i + 1 else i - 1)
              ])
              (λ c2 r. some (c2, some r))
      ]

  unfoldable pub prim_rep : Find → Node → Ctx → ℕ → Option (Ctx × Option ℕ)
  prim_rep run n c pos =
      elim (rep_grow (max_backtrack - 1) run n
        (record c { path = put c.path 0 pos; cpath = put c.cpath 0 c.caps }) 0) [
          | none ↦ none
          | some (c1, k) ↦ rep_try (k + 1 - n.least) run n c1 (if n.lazy then n.least else k)
        ]

  -- The loop of a look back from cp, with a round for each offset: whether it found pos.
  unfoldable pub look_back : ℕ → Find → Node → Ctx → Caps → ℕ → ℕ → Option (Ctx × Bool)
  look_back zero run n c scap pos cp = none
  look_back (suc f) run n c scap pos cp =
      let back = skip_back e.s cp in
      let round : Ctx → Bool → Option (Ctx × Bool) = λ c1 found.
        let c2 : Ctx = record c { caps = c1.caps; path = c1.path; cpath = c1.cpath } in
        elim (found || cp == 0 || back == 0) [
          | true ↦ some (c2, found)
          | false ↦ look_back f run n c2 scap pos (back - 1)
        ] in
      after (run (record c { caps = put c.caps 0 (scap 0) }) n.a cp) (λ c1. round c1 false)
        (λ c1 q. round c1 (q == pos))

  -- From `if ((is_neg ? !found : found))` on.
  abbrev pub look_end : Find → Node → Bool → Ctx → ℕ → Bool → Option (Ctx × Option ℕ)
  look_end run n is_neg c pos found =
      if (if is_neg then not found else found) then run c n.b pos else fail c

  -- What a look finds: back where the low bit of extra says so, which is cap_id | (neg << 1).
  unfoldable pub look_in : Find → Node → Ctx → ℕ → Option (Ctx × Bool)
  look_in run n c pos =
      let kept : Ctx → Ctx = λ c1. record c { caps = c1.caps; path = c1.path; cpath = c1.cpath } in
      elim (n.cap_id % 2 == 1) [
        | true ↦ elim (look_back (pos + 1) run n c c.caps pos pos) [
          | none ↦ none
          | some (c1, found) ↦ some (record c1 { caps = c.caps }, found)
        ]
        | false ↦ after (run c n.a pos) (λ c1. some (kept c1, false)) (λ c1 q. some (kept c1, true))
      ]

  unfoldable pub prim_look : Find → Node → Ctx → ℕ → Option (Ctx × Option ℕ)
  prim_look run n c pos =
      let is_neg = n.neg || n.cap_id / 2 % 2 == 1 in
      elim (look_in run n c pos) [
        | none ↦ none
        | some (c1, found) ↦ look_end run n is_neg c1 pos found
      ]

  -- while (ref_start < ref_end && curr < c->end) { ... }, with a round for each byte of the reference:
  -- what ref_start and curr are then, or `none` for the return of 0.
  unfoldable pub ref_loop : ℕ → Bool → ℕ → ℕ → ℕ → Option (ℕ × ℕ)
  ref_loop zero ic from limit curr = some (from, curr)
  ref_loop (suc left) ic from limit curr =
      let (a, from') = next_at e.s limit from in
      let (b, curr') = next_at e.s (length e.s) curr in
      let rest = ref_loop left ic from' limit curr' in
      if ltb from limit && ltb curr (length e.s)
      then (if match_fold is_named towlower a b ic then rest else none)
      else some (from, curr)

  unfoldable pub prim_backref : Find → Node → Ctx → ℕ → Option (Ctx × Option ℕ)
  prim_backref run n c pos =
      let idx = n.val * 2 in
      if leb max_offsets (idx + 1)
      then fail (record c { err = einternal })
      else (elim (c.caps idx) [
        | none ↦ fail c
        | some so ↦ elim (c.caps (idx + 1)) [
          | none ↦ fail c
          | some eo ↦ elim (ref_loop (eo - so) c.ic so eo pos) [
            | none ↦ fail c
            | some (from, curr) ↦ if from == eo then run c n.b curr else fail c
          ]
        ]
      ])

  unfoldable pub prim_atomic : Find → Node → Ctx → ℕ → Option (Ctx × Option ℕ)
  prim_atomic run n c pos = after (run c n.a pos) fail (λ c1 r.
      if not (is_success c1.err)
      then fail c1
      else if n.b == 0
      then some (c1, some r)
      else run c1 n.b r)

  unfoldable pub prim_cond : Find → Node → Ctx → ℕ → Option (Ctx × Option ℕ)
  prim_cond run n c pos =
      let idx = n.val * 2 in
      let matched : Bool =
        ltb idx max_offsets && (elim (c.caps idx) [ none ↦ false | some _ ↦ true ]) in
      let b = if matched then n.a else n.b in if b == 0 then some (c, some pos) else run c b pos

  unfoldable pub prim_wb : Find → Bool → Node → Ctx → ℕ → Option (Ctx × Option ℕ)
  prim_wb run neg n c pos =
      let prev = is_word (next_at e.s pos (skip_back e.s (pos - 1))).0 in
      let curr = is_word (next_at e.s (length e.s) pos).0 in
      let same = (prev && curr) || (not prev && not curr) in
      if pos == 0 || pos == length e.s
      then (if neg then fail c else run c n.b pos)
      else if (if neg then same else not same)
      then run c n.b pos
      else fail c

  unfoldable pub prim_call : Find → Node → Ctx → ℕ → Option (Ctx × Option ℕ)
  prim_call run n c pos =
      if n.val == 0
      then run c e.m.root pos
      else if not (ltb n.val 32 && not (e.m.groups n.val == 0))
      then fail c
      else run c (e.m.groups n.val) pos
