-- ===== src/Regex/Matcher.antt =====
-- include/core/match.h: the switch over the primitives, and matchfind.
pub mod Steps
pub mod Loops
pub mod Looks
pub mod Depth
pub mod Exec
pub mod Gate
pub mod Total
pub mod Long
pub mod Spec
pub mod Sound
pub mod Repeats
pub mod Found
use jaclibc.Base.{
  ℕ, zero, suc, ◌+◌, ◌-◌, ◌*◌, ◌/◌, ◌%◌, Bool, true, false, not, ◌&&◌, ◌||◌, ◌==◌, ltb, leb,
  if◌then◌else◌, Option, none, some, List, [], ◌∷◌, min, length, take, drop, get_or,
}
use jaclibc.Alloc.{put}
use jaclibc.Regex.{Ranges, utf8_next, match_fold, in_class}
use jaclibc.Regex.Nodes.{
  Caps, Ctx, Err, Find, Matcher, Node, Subject, Token, after, alt, any, atomic, backref, bol, call,
  cap, char, class, cond, edepth, einternal, end, eol, flags, is_cont, is_edepth, is_seq,
  is_success, look, max_backtrack, max_depth, max_offsets, next_at, nomatch, nwb, rep, seq,
  skip_back, skip_tails, success, wb,
}
use jaclibc.Regex.Prims.{
  prim_char, prim_class, prim_any, prim_bol, prim_eol, prim_cap, seq_loop, prim_alt, prim_rep,
  prim_look, prim_backref, prim_atomic, prim_cond, prim_wb, prim_call,
}

module _ (is_named : List ℕ → ℕ → Bool) (towlower : ℕ → ℕ) (is_word : ℕ → Bool) (e : Subject) where
  -- The switch on the type of the node i.
  unfoldable pub dispatch : Token → Find → Ctx → ℕ → ℕ → Option (Ctx × Option ℕ)
  dispatch end run c i pos = some (c, some pos)
  dispatch char run c i pos = prim_char is_named towlower is_word e run (e.m.arena i) c pos
  dispatch class run c i pos = prim_class is_named towlower is_word e run (e.m.arena i) c pos
  dispatch any run c i pos = prim_any is_named towlower is_word e run (e.m.arena i) c pos
  dispatch bol run c i pos = prim_bol is_named towlower is_word e run (e.m.arena i) c pos
  dispatch eol run c i pos = prim_eol is_named towlower is_word e run (e.m.arena i) c pos
  dispatch cap run c i pos = prim_cap is_named towlower is_word e run (e.m.arena i) c pos
  dispatch alt run c i pos = prim_alt is_named towlower is_word e run (e.m.arena i) c pos
  dispatch seq run c i pos = seq_loop is_named towlower is_word e (i + 1) run c i pos
  dispatch rep run c i pos = prim_rep is_named towlower is_word e run (e.m.arena i) c pos
  dispatch look run c i pos = prim_look is_named towlower is_word e run (e.m.arena i) c pos
  dispatch backref run c i pos = prim_backref is_named towlower is_word e run (e.m.arena i) c pos
  dispatch wb run c i pos = prim_wb is_named towlower is_word e run false (e.m.arena i) c pos
  dispatch nwb run c i pos = prim_wb is_named towlower is_word e run true (e.m.arena i) c pos
  dispatch flags run c i pos = run c (e.m.arena i).a pos
  dispatch atomic run c i pos = prim_atomic is_named towlower is_word e run (e.m.arena i) c pos
  dispatch cond run c i pos = prim_cond is_named towlower is_word e run (e.m.arena i) c pos
  dispatch call run c i pos = prim_call is_named towlower is_word e run (e.m.arena i) c pos

  -- The depth goes up where a node is visited, and does not come down again: the cases of the switch return.
  unfoldable pub matchfind : ℕ → Find
  matchfind zero c i pos = none
  matchfind (suc f) c i pos = elim (ltb max_depth (c.depth + 1)) [
    | true ↦ some (record c { err = edepth }, none)
    | false ↦ elim (i == 0) [
      | true ↦ some (c, some pos)
      | false ↦ dispatch (e.m.arena i).type (matchfind f) (record c { depth = c.depth + 1 }) i pos
    ]
  ]
