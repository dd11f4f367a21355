-- ===== src/Regex/Matcher/Exec.antt =====
-- include/core/match.h: matchexec, and matchgate in front of it. The calls of matchfind have fuel for each depth
-- that the guard lets pass.
use jaclibc.Base.{
  ℕ, zero, suc, ◌+◌, ◌-◌, ◌*◌, Bool, true, false, not, ◌&&◌, ◌||◌, ◌==◌, ltb, leb, if◌then◌else◌,
  Option, none, some, List, [], ◌∷◌, length,
}
use jaclibc.Regex.Nodes.{
  Token, bol, Matcher, Subject, Caps, Ctx, Err, success, nomatch, edepth, is_success, is_edepth,
  after, max_depth, max_offsets,
}
use jaclibc.Regex.Matcher.{matchfind}

-- The flags of an execution that are read.
pub record ExecFlags : Type 0 where
  pub icase : Bool
  pub newline : Bool
  pub notbol : Bool
  pub noteol : Bool

-- M_SUCCESS with the entries of pm that are written, or the error; `overrun` where the captures are read
-- behind their array, so that there is no result.
pub data ExecResult : Type 0 where
  matched : List (Option ℕ × Option ℕ) → ExecResult
  failed : Err → ExecResult
  overrun : ExecResult

-- A byte with ASCII letters in lower case, where case is ignored.
unfoldable pub lower_byte : Bool → ℕ → ℕ
lower_byte ic b = if ic && leb b'A' b && leb b b'Z' then b + 32 else b

unfoldable pub has_literal : Bool → List ℕ → List ℕ → Bool
has_literal ic [] s = true
has_literal ic (a ∷ lit) [] = false
has_literal ic (a ∷ lit) (b ∷ s) = lower_byte ic a == lower_byte ic b && has_literal ic lit s

-- The loops of matchgate from the offset p on; the first is the second for a literal of one byte.
unfoldable pub gate_loop : Bool → List ℕ → List ℕ → ℕ → Option ℕ
gate_loop ic lit [] p = none
gate_loop ic lit (b ∷ s) p =
    let rest = gate_loop ic lit s (p + 1) in if has_literal ic lit (b ∷ s) then some p else rest

unfoldable pub matchgate : Bool → List ℕ → List ℕ → Option ℕ
matchgate ic [] s = some 0
matchgate ic (a ∷ lit) s = gate_loop ic (a ∷ lit) s 0

abbrev pub is_bol : Token → Bool
is_bol t = elim t [ bol ↦ true | other ↦ false ]

-- for (size_t i = 1; i < nm; i++) { ... }, with `count` entries from i on; `none` where one is
-- behind the array local_caps.
unfoldable pub group_offsets : ℕ → ℕ → Caps → Option (List (Option ℕ × Option ℕ))
group_offsets zero i caps = some []
group_offsets (suc count) i caps =
    let rest = group_offsets count (i + 1) caps in
    if leb max_offsets (i * 2 + 1)
    then none
    else (elim rest [ none ↦ none | some pm ↦ some ((caps (i * 2), caps (i * 2 + 1)) ∷ pm) ])

-- if (pm && nm > 0) { ... }: nm is 0 for a null pm.
unfoldable pub store_offsets : ℕ → ℕ → ℕ → Caps → ExecResult
store_offsets zero so eo caps = matched []
store_offsets (suc count) so eo caps = elim (group_offsets count 1 caps) [
  | none ↦ overrun
  | some pm ↦ matched ((some so, some eo) ∷ pm)
]

module _ (is_named : List ℕ → ℕ → Bool) (towlower : ℕ → ℕ) (is_word : ℕ → Bool) (e : Subject)
    (nm : ℕ) where
  abbrev pub is_anchored : Bool
  is_anchored = not (e.m.root == 0) && is_bol (e.m.arena e.m.root).type

  -- for (; start <= end; start++) { ... }, with `left` offsets to the end, and the return behind it.
  unfoldable pub exec_loop : ℕ → Ctx → ℕ → Option ExecResult
  exec_loop zero c start = some (failed (if is_success c.err then nomatch else c.err))
  exec_loop (suc left) c start = elim (ltb max_depth c.depth) [
    | true ↦ some (failed edepth)
    | false ↦
        after
          (matchfind is_named towlower is_word e (max_depth + 1) (record c { caps = λ j. none })
            e.m.root start)
          (λ c1. elim (is_edepth c1.err) [
            | true ↦ some (failed edepth)
            | false ↦ elim is_anchored [
              | true ↦ some (failed (if is_success c1.err then nomatch else c1.err))
              | false ↦ exec_loop left c1 (start + 1)
            ]
          ])
          (λ c1 r. elim (is_edepth c1.err) [
            | true ↦ some (failed edepth)
            | false ↦ some (store_offsets nm start r c1.caps)
          ])
  ]

-- The offsets of the workspace are written before they are read: their first values are any.
abbrev pub exec_start : Matcher → ExecFlags → Ctx
exec_start m fl = record {
  caps = λ j. none;
  depth = 0;
  err = success;
  ic = m.icase || fl.icase;
  path = λ i. 0;
  cpath = λ i j. none;
}

abbrev pub exec_subject : Matcher → ExecFlags → List ℕ → Subject
exec_subject m fl s = record {
  m = m;
  s = s;
  nl = m.newline || fl.newline;
  notbol = fl.notbol;
  noteol = fl.noteol;
}

-- `none` is out of fuel.
unfoldable pub matchexec :
    (List ℕ → ℕ → Bool)
    → (ℕ → ℕ)
    → (ℕ → Bool)
    → Matcher
    → List ℕ
    → ℕ
    → ExecFlags
    → Option ExecResult
matchexec is_named towlower is_word m s nm fl =
    let e = exec_subject m fl s in
    let start =
      if is_anchored is_named towlower is_word e nm || m.icase
      then some 0
      else matchgate (m.icase || fl.icase) m.lit s in
    elim start [
      | none ↦ some (failed nomatch)
      | some at ↦ exec_loop is_named towlower is_word e nm (length s + 1 - at) (exec_start m fl) at
    ]
