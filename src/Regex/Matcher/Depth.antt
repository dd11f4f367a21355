-- ===== src/Regex/Matcher/Depth.antt =====
-- matchfind ends, since the depth bounds its calls, and keeps every offset in the subject.
use jaclibc.Base.{
  ℕ, zero, suc, ◌+◌, ◌≤◌, ◌<◌, ◌≡◌, ◌≢◌, ◌==◌, Bool, true, false, ltb, none, some, List, length,
  refl, arith,
}
use jaclibc.Regex.Nodes.{
  Token, end, char, class, any, bol, eol, cap, alt, seq, rep, look, backref, wb, nwb, flags, atomic,
  cond, call, Subject, Ctx, Find, max_depth, edepth,
}
use jaclibc.Regex.Matcher.{dispatch, matchfind}
use jaclibc.Regex.Matcher.Steps.{
  Inside, Kept, IsGood, Kept-fail, Kept-some, Kept-from, char-Kept, class-Kept, any-Kept, bol-Kept,
  eol-Kept, alt-Kept, cap-Kept,
}
use jaclibc.Regex.Matcher.Loops.{IsBuilt, elim_cases, seq-Kept, rep-Kept}
use jaclibc.Regex.Matcher.Looks.{
  look-Kept, backref-Kept, atomic-Kept, cond-Kept, wb-Kept, call-Kept,
}

module _ (is_named : List ℕ → ℕ → Bool) (towlower : ℕ → ℕ) (is_word : ℕ → Bool) (e : Subject)
    (built : IsBuilt e.m.arena) where
  abbrev len : ℕ
  len = length e.s

  dispatch-Kept :
      (t : Token) (d : ℕ) (run : Find) (c : Ctx) (i pos : ℕ)
      → IsGood len d run
      → d ≤ c.depth
      → Inside len c
      → pos ≤ len
      → Kept len d (dispatch is_named towlower is_word e t run c i pos)
  unfolding dispatch
  dispatch-Kept end d run c i pos good deep h le = Kept-some len d c pos deep h le
  dispatch-Kept char d run c i pos good deep h le =
      char-Kept is_named towlower is_word e d run (e.m.arena i) good c pos deep h le
  dispatch-Kept class d run c i pos good deep h le =
      class-Kept is_named towlower is_word e d run (e.m.arena i) good c pos deep h le
  dispatch-Kept any d run c i pos good deep h le =
      any-Kept is_named towlower is_word e d run (e.m.arena i) good c pos deep h le
  dispatch-Kept bol d run c i pos good deep h le =
      bol-Kept is_named towlower is_word e d run (e.m.arena i) good c pos deep h le
  dispatch-Kept eol d run c i pos good deep h le =
      eol-Kept is_named towlower is_word e d run (e.m.arena i) good c pos deep h le
  dispatch-Kept cap d run c i pos good deep h le =
      cap-Kept is_named towlower is_word e d run (e.m.arena i) good c pos deep h le
  dispatch-Kept alt d run c i pos good deep h le =
      alt-Kept is_named towlower is_word e d run (e.m.arena i) good c pos deep h le
  dispatch-Kept seq d run c i pos good deep h le =
      seq-Kept is_named towlower is_word e d run good built (i + 1) c i pos (omega arith) deep h le
  dispatch-Kept rep d run c i pos good deep h le =
      rep-Kept is_named towlower is_word e d run good (e.m.arena i) c pos deep h le
  dispatch-Kept look d run c i pos good deep h le =
      look-Kept is_named towlower is_word e d run good (e.m.arena i) c pos deep h le
  dispatch-Kept backref d run c i pos good deep h le =
      backref-Kept is_named towlower is_word e d run good (e.m.arena i) c pos deep h le
  dispatch-Kept wb d run c i pos good deep h le =
      wb-Kept is_named towlower is_word e d run good (e.m.arena i) c pos deep h le false
  dispatch-Kept nwb d run c i pos good deep h le =
      wb-Kept is_named towlower is_word e d run good (e.m.arena i) c pos deep h le true
  dispatch-Kept flags d run c i pos good deep h le = good c (e.m.arena i).a pos deep h le
  dispatch-Kept atomic d run c i pos good deep h le =
      atomic-Kept is_named towlower is_word e d run good (e.m.arena i) c pos deep h le
  dispatch-Kept cond d run c i pos good deep h le =
      cond-Kept is_named towlower is_word e d run good (e.m.arena i) c pos deep h le
  dispatch-Kept call d run c i pos good deep h le =
      call-Kept is_named towlower is_word e d run good (e.m.arena i) c pos deep h le

  -- A visit of a node goes one deeper for good.
  visit-Kept :
      (f : ℕ) (c : Ctx) (i pos : ℕ)
      → ((d : ℕ)
          → max_depth < f + d
          → 0 < f
          → IsGood len d (matchfind is_named towlower is_word e f))
      → max_depth < suc f + c.depth
      → ltb max_depth (c.depth + 1) ≡ false
      → Inside len c
      → pos ≤ len
      → Kept len (c.depth + 1) (
          dispatch is_named towlower is_word e
            (e.m.arena i).type
            (matchfind is_named towlower is_word e f)
            (record c { depth = c.depth + 1 })
            i
            pos)
  visit-Kept f c i pos good fuel shallow h le =
      let below : c.depth + 1 ≤ max_depth = ground (arith, shallow) in
      dispatch-Kept (e.m.arena i).type (c.depth + 1) (matchfind is_named towlower is_word e f)
        (record c { depth = c.depth + 1 }) i pos (good (c.depth + 1) (omega arith) (omega arith))
        (omega arith) h le

  pub matchfind-IsGood :
      (f d : ℕ) → max_depth < f + d → 0 < f → IsGood len d (matchfind is_named towlower is_word e f)
  unfolding matchfind
  matchfind-IsGood zero d fuel one c i pos deep h le = absurd (omega arith)
  matchfind-IsGood (suc f) d fuel one c i pos deep h le =
      elim_cases (Kept len d) (ltb max_depth (c.depth + 1)) _ _
        (λ _. Kept-fail len d (record c { err = edepth }) deep h)
        (λ shallow.
          elim_cases (Kept len d) (i == 0) _ _ (λ _. Kept-some len d c pos deep h le)
            (λ _.
              Kept-from len d (c.depth + 1) _ (omega arith)
                (visit-Kept f c i pos (matchfind-IsGood f) (omega arith) shallow h le)))

  -- At a node, with depth to spare, the depth goes up.
  pub matchfind-deeper :
      (f : ℕ) (c : Ctx) (i pos : ℕ)
      → max_depth < f + c.depth
      → 0 < f
      → i ≢ 0
      → ltb max_depth (c.depth + 1) ≡ false
      → Inside len c
      → pos ≤ len
      → Kept len (c.depth + 1) (matchfind is_named towlower is_word e f c i pos)
  unfolding matchfind
  matchfind-deeper zero c i pos fuel one node shallow h le = absurd (omega arith)
  matchfind-deeper (suc f) c i pos fuel one node shallow h le =
      elim_cases (Kept len (c.depth + 1)) (ltb max_depth (c.depth + 1)) _ _
        (λ deep. absurd (ground (arith, deep, shallow)))
        (λ _.
          elim_cases (Kept len (c.depth + 1)) (i == 0) _ _
            (λ root. absurd (ground (arith, root, node)))
            (λ _. visit-Kept f c i pos (matchfind-IsGood f) fuel shallow h le))

  -- Where there is no depth to spare, there is an error.
  pub matchfind_deep :
      (f : ℕ) (c : Ctx) (i pos : ℕ)
      → ltb max_depth (c.depth + 1) ≡ true
      → matchfind is_named towlower is_word e (suc f) c i pos
        ≡ some (record c { err = edepth }, none)
  unfolding matchfind
  matchfind_deep f c i pos deep =
      elim_cases (λ o. o ≡ some (record c { err = edepth }, none)) (ltb max_depth (c.depth + 1)) _ _
        (λ _. refl) (λ shallow. absurd (ground (arith, deep, shallow)))
