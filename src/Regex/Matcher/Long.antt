-- ===== src/Regex/Matcher/Long.antt =====
-- What the depth does in matchexec of include/core/match.h on a long text.
use jaclibc.Base.{
  ℕ, zero, suc, ◌+◌, ◌-◌, ◌≤◌, ◌<◌, ◌≡◌, ◌≢◌, Bool, true, false, ◌||◌, ltb, if◌then◌else◌, if_both,
  Bool-cases, inl, inr, Option, some, List, [], length, sym, subst, arith,
}
use jaclibc.Regex.Nodes.{
  Caps, Matcher, Subject, Ctx, nomatch, edepth, is_success, is_edepth, after, max_depth,
}
use jaclibc.Regex.Matcher.Steps.{Inside, Kept-cases}
use jaclibc.Regex.Matcher.Loops.{IsBuilt, elim_cases}
use jaclibc.Regex.Matcher.Depth.{matchfind-deeper, matchfind_deep}
use jaclibc.Regex.Matcher.Exec.{
  ExecFlags, ExecResult, failed, matchgate, is_anchored, store_offsets, exec_loop, exec_start,
  exec_subject, matchexec,
}
use jaclibc.Regex.Matcher.Total.{cleared, cleared-Inside, start_Inside, begin}

abbrev IsMiss : Option ExecResult → Type 0
IsMiss o = o ≡ some (failed nomatch)

store_offsets-failed : (nm so eo : ℕ) (caps : Caps) → store_offsets nm so eo caps ≢ failed nomatch
unfolding store_offsets
store_offsets-failed zero so eo caps e = absurd (ground (arith, e))
store_offsets-failed (suc count) so eo caps e = absurd (ground (arith, e))

edepth_hits : ¬ IsMiss (some (failed edepth))
edepth_hits same = absurd (ground (arith, same))

module _ (is_named : List ℕ → ℕ → Bool) (towlower : ℕ → ℕ) (is_word : ℕ → Bool) where
  module _ (e : Subject) (nm : ℕ) (built : IsBuilt e.m.arena) where
    abbrev len : ℕ
    len = length e.s

    -- A round that ends without a match leaves a depth of one more.
    exec_round_deep :
        (left : ℕ) (c : Ctx) (start : ℕ)
        → start ≤ c.depth
        → start ≤ len
        → e.m.root ≢ 0
        → is_anchored is_named towlower is_word e nm ≡ false
        → Inside len c
        → ((c1 : Ctx)
            → c.depth ≤ max_depth
            → start + 1 ≤ c1.depth
            → Inside len c1
            → ¬ IsMiss (exec_loop is_named towlower is_word e nm left c1 (start + 1)))
        → ¬ IsMiss (exec_loop is_named towlower is_word e nm (suc left) c start)
    unfolding exec_loop
    exec_round_deep left c start deep inner root free h next =
        let P : Option ExecResult → Type 0 = λ o. ¬ IsMiss o in
        let miss : Ctx → Option ExecResult = λ c1. elim (is_edepth c1.err) [
          | true ↦ some (failed edepth)
          | false ↦ elim (is_anchored is_named towlower is_word e nm) [
            | true ↦ some (failed (if is_success c1.err then nomatch else c1.err))
            | false ↦ exec_loop is_named towlower is_word e nm left c1 (start + 1)
          ]
        ] in
        let hit : Ctx → ℕ → Option ExecResult = λ c1 r. elim (is_edepth c1.err) [
          | true ↦ some (failed edepth)
          | false ↦ some (store_offsets nm start r c1.caps)
        ] in
        elim_cases P (ltb max_depth c.depth) _ _ (λ _. edepth_hits)
          (λ shallow. elim (Bool-cases (ltb max_depth (c.depth + 1))) [
            | inl last ↦
                subst (λ o. P (after o miss hit))
                  (sym (
                    matchfind_deep is_named towlower is_word e built max_depth (cleared c) e.m.root
                      start last))
                  edepth_hits
            | inr spare ↦
                Kept-cases P len (c.depth + 1) _ miss hit
                  (matchfind-deeper is_named towlower is_word e built (max_depth + 1) (cleared c)
                    e.m.root start (omega arith) (omega arith) root spare (cleared-Inside len c h)
                    inner)
                  (λ c1 deep1 h1.
                    elim_cases P (is_edepth c1.err) _ _ (λ _. edepth_hits)
                      (λ _.
                        elim_cases P (is_anchored is_named towlower is_word e nm) _ _
                          (λ bound. absurd (ground (arith, bound, free)))
                          (λ _. next c1 (ground (arith, shallow)) (omega arith) h1)))
                  (λ c1 r deep1 h1 r_le.
                    elim_cases P (is_edepth c1.err) _ _ (λ _. edepth_hits)
                      (λ _ found. store_offsets-failed nm start r c1.caps (ground (arith, found))))
          ])

    exec_loop_deep :
        (left : ℕ) (c : Ctx) (start : ℕ)
        → start + left ≡ len
        → start ≤ c.depth
        → max_depth < len
        → e.m.root ≢ 0
        → is_anchored is_named towlower is_word e nm ≡ false
        → Inside len c
        → ¬ IsMiss (exec_loop is_named towlower is_word e nm (suc left) c start)
    exec_loop_deep zero c start all deep long root free h =
        exec_round_deep zero c start deep (omega arith) root free h
          (λ c1 shallow. absurd (omega arith))
    exec_loop_deep (suc left) c start all deep long root free h =
        exec_round_deep (suc left) c start deep (omega arith) root free h (λ c1 shallow deep1 h1.
          exec_loop_deep left c1 (start + 1) (omega arith) deep1 long root free h1)

  module _ (m : Matcher) (s : List ℕ) (nm : ℕ) (fl : ExecFlags) (built : IsBuilt m.arena) where
    begin_deep :
        max_depth < length s
        → m.root ≢ 0
        → is_anchored is_named towlower is_word (exec_subject m fl s) nm ≡ false
        → begin is_named towlower is_word m s nm fl (some 0) ≢ some (failed nomatch)
    begin_deep long root free =
        subst
          (λ left.
            ¬ IsMiss (
              exec_loop is_named towlower is_word (exec_subject m fl s) nm left (exec_start m fl)
                0))
          {x = suc (length s)} {y = length s + 1 - 0} (omega arith)
          (exec_loop_deep (exec_subject m fl s) nm built (length s) (exec_start m fl) 0
            (omega arith) (omega arith) long root free (start_Inside (length s) m fl))

    -- Where the second part of each sequence stands in front of it in the arena, and the text has more than
    -- 2000 bytes, a pattern that is not empty, has no first literal and is not bound to the start of the text is never reported as not found: what a round adds to the depth is not taken back.
    pub matchexec_long :
        max_depth < length s
        → m.root ≢ 0
        → m.lit ≡ []
        → is_anchored is_named towlower is_word (exec_subject m fl s) nm ≡ false
        → matchexec is_named towlower is_word m s nm fl ≢ some (failed nomatch)
    unfolding matchexec matchgate
    matchexec_long long root plain free =
        if_both (λ o. begin is_named towlower is_word m s nm fl o ≢ some (failed nomatch)) _
          (some 0) (matchgate (m.icase || fl.icase) m.lit s) (begin_deep long root free)
          (subst
            (λ lit.
              begin is_named towlower is_word m s nm fl (matchgate (m.icase || fl.icase) lit s)
              ≢ some (failed nomatch))
            (sym plain) (begin_deep long root free))
