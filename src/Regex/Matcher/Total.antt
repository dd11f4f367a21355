-- ===== src/Regex/Matcher/Total.antt =====
-- matchexec of include/core/match.h returns, with offsets in the subject.
use Prim.{Unit, tt}
use jaclibc.Base.{
  ℕ, zero, suc, ◌+◌, ◌-◌, ◌*◌, ◌≤◌, ◌≡◌, Bool, ◌||◌, ltb, leb, ◌<◌, subst, if_cases, if_both,
  Option, none, some, List, [], ◌∷◌, length, refl, arith,
}
use jaclibc.Regex.Nodes.{
  Matcher, Subject, Caps, Ctx, Err, nomatch, edepth, is_edepth, max_depth, max_offsets,
}
use jaclibc.Regex.Matcher.Steps.{IsWithin, Inside, Kept-cases}
use jaclibc.Regex.Matcher.Loops.{IsBuilt, elim_cases}
use jaclibc.Regex.Matcher.Depth.{matchfind-IsGood}
use jaclibc.Regex.Matcher.Exec.{
  ExecFlags, ExecResult, matched, failed, overrun, gate_loop, matchgate, is_anchored, group_offsets,
  store_offsets, exec_loop, exec_start, exec_subject, matchexec,
}

-- The offsets of a match are n at most.
abbrev pub AreWithin : ℕ → List (Option ℕ × Option ℕ) → Type 0
AreWithin n [] = Unit
AreWithin n ((so, eo) ∷ pm) = IsWithin n so × IsWithin n eo × AreWithin n pm

-- What is reported with room for nm matches: offsets in the text, or a read behind the captures where nm is
-- more than 32.
abbrev pub IsReport : ℕ → ℕ → ExecResult → Type 0
IsReport n nm (matched pm) = AreWithin n pm
IsReport n nm (failed err) = Unit
IsReport n nm overrun = 32 < nm

abbrev pub HasReport : ℕ → ℕ → Option ExecResult → Type 0
HasReport n nm o = (r : ExecResult) × (o ≡ some r) × IsReport n nm r

abbrev GroupsWithin : ℕ → ℕ → Option (List (Option ℕ × Option ℕ)) → Type 0
GroupsWithin n most none = 32 < most
GroupsWithin n most (some pm) = AreWithin n pm

groups-cons :
    (n most : ℕ) (so eo : Option ℕ) (o : Option (List (Option ℕ × Option ℕ)))
    → IsWithin n so
    → IsWithin n eo
    → GroupsWithin n most o
    → GroupsWithin n most (elim o [ none ↦ none | some pm ↦ some ((so, eo) ∷ pm) ])
groups-cons n most so eo none hs he h = h
groups-cons n most so eo (some pm) hs he h = (hs, he, h)

group_offsets_within :
    (n count i : ℕ) (caps : Caps)
    → ((j : ℕ) → IsWithin n (caps j))
    → GroupsWithin n (i + count) (group_offsets count i caps)
unfolding group_offsets
group_offsets_within n zero i caps h = tt
group_offsets_within n (suc count) i caps h =
    if_cases (GroupsWithin n (i + suc count)) (leb max_offsets (i * 2 + 1)) _ _
      (λ out. ground (arith, out))
      (λ _.
        groups-cons n (i + suc count) (caps (i * 2)) (caps (i * 2 + 1)) _ (h (i * 2))
          (h (i * 2 + 1))
          (subst (λ most. GroupsWithin n most (group_offsets count (i + 1) caps))
            {x = i + 1 + count} {y = i + suc count} (omega arith)
            (group_offsets_within n count (i + 1) caps h)))

store_offsets_within :
    (n count so eo : ℕ) (caps : Caps)
    → so ≤ n
    → eo ≤ n
    → ((j : ℕ) → IsWithin n (caps j))
    → IsReport n count (store_offsets count so eo caps)
unfolding store_offsets
store_offsets_within n zero so eo caps hs he h = tt
store_offsets_within n (suc count) so eo caps hs he h =
    stored (group_offsets count 1 caps) (group_offsets_within n count 1 caps h)
  where
    stored :
        (o : Option (List (Option ℕ × Option ℕ)))
        → GroupsWithin n (1 + count) o
        → IsReport n
            (suc count)
            (elim o [ none ↦ overrun | some pm ↦ matched ((some so, some eo) ∷ pm) ])
    stored none g = omega (arith, g)
    stored (some pm) g = (λ q e. ground (arith, e, hs), λ q e. ground (arith, e, he), g)

gate_loop_within :
    (ic : Bool) (lit s : List ℕ) (p q : ℕ) → gate_loop ic lit s p ≡ some q → q ≤ p + length s
unfolding gate_loop
gate_loop_within ic lit [] p q e = absurd (ground (arith, e))
gate_loop_within ic lit (b ∷ s) p q e = ground (arith, gate_loop_within ic lit s (p + 1) q)

matchgate_within : (ic : Bool) (lit s : List ℕ) (q : ℕ) → matchgate ic lit s ≡ some q → q ≤ length s
unfolding matchgate
matchgate_within ic [] s q e = ground (arith, e)
matchgate_within ic (a ∷ lit) s q e = omega (arith, gate_loop_within ic (a ∷ lit) s 0 q e)

-- The context at the next offset of the text.
abbrev pub cleared : Ctx → Ctx
cleared c = record c { caps = λ j. none }

pub cleared-Inside : (n : ℕ) (c : Ctx) → Inside n c → Inside n (cleared c)
cleared-Inside n c h = (λ j q e. absurd (ground (arith, e)), h.1, h.2)

pub start_Inside : (n : ℕ) (m : Matcher) (fl : ExecFlags) → Inside n (exec_start m fl)
start_Inside n m fl =
    (λ j q e. absurd (ground (arith, e)), λ j. omega arith, λ k j q e. absurd (ground (arith, e)))

module _ (is_named : List ℕ → ℕ → Bool) (towlower : ℕ → ℕ) (is_word : ℕ → Bool) where
  -- matchexec from what the gate gives.
  abbrev pub begin : Matcher → List ℕ → ℕ → ExecFlags → Option ℕ → Option ExecResult
  begin m s nm fl start = elim start [
    | none ↦ some (failed nomatch)
    | some at ↦
        exec_loop is_named towlower is_word (exec_subject m fl s) nm (length s + 1 - at)
          (exec_start m fl) at
  ]

  module _ (e : Subject) (nm : ℕ) (built : IsBuilt e.m.arena) where
    abbrev len : ℕ
    len = length e.s

    report : (err : Err) → HasReport len nm (some (failed err))
    report err = (failed err, refl, tt)

    exec_loop_total :
        (left : ℕ) (c : Ctx) (start : ℕ)
        → start + left ≡ len + 1
        → Inside len c
        → HasReport len nm (exec_loop is_named towlower is_word e nm left c start)
    unfolding exec_loop
    exec_loop_total zero c start all h = report _
    exec_loop_total (suc left) c start all h =
        elim_cases (HasReport len nm) (ltb max_depth c.depth) _ _ (λ _. report edepth)
          (λ _.
            Kept-cases (HasReport len nm) len 0 _ _ _
              (matchfind-IsGood is_named towlower is_word e built (max_depth + 1) 0 (omega arith)
                (omega arith) (cleared c) e.m.root start (omega arith) (cleared-Inside len c h)
                (omega (arith, all)))
              (λ c1 deep1 h1.
                elim_cases (HasReport len nm) (is_edepth c1.err) _ _ (λ _. report edepth)
                  (λ _.
                    elim_cases (HasReport len nm) (is_anchored is_named towlower is_word e nm) _ _
                      (λ _. report _)
                      (λ _. exec_loop_total left c1 (start + 1) (omega (arith, all)) h1)))
              (λ c1 r deep1 h1 r_le.
                elim_cases (HasReport len nm) (is_edepth c1.err) _ _ (λ _. report edepth)
                  (λ _. (
                    store_offsets nm start r c1.caps,
                    refl,
                    store_offsets_within len nm start r c1.caps (omega (arith, all)) r_le h1.0,
                  ))))

  module _ (m : Matcher) (s : List ℕ) (nm : ℕ) (fl : ExecFlags) (built : IsBuilt m.arena) where
    loop_total :
        (at : ℕ)
        → at ≤ length s
        → HasReport (length s) nm (
            exec_loop is_named towlower is_word
              (exec_subject m fl s)
              nm
              (length s + 1 - at)
              (exec_start m fl)
              at)
    loop_total at le =
        exec_loop_total (exec_subject m fl s) nm built (length s + 1 - at) (exec_start m fl) at
          (omega (arith, le)) (start_Inside (length s) m fl)

    begin_total :
        (o : Option ℕ)
        → ((q : ℕ) → o ≡ some q → q ≤ length s)
        → HasReport (length s) nm (begin m s nm fl o)
    begin_total none le = (failed nomatch, refl, tt)
    begin_total (some at) le = loop_total at (le at refl)

    -- Where the second part of each sequence stands in front of it in the arena, as the parser makes it, a
    -- search returns, and every offset that it stores is in the text; with room for more than 32 matches it may
    -- read behind the captures instead.
    pub matchexec_total : HasReport (length s) nm (matchexec is_named towlower is_word m s nm fl)
    unfolding matchexec
    matchexec_total = begin_total _ (
        if_both (λ o. (q : ℕ) → o ≡ some q → q ≤ length s) _ (some 0)
          (matchgate (m.icase || fl.icase) m.lit s) (λ q e. ground (arith, e))
          (matchgate_within (m.icase || fl.icase) m.lit s))
