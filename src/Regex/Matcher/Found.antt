-- ===== src/Regex/Matcher/Found.antt =====
-- What matchexec of include/core/match.h reports of a plain pattern is a match of it.
use Prim.{Unit, tt}
use jaclibc.Base.{
  ℕ, zero, suc, ◌+◌, ◌-◌, ◌≡◌, Bool, ◌||◌, ltb, Option, none, some, List, [], ◌∷◌, length, refl,
  subst,
}
use jaclibc.Regex.Nodes.{Matcher, Subject, Ctx, is_edepth, after, max_depth}
use jaclibc.Regex.Matcher.Loops.{IsBuilt, elim_cases}
use jaclibc.Regex.Matcher.Exec.{
  ExecFlags, ExecResult, matched, failed, overrun, group_offsets, is_anchored, store_offsets,
  exec_loop, exec_start, exec_subject, matchexec,
}
use jaclibc.Regex.Matcher.Total.{cleared, begin, matchexec_total}
use jaclibc.Regex.Matcher.Spec.{IsPlain, IsSettled, IsFlat, Matches}
use jaclibc.Regex.Matcher.Repeats.{Found, matchfind_sound}

module _ (is_named : List ℕ → ℕ → Bool) (towlower : ℕ → ℕ) (is_word : ℕ → Bool) where
  -- The first offsets that are reported, where there is a match, are those of a match of the pattern.
  abbrev pub IsRight : Subject → Bool → ExecResult → Type 0
  IsRight e ic (failed err) = Unit
  IsRight e ic overrun = Unit
  IsRight e ic (matched []) = ⊥
  IsRight e ic (matched ((some p, some q) ∷ pm)) = Matches is_named towlower e ic e.m.root p q
  IsRight e ic (matched ((some p, none) ∷ pm)) = ⊥
  IsRight e ic (matched ((none, eo) ∷ pm)) = ⊥

  abbrev Right : Subject → Bool → Option ExecResult → Type 0
  Right e ic none = Unit
  Right e ic (some r) = IsRight e ic r

  module _ (e : Subject) (count : ℕ) (ic : Bool) (inner : ℕ → Bool) (flat : IsFlat e.m.arena inner)
      (plain : IsPlain e.m.arena) (settled : IsSettled e.m.arena ic) where
    Right-after :
        (p : ℕ) (o : Option (Ctx × Option ℕ)) (miss : Ctx → Option ExecResult)
        (hit : Ctx → ℕ → Option ExecResult)
        → Found is_named towlower is_word e ic inner flat plain settled e.m.root p o
        → ((c : Ctx) → c.ic ≡ ic → Right e ic (miss c))
        → ((c : Ctx) (r : ℕ) → Matches is_named towlower e ic e.m.root p r → Right e ic (hit c r))
        → Right e ic (after o miss hit)
    Right-after p none miss hit h m k = tt
    Right-after p (some (c, none)) miss hit h m k = m c h
    Right-after p (some (c, some r)) miss hit (h, match) m k = k c r match

    stored-IsRight :
        (o : Option (List (Option ℕ × Option ℕ))) (p q : ℕ)
        → Matches is_named towlower e ic e.m.root p q
        → IsRight e ic (elim o [ none ↦ overrun | some pm ↦ matched ((some p, some q) ∷ pm) ])
    stored-IsRight none p q match = tt
    stored-IsRight (some pm) p q match = match

    exec_loop_sound :
        (left : ℕ) (c : Ctx) (start : ℕ)
        → c.ic ≡ ic
        → Right e ic (exec_loop is_named towlower is_word e (suc count) left c start)
    unfolding exec_loop store_offsets
    exec_loop_sound zero c start same = tt
    exec_loop_sound (suc left) c start same =
        elim_cases (Right e ic) (ltb max_depth c.depth) _ _ (λ _. tt)
          (λ _.
            Right-after start _ _ _
              (matchfind_sound is_named towlower is_word e ic inner flat plain settled
                (max_depth + 1) (cleared c) e.m.root start same)
              (λ c1 same1.
                elim_cases (Right e ic) (is_edepth c1.err) _ _ (λ _. tt)
                  (λ _.
                    elim_cases (Right e ic) (is_anchored is_named towlower is_word e (suc count)) _
                      _ (λ _. tt) (λ _. exec_loop_sound left c1 (start + 1) same1)))
              (λ c1 r match.
                elim_cases (Right e ic) (is_edepth c1.err) _ _ (λ _. tt)
                  (λ _. stored-IsRight (group_offsets count 1 c1.caps) start r match)))

  module _ (m : Matcher) (s : List ℕ) (count : ℕ) (fl : ExecFlags) (inner : ℕ → Bool) where
    begin_sound :
        IsFlat m.arena inner
        → IsPlain m.arena
        → IsSettled m.arena (m.icase || fl.icase)
        → (o : Option ℕ)
        → Right
            (exec_subject m fl s)
            (m.icase || fl.icase)
            (begin is_named towlower is_word m s (suc count) fl o)
    begin_sound flat plain settled none = tt
    begin_sound flat plain settled (some at) =
        exec_loop_sound (exec_subject m fl s) count (m.icase || fl.icase) inner flat plain settled
          (length s + 1 - at) (exec_start m fl) at refl

    search_sound :
        IsFlat m.arena inner
        → IsPlain m.arena
        → IsSettled m.arena (m.icase || fl.icase)
        → Right
            (exec_subject m fl s)
            (m.icase || fl.icase)
            (matchexec is_named towlower is_word m s (suc count) fl)
    unfolding matchexec
    search_sound flat plain settled = begin_sound flat plain settled _

    -- For a pattern without looks, references, conditions, calls and word bounds, in which no repetition stands
    -- in another or has a second part of its own, with the second part of each sequence in front of it in the arena
    -- and no node that ignores case
    -- unless the search does, and room for one match at least, a search returns, and the match that it
    -- reports, if any, is one of the pattern's.
    pub matchexec_sound :
        IsBuilt m.arena
        → IsFlat m.arena inner
        → IsPlain m.arena
        → IsSettled m.arena (m.icase || fl.icase)
        → (r : ExecResult) × (matchexec is_named towlower is_word m s (suc count) fl ≡ some r)
          × IsRight (exec_subject m fl s) (m.icase || fl.icase) r
    matchexec_sound built flat plain settled =
        let (r, eq, _) = matchexec_total is_named towlower is_word m s (suc count) fl built in
        (
          r,
          eq,
          subst (Right (exec_subject m fl s) (m.icase || fl.icase)) eq
              (search_sound flat plain settled),
        )
