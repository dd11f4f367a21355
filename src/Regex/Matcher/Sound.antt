-- ===== src/Regex/Matcher/Sound.antt =====
-- What matchfind of include/core/match.h finds in a plain pattern is a match of it.
use Prim.{Unit, tt}
use jaclibc.Base.{
  ℕ, zero, suc, ◌+◌, ◌-◌, ◌*◌, ◌<◌, ◌≤◌, ◌≡◌, ◌⊎◌, inl, inr, ◌==◌, Bool, true, not, ◌&&◌, ◌||◌, ltb,
  leb, if◌then◌else◌, if_cases, if_both, Option, none, some, List, length, get_or, refl, sym, subst,
  arith,
}
use jaclibc.Alloc.{put}
use jaclibc.Regex.{match_fold, in_class}
use jaclibc.Regex.Nodes.{
  Token, end, char, class, any, bol, eol, cap, alt, seq, rep, look, backref, wb, nwb, flags, atomic,
  cond, call, Node, Subject, Ctx, Find, after, next_at, skip_tails, is_cont, is_success, is_edepth,
  is_seq, edepth, einternal, max_depth, max_offsets,
}
use jaclibc.Regex.Prims.{
  undo, prim_char, prim_class, prim_any, prim_bol, prim_eol, prim_cap, seq_loop, prim_alt,
  prim_atomic, prim_rep,
}
use jaclibc.Regex.Matcher.{dispatch, matchfind}
use jaclibc.Regex.Matcher.Loops.{elim_cases}
use jaclibc.Regex.Matcher.Spec.{
  is_pair, is_plain, IsPlain, IsSettled, Takes, Matches, nothing, accept, takes, pair, first,
  second, inside,
}

seq_pair : (t : Token) → is_seq t ≡ true → is_pair t ≡ true
seq_pair end eq = absurd (ground (arith, eq))
seq_pair char eq = absurd (ground (arith, eq))
seq_pair class eq = absurd (ground (arith, eq))
seq_pair any eq = absurd (ground (arith, eq))
seq_pair bol eq = absurd (ground (arith, eq))
seq_pair eol eq = absurd (ground (arith, eq))
seq_pair cap eq = absurd (ground (arith, eq))
seq_pair alt eq = absurd (ground (arith, eq))
seq_pair seq eq = refl
seq_pair rep eq = absurd (ground (arith, eq))
seq_pair look eq = absurd (ground (arith, eq))
seq_pair backref eq = absurd (ground (arith, eq))
seq_pair wb eq = absurd (ground (arith, eq))
seq_pair nwb eq = absurd (ground (arith, eq))
seq_pair flags eq = absurd (ground (arith, eq))
seq_pair atomic eq = absurd (ground (arith, eq))
seq_pair cond eq = absurd (ground (arith, eq))
seq_pair call eq = absurd (ground (arith, eq))

skip_tails_tails :
    (left : ℕ) (s : List ℕ) (next j : ℕ)
    → next ≤ j
    → j < skip_tails left s next
    → is_cont (get_or s j 0) ≡ true
unfolding skip_tails
skip_tails_tails zero s next j le lt = absurd (omega arith)
skip_tails_tails (suc left) s next j le lt = ground (arith, skip_tails_tails left s (next + 1) j)

skip_tails_le : (left : ℕ) (s : List ℕ) (next : ℕ) → next ≤ skip_tails left s next
unfolding skip_tails
skip_tails_le zero s next = omega arith
skip_tails_le (suc left) s next = ground (arith, skip_tails_le left s (next + 1))

module _ (is_named : List ℕ → ℕ → Bool) (towlower : ℕ → ℕ) (is_word : ℕ → Bool) (e : Subject)
    (ic : Bool) (Inv : Ctx → Type 0) (case_of : (c : Ctx) → Inv c → c.ic ≡ ic)
    (keep : (c c' : Ctx) → Inv c → c'.ic ≡ c.ic → c'.path ≡ c.path → Inv c') (In : ℕ → Type 0)
    (parts : (i : ℕ) → In i → In (e.m.arena i).a × In (e.m.arena i).b) where
  -- What is found from p on is a match of the node i, and the context keeps the invariant.
  abbrev pub Holds : ℕ → ℕ → Option (Ctx × Option ℕ) → Type 0
  Holds i p none = Unit
  Holds i p (some (c, none)) = Inv c
  Holds i p (some (c, some q)) = Inv c × Matches is_named towlower e ic i p q

  Holds-after :
      (i p j q : ℕ) (o : Option (Ctx × Option ℕ)) (miss : Ctx → Option (Ctx × Option ℕ))
      (hit : Ctx → ℕ → Option (Ctx × Option ℕ))
      → Holds j q o
      → ((c : Ctx) → Inv c → Holds i p (miss c))
      → ((c : Ctx) (r : ℕ) → Inv c → Matches is_named towlower e ic j q r → Holds i p (hit c r))
      → Holds i p (after o miss hit)
  Holds-after i p j q none miss hit h m k = tt
  Holds-after i p j q (some (c, none)) miss hit h m k = m c h
  Holds-after i p j q (some (c, some r)) miss hit (h, match) m k = k c r h match

  -- A match of one node makes one of another.
  Holds-map :
      (i p j q : ℕ) (o : Option (Ctx × Option ℕ))
      → ((r : ℕ) → Matches is_named towlower e ic j q r → Matches is_named towlower e ic i p r)
      → Holds j q o
      → Holds i p o
  Holds-map i p j q none f h = tt
  Holds-map i p j q (some (c, none)) f h = h
  Holds-map i p j q (some (c, some r)) f (h, match) = (h, f r match)

  module _ (run : Find) (good : (c : Ctx) (i p : ℕ) → In i → Inv c → Holds i p (run c i p)) (i : ℕ)
      (there : In i) where
    abbrev n : Node
    n = e.m.arena i

    -- The second part, behind a node that takes the text from p to q.
    next :
        (t : Token) (c : Ctx) (p q : ℕ)
        → n.type ≡ t
        → Inv c
        → Takes is_named towlower e ic t n p q
        → Holds i p (run c n.b q)
    next t c p q eq same step =
        Holds-map i p n.b q _
          (λ r match.
            takes i p q r (subst (λ t. Takes is_named towlower e ic t n p q) (sym eq) step) match)
          (good c n.b q (parts i there).1 same)

    module _ (c : Ctx) (p : ℕ) (same : Inv c) where
      same_case : c.ic ≡ ic
      same_case = case_of c same

      char_sound : n.type ≡ char → Holds i p (prim_char is_named towlower is_word e run n c p)
      unfolding prim_char
      char_sound eq =
          if_cases (Holds i p) (leb (length e.s) p) _ _ (λ _. same)
            (λ inner.
              if_cases (Holds i p) (ltb (get_or e.s p 0) 0x80) _ _
                (λ low.
                  if_cases (Holds i p) (match_fold is_named towlower (get_or e.s p 0) n.val c.ic) _
                    _
                    (λ fits. next char c p (p + 1) eq same (
                      ground (arith, inner),
                      ground (arith, low, fits, same_case),
                      ground (arith, low),
                    ))
                    (λ _. same))
                (λ high.
                  if_cases (Holds i p)
                    (match_fold is_named towlower (next_at e.s (length e.s) p).0 n.val c.ic) _ _
                    (λ fits. next char c p (next_at e.s (length e.s) p).1 eq same (
                      ground (arith, inner),
                      ground (arith, high, fits, same_case),
                      ground (arith, high),
                    ))
                    (λ _. same)))

      class_sound : n.type ≡ class → Holds i p (prim_class is_named towlower is_word e run n c p)
      unfolding prim_class
      class_sound eq =
          let got : ℕ × ℕ =
            if not e.m.ranges.has_unicode && ltb (get_or e.s p 0) 0x80
            then (get_or e.s p 0, p + 1)
            else next_at e.s (length e.s) p in
          let known : ((got.0 ≡ get_or e.s p 0) × (got.1 ≡ p + 1))
              ⊎ ((got.0 ≡ (next_at e.s (length e.s) p).0)
                  × (got.1 ≡ (next_at e.s (length e.s) p).1)) =
            if_both
              (λ (g : ℕ × ℕ).
                ((g.0 ≡ get_or e.s p 0) × (g.1 ≡ p + 1))
                ⊎ ((g.0 ≡ (next_at e.s (length e.s) p).0) × (g.1 ≡ (next_at e.s (length e.s) p).1)))
              (not e.m.ranges.has_unicode && ltb (get_or e.s p 0) 0x80) (get_or e.s p 0, p + 1)
              (next_at e.s (length e.s) p) (inl (refl, refl)) (inr (refl, refl)) in
          if_cases (Holds i p) (leb (length e.s) p) _ _ (λ _. same)
            (λ inner.
              if_cases (Holds i p) (in_class is_named towlower e.m.ranges got.0 n.val c.ic) _ _
                (λ fits. next class c p got.1 eq same (
                  got.0,
                  ground (arith, inner),
                  subst (λ b. in_class is_named towlower e.m.ranges got.0 n.val b ≡ true) same_case
                      fits,
                  known,
                ))
                (λ _. same))

      any_sound : n.type ≡ any → Holds i p (prim_any is_named towlower is_word e run n c p)
      unfolding prim_any
      any_sound eq =
          if_cases (Holds i p) (leb (length e.s) p) _ _ (λ _. same)
            (λ inner.
              if_cases (Holds i p) (not n.dotall && get_or e.s p 0 == 10) _ _ (λ _. same)
                (λ fits. next any c p _ eq same (
                  ground (arith, inner),
                  ground (arith, skip_tails_le (length e.s - (p + 1)) e.s (p + 1)),
                  λ j lt below.
                      ground (arith, skip_tails_tails (length e.s - (p + 1)) e.s (p + 1) j),
                  ground (arith, fits),
                )))

      bol_sound : n.type ≡ bol → Holds i p (prim_bol is_named towlower is_word e run n c p)
      unfolding prim_bol
      bol_sound eq = if_both (Holds i p) e.notbol _ _ same (
          if_cases (Holds i p) (p == 0 || e.nl && ltb 0 p && get_or e.s (p - 1) 0 == 10)
            (run c n.b p) (some (c, none))
            (λ here. next bol c p p eq same (refl, ground (arith, here))) (λ _. same))

      eol_sound : n.type ≡ eol → Holds i p (prim_eol is_named towlower is_word e run n c p)
      unfolding prim_eol
      eol_sound eq = if_both (Holds i p) e.noteol _ _ same (
          if_cases (Holds i p)
            (p == length e.s || e.nl && ltb p (length e.s) && get_or e.s p 0 == 10) (run c n.b p)
            (some (c, none)) (λ here. next eol c p p eq same (refl, ground (arith, here)))
            (λ _. same))

      alt_sound : n.type ≡ alt → Holds i p (prim_alt is_named towlower is_word e run n c p)
      unfolding prim_alt
      alt_sound eq =
          Holds-after i p n.a p _ _ _ (good c n.a p (parts i there).0 same)
            (λ c1 same1. if_both (Holds i p) (is_edepth c1.err) _ _ same1 (
              Holds-map i p n.b p _ (λ r match. second i p r eq match)
                (good (record c1 { caps = c.caps }) n.b p (parts i there).1
                  (keep c1 (record c1 { caps = c.caps }) same1 refl refl))))
            (λ c1 r same1 match. (same1, first i p r eq match))

      -- The second part behind a match of the first.
      behind :
          (c1 : Ctx) (q : ℕ)
          → is_pair n.type ≡ true
          → Inv c1
          → Matches is_named towlower e ic n.a p q
          → Holds i p (run c1 n.b q)
      behind c1 q eq same1 match =
          Holds-map i p n.b q _ (λ r rest. pair i p q r eq match rest)
            (good c1 n.b q (parts i there).1 same1)

      undone : (c1 : Ctx) → Inv c1 → Inv (undo is_named towlower is_word e c c1 (n.cap_id * 2))
      undone c1 same1 =
          keep c1 (undo is_named towlower is_word e c c1 (n.cap_id * 2)) same1 refl refl

      cap_sound : is_pair n.type ≡ true → Holds i p (prim_cap is_named towlower is_word e run n c p)
      unfolding prim_cap
      cap_sound eq =
          if_both (Holds i p) (leb max_offsets (n.cap_id * 2 + 1)) _ _
            (keep c (record c { err = einternal }) same refl refl)
            (Holds-after i p n.a p _ _ _
              (good (record c { caps = put c.caps (n.cap_id * 2) (some p) }) n.a p (parts i there).0
                (keep c (record c { caps = put c.caps (n.cap_id * 2) (some p) }) same refl refl))
              (λ c1 same1. undone c1 same1)
              (λ c1 r same1 match.
                if_both (Holds i p) (not (is_success c1.err)) _ _ (undone c1 same1) (
                  Holds-after i p i p _ _ _
                    (behind (record c1 { caps = put c1.caps (n.cap_id * 2 + 1) (some r) }) r eq
                      (keep c1 (record c1 { caps = put c1.caps (n.cap_id * 2 + 1) (some r) }) same1
                        refl refl)
                      match)
                    (λ c2 same2. undone c2 same2) (λ c2 q same2 all. (same2, all)))))

      atomic_sound :
          is_pair n.type ≡ true → Holds i p (prim_atomic is_named towlower is_word e run n c p)
      unfolding prim_atomic
      atomic_sound eq =
          Holds-after i p n.a p _ _ _ (good c n.a p (parts i there).0 same) (λ c1 same1. same1)
            (λ c1 r same1 match. if_both (Holds i p) (not (is_success c1.err)) _ _ same1 (
              if_cases (Holds i p) (n.b == 0) _ _
                (λ last. (
                  same1,
                  pair i p r r eq match (
                      subst (λ b. Matches is_named towlower e ic b r r) (sym (ground (arith, last)))
                        (nothing r)),
                ))
                (λ _. behind c1 r eq same1 match)))

  module _ (run : Find) (good : (c : Ctx) (i p : ℕ) → In i → Inv c → Holds i p (run c i p))
      (settled : IsSettled e.m.arena ic)
      (repeats : (c : Ctx) (i p : ℕ)
        → (e.m.arena i).type ≡ rep
        → In i
        → Inv c
        → Holds i p (prim_rep is_named towlower is_word e run (e.m.arena i) c p)) where
    seq_sound :
        (f : ℕ) (c : Ctx) (i p : ℕ)
        → In i
        → Inv c
        → Holds i p (seq_loop is_named towlower is_word e f run c i p)
    unfolding seq_loop
    seq_sound zero c i p there same = tt
    seq_sound (suc f) c i p there same =
        let n = e.m.arena i in
        elim_cases (Holds i p) (i == 0 || not (is_seq n.type)) _ _ (λ _. good c i p there same)
          (λ inner.
            Holds-after i p n.a p _ _ _ (good c n.a p (parts i there).0 same) (λ c1 same1. same1)
              (λ c1 r same1 match.
                elim_cases (Holds i p) (is_success c1.err) _ _
                  (λ _.
                    Holds-map i p n.b r _
                      (λ q rest. pair i p r q (seq_pair n.type (ground (arith, inner))) match rest)
                      (seq_sound f
                        (if n.b == 0 then c1 else record c1 { ic = (e.m.arena n.b).icase || c1.ic })
                        n.b r (parts i there).1
                        (if_both Inv (n.b == 0) c1
                          (record c1 { ic = (e.m.arena n.b).icase || c1.ic }) same1
                          (keep c1 (record c1 { ic = (e.m.arena n.b).icase || c1.ic }) same1
                            (subst (λ b. ((e.m.arena n.b).icase || b) ≡ b) (sym (case_of c1 same1))
                              (settled n.b))
                            refl))))
                  (λ _. same1)))

    -- The case of the switch for the type of a plain node.
    dispatch_sound :
        (t : Token) (c : Ctx) (i p : ℕ)
        → (e.m.arena i).type ≡ t
        → is_plain t ≡ true
        → In i
        → Inv c
        → Holds i p (dispatch is_named towlower is_word e t run c i p)
    unfolding dispatch
    dispatch_sound end c i p eq plain there same = (same, accept i p eq)
    dispatch_sound char c i p eq plain there same = char_sound run good i there c p same eq
    dispatch_sound class c i p eq plain there same = class_sound run good i there c p same eq
    dispatch_sound any c i p eq plain there same = any_sound run good i there c p same eq
    dispatch_sound bol c i p eq plain there same = bol_sound run good i there c p same eq
    dispatch_sound eol c i p eq plain there same = eol_sound run good i there c p same eq
    dispatch_sound cap c i p eq plain there same =
        cap_sound run good i there c p same (subst (λ t. is_pair t ≡ true) (sym eq) refl)
    dispatch_sound alt c i p eq plain there same = alt_sound run good i there c p same eq
    dispatch_sound seq c i p eq plain there same = seq_sound (i + 1) c i p there same
    dispatch_sound flags c i p eq plain there same =
        Holds-map i p (e.m.arena i).a p _ (λ r match. inside i p r eq match)
          (good c (e.m.arena i).a p (parts i there).0 same)
    dispatch_sound atomic c i p eq plain there same =
        atomic_sound run good i there c p same (subst (λ t. is_pair t ≡ true) (sym eq) refl)
    dispatch_sound rep c i p eq plain there same = repeats c i p eq there same
    dispatch_sound look c i p eq plain there same = absurd (ground (arith, plain))
    dispatch_sound backref c i p eq plain there same = absurd (ground (arith, plain))
    dispatch_sound wb c i p eq plain there same = absurd (ground (arith, plain))
    dispatch_sound nwb c i p eq plain there same = absurd (ground (arith, plain))
    dispatch_sound cond c i p eq plain there same = absurd (ground (arith, plain))
    dispatch_sound call c i p eq plain there same = absurd (ground (arith, plain))

  -- For all of the switch, given what a repetition does.
  module _ (plain : IsPlain e.m.arena) (settled : IsSettled e.m.arena ic)
      (repeats : (f : ℕ)
        → ((c : Ctx) (i p : ℕ)
            → In i
            → Inv c
            → Holds i p (matchfind is_named towlower is_word e f c i p))
        → (c : Ctx) (i p : ℕ) → (e.m.arena i).type ≡ rep
        → In i
        → Inv c
        → Holds i p (
            prim_rep is_named towlower is_word e
              (matchfind is_named towlower is_word e f)
              (e.m.arena i)
              c
              p)) where
    pub find_sound :
        (f : ℕ) (c : Ctx) (i p : ℕ)
        → In i
        → Inv c
        → Holds i p (matchfind is_named towlower is_word e f c i p)
    unfolding matchfind
    find_sound zero c i p there same = tt
    find_sound (suc f) c i p there same =
        elim_cases (Holds i p) (ltb max_depth (c.depth + 1)) _ _
          (λ _. keep c (record c { err = edepth }) same refl refl)
          (λ _.
            elim_cases (Holds i p) (i == 0) _ _
              (λ root. (
                same,
                subst (λ j. Matches is_named towlower e ic j p p) (sym (ground (arith, root)))
                    (nothing p),
              ))
              (λ _.
                dispatch_sound (matchfind is_named towlower is_word e f) (find_sound f) settled
                  (repeats f (find_sound f)) (e.m.arena i).type (record c { depth = c.depth + 1 }) i
                  p refl (plain i) there
                  (keep c (record c { depth = c.depth + 1 }) same refl refl)))
