-- ===== src/Regex/Matcher/Repeats.antt =====
-- What a repetition of include/core/match.h finds, where no other stands in it: the calls for its part leave the
-- path of the workspace alone.
use Prim.{Unit, tt}
use jaclibc.Base.{
  ℕ, zero, suc, ◌+◌, ◌-◌, ◌<◌, ◌≤◌, ◌≡◌, ◌⊎◌, inl, inr, ◌==◌, Bool, true, ◌||◌, ltb, if◌then◌else◌,
  if_both, Bool-cases, Option, none, some, List, refl, sym, subst, arith,
}
use jaclibc.Alloc.{put}
use jaclibc.Regex.Nodes.{rep, Node, Subject, Ctx, Find, after, max_backtrack}
use jaclibc.Regex.Prims.{rep_grow, rep_try, prim_rep}
use jaclibc.Regex.Matcher.{matchfind}
use jaclibc.Regex.Matcher.Loops.{elim_cases}
use jaclibc.Regex.Matcher.Spec.{is_rep, IsPlain, IsSettled, IsFlat, Matches, nothing, repeat}
use jaclibc.Regex.Matcher.Sound.{Holds, find_sound}

module _ (is_named : List ℕ → ℕ → Bool) (towlower : ℕ → ℕ) (is_word : ℕ → Bool) (e : Subject)
    (ic : Bool) (inner : ℕ → Bool) (flat : IsFlat e.m.arena inner) (plain : IsPlain e.m.arena)
    (settled : IsSettled e.m.arena ic) where
  -- Case is as the search has it, and the path is `path`.
  abbrev Quiet : (ℕ → ℕ) → Ctx → Type 0
  Quiet path c = (c.ic ≡ ic) × (c.path ≡ path)

  Quiet-keep :
      (path : ℕ → ℕ) (c c' : Ctx) → Quiet path c → c'.ic ≡ c.ic → c'.path ≡ c.path → Quiet path c'
  Quiet-keep path c c' (same, eq) ic_eq path_eq = (cc, cc)

  abbrev QuietHolds : (ℕ → ℕ) → ℕ → ℕ → Option (Ctx × Option ℕ) → Type 0
  QuietHolds path =
      Holds is_named towlower is_word e ic (Quiet path) (λ c same. same.0) (Quiet-keep path)
        (λ i. inner i ≡ true) (λ i there. (((flat i).1 there).1, ((flat i).1 there).2))

  inner_sound :
      (path : ℕ → ℕ) (f : ℕ) (c : Ctx) (i p : ℕ)
      → inner i ≡ true
      → Quiet path c
      → QuietHolds path i p (matchfind is_named towlower is_word e f c i p)
  inner_sound path =
      find_sound is_named towlower is_word e ic (Quiet path) (λ c same. same.0) (Quiet-keep path)
        (λ i. inner i ≡ true) (λ i there. (((flat i).1 there).1, ((flat i).1 there).2)) plain
        settled (λ f good c i p eq there same. absurd (ground (arith, eq, ((flat i).1 there).0)))

  -- The match of a part, or none, with the path as it was.
  Quiet-cases :
      (P : Option (Ctx × ℕ) → Type 0) (path : ℕ → ℕ) (j q : ℕ) (o : Option (Ctx × Option ℕ))
      (miss : Ctx → Option (Ctx × ℕ)) (hit : Ctx → ℕ → Option (Ctx × ℕ))
      → QuietHolds path j q o
      → P none
      → ((c : Ctx) → Quiet path c → P (miss c))
      → ((c : Ctx) (r : ℕ) → Quiet path c → Matches is_named towlower e ic j q r → P (hit c r))
      → P (after o miss hit)
  Quiet-cases P path j q none miss hit h z m k = z
  Quiet-cases P path j q (some (c, none)) miss hit h z m k = m c h
  Quiet-cases P path j q (some (c, some r)) miss hit (h, match) z m k = k c r h match

  -- What is found from p on is a match of the node.
  abbrev pub Found : ℕ → ℕ → Option (Ctx × Option ℕ) → Type 0
  Found i p none = Unit
  Found i p (some (c, none)) = c.ic ≡ ic
  Found i p (some (c, some q)) = (c.ic ≡ ic) × Matches is_named towlower e ic i p q

  module _ (f i p : ℕ) (is_repeat : (e.m.arena i).type ≡ rep) where
    abbrev n : Node
    n = e.m.arena i

    abbrev run : Find
    run = matchfind is_named towlower is_word e f

    -- k rounds from p on.
    abbrev Rounds : (ℕ → ℕ) → ℕ → Type 0
    Rounds path k =
        ((j : ℕ) → j < k → Matches is_named towlower e ic n.a (path j) (path (j + 1)))
        × (path 0 ≡ p)
        × ((n.most ≡ 255) ⊎ (k ≤ n.most))

    abbrev Grown : Option (Ctx × ℕ) → Type 0
    Grown none = Unit
    Grown (some (c, k)) = (c.ic ≡ ic) × Rounds c.path k

    part_inner : inner n.a ≡ true
    part_inner = ((flat i).0 (subst (λ t. is_rep t ≡ true) (sym is_repeat) refl)).1

    moved :
        (x y x' y' : ℕ)
        → x ≡ x'
        → y ≡ y'
        → Matches is_named towlower e ic n.a x' y'
        → Matches is_named towlower e ic n.a x y
    moved x y x' y' ex ey match =
        subst (λ z. Matches is_named towlower e ic n.a z y) (sym ex)
          (subst (λ z. Matches is_named towlower e ic n.a x' z) (sym ey) match)

    one_more :
        (path : ℕ → ℕ) (k next : ℕ)
        → (n.most == 255 || ltb k n.most) ≡ true
        → Rounds path k
        → Matches is_named towlower e ic n.a (path k) next
        → Rounds (put path (k + 1) next) (k + 1)
    one_more path k next more (rounds, from, bound) match = (
      λ j lt. elim (Bool-cases (j == k)) [
        | inl here ↦
            moved (put path (k + 1) next j) (put path (k + 1) next (j + 1)) (path k) next
              (ground (arith, here)) (ground (arith, here)) match
        | inr other ↦
            moved (put path (k + 1) next j) (put path (k + 1) next (j + 1)) (path j) (path (j + 1))
              (ground (arith, lt)) (ground (arith, lt, other))
              (rounds j (ground (arith, lt, other)))
      ],
      ground (arith, from),
      ground (arith, more, bound),
    )

    rep_grow_sound :
        (left : ℕ) (c : Ctx) (k : ℕ)
        → c.ic ≡ ic
        → Rounds c.path k
        → Grown (rep_grow is_named towlower is_word e left run n c k)
    unfolding rep_grow
    rep_grow_sound zero c k same rounds = (same, rounds)
    rep_grow_sound (suc left) c k same rounds =
        elim_cases Grown (n.most == 255 || ltb k n.most) _ _
          (λ more.
            Quiet-cases Grown c.path n.a (c.path k) _ _ _
              (inner_sound c.path f (record c { cpath = put c.cpath (k + 1) c.caps }) n.a (c.path k)
                part_inner (same, refl))
              tt (λ c1 quiet. (quiet.0, subst (λ path. Rounds path k) (sym quiet.1) rounds))
              (λ c1 next quiet match.
                elim_cases Grown (next == c1.path k) _ _
                  (λ _. (quiet.0, subst (λ path. Rounds path k) (sym quiet.1) rounds))
                  (λ _.
                    rep_grow_sound left
                      (record c1 {
                        path = put c1.path (k + 1) next;
                        cpath = put c1.cpath (k + 1) c1.caps;
                      })
                      (k + 1) quiet.0
                      (subst (λ path. Rounds (put path (k + 1) next) (k + 1)) (sym quiet.1)
                        (one_more c.path k next more rounds match)))))
          (λ _. (same, rounds))

    part_last : n.b ≡ 0
    part_last = ((flat i).0 (subst (λ t. is_rep t ≡ true) (sym is_repeat) refl)).0

    -- The first length that is tried is a match, since nothing follows.
    rep_try_sound :
        (count : ℕ) (c : Ctx) (k at : ℕ)
        → c.ic ≡ ic
        → Rounds c.path k
        → (0 < count → (n.least ≤ at) × (at ≤ k))
        → Found i p (rep_try is_named towlower is_word e count run n c at)
    unfolding rep_try
    rep_try_sound zero c k at same rounds bounds = same
    rep_try_sound (suc count) c k at same (rounds, from, bound) bounds =
        elim_cases (Found i p) (n.b == 0) _ _
          (λ _. (
            same,
            subst (λ x. Matches is_named towlower e ic i x (c.path at)) from
                (repeat i at (c.path at) c.path is_repeat (bounds (omega arith)).0
                  (ground (arith, bound, (bounds (omega arith)).1))
                  (λ j lt. rounds j (omega (arith, lt, (bounds (omega arith)).1)))
                  (subst (λ b. Matches is_named towlower e ic b (c.path at) (c.path at))
                    (sym part_last) (nothing (c.path at)))),
          ))
          (λ more. absurd (ground (arith, more, part_last)))

    after_growing :
        (o : Option (Ctx × ℕ)) (next : Ctx → ℕ → Option (Ctx × Option ℕ))
        → Grown o
        → ((c : Ctx) (k : ℕ) → c.ic ≡ ic → Rounds c.path k → Found i p (next c k))
        → Found i p
            (elim o as (λ _. Option (Ctx × Option ℕ)) [ none ↦ none | some (c, k) ↦ next c k ])
    after_growing none next h k = tt
    after_growing (some (c, k)) next (same, rounds) h = h c k same rounds

    pub prim_rep_sound :
        (c : Ctx) → c.ic ≡ ic → Found i p (prim_rep is_named towlower is_word e run n c p)
    unfolding prim_rep
    prim_rep_sound c same =
        after_growing _
          (λ c1 k.
            rep_try is_named towlower is_word e (k + 1 - n.least) run n c1
              (if n.lazy then n.least else k))
          (rep_grow_sound (max_backtrack - 1)
            (record c { path = put c.path 0 p; cpath = put c.cpath 0 c.caps }) 0 same
            (λ j lt. absurd (omega (arith, lt)), refl, ground arith))
          (λ c1 k same1 rounds.
            rep_try_sound (k + 1 - n.least) c1 k (if n.lazy then n.least else k) same1 rounds (λ lt.
              if_both (λ at. (n.least ≤ at) × (at ≤ k)) n.lazy n.least k
                (omega arith, omega (arith, lt)) (omega (arith, lt), omega arith)))

  abbrev OfCase : Ctx → Type 0
  OfCase c = c.ic ≡ ic

  OfCase-keep : (c c' : Ctx) → OfCase c → c'.ic ≡ c.ic → c'.path ≡ c.path → OfCase c'
  OfCase-keep c c' same ic_eq path_eq = cc

  abbrev AnyHolds : ℕ → ℕ → Option (Ctx × Option ℕ) → Type 0
  AnyHolds =
      Holds is_named towlower is_word e ic OfCase (λ c same. same) OfCase-keep (λ i. Unit)
        (λ i there. (tt, tt))

  Found-Holds : (i p : ℕ) (o : Option (Ctx × Option ℕ)) → Found i p o → AnyHolds i p o
  Found-Holds i p none h = tt
  Found-Holds i p (some (c, none)) h = h
  Found-Holds i p (some (c, some q)) h = h

  Holds-Found : (i p : ℕ) (o : Option (Ctx × Option ℕ)) → AnyHolds i p o → Found i p o
  Holds-Found i p none h = tt
  Holds-Found i p (some (c, none)) h = h
  Holds-Found i p (some (c, some q)) h = h

  pub matchfind_sound :
      (f : ℕ) (c : Ctx) (i p : ℕ)
      → c.ic ≡ ic
      → Found i p (matchfind is_named towlower is_word e f c i p)
  matchfind_sound f c i p same = Holds-Found i p _ (
      find_sound is_named towlower is_word e ic OfCase (λ c same. same) OfCase-keep (λ i. Unit)
        (λ i there. (tt, tt)) plain settled
        (λ f good c i p eq there same. Found-Holds i p _ (prim_rep_sound f i p eq c same)) f c i p
        tt same)
