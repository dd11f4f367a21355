-- ===== src/Regex/Matcher/Loops.antt =====
-- The cases of the switch with loops, and those that look elsewhere.
use jaclibc.Base.{
  ℕ, zero, suc, ◌+◌, ◌-◌, ◌≤◌, ◌<◌, ◌≡◌, ◌==◌, Bool, true, false, not, ◌||◌, ltb, if◌then◌else◌,
  if_both, Option, none, some, List, length, refl, sym, subst, arith,
}
use jaclibc.Alloc.{put}
use jaclibc.Regex.Nodes.{
  Node, Subject, Caps, Ctx, Find, is_seq, is_success, is_edepth, max_backtrack,
}
use jaclibc.Regex.Prims.{seq_loop, rep_grow, rep_try, prim_rep}
use jaclibc.Regex.Matcher.Steps.{
  IsWithin, Inside, Kept, IsGood, Kept-fail, Kept-some, Kept-after, Kept-cases,
}

-- The second part of a sequence stands in front of it in the arena.
abbrev pub IsBuilt : (ℕ → Node) → Type 0
IsBuilt arena = (i : ℕ) → is_seq (arena i).type ≡ true → (arena i).b < i

pub elim_cases {ℓ κ} :
    {A : Type ℓ} (P : A → Type κ) (b : Bool) (x y : A)
    → (b ≡ true → P x)
    → (b ≡ false → P y)
    → P (elim b as (λ _. A) [ true ↦ x | false ↦ y ])
elim_cases P true x y hx hy = hx refl
elim_cases P false x y hx hy = hy refl

module _ (is_named : List ℕ → ℕ → Bool) (towlower : ℕ → ℕ) (is_word : ℕ → Bool) (e : Subject)
    (d : ℕ) (run : Find) (good : IsGood (length e.s) d run) where
  abbrev len : ℕ
  len = length e.s

  pub seq-Kept :
      IsBuilt e.m.arena
      → (f : ℕ) (c : Ctx) (i pos : ℕ) → i < f
      → d ≤ c.depth
      → Inside len c
      → pos ≤ len
      → Kept len d (seq_loop is_named towlower is_word e f run c i pos)
  unfolding seq_loop
  seq-Kept built zero c i pos lt deep h le = absurd (omega arith)
  seq-Kept built (suc f) c i pos lt deep h le =
      let n = e.m.arena i in
      elim_cases (Kept len d) (i == 0 || not (is_seq n.type)) _ _ (λ _. good c i pos deep h le)
        (λ inner.
          Kept-after len d _ _ _ (good c n.a pos deep h le)
            (λ c1 deep1 h1. Kept-fail len d c1 deep1 h1)
            (λ c1 r deep1 h1 r_le.
              elim_cases (Kept len d) (is_success c1.err) _ _
                (λ _.
                  seq-Kept built f
                    (if n.b == 0 then c1 else record c1 { ic = (e.m.arena n.b).icase || c1.ic }) n.b
                    r (omega (arith, built i (ground (arith, inner))))
                    (if_both (λ (c2 : Ctx). d ≤ c2.depth) (n.b == 0) _ _ deep1 deep1)
                    (if_both (Inside len) (n.b == 0) _ _ h1 h1) r_le)
                (λ _. Kept-fail len d c1 deep1 h1)))

  module _ (n : Node) where
    -- What the first loop of a repetition leaves.
    abbrev Grown : Option (Ctx × ℕ) → Type 0
    Grown o = (c : Ctx) × (k : ℕ) × (o ≡ some (c, k)) × (d ≤ c.depth) × Inside len c

    put-path :
        (c : Ctx) (k next : ℕ)
        → next ≤ len
        → Inside len c
        → Inside len (record c { path = put c.path k next; cpath = put c.cpath k c.caps })
    put-path c k next le (caps, path, cpath) = (
      caps,
      λ j. if_both (λ q. q ≤ len) (j == k) next (c.path j) le (path j),
      λ i.
          if_both (λ (cs : Caps). (j : ℕ) → IsWithin len (cs j)) (i == k) c.caps (c.cpath i) caps
            (cpath i),
    )

    save-path :
        (c : Ctx) (k : ℕ) → Inside len c → Inside len (record c { cpath = put c.cpath k c.caps })
    save-path c k (caps, path, cpath) = (
      caps,
      path,
      λ i.
          if_both (λ (cs : Caps). (j : ℕ) → IsWithin len (cs j)) (i == k) c.caps (c.cpath i) caps
            (cpath i),
    )

    rep_grow-Grown :
        (left : ℕ) (c : Ctx) (k : ℕ)
        → d ≤ c.depth
        → Inside len c
        → Grown (rep_grow is_named towlower is_word e left run n c k)
    unfolding rep_grow
    rep_grow-Grown zero c k deep h = (c, k, refl, deep, h)
    rep_grow-Grown (suc left) c k deep h =
        elim_cases Grown (n.most == 255 || ltb k n.most) _ _
          (λ _.
            Kept-cases Grown len d _ _ _
              (good (record c { cpath = put c.cpath (k + 1) c.caps }) n.a (c.path k) deep
                (save-path c (k + 1) h) (h.1 k))
              (λ c1 deep1 h1. (c1, k, refl, deep1, h1))
              (λ c1 next deep1 h1 le.
                elim_cases Grown (next == c1.path k) _ _ (λ _. (c1, k, refl, deep1, h1))
                  (λ _.
                    rep_grow-Grown left
                      (record c1 {
                        path = put c1.path (k + 1) next;
                        cpath = put c1.cpath (k + 1) c1.caps;
                      })
                      (k + 1) deep1 (put-path c1 (k + 1) next le h1))))
          (λ _. (c, k, refl, deep, h))

    rep_try-Kept :
        (count : ℕ) (c : Ctx) (i : ℕ)
        → d ≤ c.depth
        → Inside len c
        → Kept len d (rep_try is_named towlower is_word e count run n c i)
    unfolding rep_try
    rep_try-Kept zero c i deep h = Kept-fail len d c deep h
    rep_try-Kept (suc count) c i deep h =
        let c1 : Ctx = record c { caps = c.cpath i } in
        let h1 : Inside len c1 = (h.2 i, h.1, h.2) in
        elim_cases (Kept len d) (n.b == 0) _ _ (λ _. Kept-some len d c1 (c1.path i) deep h1 (h.1 i))
          (λ _.
            Kept-after len d _ _ _ (good c1 n.b (c1.path i) deep h1 (h.1 i))
              (λ c2 deep2 h2.
                elim_cases (Kept len d) (is_edepth c2.err) _ _ (λ _. Kept-fail len d c2 deep2 h2)
                  (λ _. rep_try-Kept count c2 (if n.lazy then i + 1 else i - 1) deep2 h2))
              (λ c2 r deep2 h2 r_le. Kept-some len d c2 r deep2 h2 r_le))

    module _ (c : Ctx) (pos : ℕ) (deep : d ≤ c.depth) (h : Inside len c) (le : pos ≤ len) where
      pub rep-Kept : Kept len d (prim_rep is_named towlower is_word e run n c pos)
      unfolding prim_rep
      rep-Kept =
          let c0 : Ctx = record c { path = put c.path 0 pos; cpath = put c.cpath 0 c.caps } in
          let (c1, k, e1, deep1, h1) =
            rep_grow-Grown (max_backtrack - 1) c0 0 deep (put-path c 0 pos le h) in
          subst
            (λ o. Kept len d (elim o as (λ _. Option (Ctx × Option ℕ)) [
              | none ↦ none
              | some p ↦
                  rep_try is_named towlower is_word e (p.1 + 1 - n.least) run n p.0
                    (if n.lazy then n.least else p.1)
            ]))
            (sym e1) (rep_try-Kept (k + 1 - n.least) c1 (if n.lazy then n.least else k) deep1 h1)
