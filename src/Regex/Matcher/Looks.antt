-- ===== src/Regex/Matcher/Looks.antt =====
-- The cases of the switch that look elsewhere in the subject or the arena.
use jaclibc.Base.{
  ℕ, zero, suc, ◌+◌, ◌-◌, ◌*◌, ◌%◌, ◌/◌, ◌≤◌, ◌<◌, ◌≡◌, ◌⊎◌, ◌==◌, Bool, true, false, ◌||◌, leb,
  if_both, Bool-cases, Option, none, some, Option-cases, inl, inr, List, length, refl, sym, subst,
  arith,
}
use jaclibc.Alloc.{put}
use jaclibc.Regex.Nodes.{Node, Subject, Caps, Ctx, Find, next_at, skip_back, max_offsets, einternal}
use jaclibc.Regex.Prims.{
  look_back, look_end, look_in, prim_look, ref_loop, prim_backref, prim_atomic, prim_cond, prim_wb,
  prim_call,
}
use jaclibc.Regex.Matcher.Steps.{
  IsWithin, Inside, Kept, IsGood, Kept-fail, Kept-some, Kept-after, Kept-cases, IsWithin-put,
  next_at-within,
}
use jaclibc.Regex.Matcher.Loops.{elim_cases}

skip_back-within : (s : List ℕ) (p : ℕ) → skip_back s p ≤ p
unfolding skip_back
skip_back-within s zero = omega arith
skip_back-within s (suc p) = ground (arith, skip_back-within s p)

module _ (is_named : List ℕ → ℕ → Bool) (towlower : ℕ → ℕ) (is_word : ℕ → Bool) (e : Subject)
    (d : ℕ) (run : Find) (good : IsGood (length e.s) d run) where
  abbrev len : ℕ
  len = length e.s

  ref_loop-within :
      (left : ℕ) (ic : Bool) (from limit curr from' curr' : ℕ)
      → curr ≤ len
      → ref_loop is_named towlower is_word e left ic from limit curr ≡ some (from', curr')
      → curr' ≤ len
  unfolding ref_loop
  ref_loop-within zero ic from limit curr from' curr' le eq = ground arith
  ref_loop-within (suc left) ic from limit curr from' curr' le eq =
      let (a, next) = next_at e.s limit from in
      let (b, after_curr) = next_at e.s (length e.s) curr in
      ground (
        arith,
        ref_loop-within left ic next limit after_curr from' curr'
            (next_at-within e.s (length e.s) curr),
      )

  module _ (n : Node) where
    -- What a look back leaves.
    abbrev Looked : Option (Ctx × Bool) → Type 0
    Looked o = (c : Ctx) × (found : Bool) × (o ≡ some (c, found)) × (d ≤ c.depth) × Inside len c

    -- A round of a look back, on the next ones.
    look_round :
        (f : ℕ) (c c1 : Ctx) (scap : Caps) (pos cp : ℕ) (found : Bool)
        → d ≤ c.depth
        → Inside len c1
        → ((c : Ctx) (scap : Caps) (pos cp : ℕ)
            → cp < f
            → d ≤ c.depth
            → Inside len c
            → ((j : ℕ) → IsWithin len (scap j))
            → cp ≤ len
            → Looked (look_back is_named towlower is_word e f run n c scap pos cp))
        → cp < suc f
        → ((j : ℕ) → IsWithin len (scap j))
        → cp ≤ len
        → let c2 : Ctx = record c { caps = c1.caps; path = c1.path; cpath = c1.cpath } in
          Looked (elim (found || cp == 0 || skip_back e.s cp == 0) as (λ _. Option (Ctx × Bool)) [
            | true ↦ some (c2, found)
            | false ↦
                look_back is_named towlower is_word e f run n c2 scap pos (skip_back e.s cp - 1)
          ])
    look_round f c c1 scap pos cp found deep h1 more lt saved le =
        let c2 : Ctx = record c { caps = c1.caps; path = c1.path; cpath = c1.cpath } in
        elim_cases Looked (found || cp == 0 || skip_back e.s cp == 0) _ _
          (λ _. (c2, found, refl, deep, h1))
          (λ go.
            more c2 scap pos (skip_back e.s cp - 1) (ground (arith, go, skip_back-within e.s cp))
              deep h1 saved (omega (arith, skip_back-within e.s cp)))

    look_back-Looked :
        (f : ℕ) (c : Ctx) (scap : Caps) (pos cp : ℕ)
        → cp < f
        → d ≤ c.depth
        → Inside len c
        → ((j : ℕ) → IsWithin len (scap j))
        → cp ≤ len
        → Looked (look_back is_named towlower is_word e f run n c scap pos cp)
    unfolding look_back
    look_back-Looked zero c scap pos cp lt deep h saved le = absurd (omega arith)
    look_back-Looked (suc f) c scap pos cp lt deep h saved le =
        Kept-cases Looked len d _ _ _
          (good (record c { caps = put c.caps 0 (scap 0) }) n.a cp deep
            (λ j. IsWithin-put len 0 c.caps (scap 0) (saved 0) h.0 j, h.1, h.2) le)
          (λ c1 deep1 h1.
            look_round f c c1 scap pos cp false deep h1 (look_back-Looked f) lt saved le)
          (λ c1 q deep1 h1 q_le.
            look_round f c c1 scap pos cp (q == pos) deep h1 (look_back-Looked f) lt saved le)

    module _ (c : Ctx) (pos : ℕ) (deep : d ≤ c.depth) (h : Inside len c) (le : pos ≤ len) where
      -- A reference fails, or goes on at an offset in the subject.
      backref_cases :
          let o = prim_backref is_named towlower is_word e run n c pos in
          (o ≡ some (record c { err = einternal }, none))
          ⊎ (o ≡ some (c, none))
          ⊎ ((curr : ℕ) × (curr ≤ len) × (o ≡ run c n.b curr))
      unfolding prim_backref
      backref_cases = elim (Bool-cases (leb max_offsets (n.val * 2 + 1))) [
        | inl far ↦ inl (ground (arith, far))
        | inr near ↦ elim (Option-cases (c.caps (n.val * 2))) [
          | inl no_start ↦ inr (inl (ground (arith, near, no_start)))
          | inr (so, e1) ↦ elim (Option-cases (c.caps (n.val * 2 + 1))) [
            | inl no_end ↦ inr (inl (ground (arith, near, e1, no_end)))
            | inr (eo, e2) ↦
                elim (Option-cases
                  (ref_loop is_named towlower is_word e (eo - so) c.ic so eo pos)) [
                    | inl differs ↦ inr (inl (ground (arith, near, e1, e2, differs)))
                    | inr ((from, curr), e3) ↦ elim (Bool-cases (from == eo)) [
                      | inl whole ↦ inr (
                          inr (
                            curr,
                            ref_loop-within (eo - so) c.ic so eo pos from curr le e3,
                            ground (arith, near, e1, e2, e3, whole),
                          ))
                      | inr short ↦ inr (inl (ground (arith, near, e1, e2, e3, short)))
                    ]
                  ]
          ]
        ]
      ]

      pub backref-Kept : Kept len d (prim_backref is_named towlower is_word e run n c pos)
      backref-Kept = elim backref_cases [
        | inl eq ↦
            subst (Kept len d) (sym eq) (Kept-fail len d (record c { err = einternal }) deep h)
        | inr (inl eq) ↦ subst (Kept len d) (sym eq) (Kept-fail len d c deep h)
        | inr (inr (curr, curr_le, eq)) ↦
            subst (Kept len d) (sym eq) (good c n.b curr deep h curr_le)
      ]

      pub atomic-Kept : Kept len d (prim_atomic is_named towlower is_word e run n c pos)
      unfolding prim_atomic
      atomic-Kept =
          Kept-after len d _ _ _ (good c n.a pos deep h le)
            (λ c1 deep1 h1. Kept-fail len d c1 deep1 h1)
            (λ c1 r deep1 h1 r_le. if_both (Kept len d) _ _ _ (Kept-fail len d c1 deep1 h1) (
              if_both (Kept len d) _ _ _ (Kept-some len d c1 r deep1 h1 r_le)
                (good c1 n.b r deep1 h1 r_le)))

      pub cond-Kept : Kept len d (prim_cond is_named towlower is_word e run n c pos)
      unfolding prim_cond
      cond-Kept =
          if_both (Kept len d) _ _ _ (Kept-some len d c pos deep h le) (good c _ pos deep h le)

      pub wb-Kept : (neg : Bool) → Kept len d (prim_wb is_named towlower is_word e run neg n c pos)
      unfolding prim_wb
      wb-Kept neg =
          let next = good c n.b pos deep h le in
          let miss = Kept-fail len d c deep h in
          if_both (Kept len d) _ _ _ (if_both (Kept len d) _ _ _ miss next)
            (if_both (Kept len d) _ _ _ next miss)

      pub call-Kept : Kept len d (prim_call is_named towlower is_word e run n c pos)
      unfolding prim_call
      call-Kept = if_both (Kept len d) _ _ _ (good c e.m.root pos deep h le) (
          if_both (Kept len d) _ _ _ (Kept-fail len d c deep h)
            (good c (e.m.groups n.val) pos deep h le))

      look_in-Looked : Looked (look_in is_named towlower is_word e run n c pos)
      unfolding look_in
      look_in-Looked =
          let (c1, found, e1, deep1, h1) =
            look_back-Looked (pos + 1) c c.caps pos pos (omega arith) deep h h.0 le in
          elim_cases Looked (n.cap_id % 2 == 1) _ _
            (λ _.
              subst
                (λ o. Looked (elim o as (λ _. Option (Ctx × Bool)) [
                  | none ↦ none
                  | some p ↦ some (record p.0 { caps = c.caps }, p.1)
                ]))
                (sym e1) (record c1 { caps = c.caps }, found, refl, deep1, (h.0, h1.1, h1.2)))
            (λ _.
              Kept-cases Looked len d _ _ _ (good c n.a pos deep h le)
                (λ c2 deep2 h2. (
                  record c { caps = c2.caps; path = c2.path; cpath = c2.cpath },
                  false,
                  refl,
                  deep,
                  h2,
                ))
                (λ c2 q deep2 h2 q_le. (
                  record c { caps = c2.caps; path = c2.path; cpath = c2.cpath },
                  true,
                  refl,
                  deep,
                  h2,
                )))

      pub look-Kept : Kept len d (prim_look is_named towlower is_word e run n c pos)
      unfolding prim_look
      look-Kept =
          let (c1, found, e1, deep1, h1) = look_in-Looked in
          let is_neg = n.neg || n.cap_id / 2 % 2 == 1 in
          subst
            (λ o. Kept len d (elim o as (λ _. Option (Ctx × Option ℕ)) [
              | none ↦ none
              | some p ↦ look_end is_named towlower is_word e run n is_neg p.0 pos p.1
            ]))
            (sym e1)
            (if_both (Kept len d) _ _ _ (good c1 n.b pos deep1 h1 le) (Kept-fail len d c1 deep1 h1))
