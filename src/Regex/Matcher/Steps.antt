-- ===== src/Regex/Matcher/Steps.antt =====
-- What every case of the switch keeps: the depth does not fall, and every offset stays in the subject.
use jaclibc.Base.{
  ℕ, zero, suc, ◌+◌, ◌-◌, ◌*◌, ◌≤◌, ◌≡◌, ◌==◌, Bool, if_both, if_cases, Option, none, some, List,
  length, refl, sym, subst, arith,
}
use jaclibc.Alloc.{put}
use jaclibc.Regex.Nodes.{Node, Subject, Caps, Ctx, Find, after, next_at, skip_tails, einternal}
use jaclibc.Regex.Prims.{
  at_end, undo, prim_char, prim_class, prim_any, prim_bol, prim_eol, prim_cap, prim_alt,
}

-- An offset, where there is one, is n at most.
abbrev pub IsWithin : ℕ → Option ℕ → Type 0
IsWithin n o = (q : ℕ) → o ≡ some q → q ≤ n

abbrev pub Inside : ℕ → Ctx → Type 0
Inside n c =
    ((j : ℕ) → IsWithin n (c.caps j))
    × ((j : ℕ) → c.path j ≤ n)
    × ((k j : ℕ) → IsWithin n (c.cpath k j))

-- There is a result, the depth is d at least, and the offsets are in a subject of n bytes.
abbrev pub Kept : ℕ → ℕ → Option (Ctx × Option ℕ) → Type 0
Kept n d o =
    (c : Ctx) × (r : Option ℕ) × (o ≡ some (c, r)) × (d ≤ c.depth) × Inside n c × IsWithin n r

-- A call at a depth of d or more keeps them.
abbrev pub IsGood : ℕ → ℕ → Find → Type 0
IsGood n d run = (c : Ctx) (i pos : ℕ) → d ≤ c.depth → Inside n c → pos ≤ n → Kept n d (run c i pos)

pub Kept-fail : (n d : ℕ) (c : Ctx) → d ≤ c.depth → Inside n c → Kept n d (some (c, none))
Kept-fail n d c le h = (c, none, refl, le, h, λ q e. absurd (ground (arith, e)))

pub Kept-some :
    (n d : ℕ) (c : Ctx) (q : ℕ) → d ≤ c.depth → Inside n c → q ≤ n → Kept n d (some (c, some q))
Kept-some n d c q le h lt = (c, some q, refl, le, h, λ q' e. ground (arith, e, lt))

pub Kept-from : (n d d' : ℕ) (o : Option (Ctx × Option ℕ)) → d ≤ d' → Kept n d' o → Kept n d o
Kept-from n d d' o le (c, r, e, le', h, w) = (c, r, e, omega arith, h, w)

pub Kept-cases {ℓ κ} :
    {B : Type ℓ} (P : Option B → Type κ) (n d : ℕ) (o : Option (Ctx × Option ℕ))
    (miss : Ctx → Option B) (hit : Ctx → ℕ → Option B)
    → Kept n d o
    → ((c : Ctx) → d ≤ c.depth → Inside n c → P (miss c))
    → ((c : Ctx) (r : ℕ) → d ≤ c.depth → Inside n c → r ≤ n → P (hit c r))
    → P (after o miss hit)
Kept-cases P n d o miss hit (c, none, e, le, h, within) m k =
    subst (λ x. P (after x miss hit)) (sym e) (m c le h)
Kept-cases P n d o miss hit (c, some r, e, le, h, within) m k =
    subst (λ x. P (after x miss hit)) (sym e) (k c r le h (within r refl))

pub Kept-after :
    (n d : ℕ) (o : Option (Ctx × Option ℕ)) (miss : Ctx → Option (Ctx × Option ℕ))
    (hit : Ctx → ℕ → Option (Ctx × Option ℕ))
    → Kept n d o
    → ((c : Ctx) → d ≤ c.depth → Inside n c → Kept n d (miss c))
    → ((c : Ctx) (r : ℕ) → d ≤ c.depth → Inside n c → r ≤ n → Kept n d (hit c r))
    → Kept n d (after o miss hit)
Kept-after n d = Kept-cases (Kept n d) n d

pub IsWithin-put :
    (n i : ℕ) (caps : Caps) (o : Option ℕ)
    → IsWithin n o
    → ((j : ℕ) → IsWithin n (caps j))
    → (j : ℕ) → IsWithin n (put caps i o j)
IsWithin-put n i caps o h hs j = if_both (IsWithin n) (j == i) o (caps j) h (hs j)

pub next_at-within : (s : List ℕ) (limit pos : ℕ) → (next_at s limit pos).1 ≤ length s
unfolding next_at
next_at-within s limit pos = omega arith

skip_tails-within : (left : ℕ) (s : List ℕ) (next : ℕ) → skip_tails left s next ≤ next + left
unfolding skip_tails
skip_tails-within zero s next = omega arith
skip_tails-within (suc left) s next = ground (arith, skip_tails-within left s (next + 1))

module _ (is_named : List ℕ → ℕ → Bool) (towlower : ℕ → ℕ) (is_word : ℕ → Bool) (e : Subject) where
  abbrev len : ℕ
  len = length e.s

  module _ (d : ℕ) (run : Find) (n : Node) (good : IsGood len d run) where
    module _ (c : Ctx) (pos : ℕ) (deep : d ≤ c.depth) (h : Inside len c) (le : pos ≤ len) where
      miss : Kept len d (some (c, none))
      miss = Kept-fail len d c deep h

      next : (q : ℕ) → q ≤ len → Kept len d (run c n.b q)
      next q q_le = good c n.b q deep h q_le

      pub char-Kept : Kept len d (prim_char is_named towlower is_word e run n c pos)
      unfolding prim_char
      char-Kept =
          if_cases (Kept len d) (at_end is_named towlower is_word e pos) _ _ (λ _. miss)
            (λ inner.
              if_both (Kept len d) _ _ _
                (if_both (Kept len d) _ _ _ (next (pos + 1) (ground (arith, inner))) miss)
                (if_both (Kept len d) _ _ _
                  (next (next_at e.s len pos).1 (next_at-within e.s len pos)) miss))

      pub class-Kept : Kept len d (prim_class is_named towlower is_word e run n c pos)
      unfolding prim_class
      class-Kept =
          if_cases (Kept len d) (at_end is_named towlower is_word e pos) _ _ (λ _. miss)
            (λ inner.
              if_both (Kept len d) _ _ _
                (next _ (ground (arith, inner, next_at-within e.s len pos))) miss)

      pub any-Kept : Kept len d (prim_any is_named towlower is_word e run n c pos)
      unfolding prim_any
      any-Kept =
          if_cases (Kept len d) (at_end is_named towlower is_word e pos) _ _ (λ _. miss)
            (λ inner. if_both (Kept len d) _ _ _ miss (
              next _
                (ground (arith, inner, skip_tails-within (length e.s - (pos + 1)) e.s (pos + 1)))))

      pub bol-Kept : Kept len d (prim_bol is_named towlower is_word e run n c pos)
      unfolding prim_bol
      bol-Kept = if_both (Kept len d) _ _ _ miss (if_both (Kept len d) _ _ _ (next pos le) miss)

      pub eol-Kept : Kept len d (prim_eol is_named towlower is_word e run n c pos)
      unfolding prim_eol
      eol-Kept = if_both (Kept len d) _ _ _ miss (if_both (Kept len d) _ _ _ (next pos le) miss)

      pub alt-Kept : Kept len d (prim_alt is_named towlower is_word e run n c pos)
      unfolding prim_alt
      alt-Kept =
          Kept-after len d _ _ _ (good c n.a pos deep h le)
            (λ c1 deep1 h1.
              if_both (Kept len d) _ _ _ (Kept-fail len d c1 deep1 h1)
                (good (record c1 { caps = c.caps }) n.b pos deep1 (h.0, h1.1, h1.2) le))
            (λ c1 r deep1 h1 r_le. Kept-some len d c1 r deep1 h1 r_le)

      undo-Inside :
          (c1 : Ctx) (idx : ℕ)
          → Inside len c1
          → Inside len (undo is_named towlower is_word e c c1 idx)
      undo-Inside c1 idx h1 = (
        λ j.
            IsWithin-put len (idx + 1) (put c1.caps idx (c.caps idx)) (c.caps (idx + 1))
              (h.0 (idx + 1)) (λ i. IsWithin-put len idx c1.caps (c.caps idx) (h.0 idx) h1.0 i) j,
        h1.1,
        h1.2,
      )

      put-Inside :
          (c1 : Ctx) (idx q : ℕ)
          → q ≤ len
          → Inside len c1
          → Inside len (record c1 { caps = put c1.caps idx (some q) })
      put-Inside c1 idx q q_le h1 = (
        λ j. IsWithin-put len idx c1.caps (some q) (λ q' eq. ground (arith, eq, q_le)) h1.0 j,
        h1.1,
        h1.2,
      )

      pub cap-Kept : Kept len d (prim_cap is_named towlower is_word e run n c pos)
      unfolding prim_cap
      cap-Kept =
          let idx = n.cap_id * 2 in
          if_both (Kept len d) _ _ _ (Kept-fail len d (record c { err = einternal }) deep h) (
            Kept-after len d _ _ _
              (good (record c { caps = put c.caps idx (some pos) }) n.a pos deep
                (put-Inside c idx pos le h) le)
              (λ c1 deep1 h1.
                Kept-fail len d (undo is_named towlower is_word e c c1 idx) deep1
                  (undo-Inside c1 idx h1))
              (λ c1 r deep1 h1 r_le.
                if_both (Kept len d) _ _ _
                  (Kept-fail len d (undo is_named towlower is_word e c c1 idx) deep1
                    (undo-Inside c1 idx h1))
                  (Kept-after len d _ _ _
                    (good (record c1 { caps = put c1.caps (idx + 1) (some r) }) n.b r deep1
                      (put-Inside c1 (idx + 1) r r_le h1) r_le)
                    (λ c2 deep2 h2.
                      Kept-fail len d (undo is_named towlower is_word e c c2 idx) deep2
                        (undo-Inside c2 idx h2))
                    (λ c2 q deep2 h2 q_le. Kept-some len d c2 q deep2 h2 q_le))))
