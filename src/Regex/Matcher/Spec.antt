-- ===== src/Regex/Matcher/Spec.antt =====
-- What the nodes of a pattern without looks, references, conditions, calls and word bounds stand for, read off their
-- meaning in include/regex.h and not off the calls of the matcher: from where to where in a text
-- a node matches. Case is ignored where `ic` says so.
use jaclibc.Base.{
  ℕ, ◌+◌, ◌-◌, ◌<◌, ◌≤◌, ◌≡◌, ◌≢◌, ◌⊎◌, Bool, true, false, ◌||◌, ltb, if◌then◌else◌, List, length,
  get_or,
}
use jaclibc.Regex.{match_fold, in_class}
use jaclibc.Regex.Nodes.{
  is_cont, Token, end, char, class, any, bol, eol, cap, alt, seq, rep, flags, atomic, Node, Subject,
  next_at,
}

-- The character at an offset, and the offset behind it.
abbrev pub char_at : List ℕ → ℕ → ℕ × ℕ
char_at s p = if ltb (get_or s p 0) 0x80 then (get_or s p 0, p + 1) else next_at s (length s) p

-- The node matches its first part, and then its second.
abbrev pub is_pair : Token → Bool
is_pair t = elim t [ seq ↦ true | cap ↦ true | atomic ↦ true | other ↦ false ]

abbrev pub is_plain : Token → Bool
is_plain t = elim t [
  | end ↦ true
  | char ↦ true
  | class ↦ true
  | any ↦ true
  | bol ↦ true
  | eol ↦ true
  | flags ↦ true
  | alt ↦ true
  | seq ↦ true
  | cap ↦ true
  | atomic ↦ true
  | rep ↦ true
  | other ↦ false
]

abbrev pub IsPlain : (ℕ → Node) → Type 0
IsPlain arena = (i : ℕ) → is_plain (arena i).type ≡ true

-- Where one node ignores case, all of the search does.
abbrev pub IsSettled : (ℕ → Node) → Bool → Type 0
IsSettled arena ic = (i : ℕ) → ((arena i).icase || ic) ≡ ic

abbrev pub is_rep : Token → Bool
is_rep t = elim t [ rep ↦ true | other ↦ false ]

-- No repetition stands in another: the nodes that are `inner`, with their parts, are none, and a repetition
-- has such a node as its part, and no second part.
abbrev pub IsFlat : (ℕ → Node) → (ℕ → Bool) → Type 0
IsFlat arena inner =
    (i : ℕ)
    → (is_rep (arena i).type ≡ true → ((arena i).b ≡ 0) × (inner (arena i).a ≡ true))
      × (inner i ≡ true
          → (is_rep (arena i).type ≡ false)
            × (inner (arena i).a ≡ true)
            × (inner (arena i).b ≡ true))

module _ (is_named : List ℕ → ℕ → Bool) (towlower : ℕ → ℕ) (e : Subject) (ic : Bool) where
  -- A node of one character takes the text from p to q, and one of a place is there.
  abbrev pub Takes : Token → Node → ℕ → ℕ → Type 0
  Takes char n p q =
      (p < length e.s)
      × (match_fold is_named towlower (char_at e.s p).0 n.val ic ≡ true)
      × (q ≡ (char_at e.s p).1)
  Takes class n p q =
      (cp : ℕ) × (p < length e.s)
      × (in_class is_named towlower e.m.ranges cp n.val ic ≡ true)
      × (((cp ≡ get_or e.s p 0) × (q ≡ p + 1))
          ⊎ ((cp ≡ (next_at e.s (length e.s) p).0) × (q ≡ (next_at e.s (length e.s) p).1)))
  Takes any n p q =
      (p < length e.s)
      × (p < q)
      × ((j : ℕ) → p < j → j < q → is_cont (get_or e.s j 0) ≡ true)
      × ((n.dotall ≡ true) ⊎ (get_or e.s p 0 ≢ 10))
  Takes bol n p q = (q ≡ p) × ((p ≡ 0) ⊎ ((e.nl ≡ true) × (get_or e.s (p - 1) 0 ≡ 10)))
  Takes eol n p q = (q ≡ p) × ((p ≡ length e.s) ⊎ ((e.nl ≡ true) × (get_or e.s p 0 ≡ 10)))
  Takes t n p q = ⊥

  -- The node i of the arena matches the text from p to q; 0 is no node.
  pub data Matches : ℕ → ℕ → ℕ → Type 0 where
    nothing : (p : ℕ) → Matches 0 p p
    accept : (i p : ℕ) → (e.m.arena i).type ≡ end → Matches i p p
    takes :
        (i p q r : ℕ)
        → Takes (e.m.arena i).type (e.m.arena i) p q
        → Matches (e.m.arena i).b q r
        → Matches i p r
    pair :
        (i p q r : ℕ)
        → is_pair (e.m.arena i).type ≡ true
        → Matches (e.m.arena i).a p q
        → Matches (e.m.arena i).b q r
        → Matches i p r
    first : (i p r : ℕ) → (e.m.arena i).type ≡ alt → Matches (e.m.arena i).a p r → Matches i p r
    second : (i p r : ℕ) → (e.m.arena i).type ≡ alt → Matches (e.m.arena i).b p r → Matches i p r
    inside : (i p r : ℕ) → (e.m.arena i).type ≡ flags → Matches (e.m.arena i).a p r → Matches i p r
    -- The offsets between the rounds of a repetition.
    repeat :
        (i k r : ℕ) (path : ℕ → ℕ)
        → (e.m.arena i).type ≡ rep
        → (e.m.arena i).least ≤ k
        → ((e.m.arena i).most ≡ 255) ⊎ (k ≤ (e.m.arena i).most)
        → ((j : ℕ) → j < k → Matches (e.m.arena i).a (path j) (path (j + 1)))
        → Matches (e.m.arena i).b (path k) r
        → Matches i (path 0) r
