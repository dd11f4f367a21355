-- ===== src/Lock/Exclusion.antt =====
-- What the lock is for.
use jaclibc.Base.{
  ℕ, ◌%◌, ◌<◌, ◌≡◌, ◌≢◌, ◌⊎◌, inl, inr, true, ==_iff, List, [], ◌∷◌, arith, sym, ◌∙◌,
}
use jaclibc.Lock.{System, Reach, holding, waiting, outside, wrap, is_turn}
use jaclibc.Lock.Line.{IsLine}
use jaclibc.Lock.Queue.{Reach-IsLine, first_in_line}

-- Fewer than 2 ^ 32 threads never come to hold the lock two at a time.
pub lock_excludes :
    (n : ℕ) (s : System) (i j : ℕ)
    → n < wrap
    → Reach n s
    → s.pc i ≡ holding
    → s.pc j ≡ holding
    → i ≡ j
lock_excludes n s i j few h hi hj =
    let (q, l) = Reach-IsLine n s few h in
    let (r, e) = first_in_line n s q few l i (inl hi) in
    let (r', e') = first_in_line n s q few l j (inl hj) in ground (arith, sym e ∙ e')

-- With fewer than 2 ^ 32 threads, whenever some thread waits, a thread can do more than spin: the one
-- that holds the lock can leave, or one that waits sees its turn.
pub lock_goes_on :
    (n : ℕ) (s : System)
    → n < wrap
    → Reach n s
    → (i : ℕ) → s.pc i ≢ outside
    → (j : ℕ) × ((s.pc j ≡ holding) ⊎ ((t : ℕ) × (s.pc j ≡ waiting t) × (is_turn s.lock t ≡ true)))
lock_goes_on n s few h i ne = let (q, l) = Reach-IsLine n s few h in go q l
  where
    go :
        (q : List ℕ)
        → IsLine n s q
        → (j : ℕ) × ((s.pc j ≡ holding)
            ⊎ ((t : ℕ) × (s.pc j ≡ waiting t) × (is_turn s.lock t ≡ true)))
    go [] l = absurd (ne (l.out i (λ m. m)))
    go (x ∷ q) l = elim l.line.0 [
      | inr held ↦ (x, inl held)
      | inl w ↦ (x, inr (l.base % wrap, w, (==_iff s.lock.owner (l.base % wrap)).1 l.owner_at))
    ]
