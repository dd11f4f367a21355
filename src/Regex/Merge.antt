-- ===== src/Regex/Merge.antt =====
-- What add_range leaves where it merges no entry, or the last one only.
use jaclibc.Base.{
  ℕ, zero, suc, ◌+◌, ◌-◌, ◌*◌, ◌≤◌, ◌<◌, ◌≡◌, refl, ap, subst, ◌∙◌, arith, min, max, true, false,
  ◌||◌, leb, none, some,
}
use jaclibc.Regex.{Ranges, passes, shift_low, merge_loop, append_range, add_range}

merge_loop-passes :
    (left i : ℕ) (m : Ranges) (lo hi cid : ℕ)
    → ((j : ℕ) → i ≤ j → j < i + left → passes m j lo hi cid ≡ true)
    → merge_loop left i m lo hi cid ≡ some (m, lo, hi)
unfolding merge_loop
merge_loop-passes zero i m lo hi cid pass = refl
merge_loop-passes (suc left) i m lo hi cid pass = ground (
  arith,
  pass i (omega arith) (omega arith),
  merge_loop-passes left (i + 1) m lo hi cid (λ j ge lt. pass j (omega arith) (omega arith)),
)

-- The ranges and the bounds after the entry i, the last one, is merged.
abbrev merged : Ranges → ℕ → ℕ → ℕ → Ranges × ℕ × ℕ
merged m i lo hi =
    (record m { nr = m.nr - 1; rlo = shift_low m.rlo i 0 }, min lo (m.rlo i), max hi (m.rhi i))

merge_loop-step :
    (left i : ℕ) (m : Ranges) (lo hi cid : ℕ)
    → passes m i lo hi cid ≡ true
    → merge_loop (suc left) i m lo hi cid ≡ merge_loop left (i + 1) m lo hi cid
unfolding merge_loop
merge_loop-step left i m lo hi cid pass = ground (arith, pass)

merge_loop-merges :
    (left i : ℕ) (m : Ranges) (lo hi cid : ℕ)
    → (i + 1 ≡ m.nr) × (m.nr ≤ 32)
    → passes m i lo hi cid ≡ false
    → merge_loop (suc zero) i m lo hi cid ≡ some (merged m i lo hi)
unfolding merge_loop
merge_loop-merges left i m lo hi cid (total, room) meets =
    let none_left : (m.nr - 1 - i) * 4 ≡ 0 = omega arith in
    ground (arith, meets)
    ∙ ap
        (λ n. some (
          record m { nr = m.nr - 1; rlo = shift_low m.rlo i n },
          min lo (m.rlo i),
          max hi (m.rhi i),
        ))
        none_left

merge_loop-last :
    (left i : ℕ) (m : Ranges) (lo hi cid : ℕ)
    → i + left + 1 ≡ m.nr
    → m.nr ≤ 32
    → ((j : ℕ) → i ≤ j → j < i + left → passes m j lo hi cid ≡ true)
    → passes m (i + left) lo hi cid ≡ false
    → merge_loop (suc left) i m lo hi cid ≡ some (merged m (i + left) lo hi)
unfolding merge_loop
merge_loop-last zero i m lo hi cid total room pass meets =
    merge_loop-merges zero i m lo hi cid (omega arith, room)
      (subst (λ k. passes m k lo hi cid ≡ false) (omega arith) meets)
    ∙ ap (λ k. some (merged m k lo hi)) (omega arith)
merge_loop-last (suc left) i m lo hi cid total room pass meets =
    merge_loop-step (suc left) i m lo hi cid (pass i (omega arith) (omega arith))
    ∙ merge_loop-last left (i + 1) m lo hi cid (omega arith) room
        (λ j ge lt. pass j (omega arith) (omega arith))
        (subst (λ k. passes m k lo hi cid ≡ false) (omega arith) meets)
    ∙ ap (λ k. some (merged m k lo hi)) (omega arith)

-- m' has the first k entries of m, and one more.
abbrev pub Extends : Ranges → Ranges → ℕ → ℕ → ℕ → ℕ → Type 0
Extends m m' k lo hi cid =
    (m'.nr ≡ suc k)
    × ((j : ℕ)
        → j < k
        → (m'.rlo j ≡ m.rlo j)
          × (m'.rhi j ≡ m.rhi j)
          × (m'.rcid j ≡ m.rcid j)
          × (m'.rneg j ≡ m.rneg j)
          × (m'.cname j ≡ m.cname j))
    × (m'.rlo k ≡ lo)
    × (m'.rhi k ≡ hi)
    × (m'.rcid k ≡ cid)
    × (m'.rneg k ≡ false)
    × (m'.cname k ≡ none)

append_range-Extends :
    (m m1 : Ranges) (lo hi cid : ℕ)
    → ((j : ℕ)
        → j < m1.nr
        → (m1.rlo j ≡ m.rlo j)
          × (m1.rhi j ≡ m.rhi j)
          × (m1.rcid j ≡ m.rcid j)
          × (m1.rneg j ≡ m.rneg j)
          × (m1.cname j ≡ m.cname j))
    → Extends m (append_range m1 lo hi cid false) m1.nr lo hi cid
append_range-Extends m m1 lo hi cid same = (
  omega arith,
  λ j lt.
      let (a, b, c, d, e) = same j lt in
      (
        ground (arith, a),
        ground (arith, b),
        ground (arith, c),
        ground (arith, d),
        ground (arith, e),
      ),
  ground arith,
  ground arith,
  ground arith,
  ground arith,
  ground arith,
)

-- The entries in front of the last one are not merged.
pub add_range-passes :
    (m : Ranges) (lo hi cid : ℕ)
    → m.nr < 32
    → lo ≤ hi
    → ((j : ℕ) → j < m.nr → passes m j lo hi cid ≡ true)
    → (m' : Ranges) × (add_range m lo hi cid false ≡ some m') × Extends m m' m.nr lo hi cid
unfolding add_range passes
add_range-passes m lo hi cid room le pass =
    let m0 : Ranges = record m { has_unicode = m.has_unicode || leb 128 lo } in
    let kept = merge_loop-passes m.nr 0 m0 lo hi cid (λ j ge lt. pass j (omega arith)) in
    (
      append_range m0 lo hi cid false,
      ground (arith, kept),
      append_range-Extends m m0 lo hi cid (λ j lt. (refl, refl, refl, refl, refl)),
    )

pub add_range-merges :
    (m : Ranges) (k lo hi cid : ℕ)
    → m.nr ≡ suc k
    → m.nr < 32
    → lo ≤ hi
    → ((j : ℕ) → j < k → passes m j lo hi cid ≡ true)
    → passes m k lo hi cid ≡ false
    → (m' : Ranges) × (add_range m lo hi cid false ≡ some m')
      × Extends m m' k (min lo (m.rlo k)) (max hi (m.rhi k)) cid
unfolding add_range passes shift_low
add_range-merges m k lo hi cid total room le pass meets =
    let m0 : Ranges = record m { has_unicode = m.has_unicode || leb 128 lo } in
    let kept =
      merge_loop-last k 0 m0 lo hi cid (omega arith) (omega arith)
        (λ j ge lt. pass j (omega arith)) in
    let (m1, lo', hi') = merged m0 k lo hi in
    (
      append_range m1 lo' hi' cid false,
      ground (arith, kept),
      subst (λ n. Extends m (append_range m1 lo' hi' cid false) n lo' hi' cid) (omega arith)
          (append_range-Extends m m1 lo' hi' cid (λ j lt. (ground arith, refl, refl, refl, refl))),
    )
