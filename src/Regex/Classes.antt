-- ===== src/Regex/Classes.antt =====
-- A class holds the union of the ranges that were added to it, where none but the last entry is merged.
use jaclibc.Base.{
  ℕ, suc, ◌+◌, ◌-◌, ◌^◌, ◌≤◌, ◌<◌, ◌≡◌, ◌≢◌, ◌⊎◌, inl, inr, subst, arith, min, max, Bool, true,
  false, ◌&&◌, ◌||◌, leb, none, some, List, Bool-cases, dec_lt,
}
use jaclibc.Regex.{Ranges, passes, add_range, entry_has, member_loop, in_class}
use jaclibc.Regex.Merge.{Extends, add_range-passes, add_range-merges}
use jaclibc.Regex.Loop.{
  member_loop-positive, in_class-holds, in_class-suc, in_class-Extends, step-new,
}

module _ (is_named : List ℕ → ℕ → Bool) (towlower : ℕ → ℕ) where
  -- Two ranges that meet or touch, together.
  interval :
      (m : Ranges) (k lo hi cid cp : ℕ)
      → lo ≤ hi
      → hi < 2 ^ 32
      → m.rlo k ≤ m.rhi k
      → m.rhi k < 2 ^ 32
      → passes m k lo hi cid ≡ false
      → (m.rcid k ≡ cid)
        × ((leb (min lo (m.rlo k)) cp && leb cp (max hi (m.rhi k)))
            ≡ ((leb (m.rlo k) cp && leb cp (m.rhi k)) || (leb lo cp && leb cp hi)))
  unfolding passes
  interval m k lo hi cid cp le lt le' lt' meets = (ground arith, ground arith)

  -- The last entry, if there is one, passes or not.
  last_entry :
      (m : Ranges) (lo hi cid : ℕ)
      → ((j : ℕ) → j + 1 ≡ m.nr → passes m j lo hi cid ≡ true)
        ⊎ ((k : ℕ) × (m.nr ≡ suc k) × (passes m k lo hi cid ≡ false))
  last_entry m lo hi cid = elim (Bool-cases (passes m (m.nr - 1) lo hi cid)) [
    | inl pass ↦ inl (λ j e. subst (λ i. passes m i lo hi cid ≡ true) (omega arith) pass)
    | inr meets ↦ elim (dec_lt 0 m.nr) [
      | yes some_entry ↦ inr (m.nr - 1, omega arith, meets)
      | no no_entry ↦ inl (λ j e. absurd (omega arith))
    ]
  ]

  -- The class cid of m' is that of m with the range, and the other classes are the same.
  abbrev pub Joins : Ranges → Ranges → ℕ → ℕ → ℕ → Type 0
  Joins m m' lo hi cid =
      ((cp : ℕ)
        → in_class is_named towlower m' cp cid false
          ≡ (in_class is_named towlower m cp cid false || (leb lo cp && leb cp hi)))
      × ((cp cid' : ℕ)
          → cid ≢ cid'
          → in_class is_named towlower m' cp cid' false
            ≡ in_class is_named towlower m cp cid' false)

  passes-Joins :
      (m m' : Ranges) (lo hi cid : ℕ)
      → ((j : ℕ) → j < m.nr → m.rcid j ≡ cid → m.rneg j ≡ false)
      → Extends m m' m.nr lo hi cid
      → Joins m m' lo hi cid
  passes-Joins m m' lo hi cid positive ext = (
    λ cp.
        let (f, r, n) = member_loop is_named towlower m.nr 0 m cp cid false false false in
        ground (
          arith,
          in_class-Extends is_named towlower m m' m.nr lo hi cid cp cid ext,
          step-new is_named towlower m m' m.nr lo hi cid cp cid f r n ext,
          in_class-holds is_named towlower m cp cid,
          member_loop-positive is_named towlower m.nr 0 m cp cid false false
              (λ j lt. positive j (omega arith)) (λ e. e),
        ),
    λ cp cid' ne.
        let (f, r, n) = member_loop is_named towlower m.nr 0 m cp cid' false false false in
        ground (
          arith,
          in_class-Extends is_named towlower m m' m.nr lo hi cid cp cid' ext,
          step-new is_named towlower m m' m.nr lo hi cid cp cid' f r n ext,
          in_class-holds is_named towlower m cp cid',
        ),
  )

  merges-Joins :
      (m m' : Ranges) (k lo hi cid : ℕ)
      → m.nr ≡ suc k
      → lo ≤ hi
      → hi < 2 ^ 32
      → m.rlo k ≤ m.rhi k
      → m.rhi k < 2 ^ 32
      → m.cname k ≡ none
      → m.rneg k ≡ false
      → passes m k lo hi cid ≡ false
      → Extends m m' k (min lo (m.rlo k)) (max hi (m.rhi k)) cid
      → Joins m m' lo hi cid
  unfolding entry_has
  merges-Joins m m' k lo hi cid total le lt le' lt' unnamed positive meets ext = (
    λ cp.
        let (f, r, n) = member_loop is_named towlower k 0 m cp cid false false false in
        ground (
          arith,
          in_class-Extends is_named towlower m m' k (min lo (m.rlo k)) (max hi (m.rhi k)) cid cp cid
              ext,
          step-new is_named towlower m m' k (min lo (m.rlo k)) (max hi (m.rhi k)) cid cp cid f r n
              ext,
          in_class-suc is_named towlower m k cp cid total,
          interval m k lo hi cid cp le lt le' lt' meets,
          unnamed,
          positive,
        ),
    λ cp cid' ne.
        let (f, r, n) = member_loop is_named towlower k 0 m cp cid' false false false in
        ground (
          arith,
          in_class-Extends is_named towlower m m' k (min lo (m.rlo k)) (max hi (m.rhi k)) cid cp
              cid' ext,
          step-new is_named towlower m m' k (min lo (m.rlo k)) (max hi (m.rhi k)) cid cp cid' f r n
              ext,
          in_class-suc is_named towlower m k cp cid' total,
          interval m k lo hi cid cp le lt le' lt' meets,
        ),
  )

  -- A range is added to a class without a negation: where it meets or touches none of the entries in front
  -- of the last one, and the last one has no name where it does meet or touch that, the class holds
  -- afterwards what it held and the range, and no other class changes. There is room for an entry,
  -- and the ranges are ordered and have 32 bits.
  pub add_range_lem :
      (m : Ranges) (lo hi cid : ℕ)
      → m.nr < 32
      → lo ≤ hi
      → hi < 2 ^ 32
      → ((j : ℕ) → j < m.nr → (m.rlo j ≤ m.rhi j) × (m.rhi j < 2 ^ 32))
      → ((j : ℕ) → j < m.nr → m.rcid j ≡ cid → m.rneg j ≡ false)
      → ((j : ℕ) → j + 1 < m.nr → passes m j lo hi cid ≡ true)
      → ((j : ℕ) → j + 1 ≡ m.nr → passes m j lo hi cid ≡ false → m.cname j ≡ none)
      → (m' : Ranges) × (add_range m lo hi cid false ≡ some m') × Joins m m' lo hi cid
  add_range_lem m lo hi cid room le lt ordered positive pass unnamed =
      elim (last_entry m lo hi cid) [
        | inl all ↦
            let (m', e, ext) = add_range-passes m lo hi cid room le (λ j j_lt.
              elim (dec_lt (j + 1) m.nr) [
                | yes before ↦ pass j before
                | no last ↦ all j (omega arith)
              ]) in
            (m', e, passes-Joins m m' lo hi cid positive ext)
        | inr (k, total, meets) ↦
            let (m', e, ext) =
              add_range-merges m k lo hi cid total room le (λ j j_lt. pass j (omega arith)) meets in
            let (le', lt') = ordered k (omega arith) in
            let (same, _) = interval m k lo hi cid 0 le lt le' lt' meets in
            (
              m',
              e,
              merges-Joins m m' k lo hi cid total le lt le' lt' (unnamed k (omega arith) meets)
                  (positive k (omega arith) same) meets ext,
            )
      ]
