-- ===== src/Sort/Total.antt =====
-- qsort ends, and only reorders its elements.
use Prim.Native.Nat.{Ordering}
use Prim.Native.Nat.Ordering.{eq}
use jaclibc.Base.{
  ℕ, zero, suc, ◌+◌, ◌-◌, ◌/◌, ◌≤◌, ◌<◌, ◌≡◌, Bool, true, false, not, ◌||◌, ltb, leb, if◌then◌else◌,
  Option, some, ◌>>=◌, arith, refl, sym, ap, subst, if_cases,
}
use jaclibc.Sort.{
  Array, is_lt, swap, median, bubble, scan_up, scan_down, partition, sort_again, qsort,
}
use jaclibc.Sort.Rearranged.{
  IsRearranged, IsRearranged-none, IsRearranged-trans, IsRearranged-wider, swap-IsRearranged,
  median-IsRearranged, bubble-IsRearranged,
}

module _ {ℓ} {A : Type ℓ} where
  -- The run returned an array with the same elements.
  abbrev pub Sorts : ℕ → ℕ → Array A → Option (Array A) → Type ℓ
  Sorts base n arr o = (arr' : Array A) × (o ≡ some arr') × IsRearranged base n arr arr'

  Sorts-bind :
      (base n : ℕ) (arr : Array A) (o : Option (Array A)) (g : Array A → Option (Array A))
      → Sorts base n arr o
      → ((x : Array A) → IsRearranged base n arr x → Sorts base n arr (g x))
      → Sorts base n arr (o >>= g)
  Sorts-bind base n arr o g (x, e, r) h =
      subst (λ (t : Option (Array A)). Sorts base n arr (t >>= g)) (sym e) (h x r)

  Sorts-half :
      (base n : ℕ) (b : Bool) (arr x : Array A) (o : Option (Array A)) (base' n' : ℕ)
      → IsRearranged base n arr x
      → (b ≡ true → (base ≤ base') × (base' + n' ≤ base + n) × Sorts base' n' x o)
      → Sorts base n arr (if b then o else some x)
  Sorts-half base n true arr x o base' n' r h =
      let (lo, hi, (y, e, s)) = h refl in
      (y, e, IsRearranged-trans r (IsRearranged-wider base n s lo hi))
  Sorts-half base n false arr x o base' n' r h = (x, refl, r)

module _ {ℓ} {A : Type ℓ} (compar : A → A → Ordering) where
  scan_up-bounds :
      (left : ℕ) (arr : Array A) (base : ℕ) (pivot : A) (i : ℕ)
      → (i ≤ scan_up compar left arr base pivot i)
        × (scan_up compar left arr base pivot i ≤ i + left)
  unfolding scan_up
  scan_up-bounds zero arr base pivot i = omega arith
  scan_up-bounds (suc left) arr base pivot i =
      ground (arith, scan_up-bounds left arr base pivot (i + 1))

  -- The scan stops at an element that is not less than the pivot.
  scan_up-stop :
      (left : ℕ) (arr : Array A) (base : ℕ) (pivot : A) (i mid : ℕ)
      → i ≤ mid
      → is_lt (compar (arr (base + mid)) pivot) ≡ false
      → scan_up compar left arr base pivot i ≤ mid
  unfolding scan_up
  scan_up-stop zero arr base pivot i mid le stop = le
  scan_up-stop (suc left) arr base pivot i mid le stop =
      if_cases (λ (k : ℕ). k ≤ mid) (is_lt (compar (arr (base + i)) pivot)) _ _
        (λ less. scan_up-stop left arr base pivot (i + 1) mid (apart less) stop) (λ more. le)
    where
      apart : is_lt (compar (arr (base + i)) pivot) ≡ true → i + 1 ≤ mid
      apart less = ground arith

  scan_down-bound :
      (j : ℕ) (arr : Array A) (base : ℕ) (pivot : A) → scan_down compar j arr base pivot ≤ j
  unfolding scan_down
  scan_down-bound zero arr base pivot = omega arith
  scan_down-bound (suc j) arr base pivot = ground (arith, scan_down-bound j arr base pivot)

  -- The run of the loop ended with the elements reordered and j at most the bound.
  abbrev Splits : ℕ → ℕ → Array A → ℕ → Option (Array A × ℕ × ℕ) → Type ℓ
  Splits base n arr bound o =
      (arr' : Array A) × (i' : ℕ) × (j' : ℕ) × (o ≡ some (arr', i', j'))
      × IsRearranged base n arr arr'
      × (j' ≤ bound)

  partition_lem :
      (f : ℕ) (arr : Array A) (base n : ℕ) (pivot : A) (i j : ℕ)
      → n < i + f
      → i ≤ n
      → j < n
      → Splits base n arr j (partition compar f arr base n pivot i j)
  unfolding partition
  partition_lem zero arr base n pivot i j fuel le lt = absurd (omega arith)
  partition_lem (suc f) arr base n pivot i j fuel le lt =
      let up = scan_up compar (n - i) arr base pivot i in
      let down = scan_down compar j arr base pivot in
      let (up_lo, up_hi) = scan_up-bounds (n - i) arr base pivot i in
      let down_hi = scan_down-bound j arr base pivot in
      if_cases (Splits base n arr j) (leb down up) _ _
        (λ met. (arr, up, down, refl, IsRearranged-none base n arr, down_hi))
        (λ e.
          let less : up < down = ground arith in
          let (arr', i', j', run, r, hi) =
            partition_lem f (swap arr (base + up) (base + down)) base n pivot (up + 1) (down - 1)
              (omega arith) (omega arith) (omega arith) in
          (
            arr',
            i',
            j',
            run,
            IsRearranged-trans
                (swap-IsRearranged base n arr (base + up) (base + down) (omega arith) (omega arith)
                  (omega arith) (omega arith))
                r,
            omega arith,
          ))

  -- From the ends of the part, with a pivot that stands below its last index, j comes down.
  partition_first :
      (f : ℕ) (arr : Array A) (base n mid : ℕ) (pivot : A)
      → n < f
      → mid + 2 ≤ n
      → is_lt (compar (arr (base + mid)) pivot) ≡ false
      → Splits base n arr (n - 2) (partition compar f arr base n pivot 0 (n - 1))
  unfolding partition
  partition_first zero arr base n mid pivot fuel lt stop = absurd (omega arith)
  partition_first (suc f) arr base n mid pivot fuel lt stop =
      let up = scan_up compar (n - 0) arr base pivot 0 in
      let down = scan_down compar (n - 1) arr base pivot in
      let up_hi = scan_up-stop (n - 0) arr base pivot 0 mid (omega arith) stop in
      let down_hi = scan_down-bound (n - 1) arr base pivot in
      if_cases (Splits base n arr (n - 2)) (leb down up) _ _
        (λ met.
          let le : down ≤ up = ground arith in
          (arr, up, down, refl, IsRearranged-none base n arr, omega arith))
        (λ e.
          let less : up < down = ground arith in
          let (arr', i', j', run, r, hi) =
            partition_lem f (swap arr (base + up) (base + down)) base n pivot (up + 1) (down - 1)
              (omega arith) (omega arith) (omega arith) in
          (
            arr',
            i',
            j',
            run,
            IsRearranged-trans
                (swap-IsRearranged base n arr (base + up) (base + down) (omega arith) (omega arith)
                  (omega arith) (omega arith))
                r,
            omega arith,
          ))

module _ {ℓ} {A : Type ℓ} (compar : A → A → Ordering) (self : (a : A) → compar a a ≡ eq) where
  -- The two calls for the parts on either side of the last i and j.
  abbrev halves : (ℕ → ℕ → Bool) → ℕ → ℕ → ℕ → Array A × ℕ × ℕ → Option (Array A)
  halves allocated f base n r =
      (if ltb 0 r.2 then sort_again compar allocated f r.0 base (r.2 + 1) else some r.0) >>= λ y.
      if ltb r.1 (n - 1)
      then sort_again compar allocated f y (base + (r.1 + 1)) (n - r.1 - 1)
      else some y

  halves_lem :
      (allocated : ℕ → ℕ → Bool) (f : ℕ) (arr : Array A) (base n : ℕ) (x : Array A) (i j : ℕ)
      → IsRearranged base n arr x
      → ((y : Array A) (base' n' : ℕ)
          → n' ≤ f
          → Sorts base' n' y (sort_again compar allocated f y base' n'))
      → n ≤ suc f
      → 2 ≤ n
      → j ≤ n - 2
      → Sorts base n arr (halves allocated f base n (x, i, j))
  halves_lem allocated f arr base n x i j r part le two hi =
      Sorts-bind base n arr _ _
        (Sorts-half base n (ltb 0 j) arr x _ base (j + 1) r
          (λ some_left. (omega arith, omega arith, part x base (j + 1) (omega arith))))
        (λ y s. Sorts-half base n (ltb i (n - 1)) arr y _ (base + (i + 1)) (n - i - 1) s (λ e.
          let lt : i < n - 1 = ground arith in
          (omega arith, omega arith, part y (base + (i + 1)) (n - i - 1) (omega arith))))

  sort_again_lem :
      (allocated : ℕ → ℕ → Bool) (f : ℕ) (arr : Array A) (base n : ℕ)
      → n ≤ f
      → 0 < f
      → Sorts base n arr (sort_again compar allocated f arr base n)
  unfolding sort_again
  sort_again_lem allocated zero arr base n le lt = absurd (omega arith)
  sort_again_lem allocated (suc f) arr base n le lt =
      if_cases (Sorts base n arr) (ltb n 2) _ _ (λ few. (arr, refl, IsRearranged-none base n arr))
        (λ e.
          let two : 2 ≤ n = ground arith in
          let arr' = median compar arr base n in
          let start = median-IsRearranged compar arr base n two in
          if_cases (Sorts base n arr) (allocated base n) _ _
            (λ room.
              let (x, i, j, run, r, hi) =
                partition_first compar (suc n) arr' base n ((n - 1) / 2) (arr' (base + (n - 1) / 2))
                  (omega arith) (omega arith) (ap is_lt (self _)) in
              subst
                (λ (t : Option (Array A × ℕ × ℕ)).
                  Sorts base n arr (t >>= halves allocated f base n))
                (sym run)
                (halves_lem allocated f arr base n x i j (IsRearranged-trans start r)
                  (λ y base' n' le'. sort_again_lem allocated f y base' n' le' (omega arith)) le two
                  hi))
            (λ full. (
              bubble compar (n - 1) arr' base,
              refl,
              IsRearranged-trans start
                  (bubble-IsRearranged compar (n - 1) arr' base n (omega arith)),
            )))

  -- qsort ends, whether or not the allocations succeed, and leaves the elements of the array in
  -- some order; the comparison finds every element equal to itself.
  pub qsort_total :
      (usable : Bool) (allocated : ℕ → ℕ → Bool) (arr : Array A) (n : ℕ)
      → (arr' : Array A) × (qsort compar usable allocated arr n ≡ some arr')
        × IsRearranged 0 n arr arr'
  unfolding qsort
  qsort_total usable allocated arr n =
      if_cases (Sorts 0 n arr) (not usable || ltb n 2) _ _
        (λ few. (arr, refl, IsRearranged-none 0 n arr))
        (λ e. sort_again_lem allocated n arr 0 n (omega arith) (ground (arith, e)))
