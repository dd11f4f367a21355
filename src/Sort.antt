-- ===== src/Sort.antt =====
-- include/stdlib.h: qsort, qsort_r and bsearch. An array gives the element at each index; elements
-- of `size` bytes are read, compared and swapped as a whole. An element's index counts from the array's
-- start, and a call for a part of it gets the index where the part begins in place of a pointer.
pub mod Rearranged
pub mod Total
pub mod Search
pub mod Bubble
use Prim.Native.Nat.{Ordering}
use Prim.Native.Nat.Ordering.{lt, eq, gt}
use jaclibc.Base.{
  ℕ, zero, suc, ◌+◌, ◌-◌, ◌/◌, Bool, true, false, not, ◌==◌, ◌||◌, ltb, leb, if◌then◌else◌, Option,
  none, some, ◌>>=◌,
}

abbrev pub Array {ℓ} : Type ℓ → Type ℓ
Array A = ℕ → A

abbrev pub is_lt : Ordering → Bool
is_lt lt = true
is_lt _ = false

abbrev pub is_gt : Ordering → Bool
is_gt gt = true
is_gt _ = false

module _ {ℓ} {A : Type ℓ} where
  -- __jacl_sort_swap
  unfoldable pub swap : Array A → ℕ → ℕ → Array A
  swap arr a b q = if q == a then arr b else if q == b then arr a else arr q

module _ {ℓ} {A : Type ℓ} (compar : A → A → Ordering) where
  -- if (compar(arr + a, arr + b) > 0) swap
  unfoldable pub exchange : Array A → ℕ → ℕ → Array A
  unfolding swap
  exchange arr a b = if is_gt (compar (arr a) (arr b)) then swap arr a b else arr

  -- The three tests that put the median of three at mid.
  unfoldable pub median : Array A → ℕ → ℕ → Array A
  unfolding exchange
  median arr base nmemb =
      let low = base in
      let high = base + (nmemb - 1) in
      let mid = base + (nmemb - 1) / 2 in
      exchange (exchange (exchange arr low mid) mid high) low mid

  -- for (j = 0; j < left; j++), with j counted from the argument j.
  unfoldable pub bubble_pass : ℕ → ℕ → Array A → ℕ → Array A
  unfolding exchange
  bubble_pass zero j arr base = arr
  bubble_pass (suc left) j arr base =
      bubble_pass left (j + 1) (exchange arr (base + j) (base + (j + 1))) base

  -- for (i = 0; i < nmemb - 1; i++): `left` is nmemb - i - 1.
  unfoldable pub bubble : ℕ → Array A → ℕ → Array A
  unfolding bubble_pass
  bubble zero arr base = arr
  bubble (suc left) arr base = bubble left (bubble_pass (suc left) 0 arr base) base

  -- while (i < nmemb && compar(arr + i, pivot) < 0) i++; `left` is nmemb - i.
  unfoldable pub scan_up : ℕ → Array A → ℕ → A → ℕ → ℕ
  scan_up zero arr base pivot i = i
  scan_up (suc left) arr base pivot i =
      if is_lt (compar (arr (base + i)) pivot) then scan_up left arr base pivot (i + 1) else i

  -- while (j > 0 && compar(arr + j, pivot) > 0) j--;
  unfoldable pub scan_down : ℕ → Array A → ℕ → A → ℕ
  scan_down zero arr base pivot = zero
  scan_down (suc j) arr base pivot =
      if is_gt (compar (arr (base + suc j)) pivot) then scan_down j arr base pivot else suc j

  -- while (1) { ... }: the array and the last i and j.
  unfoldable pub partition : ℕ → Array A → ℕ → ℕ → A → ℕ → ℕ → Option (Array A × ℕ × ℕ)
  unfolding scan_up scan_down swap
  partition zero arr base nmemb pivot i j = none
  partition (suc f) arr base nmemb pivot i j =
      let up = scan_up (nmemb - i) arr base pivot i in
      let down = scan_down j arr base pivot in
      let rest =
        partition f (swap arr (base + up) (base + down)) base nmemb pivot (up + 1) (down - 1) in
      if leb down up then some (arr, up, down) else rest

  -- `allocated base nmemb` says whether malloc gives room for the pivot in the call for that part.
  unfoldable pub sort_again : (ℕ → ℕ → Bool) → ℕ → Array A → ℕ → ℕ → Option (Array A)
  unfolding median bubble partition
  sort_again allocated zero arr base nmemb = none
  sort_again allocated (suc f) arr base nmemb =
      let arr' = median arr base nmemb in
      let halves =
        partition (suc nmemb) arr' base nmemb (arr' (base + (nmemb - 1) / 2)) 0 (nmemb - 1) >>= λ r.
        let left = sort_again allocated f r.0 base (r.2 + 1) in
        (if ltb 0 r.2 then left else some r.0) >>= λ arr''.
        let right = sort_again allocated f arr'' (base + (r.1 + 1)) (nmemb - r.1 - 1) in
        if ltb r.1 (nmemb - 1) then right else some arr'' in
      if ltb nmemb 2
      then some arr
      else if allocated base nmemb
      then halves
      else some (bubble (nmemb - 1) arr' base)

  -- `usable` says that base and compar are not NULL and that size is not 0. qsort_r is the same with
  -- an argument that it passes on to compar.
  unfoldable pub qsort : Bool → (ℕ → ℕ → Bool) → Array A → ℕ → Option (Array A)
  unfolding sort_again
  qsort usable allocated arr nmemb =
      if not usable || ltb nmemb 2 then some arr else sort_again allocated nmemb arr 0 nmemb

module _ {ℓ κ} {A : Type ℓ} {K : Type κ} (compar : K → A → Ordering) where
  -- while (low < high) { ... }: the index of the element found. The outer `none` means that the fuel
  -- ran out.
  unfoldable pub bsearch_loop : ℕ → Array A → K → ℕ → ℕ → Option (Option ℕ)
  bsearch_loop zero arr key low high = none
  bsearch_loop (suc f) arr key low high =
      let mid = low + (high - low) / 2 in
      let below = bsearch_loop f arr key low mid in
      let above = bsearch_loop f arr key (mid + 1) high in
      if ltb low high
      then (elim (compar key (arr mid)) [ eq ↦ some (some mid) | lt ↦ below | gt ↦ above ])
      else some none

  -- `usable` says that no pointer is NULL and that size is not 0.
  unfoldable pub bsearch : Bool → Array A → K → ℕ → Option (Option ℕ)
  unfolding bsearch_loop
  bsearch usable arr key nmemb =
      if not usable || nmemb == 0 then some none else bsearch_loop (suc nmemb) arr key 0 nmemb
