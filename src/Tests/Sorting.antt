-- ===== src/Tests/Sorting.antt =====
-- Runs of qsort and bsearch.
use Prim.Native.Nat.{compare}
use Prim.Native.Nat.Ordering.{gt}
use jaclibc.Base.{
  ℕ, ◌≡◌, ◌≢◌, ◌<◌, true, false, Option, some, none, List, [], ◌∷◌, get_or, refl, arith, ◌+◌,
}
use jaclibc.Tests.{compare-IsComparison}
use jaclibc.Sort.{
  Array, qsort, bsearch, sort_again, median, partition, exchange, swap, scan_up, scan_down,
}
use jaclibc.Sort.Rearranged.{IsRearranged}
use jaclibc.Sort.Total.{qsort_total}
use jaclibc.Sort.Bubble.{qsort_no_memory}
use jaclibc.Sort.Search.{bsearch_lem, IsSplit, Finds}

abbrev array_of : List ℕ → Array ℕ
array_of xs i = get_or xs i 0

abbrev five : Array ℕ
five = array_of (0 ∷ 3 ∷ 1 ∷ 2 ∷ 4 ∷ [])

-- The first five elements of the result.
abbrev first_five : Option (Array ℕ) → List ℕ
first_five none = []
first_five (some x) = x 0 ∷ x 1 ∷ x 2 ∷ x 3 ∷ x 4 ∷ []

-- The element at the last i is in neither of the two parts, so the result is not in order.
five_unsorted : first_five (qsort compare true (λ base n. true) five 5) ≡ 0 ∷ 1 ∷ 3 ∷ 2 ∷ 4 ∷ []
unfolding qsort sort_again median partition exchange swap scan_up scan_down
five_unsorted = refl

qsort_total_example :
    (arr' : Array ℕ) × (qsort compare true (λ base n. true) five 5 ≡ some arr')
    × IsRearranged 0 5 five arr'
qsort_total_example = qsort_total compare compare-IsComparison.self true (λ base n. true) five 5

qsort_no_memory_example :
    (arr' : Array ℕ) × (qsort compare true (λ base n. false) five 5 ≡ some arr')
    × IsRearranged 0 5 five arr'
    × ((i j : ℕ) → i < j → j < 5 → compare (arr' i) (arr' j) ≢ gt)
qsort_no_memory_example = qsort_no_memory compare compare-IsComparison (λ base n. false) five 5 refl

abbrev doubles : Array ℕ
doubles i = i + i

doubles-IsSplit : (key n : ℕ) → IsSplit compare key doubles n
doubles-IsSplit key n i j lt' hi = ground arith

bsearch_run : Finds compare 6 doubles 5 (bsearch compare true doubles 6 5)
bsearch_run = bsearch_lem compare 6 doubles 5 (doubles-IsSplit 6 5)
