-- ===== src/Tests/Searching.antt =====
-- Runs of the trees and the hash table of include/search.h.
use Prim.Native.Nat.{compare}
use Prim.Native.Nat.Ordering.{eq}
use jaclibc.Base.{
  ℕ, ◌+◌, ◌<◌, ◌==◌, false, ◌≡◌, ◌≢◌, ◌⊎◌, refl, arith, true, some, none, List, [], ◌∷◌, ap, get_or,
  replicate,
}
use jaclibc.Tree.{Tree, leaf, node, descend, tdelete, twalk, found, missing, invalid, endorder}
use jaclibc.Tree.Order.{IsOrdered}
use jaclibc.Tests.{compare-IsComparison}
use jaclibc.Tree.Gone.{tdelete_lem}
use jaclibc.Tree.Walk.{twalk_lem, visited}
use jaclibc.Linear.{lsearch}
use jaclibc.Linear.Search.{lsearch_lem}
use jaclibc.Hash.{HashTable, Slot, hcreate, hsearch, widen, probe, find, at}
use jaclibc.Hash.Laws.{IsTable, hcreate-IsTable}
use jaclibc.Hash.Stored.{Entered, NoRoom, hsearch-enter, hsearch-enter_ne}

abbrev three_keys : Tree ℕ
three_keys = node (node leaf 3 leaf) 5 (node leaf 8 leaf)

three_keys-IsOrdered : IsOrdered compare three_keys
three_keys-IsOrdered = ((refl, tt, tt), (refl, tt, tt), (tt, tt, tt, tt), (tt, tt, tt, tt))

tdelete_lem_example :
    ((tdelete compare three_keys 5 ≡ (three_keys, invalid)) × (three_keys ≡ leaf))
    ⊎ ((tdelete compare three_keys 5 ≡ (three_keys, missing))
        × (three_keys ≢ leaf)
        × (descend compare three_keys 5 ≡ none))
    ⊎ ((t' : Tree ℕ) × (((t' ≢ leaf) × (tdelete compare three_keys 5 ≡ (t', found t')))
          ⊎ ((t' ≡ leaf) × (tdelete compare three_keys 5 ≡ (t', missing))))
        × (descend compare three_keys 5 ≢ none)
        × IsOrdered compare t'
        × (descend compare t' 5 ≡ none)
        × ((p : ℕ) → compare p 5 ≢ eq → descend compare t' p ≡ descend compare three_keys p))
tdelete_lem_example = tdelete_lem compare compare-IsComparison three_keys 5 three_keys-IsOrdered

twalk_run : visited endorder (twalk three_keys) ≡ 3 ∷ 8 ∷ 5 ∷ []
twalk_run = (twalk_lem three_keys).2

abbrev no_table : HashTable
no_table = record { slots = none; capacity = 0 }

hcreate_run :
    ((hcreate true no_table 3).0 ≡ 1) × IsTable (hcreate true no_table 3).1 (replicate 3 none)
hcreate_run = hcreate-IsTable no_table 3 refl

abbrev small_table : HashTable
small_table = record { slots = some (none ∷ none ∷ []); capacity = 2 }

small_table-IsTable : IsTable small_table (none ∷ none ∷ [])
small_table-IsTable = record { there = refl; measured = refl; not_empty = omega arith }

hsearch-enter_example :
    ((i : ℕ) × (h' : HashTable) × (t' : List Slot) × Entered true small_table
        (none ∷ none ∷ [])
        small_table-IsTable
        (97 ∷ [])
        7
        i
        h'
        t')
    ⊎ ((h' : HashTable) × NoRoom true small_table
          (none ∷ none ∷ [])
          small_table-IsTable
          (97 ∷ [])
          7
          h')
hsearch-enter_example =
    hsearch-enter true small_table (none ∷ none ∷ []) small_table-IsTable (97 ∷ []) 7

-- "b" stands in the second slot.
abbrev b_table : HashTable
b_table = record {
  slots = some (none ∷ some (record { key = 98 ∷ []; item = 4 }) ∷ []);
  capacity = 2;
}

abbrev b_slots : List Slot
b_slots = none ∷ some (record { key = 98 ∷ []; item = 4 }) ∷ []

b_table-IsTable : IsTable b_table b_slots
b_table-IsTable = record { there = refl; measured = refl; not_empty = omega arith }

abbrev ab_slots : List Slot
ab_slots =
    some (record { key = 97 ∷ []; item = 7 }) ∷ some (record { key = 98 ∷ []; item = 4 }) ∷ []

hsearch-enter_ne_example :
    (t' : List Slot) × (some ab_slots ≡ some t')
    × (hsearch true (record { slots = some ab_slots; capacity = 2 }) (some (98 ∷ [])) 0 find
        ≡ some (at 1, record { slots = some ab_slots; capacity = 2 }))
    × (get_or t' 1 none ≡ get_or b_slots 1 none)
unfolding hsearch widen probe
hsearch-enter_ne_example =
    hsearch-enter_ne true b_table b_slots b_table-IsTable (97 ∷ []) 7 (98 ∷ []) 0 0 0 1
      (record { slots = some ab_slots; capacity = 2 }) b_table different refl refl
  where
    different : ◌≢◌ {A = List ℕ} (98 ∷ []) (97 ∷ [])
    different e = absurd (omega (arith, ap (λ (l : List ℕ). get_or l 0 0) e))

lsearch_run :
    (i n' : ℕ) × (base' : ℕ → ℕ) × (lsearch ◌==◌ true 7 (λ j. j + 5) 4 ≡ (some i, n', base'))
    × ((j : ℕ) → j < 4 → base' j ≡ j + 5)
    × ((j : ℕ) → j < i → (7 == j + 5) ≡ false)
    × (((i < 4) × ((7 == i + 5) ≡ true) × (n' ≡ 4)) ⊎ ((i ≡ 4) × (n' ≡ 4 + 1) × (base' 4 ≡ 7)))
lsearch_run = lsearch_lem ◌==◌ 7 (λ (j : ℕ). j + 5) 4
