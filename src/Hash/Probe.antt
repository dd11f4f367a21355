-- ===== src/Hash/Probe.antt =====
-- The probe loop ends within one round of the table, and what it finds is found again.
use jaclibc.Base.{
  ℕ, zero, suc, ◌+◌, ◌-◌, ◌%◌, ◌≤◌, ◌<◌, ◌≡◌, ◌≢◌, ◌⊎◌, inl, inr, true, false, ◌==◌, arith, refl,
  if◌then◌else◌, some, none, List, [], ◌∷◌, get_or, set, ap, ap₂, Bool-cases, Option-cases, ltb,
  ℕ_discrete, ◌∙◌,
}
use native.Mathlib.Nat.{mod_self, mod-eq_of_lt}
use jaclibc.Hash.{Action, find, enter, Entry, Slot, Reply, at, fail, Errno, enospc, same_key, probe}

pub same_key_refl : (k : List ℕ) → same_key k k ≡ true
same_key_refl [] = refl
same_key_refl (c ∷ cs) = ground (arith, same_key_refl cs)

pub same_key_eq : (k l : List ℕ) → same_key k l ≡ true → k ≡ l
same_key_eq [] [] h = refl
same_key_eq [] (d ∷ ds) h = cc
same_key_eq (c ∷ cs) [] h = cc
same_key_eq (c ∷ cs) (d ∷ ds) h = ap₂ ◌∷◌ (ground arith) (same_key_eq cs ds (ground arith))

-- The next slot, with the wrap at the end of the table written out.
next_slot :
    (idx size : ℕ)
    → idx < size
    → (((idx + 1) % size ≡ idx + 1) × (idx + 1 < size))
      ⊎ (((idx + 1) % size ≡ 0) × (idx + 1 ≡ size))
next_slot idx size lt = elim (Bool-cases (idx + 1 == size)) [
  | inl e ↦
      let same : idx + 1 ≡ size = ground arith in
      inr (ap (λ n. n % size) same ∙ mod_self size, same)
  | inr ne ↦ let below : idx + 1 < size = ground arith in inl (mod-eq_of_lt below, below)
]

-- The rounds from a slot until the loop is back at the start.
abbrev distance : ℕ → ℕ → ℕ → ℕ
distance size start idx = if ltb idx start then start - idx else size - idx + start

-- The rounds up to the start are enough fuel.
pub probe_total :
    (size f : ℕ) (t : List Slot) (item : Entry) (action : Action) (start idx : ℕ)
    → idx < size
    → start < size
    → distance size start idx ≤ f
    → probe size f t item action start idx ≢ none
unfolding probe
probe_total size zero t item action start idx lt ls d = absurd (ground arith)
probe_total size (suc f) t item action start idx lt ls d =
    let next : ℕ = (idx + 1) % size in
    let slot = next_slot idx size lt in
    ground (
      arith,
      λ (h : next ≢ start).
          probe_total size f t item action start next (ground arith) ls (ground arith),
    )

-- A slot where the loop may end for a key: empty, or with the key.
abbrev pub IsHome : List Slot → ℕ → List ℕ → Type 0
IsHome t i key =
    (get_or t i none ≡ none)
    ⊎ ((e : Entry) × (get_or t i none ≡ some e) × (same_key e.key key ≡ true))

-- What is stored where the loop ends: the item, under the key that was there if there was one.
abbrev pub stored : Slot → Entry → Slot
stored none item = some item
stored (some e) item = some (record e { item = item.item })

-- Where the loop ends with a slot, it is the key's home and in the table, and only it is written.
pub probe_at :
    (size f : ℕ) (t : List Slot) (item : Entry) (action : Action) (start idx i : ℕ) (t' : List Slot)
    → idx < size
    → probe size f t item action start idx ≡ some (at i, t')
    → (i < size)
      × IsHome t i item.key
      × (t' ≡ (elim action [ find ↦ t | enter ↦ set t i (stored (get_or t i none) item) ]))
unfolding probe
probe_at size zero t item action start idx i t' lt h = cc
probe_at size (suc f) t item action start idx i t' lt h = elim (Option-cases (get_or t idx none)) [
  | inl empty ↦ let e : i ≡ idx = ground arith in (omega arith, inl (rw e empty), ground arith)
  | inr (e, full) ↦ elim (Bool-cases (same_key e.key item.key)) [
    | inl same ↦
        let eq : i ≡ idx = ground arith in (omega arith, inr (e, rw eq full, same), ground arith)
    | inr other ↦
        probe_at size f t item action start ((idx + 1) % size) i t' (omega arith) (ground arith)
  ]
]

-- The loop for a key passes slots with other keys only, so it ends at the same slot in a table
-- where the slot holds the key and the other slots passed are as they were or hold other keys.
pub probe_again :
    (size f : ℕ) (t u : List Slot) (item item' : Entry) (action : Action) (start idx i : ℕ)
    (t' : List Slot)
    → item'.key ≡ item.key
    → probe size f t item action start idx ≡ some (at i, t')
    → ((j : ℕ) (e : Entry)
        → get_or t j none ≡ some e
        → same_key e.key item.key ≡ false
        → (e' : Entry) × (get_or u j none ≡ some e') × (same_key e'.key item.key ≡ false))
    → (e : Entry) → get_or u i none ≡ some e
    → same_key e.key item.key ≡ true
    → probe size f u item' find start idx ≡ some (at i, u)
unfolding probe
probe_again size zero t u item item' action start idx i t' k h passed e there same = cc
probe_again size (suc f) t u item item' action start idx i t' k h passed e there same =
    elim (Option-cases (get_or t idx none)) [
      | inl empty ↦ let eq : i ≡ idx = ground arith in ground arith
      | inr (d, full) ↦ elim (Bool-cases (same_key d.key item.key)) [
        | inl same' ↦ let eq : i ≡ idx = ground arith in ground arith
        | inr other ↦
            let (e', there', other') = passed idx d full other in
            let rest : probe size f u item' find start ((idx + 1) % size) ≡ some (at i, u) =
              probe_again size f t u item item' action start ((idx + 1) % size) i t' k
                (ground arith) passed e there same in
            ground arith
      ]
    ]

-- A run that enters fails for want of space only, and then changes nothing.
pub probe_enter_fail :
    (size f : ℕ) (t : List Slot) (item : Entry) (start idx : ℕ) (r : Errno) (t' : List Slot)
    → probe size f t item enter start idx ≡ some (fail r, t')
    → (r ≡ enospc) × (t' ≡ t)
unfolding probe
probe_enter_fail size zero t item start idx r t' h = cc
probe_enter_fail size (suc f) t item start idx r t' h =
    ground (arith, probe_enter_fail size f t item start ((idx + 1) % size) r t')

-- The slots that a loop at idx has before it until it is back at the start.
abbrev Ahead : ℕ → ℕ → ℕ → Type 0
Ahead start idx j =
    ((idx < start) × (idx ≤ j) × (j < start)) ⊎ ((start ≤ idx) × ((idx ≤ j) ⊎ (j < start)))

-- A slot with a key that is not this one.
abbrev pub HoldsOther : List Slot → ℕ → List ℕ → Type 0
HoldsOther t j key = (e : Entry) × (get_or t j none ≡ some e) × (same_key e.key key ≡ false)

Ahead-next :
    (size start idx j : ℕ)
    → idx < size
    → start < size
    → j < size
    → j ≢ idx
    → (idx + 1) % size ≢ start
    → Ahead start idx j
    → Ahead start ((idx + 1) % size) j
Ahead-next size start idx j lt ls lj ne on ahead = ground (arith, next_slot idx size lt)

-- At the last of them there is no other.
Ahead-last :
    (size start idx j : ℕ)
    → idx < size
    → start < size
    → j < size
    → (idx + 1) % size ≡ start
    → Ahead start idx j
    → j ≡ idx
Ahead-last size start idx j lt ls lj last ahead = ground (arith, next_slot idx size lt)

-- A run that fails to enter has passed slots with other keys only.
pub probe_full :
    (size f : ℕ) (t : List Slot) (item : Entry) (start idx : ℕ) (r : Errno) (t' : List Slot)
    → idx < size
    → start < size
    → probe size f t item enter start idx ≡ some (fail r, t')
    → (j : ℕ) → j < size
    → Ahead start idx j
    → HoldsOther t j item.key
unfolding probe
probe_full size zero t item start idx r t' lt ls h j lj ahead = cc
probe_full size (suc f) t item start idx r t' lt ls h j lj ahead =
    elim (Option-cases (get_or t idx none)) [
      | inl empty ↦ absurd (ground arith)
      | inr (e, full) ↦ elim (Bool-cases (same_key e.key item.key)) [
        | inl same ↦ absurd (ground arith)
        | inr other ↦ elim (ℕ_discrete j idx) [
          | yes here ↦ (e, ap (λ n. get_or t n none) here ∙ full, other)
          | no there ↦ elim (ℕ_discrete ((idx + 1) % size) start) [
            | yes last ↦ absurd (there (Ahead-last size start idx j lt ls lj last ahead))
            | no on ↦
                probe_full size f t item start ((idx + 1) % size) r t'
                  (ground (arith, next_slot idx size lt)) ls (ground arith) j lj
                  (Ahead-next size start idx j lt ls lj there on ahead)
          ]
        ]
      ]
    ]

-- A run that searches changes nothing.
pub probe_find_same :
    (size f : ℕ) (t : List Slot) (item : Entry) (start idx : ℕ) (r : Reply) (t' : List Slot)
    → probe size f t item find start idx ≡ some (r, t')
    → t' ≡ t
unfolding probe
probe_find_same size zero t item start idx r t' h = cc
probe_find_same size (suc f) t item start idx r t' h =
    ground (arith, probe_find_same size f t item start ((idx + 1) % size) r t')

-- A run that searches ends at a slot with the key.
pub probe_find_full :
    (size f : ℕ) (t : List Slot) (item : Entry) (start idx i : ℕ) (t' : List Slot)
    → probe size f t item find start idx ≡ some (at i, t')
    → (e : Entry) × (get_or t i none ≡ some e) × (same_key e.key item.key ≡ true)
unfolding probe
probe_find_full size zero t item start idx i t' h = absurd (ground arith)
probe_find_full size (suc f) t item start idx i t' h = elim (Option-cases (get_or t idx none)) [
  | inl empty ↦ absurd (ground arith)
  | inr (e, full) ↦ elim (Bool-cases (same_key e.key item.key)) [
    | inl same ↦ let eq : i ≡ idx = ground arith in (e, rw eq full, same)
    | inr other ↦ probe_find_full size f t item start ((idx + 1) % size) i t' (ground arith)
  ]
]
