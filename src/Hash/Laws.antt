-- ===== src/Hash/Laws.antt =====
-- What hsearch promises: it ends, it finds what it entered, and it leaves the other keys alone.
use jaclibc.Base.{
  ℕ, zero, suc, ◌%◌, ◌<◌, ◌≡◌, ◌≢◌, inl, inr, Bool, true, arith, refl, ltb, if◌then◌else◌, Option,
  some, none, List, [], ◌∷◌, get_or, set, length, ap, replicate, length-replicate, Option-cases,
}
use jaclibc.Hash.{Action, Entry, Slot, Reply, probe, HashTable, hcreate, hsearch, hash_loop}
use jaclibc.Hash.Probe.{probe_total}

-- The table is there, and its capacity is the number of its slots, of which there is one at least.
pub record IsTable (h : HashTable) (t : List Slot) : Type 0 where
  pub there : h.slots ≡ some t
  pub measured : h.capacity ≡ length t
  pub not_empty : 0 < length t

-- hcreate on no table, with memory, gives a table of the size asked for, or of 64 slots, all empty.
pub hcreate-IsTable :
    (h : HashTable) (nel : ℕ)
    → h.slots ≡ none
    → let size = if ltb 0 nel then nel else 64 in
      ((hcreate true h nel).0 ≡ 1) × IsTable (hcreate true h nel).1 (replicate size none)
unfolding hcreate
hcreate-IsTable h nel e = (
  ground arith,
  record {
    there = ground arith;
    measured = ground (arith, length-replicate {A = Slot} (if ltb 0 nel then nel else 64) none);
    not_empty = ground (arith, length-replicate {A = Slot} (if ltb 0 nel then nel else 64) none);
  },
)

module _ {ℓ} {A : Type ℓ} where
  pub get_or-set_self :
      (xs : List A) (i : ℕ) (v d : A) → i < length xs → get_or (set xs i v) i d ≡ v
  get_or-set_self [] i v d lt = absurd (omega arith)
  get_or-set_self (x ∷ xs) zero v d lt = refl
  get_or-set_self (x ∷ xs) (suc i) v d lt = get_or-set_self xs i v d (omega arith)

  pub get_or-set_ne :
      (xs : List A) (i j : ℕ) (v d : A) → i ≢ j → get_or (set xs i v) j d ≡ get_or xs j d
  get_or-set_ne [] i j v d ne = refl
  get_or-set_ne (x ∷ xs) zero zero v d ne = absurd (ne refl)
  get_or-set_ne (x ∷ xs) zero (suc j) v d ne = refl
  get_or-set_ne (x ∷ xs) (suc i) zero v d ne = refl
  get_or-set_ne (x ∷ xs) (suc i) (suc j) v d ne = get_or-set_ne xs i j v d (λ e. ne (ap suc e))

abbrev pub entry : List ℕ → ℕ → Entry
entry key item = record { key = key; item = item }

-- The first slot for a key.
abbrev pub home : Bool → HashTable → List ℕ → ℕ
home signed h key = hash_loop signed 5381 key % h.capacity

-- A call on a table is a run of the probe loop.
pub hsearch-probe :
    (signed : Bool) (h : HashTable) (t t' : List Slot) (key : List ℕ) (item : ℕ) (a : Action)
    (r : Reply)
    → IsTable h t
    → probe h.capacity h.capacity t (entry key item) a (home signed h key) (home signed h key)
      ≡ some (r, t')
    → hsearch signed h (some key) item a
      ≡ some (r, record { slots = some t'; capacity = h.capacity })
unfolding hsearch
hsearch-probe signed h t t' key item a r ok e = rw (ok.there, hsearch) (rw e)

-- The run of the probe loop behind a call, which always ends.
pub probe_run :
    (signed : Bool) (h : HashTable) (t : List Slot) (key : List ℕ) (item : ℕ) (a : Action)
    → IsTable h t
    → (r : Reply) × (t' : List Slot) × (probe h.capacity h.capacity t
          (entry key item)
          a
          (home signed h key)
          (home signed h key)
        ≡ some (r, t'))
probe_run signed h t key item a ok = elim (Option-cases run) [
  | inl e ↦ absurd (
      probe_total h.capacity h.capacity t (entry key item) a idx idx (omega arith) (omega arith)
        (ground arith) e)
  | inr ((r, t'), e) ↦ (r, t', e)
]
  where
    idx : ℕ
    idx = home signed h key

    run : Option (Reply × List Slot)
    run = probe h.capacity h.capacity t (entry key item) a idx idx
