-- ===== src/Hash.antt =====
-- include/search.h: the open hash table of hcreate, hsearch and hdestroy.
-- A key is the list of the bytes before its NUL, which two keys share exactly where strcmp gives 0
-- (Str.Compare); the caller leaves the bytes of stored keys as they are. unsigned long has 64 bits.
pub mod Probe
pub mod Laws
pub mod Stored
use jaclibc.Base.{
  ℕ, zero, suc, ◌+◌, ◌-◌, ◌*◌, ◌%◌, ◌^◌, Bool, true, false, ◌&&◌, ◌==◌, ltb, if◌then◌else◌, Option,
  none, some, List, [], ◌∷◌, get_or, set, replicate,
}
use mathlib.Core.Option

-- typedef enum { FIND, ENTER } ACTION;
pub data Action : Type 0 where
  find enter : Action

-- struct entry; an empty slot has a NULL key.
pub record Entry : Type 0 where
  pub key : List ℕ
  pub item : ℕ

abbrev pub Slot : Type 0
Slot = Option Entry

-- The variables __jacl_h_tbl and __jacl_h_cap; a NULL table is `none`.
pub record HashTable : Type 0 where
  pub slots : Option (List Slot)
  pub capacity : ℕ

pub data Errno : Type 0 where
  einval esrch enospc : Errno

-- The address of a slot of the table, or NULL with errno.
pub data Reply : Type 0 where
  at : ℕ → Reply
  fail : Errno → Reply

-- `allocated` says whether calloc returns memory, which it fills with zeros.
unfoldable pub hcreate : Bool → HashTable → ℕ → ℕ × HashTable
hcreate allocated h nel = elim h.slots [
  | some _ ↦ (0, h)
  | none ↦
      let size = if ltb 0 nel then nel else 64 in
      if allocated
      then (1, record { slots = some (replicate size none); capacity = size })
      else (0, record { slots = none; capacity = size })
]

unfoldable pub hdestroy : HashTable → HashTable
hdestroy h = record { slots = none; capacity = 0 }

-- *s as an unsigned long, for a `char` that is signed or not.
unfoldable pub widen : Bool → ℕ → ℕ
widen signed c = if signed && ltb 127 c then c + 2 ^ 64 - 256 else c

-- for (char *s = item.key; *s; s++) h = ((h << 5) + h) + *s;
unfoldable pub hash_loop : Bool → ℕ → List ℕ → ℕ
hash_loop signed h [] = h
hash_loop signed h (c ∷ cs) = hash_loop signed ((h * 32 % 2 ^ 64 + h + widen signed c) % 2 ^ 64) cs

abbrev pub same_key : List ℕ → List ℕ → Bool
same_key [] [] = true
same_key (a ∷ as') (b ∷ bs) = a == b && same_key as' bs
same_key _ _ = false

-- The do-while loop. The result is the reply and the table; `none` means that the fuel ran out.
unfoldable pub probe : ℕ → ℕ → List Slot → Entry → Action → ℕ → ℕ → Option (Reply × List Slot)
probe size zero t item action start idx = none
probe size (suc f) t item action start idx =
    let next = (idx + 1) % size in
    let rest = probe size f t item action start next in
    elim (get_or t idx none) [
      | none ↦ elim action [
        | enter ↦ some (at idx, set t idx (some item))
        | find ↦ some (fail esrch, t)
      ]
      | some e ↦
          if same_key e.key item.key
          then (elim action [
            | enter ↦ some (at idx, set t idx (some (record e { item = item.item })))
            | find ↦ some (at idx, t)
          ])
          else if next == start
          then some (fail enospc, t)
          else rest
    ]

-- `key` is `none` for a NULL key.
unfoldable pub hsearch :
    Bool → HashTable → Option (List ℕ) → ℕ → Action → Option (Reply × HashTable)
unfolding probe hash_loop
hsearch signed h none item action = some (fail einval, h)
hsearch signed h (some key) item action = elim h.slots [
  | none ↦ some (fail einval, h)
  | some t ↦
      let idx = hash_loop signed 5381 key % h.capacity in
      elim (probe h.capacity h.capacity t (record { key = key; item = item }) action idx idx) [
        | none ↦ none
        | some (reply, t') ↦ some (reply, record { slots = some t'; capacity = h.capacity })
      ]
]
