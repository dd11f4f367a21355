-- ===== src/Hash/Stored.antt =====
-- What hsearch finds after it has entered a key.
use jaclibc.Base.{
  ℕ, dec_lt, ◌<◌, ◌≡◌, ◌≢◌, ◌⊎◌, inl, inr, Bool, false, arith, refl, Option, some, none, List,
  get_or, set, length, ap, sym, length-set, Bool-cases, ℕ_discrete, ◌∙◌,
}
use jaclibc.Hash.{
  Action, find, enter, Entry, Slot, Reply, at, fail, Errno, enospc, same_key, probe, HashTable,
  hsearch,
}
use jaclibc.Hash.Probe.{
  same_key_refl, same_key_eq, probe_at, probe_again, probe_enter_fail, probe_find_full, probe_full,
  IsHome, stored,
}
use jaclibc.Hash.Laws.{
  IsTable, entry, home, hsearch-probe, probe_run, get_or-set_self, get_or-set_ne,
}

-- What stands at the slot of a key after it was entered there.
home_stored :
    (t : List Slot) (i : ℕ) (item : Entry)
    → i < length t
    → IsHome t i item.key
    → (e : Entry) × (get_or (set t i (stored (get_or t i none) item)) i none ≡ some e)
      × (e.key ≡ item.key)
      × (e.item ≡ item.item)
home_stored t i item lt (inl empty) =
    (item, get_or-set_self t i _ none lt ∙ ap (λ s. stored s item) empty, refl, refl)
home_stored t i item lt (inr (e, full, same)) = (
  record e { item = item.item },
  get_or-set_self t i _ none lt ∙ ap (λ s. stored s item) full,
  same_key_eq e.key item.key same,
  refl,
)

-- A slot with another key is not the home of the key, so entering the key leaves it alone.
other_kept :
    (t : List Slot) (i : ℕ) (item : Entry) (v : Slot) (j : ℕ) (e : Entry)
    → IsHome t i item.key
    → get_or t j none ≡ some e
    → same_key e.key item.key ≡ false
    → get_or (set t i v) j none ≡ some e
other_kept t i item v j e h full other = get_or-set_ne t i j v none apart ∙ full
  where
    apart : i ≢ j
    apart same = elim h [ inl empty ↦ ground arith | inr (d, there, has) ↦ ground arith ]

home_in :
    (signed : Bool) (h : HashTable) (t : List Slot) (key : List ℕ)
    → IsTable h t
    → home signed h key < h.capacity
home_in signed h t key ok = omega (arith, ok.measured, ok.not_empty)

module _ (signed : Bool) (h : HashTable) (t : List Slot) (ok : IsTable h t) (key : List ℕ)
    (item : ℕ) where
  abbrev run_of : Action → Option (Reply × List Slot)
  run_of a =
      probe h.capacity h.capacity t (entry key item) a (home signed h key) (home signed h key)

  -- The call returned the slot i, which holds the key with the item, and a search finds it there.
  abbrev pub Entered : ℕ → HashTable → List Slot → Type 0
  Entered i h' t' =
      (hsearch signed h (some key) item enter ≡ some (at i, h'))
      × IsTable h' t'
      × (length t' ≡ length t)
      × ((e : Entry) × (get_or t' i none ≡ some e) × (e.key ≡ key) × (e.item ≡ item))
      × ((item' : ℕ) → hsearch signed h' (some key) item' find ≡ some (at i, h'))

  abbrev pub NoRoom : HashTable → Type 0
  NoRoom h' =
      (hsearch signed h (some key) item enter ≡ some (fail enospc, h'))
      × (h'.slots ≡ h.slots)
      × (h'.capacity ≡ h.capacity)
      × ((j : ℕ) → j < length t → (d : Entry) × (get_or t j none ≡ some d) × (d.key ≢ key))

  entered :
      (i : ℕ) (t' : List Slot)
      → run_of enter ≡ some (at i, t')
      → Entered i (record { slots = some t'; capacity = h.capacity }) t'
  entered i t' run =
      let (lt, is_home, written) =
        probe_at h.capacity h.capacity t (entry key item) enter (home signed h key)
          (home signed h key) i t' (omega arith) run in
      let (e, there, same, has) = home_stored t i (entry key item) (omega arith) is_home in
      let there' : get_or t' i none ≡ some e = ap (λ s. get_or s i none) written ∙ there in
      let ok' : IsTable (record { slots = some t'; capacity = h.capacity }) t' = record {
        there = refl;
        measured = ok.measured ∙ sym (length-set t i _) ∙ ap length (sym written);
        not_empty =
            omega (
              arith,
              ap length written,
              length-set t i (stored (get_or t i none) (entry key item)),
            );
      } in
      (
        hsearch-probe signed h t t' key item enter (at i) ok run,
        ok',
        ap length written ∙ length-set t i _,
        (e, there', same, has),
        λ item'.
            hsearch-probe signed (record { slots = some t'; capacity = h.capacity }) t' t' key item'
              find (at i) ok'
              (probe_again h.capacity h.capacity t t' (entry key item) (entry key item') enter
                (home signed h key) (home signed h key) i t' refl run
                (λ j d full other. (
                  d,
                  ap (λ s. get_or s j none) written
                      ∙ other_kept t i (entry key item) _ j d is_home full other,
                  other,
                ))
                e there' (ap (λ k. same_key k key) same ∙ same_key_refl key)),
      )

  full_slot :
      (e : Errno) (t' : List Slot)
      → run_of enter ≡ some (fail e, t')
      → (j : ℕ) → j < length t
      → (d : Entry) × (get_or t j none ≡ some d) × (d.key ≢ key)
  full_slot e t' run j lt =
      let (d, full, other) =
        probe_full h.capacity h.capacity t (entry key item) (home signed h key) (home signed h key)
          e t' (home_in signed h t key ok) (home_in signed h t key ok) run j
          (omega (arith, lt, ok.measured))
          (inr (
            omega arith,
            elim (dec_lt j (home signed h key)) [
              | yes before ↦ inr before
              | no behind ↦ inl (omega arith)
            ],
          )) in
      (
        d,
        full,
        λ same. absurd (ground (arith, other, ap (λ k. same_key k key) same ∙ same_key_refl key)),
      )

  -- hsearch with ENTER ends on every table. It returns a slot that then holds the key with the
  -- item, a search for the key then returns that slot, and the table keeps its size; or it fails
  -- with ENOSPC and leaves the table as it was, and then every slot holds another key.
  pub hsearch-enter :
      ((i : ℕ) × (h' : HashTable) × (t' : List Slot) × Entered i h' t')
      ⊎ ((h' : HashTable) × NoRoom h')
  hsearch-enter = go (probe_run signed h t key item enter ok)
    where
      go :
          ((r : Reply) × (t' : List Slot) × (run_of enter ≡ some (r, t')))
          → ((i : ℕ) × (h' : HashTable) × (t' : List Slot) × Entered i h' t')
            ⊎ ((h' : HashTable) × NoRoom h')
      go (at i, t', run) =
          inl (i, record { slots = some t'; capacity = h.capacity }, t', entered i t' run)
      go (fail e, t', run) =
          let (space, same) =
            probe_enter_fail h.capacity h.capacity t (entry key item) (home signed h key)
              (home signed h key) e t' run in
          inr (
            record { slots = some t'; capacity = h.capacity },
            (
              hsearch-probe signed h t t' key item enter (fail enospc) ok
                  (run ∙ ap (λ r. some (fail r, t')) space),
              ap some same ∙ sym ok.there,
              refl,
              λ j lt. full_slot e t' run j lt,
            ),
          )

  different : (k l : List ℕ) → k ≢ l → same_key k l ≡ false
  different k l ne = elim (Bool-cases (same_key k l)) [
    | inl same ↦ absurd (ne (same_key_eq k l same))
    | inr other ↦ other
  ]

  others_kept :
      (k : List ℕ) (x y i j : ℕ) (t1 t' : List Slot)
      → k ≢ key
      → probe h.capacity h.capacity t (entry k x) find (home signed h k) (home signed h k)
        ≡ some (at j, t1)
      → run_of enter ≡ some (at i, t')
      → let h' : HashTable = record { slots = some t'; capacity = h.capacity } in
        (hsearch signed h' (some k) y find ≡ some (at j, h')) × (get_or t' j none ≡ get_or t j none)
  others_kept k x y i j t1 t' ne run run' =
      let (e, full, has) =
        probe_find_full h.capacity h.capacity t (entry k x) (home signed h k) (home signed h k) j t1
          run in
      let (lt, is_home, written) =
        probe_at h.capacity h.capacity t (entry key item) enter (home signed h key)
          (home signed h key) i t' (omega arith) run' in
      let new = home_stored t i (entry key item) (omega arith) is_home in
      let keeps : (jj : ℕ) (d : Entry)
          → get_or t jj none ≡ some d
          → same_key d.key key ≡ false
          → get_or t' jj none ≡ some d =
        λ jj d f o.
          ap (λ s. get_or s jj none) written ∙ other_kept t i (entry key item) _ jj d is_home f o in
      let not_key : same_key e.key key ≡ false =
        different e.key key (λ q. ne (sym (same_key_eq e.key k has) ∙ q)) in
      (
        hsearch-probe signed (record { slots = some t'; capacity = h.capacity }) t' t' k y find
            (at j) (entered i t' run').1
            (probe_again h.capacity h.capacity t t' (entry k x) (entry k y) find (home signed h k)
              (home signed h k) j t1 refl run
              (λ jj d f o. elim (ℕ_discrete jj i) [
                | yes q ↦ (
                  new.0,
                  ap (λ s. get_or s jj none) written
                      ∙ ap
                          (λ n. get_or (set t i (stored (get_or t i none) (entry key item))) n none)
                          q
                      ∙ new.1,
                  different new.0.key k (λ q'. ne (sym q' ∙ new.2)),
                )
                | no nq ↦ (
                  d,
                  ap (λ s. get_or s jj none) written
                      ∙ get_or-set_ne t i jj _ none (λ q. nq (sym q))
                      ∙ f,
                  o,
                )
              ])
              e (keeps j e full not_key) has),
        keeps j e full not_key ∙ sym full,
      )

  -- Entering a key leaves the others alone: a key that a search found is found at the same slot
  -- afterwards, and the slot holds what it held.
  pub hsearch-enter_ne :
      (k : List ℕ) (x y i j : ℕ) (h' h1 : HashTable)
      → k ≢ key
      → hsearch signed h (some k) x find ≡ some (at j, h1)
      → hsearch signed h (some key) item enter ≡ some (at i, h')
      → (t' : List Slot) × (h'.slots ≡ some t')
        × (hsearch signed h' (some k) y find ≡ some (at j, h'))
        × (get_or t' j none ≡ get_or t j none)
  hsearch-enter_ne k x y i j h' h1 ne finds enters =
      let (r, t1, run) = probe_run signed h t k x find ok in
      let (r', t', run') = probe_run signed h t key item enter ok in
      let was_at : r ≡ at j = cc (hsearch-probe signed h t t1 k x find r ok run) in
      let now_at : r' ≡ at i = cc (hsearch-probe signed h t t' key item enter r' ok run') in
      let table : record { slots = some t'; capacity = h.capacity } ≡ h' =
        cc (hsearch-probe signed h t t' key item enter r' ok run') in
      let kept =
        others_kept k x y i j t1 t' ne (run ∙ ap (λ s. some (s, t1)) was_at)
          (run' ∙ ap (λ s. some (s, t')) now_at) in
      rw (← table) (t', refl, kept.0, kept.1)
