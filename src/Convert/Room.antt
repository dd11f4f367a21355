-- ===== src/Convert/Room.antt =====
-- How much wcsrtombs and wcstombs store.
use jaclibc.Base.{
  ℕ, ◌+◌, ◌-◌, ◌≤◌, ◌≡◌, true, ltb, if◌then◌else◌, List, [], ◌∷◌, ◌++◌, Option, some, none, length,
  length-append, ◌>>=◌, arith, refl, if_cases,
}
use jaclibc.Utf.{wcrtomb, wctomb}
use jaclibc.Convert.{Converted, after, wcs_loop, wcsrtombs, tombs_loop, wcstombs}

-- At most `left` bytes are stored, those that are counted and perhaps a NUL.
record IsRoomy (left : ℕ) (c : Converted) : Type 0 where
  fits : length c.stored ≤ left
  counted : (n : ℕ) → c.count ≡ some n → (n ≤ length c.stored) × (length c.stored ≤ n + 1)

after-IsRoomy :
    (left : ℕ) (b : List ℕ) (c : Converted)
    → length b ≤ left
    → IsRoomy (left - length b) c
    → IsRoomy left (after true (length b) b c)
after-IsRoomy left b c le h =
    let measured = length-append b c.stored in
    record { fits = omega (arith, measured, h.fits); counted = λ n e. go c.count h.counted n e }
  where
    go :
        (o : Option ℕ)
        → ((n : ℕ) → o ≡ some n → (n ≤ length c.stored) × (length c.stored ≤ n + 1))
        → (n : ℕ) → (o >>= λ k. some (length b + k)) ≡ some n
        → (n ≤ length (b ++ c.stored)) × (length (b ++ c.stored) ≤ n + 1)
    go none all n e = absurd (ground (arith, e))
    go (some k) all n e =
        let measured = length-append b c.stored in
        let same : length b + k ≡ n = ground (arith, e) in
        let bounds = all k refl in
        (omega (arith, measured, bounds.0), omega (arith, measured, bounds.1))

stop-IsRoomy :
    (left : ℕ) (source : Option (List ℕ))
    → IsRoomy left
        (record { count = some 0; stored = if ltb 0 left then 0 ∷ [] else []; source = source })
stop-IsRoomy left source = record { fits = ground arith; counted = λ n e. ground (arith, e) }

wcs_loop-IsRoomy : (left : ℕ) (ws : List ℕ) → IsRoomy left (wcs_loop true left ws)
unfolding wcs_loop
wcs_loop-IsRoomy left [] = stop-IsRoomy left none
wcs_loop-IsRoomy left (w ∷ ws) = go (λ k. wcs_loop-IsRoomy k ws) (wcrtomb w)
  where
    go :
        ((k : ℕ) → IsRoomy k (wcs_loop true k ws))
        → (o : Option (List ℕ))
        → IsRoomy left (elim o [
          | none ↦ record { count = none; stored = []; source = some (w ∷ ws) }
          | some b ↦
              if ltb left (length b)
              then record {
                count = some 0;
                stored = if ltb 0 left then 0 ∷ [] else [];
                source = some (w ∷ ws);
              }
              else after true (length b) b (wcs_loop true (left - length b) ws)
        ])
    go all none = record { fits = omega arith; counted = λ n e. absurd (ground (arith, e)) }
    go all (some b) =
        if_cases (IsRoomy left) (ltb left (length b)) _ _
          (λ full. stop-IsRoomy left (some (w ∷ ws)))
          (λ room.
            after-IsRoomy left b (wcs_loop true (left - length b) ws) (ground (arith, room))
              (all (left - length b)))

-- wcstombs stores as many bytes as it counts.
tombs_loop-length :
    (left : ℕ) (ws : List ℕ)
    → let (count, stored) = tombs_loop true left ws in
      (length stored ≤ left) × ((n : ℕ) → count ≡ some n → length stored ≡ n)
unfolding tombs_loop
tombs_loop-length left [] = (omega arith, λ n e. ground (arith, e))
tombs_loop-length left (w ∷ ws) = go (λ k. tombs_loop-length k ws) (wctomb w)
  where
    Bounded : ℕ → Option ℕ × List ℕ → Type 0
    Bounded k r = (length r.1 ≤ k) × ((n : ℕ) → r.0 ≡ some n → length r.1 ≡ n)

    joined :
        (b : List ℕ) (o : Option ℕ) (stored : List ℕ)
        → ((n : ℕ) → o ≡ some n → length stored ≡ n)
        → (n : ℕ) → (o >>= λ k. some (length b + k)) ≡ some n
        → length (b ++ stored) ≡ n
    joined b none stored all n e = absurd (ground (arith, e))
    joined b (some k) stored all n e =
        let same : length b + k ≡ n = ground (arith, e) in
        omega (arith, length-append b stored, all k refl)

    go :
        ((k : ℕ) → Bounded k (tombs_loop true k ws))
        → (o : Option (List ℕ))
        → Bounded left (elim o [
          | none ↦ (none, [])
          | some b ↦
              let (count, stored) = tombs_loop true (left - length b) ws in
              if ltb left (length b)
              then (some 0, [])
              else (count >>= λ n. some (length b + n), b ++ stored)
        ])
    go all none = (omega arith, λ n e. absurd (ground (arith, e)))
    go all (some b) =
        if_cases (Bounded left) (ltb left (length b)) _ _
          (λ full. (omega arith, λ n e. ground (arith, e)))
          (λ room.
            let (count, stored) = tombs_loop true (left - length b) ws in
            let (le, all') = all (left - length b) in
            let fits : length b ≤ left = ground (arith, room) in
            (omega (arith, length-append b stored, le, fits), joined b count stored all'))

-- With a destination of len bytes wcsrtombs and wcstombs store len bytes at most. If they return a
-- number, wcstombs has stored so many bytes, and wcsrtombs these and at most a NUL.
pub wcsrtombs_room :
    (ws : List ℕ) (len : ℕ)
    → (let c = wcsrtombs true ws len in
        (length c.stored ≤ len)
        × ((n : ℕ) → c.count ≡ some n → (n ≤ length c.stored) × (length c.stored ≤ n + 1)))
      × (let (count, stored) = wcstombs true ws len in
          (length stored ≤ len) × ((n : ℕ) → count ≡ some n → length stored ≡ n))
unfolding wcsrtombs wcstombs
wcsrtombs_room ws len =
    let h = wcs_loop-IsRoomy len ws in ((h.fits, h.counted), tombs_loop-length len ws)
