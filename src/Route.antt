-- ===== src/Route.antt =====
-- include/transit/route.h: patterns of routes and the table of routes. A string is its bytes in front of
-- the NUL, a pointer into one is what is left of it; bytes are below 128, so char is not negative. `outside`
-- stands for reads behind the end of a string.
pub mod Table
pub mod Spec
pub mod Decide
use jaclibc.Base.{
  ℕ, zero, suc, ◌+◌, ◌-◌, ◌*◌, ◌/◌, ◌%◌, ◌^◌, Bool, true, false, not, ◌&&◌, ◌||◌, ◌==◌, ltb, leb,
  if◌then◌else◌, ℤ, pos, negsuc, Option, none, some, List, [], ◌∷◌, ◌++◌, length,
}
use jaclibc.Alloc.{put}

abbrev pub Text : Type 0
Text = List ℕ

-- spec[0] to spec[2]
pub record Signs : Type 0 where
  pub any : ℕ
  pub div : ℕ
  pub esc : ℕ

abbrev pub bit_value : Bool → ℕ
bit_value b = if b then 1 else 0

-- The first byte of the set of 256 bits.
abbrev pub first_byte : (ℕ → Bool) → ℕ
first_byte cset =
    bit_value (cset 0)
    + 2 * bit_value (cset 1)
    + 4 * bit_value (cset 2)
    + 8 * bit_value (cset 3)
    + 16 * bit_value (cset 4)
    + 32 * bit_value (cset 5)
    + 64 * bit_value (cset 6)
    + 128 * bit_value (cset 7)

-- for (c = from; c <= to; c++): `count` bits from `c` on.
unfoldable pub set_range : ℕ → ℕ → Bool → (ℕ → Bool) → ℕ → Bool
set_range zero c on cset = cset
set_range (suc count) c on cset = set_range count (c + 1) on (put cset c on)

-- while (*p && *p != ']') { ... }: what is left of the pattern, and the set. The macros BITON and BITOFF
-- have a variable p of their own, the set, so that in them *p is its first byte.
unfoldable pub set_loop : Bool → Text → (ℕ → Bool) → Option (Text × (ℕ → Bool))
unfolding set_range
set_loop on [] cset = some ([], cset)
set_loop on (a ∷ []) cset =
    if a == b']' then some (a ∷ [], cset) else some ([], put cset (first_byte cset) on)
set_loop on (a ∷ b ∷ []) cset =
    let rest = set_loop on (b ∷ []) (put cset (first_byte cset) on) in
    if a == b']' then some (a ∷ b ∷ [], cset) else if b == b'-' then none else rest
set_loop on (a ∷ b ∷ c ∷ p) cset = elim (b == b'-' && not (c == b']')) [
  | true ↦
      let rest = set_loop on p (set_range (c + 1 - a) a on cset) in
      if a == b']' then some (a ∷ b ∷ c ∷ p, cset) else rest
  | false ↦
      let rest = set_loop on (b ∷ c ∷ p) (put cset (first_byte cset) on) in
      if a == b']' then some (a ∷ b ∷ c ∷ p, cset) else rest
]

-- while (*p >= '0' && *p <= '9') n = n * 10 + (*p++ - '0')
unfoldable pub number_loop : Text → ℕ → ℕ × Text
number_loop [] n = (n, [])
number_loop (c ∷ p) n =
    let rest = number_loop p (n * 10 + (c - b'0')) in
    if leb b'0' c && leb c b'9' then rest else (n, c ∷ p)

-- if (*p == '{') { ... }: min and max; `none` is the return of -1.
unfoldable pub bounds : Text → Option (ℕ × ℕ)
unfolding number_loop
bounds [] = some (1, 2 ^ 31 - 1)
bounds (c ∷ p) =
    let (min, q) = number_loop p 0 in
    let ended : Text → ℕ → Option (ℕ × ℕ) =
      λ r max. elim r [ [] ↦ none | d ∷ _ ↦ if d == b'}' then some (min, max) else none ] in
    if not (c == b'{') then some (1, 2 ^ 31 - 1) else (elim q [
      | [] ↦ none
      | d ∷ r ↦
          let (max, r') = number_loop r 0 in if d == b',' then ended r' max else ended (d ∷ r) min
    ])

-- while (*h) { ... }
unfoldable pub count_loop : (ℕ → Bool) → ℕ → Text → ℕ → ℕ
count_loop cset max [] m = m
count_loop cset max (c ∷ h) m =
    let rest = count_loop cset max h (m + 1) in
    if not (cset c) then m else if leb max (m + 1) then m + 1 else rest

unfoldable pub drop_bytes : ℕ → Text → Text
drop_bytes zero h = h
drop_bytes (suc n) [] = []
drop_bytes (suc n) (c ∷ h) = drop_bytes n h

abbrev pub starts_with : Text → ℕ → Bool
starts_with [] c = false
starts_with (d ∷ p) c = d == c

-- The number, or `none` for -1; the outer `none` is outside. *p is '['.
unfoldable pub route_scan : Text → Text → Option (Option ℕ)
unfolding set_loop bounds count_loop drop_bytes
route_scan h [] = some none
route_scan h (b ∷ p) =
    let neg = starts_with p b'^' in
    let q = if neg then drop_bytes 1 p else p in
    if not (b == b'[') then some none else (elim (set_loop (not neg) q (λ i. neg)) [
      | none ↦ none
      | some (r, cset) ↦ elim r [
        | [] ↦ some none
        | _ ∷ r' ↦ elim (bounds r') [
          | none ↦ some none
          | some (min, max) ↦
              let m = count_loop cset max h 0 in some (if ltb m min then none else some m)
        ]
      ]
    ])

-- while (*p != stop) p++; p++
unfoldable pub skip_past : ℕ → Text → Text
skip_past stop [] = []
skip_past stop (c ∷ p) = let rest = skip_past stop p in if c == stop then p else rest

-- Behind ']', and behind '}' where a '{' follows.
abbrev pub past_set : Text → Text
past_set p = let q = skip_past b']' p in if starts_with q b'{' then skip_past b'}' q else q

-- What is left of the pattern and of the path; `none` is the return of 0, the outer `none` is outside.
-- while (*p == '[') { ... }
unfoldable pub sets_loop : ℕ → Text → Text → Option (Option (Text × Text))
unfolding route_scan skip_past drop_bytes
sets_loop zero p h = none
sets_loop (suc f) p h =
    let next : ℕ → Option (Option (Text × Text)) = λ m. sets_loop f (past_set p) (drop_bytes m h) in
    elim (starts_with p b'[') [
      | false ↦ some (some (p, h))
      | true ↦ elim (route_scan h p) [
        | none ↦ none
        | some none ↦ some none
        | some (some m) ↦ next m
      ]
    ]

-- while (*h && *h != div) h++
unfoldable pub skip_name : ℕ → Text → Text
skip_name div [] = []
skip_name div (c ∷ h) = let rest = skip_name div h in if c == div then c ∷ h else rest

-- The pattern behind the sign for any, and the path.
unfoldable pub wildcard : Signs → Text → Text → Option (Option (Text × Text))
unfolding sets_loop skip_name
wildcard s p h = elim p [
  | [] ↦ some (some ([], skip_name s.div h))
  | c ∷ q ↦
      if c == b'['
      then sets_loop (length q + 2) (c ∷ q) h
      else if c == s.any && length q == 0
      then some (some ([], []))
      else some (some (c ∷ q, skip_name s.div h))
]

-- while (*p) { ... }: `cnt` and the pointers stored. The outer `none` is outside, or the fuel ran out.
unfoldable pub match_loop : Signs → ℕ → ℕ → Text → Text → List Text → Option (Option (List Text))
unfolding wildcard
match_loop s zero msize p h found = none
match_loop s (suc f) msize [] h found = some (if length h == 0 then some found else none)
match_loop s (suc f) msize (c ∷ p) h found =
    if c == s.any
    then (elim (wildcard s p h) [
      | none ↦ none
      | some none ↦ some none
      | some (some (p', h')) ↦
          match_loop s f msize p' h' (if ltb (length found) msize then found ++ h ∷ [] else found)
    ])
    else if c == s.esc
    then (elim p [
      | [] ↦ if length h == 0 then none else some none
      | d ∷ q ↦ elim h [
        | [] ↦ some none
        | x ∷ t ↦ let rest = match_loop s f msize q t found in if d == x then rest else some none
      ]
    ])
    else (elim h [
      | [] ↦ some none
      | x ∷ t ↦ let rest = match_loop s f msize p t found in if c == x then rest else some none
    ])

-- The matches, as many as the call returns, or `none` for 0. No pointer is NULL.
unfoldable pub route_match : Signs → Text → Text → ℕ → Option (Option (List Text))
unfolding match_loop
route_match s path pattern msize =
    if msize == 0
    then some none
    else match_loop s (length pattern + 1) msize pattern path (path ∷ [])
