-- ===== src/Convert.antt =====
-- include/wchar.h: the conversions of whole strings, mbstowcs to wcsnrtombs, which call mbrtowc and wcrtomb for
-- each character. A string is its bytes or wide characters in front of the NUL. MB_CUR_MAX is 4.
pub mod Room
pub mod Trip
use jaclibc.Base.{
  ℕ, zero, suc, ◌+◌, ◌-◌, Bool, true, false, not, ◌&&◌, ◌||◌, ltb, leb, ◌==◌, if◌then◌else◌, List,
  [], ◌∷◌, ◌++◌, Option, none, some, length, drop, take, ◌>>=◌,
}
use jaclibc.Utf.{done, partial, illegal, mbrtowc, wcrtomb, mbtowc, wctomb}

-- What a conversion returns, with `none` for (size_t)-1; what it stores, the NUL included if it stores one;
-- and where *src points then, with `none` for NULL.
pub record Converted : Type 0 where
  pub count : Option ℕ
  pub stored : List ℕ
  pub source : Option (List ℕ)

-- k more are counted, and these are stored in front if there is a place to store them.
abbrev pub after : Bool → ℕ → List ℕ → Converted → Converted
after dst k more c = record {
  count = c.count >>= λ n. some (k + n);
  stored = if dst then more ++ c.stored else [];
  source = c.source;
}

-- The NUL and what lies behind it; a sequence that the NUL cuts off ends at it.
abbrev pub nul : List ℕ
nul = 0 ∷ 0 ∷ 0 ∷ 0 ∷ []

-- `dst` says whether dst is given, `left` is len - i; `none` means that the fuel ran out.
unfoldable pub mbs_loop : ℕ → Bool → ℕ → List ℕ → Option Converted
mbs_loop zero dst left s = none
mbs_loop (suc f) dst left [] = some (
    if ltb 0 left || not dst
    then record { count = some 0; stored = if dst then 0 ∷ [] else []; source = none }
    else record { count = some 0; stored = []; source = some [] })
mbs_loop (suc f) dst left (c ∷ s) =
    let stop : Option ℕ → Option Converted =
      λ n. some (record { count = n; stored = []; source = some (c ∷ s) }) in
    if ltb 0 left || not dst
    then (elim (mbrtowc true (c ∷ s ++ nul)) [
      | done r wc ↦
          mbs_loop f dst (left - 1) (drop r (c ∷ s)) >>= λ rest. some (after dst 1 (wc ∷ []) rest)
      | partial ↦ stop none
      | illegal ↦ stop none
    ])
    else stop (some 0)

unfoldable pub mbsrtowcs : Bool → List ℕ → ℕ → Option Converted
unfolding mbs_loop
mbsrtowcs dst s len = mbs_loop (length s + 1) dst len s

-- `left` is len - i.
unfoldable pub wcs_loop : Bool → ℕ → List ℕ → Converted
wcs_loop dst left [] = record {
  count = some 0;
  stored = if dst && ltb 0 left then 0 ∷ [] else [];
  source = none;
}
wcs_loop dst left (w ∷ ws) =
    let full : Converted = record {
      count = some 0;
      stored = if dst && ltb 0 left then 0 ∷ [] else [];
      source = some (w ∷ ws);
    } in
    elim (wcrtomb w) [
      | none ↦ record { count = none; stored = []; source = some (w ∷ ws) }
      | some b ↦
          let rest = wcs_loop dst (left - length b) ws in
          if dst && ltb left (length b) then full else after dst (length b) b rest
    ]

unfoldable pub wcsrtombs : Bool → List ℕ → ℕ → Converted
unfolding wcs_loop
wcsrtombs dst ws len = wcs_loop dst len ws

-- At most nwc wide characters are read.
unfoldable pub wcsn_loop : Bool → ℕ → ℕ → List ℕ → Converted
wcsn_loop dst left zero ws = record {
  count = some 0;
  stored = if dst && ltb 0 left then 0 ∷ [] else [];
  source = elim ws [ [] ↦ none | w ∷ ws' ↦ some (w ∷ ws') ];
}
wcsn_loop dst left (suc k) [] = record {
  count = some 0;
  stored = if dst && ltb 0 left then 0 ∷ [] else [];
  source = none;
}
wcsn_loop dst left (suc k) (w ∷ ws) =
    let full : Converted = record {
      count = some 0;
      stored = if dst && ltb 0 left then 0 ∷ [] else [];
      source = some (w ∷ ws);
    } in
    elim (wcrtomb w) [
      | none ↦ record { count = none; stored = []; source = some (w ∷ ws) }
      | some b ↦
          let rest = wcsn_loop dst (left - length b) k ws in
          if dst && ltb left (length b) then full else after dst (length b) b rest
    ]

unfoldable pub wcsnrtombs : Bool → List ℕ → ℕ → ℕ → Converted
unfolding wcsn_loop
wcsnrtombs dst ws nwc len = wcsn_loop dst len nwc ws

-- The loop of wcstombs, which stores no NUL; `left` is n - t.
unfoldable pub tombs_loop : Bool → ℕ → List ℕ → Option ℕ × List ℕ
tombs_loop dst left [] = (some 0, [])
tombs_loop dst left (w ∷ ws) = elim (wctomb w) [
  | none ↦ (none, [])
  | some b ↦
      let (count, stored) = tombs_loop dst (left - length b) ws in
      if dst && ltb left (length b)
      then (some 0, [])
      else (count >>= λ n. some (length b + n), if dst then b ++ stored else [])
]

-- `dst` says whether s is given; pw is not NULL.
unfoldable pub wcstombs : Bool → List ℕ → ℕ → Option ℕ × List ℕ
unfolding tombs_loop
wcstombs dst ws n = tombs_loop dst n ws

-- The loop of mbstowcs, which stores no NUL either; `left` is n - i, `none` means that the fuel ran out.
unfoldable pub towcs_loop : ℕ → Bool → ℕ → List ℕ → Option (Option ℕ × List ℕ)
towcs_loop zero dst left s = none
towcs_loop (suc f) dst left [] = some (some 0, [])
towcs_loop (suc f) dst left (c ∷ s) =
    if ltb 0 left || not dst
    then (elim (mbtowc dst (c ∷ s ++ nul)) [
      | done r wc ↦
          let rest = towcs_loop f dst (left - 1) (drop r (c ∷ s)) in
          if r == 0
          then some (some 0, [])
          else rest >>= λ t. some (t.0 >>= λ n. some (1 + n), if dst then wc ∷ t.1 else [])
      | partial ↦ some (none, [])
      | illegal ↦ some (none, [])
    ])
    else some (some 0, [])

-- `dst` says whether pw is given; s is not NULL.
unfoldable pub mbstowcs : Bool → List ℕ → ℕ → Option (Option ℕ × List ℕ)
unfolding towcs_loop
mbstowcs dst s n = towcs_loop (length s + 1) dst n s

-- The loop of mbsnrtowcs; `limit` is end - s.
unfoldable pub mbsn_loop : ℕ → Bool → ℕ → ℕ → List ℕ → Option Converted
mbsn_loop zero dst left limit s = none
mbsn_loop (suc f) dst left limit s =
    let more = ltb 0 left || not dst in
    let nul_there = if dst && ltb 0 left then 0 ∷ [] else [] in
    elim s [
      | [] ↦ some (
          if more
          then record { count = some 0; stored = nul_there; source = none }
          else record { count = some 0; stored = []; source = some [] })
      | c ∷ t ↦
          let stop : Option ℕ → List ℕ → Option Converted =
            λ n out. some (record { count = n; stored = out; source = some (c ∷ t) }) in
          if not more
          then stop (some 0) []
          else if limit == 0
          then stop (some 0) nul_there
          else (elim (mbrtowc true (take limit (c ∷ t ++ nul))) [
            | done r wc ↦ mbsn_loop f dst (left - 1) (limit - r) (drop r (c ∷ t)) >>= λ rest.
                some (after dst 1 (wc ∷ []) rest)
            | partial ↦ stop none []
            | illegal ↦ stop none []
          ])
    ]

unfoldable pub mbsnrtowcs : Bool → List ℕ → ℕ → ℕ → Option Converted
unfolding mbsn_loop
mbsnrtowcs dst s nms len = mbsn_loop (length s + 1) dst len nms s
