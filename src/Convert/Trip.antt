-- ===== src/Convert/Trip.antt =====
-- A string of characters goes to bytes and back.
use jaclibc.Base.{
  ℕ, zero, suc, ◌+◌, ◌-◌, ◌≤◌, ◌<◌, ◌≡◌, ◌≢◌, true, false, ltb, ◌==◌, if◌then◌else◌, List, [], ◌∷◌,
  ◌++◌, some, none, Option, length, length-append, drop, ◌>>=◌, arith, refl, sym, ap, subst, ◌∙◌,
}
use mathlib.Core.List.{append_assoc}
use jaclibc.Utf.{done, mbrtowc, wcrtomb}
use jaclibc.Utf.Trip.{IsScalar, mbrtowc-wcrtomb}
use jaclibc.Convert.{Converted, after, nul, mbs_loop, mbsrtowcs, wcs_loop, wcsrtombs}

-- Characters other than NUL.
abbrev pub AreScalars : List ℕ → Type 0
AreScalars [] = Unit
AreScalars (w ∷ ws) = IsScalar w × (w ≢ 0) × AreScalars ws

drop-append : (xs ys : List ℕ) → drop (length xs) (xs ++ ys) ≡ ys
drop-append [] ys = refl
drop-append (x ∷ xs) ys = drop-append xs ys

-- One character is taken from the front of the bytes.
mbs_loop-char :
    (f left w : ℕ) (b s : List ℕ)
    → b ≢ []
    → ltb 0 left ≡ true
    → mbrtowc true ((b ++ s) ++ nul) ≡ done (length b) w
    → mbs_loop (suc f) true left (b ++ s)
      ≡ (mbs_loop f true (left - 1) s >>= λ rest. some (after true 1 (w ∷ []) rest))
unfolding mbs_loop
mbs_loop-char f left w [] s ne lt e = absurd (ne refl)
mbs_loop-char f left w (c ∷ b) s ne lt e =
    rw (lt, e)
      (ap
        (λ (t : List ℕ). mbs_loop f true (left - 1) t >>= λ rest. some (after true 1 (w ∷ []) rest))
        (drop-append (c ∷ b) s))

no_bytes : (w : ℕ) → mbrtowc true [] ≢ done 0 w
unfolding mbrtowc
no_bytes w e = ground (arith, e)

decodes :
    (w : ℕ) (b more : List ℕ)
    → IsScalar w
    → w ≢ 0
    → wcrtomb w ≡ some b
    → mbrtowc true (b ++ more) ≡ done (length b) w
decodes w b more h ne e =
    let (b', written, short, back) = mbrtowc-wcrtomb w more h in
    let same : b' ≡ b = ground (arith, sym written ∙ e) in
    let counted : (if w == 0 then 0 else length b') ≡ length b' = ground (arith, ne) in
    subst (λ (t : List ℕ). mbrtowc true (t ++ more) ≡ done (length t) w) same
      (back ∙ ap (λ (n : ℕ). done n w) counted)

-- Bytes of the characters.
pub data Encodes : List ℕ → List ℕ → Type 0 where
  none_left : Encodes [] []
  one_more :
      {ws s : List ℕ} (w : ℕ) (b : List ℕ)
      → w ≢ 0
      → wcrtomb w ≡ some b
      → ((more : List ℕ) → mbrtowc true (b ++ more) ≡ done (length b) w)
      → Encodes ws s
      → Encodes (w ∷ ws) (b ++ s)

Encodes-length : {ws s : List ℕ} → Encodes ws s → length ws ≤ length s
Encodes-length none_left = omega arith
Encodes-length (one_more w [] ne e back more) = absurd (no_bytes w (back []))
Encodes-length (one_more {s = s} w (c ∷ b) ne e back more) =
    omega (arith, Encodes-length more, length-append b s)

Encodes-total : (ws : List ℕ) → AreScalars ws → (s : List ℕ) × Encodes ws s
Encodes-total [] h = ([], none_left)
Encodes-total (w ∷ ws) h =
    let (s, rest) = Encodes-total ws h.2 in
    let (b, written, short, back) = mbrtowc-wcrtomb w [] h.0 in
    (b ++ s, one_more w b h.1 written (λ more. decodes w b more h.0 h.1 written) rest)

-- All was converted, and a NUL stored.
abbrev all_done : ℕ → List ℕ → Converted
all_done n out = record { count = some n; stored = out ++ 0 ∷ []; source = none }

wcs_loop-char :
    (left w : ℕ) (b ws : List ℕ)
    → wcrtomb w ≡ some b
    → ltb left (length b) ≡ false
    → wcs_loop true left (w ∷ ws) ≡ after true (length b) b (wcs_loop true (left - length b) ws)
unfolding wcs_loop
wcs_loop-char left w b ws e room = ground (arith, e, room)

wcs_loop-Encodes :
    (left : ℕ) {ws s : List ℕ}
    → Encodes ws s
    → length s < left
    → wcs_loop true left ws ≡ all_done (length s) s
unfolding wcs_loop
wcs_loop-Encodes left none_left lt = ground (arith, lt)
wcs_loop-Encodes left (one_more {ws} {s} w b ne e back more) lt =
    let measured = length-append b s in
    let rest = wcs_loop-Encodes (left - length b) more (omega (arith, measured)) in
    wcs_loop-char left w b ws e (ground (arith, measured))
    ∙ ap (λ (c : Converted). after true (length b) b c) rest
    ∙ ap (λ (l : List ℕ). record { count = some (length b + length s); stored = l; source = none })
        (sym (append_assoc b s (0 ∷ [])))
    ∙ ap (λ (n : ℕ). all_done n (b ++ s)) (sym measured)

mbs_loop-Encodes :
    (f left : ℕ) {ws s : List ℕ}
    → Encodes ws s
    → length s < f
    → length ws < left
    → mbs_loop f true left s ≡ some (all_done (length ws) ws)
unfolding mbs_loop
mbs_loop-Encodes zero left en lt room = absurd (omega arith)
mbs_loop-Encodes (suc f) left none_left lt room = ground (arith, room)
mbs_loop-Encodes (suc f) left (one_more {ws} {s} w [] ne e back more) lt room =
    absurd (no_bytes w (back []))
mbs_loop-Encodes (suc f) left (one_more {ws} {s} w (c ∷ b) ne e back more) lt room =
    let rest =
      mbs_loop-Encodes f (left - 1) more (omega (arith, length-append b s)) (omega arith) in
    let one : 1 + length ws ≡ suc (length ws) = omega arith in
    mbs_loop-char f left w (c ∷ b) s (λ z. ground (arith, z)) (ground (arith, room))
      (ap (λ (l : List ℕ). mbrtowc true l) (append_assoc (c ∷ b) s nul) ∙ back (s ++ nul))
    ∙ ap (λ (r : Option Converted). r >>= λ t. some (after true 1 (w ∷ []) t)) rest
    ∙ ap (λ (n : ℕ). some (all_done n (w ∷ ws))) one

-- A string of characters goes to bytes with wcsrtombs and back with mbsrtowcs, if the destinations have
-- a place for the NUL as well: all is read, *src becomes NULL, and the same characters are stored.
pub mbsrtowcs-wcsrtombs :
    (ws : List ℕ) (len : ℕ)
    → AreScalars ws
    → length ws < len
    → (s : List ℕ) × (wcsrtombs true ws (length s + 1)
        ≡ record { count = some (length s); stored = s ++ 0 ∷ []; source = none })
      × (mbsrtowcs true s len
          ≡ some (record { count = some (length ws); stored = ws ++ 0 ∷ []; source = none }))
unfolding wcsrtombs mbsrtowcs
mbsrtowcs-wcsrtombs ws len h room =
    let (s, en) = Encodes-total ws h in
    (
      s,
      wcs_loop-Encodes (length s + 1) en (omega arith),
      mbs_loop-Encodes (length s + 1) len en (omega arith) room,
    )
