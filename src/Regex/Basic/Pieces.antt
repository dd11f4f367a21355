-- ===== src/Regex/Basic/Pieces.antt =====
-- What the translation of a basic pattern in include/regex.h does to its pieces: a byte, or a byte behind a
-- backslash.
use Prim.{Unit}
use jaclibc.Base.{
  ℕ, zero, suc, ◌+◌, ◌<◌, ◌≡◌, ◌==◌, Bool, true, false, not, if◌then◌else◌, List, [], ◌∷◌, length,
  refl, Bool-cases, arith, replicate, ◌++◌,
}
use jaclibc.Regex.Basic.{is_special, bre_loop, bre_trans}

-- The byte, and whether it stands behind a backslash.
abbrev Piece : Type 0
Piece = Bool × ℕ

abbrev pub render : List Piece → List ℕ
render [] = []
render ((true, c) ∷ ps) = b'\\' ∷ c ∷ render ps
render ((false, c) ∷ ps) = c ∷ render ps

-- A special byte with a backslash loses it, and one without gets it.
abbrev pub swap_special : List Piece → List Piece
swap_special [] = []
swap_special ((q, c) ∷ ps) = (if is_special c then not q else q, c) ∷ swap_special ps

abbrev pub LacksBackslash : List Piece → Type 0
LacksBackslash [] = Unit
LacksBackslash ((q, c) ∷ ps) = ((c == b'\\') ≡ false) × LacksBackslash ps

-- A byte, and a byte behind a backslash, where there is room for it.
nil_step : (max_len cnt : ℕ) → bre_loop max_len false [] cnt ≡ []
unfolding bre_loop
nil_step max_len cnt = refl

bare_step :
    (max_len cnt c : ℕ) (s : List ℕ)
    → cnt + 1 < max_len
    → (c == b'\\') ≡ false
    → bre_loop max_len false (c ∷ s) cnt ≡ (
        if is_special c
        then b'\\' ∷ c ∷ bre_loop max_len false s (cnt + 2)
        else c ∷ bre_loop max_len false s (cnt + 1))
unfolding bre_loop
bare_step max_len cnt c s room plain = ground arith

quoted_step :
    (max_len cnt c : ℕ) (s : List ℕ)
    → cnt + 1 < max_len
    → bre_loop max_len false (b'\\' ∷ c ∷ s) cnt ≡ (
        if is_special c
        then c ∷ bre_loop max_len false s (cnt + 1)
        else b'\\' ∷ c ∷ bre_loop max_len false s (cnt + 2))
unfolding bre_loop
quoted_step max_len cnt c s room = ground arith

bre_loop_lem :
    (max_len : ℕ) (ps : List Piece) (cnt : ℕ)
    → LacksBackslash ps
    → cnt + length (render (swap_special ps)) < max_len
    → bre_loop max_len false (render ps) cnt ≡ render (swap_special ps)
bre_loop_lem max_len [] cnt lacks room = nil_step max_len cnt
bre_loop_lem max_len ((true, c) ∷ ps) cnt (plain, lacks) room = ground (
  arith,
  quoted_step max_len cnt c (render ps),
  bre_loop_lem max_len ps (cnt + 1) lacks,
  bre_loop_lem max_len ps (cnt + 2) lacks,
  Bool-cases (is_special c),
)
bre_loop_lem max_len ((false, c) ∷ ps) cnt (plain, lacks) room = ground (
  arith,
  bare_step max_len cnt c (render ps),
  bre_loop_lem max_len ps (cnt + 1) lacks,
  bre_loop_lem max_len ps (cnt + 2) lacks,
  Bool-cases (is_special c),
)

-- Where the buffer has room, no piece is a backslash behind a backslash, and the others are bytes without
-- a backslash, the special bytes lose the backslash in front of them, those without one get one, and
-- all else stays.
pub bre_trans_lem :
    (max_len : ℕ) (ps : List Piece)
    → LacksBackslash ps
    → length (render (swap_special ps)) < max_len
    → bre_trans (render ps) max_len ≡ render (swap_special ps)
unfolding bre_trans
bre_trans_lem max_len ps lacks room = bre_loop_lem max_len ps 0 lacks (omega (arith, room))

plain_loop :
    (max_len n cnt : ℕ)
    → cnt + n + 1 < max_len
    → length (bre_loop max_len false (replicate n b'a' ++ (b'.' ∷ [])) cnt) ≡ n + 2
unfolding bre_loop is_special
plain_loop max_len zero cnt room = ground arith
plain_loop max_len (suc n) cnt room = ground (arith, plain_loop max_len n (cnt + 1))

-- A pattern of plain bytes and a special one, of one byte less than the buffer, fills all of it, so that
-- the NUL is stored behind it.
pub bre_trans_full : (n : ℕ) → length (bre_trans (replicate n b'a' ++ (b'.' ∷ [])) (n + 2)) ≡ n + 2
unfolding bre_trans
bre_trans_full n = plain_loop (n + 2) n 0 (omega arith)
