-- ===== src/Utf.antt =====
-- include/wchar.h and include/uchar.h: one character between UTF-8, UTF-16 and its code. The n bytes
-- at s are a list of bytes; a NULL pointer is `none`. A mask, a shift or an `|` of bits that do not
-- overlap is written as the remainder, the quotient or the sum that it is on a byte or a code.
pub mod Trip
pub mod Length
pub mod Pairs
use jaclibc.Base.{
  ℕ, ◌+◌, ◌-◌, ◌*◌, ◌/◌, ◌%◌, Bool, true, false, not, ◌&&◌, ◌||◌, ◌==◌, ltb, leb, if◌then◌else◌,
  List, [], ◌∷◌, Option, none, some,
}

-- `done r wc` returns r and stores wc; `partial` returns (size_t)-2, `illegal` (size_t)-1 with EILSEQ.
pub data Decoded : Type 0 where
  done : ℕ → ℕ → Decoded
  partial illegal : Decoded

-- (b & 0xC0) == 0x80
abbrev pub is_tail : ℕ → Bool
is_tail b = b / 64 == 2

-- ((c & 0x1F) << 6) | (b & 0x3F)
abbrev pub code2 : ℕ → ℕ → ℕ
code2 c b = c % 32 * 64 + b % 64

abbrev pub code3 : ℕ → ℕ → ℕ → ℕ
code3 c b1 b2 = c % 16 * 4096 + b1 % 64 * 64 + b2 % 64

abbrev pub code4 : ℕ → ℕ → ℕ → ℕ → ℕ
code4 c b1 b2 b3 = c % 8 * 262144 + b1 % 64 * 4096 + b2 % 64 * 64 + b3 % 64

-- The range of a code is only looked at where pwc is not NULL, which `wanted` says.
abbrev pub check : Bool → Bool → ℕ → ℕ → Decoded
check wanted bad r wc = if wanted && bad then illegal else done r wc

unfoldable pub read2 : Bool → ℕ → List ℕ → Decoded
read2 wanted c [] = partial
read2 wanted c (b ∷ _) =
    if not (is_tail b) then illegal else check wanted (ltb (code2 c b) 0x80) 2 (code2 c b)

unfoldable pub read3 : Bool → ℕ → List ℕ → Decoded
read3 wanted c (b1 ∷ b2 ∷ _) =
    let wc = code3 c b1 b2 in
    if not (is_tail b1) || not (is_tail b2)
    then illegal
    else check wanted (ltb wc 0x800 || (leb 0xD800 wc && leb wc 0xDFFF)) 3 wc
read3 wanted c _ = partial

unfoldable pub read4 : Bool → ℕ → List ℕ → Decoded
read4 wanted c (b1 ∷ b2 ∷ b3 ∷ _) =
    let wc = code4 c b1 b2 b3 in
    if not (is_tail b1) || not (is_tail b2) || not (is_tail b3)
    then illegal
    else check wanted (ltb wc 0x10000 || ltb 0x10FFFF wc) 4 wc
read4 wanted c _ = partial

-- s is not NULL; for NULL mbrtowc returns 0 and clears the state.
unfoldable pub mbrtowc : Bool → List ℕ → Decoded
unfolding read2 read3 read4
mbrtowc wanted [] = partial
mbrtowc wanted (c ∷ s) =
    if ltb c 0x80
    then done (if c == 0 then 0 else 1) c
    else if c / 32 == 6
    then read2 wanted c s
    else if c / 16 == 14
    then read3 wanted c s
    else if c / 8 == 30
    then read4 wanted c s
    else illegal

-- The bytes written, as many as the call returns; `none` is (size_t)-1 with EILSEQ. s is not NULL.
unfoldable pub wcrtomb : ℕ → Option (List ℕ)
wcrtomb wc =
    if ltb 0x10FFFF wc || (leb 0xD800 wc && leb wc 0xDFFF)
    then none
    else if ltb wc 0x80
    then some (wc ∷ [])
    else if ltb wc 0x800
    then some ((0xC0 + wc / 64) ∷ (0x80 + wc % 64) ∷ [])
    else if ltb wc 0x10000
    then some ((0xE0 + wc / 4096) ∷ (0x80 + wc / 64 % 64) ∷ (0x80 + wc % 64) ∷ [])
    else some (
        (0xF0 + wc / 262144)
        ∷ (0x80 + wc / 4096 % 64)
        ∷ (0x80 + wc / 64 % 64)
        ∷ (0x80 + wc % 64)
        ∷ [])

-- What mbrlen returns.
pub data Measured : Type 0 where
  bytes : ℕ → Measured
  cut_off malformed : Measured

unfoldable pub measure2 : ℕ → List ℕ → Measured
measure2 c [] = cut_off
measure2 c (b ∷ _) =
    if not (is_tail b) then malformed else if c / 2 % 16 == 0 then malformed else bytes 2

unfoldable pub measure3 : ℕ → List ℕ → Measured
measure3 c (b1 ∷ b2 ∷ _) =
    if not (is_tail b1) || not (is_tail b2)
    then malformed
    else if c == 0xE0 && b1 / 32 % 2 == 0
    then malformed
    else if c == 0xED && not (b1 / 32 % 2 == 0)
    then malformed
    else bytes 3
measure3 c _ = cut_off

unfoldable pub measure4 : ℕ → List ℕ → Measured
measure4 c (b1 ∷ b2 ∷ b3 ∷ _) =
    if not (is_tail b1) || not (is_tail b2) || not (is_tail b3)
    then malformed
    else if c == 0xF0 && b1 / 16 % 4 == 0
    then malformed
    else if ltb 0xF4 c || (c == 0xF4 && not (b1 / 16 % 4 == 0))
    then malformed
    else bytes 4
measure4 c _ = cut_off

unfoldable pub mbrlen : List ℕ → Measured
unfolding measure2 measure3 measure4
mbrlen [] = cut_off
mbrlen (c ∷ s) =
    if ltb c 0x80
    then bytes (if c == 0 then 0 else 1)
    else if c / 32 == 6
    then measure2 c s
    else if c / 16 == 14
    then measure3 c s
    else if c / 8 == 30
    then measure4 c s
    else malformed

-- What mbrtoc16 returns, stores and leaves pending. `paired` returns (size_t)-3.
pub data Unit16 : Type 0 where
  unit : ℕ → ℕ → ℕ → Unit16
  paired : ℕ → Unit16
  failed : Decoded → Unit16

-- `pending` is the low surrogate that is left of the call before, or 0; s is not NULL.
unfoldable pub mbrtoc16 : ℕ → List ℕ → Unit16
unfolding mbrtowc
mbrtoc16 pending s = if ltb 0 pending then paired pending else (elim (mbrtowc true s) [
  | done r wc ↦
      if wc == 0
      then unit 0 0 0
      else if leb 0x10000 wc
      then unit r (0xD7C0 + wc / 1024) (wc % 1024 + 0xDC00)
      else unit r wc 0
  | partial ↦ failed partial
  | illegal ↦ failed illegal
])

-- The bytes written and the high surrogate that is left; `none` is (size_t)-1. s is not NULL.
unfoldable pub c16rtomb : ℕ → ℕ → Option (List ℕ) × ℕ
unfolding wcrtomb
c16rtomb x c16 =
    if c16 == 0
    then (if not (x == 0) then (none, x) else (wcrtomb 0, x))
    else if not (x == 0)
    then (if ltb c16 0xDC00 || leb 0xE000 c16
        then (none, 0)
        else (wcrtomb (0x10000 + (x - 0xD800) * 1024 + (c16 - 0xDC00)), 0))
    else if leb 0xD800 c16 && ltb c16 0xDC00
    then (some [], c16)
    else if leb 0xDC00 c16 && ltb c16 0xE000
    then (none, x)
    else (wcrtomb c16, x)

-- mbrtoc32 asks for the character whether pc32 is NULL or not; s is not NULL.
unfoldable pub mbrtoc32 : List ℕ → Decoded
unfolding mbrtowc
mbrtoc32 s = mbrtowc true s

-- s is not NULL.
unfoldable pub c32rtomb : ℕ → Option (List ℕ)
unfolding wcrtomb
c32rtomb c32 = wcrtomb c32

-- The wrappers with a state of their own, which is never read.
unfoldable pub mbtowc : Bool → List ℕ → Decoded
unfolding mbrtowc
mbtowc wanted s = mbrtowc wanted s

unfoldable pub wctomb : ℕ → Option (List ℕ)
unfolding wcrtomb
wctomb wc = wcrtomb wc

unfoldable pub mblen : List ℕ → Decoded
unfolding mbtowc
mblen s = mbtowc false s
