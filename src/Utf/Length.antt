-- ===== src/Utf/Length.antt =====
-- mbrlen against mbrtowc.
use jaclibc.Base.{ℕ, ◌<◌, ◌≡◌, true, List, [], ◌∷◌, arith, ◌/◌, refl}
use jaclibc.Utf.{
  Decoded, done, partial, illegal, Measured, bytes, cut_off, malformed, mbrtowc, read2, read3,
  read4, mbrlen, measure2, measure3, measure4,
}

abbrev pub AreBytes : List ℕ → Type 0
AreBytes [] = Unit
AreBytes (b ∷ s) = (b < 256) × AreBytes s

-- What the return value of mbrtowc says of the length.
abbrev pub length_of : Decoded → Measured
length_of (done r wc) = bytes r
length_of partial = cut_off
length_of illegal = malformed

measure2_lem :
    (c : ℕ) (s : List ℕ)
    → c < 256
    → c / 32 ≡ 6
    → AreBytes s
    → measure2 c s ≡ length_of (read2 true c s)
unfolding measure2 read2
measure2_lem c [] lt e h = refl
measure2_lem c (b ∷ s) lt e h = ground arith

measure3_lem :
    (c : ℕ) (s : List ℕ)
    → c < 256
    → c / 16 ≡ 14
    → AreBytes s
    → measure3 c s ≡ length_of (read3 true c s)
unfolding measure3 read3
measure3_lem c [] lt e h = refl
measure3_lem c (b ∷ []) lt e h = refl
measure3_lem c (b1 ∷ b2 ∷ s) lt e h = ground arith

measure4_lem :
    (c : ℕ) (s : List ℕ)
    → c < 256
    → c / 8 ≡ 30
    → AreBytes s
    → measure4 c s ≡ length_of (read4 true c s)
unfolding measure4 read4
measure4_lem c [] lt e h = refl
measure4_lem c (b ∷ []) lt e h = refl
measure4_lem c (b1 ∷ b2 ∷ []) lt e h = refl
measure4_lem c (b1 ∷ b2 ∷ b3 ∷ s) lt e h = ground arith

-- On bytes, mbrlen returns what mbrtowc returns with a place to store the character, though it
-- tells the malformed sequences by other tests.
pub mbrlen-mbrtowc : (s : List ℕ) → AreBytes s → mbrlen s ≡ length_of (mbrtowc true s)
unfolding mbrlen mbrtowc
mbrlen-mbrtowc [] h = refl
mbrlen-mbrtowc (c ∷ s) h =
    ground (arith, h.0, h.1, measure2_lem c s h.0, measure3_lem c s h.0, measure4_lem c s h.0)
