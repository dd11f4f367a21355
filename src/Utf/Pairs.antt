-- ===== src/Utf/Pairs.antt =====
-- UTF-16: one unit or a pair of surrogates for each character, there and back.
use jaclibc.Base.{
  ℕ, ◌+◌, ◌-◌, ◌*◌, ◌/◌, ◌%◌, ◌<◌, ◌≡◌, ◌≢◌, ◌⊎◌, inl, inr, List, [], ◌++◌, some, length, arith,
  dec_lt, ap, ◌∙◌,
}
use jaclibc.Utf.{unit, paired, wcrtomb, mbrtoc16, c16rtomb}
use jaclibc.Utf.Trip.{IsScalar, mbrtowc-wcrtomb}

-- A character other than NUL in UTF-8 is read by mbrtoc16 as the one unit that c16rtomb writes as the
-- same bytes, or, from 0x10000 on, as a pair: the call gives the high surrogate, the next call gives
-- the low one whatever the input, and c16rtomb, called with the two, writes nothing and then
-- the bytes. No state is left behind.
pub c16rtomb-mbrtoc16 :
    (wc : ℕ) (more next : List ℕ)
    → IsScalar wc
    → wc ≢ 0
    → (s : List ℕ) × (wcrtomb wc ≡ some s)
      × (((wc < 0x10000)
            × (mbrtoc16 0 (s ++ more) ≡ unit (length s) wc 0)
            × (c16rtomb 0 wc ≡ (some s, 0)))
          ⊎ ((high : ℕ) × (low : ℕ) × (mbrtoc16 0 (s ++ more) ≡ unit (length s) high low)
              × (mbrtoc16 low next ≡ paired low)
              × (c16rtomb 0 high ≡ (some [], high))
              × (c16rtomb high low ≡ (some s, 0))))
unfolding mbrtoc16 c16rtomb
c16rtomb-mbrtoc16 wc more next valid some_char =
    let (s, written, short, back) = mbrtowc-wcrtomb wc more valid in
    elim (dec_lt wc 0x10000) [
      | yes small ↦ (s, written, inl (small, ground (arith, back), ground (arith, written)))
      | no large ↦
          let high = 0xD7C0 + wc / 1024 in
          let low = wc % 1024 + 0xDC00 in
          let same : 0x10000 + (high - 0xD800) * 1024 + (low - 0xDC00) ≡ wc = omega arith in
          (
            s,
            written,
            inr (
              high,
              low,
              ground (arith, back),
              ground arith,
              ground arith,
              ground (arith, ap wcrtomb same ∙ written),
            ),
          )
    ]
