-- ===== src/Tests/Texts.antt =====
-- Runs of the conversions of include/wchar.h and include/uchar.h, and of the calendar of include/time.h.
use jaclibc.Base.{
  ℕ, ◌+◌, refl, ◌≤◌, ◌<◌, ◌≡◌, ◌⊎◌, inl, inr, some, none, true, List, [], ◌∷◌, ◌++◌, length, arith,
  pos,
}
use jaclibc.Utf.{done, mbrtowc, wcrtomb, mbrlen, mbrtoc16, c16rtomb, unit, paired}
use jaclibc.Utf.Trip.{mbrtowc-wcrtomb}
use jaclibc.Utf.Length.{length_of, mbrlen-mbrtowc}
use jaclibc.Utf.Pairs.{c16rtomb-mbrtoc16}
use jaclibc.Convert.{mbsrtowcs, wcsrtombs, wcstombs, mbstowcs, mbsnrtowcs}
use jaclibc.Convert.Trip.{mbsrtowcs-wcsrtombs}
use jaclibc.Convert.Room.{wcsrtombs_room}
use jaclibc.Calendar.{Tm, gmtime, mktime}
use jaclibc.Calendar.Trip.{IsDate, mktime-gmtime}

-- The euro sign, with a letter behind it.
mbrtowc-wcrtomb_example :
    (s : List ℕ) × (wcrtomb 0x20AC ≡ some s)
    × (length s ≤ 4)
    × (mbrtowc true (s ++ 97 ∷ []) ≡ done (length s) 0x20AC)
mbrtowc-wcrtomb_example = mbrtowc-wcrtomb 0x20AC (97 ∷ []) (inl (omega arith))

mbrlen-mbrtowc_example :
    mbrlen (226 ∷ 130 ∷ 172 ∷ []) ≡ length_of (mbrtowc true (226 ∷ 130 ∷ 172 ∷ []))
mbrlen-mbrtowc_example =
    mbrlen-mbrtowc (226 ∷ 130 ∷ 172 ∷ []) (omega arith, (omega arith, (omega arith, tt)))

-- A character beyond the first plane.
c16rtomb-mbrtoc16_run :
    (s : List ℕ) × (wcrtomb 0x1F600 ≡ some s)
    × (((0x1F600 < 0x10000)
          × (mbrtoc16 0 (s ++ []) ≡ unit (length s) 0x1F600 0)
          × (c16rtomb 0 0x1F600 ≡ (some s, 0)))
        ⊎ ((high : ℕ) × (low : ℕ) × (mbrtoc16 0 (s ++ []) ≡ unit (length s) high low)
            × (mbrtoc16 low (97 ∷ []) ≡ paired low)
            × (c16rtomb 0 high ≡ (some [], high))
            × (c16rtomb high low ≡ (some s, 0))))
c16rtomb-mbrtoc16_run =
    c16rtomb-mbrtoc16 0x1F600 [] (97 ∷ []) (inr (omega arith, omega arith)) (omega arith)

mktime-gmtime_example :
    (tm : Tm) × (gmtime (pos 1709210096) ≡ some (some tm))
    × (mktime tm ≡ (some 1709210096, tm))
    × IsDate tm
    × (tm.year ≤ 2147483647)
mktime-gmtime_example = mktime-gmtime 1709210096 (omega arith)

-- The letter a and the euro sign.
mbsrtowcs-wcsrtombs_example :
    (s : List ℕ) × (wcsrtombs true (97 ∷ 0x20AC ∷ []) (length s + 1)
      ≡ record { count = some (length s); stored = s ++ 0 ∷ []; source = none })
    × (mbsrtowcs true s 3
        ≡ some (record { count = some 2; stored = 97 ∷ 0x20AC ∷ 0 ∷ []; source = none }))
mbsrtowcs-wcsrtombs_example =
    mbsrtowcs-wcsrtombs (97 ∷ 0x20AC ∷ []) 3
      (inl (omega arith), omega arith, (inl (omega arith), omega arith, tt)) (omega arith)

wcsrtombs_room_run :
    (let c = wcsrtombs true (97 ∷ 0x20AC ∷ []) 2 in
      (length c.stored ≤ 2)
      × ((n : ℕ) → c.count ≡ some n → (n ≤ length c.stored) × (length c.stored ≤ n + 1)))
    × (let (count, stored) = wcstombs true (97 ∷ 0x20AC ∷ []) 2 in
        (length stored ≤ 2) × ((n : ℕ) → count ≡ some n → length stored ≡ n))
wcsrtombs_room_run = wcsrtombs_room (97 ∷ 0x20AC ∷ []) 2

-- With a place left, mbstowcs stores no NUL.
mbstowcs_no_nul : mbstowcs true (97 ∷ []) 2 ≡ some (some 1, 97 ∷ [])
unfolding mbstowcs jaclibc.Utf.mbtowc
mbstowcs_no_nul = refl

-- At its limit, in the middle of the string, mbsnrtowcs stores a NUL and gives the place.
mbsnrtowcs_limit :
    mbsnrtowcs true (97 ∷ 98 ∷ []) 1 5
    ≡ some (record { count = some 1; stored = 97 ∷ 0 ∷ []; source = some (98 ∷ []) })
unfolding mbsnrtowcs jaclibc.Utf.mbrtowc
mbsnrtowcs_limit = refl
