-- ===== src/Calendar/Trip.antt =====
-- A time taken apart by gmtime and put together by mktime.
use jaclibc.Base.{
  ℕ, zero, suc, ◌+◌, ◌-◌, ◌*◌, ◌/◌, ◌%◌, ◌^◌, ◌≤◌, ◌<◌, ◌≡◌, pos, some, Bool-cases, false, ◌==◌,
  inl, inr, ltb, arith, refl, ap, ◌∙◌, subst,
}
use jaclibc.Calendar.{
  int_max, Tm, is_leap_year, days_in_month, days_in_year, sum_years, sum_months, mktime, find_year,
  find_month, date_of, gmtime,
}

days_in_year_long : (n : ℕ) → 365 ≤ days_in_year n
unfolding days_in_year
days_in_year_long n = ground arith

find_year_lem :
    (f days y acc : ℕ)
    → days < f
    → 365 * y + days < 365 * 2 ^ 31
    → (k : ℕ) × (rest : ℕ) × (find_year f days y ≡ some (rest, y + k))
      × (rest < days_in_year (y + k))
      × (y + k < 2 ^ 31)
      × (sum_years k y acc + rest ≡ acc + days)
unfolding find_year sum_years
find_year_lem zero days y acc lt top = absurd (omega arith)
find_year_lem (suc f) days y acc lt top = elim (Bool-cases (ltb days (days_in_year y))) [
  | inl here ↦
      let same : y + 0 ≡ y = omega arith in
      (0, days, rw (here, same) refl, rw same (ground arith), omega arith, refl)
  | inr later ↦
      let some_days : 365 ≤ days_in_year y = days_in_year_long y in
      let enough : days_in_year y ≤ days = ground arith in
      let not_last : (y == int_max) ≡ false = ground (arith, top, some_days, enough) in
      let (k, rest, run, less, last, sum) =
        find_year_lem f (days - days_in_year y) (y + 1) (acc + days_in_year y) (omega arith)
          (omega (arith, top, some_days, enough)) in
      let same : y + 1 + k ≡ y + suc k = omega arith in
      (
        suc k,
        rest,
        rw (later, not_last) (run ∙ ap (λ (n : ℕ). some (rest, n)) same),
        subst (λ (n : ℕ). rest < days_in_year n) same less,
        omega arith,
        sum ∙ omega arith,
      )
]

-- The sum of the months is counted from where it starts.
sum_months-start :
    (left m year acc : ℕ) → sum_months left m year acc ≡ acc + sum_months left m year 0
unfolding sum_months
sum_months-start zero m year acc = omega arith
sum_months-start (suc left) m year acc =
    sum_months-start left (m + 1) year (acc + days_in_month m year)
    ∙ omega (arith, sum_months-start left (m + 1) year (0 + days_in_month m year))

find_month_lem :
    (left days m year acc : ℕ)
    → m + left ≡ 12
    → days < sum_months left m year 0
    → (k : ℕ) × (rest : ℕ) × (find_month left days m year ≡ (rest, m + k))
      × (m + k < 12)
      × (rest < days_in_month (m + k) year)
      × (sum_months k m year acc + rest ≡ acc + days)
unfolding find_month sum_months
find_month_lem zero days m year acc e lt = absurd (omega arith)
find_month_lem (suc left) days m year acc e lt =
    elim (Bool-cases (ltb days (days_in_month m year))) [
      | inl here ↦
          let same : m + 0 ≡ m = omega arith in
          (0, days, rw (here, same) refl, omega arith, rw same (ground arith), refl)
      | inr later ↦
          let enough : days_in_month m year ≤ days = ground arith in
          let more : sum_months (suc left) m year 0
              ≡ days_in_month m year + sum_months left (m + 1) year 0 =
            sum_months-start left (m + 1) year (0 + days_in_month m year) ∙ omega arith in
          let (k, rest, run, in_year, less, sum) =
            find_month_lem left (days - days_in_month m year) (m + 1) year
              (acc + days_in_month m year) (omega arith) (omega arith) in
          let same : m + 1 + k ≡ m + suc k = omega arith in
          (
            suc k,
            rest,
            rw later (run ∙ ap (λ (n : ℕ). (rest, n)) same),
            omega arith,
            subst (λ (n : ℕ). rest < days_in_month n year) same less,
            sum ∙ omega arith,
          )
    ]

twelve_months : (year : ℕ) → sum_months 12 0 year 0 ≡ days_in_year year
unfolding sum_months days_in_month days_in_year
twelve_months year = elim (Bool-cases (is_leap_year year)) [
  | inl leap ↦ rw leap refl
  | inr common ↦ rw common refl
]

days_in_month_short : (m year : ℕ) → m < 12 → days_in_month m year ≤ 31
unfolding days_in_month
days_in_month_short m year lt = ground arith

-- The fields are in their ranges, which for the day is that of the month.
pub record IsDate (t : Tm) : Type 0 where
  pub sec_in : t.sec < 60
  pub minute_in : t.minute < 60
  pub hour_in : t.hour < 24
  pub mday_in : (1 ≤ t.mday) × (t.mday ≤ days_in_month t.mon t.year)
  pub mon_in : t.mon < 12
  pub year_in : 1970 ≤ t.year
  pub wday_in : t.wday < 7
  pub yday_in : t.yday < days_in_year t.year

tm_of : ℕ → ℕ → ℕ → ℕ → ℕ → ℕ → Tm
tm_of days rem d mday mon year = record {
  sec = rem % 3600 % 60;
  minute = rem % 3600 / 60;
  hour = rem / 3600;
  mday = mday;
  mon = mon;
  year = year;
  wday = (days + 4) % 7;
  yday = d;
  isdst = 0;
}

mktime_of :
    (days rem d mday mon year : ℕ)
    → 1970 ≤ year
    → mon < 12
    → 1 ≤ mday
    → mday ≤ 31
    → sum_months mon 0 year (sum_years (year - 1970) 1970 0) + (mday - 1) ≡ days
    → sum_months mon 0 year 0 + (mday - 1) ≡ d
    → mktime (tm_of days rem d mday mon year) ≡ (
      some (days * 86400 + rem / 3600 * 3600 + rem % 3600 / 60 * 60 + rem % 3600 % 60),
      tm_of days rem d mday mon year,
    )
unfolding mktime tm_of
mktime_of days rem d mday mon year in_year in_mon lo hi total within = ground (arith, total, within)

-- For a time that is not negative, of less than 2 ^ 31 - 1970 years of 365 days, gmtime gives a date with
-- every field in its range and a year that is an int, from which mktime makes the time again and changes no
-- field.
pub mktime-gmtime :
    (t : ℕ)
    → t < (2 ^ 31 - 1970) * 365 * 86400
    → (tm : Tm) × (gmtime (pos t) ≡ some (some tm))
      × (mktime tm ≡ (some t, tm))
      × IsDate tm
      × (tm.year ≤ int_max)
unfolding gmtime date_of tm_of
mktime-gmtime t short_time =
    let days = t / 86400 in
    let rem = t % 86400 in
    let (k, d, run, less, last, sum) =
      find_year_lem (suc days) days 1970 0 (omega arith) (omega arith) in
    let year = 1970 + k in
    let back : year - 1970 ≡ k = omega arith in
    let fits : d < sum_months 12 0 year 0 = omega (arith, less, twelve_months year) in
    let (mon, r, run', in_year, less', sum') =
      find_month_lem 12 d 0 year (sum_years (year - 1970) 1970 0) (omega arith) fits in
    let short = days_in_month_short (0 + mon) year in_year in
    let start = sum_months-start mon 0 year (sum_years (year - 1970) 1970 0) in
    let years : sum_years (year - 1970) 1970 0 ≡ sum_years k 1970 0 =
      ap (λ (n : ℕ). sum_years n 1970 0) back in
    let zero_mon : 0 + mon ≡ mon = omega arith in
    let less_mon : r < days_in_month mon year =
      subst (λ (n : ℕ). r < days_in_month n year) zero_mon less' in
    let short_mon = days_in_month_short mon year (omega arith) in
    (
      tm_of days rem d (r + 1) mon year,
      rw (run, run') (ap (λ (n : ℕ). some (some (tm_of days rem d (r + 1) n year))) zero_mon),
      mktime_of days rem d (r + 1) mon year (omega arith) (omega arith) (omega arith) (omega arith)
            (omega arith) (omega arith)
          ∙ ap (λ (n : ℕ). (some n, tm_of days rem d (r + 1) mon year)) (omega arith),
      record {
        sec_in = omega arith;
        minute_in = omega arith;
        hour_in = omega arith;
        mday_in = omega (arith, less_mon);
        mon_in = omega arith;
        year_in = omega arith;
        wday_in = omega arith;
        yday_in = less;
      },
      omega arith,
    )
