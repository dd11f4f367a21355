-- ===== src/Calendar.antt =====
-- include/time.h: mktime, timegm, gmtime and localtime, which know no time zone. The fields of a
-- `tm` are not negative and below 2 ^ 31; `year` is tm_year + 1900, which is below 2 ^ 31 in an argument of
-- mktime. An `int year` that gmtime would count past 2 ^ 31 - 1 has no result here. time_t and long have 64
-- bits and do not overflow.
pub mod Trip
use jaclibc.Base.{
  ℕ, zero, suc, ◌+◌, ◌-◌, ◌*◌, ◌/◌, ◌%◌, ◌^◌, Bool, not, ◌&&◌, ◌||◌, ◌==◌, ltb, if◌then◌else◌, ℤ,
  pos, negsuc, Option, none, some, List, [], ◌∷◌, get_or, ◌>>=◌,
}

pub record Tm : Type 0 where
  pub sec : ℕ
  pub minute : ℕ
  pub hour : ℕ
  pub mday : ℕ
  pub mon : ℕ
  pub year : ℕ
  pub wday : ℕ
  pub yday : ℕ
  pub isdst : ℕ

unfoldable pub is_leap_year : ℕ → Bool
is_leap_year year = (year % 4 == 0 && not (year % 100 == 0)) || year % 400 == 0

abbrev pub month_lengths : List ℕ
month_lengths = 31 ∷ 28 ∷ 31 ∷ 30 ∷ 31 ∷ 30 ∷ 31 ∷ 31 ∷ 30 ∷ 31 ∷ 30 ∷ 31 ∷ []

unfoldable pub days_in_month : ℕ → ℕ → ℕ
unfolding is_leap_year
days_in_month month year =
    if month == 1 && is_leap_year year then 29 else get_or month_lengths month 0

unfoldable pub days_in_year : ℕ → ℕ
unfolding is_leap_year
days_in_year year = if is_leap_year year then 366 else 365

-- for (y = 1970; y < year; y++) days += ...; `left` is year - y.
unfoldable pub sum_years : ℕ → ℕ → ℕ → ℕ
unfolding days_in_year
sum_years zero y days = days
sum_years (suc left) y days = sum_years left (y + 1) (days + days_in_year y)

-- for (m = 0; m < month; m++) days += ...; `left` is month - m.
unfoldable pub sum_months : ℕ → ℕ → ℕ → ℕ → ℕ
unfolding days_in_month
sum_months zero m year days = days
sum_months (suc left) m year days = sum_months left (m + 1) year (days + days_in_month m year)

-- `none` is (time_t)-1; t is not NULL.
unfoldable pub mktime : Tm → Option ℕ × Tm
unfolding sum_years sum_months
mktime t =
    let days = sum_months t.mon 0 t.year (sum_years (t.year - 1970) 1970 0) + (t.mday - 1) in
    if ltb t.year 1970 || ltb 11 t.mon || ltb t.mday 1 || ltb 31 t.mday then (none, t) else (
      some (days * 86400 + t.hour * 3600 + t.minute * 60 + t.sec),
      record t {
        wday = (days + 4) % 7;
        yday = sum_months t.mon 0 t.year 0 + (t.mday - 1);
        isdst = 0;
      },
    )

unfoldable pub timegm : Tm → Option ℕ × Tm
unfolding mktime
timegm = mktime

abbrev pub int_max : ℕ
int_max = 2 ^ 31 - 1

-- while (1) { ... }: the days that are left and the year. `none` means that the fuel ran out, or that
-- year++ overflows an int.
unfoldable pub find_year : ℕ → ℕ → ℕ → Option (ℕ × ℕ)
unfolding days_in_year
find_year zero days year = none
find_year (suc f) days year =
    let rest = find_year f (days - days_in_year year) (year + 1) in
    if ltb days (days_in_year year)
    then some (days, year)
    else if year == int_max
    then none
    else rest

-- while (month < 12) { ... }: the days that are left and the month; `left` is 12 - month.
unfoldable pub find_month : ℕ → ℕ → ℕ → ℕ → ℕ × ℕ
unfolding days_in_month
find_month zero days month year = (days, month)
find_month (suc left) days month year =
    let rest = find_month left (days - days_in_month month year) (month + 1) year in
    if ltb days (days_in_month month year) then (days, month) else rest

-- From the days and the seconds of the day on.
unfoldable pub date_of : ℕ → ℕ → Option Tm
unfolding find_year find_month
date_of days rem = find_year (suc days) days 1970 >>= λ y.
    let m = find_month 12 y.0 0 y.1 in
    some (record {
      sec = rem % 3600 % 60;
      minute = rem % 3600 / 60;
      hour = rem / 3600;
      mday = m.0 + 1;
      mon = m.1;
      year = y.1;
      wday = (days + 4) % 7;
      yday = y.0;
      isdst = 0;
    })

-- The outer `none` means that the fuel ran out or the year overflows, the inner one is NULL. timer is not NULL.
unfoldable pub gmtime : ℤ → Option (Option Tm)
unfolding date_of
gmtime (negsuc t) = some none
gmtime (pos t) = date_of (t / 86400) (t % 86400) >>= λ r. some (some r)

unfoldable pub localtime : ℤ → Option (Option Tm)
unfolding gmtime
localtime = gmtime
