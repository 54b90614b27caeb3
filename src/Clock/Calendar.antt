-- ===== src/Clock/Calendar.antt =====
-- services/time_service.py: leap years, months, and the calendar from seconds and back. That the arguments are
-- integers, and that those of a civil time are not negative, is their type.
use landy_heater.Prelude.{
  ℕ, zero, suc, ◌+◌, ◌-◌, ◌*◌, ◌/◌, ◌%◌, Bool, not, ◌&&◌, ◌||◌, List, [], ◌∷◌, leb, ltb, ◌==◌,
  in_range, if◌then◌else◌, Result, ok, err, value_error, ◌>>=◌, ◌>>◌, require,
}
use landy_heater.Prelude.Int.{ℤ, pos, negsuc}

abbrev pub minimum_year : ℕ
minimum_year = 2000

abbrev pub maximum_year : ℕ
maximum_year = 2099

abbrev pub seconds_per_day : ℕ
seconds_per_day = 86400

-- The days before each month of a year that is not a leap year.
abbrev pub days_before_month : List ℕ
days_before_month = 0 ∷ 31 ∷ 59 ∷ 90 ∷ 120 ∷ 151 ∷ 181 ∷ 212 ∷ 243 ∷ 273 ∷ 304 ∷ 334 ∷ []

-- `days[i]`, of an index within the list
abbrev pub nth : List ℕ → ℕ → ℕ
nth [] i = 0
nth (d ∷ rest) zero = d
nth (d ∷ rest) (suc i) = nth rest i

unfoldable pub is_leap_year : ℕ → Bool
is_leap_year year = (year % 4 == 0) && (not (year % 100 == 0) || (year % 400 == 0))

-- `_days_in_month`, by whether the year is a leap year
abbrev pub month_days : Bool → ℕ → ℕ
month_days leap month =
    if month == 2
    then (if leap then 29 else 28)
    else if (month == 4) || (month == 6) || (month == 9) || (month == 11)
    then 30
    else 31

unfoldable pub days_in_month : ℕ → ℕ → ℕ
days_in_month year month = month_days (is_leap_year year) month

abbrev pub year_days : ℕ → ℕ
year_days year = if is_leap_year year then 366 else 365

unfoldable pub validate_civil : ℕ → ℕ → ℕ → ℕ → ℕ → ℕ → Result (Unit {0})
unfolding days_in_month
validate_civil year month day hour minute second = do
  require (in_range minimum_year maximum_year year)
      (value_error "year must be between 2000 and 2099")
  require (in_range 1 12 month) (value_error "month must be between 1 and 12")
  require (in_range 1 (days_in_month year month) day) (value_error "day is invalid for month")
  require (leb hour 23) (value_error "hour must be between 0 and 23")
  require (leb minute 59) (value_error "minute must be between 0 and 59")
  require (leb second 59) (value_error "second must be between 0 and 59")

-- The days of so many years from a year on: the loop of `civil_to_utc_seconds`.
abbrev pub days_of_years : ℕ → ℕ → ℕ
days_of_years zero year = 0
days_of_years (suc count) year = year_days year + days_of_years count (year + 1)

abbrev pub leap_day : ℕ → ℕ → ℕ
leap_day year month = if ltb 2 month && is_leap_year year then 1 else 0

abbrev pub day_number : ℕ → ℕ → ℕ → ℕ
day_number year month day =
    days_of_years (year - minimum_year) minimum_year
    + nth days_before_month (month - 1)
    + leap_day year month
    + (day - 1)

unfoldable pub civil_to_utc_seconds : ℕ → ℕ → ℕ → ℕ → ℕ → ℕ → Result ℕ
unfolding validate_civil
civil_to_utc_seconds year month day hour minute second = do
  validate_civil year month day hour minute second
  ok (day_number year month day * seconds_per_day + hour * 3600 + minute * 60 + second)

pub record Civil : Type 0 where
  pub year : ℕ
  pub month : ℕ
  pub day : ℕ
  pub weekday : ℕ
  pub hour : ℕ
  pub minute : ℕ
  pub second : ℕ
  pub local_minute_id : ℕ
  pub fold : ℕ

-- The loop over the years, as many as there are left up to the last: the year, and the days into it.
unfoldable pub find_year : ℕ → ℕ → ℕ → Result (ℕ × ℕ)
find_year zero year days = err (value_error "time exceeds supported range")
find_year (suc left) year days =
    let later = find_year left (year + 1) (days - year_days year) in
    if ltb days (year_days year) then ok (year, days) else later

-- The loop over the months, on fuel. A year's days are spent in twelve.
unfoldable pub find_month : ℕ → Bool → ℕ → ℕ → ℕ × ℕ
find_month zero leap month days = (month, days)
find_month (suc fuel) leap month days =
    let later = find_month fuel leap (month + 1) (days - month_days leap month) in
    if ltb days (month_days leap month) then (month, days) else later

abbrev pub civil_of : ℕ → ℕ × ℕ → ℕ × ℕ → Civil
civil_of total (year, year_day) (month, month_day) = record {
  year = year;
  month = month;
  day = month_day + 1;
  weekday = (total / seconds_per_day + 5) % 7;
  hour = total % seconds_per_day / 3600;
  minute = total % seconds_per_day % 3600 / 60;
  second = total % seconds_per_day % 3600 % 60;
  local_minute_id = total / 60;
  fold = 0;
}

unfoldable pub seconds_to_civil : ℤ → Result Civil
unfolding find_year find_month is_leap_year
seconds_to_civil (negsuc n) = err (value_error "time precedes supported range")
seconds_to_civil (pos total) = do
  found ← find_year (maximum_year + 1 - minimum_year) minimum_year (total / seconds_per_day)
  ok (civil_of total found (find_month 12 (is_leap_year found.0) 1 found.1))
