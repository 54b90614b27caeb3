-- ===== src/Clock/RoundTrip.antt =====
-- services/time_service.py: the civil time of a second is that second's.
use landy_heater.Prelude.{
  ℕ, ◌+◌, ◌-◌, ◌*◌, ◌/◌, ◌%◌, ◌≤◌, ◌<◌, ◌≡◌, refl, sym, ap, Bool, true, ◌&&◌, leb, ltb, in_range,
  if◌then◌else◌, ok, ok-eq, >>=-ok, require, Error, value_error, leb→le, ◌>>◌, arith,
}
use landy_heater.Prelude.Int.{pos}
use landy_heater.Clock.Calendar.{
  minimum_year, maximum_year, seconds_per_day, days_before_month, nth, is_leap_year, month_days,
  days_in_month, year_days, days_of_years, leap_day, day_number, validate_civil,
  civil_to_utc_seconds, Civil, find_year, find_month, civil_of, seconds_to_civil,
}
use landy_heater.Clock.Months.{
  find_month-IsListed, IsListed, find_year-PassedYears, find_year-found, find_month-found,
  days_of_months, days_of_months-listed, days_of_months-fits,
}

in_range_of : (lo hi x : ℕ) → lo ≤ x → x ≤ hi → in_range lo hi x ≡ true
in_range_of lo hi x h k = ground arith

leb_of : (x hi : ℕ) → x ≤ hi → leb x hi ≡ true
leb_of x hi h = ground arith

split_seconds :
    (total : ℕ)
    → total / seconds_per_day * seconds_per_day
        + total % seconds_per_day / 3600 * 3600
        + total % seconds_per_day % 3600 / 60 * 60
        + total % seconds_per_day % 3600 % 60
      ≡ total
split_seconds total = omega arith

-- What `civil_to_utc_seconds` says of a day and a time of the day.
abbrev Names : ℕ → ℕ × ℕ → ℕ × ℕ → Type 0
Names total (year, year_day) (month, day) =
    civil_to_utc_seconds year month (day + 1) (total % seconds_per_day / 3600)
      (total % seconds_per_day % 3600 / 60) (total % seconds_per_day % 3600 % 60)
    ≡ ok total

day_number_found :
    (year year_day month day count : ℕ)
    → year ≡ 2000 + count
    → nth days_before_month (month - 1) + leap_day year month + day ≡ year_day
    → day_number year month (day + 1) ≡ days_of_years count 2000 + year_day
day_number_found year year_day month day count at listed = rw (passed) (omega (arith, listed))
  where
    passed : year - 2000 ≡ count
    passed = omega (arith, at)

named_by :
    (total year year_day month day count : ℕ)
    → year ≡ 2000 + count
    → count < 100
    → days_of_years count 2000 + year_day ≡ total / seconds_per_day
    → IsListed (is_leap_year year) year_day (month, day)
    → Names total (year, year_day) (month, day)
unfolding civil_to_utc_seconds validate_civil days_in_month
named_by total year year_day month day count at bound sum (first, last, within, listed) =
    rw
      (
        in_range_of 2000 2099 year (omega arith) (omega arith),
        in_range_of 1 12 month first last,
        in_range_of 1 (month_days (is_leap_year year) month) (day + 1) (omega arith) (omega arith),
        leb_of (total % 86400 / 3600) 23 (omega arith),
        leb_of (total % 86400 % 3600 / 60) 59 (omega arith),
        leb_of (total % 86400 % 3600 % 60) 59 (omega arith),
      )
      (ap ok
        (rw (day_number_found year year_day month day count at listed, sum) (split_seconds total)))

-- The civil time that `seconds_to_civil` gives for a second is a valid one, and
-- `civil_to_utc_seconds` gives that second for it.
pub civil_to_utc_seconds-seconds_to_civil :
    (total : ℕ) (c : Civil)
    → seconds_to_civil (pos total) ≡ ok c
    → civil_to_utc_seconds c.year c.month c.day c.hour c.minute c.second ≡ ok total
unfolding seconds_to_civil
civil_to_utc_seconds-seconds_to_civil total c e =
    let (found, named, searched) =
      >>=-ok (find_year (maximum_year + 1 - minimum_year) minimum_year (total / seconds_per_day)) _
        c e in
    let (count, at, bound, sum, within) = find_year-PassedYears _ _ _ found searched in
    rw (sym (ok-eq named)) (
      named_by total found.0 found.1 _ _ count at bound sum
        (find_month-IsListed (is_leap_year found.0) found.1 within))

-- The day of a valid civil time, by the months and the days before it.
found_again :
    (year month day : ℕ)
    → 2000 ≤ year
    → year ≤ 2099
    → 1 ≤ month
    → month ≤ 12
    → 1 ≤ day
    → day ≤ month_days (is_leap_year year) month
    → (year_day : ℕ) × (find_year 100 2000 (day_number year month day) ≡ ok (year, year_day))
      × (find_month 12 (is_leap_year year) 1 year_day ≡ (month, day - 1))
found_again year month day y0 y1 m0 m1 d0 d1 =
    let leap = is_leap_year year in
    let year_day = days_of_months leap (month - 1) 1 + (day - 1) in
    (
      year_day,
      rw (number) (
          rw (same_year) at (
            find_year-found 100 2000 (year - 2000) year_day (omega arith) (rw (same_year) within))),
      rw (same_month) at (
          find_month-found 12 leap 1 (month - 1) (day - 1) (omega arith)
            (rw (same_month) (omega arith))),
    )
  where
    same_year : 2000 + (year - 2000) ≡ year
    same_year = omega (arith, y0)

    same_month : 1 + (month - 1) ≡ month
    same_month = omega (arith, m0)

    listed :
        days_of_months (is_leap_year year) (month - 1) 1
        ≡ nth days_before_month (month - 1) + (if ltb 2 month && is_leap_year year then 1 else 0)
    listed =
        rw (same_month) at
          (days_of_months-listed (is_leap_year year) (month - 1) (omega (arith, m0, m1)))

    within : days_of_months (is_leap_year year) (month - 1) 1 + (day - 1) < year_days year
    within = omega (
      arith,
      d0,
      d1,
      rw (same_month) at
          (days_of_months-fits (is_leap_year year) (month - 1) (omega (arith, m0, m1))),
    )

    number :
        day_number year month day
        ≡ days_of_years (year - 2000) 2000
          + (days_of_months (is_leap_year year) (month - 1) 1 + (day - 1))
    number = omega (arith, listed)

-- Six checks that let a value through have passed it.
all_passed :
    (a b c d f g : Bool) (x1 x2 x3 x4 x5 x6 : Error) (v t : ℕ)
    → ((require a x1
          >> (require b x2 >> (require c x3 >> (require d x4 >> (require f x5 >> require g x6)))))
        >> ok v)
      ≡ ok t
    → (a ≡ true) × (b ≡ true) × (c ≡ true) × (d ≡ true) × (f ≡ true) × (g ≡ true) × (v ≡ t)
all_passed true true true true true true x1 x2 x3 x4 x5 x6 v t e =
    (refl, refl, refl, refl, refl, refl, ok-eq e)
all_passed a b c d f g x1 x2 x3 x4 x5 x6 v t e = cc

-- A second of a day, in its parts.
parts :
    (total days hour minute second : ℕ)
    → hour ≤ 23
    → minute ≤ 59
    → second ≤ 59
    → days * 86400 + hour * 3600 + minute * 60 + second ≡ total
    → (total / 86400 ≡ days)
      × (total % 86400 / 3600 ≡ hour)
      × (total % 86400 % 3600 / 60 ≡ minute)
      × (total % 86400 % 3600 % 60 ≡ second)
parts total days hour minute second h m s e = (omega arith, omega arith, omega arith, omega arith)

in_range-low : (lo hi x : ℕ) → in_range lo hi x ≡ true → lo ≤ x
in_range-low lo hi x h = ground arith

in_range-high : (lo hi x : ℕ) → in_range lo hi x ≡ true → x ≤ hi
in_range-high lo hi x h = ground arith

-- The civil time that is found for the second of a valid one.
civil_again :
    (year month day hour minute second total : ℕ)
    → (2000 ≤ year)
      × (year ≤ 2099)
      × (1 ≤ month)
      × (month ≤ 12)
      × (1 ≤ day)
      × (day ≤ month_days (is_leap_year year) month)
    → hour ≤ 23
    → minute ≤ 59
    → second ≤ 59
    → day_number year month day * 86400 + hour * 3600 + minute * 60 + second ≡ total
    → (c : Civil) × (seconds_to_civil (pos total) ≡ ok c)
      × (c.year ≡ year)
      × (c.month ≡ month)
      × (c.day ≡ day)
      × (c.hour ≡ hour)
      × (c.minute ≡ minute)
      × (c.second ≡ second)
unfolding seconds_to_civil
civil_again year month day hour minute second total (y0, y1, m0, m1, d0, d1) h m s number =
    let (days, hours, minutes, seconds) =
      parts total (day_number year month day) hour minute second h m s number in
    let (year_day, found, in_month) = found_again year month day y0 y1 m0 m1 d0 d1 in
    (
      civil_of total (year, year_day) (month, day - 1),
      rw (days, found, in_month) refl,
      refl,
      refl,
      omega (arith, d0),
      hours,
      minutes,
      seconds,
    )

-- A civil time that is accepted is the civil time of its second.
pub seconds_to_civil-civil_to_utc_seconds :
    (year month day hour minute second total : ℕ)
    → civil_to_utc_seconds year month day hour minute second ≡ ok total
    → (c : Civil) × (seconds_to_civil (pos total) ≡ ok c)
      × (c.year ≡ year)
      × (c.month ≡ month)
      × (c.day ≡ day)
      × (c.hour ≡ hour)
      × (c.minute ≡ minute)
      × (c.second ≡ second)
unfolding civil_to_utc_seconds validate_civil days_in_month
seconds_to_civil-civil_to_utc_seconds year month day hour minute second total e =
    let (y, m, d, h, mi, s, number) =
      all_passed (in_range 2000 2099 year) (in_range 1 12 month)
        (in_range 1 (month_days (is_leap_year year) month) day) (leb hour 23) (leb minute 59)
        (leb second 59) (value_error "year must be between 2000 and 2099")
        (value_error "month must be between 1 and 12") (value_error "day is invalid for month")
        (value_error "hour must be between 0 and 23")
        (value_error "minute must be between 0 and 59")
        (value_error "second must be between 0 and 59")
        (day_number year month day * 86400 + hour * 3600 + minute * 60 + second) total e in
    civil_again year month day hour minute second total
      (
        in_range-low 2000 2099 year y,
        in_range-high 2000 2099 year y,
        in_range-low 1 12 month m,
        in_range-high 1 12 month m,
        in_range-low 1 _ day d,
        in_range-high 1 _ day d,
      )
      (leb→le hour 23 h) (leb→le minute 59 mi) (leb→le second 59 s) number
