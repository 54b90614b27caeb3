-- ===== src/Clock/Months.antt =====
-- services/time_service.py: the loops over the years and the months, against sums of days.
use landy_heater.Prelude.{
  ℕ, zero, suc, ◌+◌, ◌-◌, ◌≤◌, ◌<◌, ◌≡◌, ◌⊎◌, inl, inr, refl, sym, Bool, true, false, ◌&&◌, leb,
  ltb, ◌==◌, if◌then◌else◌, ok, ok-eq, arith, Bool-cases, ==_iff, ltb→lt, lt→ltb, leb→le,
}
use landy_heater.Clock.Calendar.{
  days_before_month, nth, month_days, year_days, days_of_years, find_year, find_month,
}

abbrev pub days_of_months : Bool → ℕ → ℕ → ℕ
days_of_months leap zero month = 0
days_of_months leap (suc count) month =
    month_days leap month + days_of_months leap count (month + 1)

ltb-false : (a b : ℕ) → ltb a b ≡ false → b ≤ a
ltb-false a b h = ground arith

-- So many months were passed, and their days; the loop ended within the month or without fuel.
abbrev Passed : ℕ → Bool → ℕ → ℕ → ℕ × ℕ → Type 0
Passed fuel leap month days found =
    (count : ℕ) × (found.0 ≡ month + count)
    × (count ≤ fuel)
    × (days_of_months leap count month + found.1 ≡ days)
    × ((count ≡ fuel) ⊎ (found.1 < month_days leap found.0))

find_month-Passed :
    (fuel : ℕ) (leap : Bool) (month days : ℕ)
    → Passed fuel leap month days (find_month fuel leap month days)
unfolding find_month
find_month-Passed zero leap month days = (0, omega arith, omega arith, omega arith, inl refl)
find_month-Passed (suc fuel) leap month days =
    elim (Bool-cases (ltb days (month_days leap month))) [
      | inl here ↦ rw (here) ((0, omega arith, omega arith, omega arith, inr (ground arith)))
      | inr later ↦ rw (later) (
          let (count, at, bound, sum, end) =
            find_month-Passed fuel leap (month + 1) (days - month_days leap month) in
          (
            suc count,
            omega arith,
            omega arith,
            omega (arith, sum, ltb-false _ _ later),
            elim end [ inl out ↦ inl (omega arith) | inr within ↦ inr within ],
          ))
    ]

-- What a test finds of all numbers below a bound.
abbrev all_below : ℕ → (ℕ → Bool) → Bool
all_below zero p = true
all_below (suc n) p = p n && all_below n p

all_below-at : (n : ℕ) (p : ℕ → Bool) (i : ℕ) → all_below n p ≡ true → i < n → p i ≡ true
all_below-at zero p i h k = ground arith
all_below-at (suc n) p i h k = elim (Bool-cases (i == n)) [
  | inl last ↦ rw ((==_iff i n).0 last) (ground arith)
  | inr before ↦ all_below-at n p i (ground arith) (ground arith)
]

abbrev as_listed : Bool → ℕ → Bool
as_listed leap count =
    days_of_months leap count 1
    == nth days_before_month (1 + count - 1) + (if ltb 2 (1 + count) && leap then 1 else 0)

pub days_of_months-listed :
    (leap : Bool) (count : ℕ)
    → count < 12
    → days_of_months leap count 1
      ≡ nth days_before_month (1 + count - 1) + (if ltb 2 (1 + count) && leap then 1 else 0)
days_of_months-listed true count h = (==_iff _ _).0 (all_below-at 12 (as_listed true) count refl h)
days_of_months-listed false count h =
    (==_iff _ _).0 (all_below-at 12 (as_listed false) count refl h)

-- The place of a day in its year.
abbrev pub IsListed : Bool → ℕ → ℕ × ℕ → Type 0
IsListed leap days (month, day) =
    (1 ≤ month)
    × (month ≤ 12)
    × (day < month_days leap month)
    × (nth days_before_month (month - 1) + (if ltb 2 month && leap then 1 else 0) + day ≡ days)

twelve_months :
    (leap : Bool) (days day : ℕ)
    → days < (if leap then 366 else 365)
    → days_of_months leap 12 1 + day ≡ days
    → ⊥
twelve_months true days day h e = omega arith
twelve_months false days day h e = omega arith

months-IsListed :
    (leap : Bool) (days count day : ℕ)
    → days < (if leap then 366 else 365)
    → count ≤ 12
    → days_of_months leap count 1 + day ≡ days
    → (count ≡ 12) ⊎ (day < month_days leap (1 + count))
    → IsListed leap days (1 + count, day)
months-IsListed leap days count day h bound sum (inl out) =
    absurd (twelve_months leap days day h (rw (out) at sum))
months-IsListed leap days count day h bound sum (inr within) = elim (Bool-cases (count == 12)) [
  | inl out ↦ absurd (twelve_months leap days day h (rw ((==_iff count 12).0 out) at sum))
  | inr before ↦ (
    omega arith,
    ground arith,
    within,
    omega (arith, sum, days_of_months-listed leap count (ground arith)),
  )
]

-- A day of a year is found in its month, at the place that the list of days before the months says.
pub find_month-IsListed :
    (leap : Bool) (days : ℕ)
    → days < (if leap then 366 else 365)
    → IsListed leap days (find_month 12 leap 1 days)
find_month-IsListed leap days h =
    let (count, at, bound, sum, end) = find_month-Passed 12 leap 1 days in
    rw (at)
      (months-IsListed leap days count (find_month 12 leap 1 days).1 h bound sum (rw (at) at end))

-- So many years were passed, and their days; the loop ended within the year.
abbrev pub PassedYears : ℕ → ℕ → ℕ → ℕ × ℕ → Type 0
PassedYears left year days found =
    (count : ℕ) × (found.0 ≡ year + count)
    × (count < left)
    × (days_of_years count year + found.1 ≡ days)
    × (found.1 < year_days found.0)

pub find_year-PassedYears :
    (left year days : ℕ) (found : ℕ × ℕ)
    → find_year left year days ≡ ok found
    → PassedYears left year days found
unfolding find_year
find_year-PassedYears zero year days found e = cc
find_year-PassedYears (suc left) year days found e = elim (Bool-cases (ltb days (year_days year))) [
  | inl here ↦
      rw (sym (ok-eq {a = (year, days)} (rw (here) at e)))
        ((0, omega arith, omega arith, omega arith, ltb→lt _ _ here))
  | inr later ↦
      let (count, at, bound, sum, end) =
        find_year-PassedYears left (year + 1) (days - year_days year) found (rw (later) at e) in
      (suc count, omega arith, omega arith, omega (arith, sum, ltb-false _ _ later), end)
]

right_zero : (n : ℕ) → n + 0 ≡ n
right_zero n = omega arith

left_zero : (n : ℕ) → 0 + n ≡ n
left_zero n = omega arith

shift : (a b : ℕ) → a + suc b ≡ a + 1 + b
shift a b = omega arith

past : (a b c : ℕ) → ltb (a + b + c) a ≡ false
past a b c = ground arith

drop_first : (a b c : ℕ) → a + b + c - a ≡ b + c
drop_first a b c = omega arith

-- The loops find what the sums of days name.
pub find_year-found :
    (left year count days : ℕ)
    → count < left
    → days < year_days (year + count)
    → find_year left year (days_of_years count year + days) ≡ ok (year + count, days)
unfolding find_year
find_year-found zero year count days h k = absurd (omega (arith, h))
find_year-found (suc left) year zero days h k =
    rw (left_zero days, right_zero year, lt→ltb days (year_days year) (rw (right_zero year) at k))
      refl
find_year-found (suc left) year (suc count) days h k =
    rw
      (
        past (year_days year) (days_of_years count (year + 1)) days,
        drop_first (year_days year) (days_of_years count (year + 1)) days,
        shift year count,
      )
      (find_year-found left (year + 1) count days (omega arith) (rw (shift year count) at k))

pub find_month-found :
    (fuel : ℕ) (leap : Bool) (month count days : ℕ)
    → count < fuel
    → days < month_days leap (month + count)
    → find_month fuel leap month (days_of_months leap count month + days) ≡ (month + count, days)
unfolding find_month
find_month-found zero leap month count days h k = absurd (omega (arith, h))
find_month-found (suc fuel) leap month zero days h k =
    rw
      (
        left_zero days,
        right_zero month,
        lt→ltb days (month_days leap month) (rw (right_zero month) at k),
      )
      refl
find_month-found (suc fuel) leap month (suc count) days h k =
    rw
      (
        past (month_days leap month) (days_of_months leap count (month + 1)) days,
        drop_first (month_days leap month) (days_of_months leap count (month + 1)) days,
        shift month count,
      )
      (find_month-found fuel leap (month + 1) count days (omega arith)
        (rw (shift month count) at k))

abbrev fits : Bool → ℕ → Bool
fits leap count =
    leb (days_of_months leap count 1 + month_days leap (1 + count)) (if leap then 366 else 365)

-- The months lie within the year.
pub days_of_months-fits :
    (leap : Bool) (count : ℕ)
    → count < 12
    → days_of_months leap count 1 + month_days leap (1 + count) ≤ (if leap then 366 else 365)
days_of_months-fits true count h = leb→le _ _ (all_below-at 12 (fits true) count refl h)
days_of_months-fits false count h = leb→le _ _ (all_below-at 12 (fits false) count refl h)
