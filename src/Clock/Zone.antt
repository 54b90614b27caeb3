-- ===== src/Clock/Zone.antt =====
-- services/time_service.py: the timezone rules, and local time from UTC and back.
use landy_heater.Prelude.{
  ℕ, ◌+◌, ◌-◌, ◌*◌, ◌%◌, Bool, true, false, ◌&&◌, ◌||◌, List, [], ◌∷◌, ◌==◌, in_range,
  if◌then◌else◌, Result, ok, err, value_error, ◌>>=◌, ◌>>◌, require,
}
use landy_heater.Prelude.Int.{ℤ, pos, negsuc, pos_part, neg_part, sub_ℕ, leb_ℤ, ltb_ℤ, eq_ℤ}
use landy_heater.Clock.Calendar.{
  minimum_year, maximum_year, days_in_month, Civil, civil_to_utc_seconds, seconds_to_civil,
}

pub data TimezoneRule : Type 0 where
  fixed europe_zurich : TimezoneRule

-- -14 and 14 hours
abbrev pub minimum_utc_offset_minutes : ℤ
minimum_utc_offset_minutes = negsuc 839

abbrev pub maximum_utc_offset_minutes : ℤ
maximum_utc_offset_minutes = pos 840

abbrev pub europe_zurich_standard_offset_minutes : ℤ
europe_zurich_standard_offset_minutes = pos 60

abbrev pub europe_zurich_dst_offset_minutes : ℤ
europe_zurich_dst_offset_minutes = pos 120

unfoldable pub timezone_rule_version : TimezoneRule → ℕ
timezone_rule_version fixed = 1
timezone_rule_version europe_zurich = 1

-- `seconds + offset * 60` and `seconds - offset * 60`
abbrev pub later_by : ℤ → ℤ → ℤ
later_by seconds offset =
    sub_ℕ (pos_part seconds + pos_part offset * 60) (neg_part seconds + neg_part offset * 60)

abbrev pub earlier_by : ℤ → ℤ → ℤ
earlier_by seconds offset =
    sub_ℕ (pos_part seconds + neg_part offset * 60) (neg_part seconds + pos_part offset * 60)

abbrev pub is_rule_offset : TimezoneRule → ℤ → Bool
is_rule_offset fixed offset = true
is_rule_offset europe_zurich offset = eq_ℤ offset europe_zurich_standard_offset_minutes

-- `_validate_timezone_rule_and_offset`
unfoldable pub validate_rule : TimezoneRule → ℤ → Result (Unit {0})
validate_rule rule offset = do
  require (leb_ℤ minimum_utc_offset_minutes offset && leb_ℤ offset maximum_utc_offset_minutes)
      (value_error "standard_utc_offset_minutes is outside supported range")
  require (is_rule_offset rule offset)
      (value_error "Europe/Zurich requires the CET standard offset")

-- `_last_sunday_of_month`; a weekday after 6, which is Sunday, is `weekday + 1` modulo 7.
unfoldable pub last_sunday_of_month : ℕ → ℕ → Result ℕ
unfolding days_in_month civil_to_utc_seconds seconds_to_civil
last_sunday_of_month year month = do
  let last_day = days_in_month year month
  last_seconds ← civil_to_utc_seconds year month last_day 0 0 0
  civil ← seconds_to_civil (pos last_seconds)
  ok (last_day - (civil.weekday + 1) % 7)

-- `europe_zurich_transition_utc_seconds`: the start and the end of the summer time
unfoldable pub zurich_transitions : ℕ → Result (ℕ × ℕ)
unfolding last_sunday_of_month civil_to_utc_seconds
zurich_transitions year = do
  require (in_range minimum_year maximum_year year)
      (value_error "year must be between 2000 and 2099")
  start_day ← last_sunday_of_month year 3
  end_day ← last_sunday_of_month year 10
  start ← civil_to_utc_seconds year 3 start_day 1 0 0
  end ← civil_to_utc_seconds year 10 end_day 1 0 0
  ok (start, end)

-- The effective offset, whether it is summer time, and the fold.
abbrev pub Effect : Type 0
Effect = ℤ × Bool × ℕ

abbrev pub effect_at : ℤ → ℤ → ℕ × ℕ → Effect
effect_at utc_seconds standard (start, end) =
    let is_dst = leb_ℤ (pos start) utc_seconds && ltb_ℤ utc_seconds (pos end) in
    (
      (if is_dst then europe_zurich_dst_offset_minutes else standard),
      is_dst,
      (if leb_ℤ (pos end) utc_seconds && ltb_ℤ utc_seconds (pos (end + 3600)) then 1 else 0),
    )

abbrev pub effect_of : TimezoneRule → ℤ → ℤ → ℕ → Result Effect
effect_of fixed utc_seconds standard year = ok (standard, false, 0)
effect_of europe_zurich utc_seconds standard year =
    zurich_transitions year >>= λ transitions. ok (effect_at utc_seconds standard transitions)

pub record LocalTime : Type 0 where
  pub local : Civil
  pub utc_offset_minutes : ℤ
  pub is_dst : Bool
  pub rule_version : ℕ

unfoldable pub utc_seconds_to_local : ℤ → TimezoneRule → ℤ → Result LocalTime
unfolding validate_rule seconds_to_civil zurich_transitions timezone_rule_version
utc_seconds_to_local utc_seconds rule standard = do
  validate_rule rule standard
  utc_civil ← seconds_to_civil utc_seconds
  effect ← effect_of rule utc_seconds standard utc_civil.year
  local ← seconds_to_civil (later_by utc_seconds effect.0)
  ok (record {
    local = record local { fold = effect.2 };
    utc_offset_minutes = effect.0;
    is_dst = effect.1;
    rule_version = timezone_rule_version rule;
  })

-- One of the instants that a local time can mean.
pub record Occurrence : Type 0 where
  pub utc_seconds : ℤ
  pub offset_minutes : ℤ
  pub is_dst : Bool
  pub fold : ℕ

abbrev pub offsets_of : TimezoneRule → ℤ → List ℤ
offsets_of fixed standard = standard ∷ []
offsets_of europe_zurich standard =
    europe_zurich_dst_offset_minutes ∷ europe_zurich_standard_offset_minutes ∷ []

abbrev pub same_civil : Civil → Civil → Bool
same_civil a b =
    (a.year == b.year)
    && (a.month == b.month)
    && (a.day == b.day)
    && (a.hour == b.hour)
    && (a.minute == b.minute)
    && (a.second == b.second)

-- A projection that is the local time adds an occurrence; an error adds none.
abbrev pub add_occurrence : Civil → ℤ → ℤ → Result LocalTime → List Occurrence → List Occurrence
add_occurrence wanted offset candidate (err e) later = later
add_occurrence wanted offset candidate (ok p) later =
    if same_civil p.local wanted && eq_ℤ p.utc_offset_minutes offset
    then record {
      utc_seconds = candidate;
      offset_minutes = offset;
      is_dst = p.is_dst;
      fold = p.local.fold;
    }
      ∷ later
    else later

-- The loop over the offsets.
abbrev pub occurrences_at : Civil → ℕ → TimezoneRule → ℤ → List ℤ → List Occurrence
occurrences_at wanted local_seconds rule standard [] = []
occurrences_at wanted local_seconds rule standard (offset ∷ rest) =
    let candidate = earlier_by (pos local_seconds) offset in
    add_occurrence wanted offset candidate (utc_seconds_to_local candidate rule standard)
      (occurrences_at wanted local_seconds rule standard rest)

-- `local_civil_to_utc_occurrences`; of the wanted civil time only the six arguments of the function are read.
unfoldable pub local_civil_to_utc_occurrences : Civil → TimezoneRule → ℤ → Result (List Occurrence)
unfolding civil_to_utc_seconds validate_rule utc_seconds_to_local
local_civil_to_utc_occurrences wanted rule standard = do
  local_seconds ←
      civil_to_utc_seconds wanted.year wanted.month wanted.day wanted.hour wanted.minute
        wanted.second
  validate_rule rule standard
  ok (occurrences_at wanted local_seconds rule standard (offsets_of rule standard))

abbrev pub is_transition : TimezoneRule → ℤ → ℕ → Result Bool
is_transition fixed utc_seconds year = ok false
is_transition europe_zurich utc_seconds year = zurich_transitions year >>= λ (start, end).
    ok (eq_ℤ utc_seconds (pos start) || eq_ℤ utc_seconds (pos end))

unfoldable pub is_timezone_transition_instant : ℤ → TimezoneRule → ℤ → Result Bool
unfolding validate_rule seconds_to_civil zurich_transitions
is_timezone_transition_instant utc_seconds rule standard = do
  validate_rule rule standard
  civil ← seconds_to_civil utc_seconds
  is_transition rule utc_seconds civil.year
