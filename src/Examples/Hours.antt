-- ===== src/Examples/Hours.antt =====
-- Concrete civil times: a leap day, and an hour that the end of summer time repeats.
use landy_heater.Prelude.{◌≡◌, refl, List, true, false, ok}
use landy_heater.Prelude.Int.{pos}
use landy_heater.Clock.Calendar.{
  Civil, civil_to_utc_seconds, seconds_to_civil, validate_civil, days_in_month, is_leap_year,
  find_year, find_month,
}
use landy_heater.Clock.RoundTrip.{
  civil_to_utc_seconds-seconds_to_civil, seconds_to_civil-civil_to_utc_seconds,
}
use landy_heater.Clock.Zone.{
  europe_zurich, LocalTime, Occurrence, utc_seconds_to_local, local_civil_to_utc_occurrences,
  validate_rule, zurich_transitions, last_sunday_of_month, timezone_rule_version,
}
use landy_heater.Clock.Occurrences.{is_among, local_civil_to_utc_occurrences-utc_seconds_to_local}

abbrev leap_noon : Civil
leap_noon = record {
  year = 2024;
  month = 2;
  day = 29;
  weekday = 3;
  hour = 12;
  minute = 0;
  second = 0;
  local_minute_id = 12708720;
  fold = 0;
}

leap_noon_counted : civil_to_utc_seconds 2024 2 29 12 0 0 ≡ ok 762523200
unfolding civil_to_utc_seconds validate_civil days_in_month is_leap_year
leap_noon_counted = refl

leap_noon_read : seconds_to_civil (pos 762523200) ≡ ok leap_noon
unfolding seconds_to_civil find_year find_month is_leap_year
leap_noon_read = refl

civil_to_utc_seconds-seconds_to_civil_example : civil_to_utc_seconds 2024 2 29 12 0 0 ≡ ok 762523200
civil_to_utc_seconds-seconds_to_civil_example =
    civil_to_utc_seconds-seconds_to_civil 762523200 leap_noon leap_noon_read

seconds_to_civil-civil_to_utc_seconds_example :
    (c : Civil) × (seconds_to_civil (pos 762523200) ≡ ok c)
    × (c.year ≡ 2024)
    × (c.month ≡ 2)
    × (c.day ≡ 29)
    × (c.hour ≡ 12)
    × (c.minute ≡ 0)
    × (c.second ≡ 0)
seconds_to_civil-civil_to_utc_seconds_example =
    seconds_to_civil-civil_to_utc_seconds 2024 2 29 12 0 0 762523200 leap_noon_counted

-- 2024-10-27 01:30 UTC, half past two for the second time
abbrev repeated : LocalTime
repeated = record {
  local = record {
    year = 2024;
    month = 10;
    day = 27;
    weekday = 6;
    hour = 2;
    minute = 30;
    second = 0;
    local_minute_id = 13055190;
    fold = 1;
  };
  utc_offset_minutes = pos 60;
  is_dst = false;
  rule_version = 1;
}

repeated_read : utc_seconds_to_local (pos 783307800) europe_zurich (pos 60) ≡ ok repeated
unfolding utc_seconds_to_local validate_rule seconds_to_civil zurich_transitions
    last_sunday_of_month civil_to_utc_seconds validate_civil days_in_month is_leap_year find_year
    find_month timezone_rule_version
repeated_read = refl

local_civil_to_utc_occurrences-utc_seconds_to_local_example :
    (found : List Occurrence) × (local_civil_to_utc_occurrences repeated.local europe_zurich
        (pos 60)
      ≡ ok found)
    × (is_among (pos 783307800) found ≡ true)
local_civil_to_utc_occurrences-utc_seconds_to_local_example =
    local_civil_to_utc_occurrences-utc_seconds_to_local (pos 783307800) europe_zurich (pos 60)
      repeated repeated_read
