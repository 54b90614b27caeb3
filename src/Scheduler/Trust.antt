-- ===== src/Scheduler/Trust.antt =====
-- app/scheduler.py: what of a snapshot of the clock the scheduler takes.
use text.Mathlib.Text.{◌==◌ as str_eq}
use landy_heater.Prelude.{
  ◌+◌, Bool, true, false, not, ◌&&◌, Option, none, some, String, leb, ◌==◌, if◌then◌else◌, is_none,
  Result, ok, err,
}
use landy_heater.Prelude.Int.{ℤ, pos_part, neg_part, sub_ℕ, leb_ℤ, eq_ℤ}
use landy_heater.Prelude.Texts.{text_length}
use landy_heater.Clock.Calendar.{Civil}
use landy_heater.Clock.Kinds.{ClockSource, ClockHealth, RtcHealth, rtc_eq, source_eq}
use landy_heater.Clock.Zone.{
  TimezoneRule, europe_zurich, LocalTime, minimum_utc_offset_minutes, maximum_utc_offset_minutes,
  utc_seconds_to_local,
}
use landy_heater.Clock.State.{max_timezone_name_length, zurich_timezone_name, rule_eq}
use landy_heater.Clock.Snapshot.{ClockSnapshot}
use landy_heater.Scheduler.Types.{ClockFields, CanonicalClock}

abbrev pub is_valid_health : ClockHealth → Bool
is_valid_health ClockHealth.invalid = false
is_valid_health _ = true

abbrev pub is_browser : Option ClockSource → Bool
is_browser (some ClockSource.browser) = true
is_browser _ = false

-- Whether the time is one that timers may be judged by.
abbrev pub is_trusted : ClockSnapshot → Bool
is_trusted snapshot =
    snapshot.valid
    && is_valid_health snapshot.health
    && snapshot.timer_trusted
    && (if snapshot.volatile_browser_time
        then is_browser snapshot.source
        else rtc_eq snapshot.rtc_health RtcHealth.ok)
    && not snapshot.rtc_write_pending
    && is_none snapshot.rtc_commit_revision

abbrev pub is_timezone : String → TimezoneRule → Bool
is_timezone name rule =
    not (str_eq name "")
    && leb (text_length name) max_timezone_name_length
    && (if rule_eq rule europe_zurich then str_eq name zurich_timezone_name else true)
    && (if str_eq name zurich_timezone_name then rule_eq rule europe_zurich else true)

abbrev pub bool_eq : Bool → Bool → Bool
bool_eq true b = b
bool_eq false b = not b

abbrev pub civil_eq : Civil → Civil → Bool
civil_eq a b =
    (a.year == b.year)
    && (a.month == b.month)
    && (a.day == b.day)
    && (a.weekday == b.weekday)
    && (a.hour == b.hour)
    && (a.minute == b.minute)
    && (a.second == b.second)
    && (a.local_minute_id == b.local_minute_id)
    && (a.fold == b.fold)

-- The snapshot's local time against the one that its UTC time has.
abbrev pub is_projection : ClockSnapshot → Civil → Bool → LocalTime → Bool
is_projection snapshot local is_dst projection =
    eq_ℤ snapshot.utc_offset_minutes projection.utc_offset_minutes
    && bool_eq is_dst projection.is_dst
    && (snapshot.timezone_rule_version == projection.rule_version)
    && civil_eq local projection.local

abbrev pub clock_of :
    ClockSnapshot → ClockSource → Civil → ℤ → Bool → Result LocalTime → Option CanonicalClock
clock_of snapshot source local utc_seconds is_dst (err e) = none
clock_of snapshot source local utc_seconds is_dst (ok projection) =
    if is_projection snapshot local is_dst projection
    then some (record {
      utc_seconds = utc_seconds;
      fields = record {
        source = source;
        timezone = snapshot.timezone;
        timezone_rule = snapshot.timezone_rule;
        timezone_rule_version = snapshot.timezone_rule_version;
        standard_utc_offset_minutes = snapshot.standard_utc_offset_minutes;
        utc_offset_minutes = snapshot.utc_offset_minutes;
        is_dst = is_dst;
        clock_revision = snapshot.clock_revision;
        timezone_revision = snapshot.timezone_revision;
      };
      local = projection.local;
    })
    else none

-- The fields that may be None.
abbrev pub with_parts :
    ClockSnapshot
    → Option ClockSource
    → Option Civil
    → Option ℤ
    → Option Bool
    → Option CanonicalClock
with_parts snapshot (some source) (some local) (some utc_seconds) (some is_dst) =
    if leb_ℤ minimum_utc_offset_minutes snapshot.utc_offset_minutes
      && leb_ℤ snapshot.utc_offset_minutes maximum_utc_offset_minutes
    then clock_of snapshot source local utc_seconds is_dst (
        utc_seconds_to_local utc_seconds snapshot.timezone_rule
          snapshot.standard_utc_offset_minutes)
    else none
with_parts snapshot _ _ _ _ = none

-- `_canonical_clock`
unfoldable pub canonical_clock : ClockSnapshot → Option CanonicalClock
unfolding utc_seconds_to_local
canonical_clock snapshot =
    if is_trusted snapshot && is_timezone snapshot.timezone snapshot.timezone_rule
    then with_parts snapshot snapshot.source snapshot.local snapshot.utc_seconds snapshot.is_dst
    else none

-- What the scheduler observes of the answer of the clock's `snapshot`.
abbrev pub observed_clock : Result ClockSnapshot → Option CanonicalClock
observed_clock (ok snapshot) = canonical_clock snapshot
observed_clock (err e) = none

abbrev pub sub_ℤ : ℤ → ℤ → ℤ
sub_ℤ a b = sub_ℕ (pos_part a + neg_part b) (pos_part b + neg_part a)

-- Whether nothing of the clock has changed that has to stay the same.
abbrev pub same_clock : ClockFields → ClockFields → Bool
same_clock a b =
    (a.clock_revision == b.clock_revision)
    && (a.timezone_revision == b.timezone_revision)
    && str_eq a.timezone b.timezone
    && rule_eq a.timezone_rule b.timezone_rule
    && (a.timezone_rule_version == b.timezone_rule_version)
    && eq_ℤ a.standard_utc_offset_minutes b.standard_utc_offset_minutes
    && eq_ℤ a.utc_offset_minutes b.utc_offset_minutes
    && bool_eq a.is_dst b.is_dst
    && source_eq a.source b.source
