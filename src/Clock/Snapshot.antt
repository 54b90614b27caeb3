-- ===== src/Clock/Snapshot.antt =====
-- services/time_service.py: `snapshot` and `drain_events`.
use landy_heater.Prelude.{
  ℕ, Bool, not, ◌&&◌, ◌||◌, Option, none, some, List, [], String, is_some, is_none, Result, ok, err,
}
use landy_heater.Prelude.Int.{ℤ, pos}
use landy_heater.Prelude.Exec.{Exec, gets, ◌>>=◌, ◌>>◌}
use landy_heater.Clock.Calendar.{Civil}
use landy_heater.Clock.Kinds.{ClockSource, ClockHealth, RtcHealth, rtc_eq}
use landy_heater.Clock.Zone.{TimezoneRule, timezone_rule_version, LocalTime, utc_seconds_to_local}
use landy_heater.Clock.State.{Running, ClockEvent, TimeService, clock_health, advance}
use landy_heater.Clock.Corrections.{seconds_of, invalidate}

-- The dictionary that `snapshot` returns, less the sizes of the list of events.
pub record ClockSnapshot : Type 0 where
  pub valid : Bool
  pub health : ClockHealth
  pub rtc_health : RtcHealth
  pub rtc_write_pending : Bool
  pub rtc_write_revision : Option ℕ
  pub rtc_commit_revision : Option ℕ
  pub volatile_browser_time : Bool
  pub timer_trusted : Bool
  pub source : Option ClockSource
  pub clock_revision : ℕ
  pub utc_revision : ℕ
  pub timezone_revision : ℕ
  pub timezone : String
  pub timezone_rule : TimezoneRule
  pub timezone_rule_version : ℕ
  pub standard_utc_offset_minutes : ℤ
  pub utc_offset_minutes : ℤ
  pub is_dst : Option Bool
  pub sync_age_ms : Option ℕ
  pub last_sync_utc_seconds : Option ℕ
  pub last_error : Option String
  pub utc_seconds : Option ℤ
  pub local : Option Civil

abbrev pub source_of : Option Running → Option ClockSource
source_of none = none
source_of (some r) = some r.source

abbrev pub age_of : Option Running → Option ℕ
age_of none = none
age_of (some r) = some r.sync_age_ms

abbrev pub is_timer_trusted : TimeService → Bool
is_timer_trusted c =
    is_some c.running
    && is_none c.rtc_commit_revision
    && not c.rtc_write_pending
    && (c.volatile_browser_time || rtc_eq c.rtc_health RtcHealth.ok)

-- `base`
unfoldable pub base_snapshot : TimeService → ClockSnapshot
unfolding clock_health timezone_rule_version
base_snapshot c = record {
  valid = is_some c.running;
  health = clock_health c;
  rtc_health = c.rtc_health;
  rtc_write_pending = c.rtc_write_pending;
  rtc_write_revision = c.rtc_write_revision;
  rtc_commit_revision = c.rtc_commit_revision;
  volatile_browser_time = c.volatile_browser_time;
  timer_trusted = is_timer_trusted c;
  source = source_of c.running;
  clock_revision = c.clock_revision;
  utc_revision = c.utc_revision;
  timezone_revision = c.timezone_revision;
  timezone = c.timezone_name;
  timezone_rule = c.timezone_rule;
  timezone_rule_version = timezone_rule_version c.timezone_rule;
  standard_utc_offset_minutes = c.utc_offset_minutes;
  utc_offset_minutes = c.utc_offset_minutes;
  is_dst = none;
  sync_age_ms = age_of c.running;
  last_sync_utc_seconds = c.last_sync_utc_seconds;
  last_error = c.last_error;
  utc_seconds = none;
  local = none;
}

abbrev pub with_local : ℤ → LocalTime → ClockSnapshot → ClockSnapshot
with_local utc_seconds p base = record base {
  utc_seconds = some utc_seconds;
  local = some p.local;
  utc_offset_minutes = p.utc_offset_minutes;
  is_dst = some p.is_dst;
}

-- `drain_events`
unfoldable pub drain_events : TimeService → List ClockEvent × TimeService
drain_events c = (c.events, record c { events = [] })

module _ (ticks_diff : ℕ → ℕ → ℤ) (event_capacity : ℕ) where
  -- A time without a local time ends the clock's validity; a snapshot of the clock that is not valid follows.
  abbrev pub projected : Result LocalTime → ℤ → ℕ → Exec TimeService ClockSnapshot
  projected (ok p) utc_seconds now_ms c = (ok (with_local utc_seconds p (base_snapshot c)), c)
  projected (err e) utc_seconds now_ms c =
      (invalidate ticks_diff event_capacity now_ms "clock_range_exceeded" >>= λ changed.
      gets base_snapshot)
        c

  abbrev pub snapshot_running : Option Running → ℕ → Exec TimeService ClockSnapshot
  snapshot_running none now_ms c = (ok (base_snapshot c), c)
  snapshot_running (some r) now_ms c =
      projected (utc_seconds_to_local (pos (seconds_of r)) c.timezone_rule c.utc_offset_minutes)
        (pos (seconds_of r)) now_ms c

  -- `snapshot`
  unfoldable pub clock_snapshot : ℕ → Exec TimeService ClockSnapshot
  unfolding advance invalidate base_snapshot utc_seconds_to_local
  clock_snapshot now_ms =
      advance ticks_diff event_capacity now_ms >> (λ c. snapshot_running c.running now_ms c)
