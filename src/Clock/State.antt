-- ===== src/Clock/State.antt =====
-- services/time_service.py: the state of `TimeService`, its events, and the advance of its clock. `_valid` and the
-- attributes that are None exactly while it is False are one option; the allocation of an event does not fail.
use text.Mathlib.Text.{◌==◌ as str_eq}
use landy_heater.Prelude.{
  ℕ, ◌+◌, Bool, true, false, not, ◌&&◌, ◌||◌, Option, none, some, List, [], ◌∷◌, ◌++◌, String, leb,
  if◌then◌else◌, length, drop, Result, ok, err, value_error, runtime_error, ◌>>=◌, ◌>>◌, require,
  is_none,
}
use landy_heater.Prelude.Int.{ℤ, pos, negsuc}
use landy_heater.Prelude.Texts.{strip, text_length}
use landy_heater.Prelude.Exec.{Exec, check}
use landy_heater.Clock.Kinds.{ClockSource, ClockHealth, RtcHealth, rtc_eq}
use landy_heater.Clock.Zone.{TimezoneRule, fixed, europe_zurich, validate_rule}

-- What is known of the time while the clock is valid.
pub record Running : Type 0 where
  pub utc_epoch_ms : ℕ
  pub anchor_ticks_ms : ℕ
  pub sync_age_ms : ℕ
  pub source : ClockSource

pub data ClockEventKind : Type 0 where
  clock_synchronized : (source : ClockSource) (revision : ℕ) → ClockEventKind
  volatile_browser_time_accepted : (revision : ℕ) → ClockEventKind
  rtc_refresh_recovered rtc_write_confirmed rtc_commit_recovered : ClockEventKind
  timezone_changed :
      (timezone : String) (rule : TimezoneRule) (version : ℕ) (offset : ℤ) (revision : ℕ)
      → ClockEventKind
  rtc_error : (reason : String) → ClockEventKind
  clock_invalid : (reason : String) (revision : ℕ) → ClockEventKind

pub record ClockEvent : Type 0 where
  pub kind : ClockEventKind
  pub at_ms : ℕ

pub record TimeService : Type 0 where
  pub timezone_name : String
  pub utc_offset_minutes : ℤ
  pub timezone_rule : TimezoneRule
  pub timezone_revision : ℕ
  pub running : Option Running
  pub last_sync_utc_seconds : Option ℕ
  pub clock_revision : ℕ
  pub utc_revision : ℕ
  pub rtc_health : RtcHealth
  pub rtc_write_pending : Bool
  pub rtc_write_revision : Option ℕ
  pub rtc_commit_revision : Option ℕ
  pub volatile_browser_time : Bool
  pub last_error : Option String
  pub events : List ClockEvent
  pub events_dropped : ℕ

abbrev pub max_timezone_name_length : ℕ
max_timezone_name_length = 64

abbrev pub clock_max_error_length : ℕ
clock_max_error_length = 160

abbrev pub zurich_timezone_name : String
zurich_timezone_name = "Europe/Zurich"

-- `_bounded_text`, where an empty text is refused
unfoldable pub bounded_text : String → ℕ → Result String
bounded_text value maximum = do
  let stripped = strip value
  require (not (str_eq stripped "") && leb (text_length stripped) maximum)
      (value_error "must be a bounded string")
  ok stripped

abbrev pub rule_eq : TimezoneRule → TimezoneRule → Bool
rule_eq fixed fixed = true
rule_eq europe_zurich europe_zurich = true
rule_eq _ _ = false

-- `_validate_timezone_configuration`
unfoldable pub validate_timezone : String → ℤ → TimezoneRule → Result String
unfolding bounded_text validate_rule
validate_timezone timezone_name offset rule = do
  name ← bounded_text timezone_name max_timezone_name_length
  validate_rule rule offset
  require (if rule_eq rule europe_zurich then str_eq name zurich_timezone_name else true)
      (value_error "Europe/Zurich rule requires its canonical name")
  require (if str_eq name zurich_timezone_name then rule_eq rule europe_zurich else true)
      (value_error "Europe/Zurich name requires its canonical rule")
  ok name

-- `__init__`, of a timezone configuration that is valid
unfoldable pub new : String → ℤ → TimezoneRule → TimeService
new timezone_name offset rule = record {
  timezone_name = timezone_name;
  utc_offset_minutes = offset;
  timezone_rule = rule;
  timezone_revision = 0;
  running = none;
  last_sync_utc_seconds = none;
  clock_revision = 0;
  utc_revision = 0;
  rtc_health = RtcHealth.unknown;
  rtc_write_pending = false;
  rtc_write_revision = none;
  rtc_commit_revision = none;
  volatile_browser_time = false;
  last_error = none;
  events = [];
  events_dropped = 0;
}

-- `_health`
unfoldable pub clock_health : TimeService → ClockHealth
clock_health c = elim c.running [
  | none ↦ ClockHealth.invalid
  | some r ↦
      if rtc_eq c.rtc_health RtcHealth.error || not (is_none c.rtc_commit_revision)
      then ClockHealth.holdover
      else ClockHealth.ok
]

-- The refusal of a change during an RTC commit.
abbrev pub check_unlocked : Exec TimeService (Unit {0})
check_unlocked c =
    check (is_none c.rtc_commit_revision) (runtime_error "RTC commit is in progress") c

module _ (ticks_diff : ℕ → ℕ → ℤ) (event_capacity : ℕ) where
  -- `_emit`
  unfoldable pub emit : ClockEventKind → ℕ → TimeService → TimeService
  emit kind now_ms c =
      let event : ClockEvent = record { kind = kind; at_ms = now_ms } in
      if leb event_capacity (length c.events)
      then record c {
        events = drop 1 c.events ++ event ∷ [];
        events_dropped = c.events_dropped + 1;
      }
      else record c { events = c.events ++ event ∷ [] }

  abbrev pub advance_by : ℤ → Running → ℕ → Exec TimeService (Unit {0})
  advance_by (negsuc n) r now_ms c =
      (err (value_error "now_ms precedes the current clock anchor"), c)
  advance_by (pos elapsed) r now_ms c = (
    ok tt,
    record c {
      running = some (record r {
        utc_epoch_ms = r.utc_epoch_ms + elapsed;
        sync_age_ms = r.sync_age_ms + elapsed;
        anchor_ticks_ms = now_ms;
      });
    },
  )

  abbrev pub advance_running : Option Running → ℕ → Exec TimeService (Unit {0})
  advance_running none now_ms c = (ok tt, c)
  advance_running (some r) now_ms c = advance_by (ticks_diff now_ms r.anchor_ticks_ms) r now_ms c

  -- `_advance`
  unfoldable pub advance : ℕ → Exec TimeService (Unit {0})
  advance now_ms c = advance_running c.running now_ms c
