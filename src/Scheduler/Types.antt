-- ===== src/Scheduler/Types.antt =====
-- app/scheduler.py: the state of the scheduler, its timers, its records of occurrences and its intents.
use landy_heater.Prelude.{ℕ, Bool, false, Option, none, List, [], String}
use landy_heater.Prelude.Int.{ℤ}
use landy_heater.Autoterm.{ControlMode}
use landy_heater.Clock.Calendar.{Civil}
use landy_heater.Clock.Kinds.{ClockSource}
use landy_heater.Clock.Zone.{TimezoneRule}

-- What the constructor is given, the functions on ticks included.
pub record SchedulerSettings : Type 0 where
  pub ticks_diff : ℕ → ℕ → ℤ
  pub ticks_add : ℕ → ℕ → ℕ
  pub maximum_runtime_minutes : ℕ
  pub max_timers : ℕ
  pub event_capacity : ℕ
  pub intent_valid_ms : ℕ
  pub max_clock_step_seconds : ℕ

-- The dictionary of one timer, as it is configured.
pub record TimerDefinition : Type 0 where
  pub id : String
  pub name : Option String
  pub enabled : Bool
  pub weekdays : List ℕ
  pub start : String
  pub mode : ControlMode
  pub target_temperature : Option ℕ
  pub power_level : Option ℕ
  pub runtime_minutes : ℕ

pub record Timer : Type 0 where
  pub id : String
  pub name : String
  pub enabled : Bool
  pub weekdays : List ℕ
  pub start : String
  pub start_hour : ℕ
  pub start_minute : ℕ
  pub mode : ControlMode
  pub target_temperature : Option ℕ
  pub power_level : Option ℕ
  pub runtime_minutes : ℕ
  pub revision : ℕ

-- What must stay the same of the clock between two observations.
pub record ClockFields : Type 0 where
  pub source : ClockSource
  pub timezone : String
  pub timezone_rule : TimezoneRule
  pub timezone_rule_version : ℕ
  pub standard_utc_offset_minutes : ℤ
  pub utc_offset_minutes : ℤ
  pub is_dst : Bool
  pub clock_revision : ℕ
  pub timezone_revision : ℕ

-- What `_canonical_clock` returns.
pub record CanonicalClock : Type 0 where
  pub utc_seconds : ℤ
  pub fields : ClockFields
  pub local : Civil

pub record Baseline : Type 0 where
  pub utc_seconds : ℤ
  pub fields : ClockFields
  pub local_minute_id : ℕ

pub data Status : Type 0 where
  consumed : Status
  conflict suppressed_busy intent_created expired authorization_rejected authorized_pending : Status
  accepted application_failed completed overridden : Status

pub record Authorization : Type 0 where
  pub token : ℕ
  pub at_ms : ℕ

pub record Completion : Type 0 where
  pub at_ms : ℕ
  pub reason : String

-- What a record has of an intent that was created.
pub record IntentDetails : Type 0 where
  pub not_after_ms : ℕ
  pub clock : ClockFields
  pub local_fold : ℕ
  pub created_utc_seconds : ℤ
  pub authorization_epoch : ℕ
  pub intent_token : ℕ
  pub authorization : Option Authorization
  pub completion : Option Completion
  pub mode : ControlMode
  pub target_temperature : Option ℕ
  pub power_level : Option ℕ
  pub runtime_minutes : ℕ

pub data Ending : Type 0 where
  overridden_at : (at_ms : ℕ) → Ending
  ended_at : (at_ms : ℕ) (reason : String) → Ending

pub record OccurrenceRecord : Type 0 where
  pub occurrence_key : String
  pub timer_id : String
  pub timer_revision : ℕ
  pub status : Status
  pub consumed_at_ms : ℕ
  pub local_minute_id : ℕ
  pub overridden : Bool
  pub details : Option IntentDetails
  pub ending : Option Ending

-- A record that only the table of occurrences has, or the one that the authorization of this token shares.
pub data Slot : Type 0 where
  own : (r : OccurrenceRecord) → Slot
  shared : (token : ℕ) → Slot

-- Its local date is the part of the key between the delimiters.
pub record StartIntent : Type 0 where
  pub occurrence_key : String
  pub timer_id : String
  pub timer_revision : ℕ
  pub mode : ControlMode
  pub target_temperature : Option ℕ
  pub power_level : Option ℕ
  pub runtime_minutes : ℕ
  pub created_at_ms : ℕ
  pub not_after_ms : ℕ
  pub start : String
  pub owner : ℕ
  pub creation_token : ℕ

-- The record that it carries is the one that the scheduler's store has under its token.
pub record AuthorizedStartIntent : Type 0 where
  pub intent : StartIntent
  pub token : ℕ
  pub epoch : ℕ
  pub owner : ℕ

pub data SchedulerEventKind : Type 0 where
  clock_unavailable scheduler_baseline_established timer_configuration_fence clock_revision_fence :
      SchedulerEventKind
  clock_jump_fence local_time_jump_fence : (delta : ℤ) → SchedulerEventKind
  timer_conflict : (count : ℕ) → SchedulerEventKind
  timer_suppressed timer_intent_created timer_intent_expired timer_authorization_rejected :
      (occurrence_key : String) → SchedulerEventKind
  timer_intent_authorized timer_intent_accepted timer_intent_application_failed :
      (occurrence_key : String) → SchedulerEventKind
  manual_timer_override : (occurrence_key : String) → SchedulerEventKind
  timer_session_completed : (occurrence_key reason : String) → SchedulerEventKind

pub record SchedulerEvent : Type 0 where
  pub kind : SchedulerEventKind
  pub at_ms : ℕ

pub record Scheduler : Type 0 where
  pub timers : List Timer
  pub configuration_revision : ℕ
  pub authorization_epoch : ℕ
  pub authorization_sequence : ℕ
  pub intent_sequence : ℕ
  pub intent_capability : ℕ
  pub authorization_capability : ℕ
  pub occurrences : List (String × Slot)
  pub store : ℕ → OccurrenceRecord
  pub consumed_local_high_water : Option ℕ
  pub active_occurrence_key : Option String
  pub active_occurrence : Option ℕ
  pub last_override : Option OccurrenceRecord
  pub persistent_history_restored : Bool
  pub armed : Bool
  pub faulted : Bool
  pub baseline : Option Baseline
  pub configuration_fence_pending : Bool
  pub last_step_ms : Option ℕ
  pub last_error : Option String
  pub events : List SchedulerEvent
  pub events_dropped : ℕ

-- The cells of the store that no authorization has filled.
abbrev pub empty_record : OccurrenceRecord
empty_record = record {
  occurrence_key = "";
  timer_id = "";
  timer_revision = 0;
  status = expired;
  consumed_at_ms = 0;
  local_minute_id = 0;
  overridden = false;
  details = none;
  ending = none;
}

-- `__init__`, with the identities of its two capabilities
abbrev pub new_scheduler : ℕ → ℕ → Scheduler
new_scheduler intent_capability authorization_capability = record {
  timers = [];
  configuration_revision = 0;
  authorization_epoch = 0;
  authorization_sequence = 0;
  intent_sequence = 0;
  intent_capability = intent_capability;
  authorization_capability = authorization_capability;
  occurrences = [];
  store = λ token. empty_record;
  consumed_local_high_water = none;
  active_occurrence_key = none;
  active_occurrence = none;
  last_override = none;
  persistent_history_restored = false;
  armed = false;
  faulted = false;
  baseline = none;
  configuration_fence_pending = false;
  last_step_ms = none;
  last_error = none;
  events = [];
  events_dropped = 0;
}
