-- ===== src/Examples/Timers.antt =====
-- A timer for noon on Thursdays, and its start on a leap day.
use landy_heater.Prelude.{
  ℕ, ◌+◌, is_some, arith, ◌+◌, ◌≡◌, refl, true, false, none, some, List, [], ◌∷◌, String, ok,
}
use landy_heater.Prelude.Int.{pos, sub_ℕ}
use landy_heater.Prelude.Texts.{strip}
use landy_heater.Autoterm.{power}
use landy_heater.AppState.{Requested, Source}
use landy_heater.Clock.Calendar.{Civil, seconds_to_civil, find_year, find_month, is_leap_year}
use landy_heater.Clock.Kinds.{ClockSource, ClockHealth, RtcHealth}
use landy_heater.Clock.Zone.{fixed, utc_seconds_to_local, validate_rule, timezone_rule_version}
use landy_heater.Clock.Snapshot.{ClockSnapshot, clock_snapshot, base_snapshot}
use landy_heater.Scheduler.Types.{
  SchedulerSettings, Timer, ClockFields, CanonicalClock, Baseline, intent_created,
  authorized_pending, IntentDetails, OccurrenceRecord, own, shared, StartIntent,
  AuthorizedStartIntent, timer_intent_created, timer_intent_authorized, Scheduler, new_scheduler,
}
use landy_heater.Scheduler.Timers.{announce, bounded_name, occurrence_key_of}
use landy_heater.Scheduler.Trust.{canonical_clock}
use landy_heater.Scheduler.Steps.{set_baseline, matching_timers, due_timers, consume, step}
use landy_heater.Scheduler.Handoff.{
  find_occurrence, timer_matches_record, intent_matches_record, write_cell, authorize_intent,
  complete_intent,
}
use landy_heater.Scheduler.History.{
  PersistentStatus, export_persistent_history, normalize_persistent_occurrence,
  check_persistent_text, persistent_local_civil,
}
use landy_heater.Clock.State.{TimeService, bounded_text, validate_timezone, clock_health, advance}
use landy_heater.Scheduler.Accepted.{trusted_snapshots}
use landy_heater.Scheduler.Justified.{IsJustified, step-IsJustified}
use landy_heater.Scheduler.Starts.{due-Starts}
use landy_heater.Scheduler.Once.{
  SchedulerCall, step_call, disarm_call, arm_call, intent_minutes, ascends, intents_ascend,
}
use landy_heater.Scheduler.Allowed.{IsAuthorized, authorize_allowed}
use landy_heater.Scheduler.Confirmed.{Leaves, completed_once}

abbrev noon_settings : SchedulerSettings
noon_settings = record {
  ticks_diff = sub_ℕ;
  ticks_add = λ t d. t + d;
  maximum_runtime_minutes = 120;
  max_timers = 32;
  event_capacity = 16;
  intent_valid_ms = 5000;
  max_clock_step_seconds = 90;
}

abbrev noon_timer : Timer
noon_timer = record {
  id = "t1";
  name = "noon";
  enabled = true;
  weekdays = 3 ∷ [];
  start = "12:00";
  start_hour = 12;
  start_minute = 0;
  mode = power;
  target_temperature = none;
  power_level = some 4;
  runtime_minutes = 60;
  revision = 1;
}

abbrev noon_local : Civil
noon_local = record {
  year = 2024;
  month = 2;
  day = 29;
  weekday = 3;
  hour = 12;
  minute = 0;
  second = 0;
  local_minute_id = 12708720;
  fold = 0;
}

abbrev noon_fields : ClockFields
noon_fields = record {
  source = ClockSource.rtc;
  timezone = "UTC";
  timezone_rule = fixed;
  timezone_rule_version = 1;
  standard_utc_offset_minutes = pos 0;
  utc_offset_minutes = pos 0;
  is_dst = false;
  clock_revision = 1;
  timezone_revision = 0;
}

abbrev noon_clock : CanonicalClock
noon_clock = record { utc_seconds = pos 762523200; fields = noon_fields; local = noon_local }

abbrev noon_snapshot : ClockSnapshot
noon_snapshot = record {
  valid = true;
  health = ClockHealth.ok;
  rtc_health = RtcHealth.ok;
  rtc_write_pending = false;
  rtc_write_revision = none;
  rtc_commit_revision = none;
  volatile_browser_time = false;
  timer_trusted = true;
  source = some ClockSource.rtc;
  clock_revision = 1;
  utc_revision = 1;
  timezone_revision = 0;
  timezone = "UTC";
  timezone_rule = fixed;
  timezone_rule_version = 1;
  standard_utc_offset_minutes = pos 0;
  utc_offset_minutes = pos 0;
  is_dst = some false;
  sync_age_ms = some 30000;
  last_sync_utc_seconds = some 762523170;
  last_error = none;
  utc_seconds = some (pos 762523200);
  local = some noon_local;
}

-- Half a minute before noon
abbrev earlier : Baseline
earlier = record { utc_seconds = pos 762523170; fields = noon_fields; local_minute_id = 12708719 }

abbrev waiting : Scheduler
waiting = record (new_scheduler 1 2) {
  armed = true;
  timers = noon_timer ∷ [];
  configuration_revision = 1;
  baseline = some earlier;
  last_step_ms = some 0;
}

abbrev noon_key : String
noon_key = "t1|2024-02-29|12:00"

abbrev noon_intent : StartIntent
noon_intent = record {
  occurrence_key = noon_key;
  timer_id = "t1";
  timer_revision = 1;
  mode = power;
  target_temperature = none;
  power_level = some 4;
  runtime_minutes = 60;
  created_at_ms = 30000;
  not_after_ms = 35000;
  start = "12:00";
  owner = 1;
  creation_token = 1;
}

abbrev noon_details : IntentDetails
noon_details = record {
  not_after_ms = 35000;
  clock = noon_fields;
  local_fold = 0;
  created_utc_seconds = pos 762523200;
  authorization_epoch = 0;
  intent_token = 1;
  authorization = none;
  completion = none;
  mode = power;
  target_temperature = none;
  power_level = some 4;
  runtime_minutes = 60;
}

abbrev noon_record : OccurrenceRecord
noon_record = record {
  occurrence_key = noon_key;
  timer_id = "t1";
  timer_revision = 1;
  status = intent_created;
  consumed_at_ms = 30000;
  local_minute_id = 12708720;
  overridden = false;
  details = some noon_details;
  ending = none;
}

abbrev created : Scheduler
created = record waiting {
  intent_sequence = 1;
  occurrences = ("t1", own noon_record) ∷ [];
  consumed_local_high_water = some 12708720;
  baseline =
      some
        (record { utc_seconds = pos 762523200; fields = noon_fields; local_minute_id = 12708720 });
  last_step_ms = some 30000;
  events = record { kind = timer_intent_created noon_key; at_ms = 30000 } ∷ [];
}

observed : canonical_clock noon_snapshot ≡ some noon_clock
unfolding canonical_clock utc_seconds_to_local validate_rule seconds_to_civil find_year find_month
    is_leap_year timezone_rule_version
observed = refl

noon_step :
    step noon_settings 30000 true (ok noon_snapshot) waiting ≡ (ok (some noon_intent), created)
unfolding step canonical_clock set_baseline due_timers matching_timers consume announce
    occurrence_key_of utc_seconds_to_local validate_rule seconds_to_civil find_year find_month
    is_leap_year timezone_rule_version
noon_step = refl

step-IsJustified_example :
    IsJustified noon_settings 30000 true (ok noon_snapshot) waiting noon_intent created
step-IsJustified_example =
    step-IsJustified noon_settings 30000 true (ok noon_snapshot) waiting noon_intent created
      noon_step

-- The scheduler before the first of two steps, half a minute before noon and at noon.
abbrev armed_scheduler : Scheduler
armed_scheduler = record waiting { baseline = none; last_step_ms = none }

abbrev earlier_clock : CanonicalClock
earlier_clock = record {
  utc_seconds = pos 762523170;
  fields = noon_fields;
  local = record noon_local { hour = 11; minute = 59; second = 30; local_minute_id = 12708719 };
}

abbrev earlier_snapshot : ClockSnapshot
earlier_snapshot = record noon_snapshot {
  utc_seconds = some (pos 762523170);
  local = some earlier_clock.local;
}

observed_earlier : canonical_clock earlier_snapshot ≡ some earlier_clock
unfolding canonical_clock utc_seconds_to_local validate_rule seconds_to_civil find_year find_month
    is_leap_year timezone_rule_version
observed_earlier = refl

noon_due_armed : due_timers noon_local armed_scheduler ≡ noon_timer ∷ []
unfolding due_timers matching_timers occurrence_key_of
noon_due_armed = refl

due-Starts_example :
    ((step noon_settings 0 false (ok earlier_snapshot) armed_scheduler).0 ≡ ok none)
    × ((step noon_settings 30000 true
          (ok noon_snapshot)
          (step noon_settings 0 false (ok earlier_snapshot) armed_scheduler).1).0
        ≡ ok (some noon_intent))
unfolding occurrence_key_of
due-Starts_example =
    due-Starts noon_settings 0 30000 false (ok earlier_snapshot) (ok noon_snapshot) armed_scheduler
      earlier_clock noon_clock noon_timer refl refl refl refl refl refl refl observed_earlier
      observed refl refl refl refl noon_due_armed (omega arith) refl

-- The minute again, after the scheduler was disarmed and armed.
abbrev twice : List SchedulerCall
twice =
    step_call 30000 true (ok noon_snapshot)
    ∷ disarm_call
    ∷ arm_call
    ∷ step_call 30100 true (ok noon_snapshot)
    ∷ step_call 30200 true (ok noon_snapshot)
    ∷ []

intents_ascend_example : ascends none (intent_minutes noon_settings twice waiting) ≡ true
intents_ascend_example = intents_ascend noon_settings twice waiting

abbrev noon_authorized : AuthorizedStartIntent
noon_authorized = record { intent = noon_intent; token = 1; epoch = 0; owner = 2 }

abbrev pending : Scheduler
pending = record created {
  authorization_sequence = 1;
  store =
      write_cell 1
        (record noon_record {
          status = authorized_pending;
          details =
              some (record noon_details {
                authorization = some (record { token = 1; at_ms = 30500 });
              });
        })
        waiting.store;
  occurrences = ("t1", shared 1) ∷ [];
  events =
      record { kind = timer_intent_created noon_key; at_ms = 30000 }
      ∷ record { kind = timer_intent_authorized noon_key; at_ms = 30500 }
      ∷ [];
}

noon_authorization :
    authorize_intent noon_settings noon_intent 30500 true (ok noon_snapshot) created
    ≡ (ok (some noon_authorized), pending)
unfolding authorize_intent bounded_name strip find_occurrence timer_matches_record
    intent_matches_record canonical_clock announce utc_seconds_to_local validate_rule
    seconds_to_civil find_year find_month is_leap_year timezone_rule_version
noon_authorization = refl

authorize_allowed_example :
    IsAuthorized noon_settings noon_intent 30500 true (ok noon_snapshot) created noon_authorized
authorize_allowed_example =
    authorize_allowed noon_settings noon_intent 30500 true (ok noon_snapshot) created
      noon_authorized pending noon_authorization

abbrev noon_request : Requested
noon_request = record {
  on = true;
  mode = power;
  target_temperature = none;
  power_level = some 4;
  runtime_minutes = 60;
  source = Source.timer;
}

noon_completion :
    (complete_intent noon_settings noon_authorized true (some noon_request) 30600 pending).0
    ≡ ok true
unfolding complete_intent intent_matches_record
noon_completion = refl

completed_once_example :
    Leaves noon_settings noon_authorized pending
      (complete_intent noon_settings noon_authorized true (some noon_request) 30600 pending)
completed_once_example =
    completed_once noon_settings noon_authorized true (some noon_request) 30600 pending

-- What a restart keeps of the start.
exported :
    export_persistent_history noon_settings created
    ≡ ok (record {
      consumed_local_high_water = some 12708720;
      occurrences =
          record {
            timer_id = "t1";
            occurrence_key = noon_key;
            local_minute_id = 12708720;
            status = PersistentStatus.consumed;
            overridden = false;
          }
          ∷ [];
    })
unfolding export_persistent_history normalize_persistent_occurrence check_persistent_text
    persistent_local_civil seconds_to_civil find_year find_month is_leap_year strip
exported = refl

-- The clock that gives the snapshot at noon, half a minute before.
abbrev kept_clock : ℕ → ℕ → TimeService
kept_clock ticks age = record {
  timezone_name = "UTC";
  utc_offset_minutes = pos 0;
  timezone_rule = fixed;
  timezone_revision = 0;
  running = some (record {
    utc_epoch_ms = 762523170000 + age;
    anchor_ticks_ms = ticks;
    sync_age_ms = age;
    source = ClockSource.rtc;
  });
  last_sync_utc_seconds = some 762523170;
  clock_revision = 1;
  utc_revision = 1;
  rtc_health = RtcHealth.ok;
  rtc_write_pending = false;
  rtc_write_revision = none;
  rtc_commit_revision = none;
  volatile_browser_time = false;
  last_error = none;
  events = [];
  events_dropped = 0;
}

noon_answer :
    clock_snapshot sub_ℕ 16 30000 (kept_clock 0 0) ≡ (ok noon_snapshot, kept_clock 30000 30000)
unfolding clock_snapshot advance base_snapshot clock_health utc_seconds_to_local validate_rule
    seconds_to_civil find_year find_month is_leap_year timezone_rule_version
noon_answer = refl

utc_valid : validate_timezone "UTC" (pos 0) fixed ≡ ok "UTC"
unfolding validate_timezone bounded_text validate_rule strip
utc_valid = refl

trusted_snapshots_example : is_some (canonical_clock noon_snapshot) ≡ true
trusted_snapshots_example =
    trusted_snapshots sub_ℕ 16 30000 (kept_clock 0 0) (kept_clock 30000 30000) "UTC" noon_snapshot
      utc_valid refl noon_answer refl
