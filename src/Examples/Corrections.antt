-- ===== src/Examples/Corrections.antt =====
-- A clock that is set, and whose time a commit writes to the chip.
use landy_heater.Prelude.{refl, true, false, none, some, List, [], ◌∷◌}
use landy_heater.Prelude.Int.{pos, sub_ℕ}
use landy_heater.Clock.Kinds.{ClockSource, RtcHealth}
use landy_heater.Clock.Zone.{europe_zurich}
use landy_heater.Clock.State.{TimeService, new}
use landy_heater.Clock.Agree.{IsCoherent}
use landy_heater.Clock.Calls.{
  ClockCall, set_utc_call, begin_call, volatile_call, written_call, recovered_call, end_call,
  snapshot_call, after_clock_calls, revisions_agree,
}
use landy_heater.Clock.Locks.{IsLocked, commit_locks}

-- The time of the network, written to the chip under a commit.
abbrev correction : List ClockCall
correction =
    set_utc_call 2024 2 29 12 0 0 ClockSource.ntp 0
    ∷ begin_call 1 100
    ∷ written_call true 1 200 "rtc_write_failed"
    ∷ recovered_call 1 300
    ∷ end_call 1
    ∷ snapshot_call 400
    ∷ []

revisions_agree_example :
    IsCoherent (after_clock_calls sub_ℕ 16 correction (new "Europe/Zurich" (pos 60) europe_zurich))
revisions_agree_example = revisions_agree sub_ℕ 16 "Europe/Zurich" (pos 60) europe_zurich correction

-- A clock whose first time is being committed.
abbrev committing : TimeService
committing = record {
  timezone_name = "Europe/Zurich";
  utc_offset_minutes = pos 60;
  timezone_rule = europe_zurich;
  timezone_revision = 2;
  running = some (record {
    utc_epoch_ms = 762523200000;
    anchor_ticks_ms = 0;
    sync_age_ms = 0;
    source = ClockSource.ntp;
  });
  last_sync_utc_seconds = some 762523200;
  clock_revision = 3;
  utc_revision = 1;
  rtc_health = RtcHealth.ok;
  rtc_write_pending = true;
  rtc_write_revision = some 1;
  rtc_commit_revision = some 1;
  volatile_browser_time = false;
  last_error = none;
  events = [];
  events_dropped = 0;
}

-- What may come between.
abbrev between : List ClockCall
between =
    volatile_call (pos 762526800) 100
    ∷ written_call true 1 200 "rtc_write_failed"
    ∷ end_call 7
    ∷ set_utc_call 2024 2 29 13 0 0 ClockSource.browser 300
    ∷ []

commit_locks_example : IsLocked 1 1 3 2 (after_clock_calls sub_ℕ 16 between committing)
commit_locks_example = commit_locks sub_ℕ 16 1 between committing refl refl
