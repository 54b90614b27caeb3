-- ===== src/Clock/Calls.antt =====
-- services/time_service.py: sequences of calls of `TimeService`.
use landy_heater.Prelude.{
  ℕ, ◌≡◌, refl, Bool, Option, none, some, List, [], ◌∷◌, String, is_some, Result, ok, err,
  if_either,
}
use landy_heater.Prelude.Int.{ℤ, pos, negsuc}
use landy_heater.Prelude.Exec.{gets}
use landy_heater.Prelude.Keeps.{Keeps, Keeps-bind, Keeps-gets}
use landy_heater.Clock.Kinds.{ClockSource}
use landy_heater.Clock.Zone.{TimezoneRule, LocalTime, utc_seconds_to_local}
use landy_heater.Clock.State.{Running, TimeService, new, advance, advance_by, advance_running}
use landy_heater.Clock.Corrections.{
  is_revision, set_utc_datetime, set_volatile_browser_time, report_rtc_error, refresh_rtc_datetime,
  refresh, configure_timezone, rezone, mark_rtc_write_result, release, begin_rtc_commit,
  mark_rtc_commit_recovered, end_rtc_commit, invalidate, seconds_of,
}
use landy_heater.Clock.Snapshot.{clock_snapshot, snapshot_running, projected, base_snapshot}
use landy_heater.Clock.Quiet.{
  Quiet, advance-Keeps, report-Keeps, mark_write-Keeps, mark_commit-Keeps,
}
use landy_heater.Clock.Agree.{IsCoherent, agree_running, agree_released}
use landy_heater.Clock.Coherent.{
  quiet-IsCoherent, unlocked_then, set_utc-Keeps, refresh-Keeps, rezone-Keeps, invalidate-Keeps,
  volatile-Keeps, locked-IsCoherent,
}

-- The calls of the clock's users.
pub data ClockCall : Type 0 where
  set_utc_call refresh_call :
      (year month day hour minute second : ℕ) (source : ClockSource) (now_ms : ℕ) → ClockCall
  volatile_call : (utc_seconds : ℤ) (now_ms : ℕ) → ClockCall
  timezone_call : (name : String) (offset : ℤ) (now_ms : ℕ) (rule : TimezoneRule) → ClockCall
  error_call invalidate_call : (now_ms : ℕ) (reason : String) → ClockCall
  written_call : (success : Bool) (write_revision now_ms : ℕ) (reason : String) → ClockCall
  begin_call recovered_call : (write_revision now_ms : ℕ) → ClockCall
  end_call : (write_revision : ℕ) → ClockCall
  snapshot_call : (now_ms : ℕ) → ClockCall

module _ (ticks_diff : ℕ → ℕ → ℤ) (event_capacity : ℕ) where
  abbrev pub after_clock_call : ClockCall → TimeService → TimeService
  after_clock_call (set_utc_call y mo d h mi s source t) c =
      (set_utc_datetime ticks_diff event_capacity y mo d h mi s source t c).1
  after_clock_call (refresh_call y mo d h mi s source t) c =
      (refresh_rtc_datetime ticks_diff event_capacity y mo d h mi s t c).1
  after_clock_call (volatile_call n t) c =
      (set_volatile_browser_time ticks_diff event_capacity n t c).1
  after_clock_call (timezone_call name offset t rule) c =
      (configure_timezone ticks_diff event_capacity name offset t rule c).1
  after_clock_call (error_call t s) c = (report_rtc_error ticks_diff event_capacity t s c).1
  after_clock_call (invalidate_call t s) c = (invalidate ticks_diff event_capacity t s c).1
  after_clock_call (written_call b n t s) c =
      (mark_rtc_write_result ticks_diff event_capacity b n t s c).1
  after_clock_call (begin_call n t) c = (begin_rtc_commit ticks_diff event_capacity n t c).1
  after_clock_call (recovered_call n t) c =
      (mark_rtc_commit_recovered ticks_diff event_capacity n t c).1
  after_clock_call (end_call n) c = (end_rtc_commit ticks_diff event_capacity n c).1
  after_clock_call (snapshot_call t) c = (clock_snapshot ticks_diff event_capacity t c).1

  abbrev pub after_clock_calls : List ClockCall → TimeService → TimeService
  after_clock_calls [] c = c
  after_clock_calls (call ∷ rest) c = after_clock_calls rest (after_clock_call call c)

  -- The state while a commit holds the lock, agreeing once it is released.
  abbrev IsHeld : ℕ → TimeService → Type 0
  IsHeld n c = IsCoherent (release c) × (c.rtc_commit_revision ≡ some n)

  advance-IsHeld :
      (n t : ℕ) (o : Option Running) (c : TimeService)
      → c.running ≡ o
      → IsHeld n c
      → IsHeld n (advance_running ticks_diff event_capacity o t c).1
  advance-IsHeld n t none c e i = i
  advance-IsHeld n t (some r) c e i = by_difference (ticks_diff t r.anchor_ticks_ms)
    where
      by_difference : (d : ℤ) → IsHeld n (advance_by ticks_diff event_capacity d r t c).1
      by_difference (pos m) = (
        agree_running c.rtc_write_pending c.rtc_write_revision c.utc_revision c.running r none
            c.volatile_browser_time e i.0,
        i.1,
      )
      by_difference (negsuc m) = i

  begin-Keeps : (n t : ℕ) → Keeps IsCoherent (begin_rtc_commit ticks_diff event_capacity n t)
  unfolding begin_rtc_commit advance
  begin-Keeps n t = record {
    from = λ c i.
        if_either (λ (p : Result Bool × TimeService). IsCoherent p.1)
          (is_some c.rtc_commit_revision) i
          (let held =
              advance-IsHeld n t c.running (record c { rtc_commit_revision = some n }) refl
                (
                  agree_released c.rtc_write_pending c.rtc_write_revision c.utc_revision
                      (is_some c.running) c.rtc_commit_revision c.volatile_browser_time i,
                  refl,
                ) in
            locked-IsCoherent ticks_diff event_capacity n
              (advance ticks_diff event_capacity t (record c { rtc_commit_revision = some n }))
              held.0 held.1);
  }

  end-Keeps : (n : ℕ) → Keeps IsCoherent (end_rtc_commit ticks_diff event_capacity n)
  unfolding end_rtc_commit
  end-Keeps n = record {
    from = λ c i.
        if_either (λ (p : Result Bool × TimeService). IsCoherent p.1)
          (is_revision c.rtc_commit_revision n)
          (agree_released c.rtc_write_pending c.rtc_write_revision c.utc_revision
            (is_some c.running) c.rtc_commit_revision c.volatile_browser_time i)
          i;
  }

  module _ (Inv : TimeService → Type 0)
      (invalidate-Inv : (t : ℕ)
        → Keeps Inv (invalidate ticks_diff event_capacity t "clock_range_exceeded")) where
    projected-Keeps :
        (r : Result LocalTime) (n : ℤ) (t : ℕ)
        → Keeps Inv (projected ticks_diff event_capacity r n t)
    projected-Keeps (ok p) n t = record { from = λ c i. i }
    projected-Keeps (err e) n t =
        Keeps-bind Inv (invalidate ticks_diff event_capacity t "clock_range_exceeded")
          (λ changed. gets base_snapshot) (invalidate-Inv t) λ changed. Keeps-gets Inv base_snapshot

    snapshot_running-Keeps :
        (o : Option Running) (t : ℕ) → Keeps Inv (snapshot_running ticks_diff event_capacity o t)
    snapshot_running-Keeps none t = record { from = λ c i. i }
    snapshot_running-Keeps (some r) t = record {
      from = λ c i.
          (projected-Keeps
              (utc_seconds_to_local (pos (seconds_of r)) c.timezone_rule c.utc_offset_minutes)
              (pos (seconds_of r)) t).from
            c i;
    }

    pub snapshot-Keeps :
        Quiet ticks_diff event_capacity Inv
        → (t : ℕ) → Keeps Inv (clock_snapshot ticks_diff event_capacity t)
    unfolding clock_snapshot
    snapshot-Keeps quiet t =
        Keeps-bind Inv (advance ticks_diff event_capacity t)
          (λ _ c. snapshot_running ticks_diff event_capacity c.running t c)
          (advance-Keeps ticks_diff event_capacity Inv quiet t)
          λ _. record { from = λ c i. (snapshot_running-Keeps c.running t).from c i }

  call-IsCoherent :
      (call : ClockCall) (c : TimeService) → IsCoherent c → IsCoherent (after_clock_call call c)
  unfolding refresh_rtc_datetime configure_timezone
  call-IsCoherent (set_utc_call y mo d h mi s source t) =
      (set_utc-Keeps ticks_diff event_capacity y mo d h mi s source t).from
  call-IsCoherent (refresh_call y mo d h mi s source t) =
      (unlocked_then ticks_diff event_capacity (refresh ticks_diff event_capacity y mo d h mi s t)
        (refresh-Keeps ticks_diff event_capacity y mo d h mi s t)).from
  call-IsCoherent (volatile_call n t) = (volatile-Keeps ticks_diff event_capacity n t).from
  call-IsCoherent (timezone_call name offset t rule) =
      (unlocked_then ticks_diff event_capacity (rezone ticks_diff event_capacity name offset t rule)
        (rezone-Keeps ticks_diff event_capacity name offset t rule)).from
  call-IsCoherent (error_call t s) =
      (report-Keeps ticks_diff event_capacity IsCoherent
        (quiet-IsCoherent ticks_diff event_capacity) t s).from
  call-IsCoherent (invalidate_call t s) = (invalidate-Keeps ticks_diff event_capacity t s).from
  call-IsCoherent (written_call b n t s) =
      (mark_write-Keeps ticks_diff event_capacity IsCoherent
        (quiet-IsCoherent ticks_diff event_capacity) b n t s).from
  call-IsCoherent (begin_call n t) = (begin-Keeps n t).from
  call-IsCoherent (recovered_call n t) =
      (mark_commit-Keeps ticks_diff event_capacity IsCoherent
        (quiet-IsCoherent ticks_diff event_capacity) n t).from
  call-IsCoherent (end_call n) = (end-Keeps n).from
  call-IsCoherent (snapshot_call t) =
      (snapshot-Keeps IsCoherent
        (λ t. invalidate-Keeps ticks_diff event_capacity t "clock_range_exceeded")
        (quiet-IsCoherent ticks_diff event_capacity) t).from

  calls-IsCoherent :
      (calls : List ClockCall) (c : TimeService)
      → IsCoherent c
      → IsCoherent (after_clock_calls calls c)
  calls-IsCoherent [] c i = i
  calls-IsCoherent (call ∷ rest) c i =
      calls-IsCoherent rest (after_clock_call call c) (call-IsCoherent call c i)

  -- After any sequence of calls of a new clock, also of calls that raise: a write to the chip that waits has the revision of
  -- the time that is kept, and without one there is no such revision; a commit that is locked has this revision too; both
  -- want a valid clock; and a time that counts for this boot only waits for no write.
  pub revisions_agree :
      (name : String) (offset : ℤ) (rule : TimezoneRule) (calls : List ClockCall)
      → IsCoherent (after_clock_calls calls (new name offset rule))
  unfolding new
  revisions_agree name offset rule calls = calls-IsCoherent calls (new name offset rule) refl
