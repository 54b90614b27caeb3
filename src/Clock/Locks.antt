-- ===== src/Clock/Locks.antt =====
-- services/time_service.py: what the lock of a commit holds back.
use landy_heater.Prelude.{
  or_left, or_right, ℕ, ◌≡◌, refl, Bool, true, false, ◌||◌, none, some, List, [], ◌∷◌, String, ◌==◌,
  is_none, ok, if_either,
}
use landy_heater.Prelude.Int.{ℤ}
use landy_heater.Prelude.Exec.{Exec, ◌>>◌}
use landy_heater.Prelude.Keeps.{Keeps, Keeps-bind, Keeps-lift, Keeps-modify}
use landy_heater.Clock.Calendar.{seconds_to_civil}
use landy_heater.Clock.Kinds.{ClockSource, RtcHealth, rtc_eq}
use landy_heater.Clock.State.{TimeService, volatile_browser_time_accepted, check_unlocked, emit}
use landy_heater.Clock.Corrections.{
  set_utc_datetime, correct, set_volatile_browser_time, faulty, recovered, written,
  refresh_rtc_datetime, refresh, configure_timezone, rezone, begin_rtc_commit, end_rtc_commit,
  invalidate, stop_clock,
}
use landy_heater.Clock.Quiet.{Quiet, report-Keeps, mark_write-Keeps, mark_commit-Keeps}
use landy_heater.Clock.Coherent.{emit-Inv, checked_then}
use landy_heater.Clock.Calls.{
  ClockCall, set_utc_call, refresh_call, volatile_call, timezone_call, error_call, invalidate_call,
  written_call, begin_call, recovered_call, end_call, snapshot_call, after_clock_call,
  after_clock_calls, snapshot-Keeps,
}

-- A commit of revision `n` holds the lock, and the revisions are these.
abbrev pub IsLocked : (n utc clock timezone : ℕ) → TimeService → Type 0
IsLocked n utc clock timezone c =
    (c.rtc_commit_revision ≡ some n)
    × (c.utc_revision ≡ utc)
    × (c.clock_revision ≡ clock)
    × (c.timezone_revision ≡ timezone)

abbrev is_end : ℕ → ClockCall → Bool
is_end n (end_call m) = n == m
is_end n _ = false

-- Whether a call ends the commit of revision `n`.
abbrev pub ends : ℕ → List ClockCall → Bool
ends n [] = false
ends n (call ∷ rest) = is_end n call || ends n rest

module _ (ticks_diff : ℕ → ℕ → ℤ) (event_capacity : ℕ) (n utc clock timezone : ℕ) where
  abbrev Locked : TimeService → Type 0
  Locked c = IsLocked n utc clock timezone c

  quiet-Locked : Quiet ticks_diff event_capacity Locked
  unfolding faulty recovered written
  quiet-Locked = record {
    advances = λ t r c e i n. i;
    fails = λ s t c i.
        if_either Locked (rtc_eq c.rtc_health RtcHealth.error) i
          (emit-Inv ticks_diff event_capacity Locked _ t _ (λ es n. i));
    recovers = λ b t c i.
        if_either Locked (rtc_eq c.rtc_health RtcHealth.ok) i
          (emit-Inv ticks_diff event_capacity Locked _ t _ (λ es n. i));
    writes = λ t c i. emit-Inv ticks_diff event_capacity Locked _ t _ (λ es n. i);
  }

  refused : {A : Type 0} (rest : Exec TimeService A) → Keeps Locked (check_unlocked >> rest)
  refused rest = record {
    from = λ c i.
        checked_then ticks_diff event_capacity rest Locked (is_none c.rtc_commit_revision) c
          (λ free. let k = i.0 in cc) i;
  }

  set_utc-Locked :
      (y mo d h mi s : ℕ) (source : ClockSource) (t : ℕ)
      → Keeps Locked (set_utc_datetime ticks_diff event_capacity y mo d h mi s source t)
  unfolding set_utc_datetime
  set_utc-Locked y mo d h mi s source t =
      refused (correct ticks_diff event_capacity y mo d h mi s source t)

  volatile-Locked :
      (m : ℤ) (t : ℕ) → Keeps Locked (set_volatile_browser_time ticks_diff event_capacity m t)
  unfolding set_volatile_browser_time
  volatile-Locked m t = Keeps-bind Locked _ _ (Keeps-lift Locked (seconds_to_civil m)) λ civil.
      Keeps-bind Locked _ _
        (set_utc-Locked civil.year civil.month civil.day civil.hour civil.minute civil.second
          ClockSource.browser t)
        λ b.
          Keeps-bind Locked _ _
            (Keeps-modify Locked
              (λ c.
                emit ticks_diff event_capacity (volatile_browser_time_accepted c.clock_revision) t
                  (record c {
                    rtc_write_pending = false;
                    rtc_write_revision = none;
                    volatile_browser_time = true;
                  }))
              (λ c i. emit-Inv ticks_diff event_capacity Locked _ t _ (λ es k. i)))
            λ _. Keeps-lift Locked (ok true)

  invalidate-Locked : (t : ℕ) (s : String) → Keeps Locked (invalidate ticks_diff event_capacity t s)
  unfolding invalidate
  invalidate-Locked t s = refused (stop_clock ticks_diff event_capacity t s)

  begin-Locked :
      (m t : ℕ) (c : TimeService)
      → Locked c
      → Locked (begin_rtc_commit ticks_diff event_capacity m t c).1
  unfolding begin_rtc_commit
  begin-Locked m t c i = rw (i.0) (refl, i.1, i.2, i.3)

  end-Locked :
      (m : ℕ) (c : TimeService)
      → (n == m) ≡ false
      → Locked c
      → Locked (end_rtc_commit ticks_diff event_capacity m c).1
  unfolding end_rtc_commit
  end-Locked m c other i = rw (i.0, other) (refl, i.1, i.2, i.3)

  call-Locked :
      (call : ClockCall) (c : TimeService)
      → is_end n call ≡ false
      → Locked c
      → Locked (after_clock_call ticks_diff event_capacity call c)
  unfolding refresh_rtc_datetime configure_timezone
  call-Locked (set_utc_call y mo d h mi s source t) c _ =
      (set_utc-Locked y mo d h mi s source t).from c
  call-Locked (refresh_call y mo d h mi s source t) c _ =
      (refused (refresh ticks_diff event_capacity y mo d h mi s t)).from c
  call-Locked (volatile_call m t) c _ = (volatile-Locked m t).from c
  call-Locked (timezone_call name offset t rule) c _ =
      (refused (rezone ticks_diff event_capacity name offset t rule)).from c
  call-Locked (error_call t s) c _ =
      (report-Keeps ticks_diff event_capacity Locked quiet-Locked t s).from c
  call-Locked (invalidate_call t s) c _ = (invalidate-Locked t s).from c
  call-Locked (written_call b m t s) c _ =
      (mark_write-Keeps ticks_diff event_capacity Locked quiet-Locked b m t s).from c
  call-Locked (begin_call m t) c _ = begin-Locked m t c
  call-Locked (recovered_call m t) c _ =
      (mark_commit-Keeps ticks_diff event_capacity Locked quiet-Locked m t).from c
  call-Locked (end_call m) c other = end-Locked m c other
  call-Locked (snapshot_call t) c _ =
      (snapshot-Keeps ticks_diff event_capacity Locked
          (λ t. invalidate-Locked t "clock_range_exceeded") quiet-Locked t).from
        c

  calls-Locked :
      (calls : List ClockCall) (c : TimeService)
      → ends n calls ≡ false
      → Locked c
      → Locked (after_clock_calls ticks_diff event_capacity calls c)
  calls-Locked [] c h i = i
  calls-Locked (call ∷ rest) c h i =
      calls-Locked rest (after_clock_call ticks_diff event_capacity call c)
        (or_right (is_end n call) (ends n rest) h)
        (call-Locked call c (or_left (is_end n call) (ends n rest) h) i)

-- While a commit of the chip's time is locked, calls in any order change neither the time nor the timezone that timers
-- are judged by: until its end is called for the revision that it was begun with, the lock stays, and the revisions of
-- the time, of the clock and of the timezone are those at its begin.
pub commit_locks :
    (ticks_diff : ℕ → ℕ → ℤ) (event_capacity n : ℕ) (calls : List ClockCall) (c : TimeService)
    → c.rtc_commit_revision ≡ some n
    → ends n calls ≡ false
    → IsLocked n c.utc_revision c.clock_revision c.timezone_revision
        (after_clock_calls ticks_diff event_capacity calls c)
commit_locks ticks_diff event_capacity n calls c h k =
    calls-Locked ticks_diff event_capacity n c.utc_revision c.clock_revision c.timezone_revision
      calls c k (h, refl, refl, refl)
