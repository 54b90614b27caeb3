-- ===== src/Clock/Coherent.antt =====
-- services/time_service.py: what keeps the revisions of the clock, the write that waits and the commit in agreement.
use landy_heater.Prelude.{
  is_none-eq, ℕ, ◌+◌, ◌≡◌, refl, Bool, true, false, Option, none, some, List, String, is_some,
  is_none, Result, ok, err, Bool-cases, inl, inr, if_either, leb, length, runtime_error,
}
use landy_heater.Prelude.Int.{ℤ, pos}
use landy_heater.Prelude.Exec.{Exec, ◌>>◌, pure, modify, check}
use landy_heater.Prelude.Keeps.{
  Keeps, Keeps-bind, Keeps-lift, Keeps-gets, Keeps-modify, Keeps-choice,
}
use landy_heater.Clock.Quiet.{Quiet, advance-Keeps, report-Keeps}
use landy_heater.Clock.Calendar.{civil_to_utc_seconds, seconds_to_civil}
use landy_heater.Clock.Kinds.{ClockSource, RtcHealth, rtc_eq}
use landy_heater.Clock.Zone.{TimezoneRule, utc_seconds_to_local}
use landy_heater.Clock.State.{
  Running, ClockEventKind, ClockEvent, volatile_browser_time_accepted, TimeService, check_unlocked,
  emit, bounded_text, clock_max_error_length, validate_timezone,
}
use landy_heater.Clock.Corrections.{
  seconds_of, is_rtc, synchronized, shown_second, correct, refresh, rezone, stop_clock,
  set_utc_datetime, set_volatile_browser_time, faulty, report_rtc_error, recovered, refresh_running,
  is_near, shown_by, zoned, same_zone, written, release, may_commit, locked, invalidated,
  invalidate,
}
use landy_heater.Clock.Agree.{
  IsCoherent, IsFree, agree_running, agree_written, agree_locked, agree_synchronized,
  agree_volatile,
}

module _ (ticks_diff : ℕ → ℕ → ℤ) (event_capacity : ℕ) where
  -- What holds with every list of events holds after an event.
  pub emit-Inv :
      (P : TimeService → Type 0) (kind : ClockEventKind) (t : ℕ) (c : TimeService)
      → ((es : List ClockEvent) (n : ℕ) → P (record c { events = es; events_dropped = n }))
      → P (emit ticks_diff event_capacity kind t c)
  unfolding emit
  emit-Inv P kind t c h = if_either P (leb event_capacity (length c.events)) (h _ _) (h _ _)

  pub quiet-IsCoherent : Quiet ticks_diff event_capacity IsCoherent
  unfolding faulty recovered written
  quiet-IsCoherent = record {
    advances = λ t r c e i n.
        agree_running c.rtc_write_pending c.rtc_write_revision c.utc_revision c.running r
          c.rtc_commit_revision c.volatile_browser_time e i;
    fails = λ s t c i.
        if_either IsCoherent (rtc_eq c.rtc_health RtcHealth.error) i
          (emit-Inv IsCoherent _ t _ (λ es n. i));
    recovers = λ b t c i.
        if_either IsCoherent (rtc_eq c.rtc_health RtcHealth.ok) i
          (emit-Inv IsCoherent _ t _ (λ es n. i));
    writes = λ t c i. emit-Inv IsCoherent _ t _ (λ es n.
        agree_written c.rtc_write_pending c.rtc_write_revision c.utc_revision (is_some c.running)
          c.rtc_commit_revision c.volatile_browser_time i);
  }

  -- The same while no commit is locked.
  quiet-IsFree : Quiet ticks_diff event_capacity IsFree
  unfolding faulty recovered written
  quiet-IsFree = record {
    advances = λ t r c e i n. (quiet-IsCoherent.advances t r c e i.0 n, i.1);
    fails = λ s t c i.
        if_either IsFree (rtc_eq c.rtc_health RtcHealth.error) i
          (emit-Inv IsFree _ t _ (λ es n. i));
    recovers = λ b t c i.
        if_either IsFree (rtc_eq c.rtc_health RtcHealth.ok) i (emit-Inv IsFree _ t _ (λ es n. i));
    writes = λ t c i. emit-Inv IsFree _ t _ (λ es n. (
      agree_written c.rtc_write_pending c.rtc_write_revision c.utc_revision (is_some c.running)
          c.rtc_commit_revision c.volatile_browser_time i.0,
      i.1,
    ));
  }

  -- An operation that a commit refuses works on a state without one.
  pub checked_then :
      {A : Type 0} (rest : Exec TimeService A) (Inv : TimeService → Type 0) (b : Bool)
      (c : TimeService)
      → (b ≡ true → Inv (rest c).1)
      → Inv c
      → Inv ((check b (runtime_error "RTC commit is in progress") >> rest) c).1
  checked_then rest Inv true c k i = k refl
  checked_then rest Inv false c k i = i

  pub unlocked_then :
      {A : Type 0} (rest : Exec TimeService A)
      → Keeps IsFree rest
      → Keeps IsCoherent (check_unlocked >> rest)
  unlocked_then rest k = record {
    from = λ c i.
        checked_then rest IsCoherent (is_none c.rtc_commit_revision) c
          (λ free. (k.from c (i, is_none-eq c.rtc_commit_revision free)).0) i;
  }

  synchronized-IsFree :
      (n : ℕ) (source : ClockSource) (t : ℕ) (c : TimeService)
      → IsFree c
      → IsFree (synchronized ticks_diff event_capacity n source t c)
  unfolding synchronized
  synchronized-IsFree n source t c i =
      emit-Inv IsFree _ t _
        (λ es m. (rw (i.1) (agree_synchronized (is_rtc source) (c.utc_revision + 1)), i.1))

  shown-Keeps :
      (Inv : TimeService → Type 0) (y mo d h mi s : ℕ)
      → Keeps Inv (shown_second ticks_diff event_capacity y mo d h mi s)
  shown-Keeps Inv y mo d h mi s =
      Keeps-bind Inv _ _ (Keeps-lift Inv (civil_to_utc_seconds y mo d h mi s)) λ n.
        Keeps-bind Inv _ _ (Keeps-gets Inv (λ (c : TimeService). c)) λ c.
          Keeps-bind Inv _ _
            (Keeps-lift Inv (utc_seconds_to_local (pos n) c.timezone_rule c.utc_offset_minutes))
            λ p. Keeps-lift Inv (ok n)

  correct-Keeps :
      (y mo d h mi s : ℕ) (source : ClockSource) (t : ℕ)
      → Keeps IsFree (correct ticks_diff event_capacity y mo d h mi s source t)
  unfolding correct
  correct-Keeps y mo d h mi s source t =
      Keeps-bind IsFree _ _ (shown-Keeps IsFree y mo d h mi s) λ n.
        Keeps-bind IsFree _ _ (advance-Keeps ticks_diff event_capacity IsFree quiet-IsFree t) λ _.
          Keeps-bind IsFree _ _
            (Keeps-modify IsFree (synchronized ticks_diff event_capacity n source t)
              (synchronized-IsFree n source t))
            λ _. Keeps-lift IsFree (ok true)

  pub set_utc-Keeps :
      (y mo d h mi s : ℕ) (source : ClockSource) (t : ℕ)
      → Keeps IsCoherent (set_utc_datetime ticks_diff event_capacity y mo d h mi s source t)
  unfolding set_utc_datetime
  set_utc-Keeps y mo d h mi s source t =
      unlocked_then (correct ticks_diff event_capacity y mo d h mi s source t)
        (correct-Keeps y mo d h mi s source t)

  set_utc-IsFree :
      (y mo d h mi s : ℕ) (source : ClockSource) (t : ℕ)
      → Keeps IsFree (set_utc_datetime ticks_diff event_capacity y mo d h mi s source t)
  unfolding set_utc_datetime
  set_utc-IsFree y mo d h mi s source t = record {
    from = λ c i.
        checked_then (correct ticks_diff event_capacity y mo d h mi s source t) IsFree
          (is_none c.rtc_commit_revision) c
          (λ free. (correct-Keeps y mo d h mi s source t).from c i) i;
  }

  recover-Keeps : (t : ℕ) → Keeps IsFree (modify (recovered ticks_diff event_capacity false t))
  recover-Keeps t =
      Keeps-modify IsFree (recovered ticks_diff event_capacity false t)
        (quiet-IsFree.recovers false t)

  refresh_running-Keeps :
      (n y mo d h mi s t : ℕ) (o : Option Running) (pending : Bool)
      → Keeps IsFree (refresh_running ticks_diff event_capacity n y mo d h mi s t o pending)
  refresh_running-Keeps n y mo d h mi s t none pending =
      set_utc-IsFree y mo d h mi s ClockSource.rtc t
  refresh_running-Keeps n y mo d h mi s t (some r) pending =
      Keeps-choice IsFree (is_near ticks_diff event_capacity n (seconds_of r))
        (Keeps-choice IsFree pending (Keeps-lift IsFree (ok false)) (
          Keeps-bind IsFree (modify (recovered ticks_diff event_capacity false t)) (λ _. pure false)
            (recover-Keeps t) λ _. Keeps-lift IsFree (ok false)))
        (Keeps-choice IsFree pending
          (Keeps-bind IsFree
            (report_rtc_error ticks_diff event_capacity t "rtc_refresh_conflicts_pending_write")
            (λ _. pure false)
            (report-Keeps ticks_diff event_capacity IsFree quiet-IsFree t
              "rtc_refresh_conflicts_pending_write")
            (λ _. Keeps-lift IsFree (ok false)))
          (set_utc-IsFree y mo d h mi s ClockSource.rtc t))

  pub refresh-Keeps :
      (y mo d h mi s t : ℕ) → Keeps IsFree (refresh ticks_diff event_capacity y mo d h mi s t)
  unfolding refresh
  refresh-Keeps y mo d h mi s t = Keeps-bind IsFree _ _ (shown-Keeps IsFree y mo d h mi s) λ n.
      Keeps-bind IsFree _ _ (advance-Keeps ticks_diff event_capacity IsFree quiet-IsFree t) λ _.
        Keeps-bind IsFree _ _ (Keeps-gets IsFree (λ (c : TimeService). c))
          λ c. refresh_running-Keeps n y mo d h mi s t c.running c.rtc_write_pending

  zoned-IsFree :
      (name : String) (offset : ℤ) (rule : TimezoneRule) (t : ℕ) (c : TimeService)
      → IsFree c
      → IsFree (zoned ticks_diff event_capacity name offset rule t c)
  unfolding zoned
  zoned-IsFree name offset rule t c i = emit-Inv IsFree _ t _ (λ es n. i)

  pub rezone-Keeps :
      (name : String) (offset : ℤ) (t : ℕ) (rule : TimezoneRule)
      → Keeps IsFree (rezone ticks_diff event_capacity name offset t rule)
  unfolding rezone
  rezone-Keeps raw_name offset t rule =
      Keeps-bind IsFree _ _ (Keeps-lift IsFree (validate_timezone raw_name offset rule)) λ name.
        Keeps-bind IsFree _ _ (advance-Keeps ticks_diff event_capacity IsFree quiet-IsFree t) λ _.
          Keeps-bind IsFree _ _ (Keeps-gets IsFree (λ (c : TimeService). c)) λ c.
            Keeps-bind IsFree _ _
              (Keeps-lift IsFree (shown_by ticks_diff event_capacity c.running rule offset))
              λ _.
                Keeps-choice IsFree (same_zone ticks_diff event_capacity name offset rule c)
                  (Keeps-lift IsFree (ok false))
                  (Keeps-bind IsFree (modify (zoned ticks_diff event_capacity name offset rule t))
                    (λ _. pure true)
                    (Keeps-modify IsFree (zoned ticks_diff event_capacity name offset rule t)
                      (zoned-IsFree name offset rule t))
                    λ _. Keeps-lift IsFree (ok true))

  invalidated-IsFree :
      (s : String) (t : ℕ) (c : TimeService)
      → IsFree c
      → IsFree (invalidated ticks_diff event_capacity s t c)
  unfolding invalidated
  invalidated-IsFree s t c i = emit-Inv IsFree _ t _ (λ es n. (rw (i.1) refl, i.1))

  stop_clock-Keeps : (t : ℕ) (s : String) → Keeps IsFree (stop_clock ticks_diff event_capacity t s)
  unfolding stop_clock
  stop_clock-Keeps t s =
      Keeps-bind IsFree _ _ (Keeps-lift IsFree (bounded_text s clock_max_error_length)) λ reason.
        Keeps-bind IsFree _ _ (advance-Keeps ticks_diff event_capacity IsFree quiet-IsFree t) λ _.
          Keeps-bind IsFree _ _ (Keeps-gets IsFree (λ (c : TimeService). is_some c.running))
            λ changed.
              Keeps-bind IsFree _ _
                (Keeps-modify IsFree (invalidated ticks_diff event_capacity reason t)
                  (invalidated-IsFree reason t))
                λ _. Keeps-lift IsFree (ok changed)

  pub invalidate-Keeps :
      (t : ℕ) (s : String) → Keeps IsCoherent (invalidate ticks_diff event_capacity t s)
  unfolding invalidate
  invalidate-Keeps t s =
      unlocked_then (stop_clock ticks_diff event_capacity t s) (stop_clock-Keeps t s)

  pub volatile-Keeps :
      (n : ℤ) (t : ℕ) → Keeps IsCoherent (set_volatile_browser_time ticks_diff event_capacity n t)
  unfolding set_volatile_browser_time
  volatile-Keeps n t =
      Keeps-bind IsCoherent _ _ (Keeps-lift IsCoherent (seconds_to_civil n)) λ civil.
        Keeps-bind IsCoherent _ _
          (set_utc-Keeps civil.year civil.month civil.day civil.hour civil.minute civil.second
            ClockSource.browser t)
          λ b.
            Keeps-bind IsCoherent _ _
              (Keeps-modify IsCoherent
                (λ c.
                  emit ticks_diff event_capacity (volatile_browser_time_accepted c.clock_revision) t
                    (record c {
                      rtc_write_pending = false;
                      rtc_write_revision = none;
                      volatile_browser_time = true;
                    }))
                (λ c i. emit-Inv IsCoherent _ t _ (λ es m.
                  agree_volatile c.rtc_write_pending c.rtc_write_revision c.utc_revision
                    (is_some c.running) c.rtc_commit_revision c.volatile_browser_time i)))
              λ _. Keeps-lift IsCoherent (ok true)

  pub locked-IsCoherent :
      (n : ℕ) (p : Result (Unit {0}) × TimeService)
      → IsCoherent (release p.1)
      → p.1.rtc_commit_revision ≡ some n
      → IsCoherent (locked ticks_diff event_capacity n p).1
  locked-IsCoherent n (err e, c) h k = h
  locked-IsCoherent n (ok u, c) h k = elim (Bool-cases (may_commit n c)) [
    | inl may ↦ rw (may) (
        rw (k) (
          agree_locked c.rtc_write_pending c.rtc_write_revision c.utc_revision c.running
            c.volatile_browser_time n h may))
    | inr not_now ↦ rw (not_now) h
  ]
