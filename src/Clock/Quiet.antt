-- ===== src/Clock/Quiet.antt =====
-- services/time_service.py: what the progress of the clock and the reports on the clock chip keep.
use landy_heater.Prelude.{
  ℕ, ◌+◌, ◌≡◌, refl, Bool, true, false, not, ◌||◌, Option, none, some, String, ◌==◌, is_none,
  Result, ok, if_either,
}
use landy_heater.Prelude.Int.{ℤ, pos, negsuc}
use landy_heater.Prelude.Exec.{◌>>◌, pure, modify}
use landy_heater.Prelude.Keeps.{
  Keeps, Keeps-bind, Keeps-lift, Keeps-gets, Keeps-modify, Keeps-choice,
}
use landy_heater.Clock.Kinds.{RtcHealth, rtc_eq}
use landy_heater.Clock.State.{
  Running, TimeService, advance, advance_by, advance_running, bounded_text, clock_max_error_length,
}
use landy_heater.Clock.Corrections.{
  is_revision, faulty, report_rtc_error, recovered, written, mark_rtc_write_result,
  mark_rtc_commit_recovered,
}

module _ (ticks_diff : ℕ → ℕ → ℤ) (event_capacity : ℕ) where
  -- What the clock's progress, a fault and a recovery of the chip and a write that was confirmed keep.
  pub record Quiet (Inv : TimeService → Type 0) : Type 0 where
    pub advances :
        (t : ℕ) (r : Running) (c : TimeService)
        → c.running ≡ some r
        → Inv c
        → (e : ℕ)
        → Inv (record c {
          running = some (record r {
            utc_epoch_ms = r.utc_epoch_ms + e;
            sync_age_ms = r.sync_age_ms + e;
            anchor_ticks_ms = t;
          });
        })
    pub fails :
        (s : String) (t : ℕ) (c : TimeService)
        → Inv c
        → Inv (faulty ticks_diff event_capacity s t c)
    pub recovers :
        (b : Bool) (t : ℕ) (c : TimeService)
        → Inv c
        → Inv (recovered ticks_diff event_capacity b t c)
    pub writes : (t : ℕ) (c : TimeService) → Inv c → Inv (written ticks_diff event_capacity t c)

  module _ (Inv : TimeService → Type 0) (quiet : Quiet Inv) where
    pub advance_running-Inv :
        (o : Option Running) (t : ℕ) (c : TimeService)
        → c.running ≡ o
        → Inv c
        → Inv (advance_running ticks_diff event_capacity o t c).1
    advance_running-Inv none t c e i = i
    advance_running-Inv (some r) t c e i = by_difference (ticks_diff t r.anchor_ticks_ms)
      where
        by_difference : (d : ℤ) → Inv (advance_by ticks_diff event_capacity d r t c).1
        by_difference (pos n) = quiet.advances t r c e i n
        by_difference (negsuc n) = i

    pub advance-Keeps : (t : ℕ) → Keeps Inv (advance ticks_diff event_capacity t)
    unfolding advance
    advance-Keeps t = record { from = λ c i. advance_running-Inv c.running t c refl i }

    pub report-Keeps :
        (t : ℕ) (s : String) → Keeps Inv (report_rtc_error ticks_diff event_capacity t s)
    unfolding report_rtc_error
    report-Keeps t s =
        Keeps-bind Inv _ _ (Keeps-lift Inv (bounded_text s clock_max_error_length)) λ reason.
          Keeps-bind Inv _ _ (advance-Keeps t) λ _.
            Keeps-bind Inv _ _
              (Keeps-gets Inv (λ (c : TimeService). not (rtc_eq c.rtc_health RtcHealth.error)))
              λ changed.
                Keeps-bind Inv _ _
                  (Keeps-modify Inv (faulty ticks_diff event_capacity reason t)
                    (quiet.fails reason t))
                  λ _. Keeps-lift Inv (ok changed)

    pub mark_write-Keeps :
        (success : Bool) (n t : ℕ) (s : String)
        → Keeps Inv (mark_rtc_write_result ticks_diff event_capacity success n t s)
    unfolding mark_rtc_write_result
    mark_write-Keeps success n t s = Keeps-bind Inv _ _ (advance-Keeps t) λ _.
        Keeps-bind Inv _ _ (Keeps-gets Inv (λ (c : TimeService). c)) λ c.
          Keeps-choice Inv (not c.rtc_write_pending || not (is_revision c.rtc_write_revision n))
            (Keeps-lift Inv (ok false))
            (Keeps-choice Inv success
              (Keeps-bind Inv _ _
                (Keeps-modify Inv (written ticks_diff event_capacity t) (quiet.writes t))
                λ _. Keeps-lift Inv (ok true))
              (report-Keeps t s))

    pub mark_commit-Keeps :
        (n t : ℕ) → Keeps Inv (mark_rtc_commit_recovered ticks_diff event_capacity n t)
    unfolding mark_rtc_commit_recovered
    mark_commit-Keeps n t = record {
      from = λ c i.
          if_either (λ (p : Result Bool × TimeService). Inv p.1)
            (not (is_revision c.rtc_commit_revision n)
              || is_none c.running
              || not (c.utc_revision == n)
              || c.rtc_write_pending)
            i
            ((Keeps-bind Inv
                (advance ticks_diff event_capacity t
                  >> modify (recovered ticks_diff event_capacity true t))
                (λ _. pure true)
                (Keeps-bind Inv (advance ticks_diff event_capacity t)
                  (λ _. modify (recovered ticks_diff event_capacity true t)) (advance-Keeps t)
                  (λ _.
                    Keeps-modify Inv (recovered ticks_diff event_capacity true t)
                      (quiet.recovers true t)))
                (λ _. Keeps-lift Inv (ok true))).from
              c i);
    }
