-- ===== src/Scheduler/Handoff/Authorize.antt =====
-- app/scheduler.py: `authorize_intent`, the first phase. What the clock's `snapshot` answers is an argument.
use landy_heater.Prelude.{
  ℕ, ◌+◌, Bool, false, not, ◌&&◌, ◌||◌, Option, none, some, String, ◌==◌, if◌then◌else◌, is_none,
  Result, ok, err, key_error,
}
use landy_heater.Prelude.Int.{pos, ltb_ℤ}
use landy_heater.Prelude.Exec.{Exec, lift, ◌>>=◌}
use landy_heater.Clock.Snapshot.{ClockSnapshot}
use landy_heater.Scheduler.Types.{
  SchedulerSettings, Timer, Status, intent_created, expired, authorization_rejected,
  authorized_pending, IntentDetails, OccurrenceRecord, own, shared, StartIntent,
  AuthorizedStartIntent, SchedulerEventKind, timer_intent_expired, timer_authorization_rejected,
  timer_intent_authorized, Scheduler,
}
use landy_heater.Scheduler.Timers.{
  max_occurrence_key_length, bounded_name, find_timer, advance_epoch, announce,
}
use landy_heater.Scheduler.Trust.{canonical_clock, observed_clock}
use landy_heater.Scheduler.Steps.{put_slot, start_intent, precedes}
use landy_heater.Scheduler.Handoff.Records.{
  status_eq, find_occurrence, timer_matches_record, intent_matches_record, clock_matches,
  write_cell, with_completion,
}

module _ (k : SchedulerSettings) where
  -- `_finish_pending_record`
  unfoldable pub finish_pending :
      String
      → OccurrenceRecord
      → IntentDetails
      → Status
      → ℕ
      → String
      → SchedulerEventKind
      → Scheduler
      → Scheduler
  unfolding announce
  finish_pending id r d status now_ms reason kind s = announce k kind now_ms (record s {
    occurrences = put_slot id (own (with_completion status now_ms reason r d)) s.occurrences;
  })

  abbrev pub rejected :
      String
      → OccurrenceRecord
      → IntentDetails
      → ℕ
      → String
      → Scheduler
      → Result (Option AuthorizedStartIntent) × Scheduler
  rejected id r d now_ms reason s = (
    ok none,
    finish_pending id r d authorization_rejected now_ms reason
        (timer_authorization_rejected r.occurrence_key) s,
  )

  abbrev pub authorized :
      String
      → Timer
      → String
      → OccurrenceRecord
      → IntentDetails
      → ℕ
      → Exec Scheduler (Option AuthorizedStartIntent)
  authorized key timer id r d now_ms s =
      let token = s.authorization_sequence + 1 in
      let intent =
        start_intent k timer r.occurrence_key r.consumed_at_ms d.not_after_ms s.intent_capability
          d.intent_token in
      let authorized_record = record r {
        status = authorized_pending;
        details =
            some (record d { authorization = some (record { token = token; at_ms = now_ms }) });
      } in
      (
        ok (
            some (record {
              intent = intent;
              token = token;
              epoch = d.authorization_epoch;
              owner = s.authorization_capability;
            })),
        announce k (timer_intent_authorized key) now_ms (record s {
          authorization_sequence = token;
          store = write_cell token authorized_record s.store;
          occurrences = put_slot id (shared token) s.occurrences;
        }),
      )

  abbrev pub authorize_timer :
      String
      → Option Timer
      → String
      → OccurrenceRecord
      → IntentDetails
      → ℕ
      → Result ClockSnapshot
      → Exec Scheduler (Option AuthorizedStartIntent)
  authorize_timer key none id r d now_ms answer s = rejected id r d now_ms "timer_changed" s
  authorize_timer key (some timer) id r d now_ms answer s =
      if not (timer_matches_record timer r d)
      then rejected id r d now_ms "timer_changed" s
      else if not (clock_matches (k.ticks_diff now_ms r.consumed_at_ms) d (observed_clock answer))
      then rejected id r d now_ms "clock_trust_changed"
          (record (advance_epoch s) { baseline = none })
      else authorized key timer id r d now_ms s

  -- Whether the scheduler may authorize this intent.
  abbrev pub may_authorize :
      StartIntent → OccurrenceRecord → IntentDetails → Bool → Scheduler → Bool
  may_authorize intent r d control_available s =
      s.armed
      && not s.faulted
      && control_available
      && is_none s.active_occurrence_key
      && (d.authorization_epoch == s.authorization_epoch)
      && intent_matches_record intent r d s.intent_capability

  abbrev pub authorize_details :
      String
      → StartIntent
      → String
      → OccurrenceRecord
      → Option IntentDetails
      → ℕ
      → Bool
      → Result ClockSnapshot
      → Exec Scheduler (Option AuthorizedStartIntent)
  authorize_details key intent id r none now_ms control_available answer s =
      (err (key_error "not_after_ms"), s)
  authorize_details key intent id r (some d) now_ms control_available answer s =
      if ltb_ℤ (pos 0) (k.ticks_diff now_ms d.not_after_ms)
      then (
        ok none,
        finish_pending id r d expired now_ms "deadline_expired"
            (timer_intent_expired r.occurrence_key) s,
      )
      else if not (may_authorize intent r d control_available s)
      then rejected id r d now_ms "scheduler_or_intent_changed" s
      else authorize_timer key (find_timer r.timer_id s.timers) id r d now_ms answer s

  abbrev pub authorize_found :
      String
      → StartIntent
      → Option (String × OccurrenceRecord)
      → ℕ
      → Bool
      → Result ClockSnapshot
      → Exec Scheduler (Option AuthorizedStartIntent)
  authorize_found key intent none now_ms control_available answer s = (ok none, s)
  authorize_found key intent (some (id, r)) now_ms control_available answer s =
      if not (status_eq r.status intent_created)
        || precedes k now_ms (some r.consumed_at_ms)
        || precedes k now_ms s.last_step_ms
      then (ok none, s)
      else authorize_details key intent id r r.details now_ms control_available answer s

  -- `authorize_intent`
  unfoldable pub authorize_intent :
      StartIntent → ℕ → Bool → Result ClockSnapshot → Exec Scheduler (Option AuthorizedStartIntent)
  unfolding bounded_name find_occurrence timer_matches_record intent_matches_record canonical_clock
      finish_pending announce
  authorize_intent intent now_ms control_available answer =
      lift (bounded_name intent.occurrence_key max_occurrence_key_length false) >>= λ key s.
      authorize_found key intent (find_occurrence key s.occurrences s.store) now_ms
        control_available answer s
