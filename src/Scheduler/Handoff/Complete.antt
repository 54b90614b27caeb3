-- ===== src/Scheduler/Handoff/Complete.antt =====
-- app/scheduler.py: `complete_intent`, the second phase, and the end of the session. The snapshot of the request is an
-- argument, `none` for what is no dictionary.
use text.Mathlib.Text.{◌==◌ as str_eq}
use landy_heater.Prelude.{
  ℕ, Bool, true, false, not, ◌&&◌, ◌||◌, Option, none, some, String, ◌==◌, if◌then◌else◌, ok, err,
  key_error, type_error,
}
use landy_heater.Prelude.Exec.{Exec, lift, ◌>>=◌}
use landy_heater.AppState.{Requested}
use landy_heater.Scheduler.Types.{
  SchedulerSettings, authorized_pending, accepted, application_failed, completed, overridden,
  Authorization, IntentDetails, overridden_at, ended_at, OccurrenceRecord, AuthorizedStartIntent,
  timer_intent_accepted, timer_intent_application_failed, manual_timer_override,
  timer_session_completed, Scheduler,
}
use landy_heater.Scheduler.Timers.{max_occurrence_key_length, bounded_name, announce, latch_fault}
use landy_heater.Scheduler.Steps.{find_slot, precedes}
use landy_heater.Scheduler.Handoff.Records.{
  status_eq, intent_matches_record, requested_state_matches, write_cell, with_completion,
  completed_at, replace_current,
}

module _ (k : SchedulerSettings) where
  abbrev pub confirmed :
      Bool → ℕ → String → OccurrenceRecord → IntentDetails → ℕ → Scheduler → Scheduler
  confirmed applied token key r d now_ms s =
      let reason =
        if applied
        then "application_confirmed"
        else "application_confirmed_despite_failed_result" in
      let next = record s {
        store = write_cell token (with_completion accepted now_ms reason r d) s.store;
        active_occurrence_key = some key;
        active_occurrence = some token;
      } in
      announce k (timer_intent_accepted key) now_ms
        (if applied then next else latch_fault "scheduler_application_result_mismatch" next)

  abbrev pub is_refusal : Option Requested → Bool
  is_refusal none = false
  is_refusal (some requested) = not requested.on

  abbrev pub failed :
      ℕ
      → String
      → String
      → Bool
      → String
      → OccurrenceRecord
      → IntentDetails
      → ℕ
      → Scheduler
      → Scheduler
  failed token key reason latches fault r d now_ms s =
      let next = record s {
        store = write_cell token (with_completion application_failed now_ms reason r d) s.store;
      } in
      announce k (timer_intent_application_failed key) now_ms
        (if latches then latch_fault fault next else next)

  -- Whether another occurrence is active.
  abbrev pub is_other : String → Option String → Bool
  is_other key none = false
  is_other key (some active) = not (str_eq active key)

  abbrev pub commit_completion :
      AuthorizedStartIntent
      → Bool
      → Option Requested
      → OccurrenceRecord
      → IntentDetails
      → ℕ
      → Exec Scheduler Bool
  commit_completion a applied requested r d now_ms s =
      let key = a.intent.occurrence_key in
      if requested_state_matches d requested
      then (if is_other key s.active_occurrence_key
          then (
            ok false,
            failed a.token key "active_occurrence_conflict" true
                "scheduler_active_occurrence_conflict" r d now_ms s,
          )
          else (ok true, confirmed applied a.token key r d now_ms s))
      else (
        ok false,
        failed a.token key
            (if applied
              then "application_state_mismatch"
              else if is_refusal requested
              then "application_rejected"
              else "application_state_unknown")
            (applied || not (is_refusal requested)) "scheduler_application_state_mismatch" r d
            now_ms s,
      )

  -- Whether the record is bound to the authorization.
  abbrev pub is_bound :
      AuthorizedStartIntent
      → ℕ
      → OccurrenceRecord
      → IntentDetails
      → Option Authorization
      → Scheduler
      → Bool
  is_bound a now_ms r d none s = false
  is_bound a now_ms r d (some authorization) s =
      (authorization.token == a.token)
      && (d.authorization_epoch == a.epoch)
      && not (precedes k now_ms (some authorization.at_ms))
      && intent_matches_record a.intent r d s.intent_capability

  abbrev pub complete_details :
      AuthorizedStartIntent
      → Bool
      → Option Requested
      → OccurrenceRecord
      → Option IntentDetails
      → ℕ
      → Exec Scheduler Bool
  complete_details a applied requested r none now_ms s = (err (key_error "authorization_token"), s)
  complete_details a applied requested r (some d) now_ms s =
      if is_bound a now_ms r d d.authorization s
      then commit_completion a applied requested r d now_ms s
      else (ok false, s)

  abbrev pub complete_record :
      AuthorizedStartIntent → Bool → Option Requested → OccurrenceRecord → ℕ → Exec Scheduler Bool
  complete_record a applied requested r now_ms s =
      if str_eq r.occurrence_key a.intent.occurrence_key && status_eq r.status authorized_pending
      then complete_details a applied requested r r.details now_ms s
      else (ok false, s)

  -- `complete_intent`
  unfoldable pub complete_intent :
      AuthorizedStartIntent → Bool → Option Requested → ℕ → Exec Scheduler Bool
  unfolding intent_matches_record requested_state_matches announce latch_fault
  complete_intent a applied requested now_ms s =
      if a.owner == s.authorization_capability
      then complete_record a applied requested (s.store a.token) now_ms s
      else (ok false, s)

  -- What both operations write that release the active occurrence.
  abbrev pub released : OccurrenceRecord → Scheduler → Scheduler
  released r s = record s {
    occurrences = replace_current (find_slot r.timer_id s.occurrences) s.store r s.occurrences;
    active_occurrence_key = none;
    active_occurrence = none;
  }

  -- The tests of the active occurrence that both operations begin with; `none` where they raise.
  abbrev pub is_releasable : String → ℕ → OccurrenceRecord → Scheduler → Option Bool
  is_releasable key now_ms r s =
      if str_eq r.occurrence_key key && status_eq r.status accepted
      then elim (completed_at r) [
        | none ↦ none
        | some at_ms ↦
            some (not (precedes k now_ms (some at_ms)) && not (precedes k now_ms s.last_step_ms))
      ]
      else some false

  abbrev pub override_when : Option Bool → String → ℕ → OccurrenceRecord → Exec Scheduler Bool
  override_when none key now_ms r s = (err (type_error "completed_at_ms"), s)
  override_when (some releasable) key now_ms r s =
      let ended = record r {
        overridden = true;
        status = overridden;
        ending = some (overridden_at now_ms);
      } in
      if releasable && not r.overridden
      then (
        ok true,
        announce k (manual_timer_override key) now_ms
            (record (released ended s) { last_override = some ended }),
      )
      else (ok false, s)

  abbrev pub override_active : String → ℕ → Option ℕ → Exec Scheduler Bool
  override_active key now_ms none s = (ok false, s)
  override_active key now_ms (some token) s =
      override_when (is_releasable key now_ms (s.store token) s) key now_ms (s.store token) s

  -- `mark_manual_override`
  unfoldable pub mark_manual_override : String → ℕ → Exec Scheduler Bool
  unfolding bounded_name announce
  mark_manual_override raw_key now_ms =
      lift (bounded_name raw_key max_occurrence_key_length false) >>= λ key s.
      override_active key now_ms s.active_occurrence s

  abbrev pub end_when : Option Bool → String → String → ℕ → OccurrenceRecord → Exec Scheduler Bool
  end_when none key reason now_ms r s = (err (type_error "completed_at_ms"), s)
  end_when (some releasable) key reason now_ms r s =
      let ended = record r { status = completed; ending = some (ended_at now_ms reason) } in
      if releasable
      then (ok true, announce k (timer_session_completed key reason) now_ms (released ended s))
      else (ok false, s)

  abbrev pub end_active : String → String → ℕ → Option ℕ → Exec Scheduler Bool
  end_active key reason now_ms none s = (ok false, s)
  end_active key reason now_ms (some token) s =
      end_when (is_releasable key now_ms (s.store token) s) key reason now_ms (s.store token) s

  -- `mark_active_complete`
  unfoldable pub mark_active_complete : String → ℕ → String → Exec Scheduler Bool
  unfolding bounded_name announce
  mark_active_complete raw_key now_ms raw_reason =
      lift (bounded_name raw_key max_occurrence_key_length false) >>= λ key.
      lift (bounded_name raw_reason 80 false) >>= λ reason s.
      end_active key reason now_ms s.active_occurrence s
