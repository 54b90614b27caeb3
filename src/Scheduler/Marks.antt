-- ===== src/Scheduler/Marks.antt =====
-- app/scheduler.py: the operations other than `step` leave the mark of what is consumed.
use landy_heater.Prelude.{
  ℕ, ◌+◌, ◌≡◌, Bool, true, false, not, ◌&&◌, ◌||◌, Option, none, some, List, [], String, ltb, ◌==◌,
  Result, ok, err, if_either, length,
}
use landy_heater.Prelude.Int.{pos, ltb_ℤ}
use landy_heater.Prelude.Exec.{lift, ◌>>=◌}
use landy_heater.Prelude.Keeps.{Keeps, Keeps-bind, Keeps-lift}
use landy_heater.AppState.{Requested}
use landy_heater.Clock.Snapshot.{ClockSnapshot}
use landy_heater.Scheduler.Types.{
  SchedulerSettings, TimerDefinition, Timer, Status, IntentDetails, OccurrenceRecord, StartIntent,
  AuthorizedStartIntent, SchedulerEventKind, Scheduler,
}
use landy_heater.Scheduler.Timers.{
  max_occurrence_key_length, bounded_name, find_timer, announce, add_timers, replaced,
  replace_timers, latch_fault, arm, disarm, reset_fault,
}
use landy_heater.Scheduler.Trust.{observed_clock}
use landy_heater.Scheduler.Handoff.{
  find_occurrence, timer_matches_record, clock_matches, requested_state_matches, finish_pending,
  authorize_timer, may_authorize, authorize_details, authorize_found, authorize_intent, failed,
  is_refusal, is_other, commit_completion, is_bound, complete_details, complete_intent,
  is_releasable, override_when, override_active, mark_manual_override, end_when, end_active,
  mark_active_complete,
}
use landy_heater.Scheduler.Due.{announce-Inv, latch-Inv}

module _ (k : SchedulerSettings) (mark : Option ℕ) where
  abbrev pub Marked : Scheduler → Type 0
  Marked s = s.consumed_local_high_water ≡ mark

  announce-Marked :
      (kind : SchedulerEventKind) (t : ℕ) (s : Scheduler) → Marked s → Marked (announce k kind t s)
  announce-Marked kind t s i = announce-Inv Marked k kind t s (λ es n. i)

  latch-Marked : (reason : String) (s : Scheduler) → Marked s → Marked (latch_fault reason s)
  latch-Marked reason s i = latch-Inv Marked reason s i i

  replaced-Marked : (r : Result (List Timer)) (s : Scheduler) → Marked s → Marked (replaced k r s).1
  replaced-Marked (err e) s i = i
  replaced-Marked (ok timers) s i = if_either Marked s.armed i i

  pub replace-Marked :
      (definitions : List TimerDefinition) (s : Scheduler)
      → Marked s
      → Marked (replace_timers k definitions s).1
  unfolding replace_timers
  replace-Marked definitions s i =
      if_either (λ (p : Result Bool × Scheduler). Marked p.1)
        (ltb k.max_timers (length definitions)) i
        (replaced-Marked (add_timers k definitions (s.configuration_revision + 1) []) s i)

  pub arm-Marked : (s : Scheduler) → Marked s → Marked (arm s).1
  unfolding arm
  arm-Marked s i = if_either (λ (p : Bool × Scheduler). Marked p.1) (s.armed || s.faulted) i i

  pub disarm-Marked : (s : Scheduler) → Marked s → Marked (disarm s).1
  unfolding disarm
  disarm-Marked s i = if_either Marked s.armed i i

  pub reset-Marked : (s : Scheduler) → Marked s → Marked (reset_fault s).1
  unfolding reset_fault
  reset-Marked s i = if_either (λ (p : Bool × Scheduler). Marked p.1) (not s.faulted) i i

  finish-Marked :
      (id : String) (r : OccurrenceRecord) (d : IntentDetails) (status : Status) (t : ℕ)
      (reason : String) (kind : SchedulerEventKind) (s : Scheduler)
      → Marked s
      → Marked (finish_pending k id r d status t reason kind s)
  unfolding finish_pending
  finish-Marked id r d status t reason kind s i = announce-Marked kind t _ i

  abbrev pub After : Result (Option AuthorizedStartIntent) × Scheduler → Type 0
  After p = Marked p.1

  authorize_timer-Marked :
      (key : String) (o : Option Timer) (id : String) (r : OccurrenceRecord) (d : IntentDetails)
      (t : ℕ) (answer : Result ClockSnapshot) (s : Scheduler)
      → Marked s
      → After (authorize_timer k key o id r d t answer s)
  authorize_timer-Marked key none id r d t answer s i = finish-Marked id r d _ t _ _ s i
  authorize_timer-Marked key (some timer) id r d t answer s i =
      if_either After (not (timer_matches_record timer r d)) (finish-Marked id r d _ t _ _ s i) (
        if_either After
          (not (clock_matches (k.ticks_diff t r.consumed_at_ms) d (observed_clock answer)))
          (finish-Marked id r d _ t _ _ _ i) (announce-Marked _ t _ i))

  authorize_details-Marked :
      (key : String) (intent : StartIntent) (id : String) (r : OccurrenceRecord)
      (o : Option IntentDetails) (t : ℕ) (b : Bool) (answer : Result ClockSnapshot) (s : Scheduler)
      → Marked s
      → After (authorize_details k key intent id r o t b answer s)
  authorize_details-Marked key intent id r none t b answer s i = i
  authorize_details-Marked key intent id r (some d) t b answer s i =
      if_either After (ltb_ℤ (pos 0) (k.ticks_diff t d.not_after_ms))
        (finish-Marked id r d _ t _ _ s i)
        (if_either After (not (may_authorize k intent r d b s)) (finish-Marked id r d _ t _ _ s i)
          (authorize_timer-Marked key (find_timer r.timer_id s.timers) id r d t answer s i))

  authorize_found-Marked :
      (key : String) (intent : StartIntent) (o : Option (String × OccurrenceRecord)) (t : ℕ)
      (b : Bool) (answer : Result ClockSnapshot) (s : Scheduler)
      → Marked s
      → After (authorize_found k key intent o t b answer s)
  authorize_found-Marked key intent none t b answer s i = i
  authorize_found-Marked key intent (some (id, r)) t b answer s i =
      if_either After _ i (authorize_details-Marked key intent id r r.details t b answer s i)

  pub authorize-Marked :
      (intent : StartIntent) (t : ℕ) (b : Bool) (answer : Result ClockSnapshot)
      → Keeps Marked (authorize_intent k intent t b answer)
  unfolding authorize_intent
  authorize-Marked intent t b answer =
      Keeps-bind Marked (lift (bounded_name intent.occurrence_key max_occurrence_key_length false))
        (λ key s.
          authorize_found k key intent (find_occurrence key s.occurrences s.store) t b answer s)
        (Keeps-lift Marked _)
        λ key. record {
          from = λ s i.
              authorize_found-Marked key intent (find_occurrence key s.occurrences s.store) t b
                answer s i;
        }

  abbrev pub Completed : Result Bool × Scheduler → Type 0
  Completed p = Marked p.1

  failed-Marked :
      (token : ℕ) (key reason : String) (latches : Bool) (fault : String) (r : OccurrenceRecord)
      (d : IntentDetails) (t : ℕ) (s : Scheduler)
      → Marked s
      → Marked (failed k token key reason latches fault r d t s)
  failed-Marked token key reason latches fault r d t s i =
      announce-Marked _ t _ (if_either Marked latches (latch-Marked fault _ i) i)

  commit-Marked :
      (a : AuthorizedStartIntent) (applied : Bool) (requested : Option Requested)
      (r : OccurrenceRecord) (d : IntentDetails) (t : ℕ) (s : Scheduler)
      → Marked s
      → Completed (commit_completion k a applied requested r d t s)
  commit-Marked a applied requested r d t s i =
      if_either Completed (requested_state_matches d requested)
        (if_either Completed (is_other k a.intent.occurrence_key s.active_occurrence_key)
          (failed-Marked a.token _ _ true _ r d t s i)
          (announce-Marked _ t _ (if_either Marked applied i (latch-Marked _ _ i))))
        (failed-Marked a.token _ _ (applied || not (is_refusal k requested)) _ r d t s i)

  complete_details-Marked :
      (a : AuthorizedStartIntent) (applied : Bool) (requested : Option Requested)
      (r : OccurrenceRecord) (o : Option IntentDetails) (t : ℕ) (s : Scheduler)
      → Marked s
      → Completed (complete_details k a applied requested r o t s)
  complete_details-Marked a applied requested r none t s i = i
  complete_details-Marked a applied requested r (some d) t s i =
      if_either Completed (is_bound k a t r d d.authorization s)
        (commit-Marked a applied requested r d t s i) i

  pub complete-Marked :
      (a : AuthorizedStartIntent) (applied : Bool) (requested : Option Requested) (t : ℕ)
      (s : Scheduler)
      → Marked s
      → Completed (complete_intent k a applied requested t s)
  unfolding complete_intent
  complete-Marked a applied requested t s i =
      if_either Completed (a.owner == s.authorization_capability)
        (if_either Completed _
          (complete_details-Marked a applied requested (s.store a.token) (s.store a.token).details t
            s i)
          i)
        i

  override_when-Marked :
      (o : Option Bool) (key : String) (t : ℕ) (r : OccurrenceRecord) (s : Scheduler)
      → Marked s
      → Completed (override_when k o key t r s)
  override_when-Marked none key t r s i = i
  override_when-Marked (some b) key t r s i =
      if_either Completed (b && not r.overridden) (announce-Marked _ t _ i) i

  override_active-Marked :
      (o : Option ℕ) (key : String) (t : ℕ) (s : Scheduler)
      → Marked s
      → Completed (override_active k key t o s)
  override_active-Marked none key t s i = i
  override_active-Marked (some token) key t s i =
      override_when-Marked (is_releasable k key t (s.store token) s) key t (s.store token) s i

  pub override-Marked : (key : String) (t : ℕ) → Keeps Marked (mark_manual_override k key t)
  unfolding mark_manual_override
  override-Marked raw_key t =
      Keeps-bind Marked (lift (bounded_name raw_key max_occurrence_key_length false))
        (λ key s. override_active k key t s.active_occurrence s) (Keeps-lift Marked _)
        λ key. record { from = λ s i. override_active-Marked s.active_occurrence key t s i }

  end_when-Marked :
      (o : Option Bool) (key reason : String) (t : ℕ) (r : OccurrenceRecord) (s : Scheduler)
      → Marked s
      → Completed (end_when k o key reason t r s)
  end_when-Marked none key reason t r s i = i
  end_when-Marked (some b) key reason t r s i = if_either Completed b (announce-Marked _ t _ i) i

  end_active-Marked :
      (o : Option ℕ) (key reason : String) (t : ℕ) (s : Scheduler)
      → Marked s
      → Completed (end_active k key reason t o s)
  end_active-Marked none key reason t s i = i
  end_active-Marked (some token) key reason t s i =
      end_when-Marked (is_releasable k key t (s.store token) s) key reason t (s.store token) s i

  pub end-Marked :
      (key : String) (t : ℕ) (reason : String) → Keeps Marked (mark_active_complete k key t reason)
  unfolding mark_active_complete
  end-Marked raw_key t raw_reason =
      Keeps-bind Marked (lift (bounded_name raw_key max_occurrence_key_length false))
        (λ key. lift (bounded_name raw_reason 80 false) >>= λ reason s.
          end_active k key reason t s.active_occurrence s)
        (Keeps-lift Marked _)
        λ key.
          Keeps-bind Marked (lift (bounded_name raw_reason 80 false))
            (λ reason s. end_active k key reason t s.active_occurrence s) (Keeps-lift Marked _)
            λ reason. record {
              from = λ s i. end_active-Marked s.active_occurrence key reason t s i;
            }
