-- ===== src/Scheduler/Allowed.antt =====
-- app/scheduler.py: what an authorization of an intent needs, and what a confirmed completion leaves.
use mathlib.Core.Path.{subst}
use landy_heater.Prelude.{
  not-false, ℕ, ◌+◌, ◌≡◌, refl, Bool, true, false, not, ◌&&◌, ◌||◌, Option, none, some, String,
  ◌==◌, is_none, Result, ok, err, if_case, arith,
}
use landy_heater.Prelude.Int.{pos, ltb_ℤ}
use landy_heater.Prelude.Exec.{lift, ◌>>=◌}
use landy_heater.Clock.Snapshot.{ClockSnapshot}
use landy_heater.Scheduler.Types.{
  SchedulerSettings, Timer, intent_created, IntentDetails, OccurrenceRecord, StartIntent,
  AuthorizedStartIntent, Scheduler,
}
use landy_heater.Scheduler.Timers.{max_occurrence_key_length, bounded_name, find_timer}
use landy_heater.Scheduler.Trust.{observed_clock}
use landy_heater.Scheduler.Steps.{start_intent, precedes}
use landy_heater.Scheduler.Handoff.{
  status_eq, find_occurrence, timer_matches_record, intent_matches_record, clock_matches,
  authorize_timer, may_authorize, authorize_details, authorize_found, authorize_intent,
}

-- Why an intent may be authorized, and what is then authorized.
pub record IsAuthorized (k : SchedulerSettings) (intent : StartIntent) (now_ms : ℕ)
    (control_available : Bool) (answer : Result ClockSnapshot) (s : Scheduler)
    (a : AuthorizedStartIntent) : Type 0 where
  pub armed : s.armed ≡ true
  pub sound : s.faulted ≡ false
  pub available : control_available ≡ true
  pub idle : is_none s.active_occurrence_key ≡ true
  pub key : String
  pub named : bounded_name intent.occurrence_key max_occurrence_key_length false ≡ ok key
  pub timer_id : String
  pub found : OccurrenceRecord
  pub kept : find_occurrence key s.occurrences s.store ≡ some (timer_id, found)
  pub waiting : status_eq found.status intent_created ≡ true
  pub details : IntentDetails
  pub detailed : found.details ≡ some details
  pub in_time : ltb_ℤ (pos 0) (k.ticks_diff now_ms details.not_after_ms) ≡ false
  pub same_epoch : (details.authorization_epoch == s.authorization_epoch) ≡ true
  pub same_intent : intent_matches_record intent found details s.intent_capability ≡ true
  pub timer : Timer
  pub configured : find_timer found.timer_id s.timers ≡ some timer
  pub same_timer : timer_matches_record timer found details ≡ true
  pub same_time :
      clock_matches (k.ticks_diff now_ms found.consumed_at_ms) details (observed_clock answer)
      ≡ true
  pub canonical :
      a.intent
      ≡ start_intent k timer found.occurrence_key found.consumed_at_ms details.not_after_ms
          s.intent_capability details.intent_token
  pub next_token : a.token ≡ s.authorization_sequence + 1

either_left : (a b c : Bool) → (not a || b || c) ≡ false → a ≡ true
either_left a b c h = ground arith

all_six :
    (a b c d e f : Bool)
    → (a && not b && c && d && e && f) ≡ true
    → (a ≡ true) × (b ≡ false) × (c ≡ true) × (d ≡ true) × (e ≡ true) × (f ≡ true)
all_six a b c d e f h =
    (ground arith, ground arith, ground arith, ground arith, ground arith, ground arith)

module _ (k : SchedulerSettings) (intent : StartIntent) (now_ms : ℕ) (b : Bool)
    (answer : Result ClockSnapshot) (s : Scheduler) where
  -- What is authorized is allowed.
  abbrev Allowed : Result (Option AuthorizedStartIntent) × Scheduler → Type 0
  Allowed (ok (some a), s') = IsAuthorized k intent now_ms b answer s a
  Allowed _ = Unit {0}

  module _ (key : String)
      (named : bounded_name intent.occurrence_key max_occurrence_key_length false ≡ ok key)
      (id : String) (r : OccurrenceRecord)
      (kept : find_occurrence key s.occurrences s.store ≡ some (id, r))
      (waiting : status_eq r.status intent_created ≡ true) where
    authorize_timer-Allowed :
        (d : IntentDetails)
        → r.details ≡ some d
        → ltb_ℤ (pos 0) (k.ticks_diff now_ms d.not_after_ms) ≡ false
        → may_authorize k intent r d b s ≡ true
        → (o : Option Timer) → find_timer r.timer_id s.timers ≡ o
        → Allowed (authorize_timer k key o id r d now_ms answer s)
    authorize_timer-Allowed d detailed in_time may none configured = tt
    authorize_timer-Allowed d detailed in_time may (some timer) configured =
        if_case Allowed (not (timer_matches_record timer r d)) (λ _. tt)
          (λ same_timer.
            if_case Allowed
              (not (clock_matches (k.ticks_diff now_ms r.consumed_at_ms) d (observed_clock answer)))
              (λ _. tt)
              (λ same_time.
                let all =
                  all_six s.armed s.faulted b (is_none s.active_occurrence_key)
                    (d.authorization_epoch == s.authorization_epoch)
                    (intent_matches_record intent r d s.intent_capability) may in
                record {
                  armed = all.0;
                  sound = all.1;
                  available = all.2;
                  idle = all.3;
                  key = key;
                  named = named;
                  timer_id = id;
                  found = r;
                  kept = kept;
                  waiting = waiting;
                  details = d;
                  detailed = detailed;
                  in_time = in_time;
                  same_epoch = all.4;
                  same_intent = all.5;
                  timer = timer;
                  configured = configured;
                  same_timer = not-false (timer_matches_record timer r d) same_timer;
                  same_time =
                      not-false
                        (clock_matches (k.ticks_diff now_ms r.consumed_at_ms) d
                          (observed_clock answer))
                        same_time;
                  canonical = refl;
                  next_token = refl;
                }))

    authorize_details-Allowed :
        (o : Option IntentDetails)
        → r.details ≡ o
        → Allowed (authorize_details k key intent id r o now_ms b answer s)
    authorize_details-Allowed none detailed = tt
    authorize_details-Allowed (some d) detailed =
        if_case Allowed (ltb_ℤ (pos 0) (k.ticks_diff now_ms d.not_after_ms)) (λ _. tt)
          (λ in_time.
            if_case Allowed (not (may_authorize k intent r d b s)) (λ _. tt)
              (λ may.
                authorize_timer-Allowed d detailed in_time
                  (not-false (may_authorize k intent r d b s) may) (find_timer r.timer_id s.timers)
                  refl))

  authorize_found-Allowed :
      (key : String)
      → bounded_name intent.occurrence_key max_occurrence_key_length false ≡ ok key
      → (o : Option (String × OccurrenceRecord)) → find_occurrence key s.occurrences s.store ≡ o
      → Allowed (authorize_found k key intent o now_ms b answer s)
  authorize_found-Allowed key named none kept = tt
  authorize_found-Allowed key named (some (id, r)) kept =
      if_case Allowed
        (not (status_eq r.status intent_created)
          || precedes k now_ms (some r.consumed_at_ms)
          || precedes k now_ms s.last_step_ms)
        (λ _. tt)
        (λ go.
          authorize_details-Allowed key named id r kept
            (either_left (status_eq r.status intent_created)
              (precedes k now_ms (some r.consumed_at_ms)) (precedes k now_ms s.last_step_ms) go)
            r.details refl)

  named-Allowed :
      (n : Result String)
      → bounded_name intent.occurrence_key max_occurrence_key_length false ≡ n
      → Allowed (
          (lift n >>= λ key s.
          authorize_found k key intent
            (find_occurrence key s.occurrences s.store)
            now_ms
            b
            answer
            s)
            s)
  named-Allowed (ok key) named =
      authorize_found-Allowed key named (find_occurrence key s.occurrences s.store) refl
  named-Allowed (err e) named = tt

-- What is authorized was allowed: the scheduler is armed and without a fault, the control is available and no occurrence
-- is active; the record of the intent still waits, within its deadline, made by this scheduler for this very intent and
-- under the trust that holds now; the timer is configured as it was, and enabled; and the clock, trusted and unchanged,
-- has gone on by the time that the ticks say. What is authorized is made anew from the timer and the record, under a
-- token of its own.
pub authorize_allowed :
    (k : SchedulerSettings) (intent : StartIntent) (now_ms : ℕ) (control_available : Bool)
    (answer : Result ClockSnapshot) (s : Scheduler) (a : AuthorizedStartIntent) (s' : Scheduler)
    → authorize_intent k intent now_ms control_available answer s ≡ (ok (some a), s')
    → IsAuthorized k intent now_ms control_available answer s a
unfolding authorize_intent
authorize_allowed k intent now_ms control_available answer s a s' e =
    subst (Allowed k intent now_ms control_available answer s) e (
      named-Allowed k intent now_ms control_available answer s
        (bounded_name intent.occurrence_key max_occurrence_key_length false) refl)
