-- ===== src/Scheduler/Once.antt =====
-- app/scheduler.py: sequences of calls of the scheduler, and that no minute is started in twice.
use mathlib.Core.Path.{subst}
use landy_heater.Prelude.{
  if_case, is_none-eq, is_none, String, and_both, and_left, and_right, ℕ, ◌≡◌, refl, sym, Bool,
  true, ◌&&◌, Option, none, some, List, [], ◌∷◌, ◌++◌, String, Result, ok, err, arith, some-eq, ◌∙◌,
}
use landy_heater.AppState.{Requested}
use landy_heater.Clock.Snapshot.{ClockSnapshot}
use landy_heater.Scheduler.Types.{
  Slot, SchedulerSettings, TimerDefinition, CanonicalClock, StartIntent, AuthorizedStartIntent,
  Scheduler,
}
use landy_heater.Scheduler.Timers.{drain_scheduler_events, replace_timers, arm, disarm, reset_fault}
use landy_heater.Scheduler.Trust.{observed_clock}
use landy_heater.Scheduler.Steps.{is_above, step}
use landy_heater.Scheduler.Handoff.{
  authorize_intent, complete_intent, mark_manual_override, mark_active_complete,
}
use landy_heater.Scheduler.Due.{no_lower, no_lower_refl}
use landy_heater.Scheduler.Justified.{Outcome, step-Outcome}
use landy_heater.Scheduler.History.{
  PersistentHistory, is_unused, restored, restore_persistent_history,
}
use landy_heater.Scheduler.Marks.{
  replace-Marked, arm-Marked, disarm-Marked, reset-Marked, authorize-Marked, complete-Marked,
  override-Marked, end-Marked,
}

-- The calls of the scheduler's users.
pub data SchedulerCall : Type 0 where
  step_call :
      (now_ms : ℕ) (control_available : Bool) (answer : Result ClockSnapshot) → SchedulerCall
  replace_call : (definitions : List TimerDefinition) → SchedulerCall
  restore_call : (history : PersistentHistory) → SchedulerCall
  arm_call disarm_call reset_call drain_call : SchedulerCall
  authorize_call :
      (intent : StartIntent) (now_ms : ℕ) (control_available : Bool) (answer : Result ClockSnapshot)
      → SchedulerCall
  complete_call :
      (authorized : AuthorizedStartIntent) (applied : Bool) (requested : Option Requested)
      (now_ms : ℕ)
      → SchedulerCall
  override_call : (key : String) (now_ms : ℕ) → SchedulerCall
  end_call : (key : String) (now_ms : ℕ) (reason : String) → SchedulerCall

-- The minutes that a step made an intent in.
abbrev pub minutes_of : Result (Option StartIntent) → Option CanonicalClock → List ℕ
minutes_of (ok (some intent)) (some clock) = clock.local.local_minute_id ∷ []
minutes_of _ _ = []

module _ (k : SchedulerSettings) where
  abbrev pub after_scheduler_call : SchedulerCall → Scheduler → List ℕ × Scheduler
  after_scheduler_call (step_call now_ms control_available answer) s =
      let r = step k now_ms control_available answer s in
      (minutes_of r.0 (observed_clock answer), r.1)
  after_scheduler_call (replace_call definitions) s = ([], (replace_timers k definitions s).1)
  after_scheduler_call (restore_call history) s = ([], (restore_persistent_history k history s).1)
  after_scheduler_call drain_call s = ([], (drain_scheduler_events s).1)
  after_scheduler_call arm_call s = ([], (arm s).1)
  after_scheduler_call disarm_call s = ([], (disarm s).1)
  after_scheduler_call reset_call s = ([], (reset_fault s).1)
  after_scheduler_call (authorize_call intent now_ms control_available answer) s =
      ([], (authorize_intent k intent now_ms control_available answer s).1)
  after_scheduler_call (complete_call a applied requested now_ms) s =
      ([], (complete_intent k a applied requested now_ms s).1)
  after_scheduler_call (override_call key now_ms) s = ([], (mark_manual_override k key now_ms s).1)
  after_scheduler_call (end_call key now_ms reason) s =
      ([], (mark_active_complete k key now_ms reason s).1)

  -- The minutes that a sequence of calls makes intents in.
  abbrev pub intent_minutes : List SchedulerCall → Scheduler → List ℕ
  intent_minutes [] s = []
  intent_minutes (call ∷ rest) s =
      let r = after_scheduler_call call s in r.0 ++ intent_minutes rest r.1

  -- A call makes at most one intent, above the mark, which it then sets to its minute; the mark does not fall.
  abbrev Ascent : Option ℕ → List ℕ × Scheduler → Type 0
  Ascent mark ([], s') = no_lower mark s'.consumed_local_high_water ≡ true
  Ascent mark (minute ∷ later, s') =
      (is_above minute mark ≡ true) × (later ≡ []) × (s'.consumed_local_high_water ≡ some minute)

  step-Ascent :
      (t : ℕ) (b : Bool) (answer : Result ClockSnapshot) (s : Scheduler)
      (r : Result (Option StartIntent) × Scheduler) (o : Option CanonicalClock)
      → observed_clock answer ≡ o
      → Outcome k t b answer s r
      → Ascent s.consumed_local_high_water (minutes_of r.0 o, r.1)
  step-Ascent t b answer s (ok (some intent), s') (some clock) e j =
      let same : clock ≡ j.clock = some-eq (sym e ∙ j.observed) in
      (rw (same) j.unconsumed, refl, rw (same) j.consumed_before)
  step-Ascent t b answer s (ok (some intent), s') none e j = let f = j.observed in cc
  step-Ascent t b answer s (ok none, s') o e h = h
  step-Ascent t b answer s (err x, s') o e h = h

  kept_then :
      (s s' : Scheduler)
      → s'.consumed_local_high_water ≡ s.consumed_local_high_water
      → Ascent s.consumed_local_high_water ([], s')
  kept_then s s' e = rw (e) (no_lower_refl s.consumed_local_high_water)

  restored-Ascent :
      (mark : Option ℕ) (r : Result (List (String × Slot))) (s : Scheduler)
      → s.consumed_local_high_water ≡ none
      → Ascent s.consumed_local_high_water ([], (restored k mark r s).1)
  restored-Ascent mark (err e) s unused = no_lower_refl s.consumed_local_high_water
  restored-Ascent mark (ok slots) s unused = rw (unused) refl

  restore-Ascent :
      (history : PersistentHistory) (s : Scheduler)
      → Ascent s.consumed_local_high_water ([], (restore_persistent_history k history s).1)
  unfolding restore_persistent_history
  restore-Ascent history s =
      if_case (λ (p : Result Bool × Scheduler). Ascent s.consumed_local_high_water ([], p.1))
        (is_unused s)
        (λ unused. restored-Ascent history.consumed_local_high_water _ s (
          is_none-eq s.consumed_local_high_water
            (and_right _ (is_none s.consumed_local_high_water) unused)))
        (λ _. no_lower_refl s.consumed_local_high_water)

  call-Ascent :
      (call : SchedulerCall) (s : Scheduler)
      → Ascent s.consumed_local_high_water (after_scheduler_call call s)
  call-Ascent (step_call t b answer) s =
      step-Ascent t b answer s (step k t b answer s) (observed_clock answer) refl
        (step-Outcome k t b answer s)
  call-Ascent (replace_call definitions) s =
      kept_then s (after_scheduler_call (replace_call definitions) s).1
        (replace-Marked k s.consumed_local_high_water definitions s refl)
  call-Ascent (restore_call history) s = restore-Ascent history s
  call-Ascent drain_call s = no_lower_refl s.consumed_local_high_water
  call-Ascent arm_call s =
      kept_then s (after_scheduler_call arm_call s).1
        (arm-Marked k s.consumed_local_high_water s refl)
  call-Ascent disarm_call s =
      kept_then s (after_scheduler_call disarm_call s).1
        (disarm-Marked k s.consumed_local_high_water s refl)
  call-Ascent reset_call s =
      kept_then s (after_scheduler_call reset_call s).1
        (reset-Marked k s.consumed_local_high_water s refl)
  call-Ascent (authorize_call intent t b answer) s =
      kept_then s (after_scheduler_call (authorize_call intent t b answer) s).1
        ((authorize-Marked k s.consumed_local_high_water intent t b answer).from s refl)
  call-Ascent (complete_call a applied requested t) s =
      kept_then s (after_scheduler_call (complete_call a applied requested t) s).1
        (complete-Marked k s.consumed_local_high_water a applied requested t s refl)
  call-Ascent (override_call key t) s =
      kept_then s (after_scheduler_call (override_call key t) s).1
        ((override-Marked k s.consumed_local_high_water key t).from s refl)
  call-Ascent (end_call key t reason) s =
      kept_then s (after_scheduler_call (end_call key t reason) s).1
        ((end-Marked k s.consumed_local_high_water key t reason).from s refl)

-- Whether each minute lies above the one before, the first above the mark.
abbrev pub ascends : Option ℕ → List ℕ → Bool
ascends mark [] = true
ascends mark (minute ∷ later) = is_above minute mark && ascends (some minute) later

above_lower :
    (a b : Option ℕ) (minute : ℕ)
    → no_lower a b ≡ true
    → is_above minute b ≡ true
    → is_above minute a ≡ true
above_lower none b minute h i = refl
above_lower (some m) none minute h i = cc
above_lower (some m) (some n) minute h i = ground arith

ascends-no_lower :
    (a b : Option ℕ) (minutes : List ℕ)
    → no_lower a b ≡ true
    → ascends b minutes ≡ true
    → ascends a minutes ≡ true
ascends-no_lower a b [] h i = refl
ascends-no_lower a b (m ∷ ms) h i =
    and_both (is_above m a) (ascends (some m) ms)
      (above_lower a b m h (and_left (is_above m b) (ascends (some m) ms) i))
      (and_right (is_above m b) (ascends (some m) ms) i)

ascends-append :
    (k : SchedulerSettings) (mark : Option ℕ) (r : List ℕ × Scheduler) (later : List ℕ)
    → Ascent k mark r
    → ascends r.1.consumed_local_high_water later ≡ true
    → ascends mark (r.0 ++ later) ≡ true
ascends-append k mark ([], s') later h i =
    ascends-no_lower mark s'.consumed_local_high_water later h i
ascends-append k mark (m ∷ ms, s') later h i =
    and_both (is_above m mark) (ascends (some m) (ms ++ later)) h.0 (
      subst (λ ns. ascends (some m) (ns ++ later) ≡ true) (sym h.1)
        (subst (λ o. ascends o later ≡ true) h.2 i))

-- No minute is started in twice: whatever calls follow one another, changes of the timers, faults and their reset, a
-- restored history and answers of the clock of any kind included, the local minutes in which start intents are made
-- strictly ascend, from above the mark of what was consumed before.
pub intents_ascend :
    (k : SchedulerSettings) (calls : List SchedulerCall) (s : Scheduler)
    → ascends s.consumed_local_high_water (intent_minutes k calls s) ≡ true
intents_ascend k [] s = refl
intents_ascend k (call ∷ rest) s =
    let r = after_scheduler_call k call s in
    ascends-append k s.consumed_local_high_water r (intent_minutes k rest r.1)
      (call-Ascent k call s) (intents_ascend k rest r.1)
