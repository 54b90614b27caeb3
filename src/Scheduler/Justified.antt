-- ===== src/Scheduler/Justified.antt =====
-- app/scheduler.py: what `step` needs to make a start intent.
use mathlib.Core.Path.{subst}
use landy_heater.Prelude.{
  and_left, is_some-eq, or_left, or_right, not-false, ℕ, ◌+◌, ◌≡◌, refl, Bool, true, false, not,
  ◌||◌, Option, none, some, List, [], ◌∷◌, String, ◌==◌, is_some, Result, ok, err, if_case,
  if_either, arith, value_error,
}
use landy_heater.Prelude.Int.{ℤ, pos, ltb_ℤ, eq_ℤ, sub_ℕ}
use landy_heater.Clock.Calendar.{Civil}
use landy_heater.Clock.Snapshot.{ClockSnapshot}
use landy_heater.Scheduler.Types.{
  SchedulerSettings, Timer, CanonicalClock, Baseline, conflict, suppressed_busy, intent_created,
  Slot, StartIntent, SchedulerEventKind, Scheduler, clock_unavailable,
}
use landy_heater.Scheduler.Timers.{occurrence_key_of, announce}
use landy_heater.Scheduler.Trust.{observed_clock, sub_ℤ, same_clock}
use landy_heater.Scheduler.Steps.{
  set_baseline, matches_local, is_above, due_timers, consume_each, raised, commit_consumed, consume,
  collided, suppressed, start_intent, intent_made, decide, progressed, with_baseline, with_clock,
  precedes, step,
}
use landy_heater.Scheduler.Due.{
  no_lower, no_lower_refl, raised-no_lower, raised-above, announce-Inv, latch-Inv, due_among-Due,
}

-- Why a step may make an intent, and what it then leaves.
pub record IsJustified (k : SchedulerSettings) (now_ms : ℕ) (control_available : Bool)
    (answer : Result ClockSnapshot) (s : Scheduler) (intent : StartIntent) (s' : Scheduler)
    : Type 0 where
  pub armed : s.armed ≡ true
  pub sound : s.faulted ≡ false
  pub available : control_available ≡ true
  pub idle : s.active_occurrence_key ≡ none
  pub unfenced : s.configuration_fence_pending ≡ false
  pub clock : CanonicalClock
  pub observed : observed_clock answer ≡ some clock
  pub baseline : Baseline
  pub known : s.baseline ≡ some baseline
  pub steady : same_clock clock.fields baseline.fields ≡ true
  pub next_minute : clock.local.local_minute_id ≡ baseline.local_minute_id + 1
  pub first_fold : (clock.local.fold == 1) ≡ false
  pub timer : Timer
  pub alone : due_timers clock.local s ≡ timer ∷ []
  pub timely : matches_local clock.local timer ≡ true
  pub unconsumed : is_above clock.local.local_minute_id s.consumed_local_high_water ≡ true
  pub made :
      (token : ℕ) × (intent
        ≡ start_intent k timer
            (occurrence_key_of timer clock.local)
            now_ms
            (k.ticks_add now_ms k.intent_valid_ms)
            s.intent_capability
            token)
  pub consumed_before : s'.consumed_local_high_water ≡ some clock.local.local_minute_id

module _ (k : SchedulerSettings) (now_ms : ℕ) (control_available : Bool)
    (answer : Result ClockSnapshot) (s : Scheduler) where
  -- An intent is justified; without one the mark of what is consumed does not fall.
  abbrev pub Outcome : Result (Option StartIntent) × Scheduler → Type 0
  Outcome (ok (some intent), s') = IsJustified k now_ms control_available answer s intent s'
  Outcome (_, s') = no_lower s.consumed_local_high_water s'.consumed_local_high_water ≡ true

  nothing_then :
      (s' : Scheduler)
      → s.consumed_local_high_water ≡ s'.consumed_local_high_water
      → Outcome (ok none, s')
  nothing_then s' e = rw⁻¹ (e) (no_lower_refl s.consumed_local_high_water)

  announced_then :
      (kind : SchedulerEventKind) (s' : Scheduler)
      → s.consumed_local_high_water ≡ s'.consumed_local_high_water
      → Outcome (ok none, announce k kind now_ms s')
  announced_then kind s' e =
      announce-Inv (λ d. Outcome (ok none, d)) k kind now_ms s'
        (λ es n. nothing_then (record s' { events = es; events_dropped = n }) e)

  -- What was consumed without an intent.
  module _ (local : Civil) (d : Scheduler)
      (e : s.consumed_local_high_water ≡ d.consumed_local_high_water) where
    collided-Outcome :
        (r : Result (ℕ × List (String × Slot)))
        → Outcome (collided k now_ms (commit_consumed local r d))
    collided-Outcome (err x) = nothing_then d e
    collided-Outcome (ok (n, updated)) =
        announce-Inv (λ d. Outcome (ok none, d)) k _ now_ms _
          (λ es n. rw (e) (raised-no_lower local.local_minute_id d.consumed_local_high_water))

    suppressed-Outcome :
        (key : String) (r : Result (ℕ × List (String × Slot)))
        → Outcome (suppressed k key now_ms (commit_consumed local r d))
    suppressed-Outcome key (err x) = nothing_then d e
    suppressed-Outcome key (ok (n, updated)) =
        announce-Inv (λ d. Outcome (ok none, d)) k _ now_ms _
          (λ es n. rw (e) (raised-no_lower local.local_minute_id d.consumed_local_high_water))

    made-Outcome :
        (intent : StartIntent) (r : Result (ℕ × List (String × Slot)))
        → ((s' : Scheduler)
            → s'.consumed_local_high_water
              ≡ raised local.local_minute_id d.consumed_local_high_water
            → IsJustified k now_ms control_available answer s intent s')
        → Outcome (intent_made k intent now_ms (commit_consumed local r d))
    made-Outcome intent (err x) h = nothing_then d e
    made-Outcome intent (ok (n, updated)) h =
        announce-Inv (λ d. Outcome (ok (some intent), d)) k _ now_ms _ (λ es n. h _ refl)

  below_two :
      (a b : ℕ)
      → (ltb_ℤ (sub_ℕ a b) (pos 0) || ltb_ℤ (pos 1) (sub_ℕ a b)) ≡ false
      → (eq_ℤ (sub_ℕ a b) (pos 0)) ≡ false
      → a ≡ b + 1
  below_two a b h = ground arith

  module _ (clock : CanonicalClock) (baseline : Baseline) (armed : s.armed ≡ true)
      (sound : s.faulted ≡ false) (observed : observed_clock answer ≡ some clock)
      (known : s.baseline ≡ some baseline) (unfenced : s.configuration_fence_pending ≡ false)
      (steady : same_clock clock.fields baseline.fields ≡ true) where
    abbrev Observed : Scheduler
    Observed = set_baseline clock (record s { last_step_ms = some now_ms })

    decide-Outcome :
        clock.local.local_minute_id ≡ baseline.local_minute_id + 1
        → (clock.local.fold == 1) ≡ false
        → (timers : List Timer) → due_timers clock.local s ≡ timers
        → Outcome (decide k now_ms control_available clock timers Observed)
    unfolding set_baseline consume due_timers
    decide-Outcome next_minute first_fold [] e = no_lower_refl s.consumed_local_high_water
    decide-Outcome next_minute first_fold (timer ∷ []) e =
        if_case Outcome (not control_available || is_some s.active_occurrence_key)
          (λ busy.
            suppressed-Outcome clock.local Observed refl (occurrence_key_of timer clock.local)
              (consume_each (timer ∷ []) clock.local suppressed_busy now_ms none s.occurrences))
          (λ free.
            let due =
              due_among-Due clock.local s.consumed_local_high_water s.occurrences s.store s.timers
                timer [] e in
            let above =
              and_left (is_above clock.local.local_minute_id s.consumed_local_high_water) _ due.1 in
            made-Outcome clock.local Observed refl _
              (consume_each (timer ∷ []) clock.local intent_created now_ms _ s.occurrences)
              (λ s' mark. record {
                armed = armed;
                sound = sound;
                available =
                    not-false control_available
                      (or_left (not control_available) (is_some s.active_occurrence_key) free);
                idle =
                    is_some-eq s.active_occurrence_key
                      (or_right (not control_available) (is_some s.active_occurrence_key) free);
                unfenced = unfenced;
                clock = clock;
                observed = observed;
                baseline = baseline;
                known = known;
                steady = steady;
                next_minute = next_minute;
                first_fold = first_fold;
                timer = timer;
                alone = e;
                timely = due.0;
                unconsumed = above;
                made = (s.intent_sequence + 1, refl);
                consumed_before =
                    rw (mark)
                      (raised-above clock.local.local_minute_id s.consumed_local_high_water above);
              }))
    decide-Outcome next_minute first_fold (a ∷ b ∷ rest) e =
        collided-Outcome clock.local Observed refl
          (consume_each (a ∷ b ∷ rest) clock.local conflict now_ms none s.occurrences)

    progressed-Outcome :
        (utc_delta : ℤ)
        → Outcome (
            progressed k now_ms control_available clock utc_delta
              (sub_ℕ clock.local.local_minute_id baseline.local_minute_id)
              Observed)
    unfolding set_baseline due_timers
    progressed-Outcome utc_delta =
        let local_delta = sub_ℕ clock.local.local_minute_id baseline.local_minute_id in
        if_either Outcome
          (ltb_ℤ utc_delta (pos 0) || ltb_ℤ (pos k.max_clock_step_seconds) utc_delta)
          (announced_then _ _ refl)
          (if_case Outcome (ltb_ℤ local_delta (pos 0) || ltb_ℤ (pos 1) local_delta)
            (λ _. announced_then _ _ refl)
            (λ near.
              if_case Outcome (eq_ℤ local_delta (pos 0) || (clock.local.fold == 1))
                (λ _. no_lower_refl s.consumed_local_high_water)
                (λ next.
                  decide-Outcome
                    (below_two clock.local.local_minute_id baseline.local_minute_id near
                      (or_left (eq_ℤ local_delta (pos 0)) (clock.local.fold == 1) next))
                    (or_right (eq_ℤ local_delta (pos 0)) (clock.local.fold == 1) next)
                    (due_timers clock.local s) refl)))

  with_baseline-Outcome :
      (clock : CanonicalClock) (o : Option Baseline)
      → s.armed ≡ true
      → s.faulted ≡ false
      → observed_clock answer ≡ some clock
      → s.baseline ≡ o
      → Outcome (
          with_baseline k now_ms control_available clock o
            (record s { last_step_ms = some now_ms }))
  unfolding set_baseline
  with_baseline-Outcome clock none armed sound observed known = announced_then _ _ refl
  with_baseline-Outcome clock (some baseline) armed sound observed known =
      if_case Outcome s.configuration_fence_pending (λ _. announced_then _ _ refl)
        (λ unfenced.
          if_case Outcome (not (same_clock clock.fields baseline.fields))
            (λ _. announced_then _ _ refl)
            (λ steady.
              progressed-Outcome clock baseline armed sound observed known unfenced
                (not-false (same_clock clock.fields baseline.fields) steady)
                (sub_ℤ clock.utc_seconds baseline.utc_seconds)))

  with_clock-Outcome :
      (o : Option CanonicalClock)
      → s.armed ≡ true
      → s.faulted ≡ false
      → observed_clock answer ≡ o
      → Outcome (with_clock k now_ms control_available o (record s { last_step_ms = some now_ms }))
  with_clock-Outcome none armed sound observed =
      if_either (λ (d : Scheduler). Outcome (ok none, record d { baseline = none }))
        (is_some s.baseline)
        (announce-Inv (λ d. Outcome (ok none, record d { baseline = none })) k clock_unavailable
          now_ms _ (λ es n. no_lower_refl s.consumed_local_high_water))
        (no_lower_refl s.consumed_local_high_water)
  with_clock-Outcome (some clock) armed sound observed =
      with_baseline-Outcome clock s.baseline armed sound observed refl

  pub step-Outcome : Outcome (step k now_ms control_available answer s)
  unfolding step
  step-Outcome =
      if_case Outcome (not s.armed || s.faulted) (λ _. no_lower_refl s.consumed_local_high_water)
        (λ active.
          if_either Outcome (precedes k now_ms s.last_step_ms)
            (latch-Inv
              (λ d. Outcome (err (value_error "now_ms precedes the previous scheduler step"), d))
              "scheduler_monotonic_time_reversed" s (no_lower_refl s.consumed_local_high_water)
              (no_lower_refl s.consumed_local_high_water))
            (with_clock-Outcome (observed_clock answer)
              (not-false s.armed (or_left (not s.armed) s.faulted active))
              (or_right (not s.armed) s.faulted active) refl))

-- A start intent has a reason: a step makes one only while the scheduler is armed and without a fault, the control is
-- available and no occurrence is active; where the clock is trusted, is as at the observation before, and shows the
-- minute after it, with no change of the configuration between; where this is not in the repeated hour; and for the one
-- timer that is due, which is enabled and set for the weekday, the hour and the minute, above the mark of what is
-- consumed. The intent has this timer's parameters, and the minute is consumed when it is returned.
pub step-IsJustified :
    (k : SchedulerSettings) (now_ms : ℕ) (control_available : Bool) (answer : Result ClockSnapshot)
    (s : Scheduler) (intent : StartIntent) (s' : Scheduler)
    → step k now_ms control_available answer s ≡ (ok (some intent), s')
    → IsJustified k now_ms control_available answer s intent s'
step-IsJustified k now_ms control_available answer s intent s' e =
    subst (Outcome k now_ms control_available answer s) e
      (step-Outcome k now_ms control_available answer s)
