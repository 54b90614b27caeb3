-- ===== src/Scheduler/Starts.antt =====
-- app/scheduler.py: a timer that is due is started.
use mathlib.Core.Path.{subst}
use landy_heater.Prelude.{
  if_false, or_both, ℕ, ◌+◌, ◌≤◌, ◌≡◌, refl, sym, ◌∙◌, ap, length, if_either, Bool, true, false,
  not, ◌||◌, Option, none, some, List, [], ◌∷◌, String, leb, ◌==◌, is_some, Result, ok, err, arith,
}
use landy_heater.Prelude.Int.{pos, ltb_ℤ, eq_ℤ, sub_ℕ}
use landy_heater.Prelude.Texts.{text_length}
use landy_heater.Clock.Calendar.{Civil}
use landy_heater.Clock.Snapshot.{ClockSnapshot}
use landy_heater.Scheduler.Types.{
  SchedulerSettings, Timer, CanonicalClock, Baseline, Status, intent_created, IntentDetails, Slot,
  own, StartIntent, scheduler_baseline_established, SchedulerEventKind, SchedulerEvent, Scheduler,
}
use landy_heater.Scheduler.Timers.{announce, max_occurrence_key_length, occurrence_key_of, before}
use landy_heater.Scheduler.Trust.{observed_clock, sub_ℤ, same_clock}
use landy_heater.Scheduler.Steps.{
  set_baseline, put_slot, due_timers, occurrence_record, start_intent, consume_each,
  commit_consumed, consume, intent_made, decide, with_baseline, with_clock, precedes, step,
}

text_length-before : (s t : String) → text_length (before s t) ≡ text_length s + text_length t
text_length-before String.[] t = omega arith
text_length-before (String.◌∷◌ c s) t = omega (arith, text_length-before s t)

-- The key of a timer whose id and start are within their bounds is within its own.
key_fits :
    (timer : Timer) (local : Civil)
    → text_length timer.id ≤ 64
    → text_length timer.start ≡ 5
    → leb (text_length (occurrence_key_of timer local)) max_occurrence_key_length ≡ true
unfolding occurrence_key_of
key_fits timer local h k = rw (text_length-before timer.id _) (rw (k) (ground arith))

-- The intent that a step makes of a timer in the minute of a clock.
abbrev pub intent_for : SchedulerSettings → Timer → ℕ → Civil → Scheduler → StartIntent
intent_for k timer now_ms local s =
    start_intent k timer (occurrence_key_of timer local) now_ms
      (k.ticks_add now_ms k.intent_valid_ms) s.intent_capability (s.intent_sequence + 1)

abbrev Makes : StartIntent → Result (Option StartIntent) × Scheduler → Type 0
Makes intent r = r.0 ≡ ok (some intent)

made-Makes :
    (k : SchedulerSettings) (intent : StartIntent) (now_ms : ℕ) (local : Civil) (d : Scheduler)
    (r : Result (ℕ × List (String × Slot))) (count : ℕ) (updated : List (String × Slot))
    → r ≡ ok (count, updated)
    → Makes intent (intent_made k intent now_ms (commit_consumed local r d))
made-Makes k intent now_ms local d (ok p) count updated e = refl
made-Makes k intent now_ms local d (err x) count updated e = cc

consumed_one :
    (timer : Timer) (local : Civil) (status : Status) (now_ms : ℕ) (details : Option IntentDetails)
    (occurrences : List (String × Slot))
    → leb (text_length (occurrence_key_of timer local)) max_occurrence_key_length ≡ true
    → consume_each (timer ∷ []) local status now_ms details occurrences
      ≡ ok (
        1,
        put_slot timer.id
            (own
              (occurrence_record (occurrence_key_of timer local) timer local status now_ms details))
            occurrences,
      )
consumed_one timer local status now_ms details occurrences fits = rw (fits) refl

next_is_near :
    (a b : ℕ) → a ≡ b + 1 → (ltb_ℤ (sub_ℕ a b) (pos 0) || ltb_ℤ (pos 1) (sub_ℕ a b)) ≡ false
next_is_near a b e = ground arith

next_is_later : (a b : ℕ) → a ≡ b + 1 → eq_ℤ (sub_ℕ a b) (pos 0) ≡ false
next_is_later a b e = ground arith

-- The step after an observation.
due-Makes :
    (k : SchedulerSettings) (now_ms : ℕ) (answer : Result ClockSnapshot) (s : Scheduler)
    (clock : CanonicalClock) (baseline : Baseline) (timer : Timer)
    → s.armed ≡ true
    → s.faulted ≡ false
    → precedes k now_ms s.last_step_ms ≡ false
    → observed_clock answer ≡ some clock
    → s.baseline ≡ some baseline
    → s.configuration_fence_pending ≡ false
    → same_clock clock.fields baseline.fields ≡ true
    → (ltb_ℤ (sub_ℤ clock.utc_seconds baseline.utc_seconds) (pos 0)
        || ltb_ℤ (pos k.max_clock_step_seconds) (sub_ℤ clock.utc_seconds baseline.utc_seconds))
      ≡ false
    → clock.local.local_minute_id ≡ baseline.local_minute_id + 1
    → (clock.local.fold == 1) ≡ false
    → due_timers clock.local s ≡ timer ∷ []
    → s.active_occurrence_key ≡ none
    → text_length timer.id ≤ 64
    → text_length timer.start ≡ 5
    → Makes (intent_for k timer now_ms clock.local s) (step k now_ms true answer s)
unfolding step set_baseline due_timers consume
due-Makes k now_ms answer s clock baseline timer armed sound later observed known unfenced steady
      close next_minute first_fold due idle id_fits start_fits =
    let intent = intent_for k timer now_ms clock.local s in
    let st = record s { last_step_ms = some now_ms } in
    let local_delta = sub_ℕ clock.local.local_minute_id baseline.local_minute_id in
    if_false (Makes intent) _ (not s.armed || s.faulted) (rw (armed, sound) refl) (
      if_false (Makes intent) _ (precedes k now_ms s.last_step_ms) later (
        subst (λ o. Makes intent (with_clock k now_ms true o st)) (sym observed)
          (subst (λ o. Makes intent (with_baseline k now_ms true clock o st)) (sym known)
            (if_false (Makes intent) _ s.configuration_fence_pending unfenced (
              if_false (Makes intent) _ (not (same_clock clock.fields baseline.fields))
                (rw (steady) refl)
                (if_false (Makes intent) _
                  (ltb_ℤ (sub_ℤ clock.utc_seconds baseline.utc_seconds) (pos 0)
                    || ltb_ℤ (pos k.max_clock_step_seconds)
                        (sub_ℤ clock.utc_seconds baseline.utc_seconds))
                  close
                  (if_false (Makes intent) _
                    (ltb_ℤ local_delta (pos 0) || ltb_ℤ (pos 1) local_delta)
                    (next_is_near clock.local.local_minute_id baseline.local_minute_id next_minute)
                    (if_false (Makes intent) _ (eq_ℤ local_delta (pos 0) || (clock.local.fold == 1))
                      (or_both (eq_ℤ local_delta (pos 0)) (clock.local.fold == 1)
                        (next_is_later clock.local.local_minute_id baseline.local_minute_id
                          next_minute)
                        first_fold)
                      (subst
                        (λ ts. Makes intent (decide k now_ms true clock ts (set_baseline clock st)))
                        (sym due)
                        (if_false (Makes intent) _ (is_some s.active_occurrence_key)
                          (rw (idle) refl)
                          (made-Makes k _ now_ms clock.local (set_baseline clock st) _ 1 _ (
                            consumed_one timer clock.local intent_created now_ms _ s.occurrences
                              (key_fits timer clock.local id_fits start_fits)))))))))))))

-- An announcement changes the events only.
announced :
    (k : SchedulerSettings) (kind : SchedulerEventKind) (now_ms : ℕ) (s : Scheduler)
    → (es : List SchedulerEvent) × (n : ℕ) × (announce k kind now_ms s
        ≡ record s { events = es; events_dropped = n })
unfolding announce
announced k kind now_ms s =
    if_either
      (λ (d : Scheduler).
        (es : List SchedulerEvent) × (n : ℕ) × (d ≡ record s { events = es; events_dropped = n }))
      (leb k.event_capacity (length s.events)) (_, _, refl) (_, _, refl)

-- A first observation of the clock makes no intent and becomes the baseline.
first_observation :
    (k : SchedulerSettings) (now_ms : ℕ) (control_available : Bool) (answer : Result ClockSnapshot)
    (s : Scheduler) (clock : CanonicalClock)
    → s.armed ≡ true
    → s.faulted ≡ false
    → s.baseline ≡ none
    → precedes k now_ms s.last_step_ms ≡ false
    → observed_clock answer ≡ some clock
    → step k now_ms control_available answer s ≡ (
      ok none,
      announce k scheduler_baseline_established now_ms
          (set_baseline clock (record s { last_step_ms = some now_ms })),
    )
unfolding step
first_observation k now_ms control_available answer s clock armed sound unknown later observed =
    rw (armed, sound, later, observed, unknown) refl

-- A timer that is due starts. An armed scheduler without a fault, without an active occurrence, without
-- a baseline and without a pending fence of the configuration steps twice, with no time that lies before
-- the one before it. Both steps observe a clock that can be trusted; the second observes it unchanged in its
-- fields, later by at most the largest clock step, in the minute after that of the first and not in the
-- repeated hour, and the control is available. In this minute one timer is due, and no other; its
-- id has at most 64 characters and its start five, as configured timers have. Then the first step makes
-- no intent, and the second makes the intent of this timer: with its mode, target, power level and
-- runtime, for this minute, valid from now on for the time of an intent, under the next token.
pub due-Starts :
    (k : SchedulerSettings) (t1 t2 : ℕ) (control_available : Bool)
    (answer1 answer2 : Result ClockSnapshot) (s : Scheduler) (first second : CanonicalClock)
    (timer : Timer)
    → s.armed ≡ true
    → s.faulted ≡ false
    → s.active_occurrence_key ≡ none
    → s.baseline ≡ none
    → s.configuration_fence_pending ≡ false
    → precedes k t1 s.last_step_ms ≡ false
    → precedes k t2 (some t1) ≡ false
    → observed_clock answer1 ≡ some first
    → observed_clock answer2 ≡ some second
    → same_clock second.fields first.fields ≡ true
    → (ltb_ℤ (sub_ℤ second.utc_seconds first.utc_seconds) (pos 0)
        || ltb_ℤ (pos k.max_clock_step_seconds) (sub_ℤ second.utc_seconds first.utc_seconds))
      ≡ false
    → second.local.local_minute_id ≡ first.local.local_minute_id + 1
    → (second.local.fold == 1) ≡ false
    → due_timers second.local s ≡ timer ∷ []
    → text_length timer.id ≤ 64
    → text_length timer.start ≡ 5
    → let (r, d) = step k t1 control_available answer1 s in
      (r ≡ ok none)
      × ((step k t2 true answer2 d).0 ≡ ok (some (intent_for k timer t2 second.local s)))
unfolding set_baseline due_timers
due-Starts k t1 t2 control_available answer1 answer2 s first second timer armed sound idle unknown
      unfenced later1 later2 observed1 observed2 steady close next_minute first_fold due id_fits
      start_fits =
    let baseline : Baseline = record {
      utc_seconds = first.utc_seconds;
      fields = first.fields;
      local_minute_id = first.local.local_minute_id;
    } in
    let b = set_baseline first (record s { last_step_ms = some t1 }) in
    let (es, n, e) = announced k scheduler_baseline_established t1 b in
    subst
      (λ p.
        (p.0 ≡ ok none)
        × ((step k t2 true answer2 p.1).0 ≡ ok (some (intent_for k timer t2 second.local s))))
      (sym (
        first_observation k t1 control_available answer1 s first armed sound unknown later1
          observed1
        ∙ ap (λ (d : Scheduler). (ok none, d)) e))
      (
        refl,
        due-Makes k t2 answer2 (record b { events = es; events_dropped = n }) second baseline timer
            armed sound later2 observed2 refl unfenced steady close next_minute first_fold due idle
            id_fits start_fits,
      )
