-- ===== src/Scheduler/Steps.antt =====
-- app/scheduler.py: `step`, which makes the start intents. What the clock's `snapshot` answers is an argument.
use text.Mathlib.Text.{◌==◌ as str_eq}
use landy_heater.Prelude.{
  ℕ, ◌+◌, Bool, true, false, not, ◌&&◌, ◌||◌, Option, none, some, List, [], ◌∷◌, String, leb, ltb,
  ◌==◌, if◌then◌else◌, is_some, Result, ok, err, value_error, ◌>>=◌, ◌>>◌, require,
}
use landy_heater.Prelude.Int.{ℤ, pos, ltb_ℤ, eq_ℤ, sub_ℕ}
use landy_heater.Prelude.Exec.{Exec}
use landy_heater.Prelude.Texts.{text_length}
use landy_heater.Clock.Calendar.{Civil}
use landy_heater.Clock.Snapshot.{ClockSnapshot}
use landy_heater.Scheduler.Types.{
  SchedulerSettings, Timer, CanonicalClock, Baseline, Status, conflict, suppressed_busy,
  intent_created, IntentDetails, OccurrenceRecord, Slot, own, shared, StartIntent,
  clock_unavailable, scheduler_baseline_established, timer_configuration_fence,
  clock_revision_fence, clock_jump_fence, local_time_jump_fence, timer_conflict, timer_suppressed,
  timer_intent_created, Scheduler,
}
use landy_heater.Scheduler.Timers.{
  max_occurrence_key_length, occurrence_key_of, is_member, advance_epoch, announce, latch_fault,
}
use landy_heater.Scheduler.Trust.{canonical_clock, observed_clock, sub_ℤ, same_clock}

-- `_set_baseline`
unfoldable pub set_baseline : CanonicalClock → Scheduler → Scheduler
set_baseline clock s = record s {
  baseline = some (record {
    utc_seconds = clock.utc_seconds;
    fields = clock.fields;
    local_minute_id = clock.local.local_minute_id;
  });
}

abbrev pub matches_local : Civil → Timer → Bool
matches_local local timer =
    timer.enabled
    && is_member local.weekday timer.weekdays
    && (local.hour == timer.start_hour)
    && (local.minute == timer.start_minute)

-- `_matching_timers`
unfoldable pub matching_timers : Civil → List Timer → List Timer
matching_timers local [] = []
matching_timers local (timer ∷ rest) =
    if matches_local local timer
    then timer ∷ matching_timers local rest
    else matching_timers local rest

abbrev pub find_slot : String → List (String × Slot) → Option Slot
find_slot id [] = none
find_slot id ((other, slot) ∷ rest) = if str_eq other id then some slot else find_slot id rest

-- `updated[id] = ...`
abbrev pub put_slot : String → Slot → List (String × Slot) → List (String × Slot)
put_slot id slot [] = (id, slot) ∷ []
put_slot id slot ((other, old) ∷ rest) =
    if str_eq other id then (other, slot) ∷ rest else (other, old) ∷ put_slot id slot rest

abbrev pub record_at : Slot → (ℕ → OccurrenceRecord) → OccurrenceRecord
record_at (own r) store = r
record_at (shared token) store = store token

abbrev pub is_above : ℕ → Option ℕ → Bool
is_above minute none = true
is_above minute (some high_water) = ltb high_water minute

abbrev pub is_fresh : String → ℕ → Option Slot → (ℕ → OccurrenceRecord) → Bool
is_fresh key minute none store = true
is_fresh key minute (some slot) store =
    let prior = record_at slot store in
    not (str_eq prior.occurrence_key key) && ltb prior.local_minute_id minute

abbrev pub is_due : Civil → Option ℕ → List (String × Slot) → (ℕ → OccurrenceRecord) → Timer → Bool
is_due local high_water occurrences store timer =
    is_above local.local_minute_id high_water
    && is_fresh (occurrence_key_of timer local) local.local_minute_id
        (find_slot timer.id occurrences) store

-- The loop that fills `due`.
abbrev pub due_among :
    Civil → Option ℕ → List (String × Slot) → (ℕ → OccurrenceRecord) → List Timer → List Timer
due_among local high_water occurrences store [] = []
due_among local high_water occurrences store (timer ∷ rest) =
    if is_due local high_water occurrences store timer
    then timer ∷ due_among local high_water occurrences store rest
    else due_among local high_water occurrences store rest

unfoldable pub due_timers : Civil → Scheduler → List Timer
unfolding matching_timers occurrence_key_of
due_timers local s =
    due_among local s.consumed_local_high_water s.occurrences s.store
      (matching_timers local s.timers)

-- The record of an occurrence; only that of an intent has details.
abbrev pub occurrence_record :
    String → Timer → Civil → Status → ℕ → Option IntentDetails → OccurrenceRecord
occurrence_record key timer local status now_ms details = record {
  occurrence_key = key;
  timer_id = timer.id;
  timer_revision = timer.revision;
  status = status;
  consumed_at_ms = now_ms;
  local_minute_id = local.local_minute_id;
  overridden = false;
  details = details;
  ending = none;
}

-- The loop over the timers: how many keys there are, and the occurrences.
abbrev pub consume_each :
    List Timer
    → Civil
    → Status
    → ℕ
    → Option IntentDetails
    → List (String × Slot)
    → Result (ℕ × List (String × Slot))
consume_each [] local status now_ms details updated = ok (0, updated)
consume_each (timer ∷ rest) local status now_ms details updated = do
  let key = occurrence_key_of timer local
  require (leb (text_length key) max_occurrence_key_length)
      (value_error "occurrence key exceeds bounded length")
  let r = occurrence_record key timer local status now_ms details
  later ← consume_each rest local status now_ms details (put_slot timer.id (own r) updated)
  ok (later.0 + 1, later.1)

abbrev pub raised : ℕ → Option ℕ → Option ℕ
raised minute none = some minute
raised minute (some high_water) = if ltb high_water minute then some minute else some high_water

abbrev pub commit_consumed : Civil → Result (ℕ × List (String × Slot)) → Exec Scheduler ℕ
commit_consumed local (err e) s = (err e, s)
commit_consumed local (ok (count, updated)) s = (
  ok count,
  record s {
    occurrences = updated;
    consumed_local_high_water = raised local.local_minute_id s.consumed_local_high_water;
  },
)

-- `_consume`
unfoldable pub consume : List Timer → Civil → Status → ℕ → Option IntentDetails → Exec Scheduler ℕ
unfolding occurrence_key_of
consume timers local status now_ms details s =
    commit_consumed local (consume_each timers local status now_ms details s.occurrences) s

module _ (k : SchedulerSettings) where
  -- Several timers of one minute are all consumed.
  abbrev pub collided : ℕ → Result ℕ × Scheduler → Result (Option StartIntent) × Scheduler
  collided now_ms (err e, s) = (err e, s)
  collided now_ms (ok count, s) = (ok none, announce k (timer_conflict count) now_ms s)

  abbrev pub suppressed :
      String → ℕ → Result ℕ × Scheduler → Result (Option StartIntent) × Scheduler
  suppressed key now_ms (err e, s) = (err e, s)
  suppressed key now_ms (ok count, s) = (ok none, announce k (timer_suppressed key) now_ms s)

  -- `StartIntent`, of this scheduler
  abbrev pub start_intent : Timer → String → ℕ → ℕ → ℕ → ℕ → StartIntent
  start_intent timer key created_at_ms not_after_ms owner token = record {
    occurrence_key = key;
    timer_id = timer.id;
    timer_revision = timer.revision;
    mode = timer.mode;
    target_temperature = timer.target_temperature;
    power_level = timer.power_level;
    runtime_minutes = timer.runtime_minutes;
    created_at_ms = created_at_ms;
    not_after_ms = not_after_ms;
    start = timer.start;
    owner = owner;
    creation_token = token;
  }

  abbrev pub intent_details : Timer → CanonicalClock → ℕ → ℕ → ℕ → IntentDetails
  intent_details timer clock not_after_ms epoch token = record {
    not_after_ms = not_after_ms;
    clock = clock.fields;
    local_fold = clock.local.fold;
    created_utc_seconds = clock.utc_seconds;
    authorization_epoch = epoch;
    intent_token = token;
    authorization = none;
    completion = none;
    mode = timer.mode;
    target_temperature = timer.target_temperature;
    power_level = timer.power_level;
    runtime_minutes = timer.runtime_minutes;
  }

  abbrev pub intent_made :
      StartIntent → ℕ → Result ℕ × Scheduler → Result (Option StartIntent) × Scheduler
  intent_made intent now_ms (err e, s) = (err e, s)
  intent_made intent now_ms (ok count, s) = (
    ok (some intent),
    announce k (timer_intent_created intent.occurrence_key) now_ms
        (record s { intent_sequence = intent.creation_token }),
  )

  abbrev pub create_intent : ℕ → CanonicalClock → Timer → Exec Scheduler (Option StartIntent)
  create_intent now_ms clock timer s =
      let not_after_ms = k.ticks_add now_ms k.intent_valid_ms in
      let token = s.intent_sequence + 1 in
      intent_made
        (start_intent timer (occurrence_key_of timer clock.local) now_ms not_after_ms
          s.intent_capability token)
        now_ms
        (consume (timer ∷ []) clock.local intent_created now_ms
          (some (intent_details timer clock not_after_ms s.authorization_epoch token)) s)

  abbrev pub decide : ℕ → Bool → CanonicalClock → List Timer → Exec Scheduler (Option StartIntent)
  decide now_ms control_available clock [] s = (ok none, s)
  decide now_ms control_available clock (timer ∷ []) s =
      if not control_available || is_some s.active_occurrence_key
      then suppressed (occurrence_key_of timer clock.local) now_ms
          (consume (timer ∷ []) clock.local suppressed_busy now_ms none s)
      else create_intent now_ms clock timer s
  decide now_ms control_available clock (a ∷ b ∷ rest) s =
      collided now_ms (consume (a ∷ b ∷ rest) clock.local conflict now_ms none s)

  abbrev pub progressed : ℕ → Bool → CanonicalClock → ℤ → ℤ → Exec Scheduler (Option StartIntent)
  progressed now_ms control_available clock utc_delta local_delta s =
      if ltb_ℤ utc_delta (pos 0) || ltb_ℤ (pos k.max_clock_step_seconds) utc_delta
      then (ok none, announce k (clock_jump_fence utc_delta) now_ms (advance_epoch s))
      else if ltb_ℤ local_delta (pos 0) || ltb_ℤ (pos 1) local_delta
      then (ok none, announce k (local_time_jump_fence local_delta) now_ms (advance_epoch s))
      else if eq_ℤ local_delta (pos 0) || (clock.local.fold == 1)
      then (ok none, s)
      else decide now_ms control_available clock (due_timers clock.local s) s

  abbrev pub with_baseline :
      ℕ → Bool → CanonicalClock → Option Baseline → Exec Scheduler (Option StartIntent)
  with_baseline now_ms control_available clock none s =
      (ok none, announce k scheduler_baseline_established now_ms (set_baseline clock s))
  with_baseline now_ms control_available clock (some baseline) s =
      if s.configuration_fence_pending
      then (
        ok none,
        announce k timer_configuration_fence now_ms
            (record (set_baseline clock s) { configuration_fence_pending = false }),
      )
      else if not (same_clock clock.fields baseline.fields)
      then (ok none, announce k clock_revision_fence now_ms (set_baseline clock (advance_epoch s)))
      else progressed now_ms control_available clock (sub_ℤ clock.utc_seconds baseline.utc_seconds)
          (sub_ℕ clock.local.local_minute_id baseline.local_minute_id) (set_baseline clock s)

  abbrev pub with_clock : ℕ → Bool → Option CanonicalClock → Exec Scheduler (Option StartIntent)
  with_clock now_ms control_available none s =
      let d =
        if is_some s.baseline then announce k clock_unavailable now_ms (advance_epoch s) else s in
      (ok none, record d { baseline = none })
  with_clock now_ms control_available (some clock) s =
      with_baseline now_ms control_available clock s.baseline s

  -- Whether a time lies before the last one that is known.
  abbrev pub precedes : ℕ → Option ℕ → Bool
  precedes now_ms none = false
  precedes now_ms (some last_ms) = ltb_ℤ (k.ticks_diff now_ms last_ms) (pos 0)

  -- `step`
  unfoldable pub step : ℕ → Bool → Result ClockSnapshot → Exec Scheduler (Option StartIntent)
  unfolding canonical_clock set_baseline due_timers consume announce latch_fault occurrence_key_of
  step now_ms control_available answer s =
      if not s.armed || s.faulted
      then (ok none, s)
      else if precedes now_ms s.last_step_ms
      then (
        err (value_error "now_ms precedes the previous scheduler step"),
        latch_fault "scheduler_monotonic_time_reversed" s,
      )
      else with_clock now_ms control_available (observed_clock answer)
          (record s { last_step_ms = some now_ms })
