-- ===== src/Scheduler/Handoff/Records.antt =====
-- app/scheduler.py: how the records of occurrences are found, compared and replaced.
use text.Mathlib.Text.{◌==◌ as str_eq}
use landy_heater.Prelude.{
  ℕ, ◌/◌, Bool, true, false, ◌&&◌, ◌||◌, Option, none, some, List, [], ◌∷◌, String, ◌==◌,
  if◌then◌else◌, is_some, is_none,
}
use landy_heater.Prelude.Int.{ℤ, pos, negsuc, eq_ℤ}
use landy_heater.AppState.{Requested, Source, source_eq, mode_eq, option_eq}
use landy_heater.Scheduler.Types.{
  Timer, CanonicalClock, Status, intent_created, authorized_pending, accepted, IntentDetails,
  OccurrenceRecord, Slot, own, StartIntent,
}
use landy_heater.Scheduler.Trust.{sub_ℤ, same_clock}
use landy_heater.Scheduler.Steps.{record_at, put_slot}

abbrev pub status_eq : Status → Status → Bool
status_eq intent_created intent_created = true
status_eq authorized_pending authorized_pending = true
status_eq accepted accepted = true
status_eq _ _ = false

-- `_find_occurrence`
unfoldable pub find_occurrence :
    String → List (String × Slot) → (ℕ → OccurrenceRecord) → Option (String × OccurrenceRecord)
find_occurrence key [] store = none
find_occurrence key ((id, slot) ∷ rest) store =
    if str_eq (record_at slot store).occurrence_key key
    then some (id, record_at slot store)
    else find_occurrence key rest store

-- `_timer_matches_record`
unfoldable pub timer_matches_record : Timer → OccurrenceRecord → IntentDetails → Bool
timer_matches_record timer r d =
    timer.enabled
    && (timer.revision == r.timer_revision)
    && mode_eq timer.mode d.mode
    && option_eq timer.target_temperature d.target_temperature
    && option_eq timer.power_level d.power_level
    && (timer.runtime_minutes == d.runtime_minutes)

-- `_intent_matches_record`
unfoldable pub intent_matches_record : StartIntent → OccurrenceRecord → IntentDetails → ℕ → Bool
intent_matches_record intent r d capability =
    (intent.owner == capability)
    && (intent.creation_token == d.intent_token)
    && str_eq intent.occurrence_key r.occurrence_key
    && str_eq intent.timer_id r.timer_id
    && (intent.timer_revision == r.timer_revision)
    && mode_eq intent.mode d.mode
    && option_eq intent.target_temperature d.target_temperature
    && option_eq intent.power_level d.power_level
    && (intent.runtime_minutes == d.runtime_minutes)
    && (intent.created_at_ms == r.consumed_at_ms)
    && (intent.not_after_ms == d.not_after_ms)

-- `elapsed_ms // 1000`
abbrev pub whole_seconds : ℤ → ℤ
whole_seconds (pos n) = pos (n / 1000)
whole_seconds (negsuc n) = negsuc (n / 1000)

-- `clock_matches`
abbrev pub clock_matches : ℤ → IntentDetails → Option CanonicalClock → Bool
clock_matches elapsed_ms d none = false
clock_matches elapsed_ms d (some clock) =
    let delta = sub_ℤ clock.utc_seconds d.created_utc_seconds in
    same_clock clock.fields d.clock
    && (eq_ℤ delta (whole_seconds elapsed_ms)
        || eq_ℤ (sub_ℤ delta (pos 1)) (whole_seconds elapsed_ms))

-- `_requested_state_matches`
unfoldable pub requested_state_matches : IntentDetails → Option Requested → Bool
requested_state_matches d none = false
requested_state_matches d (some requested) =
    requested.on
    && mode_eq requested.mode d.mode
    && source_eq requested.source Source.timer
    && (requested.runtime_minutes == d.runtime_minutes)
    && (if is_none d.power_level
        then is_none requested.power_level
          && is_some requested.target_temperature
          && option_eq requested.target_temperature d.target_temperature
        else is_none requested.target_temperature
          && is_some requested.power_level
          && option_eq requested.power_level d.power_level)

abbrev pub write_cell : ℕ → OccurrenceRecord → (ℕ → OccurrenceRecord) → ℕ → OccurrenceRecord
write_cell token r store n = if n == token then r else store n

abbrev pub with_completion :
    Status → ℕ → String → OccurrenceRecord → IntentDetails → OccurrenceRecord
with_completion status now_ms reason r d = record r {
  status = status;
  details = some (record d { completion = some (record { at_ms = now_ms; reason = reason }) });
}

abbrev pub completed_at : OccurrenceRecord → Option ℕ
completed_at r = elim r.details [
  | none ↦ none
  | some d ↦ elim d.completion [ none ↦ none | some completion ↦ some completion.at_ms ]
]

-- Replaces the record of a timer if it is still that of the key.
abbrev pub replace_current :
    Option Slot
    → (ℕ → OccurrenceRecord)
    → OccurrenceRecord
    → List (String × Slot)
    → List (String × Slot)
replace_current none store r occurrences = occurrences
replace_current (some slot) store r occurrences =
    if str_eq (record_at slot store).occurrence_key r.occurrence_key
    then put_slot r.timer_id (own r) occurrences
    else occurrences
