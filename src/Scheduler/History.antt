-- ===== src/Scheduler/History.antt =====
-- app/scheduler.py: the history of consumed occurrences that survives a restart. That its values are integers, booleans
-- and lists with exactly the named fields is their type.
use Prim.Native.Nat.{Ordering}
use Prim.Native.String.{compare}
use text.Mathlib.Text.{◌==◌ as str_eq}
use landy_heater.Prelude.{
  ℕ, ◌*◌, Bool, true, false, not, ◌&&◌, ◌||◌, Option, none, some, List, [], ◌∷◌, ◌++◌, String, leb,
  ◌==◌, if◌then◌else◌, is_none, length, Result, ok, err, value_error, runtime_error, ◌>>=◌, ◌>>◌,
  require,
}
use landy_heater.Prelude.Int.{pos}
use landy_heater.Prelude.Exec.{Exec}
use landy_heater.Prelude.Texts.{strip, text_length}
use landy_heater.Clock.Calendar.{Civil, seconds_to_civil}
use landy_heater.Scheduler.Types.{
  Status, OccurrenceRecord, Slot, own, SchedulerSettings, Timer, Scheduler,
}
use landy_heater.Scheduler.Timers.{
  max_timer_id_length, max_occurrence_key_length, two_digits, date_key, before, has_delimiter,
  has_timer,
}
use landy_heater.Scheduler.Trust.{bool_eq}
use landy_heater.Scheduler.Steps.{record_at, put_slot, is_above}

pub data PersistentStatus : Type 0 where
  consumed overridden : PersistentStatus
  other : (name : String) → PersistentStatus

pub record PersistentOccurrence : Type 0 where
  pub timer_id : String
  pub occurrence_key : String
  pub local_minute_id : ℕ
  pub status : PersistentStatus
  pub overridden : Bool

pub record PersistentHistory : Type 0 where
  pub consumed_local_high_water : Option ℕ
  pub occurrences : List PersistentOccurrence

abbrev pub maximum_persistent_local_minute_id : ℕ
maximum_persistent_local_minute_id = 52595999

-- `_canonical_persistent_text`
unfoldable pub check_persistent_text : String → ℕ → Result (Unit {0})
check_persistent_text value maximum =
    require (not (str_eq value "") && leb (text_length value) maximum && str_eq value (strip value))
      (value_error "must be a canonical bounded string")

-- `_persistent_local_civil`
unfoldable pub persistent_local_civil : ℕ → Result Civil
unfolding seconds_to_civil
persistent_local_civil minute = do
  require (leb minute maximum_persistent_local_minute_id)
      (value_error "is outside the supported civil range")
  seconds_to_civil (pos (minute * 60))

-- `expected_key`
abbrev pub persistent_key : String → Civil → String
persistent_key timer_id local = before timer_id (
    String.◌∷◌ "|" (
      date_key local
        (String.◌∷◌ "|" (two_digits local.hour (String.◌∷◌ ":" (two_digits local.minute ""))))))

abbrev pub is_known : PersistentStatus → Bool
is_known (PersistentStatus.other name) = false
is_known _ = true

abbrev pub is_overridden : PersistentStatus → Bool
is_overridden PersistentStatus.overridden = true
is_overridden _ = false

-- `_normalize_persistent_occurrence`
unfoldable pub normalize_persistent_occurrence : PersistentOccurrence → Result PersistentOccurrence
unfolding check_persistent_text persistent_local_civil
normalize_persistent_occurrence definition = do
  check_persistent_text definition.timer_id max_timer_id_length
  require (not (has_delimiter definition.timer_id))
      (value_error "persistent timer_id contains a reserved delimiter")
  check_persistent_text definition.occurrence_key max_occurrence_key_length
  local ← persistent_local_civil definition.local_minute_id
  require (str_eq definition.occurrence_key (persistent_key definition.timer_id local))
      (value_error "persistent occurrence_key does not match local_minute_id")
  require (is_known definition.status) (value_error "persistent occurrence status is invalid")
  require (bool_eq definition.overridden (is_overridden definition.status))
      (value_error "persistent status and overridden disagree")
  ok definition

abbrev pub check_mark : Option ℕ → Result (Unit {0})
check_mark none = ok tt
check_mark (some minute) = persistent_local_civil minute >>= λ local. ok tt

abbrev pub has_persistent_id : String → List PersistentOccurrence → Bool
has_persistent_id id [] = false
has_persistent_id id (o ∷ rest) = str_eq id o.timer_id || has_persistent_id id rest

abbrev pub has_persistent_key : String → List PersistentOccurrence → Bool
has_persistent_key key [] = false
has_persistent_key key (o ∷ rest) = str_eq key o.occurrence_key || has_persistent_key key rest

-- The loop over the definitions, behind the occurrences that are read already.
abbrev pub add_persistent :
    Option ℕ
    → List PersistentOccurrence
    → List PersistentOccurrence
    → Result (List PersistentOccurrence)
add_persistent mark [] seen = ok seen
add_persistent mark (definition ∷ rest) seen = do
  o ← normalize_persistent_occurrence definition
  require (not (has_persistent_id o.timer_id seen))
      (value_error "persistent timer_ids must be unique")
  require (not (has_persistent_key o.occurrence_key seen))
      (value_error "persistent occurrence_keys must be unique")
  require (not (is_above o.local_minute_id mark))
      (value_error "persistent occurrence exceeds consumed_local_high_water")
  add_persistent mark rest (seen ++ o ∷ [])

abbrev pub text_before : String → String → Bool
text_before a b = elim (compare a b) [ Ordering.gt ↦ false | _ ↦ true ]

abbrev pub insert_by_id :
    PersistentOccurrence → List PersistentOccurrence → List PersistentOccurrence
insert_by_id o [] = o ∷ []
insert_by_id o (p ∷ rest) =
    if text_before o.timer_id p.timer_id then o ∷ p ∷ rest else p ∷ insert_by_id o rest

abbrev pub sort_by_id : List PersistentOccurrence → List PersistentOccurrence
sort_by_id [] = []
sort_by_id (o ∷ rest) = insert_by_id o (sort_by_id rest)

-- `_normalize_persistent_history`
unfoldable pub normalize_persistent_history : PersistentHistory → ℕ → Result PersistentHistory
unfolding normalize_persistent_occurrence persistent_local_civil
normalize_persistent_history history maximum = do
  check_mark history.consumed_local_high_water
  require (leb (length history.occurrences) maximum) (value_error "too many persistent occurrences")
  normalized ← add_persistent history.consumed_local_high_water history.occurrences []
  ok (record {
    consumed_local_high_water = history.consumed_local_high_water;
    occurrences = sort_by_id normalized;
  })

abbrev pub status_of : PersistentStatus → Status
status_of PersistentStatus.overridden = Status.overridden
status_of _ = Status.consumed

-- The record of a restored occurrence; no operation reads the revision and the time of one with its status.
abbrev pub restored_record : PersistentOccurrence → OccurrenceRecord
restored_record o = record {
  occurrence_key = o.occurrence_key;
  timer_id = o.timer_id;
  timer_revision = 0;
  status = status_of o.status;
  consumed_at_ms = 0;
  local_minute_id = o.local_minute_id;
  overridden = o.overridden;
  details = none;
  ending = none;
}

abbrev pub restored_slots :
    List Timer → List PersistentOccurrence → List (String × Slot) → Result (List (String × Slot))
restored_slots timers [] slots = ok slots
restored_slots timers (o ∷ rest) slots = do
  require (has_timer o.timer_id timers)
      (value_error "persistent occurrence references an unknown timer_id")
  restored_slots timers rest (put_slot o.timer_id (own (restored_record o)) slots)

-- A scheduler whose life has not begun.
abbrev pub is_unused : Scheduler → Bool
is_unused s =
    (not s.armed && not s.faulted && not s.persistent_history_restored)
    && ((s.authorization_epoch == 0) && (s.authorization_sequence == 0) && (s.intent_sequence == 0))
    && (is_none s.active_occurrence_key && is_none s.active_occurrence && is_none s.last_override)
    && (is_none s.baseline && not s.configuration_fence_pending && is_none s.last_step_ms)
    && (length s.occurrences == 0)
    && is_none s.consumed_local_high_water

-- As `_normalize_persistent_occurrence`, but raising RuntimeError
abbrev pub as_runtime_error : Result PersistentOccurrence → Result PersistentOccurrence
as_runtime_error (ok o) = ok o
as_runtime_error (err e) = err (runtime_error "scheduler occurrence cannot be persisted")

abbrev pub is_overridden_status : Status → Bool
is_overridden_status Status.overridden = true
is_overridden_status _ = false

abbrev pub export_occurrence : Option ℕ → String → OccurrenceRecord → Result PersistentOccurrence
export_occurrence mark id r = do
  require (str_eq id r.timer_id) (runtime_error "scheduler occurrence timer_id is invalid")
  let over = is_overridden_status r.status
  require (bool_eq r.overridden over) (runtime_error "scheduler occurrence is inconsistent")
  o ← as_runtime_error (
      normalize_persistent_occurrence (record {
        timer_id = r.timer_id;
        occurrence_key = r.occurrence_key;
        local_minute_id = r.local_minute_id;
        status = if over then PersistentStatus.overridden else PersistentStatus.consumed;
        overridden = over;
      }))
  require (not (is_above o.local_minute_id mark))
      (runtime_error "scheduler occurrence exceeds its global high-water mark")
  ok o

abbrev pub export_each :
    Option ℕ → (ℕ → OccurrenceRecord) → List (String × Slot) → Result (List PersistentOccurrence)
export_each mark store [] = ok []
export_each mark store ((id, slot) ∷ rest) = do
  o ← export_occurrence mark id (record_at slot store)
  later ← export_each mark store rest
  ok (o ∷ later)

module _ (k : SchedulerSettings) where
  -- `export_persistent_history`
  unfoldable pub export_persistent_history : Scheduler → Result PersistentHistory
  unfolding normalize_persistent_occurrence persistent_local_civil
  export_persistent_history s = do
    require (leb (length s.occurrences) k.max_timers)
        (runtime_error "scheduler occurrence history exceeds its bound")
    check_mark s.consumed_local_high_water
    occurrences ← export_each s.consumed_local_high_water s.store s.occurrences
    ok (record {
      consumed_local_high_water = s.consumed_local_high_water;
      occurrences = sort_by_id occurrences;
    })

  abbrev pub restored : Option ℕ → Result (List (String × Slot)) → Exec Scheduler Bool
  restored mark (err e) s = (err e, s)
  restored mark (ok slots) s = (
    ok true,
    record s {
      occurrences = slots;
      consumed_local_high_water = mark;
      persistent_history_restored = true;
    },
  )

  -- `restore_persistent_history`
  unfoldable pub restore_persistent_history : PersistentHistory → Exec Scheduler Bool
  unfolding normalize_persistent_history
  restore_persistent_history history s =
      if is_unused s
      then restored history.consumed_local_high_water
          (normalize_persistent_history history k.max_timers >>= λ normalized.
            restored_slots s.timers normalized.occurrences [])
          s
      else (
        err (
            runtime_error
              "persistent history may only be restored into a fresh disarmed scheduler"),
        s,
      )
