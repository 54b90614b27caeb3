-- ===== src/Scheduler/Timers.antt =====
-- app/scheduler.py: the definitions of the timers, their texts, and the operations that arm the scheduler.
use Prim.Native.Char.{Char, code}
use text.Mathlib.Text.{◌==◌ as str_eq}
use landy_heater.Prelude.{
  ℕ, ◌+◌, ◌-◌, ◌*◌, ◌/◌, ◌%◌, Bool, true, false, not, ◌&&◌, ◌||◌, Option, none, some, List, [], ◌∷◌,
  ◌++◌, String, leb, ltb, ◌==◌, in_range, if◌then◌else◌, length, drop, get_or, Result, ok, err,
  value_error, ◌>>=◌, ◌>>◌, require,
}
use landy_heater.Prelude.Exec.{Exec}
use landy_heater.Prelude.Texts.{strip, text_length}
use landy_heater.AppState.{Source, validate_start_request}
use landy_heater.Clock.Calendar.{Civil}
use landy_heater.Scheduler.Types.{
  SchedulerSettings, TimerDefinition, Timer, Slot, SchedulerEventKind, SchedulerEvent, Scheduler,
}

abbrev pub max_timer_id_length : ℕ
max_timer_id_length = 64

abbrev pub max_timer_name_length : ℕ
max_timer_name_length = 80

abbrev pub max_occurrence_key_length : ℕ
max_occurrence_key_length = 128

-- `_bounded_text`
unfoldable pub bounded_name : String → ℕ → Bool → Result String
bounded_name value maximum allow_empty = do
  let stripped = strip value
  require ((not (str_eq stripped "") || allow_empty) && leb (text_length stripped) maximum)
      (value_error "must be a bounded string")
  ok stripped

abbrev pub is_digit : Char → Bool
is_digit c = in_range 48 57 (code c)

abbrev pub number_of : Char → Char → ℕ
number_of a b = (code a - 48) * 10 + (code b - 48)

-- `_parse_start`
unfoldable pub parse_start : String → Result (ℕ × ℕ)
parse_start (String.◌∷◌ a (String.◌∷◌ b (String.◌∷◌ c (String.◌∷◌ d (String.◌∷◌ e String.[]))))) =
    do
      require ((code c == 58) && is_digit a && is_digit b && is_digit d && is_digit e)
          (value_error "start must use exact HH:MM format")
      require (not (ltb 23 (number_of a b) || ltb 59 (number_of d e)))
          (value_error "start time is outside 00:00-23:59")
      ok (number_of a b, number_of d e)
parse_start _ = err (value_error "start must use exact HH:MM format")

abbrev pub digits : List Char
digits = "0" ∷ "1" ∷ "2" ∷ "3" ∷ "4" ∷ "5" ∷ "6" ∷ "7" ∷ "8" ∷ "9" ∷ []

abbrev pub digit : ℕ → Char
digit n = get_or digits (n % 10) "0"

-- `{:02d}` of a number below 100 and `{:04d}` of one below 10000, with the text that follows
abbrev pub two_digits : ℕ → String → String
two_digits n rest = String.◌∷◌ (digit (n / 10)) (String.◌∷◌ (digit n) rest)

abbrev pub four_digits : ℕ → String → String
four_digits n rest = two_digits (n / 100) (two_digits n rest)

abbrev pub date_key : Civil → String → String
date_key local rest =
    four_digits local.year
      (String.◌∷◌ "-" (two_digits local.month (String.◌∷◌ "-" (two_digits local.day rest))))

abbrev pub before : String → String → String
before String.[] t = t
before (String.◌∷◌ c s) t = String.◌∷◌ c (before s t)

-- `_occurrence_key`
unfoldable pub occurrence_key_of : Timer → Civil → String
occurrence_key_of timer local =
    before timer.id (String.◌∷◌ "|" (date_key local (String.◌∷◌ "|" timer.start)))

abbrev pub has_delimiter : String → Bool
has_delimiter String.[] = false
has_delimiter (String.◌∷◌ c s) = (code c == 124) || has_delimiter s

abbrev pub is_member : ℕ → List ℕ → Bool
is_member n [] = false
is_member n (m ∷ ms) = (n == m) || is_member n ms

abbrev pub insert_sorted : ℕ → List ℕ → List ℕ
insert_sorted n [] = n ∷ []
insert_sorted n (m ∷ ms) = if leb n m then n ∷ m ∷ ms else m ∷ insert_sorted n ms

abbrev pub sort : List ℕ → List ℕ
sort [] = []
sort (n ∷ ns) = insert_sorted n (sort ns)

-- The loop over the weekdays, behind those that are read already.
abbrev pub add_weekdays : List ℕ → List ℕ → Result (List ℕ)
add_weekdays [] seen = ok seen
add_weekdays (weekday ∷ rest) seen = do
  require (leb weekday 6) (value_error "weekday must be between 0 and 6")
  require (not (is_member weekday seen)) (value_error "weekdays must be unique")
  add_weekdays rest (seen ++ weekday ∷ [])

abbrev pub normalize_weekdays : List ℕ → Result (List ℕ)
normalize_weekdays weekdays = do
  require (ltb 0 (length weekdays)) (value_error "weekdays must be a non-empty list or tuple")
  require (leb (length weekdays) 7) (value_error "weekdays contains too many values")
  normalized ← add_weekdays weekdays []
  ok (sort normalized)

abbrev pub name_or_empty : Option String → String
name_or_empty none = ""
name_or_empty (some name) = name

abbrev pub find_timer : String → List Timer → Option Timer
find_timer id [] = none
find_timer id (timer ∷ rest) = if str_eq timer.id id then some timer else find_timer id rest

abbrev pub has_timer : String → List Timer → Bool
has_timer id [] = false
has_timer id (timer ∷ rest) = str_eq timer.id id || has_timer id rest

-- The occurrences of timers that are still there.
abbrev pub retained : List Timer → List (String × Slot) → List (String × Slot)
retained timers [] = []
retained timers ((id, slot) ∷ rest) =
    if has_timer id timers then (id, slot) ∷ retained timers rest else retained timers rest

-- `_advance_authorization_epoch`
abbrev pub advance_epoch : Scheduler → Scheduler
advance_epoch s = record s { authorization_epoch = s.authorization_epoch + 1 }

module _ (k : SchedulerSettings) where
  -- `_emit`
  unfoldable pub announce : SchedulerEventKind → ℕ → Scheduler → Scheduler
  announce kind now_ms s =
      let event : SchedulerEvent = record { kind = kind; at_ms = now_ms } in
      if leb k.event_capacity (length s.events)
      then record s {
        events = drop 1 s.events ++ event ∷ [];
        events_dropped = s.events_dropped + 1;
      }
      else record s { events = s.events ++ event ∷ [] }

  -- `_normalize_timer`
  unfoldable pub normalize_timer : TimerDefinition → ℕ → Result Timer
  unfolding bounded_name parse_start validate_start_request
  normalize_timer definition revision = do
    id ← bounded_name definition.id max_timer_id_length false
    require (not (has_delimiter id)) (value_error "timer id contains a reserved delimiter")
    name ← bounded_name (name_or_empty definition.name) max_timer_name_length true
    weekdays ← normalize_weekdays definition.weekdays
    start ← parse_start definition.start
    validate_start_request definition.mode definition.target_temperature definition.power_level
        definition.runtime_minutes Source.timer (some k.maximum_runtime_minutes)
    ok (record {
      id = id;
      name = name;
      enabled = definition.enabled;
      weekdays = weekdays;
      start = definition.start;
      start_hour = start.0;
      start_minute = start.1;
      mode = definition.mode;
      target_temperature = definition.target_temperature;
      power_level = definition.power_level;
      runtime_minutes = definition.runtime_minutes;
      revision = revision;
    })

  -- The loop over the definitions, behind the timers that are read already.
  abbrev pub add_timers : List TimerDefinition → ℕ → List Timer → Result (List Timer)
  add_timers [] revision seen = ok seen
  add_timers (definition ∷ rest) revision seen = do
    timer ← normalize_timer definition revision
    require (not (has_timer timer.id seen)) (value_error "timer IDs must be unique")
    add_timers rest revision (seen ++ timer ∷ [])

  abbrev pub with_timers : List Timer → Scheduler → Scheduler
  with_timers timers s =
      let d = record s {
        timers = timers;
        occurrences = retained timers s.occurrences;
        configuration_revision = s.configuration_revision + 1;
      } in
      if s.armed then advance_epoch (record d { configuration_fence_pending = true }) else d

  abbrev pub replaced : Result (List Timer) → Exec Scheduler Bool
  replaced (err e) s = (err e, s)
  replaced (ok timers) s = (ok true, with_timers timers s)

  -- `replace_timers`
  unfoldable pub replace_timers : List TimerDefinition → Exec Scheduler Bool
  unfolding normalize_timer
  replace_timers definitions s =
      if ltb k.max_timers (length definitions)
      then (err (value_error "too many timer definitions"), s)
      else replaced (add_timers definitions (s.configuration_revision + 1) []) s

-- `_latch_fault`
unfoldable pub latch_fault : String → Scheduler → Scheduler
latch_fault reason s =
    let d = record s { faulted = true; last_error = some reason } in
    if s.faulted then d else advance_epoch d

-- `arm`
unfoldable pub arm : Scheduler → Bool × Scheduler
arm s = if s.armed || s.faulted then (false, s) else (
  true,
  record (advance_epoch s) {
    armed = true;
    baseline = none;
    configuration_fence_pending = false;
    last_step_ms = none;
    last_error = none;
  },
)

-- `disarm`
unfoldable pub disarm : Scheduler → Bool × Scheduler
disarm s =
    let d = record s { armed = false; baseline = none } in
    (s.armed, (if s.armed then advance_epoch d else d))

-- `reset_fault`
unfoldable pub reset_fault : Scheduler → Bool × Scheduler
reset_fault s = if not s.faulted then (false, s) else (
  true,
  record (advance_epoch s) {
    faulted = false;
    baseline = none;
    last_step_ms = none;
    last_error = none;
  },
)

-- `drain_events`
abbrev pub drain_scheduler_events : Scheduler → List SchedulerEvent × Scheduler
drain_scheduler_events s = (s.events, record s { events = [] })
