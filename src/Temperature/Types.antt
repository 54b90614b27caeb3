-- ===== src/Temperature/Types.antt =====
-- app/temperature_manager.py: the manager's settings, readings and state. A temperature counts
-- sixteenths of a degree; a value that is no finite number is `none`. The dictionaries by role are
-- records with a field for each role, the readings a list without two of one ROM id; the allocation
-- of an event does not fail.
use text.Mathlib.Text.{◌==◌ as str_eq}
use landy_heater.Prelude.{
  ℕ, ◌+◌, Bool, false, not, ◌&&◌, ◌||◌, Option, none, some, List, [], ◌∷◌, ◌++◌, String, leb, ltb,
  if◌then◌else◌, length, drop, Result, ok, value_error, ◌>>◌, require,
}
use landy_heater.Prelude.Int.{ℤ, pos, negsuc, leb_ℤ, ltb_ℤ}
use landy_heater.Prelude.Texts.{strip, lower, text_length}
use landy_heater.Heater.Types.{Role, Health, Reason}

-- One value for each role.
pub record ByRole {ℓ} (A : Type ℓ) : Type ℓ where
  pub roof_tent : A
  pub cabin : A
  pub outside : A

module _ {ℓ} {A : Type ℓ} where
  abbrev pub get : ByRole A → Role → A
  get d Role.roof_tent = d.roof_tent
  get d Role.cabin = d.cabin
  get d Role.outside = d.outside

  abbrev pub set : ByRole A → Role → A → ByRole A
  set d Role.roof_tent a = record d { roof_tent = a }
  set d Role.cabin a = record d { cabin = a }
  set d Role.outside a = record d { outside = a }

  abbrev pub every : A → ByRole A
  every a = record { roof_tent = a; cabin = a; outside = a }

-- The attributes that `__init__` sets once, with the clock that it is given.
pub record Settings : Type 0 where
  pub ticks_diff : ℕ → ℕ → ℤ
  pub stale_after_ms : ℕ
  pub failed_after_ms : ℕ
  pub event_capacity : ℕ
  pub max_discovered_sensors : ℕ
  pub minimum_temperature_c : ℤ
  pub maximum_temperature_c : ℤ

pub record Reading : Type 0 where
  pub rom_id : String
  pub value_c : Option ℤ
  pub last_valid_ms : Option ℕ
  pub unavailable_since_ms : Option ℕ
  pub last_failure_ms : Option ℕ
  pub last_update_ms : Option ℕ
  pub last_error : Option Reason
  pub invalid_readings : ℕ
  pub failure_generation : ℕ
  pub present : Option Bool

-- A `sensor_health_changed` event.
pub record HealthEvent : Type 0 where
  pub at_ms : ℕ
  pub role : Role
  pub rom_id : Option String
  pub previous : Health
  pub current : Health
  pub age_ms : Option ℤ

pub record Manager : Type 0 where
  pub assignments : ByRole (Option String)
  pub assignment_revisions : ByRole ℕ
  pub readings : List Reading
  pub discovered : List String
  pub health : ByRole Health
  pub events : List HealthEvent
  pub events_dropped : ℕ

abbrev pub max_rom_id_length : ℕ
max_rom_id_length = 64

abbrev pub max_error_length : ℕ
max_error_length = 160

-- `_normalize_rom_id`
unfoldable pub normalize_rom_id : String → Result String
normalize_rom_id rom_id = do
  let normal = lower (strip rom_id)
  require (not (str_eq normal "") && leb (text_length normal) max_rom_id_length)
      (value_error "ROM ID must be a non-empty bounded string")
  ok normal

abbrev pub in_bounds : ℤ → ℤ → ℤ → Bool
in_bounds minimum maximum value = leb_ℤ minimum value && leb_ℤ value maximum

-- `_normalize_temperature`
abbrev pub normalize_temperature : Option ℤ → ℤ → ℤ → Option ℤ
normalize_temperature none minimum maximum = none
normalize_temperature (some value) minimum maximum =
    if in_bounds minimum maximum value then some value else none

-- -55 and 125 degrees
abbrev pub default_minimum_temperature_c : ℤ
default_minimum_temperature_c = negsuc 879

abbrev pub default_maximum_temperature_c : ℤ
default_maximum_temperature_c = pos 2000

-- The checks of `__init__`.
unfoldable pub check_settings : Settings → Result (Unit {0})
check_settings s = do
  require (leb 1 s.stale_after_ms) (value_error "stale_after_ms must be a positive integer")
  require (leb 1 s.failed_after_ms) (value_error "failed_after_ms must be a positive integer")
  require (leb 1 s.event_capacity) (value_error "event_capacity must be a positive integer")
  require (leb 1 s.max_discovered_sensors)
      (value_error "max_discovered_sensors must be a positive integer")
  require (ltb s.stale_after_ms s.failed_after_ms)
      (value_error "failed_after_ms must exceed stale_after_ms")
  require
      (in_bounds default_minimum_temperature_c default_maximum_temperature_c s.minimum_temperature_c
        && in_bounds default_minimum_temperature_c default_maximum_temperature_c
            s.maximum_temperature_c
        && ltb_ℤ s.minimum_temperature_c s.maximum_temperature_c)
      (value_error "temperature bounds must be finite, increasing, and inside DS18B20 limits")

-- The state that `__init__` leaves before it configures the assignments.
unfoldable pub empty : Manager
empty = record {
  assignments = every none;
  assignment_revisions = every 0;
  readings = [];
  discovered = [];
  health = every Health.missing;
  events = [];
  events_dropped = 0;
}

unfoldable pub new_reading : String → Reading
new_reading rom_id = record {
  rom_id = rom_id;
  value_c = none;
  last_valid_ms = none;
  unavailable_since_ms = none;
  last_failure_ms = none;
  last_update_ms = none;
  last_error = none;
  invalid_readings = 0;
  failure_generation = 0;
  present = none;
}

-- `self._readings.get(rom_id)`
abbrev pub find_reading : String → List Reading → Option Reading
find_reading rom_id [] = none
find_reading rom_id (r ∷ rest) = if str_eq r.rom_id rom_id then some r else find_reading rom_id rest

-- A change of the reading that is kept under a ROM id.
abbrev pub change_reading : String → (Reading → Reading) → List Reading → List Reading
change_reading rom_id f [] = []
change_reading rom_id f (r ∷ rest) =
    (if str_eq r.rom_id rom_id then f r else r) ∷ change_reading rom_id f rest

abbrev pub is_listed : String → List String → Bool
is_listed s [] = false
is_listed s (t ∷ rest) = str_eq s t || is_listed s rest

module _ (settings : Settings) where
  unfoldable pub time_precedes_reading : Reading → ℕ → Bool
  time_precedes_reading r now_ms = elim r.last_update_ms [
    | none ↦ false
    | some anchor ↦ ltb_ℤ (settings.ticks_diff now_ms anchor) (pos 0)
  ]

  -- `_emit_event`, for the one type of event that there is.
  unfoldable pub emit_event : HealthEvent → Manager → Manager
  emit_event event m =
      if leb settings.event_capacity (length m.events)
      then record m {
        events = drop 1 m.events ++ event ∷ [];
        events_dropped = m.events_dropped + 1;
      }
      else record m { events = m.events ++ event ∷ [] }
