-- ===== src/AppState.antt =====
-- app/application_state.py: what the application requests, what the heater last reported, and one
-- supervised session. The text names of modes and states are data types; a mode or source that the
-- program does not name is `other`. An integer argument that may be `None` is an `Option ℕ`.
-- Tick values are natural numbers; voltage is kept in tenths of a volt.
pub mod Laws
use text.Mathlib.Text.{◌==◌ as str_eq}
use landy_heater.Prelude.{
  ℕ, Bool, true, false, not, ◌&&◌, Option, none, some, String, ltb, leb, ◌==◌, if◌then◌else◌,
  in_range, is_some, is_none, Result, Error, value_error, runtime_error, ◌>>=◌, ◌>>◌, require,
}
use landy_heater.Autoterm.{
  ControlMode, power, roof_tent_temperature, cabin_temperature, StatusFields,
}

pub data Communication : Type 0 where
  unknown ok error : Communication

pub data HeaterState : Type 0 where
  unknown off starting running shutting_down temp_monitoring : HeaterState

pub data Source : Type 0 where
  manual quick_start timer : Source
  other : String → Source

-- `HEATER_STATE_BY_RAW.get(raw, HEATER_STATE_UNKNOWN)`
unfoldable pub heater_state_by_raw : Option ℕ → HeaterState
heater_state_by_raw none = HeaterState.unknown
heater_state_by_raw (some raw) =
    if raw == 0
    then HeaterState.off
    else if raw == 1
    then HeaterState.starting
    else if raw == 4
    then HeaterState.running
    else if raw == 5
    then HeaterState.shutting_down
    else if raw == 6
    then HeaterState.temp_monitoring
    else HeaterState.unknown

abbrev pub is_power : ControlMode → Bool
is_power power = true
is_power _ = false

abbrev pub mode_eq : ControlMode → ControlMode → Bool
mode_eq power power = true
mode_eq roof_tent_temperature roof_tent_temperature = true
mode_eq cabin_temperature cabin_temperature = true
mode_eq (ControlMode.other a) (ControlMode.other b) = str_eq a b
mode_eq _ _ = false

abbrev pub source_eq : Source → Source → Bool
source_eq Source.manual Source.manual = true
source_eq Source.quick_start Source.quick_start = true
source_eq Source.timer Source.timer = true
source_eq (Source.other a) (Source.other b) = str_eq a b
source_eq _ _ = false

abbrev pub option_eq : Option ℕ → Option ℕ → Bool
option_eq none none = true
option_eq (some a) (some b) = a == b
option_eq _ _ = false

-- `isinstance(source, str) and source`
abbrev pub is_named : Source → Bool
is_named (Source.other name) = not (str_eq name "")
is_named _ = true

abbrev pub require_integer : Option ℕ → ℕ → ℕ → Result (Unit {0})
require_integer none minimum maximum = Result.err (value_error "value must be an integer")
require_integer (some value) minimum maximum =
    require (in_range minimum maximum value) (value_error "value is out of range")

-- The test of the runtime against the configured maximum, where one is given.
abbrev pub check_maximum : ℕ → Option ℕ → Result (Unit {0})
check_maximum runtime_minutes none = Result.ok tt
check_maximum runtime_minutes (some maximum) = do
  require (leb 1 maximum) (value_error "maximum_runtime_minutes must be at least 1")
  require (leb runtime_minutes maximum) (value_error "runtime_minutes exceeds configured maximum")

-- The test of the parameters that belong to the mode.
abbrev pub check_parameters : ControlMode → Option ℕ → Option ℕ → Result (Unit {0})
check_parameters power target_temperature power_level = do
  require_integer power_level 1 9
  require (is_none target_temperature) (value_error "target_temperature is not valid in power mode")
check_parameters mode target_temperature power_level = do
  require_integer target_temperature 5 30
  require (is_none power_level) (value_error "power_level is not valid in temperature mode")

abbrev pub is_supported : ControlMode → Bool
is_supported (ControlMode.other name) = false
is_supported _ = true

unfoldable pub validate_start_request :
    ControlMode → Option ℕ → Option ℕ → ℕ → Source → Option ℕ → Result (Unit {0})
validate_start_request mode target_temperature power_level runtime_minutes source maximum = do
  require (is_supported mode) (value_error "unsupported control mode")
  require (leb 1 runtime_minutes) (value_error "runtime_minutes must be at least 1")
  check_maximum runtime_minutes maximum
  require (is_named source) (value_error "source must be a non-empty string")
  check_parameters mode target_temperature power_level

pub record Requested : Type 0 where
  pub on : Bool
  pub mode : ControlMode
  pub target_temperature : Option ℕ
  pub power_level : Option ℕ
  pub runtime_minutes : ℕ
  pub source : Source

abbrev pub new_requested : Requested
new_requested = record {
  on = false;
  mode = roof_tent_temperature;
  target_temperature = some 20;
  power_level = none;
  runtime_minutes = 60;
  source = Source.manual;
}

-- `RequestedHeaterState.request_start`: nothing is written before the request is valid.
unfoldable pub request_on : Requested → Requested → Option ℕ → Result Requested
request_on r wanted maximum = do
  validate_start_request wanted.mode wanted.target_temperature wanted.power_level
      wanted.runtime_minutes wanted.source maximum
  Result.ok (record wanted { on = true })

-- `RequestedHeaterState.request_stop`
abbrev pub request_off : Requested → Requested
request_off r = record r { on = false }

-- `RequestedHeaterState.update_active_session`
unfoldable pub update_requested : Requested → Option ℕ → ℕ → Option ℕ → Result Requested
update_requested r target_temperature runtime_minutes maximum = do
  require r.on (runtime_error "Requested State is not active")
  validate_start_request r.mode target_temperature r.power_level runtime_minutes r.source maximum
  Result.ok
      (record r { target_temperature = target_temperature; runtime_minutes = runtime_minutes })

pub record Actual : Type 0 where
  pub communication : Communication
  pub initialized : Bool
  pub synchronized : Bool
  pub heater_state : HeaterState
  pub heater_state_raw : Option ℕ
  pub voltage : Option ℕ
  pub glow_plug_raw : Option ℕ
  pub fan_raw : Option ℕ
  pub last_status_ms : Option ℕ

abbrev pub new_actual : Actual
new_actual = record {
  communication = Communication.unknown;
  initialized = false;
  synchronized = false;
  heater_state = HeaterState.unknown;
  heater_state_raw = none;
  voltage = none;
  glow_plug_raw = none;
  fan_raw = none;
  last_status_ms = none;
}

unfoldable pub mark_initialized : Actual → Actual
mark_initialized a = record a {
  communication = Communication.ok;
  initialized = true;
  synchronized = false;
  heater_state = HeaterState.unknown;
  heater_state_raw = none;
}

abbrev pub is_unknown : HeaterState → Bool
is_unknown HeaterState.unknown = true
is_unknown _ = false

unfoldable pub update_from_status : Actual → StatusFields → ℕ → Actual
unfolding heater_state_by_raw
update_from_status a status now_ms = record a {
  communication = Communication.ok;
  heater_state_raw = status.heater_state;
  heater_state = heater_state_by_raw status.heater_state;
  voltage = status.voltage;
  glow_plug_raw = status.glow_plug_raw;
  fan_raw = status.fan_raw;
  last_status_ms = some now_ms;
  synchronized = a.initialized && not (is_unknown (heater_state_by_raw status.heater_state));
}

unfoldable pub mark_communication_error : Actual → Actual
mark_communication_error a = record a {
  communication = Communication.error;
  initialized = false;
  synchronized = false;
  heater_state = HeaterState.unknown;
  heater_state_raw = none;
}

pub record Session : Type 0 where
  pub session_id : ℕ
  pub source : Source
  pub mode : ControlMode
  pub target : Option ℕ
  pub started_at_ms : ℕ
  pub expires_at_ms : ℕ
  pub runtime_minutes : ℕ
  pub confirmed_active : Bool
  pub expired : Bool
