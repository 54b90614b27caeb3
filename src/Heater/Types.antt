-- ===== src/Heater/Types.antt =====
-- app/heater_controller.py: the controller's configuration, its state and what it is injected with.
-- Messages are the constructors of `Reason`, an event's type and details those of `EventKind`.
use landy_heater.Prelude.{ℕ, Bool, false, Option, none, List, [], String, Result}
use landy_heater.Prelude.Int.{ℤ}
use landy_heater.Autoterm.{ControlMode, Frame}
use landy_heater.AppState.{
  HeaterState, Requested, new_requested, Actual, new_actual, Session, Source,
}

pub data Phase : Type 0 where
  unsynchronized wait_init wait_status ready error : Phase

-- The control command of an attempt or a fault.
pub data Command : Type 0 where
  start shutdown : Command

-- The calls of the protocol port.
pub data Operation : Type 0 where
  request_initialization request_status request_shutdown : Operation
  request_start : ControlMode → Option ℕ → Option ℕ → Operation

pub data Role : Type 0 where
  roof_tent cabin outside : Role

pub data Health : Type 0 where
  ok stale failed missing : Health

pub data Severity : Type 0 where
  warning error : Severity

pub data Action : Type 0 where
  continue_last_valid shutdown_latched start_blocked session_blocked : Action

pub data Reason : Type 0 where
  message : String → Reason
  call_failed : Operation → Reason
  not_confirmed : Command → ℕ → Reason
  not_supervised : Reason → Reason

-- A sensor's dictionary; a temperature is counted in sixteenths of a degree.
pub record Sensor : Type 0 where
  pub role : Role
  pub rom_id : Option String
  pub value_c : Option ℤ
  pub last_valid_ms : Option ℕ
  pub age_ms : Option ℤ
  pub unavailable_since_ms : Option ℕ
  pub unavailable_age_ms : Option ℤ
  pub health : Health
  pub usable : Bool
  pub present : Option Bool
  pub invalid_readings : ℕ
  pub failure_generation : ℕ
  pub assignment_revision : ℕ
  pub last_error : Option Reason

pub record Alert : Type 0 where
  pub role : Role
  pub health : Health
  pub severity : Severity
  pub action : Action
  pub reason : Reason
  pub at_ms : ℕ

pub record Latch : Type 0 where
  pub role : Role
  pub health : Health
  pub reason : Reason
  pub at_ms : ℕ
  pub session_id : ℕ

-- `session_spec` of an attempt
pub record SessionSpec : Type 0 where
  pub source : Source
  pub mode : ControlMode
  pub target : Option ℕ
  pub runtime_minutes : ℕ

-- The parameters and the session of a START attempt.
pub record StartPlan : Type 0 where
  pub mode : ControlMode
  pub target_temperature : Option ℕ
  pub power_level : Option ℕ
  pub session_spec : SessionSpec

pub record Attempt : Type 0 where
  pub command : Command
  pub attempts : ℕ
  pub last_sent_ms : ℕ
  pub status_after_send : Bool
  pub send_failed : Bool
  pub retry_ready : Bool
  pub request_revision : ℕ
  pub plan : Option StartPlan

pub record Fault : Type 0 where
  pub command : Command
  pub attempts : ℕ
  pub reason : Reason
  pub recover_on_running : Bool

pub data Outcome : Type 0 where
  confirmed resolved cancelled : Outcome

pub data EventKind : Type 0 where
  communication_error : Option Reason → EventKind
  communication_recovered : EventKind
  sensor_shutdown_requested : Role → Health → ℕ → Bool → EventKind
  sensor_start_blocked : Role → Health → Bool → EventKind
  sensor_shutdown_completed : Role → ℕ → EventKind
  session_started session_expired : ℕ → EventKind
  session_updated : ℕ → Option ℕ → ℕ → ℕ → EventKind
  session_supervision_failed : Reason → Bool → EventKind
  control_fault_retry_authorized : Command → ℕ → EventKind
  control_fault_cleared : Command → Reason → EventKind
  control_ended : Outcome → Command → ℕ → EventKind
  control_error : Fault → EventKind
  control_requested : Command → ℕ → EventKind
  unexpected_stop : HeaterState → EventKind
  restart_request_cancelled : EventKind
  requested_start_expired : ℕ → EventKind
  shutdown_deferred : EventKind

pub record Event : Type 0 where
  pub kind : EventKind
  pub at_ms : Option ℕ

-- The constructor's checked settings; the sensor bounds are in sixteenths of a degree.
pub record Config : Type 0 where
  pub heartbeat_ms : ℕ
  pub response_timeout_ms : ℕ
  pub control_settle_ms : ℕ
  pub control_confirmation_timeout_ms : ℕ
  pub max_control_attempts : ℕ
  pub maximum_runtime_minutes : ℕ
  pub event_capacity : ℕ
  pub starting_stop_policy_timeout_ms : ℕ
  pub invalid_frame_threshold : ℕ
  pub sensor_stale_after_ms : ℕ
  pub sensor_failed_after_ms : ℕ
  pub sensor_minimum_temperature_c : ℤ
  pub sensor_maximum_temperature_c : ℤ

-- What the controller is injected with. `accepts sent op` says whether the protocol port takes `op`
-- after the calls `sent` (the newest first): neither an exception nor `False`.
pub record Port : Type 0 where
  pub ticks_diff : ℕ → ℕ → ℤ
  pub ticks_add : ℕ → ℕ → ℕ
  pub accepts : List Operation → Operation → Bool
  pub validate_inbound_frame : Frame → Result (Option Frame)

-- The temperature manager's answers at one time; `none` if no manager is attached.
abbrev pub Sensors : Type 0
Sensors = Option (Role → ℕ → Result Sensor)

-- `sent` records the calls of the protocol port, the newest first.
pub record Controller : Type 0 where
  pub requested : Requested
  pub actual : Actual
  pub phase : Phase
  pub next_request_due_ms : Option ℕ
  pub pending_control_due_ms : Option ℕ
  pub expected_command : Option ℕ
  pub response_wait_started_ms : Option ℕ
  pub control_attempt : Option Attempt
  pub control_fault : Option Fault
  pub restart_blocked : Bool
  pub communication_fault_active : Bool
  pub request_revision : ℕ
  pub request_not_after_ms : Option ℕ
  pub request_requested_at_ms : Option ℕ
  pub start_sent_revision : Option ℕ
  pub shutdown_sent_revision : Option ℕ
  pub starting_stop_since_ms : Option ℕ
  pub active_sensor : Option Sensor
  pub sensor_alert : Option Alert
  pub sensor_stop_latch : Option Latch
  pub session : Option Session
  pub session_sensor_rom_id : Option String
  pub session_sensor_failure_generation : Option ℕ
  pub session_sensor_assignment_revision : Option ℕ
  pub next_session_id : ℕ
  pub events : List Event
  pub events_dropped : ℕ
  pub invalid_frames : ℕ
  pub invalid_frame_strikes : ℕ
  pub consecutive_valid_statuses : ℕ
  pub ignored_frames : ℕ
  pub communication_failures : ℕ
  pub control_failures : ℕ
  pub last_error : Option Reason
  pub sent : List Operation

-- The state that `__init__` leaves.
unfoldable pub new : Controller
new = record {
  requested = new_requested;
  actual = new_actual;
  phase = Phase.unsynchronized;
  next_request_due_ms = none;
  pending_control_due_ms = none;
  expected_command = none;
  response_wait_started_ms = none;
  control_attempt = none;
  control_fault = none;
  restart_blocked = false;
  communication_fault_active = false;
  request_revision = 0;
  request_not_after_ms = none;
  request_requested_at_ms = none;
  start_sent_revision = none;
  shutdown_sent_revision = none;
  starting_stop_since_ms = none;
  active_sensor = none;
  sensor_alert = none;
  sensor_stop_latch = none;
  session = none;
  session_sensor_rom_id = none;
  session_sensor_failure_generation = none;
  session_sensor_assignment_revision = none;
  next_session_id = 1;
  events = [];
  events_dropped = 0;
  invalid_frames = 0;
  invalid_frame_strikes = 0;
  consecutive_valid_statuses = 0;
  ignored_frames = 0;
  communication_failures = 0;
  control_failures = 0;
  last_error = none;
  sent = [];
}
