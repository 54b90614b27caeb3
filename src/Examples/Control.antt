-- ===== src/Examples/Control.antt =====
-- The controller at concrete times, with a port that takes every call.
use landy_heater.Prelude.{
  ℕ, ◌≡◌, ◌≤◌, refl, ◌∷◌, [], Bool, true, false, Option, none, some, ok, err, Error, is_some, ◌+◌,
}
use landy_heater.Prelude.Int.{pos, sub_ℕ, leb_ℤ}
use landy_heater.Autoterm.{power, cabin_temperature, Frame}
use landy_heater.AppState.{
  Source, Requested, Session, HeaterState, Actual, Communication, validate_start_request, is_named,
}
use landy_heater.AppState.Laws.{Parameters, start_request_valid}
use landy_heater.Heater.Types.{
  Config, Port, Controller, Sensor, Sensors, Role, Health, Phase, Operation, Attempt, StartPlan,
  Command, new,
}
use landy_heater.Heater.Base.{mark_error, role_eq}
use landy_heater.Heater.Sensors.{canonical_sensor_snapshot, is_usable_health, health_of_reading}
use landy_heater.Heater.Requests.{
  request_start, Deadline, update_active_session, retry_control_fault,
}
use landy_heater.Heater.Base.{request_stop}
use landy_heater.Heater.Confirm.{handle_frame}
use landy_heater.Heater.Silent.{silent_operations}
use landy_heater.Heater.Sessions.{check_session_expiry}
use landy_heater.Heater.Attempts.{send_start}
use landy_heater.Heater.Control.{may_control, step, before_control}
use landy_heater.Heater.Cycle.{IsAllowed, step_calls}
use landy_heater.Heater.Expiry.{expired_session_stops}
use landy_heater.Heater.Sent.{command_of_operation}
use landy_heater.Heater.Policy.{may_regulate, Stopped, Continued, failed_sensor_stops}
use landy_heater.Heater.Safety.{
  mark_error_closes, request_start_atomic, usable_sensor_is_measured, start_supervised,
}
use landy_heater.Heater.Base.{call_protocol, emit_event, schedule_control}
use landy_heater.Heater.Sensors.{apply_sensor_policy, active_sensor_role, read_active_sensor}
use landy_heater.Heater.Link.{check_response_timeout}
use landy_heater.Heater.Confirm.{complete_sensor_stop_if_off}
use landy_heater.Heater.Sessions.{check_requested_start_deadline, ensure_active_session}
use landy_heater.Heater.Attempts.{check_control_confirmation, send_control, send_shutdown}
use landy_heater.Heater.Control.{control_cycle, control_status_is_fresh, evaluate_control, decide}
use mathlib.Core.Logic.{◌⊎◌, ◌↔◌}

abbrev pub config : Config
config = record {
  heartbeat_ms = 1000;
  response_timeout_ms = 2000;
  control_settle_ms = 100;
  control_confirmation_timeout_ms = 5000;
  max_control_attempts = 3;
  maximum_runtime_minutes = 240;
  event_capacity = 4;
  starting_stop_policy_timeout_ms = 60000;
  invalid_frame_threshold = 3;
  sensor_stale_after_ms = 10000;
  sensor_failed_after_ms = 30000;
  sensor_minimum_temperature_c = pos 0;
  sensor_maximum_temperature_c = pos 2000;
}

abbrev pub port : Port
port = record {
  ticks_diff = λ a b. sub_ℕ a b;
  ticks_add = λ a b. a + b;
  accepts = λ sent op. true;
  validate_inbound_frame = λ f. ok (some f);
}

abbrev running : Actual
running = record {
  communication = Communication.ok;
  initialized = true;
  synchronized = true;
  heater_state = HeaterState.running;
  heater_state_raw = some 4;
  voltage = none;
  glow_plug_raw = none;
  fan_raw = none;
  last_status_ms = some 900;
}

abbrev wanted : Requested
wanted = record {
  on = true;
  mode = power;
  target_temperature = none;
  power_level = some 4;
  runtime_minutes = 30;
  source = Source.manual;
}

abbrev session : Session
session = record {
  session_id = 1;
  source = Source.manual;
  mode = power;
  target = some 4;
  started_at_ms = 0;
  expires_at_ms = 800;
  runtime_minutes = 30;
  confirmed_active = true;
  expired = false;
}

-- A heater that runs for a session.
abbrev supervised : Controller
supervised = record new {
  actual = running;
  phase = Phase.ready;
  requested = wanted;
  session = some session;
  pending_control_due_ms = some 950;
  next_request_due_ms = some 1900;
}

start_request_valid_example :
    (validate_start_request power none (some 4) 30 Source.timer (some 240) ≡ ok tt)
    ↔ (Parameters power none (some 4) × (1 ≤ 30) × (30 ≤ 240) × (is_named Source.timer ≡ true))
start_request_valid_example = start_request_valid power none (some 4) 30 240 Source.timer

silent_operations_example :
    ((f : Frame) (t : ℕ) → (handle_frame config port f t supervised).0.sent ≡ supervised.sent)
    × ((w : Requested) (d : Deadline)
        → (request_start config port w d supervised).1.sent ≡ supervised.sent)
    × ((r : ℕ) (target : Option ℕ) (extend t : ℕ)
        → (update_active_session config port r target extend t supervised).1.sent ≡ supervised.sent)
    × ((t : ℕ) → (retry_control_fault config port t supervised).1.sent ≡ supervised.sent)
    × ((request_stop supervised).0.sent ≡ supervised.sent)
silent_operations_example = silent_operations config port supervised

step_calls_example :
    ((step config port none 1000 supervised).1.sent ≡ [])
    ⊎ ((op : Operation) × ((step config port none 1000 supervised).1.sent ≡ op ∷ [])
        × IsAllowed config port 1000 (before_control config port none 1000 supervised) op)
unfolding new
step_calls_example = step_calls config port none 1000 supervised

mark_error_closes_example :
    (may_control config port (mark_error config (some 1000) none supervised) ≡ false)
    × ((mark_error config (some 1000) none supervised).actual.initialized ≡ false)
    × ((mark_error config (some 1000) none supervised).actual.synchronized ≡ false)
    × ((mark_error config (some 1000) none supervised).actual.heater_state ≡ HeaterState.unknown)
    × ((mark_error config (some 1000) none supervised).expected_command ≡ none)
    × ((mark_error config (some 1000) none supervised).pending_control_due_ms ≡ none)
    × ((mark_error config (some 1000) none supervised).requested ≡ wanted)
    × ((mark_error config (some 1000) none supervised).sent ≡ [])
unfolding new
mark_error_closes_example = mark_error_closes config port (some 1000) none supervised

expired_session_stops_example :
    ((before_control config port none 1000 supervised).requested.on ≡ false)
    × (((step config port none 1000 supervised).1.sent ≡ [])
        ⊎ ((op : Operation) × ((step config port none 1000 supervised).1.sent ≡ op ∷ [])
            × (¬ (command_of_operation op ≡ some Command.start))))
unfolding new
expired_session_stops_example =
    expired_session_stops config port none 1000 supervised session refl refl refl

request_start_atomic_example :
    ((e : Error)
      → (request_start config port wanted none new).0 ≡ err e
      → (request_start config port wanted none new).1 ≡ new)
    × ((b : Bool)
        → (request_start config port wanted none new).0 ≡ ok b
        → ((request_start config port wanted none new).1.requested.on ≡ true)
          × ((request_start config port wanted none new).1.sent ≡ new.sent)
          × (new.sensor_stop_latch ≡ none)
          × (new.control_attempt ≡ none)
          × (new.restart_blocked ≡ false))
request_start_atomic_example = request_start_atomic config port wanted none new

abbrev sensor : Sensor
sensor = record {
  role = Role.cabin;
  rom_id = some "28-1";
  value_c = some (pos 320);
  last_valid_ms = some 600;
  age_ms = some (pos 400);
  unavailable_since_ms = none;
  unavailable_age_ms = none;
  health = Health.ok;
  usable = true;
  present = some true;
  invalid_readings = 0;
  failure_generation = 0;
  assignment_revision = 0;
  last_error = none;
}

sensor_accepted : canonical_sensor_snapshot config port sensor Role.cabin 1000 ≡ ok sensor
unfolding canonical_sensor_snapshot health_of_reading
sensor_accepted = refl

usable_sensor_is_measured_example :
    (sensor ≡ sensor)
    × (role_eq Role.cabin Role.cabin ≡ true)
    × (is_usable_health Health.ok ≡ true
        → (l : ℕ) × (some 600 ≡ some l)
          × (is_some (some (pos 320)) ≡ true)
          × (is_some sensor.rom_id ≡ true)
          × (leb_ℤ (pos 0) (sub_ℕ 1000 l) ≡ true)
          × (leb_ℤ (pos 30000) (sub_ℕ 1000 l) ≡ false))
usable_sensor_is_measured_example =
    usable_sensor_is_measured config port sensor sensor Role.cabin 1000 sensor_accepted

-- A session that regulates by the cabin sensor, which then has no valid reading any more.
abbrev warm_session : Session
warm_session = record session { mode = cabin_temperature; target = some 20 }

abbrev regulated : Controller
regulated = record supervised {
  session = some warm_session;
  session_sensor_rom_id = some "28-1";
  session_sensor_failure_generation = some 0;
  session_sensor_assignment_revision = some 0;
}

abbrev failed_sensors : Sensors
failed_sensors = some (λ role t.
    ok (record sensor { age_ms = some (pos 39400); health = Health.failed; usable = false }))

cabin_active : active_sensor_role regulated ≡ some Role.cabin
unfolding active_sensor_role
cabin_active = refl

cabin_failed :
    may_regulate regulated warm_session
      (read_active_sensor config port failed_sensors Role.cabin 40000)
    ≡ false
unfolding read_active_sensor canonical_sensor_snapshot health_of_reading
cabin_failed = refl

failed_sensor_stops_example :
    (may_regulate regulated warm_session
          (read_active_sensor config port failed_sensors Role.cabin 40000)
        ≡ false
      → Stopped config port 40000 warm_session regulated
          (apply_sensor_policy config port failed_sensors 40000 regulated))
    × (may_regulate regulated warm_session
            (read_active_sensor config port failed_sensors Role.cabin 40000)
          ≡ true
        → Continued config port 40000 warm_session regulated
            (apply_sensor_policy config port failed_sensors 40000 regulated))
failed_sensor_stops_example =
    failed_sensor_stops config port 40000 failed_sensors regulated warm_session Role.cabin refl
      cabin_active

abbrev plan : StartPlan
plan = record {
  mode = power;
  target_temperature = none;
  power_level = some 4;
  session_spec = record {
    source = Source.manual;
    mode = power;
    target = some 4;
    runtime_minutes = 30;
  };
}

abbrev attempt : Attempt
attempt = record {
  command = Command.start;
  attempts = 1;
  last_sent_ms = 1000;
  status_after_send = false;
  send_failed = false;
  retry_ready = false;
  request_revision = 1;
  plan = some plan;
}

start_supervised_example :
    (((send_start config port attempt plan 1000 new).1.sent ≡ new.sent)
      × ((send_start config port attempt plan 1000 new).1.control_attempt ≡ none))
    ⊎ (((send_start config port attempt plan 1000 new).1.sent
          ≡ Operation.request_start power none (some 4) ∷ new.sent)
        × (is_some (send_start config port attempt plan 1000 new).1.session ≡ true)
        × ((send_start config port attempt plan 1000 new).1.start_sent_revision ≡ some 1))
start_supervised_example = start_supervised config port attempt plan 1000 new

-- The expired session makes the cycle send SHUTDOWN.
step_stops : (step config port none 1000 supervised).1.sent ≡ Operation.request_shutdown ∷ []
unfolding new step before_control check_requested_start_deadline check_response_timeout
    check_session_expiry apply_sensor_policy active_sensor_role ensure_active_session
    check_control_confirmation complete_sensor_stop_if_off control_cycle control_status_is_fresh
    evaluate_control decide send_control send_shutdown call_protocol emit_event schedule_control
step_stops = refl
