-- ===== src/Heater/Sessions.antt =====
-- app/heater_controller.py: sessions and the deadlines of requests.
use text.Mathlib.Text.{◌==◌ as str_eq}
use landy_heater.Prelude.{
  ℕ, ◌+◌, ◌*◌, Bool, true, false, not, ◌&&◌, ◌||◌, Option, none, some, if◌then◌else◌, is_some,
  String, Result, ok, err, Error, runtime_error,
}
use landy_heater.Prelude.Int.{pos, leb_ℤ}
use landy_heater.Prelude.Exec.{Exec}
use landy_heater.AppState.{Requested, Session}
use landy_heater.Heater.Types.{
  Role, Health, Severity, Action, Sensor, SessionSpec, EventKind, Config, Port, Controller, message,
  not_supervised,
}
use landy_heater.Heater.Base.{
  is_off, is_active, role_eq, health_eq, withdraw_request, request_stop, emit_event,
  schedule_control, due, set_sensor_alert,
}
use landy_heater.Heater.Requests.{target_of}
use landy_heater.Heater.Sensors.{role_by_mode, is_usable_health, is_present}

abbrev pub spec_of : Requested → SessionSpec
spec_of r = record {
  source = r.source;
  mode = r.mode;
  target = target_of r;
  runtime_minutes = r.runtime_minutes;
}

-- `isinstance(rom_id, str) and rom_id`
abbrev pub has_rom : Option String → Bool
has_rom none = false
has_rom (some s) = not (str_eq s "")

-- A sensor that a temperature session may be bound to.
abbrev pub is_bindable : Option Sensor → Role → Bool
is_bindable none role = false
is_bindable (some s) role = role_eq s.role role && has_rom s.rom_id && is_usable_health s.health

abbrev pub is_fresh_present : Option Sensor → Bool
is_fresh_present none = false
is_fresh_present (some s) = health_eq s.health Health.ok && is_present s.present

-- The sensor check of `_start_session`; power sessions need no sensor.
unfoldable pub check_session_sensor : Option Role → Controller → Result (Unit {0})
check_session_sensor none c = ok tt
check_session_sensor (some role) c =
    if not (is_bindable c.active_sensor role)
    then err (runtime_error "temperature session lacks a usable bound sensor")
    else if is_off c.actual.heater_state && not (is_fresh_present c.active_sensor)
    then err (runtime_error "new temperature session requires a fresh present sensor")
    else ok tt

-- The sensor that the new session is bound to.
abbrev pub bound_sensor : Option Role → Controller → Option Sensor
bound_sensor none c = none
bound_sensor (some role) c = c.active_sensor

abbrev pub minute_ms : ℕ
minute_ms = 60 * 1000

module _ (config : Config) (port : Port) where
  -- The session object and what goes with it.
  unfoldable pub install_session : SessionSpec → ℕ → Controller → Controller
  unfolding emit_event
  install_session spec now_ms c =
      let bound = bound_sensor (role_by_mode spec.mode) c in
      let session : Session = record {
        session_id = c.next_session_id;
        source = spec.source;
        mode = spec.mode;
        target = spec.target;
        started_at_ms = now_ms;
        expires_at_ms = port.ticks_add now_ms (spec.runtime_minutes * minute_ms);
        runtime_minutes = spec.runtime_minutes;
        confirmed_active = false;
        expired = false;
      } in
      emit_event config (EventKind.session_started c.next_session_id) (some now_ms) (record c {
        session = some session;
        session_sensor_rom_id = elim bound [ none ↦ none | some s ↦ s.rom_id ];
        session_sensor_failure_generation = elim bound [
          | none ↦ none
          | some s ↦ some s.failure_generation
        ];
        session_sensor_assignment_revision = elim bound [
          | none ↦ none
          | some s ↦ some s.assignment_revision
        ];
        request_not_after_ms = none;
        request_requested_at_ms = none;
        next_session_id = c.next_session_id + 1;
      })

  abbrev pub installed : Result (Unit {0}) → SessionSpec → ℕ → Exec Controller (Unit {0})
  installed (err e) spec now_ms c = (err e, c)
  installed (ok _) spec now_ms c = (ok tt, install_session spec now_ms c)

  unfoldable pub start_session : SessionSpec → ℕ → Exec Controller (Unit {0})
  unfolding install_session check_session_sensor
  start_session spec now_ms c =
      if is_some c.session
      then (ok tt, c)
      else installed (check_session_sensor (role_by_mode spec.mode) c) spec now_ms c

  abbrev supervision_failed : Error → ℕ → Controller → Controller
  supervision_failed e now_ms c =
      let (c1, changed) = request_stop c in
      let c2 =
        schedule_control config port now_ms true (record c1 { pending_control_due_ms = none }) in
      let reason = not_supervised (message "active session could not be supervised") in
      let c3 : Controller = elim (role_by_mode c.requested.mode) [
        | some role ↦
            set_sensor_alert role Health.missing Severity.error Action.session_blocked reason now_ms
              c2
        | none ↦ record c2 { last_error = some reason }
      ] in
      emit_event config (EventKind.session_supervision_failed reason changed) (some now_ms) c3

  abbrev pub supervised : Result (Unit {0}) × Controller → ℕ → Controller
  supervised (ok _, c) now_ms = elim c.session [
    | some s ↦ record c { session = some (record s { confirmed_active = true }) }
    | none ↦ c
  ]
  supervised (err e, c) now_ms = supervision_failed e now_ms c

  -- A heater that runs on request without a session is given one, or told to stop.
  unfoldable pub ensure_active_session : ℕ → Controller → Controller
  unfolding start_session request_stop schedule_control set_sensor_alert emit_event
  ensure_active_session now_ms c =
      if is_some c.session || not c.requested.on || not (is_active c.actual.heater_state)
      then c
      else supervised (start_session (spec_of c.requested) now_ms c) now_ms

  unfoldable pub check_session_expiry : ℕ → Controller → Controller
  unfolding emit_event schedule_control
  check_session_expiry now_ms c = elim c.session [
    | none ↦ c
    | some s ↦
        if s.expired || not (due config port now_ms (some s.expires_at_ms))
        then c
        else (let c1 = record (if c.requested.on then withdraw_request c else c) {
          session = some (record s { expired = true });
        } in
            let c2 = emit_event config (EventKind.session_expired s.session_id) (some now_ms) c1 in
            schedule_control config port now_ms true (record c2 { pending_control_due_ms = none }))
  ]

  unfoldable pub check_requested_start_deadline : ℕ → Controller → Controller
  unfolding emit_event
  check_requested_start_deadline now_ms c = elim c.request_not_after_ms [
    | none ↦ c
    | some deadline ↦
        if not c.requested.on
          || is_some c.session
          || leb_ℤ (port.ticks_diff now_ms deadline) (pos 0)
        then c
        else emit_event config (EventKind.requested_start_expired deadline) (some now_ms)
            (record (withdraw_request c) { pending_control_due_ms = none })
  ]
