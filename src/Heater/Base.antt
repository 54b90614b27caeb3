-- ===== src/Heater/Base.antt =====
-- app/heater_controller.py: the helpers that several handlers share. A method that returns nothing
-- is a function of the state. Exceptions of memory allocation are not modelled, so `event_errors`
-- would stay 0.
use text.Mathlib.Text.{◌==◌ as str_eq}
use landy_heater.Prelude.{
  ℕ, ◌+◌, Bool, true, false, ◌&&◌, Option, none, some, [], ◌∷◌, ◌++◌, leb, if◌then◌else◌, length,
  drop,
}
use landy_heater.Prelude.Int.{pos, leb_ℤ}
use landy_heater.AppState.{Communication, HeaterState, mark_communication_error, request_off}
use landy_heater.Heater.Types.{
  Phase, Command, Operation, Role, Health, Severity, Action, Reason, Alert, Latch, Outcome,
  EventKind, Event, Config, Port, Controller, message, call_failed, not_supervised,
}

abbrev pub role_eq : Role → Role → Bool
role_eq Role.roof_tent Role.roof_tent = true
role_eq Role.cabin Role.cabin = true
role_eq Role.outside Role.outside = true
role_eq _ _ = false

abbrev pub health_eq : Health → Health → Bool
health_eq Health.ok Health.ok = true
health_eq Health.stale Health.stale = true
health_eq Health.failed Health.failed = true
health_eq Health.missing Health.missing = true
health_eq _ _ = false

abbrev pub severity_eq : Severity → Severity → Bool
severity_eq Severity.warning Severity.warning = true
severity_eq Severity.error Severity.error = true
severity_eq _ _ = false

abbrev pub action_eq : Action → Action → Bool
action_eq Action.continue_last_valid Action.continue_last_valid = true
action_eq Action.shutdown_latched Action.shutdown_latched = true
action_eq Action.start_blocked Action.start_blocked = true
action_eq Action.session_blocked Action.session_blocked = true
action_eq _ _ = false

abbrev pub is_start : Command → Bool
is_start Command.start = true
is_start Command.shutdown = false

-- The reasons of sensor alerts are texts or a text about a session.
abbrev pub reason_eq : Reason → Reason → Bool
reason_eq (message a) (message b) = str_eq a b
reason_eq (not_supervised a) (not_supervised b) = reason_eq a b
reason_eq _ _ = false

abbrev pub is_off : HeaterState → Bool
is_off HeaterState.off = true
is_off _ = false

abbrev pub is_running : HeaterState → Bool
is_running HeaterState.running = true
is_running _ = false

abbrev pub is_starting : HeaterState → Bool
is_starting HeaterState.starting = true
is_starting _ = false

-- STARTING, RUNNING or TEMP_MONITORING
abbrev pub is_active : HeaterState → Bool
is_active HeaterState.starting = true
is_active HeaterState.running = true
is_active HeaterState.temp_monitoring = true
is_active _ = false

-- SHUTTING_DOWN or OFF
abbrev pub is_stopping : HeaterState → Bool
is_stopping HeaterState.shutting_down = true
is_stopping HeaterState.off = true
is_stopping _ = false

abbrev pub is_comm_ok : Communication → Bool
is_comm_ok Communication.ok = true
is_comm_ok _ = false

abbrev pub is_comm_error : Communication → Bool
is_comm_error Communication.error = true
is_comm_error _ = false

abbrev pub is_ready : Phase → Bool
is_ready Phase.ready = true
is_ready _ = false

abbrev pub is_error_phase : Phase → Bool
is_error_phase Phase.error = true
is_error_phase _ = false

abbrev pub latch_reason : Latch → Reason
latch_reason l = l.reason

abbrev alert_reason : Option Alert → Option Reason
alert_reason none = none
alert_reason (some a) = if severity_eq a.severity Severity.error then some a.reason else none

abbrev pub sensor_error_reason : Controller → Option Reason
sensor_error_reason c = elim c.sensor_stop_latch [
  | some l ↦ some l.reason
  | none ↦ alert_reason c.sensor_alert
]

unfoldable pub restore_noncommunication_error : Controller → Controller
restore_noncommunication_error c = if is_comm_error c.actual.communication then c else record c {
  last_error = elim c.control_fault [ some f ↦ some f.reason | none ↦ sensor_error_reason c ];
}

abbrev same_alert : Option Alert → Role → Health → Severity → Action → Reason → Bool
same_alert none role health severity action reason = false
same_alert (some a) role health severity action reason =
    role_eq a.role role
    && health_eq a.health health
    && severity_eq a.severity severity
    && action_eq a.action action
    && reason_eq a.reason reason

unfoldable pub set_sensor_alert :
    Role → Health → Severity → Action → Reason → ℕ → Controller → Controller
unfolding restore_noncommunication_error
set_sensor_alert role health severity action reason now_ms c =
    let alert : Alert = record {
      role = role;
      health = health;
      severity = severity;
      action = action;
      reason = reason;
      at_ms = now_ms;
    } in
    if same_alert c.sensor_alert role health severity action reason
    then c
    else restore_noncommunication_error (record c { sensor_alert = some alert })

-- `self._requested.request_stop()` with its deadline dropped
abbrev pub drop_request : Controller → Controller
drop_request c = record c {
  requested = request_off c.requested;
  request_not_after_ms = none;
  request_requested_at_ms = none;
}

-- The same, and a new revision.
abbrev pub withdraw_request : Controller → Controller
withdraw_request c =
    let d = drop_request c in record d { request_revision = c.request_revision + 1 }

-- `request_stop`; the result says whether the request was on.
unfoldable pub request_stop : Controller → Controller × Bool
request_stop c = (if c.requested.on then withdraw_request c else drop_request c, c.requested.on)

unfoldable pub discard_session : Controller → Controller
discard_session c = record c {
  session = none;
  session_sensor_rom_id = none;
  session_sensor_failure_generation = none;
  session_sensor_assignment_revision = none;
}

module _ (config : Config) where
  -- The oldest event makes room.
  unfoldable pub emit_event : EventKind → Option ℕ → Controller → Controller
  emit_event kind now_ms c =
      let event : Event = record { kind = kind; at_ms = now_ms } in
      if leb config.event_capacity (length c.events)
      then record c {
        events = drop 1 c.events ++ event ∷ [];
        events_dropped = c.events_dropped + 1;
      }
      else record c { events = c.events ++ event ∷ [] }

  unfoldable pub mark_error : Option ℕ → Option Reason → Controller → Controller
  unfolding emit_event mark_communication_error
  mark_error now_ms reason c =
      let was_error = is_comm_error c.actual.communication in
      let d = record c {
        actual = mark_communication_error c.actual;
        communication_failures =
            if was_error then c.communication_failures else c.communication_failures + 1;
        communication_fault_active = true;
        phase = Phase.error;
        pending_control_due_ms = none;
        expected_command = none;
        response_wait_started_ms = none;
        next_request_due_ms = elim c.next_request_due_ms [ none ↦ now_ms | some t ↦ some t ];
        last_error = elim reason [ none ↦ c.last_error | some r ↦ some r ];
      } in
      if was_error then d else emit_event (EventKind.communication_error d.last_error) now_ms d

  unfoldable pub clear_control_attempt : ℕ → Outcome → Controller → Controller
  unfolding emit_event
  clear_control_attempt now_ms outcome c =
      let d : Controller = elim c.control_attempt [
        | some a ↦ emit_event (EventKind.control_ended outcome a.command a.attempts) (some now_ms) c
        | none ↦ c
      ] in
      record d { control_attempt = none }

  unfoldable pub clear_control_fault : ℕ → Reason → Controller → Controller
  unfolding emit_event restore_noncommunication_error
  clear_control_fault now_ms reason c = elim c.control_fault [
    | none ↦ c
    | some f ↦
        emit_event (EventKind.control_fault_cleared f.command reason) (some now_ms) (
          restore_noncommunication_error
            (record c { control_fault = none; control_attempt = none }))
  ]

  module _ (port : Port) where
    abbrev pub due : ℕ → Option ℕ → Bool
    due now_ms none = false
    due now_ms (some deadline) = leb_ℤ (pos 0) (port.ticks_diff now_ms deadline)

    unfoldable pub schedule_control : ℕ → Bool → Controller → Controller
    schedule_control now_ms immediate c =
        let delay = if immediate then 0 else config.control_settle_ms in
        elim c.pending_control_due_ms [
          | some t ↦ c
          | none ↦ record c { pending_control_due_ms = some (port.ticks_add now_ms delay) }
        ]

    -- One call of the protocol port; a refusal is a communication error.
    unfoldable pub call_protocol : Operation → ℕ → Controller → Controller × Bool
    unfolding mark_error
    call_protocol op now_ms c =
        let d = record c { sent = op ∷ c.sent } in
        if port.accepts c.sent op
        then (d, true)
        else (mark_error (some now_ms) (some (call_failed op)) d, false)
