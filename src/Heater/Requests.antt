-- ===== src/Heater/Requests.antt =====
-- app/heater_controller.py: the requests of the application. They change the requested state and
-- the session, and never call the protocol port.
use landy_heater.Prelude.{
  ℕ, ◌+◌, ◌*◌, Bool, true, false, not, ◌&&◌, ◌||◌, Option, none, some, leb, ◌==◌, in_range,
  if◌then◌else◌, is_some, is_none, value_error, runtime_error,
}
use landy_heater.Prelude.Int.{pos, leb_ℤ, ltb_ℤ}
use landy_heater.Prelude.Exec.{Exec, pure, raise, lift, gets, modify, check, ◌>>=◌, ◌>>◌}
use landy_heater.AppState.{
  Requested, Session, Source, is_power, mode_eq, source_eq, option_eq, validate_start_request,
  request_on, update_requested,
}
use landy_heater.Heater.Types.{Phase, Command, EventKind, Config, Port, Controller}
use landy_heater.Heater.Base.{is_comm_ok, restore_noncommunication_error, emit_event}

-- `power_level if mode == CONTROL_MODE_POWER else target_temperature`
abbrev pub target_of : Requested → Option ℕ
target_of r = if is_power r.mode then r.power_level else r.target_temperature

-- The test for a repetition of the pending request.
abbrev pub is_repeated : Requested → Requested → Bool
is_repeated current wanted =
    current.on
    && mode_eq current.mode wanted.mode
    && option_eq (target_of current) (target_of wanted)
    && (current.runtime_minutes == wanted.runtime_minutes)
    && source_eq current.source wanted.source

abbrev pub may_have_deadline : Source → Bool
may_have_deadline (Source.other name) = false
may_have_deadline _ = true

-- Ticks that are given together: the deadline and the time of the request.
abbrev pub Deadline : Type 0
Deadline = Option (ℕ × ℕ)

abbrev pub not_after_of : Deadline → Option ℕ
not_after_of none = none
not_after_of (some (not_after_ms, now_ms)) = some not_after_ms

abbrev pub requested_at_of : Deadline → Option ℕ
requested_at_of none = none
requested_at_of (some (not_after_ms, now_ms)) = some now_ms

module _ (config : Config) (port : Port) where
  abbrev pub check_deadline : Deadline → Source → Exec Controller (Unit {0})
  check_deadline none source = pure tt
  check_deadline (some (not_after_ms, now_ms)) source = do
    check (may_have_deadline source) (value_error "request deadline source is not allowed")
    check (leb_ℤ (port.ticks_diff now_ms not_after_ms) (pos 0))
        (runtime_error "timer start request has expired")

  -- The end of `request_start`, for a request that is neither running nor pending.
  abbrev pub accept_start : Requested → Deadline → Exec Controller Bool
  accept_start wanted deadline = do
    current ← gets (λ c. c.requested)
    requested ← lift (request_on current wanted (some config.maximum_runtime_minutes))
    modify (λ c. record c {
      requested = requested;
      request_revision = if c.requested.on then c.request_revision else c.request_revision + 1;
      request_not_after_ms = not_after_of deadline;
      request_requested_at_ms = requested_at_of deadline;
    })
    modify (λ c.
        if is_power wanted.mode && is_none c.sensor_stop_latch
        then restore_noncommunication_error (record c { sensor_alert = none })
        else c)
    pure (not current.on)

  abbrev pub refuse_change : Bool → Exec Controller Bool
  refuse_change true =
      raise (runtime_error "active-session changes require the future session-update API")
  refuse_change false = raise (runtime_error "pending start request parameters cannot be changed")

  -- `request_start`; the wanted parameters are given as a request.
  unfoldable pub request_start : Requested → Deadline → Exec Controller Bool
  unfolding restore_noncommunication_error
  request_start wanted deadline = do
    lift (
        validate_start_request wanted.mode wanted.target_temperature wanted.power_level
          wanted.runtime_minutes wanted.source (some config.maximum_runtime_minutes))
    check_deadline deadline wanted.source
    c ← gets (λ c. c)
    check (is_none c.sensor_stop_latch)
        (runtime_error "cannot start while a sensor shutdown remains latched")
    check (is_none c.control_attempt && not c.restart_blocked)
        (runtime_error "cannot start while a control transition is unresolved")
    if is_some c.session || c.requested.on
        then (if is_repeated c.requested wanted
            then pure false
            else refuse_change (is_some c.session))
        else accept_start wanted deadline

  -- The conditions under which `update_active_session` may adjust.
  abbrev pub is_adjustable : Controller → Session → Bool
  is_adjustable c s =
      c.requested.on
      && not s.expired
      && s.confirmed_active
      && is_none c.control_attempt
      && is_none c.control_fault
      && not c.restart_blocked

  abbrev pub set_session : Session → Option ℕ → ℕ → ℕ → Session
  set_session s target runtime_minutes expires_at_ms = record s {
    target = target;
    runtime_minutes = runtime_minutes;
    expires_at_ms = expires_at_ms;
  }

  -- `next_target` of an update
  abbrev pub next_target_of : Requested → Option ℕ → Option ℕ
  next_target_of r none = r.target_temperature
  next_target_of r (some t) = some t

  abbrev pub next_expiry_of : Session → ℕ → ℕ
  next_expiry_of s extend_minutes =
      if extend_minutes == 0
      then s.expires_at_ms
      else port.ticks_add s.expires_at_ms (extend_minutes * 60 * 1000)

  -- The session as it is after the update, with the controller's other changes.
  abbrev pub apply_update : Session → Option ℕ → ℕ → ℕ → Exec Controller Bool
  apply_update s next_target extend_minutes now_ms = do
    c ← gets (λ c. c)
    let runtime = s.runtime_minutes + extend_minutes
    requested ←
        lift
          (update_requested c.requested next_target runtime (some config.maximum_runtime_minutes))
    modify (λ c.
        emit_event config
          (EventKind.session_updated s.session_id next_target runtime (c.request_revision + 1))
          (some now_ms)
          (record c {
            requested = requested;
            session =
                some
                  (set_session s (target_of requested) runtime (next_expiry_of s extend_minutes));
            request_revision = c.request_revision + 1;
          }))
    pure true

  -- The body of `update_active_session` for an existing session.
  abbrev pub update_session : Session → Option ℕ → ℕ → ℕ → Exec Controller Bool
  update_session s target_temperature extend_minutes now_ms = do
    c ← gets (λ c. c)
    check (is_adjustable c s) (runtime_error "active session is not safely adjustable")
    check (mode_eq s.mode c.requested.mode && (s.runtime_minutes == c.requested.runtime_minutes))
        (runtime_error "active session truth differs")
    check (ltb_ℤ (pos 0) (port.ticks_diff s.expires_at_ms now_ms))
        (runtime_error "active session already expired")
    check (not (is_power c.requested.mode && is_some target_temperature))
        (value_error "power sessions have no temperature target")
    check (option_eq s.target (target_of c.requested))
        (runtime_error "active session truth differs")
    check (leb (s.runtime_minutes + extend_minutes) config.maximum_runtime_minutes)
        (value_error "extended runtime exceeds configured maximum")
    let next_target = next_target_of c.requested target_temperature
    if option_eq next_target c.requested.target_temperature && (extend_minutes == 0)
        then pure false
        else apply_update s next_target extend_minutes now_ms

  abbrev pub update_from : Option Session → Option ℕ → ℕ → ℕ → Exec Controller Bool
  update_from none target_temperature extend_minutes now_ms =
      raise (runtime_error "active session is not safely adjustable")
  update_from (some s) target_temperature extend_minutes now_ms =
      update_session s target_temperature extend_minutes now_ms

  abbrev pub none_or_target : Option ℕ → Bool
  none_or_target none = true
  none_or_target (some t) = in_range 5 30 t

  unfoldable pub update_active_session : ℕ → Option ℕ → ℕ → ℕ → Exec Controller Bool
  unfolding update_requested emit_event
  update_active_session expected_request_revision target_temperature extend_minutes now_ms = do
    check ((extend_minutes == 0) || (extend_minutes == 15))
        (value_error "extend_minutes must be 0 or 15")
    check (none_or_target target_temperature) (value_error "target_temperature must be 5 to 30")
    check (not (is_none target_temperature && (extend_minutes == 0)))
        (value_error "session update is empty")
    c ← gets (λ c. c)
    check (c.request_revision == expected_request_revision)
        (runtime_error "Requested State revision changed")
    update_from c.session target_temperature extend_minutes now_ms

  abbrev pub retry_command : Command → ℕ → Exec Controller Bool
  retry_command command now_ms = do
    c ← gets (λ c. c)
    check (is_comm_ok c.actual.communication && c.actual.initialized && c.actual.synchronized)
        (runtime_error "control fault cannot be retried without synchronized status")
    modify (λ c.
        let d = restore_noncommunication_error (record c {
          request_revision = c.request_revision + 1;
          control_fault = none;
          control_attempt = none;
        }) in
        emit_event config (EventKind.control_fault_retry_authorized command d.request_revision)
          (some now_ms)
          (record d {
            pending_control_due_ms = none;
            phase = Phase.wait_status;
            next_request_due_ms =
                if is_none d.expected_command then some now_ms else d.next_request_due_ms;
          }))
    pure true

  unfoldable pub retry_control_fault : ℕ → Exec Controller Bool
  unfolding emit_event restore_noncommunication_error
  retry_control_fault now_ms c = elim c.control_fault [
    | none ↦ pure false c
    | some f ↦ retry_command f.command now_ms c
  ]
