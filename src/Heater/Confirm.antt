-- ===== src/Heater/Confirm.antt =====
-- app/heater_controller.py: what a status answer confirms, and the handler of inbound frames.
use landy_heater.Prelude.{
  Result, ok, err, ℕ, ◌+◌, Bool, true, false, not, ◌&&◌, ◌||◌, Option, none, some, leb, ◌==◌,
  if◌then◌else◌, is_some, is_none, ok, err,
}
use landy_heater.Prelude.Int.{pos, leb_ℤ}
use landy_heater.Autoterm.{Frame, StatusFields, cmd_init, cmd_status, device_heater}
use landy_heater.AppState.{HeaterState, update_from_status}
use landy_heater.Heater.Types.{
  Phase, Attempt, Outcome, EventKind, Config, Port, Controller, message,
}
use landy_heater.Heater.Base.{
  is_off, is_running, is_active, is_stopping, is_start, restore_noncommunication_error,
  withdraw_request, discard_session, emit_event, mark_error, clear_control_attempt,
  clear_control_fault, schedule_control,
}
use landy_heater.Heater.Sensors.{confirmed_session}
use landy_heater.Heater.Link.{
  init_rx_payload_length, known_frame_is_consistent, status_is_consistent,
  expected_response_is_timely, record_invalid_frame, accept_init,
}

-- `attempt is not None and attempt["command"] == …`
abbrev pub is_attempt_of : Bool → Option Attempt → Bool
is_attempt_of start none = false
is_attempt_of start (some a) = if start then is_start a.command else not (is_start a.command)

module _ (config : Config) where
  unfoldable pub complete_sensor_stop_if_off : ℕ → Controller → Controller
  unfolding emit_event restore_noncommunication_error
  complete_sensor_stop_if_off now_ms c =
      if not (is_off c.actual.heater_state) || c.requested.on || is_some c.session
      then c
      else elim c.sensor_stop_latch [
        | none ↦ c
        | some l ↦ restore_noncommunication_error (
            emit_event config (EventKind.sensor_shutdown_completed l.role l.session_id)
              (some now_ms) (record c { sensor_stop_latch = none; sensor_alert = none }))
      ]

  -- OFF in the middle of a requested run.
  unfoldable pub notice_unexpected_stop : ℕ → HeaterState → Bool → Controller → Controller
  unfolding emit_event discard_session
  notice_unexpected_stop now_ms previous_state recovering c =
      if is_off c.actual.heater_state
        && (is_active previous_state || (recovering && confirmed_session c.session))
        && c.requested.on
        && not c.restart_blocked
        && not (is_attempt_of false c.control_attempt)
      then emit_event config (EventKind.unexpected_stop previous_state) (some now_ms)
          (discard_session (withdraw_request c))
      else c

  -- OFF after a shutdown cancels a request that came meanwhile.
  unfoldable pub cancel_restart : ℕ → Controller → Controller
  unfolding emit_event
  cancel_restart now_ms c =
      if c.restart_blocked && c.requested.on
      then emit_event config EventKind.restart_request_cancelled (some now_ms) (withdraw_request c)
      else c

  -- A session that nobody asks for ends, unless a START is under way.
  unfoldable pub end_session : Controller → Controller
  unfolding discard_session
  end_session c =
      if not c.requested.on && not (is_attempt_of true c.control_attempt)
      then discard_session c
      else c

  unfoldable pub settle_off : ℕ → Controller → Controller
  unfolding cancel_restart end_session complete_sensor_stop_if_off
  settle_off now_ms c =
      if is_off c.actual.heater_state
      then complete_sensor_stop_if_off now_ms
          (end_session (record (cancel_restart now_ms c) { restart_blocked = false }))
      else c

  -- A status may clear a standing fault.
  unfoldable pub settle_fault : ℕ → Controller → Controller
  unfolding clear_control_fault discard_session
  settle_fault now_ms c =
      let state = c.actual.heater_state in
      elim c.control_fault [
        | none ↦ c
        | some f ↦
            if is_start f.command
            then (if is_active state
                then clear_control_fault config now_ms (message "late confirmation") c
                else if not c.requested.on && is_off state
                then discard_session
                    (clear_control_fault config now_ms (message "request cancelled") c)
                else c)
            else (if is_stopping state
                then clear_control_fault config now_ms (message "late confirmation") c
                else if f.recover_on_running && not c.requested.on && is_running state
                then clear_control_fault config now_ms (message "state became shutdown-capable") c
                else if c.requested.on && is_running state
                then clear_control_fault config now_ms (message "request cancelled") c
                else c)
      ]

  module _ (port : Port) where
    -- A status may confirm the attempt under way.
    unfoldable pub settle_attempt : ℕ → Controller → Controller
    unfolding clear_control_attempt
    settle_attempt now_ms c =
        let state = c.actual.heater_state in
        elim c.control_attempt [
          | none ↦ c
          | some a ↦
              let seen = leb_ℤ (pos 0) (port.ticks_diff now_ms a.last_sent_ms) in
              let d = record c {
                control_attempt =
                    some (record a { status_after_send = seen || a.status_after_send });
              } in
              if (if is_start a.command then is_active state else is_stopping state)
              then clear_control_attempt config now_ms Outcome.confirmed d
              else d
        ]

    unfoldable pub confirm_session : Controller → Controller
    confirm_session c = elim c.session [
      | none ↦ c
      | some s ↦
          if is_active c.actual.heater_state
          then record c { session = some (record s { confirmed_active = true }) }
          else c
    ]

    unfoldable pub process_control_confirmation : ℕ → HeaterState → Bool → Controller → Controller
    unfolding notice_unexpected_stop settle_off settle_fault settle_attempt confirm_session
    process_control_confirmation now_ms previous_state recovering c =
        let c1 = notice_unexpected_stop now_ms previous_state recovering c in
        let c2 = settle_off now_ms c1 in
        confirm_session (settle_attempt now_ms (settle_fault now_ms c2))

    -- What a STATUS answer changes before its confirmations.
    unfoldable pub take_status : StatusFields → ℕ → Controller → Controller
    unfolding update_from_status
    take_status status now_ms c =
        let was_error = c.communication_fault_active in
        let statuses = c.consecutive_valid_statuses + 1 in
        record c {
          actual = update_from_status c.actual status now_ms;
          expected_command = none;
          response_wait_started_ms = none;
          next_request_due_ms = some (port.ticks_add now_ms config.heartbeat_ms);
          invalid_frame_strikes =
              if was_error || leb config.invalid_frame_threshold statuses
              then 0
              else c.invalid_frame_strikes;
          consecutive_valid_statuses = if was_error then 1 else statuses;
        }

    -- What a STATUS answer changes behind them.
    unfoldable pub finish_status : ℕ → Bool → Controller → Controller
    unfolding restore_noncommunication_error schedule_control emit_event
    finish_status now_ms was_communication_error c =
        if c.actual.synchronized
        then (let c1 =
              if is_none c.control_fault
              then restore_noncommunication_error (record c { phase = Phase.ready })
              else record c { phase = Phase.error } in
            let c2 = schedule_control config port now_ms false c1 in
            if was_communication_error
            then record (emit_event config EventKind.communication_recovered (some now_ms) c2) {
              communication_fault_active = false;
            }
            else c2)
        else record c { phase = Phase.wait_status; pending_control_due_ms = none }

    unfoldable pub accept_status : StatusFields → ℕ → Controller → Controller
    unfolding take_status process_control_confirmation finish_status
    accept_status status now_ms c = finish_status now_ms c.communication_fault_active (
        process_control_confirmation now_ms c.actual.heater_state c.communication_fault_active
          (take_status status now_ms c))

    abbrev pub ignore_frame : Controller → Controller × Bool
    ignore_frame c = (record c { ignored_frames = c.ignored_frames + 1 }, false)

    abbrev pub accept_status_of : Option StatusFields → ℕ → Controller → Controller × Bool
    accept_status_of none now_ms c = (c, false)
    accept_status_of (some status) now_ms c = (accept_status status now_ms c, true)

    -- A consistent INIT or STATUS answer of the heater.
    unfoldable pub handle_answer : Frame → ℕ → Controller → Controller × Bool
    unfolding expected_response_is_timely accept_init accept_status
    handle_answer f now_ms c =
        let (d, timely) = expected_response_is_timely config port f.command now_ms c in
        if f.command == cmd_init
        then (if timely then (accept_init config port now_ms d, true) else ignore_frame d)
        else if not c.actual.initialized
        then ignore_frame c
        else if timely
        then accept_status_of f.status now_ms d
        else ignore_frame d

    -- A frame that the protocol port has rebuilt.
    unfoldable pub handle_validated : Frame → ℕ → Controller → Controller × Bool
    unfolding handle_answer known_frame_is_consistent status_is_consistent record_invalid_frame
    handle_validated f now_ms c =
        if not (f.device == device_heater)
        then ignore_frame c
        else if not ((f.command == cmd_init) || (f.command == cmd_status))
        then ignore_frame c
        else if (if f.command == cmd_init
            then known_frame_is_consistent f cmd_init init_rx_payload_length
            else status_is_consistent f)
        then handle_answer f now_ms c
        else (record_invalid_frame config port now_ms (message "invalid heater frame") c, false)

    -- What follows the validation by the protocol port.
    abbrev pub handle_result : Result (Option Frame) → ℕ → Controller → Controller × Bool
    handle_result (err e) now_ms c = (
      mark_error config (some now_ms) (some (message "inbound validation failed"))
          (record_invalid_frame config port now_ms (message "inbound validation failed") c),
      false,
    )
    handle_result (ok none) now_ms c =
        (record_invalid_frame config port now_ms (message "invalid heater frame") c, false)
    handle_result (ok (some f)) now_ms c = handle_validated f now_ms c

    unfoldable pub handle_frame : Frame → ℕ → Controller → Controller × Bool
    unfolding handle_validated record_invalid_frame mark_error
    handle_frame frame now_ms c = handle_result (port.validate_inbound_frame frame) now_ms c
