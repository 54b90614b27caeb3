-- ===== src/Heater/Control.antt =====
-- app/heater_controller.py: the decision on control and the controller's cycle. `step` raises where
-- the source lets an exception pass.
use landy_heater.Prelude.{
  ℕ, Bool, true, false, not, ◌&&◌, ◌||◌, Option, none, some, List, [], ◌∷◌, if◌then◌else◌, is_none,
  Result, ok, err,
}
use landy_heater.Prelude.Int.{pos, leb_ℤ, ltb_ℤ}
use landy_heater.Prelude.Exec.{Exec, pure, ◌>>=◌}
use landy_heater.AppState.{HeaterState, option_eq}
use landy_heater.Heater.Types.{
  Command, Attempt, EventKind, Config, Port, Sensors, Controller, message,
}
use landy_heater.Heater.Base.{is_starting, is_ready, is_comm_ok, emit_event, due}
use landy_heater.Heater.Sensors.{apply_sensor_policy}
use landy_heater.Heater.Link.{Report, check_response_timeout, request_synchronization}
use landy_heater.Heater.Confirm.{complete_sensor_stop_if_off}
use landy_heater.Heater.Sessions.{
  ensure_active_session, check_session_expiry, check_requested_start_deadline,
}
use landy_heater.Heater.Attempts.{
  attempt_matches_current_request, set_policy_fault, check_control_confirmation, send_control,
}

module _ (config : Config) (port : Port) where
  abbrev pub Evaluation : Type 0
  Evaluation = Exec Controller (Option Report)

  abbrev pub nothing : Evaluation
  nothing c = (ok none, c)

  abbrev pub sent_report : Exec Controller Report → Evaluation
  sent_report m = m >>= λ r. pure (some r)

  abbrev pub after_fault : (Controller → Controller) → Evaluation
  after_fault f c = (ok none, f c)

  -- `_starting_stop_since_ms` is kept only while a stop waits for STARTING to end.
  abbrev pub forget_starting_stop : Controller → Controller
  forget_starting_stop c =
      if not (is_starting c.actual.heater_state) || c.requested.on
      then record c { starting_stop_since_ms = none }
      else c

  abbrev pub defer_stop : ℕ → Controller → Controller
  defer_stop now_ms c = elim c.starting_stop_since_ms [
    | none ↦
        emit_event config EventKind.shutdown_deferred (some now_ms)
          (record c { starting_stop_since_ms = some now_ms })
    | some since ↦
        if leb_ℤ (pos config.starting_stop_policy_timeout_ms) (port.ticks_diff now_ms since)
        then set_policy_fault config port now_ms Command.shutdown
            (message "STARTING did not become RUNNING before stop-policy timeout") true c
        else c
  ]

  -- The decision by the heater's state, with no attempt under way.
  unfoldable pub decide : ℕ → HeaterState → Evaluation
  unfolding send_control set_policy_fault emit_event
  decide now_ms HeaterState.off c =
      if c.requested.on && not c.restart_blocked
      then (if option_eq c.start_sent_revision (some c.request_revision)
          then after_fault
              (set_policy_fault config port now_ms Command.start
                (message "OFF returned after a completed START generation") false)
              c
          else sent_report (send_control config port Command.start now_ms) c)
      else nothing c
  decide now_ms HeaterState.starting c =
      if not c.requested.on then after_fault (defer_stop now_ms) c else nothing c
  decide now_ms HeaterState.running c =
      if not c.requested.on
      then (if option_eq c.shutdown_sent_revision (some c.request_revision)
          then after_fault
              (set_policy_fault config port now_ms Command.shutdown
                (message "RUNNING returned after a completed SHUTDOWN generation") false)
              c
          else sent_report (send_control config port Command.shutdown now_ms) c)
      else nothing c
  decide now_ms HeaterState.temp_monitoring c =
      if not c.requested.on
      then after_fault
          (set_policy_fault config port now_ms Command.shutdown
            (message "shutdown behaviour for TEMP_MONITORING is unconfirmed") true)
          c
      else nothing c
  decide now_ms HeaterState.shutting_down c = nothing c
  decide now_ms HeaterState.unknown c = nothing c

  abbrev pub may_control : Controller → Bool
  may_control c =
      is_ready c.phase
      && is_comm_ok c.actual.communication
      && c.actual.initialized
      && c.actual.synchronized
      && is_none c.control_fault

  abbrev pub evaluate_attempt : ℕ → Option Attempt → Evaluation
  evaluate_attempt now_ms (some a) c =
      if a.retry_ready && attempt_matches_current_request config port c a
      then sent_report (send_control config port a.command now_ms) c
      else nothing c
  evaluate_attempt now_ms none c = decide now_ms c.actual.heater_state (forget_starting_stop c)

  unfoldable pub evaluate_control : ℕ → Evaluation
  unfolding decide attempt_matches_current_request send_control
  evaluate_control now_ms c =
      let d = record c { pending_control_due_ms = none } in
      if may_control d then evaluate_attempt now_ms d.control_attempt d else nothing d

  unfoldable pub control_status_is_fresh : ℕ → Controller → Bool
  control_status_is_fresh now_ms c = elim c.actual.last_status_ms [
    | none ↦ false
    | some t ↦
        leb_ℤ (pos 0) (port.ticks_diff now_ms t)
        && ltb_ℤ (port.ticks_diff now_ms t) (pos config.heartbeat_ms)
  ]

  -- The checks that a cycle makes before it may act.
  unfoldable pub before_control : Sensors → ℕ → Controller → Controller
  before_control sensors now_ms c = complete_sensor_stop_if_off config now_ms (
      check_control_confirmation config port now_ms (
        ensure_active_session config port now_ms (
          apply_sensor_policy config port sensors now_ms (
            check_session_expiry config port now_ms (
              check_response_timeout config port now_ms
                (check_requested_start_deadline config port now_ms c))))))

  -- The end of the cycle: the next synchronization, if it is due.
  unfoldable pub synchronize_if_due : ℕ → Exec Controller (List Report)
  synchronize_if_due now_ms c =
      if is_none c.next_request_due_ms || due config port now_ms c.next_request_due_ms
      then (let (d, report) = request_synchronization config port now_ms c in (ok (report ∷ []), d))
      else (ok [], c)

  abbrev pub after_evaluation :
      ℕ → Result (Option Report) × Controller → Result (List Report) × Controller
  after_evaluation now_ms (err e, c) = (err e, c)
  after_evaluation now_ms (ok (some r), c) = (ok (r ∷ []), c)
  after_evaluation now_ms (ok none, c) = synchronize_if_due now_ms c

  abbrev pub postpone_control : ℕ → Controller → Controller
  postpone_control now_ms c = record c {
    pending_control_due_ms = none;
    next_request_due_ms = if is_none c.expected_command then some now_ms else c.next_request_due_ms;
  }

  -- The part of the cycle that may act.
  unfoldable pub control_cycle : ℕ → Exec Controller (List Report)
  control_cycle now_ms c =
      if due config port now_ms c.pending_control_due_ms
      then (if control_status_is_fresh now_ms c
          then after_evaluation now_ms (evaluate_control now_ms c)
          else synchronize_if_due now_ms (postpone_control now_ms c))
      else synchronize_if_due now_ms c

  unfoldable pub step : Sensors → ℕ → Exec Controller (List Report)
  unfolding control_cycle before_control
  step sensors now_ms c = control_cycle now_ms (before_control sensors now_ms c)
