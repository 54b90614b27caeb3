-- ===== src/Heater/Attempts.antt =====
-- app/heater_controller.py: control attempts, their confirmation and how they are sent.
use landy_heater.Prelude.{
  ℕ, ◌+◌, Bool, true, false, not, ◌&&◌, Option, none, some, leb, ◌==◌, if◌then◌else◌, is_some,
  Result, ok, err, type_error,
}
use landy_heater.Prelude.Int.{pos, leb_ℤ}
use landy_heater.Prelude.Exec.{Exec, ◌>>=◌}
use landy_heater.AppState.{Requested, validate_start_request}
use landy_heater.Heater.Types.{
  Phase, Command, Operation, Reason, StartPlan, Attempt, Fault, Outcome, EventKind, Config, Port,
  Controller, not_confirmed,
}
use landy_heater.Heater.Base.{
  is_off, is_running, is_active, is_stopping, is_start, discard_session, emit_event,
  clear_control_attempt, schedule_control, call_protocol,
}
use landy_heater.Heater.Link.{Report, start, start_error, shutdown, shutdown_error}
use landy_heater.Heater.Sessions.{spec_of, start_session}

module _ (config : Config) (port : Port) where
  unfoldable pub attempt_matches_current_request : Controller → Attempt → Bool
  attempt_matches_current_request c a =
      (a.request_revision == c.request_revision)
      && (if is_start a.command
          then c.requested.on && is_off c.actual.heater_state
          else not c.requested.on && is_running c.actual.heater_state)

  abbrev pub attempt_command_is_confirmed : Controller → Attempt → Bool
  attempt_command_is_confirmed c a =
      if is_start a.command
      then is_active c.actual.heater_state
      else is_stopping c.actual.heater_state

  abbrev pub attempt_was_cancelled : Controller → Attempt → Bool
  attempt_was_cancelled c a =
      if is_start a.command
      then not c.requested.on && is_off c.actual.heater_state
      else c.requested.on && is_running c.actual.heater_state

  unfoldable pub set_control_fault : ℕ → Fault → Controller → Controller
  unfolding emit_event
  set_control_fault now_ms fault c =
      emit_event config (EventKind.control_error fault) (some now_ms) (record c {
        control_failures = c.control_failures + 1;
        control_fault = some fault;
        last_error = some fault.reason;
        phase = Phase.error;
        pending_control_due_ms = none;
      })

  unfoldable pub set_policy_fault : ℕ → Command → Reason → Bool → Controller → Controller
  unfolding set_control_fault
  set_policy_fault now_ms command reason recover_on_running c =
      if is_some c.control_fault
      then c
      else set_control_fault now_ms
          (record {
            command = command;
            attempts = 0;
            reason = reason;
            recover_on_running = recover_on_running;
          })
          c

  -- `_check_control_confirmation` for the attempt under way.
  unfoldable pub check_attempt : ℕ → Attempt → Controller → Controller
  unfolding attempt_matches_current_request clear_control_attempt discard_session set_control_fault
      schedule_control
  check_attempt now_ms a c =
      let expired =
        leb_ℤ (pos config.control_confirmation_timeout_ms)
          (port.ticks_diff now_ms a.last_sent_ms) in
      let cancelled = clear_control_attempt config now_ms Outcome.cancelled c in
      if not a.status_after_send
      then c
      else if attempt_command_is_confirmed c a
      then clear_control_attempt config now_ms Outcome.resolved c
      else if not a.send_failed && not expired
      then c
      else if attempt_was_cancelled c a
      then (if is_start a.command && is_off c.actual.heater_state
          then discard_session cancelled
          else cancelled)
      else if not (attempt_matches_current_request c a)
      then cancelled
      else if leb config.max_control_attempts a.attempts
      then set_control_fault now_ms
          (record {
            command = a.command;
            attempts = a.attempts;
            reason = not_confirmed a.command a.attempts;
            recover_on_running = false;
          })
          c
      else schedule_control config port now_ms a.send_failed
          (record c { control_attempt = some (record a { retry_ready = true }) })

  unfoldable pub check_control_confirmation : ℕ → Controller → Controller
  unfolding check_attempt
  check_control_confirmation now_ms c = elim c.control_attempt [
    | none ↦ c
    | some a ↦ if is_some c.control_fault then c else check_attempt now_ms a c
  ]

  -- What a new attempt is made of; a START is validated again.
  abbrev pub new_attempt : Command → ℕ → Option StartPlan → Controller → Attempt
  new_attempt command now_ms plan c = record {
    command = command;
    attempts = 0;
    last_sent_ms = now_ms;
    status_after_send = false;
    send_failed = false;
    retry_ready = false;
    request_revision = c.request_revision;
    plan = plan;
  }

  abbrev pub plan_of : Requested → StartPlan
  plan_of r = record {
    mode = r.mode;
    target_temperature = r.target_temperature;
    power_level = r.power_level;
    session_spec = spec_of r;
  }

  abbrev pub prepare_attempt : Command → ℕ → Exec Controller Attempt
  prepare_attempt Command.shutdown now_ms c = (ok (new_attempt Command.shutdown now_ms none c), c)
  prepare_attempt Command.start now_ms c =
      let r = c.requested in
      elim (validate_start_request r.mode r.target_temperature r.power_level r.runtime_minutes
        r.source (some config.maximum_runtime_minutes)) [
          | err e ↦ (err e, c)
          | ok _ ↦ (ok (new_attempt Command.start now_ms (some (plan_of r)) c), c)
        ]

  -- The attempt as it is sent once more.
  abbrev pub sending : Attempt → ℕ → Attempt
  sending a now_ms = record a {
    attempts = a.attempts + 1;
    last_sent_ms = now_ms;
    status_after_send = false;
    send_failed = false;
    retry_ready = false;
  }

  -- What follows the call of the port.
  abbrev pub after_send : Attempt → ℕ → Report → Report → Controller × Bool → Controller × Report
  after_send a now_ms done refused (c, true) = (
    emit_event config (EventKind.control_requested a.command a.attempts) (some now_ms)
        (record c { next_request_due_ms = some (port.ticks_add now_ms config.heartbeat_ms) }),
    done,
  )
  after_send a now_ms done refused (c, false) =
      (record c { control_attempt = some (record a { send_failed = true }) }, refused)

  unfoldable pub send_shutdown : Attempt → ℕ → Controller → Controller × Report
  unfolding call_protocol emit_event
  send_shutdown a now_ms c = after_send a now_ms shutdown shutdown_error (
      call_protocol config port Operation.request_shutdown now_ms (record c {
        control_attempt = some a;
        restart_blocked = true;
        shutdown_sent_revision = some a.request_revision;
      }))

  abbrev pub send_planned :
      Attempt → StartPlan → ℕ → Result (Unit {0}) × Controller → Result Report × Controller
  send_planned a plan now_ms (err e, c) = (err e, record c { control_attempt = none })
  send_planned a plan now_ms (ok _, c) =
      let (d, report) = after_send a now_ms start start_error (
        call_protocol config port
          (Operation.request_start plan.mode plan.target_temperature plan.power_level) now_ms
          (record c { start_sent_revision = some a.request_revision })) in
      (ok report, d)

  unfoldable pub send_start : Attempt → StartPlan → ℕ → Exec Controller Report
  unfolding call_protocol emit_event start_session
  send_start a plan now_ms c =
      send_planned a plan now_ms
        (start_session config port plan.session_spec now_ms (record c { control_attempt = some a }))

  -- The call of the port by the attempt's command. A START attempt is made with its plan; without
  -- one the source could not make the call (`**None`).
  abbrev pub send_by : Command → Option StartPlan → Attempt → ℕ → Exec Controller Report
  send_by Command.shutdown plan a now_ms c =
      let (d, report) = send_shutdown a now_ms c in (ok report, d)
  send_by Command.start (some plan) a now_ms c = send_start a plan now_ms c
  send_by Command.start none a now_ms c =
      (err (type_error "START attempt lacks its parameters"), record c { control_attempt = some a })

  abbrev pub send_attempt : Attempt → ℕ → Exec Controller Report
  send_attempt a now_ms = send_by a.command a.plan a now_ms

  -- `_send_control`, for a first or a repeated attempt.
  unfoldable pub send_control : Command → ℕ → Exec Controller Report
  unfolding send_start send_shutdown
  send_control command now_ms c = elim c.control_attempt [
    | some a ↦ send_attempt (sending a now_ms) now_ms c
    | none ↦ (prepare_attempt command now_ms >>= λ a. send_attempt (sending a now_ms) now_ms) c
  ]
