-- ===== src/Heater/Checks.antt =====
-- app/heater_controller.py: the checks that a cycle makes before it may act call no port.
use landy_heater.Prelude.{ℕ, Bool, Option, none, some, Result, ok, err, Option-cases}
use landy_heater.Heater.Types.{
  Attempt, Config, Port, Controller, Sensors, Sensor, Role, Health, Severity, Action, EventKind,
  Reason, SessionSpec, message,
}
use landy_heater.Heater.Base.{
  emit_event, mark_error, request_stop, discard_session, schedule_control, set_sensor_alert,
  restore_noncommunication_error, clear_control_attempt,
}
use landy_heater.Heater.Sensors.{
  stop_for_sensor, stop_session_for_sensor, start_blocked, policy_with, apply_sensor_policy,
  active_sensor_role, read_active_sensor, policy_health,
}
use landy_heater.Heater.Link.{check_response_timeout}
use landy_heater.Heater.Confirm.{complete_sensor_stop_if_off}
use landy_heater.Heater.Sessions.{
  check_requested_start_deadline, check_session_expiry, ensure_active_session, start_session,
  install_session, check_session_sensor, supervised, spec_of,
}
use landy_heater.Heater.Attempts.{check_control_confirmation, check_attempt, set_control_fault}
use landy_heater.Heater.Control.{before_control}
use native.Mathlib.Omega.{arith}
use mathlib.Core.Path.{◌≡◌, refl, ◌∙◌}
use mathlib.Core.Logic.{inl, inr}

-- From `c` to `d` the port was not called.
abbrev pub Rests : Controller → Controller → Type 0
Rests c d = d.sent ≡ c.sent

module _ (config : Config) (port : Port) where
  deadline-Rests :
      (t : ℕ) (c : Controller) → Rests c (check_requested_start_deadline config port t c)
  unfolding check_requested_start_deadline emit_event
  deadline-Rests t c = ground arith

  timeout-Rests : (t : ℕ) (c : Controller) → Rests c (check_response_timeout config port t c)
  unfolding check_response_timeout mark_error emit_event
  timeout-Rests t c = ground arith

  expiry-Rests : (t : ℕ) (c : Controller) → Rests c (check_session_expiry config port t c)
  unfolding check_session_expiry emit_event schedule_control
  expiry-Rests t c = ground arith

  set_sensor_alert-Rests :
      (r : Role) (h : Health) (s : Severity) (a : Action) (x : Reason) (t : ℕ) (c : Controller)
      → Rests c (set_sensor_alert r h s a x t c)
  unfolding set_sensor_alert restore_noncommunication_error
  set_sensor_alert-Rests r h s a x t c = ground arith

  emit_event-Rests :
      (k : EventKind) (t : Option ℕ) (c : Controller) → Rests c (emit_event config k t c)
  unfolding emit_event
  emit_event-Rests k t c = ground arith

  schedule_control-Rests :
      (t : ℕ) (b : Bool) (c : Controller) → Rests c (schedule_control config port t b c)
  unfolding schedule_control
  schedule_control-Rests t b c = ground arith

  stop_session-Rests :
      (r : Role) (h : Health) (x : Reason) (t i : ℕ) (c : Controller)
      → Rests c (stop_session_for_sensor config port r h x t i c)
  unfolding stop_session_for_sensor request_stop set_sensor_alert restore_noncommunication_error
      emit_event schedule_control
  stop_session-Rests r h x t i c = ground arith

  -- The request is withdrawn where there is no session to stop.
  blocked-Rests :
      (r : Role) (h : Health) (x : Reason) (t : ℕ) (c : Controller)
      → Rests c (start_blocked config port r h x t c)
  unfolding start_blocked request_stop set_sensor_alert restore_noncommunication_error emit_event
  blocked-Rests r h x t c = ground arith

  stop-Rests :
      (r : Role) (h : Health) (x : Reason) (t : ℕ) (c : Controller)
      → Rests c (stop_for_sensor config port r h x t c)
  unfolding stop_for_sensor request_stop
  stop-Rests r h x t c = elim (Option-cases c.session) [
    | inl n ↦ ground (arith, blocked-Rests r h x t c)
    | inr (s, e) ↦ ground (arith, stop_session-Rests r h x t s.session_id c)
  ]

  pub complete-Rests : (t : ℕ) (c : Controller) → Rests c (complete_sensor_stop_if_off config t c)
  unfolding complete_sensor_stop_if_off emit_event restore_noncommunication_error
  complete-Rests t c = ground arith

  start_session-Rests :
      (spec : SessionSpec) (t : ℕ) (c : Controller) → Rests c (start_session config port spec t c).1
  unfolding start_session check_session_sensor install_session emit_event
  start_session-Rests spec t c = ground arith

  attempt-Rests :
      (t : ℕ) (a : Attempt) (c : Controller)
      → c.control_attempt ≡ some a
      → Rests c (check_attempt config port t a c)
  unfolding check_attempt clear_control_attempt discard_session set_control_fault schedule_control
      emit_event
  attempt-Rests t a c e = ground arith

  by_attempt-Rests :
      (t : ℕ) (o : Option Attempt) (c : Controller)
      → c.control_attempt ≡ o
      → Rests c (check_control_confirmation config port t c)
  unfolding check_control_confirmation
  by_attempt-Rests t none c e = ground arith
  by_attempt-Rests t (some a) c e = ground (arith, attempt-Rests t a c e)

  policy_with-Rests :
      (r : Role) (s : Sensor) (h : Health) (x : Option Reason) (t : ℕ) (c : Controller)
      → Rests c (policy_with config port r s h x t c)
  unfolding policy_with restore_noncommunication_error
  policy_with-Rests r s Health.ok x t c =
      let k = stop-Rests r Health.missing (message "fresh sensor is not confirmed present") t c in
      ground (arith, k)
  policy_with-Rests r s Health.stale x t c =
      let k =
        stop-Rests r Health.stale (message "temperature start requires a fresh active sensor") t
          c in
      let a =
        set_sensor_alert-Rests r Health.stale Severity.warning Action.continue_last_valid
          (message "active regulation sensor is stale") t c in
      ground (arith, k, a)
  policy_with-Rests r s Health.failed x t c = stop-Rests r Health.failed _ t c
  policy_with-Rests r s Health.missing x t c = stop-Rests r Health.missing _ t c

  policy-Rests :
      (m : Sensors) (t : ℕ) (c : Controller) → Rests c (apply_sensor_policy config port m t c)
  unfolding apply_sensor_policy
  policy-Rests m t c =
      elim (active_sensor_role c)
        as (λ r. Rests c (elim r [
          | none ↦ record c { active_sensor = none }
          | some role ↦
              policy_with config port role (read_active_sensor config port m role t)
                (policy_health c (read_active_sensor config port m role t)).0
                (policy_health c (read_active_sensor config port m role t)).1 t
                (record c { active_sensor = some (read_active_sensor config port m role t) })
        ])) [
          | none ↦ refl
          | some role ↦
              (policy_with-Rests role (read_active_sensor config port m role t)
                (policy_health c (read_active_sensor config port m role t)).0
                (policy_health c (read_active_sensor config port m role t)).1 t
                (record c { active_sensor = some (read_active_sensor config port m role t) }))
        ]

  supervised-Rests :
      (t : ℕ) (r : Result (Unit {0}) × Controller) → Rests r.1 (supervised config port r t)
  unfolding request_stop schedule_control set_sensor_alert restore_noncommunication_error emit_event
  supervised-Rests t (ok x, c) = ground arith
  supervised-Rests t (err x, c) = ground arith

  ensure-Rests : (t : ℕ) (c : Controller) → Rests c (ensure_active_session config port t c)
  unfolding ensure_active_session
  ensure-Rests t c = ground (
    arith,
    start_session-Rests (spec_of c.requested) t c,
    supervised-Rests t (start_session config port (spec_of c.requested) t c),
  )

  -- The checks before control.
  pub before_control-Rests :
      (m : Sensors) (t : ℕ) (c : Controller) → Rests c (before_control config port m t c)
  unfolding before_control
  before_control-Rests m t c =
      let c1 = check_requested_start_deadline config port t c in
      let c2 = check_response_timeout config port t c1 in
      let c3 = check_session_expiry config port t c2 in
      let c4 = apply_sensor_policy config port m t c3 in
      let c5 = ensure_active_session config port t c4 in
      complete-Rests t (check_control_confirmation config port t c5)
      ∙ by_attempt-Rests t c5.control_attempt c5 refl
      ∙ ensure-Rests t c4
      ∙ policy-Rests m t c3
      ∙ expiry-Rests t c2
      ∙ timeout-Rests t c1
      ∙ deadline-Rests t c
