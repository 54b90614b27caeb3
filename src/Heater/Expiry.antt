-- ===== src/Heater/Expiry.antt =====
-- app/heater_controller.py: the cycle in which a session's time is up.
use landy_heater.Prelude.{
  ℕ, ◌≡◌, ◌⊎◌, inl, inr, sym, true, false, ◌∷◌, Option, none, some, arith, Option-cases,
}
use mathlib.Core.Path.{subst}
use landy_heater.AppState.{Session}
use landy_heater.Heater.Types.{
  Role, Health, Severity, Action, Reason, Sensor, Sensors, Command, Operation, Attempt, Config,
  Port, Controller, message,
}
use landy_heater.Heater.Base.{
  due, emit_event, mark_error, request_stop, schedule_control, set_sensor_alert,
  restore_noncommunication_error, clear_control_attempt, discard_session,
}
use landy_heater.Heater.Sensors.{
  stop_for_sensor, stop_session_for_sensor, start_blocked, policy_with, policy_health,
  read_active_sensor, active_sensor_role, apply_sensor_policy,
}
use landy_heater.Heater.Link.{check_response_timeout}
use landy_heater.Heater.Confirm.{complete_sensor_stop_if_off}
use landy_heater.Heater.Sessions.{
  check_requested_start_deadline, check_session_expiry, ensure_active_session,
}
use landy_heater.Heater.Attempts.{check_control_confirmation, check_attempt, set_control_fault}
use landy_heater.Heater.Control.{before_control, step}
use landy_heater.Heater.Sent.{command_of_operation}
use landy_heater.Heater.Cycle.{IsAllowed, step_calls}

-- The application requests no heating.
abbrev IsOff : Controller → Type 0
IsOff c = c.requested.on ≡ false

module _ (config : Config) (port : Port) where
  stop_session-IsOff :
      (r : Role) (h : Health) (x : Reason) (t i : ℕ) (c : Controller)
      → IsOff c
      → IsOff (stop_session_for_sensor config port r h x t i c)
  unfolding stop_session_for_sensor request_stop set_sensor_alert restore_noncommunication_error
      emit_event schedule_control
  stop_session-IsOff r h x t i c o = ground arith

  blocked-IsOff :
      (r : Role) (h : Health) (x : Reason) (t : ℕ) (c : Controller)
      → IsOff c
      → IsOff (start_blocked config port r h x t c)
  unfolding start_blocked request_stop
  blocked-IsOff r h x t c o = ground arith

  stop-IsOff :
      (r : Role) (h : Health) (x : Reason) (t : ℕ) (c : Controller)
      → IsOff c
      → IsOff (stop_for_sensor config port r h x t c)
  unfolding stop_for_sensor
  stop-IsOff r h x t c o = elim (Option-cases c.session) [
    | inl n ↦ ground (arith, blocked-IsOff r h x t c o)
    | inr (s, e) ↦ ground (arith, stop_session-IsOff r h x t s.session_id c o)
  ]

  set_sensor_alert-IsOff :
      (r : Role) (h : Health) (s : Severity) (a : Action) (x : Reason) (t : ℕ) (c : Controller)
      → IsOff c
      → IsOff (set_sensor_alert r h s a x t c)
  unfolding set_sensor_alert restore_noncommunication_error
  set_sensor_alert-IsOff r h s a x t c o = ground arith

  policy_with-IsOff :
      (r : Role) (s : Sensor) (h : Health) (x : Option Reason) (t : ℕ) (c : Controller)
      → IsOff c
      → IsOff (policy_with config port r s h x t c)
  unfolding policy_with restore_noncommunication_error
  policy_with-IsOff r s Health.ok x t c o =
      ground
        (arith, stop-IsOff r Health.missing (message "fresh sensor is not confirmed present") t c o)
  policy_with-IsOff r s Health.stale x t c o = ground (
    arith,
    stop-IsOff r Health.stale (message "temperature start requires a fresh active sensor") t c o,
    set_sensor_alert-IsOff r Health.stale Severity.warning Action.continue_last_valid
        (message "active regulation sensor is stale") t c o,
  )
  policy_with-IsOff r s Health.failed x t c o = stop-IsOff r Health.failed _ t c o
  policy_with-IsOff r s Health.missing x t c o = stop-IsOff r Health.missing _ t c o

  policy-IsOff :
      (m : Sensors) (t : ℕ) (c : Controller)
      → IsOff c
      → IsOff (apply_sensor_policy config port m t c)
  unfolding apply_sensor_policy
  policy-IsOff m t c o =
      elim (active_sensor_role c)
        as (λ r. IsOff (elim r [
          | none ↦ record c { active_sensor = none }
          | some role ↦
              policy_with config port role (read_active_sensor config port m role t)
                (policy_health c (read_active_sensor config port m role t)).0
                (policy_health c (read_active_sensor config port m role t)).1 t
                (record c { active_sensor = some (read_active_sensor config port m role t) })
        ])) [
          | none ↦ o
          | some role ↦
              policy_with-IsOff role (read_active_sensor config port m role t)
                (policy_health c (read_active_sensor config port m role t)).0
                (policy_health c (read_active_sensor config port m role t)).1 t
                (record c { active_sensor = some (read_active_sensor config port m role t) }) o
        ]

  ensure-IsOff : (t : ℕ) (c : Controller) → IsOff c → ensure_active_session config port t c ≡ c
  unfolding ensure_active_session
  ensure-IsOff t c o = ground arith

  attempt-IsOff :
      (t : ℕ) (a : Attempt) (c : Controller) → IsOff c → IsOff (check_attempt config port t a c)
  unfolding check_attempt clear_control_attempt discard_session set_control_fault schedule_control
      emit_event
  attempt-IsOff t a c o = ground arith

  confirmation-IsOff :
      (t : ℕ) (c : Controller) → IsOff c → IsOff (check_control_confirmation config port t c)
  unfolding check_control_confirmation
  confirmation-IsOff t c o = elim (Option-cases c.control_attempt) [
    | inl n ↦ ground arith
    | inr (a, e) ↦ ground (arith, attempt-IsOff t a c o)
  ]

  complete-IsOff :
      (t : ℕ) (c : Controller) → IsOff c → IsOff (complete_sensor_stop_if_off config t c)
  unfolding complete_sensor_stop_if_off emit_event restore_noncommunication_error
  complete-IsOff t c o = ground arith

  -- The checks before the one of the expiry leave the session alone.
  session_reaches_expiry :
      (t : ℕ) (c : Controller) (s : Session)
      → c.session ≡ some s
      → (check_response_timeout config port t
          (check_requested_start_deadline config port t c)).session
        ≡ some s
  unfolding check_response_timeout check_requested_start_deadline mark_error emit_event
  session_reaches_expiry t c s e = ground arith

  expiry-IsOff :
      (t : ℕ) (c : Controller) (s : Session)
      → c.session ≡ some s
      → s.expired ≡ false
      → due config port t (some s.expires_at_ms) ≡ true
      → IsOff (check_session_expiry config port t c)
  unfolding check_session_expiry emit_event schedule_control
  expiry-IsOff t c s e x u = ground arith

  -- From the expiry on the checks of a cycle leave the request withdrawn.
  before_control-IsOff :
      (m : Sensors) (t : ℕ) (c : Controller) (s : Session)
      → c.session ≡ some s
      → s.expired ≡ false
      → due config port t (some s.expires_at_ms) ≡ true
      → IsOff (before_control config port m t c)
  unfolding before_control
  before_control-IsOff m t c s e x u =
      let c2 =
        check_response_timeout config port t (check_requested_start_deadline config port t c) in
      let c4 = apply_sensor_policy config port m t (check_session_expiry config port t c2) in
      let o4 =
        policy-IsOff m t (check_session_expiry config port t c2)
          (expiry-IsOff t c2 s (session_reaches_expiry t c s e) x u) in
      let o5 = subst IsOff (sym (ensure-IsOff t c4 o4)) o4 in
      complete-IsOff t _ (confirmation-IsOff t (ensure_active_session config port t c4) o5)

  allowed-no_start :
      (t : ℕ) (c : Controller) (op : Operation)
      → IsOff c
      → IsAllowed config port t c op
      → ¬ (command_of_operation op ≡ some Command.start)
  allowed-no_start t c op o (inl n) h = cc
  allowed-no_start t c op o (inr (Command.start, k, (on, off), m, f)) h = cc
  allowed-no_start t c op o (inr (Command.shutdown, k, w, m, f)) h = cc

  -- A whole cycle at a time when the deadline of the session has passed, which is not yet marked
  -- expired: whatever the sensors, the attempt under way, a late answer and the deadline of a
  -- request are, the checks of the cycle leave the request of the application withdrawn when
  -- control decides. The cycle then calls the port at most once, and never for START.
  pub expired_session_stops :
      (m : Sensors) (t : ℕ) (c : Controller) (s : Session)
      → c.session ≡ some s
      → s.expired ≡ false
      → due config port t (some s.expires_at_ms) ≡ true
      → ((before_control config port m t c).requested.on ≡ false)
        × (((step config port m t c).1.sent ≡ c.sent)
            ⊎ ((op : Operation) × ((step config port m t c).1.sent ≡ op ∷ c.sent)
                × (¬ (command_of_operation op ≡ some Command.start))))
  expired_session_stops m t c s e x u =
      let o = before_control-IsOff m t c s e x u in
      (
        o,
        elim (step_calls config port m t c) [
          | inl same ↦ inl same
          | inr (op, one, allowed) ↦
              inr (op, one, allowed-no_start t (before_control config port m t c) op o allowed)
        ],
      )
