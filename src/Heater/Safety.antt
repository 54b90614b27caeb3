-- ===== src/Heater/Safety.antt =====
-- app/heater_controller.py: what makes the controller stop, and what a refused request leaves.
use landy_heater.Prelude.{
  ℕ, ◌∷◌, Bool, true, false, Option, none, some, ok, err, Error, is_some, Result-cases,
  Option-cases,
}
use landy_heater.AppState.{HeaterState, Requested, request_on, mark_communication_error}
use landy_heater.Heater.Types.{
  Operation, Attempt, StartPlan, SessionSpec, Config, Port, Controller, Sensor, Role, Reason,
}
use landy_heater.Heater.Base.{
  role_eq, call_protocol, emit_event, mark_error, restore_noncommunication_error,
}
use landy_heater.Heater.Sensors.{
  canonical_sensor_snapshot, is_usable_health, health_of_reading, health_of_unavailable,
}
use landy_heater.Heater.Requests.{Deadline, request_start}
use landy_heater.Prelude.Int.{pos, leb_ℤ}
use landy_heater.Heater.Link.{Report, start, start_error}
use landy_heater.Heater.Sent.{start_session-sent, after_send-sent, call_protocol-sent}
use landy_heater.Heater.Sessions.{start_session, check_session_sensor, install_session}
use landy_heater.Heater.Attempts.{send_start, after_send}
use landy_heater.Heater.Control.{may_control}
use native.Mathlib.Omega.{arith}
use mathlib.Core.Path.{◌≡◌}
use mathlib.Core.Logic.{◌⊎◌, inl, inr}

module _ (config : Config) (port : Port) where
  -- A communication error fails closed: whatever the state was, afterwards the heater counts as
  -- neither initialized nor synchronized and its state as unknown, no answer and no control is
  -- pending, control may not act, and the request of the application is as it was.
  pub mark_error_closes :
      (t : Option ℕ) (reason : Option Reason) (c : Controller)
      → let d = mark_error config t reason c in
        (may_control config port d ≡ false)
        × (d.actual.initialized ≡ false)
        × (d.actual.synchronized ≡ false)
        × (d.actual.heater_state ≡ HeaterState.unknown)
        × (d.expected_command ≡ none)
        × (d.pending_control_due_ms ≡ none)
        × (d.requested ≡ c.requested)
        × (d.sent ≡ c.sent)
  unfolding mark_error mark_communication_error emit_event
  mark_error_closes t reason c = (
    ground arith,
    ground arith,
    ground arith,
    ground arith,
    ground arith,
    ground arith,
    ground arith,
    ground arith,
  )

  -- A refused start request leaves the controller as it was; an accepted one leaves it requested
  -- on, calls no port, and finds no attempt, no block and no sensor latch.
  pub request_start_atomic :
      (wanted : Requested) (deadline : Deadline) (c : Controller)
      → ((e : Error)
          → (request_start config port wanted deadline c).0 ≡ err e
          → (request_start config port wanted deadline c).1 ≡ c)
        × ((b : Bool)
            → (request_start config port wanted deadline c).0 ≡ ok b
            → ((request_start config port wanted deadline c).1.requested.on ≡ true)
              × ((request_start config port wanted deadline c).1.sent ≡ c.sent)
              × (c.sensor_stop_latch ≡ none)
              × (c.control_attempt ≡ none)
              × (c.restart_blocked ≡ false))
  unfolding request_start request_on restore_noncommunication_error
  request_start_atomic wanted deadline c = (
    λ e h. ground arith,
    λ b h. (ground arith, ground arith, ground arith, ground arith, ground arith),
  )

  session_started :
      (spec : SessionSpec) (t : ℕ) (c : Controller) (x : Unit {0})
      → (start_session config port spec t c).0 ≡ ok x
      → is_some (start_session config port spec t c).1.session ≡ true
  unfolding start_session check_session_sensor install_session emit_event
  session_started spec t c x h = ground arith

  -- A sensor's snapshot is accepted only as it is, for the role that was asked for. A usable one has
  -- a value, an identity and a reading whose age, by the clock, is not negative and below the age at
  -- which a sensor counts as failed.
  pub usable_sensor_is_measured :
      (s r : Sensor) (role : Role) (t : ℕ)
      → canonical_sensor_snapshot config port s role t ≡ ok r
      → (r ≡ s)
        × (role_eq r.role role ≡ true)
        × (is_usable_health r.health ≡ true
            → (l : ℕ) × (r.last_valid_ms ≡ some l)
              × (is_some r.value_c ≡ true)
              × (is_some r.rom_id ≡ true)
              × (leb_ℤ (pos 0) (port.ticks_diff t l) ≡ true)
              × (leb_ℤ (pos config.sensor_failed_after_ms) (port.ticks_diff t l) ≡ false))
  unfolding canonical_sensor_snapshot health_of_reading health_of_unavailable
  usable_sensor_is_measured s r role t h = (
    ground arith,
    ground arith,
    λ u. elim (Option-cases s.last_valid_ms) [
      | inl n ↦ absurd (ground arith)
      | inr (l, e) ↦ (l, ground arith, ground arith, ground arith, ground arith, ground arith)
    ],
  )

  call_protocol-session :
      (op : Operation) (t : ℕ) (c : Controller)
      → ((call_protocol config port op t c).0.session ≡ c.session)
        × ((call_protocol config port op t c).0.start_sent_revision ≡ c.start_sent_revision)
  unfolding call_protocol mark_error emit_event
  call_protocol-session op t c = (ground arith, ground arith)

  after_send-session :
      (a : Attempt) (t : ℕ) (x y : Report) (r : Controller × Bool)
      → ((after_send config port a t x y r).0.session ≡ r.0.session)
        × ((after_send config port a t x y r).0.start_sent_revision ≡ r.0.start_sent_revision)
  unfolding emit_event
  after_send-session a t x y r = (ground arith, ground arith)

  -- No START without supervision: sending a START attempt either calls no port at all and drops the
  -- attempt, or it calls the port once, with the parameters of the attempt's plan, in a state that has
  -- a session and that has recorded the START for the attempt's revision.
  pub start_supervised :
      (a : Attempt) (p : StartPlan) (t : ℕ) (c : Controller)
      → let d = (send_start config port a p t c).1 in
        ((d.sent ≡ c.sent) × (d.control_attempt ≡ none))
        ⊎ ((d.sent ≡ Operation.request_start p.mode p.target_temperature p.power_level ∷ c.sent)
            × (is_some d.session ≡ true)
            × (d.start_sent_revision ≡ some a.request_revision))
  unfolding send_start
  start_supervised a p t c =
      let b = record c { control_attempt = some a } in
      let s = start_session config port p.session_spec t b in
      let q = start_session-sent config port p.session_spec t b in
      let op = Operation.request_start p.mode p.target_temperature p.power_level in
      let e = record s.1 { start_sent_revision = some a.request_revision } in
      elim (Result-cases s.0) [
        | inl (x, h) ↦ inr (
          ground (
            arith,
            h,
            q,
            after_send-sent config port a t start start_error (call_protocol config port op t e),
            call_protocol-sent config port op t e,
          ),
          ground (
            arith,
            h,
            session_started p.session_spec t b x h,
            (after_send-session a t start start_error (call_protocol config port op t e)).0,
            (call_protocol-session op t e).0,
          ),
          ground (
            arith,
            h,
            (after_send-session a t start start_error (call_protocol config port op t e)).1,
            (call_protocol-session op t e).1,
          ),
        )
        | inr (x, h) ↦ inl (ground (arith, h, q), ground (arith, h))
      ]
