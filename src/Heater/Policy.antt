-- ===== src/Heater/Policy.antt =====
-- app/heater_controller.py: what `_apply_sensor_policy` makes of the active sensor during a session.
use landy_heater.Prelude.{
  ℕ, ◌≡◌, sym, Bool, true, false, not, ◌&&◌, ◌||◌, Option, none, some, arith,
}
use mathlib.Core.Path.{subst}
use landy_heater.AppState.{Session}
use landy_heater.Heater.Types.{
  Role, Health, Reason, Sensor, Sensors, Config, Port, Controller, message,
}
use landy_heater.Heater.Base.{
  emit_event, schedule_control, set_sensor_alert, restore_noncommunication_error, request_stop,
}
use landy_heater.Heater.Sensors.{
  active_sensor_role, read_active_sensor, rom_changed, count_changed, policy_health, is_present,
  latch_of, stop_session_for_sensor, stop_for_sensor, policy_with, apply_sensor_policy,
}

-- Whether the health of the active sensor lets a session go on: a fresh sensor, unless the start is
-- neither confirmed nor the sensor known to be present, and a stale one once the start is confirmed.
abbrev pub health_lets : Health → Bool → Bool → Bool
health_lets Health.ok confirmed present = confirmed || present
health_lets Health.stale confirmed present = confirmed
health_lets Health.failed confirmed present = false
health_lets Health.missing confirmed present = false

-- Whether the sensor is still the one that the session is bound to.
abbrev pub is_same_sensor : Controller → Sensor → Bool
is_same_sensor c sensor =
    not (rom_changed c.session_sensor_rom_id sensor.rom_id)
    && not (count_changed c.session_sensor_assignment_revision sensor.assignment_revision)
    && not (count_changed c.session_sensor_failure_generation sensor.failure_generation)

abbrev pub may_regulate : Controller → Session → Sensor → Bool
may_regulate c s sensor =
    is_same_sensor c sensor
    && health_lets sensor.health s.confirmed_active (is_present sensor.present)

module _ (config : Config) (port : Port) (t : ℕ) where
  -- The session is stopped: its request is withdrawn, the stop is latched for it, and if the
  -- request was on, control is due at once. The session stays and the port is not called.
  abbrev pub Stopped : Session → Controller → Controller → Type 0
  Stopped s c d =
      (d.requested.on ≡ false)
      × (latch_of d.sensor_stop_latch s.session_id ≡ true)
      × (d.session ≡ some s)
      × (d.sent ≡ c.sent)
      × (c.requested.on ≡ true → d.pending_control_due_ms ≡ some (port.ticks_add t 0))

  -- The session goes on as it was.
  abbrev pub Continued : Session → Controller → Controller → Type 0
  Continued s c d =
      (d.requested ≡ c.requested)
      × (d.sensor_stop_latch ≡ c.sensor_stop_latch)
      × (d.session ≡ some s)
      × (d.sent ≡ c.sent)
      × (d.pending_control_due_ms ≡ c.pending_control_due_ms)

  abbrev Follows : Bool → Session → Controller → Controller → Type 0
  Follows lets s c d = (lets ≡ false → Stopped s c d) × (lets ≡ true → Continued s c d)

  stop-Stopped :
      (role : Role) (health : Health) (reason : Reason) (c : Controller) (s : Session)
      → c.session ≡ some s
      → Stopped s c (stop_for_sensor config port role health reason t c)
  unfolding stop_for_sensor stop_session_for_sensor request_stop set_sensor_alert
      restore_noncommunication_error emit_event schedule_control
  stop-Stopped role health reason c s e =
      (ground arith, ground arith, ground arith, ground arith, λ h. ground arith)

  ok-Follows :
      (role : Role) (sensor : Sensor) (reason : Option Reason) (c : Controller) (s : Session)
      → c.session ≡ some s
      → Follows
          (s.confirmed_active || is_present sensor.present)
          s
          c
          (policy_with config port role sensor Health.ok reason t c)
  unfolding policy_with restore_noncommunication_error
  ok-Follows role sensor reason c s e = (
    λ h. ground (
      arith,
      e,
      stop-Stopped role Health.missing (message "fresh sensor is not confirmed present") c s e,
    ),
    λ h. (ground arith, ground arith, ground arith, ground arith, ground arith),
  )

  stale-Follows :
      (role : Role) (sensor : Sensor) (reason : Option Reason) (c : Controller) (s : Session)
      → c.session ≡ some s
      → Follows s.confirmed_active s c (policy_with config port role sensor Health.stale reason t c)
  unfolding policy_with set_sensor_alert restore_noncommunication_error
  stale-Follows role sensor reason c s e = (
    λ h. ground (
      arith,
      e,
      stop-Stopped role Health.stale (message "temperature start requires a fresh active sensor") c
          s e,
    ),
    λ h. (ground arith, ground arith, ground arith, ground arith, ground arith),
  )

  policy_with-Follows :
      (role : Role) (sensor : Sensor) (health : Health) (reason : Option Reason) (c : Controller)
      (s : Session)
      → c.session ≡ some s
      → Follows
          (health_lets health s.confirmed_active (is_present sensor.present))
          s
          c
          (policy_with config port role sensor health reason t c)
  unfolding policy_with
  policy_with-Follows role sensor Health.ok reason c s e = ok-Follows role sensor reason c s e
  policy_with-Follows role sensor Health.stale reason c s e = stale-Follows role sensor reason c s e
  policy_with-Follows role sensor Health.failed reason c s e =
      (λ h. stop-Stopped role Health.failed _ c s e, λ h. absurd (ground arith))
  policy_with-Follows role sensor Health.missing reason c s e =
      (λ h. stop-Stopped role Health.missing _ c s e, λ h. absurd (ground arith))

  policy_health-lets :
      (c : Controller) (s : Session) (sensor : Sensor) (confirmed present : Bool)
      → c.session ≡ some s
      → health_lets (policy_health c sensor).0 confirmed present
        ≡ (is_same_sensor c sensor && health_lets sensor.health confirmed present)
  unfolding policy_health
  policy_health-lets c s sensor confirmed present e = ground arith

  -- The sensor policy of a session whose mode regulates by a sensor. `may_regulate` is told from the
  -- session and from what is read of the sensor: the session goes on only while the sensor has the
  -- identity, the assignment and the failure generation that the session is bound to, and is
  -- fresh (present, before the start is confirmed), or stale after the start is confirmed. Then
  -- the request, the latch, the session and the pending control stay as they are. In every other
  -- case the request is withdrawn and the stop latched for this session, and if the request was
  -- on, control is due at once. The session stays in both cases, and the port is not called.
  pub failed_sensor_stops :
      (sensors : Sensors) (c : Controller) (s : Session) (role : Role)
      → c.session ≡ some s
      → active_sensor_role c ≡ some role
      → let sensor = read_active_sensor config port sensors role t in
        let d = apply_sensor_policy config port sensors t c in
        (may_regulate c s sensor ≡ false → Stopped s c d)
        × (may_regulate c s sensor ≡ true → Continued s c d)
  unfolding apply_sensor_policy
  failed_sensor_stops sensors c s role e r =
      let sensor = read_active_sensor config port sensors role t in
      let b = record c { active_sensor = some sensor } in
      let k =
        policy_with-Follows role sensor (policy_health c sensor).0 (policy_health c sensor).1 b s
          e in
      let k' =
        subst
          (λ lets. Follows lets s c (
            policy_with config port role sensor (policy_health c sensor).0
              (policy_health c sensor).1 t b))
          (policy_health-lets c s sensor s.confirmed_active (is_present sensor.present) e) k in
      subst
        (λ o. Follows (may_regulate c s sensor) s c (elim o [
          | none ↦ record c { active_sensor = none }
          | some role ↦
              policy_with config port role (read_active_sensor config port sensors role t)
                (policy_health c (read_active_sensor config port sensors role t)).0
                (policy_health c (read_active_sensor config port sensors role t)).1 t
                (record c { active_sensor = some (read_active_sensor config port sensors role t) })
        ]))
        (sym r) k'
