-- ===== src/Heater/Sensors.antt =====
-- app/heater_controller.py: the check of a sensor snapshot and the sensor policy. That the fields
-- of a snapshot have the types that the code tests, and that counts are not negative, is their type.
use text.Mathlib.Text.{◌==◌ as str_eq}
use landy_heater.Prelude.{
  ℕ, Bool, true, false, not, ◌&&◌, ◌||◌, Option, none, some, String, ◌==◌, if◌then◌else◌, is_some,
  is_none, Result, ok, err, value_error, ◌>>=◌, ◌>>◌, require,
}
use landy_heater.Prelude.Int.{ℤ, pos, leb_ℤ, eq_ℤ}
use landy_heater.Autoterm.{ControlMode, roof_tent_temperature, cabin_temperature}
use landy_heater.AppState.{Session}
use landy_heater.Heater.Types.{
  Role, Health, Severity, Action, Reason, Sensor, Latch, EventKind, Config, Port, Sensors,
  Controller, message,
}
use landy_heater.Heater.Base.{
  role_eq, health_eq, restore_noncommunication_error, set_sensor_alert, request_stop, emit_event,
  schedule_control,
}

-- `_ACTIVE_SENSOR_ROLE_BY_MODE.get(mode)`
abbrev pub role_by_mode : ControlMode → Option Role
role_by_mode roof_tent_temperature = some Role.roof_tent
role_by_mode cabin_temperature = some Role.cabin
role_by_mode _ = none

unfoldable pub active_sensor_role : Controller → Option Role
active_sensor_role c = elim c.session [
  | some s ↦ role_by_mode s.mode
  | none ↦ if c.requested.on then role_by_mode c.requested.mode else none
]

unfoldable pub missing_sensor_snapshot : Role → Reason → Sensor
missing_sensor_snapshot role reason = record {
  role = role;
  rom_id = none;
  value_c = none;
  last_valid_ms = none;
  age_ms = none;
  unavailable_since_ms = none;
  unavailable_age_ms = none;
  health = Health.missing;
  usable = false;
  present = none;
  invalid_readings = 0;
  failure_generation = 0;
  assignment_revision = 0;
  last_error = some reason;
}

abbrev pub opt_eq_ℤ : Option ℤ → ℤ → Bool
opt_eq_ℤ none b = false
opt_eq_ℤ (some a) b = eq_ℤ a b

-- `value is None or value >= 0`
abbrev pub none_or_nonneg : Option ℤ → Bool
none_or_nonneg none = true
none_or_nonneg (some a) = leb_ℤ (pos 0) a

abbrev pub none_or_nonempty : Option String → Bool
none_or_nonempty none = true
none_or_nonempty (some s) = not (str_eq s "")

abbrev pub is_usable_health : Health → Bool
is_usable_health Health.ok = true
is_usable_health Health.stale = true
is_usable_health _ = false

module _ (config : Config) where
  abbrev pub none_or_in_bounds : Option ℤ → Bool
  none_or_in_bounds none = true
  none_or_in_bounds (some v) =
      leb_ℤ config.sensor_minimum_temperature_c v && leb_ℤ v config.sensor_maximum_temperature_c

  abbrev pub health_by_age : ℤ → Health
  health_by_age age =
      if leb_ℤ (pos config.sensor_failed_after_ms) age
      then Health.failed
      else if leb_ℤ (pos config.sensor_stale_after_ms) age
      then Health.stale
      else Health.ok

  module _ (port : Port) where
    -- The health of a snapshot with a valid reading.
    unfoldable pub health_of_reading : Sensor → ℕ → ℕ → Result Health
    health_of_reading s now_ms last_valid_ms = do
      require (is_some s.rom_id && is_some s.value_c)
          (value_error "sensor reading lacks identity or value")
      require
          (leb_ℤ (pos 0) (port.ticks_diff now_ms last_valid_ms)
            && opt_eq_ℤ s.age_ms (port.ticks_diff now_ms last_valid_ms))
          (value_error "sensor age does not match its timestamp")
      require (is_none s.unavailable_since_ms && is_none s.unavailable_age_ms)
          (value_error "valid sensor has stale unavailability data")
      ok (health_by_age (port.ticks_diff now_ms last_valid_ms))

    -- The health of a snapshot with none.
    unfoldable pub health_of_unavailable : Sensor → ℕ → Option ℕ → Result Health
    health_of_unavailable s now_ms none = do
      require (is_none s.unavailable_age_ms) (value_error "unavailability age lacks timestamp")
      ok Health.missing
    health_of_unavailable s now_ms (some since) = do
      require
          (leb_ℤ (pos 0) (port.ticks_diff now_ms since)
            && opt_eq_ℤ s.unavailable_age_ms (port.ticks_diff now_ms since))
          (value_error "sensor unavailability age does not match timestamp")
      if leb_ℤ (pos config.sensor_failed_after_ms) (port.ticks_diff now_ms since)
          then require (is_some s.rom_id) (value_error "failed assigned sensor lacks identity")
            >> ok Health.failed
          else ok Health.missing

    abbrev pub expected_health : Sensor → ℕ → Option ℕ → Result Health
    expected_health s now_ms (some last_valid_ms) = health_of_reading s now_ms last_valid_ms
    expected_health s now_ms none = do
      require (is_none s.value_c && is_none s.age_ms)
          (value_error "sensor without valid timestamp has a value")
      health_of_unavailable s now_ms s.unavailable_since_ms

    unfoldable pub canonical_sensor_snapshot : Sensor → Role → ℕ → Result Sensor
    unfolding health_of_reading health_of_unavailable
    canonical_sensor_snapshot s role now_ms = do
      require (role_eq s.role role) (value_error "sensor snapshot role mismatch")
      require (none_or_nonempty s.rom_id) (value_error "invalid sensor ROM ID")
      require (none_or_in_bounds s.value_c) (value_error "sensor value exceeds configured bounds")
      require (none_or_nonneg s.age_ms) (value_error "invalid sensor age")
      require (none_or_nonneg s.unavailable_age_ms)
          (value_error "invalid sensor unavailability age")
      expected ← expected_health s now_ms s.last_valid_ms
      require (health_eq s.health expected) (value_error "sensor health contradicts measured age")
      require (if is_usable_health s.health then s.usable else not s.usable)
          (value_error "sensor usable flag contradicts health")
      require (not (is_usable_health s.health) || is_some s.last_valid_ms)
          (value_error "usable sensor lacks a valid reading")
      ok s

    abbrev sensor_or_missing : Role → Result Sensor → Sensor
    sensor_or_missing role (ok s) = s
    sensor_or_missing role (err e) =
        missing_sensor_snapshot role (message "temperature manager failed")

    unfoldable pub read_active_sensor : Sensors → Role → ℕ → Sensor
    unfolding missing_sensor_snapshot
    read_active_sensor none role now_ms =
        missing_sensor_snapshot role (message "temperature manager is not configured")
    read_active_sensor (some sensor_snapshot) role now_ms =
        sensor_or_missing role
          (sensor_snapshot role now_ms >>= λ s. canonical_sensor_snapshot s role now_ms)

-- `a is not None and b != a`, of the bound ROM ID and the sensor's
abbrev pub rom_changed : Option String → Option String → Bool
rom_changed none b = false
rom_changed (some a) none = true
rom_changed (some a) (some b) = not (str_eq b a)

abbrev pub count_changed : Option ℕ → ℕ → Bool
count_changed none b = false
count_changed (some a) b = not (b == a)

-- The health that the policy works with, and its reason if it differs from the sensor's own.
unfoldable pub policy_health : Controller → Sensor → Health × Option Reason
policy_health c sensor =
    if is_some c.session && rom_changed c.session_sensor_rom_id sensor.rom_id
    then (Health.missing, some (message "active sensor assignment changed"))
    else if is_some c.session
        && count_changed c.session_sensor_assignment_revision sensor.assignment_revision
    then (Health.missing, some (message "active sensor assignment configuration changed"))
    else if is_some c.session
        && count_changed c.session_sensor_failure_generation sensor.failure_generation
    then (Health.failed, some (message "active sensor crossed the failure deadline"))
    else (sensor.health, none)

abbrev pub confirmed_session : Option Session → Bool
confirmed_session none = false
confirmed_session (some s) = s.confirmed_active

abbrev pub is_present : Option Bool → Bool
is_present (some true) = true
is_present _ = false

abbrev pub latch_of : Option Latch → ℕ → Bool
latch_of none session_id = false
latch_of (some l) session_id = l.session_id == session_id

-- `a or b`, where an empty text counts as no reason
abbrev pub or_reason : Option Reason → Reason → Reason
or_reason none b = b
or_reason (some (message s)) b = if str_eq s "" then b else message s
or_reason (some a) b = a

module _ (config : Config) (port : Port) where
  -- The shutdown of a supervised session.
  unfoldable pub stop_session_for_sensor : Role → Health → Reason → ℕ → ℕ → Controller → Controller
  unfolding emit_event schedule_control set_sensor_alert request_stop
  stop_session_for_sensor role health reason now_ms session_id c =
      let latch_matches = latch_of c.sensor_stop_latch session_id in
      let (c1, changed) = request_stop c in
      let c2 =
        if changed || not latch_matches
        then schedule_control config port now_ms true (record c1 { pending_control_due_ms = none })
        else c1 in
      let latch : Latch = record {
        role = role;
        health = health;
        reason = reason;
        at_ms = now_ms;
        session_id = session_id;
      } in
      let c3 =
        if latch_matches
        then c2
        else emit_event config (EventKind.sensor_shutdown_requested role health session_id changed)
            (some now_ms) (record c2 { sensor_stop_latch = some latch }) in
      set_sensor_alert role health Severity.error Action.shutdown_latched reason now_ms c3

  -- The withdrawal of a request that has no session yet.
  unfoldable pub start_blocked : Role → Health → Reason → ℕ → Controller → Controller
  unfolding emit_event set_sensor_alert request_stop
  start_blocked role health reason now_ms c =
      let (c1, changed) = request_stop c in
      if c.requested.on
      then emit_event config (EventKind.sensor_start_blocked role health changed) (some now_ms) (
          set_sensor_alert role health Severity.error Action.start_blocked reason now_ms
            (record c1 { pending_control_due_ms = none }))
      else c

  -- The end of `_apply_sensor_policy`, for a health that does not let the heater run.
  unfoldable pub stop_for_sensor : Role → Health → Reason → ℕ → Controller → Controller
  unfolding stop_session_for_sensor start_blocked
  stop_for_sensor role health reason now_ms c = elim c.session [
    | some s ↦ stop_session_for_sensor role health reason now_ms s.session_id c
    | none ↦ start_blocked role health reason now_ms c
  ]

  unfoldable pub policy_with : Role → Sensor → Health → Option Reason → ℕ → Controller → Controller
  unfolding stop_for_sensor
  policy_with role sensor Health.ok reason now_ms c =
      if not (confirmed_session c.session) && not (is_present sensor.present)
      then stop_for_sensor role Health.missing (message "fresh sensor is not confirmed present")
          now_ms c
      else if is_none c.sensor_stop_latch
      then restore_noncommunication_error (record c { sensor_alert = none })
      else c
  policy_with role sensor Health.stale reason now_ms c =
      if confirmed_session c.session
      then (if is_none c.sensor_stop_latch
          then set_sensor_alert role Health.stale Severity.warning Action.continue_last_valid
              (message "active regulation sensor is stale") now_ms c
          else c)
      else stop_for_sensor role Health.stale
          (message "temperature start requires a fresh active sensor") now_ms c
  policy_with role sensor Health.failed reason now_ms c =
      stop_for_sensor role Health.failed
        (or_reason reason (message "active regulation sensor failed")) now_ms c
  policy_with role sensor Health.missing reason now_ms c =
      stop_for_sensor role Health.missing
        (or_reason reason
          (or_reason sensor.last_error (message "active regulation sensor is missing")))
        now_ms c

  unfoldable pub apply_sensor_policy : Sensors → ℕ → Controller → Controller
  unfolding policy_with policy_health read_active_sensor active_sensor_role
  apply_sensor_policy sensors now_ms c = elim (active_sensor_role c) [
    | none ↦ record c { active_sensor = none }
    | some role ↦
        let sensor = read_active_sensor config port sensors role now_ms in
        let (health, reason) = policy_health c sensor in
        policy_with role sensor health reason now_ms (record c { active_sensor = some sensor })
  ]
