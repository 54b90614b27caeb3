-- ===== src/Temperature/Snapshots.antt =====
-- app/temperature_manager.py: the health of a role, its snapshot and the events on its changes.
use landy_heater.Prelude.{
  ℕ, ◌+◌, Bool, false, not, ◌&&◌, Option, none, some, List, String, if◌then◌else◌, is_some, Result,
  ok, err, value_error, key_error, ◌>>=◌, ◌>>◌, require,
}
use landy_heater.Prelude.Int.{ℤ, pos, leb_ℤ}
use landy_heater.Prelude.Exec.{Exec}
use landy_heater.Heater.Types.{Role, Health, Sensor}
use landy_heater.Heater.Base.{health_eq}
use landy_heater.Heater.Sensors.{is_usable_health}
use landy_heater.Temperature.Types.{
  get, set, Settings, Reading, Manager, find_reading, change_reading, time_precedes_reading,
  emit_event,
}

-- The snapshot of a role to which no sensor is assigned.
unfoldable pub unassigned_snapshot : Role → ℕ → Sensor
unassigned_snapshot role revision = record {
  role = role;
  rom_id = none;
  value_c = none;
  last_valid_ms = none;
  age_ms = none;
  unavailable_since_ms = none;
  unavailable_age_ms = none;
  health = Health.missing;
  usable = false;
  present = none;
  invalid_readings = 0;
  failure_generation = 0;
  assignment_revision = revision;
  last_error = none;
}

module _ (settings : Settings) where
  abbrev pub health_by_age : ℤ → Health
  health_by_age age =
      if leb_ℤ (pos settings.failed_after_ms) age
      then Health.failed
      else if leb_ℤ (pos settings.stale_after_ms) age
      then Health.stale
      else Health.ok

  -- Age, age of unavailability and health of a reading.
  abbrev pub ages_of : Option ℕ → Option ℕ → ℕ → Result (Option ℤ × Option ℤ × Health)
  ages_of (some last_valid_ms) unavailable now_ms = do
    let age = settings.ticks_diff now_ms last_valid_ms
    require (leb_ℤ (pos 0) age) (value_error "now_ms precedes the last valid sample")
    ok (some age, none, health_by_age age)
  ages_of none none now_ms = ok (none, none, Health.missing)
  ages_of none (some since) now_ms = do
    let age = settings.ticks_diff now_ms since
    require (leb_ℤ (pos 0) age) (value_error "now_ms precedes sensor unavailability")
    ok (
      none,
      some age,
      (if leb_ℤ (pos settings.failed_after_ms) age then Health.failed else Health.missing),
    )

  -- The dictionary of an assigned sensor.
  abbrev pub assigned_snapshot : Reading → Role → ℕ → Option ℤ × Option ℤ × Health → Sensor
  assigned_snapshot r role revision ages = record {
    role = role;
    rom_id = some r.rom_id;
    value_c = r.value_c;
    last_valid_ms = r.last_valid_ms;
    age_ms = ages.0;
    unavailable_since_ms = r.unavailable_since_ms;
    unavailable_age_ms = ages.1;
    health = ages.2;
    usable = is_usable_health ages.2;
    present = r.present;
    invalid_readings = r.invalid_readings;
    failure_generation = r.failure_generation;
    assignment_revision = revision;
    last_error = r.last_error;
  }

  -- `_health_snapshot` of an assigned sensor.
  unfoldable pub reading_snapshot : Reading → Role → ℕ → ℕ → Result Sensor
  unfolding time_precedes_reading
  reading_snapshot r role revision now_ms = do
    require (not (time_precedes_reading settings r now_ms))
        (value_error "now_ms precedes sensor state")
    ages ← ages_of r.last_valid_ms r.unavailable_since_ms now_ms
    ok (assigned_snapshot r role revision ages)

  abbrev pub found_snapshot : Option Reading → Role → ℕ → ℕ → Result Sensor
  found_snapshot none role revision now_ms = err (key_error "rom_id")
  found_snapshot (some r) role revision now_ms = reading_snapshot r role revision now_ms

  abbrev pub snapshot_of : Option String → List Reading → Role → ℕ → ℕ → Result Sensor
  snapshot_of none readings role revision now_ms = ok (unassigned_snapshot role revision)
  snapshot_of (some rom_id) readings role revision now_ms =
      found_snapshot (find_reading rom_id readings) role revision now_ms

  unfoldable pub health_snapshot : Role → ℕ → Manager → Result Sensor
  unfolding reading_snapshot unassigned_snapshot
  health_snapshot role now_ms m =
      snapshot_of (get m.assignments role) m.readings role (get m.assignment_revisions role) now_ms

  -- The health is FAILED now and was not before: a new failure generation begins.
  abbrev pub begin_failure : Option String → Manager → Manager
  begin_failure none m = m
  begin_failure (some rom_id) m = record m {
    readings =
        change_reading rom_id (λ r. record r { failure_generation = r.failure_generation + 1 })
          m.readings;
  }

  abbrev pub failing : Sensor → Bool
  failing s = health_eq s.health Health.failed && is_some s.rom_id

  abbrev pub changed_health : Sensor → Health → ℕ → Manager → Manager
  changed_health s previous now_ms m =
      let d = record m { health = set m.health s.role s.health } in
      emit_event settings
        (record {
          at_ms = now_ms;
          role = s.role;
          rom_id = s.rom_id;
          previous = previous;
          current = s.health;
          age_ms = s.age_ms;
        })
        (if failing s then begin_failure s.rom_id d else d)

  -- The snapshot that is returned has the new generation.
  abbrev pub with_generation : Sensor → Sensor
  with_generation s =
      if failing s then record s { failure_generation = s.failure_generation + 1 } else s

  abbrev pub refreshed : Result Sensor → ℕ → Exec Manager Sensor
  refreshed (err e) now_ms m = (err e, m)
  refreshed (ok s) now_ms m =
      let previous = get m.health s.role in
      if health_eq s.health previous
      then (ok s, m)
      else (ok (with_generation s), changed_health s previous now_ms m)

  unfoldable pub refresh_role : Role → ℕ → Exec Manager Sensor
  unfolding health_snapshot emit_event
  refresh_role role now_ms m = refreshed (health_snapshot role now_ms m) now_ms m

  -- `sensor_snapshot`; that the role is known is its type.
  unfoldable pub sensor_snapshot : Role → ℕ → Exec Manager Sensor
  unfolding refresh_role
  sensor_snapshot role now_ms = refresh_role role now_ms
