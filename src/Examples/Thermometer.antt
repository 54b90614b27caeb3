-- ===== src/Examples/Thermometer.antt =====
-- The temperature manager with one sensor, and the controller of Examples/Control.
use landy_heater.Prelude.{ℕ, ◌≡◌, refl, ◌∷◌, [], List, String, Option, true, false, none, some, ok}
use landy_heater.Prelude.Int.{ℤ, pos, sub_ℕ}
use landy_heater.Heater.Types.{Role, Health, Sensor}
use landy_heater.Heater.Sensors.{read_active_sensor}
use landy_heater.Temperature.Types.{
  ByRole, Settings, Reading, Manager, empty, every, time_precedes_reading, emit_event,
}
use landy_heater.Temperature.Assignments.{configure_assignments}
use landy_heater.Temperature.Samples.{record_discovery, record_valid, record_failure}
use landy_heater.Temperature.Snapshots.{
  sensor_snapshot, refresh_role, health_snapshot, reading_snapshot,
}
use landy_heater.Temperature.Consistent.{IsConsistent, operations_keep_readings}
use landy_heater.Temperature.Accepted.{Agrees, accepted}
use landy_heater.Examples.Control.{config, port}

abbrev settings : Settings
settings = record {
  ticks_diff = λ a b. sub_ℕ a b;
  stale_after_ms = 10000;
  failed_after_ms = 30000;
  event_capacity = 4;
  max_discovered_sensors = 4;
  minimum_temperature_c = pos 0;
  maximum_temperature_c = pos 2000;
}

operations_keep_readings_example :
    IsConsistent settings empty
    × ((m : Manager)
        → IsConsistent settings m
        → ((w : ByRole (Option String)) → IsConsistent settings (configure_assignments w m).1)
          × ((roms : List String) (t : ℕ)
              → IsConsistent settings (record_discovery settings roms t m).1)
          × ((rom_id : String) (v : Option ℤ) (t : ℕ)
              → IsConsistent settings (record_valid settings rom_id v t m).1)
          × ((rom_id : String) (t : ℕ) (x : Option String)
              → IsConsistent settings (record_failure settings rom_id t x m).1)
          × ((role : Role) (t : ℕ) → IsConsistent settings (sensor_snapshot settings role t m).1))
operations_keep_readings_example = operations_keep_readings settings

abbrev reading : Reading
reading = record {
  rom_id = "28-1";
  value_c = some (pos 320);
  last_valid_ms = some 600;
  unavailable_since_ms = none;
  last_failure_ms = none;
  last_update_ms = some 600;
  last_error = none;
  invalid_readings = 0;
  failure_generation = 0;
  present = some true;
}

-- A manager whose one sensor, in the cabin, sent 20 degrees.
abbrev warm : Manager
warm = record {
  assignments = record { roof_tent = none; cabin = some "28-1"; outside = none };
  assignment_revisions = record { roof_tent = 0; cabin = 1; outside = 0 };
  readings = reading ∷ [];
  discovered = "28-1" ∷ [];
  health = every Health.missing;
  events = [];
  events_dropped = 0;
}

-- What it answers 40 seconds later: the sensor has failed, and a first failure generation begins.
abbrev failed : Sensor
failed = record {
  role = Role.cabin;
  rom_id = some "28-1";
  value_c = some (pos 320);
  last_valid_ms = some 600;
  age_ms = some (pos 40000);
  unavailable_since_ms = none;
  unavailable_age_ms = none;
  health = Health.failed;
  usable = false;
  present = some true;
  invalid_readings = 0;
  failure_generation = 1;
  assignment_revision = 1;
  last_error = none;
}

answers : (sensor_snapshot settings Role.cabin 40600 warm).0 ≡ ok failed
unfolding sensor_snapshot refresh_role health_snapshot reading_snapshot time_precedes_reading
    emit_event
answers = refl

agrees : Agrees settings config port
agrees = record { clock = refl; stale = refl; failed = refl; minimum = refl; maximum = refl }

accepted_example :
    read_active_sensor config port
      (some (λ role t. (sensor_snapshot settings role t warm).0))
      Role.cabin
      40600
    ≡ failed
accepted_example = accepted settings config port agrees warm Role.cabin 40600 failed refl answers
