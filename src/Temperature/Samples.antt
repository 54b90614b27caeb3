-- ===== src/Temperature/Samples.antt =====
-- app/temperature_manager.py: what the adapter reports: discoveries, samples and failures.
use text.Mathlib.Text.{◌==◌ as str_eq}
use landy_heater.Prelude.{
  ℕ, ◌+◌, Bool, true, false, not, ◌&&◌, ◌||◌, Option, none, some, List, [], ◌∷◌, String, leb,
  if◌then◌else◌, length, is_none, map, Result, ok, err, value_error,
}
use landy_heater.Prelude.Int.{ℤ, pos, leb_ℤ}
use landy_heater.Prelude.Exec.{Exec, pure, lift, gets, modify, check, ◌>>=◌, ◌>>◌}
use landy_heater.Prelude.Texts.{text_length}
use landy_heater.Heater.Types.{Role, Reason, message, Sensor}
use landy_heater.Temperature.Types.{
  ByRole, get, Settings, Reading, Manager, normalize_rom_id, normalize_temperature, find_reading,
  change_reading, is_listed, time_precedes_reading, max_error_length,
}
use landy_heater.Temperature.Snapshots.{refresh_role}

-- The loop of `record_discovery` over the ROM ids, behind those seen already.
unfoldable pub normalize_discovered : List String → List String → Result (List String)
unfolding normalize_rom_id
normalize_discovered [] seen = ok []
normalize_discovered (rom_id ∷ rest) seen = elim (normalize_rom_id rom_id) [
  | err e ↦ err e
  | ok normal ↦ elim (is_listed normal seen) [
    | true ↦ err (value_error "duplicate discovered ROM ID")
    | false ↦ elim (normalize_discovered rest (normal ∷ seen)) [
      | err e ↦ err e
      | ok normals ↦ ok (normal ∷ normals)
    ]
  ]
]

-- What a finished scan changes in a reading.
unfoldable pub discover : List String → ℕ → Reading → Reading
discover seen now_ms r =
    let present = is_listed r.rom_id seen in
    record r {
      present = some present;
      unavailable_since_ms =
          if not present && is_none r.last_valid_ms && is_none r.unavailable_since_ms
          then some now_ms
          else r.unavailable_since_ms;
      last_update_ms = some now_ms;
    }

-- `_record_failure`
unfoldable pub fail_reading : ℕ → Reason → Reading → Reading
fail_reading now_ms reason r = record r {
  unavailable_since_ms =
      if is_none r.last_valid_ms && is_none r.unavailable_since_ms
      then some now_ms
      else r.unavailable_since_ms;
  invalid_readings = r.invalid_readings + 1;
  last_failure_ms = some now_ms;
  last_update_ms = some now_ms;
  last_error = some reason;
}

-- What a valid sample changes in a reading.
unfoldable pub take_sample : ℤ → ℕ → Reading → Reading
take_sample value now_ms r = record r {
  value_c = some value;
  last_valid_ms = some now_ms;
  unavailable_since_ms = none;
  last_update_ms = some now_ms;
  last_error = none;
  present = some true;
}

abbrev pub is_assigned : String → Option String → Bool
is_assigned rom_id none = false
is_assigned rom_id (some r) = str_eq r rom_id

-- The time from which a failure is counted.
abbrev pub anchor_of : Reading → Option ℕ
anchor_of r = elim r.last_valid_ms [ some t ↦ some t | none ↦ r.unavailable_since_ms ]

module _ (settings : Settings) where
  abbrev pub refresh_if : String → ℕ → Role → Exec Manager (Unit {0})
  refresh_if rom_id now_ms role m =
      if is_assigned rom_id (get m.assignments role)
      then (refresh_role settings role now_ms >>= λ s. pure tt) m
      else (ok tt, m)

  unfoldable pub refresh_roles_for_rom : String → ℕ → Exec Manager (Unit {0})
  unfolding refresh_role
  refresh_roles_for_rom rom_id now_ms = do
    refresh_if rom_id now_ms Role.roof_tent
    refresh_if rom_id now_ms Role.cabin
    refresh_if rom_id now_ms Role.outside

  unfoldable pub refresh_all : ℕ → Exec Manager (ByRole Sensor)
  unfolding refresh_role
  refresh_all now_ms = do
    roof_tent ← refresh_role settings Role.roof_tent now_ms
    cabin ← refresh_role settings Role.cabin now_ms
    outside ← refresh_role settings Role.outside now_ms
    pure (record { roof_tent = roof_tent; cabin = cabin; outside = outside })

  abbrev pub any_precedes : List Reading → ℕ → Bool
  any_precedes [] now_ms = false
  any_precedes (r ∷ rest) now_ms =
      time_precedes_reading settings r now_ms || any_precedes rest now_ms

  unfoldable pub record_discovery : List String → ℕ → Exec Manager ℕ
  unfolding normalize_discovered discover refresh_all time_precedes_reading
  record_discovery rom_ids now_ms = do
    check (leb (length rom_ids) settings.max_discovered_sensors)
        (value_error "too many discovered sensors")
    normalized ← lift (normalize_discovered rom_ids [])
    m ← gets (λ m. m)
    check (not (any_precedes m.readings now_ms))
        (value_error "discovery time precedes sensor state")
    modify (λ m. record m {
      discovered = normalized;
      readings = map (discover normalized now_ms) m.readings;
    })
    sensors ← refresh_all now_ms
    pure (length normalized)

  -- A sample within the bounds. A failure interval that ends with it is noted first.
  abbrev pub record_value : String → Reading → ℤ → ℕ → Exec Manager Bool
  record_value rom_id r value now_ms = do
    (if elim (anchor_of r) [
      | none ↦ false
      | some anchor ↦ leb_ℤ (pos settings.failed_after_ms) (settings.ticks_diff now_ms anchor)
    ]
        then refresh_roles_for_rom rom_id now_ms
        else pure tt)
    modify
        (λ m. record m { readings = change_reading rom_id (take_sample value now_ms) m.readings })
    refresh_roles_for_rom rom_id now_ms
    pure true

  abbrev pub record_failed : String → ℕ → Reason → Bool → Exec Manager Bool
  record_failed rom_id now_ms reason result = do
    modify
        (λ m. record m { readings = change_reading rom_id (fail_reading now_ms reason) m.readings })
    refresh_roles_for_rom rom_id now_ms
    pure result

  -- The part of `record_valid` behind the test of the value.
  abbrev pub record_sample : String → Reading → Option ℤ → ℕ → Exec Manager Bool
  record_sample rom_id r none now_ms =
      record_failed rom_id now_ms (message "invalid temperature value") false
  record_sample rom_id r (some value) now_ms = record_value rom_id r value now_ms

  abbrev pub record_valid_of : Option Reading → String → Option ℤ → ℕ → Exec Manager Bool
  record_valid_of none rom_id value_c now_ms = pure false
  record_valid_of (some r) rom_id value_c now_ms =
      if time_precedes_reading settings r now_ms
      then pure false
      else record_sample rom_id r
          (normalize_temperature value_c settings.minimum_temperature_c
            settings.maximum_temperature_c)
          now_ms

  unfoldable pub record_valid : String → Option ℤ → ℕ → Exec Manager Bool
  unfolding normalize_rom_id time_precedes_reading take_sample fail_reading refresh_roles_for_rom
  record_valid rom_id value_c now_ms = do
    normal ← lift (normalize_rom_id rom_id)
    m ← gets (λ m. m)
    record_valid_of (find_reading normal m.readings) normal value_c now_ms

  abbrev pub reason_of : Option String → String
  reason_of none = "sensor read failed"
  reason_of (some text) = text

  abbrev pub record_failure_of : Option Reading → String → String → ℕ → Exec Manager Bool
  record_failure_of none rom_id reason now_ms = pure false
  record_failure_of (some r) rom_id reason now_ms =
      if time_precedes_reading settings r now_ms then pure false else (do
        check (not (str_eq reason "") && leb (text_length reason) max_error_length)
            (value_error "failure reason must be a bounded string")
        record_failed rom_id now_ms (message reason) true)

  unfoldable pub record_failure : String → ℕ → Option String → Exec Manager Bool
  unfolding normalize_rom_id time_precedes_reading fail_reading refresh_roles_for_rom
  record_failure rom_id now_ms reason = do
    normal ← lift (normalize_rom_id rom_id)
    m ← gets (λ m. m)
    record_failure_of (find_reading normal m.readings) normal (reason_of reason) now_ms

  unfoldable pub drain_events : Manager → Manager
  drain_events m = record m { events = [] }
