-- ===== src/Temperature/Accepted.antt =====
-- app/temperature_manager.py and app/heater_controller.py: the controller accepts what the manager
-- answers.
use text.Mathlib.Text.{◌==◌ as str_eq}
use landy_heater.Prelude.{
  ℕ, ◌≡◌, refl, Bool, true, false, not, Option, none, some, List, String, ◌+◌, if_either,
  if◌then◌else◌, Result, ok, err, arith, Bool-cases, Option-cases, ◌||◌, require-ok, ok-eq, >>=-ok,
  sym, value_error, inl, inr,
}
use landy_heater.Prelude.Int.{ℤ, pos, leb_ℤ, eq_ℤ, negsuc}
use landy_heater.Heater.Types.{Role, Health, Sensor, Config, Port}
use landy_heater.Heater.Base.{role_eq, health_eq}
use landy_heater.Heater.Sensors.{
  canonical_sensor_snapshot, health_of_reading, health_of_unavailable, read_active_sensor,
}
use landy_heater.Temperature.Types.{
  in_bounds, get, Settings, Reading, Manager, find_reading, time_precedes_reading,
}
use landy_heater.Temperature.Snapshots.{
  assigned_snapshot, ages_of, health_by_age, unassigned_snapshot, snapshot_of, refreshed,
  refresh_role, health_snapshot, sensor_snapshot, reading_snapshot, failing, with_generation,
}
use landy_heater.Temperature.Consistent.{reading_ok, IsConsistent, find_reading-ok, all_ok}

-- The controller takes its limits from the manager and shares its clock.
pub record Agrees (settings : Settings) (config : Config) (port : Port) : Type 0 where
  pub clock : port.ticks_diff ≡ settings.ticks_diff
  pub stale : config.sensor_stale_after_ms ≡ settings.stale_after_ms
  pub failed : config.sensor_failed_after_ms ≡ settings.failed_after_ms
  pub minimum : config.sensor_minimum_temperature_c ≡ settings.minimum_temperature_c
  pub maximum : config.sensor_maximum_temperature_c ≡ settings.maximum_temperature_c

module _ (settings : Settings) (config : Config) (port : Port)
    (agrees : Agrees settings config port) where
  role_eq_refl : (role : Role) → role_eq role role ≡ true
  role_eq_refl Role.roof_tent = refl
  role_eq_refl Role.cabin = refl
  role_eq_refl Role.outside = refl

  health_eq_refl : (health : Health) → health_eq health health ≡ true
  health_eq_refl Health.ok = refl
  health_eq_refl Health.stale = refl
  health_eq_refl Health.failed = refl
  health_eq_refl Health.missing = refl

  eq_ℤ_refl : (a : ℤ) → eq_ℤ a a ≡ true
  eq_ℤ_refl (pos n) = ground arith
  eq_ℤ_refl (negsuc n) = ground arith

  abbrev timed : Reading → Option ℤ → Option ℕ → Option ℕ → Reading
  timed r value last since = record r {
    value_c = value;
    last_valid_ms = last;
    unavailable_since_ms = since;
  }

  if_self : (b : Bool) → (if b then b else not b) ≡ true
  if_self true = refl
  if_self false = refl

  not_or_true : (b : Bool) → (not b || true) ≡ true
  not_or_true true = refl
  not_or_true false = refl

  -- What the controller is to answer.
  abbrev Accepts : Role → ℕ → Sensor → Type 0
  Accepts role t s = canonical_sensor_snapshot config port s role t ≡ ok s

  known-Accepts :
      (r : Reading) (role : Role) (n t : ℕ) (v : ℤ) (l : ℕ) (age : ℤ)
      → settings.ticks_diff t l ≡ age
      → leb_ℤ (pos 0) age ≡ true
      → not (str_eq r.rom_id "") ≡ true
      → in_bounds settings.minimum_temperature_c settings.maximum_temperature_c v ≡ true
      → Accepts role t (
          assigned_snapshot settings
            (timed r (some v) (some l) none)
            role
            n
            (some age, none, health_by_age settings age))
  unfolding canonical_sensor_snapshot health_of_reading
  known-Accepts r role n t v l age tick valid named bounded =
      rw
        (
          role_eq_refl role,
          named,
          agrees.minimum,
          agrees.maximum,
          bounded,
          valid,
          agrees.clock,
          tick,
          valid,
          eq_ℤ_refl age,
          agrees.failed,
          agrees.stale,
          health_eq_refl,
          if_self,
          not_or_true,
        )
        refl

  absent-Accepts :
      (r : Reading) (role : Role) (n t : ℕ)
      → not (str_eq r.rom_id "") ≡ true
      → Accepts role t
          (assigned_snapshot settings (timed r none none none) role n (none, none, Health.missing))
  unfolding canonical_sensor_snapshot health_of_unavailable
  absent-Accepts r role n t named = rw (role_eq_refl role, named) refl

  unavailable-Accepts :
      (r : Reading) (role : Role) (n t u : ℕ) (age : ℤ)
      → settings.ticks_diff t u ≡ age
      → leb_ℤ (pos 0) age ≡ true
      → not (str_eq r.rom_id "") ≡ true
      → Accepts role t (
          assigned_snapshot settings (timed r none none (some u)) role n (
            none,
            some age,
            (if leb_ℤ (pos settings.failed_after_ms) age then Health.failed else Health.missing),
          ))
  unfolding canonical_sensor_snapshot health_of_unavailable
  unavailable-Accepts r role n t u age tick valid named =
      elim (Bool-cases (leb_ℤ (pos settings.failed_after_ms) age)) [
        | inl late ↦
            rw
              (
                role_eq_refl role,
                named,
                agrees.clock,
                tick,
                valid,
                eq_ℤ_refl age,
                agrees.failed,
                late,
              )
              refl
        | inr early ↦
            rw
              (
                role_eq_refl role,
                named,
                agrees.clock,
                tick,
                valid,
                eq_ℤ_refl age,
                agrees.failed,
                early,
              )
              refl
      ]

  fields-Accepts :
      (r : Reading) (role : Role) (n t : ℕ) (value : Option ℤ) (last since : Option ℕ)
      (ages : Option ℤ × Option ℤ × Health)
      → reading_ok settings (timed r value last since) ≡ true
      → ages_of settings last since t ≡ ok ages
      → Accepts role t (assigned_snapshot settings (timed r value last since) role n ages)
  fields-Accepts r role n t (some v) (some l) none ages h e =
      let (valid, known) =
        require-ok (leb_ℤ (pos 0) (settings.ticks_diff t l))
          (value_error "now_ms precedes the last valid sample") _ ages e in
      rw (sym (ok-eq known))
        (known-Accepts r role n t v l _ refl valid (ground arith) (ground arith))
  fields-Accepts r role n t none none none ages h e =
      rw (sym (ok-eq e)) (absent-Accepts r role n t (ground arith))
  fields-Accepts r role n t none none (some u) ages h e =
      let (valid, unavailable) =
        require-ok (leb_ℤ (pos 0) (settings.ticks_diff t u))
          (value_error "now_ms precedes sensor unavailability") _ ages e in
      rw (sym (ok-eq unavailable)) (unavailable-Accepts r role n t u _ refl valid (ground arith))
  fields-Accepts r role n t (some v) none since ages h e = ground arith
  fields-Accepts r role n t none (some l) since ages h e = ground arith
  fields-Accepts r role n t (some v) (some l) (some u) ages h e = ground arith

  -- A reading's snapshot, whatever its failure generation.
  reading-Accepts :
      (r : Reading) (role : Role) (n t k : ℕ) (s : Sensor)
      → reading_ok settings r ≡ true
      → reading_snapshot settings r role n t ≡ ok s
      → Accepts role t (record s { failure_generation = k })
  unfolding reading_snapshot
  reading-Accepts r role n t k s h e =
      let (_, present) =
        require-ok (not (time_precedes_reading settings r t))
          (value_error "now_ms precedes sensor state") _ s e in
      let (ages, end, counted) =
        >>=-ok (ages_of settings r.last_valid_ms r.unavailable_since_ms t) _ s present in
      rw (sym (ok-eq end)) (
        fields-Accepts (record r { failure_generation = k }) role n t r.value_c r.last_valid_ms
          r.unavailable_since_ms ages h counted)

  unassigned-Accepts :
      (role : Role) (n t k : ℕ)
      → Accepts role t (record (unassigned_snapshot role n) { failure_generation = k })
  unfolding unassigned_snapshot canonical_sensor_snapshot health_of_unavailable
  unassigned-Accepts role n t k = rw (role_eq_refl role) refl

  snapshot-Accepts :
      (rom_id : Option String) (readings : List Reading) (role : Role) (n t k : ℕ) (s : Sensor)
      → all_ok settings readings ≡ true
      → snapshot_of settings rom_id readings role n t ≡ ok s
      → Accepts role t (record s { failure_generation = k })
  snapshot-Accepts none readings role n t k s h e =
      rw (sym (ok-eq e)) (unassigned-Accepts role n t k)
  snapshot-Accepts (some rom_id) readings role n t k s h e =
      elim (Option-cases (find_reading rom_id readings)) [
        | inl missing ↦ cc
        | inr (r, found) ↦
            reading-Accepts r role n t k s (find_reading-ok settings rom_id readings r h found)
              (ground arith)
      ]

  refreshed-Accepts :
      (role : Role) (t : ℕ) (m : Manager) (r : Result Sensor) (s : Sensor)
      → ((d : Sensor) (k : ℕ) → r ≡ ok d → Accepts role t (record d { failure_generation = k }))
      → (refreshed settings r t m).0 ≡ ok s
      → Accepts role t s
  refreshed-Accepts role t m (err x) s h e = cc
  refreshed-Accepts role t m (ok d) s h e =
      if_either (λ (p : Result Sensor × Manager). p.0 ≡ ok s → Accepts role t s)
        (health_eq d.health (get m.health d.role))
        (λ same. rw (sym (ok-eq {a = d} same)) (h d d.failure_generation refl))
        (λ changed. rw (sym (ok-eq {a = with_generation settings d} changed)) (
          if_either (Accepts role t) (failing settings d) (h d (d.failure_generation + 1) refl)
            (h d d.failure_generation refl)))
        e

  -- Composition: a consistent manager answers the controller only with snapshots that the controller takes as they are.
  pub accepted :
      (m : Manager) (role : Role) (t : ℕ) (s : Sensor)
      → IsConsistent settings m
      → (sensor_snapshot settings role t m).0 ≡ ok s
      → read_active_sensor config port
          (some (λ role t. (sensor_snapshot settings role t m).0))
          role
          t
        ≡ s
  unfolding read_active_sensor sensor_snapshot refresh_role health_snapshot
  accepted m role t s h e = rw (e, accepted_by) refl
    where
      accepted_by : Accepts role t s
      accepted_by =
          refreshed-Accepts role t m (health_snapshot settings role t m) s
            (λ d k.
              snapshot-Accepts (get m.assignments role) m.readings role
                (get m.assignment_revisions role) t k d h)
            e
