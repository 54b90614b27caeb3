-- ===== src/Temperature/Consistent.antt =====
-- app/temperature_manager.py: the readings stay consistent under every operation.
use text.Mathlib.Text.{◌==◌ as str_eq}
use landy_heater.Prelude.{
  ℕ, ◌≡◌, refl, ◌∙◌, Bool, true, false, not, ◌&&◌, Option, none, some, List, [], ◌∷◌, String,
  if◌then◌else◌, is_some, is_none, map, Result, ok, err, value_error, length, >>=-ok, ok-eq, arith,
  Bool-cases, Result-cases, Option-cases, inl, inr, ◌+◌, ap, if_either,
}
use landy_heater.Prelude.Int.{ℤ}
use landy_heater.Prelude.Exec.{Exec, ◌>>=◌, pure, modify}
use landy_heater.Prelude.Keeps.{
  Keeps, Keeps-bind, Keeps-lift, Keeps-gets, Keeps-modify, Keeps-check, Keeps-choice,
}
use landy_heater.Heater.Types.{Role, Health, Reason, Sensor, message}
use landy_heater.Heater.Base.{health_eq}
use landy_heater.Temperature.Types.{
  ByRole, get, set, Settings, Reading, HealthEvent, Manager, empty, in_bounds,
  normalize_temperature, normalize_rom_id, new_reading, find_reading, change_reading, emit_event,
}
use landy_heater.Temperature.Assignments.{
  configure_assignments, normalize_assignments, readings_for, roms_of, normalize_assignment,
  with_used,
}
use landy_heater.Temperature.Snapshots.{
  health_snapshot, refresh_role, refreshed, sensor_snapshot, changed_health, begin_failure, failing,
}
use landy_heater.Temperature.Samples.{
  discover, fail_reading, take_sample, refresh_roles_for_rom, refresh_if, refresh_all,
  record_discovery, record_valid, record_failure, record_value, record_failed, record_sample,
  record_valid_of, record_failure_of, reason_of, is_assigned, any_precedes, normalize_discovered,
}

module _ (settings : Settings) where
  -- A reading has a ROM id; it has a value within the bounds exactly if it has a time of a valid sample, and then no
  -- time of unavailability.
  abbrev pub reading_ok : Reading → Bool
  reading_ok r =
      not (str_eq r.rom_id "")
      && (if is_some r.last_valid_ms
          then is_none r.unavailable_since_ms && elim r.value_c [
            | none ↦ false
            | some v ↦ in_bounds settings.minimum_temperature_c settings.maximum_temperature_c v
          ]
          else is_none r.value_c)

  abbrev pub all_ok : List Reading → Bool
  all_ok [] = true
  all_ok (r ∷ rest) = reading_ok r && all_ok rest

  abbrev pub IsConsistent : Manager → Type 0
  IsConsistent m = all_ok m.readings ≡ true

  pub find_reading-ok :
      (rom_id : String) (rs : List Reading) (r : Reading)
      → all_ok rs ≡ true
      → find_reading rom_id rs ≡ some r
      → reading_ok r ≡ true
  find_reading-ok rom_id [] r h e = cc
  find_reading-ok rom_id (x ∷ rs) r h e = ground (arith, find_reading-ok rom_id rs r)

  change_reading-ok :
      (rom_id : String) (f : Reading → Reading) (rs : List Reading)
      → ((r : Reading) → reading_ok r ≡ true → reading_ok (f r) ≡ true)
      → all_ok rs ≡ true
      → all_ok (change_reading rom_id f rs) ≡ true
  change_reading-ok rom_id f [] k h = refl
  change_reading-ok rom_id f (x ∷ rs) k h = ground (arith, k x, change_reading-ok rom_id f rs k)

  map-ok :
      (f : Reading → Reading) (rs : List Reading)
      → ((r : Reading) → reading_ok r ≡ true → reading_ok (f r) ≡ true)
      → all_ok rs ≡ true
      → all_ok (map f rs) ≡ true
  map-ok f [] k h = refl
  map-ok f (x ∷ rs) k h = ground (arith, k x, map-ok f rs k)

  discover-ok :
      (seen : List String) (t : ℕ) (r : Reading)
      → reading_ok r ≡ true
      → reading_ok (discover seen t r) ≡ true
  unfolding discover
  discover-ok seen t r h = ground arith

  fail_reading-ok :
      (t : ℕ) (x : Reason) (r : Reading)
      → reading_ok r ≡ true
      → reading_ok (fail_reading t x r) ≡ true
  unfolding fail_reading
  fail_reading-ok t x r h = ground arith

  take_sample-ok :
      (v : ℤ) (t : ℕ) (r : Reading)
      → in_bounds settings.minimum_temperature_c settings.maximum_temperature_c v ≡ true
      → reading_ok r ≡ true
      → reading_ok (take_sample v t r) ≡ true
  unfolding take_sample
  take_sample-ok v t r h k = ground arith

  abbrev all_named : List String → Bool
  all_named [] = true
  all_named (x ∷ rest) = not (str_eq x "") && all_named rest

  readings_for-ok :
      (m : Manager) (roms : List String)
      → IsConsistent m
      → all_named roms ≡ true
      → all_ok (readings_for m roms) ≡ true
  unfolding new_reading
  readings_for-ok m [] h k = refl
  readings_for-ok m (rom ∷ rest) h k = elim (Option-cases (find_reading rom m.readings)) [
    | inl n ↦ ground (arith, readings_for-ok m rest h)
    | inr (r, e) ↦ ground (arith, readings_for-ok m rest h, find_reading-ok rom m.readings r h e)
  ]

  normalize_rom_id-named : (x n : String) → normalize_rom_id x ≡ ok n → not (str_eq n "") ≡ true
  unfolding normalize_rom_id
  normalize_rom_id-named x n e = ground arith

  -- A ROM id that is used goes in front of those that have a text.
  named_more :
      (w : Option String) (used more : List String) (n : Option String)
      → normalize_assignment w used ≡ ok n
      → all_named more ≡ true
      → all_named (with_used n more) ≡ true
  named_more none used more n e h = rw (← ok-eq e) h
  named_more (some x) used more n e h = elim (Result-cases (normalize_rom_id x)) [
    | inl (y, p) ↦ ground (arith, normalize_rom_id-named x y p)
    | inr (y, p) ↦ ground arith
  ]

  normalized_named :
      (w n : ByRole (Option String)) → normalize_assignments w ≡ ok n → all_named (roms_of n) ≡ true
  unfolding normalize_assignments
  normalized_named w n e =
      let (a, k1, e1) = >>=-ok (normalize_assignment w.roof_tent []) _ n e in
      let (b, k2, e2) = >>=-ok (normalize_assignment w.cabin (with_used a [])) _ n k1 in
      let (c, k3, e3) =
        >>=-ok (normalize_assignment w.outside (with_used b (with_used a []))) _ n k2 in
      rw (← ok-eq k3) (
        named_more w.roof_tent [] (with_used b (with_used c [])) a e1 (
          named_more w.cabin (with_used a []) (with_used c []) b e2
            (named_more w.outside (with_used b (with_used a [])) [] c e3 refl)))

  configure-IsConsistent :
      (w : ByRole (Option String)) (m : Manager)
      → IsConsistent m
      → IsConsistent (configure_assignments w m).1
  unfolding configure_assignments
  configure-IsConsistent w m h = elim (Result-cases (normalize_assignments w)) [
    | inl (n, e) ↦ ground (arith, readings_for-ok m (roms_of n) h (normalized_named w n e))
    | inr (x, e) ↦ ground arith
  ]

  emit_event-readings :
      (e : HealthEvent) (m : Manager) → (emit_event settings e m).readings ≡ m.readings
  unfolding emit_event
  emit_event-readings e m = ground arith

  begin_failure-ok :
      (rom_id : Option String) (m : Manager)
      → IsConsistent m
      → IsConsistent (begin_failure settings rom_id m)
  begin_failure-ok none m h = h
  begin_failure-ok (some rom_id) m h =
      change_reading-ok rom_id (λ r. record r { failure_generation = r.failure_generation + 1 })
        m.readings (λ r k. k) h

  changed_health-IsConsistent :
      (s : Sensor) (previous : Health) (t : ℕ) (m : Manager)
      → IsConsistent m
      → IsConsistent (changed_health settings s previous t m)
  changed_health-IsConsistent s previous t m h =
      let d = record m { health = set m.health s.role s.health } in
      let k = if_either IsConsistent (failing settings s) (begin_failure-ok s.rom_id d h) h in
      ap (all_ok) (
        emit_event-readings _ (if failing settings s then begin_failure settings s.rom_id d else d))
      ∙ k

  refreshed-IsConsistent :
      (r : Result Sensor) (t : ℕ) (m : Manager)
      → IsConsistent m
      → IsConsistent (refreshed settings r t m).1
  refreshed-IsConsistent (err e) t m h = h
  refreshed-IsConsistent (ok s) t m h =
      if_either (λ (x : Result Sensor × Manager). IsConsistent x.1)
        (health_eq s.health (get m.health s.role)) h
        (changed_health-IsConsistent s (get m.health s.role) t m h)

  refresh_role-Keeps : (role : Role) (t : ℕ) → Keeps IsConsistent (refresh_role settings role t)
  unfolding refresh_role
  refresh_role-Keeps role t = record {
    from = λ m h. refreshed-IsConsistent (health_snapshot settings role t m) t m h;
  }

  -- A part of a method and the rest.
  then-Keeps :
      {A B : Type 0} (f : Exec Manager A) (g : A → Exec Manager B)
      → Keeps IsConsistent f
      → ((a : A) → Keeps IsConsistent (g a))
      → Keeps IsConsistent (f >>= g)
  then-Keeps f g k l = Keeps-bind IsConsistent f g k l

  done : {A : Type 0} (a : A) → let f : Exec Manager A = pure a in Keeps IsConsistent f
  done a = record { from = λ m h. h }

  refresh_if-Keeps :
      (rom_id : String) (t : ℕ) (role : Role)
      → Keeps IsConsistent (refresh_if settings rom_id t role)
  refresh_if-Keeps rom_id t role = record {
    from = λ m h.
        if_either (λ (x : Result (Unit {0}) × Manager). IsConsistent x.1)
          (is_assigned rom_id (get m.assignments role))
          ((then-Keeps (refresh_role settings role t) (λ s. pure tt) (refresh_role-Keeps role t)
              (λ s. done tt)).from
            m h)
          h;
  }

  refresh_roles-Keeps :
      (rom_id : String) (t : ℕ) → Keeps IsConsistent (refresh_roles_for_rom settings rom_id t)
  unfolding refresh_roles_for_rom
  refresh_roles-Keeps rom_id t = then-Keeps _ _ (refresh_if-Keeps rom_id t Role.roof_tent) (λ _.
      then-Keeps _ _ (refresh_if-Keeps rom_id t Role.cabin)
        (λ _. refresh_if-Keeps rom_id t Role.outside))

  refresh_all-Keeps : (t : ℕ) → Keeps IsConsistent (refresh_all settings t)
  unfolding refresh_all
  refresh_all-Keeps t = then-Keeps _ _ (refresh_role-Keeps Role.roof_tent t) (λ a.
      then-Keeps _ _ (refresh_role-Keeps Role.cabin t)
        (λ b. then-Keeps _ _ (refresh_role-Keeps Role.outside t) (λ c. done _)))

  change-Keeps :
      (rom_id : String) (f : Reading → Reading)
      → ((r : Reading) → reading_ok r ≡ true → reading_ok (f r) ≡ true)
      → Keeps IsConsistent
          (modify (λ (m : Manager). record m { readings = change_reading rom_id f m.readings }))
  change-Keeps rom_id f k =
      Keeps-modify IsConsistent _ (λ m h. change_reading-ok rom_id f m.readings k h)

  discover-Keeps :
      (seen : List String) (t : ℕ)
      → Keeps IsConsistent (
          modify (λ (m : Manager). record m {
            discovered = seen;
            readings = map (discover seen t) m.readings;
          }))
  discover-Keeps seen t =
      Keeps-modify IsConsistent _
        (λ m h. map-ok (discover seen t) m.readings (discover-ok seen t) h)

  failed-Keeps :
      (rom_id : String) (t : ℕ) (x : Reason) (b : Bool)
      → Keeps IsConsistent (record_failed settings rom_id t x b)
  failed-Keeps rom_id t x b =
      then-Keeps _ _ (change-Keeps rom_id (fail_reading t x) (fail_reading-ok t x))
        (λ _. then-Keeps _ _ (refresh_roles-Keeps rom_id t) (λ _. done b))

  value-Keeps :
      (rom_id : String) (r : Reading) (v : ℤ) (t : ℕ)
      → in_bounds settings.minimum_temperature_c settings.maximum_temperature_c v ≡ true
      → Keeps IsConsistent (record_value settings rom_id r v t)
  value-Keeps rom_id r v t h =
      then-Keeps _ _ (Keeps-choice IsConsistent _ (refresh_roles-Keeps rom_id t) (done tt)) (λ _.
        then-Keeps _ _ (change-Keeps rom_id (take_sample v t) (λ r. take_sample-ok v t r h))
          (λ _. then-Keeps _ _ (refresh_roles-Keeps rom_id t) (λ _. done true)))

  sample-Keeps :
      (rom_id : String) (r : Reading) (v : Option ℤ) (t : ℕ)
      → Keeps IsConsistent (
          record_sample settings rom_id r
            (normalize_temperature v settings.minimum_temperature_c settings.maximum_temperature_c)
            t)
  sample-Keeps rom_id r none t = failed-Keeps rom_id t _ false
  sample-Keeps rom_id r (some v) t =
      elim (Bool-cases
        (in_bounds settings.minimum_temperature_c settings.maximum_temperature_c v)) [
          | inl y ↦ rw y (value-Keeps rom_id r v t y)
          | inr n ↦ rw n (failed-Keeps rom_id t _ false)
        ]

  record_valid_of-Keeps :
      (o : Option Reading) (rom_id : String) (v : Option ℤ) (t : ℕ)
      → Keeps IsConsistent (record_valid_of settings o rom_id v t)
  record_valid_of-Keeps none rom_id v t = done false
  record_valid_of-Keeps (some r) rom_id v t =
      Keeps-choice IsConsistent _ (done false) (sample-Keeps rom_id r v t)

  record_failure_of-Keeps :
      (o : Option Reading) (rom_id x : String) (t : ℕ)
      → Keeps IsConsistent (record_failure_of settings o rom_id x t)
  record_failure_of-Keeps none rom_id x t = done false
  record_failure_of-Keeps (some r) rom_id x t =
      Keeps-choice IsConsistent _ (done false) (
        then-Keeps _ _ (Keeps-check IsConsistent _ _) (λ _. failed-Keeps rom_id t (message x) true))

  -- Consistency is an invariant of the manager: it holds of the empty one, and the configuration of
  -- the assignments, a discovery, a sample, a failure and a snapshot keep it, also where they raise.
  pub operations_keep_readings :
      IsConsistent empty
      × ((m : Manager)
          → IsConsistent m
          → ((w : ByRole (Option String)) → IsConsistent (configure_assignments w m).1)
            × ((roms : List String) (t : ℕ) → IsConsistent (record_discovery settings roms t m).1)
            × ((rom_id : String) (v : Option ℤ) (t : ℕ)
                → IsConsistent (record_valid settings rom_id v t m).1)
            × ((rom_id : String) (t : ℕ) (x : Option String)
                → IsConsistent (record_failure settings rom_id t x m).1)
            × ((role : Role) (t : ℕ) → IsConsistent (sensor_snapshot settings role t m).1))
  unfolding empty record_discovery record_valid record_failure sensor_snapshot
  operations_keep_readings = (
    refl,
    λ m h. (
      λ w. configure-IsConsistent w m h,
      λ roms t.
          (then-Keeps _ _ (Keeps-check IsConsistent _ _) (λ _.
              then-Keeps _ _ (Keeps-lift IsConsistent (normalize_discovered roms [])) (λ n.
                then-Keeps _ _ (Keeps-gets IsConsistent (λ (m : Manager). m)) (λ k.
                  then-Keeps _ _
                    (Keeps-check IsConsistent (not (any_precedes settings k.readings t))
                      (value_error "discovery time precedes sensor state"))
                    (λ _.
                      then-Keeps _ _ (discover-Keeps n t)
                        (λ _. then-Keeps _ _ (refresh_all-Keeps t) (λ _. done (length n)))))))).from
            m h,
      λ rom_id v t.
          (then-Keeps _ _ (Keeps-lift IsConsistent (normalize_rom_id rom_id)) (λ n.
              then-Keeps _ _ (Keeps-gets IsConsistent (λ (m : Manager). m))
                (λ k. record_valid_of-Keeps (find_reading n k.readings) n v t))).from
            m h,
      λ rom_id t x.
          (then-Keeps _ _ (Keeps-lift IsConsistent (normalize_rom_id rom_id)) (λ n.
              then-Keeps _ _ (Keeps-gets IsConsistent (λ (m : Manager). m)) (λ k.
                record_failure_of-Keeps (find_reading n k.readings) n (reason_of settings x)
                  t))).from
            m h,
      λ role t. (refresh_role-Keeps role t).from m h,
    ),
  )
