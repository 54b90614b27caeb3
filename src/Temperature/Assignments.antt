-- ===== src/Temperature/Assignments.antt =====
-- app/temperature_manager.py: `configure_assignments`.
use text.Mathlib.Text.{◌==◌ as str_eq}
use landy_heater.Prelude.{
  ℕ, ◌+◌, Bool, true, false, not, Option, none, some, List, [], ◌∷◌, String, if◌then◌else◌, Result,
  ok, err, value_error, ◌>>=◌, ◌>>◌, require,
}
use landy_heater.Temperature.Types.{
  ByRole, Reading, Manager, normalize_rom_id, new_reading, find_reading, is_listed,
}

-- A role's ROM id, behind those that are used already.
abbrev pub normalize_assignment : Option String → List String → Result (Option String)
normalize_assignment none used = ok none
normalize_assignment (some rom_id) used = do
  normal ← normalize_rom_id rom_id
  require (not (is_listed normal used)) (value_error "one ROM ID cannot be assigned twice")
  ok (some normal)

abbrev pub with_used : Option String → List String → List String
with_used none used = used
with_used (some rom_id) used = rom_id ∷ used

-- The loop over the roles. That the roles are known and at most three is the type of a `ByRole`.
unfoldable pub normalize_assignments : ByRole (Option String) → Result (ByRole (Option String))
unfolding normalize_rom_id
normalize_assignments wanted = do
  roof_tent ← normalize_assignment wanted.roof_tent []
  cabin ← normalize_assignment wanted.cabin (with_used roof_tent [])
  outside ← normalize_assignment wanted.outside (with_used cabin (with_used roof_tent []))
  ok (record { roof_tent = roof_tent; cabin = cabin; outside = outside })

abbrev pub roms_of : ByRole (Option String) → List String
roms_of d = with_used d.roof_tent (with_used d.cabin (with_used d.outside []))

-- The reading of an assigned sensor: the old one, or a new one.
abbrev pub kept_reading : Manager → String → Reading
kept_reading m rom_id = elim (find_reading rom_id m.readings) [
  | some r ↦ r
  | none ↦ record (new_reading rom_id) {
    present = elim m.discovered [ [] ↦ none | _ ↦ some (is_listed rom_id m.discovered) ];
  }
]

abbrev pub readings_for : Manager → List String → List Reading
readings_for m [] = []
readings_for m (rom_id ∷ rest) = kept_reading m rom_id ∷ readings_for m rest

abbrev pub same_rom : Option String → Option String → Bool
same_rom none none = true
same_rom (some a) (some b) = str_eq a b
same_rom _ _ = false

abbrev pub next_revision : Option String → Option String → ℕ → ℕ
next_revision old new revision = if same_rom old new then revision else revision + 1

abbrev pub assigned : Manager → ByRole (Option String) → Manager
assigned m normalized = record m {
  assignments = normalized;
  assignment_revisions = record {
    roof_tent =
        next_revision m.assignments.roof_tent normalized.roof_tent m.assignment_revisions.roof_tent;
    cabin = next_revision m.assignments.cabin normalized.cabin m.assignment_revisions.cabin;
    outside = next_revision m.assignments.outside normalized.outside m.assignment_revisions.outside;
  };
  readings = readings_for m (roms_of normalized);
}

-- Nothing is written before all the assignments are valid.
unfoldable pub configure_assignments : ByRole (Option String) → Manager → Result Bool × Manager
unfolding normalize_assignments new_reading
configure_assignments wanted m = elim (normalize_assignments wanted) [
  | err e ↦ (err e, m)
  | ok normalized ↦ (ok true, assigned m normalized)
]
