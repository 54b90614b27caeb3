-- ===== src/AppState/Laws.antt =====
-- app/application_state.py: which start requests are valid, and what the requested state takes on.
use landy_heater.Prelude.{ℕ, ◌≤◌, true, Option, none, some, ok}
use landy_heater.Autoterm.{ControlMode, power, roof_tent_temperature, cabin_temperature}
use landy_heater.AppState.{Source, is_named, validate_start_request}
use native.Mathlib.Omega.{arith}
use mathlib.Core.Path.{◌≡◌}
use mathlib.Core.Logic.{◌↔◌}

-- The parameters that belong to a mode.
pub data Parameters : ControlMode → Option ℕ → Option ℕ → Type 0 where
  at_level : {level : ℕ} → 1 ≤ level → level ≤ 9 → Parameters power none (some level)
  roof_tent : {t : ℕ} → 5 ≤ t → t ≤ 30 → Parameters roof_tent_temperature (some t) none
  cabin : {t : ℕ} → 5 ≤ t → t ≤ 30 → Parameters cabin_temperature (some t) none

forward :
    (mode : ControlMode) (target level : Option ℕ) (runtime maximum : ℕ) (source : Source)
    → validate_start_request mode target level runtime source (some maximum) ≡ ok tt
    → Parameters mode target level × (1 ≤ runtime) × (runtime ≤ maximum) × (is_named source ≡ true)
unfolding validate_start_request
forward power none (some level) runtime maximum source h =
    (at_level (ground arith) (ground arith), ground arith, ground arith, ground arith)
forward roof_tent_temperature (some t) none runtime maximum source h =
    (roof_tent (ground arith) (ground arith), ground arith, ground arith, ground arith)
forward cabin_temperature (some t) none runtime maximum source h =
    (cabin (ground arith) (ground arith), ground arith, ground arith, ground arith)
forward mode target level runtime maximum source h = absurd (ground arith)

backward :
    {mode : ControlMode} {target level : Option ℕ} (runtime maximum : ℕ) (source : Source)
    → Parameters mode target level
    → 1 ≤ runtime
    → runtime ≤ maximum
    → is_named source ≡ true
    → validate_start_request mode target level runtime source (some maximum) ≡ ok tt
unfolding validate_start_request
backward runtime maximum source (at_level a b) p q n = ground arith
backward runtime maximum source (roof_tent a b) p q n = ground arith
backward runtime maximum source (cabin a b) p q n = ground arith

-- A start request within a configured maximum is valid exactly if its parameters belong to its
-- mode, its runtime is from 1 minute to the maximum and its source is named.
pub start_request_valid :
    (mode : ControlMode) (target level : Option ℕ) (runtime maximum : ℕ) (source : Source)
    → (validate_start_request mode target level runtime source (some maximum) ≡ ok tt) ↔ (
        Parameters mode target level
        × (1 ≤ runtime)
        × (runtime ≤ maximum)
        × (is_named source ≡ true))
start_request_valid mode target level runtime maximum source = (
  forward mode target level runtime maximum source,
  λ h. backward runtime maximum source h.0 h.1 h.2 h.3,
)
