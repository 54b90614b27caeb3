-- ===== src/Autoterm/Status.antt =====
-- `parse_status_fields` and the START requests (protocol/autoterm_protocol.py).
use landy_heater.Prelude.{
  ℕ, ◌+◌, ◌*◌, ◌≤◌, ◌<◌, ◌≡◌, sym, ◌∙◌, ◌≢◌, ◌↔◌, Option, none, some, List, [], ◌∷◌, ◌++◌, arith,
  ltb, if◌then◌else◌, length, length-append, get_or, get_or-append, min, All, ok,
}
use landy_heater.Prelude.Int.{pos, negsuc}
use landy_heater.Crc16.Laws.{IsByte}
use landy_heater.Autoterm.{
  ControlMode, power, roof_tent_temperature, cabin_temperature, other, heater_mode_power,
  heater_mode_temperature, cmd_start, device_controller, build_request, build_start_power,
  build_start_temperature, build_start_for_mode, encode_external_temperature, field_at,
  parse_status_fields, state_name_of,
}
use landy_heater.Autoterm.Parse.{build_body}

field_before_tail :
    (t : List ℕ) (h l i : ℕ)
    → 5 ≤ length t
    → field_at (t ++ h ∷ l ∷ []) i
      ≡ (if ltb i (min (5 + get_or t 2 0) (length t)) then some (get_or t i 0) else none)
field_before_tail t h l i n = ground (
  arith,
  length-append t (h ∷ l ∷ []),
  get_or-append t (h ∷ l ∷ []) 2 0,
  get_or-append t (h ∷ l ∷ []) i 0,
)

-- The status fields do not show the two last bytes of a frame of at least seven bytes, its checksum,
-- also where the frame is shorter than its length byte says.
pub status_hides_crc :
    (t : List ℕ) (h l h' l' : ℕ)
    → 5 ≤ length t
    → parse_status_fields (t ++ h ∷ l ∷ []) ≡ parse_status_fields (t ++ h' ∷ l' ∷ [])
unfolding parse_status_fields
status_hides_crc t h l h' l' n =
    let same : (i : ℕ) → field_at (t ++ h ∷ l ∷ []) i ≡ field_at (t ++ h' ∷ l' ∷ []) i =
      λ i. field_before_tail t h l i n ∙ sym (field_before_tail t h' l' i n) in
    λ i. record {
      voltage = same 11 i;
      glow_plug_raw = same 13 i;
      heater_state = same 14 i;
      state_name = state_name_of (same 14 i);
      fan_raw = same 19 i;
    }

-- The payload that a START request carries, by its parameters.
pub data StartPayload : ControlMode → Option ℕ → Option ℕ → List ℕ → Type 0 where
  power_start :
      {target : Option ℕ} (level : ℕ)
      → 1 ≤ level
      → level ≤ 9
      → StartPayload power target
          (some level)
          (0xFF ∷ 0xFF ∷ heater_mode_power ∷ 0xFF ∷ 0x01 ∷ level ∷ [])
  roof_tent_start :
      {level : Option ℕ} (target : ℕ)
      → 5 ≤ target
      → target ≤ 30
      → StartPayload roof_tent_temperature
          (some target)
          level
          (0xFF ∷ 0xFF ∷ heater_mode_temperature ∷ target ∷ 0x01 ∷ 0x03 ∷ [])
  cabin_start :
      {level : Option ℕ} (target : ℕ)
      → 5 ≤ target
      → target ≤ 30
      → StartPayload cabin_temperature
          (some target)
          level
          (0xFF ∷ 0xFF ∷ heater_mode_temperature ∷ target ∷ 0x01 ∷ 0x03 ∷ [])

power_request :
    (l : ℕ) (raw : List ℕ)
    → build_start_power (some l) ≡ ok raw
    → (1 ≤ l)
      × (l ≤ 9)
      × (build_request cmd_start (0xFF ∷ 0xFF ∷ heater_mode_power ∷ 0xFF ∷ 0x01 ∷ l ∷ []) ≡ ok raw)
unfolding build_start_power
power_request l raw e = ground arith

temperature_request :
    (t : ℕ) (raw : List ℕ)
    → build_start_temperature (some t) ≡ ok raw
    → (5 ≤ t)
      × (t ≤ 30)
      × (build_request cmd_start (0xFF ∷ 0xFF ∷ heater_mode_temperature ∷ t ∷ 0x01 ∷ 0x03 ∷ [])
          ≡ ok raw)
unfolding build_start_temperature
temperature_request t raw e = ground arith

abbrev Carries : ControlMode → Option ℕ → Option ℕ → List ℕ → Type 0
Carries mode target level raw =
    (payload : List ℕ) × StartPayload mode target level payload
    × (build_request cmd_start payload ≡ ok raw)

forward :
    (mode : ControlMode) (target level : Option ℕ) (raw : List ℕ)
    → build_start_for_mode mode target level ≡ ok raw
    → Carries mode target level raw
unfolding build_start_for_mode
forward power target none raw e = unfold build_start_power in cc
forward power target (some l) raw e =
    let (lo, hi, b) = power_request l raw e in (_, power_start l lo hi, b)
forward roof_tent_temperature none level raw e = unfold build_start_temperature in cc
forward roof_tent_temperature (some t) level raw e =
    let (lo, hi, b) = temperature_request t raw e in (_, roof_tent_start t lo hi, b)
forward cabin_temperature none level raw e = unfold build_start_temperature in cc
forward cabin_temperature (some t) level raw e =
    let (lo, hi, b) = temperature_request t raw e in (_, cabin_start t lo hi, b)
forward (other name) target level raw e = cc

abbrev Builds : ControlMode → Option ℕ → Option ℕ → List ℕ → Type 0
Builds mode target level payload =
    (raw : List ℕ) × (build_start_for_mode mode target level ≡ ok raw)
    × (build_request cmd_start payload ≡ ok raw)

build_power :
    (l : ℕ)
    → 1 ≤ l
    → l ≤ 9
    → build_start_power (some l)
      ≡ build_request cmd_start (0xFF ∷ 0xFF ∷ heater_mode_power ∷ 0xFF ∷ 0x01 ∷ l ∷ [])
unfolding build_start_power
build_power l lo hi = ground arith

build_temperature :
    (t : ℕ)
    → 5 ≤ t
    → t ≤ 30
    → build_start_temperature (some t)
      ≡ build_request cmd_start (0xFF ∷ 0xFF ∷ heater_mode_temperature ∷ t ∷ 0x01 ∷ 0x03 ∷ [])
unfolding build_start_temperature
build_temperature t lo hi = ground arith

start_request :
    (payload : List ℕ)
    → All IsByte payload
    → length payload ≤ 255
    → (raw : List ℕ) × (build_request cmd_start payload ≡ ok raw)
unfolding build_request
start_request payload b n =
    let e =
      build_body cmd_start payload device_controller 0 (omega arith) (omega arith) (omega arith) b
        n in
    (_, e)

bytes_of : (l : ℕ) → IsByte l → All IsByte (0xFF ∷ 0xFF ∷ heater_mode_power ∷ 0xFF ∷ 0x01 ∷ l ∷ [])
bytes_of l h = omega arith

target_bytes :
    (t : ℕ) → IsByte t → All IsByte (0xFF ∷ 0xFF ∷ heater_mode_temperature ∷ t ∷ 0x01 ∷ 0x03 ∷ [])
target_bytes t h = omega arith

backward :
    {mode : ControlMode} {target level : Option ℕ} {payload : List ℕ}
    → StartPayload mode target level payload
    → Builds mode target level payload
unfolding build_start_for_mode
backward (power_start l lo hi) =
    let (raw, e) = start_request _ (bytes_of l (omega arith)) (omega arith) in
    (raw, build_power l lo hi ∙ e, e)
backward (roof_tent_start t lo hi) =
    let (raw, e) = start_request _ (target_bytes t (omega arith)) (omega arith) in
    (raw, build_temperature t lo hi ∙ e, e)
backward (cabin_start t lo hi) =
    let (raw, e) = start_request _ (target_bytes t (omega arith)) (omega arith) in
    (raw, build_temperature t lo hi ∙ e, e)

-- A START request is built exactly for power mode with a level from 1 to 9 and for the two
-- temperature modes with a target from 5 to 30, and it carries the payload that belongs to them.
pub start_requests :
    (mode : ControlMode) (target level : Option ℕ)
    → ((raw : List ℕ)
        → build_start_for_mode mode target level ≡ ok raw
        → (payload : List ℕ) × StartPayload mode target level payload
          × (build_request cmd_start payload ≡ ok raw))
      × ((payload : List ℕ)
          → StartPayload mode target level payload
          → (raw : List ℕ) × (build_start_for_mode mode target level ≡ ok raw)
            × (build_request cmd_start payload ≡ ok raw))
start_requests mode target level = (forward mode target level, λ payload h. backward h)

-- A temperature of n sixteenths of a degree is encoded as e exactly if e is n / 16 rounded up and
-- at most 255; negative ones are refused.
encode_ceil :
    (n e : ℕ)
    → ((encode_external_temperature (pos n) ≡ ok e)
        ↔ ((n ≤ 16 * e) × (16 * e < n + 16) × (e ≤ 255)))
      × (encode_external_temperature (negsuc n) ≢ ok e)
unfolding encode_external_temperature
encode_ceil n e = ((λ h. ground arith, λ h. ground arith), λ h. cc)
