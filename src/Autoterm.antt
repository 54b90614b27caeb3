-- ===== src/Autoterm.antt =====
-- protocol/autoterm_protocol.py: constants, request builders and the frame parser.
-- Bytes are native numbers. An argument that may be `None` or no integer is an `Option ℕ`; a
-- negative integer, which the code refuses like any other out of range, has no value here.
pub mod Status
pub mod Parse
pub mod RoundTrip
use landy_heater.Prelude.{
  ℕ, zero, suc, ◌+◌, ◌-◌, ◌*◌, ◌/◌, min, max, Bool, true, false, not, ◌&&◌, Option, none, some,
  List, [], ◌∷◌, ◌++◌, String, ltb, leb, ◌==◌, if◌then◌else◌, in_range, length, get_or, take, drop,
  Result, ok, err, Error, value_error, ◌>>=◌, ◌>>◌, require,
}
use landy_heater.Prelude.Int.{ℤ, pos, negsuc}
use landy_heater.Crc16.{crc16, append_crc}
use landy_heater.Framing.{
  frame_start, RawParser, new, feed, recover_after_timeout, reset, Extracted, all_bytes,
}

abbrev pub device_controller : ℕ
device_controller = 0x03

abbrev pub device_heater : ℕ
device_heater = 0x04

abbrev pub cmd_start : ℕ
cmd_start = 0x01

abbrev pub cmd_settings : ℕ
cmd_settings = 0x02

abbrev pub cmd_shutdown : ℕ
cmd_shutdown = 0x03

abbrev pub cmd_init : ℕ
cmd_init = 0x04

abbrev pub cmd_status : ℕ
cmd_status = 0x0F

abbrev pub cmd_temperature : ℕ
cmd_temperature = 0x11

abbrev pub heater_mode_temperature : ℕ
heater_mode_temperature = 0x02

abbrev pub heater_mode_power : ℕ
heater_mode_power = 0x04

-- The names of the control modes; `other` is any other text.
pub data ControlMode : Type 0 where
  power roof_tent_temperature cabin_temperature : ControlMode
  other : String → ControlMode

unfoldable pub command_name : ℕ → String
command_name c =
    if c == cmd_start
    then "start"
    else if c == cmd_settings
    then "settings"
    else if c == cmd_shutdown
    then "shutdown"
    else if c == cmd_init
    then "init"
    else if c == cmd_status
    then "status"
    else if c == cmd_temperature
    then "temperature"
    else "unknown"

unfoldable pub heater_state_name : ℕ → String
heater_state_name s =
    if s == 0
    then "off"
    else if s == 1
    then "starting"
    else if s == 4
    then "running"
    else if s == 5
    then "shutting_down"
    else if s == 6
    then "temp_monitoring"
    else "unknown"

unfoldable pub require_byte : ℕ → Result (Unit {0})
require_byte value =
    require (not (ltb 0xFF value)) (value_error "value must be an integer from 0 to 255")

unfoldable pub require_integer : Option ℕ → ℕ → ℕ → Result ℕ
require_integer none minimum maximum = err (value_error "value must be an integer")
require_integer (some value) minimum maximum =
    if in_range minimum maximum value then ok value else err (value_error "value is out of range")

unfoldable pub protocol_mode_for_control_mode : ControlMode → Result ℕ
protocol_mode_for_control_mode power = ok heater_mode_power
protocol_mode_for_control_mode roof_tent_temperature = ok heater_mode_temperature
protocol_mode_for_control_mode cabin_temperature = ok heater_mode_temperature
protocol_mode_for_control_mode (other name) = err (value_error "unknown control mode")

unfoldable pub build_frame : ℕ → List ℕ → ℕ → ℕ → Result (List ℕ)
unfolding require_byte
build_frame command payload device reserved = do
  require_byte command
  require_byte device
  require_byte reserved
  require (all_bytes payload) (value_error "payload must contain byte values")
  require (not (ltb 0xFF (length payload))) (value_error "payload cannot exceed 255 bytes")
  append_crc (frame_start ∷ device ∷ length payload ∷ reserved ∷ command ∷ payload)

-- A request of the controller: the default device and reserved byte.
unfoldable pub build_request : ℕ → List ℕ → Result (List ℕ)
unfolding build_frame
build_request command payload = build_frame command payload device_controller 0x00

unfoldable pub build_init_request : Result (List ℕ)
unfolding build_request
build_init_request = build_request cmd_init []

unfoldable pub build_status_request : Result (List ℕ)
unfolding build_request
build_status_request = build_request cmd_status []

unfoldable pub build_shutdown_request : Result (List ℕ)
unfolding build_request
build_shutdown_request = build_request cmd_shutdown []

unfoldable pub build_start_power : Option ℕ → Result (List ℕ)
unfolding require_integer
build_start_power power_level = do
  level ← require_integer power_level 1 9
  build_request cmd_start (0xFF ∷ 0xFF ∷ heater_mode_power ∷ 0xFF ∷ 0x01 ∷ level ∷ [])

unfoldable pub build_start_temperature : Option ℕ → Result (List ℕ)
unfolding require_integer
build_start_temperature target_temperature = do
  target ← require_integer target_temperature 5 30
  build_request cmd_start (0xFF ∷ 0xFF ∷ heater_mode_temperature ∷ target ∷ 0x01 ∷ 0x03 ∷ [])

unfoldable pub build_start_for_mode : ControlMode → Option ℕ → Option ℕ → Result (List ℕ)
unfolding protocol_mode_for_control_mode build_start_power build_start_temperature
build_start_for_mode mode target_temperature power_level = do
  protocol_mode ← protocol_mode_for_control_mode mode
  if protocol_mode == heater_mode_power
      then build_start_power power_level
      else build_start_temperature target_temperature

-- A temperature is counted in sixteenths of a degree, the resolution of the DS18B20, so `ceil` is
-- a rounded-up division and there is no NaN and no infinity.
unfoldable pub encode_external_temperature : ℤ → Result ℕ
encode_external_temperature (negsuc n) =
    err (value_error "temperature encoding is only known for 0..255")
encode_external_temperature (pos t) =
    if ltb (0xFF * 16) t
    then err (value_error "temperature encoding is only known for 0..255")
    else if ltb 0xFF ((t + 15) / 16)
    then err (value_error "temperature encoding is only known for 0..255")
    else ok ((t + 15) / 16)

unfoldable pub build_external_temperature : ℤ → Result (List ℕ)
unfolding encode_external_temperature build_request
build_external_temperature temperature = do
  encoded ← encode_external_temperature temperature
  build_request cmd_temperature (encoded ∷ [])

-- The voltage is kept in tenths of a volt, as the byte that the code divides by 10.
pub record StatusFields : Type 0 where
  pub voltage : Option ℕ
  pub glow_plug_raw : Option ℕ
  pub heater_state : Option ℕ
  pub state_name : String
  pub fan_raw : Option ℕ

abbrev pub payload_end_of : List ℕ → ℕ
payload_end_of raw =
    if leb 5 (length raw) then min (5 + get_or raw 2 0) (max 5 (length raw - 2)) else 0

-- `raw[i]` if the payload reaches beyond index `i`
abbrev pub field_at : List ℕ → ℕ → Option ℕ
field_at raw i = if ltb i (payload_end_of raw) then some (get_or raw i 0) else none

-- The name is set where the state is.
abbrev pub state_name_of : Option ℕ → String
state_name_of none = "unknown"
state_name_of (some state) = heater_state_name state

unfoldable pub parse_status_fields : List ℕ → StatusFields
unfolding heater_state_name
parse_status_fields raw = record {
  voltage = field_at raw 11;
  glow_plug_raw = field_at raw 13;
  heater_state = field_at raw 14;
  state_name = state_name_of (field_at raw 14);
  fan_raw = field_at raw 19;
}

pub record Frame : Type 0 where
  pub raw : List ℕ
  pub device : ℕ
  pub payload_length : ℕ
  pub reserved : ℕ
  pub command : ℕ
  pub command_text : String
  pub payload : List ℕ
  pub crc_received : ℕ
  pub crc_calculated : ℕ
  pub crc_valid : Bool
  pub status : Option StatusFields

-- `(raw[-2] << 8) | raw[-1]`, of bytes
abbrev pub received_crc : List ℕ → ℕ
received_crc raw = get_or raw (length raw - 2) 0 * 0x100 + get_or raw (length raw - 1) 0

-- `raw[:-2]`
abbrev pub without_crc : List ℕ → List ℕ
without_crc raw = take (length raw - 2) raw

-- The dictionary of a frame that has passed the checks.
unfoldable pub frame_of : List ℕ → ℕ → Frame
unfolding command_name parse_status_fields
frame_of raw crc_calculated = record {
  raw = raw;
  device = get_or raw 1 0;
  payload_length = get_or raw 2 0;
  reserved = get_or raw 3 0;
  command = get_or raw 4 0;
  command_text = command_name (get_or raw 4 0);
  payload = take (get_or raw 2 0) (drop 5 raw);
  crc_received = received_crc raw;
  crc_calculated = crc_calculated;
  crc_valid = received_crc raw == crc_calculated;
  status =
      if (get_or raw 4 0 == cmd_status) && (get_or raw 1 0 == device_heater)
      then some (parse_status_fields raw)
      else none;
}

unfoldable pub parse_frame : List ℕ → Result Frame
parse_frame raw = do
  require (all_bytes raw) (value_error "frame must contain byte values")
  require (not (ltb (length raw) 7)) (value_error "frame is too short")
  require (get_or raw 0 0 == frame_start) (value_error "invalid frame start marker")
  require (length raw == get_or raw 2 0 + 7) (value_error "invalid frame length")
  crc_calculated ← crc16 (without_crc raw)
  ok (frame_of raw crc_calculated)

-- `_frame_has_valid_assumed_crc`; on bytes `crc16` does not raise.
unfoldable pub frame_has_valid_assumed_crc : List ℕ → Bool
frame_has_valid_assumed_crc raw =
    if ltb (length raw) 7
    then false
    else elim (crc16 (without_crc raw)) [ ok crc ↦ received_crc raw == crc | err e ↦ false ]

-- `FrameStreamParser`: the raw parser, with the validator that the flag asks for.
unfoldable pub new_stream_parser : ℕ → Bool → Result RawParser
unfolding frame_has_valid_assumed_crc
new_stream_parser max_frame_length require_valid_crc_for_framing =
    new max_frame_length frame_start
      (if require_valid_crc_for_framing then some frame_has_valid_assumed_crc else none)

-- `_parse_all`
unfoldable pub parse_all : List (List ℕ) → Result (List Frame)
unfolding parse_frame
parse_all [] = ok []
parse_all (raw ∷ rest) = do frame ← parse_frame raw; frames ← parse_all rest; ok (frame ∷ frames)
