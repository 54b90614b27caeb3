-- ===== src/Service/Requests.antt =====
-- protocol/autoterm_service.py: the frames that the service builds and parses, with no transport.
use landy_heater.Prelude.{
  ℕ, Option, none, some, List, [], ◌∷◌, if◌then◌else◌, is_some, Result, ok, err, value_error, ◌>>=◌,
}
use landy_heater.Autoterm.{
  ControlMode, power, Frame, parse_frame, protocol_mode_for_control_mode, build_init_request,
  build_status_request, build_shutdown_request, build_start_for_mode,
}

-- What the four request methods ask for.
pub data Request : Type 0 where
  initialization status shutdown : Request
  start : ControlMode → Option ℕ → Option ℕ → Request

-- The two parameter tests of `request_start`.
unfoldable pub start_parameters : ControlMode → Option ℕ → Option ℕ → Result (Unit {0})
start_parameters power target_temperature power_level =
    if is_some target_temperature
    then err (value_error "target_temperature is not valid in power mode")
    else ok tt
start_parameters mode target_temperature power_level =
    if is_some power_level
    then err (value_error "power_level is not valid in temperature mode")
    else ok tt

-- The frame that a request method builds before it sends.
unfoldable pub frame_for : Request → Result (List ℕ)
unfolding start_parameters
frame_for initialization = build_init_request
frame_for status = build_status_request
frame_for shutdown = build_shutdown_request
frame_for (start mode target_temperature power_level) = protocol_mode_for_control_mode mode >>= λ _.
    start_parameters mode target_temperature power_level >>= λ _.
    build_start_for_mode mode target_temperature power_level

-- `validate_inbound_frame`: a dictionary's `raw`, parsed anew, or `None`.
unfoldable pub validate_inbound_frame : List ℕ → Option Frame
validate_inbound_frame raw = elim (parse_frame raw) [ ok f ↦ some f | err e ↦ none ]

-- The list comprehension of `poll_inbound`.
unfoldable pub parse_inbound : List (List ℕ) → Result (List Frame)
parse_inbound [] = ok []
parse_inbound (raw ∷ rest) = parse_frame raw >>= λ f. parse_inbound rest >>= λ fs. ok (f ∷ fs)
