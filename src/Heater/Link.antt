-- ===== src/Heater/Link.antt =====
-- app/heater_controller.py: synchronization with the heater, and the frames that it sends.
use landy_heater.Prelude.{
  ℕ, ◌+◌, ◌-◌, Bool, true, false, not, ◌&&◌, ◌||◌, Option, none, some, List, [], ◌∷◌, leb, ◌==◌,
  if◌then◌else◌, is_some, is_none, length, get_or, take, drop,
}
use landy_heater.Prelude.Int.{pos, leb_ℤ}
use landy_heater.Framing.{frame_start}
use landy_heater.Autoterm.{Frame, StatusFields, cmd_init, cmd_status, device_heater, received_crc}
use landy_heater.AppState.{mark_initialized, option_eq}
use landy_heater.Heater.Types.{Phase, Operation, Reason, Config, Port, Controller, message}
use landy_heater.Heater.Base.{is_error_phase, mark_error, call_protocol}

-- What `step` reports: an operation that was requested, or that the port refused.
pub data Report : Type 0 where
  initialization initialization_error status status_error : Report
  start start_error shutdown shutdown_error : Report

-- `self._expected_command == command`
abbrev pub expects : Controller → ℕ → Bool
expects c command = option_eq c.expected_command (some command)

unfoldable pub begin_response_wait : ℕ → ℕ → Controller → Controller
begin_response_wait command now_ms c =
    if expects c command
    then c
    else record c { expected_command = some command; response_wait_started_ms = some now_ms }

abbrev pub bytes_eq : List ℕ → List ℕ → Bool
bytes_eq [] [] = true
bytes_eq (a ∷ as') (b ∷ bs) = (a == b) && bytes_eq as' bs
bytes_eq _ _ = false

-- `raw[5:-2]`
abbrev pub payload_slice : List ℕ → List ℕ
payload_slice raw = take (length raw - 7) (drop 5 raw)

unfoldable pub known_frame_is_consistent : Frame → ℕ → ℕ → Bool
known_frame_is_consistent f command payload_length =
    (length f.raw == payload_length + 7)
    && (get_or f.raw 0 0 == frame_start)
    && (get_or f.raw 1 0 == device_heater)
    && (get_or f.raw 2 0 == payload_length)
    && (get_or f.raw 3 0 == 0)
    && (get_or f.raw 4 0 == command)
    && (f.device == get_or f.raw 1 0)
    && (f.payload_length == get_or f.raw 2 0)
    && (f.reserved == get_or f.raw 3 0)
    && (f.command == get_or f.raw 4 0)
    && bytes_eq f.payload (payload_slice f.raw)
    && f.crc_valid
    && (f.crc_received == received_crc f.raw)
    && (f.crc_calculated == received_crc f.raw)

abbrev pub init_rx_payload_length : ℕ
init_rx_payload_length = 5

abbrev pub status_rx_payload_length : ℕ
status_rx_payload_length = 19

-- The comparison of the status dictionary with the raw bytes.
abbrev pub status_matches : List ℕ → Option StatusFields → Bool
status_matches raw none = false
status_matches raw (some s) =
    option_eq s.voltage (some (get_or raw 11 0))
    && option_eq s.glow_plug_raw (some (get_or raw 13 0))
    && option_eq s.heater_state (some (get_or raw 14 0))
    && option_eq s.fan_raw (some (get_or raw 19 0))

unfoldable pub status_is_consistent : Frame → Bool
unfolding known_frame_is_consistent
status_is_consistent f =
    known_frame_is_consistent f cmd_status status_rx_payload_length && status_matches f.raw f.status

module _ (config : Config) (port : Port) where
  -- One synchronization call and how it is reported.
  abbrev pub synchronize : Operation → ℕ → Report → Report → ℕ → Controller → Controller × Report
  synchronize op command done refused now_ms c =
      let (d, accepted) = call_protocol config port op now_ms c in
      if accepted then (begin_response_wait command now_ms d, done) else (d, refused)

  unfoldable pub request_synchronization : ℕ → Controller → Controller × Report
  unfolding call_protocol begin_response_wait
  request_synchronization now_ms c =
      let phase_or = λ (p : Phase). if is_error_phase c.phase then c.phase else p in
      let c1 = record c {
        next_request_due_ms = some (port.ticks_add now_ms config.heartbeat_ms);
        phase = phase_or (if c.actual.initialized then Phase.wait_status else Phase.wait_init);
      } in
      if c.actual.initialized
      then synchronize Operation.request_status cmd_status Report.status Report.status_error now_ms
          c1
      else synchronize Operation.request_initialization cmd_init Report.initialization
          Report.initialization_error now_ms c1

  -- `ticks_diff(now_ms, self._response_wait_started_ms) >= self.response_timeout_ms`
  abbrev pub is_late : ℕ → ℕ → Bool
  is_late now_ms started_ms =
      leb_ℤ (pos config.response_timeout_ms) (port.ticks_diff now_ms started_ms)

  abbrev pub waits_too_long : ℕ → Controller → Bool
  waits_too_long now_ms c = elim c.response_wait_started_ms [
    | none ↦ false
    | some started ↦ is_some c.expected_command && is_late now_ms started
  ]

  unfoldable pub check_response_timeout : ℕ → Controller → Controller
  unfolding mark_error
  check_response_timeout now_ms c =
      if waits_too_long now_ms c
      then mark_error config (some now_ms) (some (message "heater response timeout")) c
      else c

  -- `_expected_response_is_timely`; a late answer is a communication error.
  unfoldable pub expected_response_is_timely : ℕ → ℕ → Controller → Controller × Bool
  unfolding mark_error
  expected_response_is_timely command now_ms c =
      if not (expects c command) || is_none c.response_wait_started_ms
      then (c, false)
      else if waits_too_long now_ms c
      then (
        mark_error config (some now_ms) (some (message "late heater response rejected")) c,
        false,
      )
      else (c, true)

  unfoldable pub record_invalid_frame : ℕ → Reason → Controller → Controller
  unfolding mark_error
  record_invalid_frame now_ms reason c =
      let d = record c {
        invalid_frames = c.invalid_frames + 1;
        invalid_frame_strikes = c.invalid_frame_strikes + 1;
        consecutive_valid_statuses = 0;
        pending_control_due_ms = none;
      } in
      if leb config.invalid_frame_threshold d.invalid_frame_strikes
      then mark_error config (some now_ms) (some reason) d
      else d

  -- `report_communication_error`
  unfoldable pub report_communication_error : Option Reason → Option ℕ → Controller → Controller
  unfolding mark_error
  report_communication_error reason now_ms c = mark_error config now_ms reason c

  -- An INIT answer that was waited for.
  unfoldable pub accept_init : ℕ → Controller → Controller
  unfolding mark_initialized
  accept_init now_ms c = record c {
    actual = mark_initialized c.actual;
    phase = Phase.wait_status;
    expected_command = none;
    response_wait_started_ms = none;
    next_request_due_ms = some now_ms;
    pending_control_due_ms = none;
  }
