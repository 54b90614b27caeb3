-- ===== src/Service.antt =====
-- protocol/autoterm_service.py: `AutotermProtocolService`, between the controller and an injected
-- transport. The transport is a parameter: each of its methods changes its state and may raise.
-- That the values have the types that the code tests (bytes, dictionaries, lists) is their type
-- here. The capability object is a flag: whether the service holds it.
mod Requests
pub mod Sending
pub mod Inbound
pub use Requests.{Request, initialization, status, shutdown, start}
unfoldable pub use Requests.{start_parameters, frame_for, validate_inbound_frame, parse_inbound}
use landy_heater.Prelude.{
  ℕ, ◌≡◌, Bool, true, false, not, Option, none, some, List, [], ◌∷◌, ltb, ◌==◌, if◌then◌else◌,
  is_some, is_none, length, Result, ok, err, Error, value_error, service_error, tx_disabled_error,
}
use landy_heater.Prelude.Exec.{Exec, pure, raise, lift, gets, modify, check, ◌>>=◌, ◌>>◌}
use landy_heater.Autoterm.{
  ControlMode, power, Frame, parse_frame, protocol_mode_for_control_mode, build_init_request,
  build_status_request, build_shutdown_request, build_start_for_mode,
}

-- The methods of the injected transport, over its state. `send_frame` returns the number of bytes
-- accepted, or no integer; `rx_faulted` is what `status()` has under that key.
pub record Transport (T : Type 0) : Type 0 where
  pub poll : Option ℕ → Exec T (List (List ℕ))
  pub send_frame : List ℕ → Exec T (Option ℕ)
  pub reset_rx : Exec T (Unit {0})
  pub rx_faulted : T → Option Bool
  pub deinit : Exec T (Unit {0})
  pub drain_activity : Option (ℕ → Exec T (List (List ℕ)))

pub record Service (T : Type 0) : Type 0 where
  pub closed : Bool
  pub cleanup_complete : Bool
  pub may_transmit : Bool
  pub wire : T

abbrev pub max_inbound_frames_per_poll : ℕ
max_inbound_frames_per_poll = 80

-- A call of a method of the transport.
abbrev pub on_wire : {T A : Type 0} → Exec T A → Exec (Service T) A
on_wire m s = let (r, t) = m s.wire in (r, record s { wire = t })

module _ {T : Type 0} (transport : Transport T) where
  unfoldable pub new : Bool → T → Service T
  new may_transmit wire = record {
    closed = false;
    cleanup_complete = false;
    may_transmit = may_transmit;
    wire = wire;
  }

  unfoldable pub require_open : Exec (Service T) (Unit {0})
  require_open s = check (not s.closed) (service_error "protocol service is closed") s

  unfoldable pub poll_inbound : Option ℕ → Exec (Service T) (List Frame)
  unfolding require_open parse_inbound
  poll_inbound now_ms = do
    require_open
    raw_frames ← on_wire (transport.poll now_ms)
    check (not (ltb max_inbound_frames_per_poll (length raw_frames)))
        (service_error "transport poll returned too many frames")
    lift (parse_inbound raw_frames)

  -- `drain_activity`; a bound that is no integer or is negative has no value here.
  abbrev drained : ℕ → (ℕ → Exec T (List (List ℕ))) → Exec (Service T) (List (List ℕ))
  drained max_events drain = do
    values ← on_wire (drain max_events)
    check (not (ltb max_events (length values)))
        (service_error "transport activity drain is malformed")
    pure values

  abbrev drain_from : ℕ → Option (ℕ → Exec T (List (List ℕ))) → Exec (Service T) (List (List ℕ))
  drain_from max_events none = pure []
  drain_from max_events (some drain) = drained max_events drain

  unfoldable pub drain_activity : ℕ → Exec (Service T) (List (List ℕ))
  drain_activity max_events = do
    check (not (ltb max_inbound_frames_per_poll max_events))
        (value_error "max_events is outside its bound")
    drain_from max_events transport.drain_activity

  unfoldable pub reset_inbound : Exec (Service T) Bool
  unfolding require_open
  reset_inbound = do
    require_open
    on_wire transport.reset_rx
    faulted ← gets (λ s. transport.rx_faulted s.wire)
    check (elim faulted [ some false ↦ true | _ ↦ false ])
        (service_error "transport remained RX-faulted after reset")
    pure true

  unfoldable pub send_once : List ℕ → Exec (Service T) Bool
  unfolding require_open
  send_once raw_frame = do
    require_open
    may_transmit ← gets (λ s. s.may_transmit)
    check may_transmit (tx_disabled_error "protocol service TX is disabled")
    written ← on_wire (transport.send_frame raw_frame)
    check (elim written [ some n ↦ n == length raw_frame | none ↦ false ])
        (service_error "transport did not accept the complete frame")
    pure true

  -- `closed` is set before the transport's cleanup, which is retried until it succeeds.
  unfoldable pub deinit : Exec (Service T) (Unit {0})
  deinit = do
    modify (λ s. record s { closed = true })
    complete ← gets (λ s. s.cleanup_complete)
    if complete
        then pure tt
        else do on_wire transport.deinit; modify (λ s. record s { cleanup_complete = true })

  -- `request_initialization`, `request_status`, `request_start` and `request_shutdown`
  unfoldable pub perform : Request → Exec (Service T) Bool
  unfolding send_once
  perform request = do raw_frame ← lift (frame_for request); send_once raw_frame
