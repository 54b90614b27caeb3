-- ===== src/Examples/Link.antt =====
-- The protocol service over a transport that keeps what it is handed.
use landy_heater.Prelude.{
  ℕ, ◌≡◌, ◌≤◌, refl, inr, Bool, true, false, none, some, List, [], ◌∷◌, length, map, All, ok, err,
  Error, tx_disabled_error,
}
use landy_heater.Crc16.{crc16, shift_bit, shift_bits, update_crc, crc_loop, crc_bytes, append_crc}
use landy_heater.Autoterm.{
  Frame, parse_frame, build_frame, build_request, build_init_request, frame_of, device_controller,
}
use landy_heater.Service.{
  Transport, Service, Request, initialization, frame_for, perform, deinit, poll_inbound,
  require_open, parse_inbound, max_inbound_frames_per_poll,
}
use landy_heater.Service.Sending.{
  refusal, perform_locked, perform_once, deinit_closes, request_frames,
}
use landy_heater.Service.Inbound.{poll_in_order}
use mathlib.Core.Logic.{◌↔◌}

-- The frames received and sent.
abbrev Wire : Type 0
Wire = List (List ℕ) × List (List ℕ)

abbrev transport : Transport Wire
transport = record {
  poll = λ now w. (ok w.0, ([], w.1));
  send_frame = λ raw w. (ok (some (length raw)), (w.0, raw ∷ w.1));
  reset_rx = λ w. (ok tt, ([], w.1));
  rx_faulted = λ w. some false;
  deinit = λ w. (ok tt, w);
  drain_activity = none;
}

abbrev open_service : Bool → Service Wire
open_service may_transmit = record {
  closed = false;
  cleanup_complete = false;
  may_transmit = may_transmit;
  wire = ((0xAA ∷ 4 ∷ 1 ∷ 0 ∷ 15 ∷ 7 ∷ 31 ∷ 172 ∷ []) ∷ [], []);
}

abbrev init_request : List ℕ
init_request = 0xAA ∷ 3 ∷ 0 ∷ 0 ∷ 4 ∷ 159 ∷ 61 ∷ []

init_frame : frame_for initialization ≡ ok init_request
unfolding frame_for build_init_request build_request build_frame append_crc crc_bytes crc16 crc_loop
    update_crc shift_bits shift_bit
init_frame = refl

perform_locked_example :
    perform transport initialization (open_service false)
    ≡ (err (tx_disabled_error "protocol service TX is disabled"), open_service false)
unfolding frame_for build_init_request build_request build_frame append_crc crc_bytes crc16 crc_loop
    update_crc shift_bits shift_bit
perform_locked_example = perform_locked transport initialization (open_service false) (inr refl)

perform_once_example :
    ((e : Error)
      → frame_for initialization ≡ err e
      → perform transport initialization (open_service true) ≡ (err e, open_service true))
    × ((raw : List ℕ)
        → frame_for initialization ≡ ok raw
        → ((perform transport initialization (open_service true)).1 ≡ record (open_service true) {
          wire = ((0xAA ∷ 4 ∷ 1 ∷ 0 ∷ 15 ∷ 7 ∷ 31 ∷ 172 ∷ []) ∷ [], raw ∷ []);
        })
          × (((perform transport initialization (open_service true)).0 ≡ ok true)
              ↔ (ok (some (length raw)) ≡ ok (some (length raw)))))
perform_once_example = perform_once transport initialization (open_service true) refl refl

deinit_closes_example :
    ((deinit transport (open_service true)).1.closed ≡ true)
    × ((deinit transport (open_service true)).1.may_transmit ≡ true)
    × ((deinit transport (open_service true)).0 ≡ ok tt
        → deinit transport (deinit transport (open_service true)).1
          ≡ (ok tt, (deinit transport (open_service true)).1))
    × ((e : Error)
        → (deinit transport (open_service true)).0 ≡ err e
        → (deinit transport (open_service true)).1.cleanup_complete ≡ false)
    × ((r : Request)
        → perform transport r (deinit transport (open_service true)).1
          ≡ (err (refusal (frame_for r) true), (deinit transport (open_service true)).1))
deinit_closes_example = deinit_closes transport (open_service true)

request_frames_example :
    (f : Frame) × (parse_frame init_request ≡ ok f)
    × (f.crc_valid ≡ true)
    × (f.device ≡ device_controller)
    × (f.command ≡ 4)
    × (f.payload ≡ [])
request_frames_example = request_frames initialization init_request init_frame

abbrev polled : Frame
polled = frame_of (0xAA ∷ 4 ∷ 1 ∷ 0 ∷ 15 ∷ 7 ∷ 31 ∷ 172 ∷ []) 8108

poll_returns : (poll_inbound transport (some 5) (open_service false)).0 ≡ ok (polled ∷ [])
unfolding poll_inbound require_open parse_inbound parse_frame crc16 crc_loop update_crc shift_bits
    shift_bit
poll_returns = refl

poll_in_order_example :
    (false ≡ false)
    × (ok ((0xAA ∷ 4 ∷ 1 ∷ 0 ∷ 15 ∷ 7 ∷ 31 ∷ 172 ∷ []) ∷ [])
        ≡ ok (map (λ (f : Frame). f.raw) (polled ∷ [])))
    × All (λ (f : Frame). parse_frame f.raw ≡ ok f) (polled ∷ [])
    × (length (polled ∷ []) ≤ max_inbound_frames_per_poll)
    × ((poll_inbound transport (some 5) (open_service false)).1
        ≡ record (open_service false) { wire = ([], []) })
poll_in_order_example =
    poll_in_order transport (some 5) (open_service false) (polled ∷ []) poll_returns
