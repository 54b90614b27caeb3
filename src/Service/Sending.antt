-- ===== src/Service/Sending.antt =====
-- What reaches the transport through `AutotermProtocolService` (protocol/autoterm_service.py).
use landy_heater.Prelude.{
  ℕ, ◌≤◌, ◌≡◌, refl, sym, ap, inl, ◌∙◌, ◌↔◌, ◌⊎◌, Bool, true, false, Option, some, List, [], arith,
  length, All, Result, ok, err, Error, service_error, tx_disabled_error, ok-eq,
}
use landy_heater.Crc16.Laws.{IsByte}
use landy_heater.Autoterm.{
  ControlMode, Frame, parse_frame, build_request, build_init_request, build_status_request,
  build_shutdown_request, build_frame, device_controller, cmd_init, cmd_status, cmd_shutdown,
  cmd_start,
}
use landy_heater.Autoterm.RoundTrip.{parse-build}
use landy_heater.Autoterm.Status.{
  StartPayload, start_requests, power_start, roof_tent_start, cabin_start,
}
use landy_heater.Service.{
  Transport, Service, Request, initialization, status, shutdown, start, frame_for, perform, deinit,
}

-- The exception of a request that is refused before the transport is called.
abbrev pub refusal : Result (List ℕ) → Bool → Error
refusal (err e) closed = e
refusal (ok raw) true = service_error "protocol service is closed"
refusal (ok raw) false = tx_disabled_error "protocol service TX is disabled"

module _ {T : Type 0} (transport : Transport T) where
  -- A service that is closed or holds no transmit capability refuses every request, and its
  -- transport is not called: the service stays as it was.
  pub perform_locked :
      (r : Request) (s : Service T)
      → (s.closed ≡ true) ⊎ (s.may_transmit ≡ false)
      → perform transport r s ≡ (err (refusal (frame_for r) s.closed), s)
  unfolding perform
  perform_locked r s h = ground arith

  -- The whole of a request on an open service that may transmit: a request whose frame cannot be
  -- built changes nothing; any other hands its frame to the transport once, and succeeds exactly
  -- if the transport reports as many bytes as the frame has.
  pub perform_once :
      (r : Request) (s : Service T)
      → s.closed ≡ false
      → s.may_transmit ≡ true
      → ((e : Error) → frame_for r ≡ err e → perform transport r s ≡ (err e, s))
        × ((raw : List ℕ)
            → frame_for r ≡ ok raw
            → ((perform transport r s).1 ≡ record s { wire = (transport.send_frame raw s.wire).1 })
              × (((perform transport r s).0 ≡ ok true)
                  ↔ ((transport.send_frame raw s.wire).0 ≡ ok (some (length raw)))))
  unfolding perform
  perform_once r s c m =
      (λ e h. rw h refl, λ raw h. (ground arith, (λ k. ground arith, λ k. ground arith)))

  deinit_closed : (s : Service T) → (deinit transport s).1.closed ≡ true
  unfolding deinit
  deinit_closed s = ground arith

  -- `deinit` closes the service also when the transport's cleanup raises, and keeps its transmit
  -- capability; every request after it is refused without a call of the transport. A cleanup that
  -- succeeded is not called again; one that raised is not marked as complete.
  pub deinit_closes :
      (s : Service T)
      → ((deinit transport s).1.closed ≡ true)
        × ((deinit transport s).1.may_transmit ≡ s.may_transmit)
        × ((deinit transport s).0 ≡ ok tt
            → deinit transport (deinit transport s).1 ≡ (ok tt, (deinit transport s).1))
        × ((e : Error)
            → (deinit transport s).0 ≡ err e
            → (deinit transport s).1.cleanup_complete ≡ false)
        × ((r : Request)
            → perform transport r (deinit transport s).1
              ≡ (err (refusal (frame_for r) true), (deinit transport s).1))
  unfolding deinit
  deinit_closes s = (
    deinit_closed s,
    ground arith,
    λ h. ground arith,
    λ e h. ground arith,
    λ r.
        perform_locked r (deinit transport s).1 (inl (deinit_closed s))
        ∙ ap (λ (b : Bool). (err (refusal (frame_for r) b), (deinit transport s).1))
            (deinit_closed s),
  )

abbrev pub command_of : Request → ℕ
command_of initialization = cmd_init
command_of status = cmd_status
command_of shutdown = cmd_shutdown
command_of (start mode target level) = cmd_start

-- What a request puts on the wire: a frame of the controller with a valid checksum that carries
-- the request's command, no payload for INIT, STATUS and SHUTDOWN, and the payload of its
-- parameters for START.
abbrev pub PayloadOf : Request → List ℕ → Type 0
PayloadOf (start mode target level) payload = StartPayload mode target level payload
PayloadOf r payload = payload ≡ []

request_payload :
    (r : Request) (raw : List ℕ)
    → frame_for r ≡ ok raw
    → (payload : List ℕ) × PayloadOf r payload × (build_request (command_of r) payload ≡ ok raw)
unfolding frame_for
request_payload initialization raw e = ([], refl, unfold build_init_request in e)
request_payload status raw e = ([], refl, unfold build_status_request in e)
request_payload shutdown raw e = ([], refl, unfold build_shutdown_request in e)
request_payload (start mode target level) raw e =
    (start_requests mode target level).0 raw (ground arith)

start_bytes :
    {mode : ControlMode} {target level : Option ℕ} {payload : List ℕ}
    → StartPayload mode target level payload
    → All IsByte payload × (length payload ≤ 255)
start_bytes (power_start l lo hi) = omega arith
start_bytes (roof_tent_start t lo hi) = omega arith
start_bytes (cabin_start t lo hi) = omega arith

payload_bytes :
    (r : Request) (payload : List ℕ)
    → PayloadOf r payload
    → All IsByte payload × (length payload ≤ 255)
payload_bytes (start mode target level) payload h = start_bytes h
payload_bytes initialization payload h = rw h (tt, omega arith)
payload_bytes status payload h = rw h (tt, omega arith)
payload_bytes shutdown payload h = rw h (tt, omega arith)

command-IsByte : (r : Request) → IsByte (command_of r)
command-IsByte initialization = omega arith
command-IsByte status = omega arith
command-IsByte shutdown = omega arith
command-IsByte (start mode target level) = omega arith

as_frame :
    (command : ℕ) (payload : List ℕ)
    → build_request command payload ≡ build_frame command payload device_controller 0
unfolding build_request
as_frame command payload = refl

-- Every frame that a request sends parses, with a valid checksum, to the controller's device byte
-- and the request's own command. INIT, STATUS and SHUTDOWN carry no payload; START carries the
-- payload of its mode, with a power level from 1 to 9 or a target from 5 to 30 degrees.
pub request_frames :
    (r : Request) (raw : List ℕ)
    → frame_for r ≡ ok raw
    → (f : Frame) × (parse_frame raw ≡ ok f)
      × (f.crc_valid ≡ true)
      × (f.device ≡ device_controller)
      × (f.command ≡ command_of r)
      × PayloadOf r f.payload
request_frames r raw e =
    let (payload, p, b) = request_payload r raw e in
    let (bs, n) = payload_bytes r payload p in
    let (raw', f, built, parse, c, pl, d, z, valid, st) =
      parse-build (command_of r) payload device_controller 0 (command-IsByte r) (omega arith)
        (omega arith) bs n in
    let same : raw' ≡ raw = ok-eq (sym built ∙ sym (as_frame (command_of r) payload) ∙ b) in
    (f, rw same at parse, valid, d, c, rw pl p)
