-- ===== src/Autoterm/Parse.antt =====
-- `parse_frame` (protocol/autoterm_protocol.py) on a body with a two-byte tail.
use landy_heater.Prelude.{
  ℕ, suc, ◌+◌, ◌-◌, ◌*◌, ◌/◌, ◌%◌, ◌≤◌, ◌<◌, ◌≡◌, refl, ◌∙◌, ap, true, ◌&&◌, none, some, List, [],
  ◌∷◌, ◌++◌, arith, ◌==◌, if◌then◌else◌, length, length-append, get_or, get_or_here, get_or_next,
  take_all, All, All-left, ok,
}
use landy_heater.Crc16.{crc16, append_crc}
use landy_heater.Crc16.Laws.{IsByte, checksum, crc16-eq-checksum, append_crc-eq}
use landy_heater.Framing.{frame_start, all_bytes}
use landy_heater.Autoterm.{
  command_name, build_frame, received_crc, without_crc, parse_status_fields, Frame, frame_of,
  parse_frame, cmd_status, device_heater,
}

pub all_bytes-All : (xs : List ℕ) → all_bytes xs ≡ true → All IsByte xs
all_bytes-All [] h = tt
all_bytes-All (x ∷ xs) h = (ground arith, all_bytes-All xs (ground arith))

pub All→all_bytes : (xs : List ℕ) → All IsByte xs → all_bytes xs ≡ true
All→all_bytes [] h = refl
All→all_bytes (x ∷ xs) h = ground (arith, All→all_bytes xs h.1)

-- A frame's bytes but its two last.
abbrev pub body_of : ℕ → List ℕ → ℕ → ℕ → List ℕ
body_of command payload device reserved =
    frame_start ∷ device ∷ length payload ∷ reserved ∷ command ∷ payload

module _ (b : List ℕ) (h l : ℕ) where
  pub without_crc_tail : without_crc (b ++ h ∷ l ∷ []) ≡ b
  without_crc_tail =
      let e : length (b ++ h ∷ l ∷ []) - 2 ≡ length b =
        omega (arith, length-append b (h ∷ l ∷ [])) in
      rw e (take_all b (h ∷ l ∷ []))

  pub received_crc_tail : received_crc (b ++ h ∷ l ∷ []) ≡ h * 256 + l
  received_crc_tail =
      let n = length-append b (h ∷ l ∷ []) in
      let e : length (b ++ h ∷ l ∷ []) - 2 ≡ length b = omega (arith, n) in
      let f : length (b ++ h ∷ l ∷ []) - 1 ≡ suc (length b) = omega (arith, n) in
      rw (e, f, get_or_here b h (l ∷ []) 0, get_or_next b h l [] 0)

-- What the parser makes of a complete frame with the given tail.
abbrev pub parsed : ℕ → List ℕ → ℕ → ℕ → ℕ → ℕ → Frame
parsed command payload device reserved h l =
    let body = body_of command payload device reserved in
    let raw = body ++ h ∷ l ∷ [] in
    record {
      raw = raw;
      device = device;
      payload_length = length payload;
      reserved = reserved;
      command = command;
      command_text = command_name command;
      payload = payload;
      crc_received = h * 256 + l;
      crc_calculated = checksum body;
      crc_valid = h * 256 + l == checksum body;
      status =
          if (command == cmd_status) && (device == device_heater)
          then some (parse_status_fields raw)
          else none;
    }

frame_of_body :
    (command : ℕ) (payload : List ℕ) (device reserved h l : ℕ)
    → frame_of
        (body_of command payload device reserved ++ h ∷ l ∷ [])
        (checksum (body_of command payload device reserved))
      ≡ parsed command payload device reserved h l
unfolding frame_of
frame_of_body command payload device reserved h l =
    let body = body_of command payload device reserved in
    λ i. record (parsed command payload device reserved h l) {
      payload = take_all payload (h ∷ l ∷ []) i;
      crc_received = received_crc_tail body h l i;
      crc_valid = received_crc_tail body h l i == checksum body;
    }

-- The checks of the parser, on the form that passes them.
pub parse_checked :
    (raw : List ℕ) (crc : ℕ)
    → all_bytes raw ≡ true
    → 7 ≤ length raw
    → get_or raw 0 0 ≡ frame_start
    → length raw ≡ get_or raw 2 0 + 7
    → crc16 (without_crc raw) ≡ ok crc
    → parse_frame raw ≡ ok (frame_of raw crc)
unfolding parse_frame
parse_checked raw crc b n m d c = ground arith

abbrev pub Passes : List ℕ → Type 0
Passes raw =
    (all_bytes raw ≡ true)
    × (7 ≤ length raw)
    × (get_or raw 0 0 ≡ frame_start)
    × (length raw ≡ get_or raw 2 0 + 7)

pub parse-Passes : (raw : List ℕ) (f : Frame) → parse_frame raw ≡ ok f → Passes raw
unfolding parse_frame
parse-Passes raw f e = ground arith

-- A complete frame of bytes parses, whatever its tail.
pub parse_body :
    (command : ℕ) (payload : List ℕ) (device reserved h l : ℕ)
    → All IsByte (body_of command payload device reserved ++ h ∷ l ∷ [])
    → parse_frame (body_of command payload device reserved ++ h ∷ l ∷ [])
      ≡ ok (parsed command payload device reserved h l)
parse_body command payload device reserved h l bs =
    let body = body_of command payload device reserved in
    let n = length-append payload (h ∷ l ∷ []) in
    parse_checked (body ++ h ∷ l ∷ []) (checksum body) (All→all_bytes (body ++ h ∷ l ∷ []) bs)
      (omega arith) refl (omega arith)
      (ap crc16 (without_crc_tail body h l)
        ∙ crc16-eq-checksum body (All-left IsByte body (h ∷ l ∷ []) bs))
    ∙ ap ok (frame_of_body command payload device reserved h l)

build_checked :
    (command : ℕ) (payload : List ℕ) (device reserved : ℕ)
    → IsByte command
    → IsByte device
    → IsByte reserved
    → all_bytes payload ≡ true
    → length payload ≤ 255
    → build_frame command payload device reserved
      ≡ append_crc (body_of command payload device reserved)
unfolding build_frame
build_checked command payload device reserved bc bd br bp n = ground arith

pub body-bytes :
    (command : ℕ) (payload : List ℕ) (device reserved : ℕ)
    → IsByte command
    → IsByte device
    → IsByte reserved
    → All IsByte payload
    → length payload ≤ 255
    → All IsByte (body_of command payload device reserved)
body-bytes command payload device reserved bc bd br bp n = (omega arith, (bd, (n, (br, (bc, bp)))))

-- `build_frame` is defined on bytes, and puts the checksum behind the body.
pub build_body :
    (command : ℕ) (payload : List ℕ) (device reserved : ℕ)
    → IsByte command
    → IsByte device
    → IsByte reserved
    → All IsByte payload
    → length payload ≤ 255
    → let body = body_of command payload device reserved in
      build_frame command payload device reserved
      ≡ ok (body ++ checksum body / 256 ∷ checksum body % 256 ∷ [])
build_body command payload device reserved bc bd br bp n =
    build_checked command payload device reserved bc bd br (All→all_bytes payload bp) n
    ∙ append_crc-eq (body_of command payload device reserved)
        (body-bytes command payload device reserved bc bd br bp n)

pub tail-bytes : (c : ℕ) → c < 65536 → All IsByte (c / 256 ∷ c % 256 ∷ [])
tail-bytes c h = (omega arith, (omega arith, tt))

pub raw-parse : (raw : List ℕ) (f : Frame) → parse_frame raw ≡ ok f → f.raw ≡ raw
unfolding parse_frame frame_of
raw-parse raw f e = ground arith
