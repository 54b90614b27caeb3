-- ===== src/Examples/Wire.antt =====
-- The checksum, the framing and the frames of protocol/ at concrete bytes.
use landy_heater.Prelude.{
  ℕ, ◌+◌, ◌<◌, ◌≡◌, refl, true, false, none, some, List, [], ◌∷◌, ◌++◌, length, All, ok,
}
use landy_heater.Crc16.{crc16, shift_bit, shift_bits, update_crc, crc_loop}
use landy_heater.Crc16.Laws.{crc16_detects_byte}
use landy_heater.Framing.{
  RawParser, Extracted, feed, recover_after_timeout, extract, extract_frames, pass, classify,
  skip_noise, skip_noise_from, is_rejected, discard_first_byte,
}
use landy_heater.Framing.Loop.{held, total_length}
use landy_heater.Framing.Chunks.{feed_chunks}
use landy_heater.Framing.Frames.{
  IsFrame, IsPending, Feeds, feed_frames, feed-Feeds, recover_progress,
}
use landy_heater.Autoterm.{
  power, Frame, parse_frame, build_frame, build_request, build_start_for_mode, parse_status_fields,
  cmd_start, frame_of,
}
use landy_heater.Autoterm.RoundTrip.{
  IsWritten, parse-IsWritten, build-parse, parse-build, damage_detected,
}
use landy_heater.Autoterm.Status.{StartPayload, status_hides_crc, start_requests}
use native.Mathlib.Omega.{arith}

crc16_detects_byte_example : ◌≡◌ {A = ℕ} 5 5
crc16_detects_byte_example =
    crc16_detects_byte (0xAA ∷ []) (7 ∷ []) 5 5 (omega arith, tt) (omega arith, tt) (omega arith)
      (omega arith) refl

-- A parser with no validator, which has discarded two bytes.
abbrev parser : RawParser
parser = record {
  buffer = [];
  max_frame_length = 262;
  start = 0xAA;
  frame_validator = none;
  discarded_bytes = 2;
  rejected_candidates = 0;
}

abbrev init_request : List ℕ
init_request = 0xAA ∷ 3 ∷ 0 ∷ 0 ∷ 4 ∷ 159 ∷ 61 ∷ []

abbrev status_request : List ℕ
status_request = 0xAA ∷ 3 ∷ 0 ∷ 0 ∷ 15 ∷ 88 ∷ 124 ∷ []

abbrev half_read : RawParser
half_read = record parser { buffer = 0xAA ∷ 3 ∷ 0 ∷ []; discarded_bytes = 3 }

feed_first : feed parser (9 ∷ 0xAA ∷ 3 ∷ 0 ∷ []) ≡ ok (some ([], half_read))
unfolding feed extract_frames extract pass classify skip_noise skip_noise_from discard_first_byte
    is_rejected
feed_first = refl

feed_second :
    feed half_read (0 ∷ 4 ∷ 159 ∷ 61 ∷ [])
    ≡ ok (some (init_request ∷ [], record parser { discarded_bytes = 3 }))
unfolding feed extract_frames extract pass classify skip_noise skip_noise_from discard_first_byte
    is_rejected
feed_second = refl

feed_chunks_example :
    feed parser (9 ∷ 0xAA ∷ 3 ∷ 0 ∷ 0 ∷ 4 ∷ 159 ∷ 61 ∷ [])
    ≡ ok (some (init_request ∷ [], record parser { discarded_bytes = 3 }))
feed_chunks_example =
    feed_chunks parser (9 ∷ 0xAA ∷ 3 ∷ 0 ∷ []) (0 ∷ 4 ∷ 159 ∷ 61 ∷ []) [] (init_request ∷ [])
      half_read (record parser { discarded_bytes = 3 }) feed_first feed_second

init_request-IsFrame : IsFrame parser init_request
unfolding is_rejected
init_request-IsFrame = record {
  marker = refl;
  declared = refl;
  fits = omega arith;
  accepted = refl;
}

status_request-IsFrame : IsFrame parser status_request
unfolding is_rejected
status_request-IsFrame = record {
  marker = refl;
  declared = refl;
  fits = omega arith;
  accepted = refl;
}

feed_frames_example :
    feed parser (init_request ++ status_request)
    ≡ ok (some (init_request ∷ status_request ∷ [], parser))
feed_frames_example =
    feed_frames parser (init_request ∷ status_request ∷ []) refl refl
      (init_request-IsFrame, (status_request-IsFrame, tt))

feed-Feeds_example : (r : Extracted) × Feeds half_read (1 ∷ 0xAA ∷ []) r
feed-Feeds_example = feed-Feeds half_read (1 ∷ 0xAA ∷ []) refl

recover_progress_example :
    (r : Extracted) × (recover_after_timeout half_read ≡ some r)
    × All (IsFrame half_read) r.0
    × IsPending r.1
    × (held r.1 + total_length r.0 ≡ held half_read)
    × (length r.1.buffer + total_length r.0 < 3)
recover_progress_example = recover_progress half_read (omega arith)

-- The answer of the heater to a STATUS request, cut short to one byte of payload.
abbrev short_status : List ℕ
short_status = 0xAA ∷ 4 ∷ 1 ∷ 0 ∷ 15 ∷ 7 ∷ 31 ∷ 172 ∷ []

abbrev short_frame : Frame
short_frame = frame_of short_status 8108

parse_short : parse_frame short_status ≡ ok short_frame
unfolding parse_frame crc16 crc_loop update_crc shift_bits shift_bit
parse_short = refl

parse-IsWritten_example : IsWritten short_status short_frame
parse-IsWritten_example = parse-IsWritten short_status short_frame parse_short

build-parse_example : build_frame 15 (7 ∷ []) 4 0 ≡ ok short_status
unfolding frame_of parse_status_fields
build-parse_example = build-parse short_status short_frame parse_short refl

parse-build_example :
    (raw : List ℕ) × (f : Frame) × (build_frame 15 (7 ∷ []) 4 0 ≡ ok raw)
    × (parse_frame raw ≡ ok f)
    × (f.command ≡ 15)
    × (f.payload ≡ 7 ∷ [])
    × (f.device ≡ 4)
    × (f.reserved ≡ 0)
    × (f.crc_valid ≡ true)
    × (f.status ≡ some (parse_status_fields raw))
parse-build_example =
    parse-build 15 (7 ∷ []) 4 0 (omega arith) (omega arith) (omega arith) (omega arith, tt)
      (omega arith)

abbrev damaged_status : List ℕ
damaged_status = 0xAA ∷ 4 ∷ 1 ∷ 0 ∷ 15 ∷ 8 ∷ 31 ∷ 172 ∷ []

parse_damaged : parse_frame damaged_status ≡ ok (frame_of damaged_status 7148)
unfolding parse_frame crc16 crc_loop update_crc shift_bits shift_bit
parse_damaged = refl

damage_detected_example : (frame_of damaged_status 7148).crc_valid ≡ false
unfolding frame_of
damage_detected_example =
    damage_detected (0xAA ∷ 4 ∷ 1 ∷ 0 ∷ 15 ∷ []) [] 7 8 31 172 short_frame
      (frame_of damaged_status 7148) parse_short refl (λ e. omega arith) parse_damaged

status_hides_crc_example :
    parse_status_fields (0xAA ∷ 4 ∷ 1 ∷ 0 ∷ 15 ∷ 7 ∷ 31 ∷ 172 ∷ [])
    ≡ parse_status_fields (0xAA ∷ 4 ∷ 1 ∷ 0 ∷ 15 ∷ 7 ∷ 0 ∷ 1 ∷ [])
status_hides_crc_example =
    status_hides_crc (0xAA ∷ 4 ∷ 1 ∷ 0 ∷ 15 ∷ 7 ∷ []) 31 172 0 1 (omega arith)

start_requests_example :
    ((raw : List ℕ)
      → build_start_for_mode power none (some 4) ≡ ok raw
      → (payload : List ℕ) × StartPayload power none (some 4) payload
        × (build_request cmd_start payload ≡ ok raw))
    × ((payload : List ℕ)
        → StartPayload power none (some 4) payload
        → (raw : List ℕ) × (build_start_for_mode power none (some 4) ≡ ok raw)
          × (build_request cmd_start payload ≡ ok raw))
start_requests_example = start_requests power none (some 4)
