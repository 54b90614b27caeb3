-- ===== src/Framing.antt =====
-- protocol/autoterm_frames.py: `RawFrameStreamParser`, which cuts a byte stream into raw frames.
pub mod Loop
pub mod Chunks
pub mod Frames
use landy_heater.Prelude.{
  ℕ, zero, suc, ◌+◌, ◌≡◌, Bool, true, false, not, ◌&&◌, ◌||◌, Option, none, some, List, [], ◌∷◌,
  ◌++◌, ltb, ◌==◌, if◌then◌else◌, length, get_or, take, drop, Result, ok, err, value_error, ◌>>=◌,
  ◌>>◌, require,
}

abbrev pub frame_start : ℕ
frame_start = 0xAA

abbrev pub max_protocol_frame_length : ℕ
max_protocol_frame_length = 0xFF + 7

-- The attributes that the constructor sets once, and those that the methods change.
pub record RawParser : Type 0 where
  pub buffer : List ℕ
  pub max_frame_length : ℕ
  pub start : ℕ
  pub frame_validator : Option (List ℕ → Bool)
  pub discarded_bytes : ℕ
  pub rejected_candidates : ℕ

-- `__init__`; that the validator is callable is its type.
unfoldable pub new : ℕ → ℕ → Option (List ℕ → Bool) → Result RawParser
new max_frame_length start frame_validator = do
  require (not (ltb max_frame_length 7)) (value_error "max_frame_length must be at least 7")
  require (not (ltb max_protocol_frame_length max_frame_length))
      (value_error "max_frame_length cannot exceed 262")
  require (not (ltb 0xFF start)) (value_error "frame_start must be an integer from 0 to 255")
  ok (record {
    buffer = [];
    max_frame_length = max_frame_length;
    start = start;
    frame_validator = frame_validator;
    discarded_bytes = 0;
    rejected_candidates = 0;
  })

unfoldable pub reset : RawParser → RawParser
reset p = record p { buffer = []; discarded_bytes = 0; rejected_candidates = 0 }

unfoldable pub discard_first_byte : RawParser → RawParser
discard_first_byte p = record p {
  buffer = drop 1 p.buffer;
  discarded_bytes = p.discarded_bytes + 1;
}

-- `while self.buffer and self.buffer[0] != self.frame_start`, over the buffer's bytes.
unfoldable pub skip_noise_from : List ℕ → RawParser → RawParser
unfolding discard_first_byte
skip_noise_from [] p = p
skip_noise_from (b ∷ rest) p =
    if b == p.start then p else skip_noise_from rest (discard_first_byte p)

unfoldable pub skip_noise : RawParser → RawParser
unfolding skip_noise_from
skip_noise p = skip_noise_from p.buffer p

-- How a pass of `while True` ends: `break`, `continue`, or a frame and the next pass.
pub data Pass : Type 0 where
  stop again : RawParser → Pass
  emit : List ℕ → RawParser → Pass

-- `self.frame_validator is not None and not self.frame_validator(candidate)`
unfoldable pub is_rejected : Option (List ℕ → Bool) → List ℕ → Bool
is_rejected none candidate = false
is_rejected (some validator) candidate = not (validator candidate)

-- The pass behind the skipped noise.
unfoldable pub classify : RawParser → Pass
unfolding discard_first_byte
classify p =
    let expected_length = get_or p.buffer 2 0 + 7 in
    let candidate = take expected_length p.buffer in
    if ltb (length p.buffer) 3
    then stop p
    else if ltb p.max_frame_length expected_length
    then again (discard_first_byte p)
    else if ltb (length p.buffer) expected_length
    then stop p
    else if is_rejected p.frame_validator candidate
    then again (discard_first_byte (record p { rejected_candidates = p.rejected_candidates + 1 }))
    else emit candidate (record p { buffer = drop expected_length p.buffer })

unfoldable pub pass : RawParser → Pass
unfolding classify skip_noise
pass p = classify (skip_noise p)

abbrev pub Extracted : Type 0
Extracted = List (List ℕ) × RawParser

abbrev pub with_frame : List ℕ → Option Extracted → Option Extracted
with_frame f none = none
with_frame f (some (fs, q)) = some (f ∷ fs, q)

-- What follows a pass, where `rest` runs the next one.
abbrev pub after : (RawParser → Option Extracted) → Pass → Option Extracted
after rest (stop q) = some ([], q)
after rest (again q) = rest q
after rest (emit f q) = with_frame f (rest q)

-- `while True` on fuel; `none` means that the fuel ran out.
unfoldable pub extract : ℕ → RawParser → Option Extracted
extract zero p = none
extract (suc n) p = after (extract n) (pass p)

-- Each pass but the last removes a byte, so the buffer's length bounds the passes.
unfoldable pub extract_frames : RawParser → Option Extracted
unfolding extract
extract_frames p = extract (suc (length p.buffer)) p

-- `self.buffer.extend(data)`
abbrev pub extend : RawParser → List ℕ → RawParser
extend p bytes = record p { buffer = p.buffer ++ bytes }

-- Bytes above 255 make `extend` raise before anything is stored.
abbrev pub all_bytes : List ℕ → Bool
all_bytes [] = true
all_bytes (b ∷ bs) = not (ltb 0xFF b) && all_bytes bs

unfoldable pub feed : RawParser → List ℕ → Result (Option Extracted)
unfolding extract_frames
feed p bytes =
    if all_bytes bytes
    then ok (extract_frames (extend p bytes))
    else err (value_error "stream data must contain byte values")

unfoldable pub recover_after_timeout : RawParser → Option Extracted
unfolding skip_noise extract_frames discard_first_byte
recover_after_timeout p = elim p.buffer [
  | [] ↦ some ([], p)
  | b ∷ rest ↦ extract_frames (skip_noise (discard_first_byte p))
]
