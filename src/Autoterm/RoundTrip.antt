-- ===== src/Autoterm/RoundTrip.antt =====
-- `build_frame` and `parse_frame` (protocol/autoterm_protocol.py) are inverse to each other on
-- frames with a valid checksum, and a damaged byte shows.
use mathlib.Core.Path.{subst}
use landy_heater.Prelude.{
  ℕ, ◌+◌, ◌*◌, ◌/◌, ◌%◌, ◌≤◌, ◌<◌, ◌≡◌, refl, sym, ◌∙◌, ap, ◌≢◌, inl, inr, true, false, ◌&&◌, none,
  some, List, [], ◌∷◌, ◌++◌, arith, ◌==◌, ==_iff, if◌then◌else◌, Bool-cases, length, get_or,
  two_elements, take, drop, take-append-drop, length-take, length-drop, All, All-append, All-left,
  All-right, ok,
}
use landy_heater.Crc16.{crc16}
use landy_heater.Crc16.Laws.{IsByte, checksum, checksum-lt, crc16-eq-checksum, crc16_detects_byte}
use landy_heater.Framing.{frame_start}
use landy_heater.Autoterm.{
  build_frame, without_crc, parse_status_fields, Frame, frame_of, parse_frame, cmd_status,
  device_heater,
}
use landy_heater.Autoterm.Parse.{
  all_bytes-All, parse-Passes, parse_checked, body_of, parsed, parse_body, build_body, body-bytes,
  tail-bytes, received_crc_tail, without_crc_tail,
}

-- A frame that parses is its fields, written out with its two checksum bytes behind them.
pub record IsWritten (raw : List ℕ) (f : Frame) : Type 0 where
  pub command_byte : IsByte f.command
  pub device_byte : IsByte f.device
  pub reserved_byte : IsByte f.reserved
  pub payload_bytes : All IsByte f.payload
  pub payload_short : length f.payload ≤ 255
  pub received_word : f.crc_received < 65536
  pub written :
      raw
      ≡ body_of f.command f.payload f.device f.reserved
        ++ f.crc_received / 256 ∷ f.crc_received % 256 ∷ []
  pub calculated : f.crc_calculated ≡ checksum (body_of f.command f.payload f.device f.reserved)
  pub valid : f.crc_valid ≡ (f.crc_received == f.crc_calculated)

-- A list that passes the parser's checks, taken apart.
pub record Shape (raw : List ℕ) : Type 0 where
  pub command : ℕ
  pub payload : List ℕ
  pub device : ℕ
  pub reserved : ℕ
  pub high : ℕ
  pub low : ℕ
  pub shape : raw ≡ body_of command payload device reserved ++ high ∷ low ∷ []

Shape-of :
    (raw : List ℕ)
    → 7 ≤ length raw
    → get_or raw 0 0 ≡ frame_start
    → length raw ≡ get_or raw 2 0 + 7
    → Shape raw
Shape-of (a ∷ d ∷ n ∷ r ∷ c ∷ rest) h s e =
    let len : length rest ≡ n + 2 = omega arith in
    let p : length (take n rest) ≡ n = omega (arith, length-take n rest) in
    let q : length (drop n rest) ≡ 2 = omega (arith, length-drop n rest) in
    record {
      command = c;
      payload = take n rest;
      device = d;
      reserved = r;
      high = get_or (drop n rest) 0 0;
      low = get_or (drop n rest) 1 0;
      shape = cc (s, p, two_elements (drop n rest) 0 q, take-append-drop n rest);
    }
Shape-of _ h s e = absurd (omega arith)

parsed-IsWritten :
    (command : ℕ) (payload : List ℕ) (device reserved h l : ℕ)
    → All IsByte (body_of command payload device reserved ++ h ∷ l ∷ [])
    → IsWritten
        (body_of command payload device reserved ++ h ∷ l ∷ [])
        (parsed command payload device reserved h l)
parsed-IsWritten command payload device reserved h l b =
    let body = body_of command payload device reserved in
    let bs = All-left IsByte body (h ∷ l ∷ []) b in
    let tail = All-right IsByte body (h ∷ l ∷ []) b in
    record {
      command_byte = omega arith;
      device_byte = omega arith;
      reserved_byte = omega arith;
      payload_bytes = bs.1.1.1.1.1;
      payload_short = omega arith;
      received_word = omega arith;
      written =
          let p : h ≡ (h * 256 + l) / 256 = omega arith in
          let q : l ≡ (h * 256 + l) % 256 = omega arith in λ i. body ++ p i ∷ q i ∷ [];
      calculated = refl;
      valid = refl;
    }

-- What `parse_frame` accepts is exactly the written-out form of the fields that it returns, with
-- its two checksum bytes; the calculated checksum is that of the other bytes, and `crc_valid`
-- says whether the two agree.
pub parse-IsWritten : (raw : List ℕ) (f : Frame) → parse_frame raw ≡ ok f → IsWritten raw f
parse-IsWritten raw f e =
    let (b, n, s, d) = parse-Passes raw f e in
    let t = Shape-of raw n s d in
    let bytes = subst (All IsByte) t.shape (all_bytes-All raw b) in
    let p = parse_body t.command t.payload t.device t.reserved t.high t.low bytes in
    let w = parsed-IsWritten t.command t.payload t.device t.reserved t.high t.low bytes in
    let same : parsed t.command t.payload t.device t.reserved t.high t.low ≡ f =
      cc (e, p, t.shape) in
    subst (λ r. IsWritten r f) (sym t.shape)
      (subst (IsWritten (body_of t.command t.payload t.device t.reserved ++ t.high ∷ t.low ∷ []))
        same w)

-- A frame with a valid checksum is what `build_frame` makes of its command, payload, device and
-- reserved byte.
pub build-parse :
    (raw : List ℕ) (f : Frame)
    → parse_frame raw ≡ ok f
    → f.crc_valid ≡ true
    → build_frame f.command f.payload f.device f.reserved ≡ ok raw
build-parse raw f e v =
    let w = parse-IsWritten raw f e in
    let c : f.crc_received ≡ checksum (body_of f.command f.payload f.device f.reserved) =
      ground (arith, w) in
    build_body f.command f.payload f.device f.reserved w.command_byte w.device_byte w.reserved_byte
      w.payload_bytes w.payload_short
    ∙ ap ok (rw c at (sym w.written))

-- What `build_frame` makes of byte arguments and at most 255 payload bytes parses, to the same
-- command, payload, device and reserved byte, with a valid checksum; it has status fields exactly
-- if it is a STATUS frame of the heater.
pub parse-build :
    (command : ℕ) (payload : List ℕ) (device reserved : ℕ)
    → IsByte command
    → IsByte device
    → IsByte reserved
    → All IsByte payload
    → length payload ≤ 255
    → (raw : List ℕ) × (f : Frame) × (build_frame command payload device reserved ≡ ok raw)
      × (parse_frame raw ≡ ok f)
      × (f.command ≡ command)
      × (f.payload ≡ payload)
      × (f.device ≡ device)
      × (f.reserved ≡ reserved)
      × (f.crc_valid ≡ true)
      × (f.status ≡ (
          if (command == cmd_status) && (device == device_heater)
          then some (parse_status_fields raw)
          else none))
parse-build command payload device reserved bc bd br bp n =
    let body = body_of command payload device reserved in
    let bs = body-bytes command payload device reserved bc bd br bp n in
    let lt = checksum-lt body bs in
    let h = checksum body / 256 in
    let l = checksum body % 256 in
    (
      body ++ h ∷ l ∷ [],
      parsed command payload device reserved h l,
      build_body command payload device reserved bc bd br bp n,
      parse_body command payload device reserved h l
          (All-append IsByte body (h ∷ l ∷ []) bs (tail-bytes (checksum body) lt)),
      refl,
      refl,
      refl,
      refl,
      (==_iff (h * 256 + l) (checksum body)).1 (omega arith),
      refl,
    )

-- The verdict on the checksum of a frame that parses, by its tail.
valid_by_tail :
    (t : List ℕ) (h l : ℕ) (f : Frame)
    → parse_frame (t ++ h ∷ l ∷ []) ≡ ok f
    → All IsByte t × (f.crc_valid ≡ (h * 256 + l == checksum t))
valid_by_tail t h l f e =
    let raw = t ++ h ∷ l ∷ [] in
    let (b, n, s, d) = parse-Passes raw f e in
    let bs = All-left IsByte t (h ∷ l ∷ []) (all_bytes-All raw b) in
    let c : crc16 (without_crc raw) ≡ ok (checksum t) =
      ap crc16 (without_crc_tail t h l) ∙ crc16-eq-checksum t bs in
    let g = parse_checked raw (checksum t) b n s d c in
    let same : f ≡ frame_of raw (checksum t) = cc (e, g) in
    (
      bs,
      ap (λ (x : Frame). x.crc_valid) same
          ∙ (unfold frame_of in ap (λ (x : ℕ). x == checksum t) (received_crc_tail t h l)),
    )

-- One damaged byte shows: where a byte of a frame with a valid checksum, other than its two
-- checksum bytes, is replaced by another, what still parses has no valid checksum.
pub damage_detected :
    (xs ys : List ℕ) (a b h l : ℕ) (g f : Frame)
    → parse_frame ((xs ++ a ∷ ys) ++ h ∷ l ∷ []) ≡ ok g
    → g.crc_valid ≡ true
    → a ≢ b
    → parse_frame ((xs ++ b ∷ ys) ++ h ∷ l ∷ []) ≡ ok f
    → f.crc_valid ≡ false
damage_detected xs ys a b h l g f eg v ne ef =
    let (bg, vg) = valid_by_tail (xs ++ a ∷ ys) h l g eg in
    let (bf, vf) = valid_by_tail (xs ++ b ∷ ys) h l f ef in
    elim (Bool-cases f.crc_valid) [
      | inl y ↦
          let p : h * 256 + l ≡ checksum (xs ++ a ∷ ys) = ground arith in
          let q : h * 256 + l ≡ checksum (xs ++ b ∷ ys) = ground arith in
          absurd (
            ne (
              crc16_detects_byte xs ys a b (All-left IsByte xs (a ∷ ys) bg)
                (All-right IsByte xs (a ∷ ys) bg).1 (All-right IsByte xs (a ∷ ys) bg).0
                (All-right IsByte xs (b ∷ ys) bf).0
                (cc (
                  p,
                  q,
                  crc16-eq-checksum (xs ++ a ∷ ys) bg,
                  crc16-eq-checksum (xs ++ b ∷ ys) bf,
                ))))
      | inr n ↦ n
    ]
