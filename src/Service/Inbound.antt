-- ===== src/Service/Inbound.antt =====
-- What `poll_inbound` (protocol/autoterm_service.py) returns.
use landy_heater.Prelude.{
  ℕ, ◌≤◌, ◌≡◌, refl, inl, inr, false, Option, List, [], ◌∷◌, map, arith, length, All, ok, >>=-ok,
  ok-eq, Result-cases, length-map,
}
use landy_heater.Autoterm.{Frame, parse_frame}
use landy_heater.Autoterm.Parse.{raw-parse}
use landy_heater.Service.{
  Transport, Service, max_inbound_frames_per_poll, parse_inbound, poll_inbound,
}

parse_inbound-raw :
    (raws : List (List ℕ)) (fs : List Frame)
    → parse_inbound raws ≡ ok fs
    → map (λ (f : Frame). f.raw) fs ≡ raws
unfolding parse_inbound
parse_inbound-raw [] fs e = rw (← ok-eq e) refl
parse_inbound-raw (r ∷ rs) fs e =
    let (f, k, ef) = >>=-ok (parse_frame r) _ fs e in
    let (gs, k', eg) = >>=-ok (parse_inbound rs) _ fs k in
    rw (← ok-eq k') (cc (raw-parse r f ef, parse_inbound-raw rs gs eg))

-- Each frame is what parsing its raw bytes returns.
parse_inbound-parsed :
    (raws : List (List ℕ)) (fs : List Frame)
    → parse_inbound raws ≡ ok fs
    → All (λ (f : Frame). parse_frame f.raw ≡ ok f) fs
unfolding parse_inbound
parse_inbound-parsed [] fs e = rw (← ok-eq e) tt
parse_inbound-parsed (r ∷ rs) fs e =
    let (f, k, ef) = >>=-ok (parse_frame r) _ fs e in
    let (gs, k', eg) = >>=-ok (parse_inbound rs) _ fs k in
    rw (← ok-eq k') (rw (raw-parse r f ef) ef, parse_inbound-parsed rs gs eg)

module _ {T : Type 0} (transport : Transport T) where
  -- A poll that returns frames was made on an open service and called the transport once. The
  -- transport's raw frames, at most 80, are the raw bytes of the frames returned, in the same order,
  -- and each of these is what `parse_frame` returns for its raw bytes.
  pub poll_in_order :
      (now : Option ℕ) (s : Service T) (fs : List Frame)
      → (poll_inbound transport now s).0 ≡ ok fs
      → (s.closed ≡ false)
        × ((transport.poll now s.wire).0 ≡ ok (map (λ (f : Frame). f.raw) fs))
        × All (λ (f : Frame). parse_frame f.raw ≡ ok f) fs
        × (length fs ≤ max_inbound_frames_per_poll)
        × ((poll_inbound transport now s).1 ≡ record s { wire = (transport.poll now s.wire).1 })
  unfolding poll_inbound
  poll_in_order now s fs e = elim (Result-cases (transport.poll now s.wire).0) [
    | inl (raws, p) ↦ (
      ground arith,
      ground (arith, parse_inbound-raw raws fs),
      parse_inbound-parsed raws fs (ground arith),
      ground (arith, parse_inbound-raw raws fs, length-map fs (λ (f : Frame). f.raw)),
      ground arith,
    )
    | inr (x, p) ↦ ground arith
  ]
