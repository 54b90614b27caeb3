-- ===== src/RateLimit/Windowed.antt =====
-- services/rest_rate_limiter.py: how many requests a window lets through.
use text.Mathlib.Text.{◌==◌ as str_eq}
use landy_heater.Prelude.{
  ℕ, ◌+◌, ◌≤◌, ◌≡◌, Bool, true, false, ◌&&◌, Option, some, List, [], ◌∷◌, String, if◌then◌else◌,
  Result, ok, err,
}
use landy_heater.Prelude.Int.{ℤ, pos, ltb_ℤ}
use landy_heater.RateLimit.Peers.{
  request_window_ms, max_requests_per_window, PeerState, canonical_peer,
}
use landy_heater.RateLimit.Limiter.{Limiter, Ticket}
use landy_heater.RateLimit.Followed.{PeerRequest, ask}

abbrev pub is_named_as : String → Result String → Bool
is_named_as peer (err e) = false
is_named_as peer (ok q) = str_eq q peer

abbrev pub has_ticket : Result (Option Ticket) → Bool
has_ticket (ok (some ticket)) = true
has_ticket r = false

-- The request is made before the window that started at this time is over.
abbrev pub IsInWindow : (ℕ → ℕ → ℤ) → ℕ → PeerRequest → Type 0
IsInWindow ticks_diff started r = ltb_ℤ (ticks_diff r.now_ms started) (pos request_window_ms) ≡ true

module _ (ticks_diff : ℕ → ℕ → ℤ) where
  -- How many requests of this peer are let through.
  abbrev pub let_through : String → List PeerRequest → Limiter → ℕ
  let_through peer [] l = 0
  let_through peer (r ∷ rest) l =
      let later = let_through peer rest (ask ticks_diff r l).1 in
      if is_named_as peer (canonical_peer r.raw_peer) && has_ticket (ask ticks_diff r l).0
      then later + 1
      else later

  -- At least `n` requests are counted in the window that started at this time, and at most ten.
  abbrev Counted : ℕ → ℕ → PeerState → Type 0
  Counted started n s =
      (s.request_started_ms ≡ started)
      × (n ≤ s.request_count)
      × (s.request_count ≤ max_requests_per_window)
