-- ===== src/RateLimit/Pause.antt =====
-- services/rest_rate_limiter.py: the pause after a change of the configuration, whatever is asked meanwhile.
use landy_heater.Prelude.{
  ℕ, ◌≡◌, refl, true, false, Option, none, some, List, [], ◌∷◌, All, ok, String,
}
use landy_heater.Prelude.Int.{ℤ, pos, ltb_ℤ}
use landy_heater.RateLimit.Peers.{config_cooldown_ms, PeerState, canonical_peer, is_config_mutation}
use landy_heater.RateLimit.Limiter.{Limiter, Ticket, find_peer, complete}
use landy_heater.RateLimit.Known.{names, Holds, Keeps}
use landy_heater.RateLimit.Admitted.{Counts}
use landy_heater.RateLimit.Followed.{PeerRequest, IsKnown, ask, after_requests, authorize-Left}
use landy_heater.RateLimit.Cooldown.{CommittedIn, authorize-Never, complete-Recorded}

module _ (ticks_diff : ℕ → ℕ → ℤ) (completed : ℕ) where
  -- The state has the time of the last change of the configuration.
  abbrev Changed : ℕ → PeerState → Type 0
  Changed n s = (s.has_config_commit ≡ true) × (s.last_config_ms ≡ completed)

  -- No request takes the time of the last change away.
  keeps_change : (now_ms : ℕ) → Counts ticks_diff now_ms Changed
  keeps_change now_ms = record {
    counted = λ n s elapsed window h d w. h;
    mutated = λ n s started count h. h;
    seen = λ n s t h. h;
    fewer = λ n s h. h;
  }

  after_requests-Keeps :
      (requests : List PeerRequest) (ns : List String) (peer : String) (l : Limiter)
      → All (IsKnown ns) requests
      → Keeps ns peer (Changed 0) l.peers
      → Keeps ns peer (Changed 0) (after_requests ticks_diff requests l).peers
  after_requests-Keeps [] ns peer l known i = i
  after_requests-Keeps (r ∷ rest) ns peer l (k, known) i =
      after_requests-Keeps rest ns peer (ask ticks_diff r l).1 known
        (authorize-Left ticks_diff r ns peer Changed (keeps_change r.now_ms) k 0 false (λ o. cc) l
          i).0

  module _ (now_ms : ℕ)
      (early : ltb_ℤ (ticks_diff now_ms completed) (pos config_cooldown_ms) ≡ true) where
    as-Changed :
        (o : Option (ℕ × PeerState))
        → CommittedIn ticks_diff completed now_ms early o
        → Holds (Changed 0) o
    as-Changed none h = h
    as-Changed (some found) h = h

    as-CommittedIn :
        (o : Option (ℕ × PeerState))
        → Holds (Changed 0) o
        → CommittedIn ticks_diff completed now_ms early o
    as-CommittedIn none h = h
    as-CommittedIn (some found) h = h

  -- A peer completes a change of the configuration, and the completion returns. Then come any requests, at any
  -- times, of peers that the table has after the completion (or whose names are refused): let through or
  -- refused, of this peer or of others. A request of the peer after them that may change the
  -- configuration again, at a time less than five seconds after the change as the clock says, is not let
  -- through. (A peer that the table does not have may take the place of a stale one, with its pause.)
  pub change_cools_down :
      (ticket : Ticket) (requests : List PeerRequest) (last : PeerRequest) (l : Limiter)
      (answer : Option Ticket)
      → ticket.config_mutation ≡ true
      → (complete ticks_diff (some ticket) true (some completed) l).0 ≡ ok tt
      → All
          (IsKnown (names (complete ticks_diff (some ticket) true (some completed) l).1.peers))
          requests
      → canonical_peer last.raw_peer ≡ ok ticket.peer
      → is_config_mutation last.request_method last.path ≡ true
      → ltb_ℤ (ticks_diff last.now_ms completed) (pos config_cooldown_ms) ≡ true
      → ¬ (
          (ask ticks_diff last (
            after_requests ticks_diff requests
              (complete ticks_diff (some ticket) true (some completed) l).1)).0
          ≡ ok answer)
  change_cools_down ticket requests last l answer mutation done known canonical config early
        allowed =
      let d = (complete ticks_diff (some ticket) true (some completed) l).1 in
      let recorded =
        as-Changed last.now_ms early (find_peer ticket.peer d.peers)
          (complete-Recorded ticks_diff completed last.now_ms early ticket l mutation done) in
      let kept =
        after_requests-Keeps requests (names d.peers) ticket.peer d known (refl, recorded) in
      let e = after_requests ticks_diff requests d in
      rw (allowed) at (
        authorize-Never ticks_diff completed last.now_ms early last.raw_peer last.request_method
          last.path ticket.peer e canonical config
          (as-CommittedIn last.now_ms early (find_peer ticket.peer e.peers) kept.1))
