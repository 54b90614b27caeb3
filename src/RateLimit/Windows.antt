-- ===== src/RateLimit/Windows.antt =====
-- services/rest_rate_limiter.py: the steps of `authorize` and the quotas.
use landy_heater.Prelude.{
  ℕ, ◌+◌, ◌-◌, ◌≡◌, refl, true, Option, none, some, List, [], ◌∷◌, String, leb, ltb, length, Result,
  ok, err, rate_limit_exceeded, arith, Bool-cases, inl, inr,
}
use landy_heater.Prelude.Int.{ℤ, pos, negsuc}
use landy_heater.Prelude.Exec.{◌>>◌, pure, modify}
use landy_heater.Prelude.Ensures.{
  Ensures, Post, Ensures-lift, Ensures-pure, Ensures-modify, Ensures-check, Ensures-bind,
}
use landy_heater.RateLimit.Tables.{
  within, IsBounded, Placed, Found, append-within, length-append, find_peer-Found, put-IsBounded,
}
use landy_heater.RateLimit.Peers.{
  max_peers, request_window_ms, mutation_window_ms, config_cooldown_ms, retry_seconds,
  max_requests_per_window, max_mutations_per_window, PeerState, new_peer,
}
use landy_heater.RateLimit.Limiter.{
  found_or_added, find_peer, put, checked, difference, older_of, oldest, replace, add_peer,
  peer_state, next_window, consume_request, consume_mutation, cool_down,
}

abbrev pub Nothing {ℓ} : {A : Type ℓ} → A → Type 0
Nothing a = Unit

pub always {ℓ} : {A : Type ℓ} (r : Result A) → Post Nothing r
always (ok a) = tt
always (err e) = tt

module _ (ticks_diff : ℕ → ℕ → ℤ) where
  checked-Ensures : (d : ℤ) → Ensures IsBounded Nothing (checked ticks_diff d)
  checked-Ensures (pos n) = record { from = λ l i. (tt, i) }
  checked-Ensures (negsuc n) = record { from = λ l i. (tt, i) }

  pub difference-Ensures : (a b : ℕ) → Ensures IsBounded Nothing (difference ticks_diff a b)
  unfolding difference
  difference-Ensures a b = checked-Ensures (ticks_diff a b)

  oldest-Ensures :
      (ps : List PeerState) (place now_ms : ℕ) (best : Option (ℕ × ℕ))
      → Ensures IsBounded Nothing (oldest ticks_diff ps place now_ms best)
  oldest-Ensures [] place now_ms best = record { from = λ l i. (tt, i) }
  oldest-Ensures (s ∷ rest) place now_ms best =
      Ensures-bind IsBounded Nothing Nothing (difference ticks_diff now_ms s.last_seen_ms) _
        (difference-Ensures now_ms s.last_seen_ms)
        (λ age _. oldest-Ensures rest (place + 1) now_ms (older_of ticks_diff best place age))

  replace-Ensures :
      (peer : String) (now_ms : ℕ) (best : Option (ℕ × ℕ))
      → Ensures IsBounded Placed (replace ticks_diff peer now_ms best)
  unfolding new_peer
  replace-Ensures peer now_ms none = record { from = λ l i. (tt, i) }
  replace-Ensures peer now_ms (some b) = record {
    from = λ l i. (refl, put-IsBounded b.0 (new_peer peer now_ms) l refl i);
  }

  add_peer-Ensures :
      (peer : String) (now_ms : ℕ) → Ensures IsBounded Placed (add_peer ticks_diff peer now_ms)
  unfolding new_peer
  add_peer-Ensures peer now_ms = record {
    from = λ l i. elim (Bool-cases (ltb (length l.peers) max_peers)) [
      | inl free ↦ rw (free) (
          (
            refl,
            rw (length-append (new_peer peer now_ms) l.peers)
                (ground (arith, append-within (new_peer peer now_ms) l.peers)),
          ))
      | inr full ↦ rw (full) (
          (Ensures-bind IsBounded Nothing Placed _ _ (oldest-Ensures l.peers 0 now_ms none)
              (λ best _. replace-Ensures peer now_ms best)).from
            l i)
    ];
  }

  found_or_added-Ensures :
      (peer : String) (now_ms : ℕ) (o : Option (ℕ × PeerState))
      → Found o
      → Ensures IsBounded Placed (found_or_added ticks_diff peer now_ms o)
  found_or_added-Ensures peer now_ms none h = add_peer-Ensures peer now_ms
  found_or_added-Ensures peer now_ms (some found) h = Ensures-pure IsBounded Placed found h

  pub peer_state-Ensures :
      (peer : String) (now_ms : ℕ) → Ensures IsBounded Placed (peer_state ticks_diff peer now_ms)
  unfolding peer_state
  peer_state-Ensures peer now_ms = record {
    from = λ l i.
        (found_or_added-Ensures peer now_ms (find_peer peer l.peers)
            (find_peer-Found peer l.peers (ground arith))).from
          l i;
  }

  next_window-Post :
      (started count duration maximum now_ms elapsed : ℕ)
      → Post
          (λ w. leb w.1 maximum ≡ true)
          (next_window ticks_diff started count duration maximum now_ms elapsed)
  next_window-Post started count duration maximum now_ms elapsed = ground arith

  abbrev pub Within : PeerState → Type 0
  Within s = within s ≡ true

  put-Ensures :
      (place : ℕ) (s : PeerState)
      → within s ≡ true
      → Ensures IsBounded Within (modify (λ l. record l { peers = put place s l.peers }) >> pure s)
  put-Ensures place s h =
      Ensures-bind IsBounded (λ _. Unit {0}) Within _ _
        (Ensures-modify IsBounded _ (λ l i. put-IsBounded place s l h i))
        (λ _ _. Ensures-pure IsBounded Within s h)

  pub consume_request-Ensures :
      (place : ℕ) (s : PeerState) (now_ms : ℕ)
      → within s ≡ true
      → Ensures IsBounded Within (consume_request ticks_diff place s now_ms)
  unfolding consume_request
  consume_request-Ensures place s now_ms h =
      Ensures-bind IsBounded Nothing Within _ _ (difference-Ensures now_ms s.request_started_ms)
        λ elapsed _.
          Ensures-bind IsBounded (λ w. leb w.1 max_requests_per_window ≡ true) Within _ _
            (Ensures-lift IsBounded (λ w. leb w.1 max_requests_per_window ≡ true)
              (next_window ticks_diff s.request_started_ms s.request_count request_window_ms
                max_requests_per_window now_ms elapsed)
              (next_window-Post s.request_started_ms s.request_count request_window_ms
                max_requests_per_window now_ms elapsed))
            λ window bound.
              put-Ensures place
                (record s { request_started_ms = window.0; request_count = window.1 })
                (ground arith)

  pub consume_mutation-Ensures :
      (place : ℕ) (s : PeerState) (now_ms : ℕ)
      → within s ≡ true
      → Ensures IsBounded Within (consume_mutation ticks_diff place s now_ms)
  unfolding consume_mutation
  consume_mutation-Ensures place s now_ms h =
      Ensures-bind IsBounded Nothing Within _ _ (difference-Ensures now_ms s.mutation_started_ms)
        λ elapsed _.
          Ensures-bind IsBounded (λ w. leb w.1 max_mutations_per_window ≡ true) Within _ _
            (Ensures-lift IsBounded (λ w. leb w.1 max_mutations_per_window ≡ true)
              (next_window ticks_diff s.mutation_started_ms s.mutation_count mutation_window_ms
                max_mutations_per_window now_ms elapsed)
              (next_window-Post s.mutation_started_ms s.mutation_count mutation_window_ms
                max_mutations_per_window now_ms elapsed))
            λ window bound.
              put-Ensures place
                (record s { mutation_started_ms = window.0; mutation_count = window.1 })
                (ground arith)

  pub cool_down-Ensures :
      (s : PeerState) (now_ms : ℕ)
      → Ensures IsBounded (λ _. Unit {0}) (cool_down ticks_diff s now_ms)
  unfolding cool_down
  cool_down-Ensures s now_ms =
      Ensures-bind IsBounded Nothing (λ _. Unit {0}) _ _
        (difference-Ensures now_ms s.last_config_ms)
        (λ elapsed _.
          Ensures-check IsBounded (leb config_cooldown_ms elapsed)
            (rate_limit_exceeded (retry_seconds (config_cooldown_ms - elapsed))))
