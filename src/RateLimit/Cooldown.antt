-- ===== src/RateLimit/Cooldown.antt =====
-- services/rest_rate_limiter.py: the pause after a change of the configuration, and the stop route.
use text.Mathlib.Text.{◌==◌ as str_eq}
use text.Mathlib.TextEquality.{eq_iff}
use landy_heater.Prelude.{
  ℕ, ◌+◌, ◌-◌, ◌≡◌, refl, Bool, true, false, ◌&&◌, Option, none, some, String, leb, if◌then◌else◌,
  Result, ok, err, Error, rate_limit_exceeded, arith, Bool-cases, inl, inr, if_either,
}
use landy_heater.Prelude.Int.{ℤ, pos, negsuc, ltb_ℤ}
use landy_heater.Prelude.Exec.{Exec, ◌>>=◌, ◌>>◌, pure, modify, check, lift}
use landy_heater.Prelude.Ensures.{Ensures, Post, Ensures-pure, Ensures-choice, Ensures-bind}
use landy_heater.RateLimit.Places.{found-named, found-put}
use landy_heater.RateLimit.Peers.{
  max_requests_per_window, max_mutations_per_window, request_window_ms, mutation_window_ms,
  config_cooldown_ms, retry_seconds, PeerState, canonical_peer, is_mutation, is_config_mutation,
}
use landy_heater.RateLimit.Limiter.{
  Limiter, Ticket, begin_operation, finish, find_peer, put, checked, difference, peer_state,
  next_window, consume_request, consume_mutation, cool_down, admit_known, record_admitted, admit,
  is_stop, settle, authorized, authorize, commit, committed, complete,
}

abbrev Always : Limiter → Type 0
Always l = Unit

-- Nothing is returned.
abbrev Never {ℓ} : {A : Type ℓ} → A → Type 0
Never a = ⊥

abbrev Any {ℓ} : {A : Type ℓ} → A → Type 0
Any a = Unit

any {ℓ} : {A : Type ℓ} (r : Result A) → Post Any r
any (ok a) = tt
any (err e) = tt

whatever-Ensures {κ} : {A : Type κ} (method : Exec Limiter A) → Ensures Always Any method
whatever-Ensures method = record { from = λ l i. (any (method l).0, tt) }

after_nothing {κ} : {A : Type κ} (method : Exec Limiter A) → ⊥ → Ensures Always Never method
after_nothing method impossible = absurd impossible

-- What holds of every refusal of `_begin` and of what follows on the peers that there are holds of the operation.
begin-either {κ μ} :
    {A : Type κ} (P : Result A × Limiter → Type μ) (body : Exec Limiter A) (l : Limiter)
    → ((e : Error) (d : Limiter) → P (err e, d))
    → ((d : Limiter) → d.peers ≡ l.peers → P (body d))
    → P ((begin_operation >> body) l)
unfolding begin_operation
begin-either P body l refused begun =
    if_either (λ (p : Result (Unit {0}) × Limiter). P (((λ (d : Limiter). p) >> body) l))
      l.operation_active (refused _ _)
      (if_either (λ (p : Result (Unit {0}) × Limiter). P (((λ (d : Limiter). p) >> body) l))
        l.faulted (refused _ _)
        (begun (record l { operation_active = true; operation_reentered = false }) refl))

module _ (ticks_diff : ℕ → ℕ → ℤ) (completed now_ms : ℕ)
    (early : ltb_ℤ (ticks_diff now_ms completed) (pos config_cooldown_ms) ≡ true) where
  -- The state of a peer that committed a change at this time.
  abbrev pub Committed : PeerState → Type 0
  Committed s = (s.has_config_commit ≡ true) × (s.last_config_ms ≡ completed)

  consume_request-Committed :
      (place : ℕ) (s : PeerState)
      → Committed s
      → Ensures Always Committed (consume_request ticks_diff place s now_ms)
  unfolding consume_request
  consume_request-Committed place s h =
      Ensures-bind Always Any Committed _ _
        (whatever-Ensures (difference ticks_diff now_ms s.request_started_ms))
        λ elapsed _.
          Ensures-bind Always Any Committed _ _
            (whatever-Ensures (
              lift (
                next_window ticks_diff s.request_started_ms s.request_count request_window_ms
                  max_requests_per_window now_ms elapsed)))
            λ window _.
              Ensures-bind Always Any Committed _ _
                (whatever-Ensures (
                  modify (λ l. record l {
                    peers =
                        put place
                          (record s { request_started_ms = window.0; request_count = window.1 })
                          l.peers;
                  })))
                λ _ _.
                  Ensures-pure Always Committed
                    (record s { request_started_ms = window.0; request_count = window.1 }) h

  consume_mutation-Committed :
      (place : ℕ) (s : PeerState)
      → Committed s
      → Ensures Always Committed (consume_mutation ticks_diff place s now_ms)
  unfolding consume_mutation
  consume_mutation-Committed place s h =
      Ensures-bind Always Any Committed _ _
        (whatever-Ensures (difference ticks_diff now_ms s.mutation_started_ms))
        λ elapsed _.
          Ensures-bind Always Any Committed _ _
            (whatever-Ensures (
              lift (
                next_window ticks_diff s.mutation_started_ms s.mutation_count mutation_window_ms
                  max_mutations_per_window now_ms elapsed)))
            λ window _.
              Ensures-bind Always Any Committed _ _
                (whatever-Ensures (
                  modify (λ l. record l {
                    peers =
                        put place
                          (record s { mutation_started_ms = window.0; mutation_count = window.1 })
                          l.peers;
                  })))
                λ _ _.
                  Ensures-pure Always Committed
                    (record s { mutation_started_ms = window.0; mutation_count = window.1 }) h

  refused_by_age :
      (age : ℤ)
      → ltb_ℤ age (pos config_cooldown_ms) ≡ true
      → Ensures Always Never (
          checked ticks_diff age >>= λ elapsed.
          check
            (leb config_cooldown_ms elapsed)
            (rate_limit_exceeded (retry_seconds (config_cooldown_ms - elapsed))))
  refused_by_age (pos n) h = record { from = λ l i. ground arith }
  refused_by_age (negsuc n) h = record { from = λ l i. (tt, tt) }

  cool_down-Never :
      (s : PeerState) → Committed s → Ensures Always Never (cool_down ticks_diff s now_ms)
  unfolding cool_down difference
  cool_down-Never s h = refused_by_age (ticks_diff now_ms s.last_config_ms) (rw (h.1) early)

  admit_known-Never :
      (peer request_method path : String) (place : ℕ) (s : PeerState)
      → is_config_mutation request_method path ≡ true
      → Committed s
      → Ensures Always Never (admit_known ticks_diff peer request_method path now_ms (place, s))
  unfolding admit_known
  admit_known-Never peer request_method path place s config h =
      Ensures-bind Always Committed Never _ _ (consume_request-Committed place s h) λ s1 h1.
        Ensures-bind Always Committed Never _ _
          (Ensures-choice Always Committed (is_mutation request_method)
            (consume_mutation-Committed place s1 h1) (Ensures-pure Always Committed s1 h1))
          λ s2 h2. Ensures-bind Always Never Never _ _ (paused s2 h2) λ u impossible.
            after_nothing
              (record_admitted ticks_diff peer (is_config_mutation request_method path) now_ms place
                s2)
              impossible
    where
      paused :
          (s2 : PeerState)
          → Committed s2
          → Ensures Always Never (
              if is_config_mutation request_method path && s2.has_config_commit
              then cool_down ticks_diff s2 now_ms
              else pure tt)
      paused s2 h2 = rw (config, h2.0) (cool_down-Never s2 h2)

  admit-Never :
      (raw_peer request_method path peer : String) (l : Limiter) (place : ℕ) (s : PeerState)
      → canonical_peer raw_peer ≡ ok peer
      → is_config_mutation request_method path ≡ true
      → find_peer peer l.peers ≡ some (place, s)
      → Committed s
      → Post Never (admit ticks_diff raw_peer request_method path now_ms l).0
  unfolding admit peer_state
  admit-Never raw_peer request_method path peer l place s canonical config known h =
      rw (canonical, known)
        ((admit_known-Never peer request_method path place s config h).from _ tt).0

  -- The pause of a peer's last change.
  abbrev pub CommittedIn : Option (ℕ × PeerState) → Type 0
  CommittedIn none = ⊥
  CommittedIn (some found) = Committed found.1

  abbrev pub Recorded : String → Result (Unit {0}) × Limiter → Type 0
  Recorded peer p = p.0 ≡ ok tt → CommittedIn (find_peer peer p.1.peers)

  finish-Recorded :
      (peer : String) (r : Result (Unit {0})) (l : Limiter)
      → Recorded peer (r, l)
      → Recorded peer (finish r l)
  unfolding finish
  finish-Recorded peer (err x) l h e = cc
  finish-Recorded peer (ok u) l h e =
      if_either (λ (d : Limiter). CommittedIn (find_peer peer d.peers)) l.operation_reentered
        (h refl) (h refl)

  commit-Recorded :
      (ticket : Ticket) (l : Limiter) (o : Option (ℕ × PeerState))
      → find_peer ticket.peer l.peers ≡ o
      → Recorded ticket.peer (commit ticks_diff completed o ticket l)
  unfolding difference
  commit-Recorded ticket l none known = λ e. cc
  commit-Recorded ticket l (some (place, s)) known = at_age (ticks_diff completed ticket.issued_ms)
    where
      at_age :
          (d : ℤ)
          → Recorded ticket.peer (
              (checked ticks_diff d >>= λ since. modify (λ l. record l {
                peers =
                    put place
                      (record s { last_config_ms = completed; has_config_commit = true })
                      l.peers;
                config_commits = l.config_commits + 1;
              }))
                l)
      at_age (negsuc n) e = cc
      at_age (pos n) e =
          rw
            (found-put ticket.peer
              (record s { last_config_ms = completed; has_config_commit = true }) l.peers place s
              (found-named ticket.peer l.peers place s known) known)
            ((refl, refl))

  pub complete-Recorded :
      (ticket : Ticket) (l : Limiter)
      → ticket.config_mutation ≡ true
      → Recorded ticket.peer (complete ticks_diff (some ticket) true (some completed) l)
  unfolding complete
  complete-Recorded ticket l config = simp (config) (
      begin-either (Recorded ticket.peer) (committed ticks_diff ticket completed) l (λ x d e. cc)
        (λ d _. begun d))
    where
      begun : (d : Limiter) → Recorded ticket.peer (committed ticks_diff ticket completed d)
      begun d =
          let done = commit ticks_diff completed (find_peer ticket.peer d.peers) ticket d in
          finish-Recorded ticket.peer done.0 done.1
            (commit-Recorded ticket d (find_peer ticket.peer d.peers) refl)

  authorized-Never :
      (raw_peer request_method path peer : String) (l : Limiter)
      → canonical_peer raw_peer ≡ ok peer
      → is_config_mutation request_method path ≡ true
      → (o : Option (ℕ × PeerState)) → find_peer peer l.peers ≡ o
      → CommittedIn o
      → Post Never (authorized ticks_diff raw_peer request_method path now_ms l).0
  unfolding finish
  authorized-Never raw_peer request_method path peer l canonical config none known h = absurd h
  authorized-Never raw_peer request_method path peer l canonical config (some (place, s)) known h =
      settled (admit ticks_diff raw_peer request_method path now_ms l)
        (admit-Never raw_peer request_method path peer l place s canonical config known h)
    where
      settled :
          (p : Result (Option Ticket) × Limiter)
          → Post Never p.0
          → Post Never (settle ticks_diff p).0
      settled (ok a, d) k = absurd k
      settled (err e, d) k = tt

  -- The stop route changes no configuration.
  config_mutation-not_stop :
      (request_method path : String)
      → is_config_mutation request_method path ≡ true
      → is_stop ticks_diff request_method path ≡ false
  unfolding is_config_mutation
  config_mutation-not_stop request_method path config =
      elim (Bool-cases (str_eq path "/api/v1/heater/stop")) [
        | inl stop ↦ no_change (rw ((eq_iff path "/api/v1/heater/stop").0 stop) at config)
        | inr other ↦ ground arith
      ]
    where
      never : (b : Bool) → (b && false) ≡ true → ⊥
      never true k = cc
      never false k = cc

      no_change :
          is_config_mutation request_method "/api/v1/heater/stop" ≡ true
          → is_stop ticks_diff request_method path ≡ false
      no_change h = absurd (never (is_mutation request_method) h)

  pub authorize-Never :
      (raw_peer request_method path peer : String) (l : Limiter)
      → canonical_peer raw_peer ≡ ok peer
      → is_config_mutation request_method path ≡ true
      → CommittedIn (find_peer peer l.peers)
      → Post Never (authorize ticks_diff raw_peer request_method path now_ms l).0
  unfolding authorize
  authorize-Never raw_peer request_method path peer l canonical config h =
      rw (config_mutation-not_stop request_method path config) (
        begin-either (λ (p : Result (Option Ticket) × Limiter). Post Never p.0)
          (authorized ticks_diff raw_peer request_method path now_ms) l (λ x d. tt)
          (λ d same.
            authorized-Never raw_peer request_method path peer d canonical config
              (find_peer peer d.peers) refl (rw (same) h)))
