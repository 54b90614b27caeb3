-- ===== src/RateLimit/Quotas.antt =====
-- services/rest_rate_limiter.py: the quotas hold in every state.
use landy_heater.Prelude.{
  ℕ, ◌+◌, Bool, true, not, ◌&&◌, ◌||◌, Option, none, some, String, Result, err, rate_limit_exceeded,
  arith, if_either,
}
use landy_heater.Prelude.Int.{ℤ}
use landy_heater.Prelude.Exec.{Exec, ◌>>◌}
use landy_heater.Prelude.Ensures.{
  Ensures, Post, Ensures-lift, Ensures-pure, Ensures-choice, Ensures-modify, Ensures-bind,
}
use landy_heater.RateLimit.Tables.{IsBounded, Placed, Found, find_peer-Found, put-IsBounded}
use landy_heater.RateLimit.Windows.{
  Nothing, always, Within, difference-Ensures, peer_state-Ensures, consume_request-Ensures,
  consume_mutation-Ensures, cool_down-Ensures,
}
use landy_heater.RateLimit.Peers.{PeerState, canonical_peer, is_mutation, is_config_mutation}
use landy_heater.RateLimit.Limiter.{
  Limiter, Ticket, begin_operation, finish, find_peer, put, admit_known, admit, count_rejected,
  is_stop, settle, authorized, authorize, commit, committed, commit_at, complete,
}

module _ (ticks_diff : ℕ → ℕ → ℤ) where
  admit_known-Ensures :
      (peer request_method path : String) (now_ms : ℕ) (placed : ℕ × PeerState)
      → Placed placed
      → Ensures IsBounded Nothing (admit_known ticks_diff peer request_method path now_ms placed)
  unfolding admit_known
  admit_known-Ensures peer request_method path now_ms placed h =
      Ensures-bind IsBounded (Within ticks_diff) Nothing _ _
        (consume_request-Ensures ticks_diff placed.0 placed.1 now_ms h)
        λ s1 h1.
          Ensures-bind IsBounded (Within ticks_diff) Nothing _ _
            (Ensures-choice IsBounded (Within ticks_diff) (is_mutation request_method)
              (consume_mutation-Ensures ticks_diff placed.0 s1 now_ms h1)
              (Ensures-pure IsBounded (Within ticks_diff) s1 h1))
            λ s2 h2.
              Ensures-bind IsBounded (λ _. Unit {0}) Nothing _ _
                (Ensures-choice IsBounded (λ _. Unit {0})
                  (is_config_mutation request_method path && s2.has_config_commit)
                  (cool_down-Ensures ticks_diff s2 now_ms)
                  (Ensures-pure IsBounded (λ _. Unit {0}) tt tt))
                λ _ _.
                  Ensures-bind IsBounded (λ _. Unit {0}) Nothing _ _
                    (Ensures-modify IsBounded
                      (λ l. record l {
                        peers = put placed.0 (record s2 { last_seen_ms = now_ms }) l.peers;
                        allowed = l.allowed + 1;
                      })
                      (λ l i. put-IsBounded placed.0 (record s2 { last_seen_ms = now_ms }) l h2 i))
                    λ _ _.
                      Ensures-pure IsBounded Nothing
                        (some (record {
                          peer = peer;
                          config_mutation = is_config_mutation request_method path;
                          issued_ms = now_ms;
                        }))
                        tt

  admit-Ensures :
      (raw_peer request_method path : String) (now_ms : ℕ)
      → Ensures IsBounded Nothing (admit ticks_diff raw_peer request_method path now_ms)
  unfolding admit
  admit-Ensures raw_peer request_method path now_ms =
      Ensures-bind IsBounded Nothing Nothing _ _
        (Ensures-lift IsBounded Nothing (canonical_peer raw_peer)
          (always (canonical_peer raw_peer)))
        λ peer _.
          Ensures-bind IsBounded Placed Nothing _ _ (peer_state-Ensures ticks_diff peer now_ms)
            λ placed h. admit_known-Ensures peer request_method path now_ms placed h

  begin-Ensures : Ensures IsBounded (λ _. Unit {0}) begin_operation
  unfolding begin_operation
  begin-Ensures = record {
    from = λ l i.
        if_either (λ (p : Result (Unit {0}) × Limiter). Post (λ _. Unit {0}) p.0 × IsBounded p.1)
          l.operation_active (tt, i)
          (if_either (λ (p : Result (Unit {0}) × Limiter). Post (λ _. Unit {0}) p.0 × IsBounded p.1)
            l.faulted (tt, i) (tt, i));
  }

  count_rejected-IsBounded :
      (r : Result (Option Ticket)) (l : Limiter)
      → IsBounded l
      → IsBounded (count_rejected ticks_diff r l)
  count_rejected-IsBounded (err (rate_limit_exceeded n)) l i = i
  count_rejected-IsBounded r l i = i

  finish-IsBounded {ℓ} :
      {A : Type ℓ} (r : Result A) (l : Limiter) → IsBounded l → IsBounded (finish r l).1
  unfolding finish
  finish-IsBounded r l i = if_either IsBounded l.operation_reentered i i

  -- What a whole operation does between its begin and its finish.
  operation-IsBounded {ℓ} :
      {A : Type ℓ} (body : Exec Limiter A)
      → ((l : Limiter) → IsBounded l → IsBounded (body l).1)
      → (l : Limiter) → IsBounded l
      → IsBounded ((begin_operation >> body) l).1
  operation-IsBounded body k l i =
      ((Ensures-bind IsBounded (λ _. Unit {0}) Nothing begin_operation (λ _. body) begin-Ensures
          (λ _ _. record { from = λ d j. (always (body d).0, k d j) })).from
        l i).1

  pub authorize-IsBounded :
      (raw_peer request_method path : String) (now_ms : ℕ) (l : Limiter)
      → IsBounded l
      → IsBounded (authorize ticks_diff raw_peer request_method path now_ms l).1
  unfolding authorize
  authorize-IsBounded raw_peer request_method path now_ms l i =
      if_either (λ (p : Result (Option Ticket) × Limiter). IsBounded p.1)
        (is_stop ticks_diff request_method path) (ground arith)
        (operation-IsBounded (authorized ticks_diff raw_peer request_method path now_ms) settled l
          i)
    where
      settled :
          (d : Limiter)
          → IsBounded d
          → IsBounded (settle ticks_diff (admit ticks_diff raw_peer request_method path now_ms d)).1
      settled d j =
          let admitted = admit ticks_diff raw_peer request_method path now_ms d in
          finish-IsBounded admitted.0 (count_rejected ticks_diff admitted.0 admitted.1) (
            count_rejected-IsBounded admitted.0 admitted.1
              ((admit-Ensures raw_peer request_method path now_ms).from d j).1)

  commit-IsBounded :
      (completed : ℕ) (o : Option (ℕ × PeerState)) (ticket : Ticket) (l : Limiter)
      → Found o
      → IsBounded l
      → IsBounded (commit ticks_diff completed o ticket l).1
  commit-IsBounded completed none ticket l h i = i
  commit-IsBounded completed (some found) ticket l h i =
      let s = record found.1 { last_config_ms = completed; has_config_commit = true } in
      ((Ensures-bind IsBounded Nothing (λ _. Unit {0}) _ _
          (difference-Ensures ticks_diff completed ticket.issued_ms)
          (λ since _.
            Ensures-modify IsBounded
              (λ d. record d {
                peers = put found.0 s d.peers;
                config_commits = d.config_commits + 1;
              })
              (λ d j. put-IsBounded found.0 s d h j))).from
        l i).1

  committed-IsBounded :
      (ticket : Ticket) (completed : ℕ) (l : Limiter)
      → IsBounded l
      → IsBounded (committed ticks_diff ticket completed l).1
  committed-IsBounded ticket completed l i =
      let done = commit ticks_diff completed (find_peer ticket.peer l.peers) ticket l in
      finish-IsBounded done.0 done.1 (
        commit-IsBounded completed (find_peer ticket.peer l.peers) ticket l
          (find_peer-Found ticket.peer l.peers (ground arith)) i)

  commit_at-IsBounded :
      (ticket : Ticket) (completed : Option ℕ) (l : Limiter)
      → IsBounded l
      → IsBounded (commit_at ticks_diff ticket completed l).1
  commit_at-IsBounded ticket none l i = i
  commit_at-IsBounded ticket (some completed) l i =
      operation-IsBounded (committed ticks_diff ticket completed)
        (committed-IsBounded ticket completed) l i

  pub complete-IsBounded :
      (ticket : Option Ticket) (config_committed : Bool) (completed_ms : Option ℕ) (l : Limiter)
      → IsBounded l
      → IsBounded (complete ticks_diff ticket config_committed completed_ms l).1
  unfolding complete
  complete-IsBounded none config_committed completed_ms l i = i
  complete-IsBounded (some ticket) config_committed completed_ms l i =
      if_either (λ (m : Exec Limiter (Unit {0})). IsBounded (m l).1)
        (not ticket.config_mutation || not config_committed) i
        (commit_at-IsBounded ticket completed_ms l i)
