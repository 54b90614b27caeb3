-- ===== src/RateLimit/Limiter.antt =====
-- services/rest_rate_limiter.py: the limiter. Its clock is a parameter that leaves the limiter alone;
-- `operation_active` holds in a state that a call from inside an operation sees. An object of the
-- table of peers is the place where it stands.
use text.Mathlib.Text.{◌==◌ as str_eq}
use landy_heater.Prelude.{
  ℕ, zero, suc, ◌+◌, ◌-◌, Bool, true, false, not, ◌&&◌, ◌||◌, Option, none, some, List, [], ◌∷◌,
  ◌++◌, String, leb, ltb, if◌then◌else◌, length, Result, ok, err, value_error, rate_limit_exceeded,
  rate_limit_unavailable,
}
use landy_heater.Prelude.Int.{ℤ, pos, negsuc}
use landy_heater.Prelude.Exec.{Exec, ◌>>=◌, ◌>>◌, pure, modify, check, lift, raise}
use landy_heater.RateLimit.Peers.{
  max_peers, max_requests_per_window, request_window_ms, max_mutations_per_window,
  mutation_window_ms, config_cooldown_ms, peer_stale_ms, PeerState, new_peer, canonical_peer,
  is_mutation, is_config_mutation, retry_seconds,
}

pub record Limiter : Type 0 where
  pub peers : List PeerState
  pub operation_active : Bool
  pub operation_reentered : Bool
  pub faulted : Bool
  pub last_error : Option String
  pub allowed : ℕ
  pub rejected : ℕ
  pub stop_bypasses : ℕ
  pub config_commits : ℕ

-- The peer, whether the request may change the configuration, and when it was let through.
pub record Ticket : Type 0 where
  pub peer : String
  pub config_mutation : Bool
  pub issued_ms : ℕ

unfoldable pub new : Limiter
new = record {
  peers = [];
  operation_active = false;
  operation_reentered = false;
  faulted = false;
  last_error = none;
  allowed = 0;
  rejected = 0;
  stop_bypasses = 0;
  config_commits = 0;
}

-- `_begin`
unfoldable pub begin_operation : Exec Limiter (Unit {0})
begin_operation l =
    if l.operation_active
    then raise (rate_limit_unavailable "REST rate limiter was re-entered")
        (record l { operation_reentered = true })
    else if l.faulted
    then raise (rate_limit_unavailable "REST rate limiter is faulted") l
    else (ok tt, record l { operation_active = true; operation_reentered = false })

-- `_finish`, of an operation with this result: its own error goes before that of `_finish`.
abbrev or_reentered {ℓ} : {A : Type ℓ} → Result A → Bool → Result A
or_reentered (err e) b = err e
or_reentered (ok a) b =
    if b then err (rate_limit_unavailable "REST rate limiter was re-entered") else ok a

unfoldable pub finish {ℓ} : {A : Type ℓ} → Result A → Exec Limiter A
finish r l =
    let idle = record l { operation_active = false; operation_reentered = false } in
    (
      or_reentered r l.operation_reentered,
      (if l.operation_reentered
          then record idle {
            faulted = true;
            last_error = some "rest_rate_limit_reentrancy_detected";
          }
          else idle),
    )

abbrev pub one_later : Option (ℕ × PeerState) → Option (ℕ × PeerState)
one_later none = none
one_later (some found) = some (suc found.0, found.1)

-- The place and the state of a peer.
abbrev pub find_peer : String → List PeerState → Option (ℕ × PeerState)
find_peer peer [] = none
find_peer peer (s ∷ rest) =
    let later = find_peer peer rest in if str_eq s.peer peer then some (0, s) else one_later later

abbrev pub put : ℕ → PeerState → List PeerState → List PeerState
put i new_state [] = []
put zero new_state (s ∷ rest) = new_state ∷ rest
put (suc i) new_state (s ∷ rest) = s ∷ put i new_state rest

module _ (ticks_diff : ℕ → ℕ → ℤ) where
  -- `_difference`
  abbrev pub checked : ℤ → Exec Limiter ℕ
  checked (pos n) l = (ok n, l)
  checked (negsuc n) l =
      raise (rate_limit_unavailable "REST rate-limit clock is unavailable")
        (record l { faulted = true; last_error = some "rest_rate_limit_clock_failed" })

  unfoldable pub difference : ℕ → ℕ → Exec Limiter ℕ
  difference newer older = checked (ticks_diff newer older)

  -- The place of the peer that was not seen for the longest time, if that is stale.
  abbrev pub older_of : Option (ℕ × ℕ) → ℕ → ℕ → Option (ℕ × ℕ)
  older_of best place age =
      if leb peer_stale_ms age && elim best [ none ↦ true | some b ↦ ltb b.1 age ]
      then some (place, age)
      else best

  abbrev pub oldest : List PeerState → ℕ → ℕ → Option (ℕ × ℕ) → Exec Limiter (Option (ℕ × ℕ))
  oldest [] place now_ms best = pure best
  oldest (s ∷ rest) place now_ms best = difference now_ms s.last_seen_ms >>= λ age.
      oldest rest (place + 1) now_ms (older_of best place age)

  abbrev pub replace : String → ℕ → Option (ℕ × ℕ) → Exec Limiter (ℕ × PeerState)
  replace peer now_ms none = raise (rate_limit_exceeded 1)
  replace peer now_ms (some (place, age)) = do
    modify λ l. record l { peers = put place (new_peer peer now_ms) l.peers }
    pure (place, new_peer peer now_ms)

  abbrev pub add_peer : String → ℕ → Exec Limiter (ℕ × PeerState)
  add_peer peer now_ms l =
      if ltb (length l.peers) max_peers
      then (
        ok (length l.peers, new_peer peer now_ms),
        record l { peers = l.peers ++ new_peer peer now_ms ∷ [] },
      )
      else (oldest l.peers 0 now_ms none >>= replace peer now_ms) l

  abbrev pub found_or_added : String → ℕ → Option (ℕ × PeerState) → Exec Limiter (ℕ × PeerState)
  found_or_added peer now_ms (some found) = pure found
  found_or_added peer now_ms none = add_peer peer now_ms

  -- `_state`
  unfoldable pub peer_state : String → ℕ → Exec Limiter (ℕ × PeerState)
  unfolding difference new_peer
  peer_state peer now_ms l = found_or_added peer now_ms (find_peer peer l.peers) l

  -- The start and the count of a window that takes one request more.
  abbrev pub next_window : ℕ → ℕ → ℕ → ℕ → ℕ → ℕ → Result (ℕ × ℕ)
  next_window started count duration maximum now_ms elapsed =
      let expired = leb duration elapsed in
      let used = if expired then 0 else count in
      if leb maximum used
      then err (rate_limit_exceeded (retry_seconds (duration - (if expired then 0 else elapsed))))
      else ok ((if expired then now_ms else started), used + 1)

  -- `_consume_window`, which changes the peer at its place.
  unfoldable pub consume_request : ℕ → PeerState → ℕ → Exec Limiter PeerState
  unfolding difference retry_seconds
  consume_request place s now_ms = do
    elapsed ← difference now_ms s.request_started_ms
    window ← lift (
        next_window s.request_started_ms s.request_count request_window_ms max_requests_per_window
          now_ms elapsed)
    let changed = record s { request_started_ms = window.0; request_count = window.1 }
    modify λ l. record l { peers = put place changed l.peers }
    pure changed

  unfoldable pub consume_mutation : ℕ → PeerState → ℕ → Exec Limiter PeerState
  unfolding difference retry_seconds
  consume_mutation place s now_ms = do
    elapsed ← difference now_ms s.mutation_started_ms
    window ← lift (
        next_window s.mutation_started_ms s.mutation_count mutation_window_ms
          max_mutations_per_window now_ms elapsed)
    let changed = record s { mutation_started_ms = window.0; mutation_count = window.1 }
    modify λ l. record l { peers = put place changed l.peers }
    pure changed

  unfoldable pub cool_down : PeerState → ℕ → Exec Limiter (Unit {0})
  unfolding difference retry_seconds
  cool_down s now_ms = do
    elapsed ← difference now_ms s.last_config_ms
    check (leb config_cooldown_ms elapsed)
        (rate_limit_exceeded (retry_seconds (config_cooldown_ms - elapsed)))

  -- The end of the body of `authorize`.
  abbrev pub record_admitted : String → Bool → ℕ → ℕ → PeerState → Exec Limiter (Option Ticket)
  record_admitted peer config_mutation now_ms place s = do
    modify λ l. record l {
      peers = put place (record s { last_seen_ms = now_ms }) l.peers;
      allowed = l.allowed + 1;
    }
    pure (some (record { peer = peer; config_mutation = config_mutation; issued_ms = now_ms }))

  -- The quotas of a peer at its place, and its ticket.
  unfoldable pub admit_known :
      String → String → String → ℕ → ℕ × PeerState → Exec Limiter (Option Ticket)
  unfolding is_config_mutation consume_request consume_mutation cool_down
  admit_known peer request_method path now_ms (place, s) = do
    s1 ← consume_request place s now_ms
    s2 ← if is_mutation request_method then consume_mutation place s1 now_ms else pure s1
    if is_config_mutation request_method path && s2.has_config_commit
        then cool_down s2 now_ms
        else pure tt
    record_admitted peer (is_config_mutation request_method path) now_ms place s2

  -- The body of `authorize` between `_begin` and `_finish`.
  unfoldable pub admit : String → String → String → ℕ → Exec Limiter (Option Ticket)
  unfolding canonical_peer peer_state admit_known
  admit raw_peer request_method path now_ms = do
    peer ← lift (canonical_peer raw_peer)
    placed ← peer_state peer now_ms
    admit_known peer request_method path now_ms placed

  -- `except RestRateLimitExceeded`
  abbrev pub count_rejected {ℓ} : {A : Type ℓ} → Result A → Limiter → Limiter
  count_rejected (err (rate_limit_exceeded n)) l = record l { rejected = l.rejected + 1 }
  count_rejected r l = l

  abbrev pub is_stop : String → String → Bool
  is_stop request_method path = str_eq request_method "POST" && str_eq path "/api/v1/heater/stop"

  abbrev pub settle : Result (Option Ticket) × Limiter → Result (Option Ticket) × Limiter
  settle (r, l) = finish r (count_rejected r l)

  abbrev pub authorized : String → String → String → ℕ → Exec Limiter (Option Ticket)
  authorized raw_peer request_method path now_ms l =
      settle (admit raw_peer request_method path now_ms l)

  unfoldable pub authorize : String → String → String → ℕ → Exec Limiter (Option Ticket)
  unfolding begin_operation finish admit
  authorize raw_peer request_method path now_ms l =
      if is_stop request_method path
      then (
        ok none,
        record l {
          stop_bypasses = if ltb l.stop_bypasses 255 then l.stop_bypasses + 1 else l.stop_bypasses;
        },
      )
      else (begin_operation >> authorized raw_peer request_method path now_ms) l

  abbrev pub commit : ℕ → Option (ℕ × PeerState) → Ticket → Exec Limiter (Unit {0})
  commit completed_ms none ticket = raise (rate_limit_unavailable "REST rate-limit peer was lost")
  commit completed_ms (some (place, s)) ticket = do
    since ← difference completed_ms ticket.issued_ms
    modify λ l. record l {
      peers =
          put place (record s { last_config_ms = completed_ms; has_config_commit = true }) l.peers;
      config_commits = l.config_commits + 1;
    }

  abbrev pub finish_commit : Result (Unit {0}) × Limiter → Result (Unit {0}) × Limiter
  finish_commit (r, l) = finish r l

  abbrev pub committed : Ticket → ℕ → Exec Limiter (Unit {0})
  committed ticket completed_ms l =
      finish_commit (commit completed_ms (find_peer ticket.peer l.peers) ticket l)

  abbrev pub commit_at : Ticket → Option ℕ → Exec Limiter (Unit {0})
  commit_at ticket none = raise (value_error "REST rate-limit tick must be an integer")
  commit_at ticket (some completed_ms) = begin_operation >> committed ticket completed_ms

  -- `complete`, with a ticket of the right shape.
  unfoldable pub complete : Option Ticket → Bool → Option ℕ → Exec Limiter (Unit {0})
  unfolding begin_operation finish difference
  complete none config_committed completed_ms = pure tt
  complete (some ticket) config_committed completed_ms =
      if not ticket.config_mutation || not config_committed
      then pure tt
      else commit_at ticket completed_ms
