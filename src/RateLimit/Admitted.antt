-- ===== src/RateLimit/Admitted.antt =====
-- services/rest_rate_limiter.py: `authorize` for a request of a peer in the table.
use landy_heater.Prelude.{
  if◌then◌else◌, ◌+◌, ℕ, suc, ◌≡◌, refl, Bool, true, ◌&&◌, Option, none, some, List, String, Result,
  ok, err, leb, rate_limit_exceeded, ◌-◌,
}
use landy_heater.Prelude.Int.{ℤ, pos, negsuc}
use landy_heater.Prelude.Exec.{Exec, ◌>>=◌, ◌>>◌, pure, modify, lift}
use landy_heater.Prelude.Ensures.{
  Ensures, Post, Ensures-lift, Ensures-pure, Ensures-choice, Ensures-modify, Ensures-check,
  Ensures-bind,
}
use landy_heater.RateLimit.Peers.{
  max_requests_per_window, max_mutations_per_window, request_window_ms, mutation_window_ms,
  config_cooldown_ms, retry_seconds, PeerState, is_mutation, is_config_mutation,
}
use landy_heater.RateLimit.Limiter.{
  Limiter, Ticket, find_peer, put, checked, difference, next_window, consume_request,
  consume_mutation, cool_down, admit_known, record_admitted,
}
use landy_heater.RateLimit.Places.{found-named}
use landy_heater.RateLimit.Known.{Holds, Keeps, Fits, put-Keeps, own-Keeps}

abbrev pub AnyResult {ℓ} : {A : Type ℓ} → A → Type 0
AnyResult a = Unit

whatever {ℓ} : {A : Type ℓ} (r : Result A) → Post AnyResult r
whatever (ok a) = tt
whatever (err e) = tt

-- What a request at this time leaves of the states of a peer, of which `P n` holds before: `P n` holds after it,
-- and `P (suc n)` where a request of this peer was counted.
pub record Counts (ticks_diff : ℕ → ℕ → ℤ) (now_ms : ℕ) (P : ℕ → PeerState → Type 0) : Type 0 where
  pub counted :
      (n : ℕ) (s : PeerState) (elapsed : ℕ) (window : ℕ × ℕ)
      → P n s
      → ticks_diff now_ms s.request_started_ms ≡ pos elapsed
      → next_window ticks_diff s.request_started_ms s.request_count request_window_ms
          max_requests_per_window now_ms elapsed
        ≡ ok window
      → P (suc n) (record s { request_started_ms = window.0; request_count = window.1 })
  pub mutated :
      (n : ℕ) (s : PeerState) (started count : ℕ)
      → P n s
      → P n (record s { mutation_started_ms = started; mutation_count = count })
  pub seen : (n : ℕ) (s : PeerState) (t : ℕ) → P n s → P n (record s { last_seen_ms = t })
  pub fewer : (n : ℕ) (s : PeerState) → P (suc n) s → P n s

module _ (ticks_diff : ℕ → ℕ → ℤ) (now_ms : ℕ) (ns : List String) (peer : String)
    (P : ℕ → PeerState → Type 0) (counts : Counts ticks_diff now_ms P) where
  abbrev pub Table : ℕ → Limiter → Type 0
  Table n l = Keeps ns peer (P n) l.peers

  abbrev pub Placed : ℕ → ℕ → PeerState → Type 0
  Placed n place s = Fits ns peer (P n) place s

  fewer-Placed : (n place : ℕ) (s : PeerState) → Placed (suc n) place s → Placed n place s
  fewer-Placed n place s (a, k) = (a, λ own. counts.fewer n s (k own))

  fewer-Holds : (n : ℕ) (o : Option (ℕ × PeerState)) → Holds (P (suc n)) o → Holds (P n) o
  fewer-Holds n none h = h
  fewer-Holds n (some found) h = counts.fewer n found.1 h

  pub fewer-Table : (n : ℕ) (l : Limiter) → Table (suc n) l → Table n l
  fewer-Table n l (a, h) = (a, fewer-Holds n (find_peer peer l.peers) h)

  checked-Table : (n : ℕ) (d : ℤ) → Ensures (Table n) AnyResult (checked ticks_diff d)
  checked-Table n (pos m) = record { from = λ l i. (tt, i) }
  checked-Table n (negsuc m) = record { from = λ l i. (tt, i) }

  put-Table :
      (n place : ℕ) (s : PeerState)
      → Placed n place s
      → Ensures
          (Table n)
          (Placed n place)
          (modify (λ l. record l { peers = put place s l.peers }) >> pure s)
  put-Table n place s fits =
      Ensures-bind (Table n) (λ (u : Unit {0}). Unit {0}) (Placed n place) _ _
        (Ensures-modify (Table n) _ (λ l i. put-Keeps ns peer (P n) place s l.peers fits i))
        (λ _ _. Ensures-pure (Table n) (Placed n place) s fits)

  mutation-Table :
      (n place : ℕ) (s : PeerState)
      → Placed n place s
      → Ensures (Table n) (Placed n place) (consume_mutation ticks_diff place s now_ms)
  unfolding consume_mutation difference
  mutation-Table n place s (a, k) =
      Ensures-bind (Table n) AnyResult (Placed n place) _ _
        (checked-Table n (ticks_diff now_ms s.mutation_started_ms))
        λ elapsed _.
          Ensures-bind (Table n) AnyResult (Placed n place) _ _
            (Ensures-lift (Table n) AnyResult _ (
              whatever (
                next_window ticks_diff s.mutation_started_ms s.mutation_count mutation_window_ms
                  max_mutations_per_window now_ms elapsed)))
            λ window _.
              put-Table n place
                (record s { mutation_started_ms = window.0; mutation_count = window.1 })
                (a, λ own. counts.mutated n s window.0 window.1 (k own))

  cool_down-Table :
      (n : ℕ) (s : PeerState) → Ensures (Table n) AnyResult (cool_down ticks_diff s now_ms)
  unfolding cool_down difference
  cool_down-Table n s =
      Ensures-bind (Table n) AnyResult AnyResult _ _
        (checked-Table n (ticks_diff now_ms s.last_config_ms))
        λ elapsed _.
          Ensures-check (Table n) (leb config_cooldown_ms elapsed)
            (rate_limit_exceeded (retry_seconds (config_cooldown_ms - elapsed)))

  record_admitted-Table :
      (n place : ℕ) (other : String) (config : Bool) (s : PeerState)
      → Placed n place s
      → Ensures (Table n) AnyResult (record_admitted ticks_diff other config now_ms place s)
  record_admitted-Table n place other config s (a, k) =
      Ensures-bind (Table n) (λ (u : Unit {0}). Unit {0}) AnyResult _ _
        (Ensures-modify (Table n)
          (λ l. record l {
            peers = put place (record s { last_seen_ms = now_ms }) l.peers;
            allowed = l.allowed + 1;
          })
          λ l i.
            put-Keeps ns peer (P n) place (record s { last_seen_ms = now_ms }) l.peers
              (a, λ own. counts.seen n s now_ms (k own)) i)
        (λ _ _.
          Ensures-pure (Table n) AnyResult
            (some (record { peer = other; config_mutation = config; issued_ms = now_ms })) tt)

  -- What follows the request's own window.
  abbrev after_request : String → String → String → ℕ → PeerState → Exec Limiter (Option Ticket)
  after_request other request_method path place s1 = do
    s2 ← if is_mutation request_method then consume_mutation ticks_diff place s1 now_ms else pure s1
    if is_config_mutation request_method path && s2.has_config_commit
        then cool_down ticks_diff s2 now_ms
        else pure tt
    record_admitted ticks_diff other (is_config_mutation request_method path) now_ms place s2

  after_request-Table :
      (n place : ℕ) (other request_method path : String) (s : PeerState)
      → Placed n place s
      → Ensures (Table n) AnyResult (after_request other request_method path place s)
  after_request-Table n place other request_method path s fits =
      Ensures-bind (Table n) (Placed n place) AnyResult _ _
        (Ensures-choice (Table n) (Placed n place) (is_mutation request_method)
          (mutation-Table n place s fits) (Ensures-pure (Table n) (Placed n place) s fits))
        λ s2 fits2.
          Ensures-bind (Table n) AnyResult AnyResult _ _
            (Ensures-choice (Table n) AnyResult
              (is_config_mutation request_method path && s2.has_config_commit)
              (cool_down-Table n s2) (Ensures-pure (Table n) AnyResult tt tt))
            λ _ _.
              record_admitted-Table n place other (is_config_mutation request_method path) s2 fits2

  -- The request's window is counted, or nothing of the table changes.
  abbrev WindowTaken : ℕ → ℕ → Bool → Result PeerState × Limiter → Type 0
  WindowTaken n place own (err e, d) = Table n d
  WindowTaken n place own (ok s1, d) =
      Table n d × Placed (suc n) place s1 × (own ≡ true → Table (suc n) d)

  abbrev window_at : PeerState → ℕ → Result (ℕ × ℕ)
  window_at s elapsed =
      next_window ticks_diff s.request_started_ms s.request_count request_window_ms
        max_requests_per_window now_ms elapsed

  -- What follows the test of the request's window.
  abbrev store : ℕ → PeerState → Result (ℕ × ℕ) → Exec Limiter PeerState
  store place s w = do
    window ← lift w
    let changed = record s { request_started_ms = window.0; request_count = window.1 }
    modify λ l. record l { peers = put place changed l.peers }
    pure changed

  request-Table :
      (n place : ℕ) (s : PeerState) (l : Limiter) (own : Bool)
      → (own ≡ true → find_peer peer l.peers ≡ some (place, s))
      → Placed n place s
      → Table n l
      → WindowTaken n place own (consume_request ticks_diff place s now_ms l)
  unfolding consume_request difference
  request-Table n place s l own found (a, k) i =
      by_difference (ticks_diff now_ms s.request_started_ms) refl
    where
      by_window :
          (elapsed : ℕ)
          → ticks_diff now_ms s.request_started_ms ≡ pos elapsed
          → (w : Result (ℕ × ℕ)) → window_at s elapsed ≡ w
          → WindowTaken n place own (store place s w l)
      by_window elapsed d (err e) h = i
      by_window elapsed d (ok w) h =
          let s1 = record s { request_started_ms = w.0; request_count = w.1 } in
          let fits : Placed (suc n) place s1 = (a, λ o. counts.counted n s elapsed w (k o) d h) in
          (
            put-Keeps ns peer (P n) place s1 l.peers (fewer-Placed n place s1 fits) i,
            fits,
            λ o.
                let named = found-named peer l.peers place s (found o) in
                own-Keeps ns peer (P (suc n)) place s1 s l.peers i.0 (found o) a named
                  (fits.1 named),
          )

      by_difference :
          (d : ℤ)
          → ticks_diff now_ms s.request_started_ms ≡ d
          → WindowTaken n place own
              ((checked ticks_diff d >>= λ elapsed. store place s (window_at s elapsed)) l)
      by_difference (negsuc m) e = i
      by_difference (pos m) e = by_window m e (window_at s m) refl

  -- What an operation leaves; where it is a request of the peer that is let through, it is counted.
  abbrev pub Outcome : ℕ → Bool → Result (Option Ticket) × Limiter → Type 0
  Outcome n own p =
      Table n p.1 × (own ≡ true → (k : Ticket) → p.0 ≡ ok (some k) → Table (suc n) p.1)

  pub admit_known-Outcome :
      (n place : ℕ) (other request_method path : String) (s : PeerState) (l : Limiter) (own : Bool)
      → (own ≡ true → find_peer peer l.peers ≡ some (place, s))
      → Placed n place s
      → Table n l
      → Outcome n own (admit_known ticks_diff other request_method path now_ms (place, s) l)
  unfolding admit_known
  admit_known-Outcome n place other request_method path s l own found fits i =
      after (consume_request ticks_diff place s now_ms l)
        (request-Table n place s l own found fits i)
    where
      after :
          (p : Result PeerState × Limiter)
          → WindowTaken n place own p
          → Outcome n own (((λ d. p) >>= after_request other request_method path place) l)
      after (err e, d) h = (h, λ o x no. cc)
      after (ok s1, d) (j, fits1, counted) = (
        ((after_request-Table n place other request_method path s1
              (fewer-Placed n place s1 fits1)).from
            d j).1,
        λ o x yes.
            ((after_request-Table (suc n) place other request_method path s1 fits1).from d
              (counted o)).1,
      )
