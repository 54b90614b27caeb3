-- ===== src/RateLimit/Followed.antt =====
-- services/rest_rate_limiter.py: sequences of requests of peers in the table.
use mathlib.Core.Path.{subst}
use landy_heater.Prelude.{
  ℕ, suc, ◌≡◌, refl, sym, ◌∙◌, Bool, true, false, Option, none, some, List, [], ◌∷◌, String,
  if_either, if◌then◌else◌, Result, ok, err, Error, rate_limit_exceeded, ok-eq,
}
use landy_heater.Prelude.Int.{ℤ}
use landy_heater.Prelude.Exec.{Exec, lift, ◌>>=◌, ◌>>◌}
use landy_heater.RateLimit.Peers.{PeerState, canonical_peer}
use landy_heater.RateLimit.Limiter.{
  Limiter, Ticket, begin_operation, finish, find_peer, found_or_added, peer_state, admit_known,
  admit, is_stop, settle, authorized, authorize,
}
use landy_heater.RateLimit.Known.{names, has_name, Keeps, known_found, found-Fits}
use landy_heater.RateLimit.Admitted.{Counts, Table, Outcome, admit_known-Outcome}

pub record PeerRequest : Type 0 where
  pub raw_peer : String
  pub request_method : String
  pub path : String
  pub now_ms : ℕ

-- The peer of the request, if its name is accepted, is one of these.
abbrev pub IsKnown : List String → PeerRequest → Type 0
IsKnown ns r = (q : String) → canonical_peer r.raw_peer ≡ ok q → has_name q ns ≡ true

not_reentered :
    (b : Bool) (a : Option Ticket) (x : Ticket) (e : Error)
    → (if b then err e else ok a) ≡ ok (some x)
    → ok a ≡ ok (some x)
not_reentered true a x e h = cc
not_reentered false a x e h = h

module _ (ticks_diff : ℕ → ℕ → ℤ) where
  abbrev pub ask : PeerRequest → Limiter → Result (Option Ticket) × Limiter
  ask r l = authorize ticks_diff r.raw_peer r.request_method r.path r.now_ms l

  -- The limiter after these requests.
  abbrev pub after_requests : List PeerRequest → Limiter → Limiter
  after_requests [] l = l
  after_requests (r ∷ rest) l = after_requests rest (ask r l).1

  module _ (r : PeerRequest) (ns : List String) (peer : String) (P : ℕ → PeerState → Type 0)
      (counts : Counts ticks_diff r.now_ms P) (known : IsKnown ns r) (n : ℕ) (own : Bool)
      (named : own ≡ true → canonical_peer r.raw_peer ≡ ok peer) where
    abbrev Left : Result (Option Ticket) × Limiter → Type 0
    Left p = Outcome ticks_diff r.now_ms ns peer P counts n own p

    abbrev Kept : Limiter → Type 0
    Kept l = Table ticks_diff r.now_ms ns peer P counts n l

    admit-Left :
        (l : Limiter)
        → Kept l
        → Left (admit ticks_diff r.raw_peer r.request_method r.path r.now_ms l)
    unfolding admit peer_state
    admit-Left l i = by_name (canonical_peer r.raw_peer) refl
      where
        found_admitted :
            (q : String) (o : Option (ℕ × PeerState))
            → find_peer q l.peers ≡ o
            → has_name q (names l.peers) ≡ true
            → (own ≡ true → q ≡ peer)
            → Left (
                (found_or_added ticks_diff q r.now_ms o >>= λ placed.
                admit_known ticks_diff q r.request_method r.path r.now_ms placed)
                  l)
        found_admitted q none e h same = let (place, s, found) = known_found q l.peers h in cc
        found_admitted q (some (place, s)) e h same =
            admit_known-Outcome ticks_diff r.now_ms ns peer P counts n place q r.request_method
              r.path s l own (λ o. subst (λ x. find_peer x l.peers ≡ some (place, s)) (same o) e)
              (found-Fits ns peer q (P n) place s l.peers i e) i

        by_name :
            (c : Result String)
            → canonical_peer r.raw_peer ≡ c
            → Left (
                (lift c >>= λ q. peer_state ticks_diff q r.now_ms >>= λ placed.
                admit_known ticks_diff q r.request_method r.path r.now_ms placed)
                  l)
        by_name (err x) e = (i, λ o k no. cc)
        by_name (ok q) e =
            found_admitted q (find_peer q l.peers) refl
              (subst (λ m. has_name q m ≡ true) (sym i.0) (known q e))
              (λ o. ok-eq (sym e ∙ named o))

    -- The end of an operation leaves the table alone and makes no ticket.
    settle-Left : (p : Result (Option Ticket) × Limiter) → Left p → Left (settle ticks_diff p)
    unfolding finish
    settle-Left (err (rate_limit_exceeded m), d) (j, k) =
        (if_either Kept d.operation_reentered j j, λ o x no. cc)
    settle-Left (err e, d) (j, k) = (if_either Kept d.operation_reentered j j, λ o x no. cc)
    settle-Left (ok a, d) (j, k) = (
      if_either Kept d.operation_reentered j j,
      λ o x yes.
          let same = k o x (not_reentered d.operation_reentered a x _ yes) in
          if_either (λ (l : Limiter). Keeps ns peer (P (suc n)) l.peers) d.operation_reentered same
            same,
    )

    pub authorize-Left : (l : Limiter) → Kept l → Left (ask r l)
    unfolding authorize begin_operation
    authorize-Left l i =
        if_either Left (is_stop ticks_diff r.request_method r.path) (i, λ o x no. cc)
          (if_either (λ (p : Result (Unit {0}) × Limiter). Left (((λ (d : Limiter). p) >> body) l))
            l.operation_active (i, λ o x no. cc)
            (if_either
              (λ (p : Result (Unit {0}) × Limiter). Left (((λ (d : Limiter). p) >> body) l))
              l.faulted (i, λ o x no. cc)
              (begun (record l { operation_active = true; operation_reentered = false }) i)))
      where
        body : Exec Limiter (Option Ticket)
        body = authorized ticks_diff r.raw_peer r.request_method r.path r.now_ms

        begun : (d : Limiter) → Kept d → Left (body d)
        begun d j =
            settle-Left (admit ticks_diff r.raw_peer r.request_method r.path r.now_ms d)
              (admit-Left d j)
