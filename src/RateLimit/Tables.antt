-- ===== src/RateLimit/Tables.antt =====
-- services/rest_rate_limiter.py: the table of peers and its bounds.
use text.Mathlib.Text.{◌==◌ as str_eq}
use landy_heater.Prelude.{
  ℕ, zero, suc, ◌+◌, ◌≡◌, refl, Bool, true, ◌&&◌, Option, none, some, List, [], ◌∷◌, ◌++◌, String,
  leb, length, arith, if_either, ap,
}
use landy_heater.RateLimit.Peers.{
  max_peers, max_requests_per_window, max_mutations_per_window, PeerState,
}
use landy_heater.RateLimit.Limiter.{Limiter, one_later, find_peer, put}

abbrev pub within : PeerState → Bool
within s =
    leb s.request_count max_requests_per_window && leb s.mutation_count max_mutations_per_window

abbrev pub all_within : List PeerState → Bool
all_within [] = true
all_within (s ∷ rest) = within s && all_within rest

-- At most four peers, within their quotas, and the counter of stops within its range.
abbrev pub IsBounded : Limiter → Type 0
IsBounded l =
    (leb (length l.peers) max_peers && all_within l.peers && leb l.stop_bypasses 255) ≡ true

-- A place of the table with a state within the quotas.
abbrev pub Placed : ℕ × PeerState → Type 0
Placed p = within p.1 ≡ true

put-within :
    (i : ℕ) (s : PeerState) (ps : List PeerState)
    → within s ≡ true
    → all_within ps ≡ true
    → all_within (put i s ps) ≡ true
put-within i s [] h k = refl
put-within zero s (p ∷ ps) h k = ground arith
put-within (suc i) s (p ∷ ps) h k = ground (arith, put-within i s ps)

length-put : (i : ℕ) (s : PeerState) (ps : List PeerState) → length (put i s ps) ≡ length ps
length-put i s [] = refl
length-put zero s (p ∷ ps) = refl
length-put (suc i) s (p ∷ ps) = ap suc (length-put i s ps)

pub append-within :
    (s : PeerState) (ps : List PeerState)
    → within s ≡ true
    → all_within ps ≡ true
    → all_within (ps ++ s ∷ []) ≡ true
append-within s [] h k = ground arith
append-within s (p ∷ ps) h k = ground (arith, append-within s ps)

pub length-append : (s : PeerState) (ps : List PeerState) → length (ps ++ s ∷ []) ≡ length ps + 1
length-append s [] = refl
length-append s (p ∷ ps) = ground (arith, length-append s ps)

-- A peer that is found is within its quotas.
abbrev pub Found : Option (ℕ × PeerState) → Type 0
Found none = Unit
Found (some found) = Placed found

one_later-Found : (o : Option (ℕ × PeerState)) → Found o → Found (one_later o)
one_later-Found none h = tt
one_later-Found (some found) h = h

pub find_peer-Found :
    (peer : String) (ps : List PeerState) → all_within ps ≡ true → Found (find_peer peer ps)
find_peer-Found peer [] h = tt
find_peer-Found peer (p ∷ ps) h =
    if_either Found (str_eq p.peer peer) (ground arith)
      (one_later-Found (find_peer peer ps) (find_peer-Found peer ps (ground arith)))

pub put-IsBounded :
    (i : ℕ) (s : PeerState) (l : Limiter)
    → within s ≡ true
    → IsBounded l
    → IsBounded (record l { peers = put i s l.peers })
put-IsBounded i s l h k = rw (length-put i s l.peers) (ground (arith, put-within i s l.peers))
