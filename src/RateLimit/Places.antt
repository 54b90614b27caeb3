-- ===== src/RateLimit/Places.antt =====
-- services/rest_rate_limiter.py: the places of peers in the table.
use text.Mathlib.Text.{◌==◌ as str_eq}
use landy_heater.Prelude.{
  ℕ, zero, suc, ◌≡◌, refl, true, false, Option, none, some, List, [], ◌∷◌, String, arith,
  Bool-cases, inl, inr, sym,
}
use landy_heater.RateLimit.Peers.{PeerState}
use landy_heater.RateLimit.Limiter.{one_later, find_peer, put}

-- The place of a later peer is the one behind its place among the later peers.
one_later-some :
    (o : Option (ℕ × PeerState)) (place : ℕ) (s : PeerState)
    → one_later o ≡ some (suc place, s)
    → o ≡ some (place, s)
one_later-some none place s e = cc
one_later-some (some found) place s e = cc

later_found :
    (peer : String) (p : PeerState) (ps : List PeerState) (place : ℕ) (s : PeerState)
    → find_peer peer (p ∷ ps) ≡ some (suc place, s)
    → (str_eq p.peer peer ≡ false) × (find_peer peer ps ≡ some (place, s))
later_found peer p ps place s e = elim (Bool-cases (str_eq p.peer peer)) [
  | inl here ↦ ground arith
  | inr later ↦ (later, one_later-some (find_peer peer ps) place s (ground arith))
]

first_found :
    (peer : String) (p : PeerState) (ps : List PeerState) (s : PeerState)
    → find_peer peer (p ∷ ps) ≡ some (zero, s)
    → str_eq s.peer peer ≡ true
first_found peer p ps s e = elim (Bool-cases (str_eq p.peer peer)) [
  | inl here ↦ rw (sym (named (rw (here) at e))) here
  | inr later ↦ absurd (not_first (find_peer peer ps) (rw (later) at e))
]
  where
    named : ◌≡◌ {A = Option (ℕ × PeerState)} (some (zero, p)) (some (zero, s)) → p ≡ s
    named same = cc

    not_first : (o : Option (ℕ × PeerState)) → one_later o ≡ some (zero, s) → ⊥
    not_first none k = cc
    not_first (some found) k = cc

-- A peer that is found has its name and is found where it was put.
pub found-named :
    (peer : String) (ps : List PeerState) (place : ℕ) (s : PeerState)
    → find_peer peer ps ≡ some (place, s)
    → str_eq s.peer peer ≡ true
found-named peer [] place s e = cc
found-named peer (p ∷ ps) zero s e = first_found peer p ps s e
found-named peer (p ∷ ps) (suc place) s e =
    found-named peer ps place s (later_found peer p ps place s e).1

pub found-put :
    (peer : String) (s : PeerState) (ps : List PeerState) (place : ℕ) (old : PeerState)
    → str_eq s.peer peer ≡ true
    → find_peer peer ps ≡ some (place, old)
    → find_peer peer (put place s ps) ≡ some (place, s)
found-put peer s [] place old h e = cc
found-put peer s (p ∷ ps) zero old h e = rw (h) refl
found-put peer s (p ∷ ps) (suc place) old h e =
    let (later, found) = later_found peer p ps place old e in
    rw (later, found-put peer s ps place old h found) refl
