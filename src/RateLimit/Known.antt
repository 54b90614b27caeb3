-- ===== src/RateLimit/Known.antt =====
-- services/rest_rate_limiter.py: what a request of a peer in the table does to the states of the peers.
use text.Mathlib.Text.{◌==◌ as str_eq}
use text.Mathlib.TextEquality.{eq_iff}
use landy_heater.Prelude.{
  ℕ, zero, suc, ◌≡◌, refl, sym, ◌∙◌, Bool, true, false, ◌||◌, Option, none, some, List, [], ◌∷◌,
  String, arith, Bool-cases, inl, inr,
}
use landy_heater.RateLimit.Peers.{PeerState}
use landy_heater.RateLimit.Limiter.{one_later, find_peer, put}
use landy_heater.RateLimit.Places.{found-named, found-put}

abbrev pub names : List PeerState → List String
names [] = []
names (s ∷ rest) = s.peer ∷ names rest

abbrev pub has_name : String → List String → Bool
has_name peer [] = false
has_name peer (name ∷ rest) = str_eq name peer || has_name peer rest

-- The name at a place of the table.
abbrev pub At : ℕ → String → List String → Type 0
At i name [] = Unit
At zero name (n ∷ rest) = n ≡ name
At (suc i) name (n ∷ rest) = At i name rest

abbrev pub Holds : (PeerState → Type 0) → Option (ℕ × PeerState) → Type 0
Holds P none = ⊥
Holds P (some found) = P found.1

later-Holds :
    (P : PeerState → Type 0) (o : Option (ℕ × PeerState)) → Holds P (one_later o) → Holds P o
later-Holds P none h = h
later-Holds P (some found) h = h

Holds-later :
    (P : PeerState → Type 0) (o : Option (ℕ × PeerState)) → Holds P o → Holds P (one_later o)
Holds-later P none h = h
Holds-later P (some found) h = h

-- A peer whose name the table has is found.
pub known_found :
    (peer : String) (ps : List PeerState)
    → has_name peer (names ps) ≡ true
    → (place : ℕ) × (s : PeerState) × (find_peer peer ps ≡ some (place, s))
known_found peer [] h = absurd (ground arith)
known_found peer (p ∷ ps) h = elim (Bool-cases (str_eq p.peer peer)) [
  | inl here ↦ (0, p, rw (here) refl)
  | inr later ↦
      let (place, s, e) = known_found peer ps (ground arith) in (suc place, s, rw (later, e) refl)
]

later_At :
    (peer : String) (p : PeerState) (ps : List PeerState) (o : Option (ℕ × PeerState))
    → ((i : ℕ) (t : PeerState) → o ≡ some (i, t) → At i t.peer (names ps))
    → (place : ℕ) (s : PeerState) → one_later o ≡ some (place, s)
    → At place s.peer (p.peer ∷ names ps)
later_At peer p ps none k place s e = cc
later_At peer p ps (some (i, t)) k zero s e = cc
later_At peer p ps (some (i, t)) k (suc place) s e = k place s cc

pub found-At :
    (peer : String) (ps : List PeerState) (place : ℕ) (s : PeerState)
    → find_peer peer ps ≡ some (place, s)
    → At place s.peer (names ps)
found-At peer [] place s e = tt
found-At peer (p ∷ ps) place s e = elim (Bool-cases (str_eq p.peer peer)) [
  | inl here ↦ first place (rw (here) at e)
  | inr later ↦ later_At peer p ps (find_peer peer ps) (found-At peer ps) place s (rw (later) at e)
]
  where
    first :
        (i : ℕ)
        → ◌≡◌ {A = Option (ℕ × PeerState)} (some (0, p)) (some (i, s))
        → At i s.peer (p.peer ∷ names ps)
    first zero h = cc
    first (suc i) h = cc

names-put :
    (i : ℕ) (s : PeerState) (ps : List PeerState) (ns : List String)
    → names ps ≡ ns
    → At i s.peer ns
    → names (put i s ps) ≡ ns
names-put i s [] ns h a = h
names-put i s (p ∷ ps) [] h a = cc
names-put zero s (p ∷ ps) (n ∷ ns) h a = cc
names-put (suc i) s (p ∷ ps) (n ∷ ns) h a =
    let same : names ps ≡ ns = cc in let rest = names-put i s ps ns same a in cc

-- What holds of the peer's state holds after a state is put in the table, if it holds of this
-- state where it is the peer's own.
Holds-put :
    (P : PeerState → Type 0) (peer : String) (i : ℕ) (s : PeerState) (ps : List PeerState)
    → At i s.peer (names ps)
    → (str_eq s.peer peer ≡ true → P s)
    → Holds P (find_peer peer ps)
    → Holds P (find_peer peer (put i s ps))
Holds-put P peer i s [] a k h = absurd h
Holds-put P peer zero s (p ∷ ps) a k h = elim (Bool-cases (str_eq s.peer peer)) [
  | inl here ↦ rw (here) (k here)
  | inr later ↦ rw (later) (rw (a, later) at h)
]
Holds-put P peer (suc i) s (p ∷ ps) a k h = elim (Bool-cases (str_eq p.peer peer)) [
  | inl here ↦ rw (here) (rw (here) at h)
  | inr later ↦ rw (later) (
      Holds-later P (find_peer peer (put i s ps))
        (Holds-put P peer i s ps a k (later-Holds P (find_peer peer ps) (rw (later) at h))))
]

-- The table has these names, and this holds of the state of this peer.
abbrev pub Keeps : List String → String → (PeerState → Type 0) → List PeerState → Type 0
Keeps ns peer P ps = (names ps ≡ ns) × Holds P (find_peer peer ps)

-- A state that may be put at a place.
abbrev pub Fits : List String → String → (PeerState → Type 0) → ℕ → PeerState → Type 0
Fits ns peer P place s = At place s.peer ns × (str_eq s.peer peer ≡ true → P s)

pub put-Keeps :
    (ns : List String) (peer : String) (P : PeerState → Type 0) (place : ℕ) (s : PeerState)
    (ps : List PeerState)
    → Fits ns peer P place s
    → Keeps ns peer P ps
    → Keeps ns peer P (put place s ps)
put-Keeps ns peer P place s ps (a, k) (n, h) =
    (names-put place s ps ns n a, Holds-put P peer place s ps (rw (n) a) k h)

-- The state that is found of any peer fits where it stands.
pub found-Fits :
    (ns : List String) (peer other : String) (P : PeerState → Type 0) (place : ℕ) (s : PeerState)
    (ps : List PeerState)
    → Keeps ns peer P ps
    → find_peer other ps ≡ some (place, s)
    → Fits ns peer P place s
found-Fits ns peer other P place s ps (n, h) e = (
  rw (n) at (found-At other ps place s e),
  λ own.
      let same : other ≡ peer =
        sym ((eq_iff s.peer other).0 (found-named other ps place s e))
        ∙ (eq_iff s.peer peer).0 own in
      rw (sym same, e) at h,
)

-- The state of the peer itself is put where it was found.
pub own-Keeps :
    (ns : List String) (peer : String) (P : PeerState → Type 0) (place : ℕ) (s old : PeerState)
    (ps : List PeerState)
    → names ps ≡ ns
    → find_peer peer ps ≡ some (place, old)
    → At place s.peer ns
    → str_eq s.peer peer ≡ true
    → P s
    → Keeps ns peer P (put place s ps)
own-Keeps ns peer P place s old ps n e a own h =
    (names-put place s ps ns n a, rw (found-put peer s ps place old own e) h)
