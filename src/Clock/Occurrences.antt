-- ===== src/Clock/Occurrences.antt =====
-- services/time_service.py: the instants that a local time can mean contain the instant that it came from.
use landy_heater.Prelude.{
  ℕ, ◌≡◌, refl, sym, ap, Bool, true, false, ◌&&◌, ◌||◌, List, [], ◌∷◌, Result, ok, err, Error,
  value_error, require, require-ok, ◌>>=◌, >>=-ok, ok-eq, arith, Bool-cases, inl, inr, if_either,
}
use landy_heater.Prelude.Int.{ℤ, pos, negsuc, eq_ℤ, leb_ℤ, ltb_ℤ}
use landy_heater.Clock.Calendar.{Civil, civil_to_utc_seconds, seconds_to_civil}
use landy_heater.Clock.RoundTrip.{civil_to_utc_seconds-seconds_to_civil}
use landy_heater.Clock.Zone.{
  TimezoneRule, fixed, europe_zurich, europe_zurich_standard_offset_minutes,
  minimum_utc_offset_minutes, maximum_utc_offset_minutes, later_by, earlier_by, is_rule_offset,
  timezone_rule_version, validate_rule, zurich_transitions, Effect, effect_of, LocalTime,
  utc_seconds_to_local, Occurrence, offsets_of, same_civil, add_occurrence, occurrences_at,
  local_civil_to_utc_occurrences,
}

abbrev pub is_among : ℤ → List Occurrence → Bool
is_among utc [] = false
is_among utc (o ∷ rest) = eq_ℤ o.utc_seconds utc || is_among utc rest

abbrev pub is_offset : ℤ → List ℤ → Bool
is_offset z [] = false
is_offset z (offset ∷ rest) = eq_ℤ offset z || is_offset z rest

pub eq_ℤ-refl : (a : ℤ) → eq_ℤ a a ≡ true
eq_ℤ-refl (pos n) = ground arith
eq_ℤ-refl (negsuc n) = ground arith

pub eq_ℤ-eq : (a b : ℤ) → eq_ℤ a b ≡ true → a ≡ b
eq_ℤ-eq (pos a) (pos b) h = ap pos (ground arith)
eq_ℤ-eq (negsuc a) (negsuc b) h = ap negsuc (ground arith)
eq_ℤ-eq (pos a) (negsuc b) h = cc
eq_ℤ-eq (negsuc a) (pos b) h = cc

same_civil_refl : (c : Civil) → same_civil c c ≡ true
same_civil_refl c = ground arith

or_true : (a b : Bool) → b ≡ true → (a || b) ≡ true
or_true true b h = refl
or_true false b h = h

require-true : (c : Bool) (x : Error) → require c x ≡ ok tt → c ≡ true
require-true true x e = refl
require-true false x e = cc

-- The offset goes off again.
earlier_by-later_by :
    (u t : ℕ) (offset : ℤ) → later_by (pos u) offset ≡ pos t → earlier_by (pos t) offset ≡ pos u
earlier_by-later_by u t (pos n) e = ground arith
earlier_by-later_by u t (negsuc n) e = ground arith

-- Only seconds from the epoch on have a civil time.
from_epoch : (z : ℤ) (c : Civil) → seconds_to_civil z ≡ ok c → (t : ℕ) × (z ≡ pos t)
unfolding seconds_to_civil
from_epoch (pos t) c e = (t, refl)
from_epoch (negsuc n) c e = cc

-- The effective offset is one of those that are tried.
pub effect-is_offset :
    (rule : TimezoneRule) (utc standard : ℤ) (year : ℕ) (effect : Effect)
    → validate_rule rule standard ≡ ok tt
    → effect_of rule utc standard year ≡ ok effect
    → is_offset effect.0 (offsets_of rule standard) ≡ true
unfolding validate_rule
effect-is_offset fixed utc standard year effect v e = rw (sym (ok-eq e), eq_ℤ-refl standard) refl
effect-is_offset europe_zurich utc standard year effect v e =
    let (transitions, at, found) = >>=-ok (zurich_transitions year) _ effect e in
    let (_, rule_ok) =
      require-ok
        (leb_ℤ minimum_utc_offset_minutes standard && leb_ℤ standard maximum_utc_offset_minutes)
        (value_error "standard_utc_offset_minutes is outside supported range") _ tt v in
    let central =
      require-true (is_rule_offset europe_zurich standard)
        (value_error "Europe/Zurich requires the CET standard offset") rule_ok in
    let is_dst = leb_ℤ (pos transitions.0) utc && ltb_ℤ utc (pos transitions.1) in
    rw (sym (ok-eq at)) (
      if_either (λ z. is_offset z (offsets_of europe_zurich standard) ≡ true) is_dst refl
        (rw (eq_ℤ-eq standard europe_zurich_standard_offset_minutes central) refl))

add_occurrence-among :
    (utc : ℤ) (wanted : Civil) (offset candidate : ℤ) (r : Result LocalTime)
    (later : List Occurrence)
    → is_among utc later ≡ true
    → is_among utc (add_occurrence wanted offset candidate r later) ≡ true
add_occurrence-among utc wanted offset candidate (err x) later h = h
add_occurrence-among utc wanted offset candidate (ok p) later h =
    if_either (λ l. is_among utc l ≡ true)
      (same_civil p.local wanted && eq_ℤ p.utc_offset_minutes offset)
      (or_true (eq_ℤ candidate utc) (is_among utc later) h) h

occurrences-among :
    (t : ℕ) (rule : TimezoneRule) (standard : ℤ) (p : LocalTime) (offsets : List ℤ)
    → utc_seconds_to_local (earlier_by (pos t) p.utc_offset_minutes) rule standard ≡ ok p
    → is_offset p.utc_offset_minutes offsets ≡ true
    → is_among
        (earlier_by (pos t) p.utc_offset_minutes)
        (occurrences_at p.local t rule standard offsets)
      ≡ true
occurrences-among t rule standard p [] e h = cc
occurrences-among t rule standard p (offset ∷ rest) e h =
    elim (Bool-cases (eq_ℤ offset p.utc_offset_minutes)) [
      | inl same ↦
          rw
            (
              eq_ℤ-eq offset p.utc_offset_minutes same,
              e,
              same_civil_refl p.local,
              eq_ℤ-refl p.utc_offset_minutes,
              eq_ℤ-refl (earlier_by (pos t) p.utc_offset_minutes),
            )
            refl
      | inr other ↦
          add_occurrence-among _ p.local offset (earlier_by (pos t) offset)
            (utc_seconds_to_local (earlier_by (pos t) offset) rule standard) _
            (occurrences-among t rule standard p rest e (rw (other) at h))
    ]

-- The second of the local time, as if it were one of UTC, and the offset of the projection.
abbrev Projected : ℕ → TimezoneRule → ℤ → LocalTime → Type 0
Projected u rule standard p =
    (t : ℕ) × (later_by (pos u) p.utc_offset_minutes ≡ pos t)
    × (civil_to_utc_seconds p.local.year p.local.month p.local.day p.local.hour p.local.minute
          p.local.second
        ≡ ok t)
    × (is_offset p.utc_offset_minutes (offsets_of rule standard) ≡ true)

at_effect :
    (u : ℕ) (rule : TimezoneRule) (standard : ℤ) (effect : Effect) (local : Civil)
    → seconds_to_civil (later_by (pos u) effect.0) ≡ ok local
    → is_offset effect.0 (offsets_of rule standard) ≡ true
    → Projected u rule standard (record {
      local = record local { fold = effect.2 };
      utc_offset_minutes = effect.0;
      is_dst = effect.1;
      rule_version = timezone_rule_version rule;
    })
at_effect u rule standard effect local projected member =
    let (t, at) = from_epoch (later_by (pos u) effect.0) local projected in
    (t, at, civil_to_utc_seconds-seconds_to_civil t local (rw (at) at projected), member)

local-Projected :
    (u : ℕ) (rule : TimezoneRule) (standard : ℤ) (p : LocalTime) (civil : Civil) (effect : Effect)
    → is_offset effect.0 (offsets_of rule standard) ≡ true
    → (seconds_to_civil (later_by (pos u) effect.0) >>= λ local. ok (record {
      local = record local { fold = effect.2 };
      utc_offset_minutes = effect.0;
      is_dst = effect.1;
      rule_version = timezone_rule_version rule;
    }))
      ≡ ok p
    → Projected u rule standard p
local-Projected u rule standard p civil effect member e =
    let (local, same, projected) = >>=-ok (seconds_to_civil (later_by (pos u) effect.0)) _ p e in
    rw (sym (ok-eq same)) (at_effect u rule standard effect local projected member)

valid-Projected :
    (u : ℕ) (rule : TimezoneRule) (standard : ℤ) (p : LocalTime)
    → utc_seconds_to_local (pos u) rule standard ≡ ok p
    → (validate_rule rule standard ≡ ok tt) × Projected u rule standard p
unfolding utc_seconds_to_local
valid-Projected u rule standard p e =
    let (unit, r1, validated) = >>=-ok (validate_rule rule standard) _ p e in
    let (civil, r2, there) = >>=-ok (seconds_to_civil (pos u)) _ p r1 in
    let (effect, r3, effective) = >>=-ok (effect_of rule (pos u) standard civil.year) _ p r2 in
    (
      validated,
      local-Projected u rule standard p civil effect
          (effect-is_offset rule (pos u) standard civil.year effect validated effective) r3,
    )

occurs_from :
    (u : ℕ) (rule : TimezoneRule) (standard : ℤ) (p : LocalTime)
    → utc_seconds_to_local (pos u) rule standard ≡ ok p
    → (found : List Occurrence) × (local_civil_to_utc_occurrences p.local rule standard ≡ ok found)
      × (is_among (pos u) found ≡ true)
unfolding local_civil_to_utc_occurrences
occurs_from u rule standard p e =
    let (validated, (t, later, counted, member)) = valid-Projected u rule standard p e in
    let back = earlier_by-later_by u t p.utc_offset_minutes later in
    (
      occurrences_at p.local t rule standard (offsets_of rule standard),
      rw (counted, validated) refl,
      rw (back) at
          (occurrences-among t rule standard p (offsets_of rule standard) (rw (back) e) member),
    )

has_epoch :
    (utc : ℤ) (rule : TimezoneRule) (standard : ℤ) (p : LocalTime)
    → utc_seconds_to_local utc rule standard ≡ ok p
    → (u : ℕ) × (utc ≡ pos u)
unfolding utc_seconds_to_local
has_epoch utc rule standard p e =
    let (unit, r1, validated) = >>=-ok (validate_rule rule standard) _ p e in
    let (civil, r2, there) = >>=-ok (seconds_to_civil utc) _ p r1 in from_epoch utc civil there

-- The local time of an instant is a valid civil time, and its instants, under the same rule and offset, contain the
-- one that it came from: also in the hour that the end of summer time repeats.
pub local_civil_to_utc_occurrences-utc_seconds_to_local :
    (utc : ℤ) (rule : TimezoneRule) (standard : ℤ) (p : LocalTime)
    → utc_seconds_to_local utc rule standard ≡ ok p
    → (found : List Occurrence) × (local_civil_to_utc_occurrences p.local rule standard ≡ ok found)
      × (is_among utc found ≡ true)
local_civil_to_utc_occurrences-utc_seconds_to_local utc rule standard p e =
    let (u, at) = has_epoch utc rule standard p e in
    rw (at) (occurs_from u rule standard p (rw (at) at e))
