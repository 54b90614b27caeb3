-- ===== src/Scheduler/Confirmed.antt =====
-- app/scheduler.py: an authorization is completed once.
use mathlib.Core.Path.{subst}
use text.Mathlib.Text.{◌==◌ as str_eq}
use landy_heater.Prelude.{
  ℕ, ◌≡◌, refl, sym, Bool, true, false, not, ◌&&◌, ◌||◌, Option, none, some, String, ◌==◌,
  if◌then◌else◌, Result, ok, err, if_either, ◌⊎◌, inl, inr, arith,
}
use landy_heater.AppState.{Requested}
use landy_heater.Scheduler.Types.{
  SchedulerSettings, authorized_pending, IntentDetails, OccurrenceRecord, AuthorizedStartIntent,
  Scheduler,
}
use landy_heater.Scheduler.Handoff.{
  status_eq, requested_state_matches, write_cell, confirmed, failed, is_refusal, is_other, is_bound,
  commit_completion, complete_details, complete_intent,
}
use landy_heater.Scheduler.Due.{announce-Inv, latch-Inv}

same_number : (n : ℕ) → (n == n) ≡ true
same_number n = ground arith

written :
    (token : ℕ) (r : OccurrenceRecord) (store : ℕ → OccurrenceRecord)
    → write_cell token r store token ≡ r
written token r store = rw (same_number token) refl

module _ (k : SchedulerSettings) (a : AuthorizedStartIntent) (s : Scheduler) where
  -- Nothing waits under the token any more.
  abbrev Settled : Scheduler → Type 0
  Settled s' = status_eq (s'.store a.token).status authorized_pending ≡ false

  -- A completion settles the authorization or leaves the scheduler as it was; one that is confirmed leaves its occurrence active.
  abbrev Completes : Result Bool × Scheduler → Type 0
  Completes (ok true, s') = Settled s' × (s'.active_occurrence_key ≡ some a.intent.occurrence_key)
  Completes (_, s') = Settled s' ⊎ (s' ≡ s)

  failed-Settled :
      (reason : String) (latches : Bool) (fault : String) (r : OccurrenceRecord) (d : IntentDetails)
      (t : ℕ)
      → Settled (failed k a.token a.intent.occurrence_key reason latches fault r d t s)
  failed-Settled reason latches fault r d t = announce-Inv Settled k _ t _ (λ es n.
      if_either (λ (x : Scheduler). Settled (record x { events = es; events_dropped = n })) latches
        (latch-Inv (λ x. Settled (record x { events = es; events_dropped = n })) fault _
          (rw (same_number a.token) refl) (rw (same_number a.token) refl))
        (rw (same_number a.token) refl))

  confirmed-Settled :
      (applied : Bool) (r : OccurrenceRecord) (d : IntentDetails) (t : ℕ)
      → Completes (ok true, confirmed k applied a.token a.intent.occurrence_key r d t s)
  confirmed-Settled applied r d t =
      announce-Inv (λ x. Completes (ok true, x)) k _ t _
        (λ es n.
          if_either
            (λ (x : Scheduler). Completes (ok true, record x { events = es; events_dropped = n }))
            applied (rw (same_number a.token) refl, refl)
            (latch-Inv (λ x. Completes (ok true, record x { events = es; events_dropped = n })) _ _
              (rw (same_number a.token) refl, refl) (rw (same_number a.token) refl, refl)))

  commit-Completes :
      (applied : Bool) (requested : Option Requested) (r : OccurrenceRecord) (d : IntentDetails)
      (t : ℕ)
      → Completes (commit_completion k a applied requested r d t s)
  commit-Completes applied requested r d t =
      if_either Completes (requested_state_matches d requested)
        (if_either Completes (is_other k a.intent.occurrence_key s.active_occurrence_key)
          (inl (failed-Settled _ true _ r d t)) (confirmed-Settled applied r d t))
        (inl (failed-Settled _ (applied || not (is_refusal k requested)) _ r d t))

  details-Completes :
      (applied : Bool) (requested : Option Requested) (r : OccurrenceRecord)
      (o : Option IntentDetails) (t : ℕ)
      → Completes (complete_details k a applied requested r o t s)
  details-Completes applied requested r none t = inr refl
  details-Completes applied requested r (some d) t =
      if_either Completes (is_bound k a t r d d.authorization s)
        (commit-Completes applied requested r d t) (inr refl)

  complete-Completes :
      (applied : Bool) (requested : Option Requested) (t : ℕ)
      → Completes (complete_intent k a applied requested t s)
  unfolding complete_intent
  complete-Completes applied requested t =
      let r = s.store a.token in
      if_either Completes (a.owner == s.authorization_capability)
        (if_either Completes
          (str_eq r.occurrence_key a.intent.occurrence_key && status_eq r.status authorized_pending)
          (details-Completes applied requested r r.details t) (inr refl))
        (inr refl)

-- No completion of the authorization changes the scheduler or succeeds.
abbrev pub IsSpent : SchedulerSettings → AuthorizedStartIntent → Scheduler → Type 0
IsSpent k a s =
    (applied : Bool) (requested : Option Requested) (t : ℕ)
    → complete_intent k a applied requested t s ≡ (ok false, s)

and_false : (a b : Bool) → b ≡ false → (a && b) ≡ false
and_false a b h = ground arith

Settled-IsSpent :
    (k : SchedulerSettings) (a : AuthorizedStartIntent) (s s' : Scheduler)
    → Settled k a s s'
    → IsSpent k a s'
unfolding complete_intent
Settled-IsSpent k a s s' h applied requested t =
    let r = s'.store a.token in
    let off =
      and_false (str_eq r.occurrence_key a.intent.occurrence_key)
        (status_eq r.status authorized_pending) h in
    let Left : Result Bool × Scheduler → Type 0 = λ p. p ≡ (ok false, s') in
    if_either Left (a.owner == s'.authorization_capability)
      (subst
        (λ b.
          Left
            (if b then complete_details k a applied requested r r.details t s' else (ok false, s')))
        (sym off) refl)
      refl

-- What a completion leaves, by its result.
abbrev pub Leaves :
    SchedulerSettings → AuthorizedStartIntent → Scheduler → Result Bool × Scheduler → Type 0
Leaves k a s (ok true, s') =
    IsSpent k a s' × (s'.active_occurrence_key ≡ some a.intent.occurrence_key)
Leaves k a s (_, s') = IsSpent k a s' ⊎ (s' ≡ s)

Completes-Leaves :
    (k : SchedulerSettings) (a : AuthorizedStartIntent) (s : Scheduler)
    (r : Result Bool × Scheduler)
    → Completes k a s r
    → Leaves k a s r
Completes-Leaves k a s (ok true, s') (h, e) = (Settled-IsSpent k a s s' h, e)
Completes-Leaves k a s (ok false, s') (inl h) = inl (Settled-IsSpent k a s s' h)
Completes-Leaves k a s (ok false, s') (inr e) = inr e
Completes-Leaves k a s (err x, s') (inl h) = inl (Settled-IsSpent k a s s' h)
Completes-Leaves k a s (err x, s') (inr e) = inr e

-- An authorization is completed once: a completion that succeeds leaves the occurrence active and the authorization
-- spent, so that each further completion of it, with whatever result, snapshot and time, fails and changes nothing. One
-- that does not succeed leaves the authorization spent too, or the scheduler as it was.
pub completed_once :
    (k : SchedulerSettings) (a : AuthorizedStartIntent) (applied : Bool)
    (requested : Option Requested) (now_ms : ℕ) (s : Scheduler)
    → Leaves k a s (complete_intent k a applied requested now_ms s)
completed_once k a applied requested now_ms s =
    Completes-Leaves k a s (complete_intent k a applied requested now_ms s)
      (complete-Completes k a s applied requested now_ms)
