-- ===== src/Scheduler/Due.antt =====
-- app/scheduler.py: the mark of what is consumed, and the timers that are due.
use landy_heater.Prelude.{
  ℕ, ◌≡◌, refl, Bool, true, false, Option, none, some, List, [], ◌∷◌, String, leb, ltb, length,
  if_case, if_either, arith,
}
use landy_heater.Clock.Calendar.{Civil}
use landy_heater.Scheduler.Types.{
  SchedulerSettings, Timer, OccurrenceRecord, Slot, SchedulerEventKind, SchedulerEvent, Scheduler,
}
use landy_heater.Scheduler.Timers.{advance_epoch, announce, latch_fault}
use landy_heater.Scheduler.Steps.{
  matches_local, matching_timers, is_above, is_due, due_among, raised,
}

-- A mark is no lower than another one.
abbrev pub no_lower : Option ℕ → Option ℕ → Bool
no_lower none after = true
no_lower (some before) none = false
no_lower (some before) (some after) = leb before after

pub no_lower_refl : (mark : Option ℕ) → no_lower mark mark ≡ true
no_lower_refl none = refl
no_lower_refl (some n) = ground arith

pub raised-no_lower : (minute : ℕ) (mark : Option ℕ) → no_lower mark (raised minute mark) ≡ true
raised-no_lower minute none = refl
raised-no_lower minute (some n) =
    if_case (λ o. no_lower (some n) o ≡ true) (ltb n minute) (λ h. ground arith) (λ h. ground arith)

pub raised-above :
    (minute : ℕ) (mark : Option ℕ) → is_above minute mark ≡ true → raised minute mark ≡ some minute
raised-above minute none h = refl
raised-above minute (some n) h = rw (h) refl

-- What holds with every list of events holds after an event.
pub announce-Inv :
    (P : Scheduler → Type 0) (k : SchedulerSettings) (kind : SchedulerEventKind) (t : ℕ)
    (s : Scheduler)
    → ((es : List SchedulerEvent) (n : ℕ) → P (record s { events = es; events_dropped = n }))
    → P (announce k kind t s)
unfolding announce
announce-Inv P k kind t s h = if_either P (leb k.event_capacity (length s.events)) (h _ _) (h _ _)

pub latch-Inv :
    (P : Scheduler → Type 0) (reason : String) (s : Scheduler)
    → P (record s { faulted = true; last_error = some reason })
    → P (advance_epoch (record s { faulted = true; last_error = some reason }))
    → P (latch_fault reason s)
unfolding latch_fault
latch-Inv P reason s p q = if_either P s.faulted p q

cons-head : {A : Type 0} {x y : A} {xs ys : List A} → (x ∷ xs) ≡ (y ∷ ys) → x ≡ y
cons-head e = cc

-- A timer that is due has the minute, and the minute is above the mark.
module _ (local : Civil) (mark : Option ℕ) (occurrences : List (String × Slot))
    (store : ℕ → OccurrenceRecord) where
  abbrev Due : Timer → Type 0
  Due timer =
      (matches_local local timer ≡ true) × (is_due local mark occurrences store timer ≡ true)

  pub due_among-Due :
      (timers : List Timer) (timer : Timer) (rest : List Timer)
      → due_among local mark occurrences store (matching_timers local timers) ≡ timer ∷ rest
      → Due timer
  unfolding matching_timers
  due_among-Due [] timer rest = λ e. cc
  due_among-Due (t ∷ ts) timer rest =
      if_case
        (λ (l : List Timer). due_among local mark occurrences store l ≡ timer ∷ rest → Due timer)
        (matches_local local t)
        (λ matches.
          if_case (λ (l : List Timer). l ≡ timer ∷ rest → Due timer)
            (is_due local mark occurrences store t)
            (λ due e. let same : t ≡ timer = cons-head e in rw⁻¹ (same) (matches, due))
            (λ _. due_among-Due ts timer rest))
        (λ _. due_among-Due ts timer rest)
