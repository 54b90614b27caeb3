-- ===== src/Clock/Agree.antt =====
-- services/time_service.py: the revisions of the clock, the write that waits and the commit.
use landy_heater.Prelude.{
  ℕ, ◌≡◌, refl, Bool, true, false, not, ◌&&◌, ◌||◌, Option, none, some, ◌==◌, if◌then◌else◌,
  is_some, is_none, arith,
}
use landy_heater.Clock.State.{Running, TimeService}
use landy_heater.Clock.Corrections.{is_revision}

abbrev pub commit_ok : Option ℕ → ℕ → Bool → Bool
commit_ok none utc_revision running = true
commit_ok (some n) utc_revision running = (n == utc_revision) && running

-- A write that waits is that of the time that is kept; so is a commit; a time for this boot only waits for no write.
abbrev pub agree :
    (pending : Bool) (write : Option ℕ) (utc_revision : ℕ) (running : Bool) (commit : Option ℕ)
    (volatile : Bool)
    → Bool
agree pending write utc_revision running commit volatile =
    (if pending then is_revision write utc_revision && running else is_none write)
    && commit_ok commit utc_revision running
    && not (volatile && pending)

abbrev pub coherent : TimeService → Bool
coherent c =
    agree c.rtc_write_pending c.rtc_write_revision c.utc_revision (is_some c.running)
      c.rtc_commit_revision c.volatile_browser_time

pub agree_running :
    (pending : Bool) (write : Option ℕ) (utc : ℕ) (o : Option Running) (r : Running)
    (commit : Option ℕ) (volatile : Bool)
    → o ≡ some r
    → agree pending write utc (is_some o) commit volatile ≡ true
    → agree pending write utc true commit volatile ≡ true
agree_running pending write utc none r commit volatile e h = cc
agree_running pending write utc (some s) r commit volatile e h = h

pub agree_written :
    (pending : Bool) (write : Option ℕ) (utc : ℕ) (running : Bool) (commit : Option ℕ)
    (volatile : Bool)
    → agree pending write utc running commit volatile ≡ true
    → agree false none utc running commit volatile ≡ true
agree_written pending write utc running commit volatile h = ground arith

pub agree_released :
    (pending : Bool) (write : Option ℕ) (utc : ℕ) (running : Bool) (commit : Option ℕ)
    (volatile : Bool)
    → agree pending write utc running commit volatile ≡ true
    → agree pending write utc running none volatile ≡ true
agree_released pending write utc running commit volatile h = ground arith

pub agree_locked :
    (pending : Bool) (write : Option ℕ) (utc : ℕ) (o : Option Running) (volatile : Bool) (n : ℕ)
    → agree pending write utc (is_some o) none volatile ≡ true
    → (is_some o && (utc == n) && (not pending || is_revision write n)) ≡ true
    → agree pending write utc (is_some o) (some n) volatile ≡ true
agree_locked pending write utc none volatile n h k = cc
agree_locked pending write utc (some r) volatile n h k = ground arith

abbrev pub IsCoherent : TimeService → Type 0
IsCoherent c = coherent c ≡ true

abbrev pub IsFree : TimeService → Type 0
IsFree c = IsCoherent c × (c.rtc_commit_revision ≡ none)

pub agree_synchronized :
    (b : Bool) (n : ℕ) → agree (not b) (if b then none else some n) n true none false ≡ true
agree_synchronized true n = refl
agree_synchronized false n = ground arith

pub agree_volatile :
    (pending : Bool) (write : Option ℕ) (utc : ℕ) (running : Bool) (commit : Option ℕ)
    (volatile : Bool)
    → agree pending write utc running commit volatile ≡ true
    → agree false none utc running commit true ≡ true
agree_volatile pending write utc running commit volatile h = ground arith
