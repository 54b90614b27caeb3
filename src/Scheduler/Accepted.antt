-- ===== src/Scheduler/Accepted.antt =====
-- app/scheduler.py, services/time_service.py: the scheduler takes what the time service calls trusted.
use text.Mathlib.Text.{◌==◌ as str_eq}
use mathlib.Core.Path.{subst}
use landy_heater.Prelude.{
  if_true, and_both, ℕ, ◌+◌, ◌≡◌, refl, sym, Bool, true, false, not, ◌&&◌, ◌||◌, Option, none, some,
  String, leb, ◌==◌, if◌then◌else◌, is_some, is_none, Result, ok, err, if_either, arith, >>=-ok,
  require-ok, ok-eq,
}
use landy_heater.Prelude.Int.{ℤ, pos, negsuc, leb_ℤ}
use landy_heater.Prelude.Texts.{text_length, strip}
use landy_heater.Prelude.Exec.{Exec, ◌>>=◌, ◌>>◌, gets, modify, pure}
use landy_heater.Clock.Calendar.{Civil, seconds_to_civil}
use landy_heater.Clock.Kinds.{ClockHealth, RtcHealth, rtc_eq}
use landy_heater.Clock.Zone.{
  TimezoneRule, fixed, europe_zurich, minimum_utc_offset_minutes, maximum_utc_offset_minutes,
  timezone_rule_version, LocalTime, validate_rule, utc_seconds_to_local, offsets_of, effect_of,
  later_by,
}
use landy_heater.Clock.Occurrences.{eq_ℤ-eq, eq_ℤ-refl, is_offset, effect-is_offset}
use landy_heater.Clock.State.{
  Running, TimeService, max_timezone_name_length, zurich_timezone_name, bounded_text, rule_eq,
  validate_timezone, clock_health, check_unlocked, clock_max_error_length, advance, advance_by,
  advance_running,
}
use landy_heater.Clock.Corrections.{seconds_of, invalidated, stop_clock, invalidate}
use landy_heater.Clock.Snapshot.{
  ClockSnapshot, base_snapshot, with_local, projected, snapshot_running, clock_snapshot, source_of,
}
use landy_heater.Clock.Coherent.{emit-Inv}
use landy_heater.Scheduler.Trust.{
  is_valid_health, is_browser, is_trusted, is_timezone, bool_eq, civil_eq, is_projection, clock_of,
  canonical_clock,
}

same_number : (n : ℕ) → (n == n) ≡ true
same_number n = ground arith

bool_eq_refl : (b : Bool) → bool_eq b b ≡ true
bool_eq_refl true = refl
bool_eq_refl false = refl

civil_eq_refl : (c : Civil) → civil_eq c c ≡ true
civil_eq_refl c =
    rw
      (
        same_number c.year,
        same_number c.month,
        same_number c.day,
        same_number c.weekday,
        same_number c.hour,
        same_number c.minute,
        same_number c.second,
        same_number c.local_minute_id,
        same_number c.fold,
      )
      refl

abbrev IsInRange : ℤ → Type 0
IsInRange offset =
    (leb_ℤ minimum_utc_offset_minutes offset && leb_ℤ offset maximum_utc_offset_minutes) ≡ true

rule-IsInRange :
    (rule : TimezoneRule) (standard offset : ℤ)
    → validate_rule rule standard ≡ ok tt
    → is_offset offset (offsets_of rule standard) ≡ true
    → IsInRange offset
unfolding validate_rule
rule-IsInRange fixed standard offset v h =
    let same : offset ≡ standard = eq_ℤ-eq offset standard (ground arith) in
    rw (same) (require-ok _ _ _ tt v).0
rule-IsInRange europe_zurich standard (pos n) v h = ground arith
rule-IsInRange europe_zurich standard (negsuc n) v h = cc

-- What a projection says of its offset and its rule.
shown :
    (utc : ℤ) (rule : TimezoneRule) (standard : ℤ) (p : LocalTime)
    → utc_seconds_to_local utc rule standard ≡ ok p
    → (p.rule_version ≡ timezone_rule_version rule) × IsInRange p.utc_offset_minutes
unfolding utc_seconds_to_local
shown utc rule standard p e =
    let (unit, r1, validated) = >>=-ok (validate_rule rule standard) _ p e in
    let (civil, r2, there) = >>=-ok (seconds_to_civil utc) _ p r1 in
    let (effect, r3, effective) = >>=-ok (effect_of rule utc standard civil.year) _ p r2 in
    let (local, same, at) = >>=-ok (seconds_to_civil (later_by utc effect.0)) _ p r3 in
    rw (sym (ok-eq same)) (
      refl,
      rule-IsInRange rule standard effect.0 validated
          (effect-is_offset rule utc standard civil.year effect validated effective),
    )

-- A valid configuration of the timezone is one that the scheduler takes.
all_four : (a b c d : Bool) → (a && b) ≡ true → c ≡ true → d ≡ true → (a && b && c && d) ≡ true
all_four a b c d h i j = ground arith

bounded_text-bounds :
    (s t : String) (n : ℕ)
    → bounded_text s n ≡ ok t
    → (not (str_eq t "") && leb (text_length t) n) ≡ true
unfolding bounded_text
bounded_text-bounds s t n e =
    let (holds, same) =
      require-ok (not (str_eq (strip s) "") && leb (text_length (strip s)) n) _ (ok (strip s)) t
        e in
    subst (λ (x : String). (not (str_eq x "") && leb (text_length x) n) ≡ true) (ok-eq same) holds

valid-is_timezone :
    (name t : String) (offset : ℤ) (rule : TimezoneRule)
    → validate_timezone name offset rule ≡ ok t
    → is_timezone t rule ≡ true
unfolding validate_timezone
valid-is_timezone name t offset rule e =
    let (bounded, r1, at) = >>=-ok (bounded_text name max_timezone_name_length) _ t e in
    let (unit, r2, validated) = >>=-ok (validate_rule rule offset) _ t r1 in
    let (zurich, r3) =
      require-ok (if rule_eq rule europe_zurich then str_eq bounded zurich_timezone_name else true)
        _ _ t r2 in
    let (named, r4) =
      require-ok (if str_eq bounded zurich_timezone_name then rule_eq rule europe_zurich else true)
        _ _ t r3 in
    subst (λ (x : String). is_timezone x rule ≡ true) (ok-eq r4)
      (all_four (not (str_eq bounded "")) (leb (text_length bounded) max_timezone_name_length) _ _
        (bounded_text-bounds name bounded max_timezone_name_length at) zurich named)

module _ (ticks_diff : ℕ → ℕ → ℤ) (event_capacity : ℕ) where
  -- What the answer of a snapshot promises the scheduler.
  abbrev Accepted : Result ClockSnapshot × TimeService → Type 0
  Accepted (ok snapshot, c) =
      snapshot.timer_trusted ≡ true → is_some (canonical_clock snapshot) ≡ true
  Accepted (err e, c) = Unit {0}

  module _ {A : Type 0} (P : A → TimeService → Type 0) where
    abbrev Then : Result A × TimeService → Type 0
    Then (ok a, c) = P a c
    Then (err e, c) = Unit {0}

    bind-Then :
        {B : Type 0} (f : B → Exec TimeService A)
        → ((b : B) (c : TimeService) → Then (f b c))
        → (r : Result B × TimeService) → Then (elim r.0 [ ok b ↦ f b r.1 | err e ↦ (err e, r.1) ])
    bind-Then f h (ok b, c) = h b c
    bind-Then f h (err e, c) = tt

  abbrev Stopped : Result Bool × TimeService → Type 0
  Stopped r = Then (λ b c. c.running ≡ none) r

  running-Stopped :
      (s : String) (t : ℕ) (c : TimeService)
      → (invalidated ticks_diff event_capacity s t c).running ≡ none
  unfolding invalidated
  running-Stopped s t c =
      emit-Inv ticks_diff event_capacity (λ d. d.running ≡ none) _ t _ (λ es n. refl)

  stop_clock-Stopped :
      (t : ℕ) (s : String) (c : TimeService) → Stopped (stop_clock ticks_diff event_capacity t s c)
  unfolding stop_clock
  stop_clock-Stopped t s c =
      let finish : String → Exec TimeService Bool = λ reason.
        gets (λ (c : TimeService). is_some c.running) >>= λ changed.
        modify (invalidated ticks_diff event_capacity reason t) >> pure changed in
      bind-Then (λ b d. d.running ≡ none)
        (λ reason. advance ticks_diff event_capacity t >> finish reason)
        (λ reason c1.
          bind-Then (λ b d. d.running ≡ none) (λ u. finish reason)
            (λ u c2. running-Stopped reason t c2) (advance ticks_diff event_capacity t c1))
        (bounded_text s clock_max_error_length, c)

  invalidate-Stopped :
      (t : ℕ) (s : String) (c : TimeService) → Stopped (invalidate ticks_diff event_capacity t s c)
  unfolding invalidate
  invalidate-Stopped t s c =
      bind-Then (λ b d. d.running ≡ none) _ (λ u d. stop_clock-Stopped t s d) (check_unlocked c)

  -- A clock that is not valid is not trusted.
  stopped-Accepted : (c : TimeService) → c.running ≡ none → Accepted (ok (base_snapshot c), c)
  unfolding base_snapshot
  stopped-Accepted c e trusted = let f : false ≡ true = rw (e) at trusted in cc

all_trusted :
    (free pending volatile healthy browser valid : Bool)
    → (true && free && not pending && (volatile || healthy)) ≡ true
    → (not volatile || browser) ≡ true
    → valid ≡ true
    → (true
        && valid
        && (true && free && not pending && (volatile || healthy))
        && (if volatile then browser else healthy)
        && not pending
        && free)
      ≡ true
all_trusted free pending volatile healthy browser valid h i j = ground arith

health-is_valid :
    (b : Bool) → is_valid_health (if b then ClockHealth.holdover else ClockHealth.ok) ≡ true
health-is_valid b = if_either (λ h. is_valid_health h ≡ true) b refl refl

abbrev shown_snapshot : TimeService → Running → LocalTime → ClockSnapshot
shown_snapshot c r p =
    with_local (pos (seconds_of r)) p (base_snapshot (record c { running = some r }))

projects :
    (c : TimeService) (r : Running) (p : LocalTime)
    → p.rule_version ≡ timezone_rule_version c.timezone_rule
    → is_projection (shown_snapshot c r p) p.local p.is_dst p ≡ true
unfolding base_snapshot
projects c r p version =
    rw
      (
        eq_ℤ-refl p.utc_offset_minutes,
        bool_eq_refl p.is_dst,
        version,
        same_number (timezone_rule_version c.timezone_rule),
        civil_eq_refl p.local,
      )
      refl

shown-Accepted :
    (c : TimeService) (r : Running) (p : LocalTime)
    → is_timezone c.timezone_name c.timezone_rule ≡ true
    → (not c.volatile_browser_time || is_browser (some r.source)) ≡ true
    → utc_seconds_to_local (pos (seconds_of r)) c.timezone_rule c.utc_offset_minutes ≡ ok p
    → (shown_snapshot c r p).timer_trusted ≡ true
    → is_some (canonical_clock (shown_snapshot c r p)) ≡ true
unfolding canonical_clock base_snapshot clock_health
shown-Accepted c r p timezone browser e trusted =
    let (version, in_range) = shown (pos (seconds_of r)) c.timezone_rule c.utc_offset_minutes p e in
    let trust =
      all_trusted (is_none c.rtc_commit_revision) c.rtc_write_pending c.volatile_browser_time
        (rtc_eq c.rtc_health RtcHealth.ok) (is_browser (some r.source))
        (is_valid_health (
          if rtc_eq c.rtc_health RtcHealth.error || not (is_none c.rtc_commit_revision)
          then ClockHealth.holdover
          else ClockHealth.ok))
        trusted browser
        (health-is_valid
          (rtc_eq c.rtc_health RtcHealth.error || not (is_none c.rtc_commit_revision))) in
    if_true (λ o. is_some o ≡ true) _
      (is_trusted (shown_snapshot c r p) && is_timezone c.timezone_name c.timezone_rule) none
      (and_both (is_trusted (shown_snapshot c r p)) (is_timezone c.timezone_name c.timezone_rule)
        trust timezone)
      (if_true (λ o. is_some o ≡ true) _
        (leb_ℤ minimum_utc_offset_minutes p.utc_offset_minutes
          && leb_ℤ p.utc_offset_minutes maximum_utc_offset_minutes)
        none in_range
        (subst
          (λ q.
            is_some
              (clock_of (shown_snapshot c r p) r.source p.local (pos (seconds_of r)) p.is_dst q)
            ≡ true)
          (sym e)
          (if_true (λ o. is_some o ≡ true) _
            (is_projection (shown_snapshot c r p) p.local p.is_dst p) none (projects c r p version)
            refl)))

module _ (ticks_diff : ℕ → ℕ → ℤ) (event_capacity : ℕ) (c : TimeService)
    (timezone : is_timezone c.timezone_name c.timezone_rule ≡ true) where
  abbrev Taken : Result ClockSnapshot × TimeService → Type 0
  Taken r = Accepted ticks_diff event_capacity r

  projected-Accepted :
      (r : Running) (t : ℕ) (q : Result LocalTime)
      → (not c.volatile_browser_time || is_browser (some r.source)) ≡ true
      → utc_seconds_to_local (pos (seconds_of r)) c.timezone_rule c.utc_offset_minutes ≡ q
      → Taken (
          projected ticks_diff event_capacity q
            (pos (seconds_of r))
            t
            (record c { running = some r }))
  projected-Accepted r t (ok p) browser e = shown-Accepted c r p timezone browser e
  projected-Accepted r t (err x) browser e =
      after_stop
        (invalidate ticks_diff event_capacity t "clock_range_exceeded"
          (record c { running = some r }))
        (invalidate-Stopped ticks_diff event_capacity t "clock_range_exceeded"
          (record c { running = some r }))
    where
      after_stop :
          (p : Result Bool × TimeService)
          → Stopped ticks_diff event_capacity p
          → Taken (elim p.0 [ ok b ↦ gets base_snapshot p.1 | err e ↦ (err e, p.1) ])
      after_stop (ok b, d) stopped = stopped-Accepted ticks_diff event_capacity d stopped
      after_stop (err e, d) stopped = tt

  advanced-Accepted :
      (o : Option Running) (t : ℕ)
      → c.running ≡ o
      → (not c.volatile_browser_time || is_browser (source_of o)) ≡ true
      → Taken (
          (advance_running ticks_diff event_capacity o t
              >> (λ d. snapshot_running ticks_diff event_capacity d.running t d))
            c)
  advanced-Accepted none t e browser =
      subst (λ o. Taken (snapshot_running ticks_diff event_capacity o t c)) (sym e)
        (stopped-Accepted ticks_diff event_capacity c e)
  advanced-Accepted (some r) t e browser = by_difference (ticks_diff t r.anchor_ticks_ms)
    where
      by_difference :
          (d : ℤ)
          → Taken (
              (advance_by ticks_diff event_capacity d r t
                  >> (λ d. snapshot_running ticks_diff event_capacity d.running t d))
                c)
      by_difference (pos n) =
          projected-Accepted
            (record r {
              utc_epoch_ms = r.utc_epoch_ms + n;
              sync_age_ms = r.sync_age_ms + n;
              anchor_ticks_ms = t;
            })
            t _ browser refl
      by_difference (negsuc n) = tt

-- The scheduler takes the time that the time service trusts: a snapshot of a clock whose timezone was validated, and whose
-- time for this boot, if it is one, came from the browser, is accepted by the scheduler if it says that timers may trust it.
pub trusted_snapshots :
    (ticks_diff : ℕ → ℕ → ℤ) (event_capacity t : ℕ) (c d : TimeService) (name : String)
    (snapshot : ClockSnapshot)
    → validate_timezone name c.utc_offset_minutes c.timezone_rule ≡ ok c.timezone_name
    → (not c.volatile_browser_time || is_browser (source_of c.running)) ≡ true
    → clock_snapshot ticks_diff event_capacity t c ≡ (ok snapshot, d)
    → snapshot.timer_trusted ≡ true
    → is_some (canonical_clock snapshot) ≡ true
unfolding clock_snapshot advance
trusted_snapshots ticks_diff event_capacity t c d name snapshot valid browser e =
    subst (Accepted ticks_diff event_capacity) e (
      advanced-Accepted ticks_diff event_capacity c
        (valid-is_timezone name c.timezone_name c.utc_offset_minutes c.timezone_rule valid)
        c.running t refl browser)
