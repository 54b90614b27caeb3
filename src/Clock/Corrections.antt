-- ===== src/Clock/Corrections.antt =====
-- services/time_service.py: the corrections of the clock and the writes to the clock chip.
use text.Mathlib.Text.{◌==◌ as str_eq}
use landy_heater.Prelude.{
  ℕ, ◌+◌, ◌*◌, ◌/◌, Bool, true, false, not, ◌&&◌, ◌||◌, Option, none, some, String, leb, ◌==◌,
  if◌then◌else◌, is_some, is_none, Result, ok, err,
}
use landy_heater.Prelude.Int.{ℤ, pos, eq_ℤ}
use landy_heater.Prelude.Exec.{Exec, gets, lift, modify, pure, ◌>>=◌, ◌>>◌}
use landy_heater.Clock.Calendar.{civil_to_utc_seconds, seconds_to_civil}
use landy_heater.Clock.Kinds.{ClockSource, RtcHealth, rtc_eq}
use landy_heater.Clock.Zone.{TimezoneRule, timezone_rule_version, utc_seconds_to_local}
use landy_heater.Clock.State.{
  Running, TimeService, clock_synchronized, volatile_browser_time_accepted, rtc_refresh_recovered,
  rtc_write_confirmed, rtc_commit_recovered, timezone_changed, rtc_error, clock_invalid,
  clock_max_error_length, bounded_text, rule_eq, validate_timezone, check_unlocked, emit, advance,
}

-- `utc_epoch_ms // 1000`
abbrev pub seconds_of : Running → ℕ
seconds_of r = r.utc_epoch_ms / 1000

abbrev pub is_rtc : ClockSource → Bool
is_rtc ClockSource.rtc = true
is_rtc _ = false

abbrev pub is_revision : Option ℕ → ℕ → Bool
is_revision none n = false
is_revision (some m) n = m == n

abbrev pub release : TimeService → TimeService
release c = record c { rtc_commit_revision = none }

-- Whether the revision is that of the time that is kept, and of the write that waits if one does.
abbrev pub may_commit : ℕ → TimeService → Bool
may_commit write_revision c =
    is_some c.running
    && (c.utc_revision == write_revision)
    && (not c.rtc_write_pending || is_revision c.rtc_write_revision write_revision)

module _ (ticks_diff : ℕ → ℕ → ℤ) (event_capacity : ℕ) where
  -- What `set_utc_datetime` writes.
  unfoldable pub synchronized : ℕ → ClockSource → ℕ → TimeService → TimeService
  unfolding emit
  synchronized utc_seconds source now_ms c =
      emit ticks_diff event_capacity (clock_synchronized source (c.clock_revision + 1)) now_ms
        (record c {
          running = some (record {
            utc_epoch_ms = utc_seconds * 1000;
            anchor_ticks_ms = now_ms;
            sync_age_ms = 0;
            source = source;
          });
          last_sync_utc_seconds = some utc_seconds;
          clock_revision = c.clock_revision + 1;
          utc_revision = c.utc_revision + 1;
          volatile_browser_time = false;
          last_error = none;
          rtc_health = if is_rtc source then RtcHealth.ok else c.rtc_health;
          rtc_write_pending = not (is_rtc source);
          rtc_write_revision = if is_rtc source then none else some (c.utc_revision + 1);
        })

  -- The second of a civil time that the configured timezone can show.
  abbrev pub shown_second : ℕ → ℕ → ℕ → ℕ → ℕ → ℕ → TimeService → Result ℕ × TimeService
  shown_second year month day hour minute second = do
    utc_seconds ← lift (civil_to_utc_seconds year month day hour minute second)
    c ← gets (λ (c : TimeService). c)
    local ← lift (utc_seconds_to_local (pos utc_seconds) c.timezone_rule c.utc_offset_minutes)
    pure utc_seconds

  -- `set_utc_datetime` past its first check
  unfoldable pub correct : ℕ → ℕ → ℕ → ℕ → ℕ → ℕ → ClockSource → ℕ → Exec TimeService Bool
  unfolding civil_to_utc_seconds utc_seconds_to_local advance synchronized
  correct year month day hour minute second source now_ms = do
    utc_seconds ← shown_second year month day hour minute second
    advance ticks_diff event_capacity now_ms
    modify (synchronized utc_seconds source now_ms)
    pure true

  -- `set_utc_datetime`
  unfoldable pub set_utc_datetime : ℕ → ℕ → ℕ → ℕ → ℕ → ℕ → ClockSource → ℕ → Exec TimeService Bool
  unfolding correct
  set_utc_datetime year month day hour minute second source now_ms =
      check_unlocked >> correct year month day hour minute second source now_ms

  -- `set_volatile_browser_time`
  unfoldable pub set_volatile_browser_time : ℤ → ℕ → Exec TimeService Bool
  unfolding seconds_to_civil set_utc_datetime emit
  set_volatile_browser_time utc_seconds now_ms = do
    civil ← lift (seconds_to_civil utc_seconds)
    accepted ←
        set_utc_datetime civil.year civil.month civil.day civil.hour civil.minute civil.second
          ClockSource.browser now_ms
    modify λ c.
        emit ticks_diff event_capacity (volatile_browser_time_accepted c.clock_revision) now_ms
          (record c {
            rtc_write_pending = false;
            rtc_write_revision = none;
            volatile_browser_time = true;
          })
    pure true

  -- What `report_rtc_error` writes, and whether the chip was in order.
  unfoldable pub faulty : String → ℕ → TimeService → TimeService
  unfolding emit
  faulty reason now_ms c =
      let d = record c { rtc_health = RtcHealth.error; last_error = some reason } in
      if rtc_eq c.rtc_health RtcHealth.error
      then d
      else emit ticks_diff event_capacity (rtc_error reason) now_ms d

  -- `report_rtc_error`
  unfoldable pub report_rtc_error : ℕ → String → Exec TimeService Bool
  unfolding bounded_text advance faulty
  report_rtc_error now_ms raw_reason = do
    reason ← lift (bounded_text raw_reason clock_max_error_length)
    advance ticks_diff event_capacity now_ms
    changed ← gets (λ (c : TimeService). not (rtc_eq c.rtc_health RtcHealth.error))
    modify (faulty reason now_ms)
    pure changed

  -- The chip works, with an event if it did not before.
  unfoldable pub recovered : Bool → ℕ → TimeService → TimeService
  unfolding emit
  recovered by_commit now_ms c =
      let d = record c { rtc_health = RtcHealth.ok; last_error = none } in
      if rtc_eq c.rtc_health RtcHealth.ok
      then d
      else emit ticks_diff event_capacity
          (if by_commit then rtc_commit_recovered else rtc_refresh_recovered) now_ms d

  -- Whether an observed second is within one second of the expected.
  abbrev pub is_near : ℕ → ℕ → Bool
  is_near observed expected = leb observed (expected + 1) && leb expected (observed + 1)

  abbrev pub refresh_running :
      ℕ → ℕ → ℕ → ℕ → ℕ → ℕ → ℕ → ℕ → Option Running → Bool → Exec TimeService Bool
  refresh_running observed year month day hour minute second now_ms none pending =
      set_utc_datetime year month day hour minute second ClockSource.rtc now_ms
  refresh_running observed year month day hour minute second now_ms (some r) pending =
      if is_near observed (seconds_of r)
      then (if pending then pure false else (modify (recovered false now_ms) >> pure false))
      else if pending
      then (report_rtc_error now_ms "rtc_refresh_conflicts_pending_write" >>= λ changed. pure false)
      else set_utc_datetime year month day hour minute second ClockSource.rtc now_ms

  -- `refresh_rtc_datetime` past its first check
  unfoldable pub refresh : ℕ → ℕ → ℕ → ℕ → ℕ → ℕ → ℕ → Exec TimeService Bool
  unfolding civil_to_utc_seconds utc_seconds_to_local advance set_utc_datetime report_rtc_error
      recovered
  refresh year month day hour minute second now_ms = do
    observed ← shown_second year month day hour minute second
    advance ticks_diff event_capacity now_ms
    c ← gets (λ (c : TimeService). c)
    refresh_running observed year month day hour minute second now_ms c.running c.rtc_write_pending

  -- `refresh_rtc_datetime`
  unfoldable pub refresh_rtc_datetime : ℕ → ℕ → ℕ → ℕ → ℕ → ℕ → ℕ → Exec TimeService Bool
  unfolding refresh
  refresh_rtc_datetime year month day hour minute second now_ms =
      check_unlocked >> refresh year month day hour minute second now_ms

  abbrev pub shown_by : Option Running → TimezoneRule → ℤ → Result (Unit {0})
  shown_by none rule offset = ok tt
  shown_by (some r) rule offset = elim (utc_seconds_to_local (pos (seconds_of r)) rule offset) [
    | ok p ↦ ok tt
    | err e ↦ err e
  ]

  unfoldable pub zoned : String → ℤ → TimezoneRule → ℕ → TimeService → TimeService
  unfolding emit timezone_rule_version
  zoned name offset rule now_ms c =
      emit ticks_diff event_capacity
        (timezone_changed name rule (timezone_rule_version rule) offset (c.timezone_revision + 1))
        now_ms
        (record c {
          timezone_name = name;
          utc_offset_minutes = offset;
          timezone_rule = rule;
          timezone_revision = c.timezone_revision + 1;
          clock_revision = c.clock_revision + 1;
        })

  abbrev pub same_zone : String → ℤ → TimezoneRule → TimeService → Bool
  same_zone name offset rule c =
      str_eq name c.timezone_name
      && eq_ℤ offset c.utc_offset_minutes
      && rule_eq rule c.timezone_rule

  -- `configure_timezone` past its first check
  unfoldable pub rezone : String → ℤ → ℕ → TimezoneRule → Exec TimeService Bool
  unfolding validate_timezone advance zoned utc_seconds_to_local
  rezone raw_name offset now_ms rule = do
    name ← lift (validate_timezone raw_name offset rule)
    advance ticks_diff event_capacity now_ms
    c ← gets (λ (c : TimeService). c)
    lift (shown_by c.running rule offset)
    if same_zone name offset rule c
        then pure false
        else (modify (zoned name offset rule now_ms) >> pure true)

  -- `configure_timezone`
  unfoldable pub configure_timezone : String → ℤ → ℕ → TimezoneRule → Exec TimeService Bool
  unfolding rezone
  configure_timezone raw_name offset now_ms rule =
      check_unlocked >> rezone raw_name offset now_ms rule

  unfoldable pub written : ℕ → TimeService → TimeService
  unfolding emit
  written now_ms c = emit ticks_diff event_capacity rtc_write_confirmed now_ms (record c {
    rtc_write_pending = false;
    rtc_write_revision = none;
    rtc_health = RtcHealth.ok;
    last_error = none;
  })

  -- `mark_rtc_write_result`
  unfoldable pub mark_rtc_write_result : Bool → ℕ → ℕ → String → Exec TimeService Bool
  unfolding advance written report_rtc_error
  mark_rtc_write_result success write_revision now_ms reason = do
    advance ticks_diff event_capacity now_ms
    c ← gets (λ (c : TimeService). c)
    if not c.rtc_write_pending || not (is_revision c.rtc_write_revision write_revision)
        then pure false
        else (if success
            then (modify (written now_ms) >> pure true)
            else report_rtc_error now_ms reason)

  abbrev pub locked : ℕ → Result (Unit {0}) × TimeService → Result Bool × TimeService
  locked write_revision (err e, c) = (err e, release c)
  locked write_revision (ok u, c) =
      if may_commit write_revision c then (ok true, c) else (ok false, release c)

  -- `begin_rtc_commit`
  unfoldable pub begin_rtc_commit : ℕ → ℕ → Exec TimeService Bool
  unfolding advance
  begin_rtc_commit write_revision now_ms c =
      if is_some c.rtc_commit_revision
      then (ok false, c)
      else locked write_revision (
          advance ticks_diff event_capacity now_ms
            (record c { rtc_commit_revision = some write_revision }))

  -- `mark_rtc_commit_recovered`
  unfoldable pub mark_rtc_commit_recovered : ℕ → ℕ → Exec TimeService Bool
  unfolding advance recovered
  mark_rtc_commit_recovered write_revision now_ms c =
      if not (is_revision c.rtc_commit_revision write_revision)
        || is_none c.running
        || not (c.utc_revision == write_revision)
        || c.rtc_write_pending
      then (ok false, c)
      else (advance ticks_diff event_capacity now_ms >> modify (recovered true now_ms) >> pure true)
          c

  -- `end_rtc_commit`
  unfoldable pub end_rtc_commit : ℕ → Exec TimeService Bool
  end_rtc_commit write_revision c =
      if is_revision c.rtc_commit_revision write_revision
      then (ok true, release c)
      else (ok false, c)

  unfoldable pub invalidated : String → ℕ → TimeService → TimeService
  unfolding emit
  invalidated reason now_ms c =
      emit ticks_diff event_capacity (clock_invalid reason (c.clock_revision + 1)) now_ms
        (record c {
          running = none;
          clock_revision = c.clock_revision + 1;
          utc_revision = c.utc_revision + 1;
          rtc_health = RtcHealth.error;
          rtc_write_pending = false;
          rtc_write_revision = none;
          volatile_browser_time = false;
          last_error = some reason;
        })

  -- `invalidate` past its first check
  unfoldable pub stop_clock : ℕ → String → Exec TimeService Bool
  unfolding bounded_text advance invalidated
  stop_clock now_ms raw_reason = do
    reason ← lift (bounded_text raw_reason clock_max_error_length)
    advance ticks_diff event_capacity now_ms
    changed ← gets (λ (c : TimeService). is_some c.running)
    modify (invalidated reason now_ms)
    pure changed

  -- `invalidate`
  unfoldable pub invalidate : ℕ → String → Exec TimeService Bool
  unfolding stop_clock
  invalidate now_ms raw_reason = check_unlocked >> stop_clock now_ms raw_reason
