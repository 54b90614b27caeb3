-- ===== src/RateLimit/Calls.antt =====
-- services/rest_rate_limiter.py: sequences of calls of the limiter.
use landy_heater.Prelude.{ℕ, Bool, Option, List, [], ◌∷◌, String}
use landy_heater.Prelude.Int.{ℤ}
use landy_heater.RateLimit.Limiter.{Limiter, Ticket, authorize, complete}
use landy_heater.RateLimit.Tables.{IsBounded}
use landy_heater.RateLimit.Quotas.{authorize-IsBounded, complete-IsBounded}

-- The calls of the limiter's users.
pub data Call : Type 0 where
  authorize_call : (raw_peer request_method path : String) (now_ms : ℕ) → Call
  complete_call :
      (ticket : Option Ticket) (config_committed : Bool) (completed_ms : Option ℕ) → Call

module _ (ticks_diff : ℕ → ℕ → ℤ) where
  abbrev pub after_call : Call → Limiter → Limiter
  after_call (authorize_call raw_peer request_method path now_ms) l =
      (authorize ticks_diff raw_peer request_method path now_ms l).1
  after_call (complete_call ticket config_committed completed_ms) l =
      (complete ticks_diff ticket config_committed completed_ms l).1

  abbrev pub after_calls : List Call → Limiter → Limiter
  after_calls [] l = l
  after_calls (call ∷ rest) l = after_calls rest (after_call call l)

  after_call-IsBounded : (call : Call) (l : Limiter) → IsBounded l → IsBounded (after_call call l)
  after_call-IsBounded (authorize_call p m path t) l i =
      authorize-IsBounded ticks_diff p m path t l i
  after_call-IsBounded (complete_call k c t) l i = complete-IsBounded ticks_diff k c t l i

  pub after_calls-IsBounded :
      (calls : List Call) (l : Limiter) → IsBounded l → IsBounded (after_calls calls l)
  after_calls-IsBounded [] l i = i
  after_calls-IsBounded (call ∷ rest) l i =
      after_calls-IsBounded rest (after_call call l) (after_call-IsBounded call l i)
