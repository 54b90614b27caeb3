-- ===== src/Heater/Cycle.antt =====
-- app/heater_controller.py: what one controller cycle may do at the protocol port.
use landy_heater.Prelude.{
  ℕ, true, false, Option, none, some, ◌∷◌, Result, ok, err, if◌then◌else◌, ◌||◌, is_none,
  Bool-cases,
}
use landy_heater.Prelude.Exec.{Exec}
use landy_heater.AppState.{HeaterState}
use landy_heater.Heater.Types.{
  Command, Operation, Attempt, Config, Port, Controller, Sensors, message,
}
use landy_heater.Heater.Base.{call_protocol, emit_event, mark_error, due}
use landy_heater.Heater.Link.{Report, request_synchronization, begin_response_wait}
use landy_heater.Heater.Sent.{command_of_operation, set_policy_fault-sent}
use landy_heater.Heater.Orders.{IsWanted, Acts, evaluate_control-Acts, defer_stop-sent}
use landy_heater.Heater.Attempts.{send_control}
use landy_heater.Heater.Control.{
  may_control, decide, evaluate_attempt, evaluate_control, control_status_is_fresh, control_cycle,
  postpone_control, synchronize_if_due, before_control, step, after_evaluation,
  forget_starting_stop, sent_report,
}
use landy_heater.Heater.Checks.{before_control-Rests}
use native.Mathlib.Omega.{arith}
use mathlib.Core.Path.{◌≡◌, refl, ◌∙◌}
use mathlib.Core.Logic.{◌≢◌, ◌⊎◌, inl, inr}

-- What a call of the port at time `t` in the state `c` asks for: a synchronization, or a control
-- operation that is wanted, by a ready and synchronized controller whose last status is fresh.
abbrev pub IsAllowed : Config → Port → ℕ → Controller → Operation → Type 0
IsAllowed config port t c op =
    (command_of_operation op ≡ none)
    ⊎ ((k : Command) × (command_of_operation op ≡ some k)
        × IsWanted k c
        × (may_control config port c ≡ true)
        × (control_status_is_fresh config port t c ≡ true))

-- From `c` to `d` at most one call of the port, and an allowed one.
abbrev pub Calls : Config → Port → ℕ → Controller → Controller → Type 0
Calls config port t c d =
    (d.sent ≡ c.sent) ⊎ ((op : Operation) × (d.sent ≡ op ∷ c.sent) × IsAllowed config port t c op)

module _ (config : Config) (port : Port) where
  sent_report-some :
      (m : Exec Controller Report) (c : Controller) → (sent_report config port m c).0 ≢ ok none
  sent_report-some m c h = ground arith

  decide-quiet :
      (t : ℕ) (s : HeaterState) (c : Controller)
      → (decide config port t s c).0 ≡ ok none
      → (decide config port t s c).1.sent ≡ c.sent
  unfolding decide
  decide-quiet t HeaterState.off c h = ground (
    arith,
    sent_report-some (send_control config port Command.start t) c,
    set_policy_fault-sent config port t Command.start
        (message "OFF returned after a completed START generation") false c,
  )
  decide-quiet t HeaterState.starting c h = ground (arith, defer_stop-sent config port t c)
  decide-quiet t HeaterState.running c h = ground (
    arith,
    sent_report-some (send_control config port Command.shutdown t) c,
    set_policy_fault-sent config port t Command.shutdown
        (message "RUNNING returned after a completed SHUTDOWN generation") false c,
  )
  decide-quiet t HeaterState.temp_monitoring c h = ground (
    arith,
    set_policy_fault-sent config port t Command.shutdown
        (message "shutdown behaviour for TEMP_MONITORING is unconfirmed") true c,
  )
  decide-quiet t HeaterState.shutting_down c h = refl
  decide-quiet t HeaterState.unknown c h = refl

  attempt-quiet :
      (t : ℕ) (o : Option Attempt) (c : Controller)
      → (evaluate_attempt config port t o c).0 ≡ ok none
      → (evaluate_attempt config port t o c).1.sent ≡ c.sent
  attempt-quiet t (some a) c h =
      ground (arith, sent_report-some (send_control config port a.command t) c)
  attempt-quiet t none c h =
      ground (arith, decide-quiet t c.actual.heater_state (forget_starting_stop config port c))

  evaluate_control-quiet :
      (t : ℕ) (c : Controller)
      → (evaluate_control config port t c).0 ≡ ok none
      → (evaluate_control config port t c).1.sent ≡ c.sent
  unfolding evaluate_control
  evaluate_control-quiet t c h =
      ground (arith, attempt-quiet t c.control_attempt (record c { pending_control_due_ms = none }))

  pub request_synchronization-sent :
      (t : ℕ) (c : Controller)
      → (request_synchronization config port t c).0.sent
        ≡ (if c.actual.initialized
            then Operation.request_status
            else Operation.request_initialization)
          ∷ c.sent
  unfolding request_synchronization begin_response_wait call_protocol mark_error emit_event
  request_synchronization-sent t c = ground arith

  synchronize_if_due-Calls :
      (t : ℕ) (c : Controller)
      → ((synchronize_if_due config port t c).1.sent ≡ c.sent)
        ⊎ ((op : Operation) × ((synchronize_if_due config port t c).1.sent ≡ op ∷ c.sent)
            × (command_of_operation op ≡ none))
  unfolding synchronize_if_due
  synchronize_if_due-Calls t c =
      elim (Bool-cases (is_none c.next_request_due_ms || due config port t c.next_request_due_ms)) [
        | inl y ↦ inr (
          (if c.actual.initialized
              then Operation.request_status
              else Operation.request_initialization),
          ground (arith, request_synchronization-sent t c),
          ground arith,
        )
        | inr n ↦ inl (ground arith)
      ]

  Calls-of_sync :
      (t : ℕ) (b c : Controller)
      → c.sent ≡ b.sent
      → Calls config port t b (synchronize_if_due config port t c).1
  Calls-of_sync t b c e = elim (synchronize_if_due-Calls t c) [
    | inl s ↦ inl (s ∙ e)
    | inr (op, s, n) ↦ inr (op, cc (s, e), inl n)
  ]

  Calls-of_Acts :
      (t : ℕ) (c d : Controller)
      → control_status_is_fresh config port t c ≡ true
      → ((d.sent ≡ c.sent) ⊎ ((may_control config port c ≡ true) × Acts c d))
      → Calls config port t c d
  Calls-of_Acts t c d f (inl s) = inl s
  Calls-of_Acts t c d f (inr (m, inl s)) = inl s
  Calls-of_Acts t c d f (inr (m, inr (k, op, s, o, w))) = inr (op, s, inr (k, o, w, m, f))

  after_evaluation-Calls :
      (t : ℕ) (b : Controller) (r : Result (Option Report) × Controller)
      → Calls config port t b r.1
      → (r.0 ≡ ok none → r.1.sent ≡ b.sent)
      → Calls config port t b (after_evaluation config port t r).1
  after_evaluation-Calls t b (err e, c) h q = h
  after_evaluation-Calls t b (ok (some x), c) h q = h
  after_evaluation-Calls t b (ok none, c) h q = Calls-of_sync t b c (q refl)

  -- The part of a cycle that may act calls the port at most once.
  pub control_cycle-Calls :
      (t : ℕ) (c : Controller) → Calls config port t c (control_cycle config port t c).1
  unfolding control_cycle
  control_cycle-Calls t c = elim (Bool-cases (control_status_is_fresh config port t c)) [
    | inl f ↦ ground (
      arith,
      after_evaluation-Calls t c (evaluate_control config port t c)
          (Calls-of_Acts t c (evaluate_control config port t c).1 f
            (evaluate_control-Acts config port t c))
          (evaluate_control-quiet t c),
      Calls-of_sync t c c refl,
    )
    | inr n ↦
        ground (
          arith,
          Calls-of_sync t c c refl,
          Calls-of_sync t c (postpone_control config port t c) refl,
        )
  ]

  -- One cycle calls the protocol port at most once. The call is a synchronization, or it is a
  -- control operation that the state after the cycle's own checks wants: START where the heater is
  -- OFF and requested on, SHUTDOWN where it is RUNNING and not requested on. A control operation
  -- needs moreover a ready, initialized and synchronized controller with a working communication
  -- and no control fault, and a status that is younger than the heartbeat.
  pub step_calls :
      (sensors : Sensors) (t : ℕ) (c : Controller)
      → ((step config port sensors t c).1.sent ≡ c.sent)
        ⊎ ((op : Operation) × ((step config port sensors t c).1.sent ≡ op ∷ c.sent)
            × IsAllowed config port t (before_control config port sensors t c) op)
  unfolding step
  step_calls sensors t c =
      let b = before_control config port sensors t c in
      let r = before_control-Rests config port sensors t c in
      elim (control_cycle-Calls t b) [
        | inl s ↦ inl (s ∙ r)
        | inr (op, s, a) ↦ inr (op, cc (s, r), a)
      ]
