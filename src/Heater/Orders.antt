-- ===== src/Heater/Orders.antt =====
-- app/heater_controller.py: when a control operation reaches the protocol port.
use landy_heater.Prelude.{
  ℕ, Bool, true, false, not, ◌&&◌, Option, none, some, ◌∷◌, if◌then◌else◌, Bool-cases,
}
use landy_heater.Prelude.Exec.{Exec}
use landy_heater.AppState.{HeaterState}
use landy_heater.Heater.Types.{
  Command, Operation, Attempt, Config, Port, Controller, Reason, message,
}
use landy_heater.Heater.Base.{is_start, is_off, is_running, emit_event}
use landy_heater.Heater.Link.{Report}
use landy_heater.Heater.Sent.{
  Orders, command_of_operation, send_control-Orders, set_policy_fault-sent,
}
use landy_heater.Heater.Attempts.{
  send_control, set_policy_fault, attempt_matches_current_request, set_control_fault,
}
use landy_heater.Heater.Control.{
  may_control, decide, evaluate_attempt, evaluate_control, nothing, sent_report, defer_stop,
  forget_starting_stop,
}
use native.Mathlib.Omega.{arith}
use mathlib.Core.Path.{◌≡◌, refl, subst, sym}
use mathlib.Core.Logic.{◌⊎◌, inl, inr}

-- START is wanted of a heater that is OFF and requested on, SHUTDOWN of one that is RUNNING and
-- not requested on.
abbrev pub IsWanted : Command → Controller → Type 0
IsWanted Command.start c = (c.requested.on ≡ true) × (c.actual.heater_state ≡ HeaterState.off)
IsWanted Command.shutdown c =
    (c.requested.on ≡ false) × (c.actual.heater_state ≡ HeaterState.running)

-- From `c` to `d` the port was not called, or once, for a command that is wanted in `c`.
abbrev pub Acts : Controller → Controller → Type 0
Acts c d =
    (d.sent ≡ c.sent)
    ⊎ ((k : Command) × (op : Operation) × (d.sent ≡ op ∷ c.sent)
        × (command_of_operation op ≡ some k)
        × IsWanted k c)

Acts-of : (k : Command) (c d : Controller) → IsWanted k c → Orders k c d → Acts c d
Acts-of k c d w (inl e) = inl e
Acts-of k c d w (inr (op, e, h)) = inr (k, op, e, h, w)

module _ (config : Config) (port : Port) where
  sent_report-state :
      (m : Exec Controller Report) (c : Controller) → (sent_report config port m c).1 ≡ (m c).1
  sent_report-state m c = ground arith

  send-Acts :
      (k : Command) (t : ℕ) (c : Controller)
      → IsWanted k c
      → ((a : Attempt) → c.control_attempt ≡ some a → a.command ≡ k)
      → Acts c (sent_report config port (send_control config port k t) c).1
  send-Acts k t c w h =
      subst (Acts c) (sym (sent_report-state (send_control config port k t) c))
        (Acts-of k c (send_control config port k t c).1 w (send_control-Orders config port k t c h))

  stays : (c : Controller) → Acts c (nothing config port c).1
  stays c = inl refl

  fault-Acts :
      (t : ℕ) (k : Command) (r : Reason) (b : Bool) (c : Controller)
      → Acts c (set_policy_fault config port t k r b c)
  fault-Acts t k r b c = inl (set_policy_fault-sent config port t k r b c)

  pub defer_stop-sent : (t : ℕ) (c : Controller) → (defer_stop config port t c).sent ≡ c.sent
  unfolding set_policy_fault set_control_fault emit_event
  defer_stop-sent t c = ground arith

  decide-Acts :
      (t : ℕ) (s : HeaterState) (c : Controller)
      → c.actual.heater_state ≡ s
      → c.control_attempt ≡ none
      → Acts c (decide config port t s c).1
  unfolding decide
  decide-Acts t HeaterState.off c e n = elim (Bool-cases c.requested.on) [
    | inl y ↦ ground (
      arith,
      send-Acts Command.start t c (y, e) (λ a h. cc),
      set_policy_fault-sent config port t Command.start
          (message "OFF returned after a completed START generation") false c,
    )
    | inr x ↦ inl (ground arith)
  ]
  decide-Acts t HeaterState.starting c e n = inl (ground (arith, defer_stop-sent t c))
  decide-Acts t HeaterState.running c e n = elim (Bool-cases c.requested.on) [
    | inl y ↦ inl (ground arith)
    | inr x ↦ ground (
      arith,
      send-Acts Command.shutdown t c (x, e) (λ a h. cc),
      set_policy_fault-sent config port t Command.shutdown
          (message "RUNNING returned after a completed SHUTDOWN generation") false c,
    )
  ]
  decide-Acts t HeaterState.temp_monitoring c e n = inl (
      ground (
        arith,
        set_policy_fault-sent config port t Command.shutdown
            (message "shutdown behaviour for TEMP_MONITORING is unconfirmed") true c,
      ))
  decide-Acts t HeaterState.shutting_down c e n = inl refl
  decide-Acts t HeaterState.unknown c e n = inl refl

  IsWanted-of_test :
      (k : Command) (c : Controller)
      → (if is_start k
          then c.requested.on && is_off c.actual.heater_state
          else not c.requested.on && is_running c.actual.heater_state)
        ≡ true
      → IsWanted k c
  IsWanted-of_test Command.start c h = (ground arith, ground arith)
  IsWanted-of_test Command.shutdown c h = (ground arith, ground arith)

  IsWanted-of_match :
      (a : Attempt) (c : Controller)
      → attempt_matches_current_request config port c a ≡ true
      → IsWanted a.command c
  unfolding attempt_matches_current_request
  IsWanted-of_match a c h = IsWanted-of_test a.command c (ground arith)

  retry-Acts :
      (t : ℕ) (a : Attempt) (c : Controller)
      → c.control_attempt ≡ some a
      → Acts c (evaluate_attempt config port t (some a) c).1
  retry-Acts t a c e =
      elim (Bool-cases (a.retry_ready && attempt_matches_current_request config port c a)) [
        | inl y ↦ ground (
          arith,
          send-Acts a.command t c (IsWanted-of_match a c (ground arith)) (λ b h. cc (e, h)),
        )
        | inr n ↦ inl (ground arith)
      ]

  attempt-Acts :
      (t : ℕ) (o : Option Attempt) (c : Controller)
      → c.control_attempt ≡ o
      → Acts c (evaluate_attempt config port t o c).1
  attempt-Acts t (some a) c e = retry-Acts t a c e
  attempt-Acts t none c e = ground (
    arith,
    decide-Acts t c.actual.heater_state (forget_starting_stop config port c) (ground arith)
        (ground arith),
  )

  -- The part of a cycle that evaluates control calls the port at most once, and then the controller
  -- is ready, synchronized and without a fault, and the operation is wanted: START of a heater that
  -- is OFF and requested on, SHUTDOWN of one that is RUNNING and not requested on.
  pub evaluate_control-Acts :
      (t : ℕ) (c : Controller)
      → ((evaluate_control config port t c).1.sent ≡ c.sent)
        ⊎ ((may_control config port c ≡ true) × Acts c (evaluate_control config port t c).1)
  unfolding evaluate_control
  evaluate_control-Acts t c = elim (Bool-cases (may_control config port c)) [
    | inl y ↦ inr (
      y,
      ground (
        arith,
        attempt-Acts t c.control_attempt (record c { pending_control_due_ms = none }) refl,
      ),
    )
    | inr n ↦ inl (ground arith)
  ]
