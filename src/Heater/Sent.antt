-- ===== src/Heater/Sent.antt =====
-- app/heater_controller.py: which functions call the protocol port, and with what.
use landy_heater.Prelude.{ℕ, Bool, Option, none, some, ◌∷◌, Result, ok, err, Option-cases}
use landy_heater.Prelude.Exec.{◌>>=◌}
use landy_heater.Heater.Types.{
  Command, Operation, Reason, EventKind, Attempt, StartPlan, SessionSpec, Config, Port, Controller,
}
use landy_heater.Heater.Base.{emit_event, mark_error, call_protocol}
use landy_heater.Heater.Link.{Report}
use landy_heater.Heater.Sessions.{install_session, start_session, check_session_sensor}
use landy_heater.Heater.Attempts.{
  set_control_fault, set_policy_fault, send_shutdown, send_start, after_send, send_planned,
  send_attempt, send_by, send_control, sending, prepare_attempt, new_attempt, plan_of,
}
use native.Mathlib.Omega.{arith}
use mathlib.Core.Path.{◌≡◌, refl, ◌∙◌, subst}
use mathlib.Core.Logic.{◌⊎◌, inl, inr}

-- The control command that an operation of the port carries out, if it is one.
abbrev pub command_of_operation : Operation → Option Command
command_of_operation (Operation.request_start mode target level) = some Command.start
command_of_operation Operation.request_shutdown = some Command.shutdown
command_of_operation _ = none

-- From `c` to `d` the port was not called, or once and for the command `k`.
abbrev pub Orders : Command → Controller → Controller → Type 0
Orders k c d =
    (d.sent ≡ c.sent)
    ⊎ ((op : Operation) × (d.sent ≡ op ∷ c.sent) × (command_of_operation op ≡ some k))

module _ (config : Config) where
  pub emit_event-sent :
      (k : EventKind) (t : Option ℕ) (c : Controller) → (emit_event config k t c).sent ≡ c.sent
  unfolding emit_event
  emit_event-sent k t c = ground arith

  pub mark_error-sent :
      (t : Option ℕ) (r : Option Reason) (c : Controller) → (mark_error config t r c).sent ≡ c.sent
  unfolding mark_error emit_event
  mark_error-sent t r c = ground arith

  module _ (port : Port) where
    pub set_policy_fault-sent :
        (t : ℕ) (k : Command) (r : Reason) (b : Bool) (c : Controller)
        → (set_policy_fault config port t k r b c).sent ≡ c.sent
    unfolding set_policy_fault set_control_fault emit_event
    set_policy_fault-sent t k r b c = ground arith

    pub call_protocol-sent :
        (op : Operation) (t : ℕ) (c : Controller)
        → (call_protocol config port op t c).0.sent ≡ op ∷ c.sent
    unfolding call_protocol mark_error emit_event
    call_protocol-sent op t c = ground arith

    pub start_session-sent :
        (spec : SessionSpec) (t : ℕ) (c : Controller)
        → (start_session config port spec t c).1.sent ≡ c.sent
    unfolding start_session check_session_sensor install_session emit_event
    start_session-sent spec t c = ground arith

    pub after_send-sent :
        (a : Attempt) (t : ℕ) (x y : Report) (r : Controller × Bool)
        → (after_send config port a t x y r).0.sent ≡ r.0.sent
    unfolding emit_event
    after_send-sent a t x y r = ground arith

    send_shutdown-Orders :
        (a : Attempt) (t : ℕ) (c : Controller)
        → Orders Command.shutdown c (send_shutdown config port a t c).0
    unfolding send_shutdown
    send_shutdown-Orders a t c = inr (
      Operation.request_shutdown,
      after_send-sent a t _ _ (call_protocol config port Operation.request_shutdown t _)
          ∙ call_protocol-sent Operation.request_shutdown t _,
      refl,
    )

    send_planned-Orders :
        (a : Attempt) (p : StartPlan) (t : ℕ) (r : Result (Unit {0}) × Controller)
        → Orders Command.start r.1 (send_planned config port a p t r).1
    send_planned-Orders a p t (err e, c) = inl refl
    send_planned-Orders a p t (ok x, c) =
        let op = Operation.request_start p.mode p.target_temperature p.power_level in
        inr (
          op,
          after_send-sent a t _ _ (call_protocol config port op t _) ∙ call_protocol-sent op t _,
          refl,
        )

    send_start-Orders :
        (a : Attempt) (p : StartPlan) (t : ℕ) (c : Controller)
        → Orders Command.start c (send_start config port a p t c).1
    unfolding send_start
    send_start-Orders a p t c =
        subst
          (λ xs. Orders Command.start (record c { sent = xs }) (send_start config port a p t c).1)
          (start_session-sent p.session_spec t (record c { control_attempt = some a }))
          (send_planned-Orders a p t
            (start_session config port p.session_spec t (record c { control_attempt = some a })))

    send_by-Orders :
        (k : Command) (p : Option StartPlan) (a : Attempt) (t : ℕ) (c : Controller)
        → Orders k c (send_by config port k p a t c).1
    send_by-Orders Command.shutdown p a t c = send_shutdown-Orders a t c
    send_by-Orders Command.start (some p) a t c = send_start-Orders a p t c
    send_by-Orders Command.start none a t c = inl refl

    fresh_attempt-Orders :
        (k : Command) (t : ℕ) (c : Controller)
        → Orders k c
            ((prepare_attempt config port k t >>= λ a.
                send_attempt config port (sending config port a t) t)
              c).1
    fresh_attempt-Orders Command.shutdown t c = send_by-Orders Command.shutdown none _ t c
    fresh_attempt-Orders Command.start t c = ground (
      arith,
      send_by-Orders Command.start (some (plan_of config port c.requested))
          (sending config port
            (new_attempt config port Command.start t (some (plan_of config port c.requested)) c) t)
          t c,
    )

    -- Control calls the port at most once, for the command that it is given: a repeated attempt has
    -- that command.
    pub send_control-Orders :
        (k : Command) (t : ℕ) (c : Controller)
        → ((a : Attempt) → c.control_attempt ≡ some a → a.command ≡ k)
        → Orders k c (send_control config port k t c).1
    unfolding send_control
    send_control-Orders k t c h = elim (Option-cases c.control_attempt) [
      | inl n ↦ ground (arith, fresh_attempt-Orders k t c)
      | inr (a, e) ↦ ground (arith, h a e, send_by-Orders k a.plan (sending config port a t) t c)
    ]
