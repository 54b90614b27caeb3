-- ===== src/Heater/Silent.antt =====
-- app/heater_controller.py: an inbound frame and a request of the application call no port.
use landy_heater.Prelude.{
  ℕ, Bool, true, false, Option, none, some, Result, ok, err, if◌then◌else◌, ◌||◌, not, ◌==◌,
}
use landy_heater.AppState.{HeaterState, Requested, request_on}
use landy_heater.Autoterm.{Frame, StatusFields, cmd_init, cmd_status, device_heater}
use landy_heater.Heater.Types.{Config, Port, Controller, Reason, message}
use landy_heater.Heater.Base.{
  emit_event, mark_error, request_stop, discard_session, schedule_control,
  restore_noncommunication_error, clear_control_attempt, clear_control_fault,
}
use landy_heater.Heater.Requests.{
  Deadline, request_start, update_active_session, retry_control_fault,
}
use landy_heater.Heater.Link.{expected_response_is_timely, record_invalid_frame, accept_init}
use landy_heater.Heater.Confirm.{
  notice_unexpected_stop, cancel_restart, end_session, settle_off, settle_fault, settle_attempt,
  confirm_session, process_control_confirmation, take_status, finish_status, accept_status,
  accept_status_of, handle_answer, handle_validated, handle_frame, handle_result,
}
use landy_heater.Heater.Sent.{mark_error-sent}
use landy_heater.Heater.Checks.{complete-Rests}
use native.Mathlib.Omega.{arith}
use mathlib.Core.Path.{◌≡◌, refl, ◌∙◌}

-- A branch leaves the calls as they were if both its cases do.
if-sent :
    (b : Bool) (c : Controller) (x y : Controller × Bool)
    → x.0.sent ≡ c.sent
    → y.0.sent ≡ c.sent
    → (if b then x else y).0.sent ≡ c.sent
if-sent true c x y p q = p
if-sent false c x y p q = q

module _ (config : Config) (port : Port) where
  notice-sent :
      (t : ℕ) (s : HeaterState) (r : Bool) (c : Controller)
      → (notice_unexpected_stop config t s r c).sent ≡ c.sent
  unfolding notice_unexpected_stop emit_event discard_session
  notice-sent t s r c = ground arith

  cancel_restart-sent : (t : ℕ) (c : Controller) → (cancel_restart config t c).sent ≡ c.sent
  unfolding cancel_restart emit_event
  cancel_restart-sent t c = ground arith

  end_session-sent : (c : Controller) → (end_session config c).sent ≡ c.sent
  unfolding end_session discard_session
  end_session-sent c = ground arith

  settle_off-sent : (t : ℕ) (c : Controller) → (settle_off config t c).sent ≡ c.sent
  unfolding settle_off
  settle_off-sent t c =
      let d = record (cancel_restart config t c) { restart_blocked = false } in
      ground (
        arith,
        complete-Rests config port t (end_session config d),
        end_session-sent d,
        cancel_restart-sent t c,
      )

  settle_fault-sent : (t : ℕ) (c : Controller) → (settle_fault config t c).sent ≡ c.sent
  unfolding settle_fault clear_control_fault emit_event discard_session
      restore_noncommunication_error
  settle_fault-sent t c = ground arith

  settle_attempt-sent : (t : ℕ) (c : Controller) → (settle_attempt config port t c).sent ≡ c.sent
  unfolding settle_attempt clear_control_attempt emit_event
  settle_attempt-sent t c = ground arith

  confirm-sent : (c : Controller) → (confirm_session config port c).sent ≡ c.sent
  unfolding confirm_session
  confirm-sent c = ground arith

  finish-sent :
      (t : ℕ) (b : Bool) (c : Controller) → (finish_status config port t b c).sent ≡ c.sent
  unfolding finish_status emit_event schedule_control restore_noncommunication_error
  finish-sent t b c = ground arith

  timely-sent :
      (k t : ℕ) (c : Controller) → (expected_response_is_timely config port k t c).0.sent ≡ c.sent
  unfolding expected_response_is_timely mark_error emit_event
  timely-sent k t c = ground arith

  invalid-sent :
      (t : ℕ) (r : Reason) (c : Controller) → (record_invalid_frame config port t r c).sent ≡ c.sent
  unfolding record_invalid_frame mark_error emit_event
  invalid-sent t r c = ground arith

  confirmation-sent :
      (t : ℕ) (s : HeaterState) (r : Bool) (c : Controller)
      → (process_control_confirmation config port t s r c).sent ≡ c.sent
  unfolding process_control_confirmation
  confirmation-sent t s r c =
      let c1 = notice_unexpected_stop config t s r c in
      let c2 = settle_off config t c1 in
      let c3 = settle_fault config t c2 in
      confirm-sent (settle_attempt config port t c3)
      ∙ settle_attempt-sent t c3
      ∙ settle_fault-sent t c2
      ∙ settle_off-sent t c1
      ∙ notice-sent t s r c

  status-sent :
      (s : StatusFields) (t : ℕ) (c : Controller) → (accept_status config port s t c).sent ≡ c.sent
  unfolding accept_status take_status
  status-sent s t c =
      let c1 = take_status config port s t c in
      finish-sent t c.communication_fault_active (
        process_control_confirmation config port t c.actual.heater_state
          c.communication_fault_active c1)
      ∙ confirmation-sent t c.actual.heater_state c.communication_fault_active c1

  status_of-sent :
      (s : Option StatusFields) (t : ℕ) (c : Controller)
      → (accept_status_of config port s t c).0.sent ≡ c.sent
  status_of-sent none t c = refl
  status_of-sent (some s) t c = status-sent s t c

  answer-sent :
      (f : Frame) (t : ℕ) (c : Controller) → (handle_answer config port f t c).0.sent ≡ c.sent
  unfolding handle_answer accept_init
  answer-sent f t c =
      let r = expected_response_is_timely config port f.command t c in
      let e = timely-sent f.command t c in
      if-sent (f.command == cmd_init) c _ _ (if-sent r.1 c _ _ e e) (
        if-sent (not c.actual.initialized) c _ _ refl
          (if-sent r.1 c _ _ (status_of-sent f.status t r.0 ∙ e) e))

  validated-sent :
      (f : Frame) (t : ℕ) (c : Controller) → (handle_validated config port f t c).0.sent ≡ c.sent
  unfolding handle_validated
  validated-sent f t c = if-sent (not (f.device == device_heater)) c _ _ refl (
      if-sent (not ((f.command == cmd_init) || (f.command == cmd_status))) c _ _ refl
        (if-sent _ c _ _ (answer-sent f t c) (invalid-sent t _ c)))

  result-sent :
      (r : Result (Option Frame)) (t : ℕ) (c : Controller)
      → (handle_result config port r t c).0.sent ≡ c.sent
  result-sent (err e) t c =
      mark_error-sent config (some t) (some (message "inbound validation failed"))
        (record_invalid_frame config port t (message "inbound validation failed") c)
      ∙ invalid-sent t _ c
  result-sent (ok none) t c = invalid-sent t _ c
  result-sent (ok (some f)) t c = validated-sent f t c

  request_start-sent :
      (w : Requested) (d : Deadline) (c : Controller)
      → (request_start config port w d c).1.sent ≡ c.sent
  unfolding request_start request_on restore_noncommunication_error
  request_start-sent w d c = ground arith

  update-sent :
      (r : ℕ) (target : Option ℕ) (extend t : ℕ) (c : Controller)
      → (update_active_session config port r target extend t c).1.sent ≡ c.sent
  unfolding update_active_session emit_event
  update-sent r target extend t c = ground arith

  retry-sent : (t : ℕ) (c : Controller) → (retry_control_fault config port t c).1.sent ≡ c.sent
  unfolding retry_control_fault emit_event restore_noncommunication_error
  retry-sent t c = ground arith

  -- Only the cycle calls the protocol port: an inbound frame, whatever it is, a start request, an
  -- update of the session, the retry of a fault and a stop request leave the calls as they were.
  pub silent_operations :
      (c : Controller)
      → ((f : Frame) (t : ℕ) → (handle_frame config port f t c).0.sent ≡ c.sent)
        × ((w : Requested) (d : Deadline) → (request_start config port w d c).1.sent ≡ c.sent)
        × ((r : ℕ) (target : Option ℕ) (extend t : ℕ)
            → (update_active_session config port r target extend t c).1.sent ≡ c.sent)
        × ((t : ℕ) → (retry_control_fault config port t c).1.sent ≡ c.sent)
        × ((request_stop c).0.sent ≡ c.sent)
  unfolding handle_frame request_stop
  silent_operations c = (
    λ f t. result-sent (port.validate_inbound_frame f) t c,
    λ w d. request_start-sent w d c,
    λ r target extend t. update-sent r target extend t c,
    λ t. retry-sent t c,
    ground arith,
  )
