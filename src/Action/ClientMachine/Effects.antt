-- ===== src/Action/ClientMachine/Effects.antt =====
-- Which events move an accepted Goal, and what its context becomes.
use hakoniwa_pdu_rpc.Base.{◌+◌, ◌%◌, ◌^◌, ◌≡◌, refl, true, false, arith}
use hakoniwa_pdu_rpc.Action.Types.{
  canceling, TerminalStatus, is_executing, is_finishing, is_allowed_result,
}
use hakoniwa_pdu_rpc.Action.ClientMachine.{
  ClientGoalContext, ClientGoalEvent, ClientTransitionKind, request_cancel, feedback_received,
  cancel_response_accepted, cancel_response_rejected, result_received, move,
  is_valid_client_context, transition_client_goal, dispatch, receive_client_result,
}

-- `{type}`, with the other members at their initial values.
abbrev pub request_event : ClientGoalEvent
request_event = record {
  type = request_cancel;
  terminal_status = TerminalStatus.unspecified;
  feedback_sequence = 0;
}

module _ (c : ClientGoalContext) (valid : is_valid_client_context c ≡ true) where
  pub request_cancel-requires :
      (transition_client_goal c request_event).kind ≡ ClientTransitionKind.transitioned
      → (is_executing c.state ≡ true) × (c.cancel_response_pending ≡ false)
  unfolding transition_client_goal dispatch
  request_cancel-requires h = ground arith

  pub request_cancel-next :
      is_executing c.state ≡ true
      → c.cancel_response_pending ≡ false
      → transition_client_goal c request_event ≡ move (record c { cancel_response_pending = true })
  unfolding transition_client_goal dispatch
  request_cancel-next x p = ground arith

  pub feedback-next :
      (e : ClientGoalEvent)
      → e.type ≡ feedback_received
      → is_finishing c.state ≡ false
      → e.feedback_sequence ≡ c.next_feedback_sequence
      → transition_client_goal c e
        ≡ move (record c { next_feedback_sequence = (c.next_feedback_sequence + 1) % 2 ^ 32 })
  unfolding transition_client_goal dispatch
  feedback-next e t f s = ground arith

  pub cancel_accepted-next :
      (e : ClientGoalEvent)
      → e.type ≡ cancel_response_accepted
      → is_executing c.state ≡ true
      → c.cancel_response_pending ≡ true
      → transition_client_goal c e
        ≡ move (record c { state = canceling; cancel_response_pending = false })
  unfolding transition_client_goal dispatch
  cancel_accepted-next e t x p = ground arith

  pub cancel_rejected-next :
      (e : ClientGoalEvent)
      → e.type ≡ cancel_response_rejected
      → is_executing c.state ≡ true
      → c.cancel_response_pending ≡ true
      → transition_client_goal c e ≡ move (record c { cancel_response_pending = false })
  unfolding transition_client_goal dispatch
  cancel_rejected-next e t x p = ground arith

  pub result-transitions :
      (e : ClientGoalEvent)
      → e.type ≡ result_received
      → is_allowed_result c.state e.terminal_status ≡ true
      → (transition_client_goal c e).kind ≡ ClientTransitionKind.transitioned
  unfolding transition_client_goal dispatch receive_client_result
  result-transitions e t a = ground arith

-- A property of what follows a transition, by its kind.
pub kind_split {ℓ κ} :
    {A : Type ℓ} (P : A → Type κ) (k : ClientTransitionKind) (x y z : A)
    → (k ≡ ClientTransitionKind.error → P x)
    → (k ≡ ClientTransitionKind.nop → P y)
    → (k ≡ ClientTransitionKind.transitioned → P z)
    → P (elim k [
      | ClientTransitionKind.error ↦ x
      | ClientTransitionKind.nop ↦ y
      | ClientTransitionKind.transitioned ↦ z
    ])
kind_split P ClientTransitionKind.error x y z p q r = p refl
kind_split P ClientTransitionKind.nop x y z p q r = q refl
kind_split P ClientTransitionKind.transitioned x y z p q r = r refl
