-- ===== src/Action/ServicesClient/Handlers.antt =====
-- What the handlers of `poll` make of an event that the state machine takes
-- (src/action_services_client.cpp).
use hakoniwa_pdu_rpc.Base.{◌≡◌, refl, ap, true, none, some, arith, bytes_equality}
use hakoniwa_pdu_rpc.Base.Map.{lookup}
use hakoniwa_pdu_rpc.Action.Types.{is_valid_goal_id, ClientEvent, Decision}
use hakoniwa_pdu_rpc.Action.ClientMachine.{
  ClientGoalContext, ClientGoalEvent, ClientTransitionKind, initial_context, move,
  transition_client_goal,
}
use hakoniwa_pdu_rpc.Action.ServicesClient.{
  ActionInstance, is_decided, set_goal, has_goal, remove_goal, handle_goal_response, apply_event,
  handle_feedback, handle_cancel_response, handle_result, feedback_event, cancel_event,
  result_event,
}

pub accepted_response :
    (a : ActionInstance) (e : ClientEvent)
    → is_valid_goal_id e.goal ≡ true
    → e.decision ≡ Decision.accepted
    → lookup e.goal a.goals ≡ none
    → handle_goal_response a e ≡ (set_goal a e.goal initial_context, e)
unfolding handle_goal_response has_goal
accepted_response a e valid d fresh = ground arith

pub rejected_response :
    (a : ActionInstance) (e : ClientEvent)
    → is_valid_goal_id e.goal ≡ true
    → e.decision ≡ Decision.rejected
    → handle_goal_response a e ≡ (a, e)
unfolding handle_goal_response
rejected_response a e valid d = ground arith

-- An event that moves the state machine is handed on.
pub apply_event_moves :
    (a : ActionInstance) (e : ClientEvent) (ge : ClientGoalEvent)
    (commit : ClientGoalContext → ActionInstance) (c : ClientGoalContext)
    → lookup e.goal a.goals ≡ some c
    → (transition_client_goal c ge).kind ≡ ClientTransitionKind.transitioned
    → apply_event a e ge commit ≡ (commit (transition_client_goal c ge).next, e)
unfolding apply_event
apply_event_moves a e ge commit c here m = rw (here, apply_event) (rw (m) refl)

module _ (a : ActionInstance) (e : ClientEvent) (valid : is_valid_goal_id e.goal ≡ true)
    (c : ClientGoalContext) (here : lookup e.goal a.goals ≡ some c) where
  pub fed_event :
      (n : ClientGoalContext)
      → transition_client_goal c (feedback_event e) ≡ move n
      → handle_feedback a e ≡ (set_goal a e.goal n, e)
  unfolding handle_feedback
  fed_event n m = rw valid (
      rw
        (apply_event_moves a e (feedback_event e) (λ next. set_goal a e.goal next) c here
          (ap (λ t. t.kind) m))
        (rw m refl))

  pub canceled_event :
      (n : ClientGoalContext)
      → is_decided e.decision ≡ true
      → transition_client_goal c (cancel_event e) ≡ move n
      → handle_cancel_response a e ≡ (set_goal a e.goal n, e)
  unfolding handle_cancel_response
  canceled_event n d m = rw valid (
      rw d (
        rw
          (apply_event_moves a e (cancel_event e) (λ next. set_goal a e.goal next) c here
            (ap (λ t. t.kind) m))
          (rw m refl)))

  pub ended_event :
      (transition_client_goal c (result_event e)).kind ≡ ClientTransitionKind.transitioned
      → handle_result a e ≡ (record a { goals = remove_goal e.goal a.goals }, e)
  unfolding handle_result
  ended_event m = rw valid (
      apply_event_moves a e (result_event e) (λ _. record a { goals = remove_goal e.goal a.goals })
        c here m)
