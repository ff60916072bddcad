-- ===== src/Action/ServerMachine.antt =====
-- include/hakoniwa/pdu/action/action_server_state_machine.hpp and
-- src/action_server_state_machine.cpp: the Goal life cycle on the Server, a pure function from a
-- context and an event to a transition.
pub mod Steps
pub mod Effects
use hakoniwa_pdu_rpc.Base.{ℕ, Bool, true, false, not, ◌&&◌, ◌||◌, if◌then◌else◌}
use hakoniwa_pdu_rpc.Action.Types.{
  GoalState, executing, canceling, finishing, TerminalStatus, is_executing, is_canceling,
  is_finishing, is_unspecified, succeeded, canceled, aborted, is_goal_state, is_terminal,
  is_allowed_result,
}

pub data CancelOrigin : Type 0 where
  none client runtime : CancelOrigin

pub data ServerGoalEvent : Type 0 where
  publish_feedback : ServerGoalEvent
  complete_succeeded : ServerGoalEvent
  complete_canceled : ServerGoalEvent
  complete_aborted : ServerGoalEvent
  complete_unspecified : ServerGoalEvent
  accept_cancel : ServerGoalEvent
  reject_cancel : ServerGoalEvent
  cancel_request_received : ServerGoalEvent
  duplicate_cancel_request_received : ServerGoalEvent
  duplicate_goal_request_received : ServerGoalEvent
  feedback_send_completed : ServerGoalEvent
  feedback_send_failed : ServerGoalEvent
  result_send_completed : ServerGoalEvent
  result_send_failed : ServerGoalEvent
  transport_disconnected : ServerGoalEvent
  runtime_cancel_requested : ServerGoalEvent
  application_response_timeout : ServerGoalEvent
  server_shutdown_requested : ServerGoalEvent
  other : ℕ → ServerGoalEvent

pub record ServerGoalContext : Type 0 where
  pub state : GoalState
  pub cancel_decision_pending : Bool
  pub cancel_origin : CancelOrigin
  pub terminal_status : TerminalStatus

-- The member initializers of the struct: a Goal that was just accepted.
abbrev pub initial_context : ServerGoalContext
initial_context = record {
  state = executing;
  cancel_decision_pending = false;
  cancel_origin = CancelOrigin.none;
  terminal_status = TerminalStatus.unspecified;
}

pub data ServerTransitionKind : Type 0 where
  transitioned nop error : ServerTransitionKind

pub data ServerTransitionError : Type 0 where
  none : ServerTransitionError
  invalid_context : ServerTransitionError
  event_not_allowed : ServerTransitionError
  cancel_decision_not_pending : ServerTransitionError
  invalid_terminal_status : ServerTransitionError
  unknown_event : ServerTransitionError

pub record ServerTransition : Type 0 where
  pub kind : ServerTransitionKind
  pub next : ServerGoalContext
  pub err : ServerTransitionError

abbrev ignore : ServerGoalContext → ServerTransition
ignore c = record { kind = nop; next = c; err = ServerTransitionError.none }

abbrev refuse : ServerGoalContext → ServerTransitionError → ServerTransition
refuse c e = record { kind = error; next = c; err = e }

abbrev pub move : ServerGoalContext → ServerTransition
move c = record { kind = transitioned; next = c; err = ServerTransitionError.none }

abbrev has_origin : CancelOrigin → Bool
has_origin CancelOrigin.none = false
has_origin _ = true

abbrev is_runtime : CancelOrigin → Bool
is_runtime runtime = true
is_runtime _ = false

-- `a != b` on Booleans.
abbrev differ : Bool → Bool → Bool
differ true b = not b
differ false b = b

unfoldable pub is_valid_server_context : ServerGoalContext → Bool
is_valid_server_context c =
    if not (is_goal_state c.state)
    then false
    else if differ c.cancel_decision_pending (has_origin c.cancel_origin)
    then false
    else if c.cancel_decision_pending && not (is_executing c.state)
    then false
    else if is_finishing c.state
    then is_terminal c.terminal_status
    else is_unspecified c.terminal_status

complete_server_goal : ServerGoalContext → TerminalStatus → ServerTransition
complete_server_goal c status =
    if not (is_allowed_result c.state status)
    then refuse c (if is_unspecified status then invalid_terminal_status else event_not_allowed)
    else move (record c {
      state = finishing;
      cancel_decision_pending = false;
      cancel_origin = CancelOrigin.none;
      terminal_status = status;
    })

-- The case that ACCEPT_CANCEL and REJECT_CANCEL share.
decide_cancel : ServerGoalContext → Bool → ServerTransition
decide_cancel c accepted =
    if not (is_executing c.state)
    then refuse c event_not_allowed
    else if not c.cancel_decision_pending || not (has_origin c.cancel_origin)
    then refuse c cancel_decision_not_pending
    else move (record c {
      state = if accepted then canceling else executing;
      cancel_decision_pending = false;
      cancel_origin = CancelOrigin.none;
    })

request_runtime_cancel : ServerGoalContext → ServerTransition
request_runtime_cancel c =
    if is_canceling c.state
    then ignore c
    else if is_finishing c.state
    then ignore c
    else if c.cancel_decision_pending
    then (if is_runtime c.cancel_origin
        then ignore c
        else move (record c { cancel_origin = runtime }))
    else move (record c { cancel_decision_pending = true; cancel_origin = runtime })

-- The `switch` over the event.
dispatch : ServerGoalEvent → ServerGoalContext → ServerTransition
unfolding complete_server_goal decide_cancel request_runtime_cancel
dispatch publish_feedback c =
    if is_executing c.state || is_canceling c.state then ignore c else refuse c event_not_allowed
dispatch complete_succeeded c = complete_server_goal c succeeded
dispatch complete_canceled c = complete_server_goal c canceled
dispatch complete_aborted c = complete_server_goal c aborted
dispatch complete_unspecified c = refuse c invalid_terminal_status
dispatch accept_cancel c = decide_cancel c true
dispatch reject_cancel c = decide_cancel c false
dispatch cancel_request_received c =
    if not (is_executing c.state) || c.cancel_decision_pending
    then ignore c
    else move (record c { cancel_decision_pending = true; cancel_origin = client })
dispatch duplicate_cancel_request_received c = ignore c
dispatch duplicate_goal_request_received c = ignore c
dispatch feedback_send_completed c = ignore c
dispatch feedback_send_failed c = ignore c
dispatch result_send_completed c =
    if is_finishing c.state then ignore c else refuse c event_not_allowed
dispatch result_send_failed c =
    if is_finishing c.state then ignore c else refuse c event_not_allowed
dispatch transport_disconnected c = ignore c
dispatch application_response_timeout c = ignore c
dispatch server_shutdown_requested c = ignore c
dispatch runtime_cancel_requested c = request_runtime_cancel c
dispatch (other n) c = refuse c unknown_event

unfoldable pub transition_server_goal : ServerGoalContext → ServerGoalEvent → ServerTransition
unfolding is_valid_server_context dispatch
transition_server_goal c e =
    if not (is_valid_server_context c) then refuse c invalid_context else dispatch e c
