-- ===== src/Action/ClientMachine.antt =====
-- include/hakoniwa/pdu/action/action_client_state_machine.hpp and
-- src/action_client_state_machine.cpp: the Goal life cycle as the Client sees it, a pure function
-- from a context and an event to a transition.
pub mod Steps
pub mod Runs
pub mod Effects
use hakoniwa_pdu_rpc.Base.{ℕ, ◌+◌, ◌%◌, ◌^◌, Bool, true, false, not, ◌&&◌, ◌||◌, eqb, if◌then◌else◌}
use hakoniwa_pdu_rpc.Action.Types.{
  GoalState, executing, canceling, finishing, TerminalStatus, is_executing, is_canceling,
  is_finishing, is_unspecified, is_goal_state, is_terminal, is_allowed_result,
}

pub data ClientGoalEventType : Type 0 where
  request_cancel : ClientGoalEventType
  feedback_received : ClientGoalEventType
  cancel_response_accepted : ClientGoalEventType
  cancel_response_rejected : ClientGoalEventType
  result_received : ClientGoalEventType
  cancel_request_send_failed : ClientGoalEventType
  cancel_response_timeout : ClientGoalEventType
  result_timeout : ClientGoalEventType
  transport_disconnected : ClientGoalEventType
  client_shutdown_requested : ClientGoalEventType
  other : ℕ → ClientGoalEventType

pub record ClientGoalEvent : Type 0 where
  pub type : ClientGoalEventType
  pub terminal_status : TerminalStatus
  pub feedback_sequence : ℕ  -- uint32_t

pub record ClientGoalContext : Type 0 where
  pub state : GoalState
  pub cancel_response_pending : Bool
  pub result_pending : Bool
  pub next_feedback_sequence : ℕ  -- uint32_t
  pub terminal_status : TerminalStatus

-- A Goal that the Server has accepted: the member initializers of the struct.
abbrev pub initial_context : ClientGoalContext
initial_context = record {
  state = executing;
  cancel_response_pending = false;
  result_pending = true;
  next_feedback_sequence = 0;
  terminal_status = TerminalStatus.unspecified;
}

pub data ClientTransitionKind : Type 0 where
  transitioned nop error : ClientTransitionKind

pub data ClientTransitionError : Type 0 where
  none : ClientTransitionError
  invalid_context : ClientTransitionError
  event_not_allowed : ClientTransitionError
  cancel_request_already_pending : ClientTransitionError
  unknown_event : ClientTransitionError

pub record ClientTransition : Type 0 where
  pub kind : ClientTransitionKind
  pub next : ClientGoalContext
  pub err : ClientTransitionError

abbrev ignore : ClientGoalContext → ClientTransition
ignore c = record { kind = nop; next = c; err = none }

abbrev refuse : ClientGoalContext → ClientTransitionError → ClientTransition
refuse c e = record { kind = error; next = c; err = e }

abbrev pub move : ClientGoalContext → ClientTransition
move c = record { kind = transitioned; next = c; err = none }

unfoldable pub is_valid_client_context : ClientGoalContext → Bool
is_valid_client_context c =
    if not (is_goal_state c.state)
    then false
    else if c.cancel_response_pending && not (is_executing c.state)
    then false
    else if is_finishing c.state
    then not c.result_pending && is_terminal c.terminal_status
    else c.result_pending && is_unspecified c.terminal_status

unfoldable pub receive_client_result : ClientGoalContext → TerminalStatus → ClientTransition
receive_client_result c status =
    if is_finishing c.state
    then ignore c
    else if not (is_allowed_result c.state status)
    then ignore c
    else move (record c {
      state = finishing;
      cancel_response_pending = false;
      result_pending = false;
      terminal_status = status;
    })

-- The `switch` over `event.type`.
unfoldable pub dispatch :
    ClientGoalEventType → ClientGoalContext → ClientGoalEvent → ClientTransition
unfolding receive_client_result
dispatch request_cancel c e =
    if not (is_executing c.state)
    then refuse c event_not_allowed
    else if c.cancel_response_pending
    then refuse c cancel_request_already_pending
    else move (record c { cancel_response_pending = true })
dispatch feedback_received c e =
    if is_finishing c.state || not (eqb e.feedback_sequence c.next_feedback_sequence)
    then ignore c
    else move (record c { next_feedback_sequence = (c.next_feedback_sequence + 1) % 2 ^ 32 })
dispatch cancel_response_accepted c e =
    if is_canceling c.state
    then ignore c
    else if not (is_executing c.state) || not c.cancel_response_pending
    then ignore c
    else move (record c { state = canceling; cancel_response_pending = false })
dispatch cancel_response_rejected c e =
    if not (is_executing c.state) || not c.cancel_response_pending
    then ignore c
    else move (record c { cancel_response_pending = false })
dispatch result_received c e = receive_client_result c e.terminal_status
dispatch cancel_request_send_failed c e =
    if is_executing c.state && c.cancel_response_pending
    then move (record c { cancel_response_pending = false })
    else refuse c event_not_allowed
dispatch cancel_response_timeout c e = ignore c
dispatch result_timeout c e = ignore c
dispatch transport_disconnected c e = ignore c
dispatch client_shutdown_requested c e = ignore c
dispatch (other n) c e = refuse c unknown_event

unfoldable pub transition_client_goal : ClientGoalContext → ClientGoalEvent → ClientTransition
unfolding is_valid_client_context dispatch
transition_client_goal c e =
    if not (is_valid_client_context c) then refuse c invalid_context else dispatch e.type c e
