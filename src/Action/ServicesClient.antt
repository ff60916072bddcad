-- ===== src/Action/ServicesClient.antt =====
-- include/hakoniwa/pdu/action/action_services_client.hpp and src/action_services_client.cpp: the
-- accepted Goals of each Action with their contexts, on top of the packet endpoint of the Action.
-- Methods return the new record; logging is left out, and so is the mutex, under which every method
-- runs whole. This file has the methods of one `ActionInstance`; `Services` has the loops over them.
pub mod Coupling
pub mod Handlers
pub mod Events
pub mod Services
pub mod Calls
pub mod Runs
use hakoniwa_pdu_rpc.Base.{
  ℕ, Bool, true, false, not, ◌&&◌, ◌||◌, Option, none, some, List, [], ◌∷◌, String, if◌then◌else◌,
  ◌==◌, bytes_equality,
}
use hakoniwa_pdu_rpc.Base.Map.{lookup, insert}
use hakoniwa_pdu_rpc.Action.Types.{
  GoalId, PduData, is_valid_goal_id, ClientEventType, ClientEvent, Decision, GoalSendResult,
  duplicate_goal, TerminalStatus,
}
use hakoniwa_pdu_rpc.Action.Packet.{PacketEnv}
use hakoniwa_pdu_rpc.Action.ClientMachine.{
  ClientGoalContext, ClientGoalEvent, ClientTransitionKind, feedback_received, request_cancel,
  cancel_response_accepted, cancel_response_rejected, result_received, initial_context,
  transition_client_goal,
}
use hakoniwa_pdu_rpc.Action.ClientEndpoint.{Endpoint, no_event}
use hakoniwa_pdu_rpc.Action.ClientEndpoint.Operations
use hakoniwa_pdu_rpc.Action.ClientEndpoint.Polling

-- A `GoalInstance` is an entry of `goals`: the handle and the context.
pub record ActionInstance : Type 0 where
  pub action_name : String
  pub endpoint : Endpoint
  pub goals : List (GoalId × ClientGoalContext)

-- `get_goal_locked` is `lookup`, and an assignment to `goal->context` is `insert`, which writes the
-- first entry of the Goal; `push_back` of a Goal that has no entry is `insert` too.
abbrev pub get_goal : ActionInstance → GoalId → Option ClientGoalContext
get_goal a goal_id = lookup goal_id a.goals

abbrev pub set_goal : ActionInstance → GoalId → ClientGoalContext → ActionInstance
set_goal a goal_id context = record a { goals = insert goal_id context a.goals }

unfoldable pub has_goal : ActionInstance → GoalId → Bool
has_goal a goal_id = elim (get_goal a goal_id) [ none ↦ false | some _ ↦ true ]

-- The first entry of the Goal is erased.
unfoldable pub remove_goal :
    GoalId → List (GoalId × ClientGoalContext) → List (GoalId × ClientGoalContext)
remove_goal goal_id [] = []
remove_goal goal_id ((g, c) ∷ rest) =
    let erased = remove_goal goal_id rest in if g == goal_id then rest else (g, c) ∷ erased

abbrev pub with_endpoint : ActionInstance → Endpoint → ActionInstance
with_endpoint a endpoint = record a { endpoint = endpoint }

abbrev pub as_error : ClientEvent → ClientEvent
as_error event = record event { type = ClientEventType.error }

abbrev pub is_accepted : Decision → Bool
is_accepted Decision.accepted = true
is_accepted _ = false

abbrev pub is_decided : Decision → Bool
is_decided Decision.unspecified = false
is_decided _ = true

-- The event that reaches the application, with type NONE where the code returns NONE.
unfoldable pub handle_goal_response : ActionInstance → ClientEvent → ActionInstance × ClientEvent
unfolding has_goal
handle_goal_response a event =
    if not (is_valid_goal_id event.goal) || not (is_decided event.decision)
    then (a, as_error event)
    else if is_accepted event.decision
    then (if has_goal a event.goal
        then (a, as_error event)
        else (set_goal a event.goal initial_context, event))
    else (a, event)

-- The common course of the other events: the Goal, the state machine, and then `commit`.
unfoldable pub apply_event :
    ActionInstance
    → ClientEvent
    → ClientGoalEvent
    → (ClientGoalContext → ActionInstance)
    → ActionInstance × ClientEvent
apply_event a event goal_event commit = elim (get_goal a event.goal) [
  | none ↦ (a, as_error event)
  | some context ↦
      let transition = transition_client_goal context goal_event in
      elim transition.kind [
        | ClientTransitionKind.error ↦ (a, as_error event)
        | ClientTransitionKind.nop ↦ (a, no_event)
        | ClientTransitionKind.transitioned ↦ (commit transition.next, event)
      ]
]

abbrev pub feedback_event : ClientEvent → ClientGoalEvent
feedback_event event = record {
  type = feedback_received;
  terminal_status = TerminalStatus.unspecified;
  feedback_sequence = event.feedback_sequence;
}

unfoldable pub handle_feedback : ActionInstance → ClientEvent → ActionInstance × ClientEvent
unfolding apply_event
handle_feedback a event =
    if not (is_valid_goal_id event.goal)
    then (a, as_error event)
    else apply_event a event (feedback_event event) (λ next. set_goal a event.goal next)

abbrev pub cancel_event : ClientEvent → ClientGoalEvent
cancel_event event = record {
  type = if is_accepted event.decision then cancel_response_accepted else cancel_response_rejected;
  terminal_status = TerminalStatus.unspecified;
  feedback_sequence = 0;
}

unfoldable pub handle_cancel_response : ActionInstance → ClientEvent → ActionInstance × ClientEvent
unfolding apply_event
handle_cancel_response a event =
    if not (is_valid_goal_id event.goal) || not (is_decided event.decision)
    then (a, as_error event)
    else apply_event a event (cancel_event event) (λ next. set_goal a event.goal next)

abbrev pub result_event : ClientEvent → ClientGoalEvent
result_event event = record {
  type = result_received;
  terminal_status = event.terminal_status;
  feedback_sequence = 0;
}

-- The endpoint has released the binding; the Goal ends here.
unfoldable pub handle_result : ActionInstance → ClientEvent → ActionInstance × ClientEvent
unfolding apply_event remove_goal
handle_result a event =
    if not (is_valid_goal_id event.goal)
    then (a, as_error event)
    else apply_event a event (result_event event)
        (λ _. record a { goals = remove_goal event.goal a.goals })

-- The `switch` of `poll` over the type of the endpoint's event.
unfoldable pub route_event :
    ActionInstance → ClientEvent → ClientEventType → ActionInstance × ClientEvent
unfolding handle_goal_response handle_feedback handle_cancel_response handle_result
route_event a event ClientEventType.none = (a, no_event)
route_event a event ClientEventType.goal_response = handle_goal_response a event
route_event a event ClientEventType.feedback = handle_feedback a event
route_event a event ClientEventType.cancel_response = handle_cancel_response a event
route_event a event ClientEventType.result = handle_result a event
route_event a event ClientEventType.timeout = (a, event)
route_event a event ClientEventType.error = (a, event)

-- The body of the loop of `poll` over the Actions, for one of them.
unfoldable pub poll_action : PacketEnv → ℕ → ActionInstance → ActionInstance × ClientEvent
unfolding route_event
poll_action v now a =
    let r = Polling.poll v now a.endpoint in
    route_event (with_endpoint a r.0) (record r.1 { action_name = a.action_name }) r.1.type

-- `send_goal_with_result` once the Action is found; the handle is the last component.
unfoldable pub submit_goal :
    PacketEnv → ℕ → ActionInstance → GoalId → PduData → ℕ → ActionInstance × GoalSendResult × GoalId
unfolding has_goal
submit_goal v now a goal pdu timeout_usec =
    if has_goal a goal
    then (a, duplicate_goal, [])
    else (let r = Operations.send_goal_with_result v a.endpoint goal pdu now timeout_usec in
        (with_endpoint a r.0, r.1, r.2))

abbrev pub cancel_request : ClientGoalEvent
cancel_request = record {
  type = request_cancel;
  terminal_status = TerminalStatus.unspecified;
  feedback_sequence = 0;
}

-- The last steps of `send_cancel`: the new context is kept only if the request went out.
unfoldable pub commit_cancel :
    PacketEnv → ActionInstance → GoalId → ClientGoalContext → ActionInstance × Bool
commit_cancel v a goal next =
    let r = Operations.send_cancel v a.endpoint goal in
    if r.1 then (set_goal (with_endpoint a r.0) goal next, true) else (with_endpoint a r.0, false)

-- `send_cancel` once the Action is found.
unfoldable pub request_goal_cancel : PacketEnv → ActionInstance → GoalId → ActionInstance × Bool
unfolding commit_cancel
request_goal_cancel v a goal = elim (get_goal a goal) [
  | none ↦ (a, false)
  | some context ↦
      let transition = transition_client_goal context cancel_request in
      elim transition.kind [
        | ClientTransitionKind.error ↦ (a, false)
        | ClientTransitionKind.nop ↦ (a, false)
        | ClientTransitionKind.transitioned ↦ commit_cancel v a goal transition.next
      ]
]
