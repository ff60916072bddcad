-- ===== src/Action/ServicesServer.antt =====
-- include/hakoniwa/pdu/action/action_services_server.hpp and src/action_services_server.cpp: the
-- Goals of each Action with their contexts, on top of the packet endpoint of the Action. Methods
-- return the new record; logging is left out, and so is the mutex, under which every method runs
-- whole. This file has the methods of one `ActionInstance`; `Services` has the loops over them.
pub mod Services
pub mod Buffers
pub mod Uniqueness
pub mod Coupling
pub mod Agreement
pub mod Events
pub mod Layers
pub mod Server
pub mod Completion
use hakoniwa_pdu_rpc.Base.{
  Bool, true, false, not, ◌&&◌, ◌||◌, Option, none, some, List, [], ◌∷◌, ◌++◌, String,
  if◌then◌else◌, ◌==◌, bytes_equality, is_empty,
}
use hakoniwa_pdu_rpc.Base.Map.{lookup, insert}
use hakoniwa_pdu_rpc.Action.Types.{
  GoalId, PduData, is_valid_goal_id, ServerEventType, cancel_request, runtime_cancel_request,
  ServerEvent, TerminalStatus, unspecified, succeeded, canceled, aborted,
}
use hakoniwa_pdu_rpc.Action.Packet.{PacketEnv}
use hakoniwa_pdu_rpc.Action.ServerMachine.{
  CancelOrigin, client, ServerGoalEvent, ServerGoalContext, ServerTransition, ServerTransitionKind,
  initial_context, transition_server_goal,
}
use hakoniwa_pdu_rpc.Action.ServerMachine
use hakoniwa_pdu_rpc.Action.ServerEndpoint.{
  Endpoint, CompleteResult, not_committed, sent, send_failed_after_commit,
}
use hakoniwa_pdu_rpc.Action.ServerEndpoint.Operations
use hakoniwa_pdu_rpc.Action.ServerEndpoint.Operations.{no_event}
use hakoniwa_pdu_rpc.Action.ServerEndpoint.Results

-- A `GoalInstance` is an entry of `goals`: the handle and the context.
pub record ActionInstance : Type 0 where
  pub action_name : String
  pub endpoint : Endpoint
  pub goals : List (GoalId × ServerGoalContext)

-- `get_goal_locked` is `lookup`, and an assignment to `goal->context` is `insert`, which writes the
-- first entry of the Goal; `push_back` of a Goal that has no entry is `insert` too.
abbrev pub get_goal : ActionInstance → GoalId → Option ServerGoalContext
get_goal a goal_id = lookup goal_id a.goals

abbrev pub set_goal : ActionInstance → GoalId → ServerGoalContext → ActionInstance
set_goal a goal_id context = record a { goals = insert goal_id context a.goals }

pub has_goal : ActionInstance → GoalId → Bool
has_goal a goal_id = elim (get_goal a goal_id) [ none ↦ false | some _ ↦ true ]

-- The first entry of the Goal is erased.
pub remove_goal : GoalId → List (GoalId × ServerGoalContext) → List (GoalId × ServerGoalContext)
remove_goal goal_id [] = []
remove_goal goal_id ((g, c) ∷ rest) =
    if g == goal_id then rest else (g, c) ∷ remove_goal goal_id rest

abbrev pub drop_goal : ActionInstance → GoalId → ActionInstance
drop_goal a goal_id = record a { goals = remove_goal goal_id a.goals }

abbrev with_endpoint : ActionInstance → Endpoint → ActionInstance
with_endpoint a endpoint = record a { endpoint = endpoint }

abbrev is_client : CancelOrigin → Bool
is_client client = true
is_client _ = false

-- The state event of a cancel event of the endpoint or of the Runtime.
abbrev cancel_event : ServerEventType → ServerGoalEvent
cancel_event cancel_request = ServerGoalEvent.cancel_request_received
cancel_event _ = ServerGoalEvent.runtime_cancel_requested

-- The event that reaches the application, with type NONE where the code returns NONE.
unfoldable pub handle_cancel_event :
    ActionInstance → ServerEventType → ServerEvent → ActionInstance × ServerEvent
handle_cancel_event a event_type event = elim (get_goal a event.goal) [
  | none ↦ (a, record event { type = ServerEventType.error })
  | some context ↦
      let transition = transition_server_goal context (cancel_event event_type) in
      elim transition.kind [
        | ServerTransitionKind.error ↦ (a, record event { type = ServerEventType.error })
        | ServerTransitionKind.nop ↦ (a, no_event)
        | ServerTransitionKind.transitioned ↦
            (set_goal a event.goal transition.next, record event { type = event_type })
      ]
]

-- The Goal is entered before the response is sent, and taken back if that fails. The entry is the
-- last one, so `pop_back` restores the list.
pub accept_goal : PacketEnv → ActionInstance → GoalId → ActionInstance × Bool
unfolding has_goal
accept_goal v a goal =
    if has_goal a goal
    then (a, false)
    else (let (endpoint, done) = Operations.accept_goal v a.endpoint goal in
        if done
        then (set_goal (with_endpoint a endpoint) goal initial_context, true)
        else (with_endpoint a endpoint, false))

pub reject_goal : PacketEnv → ActionInstance → GoalId → ActionInstance × Bool
unfolding has_goal
reject_goal v a goal =
    if has_goal a goal
    then (a, false)
    else (let (endpoint, done) = Operations.reject_goal v a.endpoint goal in
        (with_endpoint a endpoint, done))

-- What the endpoint is asked to do for an accepted Cancel.
pub commit_acceptance : PacketEnv → Endpoint → CancelOrigin → GoalId → Endpoint × Bool
commit_acceptance v endpoint origin goal =
    if is_client origin
    then Operations.accept_cancel v endpoint goal
    else Operations.accept_cancel_locally endpoint goal

pub commit_rejection : PacketEnv → Endpoint → CancelOrigin → GoalId → Endpoint × Bool
commit_rejection v endpoint origin goal =
    if is_client origin then Operations.reject_cancel v endpoint goal else (endpoint, true)

-- The common course of both decisions: the state machine, then the endpoint, then the context.
pub decide_cancel :
    ActionInstance
    → GoalId
    → ServerGoalEvent
    → (CancelOrigin → Endpoint × Bool)
    → ActionInstance × Bool
decide_cancel a goal event commit = elim (get_goal a goal) [
  | none ↦ (a, false)
  | some context ↦
      let transition = transition_server_goal context event in
      elim transition.kind [
        | ServerTransitionKind.transitioned ↦
            let (endpoint, done) = commit context.cancel_origin in
            if done
            then (set_goal (with_endpoint a endpoint) goal transition.next, true)
            else (with_endpoint a endpoint, false)
        | _ ↦ (a, false)
      ]
]

pub accept_cancel : PacketEnv → ActionInstance → GoalId → ActionInstance × Bool
unfolding decide_cancel commit_acceptance
accept_cancel v a goal =
    decide_cancel a goal ServerGoalEvent.accept_cancel
      (λ origin. commit_acceptance v a.endpoint origin goal)

pub reject_cancel : PacketEnv → ActionInstance → GoalId → ActionInstance × Bool
unfolding decide_cancel commit_rejection
reject_cancel v a goal =
    decide_cancel a goal ServerGoalEvent.reject_cancel
      (λ origin. commit_rejection v a.endpoint origin goal)

pub send_feedback : PacketEnv → ActionInstance → GoalId → PduData → ActionInstance × Bool
send_feedback v a goal packet = if is_empty packet then (a, false) else (elim (get_goal a goal) [
  | none ↦ (a, false)
  | some context ↦ elim (transition_server_goal context ServerGoalEvent.publish_feedback).kind [
    | ServerTransitionKind.nop ↦
        let (endpoint, done) = Results.send_feedback v a.endpoint goal packet in
        (with_endpoint a endpoint, done)
    | _ ↦ (a, false)
  ]
])

abbrev complete_event : TerminalStatus → ServerGoalEvent
complete_event succeeded = ServerGoalEvent.complete_succeeded
complete_event canceled = ServerGoalEvent.complete_canceled
complete_event aborted = ServerGoalEvent.complete_aborted
complete_event _ = ServerGoalEvent.complete_unspecified

-- The `switch` over what the endpoint says of a Result.
pub settle :
    ActionInstance → GoalId → ServerGoalContext → Endpoint × CompleteResult → ActionInstance × Bool
settle a goal next (endpoint, not_committed) = (with_endpoint a endpoint, false)
settle a goal next (endpoint, sent) = (drop_goal (with_endpoint a endpoint) goal, true)
settle a goal next (endpoint, send_failed_after_commit) =
    (set_goal (with_endpoint a endpoint) goal next, false)

pub settle_locally : ActionInstance → GoalId → Endpoint × Bool → ActionInstance × Bool
settle_locally a goal (endpoint, true) = (drop_goal (with_endpoint a endpoint) goal, true)
settle_locally a goal (endpoint, false) = (with_endpoint a endpoint, false)

pub complete_goal :
    PacketEnv → ActionInstance → GoalId → TerminalStatus → PduData → Bool → ActionInstance × Bool
unfolding settle settle_locally
complete_goal v a goal status packet local_only =
    if is_empty packet then (a, false) else (elim (get_goal a goal) [
      | none ↦ (a, false)
      | some context ↦
          let transition = transition_server_goal context (complete_event status) in
          elim transition.kind [
            | ServerTransitionKind.transitioned ↦
                if local_only
                then settle_locally a goal
                    (Results.complete_locally v a.endpoint goal status packet)
                else settle a goal transition.next
                    (Results.complete v a.endpoint goal status packet)
            | _ ↦ (a, false)
          ]
    ])

pub discard_pending_goal : ActionInstance → GoalId → ActionInstance × Bool
unfolding has_goal
discard_pending_goal a goal =
    if has_goal a goal
    then (a, false)
    else (let (endpoint, done) = Results.discard_pending_goal a.endpoint goal in
        (with_endpoint a endpoint, done))
