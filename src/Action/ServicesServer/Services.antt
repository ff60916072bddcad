-- ===== src/Action/ServicesServer/Services.antt =====
-- The methods of `ActionServicesServer` over all its Actions: the guards and the search by name that
-- every call begins with, and `poll` (src/action_services_server.cpp).
use hakoniwa_pdu_rpc.Base.{
  Bool, true, false, not, ◌&&◌, ◌||◌, List, [], ◌∷◌, ◌++◌, String, if◌then◌else◌, ◌==◌,
  string_equality, bytes_equality, map,
}
use hakoniwa_pdu_rpc.Action.Types.{
  GoalId, PduData, TerminalStatus, is_valid_goal_id, ServerEventType, none, goal_request,
  cancel_request, runtime_cancel_request, error, ServerEvent, transport_disconnected,
}
use hakoniwa_pdu_rpc.Action.Packet.{PacketEnv}
use hakoniwa_pdu_rpc.Action.ServerMachine.{ServerGoalContext}
use hakoniwa_pdu_rpc.Action.ServerEndpoint.Operations
use hakoniwa_pdu_rpc.Action.ServerEndpoint.Operations.{no_event}
use hakoniwa_pdu_rpc.Action.ServerEndpoint.Results
use hakoniwa_pdu_rpc.Action.ServicesServer.{ActionInstance, handle_cancel_event, with_endpoint}
use hakoniwa_pdu_rpc.Action.ServicesServer

pub record ActionServices : Type 0 where
  pub actions : List ActionInstance
  pub pending_runtime_events : List ServerEvent

-- `get_action_locked`, and a call on what it finds; false where there is no such Action.
unfoldable pub on_action :
    String
    → (ActionInstance → ActionInstance × Bool)
    → List ActionInstance
    → List ActionInstance × Bool
on_action name f [] = ([], false)
on_action name f (a ∷ rest) =
    let (rest', done) = on_action name f rest in
    if a.action_name == name then ((f a).0 ∷ rest, (f a).1) else (a ∷ rest', done)

-- `action_name.empty() || !goal.valid()` comes first in every call about a Goal.
unfoldable pub call :
    ActionServices
    → String
    → GoalId
    → (ActionInstance → ActionInstance × Bool)
    → ActionServices × Bool
unfolding on_action
call s name goal f =
    if name == "" || not (is_valid_goal_id goal)
    then (s, false)
    else (let (actions, done) = on_action name f s.actions in
        (record s { actions = actions }, done))

-- The calls of the application and of the transport owner.
pub data Request : Type 0 where
  accept_goal reject_goal accept_cancel reject_cancel discard_pending_goal : Request
  send_feedback : PduData → Request
  complete complete_locally : TerminalStatus → PduData → Request

unfoldable pub perform : PacketEnv → GoalId → Request → ActionInstance → ActionInstance × Bool
perform v goal accept_goal a = ServicesServer.accept_goal v a goal
perform v goal reject_goal a = ServicesServer.reject_goal v a goal
perform v goal accept_cancel a = ServicesServer.accept_cancel v a goal
perform v goal reject_cancel a = ServicesServer.reject_cancel v a goal
perform v goal discard_pending_goal a = ServicesServer.discard_pending_goal a goal
perform v goal (send_feedback packet) a = ServicesServer.send_feedback v a goal packet
perform v goal (complete status packet) a =
    ServicesServer.complete_goal v a goal status packet false
perform v goal (complete_locally status packet) a =
    ServicesServer.complete_goal v a goal status packet true

-- What `poll` does with an event of the endpoint, by its type.
unfoldable pub route_event :
    ActionInstance → ServerEvent → ServerEventType → ActionInstance × ServerEvent
route_event a event none = (a, no_event)
route_event a event goal_request = (a, event)
route_event a event error = (a, event)
route_event a event cancel_request = handle_cancel_event a cancel_request event
route_event a event runtime_cancel_request = handle_cancel_event a runtime_cancel_request event

-- The body of the loop of `poll` over the Actions, for one of them.
unfoldable pub poll_action : PacketEnv → ActionInstance → ActionInstance × ServerEvent
unfolding route_event
poll_action v a =
    let (endpoint, event) = Operations.poll v a.endpoint in
    route_event (with_endpoint a endpoint) (record event { action_name = a.action_name }) event.type

-- The first Action that has an event.
unfoldable pub poll_actions :
    PacketEnv → List ActionInstance → List ActionInstance × String × ServerEvent
unfolding poll_action
poll_actions v [] = ([], "", no_event)
poll_actions v (a ∷ rest) =
    let (rest', name, later) = poll_actions v rest in
    let (a', event) = poll_action v a in
    elim event.type [ none ↦ (a' ∷ rest', name, later) | _ ↦ (a' ∷ rest, a.action_name, event) ]

-- One Runtime event; an Action that is not there gives no event.
unfoldable pub handle_runtime :
    List ActionInstance → ServerEvent → List ActionInstance × ServerEvent
handle_runtime [] event = ([], no_event)
handle_runtime (a ∷ rest) event =
    let (rest', later) = handle_runtime rest event in
    if a.action_name == event.action_name
    then (let (a', out) = handle_cancel_event a runtime_cancel_request event in (a' ∷ rest, out))
    else (a ∷ rest', later)

-- The loop over the Runtime events that wait: those without effect are passed over.
unfoldable pub poll_runtime :
    List ActionInstance → List ServerEvent → List ActionInstance × List ServerEvent × ServerEvent
unfolding handle_runtime
poll_runtime actions [] = (actions, [], no_event)
poll_runtime actions (event ∷ rest) =
    let (actions', out) = handle_runtime actions event in
    elim out.type [ none ↦ poll_runtime actions' rest | _ ↦ (actions', rest, out) ]

unfoldable pub poll : PacketEnv → ActionServices → ActionServices × String × ServerEvent
unfolding poll_runtime poll_actions
poll v s =
    let (actions, rest, out) = poll_runtime s.actions s.pending_runtime_events in
    elim out.type [
      | none ↦
          let (actions', name, event) = poll_actions v actions in
          (record { actions = actions'; pending_runtime_events = rest }, name, event)
      | _ ↦ (record { actions = actions; pending_runtime_events = rest }, out.action_name, out)
    ]

-- `notify_transport_disconnected`: a Runtime Cancel Request for every Goal that has none waiting.
abbrev runtime_cancel_of : String → GoalId → ServerEvent
runtime_cancel_of name goal = record {
  type = runtime_cancel_request;
  goal = goal;
  runtime_cancel_cause = transport_disconnected;
  action_name = name;
  pdu = [];
}

abbrev is_runtime_cancel : ServerEventType → Bool
is_runtime_cancel runtime_cancel_request = true
is_runtime_cancel _ = false

unfoldable pub waits_for : String → GoalId → List ServerEvent → Bool
waits_for name goal [] = false
waits_for name goal (event ∷ rest) =
    (is_runtime_cancel event.type && event.action_name == name && event.goal == goal)
    || waits_for name goal rest

unfoldable pub notify_goals :
    String → List (GoalId × ServerGoalContext) → List ServerEvent → List ServerEvent
unfolding waits_for
notify_goals name [] events = events
notify_goals name ((goal, _) ∷ rest) events =
    notify_goals name rest
      (if waits_for name goal events then events else events ++ runtime_cancel_of name goal ∷ [])

unfoldable pub notify_actions : List ActionInstance → List ServerEvent → List ServerEvent
unfolding notify_goals
notify_actions [] events = events
notify_actions (a ∷ rest) events = notify_actions rest (notify_goals a.action_name a.goals events)

unfoldable pub notify_transport_disconnected : ActionServices → ActionServices
unfolding notify_actions
notify_transport_disconnected s = record s {
  pending_runtime_events = notify_actions s.actions s.pending_runtime_events;
}

unfoldable pub stop_all_services : ActionServices → ActionServices
stop_all_services s = record {
  actions = map (λ a. with_endpoint a (Results.clear_pending_events a.endpoint)) s.actions;
  pending_runtime_events = [];
}

abbrev pub clear_action : ActionInstance → ActionInstance
clear_action a = record a { endpoint = Results.reset_contexts a.endpoint; goals = [] }

unfoldable pub clear_all_instances : ActionServices → ActionServices
clear_all_instances s = record { actions = map clear_action s.actions; pending_runtime_events = [] }
