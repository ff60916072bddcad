-- ===== src/Action/ServicesClient/Services.antt =====
-- The methods of `ActionServicesClient` over all its Actions: the guards and the search by name that
-- every call begins with, and `poll` (src/action_services_client.cpp).
use hakoniwa_pdu_rpc.Base.{
  ℕ, Bool, false, not, ◌||◌, Option, none, List, [], ◌∷◌, String, is_empty, if◌then◌else◌, ◌==◌,
  string_equality, map,
}
use hakoniwa_pdu_rpc.Action.Types.{
  GoalId, PduData, is_valid_goal_id, ClientEventType, ClientEvent, GoalSendResult, invalid_argument,
  action_not_found,
}
use hakoniwa_pdu_rpc.Action.Packet.{PacketEnv}
use hakoniwa_pdu_rpc.Action.ClientEndpoint.{PendingPacketKind, no_event}
use hakoniwa_pdu_rpc.Action.ClientEndpoint.Operations
use hakoniwa_pdu_rpc.Action.ClientEndpoint.Operations.{receive, is_success}
use hakoniwa_pdu_rpc.Action.ServicesClient.{
  ActionInstance, with_endpoint, poll_action, submit_goal, request_goal_cancel,
}

-- `get_action_locked`, and a call on what it finds; `missing` where there is no such Action.
unfoldable pub on_action :
    {R : Type 0}
    → String
    → (ActionInstance → ActionInstance × R)
    → R
    → List ActionInstance
    → List ActionInstance × R
on_action name f missing [] = ([], missing)
on_action name f missing (a ∷ rest) =
    let later = on_action name f missing rest in
    if a.action_name == name then ((f a).0 ∷ rest, (f a).1) else (a ∷ later.0, later.1)

-- The code and the handle that it leaves.
unfoldable pub send_goal_with_result :
    PacketEnv
    → ℕ
    → List ActionInstance
    → String
    → PduData
    → GoalId
    → ℕ
    → List ActionInstance × (GoalSendResult × GoalId)
unfolding on_action
send_goal_with_result v now actions name pdu goal timeout_usec =
    if name == "" || is_empty pdu || not (is_valid_goal_id goal)
    then (actions, (invalid_argument, []))
    else on_action name
        (λ a. let r = submit_goal v now a goal pdu timeout_usec in (r.0, (r.1, r.2)))
        (action_not_found, []) actions

unfoldable pub send_goal :
    PacketEnv
    → ℕ
    → List ActionInstance
    → String
    → PduData
    → GoalId
    → ℕ
    → List ActionInstance × (Bool × GoalId)
unfolding send_goal_with_result
send_goal v now actions name pdu goal timeout_usec =
    let r = send_goal_with_result v now actions name pdu goal timeout_usec in
    (r.0, (is_success r.1.0, r.1.1))

unfoldable pub send_cancel :
    PacketEnv → List ActionInstance → String → GoalId → List ActionInstance × Bool
unfolding on_action
send_cancel v actions name goal =
    if name == "" || not (is_valid_goal_id goal)
    then (actions, false)
    else on_action name (λ a. request_goal_cancel v a goal) false actions

-- No Action changes, so only the buffer is returned.
unfoldable pub create_goal_buffer : PacketEnv → List ActionInstance → String → Option PduData
unfolding on_action
create_goal_buffer v actions name =
    if name == ""
    then none
    else (on_action name (λ a. (a, Operations.create_goal_buffer v a.endpoint)) none actions).1

-- The first Action that has an event for the application.
unfoldable pub poll :
    PacketEnv → ℕ → List ActionInstance → List ActionInstance × String × ClientEvent
poll v now [] = ([], "", no_event)
poll v now (a ∷ rest) =
    let later = poll v now rest in
    let r = poll_action v now a in
    elim r.1.type [
      | ClientEventType.none ↦ (r.0 ∷ later.0, later.1, later.2)
      | _ ↦ (r.0 ∷ rest, a.action_name, r.1)
    ]

unfoldable pub stop_all_services : List ActionInstance → List ActionInstance
stop_all_services actions =
    map (λ a. with_endpoint a (Operations.clear_pending_events a.endpoint)) actions

abbrev pub clear_action : ActionInstance → ActionInstance
clear_action a = record a { goals = []; endpoint = Operations.reset_contexts a.endpoint }

unfoldable pub clear_all_instances : List ActionInstance → List ActionInstance
clear_all_instances actions = map clear_action actions

-- The transport hands a packet to the endpoint of the Action with the name.
unfoldable pub receive_at :
    List ActionInstance → String → ℕ → PendingPacketKind → PduData → List ActionInstance
receive_at [] name slot kind packet = []
receive_at (a ∷ rest) name slot kind packet =
    let later = receive_at rest name slot kind packet in
    if a.action_name == name
    then with_endpoint a (receive a.endpoint slot kind packet) ∷ rest
    else a ∷ later
