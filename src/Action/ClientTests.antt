-- ===== src/Action/ClientTests.antt =====
-- A concrete Action client, at which the theorems about src/action_client_endpoint_impl.cpp and
-- src/action_services_client.cpp apply.
use hakoniwa_pdu_rpc.Base.{
  ℕ, zero, suc, ◌≡◌, ◌≢◌, ◌≤◌, refl, true, Option, none, some, List, [], ◌∷◌, arith, length, map,
  bytes_equality,
}
use hakoniwa_pdu_rpc.Base.Map.{lookup, insert}
use hakoniwa_pdu_rpc.Action.Types.{GoalId, PduData, ClientEventType, is_valid_goal_id, canceling}
use hakoniwa_pdu_rpc.Action.Packet.{PacketEnv, ActionResponseHeader}
use hakoniwa_pdu_rpc.Action.Samples.{sample_env, sample_slot, sample_goal}
use hakoniwa_pdu_rpc.Action.ServerEndpoint.{owner_at}
use hakoniwa_pdu_rpc.Action.ClientMachine.{
  transition_client_goal, is_valid_client_context, dispatch,
}
use hakoniwa_pdu_rpc.Action.ClientEndpoint.{
  Endpoint, response, new_binding, ClientPacketBinding, goal_response_timed_out, store_binding,
  request_message, send, create_control_request_packet,
}
use hakoniwa_pdu_rpc.Action.ClientEndpoint.Operations
use hakoniwa_pdu_rpc.Action.ClientEndpoint.Operations.{
  transmit_goal, finish_goal, transmit_cancel, finish_cancel, send_goal_with_result, send_cancel,
  reserve_slot, free_slot, receive,
}
use hakoniwa_pdu_rpc.Action.ClientEndpoint.Polling.{
  poll, poll_queue, poll_packet, poll_response, decode_response, dispatch_response,
  on_goal_response, on_cancel_response, poll_timeouts, first_overdue, is_overdue, precedes,
}
use hakoniwa_pdu_rpc.Action.ClientPacket.{
  write_request_header, create_packet_buffer, validate_packet_capacity, valid_packet_prefix,
  supported_packet_capacity, aligned_size, decode_response_header,
}
use hakoniwa_pdu_rpc.Action.ClientEndpoint.Turns.{PollTurns, poll-PollTurns}
use hakoniwa_pdu_rpc.Action.ClientEndpoint.Consistency.{IsConsistent, after_reservation}
use hakoniwa_pdu_rpc.Action.ClientEndpoint.Submission.{
  Submits, Cancels, send_goal-Submits, send_cancel-Cancels,
}
use hakoniwa_pdu_rpc.Action.ClientEndpoint.Histories.{
  Section, reserves, polls, receives, run, step, interleaved-IsConsistent, goals-le-slots,
}
use hakoniwa_pdu_rpc.Action.ClientEndpoint.Quarantine.{timed_out_keeps_slot}
use hakoniwa_pdu_rpc.Action.ClientEndpoint.Timeouts.{drained, overdue-reported}
use hakoniwa_pdu_rpc.Action.ServicesClient.{
  ActionInstance, poll_action, submit_goal, has_goal, route_event, handle_goal_response,
  handle_cancel_response, apply_event, request_goal_cancel, commit_cancel,
}
use hakoniwa_pdu_rpc.Action.ServicesClient.Services
use hakoniwa_pdu_rpc.Action.ServicesClient.Coupling.{IsCoupled}
use hakoniwa_pdu_rpc.Action.ServicesClient.Events.{poll_action-Hands}
use hakoniwa_pdu_rpc.Action.ServicesClient.Runs.{
  AllCoupled, Event, packet_received, polled, goal_sent, cancel_sent, client-AllCoupled,
  client_poll-ne-error,
}
use hakoniwa_pdu_rpc.Action.ServicesClient.Runs

-- A response is its kind, its status and the bytes of a Goal identity.
abbrev response_header : PduData → Option ActionResponseHeader
response_header (kind ∷ status ∷ id) =
    some (record { version = 1; response_kind = kind; status = status; reserved = 0; goal_id = id })
response_header _ = none

abbrev client_env : PacketEnv
client_env = record sample_env { pdu2cpp_response = response_header }

abbrev client_endpoint : Endpoint
client_endpoint = record {
  action_name = "fibonacci";
  pending_packets = [];
  slot_routing = sample_slot 0 ∷ sample_slot 1 ∷ [];
  slot_owners = none ∷ none ∷ [];
  packet_bindings = [];
  initialized = true;
  sends = [];
}

no_owner : (i : ℕ) (g : GoalId) → owner_at (none ∷ none ∷ []) i ≢ some g
unfolding owner_at
no_owner zero g e = cc
no_owner (suc zero) g e = cc
no_owner (suc (suc i)) g e = cc

client-IsConsistent : IsConsistent client_endpoint
unfolding lookup
client-IsConsistent = record {
  sized = refl;
  unique = tt;
  bound = λ g b e. absurd (ground (arith, e));
  owned = λ g i e. absurd (no_owner i g e);
}

-- A Goal is given a slot, and its response is overdue at time 7.
abbrev overdue_sections : List (PacketEnv × Section)
overdue_sections = (client_env, reserves sample_goal 0 5) ∷ (client_env, polls 7) ∷ []

timed_out_endpoint : Endpoint
timed_out_endpoint = run client_endpoint overdue_sections

interleaved-IsConsistent_example : IsConsistent (run client_endpoint overdue_sections)
interleaved-IsConsistent_example =
    interleaved-IsConsistent client_endpoint overdue_sections client-IsConsistent

goals-le-slots_example :
    length (run client_endpoint overdue_sections).packet_bindings
    ≤ length (run client_endpoint overdue_sections).slot_routing
goals-le-slots_example = goals-le-slots client_endpoint overdue_sections client-IsConsistent

abbrev lost_binding : ClientPacketBinding
lost_binding = record (new_binding sample_goal 0 0 5) { state = goal_response_timed_out }

lost : lookup sample_goal (run client_endpoint overdue_sections).packet_bindings ≡ some lost_binding
unfolding lookup insert run step reserve_slot free_slot after_reservation store_binding new_binding
    poll poll_queue poll_timeouts first_overdue is_overdue
lost = refl

-- Another Goal asks for a slot.
abbrev later_sections : List (PacketEnv × Section)
later_sections = (client_env, reserves (8 ∷ []) 9 5) ∷ (client_env, polls 20) ∷ []

timed_out_keeps_slot_example :
    (lookup sample_goal (run (run client_endpoint overdue_sections) later_sections).packet_bindings
      ≡ some lost_binding)
    × (owner_at
          (run (run client_endpoint overdue_sections) later_sections).slot_owners
          lost_binding.slot_index
        ≡ some sample_goal)
timed_out_keeps_slot_example =
    timed_out_keeps_slot (run client_endpoint overdue_sections) sample_goal lost_binding
      later_sections (interleaved-IsConsistent client_endpoint overdue_sections client-IsConsistent)
      lost refl refl

poll-PollTurns_example :
    PollTurns client_env 7
      (run client_endpoint later_sections)
      (poll client_env 7 (run client_endpoint later_sections))
poll-PollTurns_example =
    poll-PollTurns client_env 7 (run client_endpoint later_sections)
      (interleaved-IsConsistent client_endpoint later_sections client-IsConsistent).unique

abbrev second_goal : GoalId
second_goal = 8 ∷ []

-- Two Goals wait, behind a packet that answers neither.
abbrev waiting_sections : List (PacketEnv × Section)
waiting_sections =
    (client_env, reserves sample_goal 0 5)
    ∷ (client_env, reserves second_goal 0 5)
    ∷ (client_env, receives 1 response (1 ∷ 1 ∷ 9 ∷ []))
    ∷ []

second_waits :
    lookup second_goal
      (drained client_env 7
        (length (run client_endpoint waiting_sections).pending_packets)
        (run client_endpoint waiting_sections)).packet_bindings
    ≡ some (new_binding second_goal 1 0 5)
unfolding run step reserve_slot free_slot after_reservation store_binding new_binding receive lookup
    insert poll poll_queue poll_packet poll_response decode_response validate_packet_capacity
    valid_packet_prefix supported_packet_capacity aligned_size decode_response_header
    is_valid_goal_id poll_timeouts first_overdue is_overdue precedes
second_waits = refl

second_overdue : is_overdue 7 (new_binding second_goal 1 0 5) ≡ true
unfolding is_overdue new_binding
second_overdue = refl

ready : (run client_endpoint waiting_sections).initialized ≡ true
unfolding run step reserve_slot free_slot after_reservation store_binding receive lookup insert
ready = refl

overdue-reported_example :
    (poll client_env 7 (
      drained client_env 7
        (length (run client_endpoint waiting_sections).pending_packets)
        (run client_endpoint waiting_sections))).1.type
    ≡ ClientEventType.timeout
overdue-reported_example =
    overdue-reported client_env 7 (run client_endpoint waiting_sections) second_goal
      (new_binding second_goal 1 0 5)
      (interleaved-IsConsistent client_endpoint waiting_sections client-IsConsistent) ready
      second_waits second_overdue

send_goal-Submits_example :
    Submits client_env client_endpoint sample_goal
      (1 ∷ 7 ∷ [])
      0
      5
      (send_goal_with_result client_env client_endpoint sample_goal (1 ∷ 7 ∷ []) 0 5)
send_goal-Submits_example =
    send_goal-Submits client_env client_endpoint sample_goal (1 ∷ 7 ∷ []) 0 5

send_cancel-Cancels_example :
    Cancels client_env
      (run client_endpoint overdue_sections)
      sample_goal
      (send_cancel client_env (run client_endpoint overdue_sections) sample_goal)
send_cancel-Cancels_example =
    send_cancel-Cancels client_env (run client_endpoint overdue_sections) sample_goal

abbrev client_action : ActionInstance
client_action = record { action_name = "fibonacci"; endpoint = client_endpoint; goals = [] }

client_action-IsCoupled : IsCoupled client_action
unfolding lookup
client_action-IsCoupled = record {
  consistent = client-IsConsistent;
  layers = record {
    unique = tt;
    known = λ g c e. absurd (ground (arith, e));
    awaited = λ g b e. absurd (ground (arith, e));
  };
}

-- A Goal is sent, accepted, cancelled, and the Server accepts the cancellation.
abbrev client_events : List (PacketEnv × Event)
client_events =
    (client_env, goal_sent 0 "fibonacci" (1 ∷ 7 ∷ []) sample_goal 5)
    ∷ (client_env, packet_received "fibonacci" 0 response (1 ∷ 1 ∷ 7 ∷ []))
    ∷ (client_env, polled 1)
    ∷ (client_env, cancel_sent "fibonacci" sample_goal)
    ∷ (client_env, packet_received "fibonacci" 0 response (2 ∷ 1 ∷ 7 ∷ []))
    ∷ []

client-AllCoupled_example : AllCoupled (Runs.run (client_action ∷ []) client_events)
client-AllCoupled_example =
    client-AllCoupled (client_action ∷ []) client_events (client_action-IsCoupled, tt)

client_poll-ne-error_example :
    (Services.poll client_env 2 (Runs.run (client_action ∷ []) client_events)).2.type
    ≢ ClientEventType.error
client_poll-ne-error_example =
    client_poll-ne-error (client_action ∷ []) client_events client_env 2
      (client_action-IsCoupled, tt)

-- A packet waits that answers no Goal.
abbrev waiting_action : ActionInstance
waiting_action = record client_action {
  endpoint = record client_endpoint {
    pending_packets = record { slot_index = 0; kind = response; pdu = 1 ∷ 1 ∷ 7 ∷ [] } ∷ [];
  };
}

waiting_action-IsCoupled : IsCoupled waiting_action
waiting_action-IsCoupled = record {
  consistent = client_action-IsCoupled.consistent;
  layers = client_action-IsCoupled.layers;
}

poll_action-Hands_example :
    IsCoupled (poll_action client_env 3 waiting_action).0
    × ((poll_action client_env 3 waiting_action).1.type
        ≡ (poll client_env 3 waiting_action.endpoint).1.type)
poll_action-Hands_example = poll_action-Hands client_env 3 waiting_action waiting_action-IsCoupled

-- At the end of these events the Goal is canceling, in both layers.
lifecycle :
    map
      (λ a. map (λ x. x.1.state) a.goals)
      (Services.poll client_env 2 (Runs.run (client_action ∷ []) client_events)).0
    ≡ (canceling ∷ []) ∷ []
unfolding Runs.run Runs.step Services.send_goal_with_result Services.on_action submit_goal has_goal
    send_goal_with_result is_valid_goal_id reserve_slot free_slot transmit_goal finish_goal
    request_message send store_binding new_binding lookup insert Services.receive_at receive
    write_request_header validate_packet_capacity valid_packet_prefix supported_packet_capacity
    aligned_size Services.poll poll_action poll poll_queue poll_packet poll_response decode_response
    decode_response_header dispatch_response on_goal_response on_cancel_response route_event
    handle_goal_response handle_cancel_response apply_event Services.send_cancel request_goal_cancel
    commit_cancel send_cancel Operations.commit_cancel transmit_cancel finish_cancel
    create_control_request_packet create_packet_buffer transition_client_goal
    is_valid_client_context dispatch
lifecycle = refl
