-- ===== src/Action/ServerEndpoint/Operations.antt =====
-- The virtual methods of `ActionServerEndpointImpl` (src/action_server_endpoint_impl.cpp): `poll`
-- and the calls by which the upper layer decides about a Goal.
use hakoniwa_pdu_rpc.Base.{
  ◌>>=◌, ◌>>◌, guard, ℕ, Bool, true, false, not, ◌||◌, Option, none, some, List, [], ◌∷◌, ◌++◌, eqb,
  get_elem?, set, if◌then◌else◌, bytes_equality,
}
use hakoniwa_pdu_rpc.Base.Map.{lookup}
use hakoniwa_pdu_rpc.Action.Types.{
  GoalId, PduData, is_valid_goal_id, ServerEventType, goal_request, cancel_request, ServerEvent,
  RuntimeCancelCause, Decision, accepted, rejected,
}
use hakoniwa_pdu_rpc.Action.Packet.{
  ActionRequestHeader, PacketEnv, decode_request_header, validate_packet_capacity,
}
use hakoniwa_pdu_rpc.Action.ServerEndpoint.{
  Endpoint, PendingPacket, ActionPacketBinding, goal_accepted, cancel_accepted, request_kind_cancel,
  response_kind_goal, response_kind_cancel, is_awaiting, is_accepted, is_cancel_accepted,
  is_committed, new_binding, owner_at, validate_request_header, send_control, send_goal_error_reply,
  release_binding, store_binding,
}

-- `ServerEvent{}`.
abbrev pub no_event : ServerEvent
no_event = record {
  type = ServerEventType.none;
  goal = [];
  runtime_cancel_cause = RuntimeCancelCause.unspecified;
  action_name = "";
  pdu = [];
}

abbrev pub event_of : Endpoint → ServerEventType → GoalId → PduData → ServerEvent
event_of s type goal_id pdu = record {
  type = type;
  goal = goal_id;
  runtime_cancel_cause = RuntimeCancelCause.unspecified;
  action_name = s.action_name;
  pdu = pdu;
}

-- What the calls write into the binding of a Goal.
abbrev pub mark_pending : ActionPacketBinding → ActionPacketBinding
mark_pending binding = record binding { cancel_decision_pending = true }

abbrev pub mark_accepted : ActionPacketBinding → ActionPacketBinding
mark_accepted binding = record binding { state = goal_accepted }

abbrev pub mark_canceling : ActionPacketBinding → ActionPacketBinding
mark_canceling binding = record binding { state = cancel_accepted; cancel_decision_pending = false }

abbrev pub mark_decided : ActionPacketBinding → ActionPacketBinding
mark_decided binding = record binding { cancel_decision_pending = false }

-- A Cancel Request for a Goal with this binding, `none` where it is logged and ignored.
unfoldable pub admits_cancel : ActionPacketBinding → ℕ → Bool
admits_cancel binding slot_index =
    if not (eqb binding.slot_index slot_index)
    then false
    else if is_awaiting binding.state
    then false
    else if is_cancel_accepted binding.state
    then false
    else if is_committed binding.state
    then false
    else not binding.cancel_decision_pending

unfoldable pub poll_cancel : Endpoint → GoalId → PendingPacket → Endpoint × ServerEvent
unfolding admits_cancel
poll_cancel s goal_id packet = elim (lookup goal_id s.packet_bindings) [
  | none ↦ (s, no_event)
  | some binding ↦
      if admits_cancel binding packet.slot_index
      then (
        store_binding s goal_id (mark_pending binding),
        event_of s cancel_request goal_id packet.pdu,
      )
      else (s, no_event)
]

unfoldable pub poll_goal : PacketEnv → Endpoint → GoalId → PendingPacket → Endpoint × ServerEvent
poll_goal v s goal_id packet = elim (lookup goal_id s.packet_bindings) [
  | some _ ↦ (send_goal_error_reply v s goal_id packet.slot_index, no_event)
  | none ↦ elim (owner_at s.slot_owners packet.slot_index) [
    | some _ ↦ (send_goal_error_reply v s goal_id packet.slot_index, no_event)
    | none ↦ (
      store_binding (record s { slot_owners = set s.slot_owners packet.slot_index (some goal_id) })
          goal_id (new_binding goal_id packet.slot_index),
      event_of s goal_request goal_id packet.pdu,
    )
  ]
]

-- The header of a request that passes every check of its slot, `none` where it is ignored.
unfoldable pub decode_request : PacketEnv → Endpoint → PendingPacket → Option ActionRequestHeader
decode_request v s packet = do
  routing ← get_elem? s.slot_routing packet.slot_index
  received_size ←
      validate_packet_capacity v packet.pdu routing.request_packet_base_size
        routing.request_heap_capacity true
  header ← decode_request_header v packet.pdu
  guard (validate_request_header header)
  some header

unfoldable pub poll_request :
    PacketEnv → Endpoint → PendingPacket → ActionRequestHeader → Endpoint × ServerEvent
unfolding poll_cancel poll_goal
poll_request v s packet header =
    if eqb header.request_kind request_kind_cancel
    then poll_cancel s header.goal_id packet
    else poll_goal v s header.goal_id packet

unfoldable pub poll_packet : PacketEnv → Endpoint → PendingPacket → Endpoint × ServerEvent
unfolding decode_request poll_request
poll_packet v s packet = elim (decode_request v s packet) [
  | none ↦ (s, no_event)
  | some header ↦ poll_request v s packet header
]

unfoldable pub poll_queue : PacketEnv → Endpoint → List PendingPacket → Endpoint × ServerEvent
unfolding poll_packet
poll_queue v s [] = (s, no_event)
poll_queue v s (packet ∷ rest) = poll_packet v (record s { pending_packets = rest }) packet

-- The type that `poll` returns is that of the event.
unfoldable pub poll : PacketEnv → Endpoint → Endpoint × ServerEvent
unfolding poll_queue
poll v s = if not s.initialized then (s, no_event) else (elim s.pending_events [
  | event ∷ rest ↦ (record s { pending_events = rest }, event)
  | [] ↦ poll_queue v s s.pending_packets
])

-- The receive callback of a slot's Request channel.
unfoldable pub receive : Endpoint → ℕ → PduData → Endpoint
receive s slot_index data_ = record s {
  pending_packets = s.pending_packets ++ record { slot_index = slot_index; pdu = data_ } ∷ [];
}

-- The guards that most calls begin with: a valid handle, an initialized endpoint, a known Goal.
unfoldable pub find_binding : Endpoint → GoalId → Option ActionPacketBinding
find_binding s goal =
    if not (is_valid_goal_id goal)
    then none
    else if not s.initialized
    then none
    else lookup goal s.packet_bindings

-- Sends a control response, and acts on the endpoint if the send succeeds.
unfoldable pub respond :
    PacketEnv
    → Endpoint
    → ActionPacketBinding
    → ℕ
    → Decision
    → (Endpoint → Endpoint)
    → Endpoint × Bool
respond v s binding kind decision act =
    let (s', done) = send_control v s binding kind decision in
    if done then (act s', true) else (s', false)

unfoldable pub accept_goal : PacketEnv → Endpoint → GoalId → Endpoint × Bool
unfolding find_binding respond
accept_goal v s goal = elim (find_binding s goal) [
  | none ↦ (s, false)
  | some binding ↦
      if not (is_awaiting binding.state)
      then (s, false)
      else respond v s binding response_kind_goal accepted
          (λ t. store_binding t goal (mark_accepted binding))
]

unfoldable pub reject_goal : PacketEnv → Endpoint → GoalId → Endpoint × Bool
unfolding find_binding respond
reject_goal v s goal = elim (find_binding s goal) [
  | none ↦ (s, false)
  | some binding ↦
      if not (is_awaiting binding.state)
      then (s, false)
      else respond v s binding response_kind_goal rejected (λ t. release_binding t goal binding)
]

unfoldable pub accept_cancel : PacketEnv → Endpoint → GoalId → Endpoint × Bool
unfolding find_binding respond
accept_cancel v s goal = elim (find_binding s goal) [
  | none ↦ (s, false)
  | some binding ↦
      if not (is_accepted binding.state) || not binding.cancel_decision_pending
      then (s, false)
      else respond v s binding response_kind_cancel accepted
          (λ t. store_binding t goal (mark_canceling binding))
]

unfoldable pub reject_cancel : PacketEnv → Endpoint → GoalId → Endpoint × Bool
unfolding find_binding respond
reject_cancel v s goal = elim (find_binding s goal) [
  | none ↦ (s, false)
  | some binding ↦
      if not (is_accepted binding.state) || not binding.cancel_decision_pending
      then (s, false)
      else respond v s binding response_kind_cancel rejected
          (λ t. store_binding t goal (mark_decided binding))
]

unfoldable pub accept_cancel_locally : Endpoint → GoalId → Endpoint × Bool
unfolding find_binding
accept_cancel_locally s goal = elim (find_binding s goal) [
  | none ↦ (s, false)
  | some binding ↦
      if not (is_accepted binding.state)
      then (s, false)
      else (store_binding s goal (mark_canceling binding), true)
]
