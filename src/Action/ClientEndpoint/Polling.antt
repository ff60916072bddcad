-- ===== src/Action/ClientEndpoint/Polling.antt =====
-- `ActionClientEndpointImpl::poll` (src/action_client_endpoint_impl.cpp): one waiting packet becomes
-- an event or is dropped, and then a Goal whose response is overdue times out.
use hakoniwa_pdu_rpc.Base.{
  ℕ, ◌+◌, ◌-◌, ◌%◌, ◌^◌, Bool, true, false, not, ◌&&◌, ◌||◌, Option, none, some, List, [], ◌∷◌, eqb,
  leb, ltb, get_elem?, if◌then◌else◌, bytes_equality, ◌>>=◌, ◌>>◌, guard,
}
use hakoniwa_pdu_rpc.Base.Map.{lookup}
use hakoniwa_pdu_rpc.Action.Types.{
  GoalId, PduData, is_valid_goal_id, ClientEventType, ClientEvent, Decision, TerminalStatus,
  decision_of, terminal_status_of, decision_code, status_code,
}
use hakoniwa_pdu_rpc.Action.Packet.{ActionResponseHeader, ActionFeedbackHeader, PacketEnv}
use hakoniwa_pdu_rpc.Action.ClientPacket.{
  validate_packet_capacity, decode_response_header, decode_feedback_header,
}
use hakoniwa_pdu_rpc.Action.ServerEndpoint.{
  action_protocol_version, response_kind_goal, response_kind_cancel, response_kind_result,
}
use hakoniwa_pdu_rpc.Action.ClientEndpoint.{
  Endpoint, PendingPacket, response, feedback, ClientPacketBinding, BindingState,
  goal_response_timed_out, is_awaiting, is_accepted, is_awaiting_cancel, is_canceling, no_event,
  release_binding, store_binding,
}
use hakoniwa_pdu_rpc.Action.ClientEndpoint.Operations.{mark_accepted}

abbrev pub mark_canceling : ClientPacketBinding → ClientPacketBinding
mark_canceling binding = record binding { state = BindingState.canceling }

abbrev pub mark_timed_out : ClientPacketBinding → ClientPacketBinding
mark_timed_out binding = record binding { state = goal_response_timed_out }

abbrev pub next_sequence : ClientPacketBinding → ClientPacketBinding
next_sequence binding = record binding {
  next_feedback_sequence = (binding.next_feedback_sequence + 1) % 2 ^ 32;
}

-- `status == ACCEPTED || status == REJECTED`.
abbrev pub is_decision : ℕ → Bool
is_decision status =
    eqb status (decision_code Decision.accepted) || eqb status (decision_code Decision.rejected)

-- The states in which the endpoint takes a Result, each with the statuses it may bring.
abbrev pub admits_result : BindingState → ℕ → Bool
admits_result state status =
    ((is_accepted state || is_awaiting_cancel state)
      && (eqb status (status_code TerminalStatus.succeeded)
          || eqb status (status_code TerminalStatus.aborted)))
    || (is_canceling state
        && (eqb status (status_code TerminalStatus.canceled)
            || eqb status (status_code TerminalStatus.aborted)))

abbrev pub admits_feedback : BindingState → Bool
admits_feedback state = is_accepted state || is_awaiting_cancel state || is_canceling state

-- The header of a response that passes every check of its slot.
unfoldable pub decode_response : PacketEnv → Endpoint → PendingPacket → Option ActionResponseHeader
decode_response v s packet = do
  routing ← get_elem? s.slot_routing packet.slot_index
  received_size ←
      validate_packet_capacity v packet.pdu routing.response_packet_base_size
        routing.response_heap_capacity true
  header ← decode_response_header v packet.pdu
  guard (eqb header.version action_protocol_version && is_valid_goal_id header.goal_id)
  some header

unfoldable pub decode_feedback : PacketEnv → Endpoint → PendingPacket → Option ActionFeedbackHeader
decode_feedback v s packet = do
  routing ← get_elem? s.slot_routing packet.slot_index
  received_size ←
      validate_packet_capacity v packet.pdu routing.feedback_packet_base_size
        routing.feedback_heap_capacity true
  header ← decode_feedback_header v packet.pdu
  guard (eqb header.version action_protocol_version && is_valid_goal_id header.goal_id)
  some header

abbrev pub event_of : Endpoint → ClientEventType → GoalId → PduData → ClientEvent
event_of s type goal_id pdu = record no_event {
  type = type;
  action_name = s.action_name;
  goal = goal_id;
  pdu = pdu;
}

-- What becomes of the binding when the Server has decided about the Goal.
unfoldable pub on_goal_response :
    Endpoint → GoalId → ClientPacketBinding → ℕ → PduData → Endpoint × ClientEvent
on_goal_response s goal_id binding status pdu = (
  if eqb status (decision_code Decision.accepted)
      then store_binding s goal_id (mark_accepted binding)
      else release_binding s goal_id binding,
  record (event_of s ClientEventType.goal_response goal_id pdu) { decision = decision_of status },
)

unfoldable pub on_result :
    Endpoint → GoalId → ClientPacketBinding → ℕ → PduData → Endpoint × ClientEvent
on_result s goal_id binding status pdu = (
  release_binding s goal_id binding,
  record (event_of s ClientEventType.result goal_id pdu) {
    terminal_status = terminal_status_of status;
  },
)

unfoldable pub on_cancel_response :
    Endpoint → GoalId → ClientPacketBinding → ℕ → PduData → Endpoint × ClientEvent
on_cancel_response s goal_id binding status pdu = (
  store_binding s goal_id (
      if eqb status (decision_code Decision.accepted)
      then mark_canceling binding
      else mark_accepted binding),
  record (event_of s ClientEventType.cancel_response goal_id pdu) { decision = decision_of status },
)

unfoldable pub dispatch_response :
    Endpoint
    → ActionResponseHeader
    → ClientPacketBinding
    → PduData
    → Option (Endpoint × ClientEvent)
unfolding on_goal_response on_result on_cancel_response
dispatch_response s header binding pdu =
    if eqb header.response_kind response_kind_goal
      && is_awaiting binding.state
      && is_decision header.status
    then some (on_goal_response s header.goal_id binding header.status pdu)
    else if eqb header.response_kind response_kind_result
        && admits_result binding.state header.status
    then some (on_result s header.goal_id binding header.status pdu)
    else if eqb header.response_kind response_kind_cancel
        && is_awaiting_cancel binding.state
        && is_decision header.status
    then some (on_cancel_response s header.goal_id binding header.status pdu)
    else none

-- `none` where the packet is dropped.
unfoldable pub poll_response :
    PacketEnv → Endpoint → PendingPacket → Option (Endpoint × ClientEvent)
unfolding decode_response dispatch_response
poll_response v s packet = do
  header ← decode_response v s packet
  binding ← lookup header.goal_id s.packet_bindings
  guard (eqb binding.slot_index packet.slot_index)
  dispatch_response s header binding packet.pdu

unfoldable pub poll_feedback :
    PacketEnv → Endpoint → PendingPacket → Option (Endpoint × ClientEvent)
unfolding decode_feedback
poll_feedback v s packet = do
  header ← decode_feedback v s packet
  binding ← lookup header.goal_id s.packet_bindings
  guard (eqb binding.slot_index packet.slot_index && admits_feedback binding.state)
  guard (eqb header.sequence_no binding.next_feedback_sequence)
  some (
    store_binding s header.goal_id (next_sequence binding),
    record (event_of s ClientEventType.feedback header.goal_id packet.pdu) {
      feedback_sequence = header.sequence_no;
    },
  )

unfoldable pub poll_packet : PacketEnv → Endpoint → PendingPacket → Option (Endpoint × ClientEvent)
unfolding poll_response poll_feedback
poll_packet v s packet = elim packet.kind [
  | response ↦ poll_response v s packet
  | feedback ↦ poll_feedback v s packet
]

-- The order of `std::map<GoalId, …>`: the bytes compared from the first on.
unfoldable pub precedes : GoalId → GoalId → Bool
precedes [] [] = false
precedes [] (c ∷ right) = true
precedes (b ∷ left) [] = false
precedes (b ∷ left) (c ∷ right) =
    let rest = precedes left right in if ltb b c then true else if ltb c b then false else rest

unfoldable pub is_overdue : ℕ → ClientPacketBinding → Bool
is_overdue now binding =
    is_awaiting binding.state
    && not (eqb binding.timeout_usec 0)
    && leb binding.sent_at_usec now
    && leb binding.timeout_usec (now - binding.sent_at_usec)

-- The overdue binding that the loop over the map reaches first: the one with the least key.
unfoldable pub first_overdue :
    ℕ → List (GoalId × ClientPacketBinding) → Option (GoalId × ClientPacketBinding)
unfolding precedes is_overdue
first_overdue now [] = none
first_overdue now ((goal_id, binding) ∷ bindings) =
    let later = first_overdue now bindings in
    if not (is_overdue now binding) then later else elim later [
      | none ↦ some (goal_id, binding)
      | some found ↦ if precedes found.0 goal_id then some found else some (goal_id, binding)
    ]

unfoldable pub poll_timeouts : ℕ → Endpoint → Endpoint × ClientEvent
unfolding first_overdue
poll_timeouts now s =
    if not s.initialized then (s, no_event) else elim (first_overdue now s.packet_bindings) [
      | none ↦ (s, no_event)
      | some found ↦ (
        store_binding s found.0 (mark_timed_out found.1),
        event_of s ClientEventType.timeout found.0 [],
      )
    ]

unfoldable pub poll_queue : PacketEnv → ℕ → Endpoint → List PendingPacket → Endpoint × ClientEvent
unfolding poll_packet poll_timeouts
poll_queue v now s [] = poll_timeouts now s
poll_queue v now s (packet ∷ packets) =
    let popped : Endpoint = record s { pending_packets = packets } in
    elim (poll_packet v popped packet) [ none ↦ poll_timeouts now popped | some r ↦ r ]

unfoldable pub poll : PacketEnv → ℕ → Endpoint → Endpoint × ClientEvent
unfolding poll_queue
poll v now s = poll_queue v now s s.pending_packets
