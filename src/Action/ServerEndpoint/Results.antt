-- ===== src/Action/ServerEndpoint/Results.antt =====
-- Feedback, results and the resets of `ActionServerEndpointImpl`
-- (src/action_server_endpoint_impl.cpp).
use hakoniwa_pdu_rpc.Base.{
  ◌>>=◌, ◌>>◌, guard, ℕ, ◌+◌, ◌%◌, ◌^◌, Bool, true, false, not, ◌&&◌, ◌||◌, Option, none, some,
  List, [], ◌∷◌, take, get_elem?, if◌then◌else◌, map, bytes_equality,
}
use hakoniwa_pdu_rpc.Base.Map.{lookup}
use hakoniwa_pdu_rpc.Action.Types.{
  GoalId, PduData, is_valid_goal_id, TerminalStatus, is_succeeded, is_canceled, is_aborted,
  status_code,
}
use hakoniwa_pdu_rpc.Action.Packet.{
  Send, PacketEnv, write_feedback_header, create_packet_buffer, validate_packet_capacity,
}
use hakoniwa_pdu_rpc.Action.ServerEndpoint.{
  Endpoint, SlotRouting, ActionPacketBinding, result_committed, CompleteResult, not_committed, sent,
  send_failed_after_commit, action_protocol_version, response_kind_result, is_awaiting, is_accepted,
  is_cancel_accepted, send_response_packet, send_message, release_binding, store_binding,
}
use hakoniwa_pdu_rpc.Action.ServerEndpoint.Operations.{find_binding}

unfoldable pub create_result_buffer : PacketEnv → Endpoint → Option PduData
create_result_buffer v s = if not s.initialized then none else (elim s.slot_routing [
  | [] ↦ none
  | routing ∷ _ ↦
      create_packet_buffer v routing.response_packet_base_size routing.response_heap_capacity
])

unfoldable pub create_feedback_buffer : PacketEnv → Endpoint → Option PduData
create_feedback_buffer v s = if not s.initialized then none else (elim s.slot_routing [
  | [] ↦ none
  | routing ∷ _ ↦
      create_packet_buffer v routing.feedback_packet_base_size routing.feedback_heap_capacity
])

-- The feedback packet that goes out, `none` where `send_feedback` returns false before the send.
unfoldable pub feedback_message :
    PacketEnv → List SlotRouting → GoalId → ActionPacketBinding → PduData → Option Send
feedback_message v slots goal binding feedback_pdu = do
  guard (is_accepted binding.state || is_cancel_accepted binding.state)
  routing ← get_elem? slots binding.slot_index
  wire_size ←
      validate_packet_capacity v feedback_pdu routing.feedback_packet_base_size
        routing.feedback_heap_capacity false
  written ← write_feedback_header v feedback_pdu (record {
    version = action_protocol_version;
    reserved = 0 ∷ 0 ∷ 0 ∷ [];
    goal_id = goal;
    sequence_no = binding.next_feedback_sequence;
  })
  some (record { key = routing.feedback; bytes = take wire_size written })

-- `++next_feedback_sequence` on a `std::uint32_t`.
abbrev pub next_sequence : ActionPacketBinding → ActionPacketBinding
next_sequence binding = record binding {
  next_feedback_sequence = (binding.next_feedback_sequence + 1) % 2 ^ 32;
}

unfoldable pub send_feedback : PacketEnv → Endpoint → GoalId → PduData → Endpoint × Bool
send_feedback v s goal feedback_pdu = elim (find_binding s goal) [
  | none ↦ (s, false)
  | some binding ↦
      let (s', done) =
        send_message v s (feedback_message v s.slot_routing goal binding feedback_pdu) in
      if done then (store_binding s' goal (next_sequence binding), true) else (s', false)
]

-- The wire size of a result that the Goal may end with now.
unfoldable pub validate_terminal_packet :
    PacketEnv → Endpoint → ActionPacketBinding → TerminalStatus → PduData → Option ℕ
validate_terminal_packet v s binding status result_pdu = do
  guard (
      (is_accepted binding.state && (is_succeeded status || is_aborted status))
      || (is_cancel_accepted binding.state && (is_canceled status || is_aborted status)))
  routing ← get_elem? s.slot_routing binding.slot_index
  validate_packet_capacity v result_pdu routing.response_packet_base_size
      routing.response_heap_capacity false

abbrev pub commit : ActionPacketBinding → ActionPacketBinding
commit binding = record binding { state = result_committed; cancel_decision_pending = false }

unfoldable pub finish :
    PacketEnv
    → Endpoint
    → GoalId
    → ActionPacketBinding
    → TerminalStatus
    → PduData
    → Endpoint × CompleteResult
finish v s goal binding status result_pdu =
    let committed = store_binding s goal (commit binding) in
    let (s', done) =
      send_response_packet v committed (commit binding) response_kind_result (status_code status)
        result_pdu in
    if done
    then (release_binding s' goal (commit binding), sent)
    else (s', send_failed_after_commit)

unfoldable pub complete :
    PacketEnv → Endpoint → GoalId → TerminalStatus → PduData → Endpoint × CompleteResult
unfolding finish
complete v s goal status result_pdu = elim (find_binding s goal) [
  | none ↦ (s, not_committed)
  | some binding ↦ elim (validate_terminal_packet v s binding status result_pdu) [
    | none ↦ (s, not_committed)
    | some _ ↦ finish v s goal binding status result_pdu
  ]
]

unfoldable pub complete_locally :
    PacketEnv → Endpoint → GoalId → TerminalStatus → PduData → Endpoint × Bool
complete_locally v s goal status result_pdu = elim (find_binding s goal) [
  | none ↦ (s, false)
  | some binding ↦ elim (validate_terminal_packet v s binding status result_pdu) [
    | none ↦ (s, false)
    | some _ ↦ (release_binding (store_binding s goal (commit binding)) goal (commit binding), true)
  ]
]

-- This call does not ask whether the endpoint is initialized.
unfoldable pub discard_pending_goal : Endpoint → GoalId → Endpoint × Bool
discard_pending_goal s goal =
    if not (is_valid_goal_id goal) then (s, false) else (elim (lookup goal s.packet_bindings) [
      | none ↦ (s, false)
      | some binding ↦
          if not (is_awaiting binding.state)
          then (s, false)
          else (release_binding s goal binding, true)
    ])

unfoldable pub clear_pending_events : Endpoint → Endpoint
clear_pending_events s = record s { pending_events = []; pending_packets = [] }

unfoldable pub reset_contexts : Endpoint → Endpoint
reset_contexts s = record s {
  pending_events = [];
  packet_bindings = [];
  slot_owners = map (λ _. none) s.slot_owners;
  pending_packets = [];
}
