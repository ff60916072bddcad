-- ===== src/Action/ServerEndpoint.antt =====
-- src/action_server_endpoint_impl.hpp and .cpp: the packet side of an Action server. It binds each
-- Goal to the slot on whose channels its packets travel, decodes requests, and sends responses,
-- feedback and results. A method that mutates `*this` returns the new record; logging is left out.
pub mod Initialization
pub mod Operations
pub mod Results
pub mod Frames
pub mod Outcomes
pub mod Consistency
pub mod Requests
pub mod Answers
pub mod Commitment
pub mod Endings
pub mod Readiness
mod Tests
use hakoniwa_pdu_rpc.Base.{
  ℕ, ◌+◌, ◌%◌, ◌^◌, Bool, true, false, not, ◌&&◌, ◌||◌, Option, none, some, List, [], ◌∷◌, ◌++◌,
  String, eqb, ltb, length, take, get_elem?, set, is_empty, if◌then◌else◌, ◌==◌, bytes_equality,
  ◌>>=◌, ◌>>◌, guard, map,
}
use hakoniwa_pdu_rpc.Base.Map.{lookup, insert, erase}
use hakoniwa_pdu_rpc.Action.Types.{
  GoalId, PduData, is_valid_goal_id, ServerEventType, goal_request, cancel_request, ServerEvent,
  RuntimeCancelCause, TerminalStatus, is_succeeded, is_canceled, is_aborted, status_code, Decision,
  accepted, rejected, decision_code,
}
use hakoniwa_pdu_rpc.Action.Packet.{
  PduResolvedKey, ActionRequestHeader, ActionResponseHeader, ActionFeedbackHeader, Send, PacketEnv,
  decode_request_header, write_response_header, write_feedback_header, create_packet_buffer,
  validate_packet_capacity,
}

abbrev pub action_protocol_version : ℕ
action_protocol_version = 1

abbrev pub request_kind_goal : ℕ
request_kind_goal = 1

abbrev pub request_kind_cancel : ℕ
request_kind_cancel = 2

abbrev pub response_kind_goal : ℕ
response_kind_goal = 1

abbrev pub response_kind_cancel : ℕ
response_kind_cancel = 2

abbrev pub response_kind_result : ℕ
response_kind_result = 3

-- The names of the packet types, which serve in logs and at initialization, are left out.
pub record SlotRouting : Type 0 where
  pub slot_index : ℕ
  pub request : PduResolvedKey
  pub response : PduResolvedKey
  pub feedback : PduResolvedKey
  pub request_packet_base_size : ℕ
  pub response_packet_base_size : ℕ
  pub feedback_packet_base_size : ℕ
  pub request_heap_capacity : ℕ
  pub response_heap_capacity : ℕ
  pub feedback_heap_capacity : ℕ

pub record PendingPacket : Type 0 where
  pub slot_index : ℕ
  pub pdu : PduData

pub data PacketBindingState : Type 0 where
  awaiting_goal_decision goal_accepted cancel_accepted result_committed : PacketBindingState

pub record ActionPacketBinding : Type 0 where
  pub goal_id : GoalId
  pub slot_index : ℕ
  pub state : PacketBindingState
  pub next_feedback_sequence : ℕ  -- uint32_t
  pub cancel_decision_pending : Bool

-- `sends` are the calls of `Endpoint::send` made so far, the newest first.
pub record Endpoint : Type 0 where
  pub action_name : String
  pub pending_events : List ServerEvent
  pub pending_packets : List PendingPacket
  pub slot_routing : List SlotRouting
  pub slot_owners : List (Option GoalId)
  pub packet_bindings : List (GoalId × ActionPacketBinding)
  pub initialized : Bool
  pub sends : List Send

pub data CompleteResult : Type 0 where
  not_committed sent send_failed_after_commit : CompleteResult

abbrev pub is_awaiting : PacketBindingState → Bool
is_awaiting awaiting_goal_decision = true
is_awaiting _ = false

abbrev pub is_accepted : PacketBindingState → Bool
is_accepted goal_accepted = true
is_accepted _ = false

abbrev pub is_cancel_accepted : PacketBindingState → Bool
is_cancel_accepted cancel_accepted = true
is_cancel_accepted _ = false

abbrev pub is_committed : PacketBindingState → Bool
is_committed result_committed = true
is_committed _ = false

unfoldable pub new_binding : GoalId → ℕ → ActionPacketBinding
new_binding goal_id slot_index = record {
  goal_id = goal_id;
  slot_index = slot_index;
  state = awaiting_goal_decision;
  next_feedback_sequence = 0;
  cancel_decision_pending = false;
}

-- `slot_owners_[slot]`; no slot out of range has an owner.
unfoldable pub owner_at : List (Option GoalId) → ℕ → Option GoalId
owner_at owners slot = elim (get_elem? owners slot) [ none ↦ none | some owner ↦ owner ]

unfoldable pub validate_request_header : ActionRequestHeader → Bool
validate_request_header header =
    if not (eqb header.version action_protocol_version)
    then false
    else if not (eqb header.request_kind request_kind_goal)
        && not (eqb header.request_kind request_kind_cancel)
    then false
    else is_valid_goal_id header.goal_id

pub send : PacketEnv → Endpoint → Send → Endpoint × Bool
send v s m = (record s { sends = m ∷ s.sends }, v.send_ok s.sends m)

pub create_control_response_packet : PacketEnv → Endpoint → Option PduData
create_control_response_packet v s = elim s.slot_routing [
  | [] ↦ none
  | routing ∷ _ ↦ create_packet_buffer v routing.response_packet_base_size 0
]

-- What `send_response_packet` hands to the transport, `none` where it returns false before that.
pub response_message :
    PacketEnv → List SlotRouting → ActionPacketBinding → ℕ → ℕ → PduData → Option Send
response_message v slots binding response_kind status packet = do
  routing ← get_elem? slots binding.slot_index
  guard (not (is_empty packet))
  wire_size ←
      validate_packet_capacity v packet routing.response_packet_base_size
        routing.response_heap_capacity false
  written ← write_response_header v packet (record {
    version = action_protocol_version;
    response_kind = response_kind;
    status = status;
    reserved = 0;
    goal_id = binding.goal_id;
  })
  some (record { key = routing.response; bytes = take wire_size written })

pub send_message : PacketEnv → Endpoint → Option Send → Endpoint × Bool
send_message v s none = (s, false)
send_message v s (some m) = send v s m

pub send_response_packet :
    PacketEnv → Endpoint → ActionPacketBinding → ℕ → ℕ → PduData → Endpoint × Bool
unfolding response_message send_message send
send_response_packet v s binding response_kind status packet =
    send_message v s (response_message v s.slot_routing binding response_kind status packet)

-- `create_control_response_packet(response) && send_response_packet(…)`.
pub send_control : PacketEnv → Endpoint → ActionPacketBinding → ℕ → Decision → Endpoint × Bool
unfolding send_response_packet create_control_response_packet
send_control v s binding response_kind decision = elim (create_control_response_packet v s) [
  | none ↦ (s, false)
  | some response ↦ send_response_packet v s binding response_kind (decision_code decision) response
]

-- The reply that refuses a Goal Request; the Goal has no binding, and a failure is only logged.
pub send_goal_error_reply : PacketEnv → Endpoint → GoalId → ℕ → Endpoint
unfolding send_control new_binding
send_goal_error_reply v s goal_id slot_index =
    (send_control v s (new_binding goal_id slot_index) response_kind_goal rejected).0

owner_is : Option GoalId → GoalId → Bool
owner_is none goal_id = false
owner_is (some owner) goal_id = owner == goal_id

-- `binding` is the entry of `packet_bindings_` under `goal_id`.
unfoldable pub release_binding : Endpoint → GoalId → ActionPacketBinding → Endpoint
unfolding owner_is owner_at
release_binding s goal_id binding = record s {
  slot_owners =
      if ltb binding.slot_index (length s.slot_owners)
        && owner_is (owner_at s.slot_owners binding.slot_index) goal_id
      then set s.slot_owners binding.slot_index none
      else s.slot_owners;
  packet_bindings = erase goal_id s.packet_bindings;
}

unfoldable pub store_binding : Endpoint → GoalId → ActionPacketBinding → Endpoint
store_binding s goal_id binding = record s {
  packet_bindings = insert goal_id binding s.packet_bindings;
}
