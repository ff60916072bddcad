-- ===== src/Action/ClientEndpoint.antt =====
-- src/action_client_endpoint_impl.hpp and .cpp: the packet side of an Action client. It gives each
-- Goal a slot of its own, on whose channels the request, the responses and the feedback travel. A
-- method that mutates `*this` returns the new record; logging is left out.
pub mod Operations
pub mod Polling
pub mod Overdue
pub mod Outcomes
pub mod Answers
pub mod Turns
pub mod Consistency
pub mod Messages
pub mod Submission
pub mod Histories
pub mod Quarantine
pub mod Timeouts
pub mod Initialization
pub mod Routing
use hakoniwa_pdu_rpc.Base.{
  ℕ, ◌+◌, ◌%◌, ◌^◌, Bool, true, false, not, ◌&&◌, ◌||◌, Option, none, some, List, [], ◌∷◌, ◌++◌,
  String, ltb, length, take, get_elem?, set, if◌then◌else◌, bytes_equality, ◌>>=◌,
}
use hakoniwa_pdu_rpc.Base.Map.{lookup, insert, erase}
use hakoniwa_pdu_rpc.Action.Types.{
  GoalId, PduData, ClientEventType, ClientEvent, Decision, TerminalStatus,
}
use hakoniwa_pdu_rpc.Action.Packet.{Send, PacketEnv}
use hakoniwa_pdu_rpc.Action.ClientPacket.{
  create_packet_buffer, validate_packet_capacity, write_request_header,
}
use hakoniwa_pdu_rpc.Action.ServerEndpoint.{SlotRouting}

pub data BindingState : Type 0 where
  awaiting_goal_response goal_response_timed_out accepted awaiting_cancel_response canceling :
      BindingState

pub record ClientPacketBinding : Type 0 where
  pub goal_id : GoalId
  pub slot_index : ℕ
  pub state : BindingState
  pub sent_at_usec : ℕ  -- uint64_t
  pub timeout_usec : ℕ  -- uint64_t
  pub next_feedback_sequence : ℕ  -- uint32_t

pub data PendingPacketKind : Type 0 where
  response feedback : PendingPacketKind

pub record PendingPacket : Type 0 where
  pub slot_index : ℕ
  pub kind : PendingPacketKind
  pub pdu : PduData

-- The struct `SlotRouting` is the server's, member for member. `sends` are the calls of
-- `Endpoint::send` made so far, the newest first.
pub record Endpoint : Type 0 where
  pub action_name : String
  pub pending_packets : List PendingPacket
  pub slot_routing : List SlotRouting
  pub slot_owners : List (Option GoalId)
  pub packet_bindings : List (GoalId × ClientPacketBinding)
  pub initialized : Bool
  pub sends : List Send

abbrev pub is_awaiting : BindingState → Bool
is_awaiting awaiting_goal_response = true
is_awaiting _ = false

abbrev pub is_accepted : BindingState → Bool
is_accepted BindingState.accepted = true
is_accepted _ = false

abbrev pub is_awaiting_cancel : BindingState → Bool
is_awaiting_cancel awaiting_cancel_response = true
is_awaiting_cancel _ = false

abbrev pub is_canceling : BindingState → Bool
is_canceling BindingState.canceling = true
is_canceling _ = false

-- `ClientEvent{}`.
abbrev pub no_event : ClientEvent
no_event = record {
  type = ClientEventType.none;
  action_name = "";
  goal = [];
  decision = Decision.unspecified;
  terminal_status = TerminalStatus.unspecified;
  feedback_sequence = 0;
  pdu = [];
}

unfoldable pub new_binding : GoalId → ℕ → ℕ → ℕ → ClientPacketBinding
new_binding goal_id slot_index now timeout_usec = record {
  goal_id = goal_id;
  slot_index = slot_index;
  state = awaiting_goal_response;
  sent_at_usec = now;
  timeout_usec = timeout_usec;
  next_feedback_sequence = 0;
}

-- `binding` is the entry of `packet_bindings_` under `goal_id`.
unfoldable pub release_binding : Endpoint → GoalId → ClientPacketBinding → Endpoint
release_binding s goal_id binding = record s {
  slot_owners =
      if ltb binding.slot_index (length s.slot_owners)
      then set s.slot_owners binding.slot_index none
      else s.slot_owners;
  packet_bindings = erase goal_id s.packet_bindings;
}

unfoldable pub store_binding : Endpoint → GoalId → ClientPacketBinding → Endpoint
store_binding s goal_id binding = record s {
  packet_bindings = insert goal_id binding s.packet_bindings;
}

unfoldable pub send : PacketEnv → Endpoint → Send → Endpoint × Bool
send v s m = (record s { sends = m ∷ s.sends }, v.send_ok s.sends m)

unfoldable pub create_control_request_packet : PacketEnv → Endpoint → Option PduData
create_control_request_packet v s = elim s.slot_routing [
  | [] ↦ none
  | routing ∷ _ ↦ create_packet_buffer v routing.request_packet_base_size 0
]

-- What goes to the transport once the packet fits the slot's channel and takes the header, `none`
-- where the code gives up before the send. The code indexes `slot_routing_` without a test in
-- `send_goal_with_result`; the slot is one of `slot_owners_`, which has the same length.
unfoldable pub request_message :
    PacketEnv → List SlotRouting → ℕ → GoalId → ℕ → PduData → Option Send
request_message v slots slot_index goal_id request_kind packet = do
  routing ← get_elem? slots slot_index
  wire_size ←
      validate_packet_capacity v packet routing.request_packet_base_size
        routing.request_heap_capacity false
  written ← write_request_header v packet goal_id request_kind
  some (record { key = routing.request; bytes = take wire_size written })
