-- ===== src/Action/Samples.antt =====
-- A concrete environment, endpoint and Goal for the tests of the Action server.
use hakoniwa_pdu_rpc.Base.{ℕ, true, false, Option, none, some, [], ◌∷◌, length}
use hakoniwa_pdu_rpc.Action.Types.{GoalId, PduData}
use hakoniwa_pdu_rpc.Action.Packet.{PduResolvedKey, ActionRequestHeader, PacketEnv}
use hakoniwa_pdu_rpc.Action.ServerEndpoint.{Endpoint, SlotRouting, ActionPacketBinding, new_binding}

-- A packet is a request kind and the bytes of a Goal identity.
abbrev pub sample_header : PduData → Option ActionRequestHeader
sample_header [] = none
sample_header (kind ∷ id) =
    some (record { version = 1; request_kind = kind; reserved = 0 ∷ 0 ∷ []; goal_id = id })

abbrev pub sample_env : PacketEnv
sample_env = record {
  meta_struct_size = 0;
  meta_data_size = 0;
  alignment = 1;
  int_max = 2147483647;
  request_header_size = 0;
  response_header_size = 0;
  feedback_header_size = 0;
  metadata = λ p. record { invalid = false; base_off = 0; heap_off = 0; total_size = length p };
  pdu2cpp_request = sample_header;
  pdu2cpp_response = λ _. none;
  pdu2cpp_feedback = λ _. none;
  cpp2pdu_request = λ p _. some p;
  cpp2pdu_response = λ p _. some p;
  cpp2pdu_feedback = λ p _. some p;
  create_empty_pdu = λ _ _. some (0 ∷ []);
  send_ok = λ _ _. true;
}

abbrev pub sample_key : ℕ → PduResolvedKey
sample_key channel = record { robot = "fibonacci"; channel_id = channel }

abbrev pub sample_slot : ℕ → SlotRouting
sample_slot i = record {
  slot_index = i;
  request = sample_key 1;
  response = sample_key 2;
  feedback = sample_key 3;
  request_packet_base_size = 1;
  response_packet_base_size = 1;
  feedback_packet_base_size = 1;
  request_heap_capacity = 64;
  response_heap_capacity = 64;
  feedback_heap_capacity = 64;
}

abbrev pub sample_endpoint : Endpoint
sample_endpoint = record {
  action_name = "fibonacci";
  pending_events = [];
  pending_packets = [];
  slot_routing = sample_slot 0 ∷ sample_slot 1 ∷ [];
  slot_owners = none ∷ none ∷ [];
  packet_bindings = [];
  initialized = true;
  sends = [];
}

abbrev pub sample_goal : GoalId
sample_goal = 7 ∷ []

-- The same endpoint with the Goal bound to the first slot.
abbrev pub sample_binding : ActionPacketBinding
sample_binding = new_binding sample_goal 0

abbrev pub bound_endpoint : Endpoint
bound_endpoint = record sample_endpoint {
  packet_bindings = (sample_goal, sample_binding) ∷ [];
  slot_owners = some sample_goal ∷ none ∷ [];
}
