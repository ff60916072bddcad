-- ===== src/Action/SetupTests.antt =====
-- A concrete definition, which endpoints of src/action_server_endpoint_impl.cpp and
-- src/action_client_endpoint_impl.cpp take.
use hakoniwa_pdu_rpc.Base.{ℕ, ◌+◌, ◌*◌, ◌≡◌, refl, true, false, none, some, [], ◌∷◌}
use hakoniwa_pdu_rpc.Action.Samples.{sample_env, sample_key, bound_endpoint}
use hakoniwa_pdu_rpc.Action.Packet.{supported_packet_capacity, aligned_size}
use hakoniwa_pdu_rpc.Action.Configuration.{
  ActionDefinition, all_channels, slot_channels, packet_type,
}
use hakoniwa_pdu_rpc.Action.Configuration.{
  JsonEnv, parse_action, read_required_text, read_endpoint, read_buffer_heap, read_buffer_heap_size,
  names_package,
}
use hakoniwa_pdu_rpc.Action.Configuration.Channels.{
  channel_ids, count_from, triple, parse_action-count_from,
}
use hakoniwa_pdu_rpc.Base.{Option, Bool, not, ◌||◌, String, if◌then◌else◌, ◌==◌, string_equality}
use hakoniwa_pdu_rpc.Action.ServerEndpoint.{Endpoint, SlotRouting}
use hakoniwa_pdu_rpc.Action.ServerEndpoint.Initialization.{
  take_definition, bind_channels, bind_channel, bind_slot, packet_base_size, contains, all_bound,
  resize, empty_slots, empty_slot,
}
use hakoniwa_pdu_rpc.Action.ServerEndpoint.Readiness.{IsReady, take_definition-IsReady}
use hakoniwa_pdu_rpc.Action.ClientEndpoint
use hakoniwa_pdu_rpc.Action.ClientEndpoint.Initialization as Client
use hakoniwa_pdu_rpc.Action.ClientEndpoint.Routing.{
  client_slots, server_slots, take_definition-same_routing,
}

-- A definition of two slots, and an endpoint that has not taken it yet.
abbrev sample_definition : ActionDefinition
sample_definition = record {
  name = "fibonacci";
  type = "demo/Fibonacci";
  slot_count = 2;
  buffer_heap = record { request_size = 1; response_size = 1; feedback_size = 1 };
  client_endpoint = record { node_id = "client"; endpoint_id = "" };
  server_endpoint = record { node_id = "server"; endpoint_id = "" };
  channels = all_channels "demo/Fibonacci" 0 2;
}

abbrev fresh_endpoint : Endpoint
fresh_endpoint = record bound_endpoint {
  action_name = "fibonacci";
  slot_routing = [];
  slot_owners = [];
  packet_bindings = [];
  initialized = false;
}

abbrev fibonacci_slot : ℕ → SlotRouting
fibonacci_slot slot = record {
  slot_index = slot;
  request = sample_key (slot * 3);
  response = sample_key (slot * 3 + 1);
  feedback = sample_key (slot * 3 + 2);
  request_packet_base_size = 1;
  response_packet_base_size = 1;
  feedback_packet_base_size = 1;
  request_heap_capacity = 1;
  response_heap_capacity = 1;
  feedback_heap_capacity = 1;
}

abbrev ready_endpoint : Endpoint
ready_endpoint = record fresh_endpoint {
  slot_routing = fibonacci_slot 0 ∷ fibonacci_slot 1 ∷ [];
  slot_owners = none ∷ none ∷ [];
  initialized = true;
}

definition_taken :
    take_definition sample_env (λ _. some 1) sample_definition fresh_endpoint ≡ some ready_endpoint
unfolding take_definition bind_channels bind_channel bind_slot packet_base_size contains all_bound
    resize empty_slots empty_slot all_channels slot_channels packet_type supported_packet_capacity
    aligned_size
definition_taken = refl

take_definition-IsReady_example : IsReady sample_env sample_definition ready_endpoint
take_definition-IsReady_example =
    take_definition-IsReady sample_env (λ _. some 1) sample_definition fresh_endpoint ready_endpoint
      refl refl definition_taken

abbrev fresh_client : ClientEndpoint.Endpoint
fresh_client = record {
  action_name = "fibonacci";
  pending_packets = [];
  slot_routing = [];
  slot_owners = [];
  packet_bindings = [];
  initialized = false;
  sends = [];
}

take_definition-same_routing_example :
    client_slots (Client.take_definition sample_env (λ _. some 1) sample_definition fresh_client)
    ≡ server_slots (take_definition sample_env (λ _. some 1) sample_definition fresh_endpoint)
take_definition-same_routing_example =
    take_definition-same_routing sample_env (λ _. some 1) sample_definition fresh_client
      fresh_endpoint refl refl

-- The JSON of an Action, of one of its endpoints and of its heap sizes.
data Value : Type 0 where
  text : String → Value
  number : ℕ → Value
  node : String → Value
  heap : Value
  action : String → String → ℕ → Value

abbrev value_at : Value → String → Option Value
value_at (action name type slots) key =
    if key == "name"
    then some (text name)
    else if key == "type"
    then some (text type)
    else if key == "slotCount"
    then some (number slots)
    else if key == "clientEndpoint"
    then some (node "client")
    else if key == "serverEndpoint"
    then some (node "server")
    else if key == "bufferHeap"
    then some heap
    else none
value_at (node name) key = if key == "nodeId" then some (text name) else none
value_at heap key = some (number 1)
value_at _ key = none

abbrev is_text : Value → Bool
is_text (text _) = true
is_text _ = false

abbrev is_number : Value → Bool
is_number (number _) = true
is_number _ = false

abbrev text_of : Value → String
text_of (text t) = t
text_of _ = ""

abbrev number_of : Value → ℕ
number_of (number n) = n
number_of _ = 0

abbrev sample_json : JsonEnv
sample_json = record {
  Json = Value;
  find = value_at;
  is_object = λ value. not (is_text value || is_number value);
  is_string = is_text;
  is_number_integer = is_number;
  is_number_unsigned = is_number;
  is_negative = λ _. false;
  get_text = text_of;
  get_number = number_of;
  elements = λ _. none;
}

definition_read :
    parse_action sample_json (action "fibonacci" "demo/Fibonacci" 2) ≡ some sample_definition
unfolding parse_action read_required_text read_endpoint read_buffer_heap read_buffer_heap_size
    names_package all_channels slot_channels packet_type
definition_read = refl

parse_action-count_from_example :
    channel_ids sample_definition.channels ≡ count_from 0 (triple sample_definition.slot_count)
parse_action-count_from_example =
    parse_action-count_from sample_json (action "fibonacci" "demo/Fibonacci" 2) sample_definition
      definition_read
