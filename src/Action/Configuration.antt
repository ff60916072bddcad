-- ===== src/Action/Configuration.antt =====
-- src/action_configuration.hpp and .cpp: the definition of an Action, read from JSON, and the logical
-- channels that its slots are given. What the code takes from nlohmann::json is the parameter
-- `JsonEnv`; the texts of errors are left out, and so are the names of channels, which no code reads.
pub mod Channels
use hakoniwa_pdu_rpc.Base.{
  ℕ, zero, suc, ◌+◌, ◌*◌, ◌%◌, ◌^◌, Bool, false, not, ◌&&◌, ◌||◌, Option, none, some, List, [], ◌∷◌,
  ◌++◌, String, eqb, ltb, if◌then◌else◌, ◌==◌, string_equality, ◌>>=◌, ◌>>◌, guard,
}
use Prim.Native.String.{◌++◌ as append, find, len, slice}

pub data ActionChannelKind : Type 0 where
  request response feedback : ActionChannelKind

pub record ActionEndpointReference : Type 0 where
  pub node_id : String
  pub endpoint_id : String

pub record ActionChannelDefinition : Type 0 where
  pub slot_index : ℕ
  pub kind : ActionChannelKind
  pub channel_id : ℕ  -- uint32_t
  pub packet_type : String

pub record ActionBufferHeap : Type 0 where
  pub request_size : ℕ
  pub response_size : ℕ
  pub feedback_size : ℕ

pub record ActionDefinition : Type 0 where
  pub name : String
  pub type : String
  pub slot_count : ℕ
  pub buffer_heap : ActionBufferHeap
  pub client_endpoint : ActionEndpointReference
  pub server_endpoint : ActionEndpointReference
  pub channels : List ActionChannelDefinition

-- `nlohmann::json`: its tests and accessors, `find` with `none` for `end()`, and `get_int64` split
-- into the sign and what a number that is not negative is.
pub record JsonEnv : Type 1 where
  pub Json : Type 0
  pub find : Json → String → Option Json
  pub is_object : Json → Bool
  pub is_string : Json → Bool
  pub is_number_integer : Json → Bool
  pub is_number_unsigned : Json → Bool
  pub is_negative : Json → Bool
  pub get_text : Json → String
  pub get_number : Json → ℕ
  pub elements : Json → Option (List Json)

abbrev pub default_size : ℕ
default_size = 1024 * 1024

abbrev pub int_max : ℕ
int_max = 2147483647

-- `(numeric_limits<uint32_t>::max() - 2U) / 3U + 1U`.
abbrev pub max_slot_count : ℕ
max_slot_count = 1431655765

unfoldable pub read_required_text : (j : JsonEnv) → j.Json → String → Option String
read_required_text j object key = do
  it ← j.find object key
  guard (j.is_string it && not (j.get_text it == ""))
  some (j.get_text it)

unfoldable pub read_endpoint : (j : JsonEnv) → j.Json → String → Option ActionEndpointReference
unfolding read_required_text
read_endpoint j action key = do
  it ← j.find action key
  guard (j.is_object it)
  node_id ← read_required_text j it "nodeId"
  elim (j.find it "endpointId") [
    | none ↦ some (record { node_id = node_id; endpoint_id = "" })
    | some endpoint_id ↦
        if not (j.is_string endpoint_id) || j.get_text endpoint_id == ""
        then none
        else some (record { node_id = node_id; endpoint_id = j.get_text endpoint_id })
  ]

unfoldable pub read_buffer_heap_size : (j : JsonEnv) → j.Json → String → Option ℕ
read_buffer_heap_size j object key = elim (j.find object key) [
  | none ↦ some default_size
  | some it ↦
      if not (j.is_number_integer it)
      then none
      else if not (j.is_number_unsigned it) && j.is_negative it
      then none
      else if ltb int_max (j.get_number it)
      then none
      else some (j.get_number it)
]

unfoldable pub read_buffer_heap : (j : JsonEnv) → j.Json → Option ActionBufferHeap
unfolding read_buffer_heap_size
read_buffer_heap j action = elim (j.find action "bufferHeap") [
  | none ↦ some (record {
    request_size = default_size;
    response_size = default_size;
    feedback_size = default_size;
  })
  | some it ↦ do
    guard (j.is_object it)
    request_size ← read_buffer_heap_size j it "requestSize"
    response_size ← read_buffer_heap_size j it "responseSize"
    feedback_size ← read_buffer_heap_size j it "feedbackSize"
    some (record {
      request_size = request_size;
      response_size = response_size;
      feedback_size = feedback_size;
    })
]

-- `package/ActionName`: the text has one '/', which is neither first nor last. Where there is none,
-- the position that `find` gives is beyond the end.
unfoldable pub names_package : String → Bool
names_package type =
    let separator = find type "/" in
    let rest = slice type (separator + 1) (len type) in
    not (ltb (len type) separator)
    && not (eqb separator 0)
    && not (eqb (separator + 1) (len type))
    && ltb (len rest) (find rest "/")

unfoldable pub packet_type : String → String → String
packet_type action_type suffix = append action_type (append "Action" suffix)

-- The three channels of a slot.
unfoldable pub slot_channels : String → ℕ → List ActionChannelDefinition
unfolding packet_type
slot_channels type slot =
    let base_id = slot * 3 % 2 ^ 32 in
    record {
      slot_index = slot;
      kind = request;
      channel_id = base_id;
      packet_type = packet_type type "Request";
    }
    ∷ record {
      slot_index = slot;
      kind = response;
      channel_id = (base_id + 1) % 2 ^ 32;
      packet_type = packet_type type "Response";
    }
    ∷ record {
      slot_index = slot;
      kind = feedback;
      channel_id = (base_id + 2) % 2 ^ 32;
      packet_type = packet_type type "Feedback";
    }
    ∷ []

-- The loop over the slots from `slot` on, as many as `count`.
unfoldable pub all_channels : String → ℕ → ℕ → List ActionChannelDefinition
unfolding slot_channels
all_channels type slot zero = []
all_channels type slot (suc count) = slot_channels type slot ++ all_channels type (suc slot) count

unfoldable pub parse_action : (j : JsonEnv) → j.Json → Option ActionDefinition
unfolding read_required_text read_endpoint read_buffer_heap names_package all_channels
parse_action j action = do
  guard (j.is_object action)
  name ← read_required_text j action "name"
  type ← read_required_text j action "type"
  guard (names_package type)
  slot_count ← j.find action "slotCount"
  guard (j.is_number_unsigned slot_count)
  guard (not (eqb (j.get_number slot_count) 0))
  guard (not (ltb max_slot_count (j.get_number slot_count)))
  client_endpoint ← read_endpoint j action "clientEndpoint"
  server_endpoint ← read_endpoint j action "serverEndpoint"
  buffer_heap ← read_buffer_heap j action
  some (record {
    name = name;
    type = type;
    slot_count = j.get_number slot_count;
    buffer_heap = buffer_heap;
    client_endpoint = client_endpoint;
    server_endpoint = server_endpoint;
    channels = all_channels type 0 (j.get_number slot_count);
  })

unfoldable pub has_name : String → List ActionDefinition → Bool
has_name name [] = false
has_name name (definition ∷ rest) = definition.name == name || has_name name rest

-- The loop of `parse`; `parsed` are the definitions read so far.
unfoldable pub parse_actions :
    (j : JsonEnv) → List j.Json → List ActionDefinition → Option (List ActionDefinition)
unfolding parse_action has_name
parse_actions j [] parsed = some parsed
parse_actions j (action ∷ rest) parsed = do
  definition ← parse_action j action
  guard (not (has_name definition.name parsed))
  parse_actions j rest (parsed ++ definition ∷ [])

unfoldable pub parse : (j : JsonEnv) → j.Json → Option (List ActionDefinition)
unfolding parse_actions
parse j root = do
  guard (j.is_object root)
  actions ← j.find root "actions"
  items ← j.elements actions
  elim items [ [] ↦ none | action ∷ rest ↦ parse_actions j (action ∷ rest) [] ]
