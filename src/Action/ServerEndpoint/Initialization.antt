-- ===== src/Action/ServerEndpoint/Initialization.antt =====
-- `ActionServerEndpointImpl::initialize` (src/action_server_endpoint_impl.cpp): the channels of a
-- definition become the routing of the slots. `size_of` is `hako_pdu_get_size`, `none` where it fails;
-- the tests of `endpoint_` and `time_source_` for null are left out.
use hakoniwa_pdu_rpc.Base.{
  ℕ, zero, suc, Bool, true, false, not, ◌&&◌, ◌||◌, Option, none, some, List, [], ◌∷◌, String, eqb,
  ltb, length, get_elem?, set, replicate, ◌==◌, string_equality, ◌>>=◌, ◌>>◌, guard,
}
use hakoniwa_pdu_rpc.Action.Packet.{PduResolvedKey, PacketEnv, supported_packet_capacity}
use hakoniwa_pdu_rpc.Action.Configuration.{
  ActionChannelKind, ActionChannelDefinition, ActionBufferHeap, ActionDefinition, JsonEnv,
  parse_action,
}
use hakoniwa_pdu_rpc.Action.ServerEndpoint.{Endpoint, SlotRouting}

-- The bits 0x01, 0x02 and 0x04 of a slot's channel mask.
pub record ChannelMask : Type 0 where
  pub request : Bool
  pub response : Bool
  pub feedback : Bool

-- What the loop over the channels fills: `parsed_routing`, `channel_masks` and `channel_ids`.
pub record Routing : Type 0 where
  pub slots : List SlotRouting
  pub masks : List ChannelMask
  pub channel_ids : List ℕ

abbrev pub no_key : PduResolvedKey
no_key = record { robot = ""; channel_id = 0 }

abbrev pub no_mask : ChannelMask
no_mask = record { request = false; response = false; feedback = false }

-- A slot before its channels are known.
unfoldable pub empty_slot : ActionBufferHeap → ℕ → SlotRouting
empty_slot heap slot = record {
  slot_index = slot;
  request = no_key;
  response = no_key;
  feedback = no_key;
  request_packet_base_size = 0;
  response_packet_base_size = 0;
  feedback_packet_base_size = 0;
  request_heap_capacity = heap.request_size;
  response_heap_capacity = heap.response_size;
  feedback_heap_capacity = heap.feedback_size;
}

unfoldable pub empty_slots : ActionBufferHeap → ℕ → ℕ → List SlotRouting
unfolding empty_slot
empty_slots heap slot zero = []
empty_slots heap slot (suc count) = empty_slot heap slot ∷ empty_slots heap (suc slot) count

unfoldable pub contains : ℕ → List ℕ → Bool
contains id [] = false
contains id (other ∷ rest) = eqb other id || contains id rest

-- The base size of a packet type that is large enough for its header and, with the heap, not too
-- large to be allocated.
unfoldable pub packet_base_size : PacketEnv → (String → Option ℕ) → String → ℕ → ℕ → Option ℕ
packet_base_size v size_of type header_size heap_capacity = do
  base_size ← size_of type
  guard (not (ltb base_size header_size))
  guard (supported_packet_capacity v base_size heap_capacity)
  some base_size

-- The `switch` over the kind of the channel.
unfoldable pub bind_slot :
    PacketEnv
    → (String → Option ℕ)
    → ActionChannelKind
    → PduResolvedKey
    → String
    → SlotRouting
    → ChannelMask
    → Option (SlotRouting × ChannelMask)
unfolding packet_base_size
bind_slot v size_of ActionChannelKind.request key type routing mask = do
  base_size ← packet_base_size v size_of type v.request_header_size routing.request_heap_capacity
  some (
    record routing { request = key; request_packet_base_size = base_size },
    record mask { request = true },
  )
bind_slot v size_of ActionChannelKind.response key type routing mask = do
  base_size ← packet_base_size v size_of type v.response_header_size routing.response_heap_capacity
  some (
    record routing { response = key; response_packet_base_size = base_size },
    record mask { response = true },
  )
bind_slot v size_of ActionChannelKind.feedback key type routing mask = do
  base_size ← packet_base_size v size_of type v.feedback_header_size routing.feedback_heap_capacity
  some (
    record routing { feedback = key; feedback_packet_base_size = base_size },
    record mask { feedback = true },
  )

-- One turn of the loop over the channels; a slot that is out of range is refused.
unfoldable pub bind_channel :
    PacketEnv → (String → Option ℕ) → String → ActionChannelDefinition → Routing → Option Routing
unfolding bind_slot contains
bind_channel v size_of name channel routing = do
  slot ← get_elem? routing.slots channel.slot_index
  mask ← get_elem? routing.masks channel.slot_index
  guard (not (contains channel.channel_id routing.channel_ids))
  bound ←
      bind_slot v size_of channel.kind (record { robot = name; channel_id = channel.channel_id })
        channel.packet_type slot mask
  some (record {
    slots = set routing.slots channel.slot_index bound.0;
    masks = set routing.masks channel.slot_index bound.1;
    channel_ids = channel.channel_id ∷ routing.channel_ids;
  })

unfoldable pub bind_channels :
    PacketEnv
    → (String → Option ℕ)
    → String
    → List ActionChannelDefinition
    → Routing
    → Option Routing
unfolding bind_channel
bind_channels v size_of name [] routing = some routing
bind_channels v size_of name (channel ∷ rest) routing = do
  bound ← bind_channel v size_of name channel routing
  bind_channels v size_of name rest bound

unfoldable pub all_bound : List ChannelMask → Bool
all_bound [] = true
all_bound (mask ∷ rest) = mask.request && mask.response && mask.feedback && all_bound rest

abbrev pub empty_routing : ActionDefinition → Routing
empty_routing definition = record {
  slots = empty_slots definition.buffer_heap 0 definition.slot_count;
  masks = replicate definition.slot_count no_mask;
  channel_ids = [];
}

-- `slot_owners_.resize`: places are added without an owner, or cut off.
unfoldable pub resize {ℓ} : {A : Type ℓ} → ℕ → List (Option A) → List (Option A)
resize zero owners = []
resize (suc n) [] = none ∷ resize n []
resize (suc n) (owner ∷ owners) = owner ∷ resize n owners

-- What `initialize` does with the definition that it has read; `none` where it returns false.
unfoldable pub take_definition :
    PacketEnv → (String → Option ℕ) → ActionDefinition → Endpoint → Option Endpoint
unfolding bind_channels all_bound resize
take_definition v size_of definition s = do
  guard (definition.name == s.action_name)
  routing ← bind_channels v size_of s.action_name definition.channels (empty_routing definition)
  guard (all_bound routing.masks)
  guard (not s.initialized)
  some (record s {
    slot_routing = routing.slots;
    slot_owners = resize (length routing.slots) s.slot_owners;
    initialized = true;
  })

-- The request channels for which a callback is registered, each with the slot of its packets.
unfoldable pub subscriptions : List SlotRouting → List (PduResolvedKey × ℕ)
subscriptions [] = []
subscriptions (routing ∷ rest) = (routing.request, routing.slot_index) ∷ subscriptions rest

unfoldable pub initialize :
    (j : JsonEnv)
    → PacketEnv
    → (String → Option ℕ)
    → j.Json
    → Endpoint
    → Option (Endpoint × List (PduResolvedKey × ℕ))
unfolding parse_action take_definition subscriptions
initialize j v size_of action_config s = do
  definition ← parse_action j action_config
  t ← take_definition v size_of definition s
  some (t, subscriptions t.slot_routing)
