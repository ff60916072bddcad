-- ===== src/Action/ClientEndpoint/Initialization.antt =====
-- `ActionClientEndpointImpl::initialize` (src/action_client_endpoint_impl.cpp): the channels of a
-- definition become the routing of the slots. The structs that the loop fills are the server's,
-- member for member. `size_of` is `hako_pdu_get_size`, `none` where it fails; the tests of `endpoint_`
-- and `time_source_` for null are left out.
use hakoniwa_pdu_rpc.Base.{
  ℕ, true, not, ◌||◌, Option, some, List, [], ◌∷◌, String, ltb, length, get_elem?, set, ◌==◌,
  string_equality, ◌>>=◌, ◌>>◌, guard,
}
use hakoniwa_pdu_rpc.Action.Packet.{PduResolvedKey, PacketEnv}
use hakoniwa_pdu_rpc.Action.ClientPacket.{supported_packet_capacity}
use hakoniwa_pdu_rpc.Action.Configuration.{
  ActionChannelKind, ActionChannelDefinition, ActionDefinition, JsonEnv, parse_action,
}
use hakoniwa_pdu_rpc.Action.ServerEndpoint.{SlotRouting}
use hakoniwa_pdu_rpc.Action.ServerEndpoint.Initialization.{
  ChannelMask, Routing, contains, all_bound, empty_routing, resize,
}
use hakoniwa_pdu_rpc.Action.ClientEndpoint.{Endpoint, PendingPacketKind}

-- What the `switch` over the kind of the channel sets: `heap_capacity`, `minimum_header`, the place
-- that `base_size` points to, with the key beside it, and the bit of the mask.
unfoldable pub heap_capacity : ActionChannelKind → SlotRouting → ℕ
heap_capacity ActionChannelKind.request slot = slot.request_heap_capacity
heap_capacity ActionChannelKind.response slot = slot.response_heap_capacity
heap_capacity ActionChannelKind.feedback slot = slot.feedback_heap_capacity

unfoldable pub minimum_header : PacketEnv → ActionChannelKind → ℕ
minimum_header v ActionChannelKind.request = v.request_header_size
minimum_header v ActionChannelKind.response = v.response_header_size
minimum_header v ActionChannelKind.feedback = v.feedback_header_size

unfoldable pub place : ActionChannelKind → PduResolvedKey → ℕ → SlotRouting → SlotRouting
place ActionChannelKind.request key base_size slot = record slot {
  request = key;
  request_packet_base_size = base_size;
}
place ActionChannelKind.response key base_size slot = record slot {
  response = key;
  response_packet_base_size = base_size;
}
place ActionChannelKind.feedback key base_size slot = record slot {
  feedback = key;
  feedback_packet_base_size = base_size;
}

unfoldable pub mark : ActionChannelKind → ChannelMask → ChannelMask
mark ActionChannelKind.request mask = record mask { request = true }
mark ActionChannelKind.response mask = record mask { response = true }
mark ActionChannelKind.feedback mask = record mask { feedback = true }

unfoldable pub bind_slot :
    PacketEnv
    → (String → Option ℕ)
    → ActionChannelKind
    → PduResolvedKey
    → String
    → SlotRouting
    → ChannelMask
    → Option (SlotRouting × ChannelMask)
unfolding heap_capacity minimum_header place mark
bind_slot v size_of kind key type slot mask = do
  base_size ← size_of type
  guard (
      not (
        ltb base_size (minimum_header v kind)
        || not (supported_packet_capacity v base_size (heap_capacity kind slot))))
  some (place kind key base_size slot, mark kind mask)

-- One turn of the loop over the channels; a slot that is out of range is refused.
unfoldable pub bind_channel :
    PacketEnv → (String → Option ℕ) → String → ActionChannelDefinition → Routing → Option Routing
unfolding bind_slot contains
bind_channel v size_of name channel routing = do
  slot ← get_elem? routing.slots channel.slot_index
  mask ← get_elem? routing.masks channel.slot_index
  guard (not (contains channel.channel_id routing.channel_ids))
  bound ←
      bind_slot v size_of channel.kind (record { robot = name; channel_id = channel.channel_id })
        channel.packet_type slot mask
  some (record {
    slots = set routing.slots channel.slot_index bound.0;
    masks = set routing.masks channel.slot_index bound.1;
    channel_ids = channel.channel_id ∷ routing.channel_ids;
  })

unfoldable pub bind_channels :
    PacketEnv
    → (String → Option ℕ)
    → String
    → List ActionChannelDefinition
    → Routing
    → Option Routing
unfolding bind_channel
bind_channels v size_of name [] routing = some routing
bind_channels v size_of name (channel ∷ rest) routing = do
  bound ← bind_channel v size_of name channel routing
  bind_channels v size_of name rest bound

-- What `initialize` does with the definition that it has read; `none` where it returns false.
unfoldable pub take_definition :
    PacketEnv → (String → Option ℕ) → ActionDefinition → Endpoint → Option Endpoint
unfolding bind_channels all_bound resize
take_definition v size_of definition s = do
  guard (definition.name == s.action_name)
  routing ← bind_channels v size_of s.action_name definition.channels (empty_routing definition)
  guard (all_bound routing.masks)
  guard (not s.initialized)
  some (record s {
    slot_routing = routing.slots;
    slot_owners = resize (length routing.slots) s.slot_owners;
    initialized = true;
  })

-- The channels for which a callback is registered, each with the slot and kind of its packets.
unfoldable pub subscriptions : List SlotRouting → List (PduResolvedKey × ℕ × PendingPacketKind)
subscriptions [] = []
subscriptions (slot ∷ rest) =
    (slot.response, slot.slot_index, PendingPacketKind.response)
    ∷ (slot.feedback, slot.slot_index, PendingPacketKind.feedback)
    ∷ subscriptions rest

unfoldable pub initialize :
    (j : JsonEnv)
    → PacketEnv
    → (String → Option ℕ)
    → j.Json
    → Endpoint
    → Option (Endpoint × List (PduResolvedKey × ℕ × PendingPacketKind))
unfolding parse_action take_definition subscriptions
initialize j v size_of action_config s = do
  definition ← parse_action j action_config
  t ← take_definition v size_of definition s
  some (t, subscriptions t.slot_routing)
