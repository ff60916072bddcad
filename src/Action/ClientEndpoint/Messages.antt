-- ===== src/Action/ClientEndpoint/Messages.antt =====
-- The message of a request and the slot of a Goal, as `ActionClientEndpointImpl`
-- (src/action_client_endpoint_impl.cpp) makes and chooses them.
use hakoniwa_pdu_rpc.Base.{
  ℕ, suc, zero, ◌≡◌, refl, true, false, Option, none, some, List, [], ◌∷◌, arith, length, get_elem?,
  take, ◌<◌, ◌≢◌, inl, inr, Option-cases, Holds, Holds-bind, bytes_equality,
}
use hakoniwa_pdu_rpc.Action.Types.{GoalId, PduData}
use hakoniwa_pdu_rpc.Action.Packet.{PacketEnv, Send}
use hakoniwa_pdu_rpc.Action.ClientPacket.{
  validate_packet_capacity, valid_packet_prefix, write_request_header,
}
use hakoniwa_pdu_rpc.Action.ServerEndpoint.{SlotRouting, action_protocol_version, owner_at}
use hakoniwa_pdu_rpc.Action.ClientEndpoint.{Endpoint, request_message}
use hakoniwa_pdu_rpc.Action.ClientEndpoint.Operations.{free_slot}
use hakoniwa_pdu_rpc.Action.ClientEndpoint.Consistency.{free_slot-free}

-- The slot has no owner, and every slot before it has one.
pub record FirstFree (owners : List (Option GoalId)) (slot : ℕ) : Type 0 where
  pub inside : slot < length owners
  pub free : owner_at owners slot ≡ none
  pub taken_before : (i : ℕ) → i < slot → owner_at owners i ≢ none

-- The message of the Goal's request: `packet` with the header written, which fits the request channel
-- of the slot, cut to its size on the wire and addressed to that channel.
pub record IsMessage (v : PacketEnv) (s : Endpoint) (slot : ℕ) (g : GoalId) (kind : ℕ)
    (packet : PduData) (m : Send) : Type 0 where
  pub routing : SlotRouting
  pub size : ℕ
  pub written : PduData
  pub at_slot : get_elem? s.slot_routing slot ≡ some routing
  pub fits :
      validate_packet_capacity v packet routing.request_packet_base_size
        routing.request_heap_capacity false
      ≡ some size
  pub has_header : valid_packet_prefix v packet v.request_header_size ≡ true
  pub header :
      v.cpp2pdu_request packet (record {
        version = action_protocol_version;
        request_kind = kind;
        reserved = 0 ∷ 0 ∷ [];
        goal_id = g;
      })
      ≡ some written
  pub key : m.key ≡ routing.request
  pub bytes : m.bytes ≡ take size written

free_slot-before :
    (owners : List (Option GoalId)) (slot : ℕ)
    → free_slot owners ≡ some slot
    → (i : ℕ) → i < slot
    → owner_at owners i ≢ none
unfolding free_slot owner_at
free_slot-before [] slot f i lt e = absurd (ground (arith, f))
free_slot-before (none ∷ owners) slot f i lt e = absurd (ground (arith, f, lt))
free_slot-before (some o ∷ owners) slot f zero lt e = absurd (ground (arith, e))
free_slot-before (some o ∷ owners) slot f (suc i) lt e = elim (Option-cases (free_slot owners)) [
  | inl none_left ↦ absurd (ground (arith, f, none_left))
  | inr (j, at) ↦ free_slot-before owners j at i (ground (arith, f, at, lt)) e
]

pub free_slot-taken :
    (owners : List (Option GoalId))
    → free_slot owners ≡ none
    → (i : ℕ) → i < length owners
    → owner_at owners i ≢ none
unfolding free_slot owner_at
free_slot-taken [] f i lt e = absurd (omega (arith, lt))
free_slot-taken (none ∷ owners) f i lt e = absurd (ground (arith, f))
free_slot-taken (some o ∷ owners) f zero lt e = absurd (ground (arith, e))
free_slot-taken (some o ∷ owners) f (suc i) lt e =
    free_slot-taken owners (ground (arith, f)) i (omega (arith, lt)) e

pub free_slot-FirstFree :
    (owners : List (Option GoalId)) (slot : ℕ)
    → free_slot owners ≡ some slot
    → FirstFree owners slot
free_slot-FirstFree owners slot f = record {
  inside = (free_slot-free owners slot f).1;
  free = (free_slot-free owners slot f).0;
  taken_before = free_slot-before owners slot f;
}

pub request_message-IsMessage :
    (v : PacketEnv) (s : Endpoint) (slot : ℕ) (g : GoalId) (kind : ℕ) (packet : PduData)
    → Holds (IsMessage v s slot g kind packet) (request_message v s.slot_routing slot g kind packet)
unfolding request_message write_request_header
request_message-IsMessage v s slot g kind packet =
    Holds-bind {A = SlotRouting} (IsMessage v s slot g kind packet) (get_elem? s.slot_routing slot)
      _
      λ routing at.
        Holds-bind (IsMessage v s slot g kind packet)
          (validate_packet_capacity v packet routing.request_packet_base_size
            routing.request_heap_capacity false)
          _
          λ size fits.
            Holds-bind (IsMessage v s slot g kind packet) (write_request_header v packet g kind) _
              λ written e. record {
                routing = routing;
                size = size;
                written = written;
                at_slot = at;
                fits = fits;
                has_header = ground (arith, e);
                header = ground (arith, e);
                key = refl;
                bytes = refl;
              }

-- Where no message is made, there is none to make.
pub no-IsMessage :
    (v : PacketEnv) (s : Endpoint) (slot : ℕ) (g : GoalId) (kind : ℕ) (packet : PduData) (m : Send)
    → request_message v s.slot_routing slot g kind packet ≡ none
    → ¬ IsMessage v s slot g kind packet m
unfolding request_message write_request_header
no-IsMessage v s slot g kind packet m e r =
    ground (arith, e, r.at_slot, r.fits, r.has_header, r.header)
