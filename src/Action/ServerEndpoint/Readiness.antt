-- ===== src/Action/ServerEndpoint/Readiness.antt =====
-- What a successful `take_definition` of an Action server endpoint (src/action_server_endpoint_impl.cpp)
-- leaves: a slot for each that the definition asks for, all of whose channels are bound to packets
-- of a usable size, and no Goal.
use hakoniwa_pdu_rpc.Base.{
  ℕ, zero, suc, ◌≡◌, refl, ap, ◌∙◌, Bool, true, false, not, ◌&&◌, ◌||◌, Option, none, some, List,
  [], ◌∷◌, String, arith, ltb, length, get_elem?, set, replicate, ◌==◌, string_equality, Holds,
  Holds-bind, Holds-guard, Holds-some, length-set,
}
use hakoniwa_pdu_rpc.Base.Map.{lookup}
use hakoniwa_pdu_rpc.Action.Types.{GoalId}
use hakoniwa_pdu_rpc.Action.Packet.{PacketEnv, PduResolvedKey, supported_packet_capacity}
use hakoniwa_pdu_rpc.Action.Configuration.{
  ActionChannelKind, ActionChannelDefinition, ActionBufferHeap, ActionDefinition,
}
use hakoniwa_pdu_rpc.Action.ServerEndpoint.{Endpoint, SlotRouting, owner_at}
use hakoniwa_pdu_rpc.Action.ServerEndpoint.Consistency.{IsConsistent}
use hakoniwa_pdu_rpc.Action.ServerEndpoint.Initialization.{
  ChannelMask, Routing, no_mask, empty_slots, contains, packet_base_size, bind_slot, bind_channel,
  bind_channels, all_bound, empty_routing, resize, take_definition,
}

-- A base size that holds the header and can be allocated with the heap.
abbrev pub is_sized : PacketEnv → ℕ → ℕ → ℕ → Bool
is_sized v base_size header_size heap_capacity =
    not (ltb base_size header_size) && supported_packet_capacity v base_size heap_capacity

-- The sizes of the channels whose bits are set.
abbrev fits : PacketEnv → SlotRouting → ChannelMask → Bool
fits v r m =
    (not m.request
      || is_sized v r.request_packet_base_size v.request_header_size r.request_heap_capacity)
    && (not m.response
        || is_sized v r.response_packet_base_size v.response_header_size r.response_heap_capacity)
    && (not m.feedback
        || is_sized v r.feedback_packet_base_size v.feedback_header_size r.feedback_heap_capacity)

abbrev slots_fit : PacketEnv → List SlotRouting → List ChannelMask → Bool
slots_fit v [] [] = true
slots_fit v [] (m ∷ masks) = false
slots_fit v (r ∷ slots) [] = false
slots_fit v (r ∷ slots) (m ∷ masks) = fits v r m && slots_fit v slots masks

-- The sizes of all three channels of every slot.
abbrev pub are_sized : PacketEnv → List SlotRouting → Bool
are_sized v [] = true
are_sized v (r ∷ slots) =
    is_sized v r.request_packet_base_size v.request_header_size r.request_heap_capacity
    && is_sized v r.response_packet_base_size v.response_header_size r.response_heap_capacity
    && is_sized v r.feedback_packet_base_size v.feedback_header_size r.feedback_heap_capacity
    && are_sized v slots

slots_fit-get :
    (v : PacketEnv) (slots : List SlotRouting) (masks : List ChannelMask) (i : ℕ) (r : SlotRouting)
    (m : ChannelMask)
    → slots_fit v slots masks ≡ true
    → get_elem? slots i ≡ some r
    → get_elem? masks i ≡ some m
    → fits v r m ≡ true
slots_fit-get v [] [] i r m k p q = cc
slots_fit-get v [] (n ∷ masks) i r m k p q = cc
slots_fit-get v (o ∷ slots) [] i r m k p q = cc
slots_fit-get v (o ∷ slots) (n ∷ masks) zero r m k p q = ground arith
slots_fit-get v (o ∷ slots) (n ∷ masks) (suc i) r m k p q =
    slots_fit-get v slots masks i r m (ground arith) p q

slots_fit-set :
    (v : PacketEnv) (slots : List SlotRouting) (masks : List ChannelMask) (i : ℕ) (r : SlotRouting)
    (m : ChannelMask)
    → slots_fit v slots masks ≡ true
    → fits v r m ≡ true
    → slots_fit v (set slots i r) (set masks i m) ≡ true
slots_fit-set v [] [] i r m k p = refl
slots_fit-set v [] (n ∷ masks) i r m k p = cc
slots_fit-set v (o ∷ slots) [] i r m k p = cc
slots_fit-set v (o ∷ slots) (n ∷ masks) zero r m k p = ground arith
slots_fit-set v (o ∷ slots) (n ∷ masks) (suc i) r m k p =
    ground (arith, slots_fit-set v slots masks i r m)

slots_fit-empty :
    (v : PacketEnv) (heap : ActionBufferHeap) (slot n : ℕ)
    → slots_fit v (empty_slots heap slot n) (replicate n no_mask) ≡ true
unfolding empty_slots
slots_fit-empty v heap slot zero = refl
slots_fit-empty v heap slot (suc n) = slots_fit-empty v heap (suc slot) n

slots_fit-are_sized :
    (v : PacketEnv) (slots : List SlotRouting) (masks : List ChannelMask)
    → slots_fit v slots masks ≡ true
    → all_bound masks ≡ true
    → are_sized v slots ≡ true
unfolding all_bound
slots_fit-are_sized v [] [] k a = refl
slots_fit-are_sized v [] (m ∷ masks) k a = cc
slots_fit-are_sized v (r ∷ slots) [] k a = cc
slots_fit-are_sized v (r ∷ slots) (m ∷ masks) k a =
    ground (arith, slots_fit-are_sized v slots masks)

abbrev Sized : PacketEnv → ℕ → ℕ → ℕ → Type 0
Sized v header_size heap_capacity base_size = is_sized v base_size header_size heap_capacity ≡ true

packet_base_size-Sized :
    (v : PacketEnv) (size_of : String → Option ℕ) (type : String) (header_size heap : ℕ)
    → Holds (Sized v header_size heap) (packet_base_size v size_of type header_size heap)
unfolding packet_base_size
packet_base_size-Sized v size_of type header_size heap =
    Holds-bind (Sized v header_size heap) (size_of type) _ λ base _.
      Holds-guard (Sized v header_size heap) (not (ltb base header_size)) _ λ p.
        Holds-guard (Sized v header_size heap) (supported_packet_capacity v base heap) (some base)
          λ q. ground arith

abbrev Fits : PacketEnv → SlotRouting × ChannelMask → Type 0
Fits v p = fits v p.0 p.1 ≡ true

bind_slot-Fits :
    (v : PacketEnv) (size_of : String → Option ℕ) (kind : ActionChannelKind) (key : PduResolvedKey)
    (type : String) (r : SlotRouting) (m : ChannelMask)
    → fits v r m ≡ true
    → Holds (Fits v) (bind_slot v size_of kind key type r m)
unfolding bind_slot
bind_slot-Fits v size_of ActionChannelKind.request key type r m k =
    Holds-bind (Fits v)
      (packet_base_size v size_of type v.request_header_size r.request_heap_capacity) _
      λ base e.
        let s =
          Holds-some (Sized v v.request_header_size r.request_heap_capacity) _ base e
            (packet_base_size-Sized v size_of type _ _) in
        ground arith
bind_slot-Fits v size_of ActionChannelKind.response key type r m k =
    Holds-bind (Fits v)
      (packet_base_size v size_of type v.response_header_size r.response_heap_capacity) _
      λ base e.
        let s =
          Holds-some (Sized v v.response_header_size r.response_heap_capacity) _ base e
            (packet_base_size-Sized v size_of type _ _) in
        ground arith
bind_slot-Fits v size_of ActionChannelKind.feedback key type r m k =
    Holds-bind (Fits v)
      (packet_base_size v size_of type v.feedback_header_size r.feedback_heap_capacity) _
      λ base e.
        let s =
          Holds-some (Sized v v.feedback_header_size r.feedback_heap_capacity) _ base e
            (packet_base_size-Sized v size_of type _ _) in
        ground arith

-- What the loop over the channels keeps; there are `n` slots.
record Fitted (v : PacketEnv) (n : ℕ) (t : Routing) : Type 0 where
  fitted : slots_fit v t.slots t.masks ≡ true
  counted : length t.slots ≡ n

bind_channel-Fitted :
    (v : PacketEnv) (size_of : String → Option ℕ) (name : String) (c : ActionChannelDefinition)
    (n : ℕ) (t : Routing)
    → Fitted v n t
    → Holds (Fitted v n) (bind_channel v size_of name c t)
unfolding bind_channel
bind_channel-Fitted v size_of name c n t k =
    Holds-bind {A = SlotRouting} (Fitted v n) (get_elem? t.slots c.slot_index) _ λ slot at_slot.
      Holds-bind {A = ChannelMask} (Fitted v n) (get_elem? t.masks c.slot_index) _ λ mask at_mask.
        Holds-guard (Fitted v n) (not (contains c.channel_id t.channel_ids)) _ λ fresh.
          let key : PduResolvedKey = record { robot = name; channel_id = c.channel_id } in
          let bound = bind_slot v size_of c.kind key c.packet_type slot mask in
          Holds-bind {A = SlotRouting × ChannelMask} (Fitted v n) bound _ λ p e. record {
            fitted = slots_fit-set v t.slots t.masks c.slot_index p.0 p.1 k.fitted (
                Holds-some (Fits v) bound p e (
                  bind_slot-Fits v size_of c.kind key c.packet_type slot mask (
                    slots_fit-get v t.slots t.masks c.slot_index slot mask k.fitted at_slot
                      at_mask)));
            counted = length-set t.slots c.slot_index p.0 ∙ k.counted;
          }

bind_channels-Fitted :
    (v : PacketEnv) (size_of : String → Option ℕ) (name : String)
    (channels : List ActionChannelDefinition) (n : ℕ) (t : Routing)
    → Fitted v n t
    → Holds (Fitted v n) (bind_channels v size_of name channels t)
unfolding bind_channels
bind_channels-Fitted v size_of name [] n t k = k
bind_channels-Fitted v size_of name (c ∷ channels) n t k =
    Holds-bind {A = Routing} (Fitted v n) (bind_channel v size_of name c t) _ λ u e.
      bind_channels-Fitted v size_of name channels n u
        (Holds-some (Fitted v n) _ u e (bind_channel-Fitted v size_of name c n t k))

length-empty_slots : (heap : ActionBufferHeap) (slot n : ℕ) → length (empty_slots heap slot n) ≡ n
unfolding empty_slots
length-empty_slots heap slot zero = refl
length-empty_slots heap slot (suc n) = ap suc (length-empty_slots heap (suc slot) n)

length-resize : (n : ℕ) → length (resize {A = GoalId} n []) ≡ n
unfolding resize
length-resize zero = refl
length-resize (suc n) = ap suc (length-resize n)

resize-unowned : (n i : ℕ) → owner_at (resize n []) i ≡ none
unfolding resize owner_at
resize-unowned zero i = refl
resize-unowned (suc n) zero = refl
resize-unowned (suc n) (suc i) = resize-unowned n i

-- An endpoint that can serve `definition`.
pub record IsReady (v : PacketEnv) (definition : ActionDefinition) (t : Endpoint) : Type 0 where
  pub named : t.action_name ≡ definition.name
  pub initialized : t.initialized ≡ true
  pub counted : length t.slot_routing ≡ definition.slot_count
  pub sized : are_sized v t.slot_routing ≡ true
  pub consistent : IsConsistent t
  pub idle : t.packet_bindings ≡ []

unowned-IsConsistent :
    (s : Endpoint)
    → s.slot_owners ≡ resize (length s.slot_routing) []
    → s.packet_bindings ≡ []
    → IsConsistent s
unfolding lookup
unowned-IsConsistent s o b = record {
  sized = ap length o ∙ length-resize (length s.slot_routing);
  unique = rw b tt;
  bound = λ g d e. absurd (ground (arith, b, e));
  owned = λ g i e. absurd (
      ground
        (arith, ap (λ owners. owner_at owners i) o, resize-unowned (length s.slot_routing) i, e));
}

take_definition-Holds :
    (v : PacketEnv) (size_of : String → Option ℕ) (definition : ActionDefinition) (s : Endpoint)
    → s.slot_owners ≡ []
    → s.packet_bindings ≡ []
    → Holds (IsReady v definition) (take_definition v size_of definition s)
unfolding take_definition
take_definition-Holds v size_of definition s o b =
    Holds-guard Ready (definition.name == s.action_name) _ λ same.
      Holds-bind {A = Routing} Ready bound _ λ t e. Holds-guard Ready (all_bound t.masks) _ λ all.
        Holds-guard Ready (not s.initialized) _ λ fresh.
          let k : Fitted v definition.slot_count t =
            Holds-some (Fitted v definition.slot_count) bound t e fitted in
          let u : Endpoint = record s {
            slot_routing = t.slots;
            slot_owners = resize (length t.slots) s.slot_owners;
            initialized = true;
          } in
          record {
            named = ground (arith, string_equality.equals_iff definition.name s.action_name, same);
            initialized = refl;
            counted = k.counted;
            sized = slots_fit-are_sized v t.slots t.masks k.fitted all;
            consistent = unowned-IsConsistent u (ap (resize (length t.slots)) o) b;
            idle = b;
          }
  where
    Ready : Endpoint → Type 0
    Ready = IsReady v definition

    bound : Option Routing
    bound = bind_channels v size_of s.action_name definition.channels (empty_routing definition)

    fitted : Holds (Fitted v definition.slot_count) bound
    fitted =
        bind_channels-Fitted v size_of s.action_name definition.channels definition.slot_count
          (empty_routing definition)
          (record {
            fitted = slots_fit-empty v definition.buffer_heap 0 definition.slot_count;
            counted = length-empty_slots definition.buffer_heap 0 definition.slot_count;
          })

-- An endpoint without slot owners and bindings, whose `initialize` takes a definition, has
-- the definition's name, is initialized and has as many slots as the definition asks for; on every
-- slot the packets of all three channels hold their header and, with the heap, can be allocated;
-- and its tables are consistent, with no Goal bound.
pub take_definition-IsReady :
    (v : PacketEnv) (size_of : String → Option ℕ) (definition : ActionDefinition) (s t : Endpoint)
    → s.slot_owners ≡ []
    → s.packet_bindings ≡ []
    → take_definition v size_of definition s ≡ some t
    → IsReady v definition t
take_definition-IsReady v size_of definition s t o b e =
    Holds-some (IsReady v definition) _ t e (take_definition-Holds v size_of definition s o b)
