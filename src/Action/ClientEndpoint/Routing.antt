-- ===== src/Action/ClientEndpoint/Routing.antt =====
-- The two sides of an Action (src/action_client_endpoint_impl.cpp and
-- src/action_server_endpoint_impl.cpp) check a definition in different orders.
use hakoniwa_pdu_rpc.Base.{
  ℕ, ◌≡◌, refl, sym, ap, ◌∙◌, Bool, true, false, not, ◌||◌, Option, none, some, List, [], ◌∷◌,
  String, length, get_elem?, set, ◌==◌, string_equality, ◌>>=◌, ◌>>◌, guard,
}
use hakoniwa_pdu_rpc.Action.Packet.{PduResolvedKey, PacketEnv}
use hakoniwa_pdu_rpc.Action.Packet
use hakoniwa_pdu_rpc.Action.ClientPacket
use hakoniwa_pdu_rpc.Action.Configuration.{
  ActionChannelKind, ActionChannelDefinition, ActionDefinition,
}
use hakoniwa_pdu_rpc.Action.ServerEndpoint.{SlotRouting}
use hakoniwa_pdu_rpc.Action.ServerEndpoint
use hakoniwa_pdu_rpc.Action.ClientEndpoint
use hakoniwa_pdu_rpc.Action.ServerEndpoint.Initialization.{
  ChannelMask, Routing, contains, packet_base_size, all_bound, resize, empty_routing,
}
use hakoniwa_pdu_rpc.Action.ServerEndpoint.Initialization as Server
use hakoniwa_pdu_rpc.Action.ClientEndpoint.Initialization as Client
use hakoniwa_pdu_rpc.Action.ClientEndpoint.Initialization.{
  heap_capacity, minimum_header, place, mark,
}

-- Two checks in a row are one check of both.
guard_both {ℓ} :
    {A : Type ℓ} (p q : Bool) (n : ℕ) (f : ℕ → A)
    → (guard (not (p || not q)) >> some (f n))
      ≡ ((guard (not p) >> (guard q >> some n)) >>= λ b. some (f b))
guard_both true q n f = refl
guard_both false true n f = refl
guard_both false false n f = refl

checked_size {ℓ} :
    {A : Type ℓ} (m : Option ℕ) (p q : ℕ → Bool) (f : ℕ → A)
    → (m >>= λ b. guard (not (p b || not (q b))) >> some (f b))
      ≡ ((m >>= λ b. guard (not (p b)) >> (guard (q b) >> some b)) >>= λ b. some (f b))
checked_size none p q f = refl
checked_size (some b) p q f = guard_both (p b) (q b) b f

same_bind_slot :
    (v : PacketEnv) (size_of : String → Option ℕ) (kind : ActionChannelKind) (key : PduResolvedKey)
    (type : String) (slot : SlotRouting) (mask : ChannelMask)
    → Client.bind_slot v size_of kind key type slot mask
      ≡ Server.bind_slot v size_of kind key type slot mask
unfolding Client.bind_slot Server.bind_slot packet_base_size heap_capacity minimum_header place mark
    Packet.supported_packet_capacity ClientPacket.supported_packet_capacity Packet.aligned_size
    ClientPacket.aligned_size
same_bind_slot v size_of ActionChannelKind.request key type slot mask =
    checked_size (size_of type) _ _ _
same_bind_slot v size_of ActionChannelKind.response key type slot mask =
    checked_size (size_of type) _ _ _
same_bind_slot v size_of ActionChannelKind.feedback key type slot mask =
    checked_size (size_of type) _ _ _

-- Continuations that agree make a chain agree.
bind_ext {ℓ κ} :
    {A : Type ℓ} {B : Type κ} (m : Option A) (f g : A → Option B)
    → ((a : A) → f a ≡ g a)
    → (m >>= f) ≡ (m >>= g)
bind_ext none f g h = refl
bind_ext (some a) f g h = h a

abbrev rebound : ActionChannelDefinition → Routing → SlotRouting × ChannelMask → Routing
rebound c t bound = record {
  slots = set t.slots c.slot_index bound.0;
  masks = set t.masks c.slot_index bound.1;
  channel_ids = c.channel_id ∷ t.channel_ids;
}

same_bind_channel :
    (v : PacketEnv) (size_of : String → Option ℕ) (name : String) (c : ActionChannelDefinition)
    (t : Routing)
    → Client.bind_channel v size_of name c t ≡ Server.bind_channel v size_of name c t
unfolding Client.bind_channel Server.bind_channel
same_bind_channel v size_of name c t =
    bind_ext {A = SlotRouting} (get_elem? t.slots c.slot_index) _ _ λ slot.
      bind_ext {A = ChannelMask} (get_elem? t.masks c.slot_index) _ _ λ mask.
        bind_ext (guard (not (contains c.channel_id t.channel_ids))) _ _ λ fresh.
          ap (λ m. m >>= λ bound. some (rebound c t bound))
            (same_bind_slot v size_of c.kind (record { robot = name; channel_id = c.channel_id })
              c.packet_type slot mask)

same_bind_channels :
    (v : PacketEnv) (size_of : String → Option ℕ) (name : String)
    (channels : List ActionChannelDefinition) (t : Routing)
    → Client.bind_channels v size_of name channels t
      ≡ Server.bind_channels v size_of name channels t
unfolding Client.bind_channels Server.bind_channels
same_bind_channels v size_of name [] t = refl
same_bind_channels v size_of name (c ∷ channels) t =
    ap (λ m. m >>= Client.bind_channels v size_of name channels)
      (same_bind_channel v size_of name c t)
    ∙ bind_ext {A = Routing} (Server.bind_channel v size_of name c t) _ _
        λ u. same_bind_channels v size_of name channels u

-- The slots and slot owners of an endpoint that has taken a definition.
abbrev pub client_slots : Option ClientEndpoint.Endpoint → Option (List SlotRouting)
client_slots m = m >>= λ s. some s.slot_routing

abbrev pub server_slots : Option ServerEndpoint.Endpoint → Option (List SlotRouting)
server_slots m = m >>= λ s. some s.slot_routing

-- The slots that the checks at both ends of `take_definition` let through.
abbrev taken : String → String → Bool → Option Routing → Option (List SlotRouting)
taken wanted name initialized bound =
    guard (wanted == name)
    >> (bound >>= λ t. guard (all_bound t.masks) >> (guard (not initialized) >> some t.slots))

checks_commute {ℓ κ} :
    {S : Type ℓ} {R : Type κ} (b q r : Bool) (end : S) (k : S → R)
    → ((guard q >> (guard r >> some end)) >>= λ s. some (k s))
      ≡ (guard q >> (guard r >> some (k end)))
checks_commute b true true end k = refl
checks_commute b true false end k = refl
checks_commute b false r end k = refl

taken_lem {ℓ} :
    {S : Type ℓ} (b r : Bool) (bound : Option Routing) (end : Routing → S)
    (k : S → List SlotRouting)
    → ((t : Routing) → k (end t) ≡ t.slots)
    → ((guard b >> (bound >>= λ t. guard (all_bound t.masks) >> (guard (not r) >> some (end t))))
        >>= λ s. some (k s))
      ≡ (guard b >> (bound >>= λ t. guard (all_bound t.masks) >> (guard (not r) >> some t.slots)))
taken_lem false r bound end k h = refl
taken_lem true r none end k h = refl
taken_lem true r (some t) end k h =
    checks_commute true (all_bound t.masks) (not r) (end t) k
    ∙ ap (λ slots. guard (all_bound t.masks) >> (guard (not r) >> some slots)) (h t)

-- A client and a server endpoint of the same Action, either both initialized or neither, take the
-- same definitions, and give their slots the same channels, sizes and heap capacities.
pub take_definition-same_routing :
    (v : PacketEnv) (size_of : String → Option ℕ) (definition : ActionDefinition)
    (c : ClientEndpoint.Endpoint) (s : ServerEndpoint.Endpoint)
    → c.action_name ≡ s.action_name
    → c.initialized ≡ s.initialized
    → client_slots (Client.take_definition v size_of definition c)
      ≡ server_slots (Server.take_definition v size_of definition s)
unfolding Client.take_definition Server.take_definition
take_definition-same_routing v size_of definition c s names starts =
    taken_lem (definition.name == c.action_name) c.initialized
      (Client.bind_channels v size_of c.action_name definition.channels (empty_routing definition))
      (λ t. record c {
        slot_routing = t.slots;
        slot_owners = resize (length t.slots) c.slot_owners;
        initialized = true;
      })
      (λ e. e.slot_routing) (λ t. refl)
    ∙ ap (taken definition.name c.action_name c.initialized)
        (same_bind_channels v size_of c.action_name definition.channels (empty_routing definition))
    ∙ ap (λ n. taken definition.name n c.initialized (bound n)) names
    ∙ ap (λ i. taken definition.name s.action_name i (bound s.action_name)) starts
    ∙ sym (
        taken_lem (definition.name == s.action_name) s.initialized (bound s.action_name)
          (λ t. record s {
            slot_routing = t.slots;
            slot_owners = resize (length t.slots) s.slot_owners;
            initialized = true;
          })
          (λ e. e.slot_routing) (λ t. refl))
  where
    bound : String → Option Routing
    bound n = Server.bind_channels v size_of n definition.channels (empty_routing definition)
