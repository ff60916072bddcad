-- ===== src/Action/ServerEndpoint/Answers.antt =====
-- What one poll of an Action server endpoint (src/action_server_endpoint_impl.cpp) makes of the packet
-- that waits longest: each outcome with its condition, which no other outcome meets.
use hakoniwa_pdu_rpc.Base.{
  ℕ, ◌≡◌, ◌≢◌, refl, inl, inr, ◌⊎◌, true, false, not, none, some, List, [], ◌∷◌, arith, eqb,
  get_elem?, set, if_split, Option-split, Bool-cases, bytes_equality, Holds, Holds-bind,
  Holds-guard, Holds-some,
}
use hakoniwa_pdu_rpc.Base.Map.{lookup, insert}
use hakoniwa_pdu_rpc.Action.Types.{is_valid_goal_id, ServerEvent, goal_request, cancel_request}
use hakoniwa_pdu_rpc.Action.Packet.{
  Send, ActionRequestHeader, PacketEnv, decode_request_header, validate_packet_capacity,
}
use hakoniwa_pdu_rpc.Action.ServerEndpoint.{
  Endpoint, PendingPacket, SlotRouting, ActionPacketBinding, goal_accepted, new_binding, owner_at,
  store_binding, request_kind_goal, request_kind_cancel, action_protocol_version,
  validate_request_header,
}
use hakoniwa_pdu_rpc.Action.ServerEndpoint.Operations.{
  poll, poll_queue, poll_packet, poll_request, poll_cancel, poll_goal, decode_request,
  admits_cancel, mark_pending, event_of, no_event,
}
use hakoniwa_pdu_rpc.Action.ServerEndpoint.Frames.{send_goal_error_reply_frame, with_sends}

-- A packet that fits the request channel of its slot and carries a header of the protocol.
pub record IsRequest (v : PacketEnv) (s : Endpoint) (packet : PendingPacket)
    (header : ActionRequestHeader) : Type 0 where
  pub routing : SlotRouting
  pub size : ℕ
  pub slot : get_elem? s.slot_routing packet.slot_index ≡ some routing
  pub fits :
      validate_packet_capacity v packet.pdu routing.request_packet_base_size
        routing.request_heap_capacity true
      ≡ some size
  pub decoded : decode_request_header v packet.pdu ≡ some header
  pub version : header.version ≡ action_protocol_version
  pub kind : (header.request_kind ≡ request_kind_goal) ⊎ (header.request_kind ≡ request_kind_cancel)
  pub goal : is_valid_goal_id header.goal_id ≡ true

-- The Goal that this binding is of may be asked to cancel: it is accepted, and owes no decision.
pub record MayCancel (packet : PendingPacket) (b : ActionPacketBinding) : Type 0 where
  pub same_slot : b.slot_index ≡ packet.slot_index
  pub state : b.state ≡ goal_accepted
  pub undecided : b.cancel_decision_pending ≡ false

-- What becomes of a packet at endpoint `u`, from which it was taken.
pub data Answers (v : PacketEnv) (u : Endpoint) (packet : PendingPacket)
    : Endpoint × ServerEvent → Type 0 where
  no_request :
      ((header : ActionRequestHeader) → ¬ IsRequest v u packet header)
      → Answers v u packet (u, no_event)
  cancel_asked :
      (header : ActionRequestHeader) (b : ActionPacketBinding)
      → IsRequest v u packet header
      → header.request_kind ≡ request_kind_cancel
      → lookup header.goal_id u.packet_bindings ≡ some b
      → MayCancel packet b
      → Answers v u packet (
        store_binding u header.goal_id (mark_pending b),
        event_of u cancel_request header.goal_id packet.pdu,
      )
  cancel_ignored :
      (header : ActionRequestHeader)
      → IsRequest v u packet header
      → header.request_kind ≡ request_kind_cancel
      → ((b : ActionPacketBinding)
          → lookup header.goal_id u.packet_bindings ≡ some b
          → ¬ MayCancel packet b)
      → Answers v u packet (u, no_event)
  goal_asked :
      (header : ActionRequestHeader)
      → IsRequest v u packet header
      → header.request_kind ≡ request_kind_goal
      → lookup header.goal_id u.packet_bindings ≡ none
      → owner_at u.slot_owners packet.slot_index ≡ none
      → Answers v u packet (
        record u {
          slot_owners = set u.slot_owners packet.slot_index (some header.goal_id);
          packet_bindings =
              insert header.goal_id
                (new_binding header.goal_id packet.slot_index)
                u.packet_bindings;
        },
        event_of u goal_request header.goal_id packet.pdu,
      )
  -- the Goal is bound, or the slot is taken; at most the sends grow
  goal_refused :
      (header : ActionRequestHeader) (l : List Send)
      → IsRequest v u packet header
      → header.request_kind ≡ request_kind_goal
      → (lookup header.goal_id u.packet_bindings ≢ none)
        ⊎ (owner_at u.slot_owners packet.slot_index ≢ none)
      → Answers v u packet (with_sends u l, no_event)

header_kind :
    (header : ActionRequestHeader)
    → validate_request_header header ≡ true
    → (header.request_kind ≡ request_kind_goal) ⊎ (header.request_kind ≡ request_kind_cancel)
unfolding validate_request_header
header_kind header ok = elim (Bool-cases (eqb header.request_kind request_kind_goal)) [
  | inl goal ↦ inl (ground (arith, goal))
  | inr other ↦ inr (ground (arith, other, ok))
]

decode_request-IsRequest :
    (v : PacketEnv) (u : Endpoint) (packet : PendingPacket)
    → Holds (IsRequest v u packet) (decode_request v u packet)
unfolding decode_request validate_request_header
decode_request-IsRequest v u packet =
    Holds-bind {A = SlotRouting} (IsRequest v u packet) (get_elem? u.slot_routing packet.slot_index)
      _
      λ routing at.
        Holds-bind (IsRequest v u packet)
          (validate_packet_capacity v packet.pdu routing.request_packet_base_size
            routing.request_heap_capacity true)
          _
          λ size fits.
            Holds-bind {A = ActionRequestHeader} (IsRequest v u packet)
              (decode_request_header v packet.pdu) _
              λ header decoded.
                Holds-guard (IsRequest v u packet) (validate_request_header header) (some header)
                  λ ok. record {
                    routing = routing;
                    size = size;
                    slot = at;
                    fits = fits;
                    decoded = decoded;
                    version = ground (arith, ok);
                    kind = header_kind header ok;
                    goal = ground (arith, ok);
                  }

request_valid :
    (header : ActionRequestHeader)
    → header.version ≡ action_protocol_version
    → (header.request_kind ≡ request_kind_goal) ⊎ (header.request_kind ≡ request_kind_cancel)
    → is_valid_goal_id header.goal_id ≡ true
    → validate_request_header header ≡ true
unfolding validate_request_header
request_valid header version (inl kind) goal = ground (arith, version, kind, goal)
request_valid header version (inr kind) goal = ground (arith, version, kind, goal)

IsRequest-decode_request :
    (v : PacketEnv) (u : Endpoint) (packet : PendingPacket) (header : ActionRequestHeader)
    → IsRequest v u packet header
    → decode_request v u packet ≡ some header
unfolding decode_request
IsRequest-decode_request v u packet header r = rw (r.slot, r.fits, r.decoded, valid) refl
  where
    valid : validate_request_header header ≡ true
    valid = request_valid header r.version r.kind r.goal

admits_cancel-MayCancel :
    (packet : PendingPacket) (b : ActionPacketBinding)
    → admits_cancel b packet.slot_index ≡ true
    → MayCancel packet b
unfolding admits_cancel
admits_cancel-MayCancel packet b ok = record {
  same_slot = ground (arith, ok);
  state = ground (arith, ok);
  undecided = ground (arith, ok);
}

MayCancel-admits_cancel :
    (packet : PendingPacket) (b : ActionPacketBinding)
    → MayCancel packet b
    → admits_cancel b packet.slot_index ≡ true
unfolding admits_cancel
MayCancel-admits_cancel packet b m = ground (arith, m.same_slot, m.state, m.undecided)

module _ (v : PacketEnv) (u : Endpoint) (packet : PendingPacket) (header : ActionRequestHeader)
    (request : IsRequest v u packet header) where
  poll_cancel-Answers :
      header.request_kind ≡ request_kind_cancel
      → Answers v u packet (poll_cancel u header.goal_id packet)
  unfolding poll_cancel
  poll_cancel-Answers is =
      Option-split (Answers v u packet) (lookup header.goal_id u.packet_bindings) _ _
        (λ e. cancel_ignored header request is λ b f m. ground (arith, e, f))
        λ b e.
          if_split (Answers v u packet) (admits_cancel b packet.slot_index) _ _
            (λ ok. cancel_asked header b request is e (admits_cancel-MayCancel packet b ok))
            λ no.
              cancel_ignored header request is
                λ d f m. ground (arith, e, f, no, MayCancel-admits_cancel packet d m)

  poll_goal-Answers :
      header.request_kind ≡ request_kind_goal
      → Answers v u packet (poll_goal v u header.goal_id packet)
  unfolding poll_goal store_binding
  poll_goal-Answers is =
      let (l, refused) = send_goal_error_reply_frame v u header.goal_id packet.slot_index in
      Option-split (Answers v u packet) (lookup header.goal_id u.packet_bindings) _ _
        (λ e.
          Option-split (Answers v u packet) (owner_at u.slot_owners packet.slot_index) _ _
            (λ f. goal_asked header request is e f)
            (λ o f.
              rw refused (goal_refused header l request is (inr (λ g. ground (arith, f, g))))))
        (λ b e. rw refused (goal_refused header l request is (inl (λ g. ground (arith, e, g)))))

poll_packet-Answers :
    (v : PacketEnv) (u : Endpoint) (packet : PendingPacket)
    → Answers v u packet (poll_packet v u packet)
unfolding poll_packet poll_request
poll_packet-Answers v u packet =
    Option-split (Answers v u packet) (decode_request v u packet) _ _
      (λ e. no_request λ header r. ground (arith, e, IsRequest-decode_request v u packet header r))
      λ header e.
        let r =
          Holds-some (IsRequest v u packet) _ header e (decode_request-IsRequest v u packet) in
        if_split (Answers v u packet) (eqb header.request_kind request_kind_cancel) _ _
          (λ is. poll_cancel-Answers v u packet header r (ground (arith, is)))
          (λ no. poll_goal-Answers v u packet header r (ground (arith, no, r.kind)))

-- The endpoint and the event after `poll` at `s`.
pub data PollEnds (v : PacketEnv) (s : Endpoint) : Endpoint × ServerEvent → Type 0 where
  uninitialized : s.initialized ≡ false → PollEnds v s (s, no_event)
  queued :
      (event : ServerEvent) (rest : List ServerEvent)
      → s.initialized ≡ true
      → s.pending_events ≡ event ∷ rest
      → PollEnds v s (record s { pending_events = rest }, event)
  nothing_waits :
      s.initialized ≡ true
      → s.pending_events ≡ []
      → s.pending_packets ≡ []
      → PollEnds v s (s, no_event)
  taken :
      {r : Endpoint × ServerEvent} (packet : PendingPacket) (rest : List PendingPacket)
      → s.initialized ≡ true
      → s.pending_events ≡ []
      → s.pending_packets ≡ packet ∷ rest
      → Answers v (record s { pending_packets = rest }) packet r
      → PollEnds v s r

poll_queue-PollEnds :
    (v : PacketEnv) (s : Endpoint) (packets : List PendingPacket)
    → s.initialized ≡ true
    → s.pending_events ≡ []
    → s.pending_packets ≡ packets
    → PollEnds v s (poll_queue v s packets)
unfolding poll_queue
poll_queue-PollEnds v s [] on p q = nothing_waits on p q
poll_queue-PollEnds v s (packet ∷ rest) on p q =
    taken packet rest on p q (poll_packet-Answers v (record s { pending_packets = rest }) packet)

-- `poll` does nothing before initialization; hands up the first event that waits; else takes the first
-- packet that waits. A packet that is no request of its slot's channel is dropped. A Cancel Request
-- is handed up, and marks the binding, exactly if it came on the slot of its Goal, which is accepted
-- and owes no decision; otherwise it is dropped. A Goal Request is handed up, and binds the Goal to the slot that
-- it came on, whose owner the Goal becomes, exactly if the Goal has no binding and the slot no owner; otherwise nothing
-- changes but the calls of the transport.
pub poll-PollEnds : (v : PacketEnv) (s : Endpoint) → PollEnds v s (poll v s)
unfolding poll
poll-PollEnds v s =
    if_split (PollEnds v s) (not s.initialized) _ _ (λ no. uninitialized (ground (arith, no)))
      λ on. events s.pending_events s.pending_packets (ground (arith, on)) refl refl
  where
    events :
        (l : List ServerEvent) (packets : List PendingPacket)
        → s.initialized ≡ true
        → s.pending_events ≡ l
        → s.pending_packets ≡ packets
        → PollEnds v s (elim l [
          | event ∷ rest ↦ (record s { pending_events = rest }, event)
          | [] ↦ poll_queue v s packets
        ])
    events (event ∷ rest) packets on p q = queued event rest on p
    events [] packets on p q = poll_queue-PollEnds v s packets on p q
