-- ===== src/Action/ServerEndpoint/Requests.antt =====
-- What `poll` makes of the packets that wait: which event it hands up, and what it records.
use hakoniwa_pdu_rpc.Base.{
  ℕ, ◌≡◌, refl, inl, inr, true, not, none, some, List, [], ◌∷◌, arith, if_split, Option-split,
  Option-cases, eqb, bytes_equality,
}
use hakoniwa_pdu_rpc.Base.Map.{lookup, insert}
use hakoniwa_pdu_rpc.Action.Types.{
  GoalId, ServerEvent, ServerEventType, goal_request, cancel_request,
}
use hakoniwa_pdu_rpc.Action.Packet.{PacketEnv}
use hakoniwa_pdu_rpc.Action.ServerEndpoint.{
  Endpoint, PendingPacket, ActionPacketBinding, new_binding, owner_at, send_goal_error_reply,
  store_binding, request_kind_cancel,
}
use hakoniwa_pdu_rpc.Action.ServerEndpoint.Operations.{
  poll, poll_queue, poll_packet, poll_request, poll_cancel, poll_goal, decode_request,
  admits_cancel, mark_pending,
}
use hakoniwa_pdu_rpc.Action.ServerEndpoint.Frames.{send_goal_error_reply_frame}

-- From endpoint `s`, with event `e`, to endpoint `t`.
pub data Polls (s : Endpoint) (e : ServerEvent) (t : Endpoint) : Type 0 where
  -- no event, and no binding changes
  quiet :
      e.type ≡ ServerEventType.none
      → t.packet_bindings ≡ s.packet_bindings
      → t.pending_events ≡ s.pending_events
      → Polls s e t
  -- an event that waited
  queued :
      (rest : List ServerEvent)
      → s.pending_events ≡ e ∷ rest
      → t.packet_bindings ≡ s.packet_bindings
      → Polls s e t
  -- a Goal that has no binding asks for a slot that has no owner
  goal_asked :
      (slot : ℕ)
      → e.type ≡ goal_request
      → lookup e.goal s.packet_bindings ≡ none
      → owner_at s.slot_owners slot ≡ none
      → t.packet_bindings ≡ insert e.goal (new_binding e.goal slot) s.packet_bindings
      → t.pending_events ≡ s.pending_events
      → Polls s e t
  -- the Client asks to cancel an accepted Goal, and no decision is owed yet
  cancel_asked :
      (b : ActionPacketBinding)
      → e.type ≡ cancel_request
      → lookup e.goal s.packet_bindings ≡ some b
      → admits_cancel b b.slot_index ≡ true
      → t.packet_bindings ≡ insert e.goal (mark_pending b) s.packet_bindings
      → t.pending_events ≡ s.pending_events
      → Polls s e t

abbrev Ends : Endpoint → Endpoint × ServerEvent → Type 0
Ends s r = Polls s r.1 r.0

admits_own_slot :
    (b : ActionPacketBinding) (slot : ℕ)
    → admits_cancel b slot ≡ true
    → admits_cancel b b.slot_index ≡ true
unfolding admits_cancel
admits_own_slot b slot h = ground arith

poll_cancel-Polls :
    (s : Endpoint) (g : GoalId) (packet : PendingPacket) → Ends s (poll_cancel s g packet)
unfolding poll_cancel store_binding
poll_cancel-Polls s g packet =
    Option-split (Ends s) (lookup g s.packet_bindings) _ _ (λ _. quiet refl refl refl)
      λ b e.
        if_split (Ends s) (admits_cancel b packet.slot_index) _ _
          (λ a. cancel_asked b refl e (admits_own_slot b packet.slot_index a) refl refl)
          (λ _. quiet refl refl refl)

error_reply-bindings :
    (v : PacketEnv) (s : Endpoint) (g : GoalId) (slot : ℕ)
    → ((send_goal_error_reply v s g slot).packet_bindings ≡ s.packet_bindings)
      × ((send_goal_error_reply v s g slot).pending_events ≡ s.pending_events)
error_reply-bindings v s g slot = rw (send_goal_error_reply_frame v s g slot).1 (refl, refl)

poll_goal-Polls :
    (v : PacketEnv) (s : Endpoint) (g : GoalId) (packet : PendingPacket)
    → Ends s (poll_goal v s g packet)
unfolding poll_goal store_binding
poll_goal-Polls v s g packet = elim (Option-cases (lookup g s.packet_bindings)) [
  | inr (b, e) ↦
      rw (e, poll_goal)
        (quiet refl (error_reply-bindings v s g packet.slot_index).0
          (error_reply-bindings v s g packet.slot_index).1)
  | inl e ↦ elim (Option-cases (owner_at s.slot_owners packet.slot_index)) [
    | inr (o, f) ↦
        rw (e, poll_goal)
          (rw (f, poll_goal)
            (quiet refl (error_reply-bindings v s g packet.slot_index).0
              (error_reply-bindings v s g packet.slot_index).1))
    | inl f ↦
        rw (e, poll_goal) (rw (f, poll_goal) (goal_asked packet.slot_index refl e f refl refl))
  ]
]

poll_packet-Polls :
    (v : PacketEnv) (s : Endpoint) (packet : PendingPacket) → Ends s (poll_packet v s packet)
unfolding poll_packet poll_request
poll_packet-Polls v s packet =
    Option-split (Ends s) (decode_request v s packet) _ _ (λ _. quiet refl refl refl)
      λ header e.
        if_split (Ends s) (eqb header.request_kind request_kind_cancel) _ _
          (λ _. poll_cancel-Polls s header.goal_id packet)
          (λ _. poll_goal-Polls v s header.goal_id packet)

-- The packets are a field that no outcome speaks of.
same_packets :
    (s t : Endpoint) (e : ServerEvent) (rest : List PendingPacket)
    → Polls (record s { pending_packets = rest }) e t
    → Polls s e t
same_packets s t e rest (quiet p q w) = quiet p q w
same_packets s t e rest (queued r p q) = queued r p q
same_packets s t e rest (goal_asked i p q r u w) = goal_asked i p q r u w
same_packets s t e rest (cancel_asked b p q r u w) = cancel_asked b p q r u w

poll_queue-Polls :
    (v : PacketEnv) (s : Endpoint) (packets : List PendingPacket) → Ends s (poll_queue v s packets)
unfolding poll_queue
poll_queue-Polls v s [] = quiet refl refl refl
poll_queue-Polls v s (packet ∷ rest) =
    same_packets s _ _ rest (poll_packet-Polls v (record s { pending_packets = rest }) packet)

-- `poll` ends in one of the four ways; whatever the packets hold, it changes at most the binding of
-- the Goal of the event.
pub poll-Polls : (v : PacketEnv) (s : Endpoint) → Polls s (poll v s).1 (poll v s).0
unfolding poll
poll-Polls v s =
    if_split (Ends s) (not s.initialized) _ _ (λ _. quiet refl refl refl)
      λ _. events s.pending_events refl
  where
    events :
        (l : List ServerEvent)
        → s.pending_events ≡ l
        → Ends s (elim l [
          | event ∷ rest ↦ (record s { pending_events = rest }, event)
          | [] ↦ poll_queue v s s.pending_packets
        ])
    events [] p = poll_queue-Polls v s s.pending_packets
    events (event ∷ rest) p = queued rest p refl
