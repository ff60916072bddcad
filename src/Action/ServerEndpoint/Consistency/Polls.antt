-- ===== src/Action/ServerEndpoint/Consistency/Polls.antt =====
-- Polling and resetting an Action server endpoint keeps the assignment of Goals to slots.
use hakoniwa_pdu_rpc.Base.{
  ℕ, ◌≡◌, ◌<◌, refl, inl, inr, not, some, List, [], ◌∷◌, arith, length, get_elem?, bytes_equality,
  if_split, Option-split, List-split, Option-cases, eqb, get_elem?-lt-length,
}
use hakoniwa_pdu_rpc.Base.Map.{lookup}
use hakoniwa_pdu_rpc.Action.Types.{GoalId, ServerEvent}
use hakoniwa_pdu_rpc.Action.Packet.{PacketEnv, ActionRequestHeader}
use hakoniwa_pdu_rpc.Action.Slots.{claim-Assigns, reset-Assigns}
use hakoniwa_pdu_rpc.Action.ServerEndpoint.{
  new_binding, Endpoint, PendingPacket, owner_at, store_binding, send_goal_error_reply,
  request_kind_cancel,
}
use hakoniwa_pdu_rpc.Action.ServerEndpoint.Operations.{
  poll, poll_queue, poll_packet, poll_request, poll_cancel, poll_goal, decode_request,
  admits_cancel, mark_pending,
}
use hakoniwa_pdu_rpc.Action.ServerEndpoint.Results.{reset_contexts}
use hakoniwa_pdu_rpc.Action.ServerEndpoint.Frames.{send_goal_error_reply_frame}
use hakoniwa_pdu_rpc.Action.ServerEndpoint.Consistency.{IsConsistent, store-IsConsistent}
use hakoniwa_pdu_rpc.Action.ServerEndpoint.Consistency.Calls.{Keeps}

poll_cancel_keeps :
    (s : Endpoint) (g : GoalId) (packet : PendingPacket)
    → IsConsistent s
    → IsConsistent (poll_cancel s g packet).0
unfolding poll_cancel
poll_cancel_keeps s g packet c =
    Option-split (Keeps {A = ServerEvent}) (lookup g s.packet_bindings) _ _ (λ _. c)
      λ b e.
        if_split (Keeps {A = ServerEvent}) (admits_cancel b packet.slot_index) _ _
          (λ _. store-IsConsistent s g b (mark_pending b) c e refl refl) (λ _. c)

error_reply_keeps :
    (v : PacketEnv) (s : Endpoint) (g : GoalId) (slot : ℕ)
    → IsConsistent s
    → IsConsistent (send_goal_error_reply v s g slot)
error_reply_keeps v s g slot c = rw (send_goal_error_reply_frame v s g slot).1 c

-- The slot of the packet is one of the endpoint's.
poll_goal_keeps :
    (v : PacketEnv) (s : Endpoint) (g : GoalId) (packet : PendingPacket)
    → packet.slot_index < length s.slot_routing
    → IsConsistent s
    → IsConsistent (poll_goal v s g packet).0
unfolding poll_goal store_binding new_binding
poll_goal_keeps v s g packet lt c = elim (Option-cases (lookup g s.packet_bindings)) [
  | inr (b, e) ↦ rw (e, poll_goal) (error_reply_keeps v s g packet.slot_index c)
  | inl e ↦ elim (Option-cases (owner_at s.slot_owners packet.slot_index)) [
    | inr (o, f) ↦
        rw (e, poll_goal) (rw (f, poll_goal) (error_reply_keeps v s g packet.slot_index c))
    | inl f ↦
        rw (e, poll_goal)
          (rw (f, poll_goal)
            (claim-Assigns c g (new_binding g packet.slot_index) packet.slot_index refl refl lt e
              f))
  ]
]

decode_request-lt-length :
    (v : PacketEnv) (s : Endpoint) (packet : PendingPacket) (header : ActionRequestHeader)
    → decode_request v s packet ≡ some header
    → packet.slot_index < length s.slot_routing
unfolding decode_request
decode_request-lt-length v s packet header h =
    elim (Option-cases (get_elem? s.slot_routing packet.slot_index)) [
      | inl e ↦ absurd (ground (arith, e))
      | inr (r, e) ↦ get_elem?-lt-length s.slot_routing packet.slot_index r e
    ]

poll_packet_keeps :
    (v : PacketEnv) (s : Endpoint) (packet : PendingPacket)
    → IsConsistent s
    → IsConsistent (poll_packet v s packet).0
unfolding poll_packet poll_request
poll_packet_keeps v s packet c =
    Option-split (Keeps {A = ServerEvent}) (decode_request v s packet) _ _ (λ _. c)
      λ header e.
        if_split (Keeps {A = ServerEvent}) (eqb header.request_kind request_kind_cancel) _ _
          (λ _. poll_cancel_keeps s header.goal_id packet c)
          (λ _.
            poll_goal_keeps v s header.goal_id packet (decode_request-lt-length v s packet header e)
              c)

poll_queue_keeps :
    (v : PacketEnv) (s : Endpoint) (packets : List PendingPacket)
    → IsConsistent s
    → IsConsistent (poll_queue v s packets).0
unfolding poll_queue
poll_queue_keeps v s [] c = c
poll_queue_keeps v s (packet ∷ rest) c =
    poll_packet_keeps v (record s { pending_packets = rest }) packet c

pub poll_keeps : (v : PacketEnv) (s : Endpoint) → IsConsistent s → IsConsistent (poll v s).0
unfolding poll
poll_keeps v s c =
    if_split (Keeps {A = ServerEvent}) (not s.initialized) _ _ (λ _. c)
      λ _.
        List-split (Keeps {A = ServerEvent}) s.pending_events _ _
          (poll_queue_keeps v s s.pending_packets c) (λ _ _. c)

pub reset_keeps : (s : Endpoint) → IsConsistent s → IsConsistent (reset_contexts s)
unfolding reset_contexts
reset_keeps s c = reset-Assigns c
