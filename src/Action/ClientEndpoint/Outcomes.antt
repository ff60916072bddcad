-- ===== src/Action/ClientEndpoint/Outcomes.antt =====
-- What `poll` of an Action client makes of the packets that wait and of the time that passed.
use hakoniwa_pdu_rpc.Base.{
  ℕ, ◌≡◌, refl, sym, subst, inl, inr, ◌&&◌, true, not, some, List, [], ◌∷◌, arith, if_split,
  Option-split, Bool-cases, eqb, bytes_equality, Holds, Holds-bind, Holds-guard, Holds-some,
  get_elem?,
}
use hakoniwa_pdu_rpc.Base.Map.{lookup, Unique}
use hakoniwa_pdu_rpc.Action.Types.{
  GoalId, PduData, is_valid_goal_id, ClientEvent, ClientEventType, Decision, terminal_status_of,
}
use hakoniwa_pdu_rpc.Action.Packet.{PacketEnv, ActionResponseHeader, ActionFeedbackHeader}
use hakoniwa_pdu_rpc.Action.ClientPacket.{
  validate_packet_capacity, decode_response_header, decode_feedback_header,
}
use hakoniwa_pdu_rpc.Action.ServerEndpoint.{
  response_kind_goal, response_kind_cancel, response_kind_result, action_protocol_version,
}
use hakoniwa_pdu_rpc.Action.ClientEndpoint.{
  Endpoint, PendingPacket, PendingPacketKind, response, feedback, ClientPacketBinding, is_awaiting,
  is_awaiting_cancel, no_event, release_binding, store_binding,
}
use hakoniwa_pdu_rpc.Action.ClientEndpoint.Operations.{mark_accepted}
use hakoniwa_pdu_rpc.Action.ClientEndpoint.Polling.{
  mark_canceling, mark_timed_out, next_sequence, admits_result, admits_feedback, is_decision,
  decode_response, decode_feedback, dispatch_response, on_goal_response, on_result,
  on_cancel_response, poll_response, poll_feedback, poll_packet, first_overdue, poll_timeouts,
  poll_queue, poll,
}
use hakoniwa_pdu_rpc.Action.ClientEndpoint.Overdue.{first_overdue-IsFirst, IsFirst}

abbrev pub with_packets : Endpoint → List PendingPacket → Endpoint
with_packets s packets = record s { pending_packets = packets }

-- From endpoint `s`, with event `e`, to endpoint `t`, at the time `now`; the packets in `l` wait on.
pub data Reports (now : ℕ) (s : Endpoint) (l : List PendingPacket) (e : ClientEvent) (t : Endpoint)
    : Type 0 where
  quiet : e ≡ no_event → t ≡ with_packets s l → Reports now s l e t
  -- the Server has accepted the Goal
  admitted :
      (b : ClientPacketBinding)
      → e.type ≡ ClientEventType.goal_response
      → e.decision ≡ Decision.accepted
      → is_valid_goal_id e.goal ≡ true
      → lookup e.goal s.packet_bindings ≡ some b
      → is_awaiting b.state ≡ true
      → t ≡ store_binding (with_packets s l) e.goal (mark_accepted b)
      → Reports now s l e t
  -- the Server has rejected the Goal, whose slot is free again
  refused :
      (b : ClientPacketBinding)
      → e.type ≡ ClientEventType.goal_response
      → e.decision ≡ Decision.rejected
      → is_valid_goal_id e.goal ≡ true
      → lookup e.goal s.packet_bindings ≡ some b
      → is_awaiting b.state ≡ true
      → t ≡ release_binding (with_packets s l) e.goal b
      → Reports now s l e t
  -- feedback with the number that is next
  fed :
      (b : ClientPacketBinding)
      → e.type ≡ ClientEventType.feedback
      → e.feedback_sequence ≡ b.next_feedback_sequence
      → is_valid_goal_id e.goal ≡ true
      → lookup e.goal s.packet_bindings ≡ some b
      → admits_feedback b.state ≡ true
      → t ≡ store_binding (with_packets s l) e.goal (next_sequence b)
      → Reports now s l e t
  cancel_granted :
      (b : ClientPacketBinding)
      → e.type ≡ ClientEventType.cancel_response
      → e.decision ≡ Decision.accepted
      → is_valid_goal_id e.goal ≡ true
      → lookup e.goal s.packet_bindings ≡ some b
      → is_awaiting_cancel b.state ≡ true
      → t ≡ store_binding (with_packets s l) e.goal (mark_canceling b)
      → Reports now s l e t
  cancel_denied :
      (b : ClientPacketBinding)
      → e.type ≡ ClientEventType.cancel_response
      → e.decision ≡ Decision.rejected
      → is_valid_goal_id e.goal ≡ true
      → lookup e.goal s.packet_bindings ≡ some b
      → is_awaiting_cancel b.state ≡ true
      → t ≡ store_binding (with_packets s l) e.goal (mark_accepted b)
      → Reports now s l e t
  -- the Result, with a status that the state allows; the slot is free again
  ended :
      (b : ClientPacketBinding) (status : ℕ)
      → e.type ≡ ClientEventType.result
      → e.terminal_status ≡ terminal_status_of status
      → is_valid_goal_id e.goal ≡ true
      → lookup e.goal s.packet_bindings ≡ some b
      → admits_result b.state status ≡ true
      → t ≡ release_binding (with_packets s l) e.goal b
      → Reports now s l e t
  -- the response to the first overdue Goal is given up, and the Goal keeps its slot
  timed_out :
      (b : ClientPacketBinding)
      → e.type ≡ ClientEventType.timeout
      → IsFirst now s.packet_bindings e.goal b
      → t ≡ store_binding (with_packets s l) e.goal (mark_timed_out b)
      → Reports now s l e t

abbrev Ends : ℕ → Endpoint → List PendingPacket → Endpoint × ClientEvent → Type 0
Ends now s l r = Reports now s l r.1 r.0

abbrev HasGoal : ActionResponseHeader → Type 0
HasGoal header = is_valid_goal_id header.goal_id ≡ true

abbrev NamesGoal : ActionFeedbackHeader → Type 0
NamesGoal header = is_valid_goal_id header.goal_id ≡ true

decode_response-HasGoal :
    (v : PacketEnv) (s : Endpoint) (packet : PendingPacket)
    → Holds HasGoal (decode_response v s packet)
unfolding decode_response
decode_response-HasGoal v s packet =
    Holds-bind HasGoal (get_elem? s.slot_routing packet.slot_index) _ λ routing _.
      Holds-bind HasGoal
        (validate_packet_capacity v packet.pdu routing.response_packet_base_size
          routing.response_heap_capacity true)
        _
        λ size _. Holds-bind HasGoal (decode_response_header v packet.pdu) _ λ header _.
          Holds-guard HasGoal
            (eqb header.version action_protocol_version && is_valid_goal_id header.goal_id)
            (some header) λ h. ground arith

decode_feedback-NamesGoal :
    (v : PacketEnv) (s : Endpoint) (packet : PendingPacket)
    → Holds NamesGoal (decode_feedback v s packet)
unfolding decode_feedback
decode_feedback-NamesGoal v s packet =
    Holds-bind NamesGoal (get_elem? s.slot_routing packet.slot_index) _ λ routing _.
      Holds-bind NamesGoal
        (validate_packet_capacity v packet.pdu routing.feedback_packet_base_size
          routing.feedback_heap_capacity true)
        _
        λ size _. Holds-bind NamesGoal (decode_feedback_header v packet.pdu) _ λ header _.
          Holds-guard NamesGoal
            (eqb header.version action_protocol_version && is_valid_goal_id header.goal_id)
            (some header) λ h. ground arith

module _ (now : ℕ) (s : Endpoint) (l : List PendingPacket) (g : GoalId) (b : ClientPacketBinding)
    (valid : is_valid_goal_id g ≡ true) (at : lookup g s.packet_bindings ≡ some b) where
  on_goal_response-Reports :
      (status : ℕ) (pdu : PduData)
      → is_awaiting b.state ≡ true
      → is_decision status ≡ true
      → Ends now s l (on_goal_response (with_packets s l) g b status pdu)
  unfolding on_goal_response
  on_goal_response-Reports status pdu w d = elim (Bool-cases (eqb status 1)) [
    | inl taken ↦ admitted b refl (ground arith) valid at w (ground arith)
    | inr other ↦ refused b refl (ground arith) valid at w (ground arith)
  ]

  on_cancel_response-Reports :
      (status : ℕ) (pdu : PduData)
      → is_awaiting_cancel b.state ≡ true
      → is_decision status ≡ true
      → Ends now s l (on_cancel_response (with_packets s l) g b status pdu)
  unfolding on_cancel_response
  on_cancel_response-Reports status pdu w d = elim (Bool-cases (eqb status 1)) [
    | inl taken ↦ cancel_granted b refl (ground arith) valid at w (ground arith)
    | inr other ↦ cancel_denied b refl (ground arith) valid at w (ground arith)
  ]

  on_result-Reports :
      (status : ℕ) (pdu : PduData)
      → admits_result b.state status ≡ true
      → Ends now s l (on_result (with_packets s l) g b status pdu)
  unfolding on_result
  on_result-Reports status pdu w = ended b status refl refl valid at w refl

dispatch_response-Reports :
    (now : ℕ) (s : Endpoint) (l : List PendingPacket) (header : ActionResponseHeader)
    (b : ClientPacketBinding) (pdu : PduData)
    → is_valid_goal_id header.goal_id ≡ true
    → lookup header.goal_id s.packet_bindings ≡ some b
    → Holds (Ends now s l) (dispatch_response (with_packets s l) header b pdu)
unfolding dispatch_response
dispatch_response-Reports now s l header b pdu valid at =
    if_split (Holds (Ends now s l))
      (eqb header.response_kind response_kind_goal
        && is_awaiting b.state
        && is_decision header.status)
      _ _
      (λ a.
        on_goal_response-Reports now s l header.goal_id b valid at header.status pdu (ground arith)
          (ground arith))
      λ _.
        if_split (Holds (Ends now s l))
          (eqb header.response_kind response_kind_result && admits_result b.state header.status) _ _
          (λ a.
            on_result-Reports now s l header.goal_id b valid at header.status pdu (ground arith))
          λ _.
            if_split (Holds (Ends now s l))
              (eqb header.response_kind response_kind_cancel
                && is_awaiting_cancel b.state
                && is_decision header.status)
              _ _
              (λ a.
                on_cancel_response-Reports now s l header.goal_id b valid at header.status pdu
                  (ground arith) (ground arith))
              λ _. tt

poll_response-Reports :
    (v : PacketEnv) (now : ℕ) (s : Endpoint) (l : List PendingPacket) (packet : PendingPacket)
    → Holds (Ends now s l) (poll_response v (with_packets s l) packet)
unfolding poll_response
poll_response-Reports v now s l packet =
    Holds-bind (Ends now s l) (decode_response v (with_packets s l) packet) _ λ header e.
      Holds-bind (Ends now s l) (lookup header.goal_id s.packet_bindings) _ λ b at.
        Holds-guard (Ends now s l) (eqb b.slot_index packet.slot_index) _ λ _.
          dispatch_response-Reports now s l header b packet.pdu
            (Holds-some HasGoal _ header e (decode_response-HasGoal v (with_packets s l) packet)) at

poll_feedback-Reports :
    (v : PacketEnv) (now : ℕ) (s : Endpoint) (l : List PendingPacket) (packet : PendingPacket)
    → Holds (Ends now s l) (poll_feedback v (with_packets s l) packet)
unfolding poll_feedback
poll_feedback-Reports v now s l packet =
    Holds-bind (Ends now s l) (decode_feedback v (with_packets s l) packet) _ λ header e.
      Holds-bind (Ends now s l) (lookup header.goal_id s.packet_bindings) _ λ b at.
        Holds-guard (Ends now s l) (eqb b.slot_index packet.slot_index && admits_feedback b.state) _
          λ c. Holds-guard (Ends now s l) (eqb header.sequence_no b.next_feedback_sequence) _ λ n.
            fed b refl (ground arith)
              (Holds-some NamesGoal _ header e
                (decode_feedback-NamesGoal v (with_packets s l) packet))
              at (ground arith) refl

poll_packet-Reports :
    (v : PacketEnv) (now : ℕ) (s : Endpoint) (l : List PendingPacket) (packet : PendingPacket)
    → Holds (Ends now s l) (poll_packet v (with_packets s l) packet)
unfolding poll_packet
poll_packet-Reports v now s l packet = kinds packet.kind
  where
    kinds :
        (kind : PendingPacketKind)
        → Holds (Ends now s l) (elim kind [
          | response ↦ poll_response v (with_packets s l) packet
          | feedback ↦ poll_feedback v (with_packets s l) packet
        ])
    kinds response = poll_response-Reports v now s l packet
    kinds feedback = poll_feedback-Reports v now s l packet

poll_timeouts-Reports :
    (now : ℕ) (s : Endpoint) (l : List PendingPacket)
    → Unique s.packet_bindings
    → Ends now s l (poll_timeouts now (with_packets s l))
unfolding poll_timeouts
poll_timeouts-Reports now s l u =
    if_split (Ends now s l) (not s.initialized) _ _ (λ _. quiet refl refl)
      λ _.
        Option-split (Ends now s l) (first_overdue now s.packet_bindings) _ _ (λ _. quiet refl refl)
          λ found e.
            timed_out found.1 refl (first_overdue-IsFirst now s.packet_bindings found.0 found.1 u e)
              refl

-- What waits after one poll.
abbrev pub rest_of : List PendingPacket → List PendingPacket
rest_of [] = []
rest_of (packet ∷ packets) = packets

poll_queue-Reports :
    (v : PacketEnv) (now : ℕ) (s : Endpoint) (packets : List PendingPacket)
    → s.pending_packets ≡ packets
    → Unique s.packet_bindings
    → Ends now s (rest_of packets) (poll_queue v now s packets)
unfolding poll_queue
poll_queue-Reports v now s [] e u =
    subst (λ l. Ends now s [] (poll_timeouts now (with_packets s l))) (sym e)
      (poll_timeouts-Reports now s [] u)
poll_queue-Reports v now s (packet ∷ packets) e u =
    Option-split (Ends now s packets) (poll_packet v (with_packets s packets) packet) _ _
      (λ _. poll_timeouts-Reports now s packets u)
      λ r f. Holds-some (Ends now s packets) _ r f (poll_packet-Reports v now s packets packet)

-- From an endpoint with one entry for each bound Goal, `poll` ends in one of the eight ways: no event
-- and no change of the tables, or an event that moves only the binding and the slot of its Goal.
pub poll-Reports :
    (v : PacketEnv) (now : ℕ) (s : Endpoint)
    → Unique s.packet_bindings
    → Reports now s (rest_of s.pending_packets) (poll v now s).1 (poll v now s).0
unfolding poll
poll-Reports v now s u = poll_queue-Reports v now s s.pending_packets refl u
