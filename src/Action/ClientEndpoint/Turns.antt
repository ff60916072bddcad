-- ===== src/Action/ClientEndpoint/Turns.antt =====
-- A poll of an Action client endpoint (src/action_client_endpoint_impl.cpp) takes the packets that it
-- should take, and looks for overdue Goals when it takes none.
use hakoniwa_pdu_rpc.Base.{
  ℕ, ◌≡◌, refl, sym, ap, ◌∙◌, subst, inl, inr, ◌⊎◌, true, false, not, ◌&&◌, some, List, [], ◌∷◌,
  arith, eqb, if_split, Option-split, Bool-cases, bytes_equality, Holds, Holds-bind, Holds-guard,
  Holds-some,
}
use hakoniwa_pdu_rpc.Base.Map.{lookup, Unique}
use hakoniwa_pdu_rpc.Action.Types.{
  GoalId, ClientEvent, ClientEventType, Decision, decision_of, TerminalStatus, status_code,
  terminal_status_of,
}
use hakoniwa_pdu_rpc.Action.Packet.{PacketEnv, ActionResponseHeader, ActionFeedbackHeader}
use hakoniwa_pdu_rpc.Action.ServerEndpoint.{
  response_kind_goal, response_kind_cancel, response_kind_result,
}
use hakoniwa_pdu_rpc.Action.ClientEndpoint.{
  Endpoint, PendingPacket, PendingPacketKind, response, feedback, ClientPacketBinding, BindingState,
  awaiting_goal_response, goal_response_timed_out, awaiting_cancel_response, no_event,
  store_binding, is_awaiting, is_awaiting_cancel,
}
use hakoniwa_pdu_rpc.Action.ClientEndpoint.Polling.{
  mark_timed_out, admits_result, admits_feedback, is_decision, event_of, is_overdue,
  decode_response, decode_feedback, dispatch_response, on_goal_response, on_result,
  on_cancel_response, poll_response, poll_feedback, poll_packet, first_overdue, poll_timeouts,
  poll_queue, poll,
}
use hakoniwa_pdu_rpc.Action.ClientEndpoint.Overdue.{
  first_overdue-IsFirst, first_overdue-none, IsFirst,
}
use hakoniwa_pdu_rpc.Action.ClientEndpoint.Answers.{
  IsResponse, IsFeedback, IsBound, MayEnd, succeeds, aborts, succeeds_first, aborts_first, cancels,
  aborts_canceling, Takes, goal_accepted, goal_rejected, cancel_accepted, cancel_rejected, ended,
  fed, decode_response-IsResponse, decode_feedback-IsFeedback, Takes-poll_packet,
}

coded :
    (state : BindingState) (status : ℕ) (t : TerminalStatus)
    → status ≡ status_code t
    → terminal_status_of (status_code t) ≡ t
    → MayEnd state t
    → MayEnd state (terminal_status_of status) × (status ≡ status_code (terminal_status_of status))
coded state status t code back may =
    let same : terminal_status_of status ≡ t = ap terminal_status_of code ∙ back in
    (subst (MayEnd state) (sym same) may, code ∙ ap status_code (sym same))

-- The test of the code, by the states and the numbers of the statuses.
admits_result-MayEnd :
    (state : BindingState) (status : ℕ)
    → admits_result state status ≡ true
    → MayEnd state (terminal_status_of status) × (status ≡ status_code (terminal_status_of status))
admits_result-MayEnd awaiting_goal_response status ok = absurd (ground (arith, ok))
admits_result-MayEnd goal_response_timed_out status ok = absurd (ground (arith, ok))
admits_result-MayEnd BindingState.accepted status ok = elim (Bool-cases (eqb status 1)) [
  | inl one ↦
      coded BindingState.accepted status TerminalStatus.succeeded (ground (arith, one)) refl
        succeeds
  | inr other ↦
      coded BindingState.accepted status TerminalStatus.aborted (ground (arith, other, ok)) refl
        aborts
]
admits_result-MayEnd awaiting_cancel_response status ok = elim (Bool-cases (eqb status 1)) [
  | inl one ↦
      coded awaiting_cancel_response status TerminalStatus.succeeded (ground (arith, one)) refl
        succeeds_first
  | inr other ↦
      coded awaiting_cancel_response status TerminalStatus.aborted (ground (arith, other, ok)) refl
        aborts_first
]
admits_result-MayEnd BindingState.canceling status ok = elim (Bool-cases (eqb status 2)) [
  | inl two ↦
      coded BindingState.canceling status TerminalStatus.canceled (ground (arith, two)) refl cancels
  | inr other ↦
      coded BindingState.canceling status TerminalStatus.aborted (ground (arith, other, ok)) refl
        aborts_canceling
]

decided :
    (status : ℕ)
    → is_decision status ≡ true
    → ((status ≡ 1) × (decision_of status ≡ Decision.accepted))
      ⊎ ((status ≡ 2) × (decision_of status ≡ Decision.rejected))
decided status ok = elim (Bool-cases (eqb status 1)) [
  | inl one ↦ inl (ground (arith, one), ground (arith, one))
  | inr other ↦ inr (ground (arith, other, ok), ground (arith, other, ok))
]

module _ (v : PacketEnv) (u : Endpoint) (packet : PendingPacket) where
  module _ (header : ActionResponseHeader) (b : ClientPacketBinding) (kind : packet.kind ≡ response)
      (is : IsResponse v u packet header) (at : IsBound u packet header.goal_id b) where
    on_goal_response-Takes :
        header.response_kind ≡ response_kind_goal
        → b.state ≡ awaiting_goal_response
        → is_decision header.status ≡ true
        → Takes v u packet (on_goal_response u header.goal_id b header.status packet.pdu)
    unfolding on_goal_response
    on_goal_response-Takes name state ok = elim (decided header.status ok) [
      | inl (one, d) ↦ rw (one) (goal_accepted header b kind is at name state one)
      | inr (two, d) ↦ rw (two) (goal_rejected header b kind is at name state two)
    ]

    on_cancel_response-Takes :
        header.response_kind ≡ response_kind_cancel
        → b.state ≡ awaiting_cancel_response
        → is_decision header.status ≡ true
        → Takes v u packet (on_cancel_response u header.goal_id b header.status packet.pdu)
    unfolding on_cancel_response
    on_cancel_response-Takes name state ok = elim (decided header.status ok) [
      | inl (one, d) ↦ rw (one) (cancel_accepted header b kind is at name state one)
      | inr (two, d) ↦ rw (two) (cancel_rejected header b kind is at name state two)
    ]

    dispatch_response-Takes : Holds (Takes v u packet) (dispatch_response u header b packet.pdu)
    unfolding dispatch_response on_result
    dispatch_response-Takes =
        if_split (Holds (Takes v u packet))
          (eqb header.response_kind response_kind_goal
            && is_awaiting b.state
            && is_decision header.status)
          _ _
          (λ a. on_goal_response-Takes (ground (arith, a)) (ground (arith, a)) (ground (arith, a)))
          λ _.
            if_split (Holds (Takes v u packet))
              (eqb header.response_kind response_kind_result && admits_result b.state header.status)
              _ _
              (λ a.
                let (may, code) = admits_result-MayEnd b.state header.status (ground (arith, a)) in
                ended header b (terminal_status_of header.status) kind is at (ground (arith, a)) may
                  code)
              λ _.
                if_split (Holds (Takes v u packet))
                  (eqb header.response_kind response_kind_cancel
                    && is_awaiting_cancel b.state
                    && is_decision header.status)
                  _ _
                  (λ a.
                    on_cancel_response-Takes (ground (arith, a)) (ground (arith, a))
                      (ground (arith, a)))
                  λ _. tt

  poll_response-Takes : packet.kind ≡ response → Holds (Takes v u packet) (poll_response v u packet)
  unfolding poll_response
  poll_response-Takes kind =
      Holds-bind {A = ActionResponseHeader} (Takes v u packet) (decode_response v u packet) _
        λ header e.
          Holds-bind {A = ClientPacketBinding} (Takes v u packet)
            (lookup header.goal_id u.packet_bindings) _
            λ b found. Holds-guard (Takes v u packet) (eqb b.slot_index packet.slot_index) _ λ same.
              dispatch_response-Takes header b kind
                (Holds-some (IsResponse v u packet) _ header e
                  (decode_response-IsResponse v u packet))
                (record { found = found; same_slot = ground (arith, same) })

  poll_feedback-Takes : packet.kind ≡ feedback → Holds (Takes v u packet) (poll_feedback v u packet)
  unfolding poll_feedback
  poll_feedback-Takes kind =
      Holds-bind {A = ActionFeedbackHeader} (Takes v u packet) (decode_feedback v u packet) _
        λ header e.
          Holds-bind {A = ClientPacketBinding} (Takes v u packet)
            (lookup header.goal_id u.packet_bindings) _
            λ b found.
              Holds-guard (Takes v u packet)
                (eqb b.slot_index packet.slot_index && admits_feedback b.state) _
                λ c.
                  Holds-guard (Takes v u packet) (eqb header.sequence_no b.next_feedback_sequence) _
                    λ n.
                      fed header b kind
                        (Holds-some (IsFeedback v u packet) _ header e
                          (decode_feedback-IsFeedback v u packet))
                        (record { found = found; same_slot = ground (arith, c) })
                        (λ s. absurd (ground (arith, c, s))) (λ s. absurd (ground (arith, c, s)))
                        (ground (arith, n))

  poll_packet-Takes : Holds (Takes v u packet) (poll_packet v u packet)
  unfolding poll_packet
  poll_packet-Takes = kinds packet.kind refl
    where
      kinds :
          (kind : PendingPacketKind)
          → packet.kind ≡ kind
          → Holds (Takes v u packet) (elim kind [
            | response ↦ poll_response v u packet
            | feedback ↦ poll_feedback v u packet
          ])
      kinds response is = poll_response-Takes is
      kinds feedback is = poll_feedback-Takes is

-- The look at the time: nothing is overdue, or the first overdue Goal is given up.
pub data LooksAtTime (now : ℕ) (u : Endpoint) : Endpoint × ClientEvent → Type 0 where
  uninitialized : u.initialized ≡ false → LooksAtTime now u (u, no_event)
  none_overdue :
      ((g : GoalId) (b : ClientPacketBinding)
        → lookup g u.packet_bindings ≡ some b
        → is_overdue now b ≡ false)
      → LooksAtTime now u (u, no_event)
  timed_out :
      (g : GoalId) (b : ClientPacketBinding)
      → u.initialized ≡ true
      → IsFirst now u.packet_bindings g b
      → LooksAtTime now u
          (store_binding u g (mark_timed_out b), event_of u ClientEventType.timeout g [])

-- The endpoint and the event after `poll` at `s`.
pub data PollTurns (v : PacketEnv) (now : ℕ) (s : Endpoint) : Endpoint × ClientEvent → Type 0 where
  nothing_waits :
      {r : Endpoint × ClientEvent}
      → s.pending_packets ≡ []
      → LooksAtTime now s r
      → PollTurns v now s r
  taken :
      {r : Endpoint × ClientEvent} (packet : PendingPacket) (rest : List PendingPacket)
      → s.pending_packets ≡ packet ∷ rest
      → Takes v (record s { pending_packets = rest }) packet r
      → PollTurns v now s r
  dropped :
      {r : Endpoint × ClientEvent} (packet : PendingPacket) (rest : List PendingPacket)
      → s.pending_packets ≡ packet ∷ rest
      → ((t : Endpoint × ClientEvent) → ¬ Takes v (record s { pending_packets = rest }) packet t)
      → LooksAtTime now (record s { pending_packets = rest }) r
      → PollTurns v now s r

poll_timeouts-LooksAtTime :
    (now : ℕ) (u : Endpoint) → Unique u.packet_bindings → LooksAtTime now u (poll_timeouts now u)
unfolding poll_timeouts
poll_timeouts-LooksAtTime now u unique =
    if_split (LooksAtTime now u) (not u.initialized) _ _ (λ no. uninitialized (ground (arith, no)))
      λ on.
        Option-split (LooksAtTime now u) (first_overdue now u.packet_bindings) _ _
          (λ e. none_overdue λ g b at. first_overdue-none now u.packet_bindings g b e at)
          λ found e.
            timed_out found.0 found.1 (ground (arith, on))
              (first_overdue-IsFirst now u.packet_bindings found.0 found.1 unique e)

poll_queue-PollTurns :
    (v : PacketEnv) (now : ℕ) (s : Endpoint) (packets : List PendingPacket)
    → s.pending_packets ≡ packets
    → Unique s.packet_bindings
    → PollTurns v now s (poll_queue v now s packets)
unfolding poll_queue
poll_queue-PollTurns v now s [] e unique = nothing_waits e (poll_timeouts-LooksAtTime now s unique)
poll_queue-PollTurns v now s (packet ∷ rest) e unique =
    let u : Endpoint = record s { pending_packets = rest } in
    Option-split (PollTurns v now s) (poll_packet v u packet) _ _
      (λ f.
        dropped packet rest e (λ t takes. Takes-poll_packet v u packet t takes f)
          (poll_timeouts-LooksAtTime now u unique))
      λ r f.
        taken packet rest e (Holds-some (Takes v u packet) _ r f (poll_packet-Takes v u packet))

-- From an endpoint with one entry for each bound Goal: `poll` takes the packet that waits longest
-- exactly if it fits the channel of its slot, names a Goal that is bound to that slot, and is a
-- response, Result or feedback for which the state and the sequence number of that Goal call; then only
-- the binding and the slot of that Goal change, as the packet says. Any other packet is dropped, and
-- then, or when no packet waits, an initialized endpoint gives up the first overdue Goal, if there is one.
pub poll-PollTurns :
    (v : PacketEnv) (now : ℕ) (s : Endpoint)
    → Unique s.packet_bindings
    → PollTurns v now s (poll v now s)
unfolding poll
poll-PollTurns v now s unique = poll_queue-PollTurns v now s s.pending_packets refl unique
