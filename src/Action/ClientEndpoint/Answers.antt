-- ===== src/Action/ClientEndpoint/Answers.antt =====
-- What one poll of an Action client endpoint (src/action_client_endpoint_impl.cpp) makes of the packet
-- that waits longest: which packets are taken, and that all others are dropped.
use hakoniwa_pdu_rpc.Base.{
  ℕ, ◌≡◌, ◌≢◌, refl, sym, subst, true, ◌&&◌, none, some, arith, eqb, get_elem?, bytes_equality,
  Holds, Holds-bind, Holds-guard,
}
use hakoniwa_pdu_rpc.Base.Map.{lookup}
use hakoniwa_pdu_rpc.Action.Types.{
  GoalId, is_valid_goal_id, ClientEvent, ClientEventType, Decision, decision_code, TerminalStatus,
  status_code,
}
use hakoniwa_pdu_rpc.Action.Packet.{PacketEnv, ActionResponseHeader, ActionFeedbackHeader}
use hakoniwa_pdu_rpc.Action.ClientPacket.{
  validate_packet_capacity, decode_response_header, decode_feedback_header,
}
use hakoniwa_pdu_rpc.Action.ServerEndpoint.{
  SlotRouting, response_kind_goal, response_kind_cancel, response_kind_result,
  action_protocol_version,
}
use hakoniwa_pdu_rpc.Action.ClientEndpoint.{
  Endpoint, PendingPacket, response, feedback, ClientPacketBinding, BindingState,
  awaiting_goal_response, goal_response_timed_out, awaiting_cancel_response, release_binding,
  store_binding,
}
use hakoniwa_pdu_rpc.Action.ClientEndpoint.Operations.{mark_accepted}
use hakoniwa_pdu_rpc.Action.ClientEndpoint.Polling.{
  mark_canceling, next_sequence, admits_result, event_of, decode_response, decode_feedback,
  dispatch_response, poll_response, poll_feedback, poll_packet,
}

-- A packet that fits the response channel of its slot, with a header of the protocol.
pub record IsResponse (v : PacketEnv) (s : Endpoint) (packet : PendingPacket)
    (header : ActionResponseHeader) : Type 0 where
  pub routing : SlotRouting
  pub size : ℕ
  pub slot : get_elem? s.slot_routing packet.slot_index ≡ some routing
  pub fits :
      validate_packet_capacity v packet.pdu routing.response_packet_base_size
        routing.response_heap_capacity true
      ≡ some size
  pub decoded : decode_response_header v packet.pdu ≡ some header
  pub version : header.version ≡ action_protocol_version
  pub goal : is_valid_goal_id header.goal_id ≡ true

-- A packet that fits the feedback channel of its slot, with a header of the protocol.
pub record IsFeedback (v : PacketEnv) (s : Endpoint) (packet : PendingPacket)
    (header : ActionFeedbackHeader) : Type 0 where
  pub routing : SlotRouting
  pub size : ℕ
  pub slot : get_elem? s.slot_routing packet.slot_index ≡ some routing
  pub fits :
      validate_packet_capacity v packet.pdu routing.feedback_packet_base_size
        routing.feedback_heap_capacity true
      ≡ some size
  pub decoded : decode_feedback_header v packet.pdu ≡ some header
  pub version : header.version ≡ action_protocol_version
  pub goal : is_valid_goal_id header.goal_id ≡ true

-- The Goal is bound to the slot on which the packet came.
pub record IsBound (s : Endpoint) (packet : PendingPacket) (g : GoalId) (b : ClientPacketBinding)
    : Type 0 where
  pub found : lookup g s.packet_bindings ≡ some b
  pub same_slot : b.slot_index ≡ packet.slot_index

-- How a Goal may end in each state.
pub data MayEnd : BindingState → TerminalStatus → Type 0 where
  succeeds : MayEnd BindingState.accepted TerminalStatus.succeeded
  aborts : MayEnd BindingState.accepted TerminalStatus.aborted
  succeeds_first : MayEnd awaiting_cancel_response TerminalStatus.succeeded
  aborts_first : MayEnd awaiting_cancel_response TerminalStatus.aborted
  cancels : MayEnd BindingState.canceling TerminalStatus.canceled
  aborts_canceling : MayEnd BindingState.canceling TerminalStatus.aborted

-- What is taken from endpoint `u`, with the new endpoint and the event.
pub data Takes (v : PacketEnv) (u : Endpoint) (packet : PendingPacket)
    : Endpoint × ClientEvent → Type 0 where
  goal_accepted :
      (header : ActionResponseHeader) (b : ClientPacketBinding)
      → packet.kind ≡ response
      → IsResponse v u packet header
      → IsBound u packet header.goal_id b
      → header.response_kind ≡ response_kind_goal
      → b.state ≡ awaiting_goal_response
      → header.status ≡ decision_code Decision.accepted
      → Takes v u packet (
        store_binding u header.goal_id (mark_accepted b),
        record (event_of u ClientEventType.goal_response header.goal_id packet.pdu) {
          decision = Decision.accepted;
        },
      )
  goal_rejected :
      (header : ActionResponseHeader) (b : ClientPacketBinding)
      → packet.kind ≡ response
      → IsResponse v u packet header
      → IsBound u packet header.goal_id b
      → header.response_kind ≡ response_kind_goal
      → b.state ≡ awaiting_goal_response
      → header.status ≡ decision_code Decision.rejected
      → Takes v u packet (
        release_binding u header.goal_id b,
        record (event_of u ClientEventType.goal_response header.goal_id packet.pdu) {
          decision = Decision.rejected;
        },
      )
  cancel_accepted :
      (header : ActionResponseHeader) (b : ClientPacketBinding)
      → packet.kind ≡ response
      → IsResponse v u packet header
      → IsBound u packet header.goal_id b
      → header.response_kind ≡ response_kind_cancel
      → b.state ≡ awaiting_cancel_response
      → header.status ≡ decision_code Decision.accepted
      → Takes v u packet (
        store_binding u header.goal_id (mark_canceling b),
        record (event_of u ClientEventType.cancel_response header.goal_id packet.pdu) {
          decision = Decision.accepted;
        },
      )
  cancel_rejected :
      (header : ActionResponseHeader) (b : ClientPacketBinding)
      → packet.kind ≡ response
      → IsResponse v u packet header
      → IsBound u packet header.goal_id b
      → header.response_kind ≡ response_kind_cancel
      → b.state ≡ awaiting_cancel_response
      → header.status ≡ decision_code Decision.rejected
      → Takes v u packet (
        store_binding u header.goal_id (mark_accepted b),
        record (event_of u ClientEventType.cancel_response header.goal_id packet.pdu) {
          decision = Decision.rejected;
        },
      )
  ended :
      (header : ActionResponseHeader) (b : ClientPacketBinding) (status : TerminalStatus)
      → packet.kind ≡ response
      → IsResponse v u packet header
      → IsBound u packet header.goal_id b
      → header.response_kind ≡ response_kind_result
      → MayEnd b.state status
      → header.status ≡ status_code status
      → Takes v u packet (
        release_binding u header.goal_id b,
        record (event_of u ClientEventType.result header.goal_id packet.pdu) {
          terminal_status = status;
        },
      )
  fed :
      (header : ActionFeedbackHeader) (b : ClientPacketBinding)
      → packet.kind ≡ feedback
      → IsFeedback v u packet header
      → IsBound u packet header.goal_id b
      → b.state ≢ awaiting_goal_response
      → b.state ≢ goal_response_timed_out
      → header.sequence_no ≡ b.next_feedback_sequence
      → Takes v u packet (
        store_binding u header.goal_id (next_sequence b),
        record (event_of u ClientEventType.feedback header.goal_id packet.pdu) {
          feedback_sequence = header.sequence_no;
        },
      )

pub decode_response-IsResponse :
    (v : PacketEnv) (u : Endpoint) (packet : PendingPacket)
    → Holds (IsResponse v u packet) (decode_response v u packet)
unfolding decode_response
decode_response-IsResponse v u packet =
    Holds-bind {A = SlotRouting} (IsResponse v u packet)
      (get_elem? u.slot_routing packet.slot_index) _
      λ routing at.
        Holds-bind (IsResponse v u packet)
          (validate_packet_capacity v packet.pdu routing.response_packet_base_size
            routing.response_heap_capacity true)
          _
          λ size fits.
            Holds-bind {A = ActionResponseHeader} (IsResponse v u packet)
              (decode_response_header v packet.pdu) _
              λ header decoded.
                Holds-guard (IsResponse v u packet)
                  (eqb header.version action_protocol_version && is_valid_goal_id header.goal_id)
                  (some header)
                  λ ok. record {
                    routing = routing;
                    size = size;
                    slot = at;
                    fits = fits;
                    decoded = decoded;
                    version = ground (arith, ok);
                    goal = ground (arith, ok);
                  }

pub decode_feedback-IsFeedback :
    (v : PacketEnv) (u : Endpoint) (packet : PendingPacket)
    → Holds (IsFeedback v u packet) (decode_feedback v u packet)
unfolding decode_feedback
decode_feedback-IsFeedback v u packet =
    Holds-bind {A = SlotRouting} (IsFeedback v u packet)
      (get_elem? u.slot_routing packet.slot_index) _
      λ routing at.
        Holds-bind (IsFeedback v u packet)
          (validate_packet_capacity v packet.pdu routing.feedback_packet_base_size
            routing.feedback_heap_capacity true)
          _
          λ size fits.
            Holds-bind {A = ActionFeedbackHeader} (IsFeedback v u packet)
              (decode_feedback_header v packet.pdu) _
              λ header decoded.
                Holds-guard (IsFeedback v u packet)
                  (eqb header.version action_protocol_version && is_valid_goal_id header.goal_id)
                  (some header)
                  λ ok. record {
                    routing = routing;
                    size = size;
                    slot = at;
                    fits = fits;
                    decoded = decoded;
                    version = ground (arith, ok);
                    goal = ground (arith, ok);
                  }

IsResponse-decode_response :
    (v : PacketEnv) (u : Endpoint) (packet : PendingPacket) (header : ActionResponseHeader)
    → IsResponse v u packet header
    → decode_response v u packet ≡ some header
unfolding decode_response
IsResponse-decode_response v u packet header r =
    ground (arith, r.slot, r.fits, r.decoded, r.version, r.goal)

IsFeedback-decode_feedback :
    (v : PacketEnv) (u : Endpoint) (packet : PendingPacket) (header : ActionFeedbackHeader)
    → IsFeedback v u packet header
    → decode_feedback v u packet ≡ some header
unfolding decode_feedback
IsFeedback-decode_feedback v u packet header r =
    ground (arith, r.slot, r.fits, r.decoded, r.version, r.goal)

MayEnd-admits_result :
    (state : BindingState) (status : TerminalStatus)
    → MayEnd state status
    → admits_result state (status_code status) ≡ true
MayEnd-admits_result _ _ succeeds = refl
MayEnd-admits_result _ _ aborts = refl
MayEnd-admits_result _ _ succeeds_first = refl
MayEnd-admits_result _ _ aborts_first = refl
MayEnd-admits_result _ _ cancels = refl
MayEnd-admits_result _ _ aborts_canceling = refl

-- A packet that is to be taken is taken.
pub Takes-poll_packet :
    (v : PacketEnv) (u : Endpoint) (packet : PendingPacket) (r : Endpoint × ClientEvent)
    → Takes v u packet r
    → poll_packet v u packet ≢ none
unfolding poll_packet poll_response poll_feedback dispatch_response
Takes-poll_packet v u packet _ (goal_accepted header b kind is at name state status) e = ground (
  arith,
  kind,
  IsResponse-decode_response v u packet header is,
  at.found,
  at.same_slot,
  name,
  state,
  status,
  e,
)
Takes-poll_packet v u packet _ (goal_rejected header b kind is at name state status) e = ground (
  arith,
  kind,
  IsResponse-decode_response v u packet header is,
  at.found,
  at.same_slot,
  name,
  state,
  status,
  e,
)
Takes-poll_packet v u packet _ (cancel_accepted header b kind is at name state status) e = ground (
  arith,
  kind,
  IsResponse-decode_response v u packet header is,
  at.found,
  at.same_slot,
  name,
  state,
  status,
  e,
)
Takes-poll_packet v u packet _ (cancel_rejected header b kind is at name state status) e = ground (
  arith,
  kind,
  IsResponse-decode_response v u packet header is,
  at.found,
  at.same_slot,
  name,
  state,
  status,
  e,
)
Takes-poll_packet v u packet _ (ended header b t kind is at name may status) e = ground (
  arith,
  kind,
  IsResponse-decode_response v u packet header is,
  at.found,
  at.same_slot,
  name,
  subst (λ n. admits_result b.state n ≡ true) (sym status) (MayEnd-admits_result b.state t may),
  e,
)
Takes-poll_packet v u packet _ (fed header b kind is at not_awaiting in_time number) e = ground (
  arith,
  kind,
  IsFeedback-decode_feedback v u packet header is,
  at.found,
  at.same_slot,
  not_awaiting,
  in_time,
  number,
  e,
)
