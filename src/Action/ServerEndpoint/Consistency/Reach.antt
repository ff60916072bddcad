-- ===== src/Action/ServerEndpoint/Consistency/Reach.antt =====
-- The assignment of Goals to slots over every history of calls.
use hakoniwa_pdu_rpc.Base.{ℕ, ◌≡◌, some, List, [], ◌∷◌, arith, bytes_equality}
use hakoniwa_pdu_rpc.Base.Map.{lookup}
use hakoniwa_pdu_rpc.Action.Types.{GoalId, PduData, TerminalStatus}
use hakoniwa_pdu_rpc.Action.Packet.{PacketEnv}
use hakoniwa_pdu_rpc.Action.ServerEndpoint.{Endpoint, ActionPacketBinding}
use hakoniwa_pdu_rpc.Action.ServerEndpoint.Operations.{
  poll, receive, accept_goal, reject_goal, accept_cancel, reject_cancel, accept_cancel_locally,
}
use hakoniwa_pdu_rpc.Action.ServerEndpoint.Results.{
  send_feedback, complete, complete_locally, discard_pending_goal, clear_pending_events,
  reset_contexts,
}
use hakoniwa_pdu_rpc.Action.ServerEndpoint.Consistency.{IsConsistent}
use hakoniwa_pdu_rpc.Action.ServerEndpoint.Consistency.Calls.{
  accept_goal_keeps, reject_goal_keeps, accept_cancel_keeps, reject_cancel_keeps,
  accept_cancel_locally_keeps, discard_keeps, send_feedback_keeps, complete_keeps,
  complete_locally_keeps,
}
use hakoniwa_pdu_rpc.Action.ServerEndpoint.Consistency.Polls.{poll_keeps, reset_keeps}

-- Whoever calls the endpoint: the transport by `receives`, the upper layer by the rest.
pub data Call : Type 0 where
  receives : ℕ → PduData → Call
  polls : Call
  accepts_goal rejects_goal accepts_cancel rejects_cancel accepts_cancel_locally discards :
      GoalId → Call
  sends_feedback : GoalId → PduData → Call
  completes completes_locally : GoalId → TerminalStatus → PduData → Call
  clears resets : Call

unfoldable pub step : PacketEnv → Endpoint → Call → Endpoint
step v s (receives slot packet) = receive s slot packet
step v s polls = (poll v s).0
step v s (accepts_goal g) = (accept_goal v s g).0
step v s (rejects_goal g) = (reject_goal v s g).0
step v s (accepts_cancel g) = (accept_cancel v s g).0
step v s (rejects_cancel g) = (reject_cancel v s g).0
step v s (accepts_cancel_locally g) = (accept_cancel_locally s g).0
step v s (discards g) = (discard_pending_goal s g).0
step v s (sends_feedback g packet) = (send_feedback v s g packet).0
step v s (completes g status packet) = (complete v s g status packet).0
step v s (completes_locally g status packet) = (complete_locally v s g status packet).0
step v s clears = clear_pending_events s
step v s resets = reset_contexts s

-- Every call keeps the assignment: a Goal has at most one slot, a slot at most one Goal, and the
-- two tables agree, whether packets are valid, sends succeed or calls are refused.
pub step-IsConsistent :
    (v : PacketEnv) (s : Endpoint) (call : Call) → IsConsistent s → IsConsistent (step v s call)
unfolding step receive clear_pending_events
step-IsConsistent v s (receives slot packet) c = c
step-IsConsistent v s polls c = poll_keeps v s c
step-IsConsistent v s (accepts_goal g) c = accept_goal_keeps v s c g
step-IsConsistent v s (rejects_goal g) c = reject_goal_keeps v s c g
step-IsConsistent v s (accepts_cancel g) c = accept_cancel_keeps v s c g
step-IsConsistent v s (rejects_cancel g) c = reject_cancel_keeps v s c g
step-IsConsistent v s (accepts_cancel_locally g) c = accept_cancel_locally_keeps v s c g
step-IsConsistent v s (discards g) c = discard_keeps v s c g
step-IsConsistent v s (sends_feedback g packet) c = send_feedback_keeps v s c g packet
step-IsConsistent v s (completes g status packet) c = complete_keeps v s c g status packet
step-IsConsistent v s (completes_locally g status packet) c =
    complete_locally_keeps v s c g status packet
step-IsConsistent v s clears c = c
step-IsConsistent v s resets c = reset_keeps s c

-- The environment decides anew before each call whether sends succeed.
unfoldable pub run : Endpoint → List (PacketEnv × Call) → Endpoint
unfolding step
run s [] = s
run s ((v, call) ∷ calls) = run (step v s call) calls

-- From a consistent endpoint, any sequence of calls leads to a consistent one.
pub run-IsConsistent :
    (s : Endpoint) (calls : List (PacketEnv × Call)) → IsConsistent s → IsConsistent (run s calls)
unfolding run
run-IsConsistent s [] c = c
run-IsConsistent s ((v, call) ∷ calls) c =
    run-IsConsistent (step v s call) calls (step-IsConsistent v s call c)

-- From a consistent endpoint, after any sequence of calls, two Goals that are bound to the same slot
-- are the same Goal.
slots_exclusive :
    (s : Endpoint) (calls : List (PacketEnv × Call)) (g h : GoalId) (b d : ActionPacketBinding)
    → IsConsistent s
    → lookup g (run s calls).packet_bindings ≡ some b
    → lookup h (run s calls).packet_bindings ≡ some d
    → b.slot_index ≡ d.slot_index
    → g ≡ h
slots_exclusive s calls g h b d c p q same =
    ground
      (arith, (run-IsConsistent s calls c).bound g b p, (run-IsConsistent s calls c).bound h d q)
