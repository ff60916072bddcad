-- ===== src/Action/ServerEndpoint/Consistency/Calls.antt =====
-- Each decision about a Goal keeps the assignment of Goals to slots.
use hakoniwa_pdu_rpc.Base.{◌≡◌, refl, Bool, some, arith, bytes_equality}
use hakoniwa_pdu_rpc.Base.Map.{lookup, lookup-insert}
use hakoniwa_pdu_rpc.Action.Types.{GoalId, PduData, TerminalStatus}
use hakoniwa_pdu_rpc.Action.Packet.{PacketEnv}
use hakoniwa_pdu_rpc.Action.ServerEndpoint.{
  Endpoint, ActionPacketBinding, CompleteResult, store_binding,
}
use hakoniwa_pdu_rpc.Action.ServerEndpoint.Operations.{
  accept_goal, reject_goal, accept_cancel, reject_cancel, accept_cancel_locally, mark_accepted,
  mark_canceling, mark_decided,
}
use hakoniwa_pdu_rpc.Action.ServerEndpoint.Results.{
  send_feedback, complete, complete_locally, discard_pending_goal, next_sequence, commit,
}
use hakoniwa_pdu_rpc.Action.ServerEndpoint.Frames.{with_sends}
use hakoniwa_pdu_rpc.Action.ServerEndpoint.Outcomes.{
  accept_goal_cases, reject_goal_cases, accept_cancel_cases, reject_cancel_cases,
  accept_cancel_locally_cases, discard_cases, send_feedback_cases, complete_locally_cases,
  complete_cases,
}
use hakoniwa_pdu_rpc.Action.ServerEndpoint.Consistency.{
  IsConsistent, store-IsConsistent, release-IsConsistent,
}

abbrev pub Keeps : {A : Type 0} → Endpoint × A → Type 0
Keeps r = IsConsistent r.0

module _ (v : PacketEnv) (s : Endpoint) (c : IsConsistent s) (g : GoalId) where
  pub accept_goal_keeps : IsConsistent (accept_goal v s g).0
  accept_goal_keeps =
      accept_goal_cases (Keeps {A = Bool}) v s g (λ _. c)
        λ l b at _. store-IsConsistent (with_sends s l) g b (mark_accepted b) c at refl refl

  pub reject_goal_keeps : IsConsistent (reject_goal v s g).0
  reject_goal_keeps =
      reject_goal_cases (Keeps {A = Bool}) v s g (λ _. c)
        λ l b at _. release-IsConsistent (with_sends s l) g b c at

  pub accept_cancel_keeps : IsConsistent (accept_cancel v s g).0
  accept_cancel_keeps =
      accept_cancel_cases (Keeps {A = Bool}) v s g (λ _. c)
        λ l b at _. store-IsConsistent (with_sends s l) g b (mark_canceling b) c at refl refl

  pub reject_cancel_keeps : IsConsistent (reject_cancel v s g).0
  reject_cancel_keeps =
      reject_cancel_cases (Keeps {A = Bool}) v s g (λ _. c)
        λ l b at _. store-IsConsistent (with_sends s l) g b (mark_decided b) c at refl refl

  pub accept_cancel_locally_keeps : IsConsistent (accept_cancel_locally s g).0
  accept_cancel_locally_keeps =
      accept_cancel_locally_cases (Keeps {A = Bool}) v s g (λ _. c)
        λ b at _. store-IsConsistent s g b (mark_canceling b) c at refl refl

  pub discard_keeps : IsConsistent (discard_pending_goal s g).0
  discard_keeps =
      discard_cases (Keeps {A = Bool}) v s g (λ _. c) λ b at _. release-IsConsistent s g b c at

  pub send_feedback_keeps : (packet : PduData) → IsConsistent (send_feedback v s g packet).0
  send_feedback_keeps packet =
      send_feedback_cases (Keeps {A = Bool}) v s g (λ _. c) packet
        λ l b at. store-IsConsistent (with_sends s l) g b (next_sequence b) c at refl refl

  committed-lookup :
      (b : ActionPacketBinding)
      → lookup g (store_binding s g (commit b)).packet_bindings ≡ some (commit b)
  unfolding store_binding
  committed-lookup b =
      ground (arith, lookup-insert g g (commit b) s.packet_bindings, bytes_equality.equals_iff g g)

  committed_keeps :
      (b : ActionPacketBinding)
      → lookup g s.packet_bindings ≡ some b
      → IsConsistent (store_binding s g (commit b))
  committed_keeps b at = store-IsConsistent s g b (commit b) c at refl refl

  pub complete_keeps :
      (status : TerminalStatus) (packet : PduData) → IsConsistent (complete v s g status packet).0
  complete_keeps status packet =
      complete_cases (Keeps {A = CompleteResult}) v s g status packet c
        (λ l b at _.
          release-IsConsistent (with_sends (store_binding s g (commit b)) l) g (commit b)
            (committed_keeps b at) (committed-lookup b))
        (λ l b at _. committed_keeps b at)

  pub complete_locally_keeps :
      (status : TerminalStatus) (packet : PduData)
      → IsConsistent (complete_locally v s g status packet).0
  complete_locally_keeps status packet =
      complete_locally_cases (Keeps {A = Bool}) v s g (λ _. c) status packet
        λ b at _.
          release-IsConsistent (store_binding s g (commit b)) g (commit b) (committed_keeps b at)
            (committed-lookup b)
