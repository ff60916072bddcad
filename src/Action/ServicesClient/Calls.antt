-- ===== src/Action/ServicesClient/Calls.antt =====
-- The calls of the application keep the two layers of an Action client in agreement
-- (src/action_services_client.cpp).
use hakoniwa_pdu_rpc.Base.{
  ℕ, ◌≡◌, refl, Bool, true, false, none, some, List, ◌∷◌, arith, bytes_equality, if_split,
  Option-split, if◌then◌else◌,
}
use hakoniwa_pdu_rpc.Base.Map.{lookup}
use hakoniwa_pdu_rpc.Action.Types.{GoalId, PduData, GoalSendResult, is_executing}
use hakoniwa_pdu_rpc.Action.Packet.{PacketEnv, Send}
use hakoniwa_pdu_rpc.Action.Layers.{move_both, put_awaited}
use hakoniwa_pdu_rpc.Action.ClientMachine.{
  ClientGoalContext, is_valid_client_context, transition_client_goal,
}
use hakoniwa_pdu_rpc.Action.ClientMachine.Effects.{
  kind_split, request_cancel-requires, request_cancel-next,
}
use hakoniwa_pdu_rpc.Action.ClientEndpoint.{Endpoint, new_binding, store_binding}
use hakoniwa_pdu_rpc.Action.ClientEndpoint.Operations
use hakoniwa_pdu_rpc.Action.ClientEndpoint.Operations.{mark_cancel_sent}
use hakoniwa_pdu_rpc.Action.ClientEndpoint.Messages.{FirstFree}
use hakoniwa_pdu_rpc.Action.ClientEndpoint.Submission.{
  Submits, invalid_id, uninitialized, duplicate, all_taken, unfit, unsent, submitted,
  send_goal-Submits, Cancels, not_sent, sent, send_cancel-Cancels, with_sends, claimed,
}
use hakoniwa_pdu_rpc.Action.ClientEndpoint.Consistency.{store-IsConsistent}
use hakoniwa_pdu_rpc.Action.Slots.{claim-Assigns}
use hakoniwa_pdu_rpc.Action.ServicesClient.{
  ActionInstance, get_goal, set_goal, has_goal, with_endpoint, submit_goal, commit_cancel,
  request_goal_cancel, cancel_request,
}
use hakoniwa_pdu_rpc.Action.ServicesClient.Coupling.{IsCoupled}

-- The Goal of a new binding has no context.
claimed-IsCoupled :
    (a : ActionInstance) (g : GoalId) (slot now timeout : ℕ)
    → IsCoupled a
    → lookup g a.goals ≡ none
    → lookup g a.endpoint.packet_bindings ≡ none
    → FirstFree a.endpoint.slot_owners slot
    → IsCoupled (with_endpoint a (claimed a.endpoint g slot now timeout))
unfolding new_binding
claimed-IsCoupled a g slot now timeout k fresh new f = record {
  consistent =
      claim-Assigns k.consistent g (new_binding g slot now timeout) slot refl refl
        (omega (arith, f.inside, k.consistent.sized)) new f.free;
  layers = put_awaited k.layers g fresh (new_binding g slot now timeout) refl;
}

-- The endpoint with another log of sends.
sent_log-IsCoupled :
    (a : ActionInstance) (l : List Send)
    → IsCoupled a
    → IsCoupled (with_endpoint a (with_sends a.endpoint l))
sent_log-IsCoupled a l k = record { consistent = k.consistent; layers = k.layers }

Submits-IsCoupled :
    (v : PacketEnv) (now : ℕ) (a : ActionInstance) (g : GoalId) (pdu : PduData) (timeout : ℕ)
    (r : Endpoint × GoalSendResult × GoalId)
    → IsCoupled a
    → lookup g a.goals ≡ none
    → Submits v a.endpoint g pdu now timeout r
    → IsCoupled (with_endpoint a r.0)
Submits-IsCoupled v now a g pdu timeout r k fresh (invalid_id h q) = rw q k
Submits-IsCoupled v now a g pdu timeout r k fresh (uninitialized h q) = rw q k
Submits-IsCoupled v now a g pdu timeout r k fresh (duplicate b h q) = rw q k
Submits-IsCoupled v now a g pdu timeout r k fresh (all_taken h q) = rw q k
Submits-IsCoupled v now a g pdu timeout r k fresh (unfit slot f h q) = rw q k
Submits-IsCoupled v now a g pdu timeout r k fresh (unsent slot m f h no_ok q) =
    rw q (sent_log-IsCoupled a (m ∷ a.endpoint.sends) k)
Submits-IsCoupled v now a g pdu timeout r k fresh (submitted slot m f new h ok q) = rw q (
    sent_log-IsCoupled (with_endpoint a (claimed a.endpoint g slot now timeout))
      (m ∷ a.endpoint.sends) (claimed-IsCoupled a g slot now timeout k fresh new f))

abbrev KeepsGoal : ActionInstance × GoalSendResult × GoalId → Type 0
KeepsGoal r = IsCoupled r.0

pub submit_goal-IsCoupled :
    (v : PacketEnv) (now : ℕ) (a : ActionInstance) (g : GoalId) (pdu : PduData) (timeout : ℕ)
    → IsCoupled a
    → IsCoupled (submit_goal v now a g pdu timeout).0
unfolding submit_goal has_goal
submit_goal-IsCoupled v now a g pdu timeout k =
    if_split KeepsGoal (has_goal a g) _ _ (λ _. k)
      λ h.
        Submits-IsCoupled v now a g pdu timeout
          (Operations.send_goal_with_result v a.endpoint g pdu now timeout) k (ground (arith, h))
          (send_goal-Submits v a.endpoint g pdu now timeout)

abbrev KeepsCancel : ActionInstance × Bool → Type 0
KeepsCancel r = IsCoupled r.0

-- Both layers note the Cancel Request, or neither does.
Cancels-IsCoupled :
    (v : PacketEnv) (a : ActionInstance) (g : GoalId) (c : ClientGoalContext) (r : Endpoint × Bool)
    → IsCoupled a
    → lookup g a.goals ≡ some c
    → is_executing c.state ≡ true
    → c.cancel_response_pending ≡ false
    → Cancels v a.endpoint g r
    → KeepsCancel (
        if r.1
        then (set_goal (with_endpoint a r.0) g (record c { cancel_response_pending = true }), true)
        else (with_endpoint a r.0, false))
unfolding store_binding is_valid_client_context
Cancels-IsCoupled v a g c r k here x p (not_sent l q) = rw q (sent_log-IsCoupled a l k)
Cancels-IsCoupled v a g c r k here x p (sent b packet m at w e ok q) =
    let (d, found, ag) = k.layers.known g c here in
    let same : d ≡ b = ground (arith, found, at) in
    rw q (record {
      consistent = store-IsConsistent a.endpoint g b (mark_cancel_sent b) k.consistent at refl refl;
      layers =
          move_both k.layers g (record c { cancel_response_pending = true }) (mark_cancel_sent b)
            (record {
              valid = ground (arith, ag.valid, x);
              unfinished = ag.unfinished;
              same_state = ground (arith, x);
              same_sequence = ground (arith, ag.same_sequence, same);
            });
    })

pub request_goal_cancel-IsCoupled :
    (v : PacketEnv) (a : ActionInstance) (g : GoalId)
    → IsCoupled a
    → IsCoupled (request_goal_cancel v a g).0
unfolding request_goal_cancel commit_cancel
request_goal_cancel-IsCoupled v a g k =
    Option-split KeepsCancel (get_goal a g) _ _ (λ _. k)
      λ c here.
        let (d, found, ag) = k.layers.known g c here in
        kind_split KeepsCancel (transition_client_goal c cancel_request).kind _ _ _ (λ _. k)
          (λ _. k)
          λ m.
            let (x, p) = request_cancel-requires c ag.valid m in
            rw (request_cancel-next c ag.valid x p) (
              Cancels-IsCoupled v a g c (Operations.send_cancel v a.endpoint g) k here x p
                (send_cancel-Cancels v a.endpoint g))
