-- ===== src/Action/ServicesServer/Agreement.antt =====
-- Every method of an Action server keeps its two layers in agreement.
use hakoniwa_pdu_rpc.Base.{
  ◌≡◌, refl, sym, ap, subst, ◌∙◌, ◌⊎◌, Bool, true, false, none, some, arith, bytes_equality,
  if◌then◌else◌, Option-split, if_split, is_empty,
}
use hakoniwa_pdu_rpc.Base.Map.{lookup, insert, erase, erase-insert}
use hakoniwa_pdu_rpc.Action.Types.{GoalId, PduData, TerminalStatus}
use hakoniwa_pdu_rpc.Action.Packet.{PacketEnv}
use hakoniwa_pdu_rpc.Action.ServerMachine.{
  ServerGoalEvent, ServerGoalContext, is_valid_server_context, initial_context,
  transition_server_goal, ServerTransitionKind,
}
use hakoniwa_pdu_rpc.Action.ServerMachine.Steps.{transition_server_goal-IsValid}
use hakoniwa_pdu_rpc.Action.ServerMachine.Effects.{
  initial_valid, accept_cancel_effect, reject_cancel_effect, completion_effect, moved_split,
  quiet_split,
}
use hakoniwa_pdu_rpc.Action.ServerEndpoint.{
  Endpoint, ActionPacketBinding, release_binding, store_binding,
}
use hakoniwa_pdu_rpc.Action.ServerEndpoint.Operations.{mark_accepted, mark_canceling, mark_decided}
use hakoniwa_pdu_rpc.Action.ServerEndpoint.Results.{commit, next_sequence}
use hakoniwa_pdu_rpc.Action.ServerEndpoint.Outcomes.{
  accept_goal_cases, reject_goal_cases, accept_cancel_cases, reject_cancel_cases,
  accept_cancel_locally_cases, discard_cases, send_feedback_cases, complete_locally_cases,
  complete_cases,
}
use hakoniwa_pdu_rpc.Action.ServicesServer.{
  ActionInstance, get_goal, set_goal, has_goal, with_endpoint, is_client, accept_goal, reject_goal,
  accept_cancel, reject_cancel, decide_cancel, commit_acceptance, commit_rejection, send_feedback,
  complete_goal, complete_event, remove_goal, settle, settle_locally, discard_pending_goal,
}
use hakoniwa_pdu_rpc.Action.ServicesServer.Uniqueness.{remove_goal-erase}
use hakoniwa_pdu_rpc.Action.ServicesServer.Coupling.{
  Agree, Couples, IsCoupled, binding_state, move_both, move_context, move_binding, drop_both,
  drop_awaited,
}

abbrev pub Keeps : ActionInstance × Bool → Type 0
Keeps r = IsCoupled r.0

no_goal : (a : ActionInstance) (g : GoalId) → has_goal a g ≡ false → lookup g a.goals ≡ none
unfolding has_goal
no_goal a g h = ground arith

-- What the method makes of the endpoint's answer: on success the context moves too.
abbrev Adopts : ActionInstance → GoalId → ServerGoalContext → Endpoint × Bool → Type 0
Adopts a g next r =
    Keeps
      (if r.1 then (set_goal (with_endpoint a r.0) g next, true) else (with_endpoint a r.0, false))

pub is_completion :
    (status : TerminalStatus)
    → let e = complete_event status in
      (e ≡ ServerGoalEvent.complete_succeeded)
      ⊎ (e ≡ ServerGoalEvent.complete_canceled)
      ⊎ (e ≡ ServerGoalEvent.complete_aborted)
      ⊎ (e ≡ ServerGoalEvent.complete_unspecified)
is_completion status = ground arith

-- The pairs of context and binding that the methods write agree.
module _ (a : ActionInstance) (k : IsCoupled a) (g : GoalId) where
  agrees :
      (c : ServerGoalContext) (b : ActionPacketBinding)
      → lookup g a.goals ≡ some c
      → lookup g a.endpoint.packet_bindings ≡ some b
      → Agree c b
  agrees c b e at =
      let (x, found, ag) = k.known g c e in
      let p : x ≡ b = ground (arith, found) in subst (Agree c) p ag

  next_valid :
      (c : ServerGoalContext) (event : ServerGoalEvent)
      → lookup g a.goals ≡ some c
      → is_valid_server_context (transition_server_goal c event).next ≡ true
  next_valid c event e = (transition_server_goal-IsValid c event).0 (k.known g c e).2.valid

  same_promise :
      (c : ServerGoalContext) (b : ActionPacketBinding) → Agree c b → Agree c (next_sequence b)
  same_promise c b ag = record { valid = ag.valid; same_state = ag.same_state; owes = ag.owes }

  canceling_agrees :
      (c : ServerGoalContext) (b : ActionPacketBinding)
      → lookup g a.goals ≡ some c
      → (transition_server_goal c ServerGoalEvent.accept_cancel).kind
        ≡ ServerTransitionKind.transitioned
      → Agree (transition_server_goal c ServerGoalEvent.accept_cancel).next (mark_canceling b)
  canceling_agrees c b e m =
      let (_, _, goes, origin) = accept_cancel_effect c m in
      record {
        valid = next_valid c ServerGoalEvent.accept_cancel e;
        same_state = sym (ap binding_state goes);
        owes = λ is. absurd (ground (arith, origin, is));
      }

  executing_agrees :
      (c : ServerGoalContext) (b : ActionPacketBinding)
      → lookup g a.goals ≡ some c
      → (transition_server_goal c ServerGoalEvent.reject_cancel).kind
        ≡ ServerTransitionKind.transitioned
      → b.state ≡ binding_state c.state
      → Agree (transition_server_goal c ServerGoalEvent.reject_cancel).next b
  executing_agrees c b e m same =
      let (was, _, stays, origin) = reject_cancel_effect c m in
      record {
        valid = next_valid c ServerGoalEvent.reject_cancel e;
        same_state = same ∙ ap binding_state was ∙ sym (ap binding_state stays);
        owes = λ is. absurd (ground (arith, origin, is));
      }

  finishing_agrees :
      (c : ServerGoalContext) (b : ActionPacketBinding) (status : TerminalStatus)
      → lookup g a.goals ≡ some c
      → (transition_server_goal c (complete_event status)).kind ≡ ServerTransitionKind.transitioned
      → Agree (transition_server_goal c (complete_event status)).next (commit b)
  finishing_agrees c b status e m =
      let (_, ends, origin) =
        completion_effect c (complete_event status) (is_completion status) m in
      record {
        valid = next_valid c (complete_event status) e;
        same_state = sym (ap binding_state ends);
        owes = λ is. absurd (ground (arith, origin, is));
      }

  finished :
      (b : ActionPacketBinding)
      → Couples
          (remove_goal g a.goals)
          (erase g (insert g b a.endpoint.packet_bindings))
          a.endpoint.pending_events
  finished b =
      rw (remove_goal-erase g a.goals k.unique, erase-insert g b a.endpoint.packet_bindings)
        (drop_both k g)

module _ (v : PacketEnv) (a : ActionInstance) (k : IsCoupled a) (g : GoalId) where
  pub accept_goal-IsCoupled : IsCoupled (accept_goal v a g).0
  unfolding accept_goal store_binding
  accept_goal-IsCoupled =
      if_split Keeps (has_goal a g) _ _ (λ _. k)
        λ fresh.
          accept_goal_cases (Adopts a g initial_context) v a.endpoint g (λ l. k)
            λ l b at waits.
              move_both k g initial_context (mark_accepted b)
                (record { valid = initial_valid; same_state = refl; owes = λ e. cc })

  pub reject_goal-IsCoupled : IsCoupled (reject_goal v a g).0
  unfolding reject_goal release_binding
  reject_goal-IsCoupled =
      if_split Keeps (has_goal a g) _ _ (λ _. k)
        λ fresh.
          reject_goal_cases (λ r. IsCoupled (with_endpoint a r.0)) v a.endpoint g (λ l. k)
            λ l b at waits. drop_awaited k g (no_goal a g fresh)

  pub discard-IsCoupled : IsCoupled (discard_pending_goal a g).0
  unfolding discard_pending_goal release_binding
  discard-IsCoupled =
      if_split Keeps (has_goal a g) _ _ (λ _. k)
        λ fresh.
          discard_cases (λ r. IsCoupled (with_endpoint a r.0)) v a.endpoint g (λ l. k)
            λ b at waits. drop_awaited k g (no_goal a g fresh)

  pub send_feedback-IsCoupled : (packet : PduData) → IsCoupled (send_feedback v a g packet).0
  unfolding send_feedback store_binding
  send_feedback-IsCoupled packet =
      if_split Keeps (is_empty packet) _ _ (λ _. k)
        λ _.
          Option-split Keeps (get_goal a g) _ _ (λ _. k)
            λ c e.
              quiet_split Keeps (transition_server_goal c ServerGoalEvent.publish_feedback).kind _ _
                (send_feedback_cases (λ r. IsCoupled (with_endpoint a r.0)) v a.endpoint g (λ l. k)
                  packet
                  λ l b at.
                    move_binding k g c (next_sequence b) e
                      (same_promise a k g c b (agrees a k g c b e at)))
                k

  pub accept_cancel-IsCoupled : IsCoupled (accept_cancel v a g).0
  unfolding accept_cancel decide_cancel commit_acceptance store_binding
  accept_cancel-IsCoupled =
      Option-split Keeps (get_goal a g) _ _ (λ _. k)
        λ c e.
          let next = (transition_server_goal c ServerGoalEvent.accept_cancel).next in
          moved_split Keeps (transition_server_goal c ServerGoalEvent.accept_cancel).kind _ _
            (λ m.
              if_split (Adopts a g next) (is_client c.cancel_origin) _ _
                (λ _.
                  accept_cancel_cases (Adopts a g next) v a.endpoint g (λ l. k)
                    λ l b at w.
                      move_both k g next (mark_canceling b) (canceling_agrees a k g c b e m))
                (λ _.
                  accept_cancel_locally_cases (Adopts a g next) v a.endpoint g (λ l. k)
                    λ b at w.
                      move_both k g next (mark_canceling b) (canceling_agrees a k g c b e m)))
            k

  pub reject_cancel-IsCoupled : IsCoupled (reject_cancel v a g).0
  unfolding reject_cancel decide_cancel commit_rejection store_binding
  reject_cancel-IsCoupled =
      Option-split Keeps (get_goal a g) _ _ (λ _. k)
        λ c e.
          let next = (transition_server_goal c ServerGoalEvent.reject_cancel).next in
          moved_split Keeps (transition_server_goal c ServerGoalEvent.reject_cancel).kind _ _
            (λ m.
              if_split (Adopts a g next) (is_client c.cancel_origin) _ _
                (λ _.
                  reject_cancel_cases (Adopts a g next) v a.endpoint g (λ l. k)
                    λ l b at w. move_both k g next (mark_decided b) (
                      executing_agrees a k g c (mark_decided b) e m
                        (agrees a k g c b e at).same_state))
                (λ _.
                  let (b, at, ag) = k.known g c e in
                  move_context k g next b at (executing_agrees a k g c b e m ag.same_state)))
            k

  pub complete_goal-IsCoupled :
      (status : TerminalStatus) (packet : PduData) (local_only : Bool)
      → IsCoupled (complete_goal v a g status packet local_only).0
  unfolding complete_goal settle settle_locally store_binding release_binding
  complete_goal-IsCoupled status packet local_only =
      if_split Keeps (is_empty packet) _ _ (λ _. k)
        λ _.
          Option-split Keeps (get_goal a g) _ _ (λ _. k)
            λ c e.
              let next = (transition_server_goal c (complete_event status)).next in
              moved_split Keeps (transition_server_goal c (complete_event status)).kind _ _
                (λ m.
                  if_split Keeps local_only _ _
                    (λ _.
                      complete_locally_cases (λ r. Keeps (settle_locally a g r)) v a.endpoint g
                        (λ l. k) status packet λ b at w. finished a k g (commit b))
                    (λ _.
                      complete_cases (λ r. Keeps (settle a g next r)) v a.endpoint g status packet k
                        (λ l b at w. finished a k g (commit b))
                        (λ l b at w.
                          move_both k g next (commit b) (finishing_agrees a k g c b status e m))))
                k
