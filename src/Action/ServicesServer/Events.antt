-- ===== src/Action/ServicesServer/Events.antt =====
-- Polling an Action keeps its two layers in agreement, and turns no request into an error.
use hakoniwa_pdu_rpc.Base.{
  ℕ, ◌≡◌, ◌≢◌, refl, sym, subst, inl, inr, true, none, some, arith, bytes_equality, Option-split,
  Option-cases,
}
use hakoniwa_pdu_rpc.Base.Map.{lookup, insert, lookup-insert}
use hakoniwa_pdu_rpc.Action.Types.{
  GoalId, ServerEvent, ServerEventType, goal_request, cancel_request, error,
}
use hakoniwa_pdu_rpc.Action.Packet.{PacketEnv}
use hakoniwa_pdu_rpc.Action.ServerMachine.{
  ServerGoalContext, ServerTransitionKind, transition_server_goal, cancel_request_received,
}
use hakoniwa_pdu_rpc.Action.ServerMachine.Steps.{transition_server_goal-IsValid}
use hakoniwa_pdu_rpc.Action.ServerMachine.Effects.{request_effect, request_no_error, kind_split}
use hakoniwa_pdu_rpc.Action.ServerEndpoint.{
  Endpoint, ActionPacketBinding, awaiting_goal_decision, new_binding,
}
use hakoniwa_pdu_rpc.Action.ServerEndpoint.Operations
use hakoniwa_pdu_rpc.Action.ServerEndpoint.Operations.{mark_pending, admits_cancel, no_event}
use hakoniwa_pdu_rpc.Action.ServerEndpoint.Requests.{
  Polls, quiet, queued, goal_asked, cancel_asked, poll-Polls,
}
use hakoniwa_pdu_rpc.Action.ServicesServer.{
  ActionInstance, get_goal, with_endpoint, handle_cancel_event, cancel_event,
}
use hakoniwa_pdu_rpc.Action.ServicesServer.Services.{poll_action, route_event}
use hakoniwa_pdu_rpc.Action.ServicesServer.Coupling.{
  Agree, Couples, IsCoupled, move_binding, move_context, add_awaited,
}

abbrev pub Keeps : ActionInstance × ServerEvent → Type 0
Keeps r = IsCoupled r.0

admits-ne-awaiting :
    (b : ActionPacketBinding) (slot : ℕ)
    → admits_cancel b slot ≡ true
    → b.state ≢ awaiting_goal_decision
unfolding admits_cancel
admits-ne-awaiting b slot h = ground arith

-- A context that names the Client as origin goes with a binding that owes the response.
requested_agrees :
    (c : ServerGoalContext) (b : ActionPacketBinding) (event_type : ServerEventType)
    → Agree c b
    → (event_type ≡ cancel_request → b.cancel_decision_pending ≡ true)
    → (transition_server_goal c (cancel_event event_type)).kind ≡ ServerTransitionKind.transitioned
    → Agree (transition_server_goal c (cancel_event event_type)).next b
requested_agrees c b event_type ag owed m = record {
  valid = (transition_server_goal-IsValid c (cancel_event event_type)).0 ag.valid;
  same_state = ground (arith, ag.same_state, request_effect c, m);
  owes = λ is. ground (arith, owed, request_effect c, m, is);
}

-- The record of a cancel event, where a Client's request has been noted by the endpoint.
pub handle_cancel_event-IsCoupled :
    (a : ActionInstance) (event_type : ServerEventType) (event : ServerEvent)
    → IsCoupled a
    → ((b : ActionPacketBinding)
        → lookup event.goal a.endpoint.packet_bindings ≡ some b
        → event_type ≡ cancel_request
        → b.cancel_decision_pending ≡ true)
    → IsCoupled (handle_cancel_event a event_type event).0
unfolding handle_cancel_event
handle_cancel_event-IsCoupled a event_type event k owed =
    Option-split Keeps (get_goal a event.goal) _ _ (λ _. k)
      λ c e.
        let t = transition_server_goal c (cancel_event event_type) in
        let (b, at, ag) = k.known event.goal c e in
        kind_split Keeps t.kind _ _ _ (λ _. k) (λ _. k)
          λ m.
            move_context k event.goal t.next b at (requested_agrees c b event_type ag (owed b at) m)

unbound :
    (a : ActionInstance)
    → IsCoupled a
    → (g : GoalId) → lookup g a.endpoint.packet_bindings ≡ none
    → lookup g a.goals ≡ none
unbound a k g h = elim (Option-cases (lookup g a.goals)) [
  | inl e ↦ e
  | inr (c, e) ↦ let (b, at, ag) = k.known g c e in absurd (ground (arith, at, h))
]

accepted_known :
    (a : ActionInstance)
    → IsCoupled a
    → (g : GoalId) (b : ActionPacketBinding) → lookup g a.endpoint.packet_bindings ≡ some b
    → b.state ≢ awaiting_goal_decision
    → (c : ServerGoalContext) × (lookup g a.goals ≡ some c) × Agree c b
accepted_known a k g b at past = elim (Option-cases (lookup g a.goals)) [
  | inl e ↦ absurd (past (k.awaited g b at e))
  | inr (c, e) ↦
      let (x, found, ag) = k.known g c e in
      let p : x ≡ b = ground (arith, found) in (c, e, subst (Agree c) p ag)
]

new_binding_awaits : (g : GoalId) (slot : ℕ) → (new_binding g slot).state ≡ awaiting_goal_decision
unfolding new_binding
new_binding_awaits g slot = refl

-- The endpoint's part of `poll`.
polled-IsCoupled :
    (a : ActionInstance) (t : Endpoint) (event : ServerEvent)
    → IsCoupled a
    → Polls a.endpoint event t
    → IsCoupled (with_endpoint a t)
polled-IsCoupled a t event k (quiet p q w) =
    subst (λ l. Couples a.goals t.packet_bindings l) (sym w)
      (subst (λ l. Couples a.goals l a.endpoint.pending_events) (sym q) k)
polled-IsCoupled a t event k (queued rest p q) = absurd (ground (arith, p, k.no_events))
polled-IsCoupled a t event k (goal_asked slot p fresh free q w) =
    subst (λ l. Couples a.goals t.packet_bindings l) (sym w)
      (subst (λ l. Couples a.goals l a.endpoint.pending_events) (sym q)
        (add_awaited k event.goal (unbound a k event.goal fresh) (new_binding event.goal slot)
          (new_binding_awaits event.goal slot)))
polled-IsCoupled a t event k (cancel_asked b p at admits q w) =
    subst (λ l. Couples a.goals t.packet_bindings l) (sym w)
      (subst (λ l. Couples a.goals l a.endpoint.pending_events) (sym q)
        (let (c, e, ag) =
            accepted_known a k event.goal b at (admits-ne-awaiting b b.slot_index admits) in
          move_binding k event.goal c (mark_pending b) e
            (record { valid = ag.valid; same_state = ag.same_state; owes = λ _. refl })))

noted :
    (a : ActionInstance) (t : Endpoint) (g : GoalId) (b d : ActionPacketBinding)
    → t.packet_bindings ≡ insert g (mark_pending b) a.endpoint.packet_bindings
    → lookup g t.packet_bindings ≡ some d
    → d.cancel_decision_pending ≡ true
noted a t g b d q at =
    let found : lookup g (insert g (mark_pending b) a.endpoint.packet_bindings) ≡ some d =
      rw q at at in
    ground (
      arith,
      found,
      lookup-insert g g (mark_pending b) a.endpoint.packet_bindings,
      bytes_equality.equals_iff g g,
    )

abbrev named : ActionInstance → ServerEvent → ServerEvent
named a event = record event { action_name = a.action_name }

routed-IsCoupled :
    (a : ActionInstance) (t : Endpoint) (event : ServerEvent)
    → IsCoupled a
    → Polls a.endpoint event t
    → IsCoupled (route_event (with_endpoint a t) (named a event) event.type).0
unfolding route_event handle_cancel_event
routed-IsCoupled a t event k (quiet p q w) = rw p (polled-IsCoupled a t event k (quiet p q w))
routed-IsCoupled a t event k (queued rest p q) = absurd (ground (arith, p, k.no_events))
routed-IsCoupled a t event k (goal_asked slot p fresh free q w) =
    rw p (polled-IsCoupled a t event k (goal_asked slot p fresh free q w))
routed-IsCoupled a t event k (cancel_asked b p at admits q w) = rw p (
    handle_cancel_event-IsCoupled (with_endpoint a t) cancel_request (named a event)
      (polled-IsCoupled a t event k (cancel_asked b p at admits q w))
      λ d found _. noted a t event.goal b d q found)

pub poll_action-IsCoupled :
    (v : PacketEnv) (a : ActionInstance) → IsCoupled a → IsCoupled (poll_action v a).0
unfolding poll_action
poll_action-IsCoupled v a k =
    routed-IsCoupled a (Operations.poll v a.endpoint).0 (Operations.poll v a.endpoint).1 k
      (poll-Polls v a.endpoint)

abbrev NoError : ActionInstance × ServerEvent → Type 0
NoError r = r.1.type ≢ error

none-ne-error : ServerEventType.none ≢ error
none-ne-error is = cc

cancel_request-ne-error : cancel_request ≢ error
cancel_request-ne-error is = cc

goal_request-ne-error : goal_request ≢ error
goal_request-ne-error is = cc

handled-ne-error :
    (a : ActionInstance) (event : ServerEvent) (c : ServerGoalContext)
    → IsCoupled a
    → lookup event.goal a.goals ≡ some c
    → (handle_cancel_event a cancel_request event).1.type ≢ error
unfolding handle_cancel_event
handled-ne-error a event c k e =
    let (b, at, ag) = k.known event.goal c e in
    rw (e, handle_cancel_event)
      (kind_split NoError (transition_server_goal c cancel_request_received).kind _ _ _
        (λ is. absurd ((request_no_error c ag.valid).0 is)) (λ _. none-ne-error)
        (λ _. cancel_request-ne-error))

routed-ne-error :
    (a : ActionInstance) (t : Endpoint) (event : ServerEvent)
    → IsCoupled a
    → Polls a.endpoint event t
    → (route_event (with_endpoint a t) (named a event) event.type).1.type ≢ error
unfolding route_event handle_cancel_event
routed-ne-error a t event k (quiet p q w) = rw p none-ne-error
routed-ne-error a t event k (queued rest p q) = absurd (ground (arith, p, k.no_events))
routed-ne-error a t event k (goal_asked slot p fresh free q w) = rw p goal_request-ne-error
routed-ne-error a t event k (cancel_asked b p at admits q w) =
    let (c, e, ag) =
      accepted_known a k event.goal b at (admits-ne-awaiting b b.slot_index admits) in
    rw p (
      handled-ne-error (with_endpoint a t) (named a event) c
        (polled-IsCoupled a t event k (cancel_asked b p at admits q w)) e)

-- A request of a Client never becomes an ERROR event.
pub poll_action-ne-error :
    (v : PacketEnv) (a : ActionInstance) → IsCoupled a → (poll_action v a).1.type ≢ error
unfolding poll_action
poll_action-ne-error v a k =
    routed-ne-error a (Operations.poll v a.endpoint).0 (Operations.poll v a.endpoint).1 k
      (poll-Polls v a.endpoint)
