-- ===== src/Action/ServicesClient/Events.antt =====
-- Polling an Action keeps its two layers in agreement, and hands up every event of the endpoint as
-- it is: none becomes an ERROR, and none is dropped (src/action_services_client.cpp).
use hakoniwa_pdu_rpc.Base.{
  ℕ, ◌+◌, ◌%◌, ◌^◌, ◌≡◌, ◌≢◌, refl, sym, subst, ap, true, false, none, some, List, arith,
  bytes_equality,
}
use hakoniwa_pdu_rpc.Base.Map.{lookup}
use hakoniwa_pdu_rpc.Action.Types.{
  GoalId, is_valid_goal_id, ClientEvent, ClientEventType, Decision, canceling, terminal_status_of,
  is_allowed_result,
}
use hakoniwa_pdu_rpc.Action.Packet.{PacketEnv}
use hakoniwa_pdu_rpc.Action.Layers.{
  Couples, move_both, drop_both, context_of, no_context_of, drop_awaited, put_awaited,
}
use hakoniwa_pdu_rpc.Action.ClientMachine.{
  ClientGoalContext, initial_context, is_valid_client_context,
}
use hakoniwa_pdu_rpc.Action.ClientMachine.Effects.{
  feedback-next, cancel_accepted-next, cancel_rejected-next, result-transitions,
}
use hakoniwa_pdu_rpc.Action.ClientEndpoint.{
  Endpoint, PendingPacket, ClientPacketBinding, store_binding, release_binding, is_awaiting,
  is_awaiting_cancel,
}
use hakoniwa_pdu_rpc.Action.ClientEndpoint.Operations.{mark_accepted}
use hakoniwa_pdu_rpc.Action.ClientEndpoint.Polling.{
  mark_canceling, mark_timed_out, next_sequence, is_overdue, poll, admits_result,
}
use hakoniwa_pdu_rpc.Action.ClientEndpoint.Outcomes.{
  Reports, quiet, admitted, refused, fed, cancel_granted, cancel_denied, ended, timed_out,
  poll-Reports, with_packets,
}
use hakoniwa_pdu_rpc.Action.ClientEndpoint.Consistency.{IsConsistent, poll_keeps}
use hakoniwa_pdu_rpc.Action.ServicesClient.{
  ActionInstance, with_endpoint, route_event, poll_action, feedback_event, cancel_event,
  result_event,
}
use hakoniwa_pdu_rpc.Action.ServicesClient.Handlers.{
  accepted_response, rejected_response, fed_event, canceled_event, ended_event,
}
use hakoniwa_pdu_rpc.Action.ServicesClient.Coupling.{
  Agree, is_pending, waits, IsCoupled, agreed-past, remove_goal-erase,
}

-- The upper layer keeps the agreement with the endpoint `t` and hands up an event of the type.
abbrev Handles : Endpoint → ClientEventType → ActionInstance × ClientEvent → Type 0
Handles t type r =
    (r.0.endpoint ≡ t) × Couples Agree waits r.0.goals t.packet_bindings × (r.1.type ≡ type)

-- What the endpoint admits for a binding, the state machine allows for the context.
admitted_allowed :
    (c : ClientGoalContext) (b : ClientPacketBinding) (status : ℕ)
    → Agree c b
    → admits_result b.state status ≡ true
    → is_allowed_result c.state (terminal_status_of status) ≡ true
unfolding is_valid_client_context
admitted_allowed c b status ag w = ground (arith, ag.same_state, ag.unfinished, ag.valid)

module _ (a : ActionInstance) (k : Couples Agree waits a.goals a.endpoint.packet_bindings)
    (l : List PendingPacket) where
  abbrev after : GoalId → ClientPacketBinding → Endpoint
  after g d = store_binding (with_packets a.endpoint l) g d

  abbrev freed : GoalId → ClientPacketBinding → Endpoint
  freed g b = release_binding (with_packets a.endpoint l) g b

  module _ (e : ClientEvent) (b : ClientPacketBinding) (valid : is_valid_goal_id e.goal ≡ true)
      (at : lookup e.goal a.endpoint.packet_bindings ≡ some b) where
    abbrev Routed : Endpoint → ClientEventType → Type 0
    Routed t type = Handles t type (route_event (with_endpoint a t) e type)

    admitted-Routed :
        e.type ≡ ClientEventType.goal_response
        → e.decision ≡ Decision.accepted
        → is_awaiting b.state ≡ true
        → Routed (after e.goal (mark_accepted b)) ClientEventType.goal_response
    unfolding route_event store_binding is_valid_client_context
    admitted-Routed p d w =
        let fresh : lookup e.goal a.goals ≡ none =
          no_context_of k e.goal is_pending agreed-past b at (ground arith) in
        rw (accepted_response (with_endpoint a (after e.goal (mark_accepted b))) e valid d fresh) (
          refl,
          move_both k e.goal initial_context (mark_accepted b) (record {
            valid = refl;
            unfinished = refl;
            same_state = refl;
            same_sequence = ground (arith, k.awaited e.goal b at fresh);
          }),
          p,
        )

    refused-Routed :
        e.type ≡ ClientEventType.goal_response
        → e.decision ≡ Decision.rejected
        → is_awaiting b.state ≡ true
        → Routed (freed e.goal b) ClientEventType.goal_response
    unfolding route_event release_binding
    refused-Routed p d w =
        let fresh : lookup e.goal a.goals ≡ none =
          no_context_of k e.goal is_pending agreed-past b at (ground arith) in
        rw (rejected_response (with_endpoint a (freed e.goal b)) e valid d)
          (refl, drop_awaited k e.goal fresh, p)

    fed-Routed :
        e.type ≡ ClientEventType.feedback
        → e.feedback_sequence ≡ b.next_feedback_sequence
        → is_pending b ≡ false
        → Routed (after e.goal (next_sequence b)) ClientEventType.feedback
    unfolding route_event store_binding is_valid_client_context
    fed-Routed p n past =
        let (c, here, ag) = context_of k e.goal b at (ground arith) in
        let m : ClientGoalContext = record c {
          next_feedback_sequence = (c.next_feedback_sequence + 1) % 2 ^ 32;
        } in
        rw
          (fed_event (with_endpoint a (after e.goal (next_sequence b))) e valid c here m (
            feedback-next c ag.valid (feedback_event e) refl ag.unfinished
              (ground (arith, ag.same_sequence))))
          (
            refl,
            move_both k e.goal m (next_sequence b) (record {
              valid = ag.valid;
              unfinished = ag.unfinished;
              same_state = ag.same_state;
              same_sequence = ap (λ x. (x + 1) % 2 ^ 32) ag.same_sequence;
            }),
            p,
          )

    granted-Routed :
        e.type ≡ ClientEventType.cancel_response
        → e.decision ≡ Decision.accepted
        → is_awaiting_cancel b.state ≡ true
        → Routed (after e.goal (mark_canceling b)) ClientEventType.cancel_response
    unfolding route_event store_binding is_valid_client_context
    granted-Routed p d w =
        let (c, here, ag) = context_of k e.goal b at (ground arith) in
        let m : ClientGoalContext = record c {
          state = canceling;
          cancel_response_pending = false;
        } in
        rw
          (canceled_event (with_endpoint a (after e.goal (mark_canceling b))) e valid c here m
            (ground arith)
            (cancel_accepted-next c ag.valid (cancel_event e) (ground arith)
              (ground (arith, ag.same_state)) (ground (arith, ag.same_state))))
          (
            refl,
            move_both k e.goal m (mark_canceling b) (record {
              valid = ground (arith, ag.valid, ag.same_state, ag.unfinished);
              unfinished = refl;
              same_state = refl;
              same_sequence = ag.same_sequence;
            }),
            p,
          )

    denied-Routed :
        e.type ≡ ClientEventType.cancel_response
        → e.decision ≡ Decision.rejected
        → is_awaiting_cancel b.state ≡ true
        → Routed (after e.goal (mark_accepted b)) ClientEventType.cancel_response
    unfolding route_event store_binding is_valid_client_context
    denied-Routed p d w =
        let (c, here, ag) = context_of k e.goal b at (ground arith) in
        let m : ClientGoalContext = record c { cancel_response_pending = false } in
        rw
          (canceled_event (with_endpoint a (after e.goal (mark_accepted b))) e valid c here m
            (ground arith)
            (cancel_rejected-next c ag.valid (cancel_event e) (ground arith)
              (ground (arith, ag.same_state)) (ground (arith, ag.same_state))))
          (
            refl,
            move_both k e.goal m (mark_accepted b) (record {
              valid = ground (arith, ag.valid, ag.same_state, ag.unfinished);
              unfinished = ag.unfinished;
              same_state = ground (arith, ag.same_state);
              same_sequence = ag.same_sequence;
            }),
            p,
          )

    ended-Routed :
        e.type ≡ ClientEventType.result
        → (status : ℕ) → e.terminal_status ≡ terminal_status_of status
        → admits_result b.state status ≡ true
        → Routed (freed e.goal b) ClientEventType.result
    unfolding route_event release_binding
    ended-Routed p status s w =
        let (c, here, ag) = context_of k e.goal b at (ground arith) in
        rw
          (ended_event (with_endpoint a (freed e.goal b)) e valid c here (
            result-transitions c ag.valid (result_event e) refl (
              subst (λ x. is_allowed_result c.state x ≡ true) (sym s)
                (admitted_allowed c b status ag w))))
          (refl, rw (remove_goal-erase e.goal a.goals k.unique) (drop_both k e.goal), p)

  timed_out-Routed :
      (e : ClientEvent) (b : ClientPacketBinding)
      → lookup e.goal a.endpoint.packet_bindings ≡ some b
      → e.type ≡ ClientEventType.timeout
      → is_awaiting b.state ≡ true
      → Handles (after e.goal (mark_timed_out b)) ClientEventType.timeout (
          route_event (with_endpoint a (after e.goal (mark_timed_out b))) e ClientEventType.timeout)
  unfolding route_event store_binding
  timed_out-Routed e b at p w =
      let fresh : lookup e.goal a.goals ≡ none =
        no_context_of k e.goal is_pending agreed-past b at (ground arith) in
      (
        refl,
        put_awaited k e.goal fresh (mark_timed_out b) (ground (arith, k.awaited e.goal b at fresh)),
        p,
      )

overdue_waits :
    (now : ℕ) (b : ClientPacketBinding) → is_overdue now b ≡ true → is_awaiting b.state ≡ true
unfolding is_overdue
overdue_waits now b h = ground arith

module _ (a : ActionInstance) (k : Couples Agree waits a.goals a.endpoint.packet_bindings) where
  abbrev named : ClientEvent → ClientEvent
  named e = record e { action_name = a.action_name }

  -- The event of the endpoint, with its type, is the one that `poll_action` returns.
  abbrev Hands : Endpoint → ClientEvent → ClientEventType → Type 0
  Hands t e type = Handles t type (route_event (with_endpoint a t) (named e) type)

  -- In each case, the endpoint and the type of the event are those that the outcome names.
  hands :
      (t u : Endpoint) (e : ClientEvent) (type : ClientEventType)
      → t ≡ u
      → e.type ≡ type
      → Hands u e type
      → Hands t e e.type
  hands t u e type q p h = subst (λ x. Hands t e x) (sym p) (subst (λ x. Hands x e type) (sym q) h)

  Reports-Hands :
      (now : ℕ) (l : List PendingPacket) (e : ClientEvent) (t : Endpoint)
      → Reports now a.endpoint l e t
      → Hands t e e.type
  unfolding route_event
  Reports-Hands now l e t (quiet p q) =
      hands t _ e ClientEventType.none q (ap (λ x. x.type) p) (refl, k, refl)
  Reports-Hands now l e t (admitted b p d u at w q) =
      hands t _ e _ q p (admitted-Routed a k l (named e) b u at p d w)
  Reports-Hands now l e t (refused b p d u at w q) =
      hands t _ e _ q p (refused-Routed a k l (named e) b u at p d w)
  Reports-Hands now l e t (fed b p d u at w q) =
      hands t _ e _ q p (fed-Routed a k l (named e) b u at p d (ground arith))
  Reports-Hands now l e t (cancel_granted b p d u at w q) =
      hands t _ e _ q p (granted-Routed a k l (named e) b u at p d w)
  Reports-Hands now l e t (cancel_denied b p d u at w q) =
      hands t _ e _ q p (denied-Routed a k l (named e) b u at p d w)
  Reports-Hands now l e t (ended b n p d u at w q) =
      hands t _ e _ q p (ended-Routed a k l (named e) b u at p n d w)
  Reports-Hands now l e t (timed_out b p first q) =
      hands t _ e _ q p
        (timed_out-Routed a k l (named e) b first.found p (overdue_waits now b first.overdue))

-- From an Action whose two layers agree, one poll keeps them in agreement, and the application gets
-- an event of just the type that the endpoint produced: no event becomes an ERROR or is dropped.
pub poll_action-Hands :
    (v : PacketEnv) (now : ℕ) (a : ActionInstance)
    → IsCoupled a
    → IsCoupled (poll_action v now a).0
      × ((poll_action v now a).1.type ≡ (poll v now a.endpoint).1.type)
unfolding poll_action
poll_action-Hands v now a k =
    let h =
      Reports-Hands a k.layers now _ (poll v now a.endpoint).1 (poll v now a.endpoint).0
        (poll-Reports v now a.endpoint k.consistent.unique) in
    (
      record {
        consistent = subst IsConsistent (sym h.0) (poll_keeps v now a.endpoint k.consistent);
        layers =
            subst (λ t. Couples Agree waits (poll_action v now a).0.goals t.packet_bindings)
              (sym h.0) h.1;
      },
      h.2,
    )

ended-ne-error :
    (now : ℕ) (s : Endpoint) (l : List PendingPacket) (e : ClientEvent) (t : Endpoint)
    → Reports now s l e t
    → e.type ≢ ClientEventType.error
ended-ne-error now s l e t (quiet p q) = λ is. ground (arith, ap (λ x. x.type) p)
ended-ne-error now s l e t (admitted b p d u at w q) = λ is. ground arith
ended-ne-error now s l e t (refused b p d u at w q) = λ is. ground arith
ended-ne-error now s l e t (fed b p d u at w q) = λ is. ground arith
ended-ne-error now s l e t (cancel_granted b p d u at w q) = λ is. ground arith
ended-ne-error now s l e t (cancel_denied b p d u at w q) = λ is. ground arith
ended-ne-error now s l e t (ended b n p d u at w q) = λ is. ground arith
ended-ne-error now s l e t (timed_out b p first q) = λ is. ground arith

pub poll-ne-error_event :
    (v : PacketEnv) (now : ℕ) (a : ActionInstance)
    → IsCoupled a
    → (poll_action v now a).1.type ≢ ClientEventType.error
poll-ne-error_event v now a k =
    subst (λ (x : ClientEventType). x ≢ ClientEventType.error) (sym (poll_action-Hands v now a k).1)
      (ended-ne-error now a.endpoint _ _ _ (poll-Reports v now a.endpoint k.consistent.unique))
