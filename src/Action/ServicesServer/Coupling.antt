-- ===== src/Action/ServicesServer/Coupling.antt =====
-- The two layers of an Action server agree about every Goal: the context that the state machine
-- keeps, and the binding that the packet endpoint keeps.
use hakoniwa_pdu_rpc.Base.{
  ◌≡◌, subst, inl, inr, true, none, some, List, [], arith, bytes_equality, Bool-cases,
}
use hakoniwa_pdu_rpc.Base.Map.{
  Unique, insert-Unique, erase-Unique, lookup, insert, erase, lookup-insert, lookup-erase,
}
use hakoniwa_pdu_rpc.Action.Types.{GoalId, ServerEvent, GoalState, executing, canceling, finishing}
use hakoniwa_pdu_rpc.Action.ServerMachine.{client, ServerGoalContext, is_valid_server_context}
use hakoniwa_pdu_rpc.Action.ServerEndpoint.{
  ActionPacketBinding, PacketBindingState, awaiting_goal_decision, goal_accepted, cancel_accepted,
  result_committed,
}
use hakoniwa_pdu_rpc.Action.ServicesServer.{ActionInstance}

-- The binding state that a Goal state goes with.
abbrev pub binding_state : GoalState → PacketBindingState
binding_state executing = goal_accepted
binding_state canceling = cancel_accepted
binding_state finishing = result_committed
binding_state _ = awaiting_goal_decision

-- An accepted Goal: its context is valid, its binding is in the state that goes with it, and where
-- a Client waits for the decision, the endpoint still owes the response.
pub record Agree (c : ServerGoalContext) (b : ActionPacketBinding) : Type 0 where
  pub valid : is_valid_server_context c ≡ true
  pub same_state : b.state ≡ binding_state c.state
  pub owes : c.cancel_origin ≡ client → b.cancel_decision_pending ≡ true

-- Goals with a context are bound and agree; bindings without one await the decision on the Goal.
-- Nothing ever enters the event queue of the endpoint, `pending_events_`.
pub record Couples (goals : List (GoalId × ServerGoalContext))
    (bindings : List (GoalId × ActionPacketBinding)) (events : List ServerEvent) : Type 0 where
  pub no_events : events ≡ []
  pub unique : Unique goals
  pub known :
      (g : GoalId) (c : ServerGoalContext)
      → lookup g goals ≡ some c
      → (b : ActionPacketBinding) × (lookup g bindings ≡ some b) × Agree c b
  pub awaited :
      (g : GoalId) (b : ActionPacketBinding)
      → lookup g bindings ≡ some b
      → lookup g goals ≡ none
      → b.state ≡ awaiting_goal_decision

abbrev pub IsCoupled : ActionInstance → Type 0
IsCoupled a = Couples a.goals a.endpoint.packet_bindings a.endpoint.pending_events

module _ {goals : List (GoalId × ServerGoalContext)}
    {bindings : List (GoalId × ActionPacketBinding)} {events : List ServerEvent}
    (k : Couples goals bindings events) (g : GoalId) where
  -- Both layers move, to an agreeing pair.
  pub move_both :
      (c : ServerGoalContext) (b : ActionPacketBinding)
      → Agree c b
      → Couples (insert g c goals) (insert g b bindings) events
  move_both c b agree = record {
    no_events = k.no_events;
    unique = insert-Unique g c goals k.unique;
    known = λ j d e. elim (Bool-cases (bytes_equality.equals g j)) [
      | inl same ↦
          let p : c ≡ d = ground (arith, lookup-insert g j c goals) in
          (b, ground (arith, lookup-insert g j b bindings), subst (λ x. Agree x b) p agree)
      | inr other ↦
          let (x, at, ag) = k.known j d (ground (arith, lookup-insert g j c goals)) in
          (x, ground (arith, lookup-insert g j b bindings), ag)
    ];
    awaited = λ j d e f.
        ground (arith, lookup-insert g j c goals, lookup-insert g j b bindings, k.awaited j d);
  }

  -- Only the context moves, and still agrees with the binding.
  pub move_context :
      (c : ServerGoalContext) (b : ActionPacketBinding)
      → lookup g bindings ≡ some b
      → Agree c b
      → Couples (insert g c goals) bindings events
  move_context c b at agree = record {
    no_events = k.no_events;
    unique = insert-Unique g c goals k.unique;
    known = λ j d e. elim (Bool-cases (bytes_equality.equals g j)) [
      | inl same ↦
          let p : c ≡ d = ground (arith, lookup-insert g j c goals) in
          (b, ground (arith, bytes_equality.equals_iff g j), subst (λ x. Agree x b) p agree)
      | inr other ↦ k.known j d (ground (arith, lookup-insert g j c goals))
    ];
    awaited = λ j d e f. ground (arith, lookup-insert g j c goals, k.awaited j d);
  }

  -- Only the binding moves, and still agrees with the context.
  pub move_binding :
      (c : ServerGoalContext) (b : ActionPacketBinding)
      → lookup g goals ≡ some c
      → Agree c b
      → Couples goals (insert g b bindings) events
  move_binding c b at agree = record {
    no_events = k.no_events;
    unique = k.unique;
    known = λ j d e. elim (Bool-cases (bytes_equality.equals g j)) [
      | inl same ↦
          let p : c ≡ d = ground (arith, bytes_equality.equals_iff g j) in
          (b, ground (arith, lookup-insert g j b bindings), subst (λ x. Agree x b) p agree)
      | inr other ↦
          let (x, found, ag) = k.known j d e in
          (x, ground (arith, lookup-insert g j b bindings), ag)
    ];
    awaited = λ j d e f.
        ground (arith, bytes_equality.equals_iff g j, lookup-insert g j b bindings, k.awaited j d);
  }

  -- A Goal leaves both layers.
  pub drop_both : Couples (erase g goals) (erase g bindings) events
  drop_both = record {
    no_events = k.no_events;
    unique = erase-Unique g goals k.unique;
    known = λ j d e.
        let (x, at, ag) = k.known j d (ground (arith, lookup-erase g j goals)) in
        (x, ground (arith, lookup-erase g j goals, lookup-erase g j bindings), ag);
    awaited =
        λ j d e f. ground (arith, lookup-erase g j goals, lookup-erase g j bindings, k.awaited j d);
  }

  module _ (fresh : lookup g goals ≡ none) where
    -- A Goal that was not accepted leaves the endpoint.
    pub drop_awaited : Couples goals (erase g bindings) events
    drop_awaited = record {
      no_events = k.no_events;
      unique = k.unique;
      known = λ j d e.
          let (x, at, ag) = k.known j d e in
          (x, ground (arith, bytes_equality.equals_iff g j, lookup-erase g j bindings), ag);
      awaited = λ j d e f. ground (arith, lookup-erase g j bindings, k.awaited j d);
    }

    -- A Goal comes in and awaits the decision.
    pub add_awaited :
        (b : ActionPacketBinding)
        → b.state ≡ awaiting_goal_decision
        → Couples goals (insert g b bindings) events
    add_awaited b waits = record {
      no_events = k.no_events;
      unique = k.unique;
      known = λ j d e.
          let (x, at, ag) = k.known j d e in
          (x, ground (arith, bytes_equality.equals_iff g j, lookup-insert g j b bindings), ag);
      awaited = λ j d e f. ground (arith, lookup-insert g j b bindings, k.awaited j d);
    }
