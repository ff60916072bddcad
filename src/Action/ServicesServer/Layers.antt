-- ===== src/Action/ServicesServer/Layers.antt =====
-- All the Actions of a server: the methods of src/action_services_server.cpp in any order.
use hakoniwa_pdu_rpc.Base.{
  ◌≡◌, ◌≢◌, refl, Bool, true, false, not, ◌||◌, List, [], ◌∷◌, String, if_split, string_equality,
  ◌==◌,
}
use hakoniwa_pdu_rpc.Action.Types.{
  GoalId, ServerEvent, ServerEventType, runtime_cancel_request, is_valid_goal_id,
}
use hakoniwa_pdu_rpc.Action.Packet.{PacketEnv}
use hakoniwa_pdu_rpc.Action.ServerEndpoint.Operations
use hakoniwa_pdu_rpc.Action.ServicesServer.{ActionInstance}
use hakoniwa_pdu_rpc.Action.ServicesServer.Services.{
  ActionServices, on_action, call, Request, accept_goal, reject_goal, accept_cancel, reject_cancel,
  discard_pending_goal, send_feedback, complete, complete_locally, perform, poll_action,
  poll_actions, handle_runtime, poll_runtime, poll,
}
use hakoniwa_pdu_rpc.Action.ServicesServer.Coupling.{IsCoupled}
use hakoniwa_pdu_rpc.Action.ServicesServer.Agreement.{
  accept_goal-IsCoupled, reject_goal-IsCoupled, discard-IsCoupled, send_feedback-IsCoupled,
  accept_cancel-IsCoupled, reject_cancel-IsCoupled, complete_goal-IsCoupled,
}
use hakoniwa_pdu_rpc.Action.ServicesServer.Events.{
  handle_cancel_event-IsCoupled, poll_action-IsCoupled, poll_action-ne-error,
}

-- Both layers of every Action agree.
abbrev pub AllCoupled : List ActionInstance → Type 0
AllCoupled [] = Unit {0}
AllCoupled (a ∷ rest) = IsCoupled a × AllCoupled rest

perform-IsCoupled :
    (v : PacketEnv) (g : GoalId) (r : Request) (a : ActionInstance)
    → IsCoupled a
    → IsCoupled (perform v g r a).0
unfolding perform
perform-IsCoupled v g accept_goal a k = accept_goal-IsCoupled v a k g
perform-IsCoupled v g reject_goal a k = reject_goal-IsCoupled v a k g
perform-IsCoupled v g accept_cancel a k = accept_cancel-IsCoupled v a k g
perform-IsCoupled v g reject_cancel a k = reject_cancel-IsCoupled v a k g
perform-IsCoupled v g discard_pending_goal a k = discard-IsCoupled v a k g
perform-IsCoupled v g (send_feedback packet) a k = send_feedback-IsCoupled v a k g packet
perform-IsCoupled v g (complete status packet) a k =
    complete_goal-IsCoupled v a k g status packet false
perform-IsCoupled v g (complete_locally status packet) a k =
    complete_goal-IsCoupled v a k g status packet true

abbrev KeepsAll : List ActionInstance × Bool → Type 0
KeepsAll r = AllCoupled r.0

on_action-AllCoupled :
    (v : PacketEnv) (g : GoalId) (r : Request) (name : String) (actions : List ActionInstance)
    → AllCoupled actions
    → AllCoupled (on_action name (perform v g r) actions).0
unfolding on_action
on_action-AllCoupled v g r name [] k = tt
on_action-AllCoupled v g r name (a ∷ rest) k =
    if_split KeepsAll (a.action_name == name) _ _ (λ _. (perform-IsCoupled v g r a k.0, k.1))
      λ _. (k.0, on_action-AllCoupled v g r name rest k.1)

abbrev KeepsServices : ActionServices × Bool → Type 0
KeepsServices r = AllCoupled r.0.actions

-- The calls of the application.
pub call-AllCoupled :
    (v : PacketEnv) (s : ActionServices) (name : String) (g : GoalId) (r : Request)
    → AllCoupled s.actions
    → AllCoupled (call s name g (perform v g r)).0.actions
unfolding call
call-AllCoupled v s name g r k =
    if_split KeepsServices (name == "" || not (is_valid_goal_id g)) _ _ (λ _. k)
      λ _. on_action-AllCoupled v g r name s.actions k

runtime-ne-cancel : runtime_cancel_request ≢ ServerEventType.cancel_request
runtime-ne-cancel is = cc

abbrev KeepsRuntime : List ActionInstance × ServerEvent → Type 0
KeepsRuntime r = AllCoupled r.0

handle_runtime-AllCoupled :
    (actions : List ActionInstance) (event : ServerEvent)
    → AllCoupled actions
    → AllCoupled (handle_runtime actions event).0
unfolding handle_runtime
handle_runtime-AllCoupled [] event k = tt
handle_runtime-AllCoupled (a ∷ rest) event k =
    if_split KeepsRuntime (a.action_name == event.action_name) _ _
      (λ _. (
        handle_cancel_event-IsCoupled a runtime_cancel_request event k.0
            (λ b at is. absurd (runtime-ne-cancel is)),
        k.1,
      ))
      λ _. (k.0, handle_runtime-AllCoupled rest event k.1)

abbrev KeepsEvents : List ActionInstance × List ServerEvent × ServerEvent → Type 0
KeepsEvents r = AllCoupled r.0

none_split {ℓ κ} :
    {A : Type ℓ} (P : A → Type κ) (e : ServerEventType) (x y : A)
    → (e ≡ ServerEventType.none → P x)
    → (e ≢ ServerEventType.none → P y)
    → P (elim e [ ServerEventType.none ↦ x | _ ↦ y ])
none_split P ServerEventType.none x y p q = p refl
none_split P ServerEventType.goal_request x y p q = q (λ is. cc)
none_split P ServerEventType.cancel_request x y p q = q (λ is. cc)
none_split P ServerEventType.runtime_cancel_request x y p q = q (λ is. cc)
none_split P ServerEventType.error x y p q = q (λ is. cc)

poll_runtime-AllCoupled :
    (actions : List ActionInstance) (events : List ServerEvent)
    → AllCoupled actions
    → AllCoupled (poll_runtime actions events).0
unfolding poll_runtime
poll_runtime-AllCoupled actions [] k = k
poll_runtime-AllCoupled actions (event ∷ rest) k =
    let h = handle_runtime-AllCoupled actions event k in
    none_split KeepsEvents (handle_runtime actions event).1.type _ _
      (λ _. poll_runtime-AllCoupled (handle_runtime actions event).0 rest h) (λ _. h)

abbrev KeepsPolled : List ActionInstance × String × ServerEvent → Type 0
KeepsPolled r = AllCoupled r.0

poll_actions-AllCoupled :
    (v : PacketEnv) (actions : List ActionInstance)
    → AllCoupled actions
    → AllCoupled (poll_actions v actions).0
unfolding poll_actions
poll_actions-AllCoupled v [] k = tt
poll_actions-AllCoupled v (a ∷ rest) k =
    let h = poll_action-IsCoupled v a k.0 in
    none_split KeepsPolled (poll_action v a).1.type _ _
      (λ _. (h, poll_actions-AllCoupled v rest k.1)) (λ _. (h, k.1))

abbrev KeepsPoll : ActionServices × String × ServerEvent → Type 0
KeepsPoll r = AllCoupled r.0.actions

pub poll-AllCoupled :
    (v : PacketEnv) (s : ActionServices) → AllCoupled s.actions → AllCoupled (poll v s).0.actions
unfolding poll
poll-AllCoupled v s k =
    let h = poll_runtime-AllCoupled s.actions s.pending_runtime_events k in
    none_split KeepsPoll (poll_runtime s.actions s.pending_runtime_events).2.type _ _
      (λ _. poll_actions-AllCoupled v (poll_runtime s.actions s.pending_runtime_events).0 h)
      (λ _. h)

abbrev NoErrors : List ActionInstance × String × ServerEvent → Type 0
NoErrors r = r.2.type ≢ ServerEventType.error

no_event-ne-error : Operations.no_event.type ≢ ServerEventType.error
no_event-ne-error is = cc

pub poll_actions-ne-error :
    (v : PacketEnv) (actions : List ActionInstance)
    → AllCoupled actions
    → (poll_actions v actions).2.type ≢ ServerEventType.error
unfolding poll_actions
poll_actions-ne-error v [] k = no_event-ne-error
poll_actions-ne-error v (a ∷ rest) k =
    none_split NoErrors (poll_action v a).1.type _ _ (λ _. poll_actions-ne-error v rest k.1)
      (λ _. poll_action-ne-error v a k.0)
