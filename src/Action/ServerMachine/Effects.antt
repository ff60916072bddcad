-- ===== src/Action/ServerMachine/Effects.antt =====
-- What each transition that the services layer asks for does to a context.
use hakoniwa_pdu_rpc.Base.{◌≡◌, ◌≢◌, ◌⊎◌, refl, true, arith}
use hakoniwa_pdu_rpc.Action.Types.{executing, canceling, finishing}
use hakoniwa_pdu_rpc.Action.ServerMachine.{
  publish_feedback, CancelOrigin, client, runtime, ServerGoalEvent, ServerGoalContext,
  ServerTransitionKind, transitioned, nop, error, is_valid_server_context, transition_server_goal,
  complete_succeeded, complete_canceled, complete_aborted, complete_unspecified, accept_cancel,
  reject_cancel, cancel_request_received, runtime_cancel_requested, initial_context,
}

pub initial_valid : is_valid_server_context initial_context ≡ true
unfolding is_valid_server_context
initial_valid = refl

pub accept_cancel_effect :
    (c : ServerGoalContext)
    → (transition_server_goal c accept_cancel).kind ≡ transitioned
    → (c.state ≡ executing)
      × (c.cancel_decision_pending ≡ true)
      × ((transition_server_goal c accept_cancel).next.state ≡ canceling)
      × ((transition_server_goal c accept_cancel).next.cancel_origin ≡ CancelOrigin.none)
unfolding transition_server_goal
accept_cancel_effect c h = ground arith

pub reject_cancel_effect :
    (c : ServerGoalContext)
    → (transition_server_goal c reject_cancel).kind ≡ transitioned
    → (c.state ≡ executing)
      × (c.cancel_decision_pending ≡ true)
      × ((transition_server_goal c reject_cancel).next.state ≡ executing)
      × ((transition_server_goal c reject_cancel).next.cancel_origin ≡ CancelOrigin.none)
unfolding transition_server_goal
reject_cancel_effect c h = ground arith

-- A cancel event of the endpoint or the Runtime that is not ignored keeps the Goal executing, and
-- names the Client only if the event is the Client's.
pub request_effect :
    (c : ServerGoalContext)
    → ((transition_server_goal c cancel_request_received).kind ≡ transitioned
        → (c.state ≡ executing)
          × ((transition_server_goal c cancel_request_received).next.state ≡ executing)
          × ((transition_server_goal c cancel_request_received).next.cancel_origin ≡ client))
      × ((transition_server_goal c runtime_cancel_requested).kind ≡ transitioned
          → (c.state ≡ executing)
            × ((transition_server_goal c runtime_cancel_requested).next.state ≡ executing)
            × ((transition_server_goal c runtime_cancel_requested).next.cancel_origin ≡ runtime))
unfolding transition_server_goal
request_effect c = (λ h. ground arith, λ h. ground arith)

-- Neither kind of cancel event is an error for a valid context.
pub request_no_error :
    (c : ServerGoalContext)
    → is_valid_server_context c ≡ true
    → ((transition_server_goal c cancel_request_received).kind ≢ error)
      × ((transition_server_goal c runtime_cancel_requested).kind ≢ error)
unfolding transition_server_goal
request_no_error c v = (λ h. ground arith, λ h. ground arith)

pub completion_effect :
    (c : ServerGoalContext) (e : ServerGoalEvent)
    → (e ≡ complete_succeeded)
      ⊎ (e ≡ complete_canceled)
      ⊎ (e ≡ complete_aborted)
      ⊎ (e ≡ complete_unspecified)
    → (transition_server_goal c e).kind ≡ transitioned
    → ((c.state ≡ executing) ⊎ (c.state ≡ canceling))
      × ((transition_server_goal c e).next.state ≡ finishing)
      × ((transition_server_goal c e).next.cancel_origin ≡ CancelOrigin.none)
unfolding transition_server_goal
completion_effect c e w h = ground arith

-- To follow a branch on the kind of a transition.
pub moved_split {ℓ κ} :
    {A : Type ℓ} (P : A → Type κ) (k : ServerTransitionKind) (x y : A)
    → (k ≡ transitioned → P x)
    → P y
    → P (elim k [ transitioned ↦ x | _ ↦ y ])
moved_split P transitioned x y p q = p refl
moved_split P nop x y p q = q
moved_split P error x y p q = q

pub quiet_split {ℓ κ} :
    {A : Type ℓ} (P : A → Type κ) (k : ServerTransitionKind) (x y : A)
    → P x
    → P y
    → P (elim k [ nop ↦ x | _ ↦ y ])
quiet_split P transitioned x y p q = q
quiet_split P nop x y p q = p
quiet_split P error x y p q = q

pub kind_split {ℓ κ} :
    {A : Type ℓ} (P : A → Type κ) (k : ServerTransitionKind) (x y z : A)
    → (k ≡ error → P x)
    → (k ≡ nop → P y)
    → (k ≡ transitioned → P z)
    → P (elim k [ error ↦ x | nop ↦ y | transitioned ↦ z ])
kind_split P transitioned x y z p q r = r refl
kind_split P nop x y z p q r = q refl
kind_split P error x y z p q r = p refl

pub finished_effect :
    (c : ServerGoalContext)
    → c.state ≡ finishing
    → ((transition_server_goal c accept_cancel).kind ≡ error)
      × ((transition_server_goal c reject_cancel).kind ≡ error)
      × ((transition_server_goal c publish_feedback).kind ≡ error)
      × ((transition_server_goal c complete_succeeded).kind ≡ error)
      × ((transition_server_goal c complete_canceled).kind ≡ error)
      × ((transition_server_goal c complete_aborted).kind ≡ error)
      × ((transition_server_goal c complete_unspecified).kind ≡ error)
unfolding transition_server_goal
finished_effect c done = ground arith
