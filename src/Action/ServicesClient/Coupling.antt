-- ===== src/Action/ServicesClient/Coupling.antt =====
-- The two layers of an Action client agree about every Goal: the context that the state machine
-- keeps, and the binding that the packet endpoint keeps (src/action_services_client.cpp,
-- src/action_client_endpoint_impl.cpp).
use hakoniwa_pdu_rpc.Base.{
  ◌≡◌, refl, Bool, true, false, eqb, ◌&&◌, if◌then◌else◌, List, [], ◌∷◌, arith, bytes_equality,
}
use hakoniwa_pdu_rpc.Base.Map.{erase, Unique, erase_absent}
use hakoniwa_pdu_rpc.Action.Types.{GoalId, is_finishing, is_executing}
use hakoniwa_pdu_rpc.Action.Layers.{Couples}
use hakoniwa_pdu_rpc.Action.ClientMachine.{ClientGoalContext, is_valid_client_context}
use hakoniwa_pdu_rpc.Action.ClientEndpoint.{
  BindingState, ClientPacketBinding, awaiting_goal_response, goal_response_timed_out,
  awaiting_cancel_response,
}
use hakoniwa_pdu_rpc.Action.ClientEndpoint.Consistency.{IsConsistent}
use hakoniwa_pdu_rpc.Action.ServicesClient.{ActionInstance, remove_goal}

-- The binding state that a context goes with.
abbrev pub binding_state : ClientGoalContext → BindingState
binding_state c =
    if is_executing c.state
    then (if c.cancel_response_pending then awaiting_cancel_response else BindingState.accepted)
    else BindingState.canceling

-- An accepted Goal that has no Result yet.
pub record Agree (c : ClientGoalContext) (b : ClientPacketBinding) : Type 0 where
  pub valid : is_valid_client_context c ≡ true
  pub unfinished : is_finishing c.state ≡ false
  pub same_state : b.state ≡ binding_state c
  pub same_sequence : b.next_feedback_sequence ≡ c.next_feedback_sequence

-- The Server has not answered, in time or at all.
abbrev pub is_pending : ClientPacketBinding → Bool
is_pending b = elim b.state [
  | awaiting_goal_response ↦ true
  | goal_response_timed_out ↦ true
  | _ ↦ false
]

abbrev pub waits : ClientPacketBinding → Bool
waits b = is_pending b && eqb b.next_feedback_sequence 0

pub record IsCoupled (a : ActionInstance) : Type 0 where
  pub consistent : IsConsistent a.endpoint
  pub layers : Couples Agree waits a.goals a.endpoint.packet_bindings

pub agreed-past :
    (c : ClientGoalContext) (b : ClientPacketBinding) → Agree c b → is_pending b ≡ false
agreed-past c b ag = ground (arith, ag.same_state)

pub remove_goal-erase :
    (g : GoalId) (m : List (GoalId × ClientGoalContext)) → Unique m → remove_goal g m ≡ erase g m
unfolding remove_goal erase
remove_goal-erase g [] u = refl
remove_goal-erase g ((j, d) ∷ m) u =
    ground (arith, remove_goal-erase g m, bytes_equality.equals_iff j g, erase_absent g m)
