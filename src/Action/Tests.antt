-- ===== src/Action/Tests.antt =====
-- Concrete Action servers and Goals, at which the theorems about src/action_services_server.cpp,
-- src/action_server_endpoint_impl.cpp and the two state machines apply.
use hakoniwa_pdu_rpc.Base.{◌≡◌, ◌≢◌, refl, List, [], ◌∷◌, arith}
use hakoniwa_pdu_rpc.Base.Map.{lookup}
use hakoniwa_pdu_rpc.Action.Types.{ServerEventType, canceled}
use hakoniwa_pdu_rpc.Action.Packet.{PacketEnv}
use hakoniwa_pdu_rpc.Action.Samples.{sample_env, sample_endpoint, sample_goal}
use hakoniwa_pdu_rpc.Action.ServicesServer.Services.{ActionServices, poll, poll_runtime, call}
use hakoniwa_pdu_rpc.Action.ServicesServer.Services as Services
use hakoniwa_pdu_rpc.Action.ServicesServer.Layers.{AllCoupled}
use hakoniwa_pdu_rpc.Action.ServicesServer.Server.{
  Event, packet_received, polled, disconnected, requested, run, step, run-AllCoupled, poll-ne-error,
}
use hakoniwa_pdu_rpc.Base.{ℕ, zero, suc, sym, subst, bytes_equality, false, some, none}
use hakoniwa_pdu_rpc.Action.Types.{GoalId, TerminalStatus, succeeded, finishing}
use hakoniwa_pdu_rpc.Action.ServerMachine.{
  ServerGoalContext, initial_context, is_valid_server_context,
}
use hakoniwa_pdu_rpc.Action.ServerEndpoint.{ActionPacketBinding, goal_accepted, owner_at}
use hakoniwa_pdu_rpc.Action.ServerEndpoint.Consistency.{IsConsistent}
use hakoniwa_pdu_rpc.Action.ServicesServer.{ActionInstance, complete_goal}
use hakoniwa_pdu_rpc.Action.ServicesServer.Coupling.{IsCoupled, Agree}
use hakoniwa_pdu_rpc.Action.ServicesServer.Completion.{Ended, complete_goal-Ended, finished_refuses}

abbrev pub sample_services : ActionServices
sample_services = record {
  actions = record { action_name = "fibonacci"; endpoint = sample_endpoint; goals = [] } ∷ [];
  pending_runtime_events = [];
}

-- A Goal is asked for, accepted, cancelled by its Client and ends as canceled.
abbrev sample_events : List (PacketEnv × Event)
sample_events =
    (sample_env, packet_received "fibonacci" 0 (1 ∷ sample_goal))
    ∷ (sample_env, polled)
    ∷ (sample_env, requested "fibonacci" sample_goal Services.accept_goal)
    ∷ (sample_env, packet_received "fibonacci" 0 (2 ∷ sample_goal))
    ∷ (sample_env, polled)
    ∷ (sample_env, requested "fibonacci" sample_goal Services.accept_cancel)
    ∷ (sample_env, disconnected)
    ∷ (sample_env, requested "fibonacci" sample_goal (Services.complete canceled (9 ∷ [])))
    ∷ []

pub sample_coupled : AllCoupled sample_services.actions
unfolding lookup
sample_coupled = (
  record {
    no_events = refl;
    unique = tt;
    known = λ g c e. absurd (ground (arith, e));
    awaited = λ g b e. absurd (ground (arith, e));
  },
  tt,
)

run-AllCoupled_example : AllCoupled (run sample_services sample_events).actions
run-AllCoupled_example = run-AllCoupled sample_services sample_events sample_coupled

abbrev quiet_events : List (PacketEnv × Event)
quiet_events =
    (sample_env, packet_received "fibonacci" 0 (1 ∷ sample_goal))
    ∷ (sample_env, packet_received "fibonacci" 1 (2 ∷ sample_goal))
    ∷ []

quiet_events-none : (run sample_services quiet_events).pending_runtime_events ≡ []
unfolding run step
quiet_events-none = refl

poll-ne-error_example :
    (poll sample_env (run sample_services quiet_events)).2.type ≢ ServerEventType.error
poll-ne-error_example =
    poll-ne-error sample_services quiet_events sample_env sample_coupled quiet_events-none

-- An Action with one Goal that executes in the first slot.
abbrev accepted_binding : ActionPacketBinding
accepted_binding = record {
  goal_id = sample_goal;
  slot_index = 0;
  state = goal_accepted;
  next_feedback_sequence = 0;
  cancel_decision_pending = false;
}

abbrev executing_action : ActionInstance
executing_action = record {
  action_name = "fibonacci";
  endpoint = record sample_endpoint {
    packet_bindings = (sample_goal, accepted_binding) ∷ [];
    slot_owners = some sample_goal ∷ none ∷ [];
  };
  goals = (sample_goal, initial_context) ∷ [];
}

initial_agrees : Agree initial_context accepted_binding
unfolding is_valid_server_context
initial_agrees = record {
  valid = refl;
  same_state = refl;
  owes = λ is. absurd (ground (arith, is));
}

only_goal :
    (g : GoalId) (c : ServerGoalContext)
    → lookup g executing_action.goals ≡ some c
    → (b : ActionPacketBinding) × (lookup g executing_action.endpoint.packet_bindings ≡ some b)
      × Agree c b
unfolding lookup
only_goal g c e =
    let p : initial_context ≡ c = ground (arith, e, bytes_equality.equals_iff sample_goal g) in
    (
      accepted_binding,
      ground (arith, e, bytes_equality.equals_iff sample_goal g),
      subst (λ (x : ServerGoalContext). Agree x accepted_binding) p initial_agrees,
    )

executing_action-IsCoupled : IsCoupled executing_action
unfolding lookup
executing_action-IsCoupled = record {
  no_events = refl;
  unique = (refl, tt);
  known = only_goal;
  awaited = λ g b e f. absurd (ground (arith, e, f, bytes_equality.equals_iff sample_goal g));
}

only_owner :
    (i : ℕ) (g : GoalId)
    → owner_at (some sample_goal ∷ none ∷ []) i ≡ some g
    → (sample_goal ≡ g) × (i ≡ 0)
unfolding owner_at
only_owner zero g e = ground (arith, e)
only_owner (suc zero) g e = absurd (ground (arith, e))
only_owner (suc (suc i)) g e = absurd (ground (arith, e))

executing-IsConsistent : IsConsistent executing_action.endpoint
unfolding lookup owner_at
executing-IsConsistent = record {
  sized = refl;
  unique = (refl, tt);
  bound = λ g b e. ground (arith, e, bytes_equality.equals_iff sample_goal g);
  owned = λ g i e.
      let (same, first) = only_owner i g e in
      (accepted_binding, ground (arith, same, bytes_equality.equals_iff sample_goal g), sym first);
}

complete_goal-Ended_example :
    Ended sample_env executing_action sample_goal succeeded
      (9 ∷ [])
      false
      (complete_goal sample_env executing_action sample_goal succeeded (9 ∷ []) false)
complete_goal-Ended_example =
    complete_goal-Ended sample_env executing_action sample_goal succeeded (9 ∷ []) false
      executing_action-IsCoupled executing-IsConsistent

abbrev finished_context : ServerGoalContext
finished_context = record initial_context {
  state = finishing;
  terminal_status = TerminalStatus.succeeded;
}

abbrev finished_action : ActionInstance
finished_action = record executing_action { goals = (sample_goal, finished_context) ∷ [] }

finished_refuses_example :
    Services.perform sample_env sample_goal (Services.complete succeeded (9 ∷ [])) finished_action
    ≡ (finished_action, false)
unfolding lookup
finished_refuses_example =
    finished_refuses sample_env finished_action sample_goal finished_context
      (Services.complete succeeded (9 ∷ [])) refl refl
