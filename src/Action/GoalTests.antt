-- ===== src/Action/GoalTests.antt =====
-- Concrete Goals, at which the theorems about src/action_client_state_machine.cpp and
-- src/action_server_state_machine.cpp apply.
use hakoniwa_pdu_rpc.Base.{ℕ, ◌≡◌, ◌≢◌, refl, true, List, [], ◌∷◌}
use hakoniwa_pdu_rpc.Action.Types.{TerminalStatus, canceled, aborted}
use hakoniwa_pdu_rpc.Action.ClientMachine as Client
use hakoniwa_pdu_rpc.Action.ClientMachine.{
  ClientGoalEventType, ClientGoalEvent, ClientGoalContext, request_cancel, feedback_received,
  cancel_response_accepted, result_received, transition_client_goal, is_valid_client_context,
}
use hakoniwa_pdu_rpc.Action.ClientMachine.Steps as ClientSteps
use hakoniwa_pdu_rpc.Action.ClientMachine.Steps.{
  transition_client_goal-IsValid, transition_client_goal_sound, transition_client_goal_complete,
}
use hakoniwa_pdu_rpc.Action.ClientMachine.Runs.{
  run, run-IsValid, delivered, IsConsecutive, delivered-IsConsecutive, occurs, cancel_asked,
  cancel_accepted, canceled_received, canceled_needs_acceptance,
}
use hakoniwa_pdu_rpc.Action.ServerMachine as Server
use hakoniwa_pdu_rpc.Action.ServerMachine.{
  ServerGoalContext, ServerGoalEvent, transition_server_goal, is_valid_server_context,
}
use hakoniwa_pdu_rpc.Action.ServerMachine.Steps as ServerSteps
use hakoniwa_pdu_rpc.Action.ServerMachine.Steps.{
  transition_server_goal-IsValid, transition_server_goal_sound, transition_server_goal_complete,
}

abbrev sample_event : ClientGoalEventType → TerminalStatus → ℕ → ClientGoalEvent
sample_event type status sequence = record {
  type = type;
  terminal_status = status;
  feedback_sequence = sequence;
}

-- Feedback, a repetition of it, and a Cancel that the Server accepts and carries out.
abbrev sample_events : List ClientGoalEvent
sample_events =
    sample_event feedback_received TerminalStatus.unspecified 0
    ∷ sample_event feedback_received TerminalStatus.unspecified 0
    ∷ sample_event request_cancel TerminalStatus.unspecified 0
    ∷ sample_event feedback_received TerminalStatus.unspecified 1
    ∷ sample_event cancel_response_accepted TerminalStatus.unspecified 0
    ∷ sample_event result_received canceled 0
    ∷ []

run-IsValid_example : is_valid_client_context (run Client.initial_context sample_events) ≡ true
unfolding is_valid_client_context
run-IsValid_example = run-IsValid Client.initial_context sample_events refl

delivered-IsConsecutive_example : IsConsecutive 0 (delivered Client.initial_context sample_events)
delivered-IsConsecutive_example = delivered-IsConsecutive Client.initial_context sample_events

canceled_needs_acceptance_example :
    occurs (cancel_asked ∷ cancel_accepted ∷ canceled_received ∷ []) sample_events ≡ true
unfolding run transition_client_goal
canceled_needs_acceptance_example = canceled_needs_acceptance sample_events refl

transition_client_goal-IsValid_example :
    (is_valid_client_context Client.initial_context ≡ true
      → is_valid_client_context
          (transition_client_goal Client.initial_context
            (sample_event result_received aborted 0)).next
        ≡ true)
    × ((transition_client_goal Client.initial_context (sample_event result_received aborted 0)).kind
          ≢ Client.transitioned
        → (transition_client_goal Client.initial_context
            (sample_event result_received aborted 0)).next
          ≡ Client.initial_context)
transition_client_goal-IsValid_example =
    transition_client_goal-IsValid Client.initial_context (sample_event result_received aborted 0)

transition_client_goal_sound_example :
    ClientSteps.Step Client.initial_context
      (sample_event result_received aborted 0)
      (transition_client_goal Client.initial_context (sample_event result_received aborted 0)).next
unfolding transition_client_goal
transition_client_goal_sound_example =
    transition_client_goal_sound Client.initial_context (sample_event result_received aborted 0)
      refl

abbrev asked_context : ClientGoalContext
asked_context = record Client.initial_context { cancel_response_pending = true }

transition_client_goal_complete_example :
    transition_client_goal Client.initial_context
      (sample_event request_cancel TerminalStatus.unspecified 0)
    ≡ Client.move asked_context
unfolding is_valid_client_context
transition_client_goal_complete_example =
    transition_client_goal_complete Client.initial_context asked_context
      (sample_event request_cancel TerminalStatus.unspecified 0) refl
      (ClientSteps.ask refl refl refl refl)

transition_server_goal-IsValid_example :
    (is_valid_server_context Server.initial_context ≡ true
      → is_valid_server_context
          (transition_server_goal Server.initial_context ServerGoalEvent.complete_aborted).next
        ≡ true)
    × ((transition_server_goal Server.initial_context ServerGoalEvent.complete_aborted).kind
          ≢ Server.ServerTransitionKind.transitioned
        → (transition_server_goal Server.initial_context ServerGoalEvent.complete_aborted).next
          ≡ Server.initial_context)
transition_server_goal-IsValid_example =
    transition_server_goal-IsValid Server.initial_context ServerGoalEvent.complete_aborted

transition_server_goal_sound_example :
    ServerSteps.Step Server.initial_context ServerGoalEvent.runtime_cancel_requested
      (transition_server_goal Server.initial_context ServerGoalEvent.runtime_cancel_requested).next
unfolding transition_server_goal
transition_server_goal_sound_example =
    transition_server_goal_sound Server.initial_context ServerGoalEvent.runtime_cancel_requested
      refl

abbrev owing_context : ServerGoalContext
owing_context = record Server.initial_context {
  cancel_decision_pending = true;
  cancel_origin = Server.client;
}

transition_server_goal_complete_example :
    transition_server_goal Server.initial_context ServerGoalEvent.cancel_request_received
    ≡ Server.move owing_context
unfolding is_valid_server_context
transition_server_goal_complete_example =
    transition_server_goal_complete Server.initial_context owing_context
      ServerGoalEvent.cancel_request_received refl (ServerSteps.ask refl refl refl refl)
