-- ===== src/Action/ServerMachine/Steps.antt =====
-- One transition of the Server machine against the diagram of the protocol.
use hakoniwa_pdu_rpc.Base.{◌≡◌, ◌≢◌, ◌⊎◌, inl, inr, refl, true, false, arith}
use hakoniwa_pdu_rpc.Action.Types.{
  GoalState, executing, canceling, finishing, TerminalStatus, succeeded, canceled, aborted,
}
use hakoniwa_pdu_rpc.Action.ServerMachine.{
  CancelOrigin, client, runtime, ServerGoalEvent, ServerGoalContext, transitioned, move,
  is_valid_server_context, transition_server_goal, complete_succeeded, complete_canceled,
  complete_aborted, accept_cancel, reject_cancel, cancel_request_received, runtime_cancel_requested,
}

-- How a Goal may end: by which call, in which state, with which status.
pub data Ends : ServerGoalEvent → GoalState → TerminalStatus → Type 0 where
  succeed : Ends complete_succeeded executing succeeded
  abort : Ends complete_aborted executing aborted
  cancel : Ends complete_canceled canceling canceled
  abort_canceling : Ends complete_aborted canceling aborted

Ends-cases :
    {e : ServerGoalEvent} {s : GoalState} {t : TerminalStatus}
    → Ends e s t
    → ((e ≡ complete_succeeded) × (s ≡ executing) × (t ≡ succeeded))
      ⊎ ((e ≡ complete_aborted) × (s ≡ executing) × (t ≡ aborted))
      ⊎ ((e ≡ complete_canceled) × (s ≡ canceling) × (t ≡ canceled))
      ⊎ ((e ≡ complete_aborted) × (s ≡ canceling) × (t ≡ aborted))
Ends-cases succeed = inl (refl, refl, refl)
Ends-cases abort = inr (inl (refl, refl, refl))
Ends-cases cancel = inr (inr (inl (refl, refl, refl)))
Ends-cases abort_canceling = inr (inr (inr (refl, refl, refl)))

-- The moves of the protocol: which event changes a context, and into what. A decision is pending
-- on one request at a time, of the Client or of the Runtime; a Runtime request takes the place of
-- a Client's, whose response can no longer be sent. The last is section 11 of
-- docs/design/action/04-state-model.md; section 17 of it says instead that the event is a NOP.
pub data Step (c : ServerGoalContext) (e : ServerGoalEvent) (d : ServerGoalContext) : Type 0 where
  ask :
      e ≡ cancel_request_received
      → c.state ≡ executing
      → c.cancel_decision_pending ≡ false
      → d ≡ record c { cancel_decision_pending = true; cancel_origin = client }
      → Step c e d
  ask_runtime :
      e ≡ runtime_cancel_requested
      → c.state ≡ executing
      → c.cancel_decision_pending ≡ false
      → d ≡ record c { cancel_decision_pending = true; cancel_origin = runtime }
      → Step c e d
  take_over :
      e ≡ runtime_cancel_requested
      → c.state ≡ executing
      → c.cancel_origin ≡ client
      → d ≡ record c { cancel_origin = runtime }
      → Step c e d
  agree :
      e ≡ accept_cancel
      → c.state ≡ executing
      → c.cancel_decision_pending ≡ true
      → d ≡ record c {
        state = canceling;
        cancel_decision_pending = false;
        cancel_origin = CancelOrigin.none;
      }
      → Step c e d
  decline :
      e ≡ reject_cancel
      → c.state ≡ executing
      → c.cancel_decision_pending ≡ true
      → d ≡ record c { cancel_decision_pending = false; cancel_origin = CancelOrigin.none }
      → Step c e d
  end :
      Ends e c.state d.terminal_status
      → d ≡ record c {
        state = finishing;
        cancel_decision_pending = false;
        cancel_origin = CancelOrigin.none;
        terminal_status = d.terminal_status;
      }
      → Step c e d

ruleset moves =
    (ask, ask_runtime, take_over, agree, decline, end, succeed, abort, cancel, abort_canceling)

-- Every transition of a valid context leads to a valid context, and one that is refused or ignored
-- leaves the context as it was, valid or not.
pub transition_server_goal-IsValid :
    (c : ServerGoalContext) (e : ServerGoalEvent)
    → (is_valid_server_context c ≡ true
        → is_valid_server_context (transition_server_goal c e).next ≡ true)
      × ((transition_server_goal c e).kind ≢ transitioned → (transition_server_goal c e).next ≡ c)
unfolding transition_server_goal
transition_server_goal-IsValid c e = (λ h. ground arith, λ h. ground arith)

-- The code takes no move that the diagram does not have, in which a Runtime cancel takes over a
-- Client's that awaits its decision.
pub transition_server_goal_sound :
    (c : ServerGoalContext) (e : ServerGoalEvent)
    → (transition_server_goal c e).kind ≡ transitioned
    → Step c e (transition_server_goal c e).next
unfolding transition_server_goal
transition_server_goal_sound c e h = grind (arith, moves)

-- The code takes every move of the diagram, from a valid context, the Runtime cancel that takes over
-- a Client's included.
pub transition_server_goal_complete :
    (c d : ServerGoalContext) (e : ServerGoalEvent)
    → is_valid_server_context c ≡ true
    → Step c e d
    → transition_server_goal c e ≡ move d
unfolding transition_server_goal
transition_server_goal_complete c d e v (ask t s p r) = ground arith
transition_server_goal_complete c d e v (ask_runtime t s p r) = ground arith
transition_server_goal_complete c d e v (take_over t s p r) = ground arith
transition_server_goal_complete c d e v (agree t s p r) = ground arith
transition_server_goal_complete c d e v (decline t s p r) = ground arith
transition_server_goal_complete c d e v (end m r) = ground (arith, Ends-cases m)
