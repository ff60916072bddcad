-- ===== src/Action/ClientMachine/Steps.antt =====
-- One transition of the Client machine against the diagram of the protocol.
use hakoniwa_pdu_rpc.Base.{◌+◌, ◌%◌, ◌^◌, ◌≡◌, ◌≢◌, ◌⊎◌, inl, inr, refl, true, false, arith}
use hakoniwa_pdu_rpc.Action.Types.{
  GoalState, executing, canceling, finishing, TerminalStatus, succeeded, canceled, aborted,
}
use hakoniwa_pdu_rpc.Action.ClientMachine.{
  ClientGoalEvent, ClientGoalContext, transitioned, move, is_valid_client_context,
  transition_client_goal, request_cancel, feedback_received, cancel_response_accepted,
  cancel_response_rejected, result_received, cancel_request_send_failed,
}

-- A Goal that has not finished.
pub data IsLive : GoalState → Type 0 where
  executing_live : IsLive executing
  canceling_live : IsLive canceling

-- The terminal status that a Result may carry in a state.
pub data MayEnd : GoalState → TerminalStatus → Type 0 where
  succeed : MayEnd executing succeeded
  abort : MayEnd executing aborted
  cancel : MayEnd canceling canceled
  abort_canceling : MayEnd canceling aborted

IsLive-cases : {s : GoalState} → IsLive s → (s ≡ executing) ⊎ (s ≡ canceling)
IsLive-cases executing_live = inl refl
IsLive-cases canceling_live = inr refl

MayEnd-cases :
    {s : GoalState} {t : TerminalStatus}
    → MayEnd s t
    → ((s ≡ executing) × ((t ≡ succeeded) ⊎ (t ≡ aborted)))
      ⊎ ((s ≡ canceling) × ((t ≡ canceled) ⊎ (t ≡ aborted)))
MayEnd-cases succeed = inl (refl, inl refl)
MayEnd-cases abort = inl (refl, inr refl)
MayEnd-cases cancel = inr (refl, inl refl)
MayEnd-cases abort_canceling = inr (refl, inr refl)

-- The moves of the protocol: which event changes a context, and into what.
pub data Step (c : ClientGoalContext) (e : ClientGoalEvent) (d : ClientGoalContext) : Type 0 where
  ask :
      e.type ≡ request_cancel
      → c.state ≡ executing
      → c.cancel_response_pending ≡ false
      → d ≡ record c { cancel_response_pending = true }
      → Step c e d
  feed :
      e.type ≡ feedback_received
      → IsLive c.state
      → e.feedback_sequence ≡ c.next_feedback_sequence
      → d ≡ record c { next_feedback_sequence = (c.next_feedback_sequence + 1) % 2 ^ 32 }
      → Step c e d
  agree :
      e.type ≡ cancel_response_accepted
      → c.state ≡ executing
      → c.cancel_response_pending ≡ true
      → d ≡ record c { state = canceling; cancel_response_pending = false }
      → Step c e d
  decline :
      e.type ≡ cancel_response_rejected
      → c.state ≡ executing
      → c.cancel_response_pending ≡ true
      → d ≡ record c { cancel_response_pending = false }
      → Step c e d
  unsent :
      e.type ≡ cancel_request_send_failed
      → c.state ≡ executing
      → c.cancel_response_pending ≡ true
      → d ≡ record c { cancel_response_pending = false }
      → Step c e d
  end :
      e.type ≡ result_received
      → MayEnd c.state e.terminal_status
      → d ≡ record c {
        state = finishing;
        cancel_response_pending = false;
        result_pending = false;
        terminal_status = e.terminal_status;
      }
      → Step c e d

ruleset moves = (
  ask, feed, agree, decline, unsent, end, executing_live, canceling_live, succeed, abort, cancel,
  abort_canceling,
)

-- Every transition of a valid context leads to a valid context, and one that is refused or ignored
-- leaves the context as it was, valid or not.
pub transition_client_goal-IsValid :
    (c : ClientGoalContext) (e : ClientGoalEvent)
    → (is_valid_client_context c ≡ true
        → is_valid_client_context (transition_client_goal c e).next ≡ true)
      × ((transition_client_goal c e).kind ≢ transitioned → (transition_client_goal c e).next ≡ c)
unfolding transition_client_goal
transition_client_goal-IsValid c e = (λ h. ground arith, λ h. ground arith)

-- The code takes no move that the diagram does not have.
pub transition_client_goal_sound :
    (c : ClientGoalContext) (e : ClientGoalEvent)
    → (transition_client_goal c e).kind ≡ transitioned
    → Step c e (transition_client_goal c e).next
unfolding transition_client_goal
transition_client_goal_sound c e h = grind (arith, moves)

-- The code takes every move of the diagram, from a valid context.
pub transition_client_goal_complete :
    (c d : ClientGoalContext) (e : ClientGoalEvent)
    → is_valid_client_context c ≡ true
    → Step c e d
    → transition_client_goal c e ≡ move d
unfolding transition_client_goal
transition_client_goal_complete c d e v (ask t s p r) = ground arith
transition_client_goal_complete c d e v (feed t s p r) = ground (arith, IsLive-cases s)
transition_client_goal_complete c d e v (agree t s p r) = ground arith
transition_client_goal_complete c d e v (decline t s p r) = ground arith
transition_client_goal_complete c d e v (unsent t s p r) = ground arith
transition_client_goal_complete c d e v (end t m r) = ground (arith, MayEnd-cases m)
