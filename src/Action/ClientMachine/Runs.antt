-- ===== src/Action/ClientMachine/Runs.antt =====
-- What holds of the Client machine over every sequence of events.
use hakoniwa_pdu_rpc.Base.{
  ℕ, ◌+◌, ◌%◌, ◌^◌, ◌≡◌, ◌⊎◌, refl, Bool, true, false, ◌&&◌, ◌||◌, arith, List, [], ◌∷◌,
}
use hakoniwa_pdu_rpc.Action.Types.{
  GoalState, executing, canceling, finishing, TerminalStatus, canceled,
}
use hakoniwa_pdu_rpc.Action.ClientMachine.{
  ClientGoalEventType, ClientGoalEvent, ClientGoalContext, transitioned, is_valid_client_context,
  transition_client_goal, request_cancel, feedback_received, cancel_response_accepted,
  result_received, initial_context, ClientTransitionKind,
}
use hakoniwa_pdu_rpc.Action.ClientMachine.Steps.{transition_client_goal-IsValid}

-- The upper layer stores `next` after every call of the transition function.
unfoldable pub run : ClientGoalContext → List ClientGoalEvent → ClientGoalContext
run c [] = c
run c (e ∷ es) = run (transition_client_goal c e).next es

pub run-IsValid :
    (c : ClientGoalContext) (es : List ClientGoalEvent)
    → is_valid_client_context c ≡ true
    → is_valid_client_context (run c es) ≡ true
unfolding run
run-IsValid c [] v = v
run-IsValid c (e ∷ es) v =
    run-IsValid (transition_client_goal c e).next es ((transition_client_goal-IsValid c e).0 v)

transition_finished :
    (c : ClientGoalContext) (e : ClientGoalEvent)
    → c.state ≡ finishing
    → (transition_client_goal c e).next ≡ c
unfolding transition_client_goal
transition_finished c e h = ground arith

-- A finished Goal stays as it is, whatever arrives afterwards: a late Result, a Cancel Response,
-- feedback or a timeout.
run_finished :
    (c : ClientGoalContext) (es : List ClientGoalEvent) → c.state ≡ finishing → run c es ≡ c
unfolding run
run_finished c [] h = refl
run_finished c (e ∷ es) h = rw (transition_finished c e h) (run_finished c es h)

-- The sequence numbers of the feedback that a run hands to the application.
is_delivered : ClientTransitionKind → ClientGoalEventType → Bool
is_delivered transitioned feedback_received = true
is_delivered _ _ = false

pub delivered : ClientGoalContext → List ClientGoalEvent → List ℕ
unfolding is_delivered
delivered c [] = []
delivered c (e ∷ es) =
    let rest = delivered (transition_client_goal c e).next es in
    elim (is_delivered (transition_client_goal c e).kind e.type) [
      | true ↦ e.feedback_sequence ∷ rest
      | false ↦ rest
    ]

-- The numbers from `n` on, in `uint32_t`.
abbrev pub IsConsecutive : ℕ → List ℕ → Type 0
IsConsecutive n [] = Unit {0}
IsConsecutive n (x ∷ xs) = (x ≡ n) × IsConsecutive ((n + 1) % 2 ^ 32) xs

delivered_step :
    (c : ClientGoalContext) (e : ClientGoalEvent)
    → ((is_delivered (transition_client_goal c e).kind e.type ≡ true)
        × (e.feedback_sequence ≡ c.next_feedback_sequence)
        × ((transition_client_goal c e).next.next_feedback_sequence
            ≡ (c.next_feedback_sequence + 1) % 2 ^ 32))
      ⊎ ((is_delivered (transition_client_goal c e).kind e.type ≡ false)
          × ((transition_client_goal c e).next.next_feedback_sequence ≡ c.next_feedback_sequence))
unfolding transition_client_goal is_delivered
delivered_step c e = ground arith

-- Feedback reaches the application in order, with no gap and no repetition, whatever arrives.
pub delivered-IsConsecutive :
    (c : ClientGoalContext) (es : List ClientGoalEvent)
    → IsConsecutive c.next_feedback_sequence (delivered c es)
unfolding delivered
delivered-IsConsecutive c [] = tt
delivered-IsConsecutive c (e ∷ es) =
    let ih = delivered-IsConsecutive (transition_client_goal c e).next es in
    ground (arith, delivered_step c e, ih)

-- The three events by which a Goal ends as canceled, in their order; `never` is met by none.
pub data Milestone : Type 0 where
  cancel_asked cancel_accepted canceled_received never : Milestone

abbrev meets_event : Milestone → ClientGoalEventType → TerminalStatus → Bool
meets_event cancel_asked request_cancel t = true
meets_event cancel_accepted cancel_response_accepted t = true
meets_event canceled_received result_received canceled = true
meets_event _ _ _ = false

abbrev pub meets : Milestone → ClientGoalEvent → Bool
meets m e = meets_event m e.type e.terminal_status

-- The milestones are met in this order among the events, with others in between.
pub occurs : List Milestone → List ClientGoalEvent → Bool
occurs [] es = true
occurs (m ∷ ms) [] = false
occurs (m ∷ ms) (e ∷ es) = (meets m e && occurs ms es) || occurs (m ∷ ms) es

-- What still has to happen before the Goal can end as canceled.
abbrev need : GoalState → Bool → TerminalStatus → List Milestone
need executing false t = cancel_asked ∷ cancel_accepted ∷ canceled_received ∷ []
need executing true t = cancel_accepted ∷ canceled_received ∷ []
need canceling p t = canceled_received ∷ []
need finishing p canceled = []
need _ p t = never ∷ []

abbrev needs : ClientGoalContext → List Milestone
needs c = need c.state c.cancel_response_pending c.terminal_status

occurs-tail :
    (m : Milestone) (ms : List Milestone) (es : List ClientGoalEvent)
    → occurs (m ∷ ms) es ≡ true
    → occurs ms es ≡ true
unfolding occurs
occurs-tail m [] es h = refl
occurs-tail m (n ∷ ms) [] h = cc
occurs-tail m (n ∷ ms) (e ∷ es) h = ground (arith, occurs-tail m (n ∷ ms) es)

occurs_never : (es : List ClientGoalEvent) → occurs (never ∷ []) es ≡ false
unfolding occurs
occurs_never [] = refl
occurs_never (e ∷ es) = ground (arith, occurs_never es)

occurs_step :
    (c : ClientGoalContext) (e : ClientGoalEvent) (es : List ClientGoalEvent)
    → is_valid_client_context c ≡ true
    → occurs (needs (transition_client_goal c e).next) es ≡ true
    → occurs (needs c) (e ∷ es) ≡ true
unfolding transition_client_goal occurs
occurs_step c e es v h =
    ground (
      arith,
      occurs-tail cancel_asked (cancel_accepted ∷ canceled_received ∷ []) es,
      occurs_never es,
    )

needs_now :
    (c : ClientGoalContext)
    → is_valid_client_context c ≡ true
    → c.terminal_status ≡ canceled
    → occurs (needs c) [] ≡ true
unfolding is_valid_client_context occurs
needs_now c v h = ground arith

needs-run :
    (c : ClientGoalContext) (es : List ClientGoalEvent)
    → is_valid_client_context c ≡ true
    → (run c es).terminal_status ≡ canceled
    → occurs (needs c) es ≡ true
unfolding run
needs-run c [] v h = needs_now c v h
needs-run c (e ∷ es) v h =
    occurs_step c e es v
      (needs-run (transition_client_goal c e).next es ((transition_client_goal-IsValid c e).0 v) h)

-- A Goal ends as canceled only after the application asked for it, the Server accepted, and a
-- Result with that status came, in this order.
pub canceled_needs_acceptance :
    (es : List ClientGoalEvent)
    → (run initial_context es).terminal_status ≡ canceled
    → occurs (cancel_asked ∷ cancel_accepted ∷ canceled_received ∷ []) es ≡ true
unfolding is_valid_client_context
canceled_needs_acceptance es h = needs-run initial_context es refl h
