-- ===== src/Action/ServerEndpoint/Outcomes.antt =====
-- Every way in which a call of an Action server endpoint can end, as rules of case analysis: what
-- is known of the Goal, and what is written, on each path.
use hakoniwa_pdu_rpc.Base.{
  ℕ, ◌≡◌, inl, inr, Bool, true, false, not, ◌&&◌, ◌||◌, some, List, arith, if◌then◌else◌, if_split,
  Option-split, Bool-cases, bytes_equality,
}
use hakoniwa_pdu_rpc.Base.Map.{lookup}
use hakoniwa_pdu_rpc.Action.Types.{
  GoalId, PduData, TerminalStatus, accepted, rejected, status_code, is_succeeded, is_canceled,
  is_aborted, is_valid_goal_id,
}
use hakoniwa_pdu_rpc.Action.Packet.{PacketEnv, Send}
use hakoniwa_pdu_rpc.Action.ServerEndpoint.{
  Endpoint, ActionPacketBinding, CompleteResult, not_committed, sent, send_failed_after_commit,
  response_kind_goal, response_kind_cancel, response_kind_result, is_awaiting, is_accepted,
  is_cancel_accepted, release_binding, store_binding,
}
use hakoniwa_pdu_rpc.Action.ServerEndpoint.Operations.{
  find_binding, accept_goal, reject_goal, accept_cancel, reject_cancel, accept_cancel_locally,
  mark_accepted, mark_canceling, mark_decided,
}
use hakoniwa_pdu_rpc.Action.ServerEndpoint.Results.{
  send_feedback, feedback_message, next_sequence, validate_terminal_packet, commit, complete,
  complete_locally, discard_pending_goal,
}
use hakoniwa_pdu_rpc.Action.ServerEndpoint.Frames.{
  with_sends, respond_cases, send_message_cases, send_response_cases,
}

pub find_binding-lookup :
    (s : Endpoint) (g : GoalId) (b : ActionPacketBinding)
    → find_binding s g ≡ some b
    → lookup g s.packet_bindings ≡ some b
unfolding find_binding
find_binding-lookup s g b h = ground arith

-- The Goal states from which a status may be reached, as the endpoint checks them.
abbrev pub may_end : ActionPacketBinding → TerminalStatus → Bool
may_end b status =
    (is_accepted b.state && (is_succeeded status || is_aborted status))
    || (is_cancel_accepted b.state && (is_canceled status || is_aborted status))

pub validate_terminal_packet-may_end :
    (v : PacketEnv) (s : Endpoint) (b : ActionPacketBinding) (status : TerminalStatus)
    (packet : PduData) (n : ℕ)
    → validate_terminal_packet v s b status packet ≡ some n
    → may_end b status ≡ true
unfolding validate_terminal_packet
validate_terminal_packet-may_end v s b status packet n h = elim (Bool-cases (may_end b status)) [
  | inl y ↦ y
  | inr n ↦ absurd (ground (arith, n))
]

module _ {ℓ} (P : Endpoint × Bool → Type ℓ) (v : PacketEnv) (s : Endpoint) (g : GoalId)
    (refused : (l : List Send) → P (with_sends s l, false)) where
  pub accept_goal_cases :
      ((l : List Send) (b : ActionPacketBinding)
        → lookup g s.packet_bindings ≡ some b
        → is_awaiting b.state ≡ true
        → P (store_binding (with_sends s l) g (mark_accepted b), true))
      → P (accept_goal v s g)
  unfolding accept_goal
  accept_goal_cases done =
      Option-split P (find_binding s g) _ _ (λ _. refused s.sends)
        λ b e.
          if_split P (not (is_awaiting b.state)) _ _ (λ _. refused s.sends)
            λ w.
              respond_cases P v s b response_kind_goal accepted
                (λ t. store_binding t g (mark_accepted b)) refused
                λ l. done l b (find_binding-lookup s g b e) (ground arith)

  pub reject_goal_cases :
      ((l : List Send) (b : ActionPacketBinding)
        → lookup g s.packet_bindings ≡ some b
        → is_awaiting b.state ≡ true
        → P (release_binding (with_sends s l) g b, true))
      → P (reject_goal v s g)
  unfolding reject_goal
  reject_goal_cases done =
      Option-split P (find_binding s g) _ _ (λ _. refused s.sends)
        λ b e.
          if_split P (not (is_awaiting b.state)) _ _ (λ _. refused s.sends)
            λ w.
              respond_cases P v s b response_kind_goal rejected (λ t. release_binding t g b) refused
                λ l. done l b (find_binding-lookup s g b e) (ground arith)

  pub accept_cancel_cases :
      ((l : List Send) (b : ActionPacketBinding)
        → lookup g s.packet_bindings ≡ some b
        → is_accepted b.state ≡ true
        → P (store_binding (with_sends s l) g (mark_canceling b), true))
      → P (accept_cancel v s g)
  unfolding accept_cancel
  accept_cancel_cases done =
      Option-split P (find_binding s g) _ _ (λ _. refused s.sends)
        λ b e.
          if_split P (not (is_accepted b.state) || not b.cancel_decision_pending) _ _
            (λ _. refused s.sends)
            λ w.
              respond_cases P v s b response_kind_cancel accepted
                (λ t. store_binding t g (mark_canceling b)) refused
                λ l. done l b (find_binding-lookup s g b e) (ground arith)

  pub reject_cancel_cases :
      ((l : List Send) (b : ActionPacketBinding)
        → lookup g s.packet_bindings ≡ some b
        → is_accepted b.state ≡ true
        → P (store_binding (with_sends s l) g (mark_decided b), true))
      → P (reject_cancel v s g)
  unfolding reject_cancel
  reject_cancel_cases done =
      Option-split P (find_binding s g) _ _ (λ _. refused s.sends)
        λ b e.
          if_split P (not (is_accepted b.state) || not b.cancel_decision_pending) _ _
            (λ _. refused s.sends)
            λ w.
              respond_cases P v s b response_kind_cancel rejected
                (λ t. store_binding t g (mark_decided b)) refused
                λ l. done l b (find_binding-lookup s g b e) (ground arith)

  pub accept_cancel_locally_cases :
      ((b : ActionPacketBinding)
        → lookup g s.packet_bindings ≡ some b
        → is_accepted b.state ≡ true
        → P (store_binding s g (mark_canceling b), true))
      → P (accept_cancel_locally s g)
  unfolding accept_cancel_locally
  accept_cancel_locally_cases done =
      Option-split P (find_binding s g) _ _ (λ _. refused s.sends)
        λ b e.
          if_split P (not (is_accepted b.state)) _ _ (λ _. refused s.sends)
            λ w. done b (find_binding-lookup s g b e) (ground arith)

  pub discard_cases :
      ((b : ActionPacketBinding)
        → lookup g s.packet_bindings ≡ some b
        → is_awaiting b.state ≡ true
        → P (release_binding s g b, true))
      → P (discard_pending_goal s g)
  unfolding discard_pending_goal
  discard_cases done =
      if_split P (not (is_valid_goal_id g)) _ _ (λ _. refused s.sends)
        λ _.
          Option-split P (lookup g s.packet_bindings) _ _ (λ _. refused s.sends)
            λ b e.
              if_split P (not (is_awaiting b.state)) _ _ (λ _. refused s.sends)
                λ w. done b e (ground arith)

  pub send_feedback_cases :
      (packet : PduData)
      → ((l : List Send) (b : ActionPacketBinding)
          → lookup g s.packet_bindings ≡ some b
          → P (store_binding (with_sends s l) g (next_sequence b), true))
      → P (send_feedback v s g packet)
  unfolding send_feedback
  send_feedback_cases packet done =
      Option-split P (find_binding s g) _ _ (λ _. refused s.sends)
        λ b e.
          send_message_cases
            (λ r. P (if r.1 then (store_binding r.0 g (next_sequence b), true) else (r.0, false))) v
            s (feedback_message v s.slot_routing g b packet)
            λ l ok. if_split P ok _ _ (λ _. done l b (find_binding-lookup s g b e)) (λ _. refused l)

  pub complete_locally_cases :
      (status : TerminalStatus) (packet : PduData)
      → ((b : ActionPacketBinding)
          → lookup g s.packet_bindings ≡ some b
          → may_end b status ≡ true
          → P (release_binding (store_binding s g (commit b)) g (commit b), true))
      → P (complete_locally v s g status packet)
  unfolding complete_locally
  complete_locally_cases status packet done =
      Option-split P (find_binding s g) _ _ (λ _. refused s.sends)
        λ b e.
          Option-split P (validate_terminal_packet v s b status packet) _ _ (λ _. refused s.sends)
            λ n h.
              done b (find_binding-lookup s g b e)
                (validate_terminal_packet-may_end v s b status packet n h)

pub complete_cases {ℓ} :
    (P : Endpoint × CompleteResult → Type ℓ) (v : PacketEnv) (s : Endpoint) (g : GoalId)
    (status : TerminalStatus) (packet : PduData)
    → P (s, not_committed)
    → ((l : List Send) (b : ActionPacketBinding)
        → lookup g s.packet_bindings ≡ some b
        → may_end b status ≡ true
        → P (release_binding (with_sends (store_binding s g (commit b)) l) g (commit b), sent))
    → ((l : List Send) (b : ActionPacketBinding)
        → lookup g s.packet_bindings ≡ some b
        → may_end b status ≡ true
        → P (with_sends (store_binding s g (commit b)) l, send_failed_after_commit))
    → P (complete v s g status packet)
unfolding complete
complete_cases P v s g status packet refused done lost =
    Option-split P (find_binding s g) _ _ (λ _. refused)
      λ b e.
        Option-split P (validate_terminal_packet v s b status packet) _ _ (λ _. refused)
          λ n h.
            let at = find_binding-lookup s g b e in
            let ends = validate_terminal_packet-may_end v s b status packet n h in
            send_response_cases
              (λ r. P (
                if r.1
                then (release_binding r.0 g (commit b), sent)
                else (r.0, send_failed_after_commit)))
              v (store_binding s g (commit b)) (commit b) response_kind_result (status_code status)
              packet λ l ok. if_split P ok _ _ (λ _. done l b at ends) (λ _. lost l b at ends)
