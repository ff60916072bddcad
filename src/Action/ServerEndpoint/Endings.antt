-- ===== src/Action/ServerEndpoint/Endings.antt =====
-- How `complete` and `complete_locally` of an Action server endpoint
-- (src/action_server_endpoint_impl.cpp) end: when they refuse, what is sent, and which slot is free.
use hakoniwa_pdu_rpc.Base.{
  ◌≡◌, refl, Bool, true, false, ◌&&◌, Option, none, some, List, ◌∷◌, arith, ltb, length, set, subst,
  if◌then◌else◌, if_split, Option-split, bytes_equality, Holds-some,
}
use hakoniwa_pdu_rpc.Base.Map.{lookup, insert, erase, erase-insert}
use hakoniwa_pdu_rpc.Action.Types.{GoalId, PduData, TerminalStatus, status_code}
use hakoniwa_pdu_rpc.Action.Slots.{owner_at-lt-length}
use hakoniwa_pdu_rpc.Action.Packet.{Send, PacketEnv}
use hakoniwa_pdu_rpc.Action.ServerEndpoint.{
  Endpoint, ActionPacketBinding, CompleteResult, not_committed, sent, send_failed_after_commit,
  response_kind_result, owner_at, owner_is, release_binding, store_binding, send_message, send,
  send_response_packet, response_message,
}
use hakoniwa_pdu_rpc.Action.ServerEndpoint.Operations.{find_binding}
use hakoniwa_pdu_rpc.Action.ServerEndpoint.Results.{
  commit, finish, complete, complete_locally, validate_terminal_packet,
}
use hakoniwa_pdu_rpc.Action.ServerEndpoint.Consistency.{IsConsistent}
use hakoniwa_pdu_rpc.Action.ServerEndpoint.Commitment.{
  MayCommit, IsResult, MayCommit-found, MayCommit-validated, validated-MayCommit,
  response_message-IsResult, no-IsResult,
}

-- The endpoint without the Goal, whose slot has no owner.
abbrev pub freed : Endpoint → GoalId → ActionPacketBinding → List Send → Endpoint
freed s g b l = record s {
  slot_owners = set s.slot_owners b.slot_index none;
  packet_bindings = erase g s.packet_bindings;
  sends = l;
}

-- The endpoint with the Goal committed to its Result.
abbrev pub committed : Endpoint → GoalId → ActionPacketBinding → List Send → Endpoint
committed s g b l = record s { packet_bindings = insert g (commit b) s.packet_bindings; sends = l }

pub data Completes (v : PacketEnv) (s : Endpoint) (g : GoalId) (status : TerminalStatus)
    (packet : PduData) : Endpoint × CompleteResult → Type 0 where
  refused :
      ((b : ActionPacketBinding) → ¬ MayCommit v s g status packet b)
      → Completes v s g status packet (s, not_committed)
  delivered :
      (b : ActionPacketBinding) (m : Send)
      → MayCommit v s g status packet b
      → IsResult v s g b.slot_index status packet m
      → v.send_ok s.sends m ≡ true
      → Completes v s g status packet (freed s g b (m ∷ s.sends), sent)
  -- the header cannot be written
  unwritten :
      (b : ActionPacketBinding)
      → MayCommit v s g status packet b
      → ((m : Send) → ¬ IsResult v s g b.slot_index status packet m)
      → Completes v s g status packet (committed s g b s.sends, send_failed_after_commit)
  -- the transport refuses the Result
  unsent :
      (b : ActionPacketBinding) (m : Send)
      → MayCommit v s g status packet b
      → IsResult v s g b.slot_index status packet m
      → v.send_ok s.sends m ≡ false
      → Completes v s g status packet (committed s g b (m ∷ s.sends), send_failed_after_commit)

pub data CompletesLocally (v : PacketEnv) (s : Endpoint) (g : GoalId) (status : TerminalStatus)
    (packet : PduData) : Endpoint × Bool → Type 0 where
  refused :
      ((b : ActionPacketBinding) → ¬ MayCommit v s g status packet b)
      → CompletesLocally v s g status packet (s, false)
  done :
      (b : ActionPacketBinding)
      → MayCommit v s g status packet b
      → CompletesLocally v s g status packet (freed s g b s.sends, true)

-- To release a Goal that was just committed frees the slot that it owns.
released :
    (s : Endpoint) (g : GoalId) (b : ActionPacketBinding) (l : List Send)
    → IsConsistent s
    → lookup g s.packet_bindings ≡ some b
    → release_binding (committed s g b l) g (commit b) ≡ freed s g b l
unfolding release_binding
released s g b l c at = rw (holds, erase-insert g (commit b) s.packet_bindings) refl
  where
    holds :
        (ltb b.slot_index (length s.slot_owners)
          && owner_is (owner_at s.slot_owners b.slot_index) g)
        ≡ true
    holds = ground (
      arith,
      c.bound g b at,
      bytes_equality.equals_iff g g,
      owner_at-lt-length s.slot_owners b.slot_index g,
    )

module _ (v : PacketEnv) (s : Endpoint) (g : GoalId) (status : TerminalStatus) (packet : PduData)
    (c : IsConsistent s) where
  abbrev Ends : Endpoint × CompleteResult → Type 0
  Ends r = Completes v s g status packet r

  -- What `finish` makes of the send.
  abbrev after_send : ActionPacketBinding → Endpoint × Bool → Endpoint × CompleteResult
  after_send b r =
      if r.1 then (release_binding r.0 g (commit b), sent) else (r.0, send_failed_after_commit)

  after_send-Completes :
      (b : ActionPacketBinding) (m : Option Send)
      → MayCommit v s g status packet b
      → response_message v s.slot_routing
          (commit b)
          response_kind_result
          (status_code status)
          packet
        ≡ m
      → Ends (after_send b (send_message v (committed s g b s.sends) m))
  unfolding send_message send
  after_send-Completes b none k e = unwritten b k λ m.
      subst (λ x. ¬ IsResult v s x b.slot_index status packet m) (c.bound g b k.found).0
        (no-IsResult v s (commit b) status packet m e)
  after_send-Completes b (some m) k e =
      let r : IsResult v s g b.slot_index status packet m =
        subst (λ x. IsResult v s x b.slot_index status packet m) (c.bound g b k.found).0
          (Holds-some (IsResult v s b.goal_id b.slot_index status packet) _ m e
            (response_message-IsResult v s (commit b) status packet)) in
      if_split Ends (v.send_ok s.sends m) _ _
        (λ ok. rw (released s g b (m ∷ s.sends) c k.found) (delivered b m k r ok))
        (λ lost. unsent b m k r lost)

  finish-Completes :
      (b : ActionPacketBinding)
      → MayCommit v s g status packet b
      → Ends (finish v s g b status packet)
  unfolding finish send_response_packet store_binding
  finish-Completes b k = after_send-Completes b _ k refl

  pub complete-Completes : Completes v s g status packet (complete v s g status packet)
  unfolding complete
  complete-Completes =
      Option-split Ends (find_binding s g) _ _
        (λ e. refused λ b k. ground (arith, e, MayCommit-found v s g status packet b k))
        λ b e.
          Option-split Ends (validate_terminal_packet v s b status packet) _ _
            (λ f. refused λ d k. ground (
              arith,
              e,
              f,
              MayCommit-found v s g status packet d k,
              MayCommit-validated v s g status packet d k,
            ))
            λ n f. finish-Completes b (
              Holds-some (λ m. MayCommit v s g status packet b) _ n f
                (validated-MayCommit v s g status packet b e))

  pub complete_locally-Completes :
      CompletesLocally v s g status packet (complete_locally v s g status packet)
  unfolding complete_locally store_binding
  complete_locally-Completes =
      Option-split (CompletesLocally v s g status packet) (find_binding s g) _ _
        (λ e. refused λ b k. ground (arith, e, MayCommit-found v s g status packet b k))
        λ b e.
          Option-split (CompletesLocally v s g status packet)
            (validate_terminal_packet v s b status packet) _ _
            (λ f. refused λ d k. ground (
              arith,
              e,
              f,
              MayCommit-found v s g status packet d k,
              MayCommit-validated v s g status packet d k,
            ))
            λ n f.
              let k : MayCommit v s g status packet b =
                Holds-some (λ m. MayCommit v s g status packet b) _ n f
                  (validated-MayCommit v s g status packet b e) in
              rw (released s g b s.sends c k.found) (done b k)
