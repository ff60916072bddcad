-- ===== src/Action/ClientEndpoint/Submission.antt =====
-- How `send_goal_with_result` and `send_cancel` of an Action client endpoint
-- (src/action_client_endpoint_impl.cpp) end: what is claimed and sent, and what a failure gives back.
use hakoniwa_pdu_rpc.Base.{
  ℕ, suc, zero, ◌≡◌, refl, sym, ap, ◌∙◌, Bool, true, false, not, Option, none, some, List, [], ◌∷◌,
  arith, ltb, length, ◌<◌, ◌≢◌, Holds-some, set, if_split, Option-split, bytes_equality, length-set,
}
use hakoniwa_pdu_rpc.Base.Map.{
  lookup, insert, lookup-insert, erase-insert, erase_absent, insert-insert, insert-lookup,
}
use hakoniwa_pdu_rpc.Action.Types.{
  GoalId, PduData, is_valid_goal_id, GoalSendResult, success, invalid_argument, not_initialized,
  duplicate_goal, no_free_slot, invalid_packet, transport_error,
}
use hakoniwa_pdu_rpc.Action.Packet.{PacketEnv, Send}
use hakoniwa_pdu_rpc.Action.ServerEndpoint.{owner_at, request_kind_goal, request_kind_cancel}
use hakoniwa_pdu_rpc.Action.ClientEndpoint.{
  Endpoint, ClientPacketBinding, new_binding, is_accepted, release_binding, store_binding,
  request_message, send, create_control_request_packet,
}
use hakoniwa_pdu_rpc.Action.ClientEndpoint.Operations.{
  free_slot, Reservation, reserved, reserve_slot, abandon_goal, transmit_goal, finish_goal,
  send_goal_with_result, commit_cancel, transmit_cancel, finish_cancel, roll_back_cancel,
  send_cancel, mark_accepted, mark_cancel_sent,
}
use hakoniwa_pdu_rpc.Action.ClientEndpoint.Consistency.{free_slot-free}
use hakoniwa_pdu_rpc.Action.ClientEndpoint.Messages.{
  FirstFree, IsMessage, free_slot-taken, free_slot-FirstFree, request_message-IsMessage,
  no-IsMessage,
}

abbrev pub with_sends : Endpoint → List Send → Endpoint
with_sends s sends = record s { sends = sends }

-- The endpoint with the Goal bound to the slot.
abbrev pub claimed : Endpoint → GoalId → ℕ → ℕ → ℕ → Endpoint
claimed s goal_id slot now timeout_usec = record s {
  slot_owners = set s.slot_owners slot (some goal_id);
  packet_bindings = insert goal_id (new_binding goal_id slot now timeout_usec) s.packet_bindings;
}

-- From endpoint `s` to the endpoint, the result and the handle `r`.
pub data Submits (v : PacketEnv) (s : Endpoint) (g : GoalId) (packet : PduData) (now timeout : ℕ)
    (r : Endpoint × GoalSendResult × GoalId) : Type 0 where
  invalid_id :
      is_valid_goal_id g ≡ false
      → r ≡ (s, invalid_argument, [])
      → Submits v s g packet now timeout r
  uninitialized :
      s.initialized ≡ false → r ≡ (s, not_initialized, []) → Submits v s g packet now timeout r
  duplicate :
      (b : ClientPacketBinding)
      → lookup g s.packet_bindings ≡ some b
      → r ≡ (s, duplicate_goal, [])
      → Submits v s g packet now timeout r
  all_taken :
      ((i : ℕ) → i < length s.slot_owners → owner_at s.slot_owners i ≢ none)
      → r ≡ (s, no_free_slot, [])
      → Submits v s g packet now timeout r
  -- the packet does not fit the first free slot's channel
  unfit :
      (slot : ℕ)
      → FirstFree s.slot_owners slot
      → ((m : Send) → ¬ IsMessage v s slot g request_kind_goal packet m)
      → r ≡ (s, invalid_packet, [])
      → Submits v s g packet now timeout r
  -- the transport refuses the message, and nothing but the call of the transport remains
  unsent :
      (slot : ℕ) (m : Send)
      → FirstFree s.slot_owners slot
      → IsMessage v s slot g request_kind_goal packet m
      → v.send_ok s.sends m ≡ false
      → r ≡ (with_sends s (m ∷ s.sends), transport_error, [])
      → Submits v s g packet now timeout r
  submitted :
      (slot : ℕ) (m : Send)
      → FirstFree s.slot_owners slot
      → lookup g s.packet_bindings ≡ none
      → IsMessage v s slot g request_kind_goal packet m
      → v.send_ok s.sends m ≡ true
      → r ≡ (with_sends (claimed s g slot now timeout) (m ∷ s.sends), success, g)
      → Submits v s g packet now timeout r

owner_set_back :
    (owners : List (Option GoalId)) (i : ℕ) (g : GoalId)
    → owner_at owners i ≡ none
    → set (set owners i (some g)) i none ≡ owners
unfolding owner_at
owner_set_back [] i g h = refl
owner_set_back (none ∷ owners) zero g h = refl
owner_set_back (some o ∷ owners) zero g h = cc
owner_set_back (o ∷ owners) (suc i) g h = ap (λ l. o ∷ l) (owner_set_back owners i g h)

-- To abandon a Goal that was just bound restores the tables.
abandon_claimed :
    (s : Endpoint) (g : GoalId) (slot now timeout : ℕ) (l : List Send)
    → free_slot s.slot_owners ≡ some slot
    → lookup g s.packet_bindings ≡ none
    → abandon_goal (with_sends (claimed s g slot now timeout) l) g ≡ with_sends s l
unfolding abandon_goal release_binding new_binding
abandon_claimed s g slot now timeout l f fresh =
    rw (found, abandon_goal)
      (rw (inside, release_binding)
        (rw
          (
            owner_set_back s.slot_owners slot g (free_slot-free s.slot_owners slot f).0,
            erase-insert g (new_binding g slot now timeout) s.packet_bindings,
            erase_absent g s.packet_bindings fresh,
          )
          refl))
  where
    found :
        lookup g (insert g (new_binding g slot now timeout) s.packet_bindings)
        ≡ some (new_binding g slot now timeout)
    found = ground (
      arith,
      lookup-insert g g (new_binding g slot now timeout) s.packet_bindings,
      bytes_equality.equals_iff g g,
    )

    inside : ltb slot (length (set s.slot_owners slot (some g))) ≡ true
    inside =
        ground (arith, length-set s.slot_owners slot (some g), free_slot-free s.slot_owners slot f)

module _ (v : PacketEnv) (s : Endpoint) (g : GoalId) (packet : PduData) (now timeout : ℕ) where
  abbrev Ends : Endpoint × GoalSendResult × GoalId → Type 0
  Ends r = Submits v s g packet now timeout r

  finish_claimed :
      (slot : ℕ)
      → free_slot s.slot_owners ≡ some slot
      → lookup g s.packet_bindings ≡ none
      → Ends (finish_goal g (transmit_goal v (claimed s g slot now timeout) g slot packet))
  unfolding transmit_goal send finish_goal
  finish_claimed slot f fresh =
      Option-split (λ r. Ends (finish_goal g r))
        (request_message v s.slot_routing slot g request_kind_goal packet) _ _
        (λ e.
          unfit slot (free_slot-FirstFree s.slot_owners slot f)
            (λ m. no-IsMessage v s slot g request_kind_goal packet m e)
            (rw (abandon_claimed s g slot now timeout s.sends f fresh, finish_goal) refl))
        λ m e.
          if_split
            (λ result.
              Ends
                (finish_goal g (with_sends (claimed s g slot now timeout) (m ∷ s.sends), result)))
            (v.send_ok s.sends m) _ _
            (λ ok.
              submitted slot m (free_slot-FirstFree s.slot_owners slot f) fresh (is_message m e) ok
                refl)
            λ failed.
              unsent slot m (free_slot-FirstFree s.slot_owners slot f) (is_message m e) failed
                (rw (abandon_claimed s g slot now timeout (m ∷ s.sends) f fresh, finish_goal) refl)
    where
      is_message :
          (m : Send)
          → request_message v s.slot_routing slot g request_kind_goal packet ≡ some m
          → IsMessage v s slot g request_kind_goal packet m
      is_message m e =
          Holds-some (IsMessage v s slot g request_kind_goal packet) _ m e
            (request_message-IsMessage v s slot g request_kind_goal packet)

  abbrev Continues : Reservation → Type 0
  Continues r = Ends (elim r [
    | Reservation.refused result ↦ (s, result, [])
    | reserved held slot ↦ finish_goal g (transmit_goal v held g slot packet)
  ])

  -- `send_goal_with_result` ends in one of the seven ways: it refuses without a trace, gives the slot
  -- and the binding back when the packet does not fit or cannot be sent, or else binds the Goal to
  -- the first free slot and sends the message on that slot's request channel.
  pub send_goal-Submits :
      Submits v s g packet now timeout (send_goal_with_result v s g packet now timeout)
  unfolding send_goal_with_result reserve_slot store_binding
  send_goal-Submits =
      if_split Ends (not (is_valid_goal_id g)) _ _ (λ h. invalid_id (ground arith) refl)
        λ _.
          if_split Continues (not s.initialized) _ _ (λ h. uninitialized (ground arith) refl)
            λ _.
              Option-split Continues (lookup g s.packet_bindings) _ _
                (λ fresh.
                  Option-split Continues (free_slot s.slot_owners) _ _
                    (λ f. all_taken (free_slot-taken s.slot_owners f) refl)
                    λ slot f. finish_claimed slot f fresh)
                λ b e. duplicate b e refl

-- From endpoint `s` to the endpoint and the answer `r` of `send_cancel`.
pub data Cancels (v : PacketEnv) (s : Endpoint) (g : GoalId) (r : Endpoint × Bool) : Type 0 where
  -- nothing remains but perhaps a call of the transport
  not_sent : (l : List Send) → r ≡ (with_sends s l, false) → Cancels v s g r
  -- an accepted Goal whose Cancel Request went out on the request channel of its slot
  sent :
      (b : ClientPacketBinding) (packet : PduData) (m : Send)
      → lookup g s.packet_bindings ≡ some b
      → is_accepted b.state ≡ true
      → IsMessage v s b.slot_index g request_kind_cancel packet m
      → v.send_ok s.sends m ≡ true
      → r ≡ (with_sends (store_binding s g (mark_cancel_sent b)) (m ∷ s.sends), true)
      → Cancels v s g r

mark_back : (b : ClientPacketBinding) → is_accepted b.state ≡ true → mark_accepted b ≡ b
mark_back b h = ap (λ x. record b { state = x }) (ground arith)

module _ (v : PacketEnv) (s : Endpoint) (g : GoalId) where
  roll_back_committed :
      (b : ClientPacketBinding) (l : List Send)
      → lookup g s.packet_bindings ≡ some b
      → is_accepted b.state ≡ true
      → roll_back_cancel (with_sends (store_binding s g (mark_cancel_sent b)) l) g ≡ with_sends s l
  unfolding roll_back_cancel store_binding
  roll_back_committed b l at ok = rw (found, roll_back_cancel) (rw restored refl)
    where
      found : lookup g (insert g (mark_cancel_sent b) s.packet_bindings) ≡ some (mark_cancel_sent b)
      found = ground (
        arith,
        lookup-insert g g (mark_cancel_sent b) s.packet_bindings,
        bytes_equality.equals_iff g g,
      )

      restored :
          insert g (mark_accepted b) (insert g (mark_cancel_sent b) s.packet_bindings)
          ≡ s.packet_bindings
      restored =
          insert-insert g (mark_accepted b) (mark_cancel_sent b) s.packet_bindings
          ∙ insert-lookup g (mark_accepted b) s.packet_bindings
              (at ∙ ap some (sym (mark_back b ok)))

  abbrev Closes : ClientPacketBinding → Endpoint × Bool → Type 0
  Closes b r = Cancels v s g (finish_cancel g r)

  finish_committed :
      (b : ClientPacketBinding)
      → lookup g s.packet_bindings ≡ some b
      → is_accepted b.state ≡ true
      → Closes b (transmit_cancel v (store_binding s g (mark_cancel_sent b)) g b.slot_index)
  unfolding transmit_cancel create_control_request_packet finish_cancel send store_binding
  finish_committed b at ok =
      Option-split (Closes b) (create_control_request_packet v s) _ _
        (λ _. not_sent s.sends (ap (λ x. (x, false)) (roll_back_committed b s.sends at ok)))
        λ packet p.
          Option-split (Closes b)
            (request_message v s.slot_routing b.slot_index g request_kind_cancel packet) _ _
            (λ _. not_sent s.sends (ap (λ x. (x, false)) (roll_back_committed b s.sends at ok)))
            λ m e.
              if_split (Cancels v s g) (v.send_ok s.sends m) _ _
                (λ done.
                  sent b packet m at ok
                    (Holds-some (IsMessage v s b.slot_index g request_kind_cancel packet) _ m e
                      (request_message-IsMessage v s b.slot_index g request_kind_cancel packet))
                    done refl)
                λ _.
                  not_sent (m ∷ s.sends)
                    (ap (λ x. (x, false)) (roll_back_committed b (m ∷ s.sends) at ok))

  abbrev Commits : Option (Endpoint × ClientPacketBinding) → Type 0
  Commits r = Cancels v s g (elim r [
    | none ↦ (s, false)
    | some (committed, binding) ↦ finish_cancel g (transmit_cancel v committed g binding.slot_index)
  ])

  -- `send_cancel` sends one Cancel Request for an accepted Goal, or fails and leaves every binding and
  -- owner as they were.
  pub send_cancel-Cancels : Cancels v s g (send_cancel v s g)
  unfolding send_cancel commit_cancel
  send_cancel-Cancels =
      if_split (Cancels v s g) (not (is_valid_goal_id g)) _ _ (λ _. not_sent s.sends refl)
        λ _.
          if_split Commits (not s.initialized) _ _ (λ _. not_sent s.sends refl)
            λ _.
              Option-split Commits (lookup g s.packet_bindings) _ _ (λ _. not_sent s.sends refl)
                λ b e.
                  if_split Commits (not (is_accepted b.state)) _ _ (λ _. not_sent s.sends refl)
                    λ h. finish_committed b e (ground arith)
