-- ===== src/Action/ClientEndpoint/Quarantine.antt =====
-- A Goal whose response timed out may still run at the Server, so its slot stays taken.
use hakoniwa_pdu_rpc.Base.{
  ℕ, ◌≡◌, refl, sym, subst, Bool, true, false, not, Option, some, List, [], ◌∷◌, arith,
  bytes_equality, if_split, Option-split,
}
use hakoniwa_pdu_rpc.Base.Map.{lookup, lookup-insert, lookup-erase}
use hakoniwa_pdu_rpc.Action.Types.{GoalId, ClientEvent}
use hakoniwa_pdu_rpc.Action.Packet.{PacketEnv}
use hakoniwa_pdu_rpc.Action.ServerEndpoint.{owner_at}
use hakoniwa_pdu_rpc.Action.ClientEndpoint.{
  Endpoint, PendingPacket, BindingState, ClientPacketBinding, goal_response_timed_out, is_accepted,
  is_awaiting_cancel, new_binding, send, store_binding, release_binding,
}
use hakoniwa_pdu_rpc.Action.ClientEndpoint.Operations.{
  receive, reserve_slot, abandon_goal, commit_cancel, roll_back_cancel, clear_pending_events,
  free_slot, Reservation, mark_accepted, mark_cancel_sent,
}
use hakoniwa_pdu_rpc.Action.ClientEndpoint.Polling.{is_overdue}
use hakoniwa_pdu_rpc.Action.ClientEndpoint.Outcomes.{
  with_packets, Reports, quiet, admitted, refused, fed, cancel_granted, cancel_denied, ended,
  timed_out, poll-Reports,
}
use hakoniwa_pdu_rpc.Action.ClientEndpoint.Consistency.{
  IsConsistent, after_reservation, after_commit,
}
use hakoniwa_pdu_rpc.Action.ClientEndpoint.Histories.{
  Section, receives, polls, reserves, transmits, abandons, commits, rolls_back, clears, resets,
  step, run, spares, all_spare, step_keeps, interleaved-IsConsistent,
}

abbrev is_quarantined : BindingState → Bool
is_quarantined goal_response_timed_out = true
is_quarantined _ = false

overdue_waits :
    (now : ℕ) (c : ClientPacketBinding) → is_overdue now c ≡ true → is_quarantined c.state ≡ false
unfolding is_overdue
overdue_waits now c h = ground arith

module _ (s : Endpoint) (g : GoalId) (b : ClientPacketBinding)
    (at : lookup g s.packet_bindings ≡ some b) where
  abbrev Kept : Endpoint → Type 0
  Kept t = lookup g t.packet_bindings ≡ some b

  -- A write to a binding in another state, or its removal, is about another Goal.
  store-Kept :
      (t : Endpoint) (h : GoalId) (c d : ClientPacketBinding)
      → t.packet_bindings ≡ s.packet_bindings
      → lookup h s.packet_bindings ≡ some c
      → is_quarantined b.state ≡ true
      → is_quarantined c.state ≡ false
      → Kept (store_binding t h d)
  unfolding store_binding
  store-Kept t h c d same found q nq =
      ground (arith, lookup-insert h g d t.packet_bindings, bytes_equality.equals_iff h g)

  release-Kept :
      (t : Endpoint) (h : GoalId) (c : ClientPacketBinding)
      → t.packet_bindings ≡ s.packet_bindings
      → lookup h s.packet_bindings ≡ some c
      → is_quarantined b.state ≡ true
      → is_quarantined c.state ≡ false
      → Kept (release_binding t h c)
  unfolding release_binding
  release-Kept t h c same found q nq =
      ground (arith, lookup-erase h g t.packet_bindings, bytes_equality.equals_iff h g)

  module _ (q : is_quarantined b.state ≡ true) where
    poll-Kept :
        (now : ℕ) (l : List PendingPacket) (e : ClientEvent) (t : Endpoint)
        → Reports now s l e t
        → Kept t
    poll-Kept now l e t (quiet p r) = subst Kept (sym r) at
    poll-Kept now l e t (admitted c p d u found w r) =
        subst Kept (sym r) (store-Kept (with_packets s l) e.goal c _ refl found q (ground arith))
    poll-Kept now l e t (refused c p d u found w r) =
        subst Kept (sym r) (release-Kept (with_packets s l) e.goal c refl found q (ground arith))
    poll-Kept now l e t (fed c p d u found w r) =
        subst Kept (sym r) (store-Kept (with_packets s l) e.goal c _ refl found q (ground arith))
    poll-Kept now l e t (cancel_granted c p d u found w r) =
        subst Kept (sym r) (store-Kept (with_packets s l) e.goal c _ refl found q (ground arith))
    poll-Kept now l e t (cancel_denied c p d u found w r) =
        subst Kept (sym r) (store-Kept (with_packets s l) e.goal c _ refl found q (ground arith))
    poll-Kept now l e t (ended c n p d u found w r) =
        subst Kept (sym r) (release-Kept (with_packets s l) e.goal c refl found q (ground arith))
    poll-Kept now l e t (timed_out c p first r) = subst Kept (sym r) (
        store-Kept (with_packets s l) e.goal c _ refl first.found q
          (overdue_waits now c first.overdue))

    abbrev KeptAfter : Reservation → Type 0
    KeptAfter r = Kept (after_reservation s r)

    reserve-Kept :
        (h : GoalId) (now timeout : ℕ) → Kept (after_reservation s (reserve_slot s h now timeout))
    unfolding reserve_slot after_reservation store_binding
    reserve-Kept h now timeout =
        if_split KeptAfter (not s.initialized) _ _ (λ _. at)
          λ _.
            Option-split KeptAfter (lookup h s.packet_bindings) _ _
              (λ fresh.
                Option-split KeptAfter (free_slot s.slot_owners) _ _ (λ _. at)
                  λ i _. ground (
                    arith,
                    lookup-insert h g (new_binding h i now timeout) s.packet_bindings,
                    bytes_equality.equals_iff h g,
                  ))
              λ _ _. at

    abandon-Kept : (h : GoalId) → not (bytes_equality.equals h g) ≡ true → Kept (abandon_goal s h)
    unfolding abandon_goal release_binding
    abandon-Kept h other =
        Option-split Kept (lookup h s.packet_bindings) _ _ (λ _. at)
          λ c _. ground (arith, lookup-erase h g s.packet_bindings)

    abbrev KeptCommit : Option (Endpoint × ClientPacketBinding) → Type 0
    KeptCommit r = Kept (after_commit s r)

    commit-Kept : (h : GoalId) → Kept (after_commit s (commit_cancel s h))
    unfolding commit_cancel after_commit
    commit-Kept h =
        if_split KeptCommit (not s.initialized) _ _ (λ _. at)
          λ _.
            Option-split KeptCommit (lookup h s.packet_bindings) _ _ (λ _. at)
              λ c found.
                if_split KeptCommit (not (is_accepted c.state)) _ _ (λ _. at)
                  λ w. store-Kept s h c (mark_cancel_sent c) refl found q (ground arith)

    roll_back-Kept : (h : GoalId) → Kept (roll_back_cancel s h)
    unfolding roll_back_cancel
    roll_back-Kept h =
        Option-split Kept (lookup h s.packet_bindings) _ _ (λ _. at)
          λ c found.
            if_split Kept (is_awaiting_cancel c.state) _ _
              (λ w. store-Kept s h c (mark_accepted c) refl found q (ground arith)) (λ _. at)

    step-Kept :
        (v : PacketEnv) (section : Section)
        → IsConsistent s
        → spares g section ≡ true
        → Kept (step v s section)
    unfolding step receive send clear_pending_events
    step-Kept v (receives slot kind packet) c ok = at
    step-Kept v (polls now) c ok = poll-Kept now _ _ _ (poll-Reports v now s c.unique)
    step-Kept v (reserves h now timeout) c ok = reserve-Kept h now timeout
    step-Kept v (transmits m) c ok = at
    step-Kept v (abandons h) c ok = abandon-Kept h ok
    step-Kept v (commits h) c ok = commit-Kept h
    step-Kept v (rolls_back h) c ok = roll_back-Kept h
    step-Kept v clears c ok = at
    step-Kept v resets c ok = absurd (ground arith)

run-Kept :
    (s : Endpoint) (g : GoalId) (b : ClientPacketBinding) (sections : List (PacketEnv × Section))
    → IsConsistent s
    → lookup g s.packet_bindings ≡ some b
    → is_quarantined b.state ≡ true
    → all_spare g sections ≡ true
    → lookup g (run s sections).packet_bindings ≡ some b
unfolding run
run-Kept s g b [] c at q ok = at
run-Kept s g b ((v, section) ∷ sections) c at q ok =
    run-Kept (step v s section) g b sections (step_keeps v s section c)
      (step-Kept s g b at q v section c (ground arith)) q (ground arith)

-- From a consistent endpoint with a Goal whose response timed out: whatever packets arrive, polls
-- run and Goals are sent and canceled, short of a reset or of a failing `send_goal` for the same
-- Goal, the Goal keeps its binding and stays the owner of its slot.
pub timed_out_keeps_slot :
    (s : Endpoint) (g : GoalId) (b : ClientPacketBinding) (sections : List (PacketEnv × Section))
    → IsConsistent s
    → lookup g s.packet_bindings ≡ some b
    → is_quarantined b.state ≡ true
    → all_spare g sections ≡ true
    → (lookup g (run s sections).packet_bindings ≡ some b)
      × (owner_at (run s sections).slot_owners b.slot_index ≡ some g)
timed_out_keeps_slot s g b sections c at q ok = (kept, (inv.bound g b kept).1)
  where
    inv : IsConsistent (run s sections)
    inv = interleaved-IsConsistent s sections c

    kept : lookup g (run s sections).packet_bindings ≡ some b
    kept = run-Kept s g b sections c at q ok
