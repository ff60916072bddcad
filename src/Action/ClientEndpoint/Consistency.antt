-- ===== src/Action/ClientEndpoint/Consistency.antt =====
-- The bindings and the slot owners of an Action client endpoint describe one injective assignment
-- of Goals to slots, and every critical section keeps it so.
use hakoniwa_pdu_rpc.Base.{
  ℕ, ◌<◌, ◌≡◌, refl, sym, subst, inl, inr, true, not, Option, none, some, List, [], ◌∷◌, arith, ltb,
  length, suc, zero, if_split, Option-split, Option-cases, bytes_equality,
}
use hakoniwa_pdu_rpc.Base.Map.{lookup}
use hakoniwa_pdu_rpc.Action.Types.{GoalId, ClientEvent}
use hakoniwa_pdu_rpc.Action.Packet.{PacketEnv}
use hakoniwa_pdu_rpc.Action.ServerEndpoint.{owner_at}
use hakoniwa_pdu_rpc.Action.Slots.{
  Assigns, store-Assigns, claim-Assigns, release-Assigns, reset-Assigns, owner_at-lt-length,
}
use hakoniwa_pdu_rpc.Action.ClientEndpoint.{
  Endpoint, PendingPacket, ClientPacketBinding, new_binding, is_accepted, is_awaiting_cancel,
  release_binding, store_binding,
}
use hakoniwa_pdu_rpc.Action.ClientEndpoint.Operations.{
  free_slot, Reservation, refused, reserved, reserve_slot, abandon_goal, commit_cancel,
  roll_back_cancel, mark_accepted, mark_cancel_sent, reset_contexts,
}
use hakoniwa_pdu_rpc.Action.ClientEndpoint.Polling.{
  poll, mark_canceling, mark_timed_out, next_sequence,
}
use hakoniwa_pdu_rpc.Action.ClientEndpoint.Outcomes.{
  with_packets, Reports, quiet, admitted, fed, cancel_granted, cancel_denied, ended, timed_out,
  poll-Reports,
}

abbrev pub IsConsistent : Endpoint → Type 0
IsConsistent s =
    Assigns (λ (b : ClientPacketBinding). b.goal_id) (λ b. b.slot_index) s.slot_routing
      s.slot_owners s.packet_bindings

pub store-IsConsistent :
    (s : Endpoint) (g : GoalId) (b d : ClientPacketBinding)
    → IsConsistent s
    → lookup g s.packet_bindings ≡ some b
    → d.goal_id ≡ b.goal_id
    → d.slot_index ≡ b.slot_index
    → IsConsistent (store_binding s g d)
unfolding store_binding
store-IsConsistent s g b d c h = store-Assigns c g b d h

pub release-IsConsistent :
    (s : Endpoint) (g : GoalId) (b : ClientPacketBinding)
    → IsConsistent s
    → lookup g s.packet_bindings ≡ some b
    → IsConsistent (release_binding s g b)
unfolding release_binding
release-IsConsistent s g b c h = rw holds (release-Assigns c g b h)
  where
    holds : ltb b.slot_index (length s.slot_owners) ≡ true
    holds = ground (arith, c.bound g b h, owner_at-lt-length s.slot_owners b.slot_index g)

-- The first slot without an owner is one of the table's.
pub free_slot-free :
    (owners : List (Option GoalId)) (i : ℕ)
    → free_slot owners ≡ some i
    → (owner_at owners i ≡ none) × (i < length owners)
unfolding free_slot owner_at
free_slot-free [] i h = cc
free_slot-free (none ∷ owners) zero h = (refl, omega arith)
free_slot-free (none ∷ owners) (suc i) h = absurd (ground (arith, h))
free_slot-free (some o ∷ owners) i h = elim (Option-cases (free_slot owners)) [
  | inl e ↦ absurd (ground (arith, e))
  | inr (j, e) ↦
      let r = free_slot-free owners j e in
      let same : suc j ≡ i = ground (arith, e) in
      subst (λ k. (owner_at (some o ∷ owners) k ≡ none) × (k < suc (length owners))) same
        (r.0, omega (arith, r.1))
]

-- The endpoint after the first critical section of `send_goal_with_result`.
unfoldable pub after_reservation : Endpoint → Reservation → Endpoint
after_reservation s (refused result) = s
after_reservation s (reserved held slot) = held

abbrev AfterKeeps : Endpoint → Reservation → Type 0
AfterKeeps s r = IsConsistent (after_reservation s r)

pub reserve_keeps :
    (s : Endpoint) (g : GoalId) (now timeout : ℕ)
    → IsConsistent s
    → IsConsistent (after_reservation s (reserve_slot s g now timeout))
unfolding reserve_slot after_reservation store_binding new_binding
reserve_keeps s g now timeout c =
    if_split (AfterKeeps s) (not s.initialized) _ _ (λ _. c)
      λ _. elim (Option-cases (lookup g s.packet_bindings)) [
        | inr (b, e) ↦ rw e c
        | inl e ↦ rw e (
            Option-split (AfterKeeps s) (free_slot s.slot_owners) _ _ (λ _. c)
              λ i f.
                let r = free_slot-free s.slot_owners i f in
                claim-Assigns c g (new_binding g i now timeout) i refl refl
                  (omega (arith, r.1, c.sized)) e r.0)
      ]

pub abandon_keeps : (s : Endpoint) (g : GoalId) → IsConsistent s → IsConsistent (abandon_goal s g)
unfolding abandon_goal
abandon_keeps s g c =
    Option-split IsConsistent (lookup g s.packet_bindings) _ _ (λ _. c)
      λ b e. release-IsConsistent s g b c e

pub roll_back_keeps :
    (s : Endpoint) (g : GoalId) → IsConsistent s → IsConsistent (roll_back_cancel s g)
unfolding roll_back_cancel
roll_back_keeps s g c =
    Option-split IsConsistent (lookup g s.packet_bindings) _ _ (λ _. c)
      λ b e.
        if_split IsConsistent (is_awaiting_cancel b.state) _ _
          (λ _. store-IsConsistent s g b (mark_accepted b) c e refl refl) (λ _. c)

-- The endpoint after the first critical section of `send_cancel`.
unfoldable pub after_commit : Endpoint → Option (Endpoint × ClientPacketBinding) → Endpoint
after_commit s none = s
after_commit s (some (committed, binding)) = committed

abbrev CommitKeeps : Endpoint → Option (Endpoint × ClientPacketBinding) → Type 0
CommitKeeps s r = IsConsistent (after_commit s r)

pub commit_keeps :
    (s : Endpoint) (g : GoalId) → IsConsistent s → IsConsistent (after_commit s (commit_cancel s g))
unfolding commit_cancel after_commit
commit_keeps s g c =
    if_split (CommitKeeps s) (not s.initialized) _ _ (λ _. c)
      λ _.
        Option-split (CommitKeeps s) (lookup g s.packet_bindings) _ _ (λ _. c)
          λ b e.
            if_split (CommitKeeps s) (not (is_accepted b.state)) _ _ (λ _. c)
              λ _. store-IsConsistent s g b (mark_cancel_sent b) c e refl refl

Reports_keeps :
    (now : ℕ) (s : Endpoint) (l : List PendingPacket) (e : ClientEvent) (t : Endpoint)
    → IsConsistent s
    → Reports now s l e t
    → IsConsistent t
Reports_keeps now s l e t c (quiet p q) = subst IsConsistent (sym q) c
Reports_keeps now s l e t c (admitted b p d u at w q) =
    subst IsConsistent (sym q)
      (store-IsConsistent (with_packets s l) e.goal b (mark_accepted b) c at refl refl)
Reports_keeps now s l e t c (Reports.refused b p d u at w q) =
    subst IsConsistent (sym q) (release-IsConsistent (with_packets s l) e.goal b c at)
Reports_keeps now s l e t c (fed b p d u at w q) =
    subst IsConsistent (sym q)
      (store-IsConsistent (with_packets s l) e.goal b (next_sequence b) c at refl refl)
Reports_keeps now s l e t c (cancel_granted b p d u at w q) =
    subst IsConsistent (sym q)
      (store-IsConsistent (with_packets s l) e.goal b (mark_canceling b) c at refl refl)
Reports_keeps now s l e t c (cancel_denied b p d u at w q) =
    subst IsConsistent (sym q)
      (store-IsConsistent (with_packets s l) e.goal b (mark_accepted b) c at refl refl)
Reports_keeps now s l e t c (ended b n p d u at w q) =
    subst IsConsistent (sym q) (release-IsConsistent (with_packets s l) e.goal b c at)
Reports_keeps now s l e t c (timed_out b p first q) =
    subst IsConsistent (sym q)
      (store-IsConsistent (with_packets s l) e.goal b (mark_timed_out b) c first.found refl refl)

pub poll_keeps :
    (v : PacketEnv) (now : ℕ) (s : Endpoint) → IsConsistent s → IsConsistent (poll v now s).0
poll_keeps v now s c =
    Reports_keeps now s _ (poll v now s).1 (poll v now s).0 c (poll-Reports v now s c.unique)

pub reset_keeps : (s : Endpoint) → IsConsistent s → IsConsistent (reset_contexts s)
unfolding reset_contexts
reset_keeps s c = reset-Assigns c
