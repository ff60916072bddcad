-- ===== src/Action/ClientEndpoint/Histories.antt =====
-- Every interleaving of the critical sections of an Action client endpoint
-- (src/action_client_endpoint_impl.cpp): the parts of its calls between which it holds no mutex, in
-- any order, with packets that arrive at any time. A poll, which takes the mutex of the queue and
-- then the other, is one step.
use hakoniwa_pdu_rpc.Base.{
  ℕ, ◌≤◌, Bool, ◌&&◌, true, false, not, List, [], ◌∷◌, length, bytes_equality,
}
use hakoniwa_pdu_rpc.Action.Types.{GoalId, PduData}
use hakoniwa_pdu_rpc.Action.Packet.{PacketEnv, Send}
use hakoniwa_pdu_rpc.Action.Slots.{bindings-le-slots}
use hakoniwa_pdu_rpc.Action.ClientEndpoint.{Endpoint, PendingPacketKind, send}
use hakoniwa_pdu_rpc.Action.ClientEndpoint.Operations.{
  receive, reserve_slot, abandon_goal, commit_cancel, roll_back_cancel, clear_pending_events,
  reset_contexts,
}
use hakoniwa_pdu_rpc.Action.ClientEndpoint.Polling.{poll}
use hakoniwa_pdu_rpc.Action.ClientEndpoint.Consistency.{
  IsConsistent, after_reservation, after_commit, reserve_keeps, abandon_keeps, commit_keeps,
  roll_back_keeps, poll_keeps, reset_keeps,
}

-- `transmits` is the call of the transport that stands between the critical sections.
pub data Section : Type 0 where
  receives : ℕ → PendingPacketKind → PduData → Section
  polls : ℕ → Section
  reserves : GoalId → ℕ → ℕ → Section
  transmits : Send → Section
  abandons commits rolls_back : GoalId → Section
  clears resets : Section

unfoldable pub step : PacketEnv → Endpoint → Section → Endpoint
step v s (receives slot kind packet) = receive s slot kind packet
step v s (polls now) = (poll v now s).0
step v s (reserves g now timeout) = after_reservation s (reserve_slot s g now timeout)
step v s (transmits m) = (send v s m).0
step v s (abandons g) = abandon_goal s g
step v s (commits g) = after_commit s (commit_cancel s g)
step v s (rolls_back g) = roll_back_cancel s g
step v s clears = clear_pending_events s
step v s resets = reset_contexts s

pub step_keeps :
    (v : PacketEnv) (s : Endpoint) (section : Section)
    → IsConsistent s
    → IsConsistent (step v s section)
unfolding step receive send clear_pending_events
step_keeps v s (receives slot kind packet) c = c
step_keeps v s (polls now) c = poll_keeps v now s c
step_keeps v s (reserves g now timeout) c = reserve_keeps s g now timeout c
step_keeps v s (transmits m) c = c
step_keeps v s (abandons g) c = abandon_keeps s g c
step_keeps v s (commits g) c = commit_keeps s g c
step_keeps v s (rolls_back g) c = roll_back_keeps s g c
step_keeps v s clears c = c
step_keeps v s resets c = reset_keeps s c

unfoldable pub run : Endpoint → List (PacketEnv × Section) → Endpoint
unfolding step
run s [] = s
run s ((v, section) ∷ sections) = run (step v s section) sections

-- From a consistent endpoint, every interleaving of critical sections, with packets that arrive and
-- polls at any time, leads to a consistent one: each bound Goal owns the slot of its binding, and
-- each owner of a slot is bound to it.
pub interleaved-IsConsistent :
    (s : Endpoint) (sections : List (PacketEnv × Section))
    → IsConsistent s
    → IsConsistent (run s sections)
unfolding run
interleaved-IsConsistent s [] c = c
interleaved-IsConsistent s ((v, section) ∷ sections) c =
    interleaved-IsConsistent (step v s section) sections (step_keeps v s section c)

-- From a consistent endpoint, no interleaving binds more Goals than there are slots.
pub goals-le-slots :
    (s : Endpoint) (sections : List (PacketEnv × Section))
    → IsConsistent s
    → length (run s sections).packet_bindings ≤ length (run s sections).slot_routing
goals-le-slots s sections c = bindings-le-slots (interleaved-IsConsistent s sections c)

-- Whether a section can give up a Goal whatever its state: a reset, or the failure path of a
-- `send_goal` for that Goal.
abbrev pub spares : GoalId → Section → Bool
spares g (abandons h) = not (bytes_equality.equals h g)
spares g resets = false
spares g _ = true

abbrev pub all_spare : GoalId → List (PacketEnv × Section) → Bool
all_spare g [] = true
all_spare g ((v, section) ∷ sections) = spares g section && all_spare g sections
