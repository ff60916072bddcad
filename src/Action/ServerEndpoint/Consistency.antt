-- ===== src/Action/ServerEndpoint/Consistency.antt =====
-- The bindings and the slot owners of an Action server endpoint describe one injective assignment
-- of Goals to slots, and every call keeps it so.
mod Calls
mod Polls
pub mod Reach
use hakoniwa_pdu_rpc.Base.{
  ℕ, zero, suc, ◌+◌, ◌≤◌, ◌<◌, ◌≡◌, ◌≢◌, refl, sym, ap, ◌∙◌, ◌⊎◌, inl, inr, Bool, true, false, ◌&&◌,
  Option, none, some, List, [], ◌∷◌, arith, eqb, ltb, length, get_elem?, set, if◌then◌else◌,
  bytes_equality, Bool-cases, length-set, map,
}
use hakoniwa_pdu_rpc.Base.Map.{lookup, insert, erase, lookup-insert, lookup-erase}
use hakoniwa_pdu_rpc.Action.Types.{GoalId}
use hakoniwa_pdu_rpc.Action.Slots.{
  Assigns, store-Assigns, claim-Assigns, release-Assigns, owner_at-lt-length,
}
use hakoniwa_pdu_rpc.Action.ServerEndpoint.{
  Endpoint, SlotRouting, ActionPacketBinding, new_binding, owner_at, owner_is, release_binding,
  store_binding,
}

abbrev pub IsConsistent : Endpoint → Type 0
IsConsistent s =
    Assigns (λ (b : ActionPacketBinding). b.goal_id) (λ b. b.slot_index) s.slot_routing
      s.slot_owners s.packet_bindings

pub release-IsConsistent :
    (s : Endpoint) (g : GoalId) (b : ActionPacketBinding)
    → IsConsistent s
    → lookup g s.packet_bindings ≡ some b
    → IsConsistent (release_binding s g b)
unfolding release_binding
release-IsConsistent s g b c h = rw holds (release-Assigns c g b h)
  where
    holds :
        (ltb b.slot_index (length s.slot_owners)
          && owner_is (owner_at s.slot_owners b.slot_index) g)
        ≡ true
    holds = ground (
      arith,
      c.bound g b h,
      bytes_equality.equals_iff g g,
      owner_at-lt-length s.slot_owners b.slot_index g,
    )

pub store-IsConsistent :
    (s : Endpoint) (g : GoalId) (b d : ActionPacketBinding)
    → IsConsistent s
    → lookup g s.packet_bindings ≡ some b
    → d.goal_id ≡ b.goal_id
    → d.slot_index ≡ b.slot_index
    → IsConsistent (store_binding s g d)
unfolding store_binding
store-IsConsistent s g b d c h = store-Assigns c g b d h
