-- ===== src/Action/MuxServer/Owners.antt =====
-- The list of owners of an Action mux server (src/action_services_mux_server.cpp): each Goal of an
-- Action has at most one entry.
use hakoniwa_pdu_rpc.Base.{
  ℕ, ◌≡◌, refl, Bool, true, false, not, none, List, [], ◌∷◌, ◌++◌, String, arith, eqb,
  string_equality, bytes_equality, if_split,
}
use hakoniwa_pdu_rpc.Action.Types.{GoalId}
use hakoniwa_pdu_rpc.Action.Packet.{PacketEnv}
use hakoniwa_pdu_rpc.Action.ServicesServer.Services.{ActionServices, Request, call, perform}
use hakoniwa_pdu_rpc.Action.MuxServer.{
  GoalOwner, is_pending, owns, find_owner, remove_owner, activate, discard_pending,
}

abbrev pub Distinct : List GoalOwner → Type 0
Distinct [] = Unit {0}
Distinct (owner ∷ rest) = (find_owner owner.action_name owner.goal_id rest ≡ none) × Distinct rest

-- Two owners of the same Goal own the same Goals.
owns_same :
    (name : String) (goal : GoalId) (o p : GoalOwner)
    → owns name goal o ≡ true
    → owns o.action_name o.goal_id p ≡ owns name goal p
owns_same name goal o p h =
    ground (
      arith,
      string_equality.equals_iff o.action_name name,
      bytes_equality.equals_iff o.goal_id goal,
    )

pub find_owner-append :
    (name : String) (goal : GoalId) (owners : List GoalOwner) (o : GoalOwner)
    → find_owner name goal owners ≡ none
    → find_owner name goal (owners ++ o ∷ []) ≡ find_owner name goal (o ∷ [])
unfolding find_owner
find_owner-append name goal [] o h = refl
find_owner-append name goal (p ∷ owners) o h = ground (arith, find_owner-append name goal owners o)

find_owner-append_ne :
    (name : String) (goal : GoalId) (owners : List GoalOwner) (o : GoalOwner)
    → owns name goal o ≡ false
    → find_owner name goal (owners ++ o ∷ []) ≡ find_owner name goal owners
unfolding find_owner
find_owner-append_ne name goal [] o h = ground arith
find_owner-append_ne name goal (p ∷ owners) o h =
    ground (arith, find_owner-append_ne name goal owners o)

pub append-Distinct :
    (owners : List GoalOwner) (o : GoalOwner)
    → Distinct owners
    → find_owner o.action_name o.goal_id owners ≡ none
    → Distinct (owners ++ o ∷ [])
unfolding find_owner
append-Distinct [] o d h = (refl, tt)
append-Distinct (p ∷ owners) o d h = (
  ground (
    arith,
    find_owner-append_ne p.action_name p.goal_id owners o,
    string_equality.equals_iff p.action_name o.action_name,
    string_equality.equals_iff o.action_name p.action_name,
    bytes_equality.equals_iff p.goal_id o.goal_id,
    bytes_equality.equals_iff o.goal_id p.goal_id,
    d.0,
  ),
  append-Distinct owners o d.1 (ground arith),
)

find_owner-remove :
    (name : String) (goal : GoalId) (other : String) (g : GoalId) (owners : List GoalOwner)
    → find_owner other g owners ≡ none
    → find_owner other g (remove_owner name goal owners) ≡ none
unfolding find_owner remove_owner
find_owner-remove name goal other g [] h = refl
find_owner-remove name goal other g (p ∷ owners) h =
    ground (arith, find_owner-remove name goal other g owners)

pub remove-Distinct :
    (name : String) (goal : GoalId) (owners : List GoalOwner)
    → Distinct owners
    → Distinct (remove_owner name goal owners)
unfolding remove_owner
remove-Distinct name goal [] d = tt
remove-Distinct name goal (p ∷ owners) d =
    if_split Distinct (owns name goal p) _ _ (λ _. d.1)
      λ _. (
        find_owner-remove name goal p.action_name p.goal_id owners d.0,
        remove-Distinct name goal owners d.1,
      )

find_owner-activate :
    (name : String) (goal : GoalId) (other : String) (g : GoalId) (owners : List GoalOwner)
    → find_owner other g owners ≡ none
    → find_owner other g (activate name goal owners) ≡ none
unfolding find_owner activate
find_owner-activate name goal other g [] h = refl
find_owner-activate name goal other g (p ∷ owners) h =
    ground (arith, find_owner-activate name goal other g owners)

pub activate-Distinct :
    (name : String) (goal : GoalId) (owners : List GoalOwner)
    → Distinct owners
    → Distinct (activate name goal owners)
unfolding activate
activate-Distinct name goal [] d = tt
activate-Distinct name goal (p ∷ owners) d =
    if_split Distinct (owns name goal p) _ _ (λ _. d)
      λ _. (
        find_owner-activate name goal p.action_name p.goal_id owners d.0,
        activate-Distinct name goal owners d.1,
      )

abbrev Discards : Type 0
Discards = ActionServices × List GoalOwner × Bool

abbrev discarded : (ℕ → PacketEnv) → ℕ → ActionServices → GoalOwner → ActionServices
discarded v id s p =
    (call s p.action_name p.goal_id (perform (v id) p.goal_id Request.discard_pending_goal)).0

find_owner-discard :
    (v : ℕ → PacketEnv) (id : ℕ) (other : String) (g : GoalId) (owners : List GoalOwner)
    (s : ActionServices)
    → find_owner other g owners ≡ none
    → find_owner other g (discard_pending v id s owners).1 ≡ none
unfolding find_owner discard_pending
find_owner-discard v id other g [] s h = refl
find_owner-discard v id other g (p ∷ owners) s h =
    let kept = find_owner-discard v id other g owners s in
    if_split {A = Discards} (λ r. find_owner other g r.1 ≡ none) (not (eqb p.connection_id id)) _ _
      (λ _. ground (arith, kept))
      λ _.
        if_split {A = Discards} (λ r. find_owner other g r.1 ≡ none) (not (is_pending p)) _ _
          (λ _. ground (arith, kept))
          λ _. find_owner-discard v id other g owners (discarded v id s p) (ground arith)

pub discard-Distinct :
    (v : ℕ → PacketEnv) (id : ℕ) (owners : List GoalOwner) (s : ActionServices)
    → Distinct owners
    → Distinct (discard_pending v id s owners).1
unfolding discard_pending
discard-Distinct v id [] s d = tt
discard-Distinct v id (p ∷ owners) s d =
    let kept : Distinct (p ∷ (discard_pending v id s owners).1) = (
      find_owner-discard v id p.action_name p.goal_id owners s d.0,
      discard-Distinct v id owners s d.1,
    ) in
    if_split {A = Discards} (λ r. Distinct r.1) (not (eqb p.connection_id id)) _ _ (λ _. kept)
      λ _.
        if_split {A = Discards} (λ r. Distinct r.1) (not (is_pending p)) _ _ (λ _. kept)
          λ _. discard-Distinct v id owners (discarded v id s p) d.1
