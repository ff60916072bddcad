-- ===== src/Action/MuxServer.antt =====
-- src/action_services_mux_server.cpp: one Action server for each connection that the communication
-- multiplexer of hakoniwa-pdu-endpoint accepts, and the connection that owns each Goal. What the
-- multiplexer hands over is an argument: `none` for a null pointer, otherwise what initializing the
-- services on it gives, `none` where that fails. Each connection has its own environment. The lock
-- is left out, and so are the calls that stop and close endpoints.
pub mod Operations
pub mod Buffers
pub mod Owners
pub mod Connections
pub mod Polling
pub mod Sessions
use hakoniwa_pdu_rpc.Base.{
  ℕ, ◌+◌, ◌%◌, ◌^◌, Bool, true, false, not, ◌&&◌, ◌||◌, Option, none, some, List, [], ◌∷◌, ◌++◌,
  String, leb, eqb, length, if◌then◌else◌, ◌==◌, string_equality, bytes_equality,
}
use hakoniwa_pdu_rpc.Action.Types.{
  GoalId, PduData, TerminalStatus, ServerEventType, goal_request, ServerEvent,
}
use hakoniwa_pdu_rpc.Action.Packet.{PacketEnv}
use hakoniwa_pdu_rpc.Action.ServerEndpoint.Operations.{no_event}
use hakoniwa_pdu_rpc.Action.ServicesServer.Services.{ActionServices, Request}
use hakoniwa_pdu_rpc.Action.ServicesServer.Services

pub data GoalOwnerState : Type 0 where
  pending active : GoalOwnerState

pub record GoalOwner : Type 0 where
  pub action_name : String
  pub goal_id : GoalId
  pub connection_id : ℕ  -- uint64_t
  pub state : GoalOwnerState

-- A slot of `slots_` always has its server; the flag behind `disconnected` is shared with the
-- callback of the transport.
pub record ConnectionSlot : Type 0 where
  pub connection_id : ℕ  -- uint64_t
  pub server : ActionServices
  pub disconnected : Bool
  pub orphaned : Bool
  pub disconnect_processed : Bool
  pub retired : Bool

-- `opened` says whether `mux_` is set.
pub record Mux : Type 0 where
  pub opened : Bool
  pub slots : List ConnectionSlot
  pub owners : List GoalOwner
  pub next_connection_id : ℕ  -- uint64_t
  pub started : Bool

abbrev pub Arrival : Type 0
Arrival = Option (Option ActionServices)

abbrev pub is_pending : GoalOwner → Bool
is_pending owner = elim owner.state [ pending ↦ true | active ↦ false ]

abbrev pub owns : String → GoalId → GoalOwner → Bool
owns name goal owner = owner.action_name == name && owner.goal_id == goal

unfoldable pub find_owner : String → GoalId → List GoalOwner → Option GoalOwner
find_owner name goal [] = none
find_owner name goal (owner ∷ rest) =
    let later = find_owner name goal rest in if owns name goal owner then some owner else later

unfoldable pub find_active_owner : String → GoalId → List GoalOwner → Option GoalOwner
unfolding find_owner
find_active_owner name goal owners = elim (find_owner name goal owners) [
  | none ↦ none
  | some owner ↦ if is_pending owner then none else some owner
]

-- The first owner of the Goal is erased.
unfoldable pub remove_owner : String → GoalId → List GoalOwner → List GoalOwner
remove_owner name goal [] = []
remove_owner name goal (owner ∷ rest) =
    let erased = remove_owner name goal rest in
    if owns name goal owner then rest else owner ∷ erased

-- `owner->state = ACTIVE` at the owner that `find_owner_` returns.
unfoldable pub activate : String → GoalId → List GoalOwner → List GoalOwner
activate name goal [] = []
activate name goal (owner ∷ rest) =
    let later = activate name goal rest in
    if owns name goal owner then record owner { state = active } ∷ rest else owner ∷ later

unfoldable pub find_slot : ℕ → List ConnectionSlot → Option ConnectionSlot
find_slot connection_id [] = none
find_slot connection_id (slot ∷ rest) =
    let later = find_slot connection_id rest in
    if eqb slot.connection_id connection_id then some slot else later

-- A call on the server of the slot that `find_slot_` returns.
unfoldable pub update_server :
    ℕ → (ActionServices → ActionServices) → List ConnectionSlot → List ConnectionSlot
update_server connection_id f [] = []
update_server connection_id f (slot ∷ rest) =
    let later = update_server connection_id f rest in
    if eqb slot.connection_id connection_id
    then record slot { server = f slot.server } ∷ rest
    else slot ∷ later

unfoldable pub connected_slot_count : List ConnectionSlot → ℕ
connected_slot_count [] = 0
connected_slot_count (slot ∷ rest) =
    if slot.disconnected then connected_slot_count rest else connected_slot_count rest + 1

-- One turn of the loop of `accept_new_connections_`.
unfoldable pub accept_connection : ℕ → Mux → Arrival → Mux
unfolding connected_slot_count
accept_connection capacity m none = m
accept_connection capacity m (some initialized) =
    if leb capacity (connected_slot_count m.slots)
    then m
    else (let next = (m.next_connection_id + 1) % 2 ^ 64 in
        elim initialized [
          | none ↦ record m { next_connection_id = next }
          | some server ↦ record m {
            next_connection_id = next;
            slots =
                m.slots
                ++ record {
                  connection_id = m.next_connection_id;
                  server = server;
                  disconnected = false;
                  orphaned = false;
                  disconnect_processed = false;
                  retired = false;
                }
                  ∷ [];
          }
        ])

unfoldable pub accept_new_connections : ℕ → List Arrival → Mux → Mux
unfolding accept_connection
accept_new_connections capacity [] m = m
accept_new_connections capacity (a ∷ rest) m =
    accept_new_connections capacity rest (accept_connection capacity m a)

-- The inner loop of `process_disconnected_`: the pending Goals of the connection are discarded, and
-- the last component says whether it has an active one.
unfoldable pub discard_pending :
    (ℕ → PacketEnv) → ℕ → ActionServices → List GoalOwner → ActionServices × List GoalOwner × Bool
discard_pending v connection_id server [] = (server, [], false)
discard_pending v connection_id server (owner ∷ rest) =
    let kept = discard_pending v connection_id server rest in
    let discarded =
      (Services.call server owner.action_name owner.goal_id
        (Services.perform (v connection_id) owner.goal_id Request.discard_pending_goal)).0 in
    let dropped = discard_pending v connection_id discarded rest in
    if not (eqb owner.connection_id connection_id)
    then (kept.0, owner ∷ kept.1, kept.2)
    else if not (is_pending owner)
    then (kept.0, owner ∷ kept.1, true)
    else dropped

-- The rest of the turn: an orphaned slot waits for its active Goals, any other is retired.
unfoldable pub close_connection : ConnectionSlot → ActionServices → Bool → ConnectionSlot
close_connection slot server has_active_owner =
    let stopped = Services.stop_all_services server in
    if has_active_owner
    then record slot {
      server = Services.notify_transport_disconnected stopped;
      disconnect_processed = true;
      orphaned = true;
    }
    else record slot {
      server = Services.clear_all_instances stopped;
      disconnect_processed = true;
      retired = true;
    }

unfoldable pub process_slots :
    (ℕ → PacketEnv) → List GoalOwner → List ConnectionSlot → List ConnectionSlot × List GoalOwner
unfolding discard_pending close_connection
process_slots v owners [] = ([], owners)
process_slots v owners (slot ∷ rest) =
    let d = discard_pending v slot.connection_id slot.server owners in
    let skipped = process_slots v owners rest in
    let processed = process_slots v d.1 rest in
    if not slot.disconnected || slot.disconnect_processed
    then (slot ∷ skipped.0, skipped.1)
    else (close_connection slot d.0 d.2 ∷ processed.0, processed.1)

unfoldable pub process_disconnected : (ℕ → PacketEnv) → Mux → Mux
unfolding process_slots
process_disconnected v m =
    let r = process_slots v m.owners m.slots in record m { slots = r.0; owners = r.1 }

-- `any_of` and `find_if` of `reclaim_orphaned_slot_`.
unfoldable pub is_owned : ℕ → List GoalOwner → Bool
is_owned connection_id [] = false
is_owned connection_id (owner ∷ rest) =
    eqb owner.connection_id connection_id || is_owned connection_id rest

unfoldable pub retire_orphan : ℕ → List ConnectionSlot → List ConnectionSlot
retire_orphan connection_id [] = []
retire_orphan connection_id (slot ∷ rest) =
    let later = retire_orphan connection_id rest in
    if eqb slot.connection_id connection_id && slot.orphaned
    then record slot { server = Services.clear_all_instances slot.server; retired = true } ∷ rest
    else slot ∷ later

unfoldable pub reclaim_orphaned_slot : Mux → ℕ → Mux
unfolding is_owned retire_orphan
reclaim_orphaned_slot m connection_id =
    if is_owned connection_id m.owners
    then m
    else record m { slots = retire_orphan connection_id m.slots }
