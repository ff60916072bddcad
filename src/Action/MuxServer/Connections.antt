-- ===== src/Action/MuxServer/Connections.antt =====
-- The connections of an Action mux server (src/action_services_mux_server.cpp): how they come and go,
-- and what stays true of their servers.
use hakoniwa_pdu_rpc.Base.{
  ℕ, Bool, not, ◌||◌, none, some, List, [], ◌∷◌, ◌++◌, String, eqb, leb, string_equality,
  bytes_equality, if_split,
}
use hakoniwa_pdu_rpc.Action.Types.{GoalId}
use hakoniwa_pdu_rpc.Action.Packet.{PacketEnv}
use hakoniwa_pdu_rpc.Action.ServicesServer.Services.{
  ActionServices, Request, call, perform, stop_all_services,
}
use hakoniwa_pdu_rpc.Action.ServicesServer.Layers.{AllCoupled}
use hakoniwa_pdu_rpc.Action.ServicesServer.Server
use hakoniwa_pdu_rpc.Action.ServicesServer.Server.{step-AllCoupled}
use hakoniwa_pdu_rpc.Action.MuxServer.{
  GoalOwner, ConnectionSlot, Mux, Arrival, is_pending, connected_slot_count, accept_connection,
  accept_new_connections, discard_pending, close_connection, process_slots, process_disconnected,
}
use hakoniwa_pdu_rpc.Action.MuxServer.Owners.{Distinct, discard-Distinct}

-- The layers of every server agree.
abbrev pub AllServers : List ConnectionSlot → Type 0
AllServers [] = Unit {0}
AllServers (slot ∷ rest) = AllCoupled slot.server.actions × AllServers rest

-- Each Goal of an Action has at most one owner, and the layers of every server agree.
pub record IsSound (m : Mux) : Type 0 where
  pub distinct : Distinct m.owners
  pub coupled : AllServers m.slots

-- The services of a new connection have Actions whose layers agree, as after initialization.
abbrev pub Arrives : Arrival → Type 0
Arrives none = Unit {0}
Arrives (some none) = Unit {0}
Arrives (some (some server)) = AllCoupled server.actions

abbrev pub AllArrive : List Arrival → Type 0
AllArrive [] = Unit {0}
AllArrive (a ∷ rest) = Arrives a × AllArrive rest

append-AllServers :
    (slots : List ConnectionSlot) (slot : ConnectionSlot)
    → AllServers slots
    → AllCoupled slot.server.actions
    → AllServers (slots ++ slot ∷ [])
append-AllServers [] slot k h = (h, tt)
append-AllServers (s ∷ slots) slot k h = (k.0, append-AllServers slots slot k.1 h)

accept_connection-IsSound :
    (capacity : ℕ) (m : Mux) (a : Arrival)
    → IsSound m
    → Arrives a
    → IsSound (accept_connection capacity m a)
unfolding accept_connection
accept_connection-IsSound capacity m none k h = k
accept_connection-IsSound capacity m (some none) k h =
    if_split IsSound (leb capacity (connected_slot_count m.slots)) _ _ (λ _. k)
      λ _. record { distinct = k.distinct; coupled = k.coupled }
accept_connection-IsSound capacity m (some (some server)) k h =
    if_split IsSound (leb capacity (connected_slot_count m.slots)) _ _ (λ _. k)
      λ _. record { distinct = k.distinct; coupled = append-AllServers m.slots _ k.coupled h }

pub accept_new_connections-IsSound :
    (capacity : ℕ) (arrivals : List Arrival) (m : Mux)
    → IsSound m
    → AllArrive arrivals
    → IsSound (accept_new_connections capacity arrivals m)
unfolding accept_new_connections
accept_new_connections-IsSound capacity [] m k h = k
accept_new_connections-IsSound capacity (a ∷ rest) m k h =
    accept_new_connections-IsSound capacity rest (accept_connection capacity m a)
      (accept_connection-IsSound capacity m a k h.0) h.1

-- A call on a server is one of its own steps.
pub called-AllCoupled :
    (v : PacketEnv) (s : ActionServices) (name : String) (g : GoalId) (r : Request)
    → AllCoupled s.actions
    → AllCoupled (call s name g (perform v g r)).0.actions
unfolding Server.step
called-AllCoupled v s name g r k = step-AllCoupled v s (Server.requested name g r) k

discard-AllCoupled :
    (v : ℕ → PacketEnv) (id : ℕ) (owners : List GoalOwner) (s : ActionServices)
    → AllCoupled s.actions
    → AllCoupled (discard_pending v id s owners).0.actions
unfolding discard_pending
discard-AllCoupled v id [] s k = k
discard-AllCoupled v id (p ∷ owners) s k =
    if_split {A = ActionServices × List GoalOwner × Bool} (λ r. AllCoupled r.0.actions)
      (not (eqb p.connection_id id)) _ _ (λ _. discard-AllCoupled v id owners s k)
      λ _.
        if_split {A = ActionServices × List GoalOwner × Bool} (λ r. AllCoupled r.0.actions)
          (not (is_pending p)) _ _ (λ _. discard-AllCoupled v id owners s k)
          λ _.
            discard-AllCoupled v id owners _
              (called-AllCoupled (v id) s p.action_name p.goal_id Request.discard_pending_goal k)

close-AllCoupled :
    (v : PacketEnv) (slot : ConnectionSlot) (s : ActionServices) (owned : Bool)
    → AllCoupled s.actions
    → AllCoupled (close_connection slot s owned).server.actions
unfolding close_connection Server.step
close-AllCoupled v slot s owned k =
    let stopped = step-AllCoupled v s Server.stopped k in
    if_split (λ (x : ConnectionSlot). AllCoupled x.server.actions) owned _ _
      (λ _. step-AllCoupled v (stop_all_services s) Server.disconnected stopped)
      λ _. step-AllCoupled v (stop_all_services s) Server.cleared stopped

abbrev SlotsSound : List ConnectionSlot × List GoalOwner → Type 0
SlotsSound r = AllServers r.0 × Distinct r.1

process_slots_sound :
    (v : ℕ → PacketEnv) (slots : List ConnectionSlot) (owners : List GoalOwner)
    → AllServers slots
    → Distinct owners
    → SlotsSound (process_slots v owners slots)
unfolding process_slots
process_slots_sound v [] owners k d = (tt, d)
process_slots_sound v (slot ∷ rest) owners k d =
    if_split SlotsSound (not slot.disconnected || slot.disconnect_processed) _ _
      (λ _. let r = process_slots_sound v rest owners k.1 d in ((k.0, r.0), r.1))
      λ _.
        let r =
          process_slots_sound v rest (discard_pending v slot.connection_id slot.server owners).1 k.1
            (discard-Distinct v slot.connection_id owners slot.server d) in
        (
          (
            close-AllCoupled (v slot.connection_id) slot _ _
                (discard-AllCoupled v slot.connection_id owners slot.server k.0),
            r.0,
          ),
          r.1,
        )

pub process_disconnected-IsSound :
    (v : ℕ → PacketEnv) (m : Mux) → IsSound m → IsSound (process_disconnected v m)
unfolding process_disconnected
process_disconnected-IsSound v m k =
    let r = process_slots_sound v m.slots m.owners k.coupled k.distinct in
    record { distinct = r.1; coupled = r.0 }
