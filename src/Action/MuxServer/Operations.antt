-- ===== src/Action/MuxServer/Operations.antt =====
-- The methods of `ActionServicesMuxServer::Impl` (src/action_services_mux_server.cpp): polling over
-- the connections, and the calls of the application, routed to the connection that owns the Goal.
use hakoniwa_pdu_rpc.Base.{
  ℕ, Bool, true, false, not, ◌&&◌, ◌||◌, Option, none, some, List, [], ◌∷◌, ◌++◌, String, leb, eqb,
  if◌then◌else◌,
}
use hakoniwa_pdu_rpc.Action.Types.{
  GoalId, PduData, TerminalStatus, ServerEventType, goal_request, cancel_request,
  runtime_cancel_request, error, ServerEvent,
}
use hakoniwa_pdu_rpc.Action.Packet.{PacketEnv}
use hakoniwa_pdu_rpc.Action.ServerEndpoint.Operations.{no_event}
use hakoniwa_pdu_rpc.Action.ServicesServer.Services.{ActionServices, Request}
use hakoniwa_pdu_rpc.Action.ServicesServer.Services
use hakoniwa_pdu_rpc.Action.MuxServer.{
  GoalOwner, pending, ConnectionSlot, Mux, Arrival, is_pending, find_owner, find_active_owner,
  remove_owner, activate, find_slot, update_server, accept_new_connections, process_disconnected,
  reclaim_orphaned_slot, connected_slot_count,
}

abbrev pub new_owner : String → GoalId → ℕ → GoalOwner
new_owner name goal connection_id = record {
  action_name = name;
  goal_id = goal;
  connection_id = connection_id;
  state = pending;
}

-- A Goal Request of a connection: refused where the Goal has an owner, and claimed otherwise.
pub data Claim : Type 0 where
  duplicate : ActionServices → Claim
  claimed : List GoalOwner → Claim

unfoldable pub claim_goal :
    PacketEnv → List GoalOwner → ℕ → ActionServices → String → GoalId → Claim
claim_goal v owners connection_id server name goal = elim (find_owner name goal owners) [
  | some _ ↦
      duplicate (Services.call server name goal (Services.perform v goal Request.reject_goal)).0
  | none ↦ claimed (owners ++ new_owner name goal connection_id ∷ [])
]

-- The loop of `poll` over the slots: the first event that is not a refused Goal Request.
unfoldable pub poll_slots :
    (ℕ → PacketEnv)
    → List GoalOwner
    → List ConnectionSlot
    → List ConnectionSlot × List GoalOwner × String × ServerEvent
unfolding claim_goal
poll_slots v owners [] = ([], owners, "", no_event)
poll_slots v owners (slot ∷ rest) =
    let later = poll_slots v owners rest in
    let r = Services.poll (v slot.connection_id) slot.server in
    let here : ConnectionSlot = record slot { server = r.0 } in
    if slot.retired then (slot ∷ later.0, later.1, later.2, later.3) else elim r.2.type [
      | ServerEventType.none ↦ (here ∷ later.0, later.1, later.2, later.3)
      | goal_request ↦
          elim (claim_goal (v slot.connection_id) owners slot.connection_id r.0 r.1 r.2.goal) [
            | duplicate server ↦
                (record slot { server = server } ∷ later.0, later.1, later.2, later.3)
            | claimed owners' ↦ (here ∷ rest, owners', r.1, r.2)
          ]
      | cancel_request ↦ (here ∷ rest, owners, r.1, r.2)
      | runtime_cancel_request ↦ (here ∷ rest, owners, r.1, r.2)
      | error ↦ (here ∷ rest, owners, r.1, r.2)
    ]

-- The end of `poll`, by whether the loop found an event.
unfoldable pub finish_poll :
    (ℕ → PacketEnv)
    → Mux
    → List ConnectionSlot × List GoalOwner × String × ServerEvent
    → Mux × String × ServerEvent
finish_poll v m (slots, owners, name, event) =
    let polled : Mux = record m { slots = slots; owners = owners } in
    elim event.type [
      | ServerEventType.none ↦ (process_disconnected v polled, "", no_event)
      | _ ↦ (polled, name, event)
    ]

unfoldable pub poll : (ℕ → PacketEnv) → ℕ → List Arrival → Mux → Mux × String × ServerEvent
unfolding poll_slots finish_poll
poll v capacity arrivals m =
    if not m.started || not m.opened
    then (m, "", no_event)
    else (let ready = process_disconnected v (accept_new_connections capacity arrivals m) in
        finish_poll v ready (poll_slots v ready.owners ready.slots))

-- The request on the server of a connection.
abbrev pub ask : (ℕ → PacketEnv) → GoalOwner → Request → ActionServices → ActionServices × Bool
ask v owner request server =
    Services.call server owner.action_name owner.goal_id
      (Services.perform (v owner.connection_id) owner.goal_id request)

abbrev pub asked : (ℕ → PacketEnv) → GoalOwner → Request → Mux → Mux
asked v owner request m = record m {
  slots = update_server owner.connection_id (λ s. (ask v owner request s).0) m.slots;
}

-- The owner that a decision on a new Goal needs, with the server of its connection: a pending one,
-- whose connection is there and not lost.
unfoldable pub find_undecided : Mux → String → GoalId → Option (GoalOwner × ConnectionSlot)
find_undecided m name goal = elim (find_owner name goal m.owners) [
  | none ↦ none
  | some owner ↦
      if not (is_pending owner) then none else elim (find_slot owner.connection_id m.slots) [
        | none ↦ none
        | some slot ↦ if slot.disconnected then none else some (owner, slot)
      ]
]

unfoldable pub accept_goal : (ℕ → PacketEnv) → Mux → String → GoalId → Mux × Bool
unfolding find_undecided
accept_goal v m name goal = elim (find_undecided m name goal) [
  | none ↦ (m, false)
  | some (owner, slot) ↦
      let after = asked v owner Request.accept_goal m in
      if (ask v owner Request.accept_goal slot.server).1
      then (record after { owners = activate name goal m.owners }, true)
      else (after, false)
]

unfoldable pub reject_goal : (ℕ → PacketEnv) → Mux → String → GoalId → Mux × Bool
unfolding find_undecided
reject_goal v m name goal = elim (find_undecided m name goal) [
  | none ↦ (m, false)
  | some (owner, slot) ↦
      let after = asked v owner Request.reject_goal m in
      if (ask v owner Request.reject_goal slot.server).1
      then (record after { owners = remove_owner name goal m.owners }, true)
      else (after, false)
]

-- The active owner of a Goal, with its connection.
unfoldable pub find_active : Mux → String → GoalId → Option (GoalOwner × ConnectionSlot)
find_active m name goal = elim (find_active_owner name goal m.owners) [
  | none ↦ none
  | some owner ↦ elim (find_slot owner.connection_id m.slots) [
    | none ↦ none
    | some slot ↦ some (owner, slot)
  ]
]

-- `route_active_goal_`, for a decision on a Cancel Request.
unfoldable pub route_active_goal : (ℕ → PacketEnv) → Mux → String → GoalId → Request → Mux × Bool
unfolding find_active
route_active_goal v m name goal request = elim (find_active m name goal) [
  | none ↦ (m, false)
  | some (owner, slot) ↦ (asked v owner request m, (ask v owner request slot.server).1)
]

abbrev pub accept_cancel : (ℕ → PacketEnv) → Mux → String → GoalId → Mux × Bool
accept_cancel v m name goal = route_active_goal v m name goal Request.accept_cancel

abbrev pub reject_cancel : (ℕ → PacketEnv) → Mux → String → GoalId → Mux × Bool
reject_cancel v m name goal = route_active_goal v m name goal Request.reject_cancel

unfoldable pub send_feedback : (ℕ → PacketEnv) → Mux → String → GoalId → PduData → Mux × Bool
unfolding find_active
send_feedback v m name goal pdu = elim (find_active m name goal) [
  | none ↦ (m, false)
  | some (owner, slot) ↦ if slot.disconnected then (m, false) else (
    asked v owner (Request.send_feedback pdu) m,
    (ask v owner (Request.send_feedback pdu) slot.server).1,
  )
]

-- A Goal of a lost connection is completed without a send.
abbrev pub completion : ConnectionSlot → TerminalStatus → PduData → Request
completion slot status pdu =
    if slot.disconnected then Request.complete_locally status pdu else Request.complete status pdu

unfoldable pub complete :
    (ℕ → PacketEnv) → Mux → String → GoalId → TerminalStatus → PduData → Mux × Bool
unfolding find_active
complete v m name goal status pdu = elim (find_active m name goal) [
  | none ↦ (m, false)
  | some (owner, slot) ↦
      let after = asked v owner (completion slot status pdu) m in
      if (ask v owner (completion slot status pdu) slot.server).1
      then (
        reclaim_orphaned_slot (record after { owners = remove_owner name goal m.owners })
            owner.connection_id,
        true,
      )
      else (after, false)
]

-- The callback of a connection that is lost.
unfoldable pub disconnect : ℕ → List ConnectionSlot → List ConnectionSlot
disconnect connection_id [] = []
disconnect connection_id (slot ∷ rest) =
    (if eqb slot.connection_id connection_id then record slot { disconnected = true } else slot)
    ∷ disconnect connection_id rest

-- `mux_started` is what `EndpointCommMultiplexer::start` returns.
unfoldable pub start : Bool → Mux → Mux × Bool
start mux_started m =
    if m.started
    then (m, true)
    else if not m.opened || not mux_started
    then (m, false)
    else (record m { started = true }, true)

unfoldable pub stop : Mux → Mux
stop m = record m { opened = false; slots = []; owners = []; started = false }

unfoldable pub is_ready : ℕ → Mux → Bool
is_ready expected_count m =
    m.started && m.opened && leb expected_count (connected_slot_count m.slots)
