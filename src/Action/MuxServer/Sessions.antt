-- ===== src/Action/MuxServer/Sessions.antt =====
-- An Action mux server in use (src/action_services_mux_server.cpp): every order of polls, calls of the
-- application, received packets and lost connections.
use hakoniwa_pdu_rpc.Base.{
  ℕ, ◌≡◌, Bool, not, ◌&&◌, ◌||◌, List, [], ◌∷◌, String, eqb, string_equality, bytes_equality,
  if_split, Option-split,
}
use hakoniwa_pdu_rpc.Action.Types.{GoalId, PduData, TerminalStatus, goal_request}
use hakoniwa_pdu_rpc.Action.Packet.{PacketEnv}
use hakoniwa_pdu_rpc.Action.ServicesServer.Services.{ActionServices, Request}
use hakoniwa_pdu_rpc.Action.ServicesServer.Layers.{AllCoupled}
use hakoniwa_pdu_rpc.Action.ServicesServer.Server
use hakoniwa_pdu_rpc.Action.ServicesServer.Server.{step-AllCoupled}
use hakoniwa_pdu_rpc.Action.MuxServer.{
  GoalOwner, ConnectionSlot, Mux, Arrival, remove_owner, update_server, is_owned, retire_orphan,
  reclaim_orphaned_slot,
}
use hakoniwa_pdu_rpc.Action.MuxServer.Operations.{
  poll, ask, asked, find_undecided, accept_goal, reject_goal, accept_cancel, reject_cancel,
  find_active, route_active_goal, send_feedback, completion, complete, disconnect, start, stop,
}
use hakoniwa_pdu_rpc.Action.MuxServer.Owners.{Distinct, remove-Distinct, activate-Distinct}
use hakoniwa_pdu_rpc.Action.MuxServer.Connections.{
  AllServers, IsSound, AllArrive, called-AllCoupled,
}
use hakoniwa_pdu_rpc.Action.MuxServer.Polling.{HandsOver, poll_sound}

update-AllServers :
    (id : ℕ) (f : ActionServices → ActionServices) (slots : List ConnectionSlot)
    → ((s : ActionServices) → AllCoupled s.actions → AllCoupled (f s).actions)
    → AllServers slots
    → AllServers (update_server id f slots)
unfolding update_server
update-AllServers id f [] h k = tt
update-AllServers id f (slot ∷ rest) h k =
    if_split AllServers (eqb slot.connection_id id) _ _ (λ _. (h slot.server k.0, k.1))
      λ _. (k.0, update-AllServers id f rest h k.1)

asked-AllServers :
    (v : ℕ → PacketEnv) (o : GoalOwner) (r : Request) (m : Mux)
    → AllServers m.slots
    → AllServers (asked v o r m).slots
asked-AllServers v o r m k =
    update-AllServers o.connection_id (λ s. (ask v o r s).0) m.slots
      (λ s. called-AllCoupled (v o.connection_id) s o.action_name o.goal_id r) k

abbrev Sound : Mux × Bool → Type 0
Sound r = IsSound r.0

module _ (v : ℕ → PacketEnv) (m : Mux) (k : IsSound m) (name : String) (goal : GoalId) where
  asked-IsSound : (o : GoalOwner) (r : Request) → IsSound (asked v o r m)
  asked-IsSound o r = record { distinct = k.distinct; coupled = asked-AllServers v o r m k.coupled }

  accept_goal-IsSound : IsSound (accept_goal v m name goal).0
  unfolding accept_goal
  accept_goal-IsSound =
      Option-split Sound (find_undecided m name goal) _ _ (λ _. k)
        λ found _.
          if_split Sound (ask v found.0 Request.accept_goal found.1.server).1 _ _
            (λ _. record {
              distinct = activate-Distinct name goal m.owners k.distinct;
              coupled = asked-AllServers v found.0 Request.accept_goal m k.coupled;
            })
            λ _. asked-IsSound found.0 Request.accept_goal

  reject_goal-IsSound : IsSound (reject_goal v m name goal).0
  unfolding reject_goal
  reject_goal-IsSound =
      Option-split Sound (find_undecided m name goal) _ _ (λ _. k)
        λ found _.
          if_split Sound (ask v found.0 Request.reject_goal found.1.server).1 _ _
            (λ _. record {
              distinct = remove-Distinct name goal m.owners k.distinct;
              coupled = asked-AllServers v found.0 Request.reject_goal m k.coupled;
            })
            λ _. asked-IsSound found.0 Request.reject_goal

  route-IsSound : (r : Request) → IsSound (route_active_goal v m name goal r).0
  unfolding route_active_goal
  route-IsSound r =
      Option-split Sound (find_active m name goal) _ _ (λ _. k) λ found _. asked-IsSound found.0 r

  send_feedback-IsSound : (pdu : PduData) → IsSound (send_feedback v m name goal pdu).0
  unfolding send_feedback
  send_feedback-IsSound pdu =
      Option-split Sound (find_active m name goal) _ _ (λ _. k)
        λ found _.
          if_split Sound found.1.disconnected _ _ (λ _. k)
            λ _. asked-IsSound found.0 (Request.send_feedback pdu)

retire-AllServers :
    (v : PacketEnv) (id : ℕ) (slots : List ConnectionSlot)
    → AllServers slots
    → AllServers (retire_orphan id slots)
unfolding retire_orphan Server.step
retire-AllServers v id [] k = tt
retire-AllServers v id (slot ∷ rest) k =
    if_split AllServers (eqb slot.connection_id id && slot.orphaned) _ _
      (λ _. (step-AllCoupled v slot.server Server.cleared k.0, k.1))
      λ _. (k.0, retire-AllServers v id rest k.1)

reclaim-IsSound :
    (v : PacketEnv) (m : Mux) (id : ℕ) → IsSound m → IsSound (reclaim_orphaned_slot m id)
unfolding reclaim_orphaned_slot
reclaim-IsSound v m id k =
    if_split IsSound (is_owned id m.owners) _ _ (λ _. k)
      λ _. record { distinct = k.distinct; coupled = retire-AllServers v id m.slots k.coupled }

complete-IsSound :
    (v : ℕ → PacketEnv) (m : Mux) (name : String) (goal : GoalId) (status : TerminalStatus)
    (pdu : PduData)
    → IsSound m
    → IsSound (complete v m name goal status pdu).0
unfolding complete
complete-IsSound v m name goal status pdu k =
    Option-split Sound (find_active m name goal) _ _ (λ _. k)
      λ (owner, slot) _.
        let r = completion slot status pdu in
        if_split Sound (ask v owner r slot.server).1 _ _
          (λ _.
            reclaim-IsSound (v owner.connection_id)
              (record (asked v owner r m) { owners = remove_owner name goal m.owners })
              owner.connection_id
              (record {
                distinct = remove-Distinct name goal m.owners k.distinct;
                coupled = asked-AllServers v owner r m k.coupled;
              }))
          λ _. asked-IsSound v m k name goal owner r

disconnect-AllServers :
    (id : ℕ) (slots : List ConnectionSlot) → AllServers slots → AllServers (disconnect id slots)
unfolding disconnect
disconnect-AllServers id [] k = tt
disconnect-AllServers id (slot ∷ rest) k = (
  if_split (λ (x : ConnectionSlot). AllCoupled x.server.actions) (eqb slot.connection_id id) _ _
      (λ _. k.0) (λ _. k.0),
  disconnect-AllServers id rest k.1,
)

-- Whoever calls the server: the application, and the transport, which delivers packets to the
-- connection with a number and loses it. A poll is given what the multiplexer hands over.
pub data Event : Type 0 where
  polls : ℕ → List Arrival → Event
  accepts_goal rejects_goal accepts_cancel rejects_cancel : String → GoalId → Event
  sends_feedback : String → GoalId → PduData → Event
  completes : String → GoalId → TerminalStatus → PduData → Event
  receives : ℕ → String → ℕ → PduData → Event
  loses : ℕ → Event
  starts : Bool → Event
  stops : Event

unfoldable pub step : (ℕ → PacketEnv) → Mux → Event → Mux
step v m (polls capacity arrivals) = (poll v capacity arrivals m).0
step v m (accepts_goal name goal) = (accept_goal v m name goal).0
step v m (rejects_goal name goal) = (reject_goal v m name goal).0
step v m (accepts_cancel name goal) = (accept_cancel v m name goal).0
step v m (rejects_cancel name goal) = (reject_cancel v m name goal).0
step v m (sends_feedback name goal pdu) = (send_feedback v m name goal pdu).0
step v m (completes name goal status pdu) = (complete v m name goal status pdu).0
step v m (receives id name slot pdu) = record m {
  slots =
      update_server id (λ s. Server.step (v id) s (Server.packet_received name slot pdu)) m.slots;
}
step v m (loses id) = record m { slots = disconnect id m.slots }
step v m (starts ok) = (start ok m).0
step v m stops = stop m

-- What a poll is given are services as initialization leaves them.
abbrev pub Welcomes : Event → Type 0
Welcomes (polls capacity arrivals) = AllArrive arrivals
Welcomes _ = Unit {0}

abbrev pub AllWelcome : List ((ℕ → PacketEnv) × Event) → Type 0
AllWelcome [] = Unit {0}
AllWelcome ((v, e) ∷ rest) = Welcomes e × AllWelcome rest

step-IsSound :
    (v : ℕ → PacketEnv) (m : Mux) (e : Event) → IsSound m → Welcomes e → IsSound (step v m e)
unfolding step start stop
step-IsSound v m (polls capacity arrivals) k h = (poll_sound v capacity arrivals m k h).0
step-IsSound v m (accepts_goal name goal) k h = accept_goal-IsSound v m k name goal
step-IsSound v m (rejects_goal name goal) k h = reject_goal-IsSound v m k name goal
step-IsSound v m (accepts_cancel name goal) k h =
    route-IsSound v m k name goal Request.accept_cancel
step-IsSound v m (rejects_cancel name goal) k h =
    route-IsSound v m k name goal Request.reject_cancel
step-IsSound v m (sends_feedback name goal pdu) k h = send_feedback-IsSound v m k name goal pdu
step-IsSound v m (completes name goal status pdu) k h = complete-IsSound v m name goal status pdu k
step-IsSound v m (receives id name slot pdu) k h = record {
  distinct = k.distinct;
  coupled =
      update-AllServers id (λ s. Server.step (v id) s (Server.packet_received name slot pdu))
        m.slots (λ s c. step-AllCoupled (v id) s (Server.packet_received name slot pdu) c)
        k.coupled;
}
step-IsSound v m (loses id) k h = record {
  distinct = k.distinct;
  coupled = disconnect-AllServers id m.slots k.coupled;
}
step-IsSound v m (starts ok) k h =
    if_split Sound m.started _ _ (λ _. k)
      λ _.
        if_split Sound (not m.opened || not ok) _ _ (λ _. k)
          λ _. record { distinct = k.distinct; coupled = k.coupled }
step-IsSound v m stops k h = record { distinct = tt; coupled = tt }

unfoldable pub run : Mux → List ((ℕ → PacketEnv) × Event) → Mux
unfolding step
run m [] = m
run m ((v, e) ∷ rest) = run (step v m e) rest

-- From a mux server in which each Goal of an Action has at most one owner and the layers of every
-- connection's server agree, any sequence of polls, calls, received packets, lost connections, starts
-- and stops, with new connections whose services are freshly initialized, leads to such a server.
pub mux_run-IsSound :
    (m : Mux) (events : List ((ℕ → PacketEnv) × Event))
    → IsSound m
    → AllWelcome events
    → IsSound (run m events)
unfolding run
mux_run-IsSound m [] k h = k
mux_run-IsSound m ((v, e) ∷ rest) k h =
    mux_run-IsSound (step v m e) rest (step-IsSound v m e k h.0) h.1

-- From a mux server in which each Goal of an Action has at most one owner and the layers of every
-- connection's server agree, after any sequence of polls, calls, received packets, lost connections,
-- starts and stops, with new connections whose services are freshly initialized: a Goal Request that
-- the next poll hands to the application has a pending owner on the connection whose server, when
-- polled, gave that request, and no other owner; the connection keeps that server as polled.
pub request-owned :
    (m : Mux) (events : List ((ℕ → PacketEnv) × Event)) (v : ℕ → PacketEnv) (capacity : ℕ)
    (arrivals : List Arrival)
    → IsSound m
    → AllWelcome events
    → AllArrive arrivals
    → (poll v capacity arrivals (run m events)).2.type ≡ goal_request
    → Distinct (poll v capacity arrivals (run m events)).0.owners
      × HandsOver v
          (poll v capacity arrivals (run m events)).0.slots
          (poll v capacity arrivals (run m events)).0.owners
          (poll v capacity arrivals (run m events)).1
          (poll v capacity arrivals (run m events)).2
request-owned m events v capacity arrivals k h a is =
    let r = poll_sound v capacity arrivals (run m events) (mux_run-IsSound m events k h) a in
    (r.0.distinct, r.1 is)
