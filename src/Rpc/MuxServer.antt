-- ===== src/Rpc/MuxServer.antt =====
-- src/rpc_services_mux_server.cpp: one RPC server for each connection that the communication
-- multiplexer of hakoniwa-pdu-endpoint accepts. What the multiplexer hands over is an argument:
-- `none` for a null pointer, otherwise what initializing the services on it gives, `none` where
-- that fails. The lock is left out, and so are the calls that stop and close endpoints.
pub mod Connections
pub mod Sessions
use hakoniwa_pdu_rpc.Base.{
  ℕ, ◌+◌, ◌%◌, Bool, true, false, not, ◌||◌, Option, none, some, List, [], ◌∷◌, ◌++◌, leb, eqb,
  length, is_empty, if◌then◌else◌,
}
use hakoniwa_pdu_rpc.Rpc.Types.{
  PduData, ℤ, RequestHeader, RpcRequest, ServerEventType, request_in, request_cancel, RpcEnv,
}
use hakoniwa_pdu_rpc.Rpc.Services.{Services}
use hakoniwa_pdu_rpc.Rpc.Services

pub record ConnectionSlot : Type 0 where
  pub connection_id : ℕ
  pub server : Services
  pub disconnected : Bool

-- `opened` says whether `mux_` is set.
pub record Mux : Type 0 where
  pub opened : Bool
  pub slots : List ConnectionSlot
  pub next_connection_id : ℕ
  pub started : Bool

abbrev pub Arrival : Type 0
Arrival = Option (Option Services)

-- One turn of the loop of `accept_new_connections_`.
unfoldable pub accept_connection : ℕ → Mux → Arrival → Mux
accept_connection capacity m none = m
accept_connection capacity m (some initialized) =
    if leb capacity (length m.slots)
    then m
    else (let next = (m.next_connection_id + 1) % 18446744073709551616 in
        elim initialized [
          | none ↦ record m { next_connection_id = next }
          | some server ↦ record m {
            next_connection_id = next;
            slots =
                m.slots
                ++ record {
                  connection_id = m.next_connection_id;
                  server = server;
                  disconnected = false;
                }
                  ∷ [];
          }
        ])

unfoldable pub accept_new_connections : ℕ → List Arrival → Mux → Mux
unfolding accept_connection
accept_new_connections capacity [] m = m
accept_new_connections capacity (a ∷ rest) m =
    accept_new_connections capacity rest (accept_connection capacity m a)

unfoldable pub connected_slots : List ConnectionSlot → List ConnectionSlot
connected_slots [] = []
connected_slots (slot ∷ rest) =
    let rest' = connected_slots rest in if slot.disconnected then rest' else slot ∷ rest'

unfoldable pub cleanup_disconnected : Mux → Mux
unfolding connected_slots
cleanup_disconnected m = record m { slots = connected_slots m.slots }

-- The loop of `poll` over the slots: the first one whose server has an event.
unfoldable pub poll_slots :
    RpcEnv
    → List ConnectionSlot
    → List ConnectionSlot × ServerEventType × Option (ℕ × Option RpcRequest)
poll_slots v [] = ([], ServerEventType.none, none)
poll_slots v (slot ∷ rest) =
    let (rest', later, later_request) = poll_slots v rest in
    let (server, event, request) = Services.poll v slot.server in
    elim event [
      | ServerEventType.none ↦ (record slot { server = server } ∷ rest', later, later_request)
      | found ↦ (record slot { server = server } ∷ rest, found, some (slot.connection_id, request))
    ]

unfoldable pub poll :
    RpcEnv → ℕ → List Arrival → Mux → Mux × ServerEventType × Option (ℕ × Option RpcRequest)
unfolding accept_new_connections cleanup_disconnected poll_slots
poll v capacity arrivals m =
    if not m.started || not m.opened
    then (m, ServerEventType.none, none)
    else (let ready = cleanup_disconnected (accept_new_connections capacity arrivals m) in
        let (slots, event, request) = poll_slots v ready.slots in
        elim event [
          | ServerEventType.none ↦
              (cleanup_disconnected (record ready { slots = slots }), ServerEventType.none, none)
          | found ↦ (record ready { slots = slots }, found, request)
        ])

-- `find_slot_` and a call on the server of the slot that it finds; false without one.
unfoldable pub on_slot :
    ℕ → (Services → Services) → List ConnectionSlot → List ConnectionSlot × Bool
on_slot connection_id f [] = ([], false)
on_slot connection_id f (slot ∷ rest) =
    let (rest', done) = on_slot connection_id f rest in
    if eqb slot.connection_id connection_id
    then (record slot { server = f slot.server } ∷ rest, true)
    else (slot ∷ rest', done)

unfoldable pub find_slot : ℕ → List ConnectionSlot → Option ConnectionSlot
find_slot connection_id [] = none
find_slot connection_id (slot ∷ rest) =
    let later = find_slot connection_id rest in
    if eqb slot.connection_id connection_id then some slot else later

-- The buffer `pdu` is left as it is where there is no server or no such service.
unfoldable pub create_reply_buffer :
    RpcEnv → Mux → ℕ → RequestHeader → ℕ → ℤ → PduData → PduData × Bool
unfolding find_slot
create_reply_buffer v m connection_id header status result_code pdu =
    elim (find_slot connection_id m.slots) [
      | none ↦ (pdu, false)
      | some slot ↦ elim (Services.create_reply_buffer v slot.server header status result_code) [
        | none ↦ (pdu, not (is_empty pdu))
        | some created ↦ (created, not (is_empty created))
      ]
    ]

unfoldable pub send_reply : Mux → ℕ → RequestHeader → PduData → Mux × Bool
unfolding on_slot
send_reply m connection_id header pdu =
    let (slots, done) = on_slot connection_id (λ s. Services.send_reply s header pdu) m.slots in
    (record m { slots = slots }, done)

unfoldable pub send_cancel_reply : Mux → ℕ → RequestHeader → PduData → Mux × Bool
unfolding on_slot
send_cancel_reply m connection_id header pdu =
    let (slots, done) =
      on_slot connection_id (λ s. Services.send_cancel_reply s header pdu) m.slots in
    (record m { slots = slots }, done)

-- The callback of a connection that is lost.
unfoldable pub disconnect : ℕ → List ConnectionSlot → List ConnectionSlot
disconnect connection_id [] = []
disconnect connection_id (slot ∷ rest) =
    (if eqb slot.connection_id connection_id then record slot { disconnected = true } else slot)
    ∷ disconnect connection_id rest

-- `mux_started` is what `EndpointCommMultiplexer::start` returns.
unfoldable pub start : Bool → Mux → Mux × Bool
start mux_started m =
    if m.started
    then (m, true)
    else (if not m.opened
        then (m, false)
        else (if mux_started then (record m { started = true }, true) else (m, false)))

unfoldable pub stop : Mux → Mux
stop m = record m { opened = false; slots = []; started = false }
