-- ===== src/Rpc/MuxServer/Sessions.antt =====
-- A multiplexed server in use: connections come and go, and requests and replies are exchanged.
use hakoniwa_pdu_rpc.Base.{
  ℕ, ◌+◌, ◌≤◌, ◌<◌, Bool, false, eqb, if◌then◌else◌, not, ◌||◌, Option, List, [], ◌∷◌, arith,
  length, if_split,
}
use hakoniwa_pdu_rpc.Rpc.Types.{
  PduData, RequestHeader, RpcRequest, ServerEventType, request_in, request_cancel, RpcEnv,
}
use hakoniwa_pdu_rpc.Rpc.Services.{Services}
use hakoniwa_pdu_rpc.Rpc.Services
use hakoniwa_pdu_rpc.Rpc.MuxServer.{
  ConnectionSlot, Mux, Arrival, accept_new_connections, cleanup_disconnected, poll_slots, poll,
  on_slot, send_reply, send_cancel_reply, disconnect, start, stop,
}
use hakoniwa_pdu_rpc.Rpc.MuxServer.Connections.{
  IsNumbered, accept_all, cleaned_up, poll_slots-Ascends, on_slot-Ascends, disconnect-Ascends,
}

-- A poll finds the given arrivals at the multiplexer.
pub data Call : Type 0 where
  polled : List Arrival → Call
  lost : ℕ → Call
  replied cancel_replied : ℕ → RequestHeader → PduData → Call
  started : Bool → Call
  stopped : Call

unfoldable pub step : RpcEnv → ℕ → Mux → Call → Mux
unfolding poll disconnect send_reply send_cancel_reply start stop
step v capacity m (polled arrivals) = (poll v capacity arrivals m).0
step v capacity m (lost connection_id) = record m { slots = disconnect connection_id m.slots }
step v capacity m (replied connection_id header pdu) = (send_reply m connection_id header pdu).0
step v capacity m (cancel_replied connection_id header pdu) =
    (send_cancel_reply m connection_id header pdu).0
step v capacity m (started mux_started) = (start mux_started m).0
step v capacity m stopped = stop m

unfoldable pub run : RpcEnv → ℕ → Mux → List Call → Mux
unfolding step
run v capacity m [] = m
run v capacity m (c ∷ rest) = run v capacity (step v capacity m c) rest

unfoldable pub arrivals_of : Call → ℕ
arrivals_of (polled arrivals) = length arrivals
arrivals_of _ = 0

unfoldable pub all_arrivals : List Call → ℕ
unfolding arrivals_of
all_arrivals [] = 0
all_arrivals (c ∷ rest) = arrivals_of c + all_arrivals rest

event_split {ℓ κ} :
    {A : Type ℓ} (P : A → Type κ) (e : ServerEventType) (x : A) (y : ServerEventType → A)
    → P x
    → ((f : ServerEventType) → P (y f))
    → P (elim e [ ServerEventType.none ↦ x | found ↦ y found ])
event_split P ServerEventType.none x y p q = p
event_split P request_in x y p q = q request_in
event_split P request_cancel x y p q = q request_cancel

abbrev Grown : ℕ → ℕ → Mux × ServerEventType × Option (ℕ × Option RpcRequest) → Type 0
Grown capacity bound r = IsNumbered capacity r.0 × (r.0.next_connection_id ≤ bound)

poll-IsNumbered :
    (v : RpcEnv) (capacity : ℕ) (arrivals : List Arrival) (m : Mux)
    → m.next_connection_id + length arrivals < 18446744073709551616
    → IsNumbered capacity m
    → Grown capacity (m.next_connection_id + length arrivals) (poll v capacity arrivals m)
unfolding poll cleanup_disconnected
poll-IsNumbered v capacity arrivals m room k =
    let (accepted, bound) = accept_all capacity arrivals m room k in
    let ready = cleanup_disconnected (accept_new_connections capacity arrivals m) in
    let r = cleaned_up capacity (accept_new_connections capacity arrivals m) accepted in
    let (same, many) = poll_slots-Ascends v 0 ready.next_connection_id ready.slots r.ascending in
    let after : IsNumbered capacity (record ready { slots = (poll_slots v ready.slots).0 }) =
      record { ascending = same; fits = omega (arith, many, r.fits) } in
    if_split (Grown capacity (m.next_connection_id + length arrivals))
      (not m.started || not m.opened) _ _ (λ _. (k, omega arith))
      λ _.
        event_split (Grown capacity (m.next_connection_id + length arrivals))
          (poll_slots v ready.slots).1 _
          (λ f. (
            record ready { slots = (poll_slots v ready.slots).0 },
            f,
            (poll_slots v ready.slots).2,
          ))
          (cleaned_up capacity (record ready { slots = (poll_slots v ready.slots).0 }) after, bound)
          λ f. (after, bound)

on_slot-IsNumbered :
    (capacity id : ℕ) (f : Services → Services) (m : Mux)
    → IsNumbered capacity m
    → IsNumbered capacity (record m { slots = (on_slot id f m.slots).0 })
on_slot-IsNumbered capacity id f m k =
    let (same, many) = on_slot-Ascends id f 0 m.next_connection_id m.slots k.ascending in
    record { ascending = same; fits = omega (arith, many, k.fits) }

abbrev Started : ℕ → Mux → Mux × Bool → Type 0
Started capacity m r = IsNumbered capacity r.0 × (r.0.next_connection_id ≤ m.next_connection_id + 0)

step-IsNumbered :
    (v : RpcEnv) (capacity : ℕ) (m : Mux) (c : Call)
    → m.next_connection_id + arrivals_of c < 18446744073709551616
    → IsNumbered capacity m
    → IsNumbered capacity (step v capacity m c)
      × ((step v capacity m c).next_connection_id ≤ m.next_connection_id + arrivals_of c)
unfolding step arrivals_of send_reply send_cancel_reply start stop
step-IsNumbered v capacity m (polled arrivals) room k = poll-IsNumbered v capacity arrivals m room k
step-IsNumbered v capacity m (lost id) room k =
    let (same, many) = disconnect-Ascends id 0 m.next_connection_id m.slots k.ascending in
    (record { ascending = same; fits = omega (arith, many, k.fits) }, omega arith)
step-IsNumbered v capacity m (replied id header pdu) room k =
    (on_slot-IsNumbered capacity id (λ s. Services.send_reply s header pdu) m k, omega arith)
step-IsNumbered v capacity m (cancel_replied id header pdu) room k =
    (on_slot-IsNumbered capacity id (λ s. Services.send_cancel_reply s header pdu) m k, omega arith)
step-IsNumbered v capacity m (started ok) room k =
    let same : IsNumbered capacity m × (m.next_connection_id ≤ m.next_connection_id + 0) =
      (k, omega arith) in
    if_split (Started capacity m) m.started _ _ (λ _. same)
      λ _.
        if_split (Started capacity m) (not m.opened) _ _ (λ _. same)
          λ _.
            if_split (Started capacity m) ok _ _
              (λ _. (record { ascending = k.ascending; fits = k.fits }, omega arith)) (λ _. same)
step-IsNumbered v capacity m stopped room k =
    (record { ascending = omega arith; fits = omega arith }, omega arith)

-- As long as fewer than 2 ^ 64 connections have been handed over, whatever polls, lost connections,
-- replies, starts and stops there are: the numbers of the connections ascend, each is below the next
-- number, and there are at most as many connections as the multiplexer expects.
pub run-IsNumbered :
    (v : RpcEnv) (capacity : ℕ) (m : Mux) (calls : List Call)
    → m.next_connection_id + all_arrivals calls < 18446744073709551616
    → IsNumbered capacity m
    → IsNumbered capacity (run v capacity m calls)
unfolding run all_arrivals
run-IsNumbered v capacity m [] room k = k
run-IsNumbered v capacity m (c ∷ rest) room k =
    let (one, bound) = step-IsNumbered v capacity m c (omega (arith, room)) k in
    run-IsNumbered v capacity (step v capacity m c) rest (omega (arith, room, bound)) one

-- A change of every connection with the number `id`.
abbrev pub update_all : ℕ → (Services → Services) → List ConnectionSlot → List ConnectionSlot
update_all id f [] = []
update_all id f (slot ∷ rest) =
    (if eqb slot.connection_id id then record slot { server = f slot.server } else slot)
    ∷ update_all id f rest

abbrev pub has_connection : ℕ → List ConnectionSlot → Bool
has_connection id [] = false
has_connection id (slot ∷ rest) = eqb slot.connection_id id || has_connection id rest
