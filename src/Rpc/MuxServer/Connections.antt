-- ===== src/Rpc/MuxServer/Connections.antt =====
-- The connections of a multiplexed server: their numbers and how many there are.
use hakoniwa_pdu_rpc.Base.{
  ℕ, suc, ◌+◌, ◌%◌, ◌≤◌, ◌<◌, ◌≡◌, refl, false, none, some, List, [], ◌∷◌, ◌++◌, arith, length, leb,
  length-append, if_split,
}
use hakoniwa_pdu_rpc.Rpc.Types.{RpcEnv}
use hakoniwa_pdu_rpc.Rpc.Services.{Services}
use hakoniwa_pdu_rpc.Rpc.MuxServer.{
  ConnectionSlot, Mux, Arrival, accept_connection, accept_new_connections, connected_slots,
  cleanup_disconnected, poll_slots, on_slot, disconnect,
}

-- The numbers of the slots ascend, from `low` on and below `next`.
abbrev pub Ascends : ℕ → List ConnectionSlot → ℕ → Type 0
Ascends low [] next = low ≤ next
Ascends low (slot ∷ rest) next =
    (low ≤ slot.connection_id) × Ascends (slot.connection_id + 1) rest next

-- No two connections have the same number, each is below the next one, and there are at most
-- `capacity` of them.
pub record IsNumbered (capacity : ℕ) (m : Mux) : Type 0 where
  pub ascending : Ascends 0 m.slots m.next_connection_id
  pub fits : length m.slots ≤ capacity

lower :
    (low low' : ℕ) (slots : List ConnectionSlot) (next : ℕ)
    → low' ≤ low
    → Ascends low slots next
    → Ascends low' slots next
lower low low' [] next le a = omega arith
lower low low' (slot ∷ rest) next le a = (omega (arith, a.0), a.1)

pub higher :
    (low : ℕ) (slots : List ConnectionSlot) (next next' : ℕ)
    → next ≤ next'
    → Ascends low slots next
    → Ascends low slots next'
higher low [] next next' le a = omega arith
higher low (slot ∷ rest) next next' le a =
    (a.0, higher (slot.connection_id + 1) rest next next' le a.1)

appended :
    (low : ℕ) (slots : List ConnectionSlot) (new : ConnectionSlot)
    → Ascends low slots new.connection_id
    → Ascends low (slots ++ new ∷ []) (new.connection_id + 1)
appended low [] new a = (a, omega arith)
appended low (slot ∷ rest) new a = (a.0, appended (slot.connection_id + 1) rest new a.1)

abbrev Grows : ℕ → ℕ → Mux → Type 0
Grows capacity next t = IsNumbered capacity t × (t.next_connection_id ≤ next + 1)

abbrev new_slot : Mux → Services → ConnectionSlot
new_slot m server = record {
  connection_id = m.next_connection_id;
  server = server;
  disconnected = false;
}

counted : (n : ℕ) → n + 1 < 18446744073709551616 → (n + 1) % 18446744073709551616 ≡ n + 1
counted n room = omega arith

accept_connection-IsNumbered :
    (capacity : ℕ) (m : Mux) (a : Arrival)
    → m.next_connection_id + 1 < 18446744073709551616
    → IsNumbered capacity m
    → IsNumbered capacity (accept_connection capacity m a)
      × ((accept_connection capacity m a).next_connection_id ≤ m.next_connection_id + 1)
unfolding accept_connection
accept_connection-IsNumbered capacity m none room k = (k, omega arith)
accept_connection-IsNumbered capacity m (some none) room k =
    if_split (Grows capacity m.next_connection_id) (leb capacity (length m.slots)) _ _
      (λ _. (k, omega arith))
      λ free. rw (counted m.next_connection_id room) (
        record {
          ascending =
              higher 0 m.slots m.next_connection_id (m.next_connection_id + 1) (omega arith)
                k.ascending;
          fits = k.fits;
        },
        omega arith,
      )
accept_connection-IsNumbered capacity m (some (some server)) room k =
    if_split (Grows capacity m.next_connection_id) (leb capacity (length m.slots)) _ _
      (λ _. (k, omega arith))
      λ free. rw (counted m.next_connection_id room) (
        record {
          ascending = appended 0 m.slots (new_slot m server) k.ascending;
          fits = ground (arith, free, length-append m.slots (new_slot m server ∷ []));
        },
        omega arith,
      )

connected_slots-Ascends :
    (low next : ℕ) (slots : List ConnectionSlot)
    → Ascends low slots next
    → Ascends low (connected_slots slots) next × (length (connected_slots slots) ≤ length slots)
unfolding connected_slots
connected_slots-Ascends low next [] a = (a, omega arith)
connected_slots-Ascends low next (slot ∷ rest) a =
    let (kept, fewer) = connected_slots-Ascends (slot.connection_id + 1) next rest a.1 in
    if_split (λ (l : List ConnectionSlot). Ascends low l next × (length l ≤ suc (length rest)))
      slot.disconnected _ _
      (λ _. (
        lower (slot.connection_id + 1) low (connected_slots rest) next (omega (arith, a.0)) kept,
        omega arith,
      ))
      λ _. ((a.0, kept), omega arith)

pub poll_slots-Ascends :
    (v : RpcEnv) (low next : ℕ) (slots : List ConnectionSlot)
    → Ascends low slots next
    → Ascends low (poll_slots v slots).0 next × (length (poll_slots v slots).0 ≡ length slots)
unfolding poll_slots
poll_slots-Ascends v low next [] a = (a, refl)
poll_slots-Ascends v low next (slot ∷ rest) a =
    ground (arith, poll_slots-Ascends v (slot.connection_id + 1) next rest a.1, a)

pub on_slot-Ascends :
    (id : ℕ) (f : Services → Services) (low next : ℕ) (slots : List ConnectionSlot)
    → Ascends low slots next
    → Ascends low (on_slot id f slots).0 next × (length (on_slot id f slots).0 ≡ length slots)
unfolding on_slot
on_slot-Ascends id f low next [] a = (a, refl)
on_slot-Ascends id f low next (slot ∷ rest) a =
    ground (arith, on_slot-Ascends id f (slot.connection_id + 1) next rest a.1, a)

pub disconnect-Ascends :
    (id low next : ℕ) (slots : List ConnectionSlot)
    → Ascends low slots next
    → Ascends low (disconnect id slots) next × (length (disconnect id slots) ≡ length slots)
unfolding disconnect
disconnect-Ascends id low next [] a = (a, refl)
disconnect-Ascends id low next (slot ∷ rest) a =
    ground (arith, disconnect-Ascends id (slot.connection_id + 1) next rest a.1, a)

pub accept_all :
    (capacity : ℕ) (arrivals : List Arrival) (m : Mux)
    → m.next_connection_id + length arrivals < 18446744073709551616
    → IsNumbered capacity m
    → IsNumbered capacity (accept_new_connections capacity arrivals m)
      × ((accept_new_connections capacity arrivals m).next_connection_id
          ≤ m.next_connection_id + length arrivals)
unfolding accept_new_connections
accept_all capacity [] m room k = (k, omega arith)
accept_all capacity (a ∷ rest) m room k =
    let (one, small) = accept_connection-IsNumbered capacity m a (omega (arith, room)) k in
    let (all, bound) =
      accept_all capacity rest (accept_connection capacity m a) (omega (arith, room, small)) one in
    (all, omega (arith, bound, small))

pub cleaned_up :
    (capacity : ℕ) (m : Mux) → IsNumbered capacity m → IsNumbered capacity (cleanup_disconnected m)
unfolding cleanup_disconnected
cleaned_up capacity m k =
    let (kept, fewer) = connected_slots-Ascends 0 m.next_connection_id m.slots k.ascending in
    record { ascending = kept; fits = omega (arith, fewer, k.fits) }
