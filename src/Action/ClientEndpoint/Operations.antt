-- ===== src/Action/ClientEndpoint/Operations.antt =====
-- The calls of `ActionClientEndpointImpl` (src/action_client_endpoint_impl.cpp) that send requests.
-- A call that takes the mutex more than once is composed of the parts between, so that the parts of
-- concurrent calls can interleave.
use hakoniwa_pdu_rpc.Base.{
  ℕ, Bool, true, false, not, ◌||◌, Option, none, some, List, [], ◌∷◌, ◌++◌, suc, set, is_empty,
  if◌then◌else◌, bytes_equality, map,
}
use hakoniwa_pdu_rpc.Base.Map.{lookup}
use hakoniwa_pdu_rpc.Action.Types.{
  GoalId, PduData, is_valid_goal_id, GoalSendResult, success, invalid_argument, not_initialized,
  duplicate_goal, no_free_slot, invalid_packet, transport_error,
}
use hakoniwa_pdu_rpc.Action.Packet.{PacketEnv}
use hakoniwa_pdu_rpc.Action.ClientPacket.{create_packet_buffer}
use hakoniwa_pdu_rpc.Action.ServerEndpoint.{request_kind_goal, request_kind_cancel}
use hakoniwa_pdu_rpc.Action.ClientEndpoint.{
  Endpoint, PendingPacketKind, ClientPacketBinding, BindingState, awaiting_cancel_response,
  is_accepted, is_awaiting_cancel, new_binding, release_binding, store_binding, send,
  create_control_request_packet, request_message,
}

-- The receive callbacks of a slot's response and feedback channels.
unfoldable pub receive : Endpoint → ℕ → PendingPacketKind → PduData → Endpoint
receive s slot_index kind data_in = record s {
  pending_packets =
      s.pending_packets ++ record { slot_index = slot_index; kind = kind; pdu = data_in } ∷ [];
}

unfoldable pub create_goal_buffer : PacketEnv → Endpoint → Option PduData
create_goal_buffer v s =
    if not s.initialized || is_empty s.slot_routing then none else elim s.slot_routing [
      | [] ↦ none
      | routing ∷ _ ↦
          create_packet_buffer v routing.request_packet_base_size routing.request_heap_capacity
    ]

-- `std::find_if` over `slot_owners_`: the first slot without an owner.
unfoldable pub free_slot : List (Option GoalId) → Option ℕ
free_slot [] = none
free_slot (none ∷ owners) = some 0
free_slot (some owner ∷ owners) = elim (free_slot owners) [
  | none ↦ none
  | some slot ↦ some (suc slot)
]

-- What the first critical section of `send_goal_with_result` leaves: a refusal, or the endpoint
-- with a binding for the Goal, and its slot.
pub data Reservation : Type 0 where
  refused : GoalSendResult → Reservation
  reserved : Endpoint → ℕ → Reservation

unfoldable pub reserve_slot : Endpoint → GoalId → ℕ → ℕ → Reservation
unfolding free_slot
reserve_slot s goal_id now timeout_usec =
    if not s.initialized then refused not_initialized else elim (lookup goal_id s.packet_bindings) [
      | some _ ↦ refused duplicate_goal
      | none ↦ elim (free_slot s.slot_owners) [
        | none ↦ refused no_free_slot
        | some slot ↦
            reserved
              (store_binding (record s { slot_owners = set s.slot_owners slot (some goal_id) })
                goal_id (new_binding goal_id slot now timeout_usec))
              slot
      ]
    ]

-- The critical section on the two failure paths of `send_goal_with_result`.
unfoldable pub abandon_goal : Endpoint → GoalId → Endpoint
abandon_goal s goal_id = elim (lookup goal_id s.packet_bindings) [
  | none ↦ s
  | some binding ↦ release_binding s goal_id binding
]

-- Between the critical sections: the packet is checked, written and sent.
unfoldable pub transmit_goal :
    PacketEnv → Endpoint → GoalId → ℕ → PduData → Endpoint × GoalSendResult
transmit_goal v s goal_id slot packet =
    elim (request_message v s.slot_routing slot goal_id request_kind_goal packet) [
      | none ↦ (s, invalid_packet)
      | some m ↦ ((send v s m).0, if (send v s m).1 then success else transport_error)
    ]

-- The handle is set on success only, and is `ClientGoalHandle{}` otherwise.
unfoldable pub finish_goal : GoalId → Endpoint × GoalSendResult → Endpoint × GoalSendResult × GoalId
unfolding abandon_goal
finish_goal goal_id (s, success) = (s, success, goal_id)
finish_goal goal_id (s, result) = (abandon_goal s goal_id, result, [])

unfoldable pub send_goal_with_result :
    PacketEnv → Endpoint → GoalId → PduData → ℕ → ℕ → Endpoint × GoalSendResult × GoalId
unfolding reserve_slot transmit_goal finish_goal
send_goal_with_result v s goal_id goal_pdu now timeout_usec =
    if not (is_valid_goal_id goal_id)
    then (s, invalid_argument, [])
    else elim (reserve_slot s goal_id now timeout_usec) [
      | refused result ↦ (s, result, [])
      | reserved held slot ↦ finish_goal goal_id (transmit_goal v held goal_id slot goal_pdu)
    ]

abbrev pub is_success : GoalSendResult → Bool
is_success success = true
is_success _ = false

unfoldable pub send_goal :
    PacketEnv → Endpoint → GoalId → PduData → ℕ → ℕ → Endpoint × Bool × GoalId
unfolding send_goal_with_result
send_goal v s goal_id goal_pdu now timeout_usec =
    let r = send_goal_with_result v s goal_id goal_pdu now timeout_usec in
    (r.0, is_success r.1, r.2)

abbrev pub mark_cancel_sent : ClientPacketBinding → ClientPacketBinding
mark_cancel_sent binding = record binding { state = awaiting_cancel_response }

abbrev pub mark_accepted : ClientPacketBinding → ClientPacketBinding
mark_accepted binding = record binding { state = BindingState.accepted }

-- The first critical section of `send_cancel`: the endpoint and the copy of the binding.
unfoldable pub commit_cancel : Endpoint → GoalId → Option (Endpoint × ClientPacketBinding)
commit_cancel s goal_id =
    if not s.initialized then none else elim (lookup goal_id s.packet_bindings) [
      | none ↦ none
      | some binding ↦
          if not (is_accepted binding.state)
          then none
          else some (store_binding s goal_id (mark_cancel_sent binding), mark_cancel_sent binding)
    ]

-- The critical section on the failure paths of `send_cancel`.
unfoldable pub roll_back_cancel : Endpoint → GoalId → Endpoint
roll_back_cancel s goal_id = elim (lookup goal_id s.packet_bindings) [
  | none ↦ s
  | some binding ↦
      if is_awaiting_cancel binding.state
      then store_binding s goal_id (mark_accepted binding)
      else s
]

-- The Cancel Request is made from an empty packet and sent on the Goal's slot.
unfoldable pub transmit_cancel : PacketEnv → Endpoint → GoalId → ℕ → Endpoint × Bool
transmit_cancel v s goal_id slot = elim (create_control_request_packet v s) [
  | none ↦ (s, false)
  | some packet ↦ elim (request_message v s.slot_routing slot goal_id request_kind_cancel packet) [
    | none ↦ (s, false)
    | some m ↦ send v s m
  ]
]

unfoldable pub finish_cancel : GoalId → Endpoint × Bool → Endpoint × Bool
unfolding roll_back_cancel
finish_cancel goal_id (s, sent) = if sent then (s, true) else (roll_back_cancel s goal_id, false)

unfoldable pub send_cancel : PacketEnv → Endpoint → GoalId → Endpoint × Bool
unfolding commit_cancel transmit_cancel finish_cancel
send_cancel v s goal_id =
    if not (is_valid_goal_id goal_id) then (s, false) else elim (commit_cancel s goal_id) [
      | none ↦ (s, false)
      | some (committed, binding) ↦
          finish_cancel goal_id (transmit_cancel v committed goal_id binding.slot_index)
    ]

unfoldable pub clear_pending_events : Endpoint → Endpoint
clear_pending_events s = record s { pending_packets = [] }

unfoldable pub reset_contexts : Endpoint → Endpoint
reset_contexts s = record s {
  pending_packets = [];
  packet_bindings = [];
  slot_owners = map (λ _. none) s.slot_owners;
}
