-- ===== src/Action/ClientPacket.antt =====
-- The packet helpers of src/action_client_endpoint_impl.cpp: the client side has its own copies of
-- the size and layout checks, and encodes requests and decodes responses and feedback.
use hakoniwa_pdu_rpc.Base.{
  ℕ, ◌+◌, ◌-◌, ◌%◌, ◌^◌, Bool, false, not, ◌&&◌, ◌||◌, Option, none, some, [], ◌∷◌, eqb, leb, ltb,
  length, if◌then◌else◌,
}
use hakoniwa_pdu_rpc.Action.Types.{GoalId, PduData}
use hakoniwa_pdu_rpc.Action.Packet.{ActionResponseHeader, ActionFeedbackHeader, PacketEnv}

-- `(size + alignment - 1U) & ~(alignment - 1U)` for an alignment that is a power of two.
unfoldable pub aligned_size : PacketEnv → ℕ → ℕ
aligned_size v size =
    let padded = (size + (v.alignment - 1)) % 2 ^ 64 in padded - padded % v.alignment

unfoldable pub supported_packet_capacity : PacketEnv → ℕ → ℕ → Bool
unfolding aligned_size
supported_packet_capacity v base_size heap_capacity =
    if ltb v.int_max base_size || ltb v.int_max heap_capacity
    then false
    else (let fixed_size = v.meta_data_size + aligned_size v base_size in
        leb fixed_size v.int_max && leb (aligned_size v heap_capacity) (v.int_max - fixed_size))

unfoldable pub valid_packet_prefix : PacketEnv → PduData → ℕ → Bool
valid_packet_prefix v packet base_size =
    if ltb (length packet) v.meta_struct_size
    then false
    else (let metadata = v.metadata packet in
        not metadata.invalid
        && eqb metadata.base_off v.meta_data_size
        && leb metadata.base_off (length packet)
        && leb base_size (length packet - metadata.base_off)
        && leb (metadata.base_off + base_size) metadata.heap_off
        && leb metadata.heap_off metadata.total_size
        && leb metadata.total_size (length packet))

-- Unlike the server's, it leaves the bound on `base_size` to `supported_packet_capacity`.
unfoldable pub create_packet_buffer : PacketEnv → ℕ → ℕ → Option PduData
unfolding supported_packet_capacity
create_packet_buffer v base_size heap_capacity =
    if eqb base_size 0 || not (supported_packet_capacity v base_size heap_capacity)
    then none
    else v.create_empty_pdu base_size heap_capacity

-- The wire size of a packet that fits its channel, `none` where the code returns false.
unfoldable pub validate_packet_capacity : PacketEnv → PduData → ℕ → ℕ → Bool → Option ℕ
unfolding valid_packet_prefix supported_packet_capacity aligned_size
validate_packet_capacity v packet base_size heap_capacity require_exact_buffer_size =
    let metadata = v.metadata packet in
    if not (valid_packet_prefix v packet 0)
      || not (supported_packet_capacity v base_size heap_capacity)
    then none
    else if ltb (length packet) metadata.total_size
        || (require_exact_buffer_size && not (eqb metadata.total_size (length packet)))
        || ltb (aligned_size v heap_capacity) (metadata.total_size - metadata.heap_off)
    then none
    else some metadata.total_size

unfoldable pub write_request_header : PacketEnv → PduData → GoalId → ℕ → Option PduData
unfolding valid_packet_prefix
write_request_header v packet goal_id request_kind =
    if not (valid_packet_prefix v packet v.request_header_size)
    then none
    else v.cpp2pdu_request packet (record {
      version = 1;
      request_kind = request_kind;
      reserved = 0 ∷ 0 ∷ [];
      goal_id = goal_id;
    })

unfoldable pub decode_response_header : PacketEnv → PduData → Option ActionResponseHeader
unfolding valid_packet_prefix
decode_response_header v packet =
    if not (valid_packet_prefix v packet v.response_header_size)
    then none
    else v.pdu2cpp_response packet

unfoldable pub decode_feedback_header : PacketEnv → PduData → Option ActionFeedbackHeader
unfolding valid_packet_prefix
decode_feedback_header v packet =
    if not (valid_packet_prefix v packet v.feedback_header_size)
    then none
    else v.pdu2cpp_feedback packet
