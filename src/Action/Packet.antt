-- ===== src/Action/Packet.antt =====
-- The packet layer that src/action_server_endpoint_impl.cpp builds on: what it takes from
-- hakoniwa-pdu-endpoint and from the generated packet converters is the parameter `PacketEnv`, and
-- the size and layout checks of the file are defined here.
use hakoniwa_pdu_rpc.Base.{
  ℕ, ◌+◌, ◌-◌, ◌%◌, ◌^◌, Bool, false, not, ◌&&◌, ◌||◌, Option, none, some, List, String, eqb, leb,
  ltb, length, if◌then◌else◌,
}
use hakoniwa_pdu_rpc.Action.Types.{GoalId, PduData}

-- `hakoniwa::pdu::PduResolvedKey`.
pub record PduResolvedKey : Type 0 where
  pub robot : String
  pub channel_id : ℕ

-- `HakoPduMetaDataType`, as far as the code reads it.
pub record MetaData : Type 0 where
  pub invalid : Bool
  pub base_off : ℕ
  pub heap_off : ℕ
  pub total_size : ℕ

pub record ActionRequestHeader : Type 0 where
  pub version : ℕ
  pub request_kind : ℕ
  pub reserved : List ℕ
  pub goal_id : GoalId

pub record ActionResponseHeader : Type 0 where
  pub version : ℕ
  pub response_kind : ℕ
  pub status : ℕ
  pub reserved : ℕ
  pub goal_id : GoalId

pub record ActionFeedbackHeader : Type 0 where
  pub version : ℕ
  pub reserved : List ℕ
  pub goal_id : GoalId
  pub sequence_no : ℕ

-- One call of `Endpoint::send`.
pub record Send : Type 0 where
  pub key : PduResolvedKey
  pub bytes : PduData

-- What the code calls and does not define: the sizes and flags of the metadata block, the
-- converters (`none` where they return false or a null pointer), the packet allocator, and the
-- transport, which says of a send, given all sends before it, whether it succeeds.
pub record PacketEnv : Type 0 where
  pub meta_struct_size : ℕ
  pub meta_data_size : ℕ
  pub alignment : ℕ
  pub int_max : ℕ
  pub request_header_size : ℕ
  pub response_header_size : ℕ
  pub feedback_header_size : ℕ
  pub metadata : PduData → MetaData
  pub pdu2cpp_request : PduData → Option ActionRequestHeader
  pub pdu2cpp_response : PduData → Option ActionResponseHeader
  pub pdu2cpp_feedback : PduData → Option ActionFeedbackHeader
  pub cpp2pdu_request : PduData → ActionRequestHeader → Option PduData
  pub cpp2pdu_response : PduData → ActionResponseHeader → Option PduData
  pub cpp2pdu_feedback : PduData → ActionFeedbackHeader → Option PduData
  pub create_empty_pdu : ℕ → ℕ → Option PduData
  pub send_ok : List Send → Send → Bool

-- `(size + alignment - 1U) & ~(alignment - 1U)` for an alignment that is a power of two.
unfoldable pub aligned_size : PacketEnv → ℕ → ℕ
aligned_size v size =
    let padded = (size + (v.alignment - 1)) % 2 ^ 64 in padded - padded % v.alignment

unfoldable pub supported_packet_capacity : PacketEnv → ℕ → ℕ → Bool
unfolding aligned_size
supported_packet_capacity v base_size heap_capacity =
    if ltb v.int_max base_size || ltb v.int_max heap_capacity
    then false
    else (let fixed_size = v.meta_data_size + aligned_size v base_size in
        leb fixed_size v.int_max && leb (aligned_size v heap_capacity) (v.int_max - fixed_size))

unfoldable pub has_valid_packet_prefix : PacketEnv → PduData → ℕ → Bool
has_valid_packet_prefix v packet required_base_size =
    if ltb (length packet) v.meta_struct_size
    then false
    else (let metadata = v.metadata packet in
        not metadata.invalid
        && eqb metadata.base_off v.meta_data_size
        && leb metadata.base_off (length packet)
        && leb required_base_size (length packet - metadata.base_off)
        && leb (metadata.base_off + required_base_size) metadata.heap_off
        && leb metadata.heap_off metadata.total_size
        && leb metadata.total_size (length packet))

unfoldable pub decode_request_header : PacketEnv → PduData → Option ActionRequestHeader
unfolding has_valid_packet_prefix
decode_request_header v packet =
    if not (has_valid_packet_prefix v packet v.request_header_size)
    then none
    else v.pdu2cpp_request packet

unfoldable pub write_response_header : PacketEnv → PduData → ActionResponseHeader → Option PduData
unfolding has_valid_packet_prefix
write_response_header v packet header =
    if not (has_valid_packet_prefix v packet v.response_header_size)
    then none
    else v.cpp2pdu_response packet header

unfoldable pub write_feedback_header : PacketEnv → PduData → ActionFeedbackHeader → Option PduData
unfolding has_valid_packet_prefix
write_feedback_header v packet header =
    if not (has_valid_packet_prefix v packet v.feedback_header_size)
    then none
    else v.cpp2pdu_feedback packet header

unfoldable pub create_packet_buffer : PacketEnv → ℕ → ℕ → Option PduData
unfolding supported_packet_capacity
create_packet_buffer v base_size heap_capacity =
    if eqb base_size 0
      || ltb v.int_max base_size
      || not (supported_packet_capacity v base_size heap_capacity)
    then none
    else v.create_empty_pdu base_size heap_capacity

-- The wire size of a packet that fits its channel, `none` where the code returns false.
unfoldable pub validate_packet_capacity : PacketEnv → PduData → ℕ → ℕ → Bool → Option ℕ
unfolding has_valid_packet_prefix supported_packet_capacity aligned_size
validate_packet_capacity v packet base_size heap_capacity require_exact_buffer_size =
    let metadata = v.metadata packet in
    if not (has_valid_packet_prefix v packet 0)
    then none
    else if not (supported_packet_capacity v base_size heap_capacity)
    then none
    else if ltb (length packet) metadata.total_size
        || (require_exact_buffer_size && not (eqb metadata.total_size (length packet)))
    then none
    else if ltb (aligned_size v heap_capacity) (metadata.total_size - metadata.heap_off)
    then none
    else some metadata.total_size
