-- ===== src/Rpc/Types.antt =====
-- include/hakoniwa/pdu/rpc/rpc_types.hpp: the types that the RPC Client and Server share, and the
-- parameter `RpcEnv` for what they take from hakoniwa-pdu-endpoint and the packet converters.
use hakoniwa_pdu_rpc.Base.{ℕ, Bool, false, List, String, leb, eqb}

abbrev pub PduData : Type 0
PduData = List ℕ

-- `Hako_int32`.
pub data ℤ : Type 0 where
  pos negsuc : ℕ → ℤ

pub record RequestHeader : Type 0 where
  pub request_id : ℕ
  pub service_name : String
  pub client_name : String
  pub opcode : ℕ
  pub status_poll_interval_msec : ℕ

pub record ResponseHeader : Type 0 where
  pub request_id : ℕ
  pub service_name : String
  pub client_name : String
  pub status : ℕ
  pub processing_percentage : ℕ
  pub result_code : ℤ

pub record RpcRequest : Type 0 where
  pub client_name : String
  pub header : RequestHeader
  pub pdu : PduData

pub record RpcResponse : Type 0 where
  pub header : ResponseHeader
  pub pdu : PduData

pub data ServerEventType : Type 0 where
  none request_in request_cancel : ServerEventType

pub data ClientEventType : Type 0 where
  none response_in response_cancel response_timeout : ClientEventType

-- `HakoServiceOperationCode`.
abbrev pub operation_code_request : ℕ
operation_code_request = 0

abbrev pub operation_code_cancel : ℕ
operation_code_cancel = 1

abbrev pub operation_num : ℕ
operation_num = 2

-- `HAKO_SERVICE_STATUS_ERROR`.
abbrev pub service_status_error : ℕ
service_status_error = 4

-- `HakoServiceResultCode`.
abbrev pub result_code_error : ℕ
result_code_error = 1

abbrev pub result_code_canceled : ℕ
result_code_canceled = 2

abbrev pub result_code_invalid : ℕ
result_code_invalid = 3

abbrev pub result_code_busy : ℕ
result_code_busy = 4

abbrev pub result_code_num : ℕ
result_code_num = 6

-- `result_code >= HAKO_SERVICE_RESULT_CODE_NUM`: a negative number is not.
unfoldable pub exceeds_result_codes : ℤ → Bool
exceeds_result_codes (pos n) = leb result_code_num n
exceeds_result_codes (negsuc n) = false

unfoldable pub is_result_code : ℤ → ℕ → Bool
is_result_code (pos n) code = eqb n code
is_result_code (negsuc n) code = false

-- `hakoniwa::pdu::PduKey`.
pub record PduKey : Type 0 where
  pub robot : String
  pub pdu : String

-- `PduDef`, as registered for one service.
pub record PduDef : Type 0 where
  pub robot : String
  pub org_name : String
  pub name : String
  pub channel_id : ℕ
  pub pdu_size : ℕ

-- One call of `Endpoint::send`.
pub record Send : Type 0 where
  pub key : PduKey
  pub bytes : PduData

-- What the code calls and does not define: the PDU definitions of the endpoint, if it has any, and
-- the size that it takes from those added; the converters, into a buffer of a given size; and the
-- transport, which says of a send, given all sends before it, whether it succeeds.
pub record RpcEnv : Type 0 where
  pub has_pdu_definition : Bool
  pub get_pdu_size : List PduDef → PduKey → ℕ
  pub pdu2cpp_request : PduData → RequestHeader
  pub pdu2cpp_response : PduData → ResponseHeader
  pub cpp2pdu_request : RequestHeader → ℕ → PduData
  pub cpp2pdu_response : ResponseHeader → ℕ → PduData
  pub send_ok : List Send → Send → Bool
