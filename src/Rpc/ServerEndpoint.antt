-- ===== src/Rpc/ServerEndpoint.antt =====
-- src/rpc_server_endpoint_impl.cpp and include/hakoniwa/pdu/rpc/rpc_server_endpoint_impl.hpp: the
-- Server side of one service. A function returns the endpoint after the call.
pub mod Replies
pub mod Requests
pub mod Turns
use Prim.Native.String.{◌++◌ as concat}
use hakoniwa_pdu_rpc.Base.{
  ℕ, ◌+◌, Bool, true, false, not, Option, none, some, List, [], ◌∷◌, ◌++◌, String, string_equality,
  leb, eqb, length, if◌then◌else◌, ◌==◌, ◌!=◌,
}
use hakoniwa_pdu_rpc.Base.Map.{lookup, insert}
use hakoniwa_pdu_rpc.Rpc.Types.{
  PduData, ℤ, pos, RequestHeader, RpcRequest, ServerEventType, request_in, request_cancel,
  operation_code_cancel, operation_num, service_status_error, result_code_error,
  result_code_invalid, result_code_busy, PduKey, PduDef, Send, RpcEnv,
}
use hakoniwa_pdu_rpc.Rpc.Types

pub data ServerState : Type 0 where
  idle running cancelling : ServerState

pub record ServerProcessingStatus : Type 0 where
  pub request_id : ℕ
  pub state : ServerState

-- The members that the operations read and write; `pdu_definitions` are those added to the
-- endpoint's, and `sends` are the calls of `Endpoint::send`, the last one first.
pub record Endpoint : Type 0 where
  pub service_name : String
  pub server_states : List (String × ServerProcessingStatus)
  pub registered_clients : List String
  pub pending_requests : List PduData
  pub max_clients : ℕ
  pub dynamic_client : Bool
  pub dynamic_request_channel_id : ℕ
  pub dynamic_response_channel_id : ℕ
  pub dynamic_request_pdu_size : ℕ
  pub dynamic_response_pdu_size : ℕ
  pub pdu_definitions : List PduDef
  pub sends : List Send

unfoldable pub put_pending_request : Endpoint → PduData → Endpoint
put_pending_request s pdu_data = record s { pending_requests = s.pending_requests ++ pdu_data ∷ [] }

unfoldable pub clear_pending_requests : Endpoint → Endpoint
clear_pending_requests s = record s { pending_requests = [] }

abbrev pub idle_status : ServerProcessingStatus
idle_status = record { request_id = 0; state = idle }

-- `server_states_[client_name] = status`.
unfoldable pub set_status : Endpoint → String → ServerProcessingStatus → Endpoint
set_status s client_name status = record s {
  server_states = insert client_name status s.server_states;
}

unfoldable pub create_reply_buffer : RpcEnv → Endpoint → RequestHeader → ℕ → ℤ → PduData
create_reply_buffer v s header status result_code =
    v.cpp2pdu_response
      (record {
        request_id = header.request_id;
        service_name = header.service_name;
        client_name = header.client_name;
        status = status;
        processing_percentage = 100;
        result_code = result_code;
      })
      (v.get_pdu_size s.pdu_definitions
        (record { robot = header.service_name; pdu = concat header.client_name "Res" }))

-- The part of a reply after the guards: the state is reset first, and a send that fails is logged.
unfoldable pub reply : Endpoint → String → PduData → Endpoint
unfolding set_status
reply s client_name pdu =
    let reset = set_status s client_name idle_status in
    record reset {
      sends =
          record {
            key = record { robot = s.service_name; pdu = concat client_name "Res" };
            bytes = pdu;
          }
          ∷ s.sends;
    }

abbrev is_idle : ServerState → Bool
is_idle idle = true
is_idle _ = false

abbrev is_cancelling : ServerState → Bool
is_cancelling cancelling = true
is_cancelling _ = false

unfoldable pub send_reply : Endpoint → String → PduData → Endpoint
unfolding reply
send_reply s client_name pdu = elim (lookup client_name s.server_states) [
  | none ↦ s
  | some status ↦ if is_idle status.state then s else reply s client_name pdu
]

unfoldable pub send_cancel_reply : Endpoint → String → PduData → Endpoint
unfolding reply
send_cancel_reply s client_name pdu = elim (lookup client_name s.server_states) [
  | none ↦ s
  | some status ↦ if not (is_cancelling status.state) then s else reply s client_name pdu
]

unfoldable pub send_error_reply : RpcEnv → Endpoint → RequestHeader → ℕ → Endpoint
unfolding create_reply_buffer send_reply
send_error_reply v s header result_code =
    send_reply s header.client_name
      (create_reply_buffer v s header service_status_error (pos result_code))

unfoldable pub pdu_def : Endpoint → String → String → ℕ → ℕ → PduDef
pdu_def s client_name suffix channel_id pdu_size = record {
  robot = s.service_name;
  org_name = concat client_name suffix;
  name = concat s.service_name (concat "_" (concat client_name suffix));
  channel_id = channel_id;
  pdu_size = pdu_size;
}

unfoldable pub add_dynamic_client : Endpoint → String → Endpoint
unfolding pdu_def
add_dynamic_client s client_name = record s {
  pdu_definitions =
      s.pdu_definitions
      ++ pdu_def s client_name "Req" s.dynamic_request_channel_id s.dynamic_request_pdu_size
        ∷ pdu_def s client_name "Res" s.dynamic_response_channel_id s.dynamic_response_pdu_size
        ∷ [];
  registered_clients = s.registered_clients ++ client_name ∷ [];
  server_states = insert client_name idle_status s.server_states;
}

unfoldable pub ensure_dynamic_client : RpcEnv → Endpoint → String → Endpoint × Bool
unfolding add_dynamic_client
ensure_dynamic_client v s client_name =
    if client_name == "" then (s, false) else elim (lookup client_name s.server_states) [
      | some _ ↦ (s, true)
      | none ↦
          if leb s.max_clients (length s.registered_clients)
          then (s, false)
          else (if not v.has_pdu_definition
              then (s, false)
              else (add_dynamic_client s client_name, true))
    ]

unfoldable pub find_client : String → List String → Bool
find_client client_name [] = false
find_client client_name (c ∷ rest) =
    let found = find_client client_name rest in if c == client_name then true else found

unfoldable pub validate_header : RpcEnv → Endpoint → RequestHeader → Endpoint × Bool
unfolding ensure_dynamic_client find_client
validate_header v s header =
    if header.service_name != s.service_name
    then (s, false)
    else (if s.dynamic_client
        then ensure_dynamic_client v s header.client_name
        else (if not (find_client header.client_name s.registered_clients)
            then (s, false)
            else (s, not (leb operation_num header.opcode))))

-- `status` is the entry of `server_states_` under the Client's name.
unfoldable pub handle_request_in :
    RpcEnv → Endpoint → RequestHeader → ServerProcessingStatus → Endpoint × ServerEventType
unfolding set_status send_error_reply
handle_request_in v s header status = elim status.state [
  | idle ↦ (
    set_status s header.client_name (record { request_id = header.request_id; state = running }),
    request_in,
  )
  | running ↦ (send_error_reply v s header result_code_busy, ServerEventType.none)
  | cancelling ↦ (send_error_reply v s header result_code_busy, ServerEventType.none)
]

unfoldable pub handle_cancel_request :
    RpcEnv → Endpoint → RequestHeader → ServerProcessingStatus → Endpoint × ServerEventType
unfolding set_status send_error_reply
handle_cancel_request v s header status = elim status.state [
  | running ↦
      if not (eqb status.request_id header.request_id)
      then (send_error_reply v s header result_code_invalid, ServerEventType.none)
      else (
        set_status s header.client_name
            (record { request_id = status.request_id; state = cancelling }),
        request_cancel,
      )
  | idle ↦ (s, ServerEventType.none)
  | cancelling ↦ (send_error_reply v s header result_code_busy, ServerEventType.none)
]

-- `poll` for a decoded header: the header is checked, then the request goes to its handler.
unfoldable pub dispatch : RpcEnv → Endpoint → RequestHeader → Endpoint × ServerEventType
unfolding validate_header send_error_reply handle_request_in handle_cancel_request
dispatch v s header =
    let (t, valid) = validate_header v s header in
    if not valid
    then (send_error_reply v t header result_code_error, ServerEventType.none)
    else elim (lookup header.client_name t.server_states) [
      | none ↦ (send_error_reply v t header result_code_invalid, ServerEventType.none)
      | some status ↦
          if eqb header.opcode operation_code_cancel
          then handle_cancel_request v t header status
          else handle_request_in v t header status
    ]

-- The request that `poll` hands over: its Client's name is set only by `handle_request_in`.
unfoldable pub taken : RequestHeader → PduData → ServerEventType → RpcRequest
taken header pdu request_in = record {
  client_name = header.client_name;
  header = header;
  pdu = pdu;
}
taken header pdu _ = record { client_name = ""; header = header; pdu = pdu }

unfoldable pub poll : RpcEnv → Endpoint → Endpoint × ServerEventType × Option RpcRequest
unfolding dispatch taken
poll v s = elim s.pending_requests [
  | [] ↦ (s, ServerEventType.none, none)
  | pdu ∷ rest ↦
      let header = v.pdu2cpp_request pdu in
      let (t, event) = dispatch v (record s { pending_requests = rest }) header in
      (t, event, some (taken header pdu event))
]
