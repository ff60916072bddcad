-- ===== src/Rpc/ServerEndpoint/Requests.antt =====
-- What becomes of one request at the Server, by the state that its Client is in.
use hakoniwa_pdu_rpc.Base.{
  ℕ, ◌≡◌, ◌≢◌, ◌↔◌, true, ◌&&◌, none, some, String, arith, string_equality, Option-cases, inl, inr,
  eqb, if◌then◌else◌,
}
use hakoniwa_pdu_rpc.Base.Map.{lookup, lookup-insert}
use hakoniwa_pdu_rpc.Rpc.Types.{
  PduData, RequestHeader, RpcEnv, ServerEventType, request_in, request_cancel,
  operation_code_cancel, result_code_busy, result_code_invalid,
}
use hakoniwa_pdu_rpc.Rpc.ServerEndpoint.{
  Endpoint, ServerState, ServerProcessingStatus, idle, running, cancelling, idle_status, set_status,
  reply, send_reply, send_error_reply, ensure_dynamic_client, validate_header, handle_request_in,
  handle_cancel_request, dispatch,
}

abbrev request_status : RequestHeader → ServerState → ServerProcessingStatus
request_status header state = record { request_id = header.request_id; state = state }

-- The endpoint's view of one Client after a reply: a busy Client is idle, another is as it was.
pub send_reply-lookup :
    (s : Endpoint) (n m : String) (pdu : PduData)
    → lookup m (send_reply s n pdu).server_states ≡ (
        if string_equality.equals n m
        then (elim (lookup m s.server_states) [
          | none ↦ none
          | some status ↦ elim status.state [ idle ↦ some status | _ ↦ some idle_status ]
        ])
        else lookup m s.server_states)
unfolding send_reply reply set_status
send_reply-lookup s n m pdu = elim (Option-cases (lookup n s.server_states)) [
  | inl e ↦ ground (arith, string_equality.equals_iff n m)
  | inr (w, e) ↦
      ground (arith, string_equality.equals_iff n m, lookup-insert n m idle_status s.server_states)
]

-- A header that the checks let through, for a Client whose status is known, leaves all as it is.
pub validate_header_known :
    (v : RpcEnv) (s : Endpoint) (header : RequestHeader) (status : ServerProcessingStatus)
    → lookup header.client_name s.server_states ≡ some status
    → (validate_header v s header).0 ≡ s
unfolding validate_header ensure_dynamic_client
validate_header_known v s header status at = ground (arith, at)

-- A request that is not a cancel, from a Client that the endpoint knows and whose header is valid:
-- it is handed over exactly when the Client is idle.
request_accepted :
    (v : RpcEnv) (s : Endpoint) (header : RequestHeader) (status : ServerProcessingStatus)
    → lookup header.client_name s.server_states ≡ some status
    → (validate_header v s header).1 ≡ true
    → header.opcode ≢ operation_code_cancel
    → ((dispatch v s header).1 ≡ request_in) ↔ (status.state ≡ idle)
unfolding dispatch handle_request_in
request_accepted v s header status at valid op =
    ground (arith, validate_header_known v s header status at)

unfoldable after_reply : ServerProcessingStatus → ServerProcessingStatus
after_reply status = elim status.state [ idle ↦ status | _ ↦ idle_status ]

send_error_reply-lookup :
    (v : RpcEnv) (s : Endpoint) (header : RequestHeader) (status : ServerProcessingStatus)
    → (code : ℕ) (m : String) → lookup header.client_name s.server_states ≡ some status
    → lookup m (send_error_reply v s header code).server_states ≡ (
        if string_equality.equals header.client_name m
        then some (after_reply status)
        else lookup m s.server_states)
unfolding send_error_reply send_reply reply set_status after_reply
send_error_reply-lookup v s header status code m at =
    let n = header.client_name in
    ground
      (arith, at, string_equality.equals_iff n m, lookup-insert n m idle_status s.server_states)

-- The protocol of one Client as the Server sees it: its status and what a valid request of it does.
unfoldable pub session_step :
    ServerProcessingStatus → RequestHeader → ServerProcessingStatus × ServerEventType
session_step status header = elim status.state [
  | idle ↦
      if eqb header.opcode operation_code_cancel
      then (status, ServerEventType.none)
      else (request_status header running, request_in)
  | running ↦
      if eqb header.opcode operation_code_cancel && eqb status.request_id header.request_id
      then (request_status header cancelling, request_cancel)
      else (idle_status, ServerEventType.none)
  | cancelling ↦ (idle_status, ServerEventType.none)
]

-- A valid request of a known Client moves the status of that Client, and of no other, as
-- `session_step` says, and `poll` reports its event.
pub dispatch-session_step :
    (v : RpcEnv) (s : Endpoint) (header : RequestHeader) (status : ServerProcessingStatus)
    (m : String)
    → lookup header.client_name s.server_states ≡ some status
    → (validate_header v s header).1 ≡ true
    → (lookup m (dispatch v s header).0.server_states ≡ (
        if string_equality.equals header.client_name m
        then some (session_step status header).0
        else lookup m s.server_states))
      × ((dispatch v s header).1 ≡ (session_step status header).1)
unfolding dispatch handle_request_in handle_cancel_request session_step set_status after_reply
dispatch-session_step v s header status m at valid =
    let n = header.client_name in
    ground (
      arith,
      validate_header_known v s header status at,
      string_equality.equals_iff n m,
      lookup-insert n m (request_status header running) s.server_states,
      lookup-insert n m (request_status header cancelling) s.server_states,
      send_error_reply-lookup v s header status result_code_busy m at,
      send_error_reply-lookup v s header status result_code_invalid m at,
    )

-- A second request of a Client whose request is running makes the Server forget the first one: the
-- application's answer to it, sent afterwards, changes nothing and is not transmitted.
pub answer_dropped :
    (v : RpcEnv) (s : Endpoint) (header : RequestHeader) (status : ServerProcessingStatus)
    (answer : PduData)
    → lookup header.client_name s.server_states ≡ some status
    → status.state ≡ running
    → (validate_header v s header).1 ≡ true
    → header.opcode ≢ operation_code_cancel
    → send_reply (dispatch v s header).0 header.client_name answer ≡ (dispatch v s header).0
unfolding send_reply session_step
answer_dropped v s header status answer at is valid op =
    let n = header.client_name in
    ground
      (arith, dispatch-session_step v s header status n at valid, string_equality.equals_iff n n)
