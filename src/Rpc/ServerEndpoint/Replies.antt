-- ===== src/Rpc/ServerEndpoint/Replies.antt =====
-- How many replies the Server sends: each one is paid for by a request that it handed over.
use hakoniwa_pdu_rpc.Base.{
  ℕ, ◌+◌, ◌≡◌, Option, none, some, List, [], ◌∷◌, String, arith, length, string_equality, if_split,
  Option-split, Option-cases, List-split, inl, inr, not, eqb,
}
use hakoniwa_pdu_rpc.Base.Map.{lookup, insert}
use hakoniwa_pdu_rpc.Rpc.Types.{
  PduData, RequestHeader, RpcRequest, result_code_busy, result_code_invalid, result_code_error,
  operation_code_cancel, RpcEnv, ServerEventType, request_in,
}
use hakoniwa_pdu_rpc.Rpc.ServerEndpoint.{
  Endpoint, ServerState, ServerProcessingStatus, idle, running, cancelling, idle_status, set_status,
  reply, send_reply, send_cancel_reply, send_error_reply, ensure_dynamic_client, add_dynamic_client,
  validate_header, handle_request_in, handle_cancel_request, dispatch, poll,
}

abbrev pub weight : ServerState → ℕ
weight idle = 0
weight running = 1
weight cancelling = 1

-- The Clients with a request that runs or is being cancelled.
unfoldable pub busy : List (String × ServerProcessingStatus) → ℕ
busy [] = 0
busy ((_, status) ∷ rest) = weight status.state + busy rest

busy-insert_new :
    (k : String) (x : ServerProcessingStatus) (m : List (String × ServerProcessingStatus))
    → lookup k m ≡ none
    → busy (insert k x m) ≡ busy m + weight x.state
unfolding busy lookup insert
busy-insert_new k x [] e = ground arith
busy-insert_new k x ((j, w) ∷ m) e = ground (arith, busy-insert_new k x m)

busy-insert :
    (k : String) (x w : ServerProcessingStatus) (m : List (String × ServerProcessingStatus))
    → lookup k m ≡ some w
    → busy (insert k x m) + weight w.state ≡ busy m + weight x.state
unfolding busy lookup insert
busy-insert k x w [] e = ground arith
busy-insert k x w ((j, u) ∷ m) e = ground (arith, busy-insert k x w m)

-- The sends of replies, whether or not the transport takes them, and the Clients that wait for one, together.
unfoldable pub owed_or_sent : Endpoint → ℕ
unfolding busy
owed_or_sent s = length s.sends + busy s.server_states

pub send_reply_balance :
    (s : Endpoint) (client_name : String) (pdu : PduData)
    → owed_or_sent (send_reply s client_name pdu) ≡ owed_or_sent s
unfolding owed_or_sent send_reply reply set_status
send_reply_balance s n pdu = elim (Option-cases (lookup n s.server_states)) [
  | inl e ↦ ground arith
  | inr (w, e) ↦ ground (arith, busy-insert n idle_status w s.server_states e)
]

pub send_cancel_reply_balance :
    (s : Endpoint) (client_name : String) (pdu : PduData)
    → owed_or_sent (send_cancel_reply s client_name pdu) ≡ owed_or_sent s
unfolding owed_or_sent send_cancel_reply reply set_status
send_cancel_reply_balance s n pdu = elim (Option-cases (lookup n s.server_states)) [
  | inl e ↦ ground arith
  | inr (w, e) ↦ ground (arith, busy-insert n idle_status w s.server_states e)
]

pub send_error_reply_balance :
    (v : RpcEnv) (s : Endpoint) (header : RequestHeader) (code : ℕ)
    → owed_or_sent (send_error_reply v s header code) ≡ owed_or_sent s
unfolding send_error_reply
send_error_reply_balance v s header code = send_reply_balance s header.client_name _

pub ensure_dynamic_client_balance :
    (v : RpcEnv) (s : Endpoint) (client_name : String)
    → owed_or_sent (ensure_dynamic_client v s client_name).0 ≡ owed_or_sent s
unfolding owed_or_sent ensure_dynamic_client add_dynamic_client
ensure_dynamic_client_balance v s n = ground (arith, busy-insert_new n idle_status s.server_states)

pub validate_header_balance :
    (v : RpcEnv) (s : Endpoint) (header : RequestHeader)
    → owed_or_sent (validate_header v s header).0 ≡ owed_or_sent s
unfolding validate_header
validate_header_balance v s header =
    ground (arith, ensure_dynamic_client_balance v s header.client_name)

-- 1 for a request that is handed to the application.
unfoldable pub handed_over : ServerEventType → ℕ
handed_over request_in = 1
handed_over _ = 0

abbrev pub Pays : ℕ → Endpoint × ServerEventType → Type 0
Pays n r = owed_or_sent r.0 ≡ n + handed_over r.1

handle_request_in_balance :
    (v : RpcEnv) (s : Endpoint) (header : RequestHeader) (status : ServerProcessingStatus)
    → lookup header.client_name s.server_states ≡ some status
    → Pays (owed_or_sent s) (handle_request_in v s header status)
unfolding handle_request_in handed_over owed_or_sent set_status
handle_request_in_balance v s header status at = ground (
  arith,
  busy-insert header.client_name (record { request_id = header.request_id; state = running }) status
      s.server_states at,
  send_error_reply_balance v s header result_code_busy,
)

handle_cancel_request_balance :
    (v : RpcEnv) (s : Endpoint) (header : RequestHeader) (status : ServerProcessingStatus)
    → lookup header.client_name s.server_states ≡ some status
    → Pays (owed_or_sent s) (handle_cancel_request v s header status)
unfolding handle_cancel_request handed_over owed_or_sent set_status
handle_cancel_request_balance v s header status at = ground (
  arith,
  busy-insert header.client_name (record { request_id = status.request_id; state = cancelling })
      status s.server_states at,
  send_error_reply_balance v s header result_code_busy,
  send_error_reply_balance v s header result_code_invalid,
)

dispatch_balance :
    (v : RpcEnv) (s : Endpoint) (header : RequestHeader)
    → Pays (owed_or_sent s) (dispatch v s header)
unfolding dispatch handed_over
dispatch_balance v s header =
    let t = (validate_header v s header).0 in
    let same : owed_or_sent t ≡ owed_or_sent s = validate_header_balance v s header in
    let refused : (code : ℕ)
        → Pays (owed_or_sent s) (send_error_reply v t header code, ServerEventType.none) =
      λ code. ground (arith, same, send_error_reply_balance v t header code) in
    if_split (Pays (owed_or_sent s)) (not (validate_header v s header).1) _ _
      (λ _. refused result_code_error)
      λ _.
        Option-split (Pays (owed_or_sent s)) (lookup header.client_name t.server_states) _ _
          (λ _. refused result_code_invalid)
          λ status at.
            if_split (Pays (owed_or_sent s)) (eqb header.opcode operation_code_cancel) _ _
              (λ _. ground (arith, same, handle_cancel_request_balance v t header status at))
              λ _. ground (arith, same, handle_request_in_balance v t header status at)

abbrev Paid : Endpoint → Endpoint × ServerEventType × Option RpcRequest → Type 0
Paid s r = owed_or_sent r.0 ≡ owed_or_sent s + handed_over r.1

pub poll_balance :
    (v : RpcEnv) (s : Endpoint)
    → owed_or_sent (poll v s).0 ≡ owed_or_sent s + handed_over (poll v s).1
unfolding poll handed_over owed_or_sent
poll_balance v s =
    List-split (λ r. Paid s r) s.pending_requests _ _ (ground arith)
      λ pdu rest. dispatch_balance v (record s { pending_requests = rest }) (v.pdu2cpp_request pdu)
