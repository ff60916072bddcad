-- ===== src/Rpc/ClientEndpoint.antt =====
-- src/rpc_client_endpoint_impl.cpp and include/hakoniwa/pdu/rpc/rpc_client_endpoint_impl.hpp: the
-- Client side of one service. A function returns the endpoint after the call; the reading of the
-- time source is the argument `now`.
pub mod Delivery
pub mod Deadline
use Prim.Native.String.{◌++◌ as concat}
use hakoniwa_pdu_rpc.Base.{
  ℕ, ◌+◌, ◌-◌, ◌%◌, Bool, true, false, not, ◌&&◌, Option, none, some, List, [], ◌∷◌, ◌++◌, String,
  string_equality, ltb, eqb, if◌then◌else◌, ◌!=◌,
}
use hakoniwa_pdu_rpc.Rpc.Types.{
  PduData, RequestHeader, ResponseHeader, RpcResponse, ClientEventType, response_in,
  response_cancel, response_timeout, operation_code_cancel, result_code_canceled,
  exceeds_result_codes, is_result_code, PduKey, PduDef, Send, RpcEnv,
}
use hakoniwa_pdu_rpc.Rpc.Types

pub data ClientState : Type 0 where
  idle running cancelling : ClientState

pub record ClientProcessingStatus : Type 0 where
  pub request_id : ℕ
  pub state : ClientState

-- `sends` are the calls of `Endpoint::send`, the last one first; `pdu_definitions` are the PDU
-- definitions that `initialize` added.
pub record Endpoint : Type 0 where
  pub service_name : String
  pub client_name : String
  pub client_state : ClientProcessingStatus
  pub pending_responses : List PduData
  pub current_timeout_usec : ℕ
  pub request_start_time_usec : ℕ
  pub current_request_id : ℕ
  pub pdu_definitions : List PduDef
  pub sends : List Send

-- Conversions to `Hako_uint32` and `uint64_t`: modulo 2 ^ 32 and 2 ^ 64.
abbrev pub uint32 : ℕ → ℕ
uint32 n = n % 4294967296

abbrev pub uint64 : ℕ → ℕ
uint64 n = n % 18446744073709551616

-- A subtraction of `uint64_t` values.
abbrev pub elapsed : ℕ → ℕ → ℕ
elapsed now start = uint64 (now + 18446744073709551616 - start)

unfoldable pub with_state : Endpoint → ClientState → Endpoint
with_state s state = record s {
  client_state = record { request_id = s.client_state.request_id; state = state };
}

unfoldable pub put_pending_response : Endpoint → PduData → Endpoint
put_pending_response s pdu_data = record s {
  pending_responses = s.pending_responses ++ pdu_data ∷ [];
}

unfoldable pub clear_pending_responses : Endpoint → Endpoint
clear_pending_responses s = record s { pending_responses = [] }

abbrev pub request_key : Endpoint → PduKey
request_key s = record { robot = s.service_name; pdu = concat s.client_name "Req" }

unfoldable pub send_request : RpcEnv → Endpoint → PduData → Endpoint × Bool
send_request v s pdu =
    let m : Send = record { key = request_key s; bytes = pdu } in
    (record s { sends = m ∷ s.sends }, v.send_ok s.sends m)

-- A new request takes the next number; a cancel names the request that runs.
unfoldable pub create_request_buffer : RpcEnv → Endpoint → ℕ → Bool → Endpoint × PduData
create_request_buffer v s opcode is_cancel_request =
    let next =
      if is_cancel_request then s.current_request_id else uint64 (s.current_request_id + 1) in
    let request_id = if is_cancel_request then s.client_state.request_id else next in
    (
      record s { current_request_id = next },
      v.cpp2pdu_request
          (record {
            request_id = uint32 request_id;
            service_name = s.service_name;
            client_name = s.client_name;
            opcode = opcode;
            status_poll_interval_msec = 0;
          })
          (v.get_pdu_size s.pdu_definitions (request_key s)),
    )

-- The state that `call` prepares before it sends.
unfoldable pub begin_call : Endpoint → ℕ → ℕ → Endpoint
begin_call s timeout_usec now = record s {
  client_state = record { request_id = uint32 s.current_request_id; state = running };
  current_timeout_usec = timeout_usec;
  request_start_time_usec = now;
}

abbrev is_idle : ClientState → Bool
is_idle idle = true
is_idle _ = false

abbrev is_running : ClientState → Bool
is_running running = true
is_running _ = false

unfoldable pub call : RpcEnv → Endpoint → PduData → ℕ → ℕ → Endpoint × Bool
unfolding begin_call send_request with_state
call v s pdu timeout_usec now =
    if not (is_idle s.client_state.state)
    then (s, false)
    else (let (t, sent) = send_request v (begin_call s timeout_usec now) pdu in
        if not sent then (with_state t idle, false) else (t, true))

unfoldable pub send_cancel_request : RpcEnv → Endpoint → Endpoint × Bool
unfolding create_request_buffer send_request with_state
send_cancel_request v s =
    if not (is_running s.client_state.state)
    then (s, false)
    else (let (t, pdu) = create_request_buffer v s operation_code_cancel true in
        let (u, sent) = send_request v t pdu in
        if sent then (with_state u cancelling, true) else (u, false))

-- The loop over the pending responses: the first one with the request's number is taken out.
unfoldable pub take_response : RpcEnv → ℕ → List PduData → Option (PduData × List PduData)
take_response v request_id [] = none
take_response v request_id (pdu ∷ rest) =
    let later = take_response v request_id rest in
    if eqb (v.pdu2cpp_response pdu).request_id request_id
    then some (pdu, rest)
    else elim later [ none ↦ none | some (found, others) ↦ some (found, pdu ∷ others) ]

unfoldable pub validate_header : Endpoint → ResponseHeader → Bool
unfolding exceeds_result_codes
validate_header s header =
    if header.service_name != s.service_name
    then false
    else (if header.client_name != s.client_name
        then false
        else (if not (eqb header.request_id s.client_state.request_id)
            then false
            else not (exceeds_result_codes header.result_code)))

-- With `handle_cancel_response`, which differs in the event only.
unfoldable pub handle_response_in : Endpoint → ResponseHeader → Endpoint × ClientEventType
unfolding validate_header with_state is_result_code
handle_response_in s header =
    if not (validate_header s header)
    then (with_state s idle, ClientEventType.none)
    else (if is_result_code header.result_code result_code_canceled
        then (with_state s idle, response_cancel)
        else (with_state s idle, response_in))

unfoldable pub timed_out : Endpoint → ℕ → Bool
timed_out s now =
    is_running s.client_state.state
    && ltb 0 s.current_timeout_usec
    && ltb s.current_timeout_usec (elapsed now s.request_start_time_usec)

unfoldable pub check_responses : RpcEnv → Endpoint → Endpoint × ClientEventType × Option RpcResponse
unfolding take_response handle_response_in
check_responses v s = elim (take_response v s.client_state.request_id s.pending_responses) [
  | none ↦ (s, ClientEventType.none, none)
  | some (pdu, others) ↦
      let header = v.pdu2cpp_response pdu in
      let (t, event) = handle_response_in (record s { pending_responses = others }) header in
      (t, event, some (record { header = header; pdu = pdu }))
]

unfoldable pub poll : RpcEnv → Endpoint → ℕ → Endpoint × ClientEventType × Option RpcResponse
unfolding timed_out check_responses
poll v s now =
    if is_idle s.client_state.state
    then (s, ClientEventType.none, none)
    else (if timed_out s now then (s, response_timeout, none) else check_responses v s)
