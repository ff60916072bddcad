-- ===== src/Rpc/ClientEndpoint/Deadline.antt =====
-- The time limit of a call, the cancel that may follow it, and the failure of a send.
use hakoniwa_pdu_rpc.Base.{ℕ, ◌<◌, ◌≡◌, ◌≢◌, ◌↔◌, Bool, true, false, ◌&&◌, List, [], ◌∷◌, arith}
use hakoniwa_pdu_rpc.Rpc.Types.{
  operation_code_cancel, Send, PduData, ClientEventType, response_timeout, RpcEnv,
}
use hakoniwa_pdu_rpc.Rpc.ClientEndpoint.{
  Endpoint, idle, running, with_state, call, begin_call, send_request, timed_out, poll,
  put_pending_response, request_key, uint32,
}

-- Polls at the given times, with responses that arrive between them.
unfoldable pub poll_all : RpcEnv → Endpoint → List (PduData × ℕ) → Endpoint × List ClientEventType
unfolding poll put_pending_response
poll_all v s [] = (s, [])
poll_all v s ((pdu, now) ∷ rest) =
    let p = poll v (put_pending_response s pdu) now in
    let (u, events) = poll_all v p.0 rest in (u, p.1 ∷ events)

unfoldable pub all_late : Endpoint → List (PduData × ℕ) → Bool
unfolding timed_out
all_late s [] = true
all_late s ((_, now) ∷ rest) = timed_out s now && all_late s rest

unfoldable pub all_timeouts : List (PduData × ℕ) → List ClientEventType
all_timeouts [] = []
all_timeouts (_ ∷ rest) = response_timeout ∷ all_timeouts rest

unfoldable pub all_received : Endpoint → List (PduData × ℕ) → Endpoint
unfolding put_pending_response
all_received s [] = s
all_received s ((pdu, _) ∷ rest) = all_received (put_pending_response s pdu) rest

-- Every poll reads a time after `limit`.
abbrev pub AllAfter : ℕ → List (PduData × ℕ) → Type 0
AllAfter limit [] = Unit {0}
AllAfter limit ((_, now) ∷ rest) =
    (limit < now) × (now < 18446744073709551616) × AllAfter limit rest

abbrev message : Endpoint → PduData → Send
message s pdu = record { key = request_key s; bytes = pdu }

-- A call succeeds exactly when the Client is idle and the transport takes the request. Then the
-- request has been sent, and the call runs under the number last given out, with the given limit
-- from the time of the call on. A call that fails leaves the Client in the state it was in.
pub call_outcome :
    (v : RpcEnv) (s : Endpoint) (pdu : PduData) (timeout now : ℕ)
    → (((call v s pdu timeout now).1 ≡ true)
        ↔ ((s.client_state.state ≡ idle) × (v.send_ok s.sends (message s pdu) ≡ true)))
      × ((call v s pdu timeout now).1 ≡ true
          → ((call v s pdu timeout now).0.client_state.state ≡ running)
            × ((call v s pdu timeout now).0.client_state.request_id ≡ uint32 s.current_request_id)
            × ((call v s pdu timeout now).0.current_timeout_usec ≡ timeout)
            × ((call v s pdu timeout now).0.request_start_time_usec ≡ now)
            × ((call v s pdu timeout now).0.sends ≡ message s pdu ∷ s.sends))
      × ((call v s pdu timeout now).1 ≡ false
          → (call v s pdu timeout now).0.client_state.state ≡ s.client_state.state)
unfolding call begin_call send_request with_state
call_outcome v s pdu timeout now = (
  (λ ok. (ground (arith, ok), ground (arith, ok)), λ (free, taken). ground (arith, free, taken)),
  λ ok. ground (arith, ok),
  λ no. ground (arith, no),
)

-- No event of a list is a timeout.
abbrev pub NoTimeout : List ClientEventType → Type 0
NoTimeout [] = Unit {0}
NoTimeout (event ∷ rest) = (event ≢ response_timeout) × NoTimeout rest

abbrev cancel_message : RpcEnv → Endpoint → Send
cancel_message v s = message s (
    v.cpp2pdu_request
      (record {
        request_id = uint32 s.client_state.request_id;
        service_name = s.service_name;
        client_name = s.client_name;
        opcode = operation_code_cancel;
        status_poll_interval_msec = 0;
      })
      (v.get_pdu_size s.pdu_definitions (request_key s)))
