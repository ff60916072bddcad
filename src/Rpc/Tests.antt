-- ===== src/Rpc/Tests.antt =====
-- A concrete RPC service with one Client, at which the theorems about
-- src/rpc_server_endpoint_impl.cpp and src/rpc_client_endpoint_impl.cpp apply.
use hakoniwa_pdu_rpc.Base.{◌+◌, ◌≡◌, refl, some, List, [], ◌∷◌, length, string_equality, arith}
use hakoniwa_pdu_rpc.Base.Map.{lookup}
use hakoniwa_pdu_rpc.Rpc.Types.{
  PduData, ℤ, pos, RequestHeader, ResponseHeader, RpcEnv, operation_code_request,
  operation_code_cancel, exceeds_result_codes,
}
use hakoniwa_pdu_rpc.Rpc.Types
use hakoniwa_pdu_rpc.Rpc.Samples.{
  sample_request, sample_env, status_of, sample_server, sample_client,
}
use hakoniwa_pdu_rpc.Rpc.ServerEndpoint as Server
use hakoniwa_pdu_rpc.Rpc.ServerEndpoint.Replies.{busy}
use hakoniwa_pdu_rpc.Rpc.ServerEndpoint.Requests.{
  session_step, dispatch-session_step, answer_dropped,
}
use hakoniwa_pdu_rpc.Rpc.ServerEndpoint.Turns.{
  Call, receive, polled, replied, run, requests_handed_over, replies_are_paid,
}
use hakoniwa_pdu_rpc.Rpc.ClientEndpoint as Client
use hakoniwa_pdu_rpc.Rpc.ClientEndpoint.Deadline.{call_outcome}
use hakoniwa_pdu_rpc.Rpc.Exchange.{calling, serving, exchange}

-- Two requests in a row: the second is answered as busy, and the reply to the first comes too late.
abbrev sample_calls : List Call
sample_calls =
    receive (0 ∷ []) ∷ polled ∷ receive (0 ∷ []) ∷ polled ∷ replied "Client01" (3 ∷ []) ∷ []

replies_are_paid_example :
    length (run sample_env (sample_server Server.idle) sample_calls).sends
      + busy (run sample_env (sample_server Server.idle) sample_calls).server_states
    ≡ requests_handed_over sample_env (sample_server Server.idle) sample_calls
unfolding busy
replies_are_paid_example =
    replies_are_paid sample_env (sample_server Server.idle) sample_calls refl refl

dispatch-session_step_example :
    (lookup "Client01"
        (Server.dispatch sample_env
          (sample_server Server.running)
          (sample_request 1)).0.server_states
      ≡ some (status_of Server.cancelling))
    × ((Server.dispatch sample_env (sample_server Server.running) (sample_request 1)).1
        ≡ Types.request_cancel)
unfolding lookup session_step Server.validate_header Server.find_client
dispatch-session_step_example =
    dispatch-session_step sample_env (sample_server Server.running) (sample_request 1)
      (status_of Server.running) "Client01" refl refl

answer_dropped_example :
    Server.send_reply
      (Server.dispatch sample_env (sample_server Server.running) (sample_request 0)).0
      "Client01"
      (3 ∷ [])
    ≡ (Server.dispatch sample_env (sample_server Server.running) (sample_request 0)).0
unfolding lookup Server.validate_header Server.find_client
answer_dropped_example =
    answer_dropped sample_env (sample_server Server.running) (sample_request 0)
      (status_of Server.running) (3 ∷ []) refl refl refl (λ e. absurd (ground (arith, e)))

abbrev waiting_client : Client.Endpoint
waiting_client = record (sample_client Client.running) { pending_responses = [] ∷ [] }

exchange_example :
    (serving sample_env
      (sample_server Server.idle)
      (calling sample_env (sample_client Client.idle) 10 100).1
      (sample_request 0)
      3
      (pos 0)).1
    ≡ Types.request_in
unfolding lookup exceeds_result_codes calling Client.create_request_buffer Client.call
    Client.begin_call Client.send_request Client.timed_out Server.validate_header Server.find_client
exchange_example =
    (exchange sample_env (sample_client Client.idle) (sample_server Server.idle) 10 100 105 3 1
      (pos 0) refl refl (λ _. refl) refl refl refl refl refl (λ _. refl)).1

call_outcome_example :
    (Client.call sample_env (sample_client Client.idle) (0 ∷ []) 10 100).0.client_state.state
    ≡ Client.running
unfolding Client.call Client.begin_call Client.send_request
call_outcome_example =
    ((call_outcome sample_env (sample_client Client.idle) (0 ∷ []) 10 100).1 refl).0
