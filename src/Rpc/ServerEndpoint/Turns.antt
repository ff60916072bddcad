-- ===== src/Rpc/ServerEndpoint/Turns.antt =====
-- Calls of the endpoint in any order, from the transport and from the application.
use hakoniwa_pdu_rpc.Base.{ℕ, ◌+◌, ◌≡◌, List, [], ◌∷◌, String, arith, length}
use hakoniwa_pdu_rpc.Rpc.Types.{PduData, RpcEnv}
use hakoniwa_pdu_rpc.Rpc.ServerEndpoint.{
  Endpoint, put_pending_request, clear_pending_requests, send_reply, send_cancel_reply, poll,
}
use hakoniwa_pdu_rpc.Rpc.ServerEndpoint.Replies.{
  busy, owed_or_sent, handed_over, send_reply_balance, send_cancel_reply_balance, poll_balance,
}

pub data Call : Type 0 where
  receive : PduData → Call
  polled cleared : Call
  replied cancel_replied : String → PduData → Call

unfoldable pub step : RpcEnv → Endpoint → Call → Endpoint
unfolding put_pending_request clear_pending_requests send_reply send_cancel_reply poll
step v s (receive pdu) = put_pending_request s pdu
step v s polled = (poll v s).0
step v s cleared = clear_pending_requests s
step v s (replied client_name pdu) = send_reply s client_name pdu
step v s (cancel_replied client_name pdu) = send_cancel_reply s client_name pdu

unfoldable pub run : RpcEnv → Endpoint → List Call → Endpoint
unfolding step
run v s [] = s
run v s (c ∷ rest) = run v (step v s c) rest

-- The requests that a call hands to the application: only `poll` does.
unfoldable pub hands_over : RpcEnv → Endpoint → Call → ℕ
unfolding poll handed_over
hands_over v s polled = handed_over (poll v s).1
hands_over v s _ = 0

unfoldable pub requests_handed_over : RpcEnv → Endpoint → List Call → ℕ
unfolding step hands_over
requests_handed_over v s [] = 0
requests_handed_over v s (c ∷ rest) = hands_over v s c + requests_handed_over v (step v s c) rest

step_balance :
    (v : RpcEnv) (s : Endpoint) (c : Call)
    → owed_or_sent (step v s c) ≡ owed_or_sent s + hands_over v s c
unfolding owed_or_sent step hands_over put_pending_request clear_pending_requests
step_balance v s (receive pdu) = ground arith
step_balance v s polled = poll_balance v s
step_balance v s cleared = ground arith
step_balance v s (replied n pdu) = ground (arith, send_reply_balance s n pdu)
step_balance v s (cancel_replied n pdu) = ground (arith, send_cancel_reply_balance s n pdu)

run_balance :
    (v : RpcEnv) (s : Endpoint) (calls : List Call)
    → owed_or_sent (run v s calls) ≡ owed_or_sent s + requests_handed_over v s calls
unfolding run requests_handed_over
run_balance v s [] = ground arith
run_balance v s (c ∷ rest) = ground (arith, step_balance v s c, run_balance v (step v s c) rest)

-- From an endpoint that has sent nothing and has no busy Client, in any order of received packets,
-- polls, clears and replies: the sends of replies, error replies included, and the Clients that are
-- running or cancelling together are as many as the requests handed to the application.
pub replies_are_paid :
    (v : RpcEnv) (s : Endpoint) (calls : List Call)
    → s.sends ≡ []
    → busy s.server_states ≡ 0
    → length (run v s calls).sends + busy (run v s calls).server_states
      ≡ requests_handed_over v s calls
unfolding owed_or_sent
replies_are_paid v s calls none_sent none_busy = ground (arith, run_balance v s calls)
