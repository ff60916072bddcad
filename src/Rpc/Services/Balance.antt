-- ===== src/Rpc/Services/Balance.antt =====
-- Replies against requests over all services of a server, for any use of it.
use hakoniwa_pdu_rpc.Base.{
  ℕ, ◌+◌, ◌≡◌, refl, List, [], ◌∷◌, String, arith, string_equality, ◌==◌, if_split, length, ap,
}
use hakoniwa_pdu_rpc.Rpc.Types.{PduData, RequestHeader, RpcEnv}
use hakoniwa_pdu_rpc.Rpc.ServerEndpoint.{Endpoint}
use hakoniwa_pdu_rpc.Rpc.ServerEndpoint as Server
use hakoniwa_pdu_rpc.Rpc.ServerEndpoint.Replies.{
  busy, owed_or_sent, handed_over, send_reply_balance, send_cancel_reply_balance, poll_balance,
}
use hakoniwa_pdu_rpc.Rpc.Services.{
  Services, on_service, send_reply, send_cancel_reply, poll, stop_all_services,
}

unfoldable pub replies_sent : Services → ℕ
replies_sent [] = 0
replies_sent ((_, s) ∷ rest) = length s.sends + replies_sent rest

unfoldable pub busy_clients : Services → ℕ
unfolding busy
busy_clients [] = 0
busy_clients ((_, s) ∷ rest) = busy s.server_states + busy_clients rest

unfoldable total : Services → ℕ
unfolding owed_or_sent
total [] = 0
total ((_, s) ∷ rest) = owed_or_sent s + total rest

total-sum : (services : Services) → total services ≡ replies_sent services + busy_clients services
unfolding total replies_sent busy_clients owed_or_sent
total-sum [] = refl
total-sum ((_, s) ∷ rest) = ground (arith, total-sum rest)

total-on_service :
    (name : String) (f : Endpoint → Endpoint) (services : Services)
    → ((s : Endpoint) → owed_or_sent (f s) ≡ owed_or_sent s)
    → total (on_service name f services) ≡ total services
unfolding on_service total
total-on_service name f [] same = refl
total-on_service name f ((n, s) ∷ rest) same =
    if_split (λ (l : Services). total l ≡ owed_or_sent s + total rest) (n == name) _ _
      (λ _. ap (λ (k : ℕ). k + total rest) (same s))
      λ _. ap (λ (k : ℕ). owed_or_sent s + k) (total-on_service name f rest same)

total-poll :
    (v : RpcEnv) (services : Services)
    → total (poll v services).0 ≡ total services + handed_over (poll v services).1
unfolding poll total handed_over
total-poll v [] = refl
total-poll v ((n, s) ∷ rest) = ground (arith, total-poll v rest, poll_balance v s)

stop_total : (services : Services) → total (stop_all_services services) ≡ total services
unfolding stop_all_services total owed_or_sent Server.clear_pending_requests
stop_total [] = refl
stop_total ((n, s) ∷ rest) = ground (arith, stop_total rest)

receive_total :
    (name : String) (pdu : PduData) (services : Services)
    → total (on_service name (λ s. Server.put_pending_request s pdu) services) ≡ total services
unfolding Server.put_pending_request owed_or_sent
receive_total name pdu services = total-on_service name _ services (λ s. refl)

pub data Call : Type 0 where
  receive : String → PduData → Call
  polled stopped : Call
  replied cancel_replied : RequestHeader → PduData → Call

unfoldable pub step : RpcEnv → Services → Call → Services × ℕ
unfolding poll send_reply send_cancel_reply stop_all_services handed_over
step v services (receive name pdu) =
    (on_service name (λ s. Server.put_pending_request s pdu) services, 0)
step v services polled = ((poll v services).0, handed_over (poll v services).1)
step v services stopped = (stop_all_services services, 0)
step v services (replied header pdu) = (send_reply services header pdu, 0)
step v services (cancel_replied header pdu) = (send_cancel_reply services header pdu, 0)

-- The services after the calls, and the requests handed to the application by them.
unfoldable pub run : RpcEnv → Services → List Call → Services × ℕ
unfolding step
run v services [] = (services, 0)
run v services (c ∷ rest) =
    let (after, handed) = step v services c in
    let (last, more) = run v after rest in (last, handed + more)

total-step :
    (v : RpcEnv) (services : Services) (c : Call)
    → total (step v services c).0 ≡ total services + (step v services c).1
unfolding step send_reply send_cancel_reply
total-step v services (receive name pdu) = ground (arith, receive_total name pdu services)
total-step v services polled = total-poll v services
total-step v services stopped = ground (arith, stop_total services)
total-step v services (replied header pdu) = ground (
  arith,
  total-on_service header.service_name (λ s. Server.send_reply s header.client_name pdu) services
      λ s. send_reply_balance s header.client_name pdu,
)
total-step v services (cancel_replied header pdu) = ground (
  arith,
  total-on_service header.service_name (λ s. Server.send_cancel_reply s header.client_name pdu)
      services λ s. send_cancel_reply_balance s header.client_name pdu,
)

total-run :
    (v : RpcEnv) (services : Services) (calls : List Call)
    → total (run v services calls).0 ≡ total services + (run v services calls).1
unfolding run
total-run v services [] = ground arith
total-run v services (c ∷ rest) =
    ground (arith, total-step v services c, total-run v (step v services c).0 rest)

-- From any state of a server with several services, over any sequence of received packets, polls,
-- stops and replies: the sends of replies and the busy Clients together grow by exactly the number of
-- requests that the server hands to the application, whichever service a call names.
pub services_replies_are_paid :
    (v : RpcEnv) (services : Services) (calls : List Call)
    → replies_sent (run v services calls).0 + busy_clients (run v services calls).0
      ≡ replies_sent services + busy_clients services + (run v services calls).1
services_replies_are_paid v services calls =
    ground
      (arith, total-sum services, total-sum (run v services calls).0, total-run v services calls)
