-- ===== src/Rpc/ClientServices.antt =====
-- src/rpc_services_client.cpp: the Client endpoints of all services, by service name in the order of
-- the map. The time that `poll` is given stands for the reading of the time source in each endpoint.
pub mod Polling
use hakoniwa_pdu_rpc.Base.{
  ℕ, Bool, true, false, Option, none, some, List, [], ◌∷◌, String, string_equality, ◌==◌, eqb, map,
  if◌then◌else◌,
}
use hakoniwa_pdu_rpc.Rpc.Types.{
  PduData, RpcResponse, ClientEventType, operation_code_request, operation_code_cancel, RpcEnv,
}
use hakoniwa_pdu_rpc.Rpc.ClientEndpoint.{Endpoint}
use hakoniwa_pdu_rpc.Rpc.ClientEndpoint as Client

abbrev pub Clients : Type 0
Clients = List (String × Endpoint)

-- `rpc_endpoints_.find(service_name)` and a call on what it finds; without one, `missing`.
unfoldable pub on_client {ℓ} :
    {A : Type ℓ} → String → (Endpoint → Endpoint × A) → A → Clients → Clients × A
on_client service_name f missing [] = ([], missing)
on_client service_name f missing ((name, s) ∷ rest) =
    let (rest', result) = on_client service_name f missing rest in
    if name == service_name then ((name, (f s).0) ∷ rest, (f s).1) else ((name, s) ∷ rest', result)

unfoldable pub call : RpcEnv → Clients → String → PduData → ℕ → ℕ → Clients × Bool
unfolding on_client
call v clients service_name pdu timeout_usec now =
    on_client service_name (λ s. Client.call v s pdu timeout_usec now) false clients

unfoldable pub send_cancel_request : RpcEnv → Clients → String → Clients × Bool
unfolding on_client
send_cancel_request v clients service_name =
    on_client service_name (λ s. Client.send_cancel_request v s) false clients

some_buffer : Endpoint × PduData → Endpoint × Option PduData
some_buffer (s, pdu) = (s, some pdu)

-- Both overloads: the first one is for the opcode of a request. `none` where it returns false.
unfoldable pub create_request_buffer : RpcEnv → Clients → String → ℕ → Clients × Option PduData
unfolding on_client some_buffer
create_request_buffer v clients service_name opcode =
    on_client service_name
      (λ s.
        some_buffer (Client.create_request_buffer v s opcode (eqb opcode operation_code_cancel)))
      none clients

-- The first service with an event, its name and its response.
unfoldable pub poll : RpcEnv → Clients → ℕ → Clients × ClientEventType × String × Option RpcResponse
poll v [] now = ([], ClientEventType.none, "", none)
poll v ((name, s) ∷ rest) now =
    let (rest', later, later_name, later_response) = poll v rest now in
    let (t, event, response) = Client.poll v s now in
    elim event [
      | ClientEventType.none ↦ ((name, t) ∷ rest', later, later_name, later_response)
      | found ↦ ((name, t) ∷ rest, found, name, response)
    ]

abbrev clear_client : String × Endpoint → String × Endpoint
clear_client (name, s) = (name, Client.clear_pending_responses s)

unfoldable pub stop_all_services : Clients → Clients
stop_all_services clients = map clear_client clients
