-- ===== src/Rpc/Services.antt =====
-- src/rpc_services_server.cpp and include/hakoniwa/pdu/rpc/rpc_services_server.hpp: the endpoints of
-- all services of a server, by service name in the order of the map.
pub mod Balance
use hakoniwa_pdu_rpc.Base.{
  ℕ, Bool, true, false, Option, none, some, List, [], ◌∷◌, String, string_equality, ◌==◌, map,
  if◌then◌else◌,
}
use hakoniwa_pdu_rpc.Base.Map.{lookup}
use hakoniwa_pdu_rpc.Rpc.Types.{
  PduData, ℤ, RequestHeader, RpcRequest, ServerEventType, request_in, request_cancel, RpcEnv,
}
use hakoniwa_pdu_rpc.Rpc.ServerEndpoint.{Endpoint}
use hakoniwa_pdu_rpc.Rpc.ServerEndpoint as Server

abbrev pub Services : Type 0
Services = List (String × Endpoint)

-- `rpc_endpoints_.find(service_name)` and a call on what it finds; without one, only a log.
unfoldable pub on_service : String → (Endpoint → Endpoint) → Services → Services
on_service service_name f [] = []
on_service service_name f ((name, s) ∷ rest) =
    let rest' = on_service service_name f rest in
    if name == service_name then (name, f s) ∷ rest else (name, s) ∷ rest'

-- `none` where the buffer is left as it is.
unfoldable pub create_reply_buffer : RpcEnv → Services → RequestHeader → ℕ → ℤ → Option PduData
unfolding lookup
create_reply_buffer v services header status result_code =
    elim (lookup header.service_name services) [
      | none ↦ none
      | some s ↦ some (Server.create_reply_buffer v s header status result_code)
    ]

unfoldable pub send_reply : Services → RequestHeader → PduData → Services
unfolding on_service
send_reply services header pdu =
    on_service header.service_name (λ s. Server.send_reply s header.client_name pdu) services

unfoldable pub send_cancel_reply : Services → RequestHeader → PduData → Services
unfolding on_service
send_cancel_reply services header pdu =
    on_service header.service_name (λ s. Server.send_cancel_reply s header.client_name pdu) services

-- The first service with an event. The request of a poll without an event is not read by callers.
unfoldable pub poll : RpcEnv → Services → Services × ServerEventType × Option RpcRequest
poll v [] = ([], ServerEventType.none, none)
poll v ((name, s) ∷ rest) =
    let (rest', later, later_request) = poll v rest in
    let (t, event, request) = Server.poll v s in
    elim event [
      | ServerEventType.none ↦ ((name, t) ∷ rest', later, later_request)
      | found ↦ ((name, t) ∷ rest, found, request)
    ]

abbrev clear_service : String × Endpoint → String × Endpoint
clear_service (name, s) = (name, Server.clear_pending_requests s)

unfoldable pub stop_all_services : Services → Services
stop_all_services services = map clear_service services
