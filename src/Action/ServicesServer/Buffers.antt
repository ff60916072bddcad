-- ===== src/Action/ServicesServer/Buffers.antt =====
-- `create_feedback_buffer` and `create_result_buffer` of `ActionServicesServer`
-- (src/action_services_server.cpp). No Action changes, so only the buffer is returned, `none` where
-- the code returns false.
use hakoniwa_pdu_rpc.Base.{
  Option, none, some, List, [], ◌∷◌, String, if◌then◌else◌, ◌==◌, string_equality,
}
use hakoniwa_pdu_rpc.Action.Types.{PduData}
use hakoniwa_pdu_rpc.Action.Packet.{PacketEnv}
use hakoniwa_pdu_rpc.Action.ServerEndpoint.Results
use hakoniwa_pdu_rpc.Action.ServicesServer.{ActionInstance}
use hakoniwa_pdu_rpc.Action.ServicesServer.Services.{ActionServices}

unfoldable pub get_action : String → List ActionInstance → Option ActionInstance
get_action name [] = none
get_action name (a ∷ rest) =
    let later = get_action name rest in if a.action_name == name then some a else later

unfoldable pub create_feedback_buffer : PacketEnv → ActionServices → String → Option PduData
unfolding get_action
create_feedback_buffer v s name = if name == "" then none else (elim (get_action name s.actions) [
  | none ↦ none
  | some a ↦ Results.create_feedback_buffer v a.endpoint
])

unfoldable pub create_result_buffer : PacketEnv → ActionServices → String → Option PduData
unfolding get_action
create_result_buffer v s name = if name == "" then none else (elim (get_action name s.actions) [
  | none ↦ none
  | some a ↦ Results.create_result_buffer v a.endpoint
])
