-- ===== src/Action/MuxServer/Buffers.antt =====
-- `create_feedback_buffer` and `create_result_buffer` of `ActionServicesMuxServer::Impl`
-- (src/action_services_mux_server.cpp): the buffers are made by the server of any connection, with
-- its environment. Every slot of the model has a server.
use hakoniwa_pdu_rpc.Base.{ℕ, Option, none, some, List, [], ◌∷◌, String}
use hakoniwa_pdu_rpc.Action.Types.{PduData}
use hakoniwa_pdu_rpc.Action.Packet.{PacketEnv}
use hakoniwa_pdu_rpc.Action.ServicesServer.Buffers
use hakoniwa_pdu_rpc.Action.MuxServer.{ConnectionSlot, Mux}

unfoldable pub find_any_server : List ConnectionSlot → Option ConnectionSlot
find_any_server [] = none
find_any_server (slot ∷ rest) = some slot

unfoldable pub create_feedback_buffer : (ℕ → PacketEnv) → Mux → String → Option PduData
unfolding find_any_server
create_feedback_buffer v m name = elim (find_any_server m.slots) [
  | none ↦ none
  | some slot ↦ Buffers.create_feedback_buffer (v slot.connection_id) slot.server name
]

unfoldable pub create_result_buffer : (ℕ → PacketEnv) → Mux → String → Option PduData
unfolding find_any_server
create_result_buffer v m name = elim (find_any_server m.slots) [
  | none ↦ none
  | some slot ↦ Buffers.create_result_buffer (v slot.connection_id) slot.server name
]
