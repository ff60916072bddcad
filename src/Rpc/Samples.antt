-- ===== src/Rpc/Samples.antt =====
-- A concrete RPC service with one Client, for the tests.
use hakoniwa_pdu_rpc.Base.{ℕ, true, false, [], ◌∷◌}
use hakoniwa_pdu_rpc.Rpc.Types.{PduData, pos, RequestHeader, RpcEnv}
use hakoniwa_pdu_rpc.Rpc.ServerEndpoint as Server
use hakoniwa_pdu_rpc.Rpc.ClientEndpoint as Client
use hakoniwa_pdu_rpc.Rpc.Exchange.{reply_header}

abbrev pub sample_request : ℕ → RequestHeader
sample_request opcode = record {
  request_id = 1;
  service_name = "Service/Add";
  client_name = "Client01";
  opcode = opcode;
  status_poll_interval_msec = 0;
}

-- A request packet is its opcode; a response packet is empty.
abbrev pub request_of : PduData → RequestHeader
request_of [] = sample_request 0
request_of (opcode ∷ _) = sample_request opcode

abbrev pub sample_env : RpcEnv
sample_env = record {
  has_pdu_definition = true;
  get_pdu_size = λ _ _. 1;
  pdu2cpp_request = request_of;
  pdu2cpp_response = λ _. reply_header (sample_request 0) 3 (pos 0);
  cpp2pdu_request = λ h _. h.opcode ∷ [];
  cpp2pdu_response = λ h _. h.status ∷ [];
  send_ok = λ _ _. true;
}

abbrev pub status_of : Server.ServerState → Server.ServerProcessingStatus
status_of state = record { request_id = 1; state = state }

abbrev pub sample_server : Server.ServerState → Server.Endpoint
sample_server state = record {
  service_name = "Service/Add";
  server_states = ("Client01", status_of state) ∷ [];
  registered_clients = "Client01" ∷ [];
  pending_requests = [];
  max_clients = 1;
  dynamic_client = false;
  dynamic_request_channel_id = 0;
  dynamic_response_channel_id = 0;
  dynamic_request_pdu_size = 0;
  dynamic_response_pdu_size = 0;
  pdu_definitions = [];
  sends = [];
}

abbrev pub sample_client : Client.ClientState → Client.Endpoint
sample_client state = record {
  service_name = "Service/Add";
  client_name = "Client01";
  client_state = record { request_id = 1; state = state };
  pending_responses = [];
  current_timeout_usec = 10;
  request_start_time_usec = 100;
  current_request_id = 0;
  pdu_definitions = [];
  sends = [];
}
