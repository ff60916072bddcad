-- ===== src/Rpc/MuxTests.antt =====
-- Concrete servers with several services and connections, at which the theorems about
-- src/rpc_services_server.cpp, src/rpc_services_client.cpp and src/rpc_services_mux_server.cpp
-- apply.
use hakoniwa_pdu_rpc.Base.{◌+◌, ◌≡◌, true, false, some, none, List, [], ◌∷◌, arith}
use hakoniwa_pdu_rpc.Rpc.ServerEndpoint as Server
use hakoniwa_pdu_rpc.Rpc.Services.{Services}
use hakoniwa_pdu_rpc.Rpc.Services
use hakoniwa_pdu_rpc.Rpc.Services.Balance as Balance
use hakoniwa_pdu_rpc.Rpc.Services.Balance.{replies_sent, busy_clients, services_replies_are_paid}
use hakoniwa_pdu_rpc.Rpc.MuxServer.{Mux, poll}
use hakoniwa_pdu_rpc.Rpc.MuxServer.Connections.{IsNumbered}
use hakoniwa_pdu_rpc.Rpc.MuxServer.Sessions.{
  Call, polled, lost, run, all_arrivals, arrivals_of, run-IsNumbered,
}
use hakoniwa_pdu_rpc.Rpc.ClientEndpoint as Client
use hakoniwa_pdu_rpc.Rpc.ClientServices as ClientServices
use hakoniwa_pdu_rpc.Rpc.ClientServices.{Clients}
use hakoniwa_pdu_rpc.Rpc.ClientServices.Polling.{PolledAll, poll-PolledAll}
use hakoniwa_pdu_rpc.Rpc.Samples.{sample_env, sample_server, sample_request, sample_client}

abbrev sample_services : Services
sample_services =
    ("Service/Add", sample_server Server.idle) ∷ ("Service/Sub", sample_server Server.idle) ∷ []

abbrev sample_calls : List Balance.Call
sample_calls =
    Balance.receive "Service/Add" (0 ∷ [])
    ∷ Balance.polled
    ∷ Balance.replied (sample_request 0) (3 ∷ [])
    ∷ []

services_replies_are_paid_example :
    replies_sent (Balance.run sample_env sample_services sample_calls).0
      + busy_clients (Balance.run sample_env sample_services sample_calls).0
    ≡ replies_sent sample_services
      + busy_clients sample_services
      + (Balance.run sample_env sample_services sample_calls).1
services_replies_are_paid_example =
    services_replies_are_paid sample_env sample_services sample_calls

abbrev sample_mux : Mux
sample_mux = record { opened = true; slots = []; next_connection_id = 1; started = true }

sample_mux-IsNumbered : IsNumbered 1 sample_mux
sample_mux-IsNumbered = record { ascending = omega arith; fits = omega arith }

-- Two connections arrive for one place; the first is lost, and a third takes its place.
abbrev mux_calls : List Call
mux_calls =
    polled (some (some sample_services) ∷ some (some sample_services) ∷ [])
    ∷ lost 1
    ∷ polled (some none ∷ none ∷ some (some sample_services) ∷ [])
    ∷ []

run-IsNumbered_example : IsNumbered 1 (run sample_env 1 sample_mux mux_calls)
unfolding all_arrivals arrivals_of
run-IsNumbered_example =
    run-IsNumbered sample_env 1 sample_mux mux_calls (omega arith) sample_mux-IsNumbered

abbrev waiting_mux : Mux
waiting_mux = record sample_mux {
  next_connection_id = 6;
  slots =
      record {
        connection_id = 5;
        server =
            ("Service/Add", record (sample_server Server.idle) { pending_requests = (0 ∷ []) ∷ [] })
            ∷ [];
        disconnected = false;
      }
      ∷ [];
}

-- The first service has no response; the second one has the answer.
abbrev sample_clients : Clients
sample_clients =
    ("Service/Add", sample_client Client.running)
    ∷ ("Service/Sub", record (sample_client Client.running) { pending_responses = [] ∷ [] })
    ∷ []

poll-PolledAll_example :
    PolledAll sample_env 105 sample_clients
      (ClientServices.poll sample_env sample_clients 105).0
      (ClientServices.poll sample_env sample_clients 105).1
      (ClientServices.poll sample_env sample_clients 105).2
      (ClientServices.poll sample_env sample_clients 105).3
poll-PolledAll_example = poll-PolledAll sample_env sample_clients 105
