-- ===== src/Action/MuxTests.antt =====
-- A concrete Action mux server, at which the theorems about src/action_services_mux_server.cpp apply.
use hakoniwa_pdu_rpc.Base.{ℕ, ◌≡◌, refl, true, some, List, [], ◌∷◌, string_equality, bytes_equality}
use hakoniwa_pdu_rpc.Base.Map.{lookup, insert}
use hakoniwa_pdu_rpc.Action.Types.{goal_request, is_valid_goal_id}
use hakoniwa_pdu_rpc.Action.Packet.{
  PacketEnv, validate_packet_capacity, decode_request_header, has_valid_packet_prefix,
  supported_packet_capacity, aligned_size,
}
use hakoniwa_pdu_rpc.Action.Samples.{sample_env, sample_goal}
use hakoniwa_pdu_rpc.Action.Tests.{sample_services, sample_coupled}
use hakoniwa_pdu_rpc.Action.ServerEndpoint.{
  owner_at, new_binding, store_binding, validate_request_header,
}
use hakoniwa_pdu_rpc.Action.ServerEndpoint.Operations
use hakoniwa_pdu_rpc.Action.ServicesServer.Services
use hakoniwa_pdu_rpc.Action.ServicesServer.Server
use hakoniwa_pdu_rpc.Action.MuxServer.{
  Mux, find_owner, accept_new_connections, accept_connection, connected_slot_count,
  process_disconnected, process_slots, discard_pending, close_connection, update_server,
}
use hakoniwa_pdu_rpc.Action.MuxServer.Operations.{claim_goal, poll_slots, finish_poll, poll}
use hakoniwa_pdu_rpc.Action.MuxServer.Owners.{Distinct}
use hakoniwa_pdu_rpc.Action.MuxServer.Connections.{IsSound}
use hakoniwa_pdu_rpc.Action.MuxServer.Polling.{HandsOver}
use hakoniwa_pdu_rpc.Action.MuxServer.Sessions.{
  Event, polls, accepts_goal, receives, loses, run, step, mux_run-IsSound, request-owned,
}

abbrev mux_env : ℕ → PacketEnv
mux_env connection_id = sample_env

abbrev mux : Mux
mux = record { opened = true; slots = []; owners = []; next_connection_id = 1; started = true }

mux-IsSound : IsSound mux
mux-IsSound = record { distinct = tt; coupled = tt }

-- Two connections ask for the same Goal; the application accepts the first, whose connection is lost.
abbrev mux_events : List ((ℕ → PacketEnv) × Event)
mux_events =
    (mux_env, polls 2 (some (some sample_services) ∷ some (some sample_services) ∷ []))
    ∷ (mux_env, receives 1 "fibonacci" 0 (1 ∷ sample_goal))
    ∷ (mux_env, receives 2 "fibonacci" 0 (1 ∷ sample_goal))
    ∷ (mux_env, polls 2 [])
    ∷ (mux_env, accepts_goal "fibonacci" sample_goal)
    ∷ (mux_env, loses 1)
    ∷ []

mux_run-IsSound_example : IsSound (run mux mux_events)
mux_run-IsSound_example =
    mux_run-IsSound mux mux_events mux-IsSound
      ((sample_coupled, (sample_coupled, tt)), (tt, (tt, (tt, (tt, (tt, tt))))))

-- The first poll accepts a connection, the second finds its request.
abbrev asking_events : List ((ℕ → PacketEnv) × Event)
asking_events =
    (mux_env, polls 2 (some (some sample_services) ∷ []))
    ∷ (mux_env, receives 1 "fibonacci" 0 (1 ∷ sample_goal))
    ∷ []

asks : (poll mux_env 2 [] (run mux asking_events)).2.type ≡ goal_request
unfolding run step poll accept_new_connections accept_connection connected_slot_count
    process_disconnected process_slots discard_pending close_connection update_server poll_slots
    claim_goal finish_poll find_owner Services.poll Services.poll_runtime Services.poll_actions
    Services.poll_action Services.route_event Server.step Server.receive_at Operations.receive
    Operations.poll Operations.poll_queue Operations.poll_packet Operations.poll_request
    Operations.poll_goal Operations.decode_request lookup insert owner_at new_binding store_binding
    validate_packet_capacity decode_request_header has_valid_packet_prefix supported_packet_capacity
    aligned_size is_valid_goal_id validate_request_header
asks = refl

request-owned_example :
    Distinct (poll mux_env 2 [] (run mux asking_events)).0.owners
    × HandsOver mux_env
        (poll mux_env 2 [] (run mux asking_events)).0.slots
        (poll mux_env 2 [] (run mux asking_events)).0.owners
        (poll mux_env 2 [] (run mux asking_events)).1
        (poll mux_env 2 [] (run mux asking_events)).2
request-owned_example =
    request-owned mux asking_events mux_env 2 [] mux-IsSound ((sample_coupled, tt), (tt, tt)) tt
      asks
