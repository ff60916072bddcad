-- ===== src/Lib.antt =====
-- hakoniwa-pdu-rpc gives applications two ways to work together over PDU channels. An RPC is one
-- request and one reply of a named service; an Action is a Goal that runs for a while, sends
-- feedback, may be cancelled, and ends with one Result. Each half has a Client and a Server side; a
-- side is an endpoint that turns packets into events, and a services class that holds the endpoints
-- by name. The Action half puts two state machines on top of the packets, one for each side.
--
-- Base: shared names, Boolean tests, lists measured by native numbers, and std::map as an
-- association list (Base.Map).
--
-- Action:
--   Action.Types          include/hakoniwa/pdu/action/action_types.hpp
--   Action.ClientMachine  src/action_client_state_machine.cpp: transition_client_goal. Steps
--                         compares one transition with the protocol diagram, Runs has sequences of
--                         events.
--   Action.ServerMachine  src/action_server_state_machine.cpp: transition_server_goal, with Steps
--                         and Effects likewise.
--   Action.Configuration  src/action_configuration.cpp: the definition of an Action, read from
--                         JSON; Channels is about the numbers of its channels.
--   Action.Packet         src/action_server_endpoint_impl.cpp, the size and layout checks.
--   Action.ServerEndpoint the same file: slots, bindings and the messages sent. Initialization
--                         turns a definition into slots, and Readiness is about them; Operations
--                         has poll and the decisions, Results has feedback, completion and
--                         clearing; Frames and Outcomes say what calls may change, Requests and
--                         Answers what poll may yield, Commitment and Endings how a Goal is
--                         completed, and Consistency relates bindings to slot owners, over all
--                         calls in Reach.
--   Action.ServicesServer src/action_services_server.cpp: one ActionInstance; Services has the
--                         loops over all of them, Buffers makes packets for the application.
--                         Coupling says how the context of a Goal goes with its binding; Agreement,
--                         Events, Layers and Server follow that through each call and through any
--                         use of the server; Completion is about the end of a Goal.
--   Action.Slots          the tables of slot owners and bindings that both endpoints keep.
--   Action.ClientPacket   src/action_client_endpoint_impl.cpp, its size and layout checks.
--   Action.ClientEndpoint the same file. Initialization turns a definition into slots, and Routing
--                         compares them with the server's. Operations has the calls that send
--                         requests, by critical sections, Polling has poll; Overdue is about the
--                         scan for timeouts; Answers and Turns say which packets poll takes,
--                         Outcomes says what poll may report, Messages and Submission how a request
--                         is sent or given up; Consistency, Histories, Quarantine and Timeouts
--                         follow the tables through every interleaving of critical sections.
--   Action.Layers         contexts beside bindings, for any two types of them.
--   Action.ServicesClient src/action_services_client.cpp: one ActionInstance; Services has the
--                         loops over all of them. Coupling says how the context of a Goal goes with
--                         its binding; Handlers, Events, Calls and Runs follow that through any
--                         use.
--   Action.MuxServer      src/action_services_mux_server.cpp: a server for each connection.
--                         Operations has poll and the calls; Owners is about the owners of Goals,
--                         Connections about new and lost connections, Polling about Goal Requests,
--                         Sessions about any use of the server.
--   Action.ClientTests, Action.MuxTests, Action.Samples, Action.Tests, Action.GoalTests,
--   Action.SetupTests, Action.ServerEndpoint.Tests: concrete cases.
--
-- Rpc:
--   Rpc.Types             include/hakoniwa/pdu/rpc/rpc_types.hpp
--   Rpc.ServerEndpoint    src/rpc_server_endpoint_impl.cpp and its header. Replies and Turns count
--                         replies against requests, Requests follows one Client.
--   Rpc.ClientEndpoint    src/rpc_client_endpoint_impl.cpp and its header. Delivery is about what
--                         poll hands over, Deadline about time limits, cancels and failing calls.
--   Rpc.Exchange          both endpoints together, for one call.
--   Rpc.Services          src/rpc_services_server.cpp: the endpoints of all services; Balance
--                         counts over all of them.
--   Rpc.ClientServices    src/rpc_services_client.cpp: the Client endpoints of all services;
--                         Polling says which one an event comes from.
--   Rpc.MuxServer         src/rpc_services_mux_server.cpp: one such server for each connection,
--                         with its number; Connections and Sessions are about the numbers.
--   Rpc.Samples, Rpc.Tests, Rpc.MuxTests: concrete cases.
--
-- A method that mutates its object is a function that returns the new record; sends are a list in
-- the record, newest first. The services classes and the RPC endpoints hold a mutex throughout a
-- method, so concurrent use is a sequence of calls; a received packet only joins the end of its
-- queue. The Action client endpoint lets its mutex go while it sends, so its calls are composed of
-- critical sections, which may interleave. What the code takes from hakoniwa-pdu-endpoint, the
-- generated converters and the transport is the parameter PacketEnv or RpcEnv, and nlohmann::json
-- is JsonEnv; where calls follow one another in the Action half, each has its own, so a send may
-- fail once and succeed later. Loops are structural recursion over the lists that they walk, so no
-- fuel is used. Unsigned arithmetic keeps its modulus: 2 ^ 32 for request numbers and feedback
-- sequences, 2 ^ 64 for times and sizes.
--
-- Not modelled: the initialization of the services classes and of the RPC endpoints, opening a
-- configuration file, the static instance lists with their receive callbacks, the C API and the
-- Python bindings, logging, and the names of errors.
pub mod Base
pub mod Action
pub mod Rpc
