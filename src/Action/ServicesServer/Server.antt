-- ===== src/Action/ServicesServer/Server.antt =====
-- An Action server in use: every order of received packets, polls, calls of the application and
-- notices of the transport (src/action_services_server.cpp).
use hakoniwa_pdu_rpc.Base.{
  ℕ, ◌≡◌, ◌≢◌, refl, List, [], ◌∷◌, String, arith, map, string_equality, ◌==◌, if◌then◌else◌,
  if_split, subst, sym,
}
use hakoniwa_pdu_rpc.Base.Map.{lookup}
use hakoniwa_pdu_rpc.Action.Types.{GoalId, PduData, ServerEventType}
use hakoniwa_pdu_rpc.Action.Packet.{PacketEnv}
use hakoniwa_pdu_rpc.Action.ServerEndpoint.Operations.{receive}
use hakoniwa_pdu_rpc.Action.ServerEndpoint.Results
use hakoniwa_pdu_rpc.Action.ServicesServer.{ActionInstance, with_endpoint}
use hakoniwa_pdu_rpc.Action.ServicesServer.Services.{
  ActionServices, call, Request, perform, poll_runtime, poll, notify_transport_disconnected,
  poll_actions, stop_all_services, clear_all_instances, clear_action,
}
use hakoniwa_pdu_rpc.Action.ServicesServer.Layers.{
  AllCoupled, call-AllCoupled, poll-AllCoupled, poll_actions-ne-error,
}

pub data Event : Type 0 where
  packet_received : String → ℕ → PduData → Event
  polled disconnected stopped cleared : Event
  requested : String → GoalId → Request → Event

-- The receive callback of the Action's endpoint for one of its slots.
unfoldable pub receive_at : List ActionInstance → String → ℕ → PduData → List ActionInstance
unfolding receive
receive_at [] name slot packet = []
receive_at (a ∷ rest) name slot packet =
    let rest' = receive_at rest name slot packet in
    if a.action_name == name
    then with_endpoint a (receive a.endpoint slot packet) ∷ rest
    else a ∷ rest'

unfoldable pub step : PacketEnv → ActionServices → Event → ActionServices
unfolding receive_at
step v s (packet_received name slot packet) = record s {
  actions = receive_at s.actions name slot packet;
}
step v s polled = (poll v s).0
step v s disconnected = notify_transport_disconnected s
step v s stopped = stop_all_services s
step v s cleared = clear_all_instances s
step v s (requested name g r) = (call s name g (perform v g r)).0

unfoldable pub run : ActionServices → List (PacketEnv × Event) → ActionServices
unfolding step
run s [] = s
run s ((v, e) ∷ rest) = run (step v s e) rest

receive_at-AllCoupled :
    (actions : List ActionInstance) (name : String) (slot : ℕ) (packet : PduData)
    → AllCoupled actions
    → AllCoupled (receive_at actions name slot packet)
unfolding receive_at receive
receive_at-AllCoupled [] name slot packet k = tt
receive_at-AllCoupled (a ∷ rest) name slot packet k =
    if_split AllCoupled (a.action_name == name) _ _ (λ _. k)
      λ _. (k.0, receive_at-AllCoupled rest name slot packet k.1)

stopped_coupled :
    (actions : List ActionInstance)
    → AllCoupled actions
    → AllCoupled (map (λ a. with_endpoint a (Results.clear_pending_events a.endpoint)) actions)
unfolding Results.clear_pending_events
stopped_coupled [] k = tt
stopped_coupled (a ∷ rest) k = (
  record { no_events = refl; unique = k.0.unique; known = k.0.known; awaited = k.0.awaited },
  stopped_coupled rest k.1,
)

cleared_coupled : (actions : List ActionInstance) → AllCoupled (map clear_action actions)
unfolding Results.reset_contexts lookup
cleared_coupled [] = tt
cleared_coupled (a ∷ rest) = (
  record {
    no_events = refl;
    unique = tt;
    known = λ g c e. absurd (ground (arith, e));
    awaited = λ g b e. absurd (ground (arith, e));
  },
  cleared_coupled rest,
)

pub step-AllCoupled :
    (v : PacketEnv) (s : ActionServices) (e : Event)
    → AllCoupled s.actions
    → AllCoupled (step v s e).actions
unfolding step notify_transport_disconnected stop_all_services clear_all_instances
step-AllCoupled v s (packet_received name slot packet) k =
    receive_at-AllCoupled s.actions name slot packet k
step-AllCoupled v s polled k = poll-AllCoupled v s k
step-AllCoupled v s disconnected k = k
step-AllCoupled v s stopped k = stopped_coupled s.actions k
step-AllCoupled v s cleared k = cleared_coupled s.actions
step-AllCoupled v s (requested name g r) k = call-AllCoupled v s name g r k

-- From a server whose two layers agree on every Goal, any sequence of received packets, polls,
-- calls, disconnections, stops and clears, with sends that succeed or fail as each environment says,
-- leads to a server whose layers agree.
pub run-AllCoupled :
    (s : ActionServices) (events : List (PacketEnv × Event))
    → AllCoupled s.actions
    → AllCoupled (run s events).actions
unfolding run
run-AllCoupled s [] k = k
run-AllCoupled s ((v, e) ∷ rest) k = run-AllCoupled (step v s e) rest (step-AllCoupled v s e k)

quiet_poll :
    (v : PacketEnv) (s : ActionServices)
    → s.pending_runtime_events ≡ []
    → (poll v s).2.type ≡ (poll_actions v s.actions).2.type
unfolding poll poll_runtime
quiet_poll v s quiet = ground (arith, quiet)

-- From a server whose layers agree, after any sequence of calls that leaves no Runtime event
-- waiting, `poll` does not report an ERROR event, whatever packets are pending.
pub poll-ne-error :
    (s : ActionServices) (events : List (PacketEnv × Event)) (v : PacketEnv)
    → AllCoupled s.actions
    → (run s events).pending_runtime_events ≡ []
    → (poll v (run s events)).2.type ≢ ServerEventType.error
poll-ne-error s events v k quiet =
    subst (λ (x : ServerEventType). x ≢ ServerEventType.error)
      (sym (quiet_poll v (run s events) quiet))
      (poll_actions-ne-error v (run s events).actions (run-AllCoupled s events k))
