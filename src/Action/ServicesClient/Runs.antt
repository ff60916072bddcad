-- ===== src/Action/ServicesClient/Runs.antt =====
-- All the Actions of a client: the methods of src/action_services_client.cpp in any order, with
-- packets that arrive between them.
use hakoniwa_pdu_rpc.Base.{
  ℕ, ◌≡◌, ◌≢◌, refl, Bool, not, ◌||◌, List, [], ◌∷◌, String, arith, is_empty, if_split,
  string_equality, ◌==◌,
}
use hakoniwa_pdu_rpc.Base.Map.{lookup}
use hakoniwa_pdu_rpc.Action.Types.{
  GoalId, PduData, ClientEvent, ClientEventType, GoalSendResult, is_valid_goal_id,
}
use hakoniwa_pdu_rpc.Action.Packet.{PacketEnv}
use hakoniwa_pdu_rpc.Action.ClientEndpoint.{PendingPacketKind}
use hakoniwa_pdu_rpc.Action.ClientEndpoint.Operations
use hakoniwa_pdu_rpc.Action.ClientEndpoint.Operations.{receive, clear_pending_events}
use hakoniwa_pdu_rpc.Action.ClientEndpoint.Consistency.{reset_keeps}
use hakoniwa_pdu_rpc.Action.ServicesClient.{ActionInstance, poll_action}
use hakoniwa_pdu_rpc.Action.ServicesClient.Services.{
  on_action, send_goal_with_result, send_cancel, poll, stop_all_services, clear_all_instances,
  receive_at,
}
use hakoniwa_pdu_rpc.Action.ServicesClient.Coupling.{IsCoupled}
use hakoniwa_pdu_rpc.Action.ServicesClient.Events.{poll_action-Hands, poll-ne-error_event}
use hakoniwa_pdu_rpc.Action.ServicesClient.Calls.{
  submit_goal-IsCoupled, request_goal_cancel-IsCoupled,
}

-- Both layers of every Action agree.
abbrev pub AllCoupled : List ActionInstance → Type 0
AllCoupled [] = Unit {0}
AllCoupled (a ∷ rest) = IsCoupled a × AllCoupled rest

pub data Event : Type 0 where
  packet_received : String → ℕ → PendingPacketKind → PduData → Event
  polled : ℕ → Event
  goal_sent : ℕ → String → PduData → GoalId → ℕ → Event
  cancel_sent : String → GoalId → Event
  stopped cleared : Event

unfoldable pub step : PacketEnv → List ActionInstance → Event → List ActionInstance
step v s (packet_received name slot kind packet) = receive_at s name slot kind packet
step v s (polled now) = (poll v now s).0
step v s (goal_sent now name pdu goal timeout_usec) =
    (send_goal_with_result v now s name pdu goal timeout_usec).0
step v s (cancel_sent name goal) = (send_cancel v s name goal).0
step v s stopped = stop_all_services s
step v s cleared = clear_all_instances s

unfoldable pub run : List ActionInstance → List (PacketEnv × Event) → List ActionInstance
unfolding step
run s [] = s
run s ((v, e) ∷ rest) = run (step v s e) rest

abbrev KeepsAll {ℓ} : {R : Type ℓ} → List ActionInstance × R → Type 0
KeepsAll r = AllCoupled r.0

on_action-AllCoupled :
    {R : Type 0} (name : String) (f : ActionInstance → ActionInstance × R) (missing : R)
    (actions : List ActionInstance)
    → ((a : ActionInstance) → IsCoupled a → IsCoupled (f a).0)
    → AllCoupled actions
    → AllCoupled (on_action name f missing actions).0
unfolding on_action
on_action-AllCoupled name f missing [] h k = tt
on_action-AllCoupled name f missing (a ∷ rest) h k =
    if_split KeepsAll (a.action_name == name) _ _ (λ _. (h a k.0, k.1))
      λ _. (k.0, on_action-AllCoupled name f missing rest h k.1)

receive_at-AllCoupled :
    (actions : List ActionInstance) (name : String) (slot : ℕ) (kind : PendingPacketKind)
    (packet : PduData)
    → AllCoupled actions
    → AllCoupled (receive_at actions name slot kind packet)
unfolding receive_at receive
receive_at-AllCoupled [] name slot kind packet k = tt
receive_at-AllCoupled (a ∷ rest) name slot kind packet k =
    if_split AllCoupled (a.action_name == name) _ _
      (λ _. (record { consistent = k.0.consistent; layers = k.0.layers }, k.1))
      λ _. (k.0, receive_at-AllCoupled rest name slot kind packet k.1)

stopped-AllCoupled :
    (actions : List ActionInstance) → AllCoupled actions → AllCoupled (stop_all_services actions)
unfolding stop_all_services clear_pending_events
stopped-AllCoupled [] k = tt
stopped-AllCoupled (a ∷ rest) k =
    (record { consistent = k.0.consistent; layers = k.0.layers }, stopped-AllCoupled rest k.1)

cleared-AllCoupled :
    (actions : List ActionInstance) → AllCoupled actions → AllCoupled (clear_all_instances actions)
unfolding clear_all_instances Operations.reset_contexts lookup
cleared-AllCoupled [] k = tt
cleared-AllCoupled (a ∷ rest) k = (
  record {
    consistent = reset_keeps a.endpoint k.0.consistent;
    layers = record {
      unique = tt;
      known = λ g c e. absurd (ground (arith, e));
      awaited = λ g b e. absurd (ground (arith, e));
    };
  },
  cleared-AllCoupled rest k.1,
)

abbrev KeepsPolled : List ActionInstance × String × ClientEvent → Type 0
KeepsPolled r = AllCoupled r.0

none_split {ℓ κ} :
    {A : Type ℓ} (P : A → Type κ) (e : ClientEventType) (x y : A)
    → (e ≡ ClientEventType.none → P x)
    → (e ≢ ClientEventType.none → P y)
    → P (elim e [ ClientEventType.none ↦ x | _ ↦ y ])
none_split P ClientEventType.none x y p q = p refl
none_split P ClientEventType.goal_response x y p q = q (λ is. cc)
none_split P ClientEventType.feedback x y p q = q (λ is. cc)
none_split P ClientEventType.cancel_response x y p q = q (λ is. cc)
none_split P ClientEventType.result x y p q = q (λ is. cc)
none_split P ClientEventType.timeout x y p q = q (λ is. cc)
none_split P ClientEventType.error x y p q = q (λ is. cc)

poll-AllCoupled :
    (v : PacketEnv) (now : ℕ) (actions : List ActionInstance)
    → AllCoupled actions
    → AllCoupled (poll v now actions).0
unfolding poll
poll-AllCoupled v now [] k = tt
poll-AllCoupled v now (a ∷ rest) k =
    let h = (poll_action-Hands v now a k.0).0 in
    none_split KeepsPolled (poll_action v now a).1.type _ _
      (λ _. (h, poll-AllCoupled v now rest k.1)) (λ _. (h, k.1))

abbrev KeepsGoal : List ActionInstance × (GoalSendResult × GoalId) → Type 0
KeepsGoal r = AllCoupled r.0

abbrev KeepsCancel : List ActionInstance × Bool → Type 0
KeepsCancel r = AllCoupled r.0

step-AllCoupled :
    (v : PacketEnv) (s : List ActionInstance) (e : Event) → AllCoupled s → AllCoupled (step v s e)
unfolding step send_goal_with_result send_cancel
step-AllCoupled v s (packet_received name slot kind packet) k =
    receive_at-AllCoupled s name slot kind packet k
step-AllCoupled v s (polled now) k = poll-AllCoupled v now s k
step-AllCoupled v s (goal_sent now name pdu goal timeout) k =
    if_split KeepsGoal (name == "" || is_empty pdu || not (is_valid_goal_id goal)) _ _ (λ _. k)
      λ _. on_action-AllCoupled name _ _ s (λ a. submit_goal-IsCoupled v now a goal pdu timeout) k
step-AllCoupled v s (cancel_sent name goal) k =
    if_split KeepsCancel (name == "" || not (is_valid_goal_id goal)) _ _ (λ _. k)
      λ _. on_action-AllCoupled name _ _ s (λ a. request_goal_cancel-IsCoupled v a goal) k
step-AllCoupled v s stopped k = stopped-AllCoupled s k
step-AllCoupled v s cleared k = cleared-AllCoupled s k

-- From a client whose two layers agree on every Goal, any sequence of received packets, polls, Goal
-- and Cancel Requests, stops and clears, with sends that succeed or fail as each environment says,
-- leads to a client whose layers agree.
pub client-AllCoupled :
    (s : List ActionInstance) (events : List (PacketEnv × Event))
    → AllCoupled s
    → AllCoupled (run s events)
unfolding run
client-AllCoupled s [] k = k
client-AllCoupled s ((v, e) ∷ rest) k =
    client-AllCoupled (step v s e) rest (step-AllCoupled v s e k)

abbrev NoErrors : List ActionInstance × String × ClientEvent → Type 0
NoErrors r = r.2.type ≢ ClientEventType.error

poll_ne_error :
    (v : PacketEnv) (now : ℕ) (actions : List ActionInstance)
    → AllCoupled actions
    → NoErrors (poll v now actions)
unfolding poll
poll_ne_error v now [] k = λ is. cc
poll_ne_error v now (a ∷ rest) k =
    none_split NoErrors (poll_action v now a).1.type _ _ (λ _. poll_ne_error v now rest k.1)
      λ _. poll-ne-error_event v now a k.0

-- From a client whose layers agree, after any sequence of calls, `poll` reports no ERROR event,
-- whatever packets the transport delivered.
pub client_poll-ne-error :
    (s : List ActionInstance) (events : List (PacketEnv × Event)) (v : PacketEnv) (now : ℕ)
    → AllCoupled s
    → (poll v now (run s events)).2.type ≢ ClientEventType.error
client_poll-ne-error s events v now k =
    poll_ne_error v now (run s events) (client-AllCoupled s events k)
