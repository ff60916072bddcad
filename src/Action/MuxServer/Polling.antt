-- ===== src/Action/MuxServer/Polling.antt =====
-- Polling an Action mux server (src/action_services_mux_server.cpp): which connection a Goal Request
-- comes from, and what is refused.
use hakoniwa_pdu_rpc.Base.{
  ℕ, suc, get_elem?, ◌≡◌, ◌≢◌, refl, not, ◌||◌, none, some, List, [], ◌∷◌, ◌++◌, String, arith,
  string_equality, bytes_equality, if_split, Option-split,
}
use hakoniwa_pdu_rpc.Action.Types.{
  GoalId, ServerEvent, ServerEventType, goal_request, cancel_request, runtime_cancel_request, error,
}
use hakoniwa_pdu_rpc.Action.Packet.{PacketEnv}
use hakoniwa_pdu_rpc.Action.ServicesServer.Services.{
  ActionServices, Request, call, perform, stop_all_services, notify_transport_disconnected,
  clear_all_instances,
}
use hakoniwa_pdu_rpc.Action.ServicesServer.Services
use hakoniwa_pdu_rpc.Action.ServicesServer.Layers.{AllCoupled}
use hakoniwa_pdu_rpc.Action.ServicesServer.Server
use hakoniwa_pdu_rpc.Action.ServicesServer.Server.{step-AllCoupled}
use hakoniwa_pdu_rpc.Action.MuxServer.{
  GoalOwner, ConnectionSlot, Mux, Arrival, find_owner, accept_new_connections, process_disconnected,
}
use hakoniwa_pdu_rpc.Action.MuxServer.Operations.{
  new_owner, claim_goal, Claim, duplicate, claimed, poll_slots, finish_poll, poll,
}
use hakoniwa_pdu_rpc.Action.MuxServer.Owners.{Distinct, find_owner-append, append-Distinct}
use hakoniwa_pdu_rpc.Action.MuxServer.Connections.{
  AllServers, IsSound, AllArrive, accept_new_connections-IsSound, called-AllCoupled,
  process_disconnected-IsSound,
}

event_split {ℓ κ} :
    {A : Type ℓ} (P : A → Type κ) (e : ServerEventType) (x y z : A)
    → (e ≡ ServerEventType.none → P x)
    → (e ≡ goal_request → P y)
    → (e ≢ goal_request → P z)
    → P (elim e [
      | ServerEventType.none ↦ x
      | goal_request ↦ y
      | cancel_request ↦ z
      | runtime_cancel_request ↦ z
      | error ↦ z
    ])
event_split P ServerEventType.none x y z p q r = p refl
event_split P goal_request x y z p q r = q refl
event_split P cancel_request x y z p q r = r (λ is. cc)
event_split P runtime_cancel_request x y z p q r = r (λ is. cc)
event_split P error x y z p q r = r (λ is. cc)

abbrev Polled : Type 0
Polled = List ConnectionSlot × List GoalOwner × String × ServerEvent

-- A Goal Request has an owner: on the connection in one of `slots`, whose server, when polled, gave
-- the event for the Action `name`.
pub record HandsOver (v : ℕ → PacketEnv) (slots : List ConnectionSlot) (owners : List GoalOwner)
    (name : String) (event : ServerEvent) : Type 0 where
  pub before : ConnectionSlot
  pub place : ℕ
  pub kept :
      get_elem? slots place
      ≡ some (record before { server = (Services.poll (v before.connection_id) before.server).0 })
  pub action : (Services.poll (v before.connection_id) before.server).1 ≡ name
  pub source : (Services.poll (v before.connection_id) before.server).2 ≡ event
  pub owned :
      find_owner name event.goal owners ≡ some (new_owner name event.goal before.connection_id)

further :
    {v : ℕ → PacketEnv} {slots : List ConnectionSlot} {owners : List GoalOwner} {name : String}
    {event : ServerEvent} (slot : ConnectionSlot)
    → HandsOver v slots owners name event
    → HandsOver v (slot ∷ slots) owners name event
further slot h = record {
  before = h.before;
  place = suc h.place;
  kept = h.kept;
  action = h.action;
  source = h.source;
  owned = h.owned;
}

-- What is kept, and which owner a Goal Request has after its poll.
abbrev PolledSound : (ℕ → PacketEnv) → Polled → Type 0
PolledSound v r =
    (AllServers r.0 × Distinct r.1) × (r.3.type ≡ goal_request → HandsOver v r.0 r.1 r.2 r.3)

new_owner-found :
    (name : String) (goal : GoalId) (owners : List GoalOwner) (id : ℕ)
    → find_owner name goal owners ≡ none
    → find_owner name goal (owners ++ new_owner name goal id ∷ []) ≡ some (new_owner name goal id)
unfolding find_owner
new_owner-found name goal owners id fresh = ground (
  arith,
  find_owner-append name goal owners (new_owner name goal id) fresh,
  string_equality.equals_iff name name,
  bytes_equality.equals_iff goal goal,
)

module _ (v : PacketEnv) (slot : ConnectionSlot) (rest : List ConnectionSlot)
    (owners : List GoalOwner) (server : ActionServices) (name : String) (event : ServerEvent)
    (later : Polled) where
  -- What the loop makes of a Goal Request that was claimed or refused.
  abbrev after_claim : Claim → Polled
  after_claim claim = elim claim [
    | duplicate refused ↦ (record slot { server = refused } ∷ later.0, later.1, later.2, later.3)
    | claimed owners' ↦ (record slot { server = server } ∷ rest, owners', name, event)
  ]

  claim_sound :
      (w : ℕ → PacketEnv)
      → AllCoupled server.actions
      → AllServers rest
      → Distinct owners
      → PolledSound w later
      → (((owners' : List GoalOwner)
          → find_owner name event.goal owners' ≡ some (new_owner name event.goal slot.connection_id)
          → HandsOver w (record slot { server = server } ∷ rest) owners' name event))
      → PolledSound w (after_claim (claim_goal v owners slot.connection_id server name event.goal))
  unfolding claim_goal
  claim_sound w polled k d r here =
      Option-split (λ c. PolledSound w (after_claim c)) (find_owner name event.goal owners) _ _
        (λ fresh. (
          (
            (polled, k),
            append-Distinct owners (new_owner name event.goal slot.connection_id) d fresh,
          ),
          λ _.
              here (owners ++ new_owner name event.goal slot.connection_id ∷ [])
                (new_owner-found name event.goal owners slot.connection_id fresh),
        ))
        λ o e. (
          ((called-AllCoupled v server name event.goal Request.reject_goal polled, r.0.0), r.0.1),
          λ is. further _ (r.1 is),
        )

poll_slots_sound :
    (v : ℕ → PacketEnv) (slots : List ConnectionSlot) (owners : List GoalOwner)
    → AllServers slots
    → Distinct owners
    → PolledSound v (poll_slots v owners slots)
unfolding poll_slots Server.step
poll_slots_sound v [] owners k d = ((tt, d), λ is. cc)
poll_slots_sound v (slot ∷ rest) owners k d =
    let r = poll_slots_sound v rest owners k.1 d in
    let polled = step-AllCoupled (v slot.connection_id) slot.server Server.polled k.0 in
    if_split {A = Polled} (PolledSound v) slot.retired _ _
      (λ _. (((k.0, r.0.0), r.0.1), λ is. further slot (r.1 is)))
      λ _.
        event_split {A = Polled} (PolledSound v)
          (Services.poll (v slot.connection_id) slot.server).2.type _ _ _
          (λ _. (((polled, r.0.0), r.0.1), λ is. further _ (r.1 is)))
          (λ _.
            claim_sound (v slot.connection_id) slot rest owners
              (Services.poll (v slot.connection_id) slot.server).0
              (Services.poll (v slot.connection_id) slot.server).1
              (Services.poll (v slot.connection_id) slot.server).2 (poll_slots v owners rest) v
              polled k.1 d r
              λ owners' at. record {
                before = slot;
                place = 0;
                kept = refl;
                action = refl;
                source = refl;
                owned = at;
              })
          (λ other. (((polled, k.1), d), λ is. absurd (other is)))

-- A Goal Request that `poll` reports has its owner.
abbrev pub Claims : (ℕ → PacketEnv) → Mux × String × ServerEvent → Type 0
Claims v r = r.2.type ≡ goal_request → HandsOver v r.0.slots r.0.owners r.1 r.2

abbrev PollSound : (ℕ → PacketEnv) → Mux × String × ServerEvent → Type 0
PollSound v r = IsSound r.0 × Claims v r

finish_poll_sound :
    (v : ℕ → PacketEnv) (m : Mux) (r : Polled) → PolledSound v r → PollSound v (finish_poll v m r)
unfolding finish_poll
finish_poll_sound v m (slots, owners, name, event) ((k, d), claims) =
    let polled : IsSound (record m { slots = slots; owners = owners }) = record {
      distinct = d;
      coupled = k;
    } in
    event_split {A = Mux × String × ServerEvent} (PollSound v) event.type _ _ _
      (λ _. (
        process_disconnected-IsSound v (record m { slots = slots; owners = owners }) polled,
        λ is. cc,
      ))
      (λ _. (polled, claims)) (λ _. (polled, claims))

pub poll_sound :
    (v : ℕ → PacketEnv) (capacity : ℕ) (arrivals : List Arrival) (m : Mux)
    → IsSound m
    → AllArrive arrivals
    → PollSound v (poll v capacity arrivals m)
unfolding poll
poll_sound v capacity arrivals m k h =
    if_split {A = Mux × String × ServerEvent} (PollSound v) (not m.started || not m.opened) _ _
      (λ _. (k, λ is. cc))
      λ _.
        let ready =
          process_disconnected-IsSound v (accept_new_connections capacity arrivals m)
            (accept_new_connections-IsSound capacity arrivals m k h) in
        finish_poll_sound v (process_disconnected v (accept_new_connections capacity arrivals m)) _
          (poll_slots_sound v
            (process_disconnected v (accept_new_connections capacity arrivals m)).slots
            (process_disconnected v (accept_new_connections capacity arrivals m)).owners
            ready.coupled ready.distinct)
