-- ===== src/Action/ServicesServer/Completion.antt =====
-- How a Goal ends: what `complete_goal_locked` leaves behind, and what is refused afterwards
-- (src/action_services_server.cpp).
use hakoniwa_pdu_rpc.Base.{
  ◌≡◌, ◌≢◌, refl, ap, subst, if◌then◌else◌, Bool, ◌∷◌, true, false, some, arith, bytes_equality,
  if_split, Option-split, is_empty,
}
use hakoniwa_pdu_rpc.Base.Map.{lookup, insert, erase}
use hakoniwa_pdu_rpc.Action.Types.{GoalId, PduData, TerminalStatus, finishing}
use hakoniwa_pdu_rpc.Action.Packet.{PacketEnv, Send}
use hakoniwa_pdu_rpc.Action.ServerMachine.{
  ServerGoalContext, ServerTransitionKind, transition_server_goal, CancelOrigin,
  is_valid_server_context, move,
}
use hakoniwa_pdu_rpc.Action.ServerMachine.Steps.{
  Ends, succeed, abort, cancel, abort_canceling, end, transition_server_goal_complete,
}
use hakoniwa_pdu_rpc.Action.ServerEndpoint.{Endpoint, CompleteResult}
use hakoniwa_pdu_rpc.Action.ServerEndpoint.Results
use hakoniwa_pdu_rpc.Action.ServerEndpoint.Consistency.{IsConsistent}
use hakoniwa_pdu_rpc.Action.ServerEndpoint.Endings
use hakoniwa_pdu_rpc.Action.ServerEndpoint.Commitment.{MayCommit, IsResult}
use hakoniwa_pdu_rpc.Action.ServerEndpoint.Endings.{
  freed, committed, Completes, CompletesLocally, complete-Completes, complete_locally-Completes,
}
use hakoniwa_pdu_rpc.Action.ServerMachine.Effects.{finished_effect}
use hakoniwa_pdu_rpc.Action.ServerEndpoint.{ActionPacketBinding}
use hakoniwa_pdu_rpc.Action.ServerEndpoint.Results.{commit}
use hakoniwa_pdu_rpc.Action.ServicesServer.{
  ActionInstance, get_goal, has_goal, complete_event, settle, settle_locally, complete_goal,
  accept_goal, reject_goal, accept_cancel, reject_cancel, decide_cancel, send_feedback,
  discard_pending_goal,
}
use hakoniwa_pdu_rpc.Action.ServicesServer.Services as Services
use hakoniwa_pdu_rpc.Action.ServicesServer.Services.{Request, perform}
use hakoniwa_pdu_rpc.Action.ServicesServer.Uniqueness.{remove_goal-erase}
use hakoniwa_pdu_rpc.Action.ServicesServer.Coupling.{IsCoupled}
use hakoniwa_pdu_rpc.Action.ServicesServer.Agreement.{is_completion}

-- A completion is due: there is a Result, the machine lets the Goal end so, and the endpoint may
-- commit it.
pub record MayComplete (v : PacketEnv) (a : ActionInstance) (g : GoalId) (status : TerminalStatus)
    (packet : PduData) (c : ServerGoalContext) (b : ActionPacketBinding) : Type 0 where
  pub nonempty : is_empty packet ≡ false
  pub context : lookup g a.goals ≡ some c
  pub allowed : Ends (complete_event status) c.state status
  pub may_commit : MayCommit v a.endpoint g status packet b

-- The context of a Goal that has ended.
abbrev pub ended_context : ServerGoalContext → TerminalStatus → ServerGoalContext
ended_context c status = record c {
  state = finishing;
  cancel_decision_pending = false;
  cancel_origin = CancelOrigin.none;
  terminal_status = status;
}

pub data Ended (v : PacketEnv) (a : ActionInstance) (g : GoalId) (status : TerminalStatus)
    (packet : PduData) (local_only : Bool) : ActionInstance × Bool → Type 0 where
  refused :
      ((c : ServerGoalContext) (b : ActionPacketBinding) → ¬ MayComplete v a g status packet c b)
      → Ended v a g status packet local_only (a, false)
  delivered :
      (c : ServerGoalContext) (b : ActionPacketBinding) (m : Send)
      → local_only ≡ false
      → MayComplete v a g status packet c b
      → IsResult v a.endpoint g b.slot_index status packet m
      → v.send_ok a.endpoint.sends m ≡ true
      → Ended v a g status packet local_only (
        record a {
          goals = erase g a.goals;
          endpoint = freed a.endpoint g b (m ∷ a.endpoint.sends);
        },
        true,
      )
  ended_locally :
      (c : ServerGoalContext) (b : ActionPacketBinding)
      → local_only ≡ true
      → MayComplete v a g status packet c b
      → Ended v a g status packet local_only (
        record a { goals = erase g a.goals; endpoint = freed a.endpoint g b a.endpoint.sends },
        true,
      )
  -- the header cannot be written
  unwritten :
      (c : ServerGoalContext) (b : ActionPacketBinding)
      → local_only ≡ false
      → MayComplete v a g status packet c b
      → ((m : Send) → ¬ IsResult v a.endpoint g b.slot_index status packet m)
      → Ended v a g status packet local_only (
        record a {
          goals = insert g (ended_context c status) a.goals;
          endpoint = committed a.endpoint g b a.endpoint.sends;
        },
        false,
      )
  -- the transport refuses the Result
  unsent :
      (c : ServerGoalContext) (b : ActionPacketBinding) (m : Send)
      → local_only ≡ false
      → MayComplete v a g status packet c b
      → IsResult v a.endpoint g b.slot_index status packet m
      → v.send_ok a.endpoint.sends m ≡ false
      → Ended v a g status packet local_only (
        record a {
          goals = insert g (ended_context c status) a.goals;
          endpoint = committed a.endpoint g b (m ∷ a.endpoint.sends);
        },
        false,
      )

-- What the machine makes of a completion.
completion_moves :
    (c : ServerGoalContext) (status : TerminalStatus)
    → (transition_server_goal c (complete_event status)).kind ≡ ServerTransitionKind.transitioned
    → Ends (complete_event status) c.state status
unfolding transition_server_goal
completion_moves c TerminalStatus.unspecified m = absurd (ground (arith, m))
completion_moves c TerminalStatus.succeeded m = grind (arith, succeed)
completion_moves c TerminalStatus.canceled m = grind (arith, cancel)
completion_moves c TerminalStatus.aborted m = grind (arith, abort, abort_canceling)
completion_moves c (TerminalStatus.other n) m = absurd (ground (arith, m))

completion_moved :
    (c : ServerGoalContext) (status : TerminalStatus)
    → is_valid_server_context c ≡ true
    → Ends (complete_event status) c.state status
    → transition_server_goal c (complete_event status) ≡ move (ended_context c status)
completion_moved c status valid ends =
    transition_server_goal_complete c (ended_context c status) (complete_event status) valid
      (end ends refl)

decided_split {ℓ κ} :
    {A : Type ℓ} (P : A → Type κ) (k : ServerTransitionKind) (x y : A)
    → (k ≡ ServerTransitionKind.transitioned → P x)
    → (k ≢ ServerTransitionKind.transitioned → P y)
    → P (elim k [ ServerTransitionKind.transitioned ↦ x | _ ↦ y ])
decided_split P ServerTransitionKind.transitioned x y p q = p refl
decided_split P ServerTransitionKind.nop x y p q = q (λ e. cc)
decided_split P ServerTransitionKind.error x y p q = q (λ e. cc)

module _ (v : PacketEnv) (a : ActionInstance) (g : GoalId) (status : TerminalStatus)
    (packet : PduData) (k : IsCoupled a) (consistent : IsConsistent a.endpoint)
    (full : is_empty packet ≡ false) (c : ServerGoalContext) (at : lookup g a.goals ≡ some c)
    (ends : Ends (complete_event status) c.state status) where
  due :
      (b : ActionPacketBinding)
      → MayCommit v a.endpoint g status packet b
      → MayComplete v a g status packet c b
  due b may = record { nonempty = full; context = at; allowed = ends; may_commit = may }

  refuses :
      (local_only : Bool)
      → ((b : ActionPacketBinding) → ¬ MayCommit v a.endpoint g status packet b)
      → Ended v a g status packet local_only (a, false)
  refuses local_only none_may = refused λ d b may. none_may b may.may_commit

  settled :
      (next : ServerGoalContext) (r : Endpoint × CompleteResult)
      → next ≡ ended_context c status
      → Completes v a.endpoint g status packet r
      → Ended v a g status packet false (settle a g next r)
  unfolding settle
  settled next _ e (Endings.refused none_may) = refuses false none_may
  settled next _ e (Endings.delivered b m may is ok) =
      rw (remove_goal-erase g a.goals k.unique) (delivered c b m refl (due b may) is ok)
  settled next _ e (Endings.unwritten b may none_is) = rw e (unwritten c b refl (due b may) none_is)
  settled next _ e (Endings.unsent b m may is lost) = rw e (unsent c b m refl (due b may) is lost)

  settled_locally :
      (r : Endpoint × Bool)
      → CompletesLocally v a.endpoint g status packet r
      → Ended v a g status packet true (settle_locally a g r)
  unfolding settle_locally
  settled_locally _ (Endings.refused none_may) = refuses true none_may
  settled_locally _ (Endings.done b may) =
      rw (remove_goal-erase g a.goals k.unique) (ended_locally c b refl (due b may))

  completed :
      (local_only : Bool)
      → Ended v a g status packet local_only (
          if local_only
          then settle_locally a g (Results.complete_locally v a.endpoint g status packet)
          else settle a g
              (transition_server_goal c (complete_event status)).next
              (Results.complete v a.endpoint g status packet))
  completed true =
      settled_locally _ (complete_locally-Completes v a.endpoint g status packet consistent)
  completed false =
      let (b, found, agree) = k.known g c at in
      settled (transition_server_goal c (complete_event status)).next _
        (ap (λ t. t.next) (completion_moved c status agree.valid ends))
        (complete-Completes v a.endpoint g status packet consistent)

-- For an Action whose layers agree and whose endpoint is consistent, a completion, sent or local, is
-- refused and changes nothing exactly if it is not due: the Result is empty, the Goal is unknown or
-- may not end so in its state, the endpoint is not initialized, or the Result does not fit the
-- response channel of the Goal's slot. A completion that is due and local takes the Goal out of both
-- layers and frees its slot; one that is to be sent does so too when the Result goes out on that
-- channel, and otherwise fails and leaves the Goal finishing, with that status, in its slot. Other
-- Goals and slots stay as they are.
pub complete_goal-Ended :
    (v : PacketEnv) (a : ActionInstance) (g : GoalId) (status : TerminalStatus) (packet : PduData)
    (local_only : Bool)
    → IsCoupled a
    → IsConsistent a.endpoint
    → Ended v a g status packet local_only (complete_goal v a g status packet local_only)
unfolding complete_goal
complete_goal-Ended v a g status packet local_only k consistent =
    if_split (Ended v a g status packet local_only) (is_empty packet) _ _
      (λ e. refused λ c b may. ground (arith, e, may.nonempty))
      λ full.
        Option-split (Ended v a g status packet local_only) (get_goal a g) _ _
          (λ e. refused λ c b may. ground (arith, e, may.context))
          λ c at.
            decided_split (Ended v a g status packet local_only)
              (transition_server_goal c (complete_event status)).kind _ _
              (λ m.
                completed v a g status packet k consistent full c at (completion_moves c status m)
                  local_only)
              λ stays. refused λ d b may. not_due c at stays d b may
  where
    not_due :
        (c : ServerGoalContext)
        → lookup g a.goals ≡ some c
        → (transition_server_goal c (complete_event status)).kind
          ≢ ServerTransitionKind.transitioned
        → (d : ServerGoalContext) (b : ActionPacketBinding) → ¬ MayComplete v a g status packet d b
    not_due c at stays d b may =
        let same : d ≡ c = ground (arith, at, may.context) in
        let (x, found, agree) = k.known g c at in
        stays (
          ap (λ t. t.kind)
            (completion_moved c status agree.valid
              (subst (λ e. Ends (complete_event status) e.state status) same may.allowed)))

-- A Goal that is finished is dead: every request of the application about it fails and changes
-- nothing, a second Result included.
pub finished_refuses :
    (v : PacketEnv) (a : ActionInstance) (g : GoalId) (c : ServerGoalContext) (r : Request)
    → lookup g a.goals ≡ some c
    → c.state ≡ finishing
    → perform v g r a ≡ (a, false)
unfolding perform accept_goal reject_goal accept_cancel reject_cancel decide_cancel send_feedback
    complete_goal discard_pending_goal has_goal
finished_refuses v a g c Services.accept_goal at done = ground (arith, at)
finished_refuses v a g c Services.reject_goal at done = ground (arith, at)
finished_refuses v a g c Services.accept_cancel at done = ground (arith, at, finished_effect c done)
finished_refuses v a g c Services.reject_cancel at done = ground (arith, at, finished_effect c done)
finished_refuses v a g c Services.discard_pending_goal at done = ground (arith, at)
finished_refuses v a g c (Services.send_feedback packet) at done =
    ground (arith, at, finished_effect c done)
finished_refuses v a g c (Services.complete status packet) at done =
    ground (arith, at, finished_effect c done, is_completion status)
finished_refuses v a g c (Services.complete_locally status packet) at done =
    ground (arith, at, finished_effect c done, is_completion status)
