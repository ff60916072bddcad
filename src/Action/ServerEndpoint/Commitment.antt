-- ===== src/Action/ServerEndpoint/Commitment.antt =====
-- What the Result of a Goal has to be for an Action server endpoint
-- (src/action_server_endpoint_impl.cpp) to commit it, and the message that carries it.
use hakoniwa_pdu_rpc.Base.{
  ℕ, ◌≡◌, refl, true, false, not, ◌&&◌, ◌||◌, Option, none, some, arith, take, get_elem?, is_empty,
  bytes_equality, Holds, Holds-bind, Holds-guard,
}
use hakoniwa_pdu_rpc.Base.Map.{lookup}
use hakoniwa_pdu_rpc.Action.Types.{
  GoalId, PduData, is_valid_goal_id, TerminalStatus, status_code, is_succeeded, is_canceled,
  is_aborted,
}
use hakoniwa_pdu_rpc.Action.Packet.{
  Send, PacketEnv, validate_packet_capacity, write_response_header,
}
use hakoniwa_pdu_rpc.Action.ServerEndpoint.{
  Endpoint, SlotRouting, ActionPacketBinding, PacketBindingState, goal_accepted, cancel_accepted,
  action_protocol_version, response_kind_result, response_message, is_accepted, is_cancel_accepted,
}
use hakoniwa_pdu_rpc.Action.ServerEndpoint.Operations.{find_binding}
use hakoniwa_pdu_rpc.Action.ServerEndpoint.Results.{validate_terminal_packet}

-- The statuses with which a Goal may end in each state of its binding.
pub data EndsFrom : PacketBindingState → TerminalStatus → Type 0 where
  succeeds : EndsFrom goal_accepted TerminalStatus.succeeded
  aborts : EndsFrom goal_accepted TerminalStatus.aborted
  cancels : EndsFrom cancel_accepted TerminalStatus.canceled
  aborts_canceling : EndsFrom cancel_accepted TerminalStatus.aborted

-- The Goal is bound in a state that allows the status, and the packet fits the response channel of
-- its slot.
pub record MayCommit (v : PacketEnv) (s : Endpoint) (g : GoalId) (status : TerminalStatus)
    (packet : PduData) (b : ActionPacketBinding) : Type 0 where
  pub valid : is_valid_goal_id g ≡ true
  pub initialized : s.initialized ≡ true
  pub found : lookup g s.packet_bindings ≡ some b
  pub allowed : EndsFrom b.state status
  pub routing : SlotRouting
  pub size : ℕ
  pub at_slot : get_elem? s.slot_routing b.slot_index ≡ some routing
  pub fits :
      validate_packet_capacity v packet routing.response_packet_base_size
        routing.response_heap_capacity false
      ≡ some size

-- The Result of a Goal on a slot: the packet with the header written, cut to its size on the wire
-- and addressed to the response channel of the slot.
pub record IsResult (v : PacketEnv) (s : Endpoint) (g : GoalId) (slot : ℕ) (status : TerminalStatus)
    (packet : PduData) (m : Send) : Type 0 where
  pub routing : SlotRouting
  pub size : ℕ
  pub written : PduData
  pub nonempty : is_empty packet ≡ false
  pub at_slot : get_elem? s.slot_routing slot ≡ some routing
  pub fits :
      validate_packet_capacity v packet routing.response_packet_base_size
        routing.response_heap_capacity false
      ≡ some size
  pub header :
      write_response_header v packet (record {
        version = action_protocol_version;
        response_kind = response_kind_result;
        status = status_code status;
        reserved = 0;
        goal_id = g;
      })
      ≡ some written
  pub key : m.key ≡ routing.response
  pub bytes : m.bytes ≡ take size written

Holds-all {ℓ κ} :
    {A : Type ℓ} {P : A → Type κ} (m : Option A) → ((a : A) → m ≡ some a → P a) → Holds P m
Holds-all none h = tt
Holds-all (some a) h = h a refl

EndsFrom-test :
    (state : PacketBindingState) (status : TerminalStatus)
    → EndsFrom state status
    → ((is_accepted state && (is_succeeded status || is_aborted status))
        || (is_cancel_accepted state && (is_canceled status || is_aborted status)))
      ≡ true
EndsFrom-test _ _ succeeds = refl
EndsFrom-test _ _ aborts = refl
EndsFrom-test _ _ cancels = refl
EndsFrom-test _ _ aborts_canceling = refl

test-EndsFrom :
    (state : PacketBindingState) (status : TerminalStatus)
    → ((is_accepted state && (is_succeeded status || is_aborted status))
        || (is_cancel_accepted state && (is_canceled status || is_aborted status)))
      ≡ true
    → EndsFrom state status
test-EndsFrom state status ok = grind (arith, succeeds, aborts, cancels, aborts_canceling)

pub MayCommit-found :
    (v : PacketEnv) (s : Endpoint) (g : GoalId) (status : TerminalStatus) (packet : PduData)
    (b : ActionPacketBinding)
    → MayCommit v s g status packet b
    → find_binding s g ≡ some b
unfolding find_binding
MayCommit-found v s g status packet b k = ground (arith, k.valid, k.initialized, k.found)

pub MayCommit-validated :
    (v : PacketEnv) (s : Endpoint) (g : GoalId) (status : TerminalStatus) (packet : PduData)
    (b : ActionPacketBinding)
    → (k : MayCommit v s g status packet b)
    → validate_terminal_packet v s b status packet ≡ some k.size
unfolding validate_terminal_packet
MayCommit-validated v s g status packet b k =
    ground (arith, EndsFrom-test b.state status k.allowed, k.at_slot, k.fits)

pub validated-MayCommit :
    (v : PacketEnv) (s : Endpoint) (g : GoalId) (status : TerminalStatus) (packet : PduData)
    (b : ActionPacketBinding)
    → find_binding s g ≡ some b
    → Holds (λ n. MayCommit v s g status packet b) (validate_terminal_packet v s b status packet)
unfolding validate_terminal_packet find_binding
validated-MayCommit v s g status packet b found =
    Holds-guard (λ n. MayCommit v s g status packet b)
      ((is_accepted b.state && (is_succeeded status || is_aborted status))
        || (is_cancel_accepted b.state && (is_canceled status || is_aborted status)))
      _
      λ allowed.
        Holds-bind {A = SlotRouting} (λ n. MayCommit v s g status packet b)
          (get_elem? s.slot_routing b.slot_index) _
          λ routing at.
            Holds-all
              (validate_packet_capacity v packet routing.response_packet_base_size
                routing.response_heap_capacity false)
              λ n fits. record {
                valid = ground (arith, found);
                initialized = ground (arith, found);
                found = ground (arith, found);
                allowed = test-EndsFrom b.state status allowed;
                routing = routing;
                size = n;
                at_slot = at;
                fits = fits;
              }

pub response_message-IsResult :
    (v : PacketEnv) (s : Endpoint) (b : ActionPacketBinding) (status : TerminalStatus)
    (packet : PduData)
    → Holds
        (IsResult v s b.goal_id b.slot_index status packet)
        (response_message v s.slot_routing b response_kind_result (status_code status) packet)
unfolding response_message
response_message-IsResult v s b status packet =
    Holds-bind {A = SlotRouting} (IsResult v s b.goal_id b.slot_index status packet)
      (get_elem? s.slot_routing b.slot_index) _
      λ routing at.
        Holds-guard (IsResult v s b.goal_id b.slot_index status packet) (not (is_empty packet)) _
          λ full.
            Holds-bind (IsResult v s b.goal_id b.slot_index status packet)
              (validate_packet_capacity v packet routing.response_packet_base_size
                routing.response_heap_capacity false)
              _
              λ size fits.
                Holds-bind (IsResult v s b.goal_id b.slot_index status packet)
                  (write_response_header v packet (record {
                    version = action_protocol_version;
                    response_kind = response_kind_result;
                    status = status_code status;
                    reserved = 0;
                    goal_id = b.goal_id;
                  }))
                  _
                  λ written e. record {
                    routing = routing;
                    size = size;
                    written = written;
                    nonempty = ground (arith, full);
                    at_slot = at;
                    fits = fits;
                    header = e;
                    key = refl;
                    bytes = refl;
                  }

pub no-IsResult :
    (v : PacketEnv) (s : Endpoint) (b : ActionPacketBinding) (status : TerminalStatus)
    (packet : PduData) (m : Send)
    → response_message v s.slot_routing b response_kind_result (status_code status) packet ≡ none
    → ¬ IsResult v s b.goal_id b.slot_index status packet m
unfolding response_message
no-IsResult v s b status packet m e r = ground (arith, e, r.at_slot, r.nonempty, r.fits, r.header)
