-- ===== src/Action/Types.antt =====
-- include/hakoniwa/pdu/action/action_types.hpp: the value types of the Action API. An enumeration
-- over `std::uint8_t` is a data type with the enumerators; where a value comes from the wire or from
-- a caller, `other n` stands for a number that no enumerator has.
use hakoniwa_pdu_rpc.Base.{
  ℕ, Bool, true, false, not, ◌&&◌, ◌||◌, List, [], ◌∷◌, String, eqb, if◌then◌else◌,
}

-- `std::array<std::uint8_t, 16>`: the sixteen bytes of the identity.
abbrev pub GoalId : Type 0
GoalId = List ℕ

abbrev pub PduData : Type 0
PduData = List ℕ

-- The loop returns at the first byte that is not 0.
unfoldable pub is_valid_goal_id : GoalId → Bool
is_valid_goal_id [] = false
is_valid_goal_id (byte ∷ rest) = not (eqb byte 0) || is_valid_goal_id rest

pub data Decision : Type 0 where
  unspecified accepted rejected : Decision

pub data TerminalStatus : Type 0 where
  unspecified succeeded canceled aborted : TerminalStatus
  other : ℕ → TerminalStatus

pub data GoalState : Type 0 where
  unspecified executing canceling finishing : GoalState

pub data ServerEventType : Type 0 where
  none goal_request cancel_request runtime_cancel_request error : ServerEventType

-- `none` is also `UNSPECIFIED`: both are 0.
pub data ClientEventType : Type 0 where
  none goal_response feedback cancel_response result timeout error : ClientEventType

pub data GoalSendResult : Type 0 where
  success invalid_argument action_not_found not_initialized duplicate_goal no_free_slot
        invalid_packet transport_error :
      GoalSendResult

pub data RuntimeCancelCause : Type 0 where
  unspecified transport_disconnected server_shutdown internal_policy : RuntimeCancelCause

-- `goal` is the `ServerGoalHandle`, which holds a `GoalId` and nothing else.
pub record ServerEvent : Type 0 where
  pub type : ServerEventType
  pub goal : GoalId
  pub runtime_cancel_cause : RuntimeCancelCause
  pub action_name : String
  pub pdu : PduData

-- `goal` is the `ClientGoalHandle`, which holds a `GoalId` and nothing else.
pub record ClientEvent : Type 0 where
  pub type : ClientEventType
  pub action_name : String
  pub goal : GoalId
  pub decision : Decision
  pub terminal_status : TerminalStatus
  pub feedback_sequence : ℕ  -- uint32_t
  pub pdu : PduData

-- The tests by which the code compares enumerators, `a == GoalState::EXECUTING` and the like.
abbrev pub is_executing : GoalState → Bool
is_executing GoalState.executing = true
is_executing _ = false

abbrev pub is_canceling : GoalState → Bool
is_canceling GoalState.canceling = true
is_canceling _ = false

abbrev pub is_finishing : GoalState → Bool
is_finishing GoalState.finishing = true
is_finishing _ = false

abbrev pub is_unspecified : TerminalStatus → Bool
is_unspecified TerminalStatus.unspecified = true
is_unspecified _ = false

abbrev pub is_succeeded : TerminalStatus → Bool
is_succeeded TerminalStatus.succeeded = true
is_succeeded _ = false

abbrev pub is_canceled : TerminalStatus → Bool
is_canceled TerminalStatus.canceled = true
is_canceled _ = false

abbrev pub is_aborted : TerminalStatus → Bool
is_aborted TerminalStatus.aborted = true
is_aborted _ = false

-- `static_cast<std::uint8_t>(status)`.
abbrev pub status_code : TerminalStatus → ℕ
status_code TerminalStatus.unspecified = 0
status_code TerminalStatus.succeeded = 1
status_code TerminalStatus.canceled = 2
status_code TerminalStatus.aborted = 3
status_code (TerminalStatus.other n) = n

abbrev pub decision_code : Decision → ℕ
decision_code Decision.unspecified = 0
decision_code Decision.accepted = 1
decision_code Decision.rejected = 2

-- `static_cast<Decision>(status)`, where the code knows that the number is an enumerator's.
abbrev pub decision_of : ℕ → Decision
decision_of n =
    if eqb n 1
    then Decision.accepted
    else if eqb n 2
    then Decision.rejected
    else Decision.unspecified

-- `static_cast<TerminalStatus>(status)`.
abbrev pub terminal_status_of : ℕ → TerminalStatus
terminal_status_of n =
    if eqb n 1
    then TerminalStatus.succeeded
    else if eqb n 2
    then TerminalStatus.canceled
    else if eqb n 3
    then TerminalStatus.aborted
    else TerminalStatus.other n

abbrev pub is_goal_state : GoalState → Bool
is_goal_state s = is_executing s || is_canceling s || is_finishing s

abbrev pub is_terminal : TerminalStatus → Bool
is_terminal t = is_succeeded t || is_canceled t || is_aborted t

-- Which terminal status a Goal may end with: only a canceling one may end as canceled, and only
-- one that executes as succeeded.
abbrev pub is_allowed_result : GoalState → TerminalStatus → Bool
is_allowed_result s t =
    (is_executing s && (is_succeeded t || is_aborted t))
    || (is_canceling s && (is_canceled t || is_aborted t))
