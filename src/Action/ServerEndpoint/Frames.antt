-- ===== src/Action/ServerEndpoint/Frames.antt =====
-- What a send can change: the log of sends, and nothing else of the endpoint.
use hakoniwa_pdu_rpc.Base.{
  ℕ, ◌≡◌, refl, inl, inr, Bool, true, false, Option, none, some, List, ◌∷◌, if◌then◌else◌,
  Option-cases,
}
use hakoniwa_pdu_rpc.Action.Types.{GoalId, PduData, Decision, rejected, decision_code}
use hakoniwa_pdu_rpc.Action.Packet.{Send, PacketEnv}
use hakoniwa_pdu_rpc.Action.ServerEndpoint.{
  Endpoint, ActionPacketBinding, send, send_message, send_response_packet, send_control,
  send_goal_error_reply, create_control_response_packet, response_message, new_binding,
  response_kind_goal,
}
use hakoniwa_pdu_rpc.Action.ServerEndpoint.Operations.{respond}

abbrev pub with_sends : Endpoint → List Send → Endpoint
with_sends s l = record s { sends = l }

module _ {ℓ} (P : Endpoint × Bool → Type ℓ) (v : PacketEnv) (s : Endpoint) where
  pub send_message_cases :
      (m : Option Send)
      → ((l : List Send) (b : Bool) → P (with_sends s l, b))
      → P (send_message v s m)
  unfolding send_message send
  send_message_cases none any = any s.sends false
  send_message_cases (some m) any = any (m ∷ s.sends) (v.send_ok s.sends m)

  pub send_response_cases :
      (binding : ActionPacketBinding) (kind status : ℕ) (packet : PduData)
      → ((l : List Send) (b : Bool) → P (with_sends s l, b))
      → P (send_response_packet v s binding kind status packet)
  unfolding send_response_packet
  send_response_cases binding kind status packet any =
      send_message_cases (response_message v s.slot_routing binding kind status packet) any

  pub send_control_cases :
      (binding : ActionPacketBinding) (kind : ℕ) (decision : Decision)
      → ((l : List Send) (b : Bool) → P (with_sends s l, b))
      → P (send_control v s binding kind decision)
  unfolding send_control
  send_control_cases binding kind decision any =
      elim (Option-cases (create_control_response_packet v s)) [
        | inl e ↦ rw (e, send_control) (any s.sends false)
        | inr (r, e) ↦
            rw (e, send_control) (send_response_cases binding kind (decision_code decision) r any)
      ]

-- An exchange fails and leaves all but the log, or succeeds and is followed by `act`.
pub respond_cases {ℓ} :
    (P : Endpoint × Bool → Type ℓ) (v : PacketEnv) (s : Endpoint) (binding : ActionPacketBinding)
    (kind : ℕ) (decision : Decision) (act : Endpoint → Endpoint)
    → ((l : List Send) → P (with_sends s l, false))
    → ((l : List Send) → P (act (with_sends s l), true))
    → P (respond v s binding kind decision act)
unfolding respond
respond_cases P v s binding kind decision act failed done =
    send_control_cases (λ r. P (if r.1 then (act r.0, true) else (r.0, false))) v s binding kind
      decision (λ l b. cases l b)
  where
    cases :
        (l : List Send) (b : Bool)
        → P (if b then (act (with_sends s l), true) else (with_sends s l, false))
    cases l true = done l
    cases l false = failed l

pub send_goal_error_reply_frame :
    (v : PacketEnv) (s : Endpoint) (goal : GoalId) (slot : ℕ)
    → (l : List Send) × (send_goal_error_reply v s goal slot ≡ with_sends s l)
unfolding send_goal_error_reply
send_goal_error_reply_frame v s goal slot =
    send_control_cases (λ r. (l : List Send) × (r.0 ≡ with_sends s l)) v s (new_binding goal slot)
      response_kind_goal rejected (λ l b. (l, refl))
