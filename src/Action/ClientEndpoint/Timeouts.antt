-- ===== src/Action/ClientEndpoint/Timeouts.antt =====
-- An overdue Goal is reported: the packets that wait come first, one a poll, and then the timeout.
use hakoniwa_pdu_rpc.Base.{
  ℕ, zero, suc, ◌≡◌, refl, sym, subst, ap, ◌∙◌, inl, inr, true, not, some, List, [], ◌∷◌, arith,
  length, Option-cases, replicate, if_split, bytes_equality,
}
use hakoniwa_pdu_rpc.Base.Map.{lookup}
use hakoniwa_pdu_rpc.Action.Types.{GoalId, ClientEvent, ClientEventType}
use hakoniwa_pdu_rpc.Action.Packet.{PacketEnv}
use hakoniwa_pdu_rpc.Action.ClientEndpoint.{
  Endpoint, PendingPacket, ClientPacketBinding, store_binding, release_binding,
}
use hakoniwa_pdu_rpc.Action.ClientEndpoint.Polling.{
  is_overdue, first_overdue, poll_timeouts, poll_queue, poll,
}
use hakoniwa_pdu_rpc.Action.ClientEndpoint.Overdue.{first_overdue-none}
use hakoniwa_pdu_rpc.Action.ClientEndpoint.Outcomes.{
  Reports, quiet, admitted, refused, fed, cancel_granted, cancel_denied, ended, timed_out, rest_of,
  poll-Reports,
}
use hakoniwa_pdu_rpc.Action.ClientEndpoint.Consistency.{IsConsistent}
use hakoniwa_pdu_rpc.Action.ClientEndpoint.Histories.{polls, step, run, step_keeps}

Reports-frame :
    (now : ℕ) (s : Endpoint) (l : List PendingPacket) (e : ClientEvent) (t : Endpoint)
    → Reports now s l e t
    → (t.pending_packets ≡ l) × (t.initialized ≡ s.initialized)
unfolding store_binding release_binding
Reports-frame now s l e t (quiet p q) = rw q (refl, refl)
Reports-frame now s l e t (admitted b p d u at w q) = rw q (refl, refl)
Reports-frame now s l e t (refused b p d u at w q) = rw q (refl, refl)
Reports-frame now s l e t (fed b p d u at w q) = rw q (refl, refl)
Reports-frame now s l e t (cancel_granted b p d u at w q) = rw q (refl, refl)
Reports-frame now s l e t (cancel_denied b p d u at w q) = rw q (refl, refl)
Reports-frame now s l e t (ended b n p d u at w q) = rw q (refl, refl)
Reports-frame now s l e t (timed_out b p first q) = rw q (refl, refl)

-- As many polls at the time `now` as packets wait.
abbrev pub drained : PacketEnv → ℕ → ℕ → Endpoint → Endpoint
drained v now n s = run s (replicate n (v, polls now))

drained-empty :
    (v : PacketEnv) (now n : ℕ) (s : Endpoint)
    → IsConsistent s
    → length s.pending_packets ≡ n
    → ((drained v now n s).pending_packets ≡ []) × ((drained v now n s).initialized ≡ s.initialized)
unfolding run step
drained-empty v now zero s c e = (no_length s.pending_packets e, refl)
  where
    no_length : (l : List PendingPacket) → length l ≡ 0 → l ≡ []
    no_length [] h = refl
    no_length (p ∷ l) h = absurd (omega arith)
drained-empty v now (suc n) s c e =
    let frame = Reports-frame now s _ _ _ (poll-Reports v now s c.unique) in
    let r =
      drained-empty v now n (poll v now s).0 (step_keeps v s (polls now) c)
        (ap length frame.0 ∙ rest_length s.pending_packets e) in
    (r.0, r.1 ∙ frame.1)
  where
    rest_length : (l : List PendingPacket) → length l ≡ suc n → length (rest_of l) ≡ n
    rest_length [] h = absurd (omega arith)
    rest_length (p ∷ l) h = omega arith

timeout-reported :
    (v : PacketEnv) (now : ℕ) (s : Endpoint) (g : GoalId) (b : ClientPacketBinding)
    → s.pending_packets ≡ []
    → s.initialized ≡ true
    → lookup g s.packet_bindings ≡ some b
    → is_overdue now b ≡ true
    → (poll v now s).1.type ≡ ClientEventType.timeout
unfolding poll poll_queue poll_timeouts
timeout-reported v now s g b none_wait init at due =
    elim (Option-cases (first_overdue now s.packet_bindings)) [
      | inl e ↦ absurd (ground (arith, first_overdue-none now s.packet_bindings g b e at))
      | inr (found, e) ↦
          subst (λ l. (poll_queue v now s l).1.type ≡ ClientEventType.timeout) (sym none_wait)
            (if_split {A = Endpoint × ClientEvent} (λ r. r.1.type ≡ ClientEventType.timeout)
              (not s.initialized) _ _ (λ h. absurd (ground (arith, init))) λ _. rw e refl)
    ]

-- From a consistent, initialized endpoint, when no further packet arrives: after as many polls as
-- packets wait, the next poll reports a timeout if some Goal has waited for its response for as long
-- as its timeout.
pub overdue-reported :
    (v : PacketEnv) (now : ℕ) (s : Endpoint) (g : GoalId) (b : ClientPacketBinding)
    → IsConsistent s
    → s.initialized ≡ true
    → lookup g (drained v now (length s.pending_packets) s).packet_bindings ≡ some b
    → is_overdue now b ≡ true
    → (poll v now (drained v now (length s.pending_packets) s)).1.type ≡ ClientEventType.timeout
overdue-reported v now s g b c init at due =
    let r = drained-empty v now (length s.pending_packets) s c refl in
    timeout-reported v now (drained v now (length s.pending_packets) s) g b r.0 (r.1 ∙ init) at due
