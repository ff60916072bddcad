-- ===== src/Action/ServerEndpoint/Tests.antt =====
-- Concrete endpoints, at which the theorems about src/action_server_endpoint_impl.cpp apply.
use hakoniwa_pdu_rpc.Base.{
  ℕ, zero, suc, ◌≡◌, refl, sym, none, some, List, [], ◌∷◌, arith, bytes_equality,
}
use hakoniwa_pdu_rpc.Base.Map.{lookup}
use hakoniwa_pdu_rpc.Action.Types.{GoalId}
use hakoniwa_pdu_rpc.Action.Packet.{PacketEnv}
use hakoniwa_pdu_rpc.Action.Samples.{sample_env, sample_goal, sample_binding, bound_endpoint}
use hakoniwa_pdu_rpc.Action.ServerEndpoint.{owner_at, new_binding}
use hakoniwa_pdu_rpc.Action.ServerEndpoint.Operations.{poll}
use hakoniwa_pdu_rpc.Action.ServerEndpoint.Answers.{PollEnds, poll-PollEnds}
use hakoniwa_pdu_rpc.Action.ServerEndpoint.Consistency.{IsConsistent}
use hakoniwa_pdu_rpc.Action.ServerEndpoint.Consistency.Reach.{
  Call, receives, polls, run, run-IsConsistent,
}

one_owner :
    (i : ℕ) (g : GoalId)
    → owner_at (some sample_goal ∷ none ∷ []) i ≡ some g
    → (sample_goal ≡ g) × (i ≡ 0)
unfolding owner_at
one_owner zero g e = ground (arith, e)
one_owner (suc zero) g e = absurd (ground (arith, e))
one_owner (suc (suc i)) g e = absurd (ground (arith, e))

bound-IsConsistent : IsConsistent bound_endpoint
unfolding lookup owner_at new_binding
bound-IsConsistent = record {
  sized = refl;
  unique = (refl, tt);
  bound = λ g b e. ground (arith, e, bytes_equality.equals_iff sample_goal g);
  owned = λ g i e.
      let (same, first) = one_owner i g e in
      (sample_binding, ground (arith, same, bytes_equality.equals_iff sample_goal g), sym first);
}

-- A second Goal asks for the other slot.
abbrev sample_calls : List (PacketEnv × Call)
sample_calls = (sample_env, receives 1 (1 ∷ 8 ∷ [])) ∷ (sample_env, polls) ∷ []

run-IsConsistent_example : IsConsistent (run bound_endpoint sample_calls)
run-IsConsistent_example = run-IsConsistent bound_endpoint sample_calls bound-IsConsistent

poll-PollEnds_example :
    PollEnds sample_env
      (run bound_endpoint sample_calls)
      (poll sample_env (run bound_endpoint sample_calls))
poll-PollEnds_example = poll-PollEnds sample_env (run bound_endpoint sample_calls)
