-- ===== src/Action/ServicesServer/Uniqueness.antt =====
-- The Goals of an Action have one entry each, so that removing the first entry of a Goal removes all.
use hakoniwa_pdu_rpc.Base.{◌≡◌, refl, List, [], ◌∷◌, arith, bytes_equality}
use hakoniwa_pdu_rpc.Base.Map.{erase, Unique, erase_absent}
use hakoniwa_pdu_rpc.Action.Types.{GoalId}
use hakoniwa_pdu_rpc.Action.ServerMachine.{ServerGoalContext}
use hakoniwa_pdu_rpc.Action.ServicesServer.{remove_goal}

pub remove_goal-erase :
    (g : GoalId) (m : List (GoalId × ServerGoalContext)) → Unique m → remove_goal g m ≡ erase g m
unfolding remove_goal erase
remove_goal-erase g [] u = refl
remove_goal-erase g ((j, d) ∷ m) u =
    ground (arith, remove_goal-erase g m, bytes_equality.equals_iff j g, erase_absent g m)
