-- ===== src/Action/ClientEndpoint/Overdue.antt =====
-- The loop over the bindings in `ActionClientEndpointImpl::poll`
-- (src/action_client_endpoint_impl.cpp) finds the first overdue Goal, and misses none.
use hakoniwa_pdu_rpc.Base.{
  ℕ, ◌≡◌, refl, inl, inr, true, false, none, some, List, [], ◌∷◌, arith, bytes_equality,
  Option-cases, Bool-cases,
}
use hakoniwa_pdu_rpc.Base.Map.{lookup, Unique}
use hakoniwa_pdu_rpc.Action.Types.{GoalId}
use hakoniwa_pdu_rpc.Action.ClientEndpoint.{ClientPacketBinding}
use hakoniwa_pdu_rpc.Action.ClientEndpoint.Polling.{precedes, is_overdue, first_overdue}

-- `g` is overdue, and no overdue Goal comes before it in the order of the map.
pub record IsFirst (now : ℕ) (bindings : List (GoalId × ClientPacketBinding)) (g : GoalId)
    (b : ClientPacketBinding) : Type 0 where
  pub found : lookup g bindings ≡ some b
  pub overdue : is_overdue now b ≡ true
  pub least :
      (h : GoalId) (d : ClientPacketBinding)
      → lookup h bindings ≡ some d
      → is_overdue now d ≡ true
      → precedes h g ≡ false

precedes_irrefl : (g : GoalId) → precedes g g ≡ false
unfolding precedes
precedes_irrefl [] = refl
precedes_irrefl (b ∷ g) = ground (arith, precedes_irrefl g)

precedes_asym : (g h : GoalId) → precedes g h ≡ true → precedes h g ≡ false
unfolding precedes
precedes_asym [] [] p = refl
precedes_asym [] (c ∷ h) p = refl
precedes_asym (b ∷ g) [] p = cc
precedes_asym (b ∷ g) (c ∷ h) p = ground (arith, precedes_asym g h)

-- The order is negatively transitive, so what is not before `h` is not before what `h` precedes.
precedes_trans :
    (f g h : GoalId) → precedes f g ≡ false → precedes g h ≡ false → precedes f h ≡ false
unfolding precedes
precedes_trans [] [] h p q = q
precedes_trans [] (c ∷ g) h p q = cc
precedes_trans (b ∷ f) g [] p q = refl
precedes_trans (b ∷ f) [] (d ∷ h) p q = cc
precedes_trans (b ∷ f) (c ∷ g) (d ∷ h) p q = ground (arith, precedes_trans f g h)

-- Where the loop finds nothing, nothing is overdue.
pub first_overdue-none :
    (now : ℕ) (m : List (GoalId × ClientPacketBinding)) (g : GoalId) (b : ClientPacketBinding)
    → first_overdue now m ≡ none
    → lookup g m ≡ some b
    → is_overdue now b ≡ false
unfolding first_overdue lookup
first_overdue-none now [] g b h at = cc
first_overdue-none now ((j, d) ∷ m) g b h at =
    ground (arith, first_overdue-none now m g b, bytes_equality.equals_iff j g)

-- What the loop finds has an entry, and is the least.
pub first_overdue-IsFirst :
    (now : ℕ) (m : List (GoalId × ClientPacketBinding)) (g : GoalId) (b : ClientPacketBinding)
    → Unique m
    → first_overdue now m ≡ some (g, b)
    → IsFirst now m g b
unfolding first_overdue lookup
first_overdue-IsFirst now [] g b u h = cc
first_overdue-IsFirst now ((j, d) ∷ m) g b (fresh, u) h = elim (Bool-cases (is_overdue now d)) [
  | inr late ↦
      let r = first_overdue-IsFirst now m g b u (ground (arith, late)) in
      record {
        found = ground (arith, r.found, bytes_equality.equals_iff j g);
        overdue = r.overdue;
        least = λ i e at o. ground (arith, r.least i e, bytes_equality.equals_iff j i, late);
      }
  | inl due ↦ elim (Option-cases (first_overdue now m)) [
    | inl none_due ↦ record {
      found = ground (arith, due, none_due, bytes_equality.equals_iff j g);
      overdue = ground (arith, due, none_due);
      least = λ i e at o. ground (
        arith,
        due,
        none_due,
        precedes_irrefl g,
        bytes_equality.equals_iff j i,
        first_overdue-none now m i e none_due,
      );
    }
    | inr ((i, e), found) ↦
        let r = first_overdue-IsFirst now m i e u found in
        elim (Bool-cases (precedes i j)) [
          | inl before ↦ record {
            found = ground (arith, due, found, before, r.found, bytes_equality.equals_iff j i);
            overdue = ground (arith, due, found, before, r.overdue);
            least = λ k x at o. ground (
              arith,
              due,
              found,
              before,
              r.least k x,
              precedes_asym i j before,
              bytes_equality.equals_iff j k,
            );
          }
          | inr after ↦ record {
            found = ground (arith, due, found, after, bytes_equality.equals_iff j g);
            overdue = ground (arith, due, found, after);
            least = λ k x at o. ground (
              arith,
              due,
              found,
              after,
              r.least k x,
              precedes_irrefl j,
              precedes_trans k i j,
              bytes_equality.equals_iff j k,
            );
          }
        ]
  ]
]
