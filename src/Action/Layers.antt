-- ===== src/Action/Layers.antt =====
-- Two tables about the same Goals: the contexts that the upper layer of an Action keeps
-- (src/action_services_client.cpp) and the bindings that its packet endpoint keeps. A Goal with a
-- context is bound, and the two agree; a binding without a context waits for the decision.
use hakoniwa_pdu_rpc.Base.{
  ◌≡◌, subst, inl, inr, true, false, Bool, none, some, List, arith, bytes_equality, Bool-cases,
  Option-cases,
}
use hakoniwa_pdu_rpc.Base.Map.{
  lookup, insert, erase, lookup-insert, lookup-erase, Unique, insert-Unique, erase-Unique,
}
use hakoniwa_pdu_rpc.Action.Types.{GoalId}

pub record Couples {C B : Type 0} (Agree : C → B → Type 0) (waits : B → Bool)
    (goals : List (GoalId × C)) (bindings : List (GoalId × B)) : Type 0 where
  pub unique : Unique goals
  pub known :
      (g : GoalId) (c : C)
      → lookup g goals ≡ some c
      → (b : B) × (lookup g bindings ≡ some b) × Agree c b
  pub awaited :
      (g : GoalId) (b : B) → lookup g bindings ≡ some b → lookup g goals ≡ none → waits b ≡ true

module _ {C B : Type 0} {Agree : C → B → Type 0} {waits : B → Bool} {goals : List (GoalId × C)}
    {bindings : List (GoalId × B)} (k : Couples Agree waits goals bindings) (g : GoalId) where
  -- Both layers move, to an agreeing pair.
  pub move_both :
      (c : C) (b : B) → Agree c b → Couples Agree waits (insert g c goals) (insert g b bindings)
  move_both c b agree = record {
    unique = insert-Unique g c goals k.unique;
    known = λ j d e. elim (Bool-cases (bytes_equality.equals g j)) [
      | inl same ↦
          let p : c ≡ d = ground (arith, lookup-insert g j c goals) in
          (b, ground (arith, lookup-insert g j b bindings), subst (λ x. Agree x b) p agree)
      | inr other ↦
          let (x, at, ag) = k.known j d (ground (arith, lookup-insert g j c goals)) in
          (x, ground (arith, lookup-insert g j b bindings), ag)
    ];
    awaited = λ j d e f.
        ground (arith, lookup-insert g j c goals, lookup-insert g j b bindings, k.awaited j d);
  }

  -- A Goal leaves both layers.
  pub drop_both : Couples Agree waits (erase g goals) (erase g bindings)
  drop_both = record {
    unique = erase-Unique g goals k.unique;
    known = λ j d e.
        let (x, at, ag) = k.known j d (ground (arith, lookup-erase g j goals)) in
        (x, ground (arith, lookup-erase g j goals, lookup-erase g j bindings), ag);
    awaited =
        λ j d e f. ground (arith, lookup-erase g j goals, lookup-erase g j bindings, k.awaited j d);
  }

  -- What is known of a binding, by what it waits for.
  pub context_of :
      (b : B)
      → lookup g bindings ≡ some b
      → waits b ≡ false
      → (c : C) × (lookup g goals ≡ some c) × Agree c b
  context_of b at past = elim (Option-cases (lookup g goals)) [
    | inl e ↦ absurd (ground (arith, k.awaited g b at e))
    | inr (c, e) ↦
        let (x, found, ag) = k.known g c e in
        let p : x ≡ b = ground (arith, found, at) in (c, e, subst (λ y. Agree c y) p ag)
  ]

  pub no_context_of :
      (p : B → Bool)
      → ((c : C) (b : B) → Agree c b → p b ≡ false)
      → (b : B) → lookup g bindings ≡ some b
      → p b ≡ true
      → lookup g goals ≡ none
  no_context_of p excludes b at w = elim (Option-cases (lookup g goals)) [
    | inl e ↦ e
    | inr (c, e) ↦
        let (x, found, ag) = k.known g c e in absurd (ground (arith, found, at, excludes c x ag, w))
  ]

  pub unbound : lookup g bindings ≡ none → lookup g goals ≡ none
  unbound h = elim (Option-cases (lookup g goals)) [
    | inl e ↦ e
    | inr (c, e) ↦ let (x, found, ag) = k.known g c e in absurd (ground (arith, found, h))
  ]

  module _ (fresh : lookup g goals ≡ none) where
    -- A Goal that was not accepted leaves the endpoint.
    pub drop_awaited : Couples Agree waits goals (erase g bindings)
    drop_awaited = record {
      unique = k.unique;
      known = λ j d e.
          let (x, at, ag) = k.known j d e in
          (x, ground (arith, bytes_equality.equals_iff g j, lookup-erase g j bindings), ag);
      awaited = λ j d e f. ground (arith, lookup-erase g j bindings, k.awaited j d);
    }

    -- A Goal without a context has a binding that waits.
    pub put_awaited : (b : B) → waits b ≡ true → Couples Agree waits goals (insert g b bindings)
    put_awaited b w = record {
      unique = k.unique;
      known = λ j d e.
          let (x, at, ag) = k.known j d e in
          (x, ground (arith, bytes_equality.equals_iff g j, lookup-insert g j b bindings), ag);
      awaited = λ j d e f. ground (arith, lookup-insert g j b bindings, k.awaited j d);
    }
