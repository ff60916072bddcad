-- ===== src/Action/Slots.antt =====
-- The table of slot owners beside the table of bindings: both endpoints of an Action
-- (src/action_server_endpoint_impl.cpp, src/action_client_endpoint_impl.cpp) keep such a pair, which
-- describes one injective assignment of Goals to slots.
use hakoniwa_pdu_rpc.Base.{
  ℕ, zero, suc, ◌≤◌, ◌<◌, ◌≡◌, refl, ap, ◌∙◌, inl, inr, Option, none, some, List, [], ◌∷◌, arith,
  eqb, length, set, if◌then◌else◌, bytes_equality, Bool-cases, length-set, length-map, map,
}
use hakoniwa_pdu_rpc.Base.Map.{
  lookup, insert, erase, lookup-insert, lookup-erase, Unique, insert-Unique, erase-Unique,
}
use hakoniwa_pdu_rpc.Action.Types.{GoalId}
use hakoniwa_pdu_rpc.Action.ServerEndpoint.{SlotRouting, owner_at}

-- Each slot has a place for an owner; a bound Goal owns the slot of its binding; and the owner of
-- a slot is bound to it.
pub record Assigns {B : Type 0} (holder : B → GoalId) (slot_of : B → ℕ) (slots : List SlotRouting)
    (owners : List (Option GoalId)) (bindings : List (GoalId × B)) : Type 0 where
  pub sized : length owners ≡ length slots
  pub unique : Unique bindings
  pub bound :
      (g : GoalId) (b : B)
      → lookup g bindings ≡ some b
      → (holder b ≡ g) × (owner_at owners (slot_of b) ≡ some g)
  pub owned :
      (g : GoalId) (i : ℕ)
      → owner_at owners i ≡ some g
      → (b : B) × (lookup g bindings ≡ some b) × (slot_of b ≡ i)

owner_at-set-none :
    (owners : List (Option GoalId)) (i j : ℕ)
    → owner_at (set owners i none) j ≡ (if eqb i j then none else owner_at owners j)
unfolding owner_at
owner_at-set-none [] i j = ground arith
owner_at-set-none (o ∷ owners) zero zero = refl
owner_at-set-none (o ∷ owners) zero (suc j) = ground arith
owner_at-set-none (o ∷ owners) (suc i) zero = ground arith
owner_at-set-none (o ∷ owners) (suc i) (suc j) = ground (arith, owner_at-set-none owners i j)

owner_at-set-some :
    (owners : List (Option GoalId)) (i j : ℕ) (g : GoalId)
    → i < length owners
    → owner_at (set owners i (some g)) j ≡ (if eqb i j then some g else owner_at owners j)
unfolding owner_at
owner_at-set-some [] i j g h = absurd (omega arith)
owner_at-set-some (o ∷ owners) zero zero g h = refl
owner_at-set-some (o ∷ owners) zero (suc j) g h = ground arith
owner_at-set-some (o ∷ owners) (suc i) zero g h = ground arith
owner_at-set-some (o ∷ owners) (suc i) (suc j) g h = ground (arith, owner_at-set-some owners i j g)

owner_at-map_none :
    (owners : List (Option GoalId)) (i : ℕ) → owner_at (map (λ _. none) owners) i ≡ none
unfolding owner_at
owner_at-map_none [] i = refl
owner_at-map_none (o ∷ owners) zero = refl
owner_at-map_none (o ∷ owners) (suc i) = owner_at-map_none owners i

pub owner_at-lt-length :
    (owners : List (Option GoalId)) (i : ℕ) (g : GoalId)
    → owner_at owners i ≡ some g
    → i < length owners
unfolding owner_at
owner_at-lt-length [] i g h = cc
owner_at-lt-length (o ∷ owners) zero g h = omega arith
owner_at-lt-length (o ∷ owners) (suc i) g h = omega (arith, owner_at-lt-length owners i g h)

module _ {B : Type 0} {holder : B → GoalId} {slot_of : B → ℕ} {slots : List SlotRouting}
    {owners : List (Option GoalId)} {bindings : List (GoalId × B)}
    (c : Assigns holder slot_of slots owners bindings) (g : GoalId) where
  -- A binding is rewritten in place.
  pub store-Assigns :
      (b d : B)
      → lookup g bindings ≡ some b
      → holder d ≡ holder b
      → slot_of d ≡ slot_of b
      → Assigns holder slot_of slots owners (insert g d bindings)
  store-Assigns b d h same_goal same_slot = record {
    sized = c.sized;
    unique = insert-Unique g d bindings c.unique;
    bound = λ j e k. ground (
      arith,
      bytes_equality.equals_iff g j,
      lookup-insert g j d bindings,
      c.bound g b h,
      c.bound j e,
    );
    owned = λ j i k.
        let (e, at, eq) = c.owned j i k in
        elim (Bool-cases (bytes_equality.equals g j)) [
          | inl same ↦ (
            d,
            ground (arith, lookup-insert g j d bindings),
            ground (arith, bytes_equality.equals_iff g j),
          )
          | inr other ↦ (e, ground (arith, lookup-insert g j d bindings), eq)
        ];
  }

  -- A free slot is given to a Goal that has none.
  pub claim-Assigns :
      (b : B) (i : ℕ)
      → holder b ≡ g
      → slot_of b ≡ i
      → i < length slots
      → lookup g bindings ≡ none
      → owner_at owners i ≡ none
      → Assigns holder slot_of slots (set owners i (some g)) (insert g b bindings)
  claim-Assigns b i mine here lt fresh free = record {
    sized = length-set owners i (some g) ∙ c.sized;
    unique = insert-Unique g b bindings c.unique;
    bound = λ j e k. ground (
      arith,
      bytes_equality.equals_iff g j,
      lookup-insert g j b bindings,
      c.bound j e,
      owner_at-set-some owners i (slot_of e) g,
      c.sized,
      free,
    );
    owned = λ j k h. elim (Bool-cases (eqb i k)) [
      | inl same ↦ (
        b,
        ground (
          arith,
          lookup-insert g j b bindings,
          bytes_equality.equals_iff g j,
          owner_at-set-some owners i k g,
          c.sized,
        ),
        ground arith,
      )
      | inr other ↦
          let old : owner_at owners k ≡ some j =
            ground (arith, owner_at-set-some owners i k g, c.sized) in
          let (e, at, eq) = c.owned j k old in
          (
            e,
            ground (arith, lookup-insert g j b bindings, bytes_equality.equals_iff g j, at, fresh),
            eq,
          )
    ];
  }

  -- A Goal gives its slot back.
  pub release-Assigns :
      (b : B)
      → lookup g bindings ≡ some b
      → Assigns holder slot_of slots (set owners (slot_of b) none) (erase g bindings)
  release-Assigns b h = record {
    sized = length-set owners (slot_of b) none ∙ c.sized;
    unique = erase-Unique g bindings c.unique;
    bound = λ j e k. ground (
      arith,
      bytes_equality.equals_iff g j,
      lookup-erase g j bindings,
      c.bound g b h,
      c.bound j e,
      owner_at-set-none owners (slot_of b) (slot_of e),
    );
    owned = λ j k held.
        let old : owner_at owners k ≡ some j =
          ground (arith, owner_at-set-none owners (slot_of b) k) in
        let (e, at, eq) = c.owned j k old in
        (
          e,
          ground (
            arith,
            lookup-erase g j bindings,
            bytes_equality.equals_iff g j,
            at,
            eq,
            owner_at-set-none owners (slot_of b) k,
          ),
          eq,
        );
  }

-- Every slot is freed and every binding dropped.
pub reset-Assigns :
    {B : Type 0} {holder : B → GoalId} {slot_of : B → ℕ} {slots : List SlotRouting}
    {owners : List (Option GoalId)} {bindings : List (GoalId × B)}
    → Assigns holder slot_of slots owners bindings
    → Assigns holder slot_of slots (map (λ _. none) owners) []
unfolding lookup
reset-Assigns {owners = owners} c = record {
  sized = length-map owners (λ _. none) ∙ c.sized;
  unique = tt;
  bound = λ g b h. absurd (ground (arith, h));
  owned = λ g i h. absurd (ground (arith, h, owner_at-map_none owners i));
}

count_owned : List (Option GoalId) → ℕ
count_owned [] = 0
count_owned (none ∷ owners) = count_owned owners
count_owned (some g ∷ owners) = suc (count_owned owners)

count_owned-le : (owners : List (Option GoalId)) → count_owned owners ≤ length owners
unfolding count_owned
count_owned-le [] = omega arith
count_owned-le (none ∷ owners) = omega (arith, count_owned-le owners)
count_owned-le (some g ∷ owners) = omega (arith, count_owned-le owners)

count_owned-set_none :
    (owners : List (Option GoalId)) (i : ℕ) (g : GoalId)
    → owner_at owners i ≡ some g
    → suc (count_owned (set owners i none)) ≡ count_owned owners
unfolding count_owned owner_at
count_owned-set_none [] i g h = cc
count_owned-set_none (none ∷ owners) zero g h = cc
count_owned-set_none (some o ∷ owners) zero g h = refl
count_owned-set_none (none ∷ owners) (suc i) g h = count_owned-set_none owners i g h
count_owned-set_none (some o ∷ owners) (suc i) g h = ap suc (count_owned-set_none owners i g h)

bindings-le-owned :
    {B : Type 0} (slot_of : B → ℕ) (owners : List (Option GoalId)) (bindings : List (GoalId × B))
    → Unique bindings
    → ((g : GoalId) (b : B) → lookup g bindings ≡ some b → owner_at owners (slot_of b) ≡ some g)
    → length bindings ≤ count_owned owners
unfolding lookup
bindings-le-owned slot_of owners [] u own = omega arith
bindings-le-owned slot_of owners ((g, b) ∷ bindings) (fresh, u) own =
    let mine : owner_at owners (slot_of b) ≡ some g =
      own g b (ground (arith, bytes_equality.equals_iff g g)) in
    omega (
      arith,
      count_owned-set_none owners (slot_of b) g mine,
      bindings-le-owned slot_of (set owners (slot_of b) none) bindings u λ h d at. ground (
        arith,
        own h d,
        bytes_equality.equals_iff g h,
        owner_at-set-none owners (slot_of b) (slot_of d),
      ),
    )

-- There are at most as many bound Goals as slots.
pub bindings-le-slots :
    {B : Type 0} {holder : B → GoalId} {slot_of : B → ℕ} {slots : List SlotRouting}
    {owners : List (Option GoalId)} {bindings : List (GoalId × B)}
    → Assigns holder slot_of slots owners bindings
    → length bindings ≤ length slots
bindings-le-slots {slot_of = slot_of} {owners = owners} {bindings = bindings} c = omega (
  arith,
  c.sized,
  count_owned-le owners,
  bindings-le-owned slot_of owners bindings c.unique λ g b at. (c.bound g b at).1,
)
