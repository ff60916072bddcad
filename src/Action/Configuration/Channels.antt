-- ===== src/Action/Configuration/Channels.antt =====
-- The numbers of the channels of a definition that src/action_configuration.cpp has read.
use hakoniwa_pdu_rpc.Base.{
  ℕ, zero, suc, ◌+◌, ◌*◌, ◌%◌, ◌^◌, ◌≤◌, ◌<◌, ◌≡◌, refl, sym, ap, ◌∙◌, not, some, List, [], ◌∷◌,
  String, arith, eqb, ltb, string_equality, Holds, Holds-bind, Holds-guard, Holds-some,
}
use hakoniwa_pdu_rpc.Action.Configuration.{
  ActionChannelDefinition, ActionDefinition, ActionEndpointReference, ActionBufferHeap, JsonEnv,
  max_slot_count, read_required_text, read_endpoint, read_buffer_heap, names_package, slot_channels,
  all_channels, parse_action,
}

abbrev pub channel_ids : List ActionChannelDefinition → List ℕ
channel_ids [] = []
channel_ids (channel ∷ rest) = channel.channel_id ∷ channel_ids rest

abbrev pub count_from : ℕ → ℕ → List ℕ
count_from i zero = []
count_from i (suc n) = i ∷ count_from (suc i) n

abbrev pub triple : ℕ → ℕ
triple zero = 0
triple (suc n) = suc (suc (suc (triple n)))

-- A number that is small enough does not wrap.
unwrapped : (k : ℕ) → k < 2 ^ 32 → k % 2 ^ 32 ≡ k
unwrapped k h = omega arith

-- Three slots in a row of the count.
three :
    (i a b c : ℕ) (xs ys : List ℕ)
    → a ≡ i
    → b ≡ suc i
    → c ≡ suc (suc i)
    → xs ≡ ys
    → (a ∷ b ∷ c ∷ xs) ≡ (i ∷ suc i ∷ suc (suc i) ∷ ys)
three i a b c xs ys p q r e = cc

all_channels-count_from :
    (type : String) (n slot i : ℕ)
    → i ≡ slot * 3
    → slot + n ≤ max_slot_count
    → channel_ids (all_channels type slot n) ≡ count_from i (triple n)
unfolding all_channels slot_channels
all_channels-count_from type zero slot i at fits = refl
all_channels-count_from type (suc n) slot i at fits =
    let base = unwrapped (slot * 3) (omega arith) in
    three i _ _ _ _ _ (base ∙ sym at)
      (ap (λ k. (k + 1) % 2 ^ 32) base ∙ unwrapped (slot * 3 + 1) (omega arith) ∙ omega arith)
      (ap (λ k. (k + 2) % 2 ^ 32) base ∙ unwrapped (slot * 3 + 2) (omega arith) ∙ omega arith)
      (all_channels-count_from type n (suc slot) (suc (suc (suc i))) (omega arith) (omega arith))

abbrev Numbered : ActionDefinition → Type 0
Numbered d = channel_ids d.channels ≡ count_from 0 (triple d.slot_count)

parse_action-Holds : (j : JsonEnv) (action : j.Json) → Holds Numbered (parse_action j action)
unfolding parse_action
parse_action-Holds j action = Holds-guard Numbered (j.is_object action) _ λ _.
    Holds-bind Numbered (read_required_text j action "name") _ λ name _.
      Holds-bind Numbered (read_required_text j action "type") _ λ type _.
        Holds-guard Numbered (names_package type) _ λ _.
          Holds-bind Numbered (j.find action "slotCount") _ λ slot_count _.
            Holds-guard Numbered (j.is_number_unsigned slot_count) _ λ _.
              Holds-guard Numbered (not (eqb (j.get_number slot_count) 0)) _ λ _.
                Holds-guard Numbered (not (ltb max_slot_count (j.get_number slot_count))) _ λ fits.
                  Holds-bind {A = ActionEndpointReference} Numbered
                    (read_endpoint j action "clientEndpoint") _
                    λ client _.
                      Holds-bind {A = ActionEndpointReference} Numbered
                        (read_endpoint j action "serverEndpoint") _
                        λ server _.
                          Holds-bind {A = ActionBufferHeap} Numbered (read_buffer_heap j action) _
                            λ heap _.
                              all_channels-count_from type (j.get_number slot_count) 0 0 refl
                                (ground (arith, fits))

-- The channels of a definition that is read from JSON, three for each slot, are numbered
-- consecutively from 0.
pub parse_action-count_from :
    (j : JsonEnv) (action : j.Json) (d : ActionDefinition)
    → parse_action j action ≡ some d
    → channel_ids d.channels ≡ count_from 0 (triple d.slot_count)
parse_action-count_from j action d e = Holds-some Numbered _ d e (parse_action-Holds j action)
