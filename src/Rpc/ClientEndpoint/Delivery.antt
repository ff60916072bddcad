-- ===== src/Rpc/ClientEndpoint/Delivery.antt =====
-- Which response `poll` hands to the caller, and what it leaves behind.
use hakoniwa_pdu_rpc.Base.{
  ℕ, ◌≡◌, ◌≢◌, inl, inr, refl, true, false, Option, none, some, List, [], ◌∷◌, arith,
  string_equality, if_split, Option-split, Bool-cases,
}
use hakoniwa_pdu_rpc.Rpc.Types.{
  PduData, ResponseHeader, RpcResponse, ClientEventType, response_in, response_cancel,
  response_timeout, result_code_canceled, is_result_code, exceeds_result_codes, RpcEnv,
}
use hakoniwa_pdu_rpc.Rpc.ClientEndpoint.{
  Endpoint, idle, with_state, take_response, validate_header, handle_response_in, timed_out,
  check_responses, poll, is_idle,
}

-- `found` is the first of `pdus` that answers request `id`, and `others` are the rest in order.
pub data FirstAnswer (v : RpcEnv) (id : ℕ) : List PduData → PduData → List PduData → Type 0 where
  here :
      {pdu : PduData} {rest : List PduData}
      → (v.pdu2cpp_response pdu).request_id ≡ id
      → FirstAnswer v id (pdu ∷ rest) pdu rest
  later :
      {pdu found : PduData} {rest others : List PduData}
      → (v.pdu2cpp_response pdu).request_id ≢ id
      → FirstAnswer v id rest found others
      → FirstAnswer v id (pdu ∷ rest) found (pdu ∷ others)

pub take_response-FirstAnswer :
    (v : RpcEnv) (id : ℕ) (pdus : List PduData) (found : PduData) (others : List PduData)
    → take_response v id pdus ≡ some (found, others)
    → FirstAnswer v id pdus found others
unfolding take_response
take_response-FirstAnswer v id [] found others e = absurd (ground (arith, e))
take_response-FirstAnswer v id (pdu ∷ rest) found others e =
    grind (arith, here, later, take_response-FirstAnswer v id rest)

pub FirstAnswer-take_response :
    (v : RpcEnv) (id : ℕ) (pdus : List PduData) (found : PduData) (others : List PduData)
    → FirstAnswer v id pdus found others
    → take_response v id pdus ≡ some (found, others)
unfolding take_response
FirstAnswer-take_response v id _ found others (here e) = ground (arith, e)
FirstAnswer-take_response v id _ _ _ (later {pdu = pdu} {found = f} {rest = r} {others = o} ne q) =
    ground (arith, ne, FirstAnswer-take_response v id r f o q)

-- None of `pdus` answers request `id`.
abbrev pub NoAnswer : RpcEnv → ℕ → List PduData → Type 0
NoAnswer v id [] = Unit {0}
NoAnswer v id (pdu ∷ rest) = ((v.pdu2cpp_response pdu).request_id ≢ id) × NoAnswer v id rest

take_response-NoAnswer :
    (v : RpcEnv) (id : ℕ) (pdus : List PduData)
    → take_response v id pdus ≡ none
    → NoAnswer v id pdus
unfolding take_response
take_response-NoAnswer v id [] e = tt
take_response-NoAnswer v id (pdu ∷ rest) e =
    (λ same. absurd (ground (arith, e, same)), take_response-NoAnswer v id rest (ground (arith, e)))

-- What a response that reaches the caller has to be.
pub record IsAnswer (v : RpcEnv) (s : Endpoint) (r : RpcResponse) (t : Endpoint) : Type 0 where
  pub decoded : r.header ≡ v.pdu2cpp_response r.pdu
  pub first : FirstAnswer v s.client_state.request_id s.pending_responses r.pdu t.pending_responses
  pub addressed : (r.header.service_name ≡ s.service_name) × (r.header.client_name ≡ s.client_name)
  pub known_code : exceeds_result_codes r.header.result_code ≡ false

unfoldable pub answer_event : ResponseHeader → ClientEventType
answer_event header = elim (is_result_code header.result_code result_code_canceled) [
  | true ↦ response_cancel
  | false ↦ response_in
]

pub data Polled (v : RpcEnv) (s : Endpoint) (now : ℕ)
    : Endpoint × ClientEventType × Option RpcResponse → Type 0 where
  not_calling : s.client_state.state ≡ idle → Polled v s now (s, ClientEventType.none, none)
  late : timed_out s now ≡ true → Polled v s now (s, response_timeout, none)
  waiting :
      s.client_state.state ≢ idle
      → timed_out s now ≡ false
      → NoAnswer v s.client_state.request_id s.pending_responses
      → Polled v s now (s, ClientEventType.none, none)
  answered :
      {r : RpcResponse} {others : List PduData} {event : ClientEventType}
      → s.client_state.state ≢ idle
      → timed_out s now ≡ false
      → IsAnswer v s r (record s { pending_responses = others })
      → event ≡ answer_event r.header
      → Polled v s now (with_state (record s { pending_responses = others }) idle, event, some r)
  discarded :
      {r : RpcResponse} {others : List PduData}
      → s.client_state.state ≢ idle
      → timed_out s now ≡ false
      → FirstAnswer v s.client_state.request_id s.pending_responses r.pdu others
      → validate_header s r.header ≡ false
      → Polled v s now
          (with_state (record s { pending_responses = others }) idle, ClientEventType.none, some r)

valid-IsAnswer :
    (v : RpcEnv) (s : Endpoint) (pdu : PduData) (others : List PduData)
    → take_response v s.client_state.request_id s.pending_responses ≡ some (pdu, others)
    → validate_header s (v.pdu2cpp_response pdu) ≡ true
    → IsAnswer v s
        (record { header = v.pdu2cpp_response pdu; pdu = pdu })
        (record s { pending_responses = others })
unfolding validate_header
valid-IsAnswer v s pdu others e ok = record {
  decoded = refl;
  first = take_response-FirstAnswer v s.client_state.request_id s.pending_responses pdu others e;
  addressed = ground (
    arith,
    ok,
    string_equality.equals_iff (v.pdu2cpp_response pdu).service_name s.service_name,
    string_equality.equals_iff (v.pdu2cpp_response pdu).client_name s.client_name,
  );
  known_code = ground (arith, ok);
}

same_check :
    (s : Endpoint) (others : List PduData) (header : ResponseHeader)
    → validate_header (record s { pending_responses = others }) header ≡ validate_header s header
unfolding validate_header
same_check s others header = refl

handled :
    (v : RpcEnv) (s : Endpoint) (now : ℕ) (pdu : PduData) (others : List PduData)
    → s.client_state.state ≢ idle
    → timed_out s now ≡ false
    → take_response v s.client_state.request_id s.pending_responses ≡ some (pdu, others)
    → Polled v s now (
        let h =
          handle_response_in (record s { pending_responses = others }) (v.pdu2cpp_response pdu) in
        (h.0, h.1, some (record { header = v.pdu2cpp_response pdu; pdu = pdu })))
unfolding handle_response_in answer_event
handled v s now pdu others busy fine e =
    let header = v.pdu2cpp_response pdu in
    let r : RpcResponse = record { header = header; pdu = pdu } in
    let found =
      take_response-FirstAnswer v s.client_state.request_id s.pending_responses pdu others e in
    elim (Bool-cases (validate_header s header)) [
      | inr bad ↦ rw (same_check s others header, bad) (discarded {r = r} busy fine found bad)
      | inl ok ↦ elim (Bool-cases (is_result_code header.result_code result_code_canceled)) [
        | inl c ↦
            rw (same_check s others header, ok, c)
              (answered {r = r} busy fine (valid-IsAnswer v s pdu others e ok) (ground (arith, c)))
        | inr c ↦
            rw (same_check s others header, ok, c)
              (answered {r = r} busy fine (valid-IsAnswer v s pdu others e ok) (ground (arith, c)))
      ]
    ]

pub poll-Polled : (v : RpcEnv) (s : Endpoint) (now : ℕ) → Polled v s now (poll v s now)
unfolding poll check_responses timed_out
poll-Polled v s now =
    if_split (Polled v s now) (is_idle s.client_state.state) _ _
      (λ i. not_calling (ground (arith, i)))
      λ i.
        let busy : s.client_state.state ≢ idle = ground (arith, i) in
        if_split (Polled v s now) (timed_out s now) _ _ (λ l. late l)
          λ fine.
            Option-split (Polled v s now)
              (take_response v s.client_state.request_id s.pending_responses) _ _
              (λ e.
                waiting busy fine
                  (take_response-NoAnswer v s.client_state.request_id s.pending_responses e))
              λ found e. handled v s now found.0 found.1 busy fine e
