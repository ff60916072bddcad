-- ===== src/Rpc/Exchange.antt =====
-- One call from end to end: the request goes from src/rpc_client_endpoint_impl.cpp through
-- src/rpc_server_endpoint_impl.cpp to the application, and its reply goes back.
use Prim.Native.String.{◌++◌ as concat}
use hakoniwa_pdu_rpc.Base.{
  ℕ, ◌+◌, ◌≡◌, refl, sym, ap, Bool, true, false, some, List, [], ◌∷◌, arith, string_equality,
}
use hakoniwa_pdu_rpc.Base.Map.{lookup, lookup-insert}
use hakoniwa_pdu_rpc.Rpc.Types.{
  ℤ, exceeds_result_codes, PduData, RequestHeader, ResponseHeader, RpcResponse, RpcEnv, request_in,
  operation_code_request,
}
use hakoniwa_pdu_rpc.Rpc.Types
use hakoniwa_pdu_rpc.Rpc.ServerEndpoint as Server
use hakoniwa_pdu_rpc.Rpc.ServerEndpoint.Requests.{validate_header_known}
use hakoniwa_pdu_rpc.Rpc.ClientEndpoint as Client
use hakoniwa_pdu_rpc.Rpc.ClientEndpoint.Delivery.{answer_event}

-- The header of the next request of a Client, and that of the reply to it.
abbrev pub next_header : Client.Endpoint → RequestHeader
next_header c = record {
  request_id = Client.uint32 (Client.uint64 (c.current_request_id + 1));
  service_name = c.service_name;
  client_name = c.client_name;
  opcode = operation_code_request;
  status_poll_interval_msec = 0;
}

abbrev pub reply_header : RequestHeader → ℕ → ℤ → ResponseHeader
reply_header h status code = record {
  request_id = h.request_id;
  service_name = h.service_name;
  client_name = h.client_name;
  status = status;
  processing_percentage = 100;
  result_code = code;
}

-- The Client's part up to the request, and the Server's up to the reply.
unfoldable pub calling : RpcEnv → Client.Endpoint → ℕ → ℕ → Client.Endpoint × PduData × Bool
unfolding Client.create_request_buffer Client.call
calling v c timeout now =
    let (c', request) = Client.create_request_buffer v c operation_code_request false in
    let (called, sent) = Client.call v c' request timeout now in (called, request, sent)

unfoldable pub serving :
    RpcEnv
    → Server.Endpoint
    → PduData
    → RequestHeader
    → ℕ
    → ℤ
    → Server.Endpoint × Types.ServerEventType × PduData
unfolding Server.poll Server.put_pending_request Server.send_reply Server.create_reply_buffer
serving v s request h status code =
    let (s', event, _) = Server.poll v (Server.put_pending_request s request) in
    let answer = Server.create_reply_buffer v s' h status code in
    (Server.send_reply s' h.client_name answer, event, answer)

no_pending :
    (s : Server.Endpoint) → s.pending_requests ≡ [] → record s { pending_requests = [] } ≡ s
no_pending s empty = ap (λ (p : List PduData). record s { pending_requests = p }) (sym empty)

alone :
    (v : RpcEnv) (s : Server.Endpoint) (request : PduData) (h : RequestHeader)
    → s.pending_requests ≡ []
    → v.pdu2cpp_request request ≡ h
    → ((Server.poll v (Server.put_pending_request s request)).0 ≡ (Server.dispatch v s h).0)
      × ((Server.poll v (Server.put_pending_request s request)).1 ≡ (Server.dispatch v s h).1)
unfolding Server.poll Server.put_pending_request
alone v s request h empty decoded = ground (arith, no_pending s empty, empty, decoded)

-- A request that its idle, registered Client makes is handed over, the application's reply is sent
-- to that Client, and the Client is idle again at the Server.
pub serves :
    (v : RpcEnv) (s : Server.Endpoint) (request : PduData) (h : RequestHeader) (status id : ℕ)
    (code : ℤ)
    → s.pending_requests ≡ []
    → v.pdu2cpp_request request ≡ h
    → h.opcode ≡ operation_code_request
    → lookup h.client_name s.server_states ≡ some (record { request_id = id; state = Server.idle })
    → (Server.validate_header v s h).1 ≡ true
    → ((serving v s request h status code).1 ≡ request_in)
      × ((serving v s request h status code).0.sends
          ≡ record {
            key = record { robot = s.service_name; pdu = concat h.client_name "Res" };
            bytes = (serving v s request h status code).2;
          }
            ∷ s.sends)
      × (lookup h.client_name (serving v s request h status code).0.server_states
          ≡ some Server.idle_status)
unfolding serving Server.dispatch Server.handle_request_in Server.send_reply Server.reply
    Server.set_status
serves v s request h status id code empty decoded op at valid =
    let n = h.client_name in
    ground (
      arith,
      alone v s request h empty decoded,
      at,
      valid,
      op,
      validate_header_known v s h (record { request_id = id; state = Server.idle }) at,
      lookup-insert n n (record { request_id = h.request_id; state = Server.running })
          s.server_states,
      lookup-insert n n Server.idle_status (Server.dispatch v s h).0.server_states,
      string_equality.equals_iff n n,
    )

-- A Client that runs a call and has no other response waiting takes the one that answers it.
takes_answer :
    (v : RpcEnv) (c : Client.Endpoint) (answer : PduData) (r : ResponseHeader) (later : ℕ)
    → c.client_state.state ≡ Client.running
    → c.pending_responses ≡ []
    → Client.timed_out c later ≡ false
    → v.pdu2cpp_response answer ≡ r
    → r.request_id ≡ c.client_state.request_id
    → Client.validate_header c r ≡ true
    → ((Client.poll v (Client.put_pending_response c answer) later).1 ≡ answer_event r)
      × ((Client.poll v (Client.put_pending_response c answer) later).2
          ≡ some (record { header = r; pdu = answer }))
      × ((Client.poll v (Client.put_pending_response c answer) later).0.client_state.state
          ≡ Client.idle)
unfolding Client.poll Client.put_pending_response Client.check_responses Client.take_response
    Client.handle_response_in Client.timed_out Client.with_state Client.validate_header answer_event
takes_answer v c answer r later run empty fine decoded same valid =
    ground (arith, run, empty, fine, decoded, same, valid)

called_state :
    (v : RpcEnv) (c : Client.Endpoint) (timeout now : ℕ)
    → c.pending_responses ≡ []
    → (calling v c timeout now).2 ≡ true
    → ((calling v c timeout now).0.client_state.state ≡ Client.running)
      × ((calling v c timeout now).0.client_state.request_id ≡ (next_header c).request_id)
      × ((calling v c timeout now).0.pending_responses ≡ [])
      × ((calling v c timeout now).0.service_name ≡ c.service_name)
      × ((calling v c timeout now).0.client_name ≡ c.client_name)
unfolding calling Client.create_request_buffer Client.call Client.begin_call Client.send_request
called_state v c timeout now empty sent = ground (arith, empty, sent)

called_sends :
    (v : RpcEnv) (c : Client.Endpoint) (timeout now : ℕ)
    → (calling v c timeout now).2 ≡ true
    → (calling v c timeout now).0.sends
      ≡ record { key = Client.request_key c; bytes = (calling v c timeout now).1 } ∷ c.sends
unfolding calling Client.create_request_buffer Client.call Client.begin_call Client.send_request
called_sends v c timeout now sent = ground (arith, sent)

own_header :
    (c u : Client.Endpoint) (status : ℕ) (code : ℤ)
    → u.client_state.request_id ≡ (next_header c).request_id
    → u.service_name ≡ c.service_name
    → u.client_name ≡ c.client_name
    → exceeds_result_codes code ≡ false
    → Client.validate_header u (reply_header (next_header c) status code) ≡ true
unfolding Client.validate_header
own_header c u status code i sn cn known = ground (
  arith,
  i,
  sn,
  cn,
  known,
  string_equality.equals_iff c.service_name u.service_name,
  string_equality.equals_iff c.client_name u.client_name,
)

-- The request is the next header, encoded.
request_decoded :
    (v : RpcEnv) (c : Client.Endpoint) (timeout now : ℕ)
    → ((size : ℕ) → v.pdu2cpp_request (v.cpp2pdu_request (next_header c) size) ≡ next_header c)
    → v.pdu2cpp_request (calling v c timeout now).1 ≡ next_header c
unfolding calling Client.create_request_buffer
request_decoded v c timeout now back =
    back (v.get_pdu_size c.pdu_definitions (Client.request_key c))

reply_decoded :
    (v : RpcEnv) (s : Server.Endpoint) (request : PduData) (h : RequestHeader) (status : ℕ)
    (code : ℤ)
    → ((size : ℕ)
        → v.pdu2cpp_response (v.cpp2pdu_response (reply_header h status code) size)
          ≡ reply_header h status code)
    → v.pdu2cpp_response (serving v s request h status code).2 ≡ reply_header h status code
unfolding serving Server.create_reply_buffer
reply_decoded v s request h status code back = back _

-- A call from end to end. The idle Client's request is sent; the Server, where the Client is
-- registered and idle, has no other request waiting; the converters give back the two headers that
-- they were given; the application's result code is a known one; and the poll comes in time. Then
-- the request goes out once on the Client's request channel; when its bytes arrive, the Server hands
-- the request over, sends the reply once on the Client's response channel, and is idle for the
-- Client; and when the bytes of that reply arrive, the Client reports it with the header that the
-- application asked for, and is idle.
pub exchange :
    (v : RpcEnv) (c : Client.Endpoint) (s : Server.Endpoint)
    → (timeout now later status id : ℕ) (code : ℤ) → c.pending_responses ≡ []
    → (calling v c timeout now).2 ≡ true
    → ((size : ℕ) → v.pdu2cpp_request (v.cpp2pdu_request (next_header c) size) ≡ next_header c)
    → s.pending_requests ≡ []
    → lookup c.client_name s.server_states ≡ some (record { request_id = id; state = Server.idle })
    → (Server.validate_header v s (next_header c)).1 ≡ true
    → exceeds_result_codes code ≡ false
    → Client.timed_out (calling v c timeout now).0 later ≡ false
    → ((size : ℕ)
        → v.pdu2cpp_response (v.cpp2pdu_response (reply_header (next_header c) status code) size)
          ≡ reply_header (next_header c) status code)
    → let served = serving v s (calling v c timeout now).1 (next_header c) status code in
      let polled =
        Client.poll v (Client.put_pending_response (calling v c timeout now).0 served.2) later in
      ((calling v c timeout now).0.sends
        ≡ record { key = Client.request_key c; bytes = (calling v c timeout now).1 } ∷ c.sends)
      × (served.1 ≡ request_in)
      × (served.0.sends
          ≡ record {
            key = record { robot = s.service_name; pdu = concat c.client_name "Res" };
            bytes = served.2;
          }
            ∷ s.sends)
      × (lookup c.client_name served.0.server_states ≡ some Server.idle_status)
      × (polled.1 ≡ answer_event (reply_header (next_header c) status code))
      × (polled.2
          ≡ some (record { header = reply_header (next_header c) status code; pdu = served.2 }))
      × (polled.0.client_state.state ≡ Client.idle)
exchange v c s timeout now later status id code empty sent decoded none_pending at valid known fine
      back =
    let k = called_state v c timeout now empty sent in
    let request = (calling v c timeout now).1 in
    let x =
      serves v s request (next_header c) status id code none_pending
        (request_decoded v c timeout now decoded) refl at valid in
    let y =
      takes_answer v (calling v c timeout now).0 (serving v s request (next_header c) status code).2
        (reply_header (next_header c) status code) later k.0 k.2 fine
        (reply_decoded v s (calling v c timeout now).1 (next_header c) status code back) (sym k.1)
        (own_header c (calling v c timeout now).0 status code k.1 k.3 k.4 known) in
    (called_sends v c timeout now sent, x.0, x.1, x.2, y.0, y.1, y.2)
