-- ===== src/Rpc/ClientServices/Polling.antt =====
-- Which service an event of a poll over all services belongs to.
use hakoniwa_pdu_rpc.Base.{ℕ, ◌≢◌, Option, none, [], ◌∷◌, String}
use hakoniwa_pdu_rpc.Rpc.Types.{
  RpcResponse, ClientEventType, response_in, response_cancel, response_timeout, RpcEnv,
}
use hakoniwa_pdu_rpc.Rpc.ClientEndpoint.{Endpoint}
use hakoniwa_pdu_rpc.Rpc.ClientEndpoint as Client
use hakoniwa_pdu_rpc.Rpc.ClientEndpoint.Delivery.{Polled, poll-Polled}
use hakoniwa_pdu_rpc.Rpc.ClientServices.{Clients, poll}

-- The services before the one with the event are polled without one, that one is polled, and those
-- after it are left alone.
pub data PolledAll (v : RpcEnv) (now : ℕ)
    : Clients → Clients → ClientEventType → String → Option RpcResponse → Type 0 where
  nothing : PolledAll v now [] [] ClientEventType.none "" none
  passed :
      {name found_name : String} {s t : Endpoint} {rest rest' : Clients} {event : ClientEventType}
      {response found_response : Option RpcResponse}
      → Polled v s now (t, ClientEventType.none, response)
      → PolledAll v now rest rest' event found_name found_response
      → PolledAll v now ((name, s) ∷ rest) ((name, t) ∷ rest') event found_name found_response
  here :
      {name : String} {s t : Endpoint} {rest : Clients} {event : ClientEventType}
      {response : Option RpcResponse}
      → event ≢ ClientEventType.none
      → Polled v s now (t, event, response)
      → PolledAll v now ((name, s) ∷ rest) ((name, t) ∷ rest) event name response

abbrev OfService :
    RpcEnv → ℕ → Clients → Clients × ClientEventType × String × Option RpcResponse → Type 0
OfService v now clients r = PolledAll v now clients r.0 r.1 r.2 r.3

first_poll :
    (v : RpcEnv) (now : ℕ) (name : String) (s t : Endpoint) (rest : Clients)
    → (event : ClientEventType) (response : Option RpcResponse)
    → (later : Clients × ClientEventType × String × Option RpcResponse)
    → Polled v s now (t, event, response)
    → OfService v now rest later
    → OfService v now ((name, s) ∷ rest) (elim event [
      | ClientEventType.none ↦ ((name, t) ∷ later.0, later.1, later.2, later.3)
      | found ↦ ((name, t) ∷ rest, found, name, response)
    ])
first_poll v now name s t rest ClientEventType.none response later p q = passed p q
first_poll v now name s t rest response_in response later p q = here (λ e. cc) p
first_poll v now name s t rest response_cancel response later p q = here (λ e. cc) p
first_poll v now name s t rest response_timeout response later p q = here (λ e. cc) p

-- A poll over all services polls them in order up to the first event, reports that event with the
-- name of its service, each of these polls being one that `Polled` allows, and leaves the rest.
pub poll-PolledAll :
    (v : RpcEnv) (clients : Clients) (now : ℕ)
    → let r = poll v clients now in PolledAll v now clients r.0 r.1 r.2 r.3
unfolding poll
poll-PolledAll v [] now = nothing
poll-PolledAll v ((name, s) ∷ rest) now =
    first_poll v now name s (Client.poll v s now).0 rest (Client.poll v s now).1
      (Client.poll v s now).2 (poll v rest now) (poll-Polled v s now) (poll-PolledAll v rest now)
