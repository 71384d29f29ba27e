-- ===== src/Tests/Relay.antt =====
-- The theorems of Relay, Server/Poll, Server/Outbound and Poller at concrete inputs.
use relayra.Prelude.{◌+◌, ◌≤◌, ◌<◌, ◌≡◌, ◌≢◌, refl, List, [], ◌∷◌, none, true, false, arith, length}
use relayra.Errors.{ok}
use relayra.Models.{PollPayloadUp, PollPayloadDown, RelayRequest}
use relayra.Settings.{Settings, sender_request_lease_duration}
use relayra.Redis.Actions.{State, Outcome, answered, cut, calm, ◌>>=◌}
use relayra.Store.Sender.{
  push_result, get_sender_request_state, result_is_pending, store_sender_request_state,
}
use relayra.Store.Sender.Pending.History
use relayra.Store.Sender.Pending.History.{pushed-IsPending}
use relayra.Store.Sender.Pending.{IsPending}
use relayra.Store.Results.Kept.{AllStored}
use relayra.Store.Queue.{
  list_active_leased_requests, lease_requests, apply_request_states, get_request_webhook_url,
}
use relayra.Store.Results.{store_result}
use relayra.Server.Results.{store_results}
use relayra.Server.Outbound.{next_outbound_payload}
use relayra.Server.Outbound.Size.{next_outbound_payload_bounds}
use relayra.Server.Poll.{process_poll_payload, wait_for_queued_requests}
use relayra.Server.Poll.Acknowledged.{acknowledged-AllStored}
use relayra.Poller.Incoming.{handle_incoming_request}
use relayra.Poller.Claims.{Call, arrive, run, acknowledge, run_calls, again-not_dispatched}
use relayra.Poller.Cycle.{build_payload_up}
use relayra.Relay.{Nodes, Reach, here, next, build, handle, answer_poll}
use relayra.Relay.Safety.{IsHeld, Reach-IsHeld}
use relayra.Tests.Proxies.{manager, all_can}
use relayra.Tests.Chunks.{a_request, a_result}
use relayra.Tests.Memory.{Memory, empty, memory}
use relayra.Tests.Encodings.{codec}

abbrev pub cfg : Settings
cfg = record {
  poll_interval = 5;
  poll_batch_size = 2;
  request_timeout = 30;
  long_poll_wait = 25;
  transport_chunk_size = 100000;
  ws_idle_timeout = 60;
  ws_reconnect_max_seconds = 60;
  result_ttl = 60;
  uses_websocket = false;
}

-- the first of two results cannot be stored
abbrev up : PollPayloadUp
up = record {
  results = a_result ∷ record a_result { request_id = "r2" } ∷ [];
  request_states = [];
  chunk_receipts = [];
  probe = none;
}

abbrev start : State Memory
start = record { db = empty; net = answered ∷ cut 0 ∷ [] }

abbrev down : PollPayloadDown
down = record { requests = []; request_chunks = []; ack_result_ids = "r2" ∷ []; probe = none }

abbrev no_requests : State Memory
no_requests = calm empty

nothing_out :
    (next_outbound_payload cfg "p1" 100 no_requests).0
    ≡ ok (record { requests = []; chunks = []; remaining = 2 })
unfolding next_outbound_payload list_active_leased_requests lease_requests ◌>>=◌
nothing_out = refl

next_outbound_payload_bounds_example : length {A = RelayRequest} [] + 0 ≤ 2
next_outbound_payload_bounds_example =
    next_outbound_payload_bounds cfg "p1" 100 no_requests nothing_out

answered_poll : (process_poll_payload cfg "p1" up 0 100 101 start).0 ≡ ok (down, [])
unfolding process_poll_payload apply_request_states store_results store_result
    get_request_webhook_url wait_for_queued_requests next_outbound_payload
    list_active_leased_requests lease_requests ◌>>=◌
answered_poll = refl

acknowledged-AllStored_example :
    AllStored ("r2" ∷ []) (process_poll_payload cfg "p1" up 0 100 101 start).1.db
acknowledged-AllStored_example = acknowledged-AllStored cfg "p1" up 0 100 101 start answered_poll

arrived : (handle_incoming_request cfg "l1" a_request 100 100000 (calm empty)).0 ≡ ok true
unfolding handle_incoming_request get_sender_request_state result_is_pending
    store_sender_request_state ◌>>=◌
arrived = refl

-- it is executed, and another request arrives; some of the exchanges fail
abbrev calls : List (Call × List Outcome)
calls =
    (run "r1" a_result 101 101000 110 110000, answered ∷ cut 1 ∷ [])
    ∷ (arrive (record a_request { id = "r2" }) 105 105000, cut 0 ∷ [])
    ∷ (acknowledge ("r2" ∷ []), [])
    ∷ []

soon : 120 < 100 + sender_request_lease_duration cfg
unfolding sender_request_lease_duration
soon = omega arith

again-not_dispatched_example :
    (handle_incoming_request cfg "l1" a_request 120 120000 (record {
      db =
          (run_calls cfg "l1" calls
            (handle_incoming_request cfg "l1" a_request 100 100000 (calm empty)).1).1.db;
      net = answered ∷ cut 1 ∷ [];
    })).0
    ≢ ok true
again-not_dispatched_example =
    again-not_dispatched cfg "l1" a_request a_request 100 100000 (calm empty) calls
      (answered ∷ cut 1 ∷ []) 120 120000 arrived
      ((omega arith, omega arith), (omega arith, ((refl, tt), tt))) refl refl soon

abbrev waiting : Nodes
waiting = record {
  sender = (History.run_calls [] (push_result a_result 100000 100 (calm empty)).1).1.db;
  listener = empty;
  answers = [];
}

abbrev built : Nodes
built = record waiting {
  sender = (build_payload_up cfg "l1" 101 101000 (calm waiting.sender)).1.db;
}

-- the listener handles a poll, and its answer is lost
abbrev answered_once : Nodes
answered_once =
    answer_poll built
      (process_poll_payload cfg "p1" up 0 102 103 (record { db = empty; net = cut 0 ∷ [] }))

stored : (push_result a_result 100000 100 (calm empty)).0 ≡ ok tt
unfolding push_result ◌>>=◌
stored = refl

pushed : IsPending "r1" waiting.sender
pushed = pushed-IsPending a_result 100000 100 [] (calm empty) tt stored

steps : Reach cfg all_can manager "l1" waiting answered_once
steps = next (next here (build 101 101000 refl)) (handle "p1" up 0 102 103 (cut 0 ∷ []) refl)

Reach-IsHeld_example : IsHeld "r1" answered_once
Reach-IsHeld_example =
    Reach-IsHeld cfg all_can manager "l1" "r1" waiting answered_once refl pushed steps
