-- ===== src/Tests/Sender.antt =====
-- The theorems of Store/Sender and Transport/Outgoing at concrete inputs.
use relayra.Prelude.{◌≡◌, refl, List, [], ◌∷◌, none, some}
use relayra.Errors.{ok}
use relayra.Models.{WsMessage, WsType}
use relayra.Redis.Actions.{State, Outcome, answered, cut, calm, ◌>>=◌}
use relayra.Store.Sender.{push_result}
use relayra.Store.Sender.Pending.{IsPending}
use relayra.Store.Sender.Pending.History.{
  Call, lease, repush, acknowledge, run_calls, pushed-IsPending,
}
use relayra.Store.Outbox.{message_of, message_key}
use relayra.Store.Outbox.Contiguous.{IsContiguous}
use relayra.Transport.Outgoing.{enqueue_ws_message, decode_ws_outbox_message, enqueue-decode}
use relayra.Tests.Chunks.{a_result}
use relayra.Tests.Outbox.{two_messages, two_messages-IsContiguous}
use relayra.Tests.Memory.{Memory, empty, memory}
use relayra.Tests.Encodings.{codec}

abbrev start : State Memory
start = record { db = empty; net = [] }

pushed : (push_result a_result 100000 100 start).0 ≡ ok tt
unfolding push_result ◌>>=◌
pushed = refl

-- some of the exchanges fail
abbrev calls : List (Call × List Outcome)
calls =
    (lease 5 30 100, [])
    ∷ (acknowledge ("r2" ∷ []), answered ∷ cut 1 ∷ [])
    ∷ (repush (a_result ∷ []), cut 1 ∷ [])
    ∷ []

pushed-IsPending_example :
    IsPending "r1" (run_calls calls (push_result a_result 100000 100 start).1).1.db
pushed-IsPending_example =
    pushed-IsPending a_result 100000 100 calls start (refl, ((refl, tt), (tt, tt))) pushed

abbrev a_message : WsMessage
a_message = record {
  type = WsType.keepalive;
  peer_id = "p1";
  seq = 0;
  ack = 0;
  last_received_seq = 0;
  sent_at = 0;
  request = none;
  chunk = none;
  request_state = none;
  result = none;
  result_chunk = none;
  chunk_receipt = none;
  probe = none;
  error = "";
}

enqueue-decode_example :
    (e : Memory) × (enqueue_ws_message "s" (some a_message) "" 7000 7 (calm two_messages)
      ≡ (ok (3, record a_message { sent_at = 7000; seq = 3 }), calm e))
    × IsContiguous e "s" 0 3
    × (decode_ws_outbox_message (message_of "s" 3 (e (message_key "s" 3)))
        ≡ ok (record a_message { sent_at = 7000; seq = 3 }))
enqueue-decode_example =
    enqueue-decode two_messages "s" 0 2 a_message "" 7000 7 two_messages-IsContiguous
