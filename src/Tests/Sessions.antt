-- ===== src/Tests/Sessions.antt =====
-- The theorems of Transport/Flush, Server/Handshake and Poller/Backoff at concrete inputs.
use relayra.Prelude.{ℕ, ◌≡◌, true, some, List, [], ◌∷◌, arith}
use relayra.Models.{WsMessage, WsType}
use relayra.Redis.Actions.{Exec, calm, pure}
use relayra.Transport.Flush.{Writer, flush_outbox}
use relayra.Transport.Flush.Ordered.{Writes, flush_outbox-Writes}
use relayra.Poller.Backoff.{after_failures, after_failures-doubled}
use relayra.Server.{blank}
use relayra.Server.Handshake.{web_socket}
use relayra.Server.Handshake.Resumed.{Resumes, number_read, web_socket-Resumes}
use relayra.Server.Events.{rebuild_listener_ws_outbox}
use relayra.Tests.Relay.{cfg}
use relayra.Tests.Outbox.{two_messages}
use relayra.Tests.Memory.{Memory, memory, empty}
use relayra.Tests.Encodings.{codec}

-- two messages are in the outbox, and one of them was sent before
abbrev writer : Writer
writer = record { last_sent_seq = 1; written = [] }

abbrev rebuild : ℕ → Exec Memory (Unit {0})
rebuild = rebuild_listener_ws_outbox cfg "p1" 100 100000

flush_outbox-Writes_example :
    Writes "s"
      (λ msg. true)
      rebuild
      writer
      (flush_outbox "s" (λ msg. true) rebuild 3 writer (calm two_messages)).0
flush_outbox-Writes_example =
    flush_outbox-Writes "s" (λ msg. true) rebuild 3 writer (calm two_messages)

after_failures-doubled_example : after_failures 6 30 1 ≡ 30
after_failures-doubled_example = after_failures-doubled 6 1 30 (omega arith) (omega arith)

abbrev hello : WsMessage
hello = blank WsType.hello "p1" 100000

-- the second of them has no place in the order
abbrev numbered : List WsMessage
numbered =
    record (blank WsType.request_state "p1" 100000) { seq = 1 }
    ∷ record (blank WsType.request_state "p1" 100000) { seq = 3 }
    ∷ []

web_socket-Resumes_example :
    Resumes cfg "p1" 100 100000
      (pure tt)
      numbered
      (number_read cfg "p1" 100 100000 (pure tt) numbered (calm empty))
      (web_socket cfg "p1" 100 100000 (pure tt) (some hello) numbered (calm empty)).0
web_socket-Resumes_example =
    web_socket-Resumes cfg "p1" 100 100000 (pure tt) numbered (some hello) (calm empty)
