-- ===== src/Tests/Server.antt =====
-- The theorems of Server at concrete inputs.
use relayra.Prelude.{ℕ, List, [], ◌∷◌}
use relayra.Models.{WsMessage, request_state, ack}
use relayra.Redis.Actions.{State, answered, cut, Exec, pure}
use relayra.Server.{Session, blank, read_loop}
use relayra.Server.Order.{IsOrdered, read_loop-IsOrdered}
use relayra.Tests.Memory.{Memory, empty, memory}

abbrev session : Session
session = record {
  peer_id = "p1";
  scope = "listener:p1";
  last_received_seq = 2;
  sent = [];
  handled = [];
}

abbrev numbered_state : ℕ → WsMessage
numbered_state n = record (blank request_state "p1" 5) { seq = n }

-- the second message arrives twice
abbrev arriving : List WsMessage
arriving =
    numbered_state 3
    ∷ numbered_state 4
    ∷ blank ack "p1" 6
    ∷ numbered_state 4
    ∷ numbered_state 5
    ∷ []

-- the number of the second message cannot be stored
abbrev failing : State Memory
failing = record { db = empty; net = answered ∷ answered ∷ answered ∷ cut 0 ∷ [] }

abbrev accept : WsMessage → Exec Memory (Unit {0})
accept msg = pure tt

read_loop-IsOrdered_example :
    IsOrdered 2 [] (read_loop accept (pure tt) 100 100000 arriving session failing).0
read_loop-IsOrdered_example =
    read_loop-IsOrdered accept (pure tt) 100 100000 arriving session failing
