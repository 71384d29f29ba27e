-- ===== src/Server.antt =====
-- internal/server/websocket.go: the loop in which the listener reads the messages of one websocket
-- session. The handler of a message and the update of the peer's time are parameters of the loop.
pub mod Auth
pub mod Api
pub mod Order
pub mod Outbound
pub mod Results
pub mod Events
pub mod Inbound
pub mod Handshake
pub mod Poll
use relayra.Prelude.{
  ℕ, ◌+◌, String, Bool, true, false, ◌&&◌, not, Option, none, some, List, [], ◌∷◌, ◌++◌, ltb, leb,
  ◌==◌, ◌==ₛ◌, if◌then◌else◌,
}
use relayra.Models.{WsMessage, WsType, ProbeMessage, ack, keepalive}
use relayra.Redis.{Redis}
use relayra.Redis.Actions.{Exec, pure, attempt, try, ◌>>=◌, ◌>>◌}
use relayra.Store.Outbox.{ack_ws_outbox_through, set_ws_last_received_seq}

-- `sent` has the messages that were given to the writer, and `handled` those whose handler returned
-- without an error, both in their order.
pub record Session : Type 0 where
  pub peer_id : String
  pub scope : String
  pub last_received_seq : ℕ
  pub sent : List WsMessage
  pub handled : List WsMessage

-- why the session was shut down
pub data Ending : Type 0 where
  read_failure peer_mismatch ack_failed out_of_order handling_failed cursor_failed : Ending

abbrev pub is_ack : WsType → Bool
is_ack ack = true
is_ack _ = false

abbrev pub is_keepalive : WsType → Bool
is_keepalive keepalive = true
is_keepalive _ = false

abbrev pub blank : WsType → String → ℕ → WsMessage
blank type peer_id sent_at = record {
  type = type;
  peer_id = peer_id;
  seq = 0;
  ack = 0;
  last_received_seq = 0;
  sent_at = sent_at;
  request = none;
  chunk = none;
  request_state = none;
  result = none;
  result_chunk = none;
  chunk_receipt = none;
  probe = none;
  error = "";
}

abbrev pub send : WsMessage → Session → Session
send msg s = record s { sent = s.sent ++ msg ∷ [] }

abbrev pub send_ack : ℕ → ℕ → Session → Session
send_ack seq now_milli s = send (record (blank ack s.peer_id now_milli) { ack = seq }) s

-- a probe that is not an answer is answered
abbrev pub answer_probe : Option ProbeMessage → ℕ → Session → Session
answer_probe none now_milli s = s
answer_probe (some probe) now_milli s =
    let answer : ProbeMessage = record {
      id = probe.id;
      sequence = probe.sequence;
      sent_at = probe.sent_at;
      ack = true;
      probe_only = false;
    } in
    if not probe.ack
    then send (record (blank keepalive s.peer_id now_milli) { probe = some answer }) s
    else s

-- a message that was handled, and the number up to which messages have been received
abbrev pub note : WsMessage → Session → Session
note msg s = record s { handled = s.handled ++ msg ∷ [] }

module _ ⦃R : Redis⦄ where
  open R use {Db}

  module _ (handle_inbound : WsMessage → Exec Db (Unit {0})) (touch_peer : Exec Db (Unit {0}))
      (now now_milli : ℕ) where
    abbrev Loop : Type 0
    Loop = Session → Exec Db (Session × Ending)

    abbrev after_ack : Option (Unit {0}) → Loop → Loop
    after_ack none rest s = pure (s, ack_failed)
    after_ack (some _) rest s = rest s

    -- what follows the handler of a message
    abbrev after_cursor : WsMessage → Option (Unit {0}) → Loop → Loop
    after_cursor msg none rest s = pure (s, cursor_failed)
    after_cursor msg (some _) rest s =
        rest (send_ack msg.seq now_milli (record s { last_received_seq = msg.seq }))

    after_handling : WsMessage → Option (Unit {0}) → Loop → Loop
    after_handling msg none rest s = pure (s, handling_failed)
    after_handling msg (some _) rest s =
        if ltb 0 msg.seq
        then (do
          stored ← try (set_ws_last_received_seq s.scope msg.seq now)
          after_cursor msg stored rest (note msg s))
        else rest (note msg s)

    handle : WsMessage → Loop → Loop
    unfolding after_handling
    handle msg rest s = do done ← try (handle_inbound msg); after_handling msg done rest s

    -- the checks of the sequence number
    in_sequence : WsMessage → Loop → Loop
    unfolding handle
    in_sequence msg rest s =
        if not (ltb 0 msg.seq)
        then handle msg rest s
        else if leb msg.seq s.last_received_seq
        then rest (send_ack s.last_received_seq now_milli s)
        else if not (msg.seq == s.last_received_seq + 1)
        then pure (s, out_of_order)
        else handle msg rest s

    -- one round of the loop, after a message has been read
    read_message : WsMessage → Loop → Loop
    unfolding in_sequence
    read_message msg rest s = do
      attempt touch_peer
      if not (msg.peer_id ==ₛ "") && not (msg.peer_id ==ₛ s.peer_id)
          then pure (s, peer_mismatch)
          else if is_ack msg.type
          then (do
            acked ← try (do ack_ws_outbox_through s.scope msg.ack; pure tt)
            after_ack acked rest s)
          else if is_keepalive msg.type
          then rest (answer_probe msg.probe now_milli s)
          else in_sequence msg rest s

    -- the messages are those that are read until a read fails
    unfoldable pub read_loop : List WsMessage → Loop
    unfolding read_message
    read_loop [] s = pure (s, read_failure)
    read_loop (msg ∷ msgs) s = read_message msg (read_loop msgs) s
