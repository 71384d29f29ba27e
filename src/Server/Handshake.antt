-- ===== src/Server/Handshake.antt =====
-- internal/server/websocket.go: the handler WebSocket, from the first message of a sender to the end
-- of its session. The first message is what could be read of it; the thread that writes is left out,
-- and so is the table of sessions, in which a newer session of the same peer replaces an older one.
pub mod Resumed
use relayra.Prelude.{
  ℕ, String, Bool, true, false, ◌||◌, not, Option, none, some, List, [], ◌∷◌, ◌==ₛ◌, if◌then◌else◌,
}
use relayra.Models.{WsMessage, WsType, WsSequenceState, listener_ws_scope}
use relayra.Codec.{Codec}
use relayra.Settings.{Settings}
use relayra.Redis.{Redis}
use relayra.Redis.Actions.{Exec, pure, attempt, ◌>>=◌, ◌>>◌}
use relayra.Store.Outbox.{get_ws_sequence_state}
use relayra.Transport.Flush.{Writer}
use relayra.Server.{Session, Ending, blank, send}
use relayra.Server.Inbound.{session_loop}

pub data Refusal : Type 0 where
  no_peer_id invalid_handshake invalid_handshake_type peer_mismatch : Refusal

pub data Handshake : Type 0 where
  refused : Refusal → Handshake
  opened : Session → Writer → Handshake

abbrev pub is_hello : WsType → Bool
is_hello WsType.hello = true
is_hello _ = false

abbrev pub is_resume : WsType → Bool
is_resume WsType.resume = true
is_resume _ = false

-- the identifier of the query where the message has none
abbrev pub peer_of_hello : String → WsMessage → String
peer_of_hello query_peer_id hello = if hello.peer_id ==ₛ "" then query_peer_id else hello.peer_id

abbrev pub received_so_far : Option WsSequenceState → ℕ
received_so_far none = 0
received_so_far (some state) = state.last_received_seq

-- the session, with the reply that it sends first
abbrev pub session_of : String → WsMessage → ℕ → ℕ → Session
session_of peer_id hello last_received_seq now_milli =
    let reply_type = if is_resume hello.type then WsType.resume else WsType.hello in
    send (record (blank reply_type peer_id now_milli) { last_received_seq = last_received_seq })
      (record {
        peer_id = peer_id;
        scope = listener_ws_scope peer_id;
        last_received_seq = last_received_seq;
        sent = [];
        handled = [];
      })

module _ ⦃R : Redis⦄ ⦃C : Codec⦄ (cfg : Settings) (peer_id : String) (now now_milli : ℕ) where
  open R use {Db}

  unfoldable pub open_session : WsMessage → Exec Db Handshake
  open_session hello = do
    state ← get_ws_sequence_state (listener_ws_scope peer_id)
    pure (
        opened (session_of peer_id hello (received_so_far state) now_milli)
          (record { last_sent_seq = hello.last_received_seq; written = [] }))

  unfoldable pub greet : Option WsMessage → Exec Db Handshake
  unfolding open_session
  greet none = pure (refused invalid_handshake)
  greet (some hello) =
      if not (is_hello hello.type || is_resume hello.type)
      then pure (refused invalid_handshake_type)
      else if not (peer_of_hello peer_id hello ==ₛ peer_id)
      then pure (refused peer_mismatch)
      else open_session hello

  unfoldable pub handshake : Option WsMessage → Exec Db Handshake
  unfolding greet
  handshake hello = if peer_id ==ₛ "" then pure (refused no_peer_id) else greet hello

  -- the session as it ended, where there was one
  unfoldable pub run_session :
      Exec Db (Unit {0}) → List WsMessage → Handshake → Exec Db (Option (Session × Ending))
  run_session touch_peer msgs (refused _) = pure none
  run_session touch_peer msgs (opened session writer) = do
    attempt touch_peer
    ended ← session_loop cfg peer_id now now_milli touch_peer msgs session
    pure (some ended)

  unfoldable pub web_socket :
      Exec Db (Unit {0}) → Option WsMessage → List WsMessage → Exec Db (Option (Session × Ending))
  unfolding run_session
  web_socket touch_peer hello msgs = do h ← handshake hello; run_session touch_peer msgs h
