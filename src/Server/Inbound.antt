-- ===== src/Server/Inbound.antt =====
-- internal/server/websocket.go: what the listener does with a message of a sender.
use relayra.Prelude.{ℕ, String, Bool, Option, none, some, List, [], ◌∷◌}
use relayra.Errors.{payload_missing, unsupported_type}
use relayra.Models.{
  WsMessage, WsType, RequestSyncState, RelayResult, TransportChunk, ChunkReceipt, listener_ws_scope,
}
use relayra.Codec.{Codec}
use relayra.Settings.{Settings}
use relayra.Redis.{Redis}
use relayra.Redis.Actions.{Exec, pure, raise, ◌>>◌}
use relayra.Store.Queue.{apply_request_states}
use relayra.Server.{Session, Ending, read_loop}
use relayra.Server.Results.{Delivery, store_sender_result_ws, apply_sender_result_chunk_ws}
use relayra.Server.Events.{apply_sender_chunk_receipt_ws, rebuild_listener_ws_outbox}
use relayra.Transport.Flush.{Writer, FlushEnd, flush_outbox}

module _ ⦃R : Redis⦄ ⦃C : Codec⦄ (cfg : Settings) (peer_id : String) (now now_milli : ℕ) where
  open R use {Db}

  inbound_state : Option RequestSyncState → Exec Db (List Delivery)
  inbound_state none = raise payload_missing
  inbound_state (some state) = do apply_request_states (state ∷ []) now; pure []

  inbound_result : Option RelayResult → Exec Db (List Delivery)
  inbound_result none = raise payload_missing
  inbound_result (some result) = store_sender_result_ws cfg (some result)

  inbound_result_chunk : Option TransportChunk → Exec Db (List Delivery)
  inbound_result_chunk none = raise payload_missing
  inbound_result_chunk (some chunk) = apply_sender_result_chunk_ws cfg (some chunk) now

  inbound_receipt : Option ChunkReceipt → Exec Db (List Delivery)
  inbound_receipt none = raise payload_missing
  inbound_receipt (some receipt) = do
    apply_sender_chunk_receipt_ws cfg peer_id now now_milli (some receipt)
    pure []

  -- the cases of the switch on the type
  inbound_of : WsType → WsMessage → Exec Db (List Delivery)
  unfolding inbound_state inbound_result inbound_result_chunk inbound_receipt
  inbound_of WsType.request_state msg = inbound_state msg.request_state
  inbound_of WsType.result msg = inbound_result msg.result
  inbound_of WsType.result_chunk msg = inbound_result_chunk msg.result_chunk
  inbound_of WsType.chunk_receipt msg = inbound_receipt msg.chunk_receipt
  inbound_of WsType.hello msg = pure []
  inbound_of WsType.resume msg = pure []
  inbound_of _ msg = raise unsupported_type

  unfoldable pub handle_inbound : WsMessage → Exec Db (List Delivery)
  unfolding inbound_of
  handle_inbound msg = inbound_of msg.type msg

  -- the read loop of a session, with this handler
  unfoldable pub session_loop :
      Exec Db (Unit {0}) → List WsMessage → Session → Exec Db (Session × Ending)
  session_loop touch_peer =
      read_loop (λ msg. do handle_inbound msg; pure tt) touch_peer now now_milli

  -- what the writer of a session does when it is woken
  unfoldable pub flush_listener_outbox :
      (WsMessage → Bool) → ℕ → Writer → Exec Db (Writer × FlushEnd)
  flush_listener_outbox can_write =
      flush_outbox (listener_ws_scope peer_id) can_write
        (rebuild_listener_ws_outbox cfg peer_id now now_milli)
