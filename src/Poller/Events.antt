-- ===== src/Poller/Events.antt =====
-- internal/poller/ws_events.go: the messages that the sender puts into its outbox.
use relayra.Prelude.{
  ℕ, zero, suc, ◌+◌, String, not, Option, none, some, pos, ◌==◌, if◌then◌else◌, length,
}
use relayra.Models.{
  WsMessage, WsType, RequestSyncState, RelayResult, ChunkReceipt, TransportChunk, sender_ws_scope,
}
use relayra.Codec.{Codec}
use relayra.Redis.{Redis}
use relayra.Redis.Actions.{Exec, pure, lift, ◌>>=◌, ◌>>◌}
use relayra.Server.{blank}
use relayra.Transport.{result_needs_chunking, result_payload, result_chunk_at, total_chunks}
use relayra.Transport.Outgoing.{enqueue_ws_message}

abbrev pub state_message : String → RequestSyncState → WsMessage
state_message listener_id state = record (blank WsType.request_state listener_id 0) {
  request_state = some state;
}

abbrev pub result_message : String → RelayResult → WsMessage
result_message listener_id result = record (blank WsType.result listener_id 0) {
  result = some result;
}

abbrev pub result_chunk_message : String → TransportChunk → WsMessage
result_chunk_message listener_id chunk = record (blank WsType.result_chunk listener_id 0) {
  result_chunk = some chunk;
}

abbrev pub receipt_message : String → ChunkReceipt → WsMessage
receipt_message listener_id receipt = record (blank WsType.chunk_receipt listener_id 0) {
  chunk_receipt = some receipt;
}

module _ ⦃R : Redis⦄ ⦃C : Codec⦄ (listener_id : String) (now now_milli : ℕ) where
  open R use {Db}

  -- a message into the outbox of the sender
  abbrev pub put : WsMessage → String → Exec Db (Unit {0})
  put msg ref_id = do
    enqueue_ws_message (sender_ws_scope listener_id) (some msg) ref_id now_milli now
    pure tt

  unfoldable pub queue_sender_request_state_ws : RequestSyncState → Exec Db (Unit {0})
  queue_sender_request_state_ws state = put (state_message listener_id state) state.request_id

  -- only the last chunk names the result, so that the result is acknowledged once
  abbrev pub chunk_ref : RelayResult → ℕ → ℕ → String
  chunk_ref result total i = if i + 1 == total then result.request_id else ""

  -- the chunks from one index on
  unfoldable pub queue_chunks : RelayResult → ℕ → ℕ → ℕ → ℕ → Exec Db (Unit {0})
  queue_chunks result chunk_size total zero i = pure tt
  queue_chunks result chunk_size total (suc left) i = do
    chunk ← lift (result_chunk_at result chunk_size (pos i))
    put (result_chunk_message listener_id chunk) (chunk_ref result total i)
    queue_chunks result chunk_size total left (i + 1)

  unfoldable pub queue_sender_result_ws : Option RelayResult → ℕ → Exec Db (Unit {0})
  unfolding queue_chunks
  queue_sender_result_ws none chunk_size = pure tt
  queue_sender_result_ws (some result) chunk_size =
      if not (result_needs_chunking result chunk_size).0
      then put (result_message listener_id result) result.request_id
      else (let total = total_chunks (length (result_payload result)) chunk_size in
          queue_chunks result chunk_size total total 0)

  unfoldable pub queue_sender_chunk_receipt_ws : ChunkReceipt → Exec Db (Unit {0})
  queue_sender_chunk_receipt_ws receipt =
      put (receipt_message listener_id receipt) receipt.transfer_id
