-- ===== src/Server/Events.antt =====
-- internal/server/handlers.go: the messages that the listener puts into the outbox of a peer. The
-- wake-up of the thread that writes (`wsHub.Notify`) changes nothing that is stored, and is left out.
pub mod Frame
use Prim.Native.String.{◌++◌ as append}
use relayra.Prelude.{
  ℕ, ◌-◌, String, Bool, true, false, not, Option, none, some, List, [], ◌∷◌, ℤ, pos, ltb,
  if◌then◌else◌,
}
use relayra.Errors.{Result, ok, err}
use relayra.Models.{
  RelayRequest, TransportChunk, ChunkReceipt, WsMessage, push_request, push_chunk,
  request_transfer_id, listener_ws_scope,
}
use relayra.Codec.{Codec}
use relayra.Settings.{Settings, request_lease_duration}
use relayra.Text.{decimal}
use relayra.Redis.{Redis}
use relayra.Redis.Actions.{Exec, pure, raise, ◌>>=◌, ◌>>◌}
use relayra.Transport.{request_needs_chunking, request_chunk_at}
use relayra.Transport.Outgoing.{enqueue_ws_message}
use relayra.Store.Chunks.{get_chunk_cursor, apply_chunk_receipt}
use relayra.Store.Outbox.{reset_ws_outbox}
use relayra.Store.Queue.{list_active_leased_requests, lease_requests, get_request}
use relayra.Server.{blank}
use relayra.Server.Outbound.{is_out_of_range, next_index}

abbrev pub request_message : String → RelayRequest → WsMessage
request_message peer_id req = record (blank push_request peer_id 0) { request = some req }

abbrev pub chunk_message : String → TransportChunk → WsMessage
chunk_message peer_id chunk = record (blank push_chunk peer_id 0) { chunk = some chunk }

abbrev index_number : ℤ → ℕ
index_number (pos n) = n
index_number _ = 0

-- `fmt.Sprintf("%s:%d", chunk.TransferID, chunk.Index)`; the index of a chunk that was cut is not
-- negative
abbrev pub chunk_ref : TransportChunk → String
chunk_ref chunk = append chunk.transfer_id (append ":" (decimal (index_number chunk.index)))

module _ ⦃R : Redis⦄ ⦃C : Codec⦄ (cfg : Settings) (peer_id : String) (now now_milli : ℕ) where
  open R use {Db}

  pub enqueue_request_message : RelayRequest → Exec Db (Unit {0})
  enqueue_request_message req = do
    enqueue_ws_message (listener_ws_scope peer_id) (some (request_message peer_id req)) req.id
        now_milli now
    pure tt

  -- whether a message was put into the outbox: there is none after the last chunk
  pub enqueue_chunk : Result TransportChunk → Exec Db Bool
  enqueue_chunk (ok chunk) = do
    enqueue_ws_message (listener_ws_scope peer_id) (some (chunk_message peer_id chunk))
        (chunk_ref chunk) now_milli now
    pure true
  enqueue_chunk (err e) = if is_out_of_range e then pure false else raise e

  pub next_chunk : RelayRequest → Exec Db Bool
  unfolding enqueue_chunk
  next_chunk req = do
    cursor ← get_chunk_cursor (request_transfer_id req.id)
    enqueue_chunk (request_chunk_at req cfg.transport_chunk_size (next_index cursor))

  unfoldable pub queue_next_chunk_event : Option RelayRequest → Exec Db (Unit {0})
  unfolding next_chunk
  queue_next_chunk_event none = pure tt
  queue_next_chunk_event (some req) = do next_chunk req; pure tt

  unfoldable pub queue_listener_request_event : RelayRequest → Exec Db (Unit {0})
  unfolding enqueue_request_message
  queue_listener_request_event req =
      if not (request_needs_chunking req cfg.transport_chunk_size).0
      then enqueue_request_message req
      else queue_next_chunk_event (some req)

  unfoldable pub apply_sender_chunk_receipt_ws : Option ChunkReceipt → Exec Db (Unit {0})
  apply_sender_chunk_receipt_ws none = pure tt
  apply_sender_chunk_receipt_ws (some receipt) = do
    apply_chunk_receipt receipt now
    if receipt.completed
        then pure tt
        else (do req ← get_request receipt.request_id; queue_next_chunk_event req)

  -- one request of the outbox that is rebuilt, and what then remains of the batch
  append_request : RelayRequest → ℕ → Exec Db ℕ
  unfolding enqueue_request_message next_chunk
  append_request req remaining =
      if ltb remaining 1
      then pure remaining
      else if not (request_needs_chunking req cfg.transport_chunk_size).0
      then (do enqueue_request_message req; pure (remaining - 1))
      else (do queued ← next_chunk req; pure (if queued then remaining - 1 else remaining))

  append_requests : List RelayRequest → ℕ → Exec Db ℕ
  unfolding append_request
  append_requests [] remaining = pure remaining
  append_requests (req ∷ reqs) remaining =
      let rest = λ (n : ℕ). append_requests reqs n in
      if ltb remaining 1 then pure remaining else (do n ← append_request req remaining; rest n)

  unfoldable pub rebuild_listener_ws_outbox : ℕ → Exec Db (Unit {0})
  unfolding append_requests
  rebuild_listener_ws_outbox after_seq = do
    reset_ws_outbox (listener_ws_scope peer_id) after_seq now
    active ← list_active_leased_requests peer_id cfg.poll_batch_size now
    remaining ← append_requests active cfg.poll_batch_size
    if ltb remaining 1 then pure tt else (do
      leased ← lease_requests peer_id remaining (request_lease_duration cfg) now
      append_requests leased remaining
      pure tt)
