-- ===== src/Poller/Session.antt =====
-- internal/poller/websocket.go: the sender's side of a websocket session.
use relayra.Prelude.{
  ◌+◌, ◌%◌, ℕ, ◌*◌, String, Bool, Option, none, some, List, [], ◌∷◌, ltb, ◌==ₛ◌, if◌then◌else◌,
}
use relayra.Errors.{payload_missing, unsupported_type}
use relayra.Models.{
  WsMessage, WsType, WsOutboxMessage, RelayRequest, RelayResult, TransportChunk, ChunkReceipt,
  RequestSyncState, sender_ws_scope,
}
use relayra.Codec.{Codec}
use relayra.Settings.{Settings, sender_request_lease_duration, sender_result_lease_duration}
use relayra.Redis.{Redis}
use relayra.Redis.Actions.{Exec, pure, raise, ◌>>=◌, ◌>>◌}
use relayra.Transport.Flush.{Writer, FlushEnd, flush_outbox}
use relayra.Store.Chunks.{store_inbound_chunk, list_chunk_receipts, delete_chunk_receipt}
use relayra.Store.Outbox.{ack_ws_outbox_through, reset_ws_outbox}
use relayra.Store.Sender.{lease_results, list_sender_request_states, ack_results}
use relayra.Poller.Events.{
  queue_sender_request_state_ws, queue_sender_result_ws, queue_sender_chunk_receipt_ws,
}
use relayra.Poller.Incoming.{handle_incoming_request}
use relayra.Poller.Cycle.{take_assembled, if_dispatched}

-- `<` of int64: a number below 2 ^ 64, which is negative from 2 ^ 63 on
unfoldable pub less : ℕ → ℕ → Bool
less a b =
    ltb ((a + 9223372036854775808) % 18446744073709551616)
      ((b + 9223372036854775808) % 18446744073709551616)

-- `nextWebSocketBackoff`; a `time.Duration` is an int64 of nanoseconds
unfoldable pub next_web_socket_backoff : ℕ → ℕ → ℕ
next_web_socket_backoff current max =
    if less current max
    then (let twice = current * 2 % 18446744073709551616 in if less max twice then max else twice)
    else current

abbrev pub carries_result : WsType → Bool
carries_result WsType.result = Bool.true
carries_result WsType.result_chunk = Bool.true
carries_result _ = Bool.false

abbrev pub carries_receipt : WsType → Bool
carries_receipt WsType.chunk_receipt = Bool.true
carries_receipt _ = Bool.false

module _ ⦃R : Redis⦄ ⦃C : Codec⦄ (cfg : Settings) (listener_id : String) (now now_milli : ℕ) where
  open R use {Db}

  inbound_request : Option RelayRequest → Exec Db (List RelayRequest)
  inbound_request none = raise payload_missing
  inbound_request (some req) = do
    dispatched ← handle_incoming_request cfg listener_id req now now_milli
    pure (if_dispatched dispatched req)

  inbound_chunk : Option TransportChunk → Exec Db (List RelayRequest)
  inbound_chunk none = raise payload_missing
  inbound_chunk (some chunk) = do
    (receipt, req) ← store_inbound_chunk chunk (sender_request_lease_duration cfg) now
    queue_sender_chunk_receipt_ws listener_id now now_milli receipt
    take_assembled cfg listener_id now now_milli req

  inbound_of : WsType → WsMessage → Exec Db (List RelayRequest)
  unfolding inbound_request inbound_chunk
  inbound_of WsType.push_request msg = inbound_request msg.request
  inbound_of WsType.push_chunk msg = inbound_chunk msg.chunk
  inbound_of WsType.hello msg = pure []
  inbound_of WsType.resume msg = pure []
  inbound_of _ msg = raise unsupported_type

  -- the requests that are dispatched
  unfoldable pub handle_inbound : WsMessage → Exec Db (List RelayRequest)
  unfolding inbound_of
  handle_inbound msg = inbound_of msg.type msg

  -- the results that the acknowledged messages complete; each receipt among them is deleted
  pub settle : List WsOutboxMessage → Exec Db (List String)
  settle [] = pure []
  settle (entry ∷ entries) =
      let rest = settle entries in
      if entry.ref_id ==ₛ ""
      then rest
      else if carries_result entry.type
      then (do ids ← rest; pure (entry.ref_id ∷ ids))
      else if carries_receipt entry.type
      then (do delete_chunk_receipt entry.ref_id; rest)
      else rest

  unfoldable pub handle_sender_outbox_ack : ℕ → Exec Db (Unit {0})
  unfolding settle
  handle_sender_outbox_ack ack_seq = do
    acked ← ack_ws_outbox_through (sender_ws_scope listener_id) ack_seq
    result_ids ← settle acked
    ack_results result_ids

  queue_results : List RelayResult → Exec Db (Unit {0})
  queue_results [] = pure tt
  queue_results (result ∷ results) = do
    queue_sender_result_ws listener_id now now_milli (some result) cfg.transport_chunk_size
    queue_results results

  queue_states : List RequestSyncState → Exec Db (Unit {0})
  queue_states [] = pure tt
  queue_states (state ∷ states) = do
    queue_sender_request_state_ws listener_id now now_milli state
    queue_states states

  queue_receipts : List ChunkReceipt → Exec Db (Unit {0})
  queue_receipts [] = pure tt
  queue_receipts (receipt ∷ receipts) = do
    queue_sender_chunk_receipt_ws listener_id now now_milli receipt
    queue_receipts receipts

  unfoldable pub rebuild_sender_ws_outbox : ℕ → Exec Db (Unit {0})
  unfolding queue_results queue_states queue_receipts
  rebuild_sender_ws_outbox after_seq = do
    reset_ws_outbox (sender_ws_scope listener_id) after_seq now
    results ← lease_results cfg.poll_batch_size (sender_result_lease_duration cfg) now
    queue_results results
    request_states ← list_sender_request_states
    queue_states request_states
    chunk_receipts ← list_chunk_receipts
    queue_receipts chunk_receipts

  -- what the writer of a session does when it is woken
  unfoldable pub flush_sender_outbox : (WsMessage → Bool) → ℕ → Writer → Exec Db (Writer × FlushEnd)
  flush_sender_outbox can_write =
      flush_outbox (sender_ws_scope listener_id) can_write rebuild_sender_ws_outbox
