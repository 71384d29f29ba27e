-- ===== src/Server/Events/Frame.antt =====
-- internal/server/handlers.go: the events for websockets change the outbox only.
use relayra.Prelude.{ℕ, String, some, not}
use relayra.Errors.{Result, ok, err}
use relayra.Models.{RelayRequest, TransportChunk, WsMessage}
use relayra.Codec.{Codec}
use relayra.Settings.{Settings}
use relayra.Redis.{Redis}
use relayra.Redis.Frame.{Spares}
use relayra.Redis.Actions.Always.{
  Always, Always-pure, Always-raise, Always-read_or, Always-either, Always-bind,
}
use relayra.Transport.{request_needs_chunking}
use relayra.Transport.Outgoing.{enqueue_ws_message}
use relayra.Store.Chunks.{get_chunk_cursor}
use relayra.Store.Outbox.Frame.{is_outbox_kind, append_ws_outbox-Always}
use relayra.Server.Outbound.{is_out_of_range}
use relayra.Server.Events.{
  enqueue_request_message, enqueue_chunk, next_chunk, queue_next_chunk_event,
  queue_listener_request_event,
}

module _ ⦃R : Redis⦄ ⦃C : Codec⦄ {P : R.Db → Type 0} (outbox : Spares is_outbox_kind P)
    (cfg : Settings) (peer_id : String) (now now_milli : ℕ) where
  enqueue-Always :
      (scope : String) (msg : WsMessage) (ref_id : String)
      → Always P (enqueue_ws_message scope (some msg) ref_id now_milli now)
  unfolding enqueue_ws_message
  enqueue-Always scope msg ref_id =
      Always-bind _ _ (append_ws_outbox-Always outbox scope _ ref_id _ now) (λ seq. Always-pure _)

  enqueue_chunk-Always :
      (r : Result TransportChunk) → Always P (enqueue_chunk cfg peer_id now now_milli r)
  unfolding enqueue_chunk
  enqueue_chunk-Always (ok chunk) = Always-bind _ _ (enqueue-Always _ _ _) (λ _. Always-pure _)
  enqueue_chunk-Always (err e) = Always-either (is_out_of_range e) (Always-pure _) (Always-raise e)

  next_chunk-Always : (req : RelayRequest) → Always P (next_chunk cfg peer_id now now_milli req)
  unfolding next_chunk get_chunk_cursor
  next_chunk-Always req = Always-bind _ _ (Always-read_or _ _) (λ cursor. enqueue_chunk-Always _)

  pub queue_listener_request_event-Always :
      (req : RelayRequest) → Always P (queue_listener_request_event cfg peer_id now now_milli req)
  unfolding queue_listener_request_event queue_next_chunk_event enqueue_request_message
  queue_listener_request_event-Always req =
      Always-either (not (request_needs_chunking req cfg.transport_chunk_size).0)
        (Always-bind _ _ (enqueue-Always _ _ _) (λ _. Always-pure tt))
        (Always-bind _ _ (next_chunk-Always req) (λ _. Always-pure tt))
