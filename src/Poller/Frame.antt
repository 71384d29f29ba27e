-- ===== src/Poller/Frame.antt =====
-- internal/poller: what the handling of a request leaves alone, whatever exchanges fail. It writes to
-- the outbox, to the states of requests and to the chunks.
use relayra.Prelude.{
  ℕ, zero, suc, ◌+◌, String, Bool, Option, none, some, List, [], ◌∷◌, not, length,
}
use relayra.Models.{
  WsMessage, RequestSyncState, RelayRequest, RelayResult, TransportChunk, RequestStatus,
}
use relayra.Codec.{Codec}
use relayra.Settings.{Settings}
use relayra.Redis.{Redis}
use relayra.Redis.Frame.{Spares}
use relayra.Redis.Actions.Always.{
  Always, Always-pure, Always-lift, Always-attempt, Always-try, Always-either, Always-bind,
}
use relayra.Transport.{result_needs_chunking, result_payload, total_chunks}
use relayra.Transport.Outgoing.{enqueue_ws_message}
use relayra.Store.Outbox.Frame.{is_outbox_kind, append_ws_outbox-Always}
use relayra.Store.Sender.Frame.{
  is_sender_kind, get_sender_request_state-Always, result_is_pending-Always,
  store_sender_request_state-Always,
}
use relayra.Store.Chunks.Frame.{is_chunk_kind, store_inbound_chunk-Always}
use relayra.Poller.Events.{put, queue_chunks, queue_sender_request_state_ws, queue_sender_result_ws}
use relayra.Poller.Incoming.{record_arrival, handle_incoming_request, report}
use relayra.Poller.Cycle.{take_assembled, take_chunks, take_requests}

module _ ⦃R : Redis⦄ ⦃C : Codec⦄ (P : R.Db → Type 0) (outbox : Spares is_outbox_kind P)
    (listener_id : String) where
  module _ (now now_milli : ℕ) where
    put-Always :
        (msg : WsMessage) (ref_id : String) → Always P (put listener_id now now_milli msg ref_id)
    unfolding enqueue_ws_message
    put-Always msg ref_id =
        Always-bind _ _
          (Always-bind _ _ (append_ws_outbox-Always outbox _ _ ref_id _ now) (λ seq. Always-pure _))
          (λ _. Always-pure tt)

    pub queue_sender_request_state_ws-Always :
        (state : RequestSyncState)
        → Always P (queue_sender_request_state_ws listener_id now now_milli state)
    unfolding queue_sender_request_state_ws
    queue_sender_request_state_ws-Always state = put-Always _ _

    queue_chunks-Always :
        (result : RelayResult) (chunk_size total left i : ℕ)
        → Always P (queue_chunks listener_id now now_milli result chunk_size total left i)
    unfolding queue_chunks
    queue_chunks-Always result chunk_size total zero i = Always-pure tt
    queue_chunks-Always result chunk_size total (suc left) i =
        Always-bind _ _ (Always-lift _) (λ chunk.
          Always-bind _ _ (put-Always _ _)
            (λ _. queue_chunks-Always result chunk_size total left (i + 1)))

    pub queue_sender_result_ws-Always :
        (result : Option RelayResult) (chunk_size : ℕ)
        → Always P (queue_sender_result_ws listener_id now now_milli result chunk_size)
    unfolding queue_sender_result_ws
    queue_sender_result_ws-Always none chunk_size = Always-pure tt
    queue_sender_result_ws-Always (some result) chunk_size =
        let total = total_chunks (length (result_payload result)) chunk_size in
        Always-either (not (result_needs_chunking result chunk_size).0) (put-Always _ _)
          (queue_chunks-Always result chunk_size total total 0)

  module _ (sender : Spares is_sender_kind P) (cfg : Settings) where
    pub record_arrival-Always :
        (id : String) (state : Option RequestSyncState) (pending_result : Bool) (now now_milli : ℕ)
        → Always P (record_arrival cfg listener_id id state pending_result now now_milli)
    unfolding record_arrival
    record_arrival-Always id state pending_result now now_milli =
        Always-bind _ _ (store_sender_request_state-Always sender _ now) (λ _.
          Always-bind _ _ (Always-attempt _ (queue_sender_request_state_ws-Always now now_milli _))
            (λ _. Always-pure _))

    pub handle_incoming_request-Always :
        (req : RelayRequest) (now now_milli : ℕ)
        → Always P (handle_incoming_request cfg listener_id req now now_milli)
    unfolding handle_incoming_request
    handle_incoming_request-Always req now now_milli =
        Always-bind _ _ (get_sender_request_state-Always req.id) (λ state.
          Always-bind _ _ (result_is_pending-Always req.id)
            (λ pending. record_arrival-Always req.id state pending now now_milli))

    pub report-Always :
        (id : String) (status : RequestStatus) (now now_milli : ℕ)
        → Always P (report cfg listener_id id status now now_milli)
    unfolding report
    report-Always id status now now_milli =
        Always-bind _ _ (Always-attempt _ (store_sender_request_state-Always sender _ now))
          (λ _. Always-attempt _ (queue_sender_request_state_ws-Always now now_milli _))

    module _ (chunks : Spares is_chunk_kind P) (now now_milli : ℕ) where
      pub take_assembled-Always :
          (req : Option RelayRequest) → Always P (take_assembled cfg listener_id now now_milli req)
      unfolding take_assembled
      take_assembled-Always none = Always-pure _
      take_assembled-Always (some req) =
          Always-bind _ _ (handle_incoming_request-Always req now now_milli) (λ d. Always-pure _)

      pub take_chunks-Always :
          (cs : List TransportChunk) → Always P (take_chunks cfg listener_id now now_milli cs)
      unfolding take_chunks
      take_chunks-Always [] = Always-pure _
      take_chunks-Always (chunk ∷ cs) =
          Always-bind _ _ (store_inbound_chunk-Always chunks chunk _ now) (λ taken.
            Always-bind _ _ (take_assembled-Always taken.1)
              (λ one. Always-bind _ _ (take_chunks-Always cs) (λ more. Always-pure _)))

      pub take_requests-Always :
          (reqs : List RelayRequest) → Always P (take_requests cfg listener_id now now_milli reqs)
      unfolding take_requests
      take_requests-Always [] = Always-pure _
      take_requests-Always (req ∷ reqs) =
          Always-bind _ _ (Always-try _ (handle_incoming_request-Always req now now_milli))
            (λ d. Always-bind _ _ (take_requests-Always reqs) (λ more. Always-pure _))
