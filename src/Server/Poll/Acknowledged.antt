-- ===== src/Server/Poll/Acknowledged.antt =====
-- internal/server/handlers.go: what a listener that acknowledges a result has done with it.
use relayra.Prelude.{ℕ, zero, suc, String, List, refl, ◌≡◌, subst, [], ◌∷◌}
use relayra.Errors.{ok}
use relayra.Models.{ChunkReceipt, PollPayloadUp, PollPayloadDown}
use relayra.Codec.{Codec}
use relayra.Settings.{Settings}
use relayra.Redis.{Redis}
use relayra.Redis.Actions.{State}
use relayra.Redis.Actions.Always.{
  Always, Always-true, Always-pure, Always-read, Always-try, Always-either, Always-bind,
}
use relayra.Redis.Actions.Triple.{Post, Triple, Triple-pure, Triple-always, Triple-if, Triple-bind}
use relayra.Store.Queue.{queue_length}
use relayra.Store.Queue.Frame.{apply_request_states-Always}
use relayra.Store.Chunks.Frame.{is_chunk_kind, apply_chunk_receipt-Always}
use relayra.Store.Results.Kept.{AllStored, AllStored-elsewhere, AllStored-spared}
use relayra.Server.Outbound.{next_outbound_payload}
use relayra.Server.Outbound.Frame.{next_outbound_payload-Always}
use relayra.Server.Results.{Delivery}
use relayra.Server.Results.Stores.{store_results-stores, store_results-AllStored}
use relayra.Server.Poll.{
  apply_receipts, wait_for_queued_requests, has_requests, full_answer, process_poll_payload,
  is_probe_only, wait_rounds,
}

module _ ⦃R : Redis⦄ ⦃C : Codec⦄ (cfg : Settings) where
  open R use {Db}

  module _ (ids : List String) where
    next_outbound_payload-AllStored :
        (peer_id : String) (now : ℕ)
        → Always (AllStored ids) (next_outbound_payload cfg peer_id now)
    next_outbound_payload-AllStored peer_id now =
        next_outbound_payload-Always cfg (AllStored ids)
          (λ p m d h. AllStored-elsewhere _ ids d (λ _. refl) h)
          (λ id fs d h. AllStored-elsewhere _ ids d (λ _. refl) h) peer_id now

    wait-AllStored :
        (peer_id : String) (rounds : ℕ)
        → Always (AllStored ids) (wait_for_queued_requests peer_id rounds)
    unfolding wait_for_queued_requests queue_length
    wait-AllStored peer_id zero = Always-pure tt
    wait-AllStored peer_id (suc rounds) = Always-bind _ _ (Always-try _ (Always-read _)) (λ found.
        Always-either (has_requests found) (Always-pure tt) (wait-AllStored peer_id rounds))

    apply_receipts-AllStored :
        (receipts : List ChunkReceipt) (now : ℕ)
        → Always (AllStored ids) (apply_receipts receipts now)
    unfolding apply_receipts
    apply_receipts-AllStored [] now = Always-pure tt
    apply_receipts-AllStored (receipt ∷ receipts) now =
        Always-bind _ _
          (apply_chunk_receipt-Always (AllStored-spared is_chunk_kind (λ id. refl) ids) receipt now)
          (λ _. apply_receipts-AllStored receipts now)

    full_answer-AllStored :
        (peer_id : String) (up : PollPayloadUp) (wait_seconds now later : ℕ)
        → Always (AllStored ids) (full_answer cfg peer_id up wait_seconds now later)
    unfolding full_answer
    full_answer-AllStored peer_id up wait_seconds now later =
        Always-bind _ _
          (apply_request_states-Always (AllStored ids)
            (λ p m d h. AllStored-elsewhere _ ids d (λ _. refl) h)
            (λ id fs d h. AllStored-elsewhere _ ids d (λ _. refl) h) up.request_states now)
          (λ _. Always-bind _ _ (store_results-AllStored cfg ids up.results) (λ listed.
            Always-bind _ _ (wait-AllStored peer_id _) (λ _.
              Always-bind _ _ (next_outbound_payload-AllStored peer_id later)
                (λ out. Always-pure _))))

    -- A poll, whether it is answered or fails, leaves the stored results stored.
    pub process_poll_payload-AllStored :
        (peer_id : String) (up : PollPayloadUp) (wait_seconds now later : ℕ)
        → Always (AllStored ids) (process_poll_payload cfg peer_id up wait_seconds now later)
    unfolding process_poll_payload
    process_poll_payload-AllStored peer_id up wait_seconds now later =
        Always-bind _ _ (apply_receipts-AllStored up.chunk_receipts now) (λ _.
          Always-either (is_probe_only up) (Always-pure _)
            (full_answer-AllStored peer_id up wait_seconds now later))

  full_answer-stores :
      (peer_id : String) (up : PollPayloadUp) (wait_seconds now later : ℕ)
      → Triple
          (λ _. Unit)
          (full_answer cfg peer_id up wait_seconds now later)
          (λ r d. AllStored r.0.ack_result_ids d)
  unfolding full_answer
  full_answer-stores peer_id up wait_seconds now later =
      Triple-bind (Triple-always (Always-true _)) (λ _.
        Triple-bind (store_results-stores cfg up.results) (λ listed.
          let ids = listed.0 in
          Triple-bind
            (Triple-always (wait-AllStored ids peer_id (wait_rounds cfg wait_seconds ids)))
            (λ _.
              Triple-bind (Triple-always (next_outbound_payload-AllStored ids peer_id later))
                (λ out. Triple-pure _ (λ d h. h)))))

  process_poll_payload-stores :
      (peer_id : String) (up : PollPayloadUp) (wait_seconds now later : ℕ)
      → Triple
          (λ _. Unit)
          (process_poll_payload cfg peer_id up wait_seconds now later)
          (λ r d. AllStored r.0.ack_result_ids d)
  unfolding process_poll_payload
  process_poll_payload-stores peer_id up wait_seconds now later =
      Triple-bind (Triple-always (Always-true _)) (λ _.
        Triple-if (is_probe_only up) _ _ (Triple-pure _ (λ d h. tt))
          (full_answer-stores peer_id up wait_seconds now later))

  pub acknowledged-Post :
      (peer_id : String) (up : PollPayloadUp) (wait_seconds now later : ℕ) (s : State Db)
      → let r = process_poll_payload cfg peer_id up wait_seconds now later s in
        Post (λ a d. AllStored a.0.ack_result_ids d) r.0 r.1.db
  acknowledged-Post peer_id up wait_seconds now later s =
      (process_poll_payload-stores peer_id up wait_seconds now later).at s tt

  -- Whatever a poll brings, whatever the database holds and whatever exchanges fail, each result
  -- that the answer of `processPollPayload` acknowledges is stored when the answer is returned.
  pub acknowledged-AllStored :
      (peer_id : String) (up : PollPayloadUp) (wait_seconds now later : ℕ) (s : State Db)
      {down : PollPayloadDown} {deliveries : List Delivery}
      → (process_poll_payload cfg peer_id up wait_seconds now later s).0 ≡ ok (down, deliveries)
      → AllStored down.ack_result_ids
          (process_poll_payload cfg peer_id up wait_seconds now later s).1.db
  acknowledged-AllStored peer_id up wait_seconds now later s answered =
      let after = (process_poll_payload cfg peer_id up wait_seconds now later s).1.db in
      subst (λ r. Post (λ a d. AllStored a.0.ack_result_ids d) r after) answered
        (acknowledged-Post peer_id up wait_seconds now later s)
