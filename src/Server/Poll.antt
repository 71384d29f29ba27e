-- ===== src/Server/Poll.antt =====
-- internal/server/handlers.go: the listener's side of a poll. Times: `now` is when the poll arrives,
-- and `later` is when its wait is over.
pub mod Acknowledged
use relayra.Prelude.{
  ℕ, zero, suc, ◌+◌, ◌*◌, String, Bool, true, false, ◌&&◌, Option, none, some, List, [], ◌∷◌, ltb,
  if◌then◌else◌,
}
use relayra.Models.{ProbeMessage, ChunkReceipt, PollPayloadUp, PollPayloadDown}
use relayra.Codec.{Codec}
use relayra.Settings.{Settings}
use relayra.Redis.{Redis}
use relayra.Redis.Actions.{Exec, pure, try, ◌>>=◌, ◌>>◌}
use relayra.Store.Chunks.{apply_chunk_receipt}
use relayra.Store.Queue.{apply_request_states, queue_length}
use relayra.Server.Outbound.{Outbound, next_outbound_payload}
use relayra.Server.Results.{Delivery, store_results}

abbrev pub build_probe_ack : Option ProbeMessage → Option ProbeMessage
build_probe_ack none = none
build_probe_ack (some probe) = some (record probe { ack = true })

abbrev pub asks_probe_only : Option ProbeMessage → Bool
asks_probe_only none = false
asks_probe_only (some probe) = probe.probe_only

abbrev pub is_empty {ℓ} : {A : Type ℓ} → List A → Bool
is_empty [] = true
is_empty (_ ∷ _) = false

-- a poll that only measures the connection
abbrev pub is_probe_only : PollPayloadUp → Bool
is_probe_only up =
    asks_probe_only up.probe
    && (is_empty up.results && (is_empty up.request_states && is_empty up.chunk_receipts))

abbrev pub probe_answer : PollPayloadUp → PollPayloadDown
probe_answer up = record {
  requests = [];
  request_chunks = [];
  ack_result_ids = [];
  probe = build_probe_ack up.probe;
}

-- whether a reading of the length found requests
abbrev pub has_requests : Option ℕ → Bool
has_requests none = false
has_requests (some n) = ltb 0 n

module _ ⦃R : Redis⦄ where
  open R use {Db}

  pub apply_receipts : List ChunkReceipt → ℕ → Exec Db (Unit {0})
  apply_receipts [] now = pure tt
  apply_receipts (receipt ∷ receipts) now = do
    apply_chunk_receipt receipt now
    apply_receipts receipts now

  -- a poll that waits, and has no results that are to be acknowledged, waits for a request
  abbrev pub wait_rounds : Settings → ℕ → List String → ℕ
  wait_rounds cfg wait_seconds ids =
      if ltb 0 wait_seconds && is_empty ids
      then (if ltb cfg.long_poll_wait wait_seconds then cfg.long_poll_wait else wait_seconds) * 4
        + 1
      else 0

  module _ ⦃C : Codec⦄ where
    -- The loop of `waitForQueuedRequests`: it looks every quarter of a second until the deadline, so a
    -- number of rounds stands for the time that is left. Whether requests were found is not used.
    unfoldable pub wait_for_queued_requests : String → ℕ → Exec Db (Unit {0})
    wait_for_queued_requests peer_id zero = pure tt
    wait_for_queued_requests peer_id (suc rounds) =
        let rest = wait_for_queued_requests peer_id rounds in
        do found ← try (queue_length peer_id); if has_requests found then pure tt else rest

    answer_of : List String → Option ProbeMessage → Outbound → PollPayloadDown
    answer_of ids probe out = record {
      requests = out.requests;
      request_chunks = out.chunks;
      ack_result_ids = ids;
      probe = probe;
    }

    -- what follows for a poll that does not only measure
    full_answer :
        Settings → String → PollPayloadUp → ℕ → ℕ → ℕ → Exec Db (PollPayloadDown × List Delivery)
    unfolding answer_of
    full_answer cfg peer_id up wait_seconds now later = do
      apply_request_states up.request_states now
      (ids, deliveries) ← store_results cfg up.results
      wait_for_queued_requests peer_id (wait_rounds cfg wait_seconds ids)
      out ← next_outbound_payload cfg peer_id later
      pure (answer_of ids (build_probe_ack up.probe) out, deliveries)

    unfoldable pub process_poll_payload :
        Settings → String → PollPayloadUp → ℕ → ℕ → ℕ → Exec Db (PollPayloadDown × List Delivery)
    unfolding full_answer apply_receipts
    process_poll_payload cfg peer_id up wait_seconds now later = do
      apply_receipts up.chunk_receipts now
      if is_probe_only up
          then pure (probe_answer up, [])
          else full_answer cfg peer_id up wait_seconds now later
