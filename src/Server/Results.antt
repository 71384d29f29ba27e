-- ===== src/Server/Results.antt =====
-- internal/server/handlers.go: the results that a sender delivers. A webhook is delivered by a thread
-- of its own: a call returns the deliveries that it starts.
pub mod Stores
use relayra.Prelude.{ℕ, String, Bool, Option, none, some, List, [], ◌∷◌, ◌++◌, ◌==ₛ◌, if◌then◌else◌}
use relayra.Models.{RelayResult, TransportChunk}
use relayra.Codec.{Codec}
use relayra.Settings.{Settings}
use relayra.Redis.{Redis}
use relayra.Redis.Actions.{Exec, pure, try, ◌>>=◌, ◌>>◌}
use relayra.Store.Chunks.{store_inbound_result_chunk}
use relayra.Store.Queue.{get_request_webhook_url}
use relayra.Store.Results.{store_result}

pub record Delivery : Type 0 where
  pub url : String
  pub result : RelayResult

-- `webhookURL, _ :=`, and the test that it is not empty
abbrev pub delivery_to : Option String → RelayResult → List Delivery
delivery_to none result = []
delivery_to (some url) result =
    if url ==ₛ "" then [] else record { url = url; result = result } ∷ []

module _ ⦃R : Redis⦄ ⦃C : Codec⦄ where
  open R use {Db}

  pub start_delivery : RelayResult → Exec Db (List Delivery)
  start_delivery result = do
    url ← try (get_request_webhook_url result.request_id)
    pure (delivery_to url result)

  -- one result of a poll, with whether it could be stored
  after_store : RelayResult → Option (Unit {0}) → Exec Db (List String × List Delivery)
  unfolding start_delivery
  after_store result none = pure ([], [])
  after_store result (some _) = do
    deliveries ← start_delivery result
    pure (result.request_id ∷ [], deliveries)

  -- the loop of `processPollPayload` over the results: those to acknowledge
  unfoldable pub store_results : Settings → List RelayResult → Exec Db (List String × List Delivery)
  unfolding after_store
  store_results cfg [] = pure ([], [])
  store_results cfg (result ∷ results) = do
    stored ← try (store_result result cfg.result_ttl)
    (ids, deliveries) ← after_store result stored
    (more_ids, more_deliveries) ← store_results cfg results
    pure (ids ++ more_ids, deliveries ++ more_deliveries)

  unfoldable pub store_sender_result_ws : Settings → Option RelayResult → Exec Db (List Delivery)
  unfolding start_delivery
  store_sender_result_ws cfg none = pure []
  store_sender_result_ws cfg (some result) = do
    store_result result cfg.result_ttl
    start_delivery result

  -- an error of the assembly is logged, and the chunk counts as handled
  abbrev pub assembled_result : Option (Option RelayResult) → Option RelayResult
  assembled_result none = none
  assembled_result (some result) = result

  unfoldable pub apply_sender_result_chunk_ws :
      Settings → Option TransportChunk → ℕ → Exec Db (List Delivery)
  apply_sender_result_chunk_ws cfg none now = pure []
  apply_sender_result_chunk_ws cfg (some chunk) now = do
    result ← try (store_inbound_result_chunk chunk cfg.result_ttl now)
    store_sender_result_ws cfg (assembled_result result)
