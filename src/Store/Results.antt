-- ===== src/Store/Results.antt =====
-- internal/store/results.go: the results that the listener keeps for its clients.
pub mod Kept
use relayra.Prelude.{ℕ, String, Bool, Option, none, some, List, [], ◌∷◌, ◌++◌, ◌==ₛ◌, if◌then◌else◌}
use relayra.Errors.{invalid_json}
use relayra.Models.{RelayResult, ResultStatus, completed, request_transfer_id}
use relayra.Codec.{Codec, Bytes}
use relayra.Redis.{Redis, pipeline}
use relayra.Redis.Keys
use relayra.Redis.Keys.{Key, key}
use relayra.Redis.Objects.{
  Command, Value, bytes, request_status, webhook, named, hset, del, lrem, set_value, expire, fields,
  exists, value_of,
}
use relayra.Redis.Actions.{Exec, pure, raise, read, try, ◌>>=◌}
use relayra.Store.Reads.{text_of}
use relayra.Store.Queue.{queue_key, request_key}

abbrev pub result_key : String → Key
result_key id = key Keys.result id

abbrev pub known_peer : Option String → String
known_peer none = ""
known_peer (some peer_id) = peer_id

-- the pipeline of `StoreResult`; the peer is "" where it is not known
abbrev pub store_result_commands : RelayResult → Bytes → ℕ → String → List Command
store_result_commands result json ttl peer_id =
    set_value (result_key result.request_id) (bytes json)
    ∷ expire (result_key result.request_id) ttl
    ∷ hset (request_key result.request_id) ((Keys.status, request_status completed) ∷ [])
    ∷ ((if peer_id ==ₛ "" then [] else lrem (queue_key peer_id) (named result.request_id) ∷ [])
        ++ del (key Keys.chunk_cursor (request_transfer_id result.request_id)) ∷ [])

module _ ⦃R : Redis⦄ ⦃C : Codec⦄ where
  open R use {Db, look, write}
  open C use {json_result, parse_result}

  -- The peer is read on its own while the pipeline is put together; an error there leaves it "".
  unfoldable pub store_result : RelayResult → ℕ → Exec Db (Unit {0})
  store_result result ttl = do
    peer ← try (read (λ d. text_of (fields (look d (request_key result.request_id)) Keys.peer_id)))
    pipeline (store_result_commands result (json_result result) ttl (known_peer peer))

  abbrev parsed : Option RelayResult → Exec Db (Option RelayResult)
  parsed none = raise invalid_json
  parsed (some result) = pure (some result)

  abbrev stored_result : Option Value → Exec Db (Option RelayResult)
  stored_result (some (bytes json)) = parsed (parse_result json)
  stored_result _ = pure none

  unfoldable pub get_result : String → Exec Db (Option RelayResult)
  get_result id = do v ← read (λ d. value_of (look d (result_key id))); stored_result v

  unfoldable pub result_exists : String → Exec Db Bool
  result_exists id = read (λ d. exists (look d (result_key id)))

  unfoldable pub update_result_webhook_status : String → ResultStatus → Exec Db (Unit {0})
  update_result_webhook_status id status =
      pipeline (hset (request_key id) ((Keys.webhook_status, webhook status) ∷ []) ∷ [])
