-- ===== src/Store/Queue.antt =====
-- internal/store/queue.go and runtime_redis.go, the listener's half: the queue of a peer and the
-- leases on its requests. A time is in seconds, and `now` is what the clock shows at the call.
pub mod Durable
pub mod Loss
pub mod Fifo
pub mod Cleared
pub mod Frame
use relayra.Prelude.{
  ℕ, zero, suc, ◌+◌, String, Bool, true, false, ◌||◌, ◌&&◌, not, Option, none, some, List, [], ◌∷◌,
  ◌++◌, ltb, leb, ◌==◌, ◌==ₛ◌, if◌then◌else◌, length,
}
use relayra.Errors.{Error, request_not_found}
use relayra.Models.{
  RelayRequest, RequestSyncState, RequestStatus, queued, leased, received, executing, completed,
  failed, is_queued, is_leased, is_completed, request_transfer_id,
}
use relayra.Codec.{Codec, Bytes}
use relayra.Redis.{Redis, pipeline}
use relayra.Redis.Keys
use relayra.Redis.Keys.{Key, Field, key}
use relayra.Redis.Objects.{
  Object, absent, Command, Value, text, number, flag, bytes, request_status, named, Member, hset,
  del, rpush, lrem, fields, exists, list_of,
}
use relayra.Redis.Actions.{Exec, pure, raise, read, read_or, batch, attempt, ◌>>=◌, ◌>>◌}
use relayra.Store.Reads.{text_of, number_of, bytes_of, status_of}

abbrev pub queue_key : String → Key
queue_key peer_id = key Keys.queue peer_id

abbrev pub request_key : String → Key
request_key id = key Keys.request id

-- the hash that `StoreRequestMetadata` and `EnqueueRequest` write
abbrev pub metadata : String → RelayRequest → RequestStatus → Bytes → List (Field × Value)
metadata peer_id req status json =
    (Keys.id, text req.id)
    ∷ (Keys.peer_id, text peer_id)
    ∷ (Keys.webhook_url, text req.webhook_url)
    ∷ (Keys.status, request_status status)
    ∷ (Keys.created_at, number req.created_at)
    ∷ (Keys.payload, bytes json)
    ∷ (Keys.async, flag req.async)
    ∷ (Keys.lease_until, number 0)
    ∷ []

abbrev pub add_taken : Option RelayRequest → List RelayRequest → List RelayRequest
add_taken none reqs = reqs
add_taken (some req) reqs = reqs ++ req ∷ []

-- `LeaseUntil` where it is set, and else `now`
abbrev pub lease_or_now : ℕ → ℕ → ℕ
lease_or_now lease_until now = if lease_until == 0 then now else lease_until

module _ ⦃R : Redis⦄ ⦃C : Codec⦄ where
  open R use {Db, look, write}
  open C use {json_request, parse_request}

  unfoldable pub store_request_metadata : String → RelayRequest → Exec Db (Unit {0})
  store_request_metadata peer_id req =
      pipeline (hset (request_key req.id) (metadata peer_id req req.status (json_request req)) ∷ [])

  unfoldable pub enqueue_request : String → RelayRequest → Exec Db (Unit {0})
  enqueue_request peer_id req = pipeline (
      rpush (queue_key peer_id) (named req.id)
      ∷ hset (request_key req.id) (metadata peer_id req queued (json_request req))
      ∷ [])

  -- the commands that lease a request, and the request as it is handed out
  abbrev lease_commands : String → RelayRequest → ℕ → List Command
  lease_commands id req lease_until =
      hset (request_key id) (
        (Keys.status, request_status leased)
        ∷ (Keys.lease_until, number lease_until)
        ∷ (Keys.payload, bytes (json_request req))
        ∷ [])
      ∷ []

  -- the end of the loop's body, once the request can be read
  take_lease : String → ℕ → ℕ → Option RelayRequest → Exec Db (Option RelayRequest)
  take_lease id now ttl none = pure none
  take_lease id now ttl (some stored) = do
    let req = record stored { status = leased }
    pipeline (lease_commands id req (now + ttl))
    pure (some req)

  -- the entry of a request that is gone, or is completed, is dropped
  drop_entry : String → String → Exec Db (Option RelayRequest)
  drop_entry peer_id id = do
    attempt (pipeline (lrem (queue_key peer_id) (named id) ∷ []))
    pure none

  -- a request whose lease has not run out is passed over
  renew_lease : String → ℕ → ℕ → Object → Exec Db (Option RelayRequest)
  unfolding take_lease
  renew_lease id now ttl o = do
    current_lease ← read_or 0 (λ d. number_of (fields (look d (request_key id)) Keys.lease_until))
    if ltb now current_lease
        then pure none
        else take_lease id now ttl (parse_request (bytes_of (fields o Keys.payload)))

  abbrev is_over : Object → Bool
  is_over o = not (exists o) || is_completed (status_of (fields o Keys.status))

  -- the loop's body after the hash has been read; an error has been read as an empty hash
  lease_found : String → String → ℕ → ℕ → Object → Exec Db (Option RelayRequest)
  unfolding drop_entry renew_lease
  lease_found peer_id id now ttl o =
      if is_over o then drop_entry peer_id id else renew_lease id now ttl o

  lease_one : String → String → ℕ → ℕ → Exec Db (Option RelayRequest)
  lease_one peer_id id now ttl = do
    o ← read_or absent (λ d. look d (request_key id))
    lease_found peer_id id now ttl o

  lease_from : String → ℕ → ℕ → ℕ → List RelayRequest → List Member → Exec Db (List RelayRequest)
  lease_from peer_id batch_size now ttl requests [] = pure requests
  lease_from peer_id batch_size now ttl requests (named id ∷ ids) =
      let rest = λ (taken : Option RelayRequest).
        lease_from peer_id batch_size now ttl (add_taken taken requests) ids in
      if leb batch_size (length requests)
      then pure requests
      else do taken ← lease_one peer_id id now ttl; rest taken
  lease_from peer_id batch_size now ttl requests (_ ∷ ids) =
      lease_from peer_id batch_size now ttl requests ids

  unfoldable pub lease_requests : String → ℕ → ℕ → ℕ → Exec Db (List RelayRequest)
  unfolding lease_from lease_one lease_found
  lease_requests peer_id batch_size ttl now = do
    ids ← read (λ d. list_of (look d (queue_key peer_id)))
    lease_from peer_id batch_size now ttl [] ids

  unfoldable pub dequeue_requests : String → ℕ → ℕ → Exec Db (List RelayRequest)
  dequeue_requests peer_id batch_size now = lease_requests peer_id batch_size 30 now

  abbrev pub envelope_status : Object → RelayRequest → RelayRequest
  envelope_status o req = record req { status = status_of (fields o Keys.status) }

  abbrev pub envelope_of : Object → Option RelayRequest → Option (RelayRequest × ℕ)
  envelope_of o none = none
  envelope_of o (some req) = some (envelope_status o req, number_of (fields o Keys.lease_until))

  unfoldable pub load_request_envelope : String → Exec Db (Option (RelayRequest × ℕ))
  load_request_envelope id = read_or none (λ d.
      let o = look d (request_key id) in
      if exists o then envelope_of o (parse_request (bytes_of (fields o Keys.payload))) else none)

  -- the test of `ListActiveLeasedRequests`
  abbrev pub active : ℕ → Option (RelayRequest × ℕ) → Option RelayRequest
  active now none = none
  active now (some (req, lease_until)) =
      if not (is_leased req.status) || leb lease_until now then none else some req

  active_from : ℕ → ℕ → List RelayRequest → List Member → Exec Db (List RelayRequest)
  active_from batch_size now requests [] = pure requests
  active_from batch_size now requests (named id ∷ ids) =
      let rest = λ (found : Option (RelayRequest × ℕ)).
        active_from batch_size now (add_taken (active now found) requests) ids in
      if leb batch_size (length requests)
      then pure requests
      else do found ← load_request_envelope id; rest found
  active_from batch_size now requests (_ ∷ ids) = active_from batch_size now requests ids

  unfoldable pub list_active_leased_requests : String → ℕ → ℕ → Exec Db (List RelayRequest)
  unfolding active_from load_request_envelope
  list_active_leased_requests peer_id batch_size now = do
    ids ← read (λ d. list_of (look d (queue_key peer_id)))
    active_from batch_size now [] ids

  unfoldable pub get_request : String → Exec Db (Option RelayRequest)
  unfolding load_request_envelope
  get_request id = do
    found ← load_request_envelope id
    pure (elim found [ none ↦ none | some (req, _) ↦ some req ])

  abbrev result_exists : Db → String → Bool
  result_exists d id = exists (look d (key Keys.result id))

  -- the status that is applied: `completed` only where the result has been stored
  abbrev pub applied_status : RequestStatus → Bool → RequestStatus
  applied_status status result_stored =
      if is_completed status && not result_stored then executing else status

  set_state : RequestSyncState → ℕ → Bool → Exec Db (Unit {0})
  set_state state now result_stored = pipeline (
      hset (request_key state.request_id) (
        (Keys.status, request_status (applied_status state.status result_stored))
        ∷ (Keys.lease_until, number (lease_or_now state.lease_until now))
        ∷ [])
      ∷ [])

  apply_found : RequestSyncState → ℕ → Bool → Exec Db (Unit {0})
  unfolding set_state
  apply_found state now found =
      if not found
      then pure tt
      else if is_completed state.status
      then (do
        result_stored ← read (λ d. result_exists d state.request_id)
        set_state state now result_stored)
      else set_state state now false

  apply_one : RequestSyncState → ℕ → Exec Db (Unit {0})
  unfolding apply_found
  apply_one state now = do
    found ← read (λ d. exists (look d (request_key state.request_id)))
    apply_found state now found

  unfoldable pub apply_request_states : List RequestSyncState → ℕ → Exec Db (Unit {0})
  unfolding apply_one
  apply_request_states [] now = pure tt
  apply_request_states (state ∷ states) now = do
    apply_one state now
    apply_request_states states now

  -- one round of the loop of `ClearPeerQueue`: whether it cleared the request
  clear_found : String → String → Bool → Exec Db Bool
  clear_found peer_id id false = pure false
  clear_found peer_id id true = do
    pipeline (
        lrem (queue_key peer_id) (named id)
        ∷ hset (request_key id) ((Keys.status, request_status failed) ∷ [])
        ∷ del (key Keys.chunk_cursor (request_transfer_id id))
        ∷ [])
    pure true

  clear_one : String → String → Exec Db Bool
  unfolding clear_found
  clear_one peer_id id = do
    queued_only ← read (λ d. is_queued (status_of (fields (look d (request_key id)) Keys.status)))
    clear_found peer_id id queued_only

  clear_from : String → ℕ → List Member → Exec Db ℕ
  clear_from peer_id cleared [] = pure cleared
  clear_from peer_id cleared (named id ∷ ids) = do
    done ← clear_one peer_id id
    clear_from peer_id (if done then cleared + 1 else cleared) ids
  clear_from peer_id cleared (_ ∷ ids) = clear_from peer_id cleared ids

  unfoldable pub clear_peer_queue : String → Exec Db ℕ
  unfolding clear_from clear_one
  clear_peer_queue peer_id = do
    ids ← read (λ d. list_of (look d (queue_key peer_id)))
    clear_from peer_id 0 ids

  unfoldable pub queue_length : String → Exec Db ℕ
  queue_length peer_id = read (λ d. length (list_of (look d (queue_key peer_id))))

  abbrev found_status : Option Value → Exec Db RequestStatus
  found_status (some (request_status s)) = pure s
  found_status _ = raise request_not_found

  unfoldable pub get_request_status : String → Exec Db RequestStatus
  get_request_status id = do
    status ← read (λ d. fields (look d (request_key id)) Keys.status)
    found_status status

  unfoldable pub get_request_webhook_url : String → Exec Db String
  get_request_webhook_url id =
      read (λ d. text_of (fields (look d (request_key id)) Keys.webhook_url))

  unfoldable pub update_request_status : String → RequestStatus → Exec Db (Unit {0})
  update_request_status id status =
      pipeline (hset (request_key id) ((Keys.status, request_status status) ∷ []) ∷ [])

  abbrev pub received_states : List String → ℕ → List RequestSyncState
  received_states [] now = []
  received_states (id ∷ ids) now =
      record {
        request_id = id;
        status = received;
        lease_until = now + 30;
        updated_at = now;
        duplicate_ok = false;
      }
      ∷ received_states ids now

  unfoldable pub ack_requests : List String → ℕ → Exec Db (Unit {0})
  ack_requests ids now = apply_request_states (received_states ids now) now
