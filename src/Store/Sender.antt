-- ===== src/Store/Sender.antt =====
-- internal/store/queue.go and runtime_redis.go, the sender's half: the results that wait for the
-- listener, and the states of the requests that are being executed.
pub mod Pending
pub mod Frame
use relayra.Prelude.{
  ℕ, ◌+◌, String, Bool, false, ◌&&◌, not, Option, none, some, List, [], ◌∷◌, ◌++◌, ltb, leb, ◌==◌,
  if◌then◌else◌, length,
}
use relayra.Models.{
  RelayResult, RequestSyncState, result_pending, result_leased, is_result_leased,
  request_transfer_id,
}
use relayra.Codec.{Codec, Bytes}
use relayra.Redis.{Redis, pipeline}
use relayra.Redis.Keys
use relayra.Redis.Keys.{Key, key, the}
use relayra.Redis.Objects.{
  Object, absent, Command, number, bytes, request_status, delivery, named, Member, hset, del, sadd,
  srem, zadd, zrem, fields, exists, set_of, ranked,
}
use relayra.Redis.Actions.{Exec, pure, read, read_or, attempt, ◌>>=◌, ◌>>◌}
use relayra.Store.Reads.{number_of, bytes_of, status_of, delivery_of}

abbrev pub pending_key : String → Key
pending_key id = key Keys.pending_result id

abbrev pub pending_set : Key
pending_set = the Keys.pending_results

abbrev pub sender_key : String → Key
sender_key id = key Keys.sender_request id

-- the pipeline of `PushResult`; the score is in milliseconds
abbrev pub push_commands : RelayResult → Bytes → ℕ → ℕ → List Command
push_commands result json now_milli now =
    zadd pending_set now_milli (named result.request_id)
    ∷ hset (pending_key result.request_id) (
        (Keys.payload, bytes json)
        ∷ (Keys.delivery_status, delivery result_pending)
        ∷ (Keys.lease_until, number 0)
        ∷ (Keys.updated_at, number now)
        ∷ [])
    ∷ []

abbrev pub lease_result_commands : String → ℕ → List Command
lease_result_commands id lease_until =
    hset (pending_key id)
      ((Keys.delivery_status, delivery result_leased) ∷ (Keys.lease_until, number lease_until) ∷ [])
    ∷ []

abbrev pub repush_commands : List RelayResult → List Command
repush_commands [] = []
repush_commands (result ∷ results) =
    hset (pending_key result.request_id)
      ((Keys.delivery_status, delivery result_pending) ∷ (Keys.lease_until, number 0) ∷ [])
    ∷ repush_commands results

abbrev pub ack_one : String → List Command
ack_one id =
    zrem pending_set (named id)
    ∷ del (pending_key id)
    ∷ srem (the Keys.sender_requests) (named id)
    ∷ del (sender_key id)
    ∷ srem (the Keys.chunk_receipts) (named (request_transfer_id id))
    ∷ del (key Keys.chunk_receipt (request_transfer_id id))
    ∷ del (key Keys.inbound_chunk (request_transfer_id id))
    ∷ []

abbrev pub ack_commands : List String → List Command
ack_commands [] = []
ack_commands (id ∷ ids) = ack_one id ++ ack_commands ids

abbrev pub delete_commands : List String → List Command
delete_commands [] = []
delete_commands (id ∷ ids) =
    srem (the Keys.sender_requests) (named id) ∷ del (sender_key id) ∷ delete_commands ids

abbrev pub ranked_members : List (ℕ × Member) → List Member
ranked_members [] = []
ranked_members ((_, m) ∷ xs) = m ∷ ranked_members xs

abbrev pub add_result : Option RelayResult → List RelayResult → List RelayResult
add_result none results = results
add_result (some result) results = results ++ result ∷ []

-- `parseSenderRequestState`
abbrev pub sender_state_of : String → Object → RequestSyncState
sender_state_of id o = record {
  request_id = id;
  status = status_of (fields o Keys.status);
  lease_until = number_of (fields o Keys.lease_until);
  updated_at = number_of (fields o Keys.updated_at);
  duplicate_ok = false;
}

abbrev pub sender_state_if : String → Object → Option RequestSyncState
sender_state_if id o = if exists o then some (sender_state_of id o) else none

abbrev pub add_state : Option RequestSyncState → List RequestSyncState → List RequestSyncState
add_state none states = states
add_state (some state) states = state ∷ states

module _ ⦃R : Redis⦄ where
  open R use {Db, look, write}

  module _ ⦃C : Codec⦄ where
    open C use {json_result, parse_result}

    unfoldable pub push_result : RelayResult → ℕ → ℕ → Exec Db (Unit {0})
    push_result result now_milli now =
        pipeline (push_commands result (json_result result) now_milli now)

    -- the end of the loop's body, once the result can be read
    take_result : String → ℕ → Option RelayResult → Exec Db (Option RelayResult)
    take_result id lease_until none = pure none
    take_result id lease_until (some result) = do
      pipeline (lease_result_commands id lease_until)
      pure (some result)

    -- the entry of a result that is gone is dropped
    drop_result : String → Exec Db (Option RelayResult)
    drop_result id = do attempt (pipeline (zrem pending_set (named id) ∷ [])); pure none

    -- the lease is read on its own; an error there leaves it 0
    renew_result : String → ℕ → ℕ → Object → Exec Db (Option RelayResult)
    unfolding take_result
    renew_result id now ttl o = do
      current_lease ← read_or 0 (λ d. number_of (fields (look d (pending_key id)) Keys.lease_until))
      if is_result_leased (delivery_of (fields o Keys.delivery_status)) && ltb now current_lease
          then pure none
          else take_result id (now + ttl) (parse_result (bytes_of (fields o Keys.payload)))

    -- the loop's body after the hash has been read; an error has been read as an empty hash
    result_found : String → ℕ → ℕ → Object → Exec Db (Option RelayResult)
    unfolding drop_result renew_result
    result_found id now ttl o = if not (exists o) then drop_result id else renew_result id now ttl o

    lease_result : String → ℕ → ℕ → Exec Db (Option RelayResult)
    lease_result id now ttl = do
      o ← read_or absent (λ d. look d (pending_key id))
      result_found id now ttl o

    results_from : ℕ → ℕ → ℕ → List RelayResult → List Member → Exec Db (List RelayResult)
    results_from max_count now ttl results [] = pure results
    results_from max_count now ttl results (named id ∷ ids) =
        let rest = λ (taken : Option RelayResult).
          results_from max_count now ttl (add_result taken results) ids in
        if leb max_count (length results)
        then pure results
        else do taken ← lease_result id now ttl; rest taken
    results_from max_count now ttl results (_ ∷ ids) = results_from max_count now ttl results ids

    unfoldable pub lease_results : ℕ → ℕ → ℕ → Exec Db (List RelayResult)
    unfolding results_from lease_result result_found
    lease_results max_count ttl now = do
      ids ← read (λ d. ranked_members (ranked (look d pending_set)))
      results_from max_count now ttl [] ids

    unfoldable pub pop_results : ℕ → ℕ → Exec Db (List RelayResult)
    pop_results max_count now = lease_results max_count 30 now

  unfoldable pub pending_results_count : Exec Db ℕ
  pending_results_count = read (λ d. length (ranked_members (ranked (look d pending_set))))

  unfoldable pub repush_results : List RelayResult → Exec Db (Unit {0})
  repush_results [] = pure tt
  repush_results (result ∷ results) = pipeline (repush_commands (result ∷ results))

  unfoldable pub ack_results : List String → Exec Db (Unit {0})
  ack_results [] = pure tt
  ack_results (id ∷ ids) = pipeline (ack_commands (id ∷ ids))

  unfoldable pub delete_acked_results : List String → Exec Db (Unit {0})
  delete_acked_results ids = attempt (ack_results ids)

  unfoldable pub result_is_pending : String → Exec Db Bool
  result_is_pending id = read (λ d. exists (look d (pending_key id)))

  -- a time that is not set is `now`
  unfoldable pub store_sender_request_state : Option RequestSyncState → ℕ → Exec Db (Unit {0})
  store_sender_request_state none now = pure tt
  store_sender_request_state (some state) now =
      let updated_at = if state.updated_at == 0 then now else state.updated_at in
      pipeline (
        sadd (the Keys.sender_requests) (named state.request_id)
        ∷ hset (sender_key state.request_id) (
            (Keys.status, request_status state.status)
            ∷ (Keys.lease_until, number state.lease_until)
            ∷ (Keys.updated_at, number updated_at)
            ∷ [])
        ∷ [])

  unfoldable pub get_sender_request_state : String → Exec Db (Option RequestSyncState)
  get_sender_request_state id = read_or none (λ d. sender_state_if id (look d (sender_key id)))

  states_from : List Member → Exec Db (List RequestSyncState)
  states_from [] = pure []
  states_from (named id ∷ ids) = do
    state ← get_sender_request_state id
    rest ← states_from ids
    pure (add_state state rest)
  states_from (_ ∷ ids) = states_from ids

  unfoldable pub list_sender_request_states : Exec Db (List RequestSyncState)
  unfolding states_from get_sender_request_state
  list_sender_request_states = do
    ids ← read (λ d. set_of (look d (the Keys.sender_requests)))
    states_from ids

  unfoldable pub delete_sender_request_states : List String → Exec Db (Unit {0})
  delete_sender_request_states [] = pure tt
  delete_sender_request_states (id ∷ ids) = pipeline (delete_commands (id ∷ ids))
