-- ===== src/Poller/Cycle.antt =====
-- internal/poller/poller.go: one poll of the sender. What becomes of the HTTP request is a
-- parameter: the network and the listener are not the sender's.
use relayra.Prelude.{ℕ, String, Bool, true, false, Option, none, some, List, [], ◌∷◌, ◌++◌}
use relayra.Models.{RelayRequest, RelayResult, TransportChunk, PollPayloadUp, PollPayloadDown}
use relayra.Codec.{Codec}
use relayra.Settings.{Settings, sender_request_lease_duration, sender_result_lease_duration}
use relayra.Redis.{Redis}
use relayra.Redis.Actions.{Exec, pure, attempt, try, ◌>>=◌, ◌>>◌}
use relayra.Proxy.{Manager, get_transport, mark_success, mark_failed}
use relayra.Store.Chunks.{store_inbound_chunk, list_chunk_receipts}
use relayra.Store.Sender.{lease_results, list_sender_request_states, repush_results, ack_results}
use relayra.Poller.Incoming.{handle_incoming_request}

-- What the sender sees of its request: it could not be made, the connection failed, the answer was
-- not read or had another status than 200, it could not be parsed or decrypted, or it says this.
pub data Reply : Type 0 where
  unsent unreachable refused unreadable : Reply
  replied : PollPayloadDown → Reply

abbrev pub if_dispatched : Bool → RelayRequest → List RelayRequest
if_dispatched true req = req ∷ []
if_dispatched false req = []

module _ ⦃R : Redis⦄ ⦃C : Codec⦄ (cfg : Settings) (listener_id : String) (now now_milli : ℕ) where
  open R use {Db}

  unfoldable pub build_payload_up : Exec Db PollPayloadUp
  build_payload_up = do
    results ← lease_results cfg.poll_batch_size (sender_result_lease_duration cfg) now
    request_states ← list_sender_request_states
    chunk_receipts ← list_chunk_receipts
    pure (record {
      results = results;
      request_states = request_states;
      chunk_receipts = chunk_receipts;
      probe = none;
    })

  unfoldable pub take_assembled : Option RelayRequest → Exec Db (List RelayRequest)
  take_assembled none = pure []
  take_assembled (some req) = do
    dispatched ← handle_incoming_request cfg listener_id req now now_milli
    pure (if_dispatched dispatched req)

  -- the requests that are dispatched
  unfoldable pub take_chunks : List TransportChunk → Exec Db (List RelayRequest)
  unfolding take_assembled
  take_chunks [] = pure []
  take_chunks (chunk ∷ chunks) = do
    (receipt, req) ← store_inbound_chunk chunk (sender_request_lease_duration cfg) now
    one ← take_assembled req
    more ← take_chunks chunks
    pure (one ++ more)

  abbrev pub if_handled : Option Bool → RelayRequest → List RelayRequest
  if_handled none req = []
  if_handled (some dispatched) req = if_dispatched dispatched req

  -- the error of one request is logged
  unfoldable pub take_requests : List RelayRequest → Exec Db (List RelayRequest)
  take_requests [] = pure []
  take_requests (req ∷ reqs) = do
    handled ← try (handle_incoming_request cfg listener_id req now now_milli)
    more ← take_requests reqs
    pure (if_handled handled req ++ more)

  unfoldable pub process_poll_response : PollPayloadDown → Exec Db (List RelayRequest)
  unfolding take_chunks take_requests
  process_poll_response down = do
    ack_results down.ack_result_ids
    from_chunks ← take_chunks down.request_chunks
    whole ← take_requests down.requests
    pure (from_chunks ++ whole)

  unfoldable pub after_response :
      String → Option (List RelayRequest) → Exec Db (Bool × List RelayRequest)
  after_response proxy_url none = pure (false, [])
  after_response proxy_url (some dispatched) = do
    mark_success proxy_url now
    pure (true, dispatched)

  -- whether the cycle counts as a success, and the requests that it dispatches
  unfoldable pub after_reply :
      String → List RelayResult → Reply → Exec Db (Bool × List RelayRequest)
  unfolding after_response
  after_reply proxy_url results unsent = pure (false, [])
  after_reply proxy_url results unreachable = do
    mark_failed proxy_url now
    attempt (repush_results results)
    pure (false, [])
  after_reply proxy_url results refused = do attempt (repush_results results); pure (false, [])
  after_reply proxy_url results unreadable = pure (false, [])
  after_reply proxy_url results (replied down) = do
    done ← try (process_poll_response down)
    after_response proxy_url done

  module _ (creates : String → Bool) (m : Manager) where
    unfoldable pub after_transport :
        List RelayResult → Option String → Reply → Exec Db (Bool × List RelayRequest)
    unfolding after_reply
    after_transport results none reply = pure (false, [])
    after_transport results (some proxy_url) reply = after_reply proxy_url results reply

    -- the cycle after the payload is built
    unfoldable pub send_payload : PollPayloadUp → Reply → Exec Db (Bool × List RelayRequest)
    unfolding after_transport
    send_payload up reply = do
      proxy_url ← try (get_transport creates m now)
      after_transport up.results proxy_url reply

    unfoldable pub do_poll_cycle_http : (PollPayloadUp → Reply) → Exec Db (Bool × List RelayRequest)
    do_poll_cycle_http exchange = do
      up ← try build_payload_up
      elim up [ none ↦ pure (false, []) | some payload ↦ send_payload payload (exchange payload) ]
