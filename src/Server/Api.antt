-- ===== src/Server/Api.antt =====
-- internal/server/handlers.go: what the listener answers to clients, to a sender that pairs and to
-- a sender that polls. An answer has the status and the error or the values that the code writes; an
-- answer leaves out the time that a result has to live, which is not modelled. The random identifiers
-- are parameters.
pub mod Accepted
use relayra.Prelude.{
  pos, ℕ, String, Bool, true, false, not, ◌||◌, Option, none, some, List, [], ◌∷◌, ltb, ◌==ₛ◌,
  if◌then◌else◌,
}
use relayra.Text.{to_lower, trim_space}
use relayra.Errors.{unknown_peer, decryption_failed, encryption_failed}
use relayra.Models.{
  unix_time, HttpRequest, RelayRequest, RelayResult, RequestStatus, queued, executing, Peer,
  PairingToken, PairingRequest, PollPayloadUp, PollPayloadDown, PollResponse,
}
use relayra.Codec.{Codec, TokenCodec}
use relayra.Settings.{Settings}
use relayra.Redis.{Redis}
use relayra.Redis.Actions.{Exec, pure, raise, attempt, try, ◌>>=◌, ◌>>◌}
use relayra.Store.Queue.{store_request_metadata, enqueue_request, get_request_status, queue_length}
use relayra.Store.Results.{get_result, store_result}
use relayra.Store.Peers.{get_peer, list_peers, store_peer, update_peer_last_seen, get_pairing_token}
use relayra.Crypto.Secret.{hash_secret, derive_key}
use relayra.Server.Results.{Delivery, start_delivery}
use relayra.Server.Events.{queue_listener_request_event}
use relayra.Server.Poll.{process_poll_payload}

pub record RelayBody : Type 0 where
  pub destination_peer_id : String
  pub webhook_url : String
  pub async : Bool
  pub request : HttpRequest

pub data RelayAnswer : Type 0 where
  -- a status and an error
  refused : ℕ → String → RelayAnswer
  -- status 202: it is executed by the listener itself, or queued for a peer
  accepted_executing : RelayRequest → RelayAnswer
  accepted_queued : RelayRequest → RelayAnswer

pub data ResultAnswer : Type 0 where
  bad_result_request : String → ResultAnswer
  internal_error : ResultAnswer
  result_not_found : ResultAnswer
  completed_with : RelayResult → ResultAnswer
  not_yet : RequestStatus → ResultAnswer

pub record PeerInfo : Type 0 where
  pub peer : Peer
  pub queue_size : ℕ

pub data PairAnswer : Type 0 where
  pair_refused : ℕ → String → PairAnswer
  paired : String → PairAnswer

-- `http.MethodGet` where there is none
abbrev pub with_method : HttpRequest → HttpRequest
with_method r = if r.method ==ₛ "" then record r { method = "GET" } else r

abbrev pub request_of : RelayBody → String → ℕ → RelayRequest
request_of body id now = record {
  id = id;
  destination_id = body.destination_peer_id;
  webhook_url = body.webhook_url;
  async = body.async;
  request = with_method body.request;
  status = queued;
  created_at = now;
}

-- the length of a queue that cannot be read is 0
abbrev pub count_of : Option ℕ → ℕ
count_of none = 0
count_of (some n) = n

abbrev pub local_answer : RelayRequest → Option (Unit {0}) → RelayAnswer
local_answer req none = refused 500 "failed to queue local execution"
local_answer req (some _) = accepted_executing req

unfoldable pub is_listener_destination : String → String → Bool
is_listener_destination machine_id destination_id =
    let d = to_lower (trim_space destination_id) in
    d ==ₛ "listener" || d ==ₛ "self" || d ==ₛ to_lower machine_id

module _ ⦃R : Redis⦄ ⦃C : Codec⦄ (cfg : Settings) (machine_id : String)
    (allow_listener_execution : Bool) where
  open R use {Db}

  -- after `EnqueueRequest`: an error of the websocket event is logged
  unfoldable pub after_enqueue : RelayRequest → Option (Unit {0}) → ℕ → ℕ → Exec Db RelayAnswer
  after_enqueue req none now now_milli = pure (refused 500 "failed to queue request")
  after_enqueue req (some _) now now_milli = do
    attempt (queue_listener_request_event cfg req.destination_id now now_milli req)
    pure (accepted_queued req)

  unfoldable pub after_peer : RelayRequest → Option (Option Peer) → ℕ → ℕ → Exec Db RelayAnswer
  unfolding after_enqueue
  after_peer req (some (some _)) now now_milli = do
    stored ← try (enqueue_request req.destination_id req)
    after_enqueue req stored now now_milli
  after_peer req _ now now_milli = pure (refused 404 "peer not found")

  unfoldable pub relay_locally : RelayRequest → Exec Db RelayAnswer
  relay_locally req =
      let here = record req { destination_id = machine_id; status = executing } in
      if not allow_listener_execution
      then pure (refused 403 "listener-side execution is disabled")
      else (do
        stored ← try (store_request_metadata machine_id here)
        pure (local_answer here stored))

  unfoldable pub relay_request : RelayRequest → ℕ → ℕ → Exec Db RelayAnswer
  unfolding after_peer relay_locally
  relay_request req now now_milli =
      if is_listener_destination machine_id req.destination_id
      then relay_locally req
      else (do peer ← try (get_peer req.destination_id); after_peer req peer now now_milli)

  -- the body is what could be read and parsed of it
  unfoldable pub relay : Option (Option RelayBody) → String → ℕ → ℕ → Exec Db RelayAnswer
  unfolding relay_request
  relay none id now now_milli = pure (refused 400 "failed to read request body")
  relay (some none) id now now_milli = pure (refused 400 "invalid JSON")
  relay (some (some body)) id now now_milli =
      if body.destination_peer_id ==ₛ ""
      then pure (refused 400 "destination_peer_id is required")
      else if body.request.url ==ₛ ""
      then pure (refused 400 "request.url is required")
      else relay_request (request_of body id now) now now_milli

  -- what follows the execution of a request by the listener itself
  unfoldable pub after_execution : RelayResult → Option (Unit {0}) → Exec Db (List Delivery)
  after_execution result none = pure []
  after_execution result (some _) = start_delivery result

  unfoldable pub execute_local_request : RelayResult → Exec Db (List Delivery)
  unfolding after_execution
  execute_local_request result = do
    stored ← try (store_result result cfg.result_ttl)
    after_execution result stored

module _ ⦃R : Redis⦄ ⦃C : Codec⦄ where
  open R use {Db}

  abbrev pub status_answer : Option RequestStatus → ResultAnswer
  status_answer none = result_not_found
  status_answer (some status) = not_yet status

  unfoldable pub after_result : String → Option (Option RelayResult) → Exec Db ResultAnswer
  after_result id none = pure internal_error
  after_result id (some (some result)) = pure (completed_with result)
  after_result id (some none) = do status ← try (get_request_status id); pure (status_answer status)

  -- the handler `GetResult`
  unfoldable pub answer_result : String → Exec Db ResultAnswer
  unfolding after_result
  answer_result id =
      if id ==ₛ ""
      then pure (bad_result_request "request_id is required")
      else (do result ← try (get_result id); after_result id result)

  infos_of : List Peer → Exec Db (List PeerInfo)
  infos_of [] = pure []
  infos_of (p ∷ ps) = do
    n ← try (queue_length p.id)
    rest ← infos_of ps
    pure (record { peer = p; queue_size = count_of n } ∷ rest)

  unfoldable pub answer_peers : Exec Db (List PeerInfo)
  unfolding infos_of
  answer_peers = do peers ← list_peers; infos_of peers

  -- Encryption with the key of the peer is a parameter. Deliveries that were started go on where
  -- the answer then cannot be encrypted.
  module _ (cfg : Settings) (open_payload : List ℕ → Option PollPayloadUp)
      (seal : List ℕ → PollPayloadDown → Option PollResponse) where
    unfoldable pub sealed :
        Option PollResponse → List Delivery → Exec Db (PollResponse × List Delivery)
    sealed none deliveries = raise encryption_failed
    sealed (some response) deliveries = pure (response, deliveries)

    unfoldable pub after_open :
        String → List ℕ → Option PollPayloadUp → ℕ → ℕ → ℕ → Exec Db (PollResponse × List Delivery)
    unfolding sealed
    after_open peer_id key none wait_seconds now later = raise decryption_failed
    after_open peer_id key (some up) wait_seconds now later = do
      (down, deliveries) ← process_poll_payload cfg peer_id up wait_seconds now later
      sealed (seal key down) deliveries

    unfoldable pub from_peer :
        String → Option (Option Peer) → ℕ → ℕ → ℕ → Exec Db (PollResponse × List Delivery)
    unfolding after_open
    from_peer peer_id (some (some peer)) wait_seconds now later = do
      attempt (update_peer_last_seen peer_id now)
      after_open peer_id peer.encryption_key (open_payload peer.encryption_key) wait_seconds now
          later
    from_peer peer_id _ wait_seconds now later = raise unknown_peer

    unfoldable pub handle_poll_message : String → ℕ → ℕ → ℕ → Exec Db (PollResponse × List Delivery)
    unfolding from_peer
    handle_poll_message peer_id wait_seconds now later = do
      peer ← try (get_peer peer_id)
      from_peer peer_id peer wait_seconds now later

module _ ⦃R : Redis⦄ ⦃C : Codec⦄ ⦃T : TokenCodec⦄ (machine_id : String)
    (hkdf : String → String → Option (List ℕ)) where
  open R use {Db}

  abbrev pub new_peer : PairingRequest → String → List ℕ → ℕ → Peer
  new_peer req peer_id key now = record {
    id = peer_id;
    name = req.name;
    machine_id = req.machine_id;
    role = "sender";
    address = "";
    capabilities = req.capabilities;
    encryption_key = key;
    registered_at = unix_time (pos now);
    last_seen = unix_time (pos now);
  }

  abbrev pub registered : String → Option (Unit {0}) → PairAnswer
  registered peer_id none = pair_refused 500 "failed to register peer"
  registered peer_id (some _) = paired peer_id

  unfoldable pub with_key : PairingRequest → String → Option (List ℕ) → ℕ → Exec Db PairAnswer
  with_key req peer_id none now = pure (pair_refused 500 "key derivation failed")
  with_key req peer_id (some key) now = do
    stored ← try (store_peer (new_peer req peer_id key now))
    pure (registered peer_id stored)

  unfoldable pub with_token : PairingRequest → String → Option PairingToken → ℕ → Exec Db PairAnswer
  unfolding with_key
  with_token req peer_id none now = pure (pair_refused 401 "invalid or expired pairing token")
  with_token req peer_id (some token) now =
      if ltb token.expires_at now
      then pure (pair_refused 401 "pairing token expired")
      else with_key req peer_id (derive_key hkdf req.secret machine_id req.machine_id) now

  -- the request is what could be read and parsed of the body
  unfoldable pub pair : Option (Option PairingRequest) → String → ℕ → Exec Db PairAnswer
  unfolding with_token
  pair none peer_id now = pure (pair_refused 400 "failed to read body")
  pair (some none) peer_id now = pure (pair_refused 400 "invalid JSON")
  pair (some (some req)) peer_id now = do
    token ← try (get_pairing_token (hash_secret req.secret))
    with_token req peer_id token now
