-- ===== src/Tests/Api.antt =====
-- The theorems of Store/Peers, Server/Auth, Server/Api, Webhook and Config at concrete inputs.
use Prim.Native.String.{◌++◌ as append}
use relayra.Prelude.{
  All, eq_refl, ◌≡◌, ◌≢◌, ◌⊎◌, ◌↔◌, refl, true, false, List, [], ◌∷◌, none, some, arith, pos,
}
use relayra.Text.{to_lower, trim_space, strip_prefix}
use relayra.Errors.{Error, ok, err}
use relayra.Models.{Peer, PairingToken, unix_time}
use relayra.Redis.Keys
use relayra.Redis.Objects.{bytes, set_value, hset, sadd, has, named, text}
use relayra.Redis.Actions.{State, Outcome, answered, cut, calm, run_all, under, ◌>>=◌}
use relayra.Store.Peers.{
  peer_key, pairing_key, peer_fields, store_peer, get_peer, delete_peer, update_peer_last_seen,
  get_pairing_token,
}
use relayra.Store.Peers.Pairing.{Call, take, run_calls, taken_once}
use relayra.Store.Peers.Deleted.{nameless, delete-update_last_seen}
use relayra.Store.Peers.Stored.{store-get_peer}
use relayra.Store.Peers.Capabilities.{IsName}
use relayra.Store.Tokens.{
  api_token_count, hash_api_token, validate_api_token, find_api_token, mark_used, hash_key,
  token_key,
}
use relayra.Store.Queue.{enqueue_request}
use relayra.Store.Queue.Durable.{IsKept}
use relayra.Store.Queue.Durable.History
use relayra.Server.Auth.{authenticate, admitted, is_exempt}
use relayra.Server.Auth.Protected.{HasToken, authenticate-HasToken}
use relayra.Server.Api.{RelayBody, relay, accepted_queued, request_of, is_listener_destination}
use relayra.Server.Api.Accepted.{queued-Kept}
use relayra.Store.Proxies.Hash.{utf8}
use relayra.Crypto.Secret.{derive_key, derive_key-swap}
use relayra.Webhook.{unanswered, deliver}
use relayra.Webhook.Retries.{panicked, ends, deliver-first_decided}
use relayra.Config.{Config, validate}
use relayra.Config.Valid.{IsValid, validate-IsValid}
use relayra.Tests.Relay.{cfg}
use relayra.Tests.Chunks.{a_request}
use relayra.Tests.Tokens.{token_codec, a_token}
use relayra.Tests.Memory.{Memory, empty, memory}
use relayra.Tests.Encodings.{codec}

derive_key-swap_example :
    derive_key (λ secret salt. some (utf8 (append secret salt))) "s" "m2" "m1"
    ≡ derive_key (λ secret salt. some (utf8 (append secret salt))) "s" "m1" "m2"
derive_key-swap_example =
    derive_key-swap (λ secret salt. some (utf8 (append secret salt))) "s" "m2" "m1"

abbrev a_peer : Peer
a_peer = record {
  id = "p1";
  name = "sender";
  machine_id = "m1";
  role = "sender";
  address = "";
  capabilities = "one" ∷ "ws" ∷ [];
  encryption_key = 1 ∷ 2 ∷ [];
  registered_at = unix_time (pos 5);
  last_seen = unix_time (pos 6);
}

names : All IsName a_peer.capabilities
names =
    (((refl, refl), ((refl, refl), ((refl, refl), tt))), (((refl, refl), ((refl, refl), tt)), tt))

store-get_peer_example :
    (get_peer "p1" (calm (store_peer a_peer (calm empty)).1.db)).0 ≡ ok (some a_peer)
store-get_peer_example = store-get_peer a_peer empty (omega arith, (omega arith, tt)) names

abbrev one_peer : Memory
one_peer = run_all memory.write (hset (peer_key "p1") (peer_fields a_peer) ∷ []) empty

delete-update_last_seen_example :
    (get_peer "p1"
      (calm (update_peer_last_seen "p1" 9 (calm (delete_peer "p1" (calm one_peer)).1.db)).1.db)).0
    ≡ ok (some (nameless 9))
delete-update_last_seen_example = delete-update_last_seen "p1" 9 one_peer

abbrev a_pairing : PairingToken
a_pairing = record {
  listener_addr = "l:1";
  listener_id = "l1";
  listener_name = "listener";
  secret = "s";
  expires_at = 100;
}

abbrev one_pairing : State Memory
one_pairing = calm (
    run_all memory.write
      (set_value (pairing_key "h") (bytes (token_codec.json_pairing_token a_pairing)) ∷ []) empty)

pairing_taken : (get_pairing_token "h" one_pairing).0 ≡ ok a_pairing
unfolding get_pairing_token ◌>>=◌
pairing_taken = rw (token_codec.parse-json_pairing_token a_pairing)

abbrev takes : List (Call "h" × List Outcome)
takes = (take "h", cut 1 ∷ []) ∷ (take "g", []) ∷ []

taken_once_example :
    (under []
      (get_pairing_token "h")
      (run_calls "h" takes (get_pairing_token "h" one_pairing).1).1).0
    ≢ ok a_pairing
taken_once_example = taken_once "h" takes [] one_pairing a_pairing a_pairing pairing_taken

abbrev with_token : Memory
with_token =
    run_all memory.write
      (sadd (Keys.the Keys.api_tokens) (named "t1")
        ∷ set_value (hash_key (codec.sha256_hex (116 ∷ []))) (text "t1")
        ∷ set_value (token_key "t1") (bytes (token_codec.json_api_token a_token))
        ∷ [])
      empty

protected : is_exempt "/api/v1/relay" ≡ false
unfolding is_exempt strip_prefix
protected = refl

through : (authenticate "/api/v1/relay" "Bearer t" 50 (calm with_token)).0 ≡ ok admitted
unfolding authenticate is_exempt strip_prefix api_token_count hash_api_token validate_api_token
    find_api_token has mark_used ◌>>=◌
through = simp (eq_refl (codec.sha256_hex (116 ∷ [])), token_codec.parse-json_api_token a_token)

authenticate-HasToken_example :
    ((api_token_count (calm with_token)).0 ≡ ok 0)
    ⊎ (((e : Error) × ((api_token_count (calm with_token)).0 ≡ err e))
        ⊎ HasToken "Bearer t" 50 (api_token_count (calm with_token)).1)
authenticate-HasToken_example =
    authenticate-HasToken "/api/v1/relay" "Bearer t" 50 (calm with_token) protected through

abbrev body : RelayBody
body = record {
  destination_peer_id = "p1";
  webhook_url = "";
  async = false;
  request = a_request.request;
}

accepted :
    (relay cfg "m0" false (some (some body)) "r1" 50 50000 (calm one_peer)).0
    ≡ ok (accepted_queued (request_of body "r1" 50))
unfolding relay is_listener_destination get_peer enqueue_request to_lower trim_space ◌>>=◌
accepted = refl

abbrev calls : List (History.Call × List Outcome)
calls =
    (History.lease "p1" 5 30 100, [])
    ∷ (History.acknowledge ("r1" ∷ []) 101, answered ∷ cut 1 ∷ [])
    ∷ []

queued-Kept_example :
    IsKept "p1" "r1"
      (History.run_calls calls
        (relay cfg "m0" false (some (some body)) "r1" 50 50000 (calm one_peer)).1).1.db
queued-Kept_example =
    queued-Kept cfg "m0" false (some (some body)) "r1" 50 50000 (calm one_peer)
      (request_of body "r1" 50) calls (refl, (tt, tt)) accepted

-- five attempts, none of which is answered
deliver-first_decided_example :
    deliver "r1" 5 (λ n. unanswered) (calm empty)
    ≡ ends "r1" 5 (λ n. unanswered) panicked (calm empty)
deliver-first_decided_example =
    deliver-first_decided "r1" 5 (λ n. unanswered) (calm empty) (omega arith)

abbrev config : Config
config = record {
  machine_id = "m1";
  instance_name = "node";
  role = "listener";
  storage_backend = "redis";
  listen_port = pos 8080;
  redis_port = pos 6379;
  redis_pool_size = pos 64;
  poll_interval = pos 5;
  poll_batch_size = pos 10;
  request_timeout = pos 30;
  long_polling = true;
  long_poll_wait = pos 30;
  async_workers = pos 4;
  transport_mode = " WS ";
  proxy_cooldown_seconds = pos 300;
  transport_chunk_size_bytes = pos 65536;
  ws_ping_interval = pos 20;
  ws_keepalive_interval = pos 5;
  ws_write_timeout = pos 15;
  ws_idle_timeout = pos 60;
  ws_reconnect_base_seconds = pos 1;
  ws_reconnect_max_seconds = pos 30;
  ws_enable_long_poll_fallback = true;
  allow_listener_execution = false;
  result_ttl = pos 86400;
}

validate-IsValid_example : (validate config ≡ none) ↔ IsValid config
validate-IsValid_example = validate-IsValid config
