-- ===== src/Store/Peers.antt =====
-- internal/store/peers.go: the nodes that are paired, the tokens of pairings, and, on a sender, the
-- listener that it is paired with. A key for encryption is kept as hexadecimal digits.
pub mod Pairing
pub mod Capabilities
pub mod Stored
pub mod Deleted
use Prim.Native.Char.{Char, code}
use relayra.Prelude.{
  ℕ, String, Bool, Option, none, some, List, [], ◌∷◌, ◌++◌, ◌==ₛ◌, if◌then◌else◌, length, pos,
}
use relayra.Text.{trim_space, chars, of_chars, split_chars, join}
use relayra.Errors.{pairing_token_not_found, invalid_json}
use relayra.Models.{Peer, PairingToken, Time, unix_time, zero_time, year_zero}
use relayra.Codec.{TokenCodec}
use relayra.Redis.{Redis, pipeline}
use relayra.Redis.Keys
use relayra.Redis.Keys.{Key, Field, key, the}
use relayra.Redis.Objects.{
  Command, Value, Object, Hash, text, integer, bytes, Member, named, hset, del, sadd, srem,
  set_value, expire, set_of, value_of, fields, exists,
}
use relayra.Redis.Actions.{Exec, pure, raise, read, read_or, batch, try, ◌>>=◌, ◌>>◌}
use relayra.Store.Proxies.Hash.{hex}
use relayra.Text.Hex.{decode_hex}
use relayra.Store.Reads.{text_of}
use relayra.Store.Queue.{queue_key}

abbrev keep_parts : List (List Char) → List String
keep_parts [] = []
keep_parts (part ∷ parts) =
    let trimmed = trim_space (of_chars part) in
    if trimmed ==ₛ "" then keep_parts parts else trimmed ∷ keep_parts parts

unfoldable pub split_capabilities : String → List String
split_capabilities raw =
    if trim_space raw ==ₛ ""
    then []
    else let (part, parts) = split_chars (code ",") (chars raw) in keep_parts (part ∷ parts)

abbrev pub peer_key : String → Key
peer_key id = key Keys.peer id

abbrev pub pairing_key : String → Key
pairing_key secret_hash = key Keys.pairing secret_hash

abbrev pub peer_fields : Peer → List (Field × Value)
peer_fields peer =
    (Keys.id, text peer.id)
    ∷ (Keys.name, text peer.name)
    ∷ (Keys.machine_id, text peer.machine_id)
    ∷ (Keys.role, text peer.role)
    ∷ (Keys.address, text peer.address)
    ∷ (Keys.capabilities, text (join "," peer.capabilities))
    ∷ (Keys.encryption_key, text (hex peer.encryption_key))
    ∷ (Keys.registered_at, integer peer.registered_at.seconds)
    ∷ (Keys.last_seen, integer peer.last_seen.seconds)
    ∷ []

-- what `StoreListenerInfo` writes leaves out the role and the time of the last contact
abbrev pub listener_fields : Peer → List (Field × Value)
listener_fields peer =
    (Keys.id, text peer.id)
    ∷ (Keys.name, text peer.name)
    ∷ (Keys.machine_id, text peer.machine_id)
    ∷ (Keys.address, text peer.address)
    ∷ (Keys.capabilities, text (join "," peer.capabilities))
    ∷ (Keys.encryption_key, text (hex peer.encryption_key))
    ∷ (Keys.registered_at, integer peer.registered_at.seconds)
    ∷ []

abbrev pub peer_of : Hash → Time → Time → Peer
peer_of h registered_at last_seen = record {
  id = text_of (h Keys.id);
  name = text_of (h Keys.name);
  machine_id = text_of (h Keys.machine_id);
  role = text_of (h Keys.role);
  address = text_of (h Keys.address);
  capabilities = split_capabilities (text_of (h Keys.capabilities));
  encryption_key = decode_hex (text_of (h Keys.encryption_key));
  registered_at = registered_at;
  last_seen = last_seen;
}

-- `GetListenerInfo` does not set the role and the time of the last contact
abbrev pub listener_of : Hash → Time → Peer
listener_of h registered_at = record (peer_of h registered_at zero_time) { role = "" }

-- `time.Parse("", v)` of a field that `HGetAll` gave, where its error is dropped
abbrev pub parsed_empty : Option Value → Time
parsed_empty none = year_zero
parsed_empty (some _) = zero_time

abbrev pub time_or : Time → Option Value → Time
time_or instead (some (integer ts)) = unix_time ts
time_or instead _ = instead

abbrev pub if_found : Option (Option Peer) → List Peer → List Peer
if_found (some (some peer)) peers = peer ∷ peers
if_found _ peers = peers

module _ ⦃R : Redis⦄ where
  open R use {Db, look, write}

  unfoldable pub store_peer : Peer → Exec Db (Unit {0})
  store_peer peer =
      pipeline
        (hset (peer_key peer.id) (peer_fields peer) ∷ sadd (the Keys.peers) (named peer.id) ∷ [])

  -- `HGet` of a time, or what stands for it where it fails or is no number
  unfoldable pub time_at : Time → Key → Field → Exec Db Time
  time_at instead k f = read_or instead (λ d. time_or instead (fields (look d k) f))

  unfoldable pub peer_found : String → Object → Exec Db (Option Peer)
  unfolding time_at
  peer_found id o =
      if exists o
      then (do
        registered_at ←
            time_at (parsed_empty (fields o Keys.registered_at)) (peer_key id) Keys.registered_at
        last_seen ← time_at (parsed_empty (fields o Keys.last_seen)) (peer_key id) Keys.last_seen
        pure (some (peer_of (fields o) registered_at last_seen)))
      else pure none

  unfoldable pub get_peer : String → Exec Db (Option Peer)
  unfolding peer_found
  get_peer id = do o ← read (λ d. look d (peer_key id)); peer_found id o

  -- a peer that cannot be read is passed over
  peers_from : List Member → Exec Db (List Peer)
  peers_from [] = pure []
  peers_from (named id ∷ ids) = do
    peer ← try (get_peer id)
    rest ← peers_from ids
    pure (if_found peer rest)
  peers_from (_ ∷ ids) = peers_from ids

  unfoldable pub list_peers : Exec Db (List Peer)
  unfolding peers_from
  list_peers = do ids ← read (λ d. set_of (look d (the Keys.peers))); peers_from ids

  unfoldable pub delete_peer : String → Exec Db (Unit {0})
  delete_peer id =
      pipeline (del (peer_key id) ∷ srem (the Keys.peers) (named id) ∷ del (queue_key id) ∷ [])

  unfoldable pub peer_count : Exec Db ℕ
  peer_count = read (λ d. length (set_of (look d (the Keys.peers))))

  unfoldable pub update_peer_last_seen : String → ℕ → Exec Db (Unit {0})
  update_peer_last_seen id now =
      pipeline (hset (peer_key id) ((Keys.last_seen, integer (pos now)) ∷ []) ∷ [])

  unfoldable pub store_listener_info : Peer → Exec Db (Unit {0})
  store_listener_info peer = pipeline (hset (the Keys.listener_info) (listener_fields peer) ∷ [])

  unfoldable pub listener_found : Object → Exec Db (Option Peer)
  unfolding time_at
  listener_found o =
      if exists o
      then (do
        registered_at ← time_at zero_time (the Keys.listener_info) Keys.registered_at
        pure (some (listener_of (fields o) registered_at)))
      else pure none

  unfoldable pub get_listener_info : Exec Db (Option Peer)
  unfolding listener_found
  get_listener_info = do o ← read (λ d. look d (the Keys.listener_info)); listener_found o

  module _ ⦃T : TokenCodec⦄ where
    open T use {json_pairing_token, parse_pairing_token}

    -- one SET with its expiry
    unfoldable pub store_pairing_token : String → PairingToken → ℕ → Exec Db (Unit {0})
    store_pairing_token secret_hash token ttl = pipeline (
        set_value (pairing_key secret_hash) (bytes (json_pairing_token token))
        ∷ expire (pairing_key secret_hash) ttl
        ∷ [])

    abbrev pub pairing_parsed : Option PairingToken → Exec Db PairingToken
    pairing_parsed none = raise invalid_json
    pairing_parsed (some token) = pure token

    abbrev pub token_taken : Option Value → Exec Db PairingToken
    token_taken (some (bytes json)) = pairing_parsed (parse_pairing_token json)
    token_taken _ = raise pairing_token_not_found

    -- GETDEL, in one exchange
    unfoldable pub get_pairing_token : String → Exec Db PairingToken
    get_pairing_token secret_hash = do
      v ←
          batch write
            (λ d. (del (pairing_key secret_hash) ∷ [], value_of (look d (pairing_key secret_hash))))
      token_taken v
