-- ===== src/Store/Peers/Stored.antt =====
-- internal/store/peers.go: peers that are stored and read.
use relayra.Prelude.{◌≡◌, ◌<◌, some, All}
use relayra.Errors.{ok}
use relayra.Models.{Peer, unix_time}
use relayra.Redis.{Redis}
use relayra.Redis.Keys.{key_eq_refl}
use relayra.Redis.Actions.{calm, ◌>>=◌}
use relayra.Text.Hex.{decode_hex-hex}
use relayra.Store.Peers.{peer_key, store_peer, get_peer}
use relayra.Store.Peers.Capabilities.{IsName, split_capabilities-join}

module _ ⦃R : Redis⦄ where
  open R use {Db, look, write, look-write}

  -- Where every exchange succeeds, a peer that is stored is read back as it was, with its times cut to
  -- the second, if its key consists of bytes and its capabilities are not empty and have neither
  -- spaces nor commas.
  pub store-get_peer :
      (peer : Peer) (d : Db)
      → All (λ b. b < 256) peer.encryption_key
      → All IsName peer.capabilities
      → (get_peer peer.id (calm (store_peer peer (calm d)).1.db)).0
        ≡ ok (
            some (record peer {
              registered_at = unix_time peer.registered_at.seconds;
              last_seen = unix_time peer.last_seen.seconds;
            }))
  unfolding get_peer store_peer ◌>>=◌
  store-get_peer peer d bytes names = simp (
    look-write,
    key_eq_refl (peer_key peer.id),
    decode_hex-hex peer.encryption_key bytes,
    split_capabilities-join peer.capabilities names,
  )
