-- ===== src/Store/Peers/Deleted.antt =====
-- internal/store/peers.go: what is left of a peer that is deleted.
use relayra.Prelude.{ℕ, String, ◌≡◌, some, [], pos}
use relayra.Errors.{ok}
use relayra.Models.{Peer, unix_time, year_zero}
use relayra.Redis.{Redis}
use relayra.Redis.Keys.{key_eq_refl}
use relayra.Redis.Actions.{calm, ◌>>=◌}
use relayra.Text.{trim_space}
use relayra.Text.Hex.{decode_hex}
use relayra.Store.Peers.{peer_key, get_peer, split_capabilities, delete_peer, update_peer_last_seen}

module _ ⦃R : Redis⦄ where
  open R use {Db, look, write, look-write}

  -- what is read of a peer of which only the time of the last contact is stored
  abbrev pub nameless : ℕ → Peer
  nameless now = record {
    id = "";
    name = "";
    machine_id = "";
    role = "";
    address = "";
    capabilities = [];
    encryption_key = [];
    registered_at = year_zero;
    last_seen = unix_time (pos now);
  }

  -- Where every exchange succeeds, if the time of the last contact is updated after a peer was
  -- deleted, the peer is found again,
  -- without a name, with an empty key, and as if it had been registered at the start of the year 0.
  pub delete-update_last_seen :
      (id : String) (now : ℕ) (d : Db)
      → (get_peer id
          (calm (update_peer_last_seen id now (calm (delete_peer id (calm d)).1.db)).1.db)).0
        ≡ ok (some (nameless now))
  unfolding get_peer delete_peer update_peer_last_seen split_capabilities trim_space decode_hex
      ◌>>=◌
  delete-update_last_seen id now d = simp (look-write, key_eq_refl (peer_key id))
