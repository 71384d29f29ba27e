-- ===== src/Store/Proxies/Shared.antt =====
-- internal/store/redis_proxy.go: proxies whose status has one name.
use relayra.Prelude.{ℕ, ◌+◌, String, ◌≡◌, eq_refl, some, take, [], ◌∷◌}
use relayra.Errors.{ok}
use relayra.Redis.{Redis}
use relayra.Redis.Keys
use relayra.Redis.Objects.{fields, number, hset}
use relayra.Redis.Actions.{calm, ◌>>=◌}
use relayra.Store.Reads.{number_of}
use relayra.Store.Proxies.{status_key, mark_proxy_failed, get_proxy_status}
use relayra.Store.Proxies.Hash.{hash_url, hash_url-take, utf8}

module _ ⦃R : Redis⦄ where
  open R use {Db, look, write, look-write}

  abbrev pub failures : Db → String → ℕ
  failures d url = number_of (fields (look d (status_key url)) Keys.fail_count)

  mark_failed_same :
      (d : Db) (u v : String) (now : ℕ)
      → hash_url u ≡ hash_url v
      → (e : Db) × (mark_proxy_failed u now (calm d) ≡ (ok (failures d v + 1), calm e))
        × (get_proxy_status v (calm e)
            ≡ (ok (record { fail_count = failures d v + 1; last_checked = some now }), calm e))
  unfolding mark_proxy_failed get_proxy_status ◌>>=◌
  mark_failed_same d u v now h =
      let count : Db → Db =
        λ d. write d (hset (status_key u) ((Keys.fail_count, number (failures d u + 1)) ∷ [])) in
      (
        write (count d) (hset (status_key u) ((Keys.last_checked, number now) ∷ [])),
        simp (h, look-write, eq_refl),
        simp (h, look-write, eq_refl),
      )

  -- Where every exchange succeeds, a failure that is marked for one proxy counts as a failure of
  -- every proxy whose URL begins with the same eight bytes (`socks5:/`, say): the count that is
  -- returned, and the status that is read for the other, are one more than the other's was.
  pub mark_proxy_failed-shared :
      (d : Db) (u v : String) (now : ℕ)
      → take 8 (utf8 u) ≡ take 8 (utf8 v)
      → (e : Db) × (mark_proxy_failed u now (calm d) ≡ (ok (failures d v + 1), calm e))
        × (get_proxy_status v (calm e)
            ≡ (ok (record { fail_count = failures d v + 1; last_checked = some now }), calm e))
  mark_proxy_failed-shared d u v now h = mark_failed_same d u v now (hash_url-take u v h)
