-- ===== src/Store/Queue/Cleared.antt =====
-- internal/store/queue.go: what `ClearPeerQueue` leaves alone. It takes requests out of one queue,
-- marks them as failed, and deletes how far their transfers have come.
use relayra.Prelude.{ℕ, String, Bool, true, false, List, [], ◌∷◌, ◌+◌, if◌then◌else◌}
use relayra.Models.{failed, request_transfer_id}
use relayra.Codec.{Codec}
use relayra.Redis.{Redis}
use relayra.Redis.Keys
use relayra.Redis.Keys.{key}
use relayra.Redis.Objects.{Member, named, lrem, hset, del, request_status}
use relayra.Redis.Actions.Always.{Always, Always-pure, Always-read, Always-bind, Always-batch}
use relayra.Store.Queue.{
  queue_key, request_key, clear_found, clear_one, clear_from, clear_peer_queue,
}

module _ ⦃R : Redis⦄ ⦃C : Codec⦄ (P : R.Db → Type 0) (p : String)
    (dropped : (id : String) (d : R.Db) → P d → P (R.write d (lrem (queue_key p) (named id))))
    (marked : (id : String) (d : R.Db)
      → P d
      → P (R.write d (hset (request_key id) ((Keys.status, request_status failed) ∷ []))))
    (restarted : (id : String) (d : R.Db)
      → P d
      → P (R.write d (del (key Keys.chunk_cursor (request_transfer_id id))))) where
  open R use {write}

  clear_found-Always : (id : String) (queued_only : Bool) → Always P (clear_found p id queued_only)
  unfolding clear_found
  clear_found-Always id false = Always-pure false
  clear_found-Always id true =
      Always-bind _ _
        (Always-batch write _ (λ d h.
          let out = dropped id d h in
          let done = marked id _ out in (h, (out, (done, restarted id _ done)))))
        (λ _. Always-pure _)

  clear_from-Always : (cleared : ℕ) (ids : List Member) → Always P (clear_from p cleared ids)
  unfolding clear_from clear_one
  clear_from-Always cleared [] = Always-pure cleared
  clear_from-Always cleared (Member.named id ∷ ids) =
      Always-bind _ _ (Always-bind _ _ (Always-read _) (clear_found-Always id))
        (λ done. clear_from-Always (if done then cleared + 1 else cleared) ids)
  clear_from-Always cleared (Member.numbered n ∷ ids) = clear_from-Always cleared ids

  pub clear_peer_queue-Always : Always P (clear_peer_queue p)
  unfolding clear_peer_queue
  clear_peer_queue-Always = Always-bind _ _ (Always-read _) (clear_from-Always 0)
