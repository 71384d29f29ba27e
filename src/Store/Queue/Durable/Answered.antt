-- ===== src/Store/Queue/Durable/Answered.antt =====
-- internal/store/results.go: `StoreResult` and the requests that are kept.
use relayra.Prelude.{
  ℕ, String, ◌≡◌, Bool, true, false, ◌||◌, ◌&&◌, not, List, [], ◌∷◌, ◌++◌, arith, eq_iff, ◌==ₛ◌,
  if◌then◌else◌,
}
use relayra.Models.{RelayResult, completed, request_transfer_id}
use relayra.Codec.{Codec}
use relayra.Redis.{Redis}
use relayra.Redis.Keys
use relayra.Redis.Keys.{Key, key_eq, key}
use relayra.Redis.Objects.{
  named, list_of, lrem, hset, del, set_value, expire, bytes, request_status,
}
use relayra.Redis.Actions.Always.{
  Always, Through, Through-mono, Always-read, Always-try, Always-bind, Always-batch,
}
use relayra.Store.Queue.{queue_key, request_key}
use relayra.Store.Results.{result_key, store_result, store_result_commands, known_peer}
use relayra.Store.Queue.Durable.{has-without, is_live, is_answered, IsKept}

module _ ⦃R : Redis⦄ (peer_id id : String) where
  open R use {Db, look, write, look-write}

  module _ ⦃C : Codec⦄ where
    open C use {json_result}

    -- kept, and answered if the result of `j` is being stored
    abbrev IsDone : String → Db → Type 0
    IsDone j d = (is_answered peer_id id d || (not (j ==ₛ id) && is_live peer_id id d)) ≡ true

    IsDone-IsKept : (j : String) (d : Db) → IsDone j d → IsKept peer_id id d
    IsDone-IsKept j d h = ground arith

    IsDone-lrem :
        (j p : String) (d : Db) → IsDone j d → IsDone j (write d (lrem (queue_key p) (named j)))
    IsDone-lrem j p d h =
        simp look-write (ground (arith, has-without id j (list_of (look d (queue_key peer_id)))))

    IsDone-del :
        (j k : String) (d : Db) → IsDone j d → IsDone j (write d (del (key Keys.chunk_cursor k)))
    IsDone-del j k d h = simp look-write h

    store_tail-IsDone :
        (j p : String) (b : Bool) (d : Db)
        → IsDone j d
        → Through
            (IsDone j)
            write
            ((if b then [] else lrem (queue_key p) (named j) ∷ [])
              ++ del (key Keys.chunk_cursor (request_transfer_id j)) ∷ [])
            d
    store_tail-IsDone j p true d h = (h, IsDone-del j (request_transfer_id j) d h)
    store_tail-IsDone j p false d h =
        let removed = IsDone-lrem j p d h in
        (h, (removed, IsDone-del j (request_transfer_id j) _ removed))

    -- the result is stored first
    IsDone-set :
        (j : String) (json : List ℕ) (d : Db)
        → IsKept peer_id id d
        → IsDone j (write d (set_value (result_key j) (bytes json)))
    IsDone-set j json d h = simp look-write (ground (arith, eq_iff j id))

    IsDone-expire :
        (j : String) (ttl : ℕ) (d : Db)
        → IsDone j d
        → IsDone j (write d (expire (result_key j) ttl))
    IsDone-expire j ttl d h = simp look-write (ground arith)

    IsDone-completed :
        (j : String) (d : Db)
        → IsDone j d
        → IsDone j (write d (hset (request_key j) ((Keys.status, request_status completed) ∷ [])))
    IsDone-completed j d h = simp look-write (ground arith)

    store_result-Through :
        (result : RelayResult) (json : List ℕ) (ttl : ℕ) (p : String) (d : Db)
        → IsKept peer_id id d
        → Through (IsKept peer_id id) write (store_result_commands result json ttl p) d
    store_result-Through result json ttl p d h =
        let j = result.request_id in
        let set = IsDone-set j json d h in
        let expiring = IsDone-expire j ttl _ set in
        (
          h,
          (
            IsDone-IsKept j _ set,
            (
              IsDone-IsKept j _ expiring,
              Through-mono (IsKept peer_id id) (IsDone j) write (IsDone-IsKept j) _ _
                  (store_tail-IsDone j p (p ==ₛ "") _ (IsDone-completed j _ expiring)),
            ),
          ),
        )

    -- Whatever exchanges fail, storing a result, of this request or another, keeps every request
    -- that is queued or answered so.
    pub store_result-IsKept :
        (result : RelayResult) (ttl : ℕ) → Always (IsKept peer_id id) (store_result result ttl)
    unfolding store_result
    store_result-IsKept result ttl = Always-bind _ _ (Always-try _ (Always-read _)) (λ peer.
        Always-batch write _
          (λ d h. store_result-Through result (json_result result) ttl (known_peer peer) d h))
