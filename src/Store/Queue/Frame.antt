-- ===== src/Store/Queue/Frame.antt =====
-- internal/store/runtime_redis.go: what the listener's calls on its queues leave alone. They change
-- the queues and the hashes of requests only, so they keep whatever those two kinds of writes keep.
use relayra.Prelude.{
  ℕ, String, Bool, true, false, Option, none, some, List, [], ◌∷◌, leb, ltb, length,
}
use relayra.Models.{RelayRequest, RequestSyncState, is_completed}
use relayra.Codec.{Codec}
use relayra.Redis.{Redis}
use relayra.Redis.Keys.{Field}
use relayra.Redis.Objects.{Object, Member, Value, lrem, hset}
use relayra.Redis.Actions.Always.{
  Always, Always-pure, Always-read, Always-read_or, Always-attempt, Always-either, Always-bind,
  Always-batch,
}
use relayra.Store.Queue.{
  queue_key, request_key, lease_requests, take_lease, drop_entry, renew_lease, is_over, lease_found,
  lease_one, lease_from, add_taken, active_from, active, load_request_envelope,
  list_active_leased_requests, set_state, apply_found, apply_one, apply_request_states,
}

module _ ⦃R : Redis⦄ ⦃C : Codec⦄ (P : R.Db → Type 0)
    (dropped : (p : String) (m : Member) (d : R.Db) → P d → P (R.write d (lrem (queue_key p) m)))
    (changed : (id : String) (fs : List (Field × Value)) (d : R.Db)
      → P d
      → P (R.write d (hset (request_key id) fs))) where
  open R use {write}

  take_lease-Always :
      (id : String) (now ttl : ℕ) (o : Option RelayRequest) → Always P (take_lease id now ttl o)
  unfolding take_lease
  take_lease-Always id now ttl none = Always-pure none
  take_lease-Always id now ttl (some stored) =
      Always-bind _ _ (Always-batch write _ (λ d h. (h, changed id _ d h))) (λ _. Always-pure _)

  drop_entry-Always : (p id : String) → Always P (drop_entry p id)
  unfolding drop_entry
  drop_entry-Always p id =
      Always-bind _ _ (Always-attempt _ (Always-batch write _ (λ d h. (h, dropped p _ d h))))
        (λ _. Always-pure _)

  lease_found-Always :
      (p id : String) (now ttl : ℕ) (o : Object) → Always P (lease_found p id now ttl o)
  unfolding lease_found renew_lease
  lease_found-Always p id now ttl o = Always-either (is_over o) (drop_entry-Always p id) (
      Always-bind _ _ (Always-read_or _ _) (λ lease.
        Always-either (ltb now lease) (Always-pure none) (take_lease-Always id now ttl _)))

  lease_from-Always :
      (p : String) (batch_size now ttl : ℕ) (taken : List RelayRequest) (ids : List Member)
      → Always P (lease_from p batch_size now ttl taken ids)
  unfolding lease_from lease_one
  lease_from-Always p batch_size now ttl taken [] = Always-pure taken
  lease_from-Always p batch_size now ttl taken (Member.named id ∷ ids) =
      Always-either (leb batch_size (length taken)) (Always-pure taken) (
        Always-bind _ _ (Always-bind _ _ (Always-read_or _ _) (lease_found-Always p id now ttl))
          (λ one. lease_from-Always p batch_size now ttl (add_taken one taken) ids))
  lease_from-Always p batch_size now ttl taken (Member.numbered n ∷ ids) =
      lease_from-Always p batch_size now ttl taken ids

  pub lease_requests-Always :
      (p : String) (batch_size ttl now : ℕ) → Always P (lease_requests p batch_size ttl now)
  unfolding lease_requests
  lease_requests-Always p batch_size ttl now =
      Always-bind _ _ (Always-read _) (lease_from-Always p batch_size now ttl [])

  active_from-Always :
      (batch_size now : ℕ) (found : List RelayRequest) (ids : List Member)
      → Always P (active_from batch_size now found ids)
  unfolding active_from load_request_envelope
  active_from-Always batch_size now found [] = Always-pure found
  active_from-Always batch_size now found (Member.named id ∷ ids) =
      Always-either (leb batch_size (length found)) (Always-pure found) (
        Always-bind _ _ (Always-read_or _ _)
          (λ one. active_from-Always batch_size now (add_taken (active now one) found) ids))
  active_from-Always batch_size now found (Member.numbered n ∷ ids) =
      active_from-Always batch_size now found ids

  pub list_active_leased_requests-Always :
      (p : String) (batch_size now : ℕ) → Always P (list_active_leased_requests p batch_size now)
  unfolding list_active_leased_requests
  list_active_leased_requests-Always p batch_size now =
      Always-bind _ _ (Always-read _) (active_from-Always batch_size now [])

  set_state-Always :
      (state : RequestSyncState) (now : ℕ) (stored : Bool) → Always P (set_state state now stored)
  unfolding set_state
  set_state-Always state now stored =
      Always-batch write _ (λ d h. (h, changed state.request_id _ d h))

  apply_found-Always :
      (state : RequestSyncState) (now : ℕ) (found : Bool) → Always P (apply_found state now found)
  unfolding apply_found
  apply_found-Always state now false = Always-pure tt
  apply_found-Always state now true =
      Always-either (is_completed state.status)
        (Always-bind _ _ (Always-read _) (set_state-Always state now))
        (set_state-Always state now false)

  pub apply_request_states-Always :
      (states : List RequestSyncState) (now : ℕ) → Always P (apply_request_states states now)
  unfolding apply_request_states apply_one
  apply_request_states-Always [] now = Always-pure tt
  apply_request_states-Always (state ∷ states) now =
      Always-bind _ _ (Always-bind _ _ (Always-read _) (apply_found-Always state now))
        (λ _. apply_request_states-Always states now)
