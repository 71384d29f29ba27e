-- ===== src/Poller/Claims/Kept.antt =====
-- internal/poller/poller.go: a request whose state is stored with a lease, and what keeps it so.
use relayra.Prelude.{
  ℕ, ◌≤◌, String, ◌≡◌, arith, Bool, true, false, ◌&&◌, some, List, [], ◌∷◌, leb, ◌==ₛ◌, All,
}
use relayra.Models.{RequestSyncState}
use relayra.Redis.{Redis}
use relayra.Redis.Keys
use relayra.Redis.Keys.{Space, key_eq, the}
use relayra.Redis.Objects.{fields, exists, named, sadd, hset, number, request_status}
use relayra.Redis.Frame.{Spares, look-elsewhere}
use relayra.Redis.Actions.Always.{Always, Through, Always-pure, Always-batch}
use relayra.Store.Reads.{number_of}
use relayra.Store.Sender.{sender_key, store_sender_request_state, ack_results, ack_commands}

module _ ⦃R : Redis⦄ (id : String) (until : ℕ) where
  open R use {Db, look, write, look-write}

  -- the state of the request is stored, with a lease that does not end before a time
  abbrev pub IsClaimed : Db → Type 0
  IsClaimed d =
      (exists (look d (sender_key id))
        && leb until (number_of (fields (look d (sender_key id)) Keys.lease_until)))
      ≡ true

  pub IsClaimed-spared :
      (sort : Space → Bool) → sort Keys.sender_request ≡ false → Spares sort IsClaimed
  IsClaimed-spared sort not_state c of d h =
      rw (look-elsewhere sort c (sender_key id) of not_state d) h

  -- to store a state with a lease that is no shorter keeps the claim
  store_state-Through :
      (state : RequestSyncState) (updated_at : ℕ) (d : Db)
      → until ≤ state.lease_until
      → IsClaimed d
      → Through IsClaimed write
          (sadd (the Keys.sender_requests) (named state.request_id)
            ∷ hset (sender_key state.request_id) (
                (Keys.status, request_status state.status)
                ∷ (Keys.lease_until, number state.lease_until)
                ∷ (Keys.updated_at, number updated_at)
                ∷ [])
            ∷ [])
          d
  store_state-Through state updated_at d long h =
      let added : IsClaimed (write d (sadd (the Keys.sender_requests) (named state.request_id))) =
        simp look-write h in
      (h, (added, simp look-write (ground arith)))

  pub store_sender_request_state-IsClaimed :
      (state : RequestSyncState) (now : ℕ)
      → until ≤ state.lease_until
      → Always IsClaimed (store_sender_request_state (some state) now)
  unfolding store_sender_request_state
  store_sender_request_state-IsClaimed state now long =
      Always-batch write _ (λ d h. store_state-Through state _ d long h)

  ack_commands-IsClaimed :
      (ids : List String) (d : Db)
      → All (λ j. (j ==ₛ id) ≡ false) ids
      → IsClaimed d
      → Through IsClaimed write (ack_commands ids) d
  ack_commands-IsClaimed [] d others h = h
  ack_commands-IsClaimed (j ∷ ids) d (other, others) h = (
    h,
    (
      simp look-write h,
      (
        simp look-write h,
        (
          simp look-write h,
          (
            simp (look-write, other) h,
            (
              simp (look-write, other) h,
              (
                simp (look-write, other) h,
                ack_commands-IsClaimed ids _ others (simp (look-write, other) h),
              ),
            ),
          ),
        ),
      ),
    ),
  )

  pub ack_results-IsClaimed :
      (ids : List String) → All (λ j. (j ==ₛ id) ≡ false) ids → Always IsClaimed (ack_results ids)
  unfolding ack_results
  ack_results-IsClaimed [] others = Always-pure tt
  ack_results-IsClaimed (j ∷ ids) others =
      Always-batch write _ (λ d h. ack_commands-IsClaimed (j ∷ ids) d others h)
