-- ===== src/Store/Queue/Loss.antt =====
-- internal/store/runtime_redis.go:43-48: what `LeaseRequests` does where the hash of a request
-- cannot be read.
use relayra.Prelude.{
  ℕ, ◌<◌, String, ◌≡◌, refl, arith, List, [], ◌∷◌, eq_refl, false, leb, ltb, length, Option, none,
  some,
}
use relayra.Models.{RelayRequest}
use relayra.Codec.{Codec}
use relayra.Redis.{Redis}
use relayra.Redis.Keys
use relayra.Redis.Objects.{Object, Member, named, has, without, list_of, fields, lrem}
use relayra.Redis.Actions.{Outcome, answered, cut, ◌>>=◌}
use relayra.Redis.Actions.Calm.{
  Ends-holds, AlwaysCalm, AlwaysCalm-pure, AlwaysCalm-batch, AlwaysCalm-attempt, AlwaysCalm-if,
  AlwaysCalm-bind, AlwaysCalm-read_or-bind,
}
use relayra.Store.Reads.{number_of, bytes_of}
use relayra.Store.Queue.{
  queue_key, request_key, lease_requests, take_lease, drop_entry, renew_lease, is_over, lease_found,
  lease_one, lease_from, add_taken,
}

-- the queue has been read, and the answer to the next command is lost
abbrev pub one_failure : List Outcome
one_failure = answered ∷ cut 0 ∷ []

without-has : (k m : Member) (ms : List Member) → has m ms ≡ false → has m (without k ms) ≡ false
unfolding has without
without-has k m [] h = refl
without-has k m (x ∷ ms) h = ground (arith, without-has k m ms)

has-without_same : (id : String) (ms : List Member) → has (named id) (without (named id) ms) ≡ false
unfolding has without
has-without_same id [] = refl
has-without_same id (named j ∷ ms) = ground (arith, has-without_same id ms)
has-without_same id (Member.numbered n ∷ ms) = ground (arith, has-without_same id ms)

module _ ⦃R : Redis⦄ ⦃C : Codec⦄ (peer_id id : String) where
  open R use {Db, look, write, look-write}
  open C use {parse_request}

  -- the request is not in the queue
  abbrev pub IsGone : Db → Type 0
  IsGone d = has (named id) (list_of (look d (queue_key peer_id))) ≡ false

  take_lease-IsGone :
      (j : String) (now ttl : ℕ) (o : Option RelayRequest)
      → AlwaysCalm IsGone (take_lease j now ttl o)
  unfolding take_lease
  take_lease-IsGone j now ttl none = AlwaysCalm-pure none
  take_lease-IsGone j now ttl (some req) =
      AlwaysCalm-bind _ _ (AlwaysCalm-batch write _ (λ d h. simp look-write h))
        (λ _. AlwaysCalm-pure _)

  drop_entry-IsGone : (p j : String) → AlwaysCalm IsGone (drop_entry p j)
  unfolding drop_entry
  drop_entry-IsGone p j =
      AlwaysCalm-bind _ _
        (AlwaysCalm-attempt _ (
          AlwaysCalm-batch write _ (λ d h. simp look-write (
            ground
              (arith, without-has (named j) (named id) (list_of (look d (queue_key peer_id))))))))
        (λ _. AlwaysCalm-pure _)

  lease_found-IsGone :
      (p j : String) (now ttl : ℕ) (o : Object) → AlwaysCalm IsGone (lease_found p j now ttl o)
  unfolding lease_found renew_lease
  lease_found-IsGone p j now ttl o =
      AlwaysCalm-if (is_over o) _ _ (λ _. drop_entry-IsGone p j)
        (λ _. AlwaysCalm-read_or-bind _ _ _ (λ d h.
          let lease = number_of (fields (look d (request_key j)) Keys.lease_until) in
          (AlwaysCalm-if (ltb now lease) _ _ (λ _. AlwaysCalm-pure none)
              (λ _.
                take_lease-IsGone j now ttl (parse_request (bytes_of (fields o Keys.payload))))).at
            d h))

  lease_from-IsGone :
      (p : String) (batch_size now ttl : ℕ) (reqs : List RelayRequest) (ids : List Member)
      → AlwaysCalm IsGone (lease_from p batch_size now ttl reqs ids)
  unfolding lease_from lease_one
  lease_from-IsGone p batch_size now ttl reqs [] = AlwaysCalm-pure reqs
  lease_from-IsGone p batch_size now ttl reqs (named j ∷ ids) =
      AlwaysCalm-if (leb batch_size (length reqs)) _ _ (λ _. AlwaysCalm-pure reqs)
        (λ _.
          AlwaysCalm-bind _ _
            (AlwaysCalm-read_or-bind _ _ _
              (λ d h. (lease_found-IsGone p j now ttl (look d (request_key j))).at d h))
            (λ taken. lease_from-IsGone p batch_size now ttl (add_taken taken reqs) ids))
  lease_from-IsGone p batch_size now ttl reqs (Member.numbered n ∷ ids) =
      lease_from-IsGone p batch_size now ttl reqs ids

  -- Whatever the hash of the request at the head of the queue holds, if at least one request is
  -- wanted and the one command that fails is the one that reads that hash, the request is no longer
  -- in the queue when `LeaseRequests` returns: the failed read passes for a missing request.
  pub lease_requests-IsGone :
      (batch_size ttl now : ℕ) (ids : List Member) (d : Db)
      → 0 < batch_size
      → list_of (look d (queue_key peer_id)) ≡ named id ∷ ids
      → IsGone
          (lease_requests peer_id batch_size ttl now (record { db = d; net = one_failure })).1.db
  unfolding lease_requests lease_from lease_one lease_found drop_entry ◌>>=◌
  lease_requests-IsGone batch_size ttl now ids d some_wanted h =
      let e : leb batch_size 0 ≡ false = ground arith in
      let removed : IsGone (write d (lrem (queue_key peer_id) (named id))) =
        simp (look-write, eq_refl) (has-without_same id (list_of (look d (queue_key peer_id)))) in
      rw (h, e) (Ends-holds ((lease_from-IsGone peer_id batch_size now ttl [] ids).at _ removed))
