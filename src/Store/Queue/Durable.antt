-- ===== src/Store/Queue/Durable.antt =====
-- internal/store/runtime_redis.go: what it is for a request to be kept, and `LeaseRequests`.
mod States
mod Answered
pub mod History
use relayra.Prelude.{
  ℕ, ◌+◌, String, ◌≡◌, refl, Bool, true, false, ◌||◌, ◌&&◌, not, Option, none, some, List, [], ◌∷◌,
  ◌++◌, arith, eq_iff, ◌==ₛ◌, if◌then◌else◌, leb, ltb, length, subst, Bool-cases, inl, inr,
}
use relayra.Models.{
  RelayRequest, RelayResult, RequestSyncState, RequestStatus, is_completed, leased, completed,
  request_transfer_id,
}
use relayra.Codec.{Codec}
use relayra.Redis.{Redis}
use relayra.Redis.Keys
use relayra.Redis.Keys.{Key, key_eq, key}
use relayra.Redis.Objects.{
  Object, Member, named, has, without, list_of, exists, fields, lrem, hset, del, set_value, expire,
  number, bytes, request_status,
}
use relayra.Redis.Actions.{State}
use relayra.Redis.Actions.Always.{
  Always, Through, Through-mono, Always-pure, Always-read, Always-attempt, Always-try, Always-if,
  Always-bind, Always-batch, Always-read-bind,
}
use relayra.Redis.Actions.Calm.{
  Ends, Ends-mono, AlwaysCalm, AlwaysCalm-pure, AlwaysCalm-batch, AlwaysCalm-attempt, AlwaysCalm-if,
  AlwaysCalm-bind, AlwaysCalm-read-bind, AlwaysCalm-read_or-bind,
}
use relayra.Store.Reads.{number_of, status_of, bytes_of}
use relayra.Store.Queue.{
  queue_key, request_key, lease_requests, apply_request_states, take_lease, drop_entry, renew_lease,
  is_over, lease_found, lease_one, lease_from, add_taken, set_state, apply_found, apply_one,
  applied_status, lease_or_now, result_exists,
}
use relayra.Store.Results.{result_key, store_result, store_result_commands, known_peer}

has-without :
    (a b : String) (ms : List Member)
    → (b ==ₛ a) ≡ false
    → has (named a) (without (named b) ms) ≡ has (named a) ms
unfolding has without
has-without a b [] h = refl
has-without a b (named c ∷ ms) h =
    ground (arith, has-without a b ms h, eq_iff a c, eq_iff b c, eq_iff b a)
has-without a b (Member.numbered n ∷ ms) h = ground (arith, has-without a b ms h)

module _ ⦃R : Redis⦄ (peer_id id : String) where
  open R use {Db, look, write, look-write}

  -- the request is in the queue, and its hash is there with a status other than `completed`
  abbrev pub is_live : Db → Bool
  is_live d =
      has (named id) (list_of (look d (queue_key peer_id)))
      && (exists (look d (request_key id))
          && not (is_completed (status_of (fields (look d (request_key id)) Keys.status))))

  abbrev pub is_answered : Db → Bool
  is_answered d = exists (look d (result_key id))

  abbrev pub IsKept : Db → Type 0
  IsKept d = (is_answered d || is_live d) ≡ true

  abbrev pub IsAnswered : Db → Type 0
  IsAnswered d = is_answered d ≡ true

  IsKept-of_IsAnswered : (d : Db) → IsAnswered d → IsKept d
  IsKept-of_IsAnswered d h = ground arith

  IsKept-lrem :
      (d : Db) (p j : String)
      → (j ==ₛ id) ≡ false
      → IsKept d
      → IsKept (write d (lrem (queue_key p) (named j)))
  IsKept-lrem d p j ne h =
      simp look-write (ground (arith, has-without id j (list_of (look d (queue_key peer_id)))))

  IsKept-lease :
      (d : Db) (j : String) (until : ℕ) (json : List ℕ)
      → IsKept d
      → IsKept (
          write d (
            hset (request_key j) (
              (Keys.status, request_status leased)
              ∷ (Keys.lease_until, number until)
              ∷ (Keys.payload, bytes json)
              ∷ [])))
  IsKept-lease d j until json h = simp look-write (ground arith)

  module _ ⦃C : Codec⦄ where
    open C use {json_request, parse_request, json_result}

    take_lease-IsKept :
        (j : String) (now ttl : ℕ) (o : Option RelayRequest)
        → AlwaysCalm IsKept (take_lease j now ttl o)
    unfolding take_lease
    take_lease-IsKept j now ttl none = AlwaysCalm-pure none
    take_lease-IsKept j now ttl (some req) =
        AlwaysCalm-bind _ _
          (AlwaysCalm-batch write _
            (λ d h. IsKept-lease d j (now + ttl) (json_request (record req { status = leased })) h))
          (λ _. AlwaysCalm-pure _)

    drop_entry-IsKept : (p j : String) → (j ==ₛ id) ≡ false → AlwaysCalm IsKept (drop_entry p j)
    unfolding drop_entry
    drop_entry-IsKept p j ne =
        AlwaysCalm-bind _ _
          (AlwaysCalm-attempt _ (AlwaysCalm-batch write _ (λ d h. IsKept-lrem d p j ne h)))
          (λ _. AlwaysCalm-pure _)

    drop_entry-IsAnswered : (p j : String) → AlwaysCalm IsAnswered (drop_entry p j)
    unfolding drop_entry
    drop_entry-IsAnswered p j =
        AlwaysCalm-bind _ _
          (AlwaysCalm-attempt _ (AlwaysCalm-batch write _ (λ d h. simp look-write h)))
          (λ _. AlwaysCalm-pure _)

    renew_lease-IsKept :
        (j : String) (now ttl : ℕ) (o : Object) → AlwaysCalm IsKept (renew_lease j now ttl o)
    unfolding renew_lease
    renew_lease-IsKept j now ttl o = AlwaysCalm-read_or-bind _ _ _ (λ d h.
        let lease = number_of (fields (look d (request_key j)) Keys.lease_until) in
        (AlwaysCalm-if (ltb now lease) _ _ (λ _. AlwaysCalm-pure none)
            (λ _.
              take_lease-IsKept j now ttl (parse_request (bytes_of (fields o Keys.payload))))).at
          d h)

    -- a request that is over is not live: if it is kept, it has been answered
    over-IsAnswered :
        (d : Db) (j : String)
        → (j ==ₛ id) ≡ true
        → is_over (look d (request_key j)) ≡ true
        → IsKept d
        → IsAnswered d
    over-IsAnswered d j same over h =
        let e : j ≡ id = (eq_iff j id).0 same in
        let over_id : is_over (look d (request_key id)) ≡ true =
          subst (λ k. is_over (look d (request_key k)) ≡ true) e over in
        ground (arith, over_id)

    lease_found-IsKept :
        (p j : String) (now ttl : ℕ) (d : Db)
        → IsKept d
        → Ends IsKept (lease_found p j now ttl (look d (request_key j))) d
    unfolding lease_found
    lease_found-IsKept p j now ttl d h = elim (Bool-cases (is_over (look d (request_key j)))) [
      | inl over ↦ elim (Bool-cases (j ==ₛ id)) [
        | inl same ↦ rw over (
            Ends-mono IsAnswered IsKept-of_IsAnswered
              ((drop_entry-IsAnswered p j).at d (over-IsAnswered d j same over h)))
        | inr ne ↦ rw over ((drop_entry-IsKept p j ne).at d h)
      ]
      | inr on ↦ rw on ((renew_lease-IsKept j now ttl (look d (request_key j))).at d h)
    ]

    lease_one-IsKept : (p j : String) (now ttl : ℕ) → AlwaysCalm IsKept (lease_one p j now ttl)
    unfolding lease_one
    lease_one-IsKept p j now ttl = AlwaysCalm-read_or-bind _ _ _ (lease_found-IsKept p j now ttl)

    lease_from-IsKept :
        (p : String) (batch_size now ttl : ℕ) (reqs : List RelayRequest) (ids : List Member)
        → AlwaysCalm IsKept (lease_from p batch_size now ttl reqs ids)
    unfolding lease_from
    lease_from-IsKept p batch_size now ttl reqs [] = AlwaysCalm-pure reqs
    lease_from-IsKept p batch_size now ttl reqs (named j ∷ ids) =
        AlwaysCalm-if (leb batch_size (length reqs)) _ _ (λ _. AlwaysCalm-pure reqs)
          (λ _.
            AlwaysCalm-bind _ _ (lease_one-IsKept p j now ttl)
              (λ taken. lease_from-IsKept p batch_size now ttl (add_taken taken reqs) ids))
    lease_from-IsKept p batch_size now ttl reqs (Member.numbered n ∷ ids) =
        lease_from-IsKept p batch_size now ttl reqs ids

    -- Where its exchanges succeed, leasing requests, to this peer or another, keeps every request
    -- that is queued or answered so.
    pub lease_requests-IsKept :
        (p : String) (batch_size ttl now : ℕ)
        → AlwaysCalm IsKept (lease_requests p batch_size ttl now)
    unfolding lease_requests
    lease_requests-IsKept p batch_size ttl now =
        AlwaysCalm-read-bind _ _ (λ d h.
          (lease_from-IsKept p batch_size now ttl [] (list_of (look d (queue_key p)))).at d h)
