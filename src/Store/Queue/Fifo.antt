-- ===== src/Store/Queue/Fifo.antt =====
-- internal/store/runtime_redis.go: which requests `LeaseRequests` hands out.
use relayra.Prelude.{
  ℕ, suc, ◌+◌, ◌-◌, String, ◌≡◌, refl, ap, ◌∙◌, arith, List, [], ◌∷◌, ◌++◌, false, ◌==ₛ◌, ◌||◌,
  if◌then◌else◌, leb, ltb, length, take, length-append, append-nil, append_assoc, take-nil, Option,
  none, some, subst, Bool-cases, inl, inr,
}
use relayra.Errors.{ok}
use relayra.Models.{RelayRequest, leased}
use relayra.Codec.{Codec}
use relayra.Redis.{Redis}
use relayra.Redis.Keys
use relayra.Redis.Objects.{Object, Member, named, has, list_of, fields, lrem}
use relayra.Redis.Actions.{calm, run_all, ◌>>=◌}
use relayra.Store.Reads.{number_of, bytes_of}
use relayra.Store.Queue.{
  queue_key, request_key, lease_requests, take_lease, drop_entry, renew_lease, is_over, lease_found,
  lease_one, lease_from, lease_commands, add_taken,
}

-- no entry stands twice in the queue
abbrev pub Distinct : List Member → Type 0
Distinct [] = Unit
Distinct (m ∷ ms) = (has m ms ≡ false) × Distinct ms

abbrev pub as_leased : Option RelayRequest → Option RelayRequest
as_leased none = none
as_leased (some req) = some (record req { status = leased })

module _ ⦃R : Redis⦄ ⦃C : Codec⦄ (peer_id : String) (now : ℕ) where
  open R use {Db, look, write, look-write}
  open C use {parse_request}

  -- The request of a hash that is there, is not completed and is not under a lease, as it is handed
  -- out.
  abbrev pub available : Object → Option RelayRequest
  available o =
      if is_over o || ltb now (number_of (fields o Keys.lease_until))
      then none
      else as_leased (parse_request (bytes_of (fields o Keys.payload)))

  -- the requests that can be handed out, in the order of the queue
  abbrev pub all_available : Db → List Member → List RelayRequest
  all_available d [] = []
  all_available d (named id ∷ ids) =
      add_taken (available (look d (request_key id))) [] ++ all_available d ids
  all_available d (Member.numbered n ∷ ids) = all_available d ids

  -- what one round of the loop comes to
  record Round (id : String) (ttl : ℕ) (d : Db) : Type 0 where
    after : Db
    ran :
        lease_one peer_id id now ttl (calm d)
        ≡ (ok (available (look d (request_key id))), calm after)
    others : (j : String) → (id ==ₛ j) ≡ false → look after (request_key j) ≡ look d (request_key j)

  take_lease-after :
      (id : String) (ttl : ℕ) (d : Db) (o : Option RelayRequest)
      → (e : Db) × (take_lease id now ttl o (calm d) ≡ (ok (as_leased o), calm e))
        × ((j : String) → (id ==ₛ j) ≡ false → look e (request_key j) ≡ look d (request_key j))
  unfolding take_lease ◌>>=◌
  take_lease-after id ttl d none = (d, refl, λ j ne. refl)
  take_lease-after id ttl d (some req) = (
    run_all write (lease_commands id (record req { status = leased }) (now + ttl)) d,
    refl,
    λ j ne. simp (look-write, ne),
  )

  lease_one-Round : (id : String) (ttl : ℕ) (d : Db) → Round id ttl d
  unfolding lease_one lease_found drop_entry renew_lease ◌>>=◌
  lease_one-Round id ttl d =
      let o = look d (request_key id) in
      let lease = number_of (fields o Keys.lease_until) in
      elim (Bool-cases (is_over o)) [
        | inl over ↦ record {
          after = write d (lrem (queue_key peer_id) (named id));
          ran = rw over refl;
          others = λ j ne. simp look-write;
        }
        | inr on ↦ elim (Bool-cases (ltb now lease)) [
          | inl held ↦ record { after = d; ran = rw (on, held) refl; others = λ j ne. refl }
          | inr free ↦
              let (e, ran, others) =
                take_lease-after id ttl d (parse_request (bytes_of (fields o Keys.payload))) in
              record { after = e; ran = rw (on, free) ran; others = others }
        ]
      ]

  all_available-congr :
      (d e : Db) (id : String) (ids : List Member)
      → ((j : String) → (id ==ₛ j) ≡ false → look e (request_key j) ≡ look d (request_key j))
      → has (named id) ids ≡ false
      → all_available e ids ≡ all_available d ids
  unfolding has
  all_available-congr d e id [] same out = refl
  all_available-congr d e id (named j ∷ ids) same out =
      let ne : (id ==ₛ j) ≡ false = ground (arith, out) in
      rw (same j ne, all_available-congr d e id ids same (ground (arith, out))) refl
  all_available-congr d e id (Member.numbered n ∷ ids) same out =
      all_available-congr d e id ids same (ground (arith, out))

  -- the batch is full, or there is room
  take-none : (b : ℕ) (xs : List RelayRequest) → b ≡ 0 → take b xs ≡ []
  take-none b xs h = rw h refl

  take-more :
      (b : ℕ) (reqs rest : List RelayRequest) (o : Option RelayRequest)
      → leb b (length reqs) ≡ false
      → add_taken o reqs ++ take (b - length (add_taken o reqs)) rest
        ≡ reqs ++ take (b - length reqs) (add_taken o [] ++ rest)
  take-more b reqs rest none room = refl
  take-more b reqs rest (some req) room =
      let e : b - length reqs ≡ suc (b - length (reqs ++ req ∷ [])) =
        grind (arith, length-append reqs (req ∷ []), room) in
      rw (e, append_assoc) refl

  lease_from-take :
      (b ttl : ℕ) (ids : List Member) (reqs : List RelayRequest) (d : Db)
      → Distinct ids
      → (e : Db) × (lease_from peer_id b now ttl reqs ids (calm d)
          ≡ (ok (reqs ++ take (b - length reqs) (all_available d ids)), calm e))
  unfolding lease_from ◌>>=◌
  lease_from-take b ttl [] reqs d distinct = (d, rw (take-nil (b - length reqs), append-nil) refl)
  lease_from-take b ttl (named id ∷ ids) reqs d (out, distinct) =
      elim (Bool-cases (leb b (length reqs))) [
        | inl full ↦
            let none_left : b - length reqs ≡ 0 = grind (arith, full) in
            (
              d,
              rw
                  (
                    full,
                    take-none (b - length reqs) (all_available d (named id ∷ ids)) none_left,
                    append-nil,
                  )
                  refl,
            )
        | inr room ↦
            let r = lease_one-Round id ttl d in
            let o = available (look d (request_key id)) in
            let (e, ran) = lease_from-take b ttl ids (add_taken o reqs) r.after distinct in
            let same = all_available-congr d r.after id ids r.others out in
            (
              e,
              rw (room, r.ran)
                  (ran
                    ∙ (ap
                          (λ rest. (
                            ok (add_taken o reqs ++ take (b - length (add_taken o reqs)) rest),
                            calm e,
                          ))
                          same
                        ∙ ap (λ reqs'. (ok reqs', calm e))
                            (take-more b reqs (all_available d ids) o room))),
            )
      ]
  lease_from-take b ttl (Member.numbered n ∷ ids) reqs d (out, distinct) =
      lease_from-take b ttl ids reqs d distinct

  -- Where every exchange succeeds and no request stands twice in the queue of a peer,
  -- `LeaseRequests` returns the first requests of the queue that are there, are not completed, are
  -- not under a lease and can be read, in the order of the queue, as many as there are and the
  -- batch size allows, each with the status `leased`.
  pub lease_requests-take :
      (batch_size ttl : ℕ) (d : Db)
      → Distinct (list_of (look d (queue_key peer_id)))
      → (e : Db) × (lease_requests peer_id batch_size ttl now (calm d)
          ≡ (ok (take batch_size (all_available d (list_of (look d (queue_key peer_id))))), calm e))
  unfolding lease_requests ◌>>=◌
  lease_requests-take batch_size ttl d distinct =
      let ids = list_of (look d (queue_key peer_id)) in
      let all : batch_size - 0 ≡ batch_size = omega arith in
      subst
        (λ k.
          (e : Db) × (lease_from peer_id batch_size now ttl [] ids (calm d)
            ≡ (ok (take k (all_available d ids)), calm e)))
        all (lease_from-take batch_size ttl ids [] d distinct)
