-- ===== src/Store/Queue/Durable/History.antt =====
-- internal/store/queue.go, runtime_redis.go, results.go and peers.go: the listener's calls on its
-- queues, in any order.
use relayra.Prelude.{
  All, ℕ, String, ◌≡◌, refl, arith, List, [], ◌∷◌, ◌++◌, eq_refl, true, false, ◌||◌, ◌&&◌, ◌==ₛ◌,
  subst, sym,
}
use relayra.Errors.{ok}
use relayra.Models.{
  RelayRequest, RelayResult, RequestSyncState, RequestStatus, queued, is_completed,
}
use relayra.Codec.{Codec, Bytes}
use relayra.Redis.{Redis}
use relayra.Redis.Keys
use relayra.Redis.Keys.{the}
use relayra.Redis.Objects.{has, list_of, named, rpush, hset, del, srem, Member}
use relayra.Redis.Actions.{State, Outcome, Exec, pure, under, attempt, batch-ok, ◌>>◌}
use relayra.Redis.Actions.Calm.{Ends-holds, AlwaysCalm-attempt}
use relayra.Redis.Actions.Always.{
  Always, Always-pure, Always-under, Always-attempt, Always-bind, Always-batch,
}
use relayra.Store.Queue.{
  queue_key, request_key, metadata, enqueue_request, lease_requests, apply_request_states,
  ack_requests, received_states, clear_peer_queue, update_request_status,
}
use relayra.Store.Queue.Cleared.{clear_peer_queue-Always}
use relayra.Store.Peers.{peer_key, delete_peer}
use relayra.Store.Results.{store_result}
use relayra.Store.Queue.Durable.{IsKept, lease_requests-IsKept}
use relayra.Store.Queue.Durable.States.{apply_request_states-IsKept}
use relayra.Store.Queue.Durable.Answered.{store_result-IsKept}

has-append : (m : Member) (xs ys : List Member) → has m (xs ++ ys) ≡ (has m xs || has m ys)
unfolding has
has-append m [] ys = refl
has-append m (x ∷ xs) ys = ground (arith, has-append m xs ys)

has-pushed : (j : String) (xs : List Member) → has (named j) (xs ++ named j ∷ []) ≡ true
unfolding has
has-pushed j [] = ground (arith, eq_refl j)
has-pushed j (x ∷ xs) = ground (arith, has-pushed j xs)

-- the calls, each with the time that the clock shows
pub data Call : Type 0 where
  enqueue : String → RelayRequest → Call
  lease : String → ℕ → ℕ → ℕ → Call
  apply : List RequestSyncState → ℕ → Call
  acknowledge : List String → ℕ → Call
  store : RelayResult → ℕ → Call
  clear unpair : String → Call
  mark : String → RequestStatus → Call

-- What may happen to a request in the queue of a peer: exchanges of a call may fail, those of
-- `LeaseRequests` excepted; the queue of this peer is not cleared, and the peer is not deleted; and
-- the request is not marked as completed by `UpdateRequestStatus`.
abbrev pub Permits : String → String → Call → List Outcome → Type 0
Permits peer_id id (lease _ _ _ _) net = net ≡ []
Permits peer_id id (clear p) net = (p ==ₛ peer_id) ≡ false
Permits peer_id id (unpair p) net = (p ==ₛ peer_id) ≡ false
Permits peer_id id (mark j status) net = ((j ==ₛ id) && is_completed status) ≡ false
Permits peer_id id _ net = Unit

module _ ⦃R : Redis⦄ ⦃C : Codec⦄ where
  open R use {Db, look, write, look-write}
  open C use {json_request}

  abbrev pub run_call : Call → Exec Db (Unit {0})
  run_call (enqueue peer_id req) = attempt (enqueue_request peer_id req)
  run_call (lease peer_id batch_size ttl now) = attempt (lease_requests peer_id batch_size ttl now)
  run_call (apply states now) = attempt (apply_request_states states now)
  run_call (acknowledge ids now) = attempt (ack_requests ids now)
  run_call (store result ttl) = attempt (store_result result ttl)
  run_call (clear p) = attempt (clear_peer_queue p)
  run_call (unpair p) = attempt (delete_peer p)
  run_call (mark j status) = attempt (update_request_status j status)

  -- a call that fails does not stop the next one
  abbrev pub run_calls : List (Call × List Outcome) → Exec Db (Unit {0})
  run_calls [] = pure tt
  run_calls ((c, net) ∷ cs) = do under net (run_call c); run_calls cs

  module _ (peer_id id : String) where
    IsKept-rpush :
        (d : Db) (p j : String)
        → IsKept peer_id id d
        → IsKept peer_id id (write d (rpush (queue_key p) (named j)))
    IsKept-rpush d p j h = simp look-write (
        ground (arith, has-append (named id) (list_of (look d (queue_key peer_id))) (named j ∷ [])))

    IsKept-metadata :
        (d : Db) (p : String) (req : RelayRequest) (json : Bytes)
        → IsKept peer_id id d
        → IsKept peer_id id (write d (hset (request_key req.id) (metadata p req queued json)))
    IsKept-metadata d p req json h = simp look-write (ground arith)

    enqueue_request-IsKept :
        (p : String) (req : RelayRequest) → Always (IsKept peer_id id) (enqueue_request p req)
    unfolding enqueue_request
    enqueue_request-IsKept p req = Always-batch write _ (λ d h.
        let pushed = IsKept-rpush d p req.id h in
        (h, (pushed, IsKept-metadata _ p req (json_request req) pushed)))

    clear_peer_queue-IsKept :
        (p : String) → (p ==ₛ peer_id) ≡ false → Always (IsKept peer_id id) (clear_peer_queue p)
    clear_peer_queue-IsKept p other =
        clear_peer_queue-Always (IsKept peer_id id) p (λ j d h. simp (look-write, other) h)
          (λ j d h. simp look-write (ground arith)) (λ j d h. simp look-write h)

    delete_peer-IsKept :
        (p : String) → (p ==ₛ peer_id) ≡ false → Always (IsKept peer_id id) (delete_peer p)
    unfolding delete_peer
    delete_peer-IsKept p other = Always-batch write _ (λ d h.
        let gone : IsKept peer_id id (write d (del (peer_key p))) = simp look-write h in
        let unlisted : IsKept peer_id id
            (write (write d (del (peer_key p))) (srem (the Keys.peers) (named p))) =
          simp look-write h in
        (h, (gone, (unlisted, simp (look-write, other) h))))

    update_request_status-IsKept :
        (j : String) (status : RequestStatus)
        → ((j ==ₛ id) && is_completed status) ≡ false
        → Always (IsKept peer_id id) (update_request_status j status)
    unfolding update_request_status
    update_request_status-IsKept j status not_done =
        Always-batch write _ (λ d h. (h, simp look-write (ground arith)))

    run_call-IsKept :
        (c : Call) (net : List Outcome)
        → Permits peer_id id c net
        → Always (IsKept peer_id id) (under net (run_call c))
    unfolding ack_requests
    run_call-IsKept (enqueue p req) net may =
        Always-under net _ (Always-attempt _ (enqueue_request-IsKept p req))
    run_call-IsKept (lease p batch_size ttl now) net may = record {
      at = λ s h.
          subst
            (λ n.
              IsKept peer_id id (run_call (lease p batch_size ttl now) (record s { net = n })).1.db)
            (sym may)
            (Ends-holds (
              (AlwaysCalm-attempt _ (lease_requests-IsKept peer_id id p batch_size ttl now)).at s.db
                h));
    }
    run_call-IsKept (apply states now) net may =
        Always-under net _ (Always-attempt _ (apply_request_states-IsKept peer_id id states now))
    run_call-IsKept (acknowledge ids now) net may =
        Always-under net _
          (Always-attempt _ (apply_request_states-IsKept peer_id id (received_states ids now) now))
    run_call-IsKept (store result ttl) net may =
        Always-under net _ (Always-attempt _ (store_result-IsKept peer_id id result ttl))
    run_call-IsKept (clear p) net may =
        Always-under net _ (Always-attempt _ (clear_peer_queue-IsKept p may))
    run_call-IsKept (unpair p) net may =
        Always-under net _ (Always-attempt _ (delete_peer-IsKept p may))
    run_call-IsKept (mark j status) net may =
        Always-under net _ (Always-attempt _ (update_request_status-IsKept j status may))

    pub run_calls-IsKept :
        (cs : List (Call × List Outcome))
        → All (λ c. Permits peer_id id c.0 c.1) cs
        → Always (IsKept peer_id id) (run_calls cs)
    run_calls-IsKept [] may = Always-pure tt
    run_calls-IsKept ((c, net) ∷ cs) may =
        Always-bind _ _ (run_call-IsKept c net may.0) (λ _. run_calls-IsKept cs may.1)

  pub enqueued-IsKept :
      (peer_id : String) (req : RelayRequest) (d : Db)
      → IsKept peer_id req.id (
          write
            (write d (rpush (queue_key peer_id) (named req.id)))
            (hset (request_key req.id) (metadata peer_id req queued (json_request req))))
  enqueued-IsKept peer_id req d =
      simp (look-write, eq_refl)
        (ground (arith, has-pushed req.id (list_of (look d (queue_key peer_id)))))

  -- Once `EnqueueRequest` has returned without an error, the request is in the queue of its peer
  -- with a status other than `completed`, or its result is stored, after any sequence of these calls
  -- of the listener, for this and for other requests, at any times: enqueuing, leasing, applying
  -- states, acknowledging and storing results, clearing the queues of other peers, deleting other
  -- peers, and updating statuses but that of this request to `completed`. Any exchanges with Redis
  -- may fail in the calls other than the leasing of requests.
  pub queued-IsKept :
      (peer_id : String) (req : RelayRequest) (cs : List (Call × List Outcome)) (s : State Db)
      → All (λ c. Permits peer_id req.id c.0 c.1) cs
      → (enqueue_request peer_id req s).0 ≡ ok tt
      → IsKept peer_id req.id (run_calls cs (enqueue_request peer_id req s).1).1.db
  unfolding enqueue_request
  queued-IsKept peer_id req cs s may h =
      (run_calls-IsKept peer_id req.id cs may).at (enqueue_request peer_id req s).1 (
        subst (IsKept peer_id req.id) (sym (batch-ok write _ s tt h))
          (enqueued-IsKept peer_id req s.db))
