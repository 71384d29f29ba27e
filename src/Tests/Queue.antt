-- ===== src/Tests/Queue.antt =====
-- The theorems of Store/Queue at concrete inputs.
use relayra.Prelude.{◌≡◌, refl, List, [], ◌∷◌, false, arith, take}
use relayra.Errors.{ok}
use relayra.Models.{RequestSyncState, completed, queued}
use relayra.Redis.Actions.{State, Outcome, answered, cut, calm, run_all, ◌>>=◌}
use relayra.Store.Queue.{enqueue_request, lease_requests, queue_key, request_key, metadata}
use relayra.Store.Queue.Fifo.{all_available, lease_requests-take}
use relayra.Store.Queue.Loss.{IsGone, one_failure, lease_requests-IsGone}
use relayra.Redis.Objects.{rpush, hset, named, has}
use relayra.Store.Queue.Durable.{IsKept}
use relayra.Store.Queue.Durable.History.{
  Call, lease, apply, acknowledge, store, run_calls, queued-IsKept,
}
use relayra.Tests.Chunks.{a_request, a_result}
use relayra.Tests.Memory.{Memory, empty, memory}
use relayra.Tests.Encodings.{codec}

abbrev done : RequestSyncState
done = record {
  request_id = "r1";
  status = completed;
  lease_until = 0;
  updated_at = 9;
  duplicate_ok = false;
}

abbrev start : State Memory
start = record { db = empty; net = [] }

enqueued : (enqueue_request "p1" a_request start).0 ≡ ok tt
unfolding enqueue_request ◌>>=◌
enqueued = refl

-- some of the exchanges fail
abbrev calls : List (Call × List Outcome)
calls =
    (lease "p1" 5 30 100, [])
    ∷ (acknowledge ("r1" ∷ []) 101, answered ∷ cut 1 ∷ [])
    ∷ (apply (done ∷ []) 102, cut 0 ∷ [])
    ∷ (store a_result 60, cut 0 ∷ cut 2 ∷ [])
    ∷ (lease "p1" 5 30 200, [])
    ∷ []

queued-IsKept_example :
    IsKept "p1" "r1" (run_calls calls (enqueue_request "p1" a_request start).1).1.db
queued-IsKept_example =
    queued-IsKept "p1" a_request calls start (refl, (tt, (tt, (tt, (refl, tt))))) enqueued

-- a queue with a live request
abbrev one_queued : Memory
one_queued =
    run_all memory.write
      (rpush (queue_key "p1") (named "r1")
        ∷ hset (request_key "r1") (metadata "p1" a_request queued [])
        ∷ [])
      empty

lease_requests-IsGone_example :
    IsGone "p1" "r1"
      (lease_requests "p1" 5 30 100 (record { db = one_queued; net = one_failure })).1.db
lease_requests-IsGone_example =
    lease_requests-IsGone "p1" "r1" 5 30 100 [] one_queued (omega arith) refl

one_entry : has (named "r1") [] ≡ false
unfolding has
one_entry = refl

lease_requests-take_example :
    (e : Memory) × (lease_requests "p1" 5 30 100 (calm one_queued)
      ≡ (ok (take 5 (all_available "p1" 100 one_queued (named "r1" ∷ []))), calm e))
lease_requests-take_example = lease_requests-take "p1" 100 5 30 one_queued (one_entry, tt)
