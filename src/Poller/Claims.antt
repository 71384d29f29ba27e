-- ===== src/Poller/Claims.antt =====
-- internal/poller/poller.go and dispatcher.go: a request that arrives again is not executed again
-- while its lease runs.
mod Kept
use relayra.Prelude.{
  ℕ, ◌+◌, ◌≤◌, ◌<◌, String, ◌≡◌, refl, arith, Bool, true, false, ◌&&◌, Option, none, some, List, [],
  ◌∷◌, leb, ◌==ₛ◌, ◌≢◌, eq_iff, All, subst, sym, ap, ◌∙◌,
}
use relayra.Errors.{ok}
use relayra.Models.{
  RelayRequest, RelayResult, RequestSyncState, RequestStatus, completed, executing,
}
use relayra.Codec.{Codec}
use relayra.Settings.{Settings, sender_request_lease_duration}
use relayra.Redis.{Redis}
use relayra.Redis.Keys
use relayra.Redis.Keys.{Space, key_eq, the}
use relayra.Redis.Objects.{fields, exists, named, sadd, hset, number, request_status}
use relayra.Redis.Frame.{Spares, look-elsewhere}
use relayra.Redis.Actions.{
  State, Outcome, answered, next_outcome, later, Exec, pure, under, attempt, ◌>>=◌, ◌>>◌,
}
use relayra.Redis.Actions.Always.{
  Always, Through, Always-true, Always-pure, Always-attempt, Always-try, Always-bind, Always-batch,
  Always-under,
}
use relayra.Redis.Actions.Triple.{
  Post, Triple, Triple-ok, Triple-pure, Triple-always, Triple-bind, Triple-batch,
}
use relayra.Store.Reads.{number_of}
use relayra.Store.Outbox.Frame.{is_outbox_kind}
use relayra.Store.Sender.{
  sender_key, sender_state_if, store_sender_request_state, get_sender_request_state,
  result_is_pending, ack_results, ack_commands,
}
use relayra.Store.Sender.Frame.{get_sender_request_state-Always, result_is_pending-Always}
use relayra.Store.Sender.Pending.Frame.{is_result_kind, push_result-Always}
use relayra.Poller.Claims.Kept.{
  IsClaimed, IsClaimed-spared, store_sender_request_state-IsClaimed, ack_results-IsClaimed,
}
use relayra.Poller.Incoming.{
  record_arrival, handle_incoming_request, report, after_push, execute, lease_end, should_dispatch,
}
use relayra.Poller.Frame.{queue_sender_request_state_ws-Always, queue_sender_result_ws-Always}

-- the calls of the sender, each with the times that the clock shows
pub data Call : Type 0 where
  arrive : RelayRequest → ℕ → ℕ → Call
  run : String → RelayResult → ℕ → ℕ → ℕ → ℕ → Call
  acknowledge : List String → Call

-- no call is earlier than a time, and the results that are acknowledged are those of other requests
abbrev pub Permits : String → ℕ → Call → Type 0
Permits id start (arrive req now now_milli) = start ≤ now
Permits id start (run j result now now_milli done_at done_milli) = (start ≤ now) × (start ≤ done_at)
Permits id start (acknowledge ids) = All (λ j. (j ==ₛ id) ≡ false) ids

module _ ⦃R : Redis⦄ ⦃C : Codec⦄ (cfg : Settings) (listener_id : String) where
  open R use {Db, look, write, look-write}

  abbrev pub run_call : Call → Exec Db (Unit {0})
  run_call (arrive req now now_milli) =
      attempt (handle_incoming_request cfg listener_id req now now_milli)
  run_call (run id result now now_milli done_at done_milli) =
      attempt (execute cfg listener_id id result now now_milli done_at done_milli)
  run_call (acknowledge ids) = attempt (ack_results ids)

  abbrev pub run_calls : List (Call × List Outcome) → Exec Db (Unit {0})
  run_calls [] = pure tt
  run_calls ((c, net) ∷ cs) = do under net (run_call c); run_calls cs

  module _ (id : String) (start : ℕ) where
    abbrev Claimed : Db → Type 0
    Claimed = IsClaimed id (lease_end cfg listener_id start)

    outbox : Spares is_outbox_kind Claimed
    outbox = IsClaimed-spared id (lease_end cfg listener_id start) is_outbox_kind refl

    results : Spares is_result_kind Claimed
    results = IsClaimed-spared id (lease_end cfg listener_id start) is_result_kind refl

    record_arrival-Claimed :
        (j : String) (state : Option RequestSyncState) (pending_result : Bool) (now now_milli : ℕ)
        → start ≤ now
        → Always Claimed (record_arrival cfg listener_id j state pending_result now now_milli)
    unfolding record_arrival
    record_arrival-Claimed j state pending_result now now_milli from =
        Always-bind _ _
          (store_sender_request_state-IsClaimed id (lease_end cfg listener_id start) _ now
            (omega (arith, from)))
          (λ _.
            Always-bind _ _
              (Always-attempt _
                (queue_sender_request_state_ws-Always Claimed outbox listener_id now now_milli _))
              (λ _. Always-pure _))

    report-Claimed :
        (j : String) (status : RequestStatus) (now now_milli : ℕ)
        → start ≤ now
        → Always Claimed (report cfg listener_id j status now now_milli)
    unfolding report
    report-Claimed j status now now_milli from =
        Always-bind _ _
          (Always-attempt _ (
            store_sender_request_state-IsClaimed id (lease_end cfg listener_id start) _ now
              (omega (arith, from))))
          (λ _.
            Always-attempt _
              (queue_sender_request_state_ws-Always Claimed outbox listener_id now now_milli _))

    after_push-Claimed :
        (result : RelayResult) (j : String) (stored : Option (Unit {0})) (done_at done_milli : ℕ)
        → start ≤ done_at
        → Always Claimed (after_push cfg listener_id result j stored done_at done_milli)
    unfolding after_push
    after_push-Claimed result j none done_at done_milli from = Always-pure tt
    after_push-Claimed result j (some _) done_at done_milli from =
        Always-bind _ _
          (Always-attempt _ (
            queue_sender_result_ws-Always Claimed outbox listener_id done_at done_milli
              (some result) _))
          (λ _. report-Claimed j completed done_at done_milli from)

    run_call-Claimed : (c : Call) → Permits id start c → Always Claimed (run_call c)
    unfolding handle_incoming_request execute
    run_call-Claimed (arrive req now now_milli) from = Always-attempt _ (
        Always-bind _ _ (get_sender_request_state-Always req.id) (λ state.
          Always-bind _ _ (result_is_pending-Always req.id)
            (λ pending. record_arrival-Claimed req.id state pending now now_milli from)))
    run_call-Claimed (run j result now now_milli done_at done_milli) (from, to) = Always-attempt _ (
        Always-bind _ _ (report-Claimed j executing now now_milli from) (λ _.
          Always-bind _ _ (Always-try _ (push_result-Always results result done_milli done_at))
            (λ stored. after_push-Claimed result j stored done_at done_milli to)))
    run_call-Claimed (acknowledge ids) others =
        Always-attempt _ (ack_results-IsClaimed id (lease_end cfg listener_id start) ids others)

    run_calls-Claimed :
        (cs : List (Call × List Outcome))
        → All (λ c. Permits id start c.0) cs
        → Always Claimed (run_calls cs)
    run_calls-Claimed [] from = Always-pure tt
    run_calls-Claimed ((c, net) ∷ cs) (from, rest) =
        Always-bind _ _ (Always-under net _ (run_call-Claimed c from))
          (λ _. run_calls-Claimed cs rest)

    -- an arrival that is handled claims its request
    stored_state :
        (state : RequestSyncState) (now : ℕ)
        → state.request_id ≡ id
        → lease_end cfg listener_id start ≤ state.lease_until
        → Triple (λ _. Unit) (store_sender_request_state (some state) now) (λ _. Claimed)
    unfolding store_sender_request_state
    stored_state state now same long =
        Triple-batch write _
          (λ d _. simp look-write (ground (arith, eq_iff state.request_id id, same)))

    arrival-Claimed :
        (state : Option RequestSyncState) (pending_result : Bool) (now_milli : ℕ)
        → Triple
            (λ _. Unit)
            (record_arrival cfg listener_id id state pending_result start now_milli)
            (λ _. Claimed)
    unfolding record_arrival
    arrival-Claimed state pending_result now_milli =
        Triple-bind (stored_state _ start refl (omega arith)) (λ _. Triple-always (
          Always-bind _ _
            (Always-attempt _
              (queue_sender_request_state_ws-Always Claimed outbox listener_id start now_milli _))
            (λ _. Always-pure _)))

  handled-Claimed :
      (req : RelayRequest) (now now_milli : ℕ)
      → Triple
          (λ _. Unit)
          (handle_incoming_request cfg listener_id req now now_milli)
          (λ _. IsClaimed req.id (lease_end cfg listener_id now))
  unfolding handle_incoming_request
  handled-Claimed req now now_milli = Triple-bind (Triple-always (Always-true _)) (λ state.
      Triple-bind (Triple-always (Always-true _))
        (λ pending. arrival-Claimed req.id now state pending now_milli))

  -- an arrival whose first read succeeds goes on with the state that is stored
  arrival_lem :
      (req : RelayRequest) (now now_milli : ℕ) (d : Db) (net : List Outcome)
      → next_outcome net ≡ answered
      → handle_incoming_request cfg listener_id req now now_milli (record { db = d; net = net })
        ≡ (result_is_pending req.id >>= λ pending_result.
              record_arrival cfg listener_id req.id
                (sender_state_if req.id (look d (sender_key req.id)))
                pending_result
                now
                now_milli)
            (record { db = d; net = later net })
  unfolding handle_incoming_request get_sender_request_state ◌>>=◌
  arrival_lem req now now_milli d net known = rw known refl

  -- and returns no `true` where that state says not to dispatch
  refused_lem :
      (id : String) (state : Option RequestSyncState) (now now_milli : ℕ)
      → ((pending_result : Bool) → should_dispatch state pending_result now ≡ false)
      → Triple
          (λ _. Unit)
          (result_is_pending id >>= λ pending_result.
            record_arrival cfg listener_id id state pending_result now now_milli)
          (λ dispatch _. dispatch ≡ false)
  unfolding record_arrival
  refused_lem id state now now_milli refused =
      Triple-bind (Triple-always (Always-true _)) (λ pending_result.
        Triple-bind (Triple-always (Always-true _)) (λ _.
          Triple-bind (Triple-always (Always-true _))
            (λ _. Triple-pure _ (λ d _. refused pending_result))))

  not_dispatched :
      (id : String) (until now : ℕ) (pending_result : Bool) (d : Db)
      → now < until
      → IsClaimed id until d
      → should_dispatch (sender_state_if id (look d (sender_key id))) pending_result now ≡ false
  not_dispatched id until now pending_result d before h = ground (arith, before, h)

  -- Once a request that arrived has been handled without an error, another with its id that
  -- arrives before the lease that was then stored would end is not dispatched, if the read of the
  -- request's state succeeds when it arrives: after any arrivals and executions of requests, this one
  -- included, and acknowledgements of the results of others, none of them earlier, and whatever other
  -- exchanges with Redis fail in them and in the second arrival.
  pub again-not_dispatched :
      (req again : RelayRequest) (now now_milli : ℕ) (s : State Db) {dispatched : Bool}
      (cs : List (Call × List Outcome)) (net : List Outcome) (second second_milli : ℕ)
      → (handle_incoming_request cfg listener_id req now now_milli s).0 ≡ ok dispatched
      → All (λ c. Permits req.id now c.0) cs
      → next_outcome net ≡ answered
      → again.id ≡ req.id
      → second < now + sender_request_lease_duration cfg
      → (handle_incoming_request cfg listener_id again second second_milli (record {
        db = (run_calls cs (handle_incoming_request cfg listener_id req now now_milli s).1).1.db;
        net = net;
      })).0
        ≢ ok true
  again-not_dispatched req again now now_milli s cs net second second_milli handled from known same
        before dispatched_again =
      let first = handle_incoming_request cfg listener_id req now now_milli s in
      let until = lease_end cfg listener_id now in
      let claimed : IsClaimed req.id until first.1.db =
        subst (λ r. Post (λ _. IsClaimed req.id until) r first.1.db) handled
          ((handled-Claimed req now now_milli).at s tt) in
      let d = (run_calls cs first.1).1.db in
      let kept : IsClaimed req.id until d =
        (run_calls-Claimed req.id now cs from).at first.1 claimed in
      let refused = λ (pending_result : Bool).
        not_dispatched again.id until second pending_result d before
          (subst (λ i. IsClaimed i until d) (sym same) kept) in
      let goes_on = arrival_lem again second second_milli d net known in
      absurd (
        cc (
          Triple-ok true (refused_lem again.id _ second second_milli refused)
            (record { db = d; net = later net }) tt
            (sym (ap (λ r. r.0) goes_on) ∙ dispatched_again)))
