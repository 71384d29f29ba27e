-- ===== src/Server/Api/Accepted.antt =====
-- internal/server/handlers.go: a request that the listener accepts for a peer.
use relayra.Prelude.{ℕ, String, ◌≡◌, refl, Bool, not, Option, none, some, List, ◌==ₛ◌, All}
use relayra.Errors.{ok}
use relayra.Models.{RelayRequest, Peer}
use relayra.Codec.{Codec}
use relayra.Settings.{Settings}
use relayra.Redis.{Redis}
use relayra.Redis.Frame.{Spares, look-elsewhere}
use relayra.Redis.Actions.{State, Outcome}
use relayra.Redis.Actions.Always.{Always-true, Always-attempt}
use relayra.Redis.Actions.Triple.{
  Triple, Tried, Triple-ok, Triple-pure, Triple-always, Triple-try, Triple-if, Triple-bind,
  Triple-batch,
}
use relayra.Store.Outbox.Frame.{is_outbox_kind}
use relayra.Store.Queue.{queue_key, request_key, enqueue_request}
use relayra.Store.Results.{result_key}
use relayra.Store.Queue.Durable.{IsKept}
use relayra.Store.Queue.Durable.History.{
  Call, Permits, run_calls, run_calls-IsKept, enqueued-IsKept,
}
use relayra.Server.Events.Frame.{queue_listener_request_event-Always}
use relayra.Server.Api.{
  RelayBody, RelayAnswer, accepted_queued, local_answer, after_enqueue, after_peer, relay_locally,
  relay_request, is_listener_destination, relay, request_of,
}

module _ ⦃R : Redis⦄ where
  open R use {Db}

  IsKept-Spares : (peer_id id : String) → Spares is_outbox_kind (IsKept peer_id id)
  IsKept-Spares peer_id id c of d h =
      rw
        (
          look-elsewhere is_outbox_kind c (queue_key peer_id) of refl d,
          look-elsewhere is_outbox_kind c (request_key id) of refl d,
          look-elsewhere is_outbox_kind c (result_key id) of refl d,
        )
        h

  -- what an answer promises: a request that was queued is in the queue of its peer
  abbrev pub Kept : RelayAnswer → Db → Type 0
  Kept (accepted_queued req) d = IsKept req.destination_id req.id d
  Kept _ d = Unit

  module _ ⦃C : Codec⦄ (cfg : Settings) (machine_id : String) (allows : Bool) where
    enqueue_request-IsKept :
        (req : RelayRequest)
        → Triple
            (λ _. Unit)
            (enqueue_request req.destination_id req)
            (λ _ d. IsKept req.destination_id req.id d)
    unfolding enqueue_request
    enqueue_request-IsKept req =
        Triple-batch R.write _ (λ d _. enqueued-IsKept req.destination_id req d)

    after_enqueue-Kept :
        (req : RelayRequest) (stored : Option (Unit {0})) (now now_milli : ℕ)
        → Triple
            (Tried (λ _. Unit) (λ _ d. IsKept req.destination_id req.id d) stored)
            (after_enqueue cfg machine_id allows req stored now now_milli)
            Kept
    unfolding after_enqueue
    after_enqueue-Kept req none now now_milli = Triple-pure _ (λ _ _. tt)
    after_enqueue-Kept req (some _) now now_milli =
        Triple-bind
          (Triple-always (
            Always-attempt _ (
              queue_listener_request_event-Always (IsKept-Spares req.destination_id req.id) cfg
                req.destination_id now now_milli req)))
          (λ _. Triple-pure _ (λ d h. h))

    after_peer-Kept :
        (req : RelayRequest) (peer : Option (Option Peer)) (now now_milli : ℕ)
        → Triple (λ _. Unit) (after_peer cfg machine_id allows req peer now now_milli) Kept
    unfolding after_peer
    after_peer-Kept req none now now_milli = Triple-pure _ (λ _ _. tt)
    after_peer-Kept req (some none) now now_milli = Triple-pure _ (λ _ _. tt)
    after_peer-Kept req (some (some peer)) now now_milli =
        Triple-bind (Triple-try (enqueue_request-IsKept req) (Always-true _))
          (λ stored. after_enqueue-Kept req stored now now_milli)

    local_answer-Kept :
        (req : RelayRequest) (stored : Option (Unit {0})) (d : Db)
        → Kept (local_answer req stored) d
    local_answer-Kept req none d = tt
    local_answer-Kept req (some _) d = tt

    relay_request-Kept :
        (req : RelayRequest) (now now_milli : ℕ)
        → Triple (λ _. Unit) (relay_request cfg machine_id allows req now now_milli) Kept
    unfolding relay_request relay_locally
    relay_request-Kept req now now_milli =
        Triple-if (is_listener_destination machine_id req.destination_id) _ _
          (Triple-if (not allows) _ _ (Triple-pure _ (λ _ _. tt)) (
            Triple-bind (Triple-always (Always-true _))
              (λ stored. Triple-pure _ (λ d _. local_answer-Kept _ stored d))))
          (Triple-bind (Triple-always (Always-true _))
            (λ peer. after_peer-Kept req peer now now_milli))

    relay-Kept :
        (body : Option (Option RelayBody)) (id : String) (now now_milli : ℕ)
        → Triple (λ _. Unit) (relay cfg machine_id allows body id now now_milli) Kept
    unfolding relay
    relay-Kept none id now now_milli = Triple-pure _ (λ _ _. tt)
    relay-Kept (some none) id now now_milli = Triple-pure _ (λ _ _. tt)
    relay-Kept (some (some body)) id now now_milli =
        Triple-if (body.destination_peer_id ==ₛ "") _ _ (Triple-pure _ (λ _ _. tt)) (
          Triple-if (body.request.url ==ₛ "") _ _ (Triple-pure _ (λ _ _. tt))
            (relay_request-Kept (request_of body id now) now now_milli))

    -- A request that `Relay` accepts as queued for a peer is in the queue of that peer, or its
    -- result is stored, after any sequence of these calls of the listener: enqueuing, leasing,
    -- applying states, acknowledging and storing results, clearing the queues of other peers,
    -- deleting other peers, and updating statuses but that of this request to `completed`. Any
    -- exchanges with Redis may fail in `Relay` and in the calls other than leasing.
    pub queued-Kept :
        (body : Option (Option RelayBody)) (id : String) (now now_milli : ℕ) (s : State Db)
        (req : RelayRequest) (cs : List (Call × List Outcome))
        → All (λ c. Permits req.destination_id req.id c.0 c.1) cs
        → (relay cfg machine_id allows body id now now_milli s).0 ≡ ok (accepted_queued req)
        → IsKept req.destination_id req.id
            (run_calls cs (relay cfg machine_id allows body id now now_milli s).1).1.db
    queued-Kept body id now now_milli s req cs may accepted =
        (run_calls-IsKept req.destination_id req.id cs may).at
          (relay cfg machine_id allows body id now now_milli s).1
          (Triple-ok (accepted_queued req) (relay-Kept body id now now_milli) s tt accepted)
