-- ===== src/Relay/Safety.antt =====
-- The listener and the sender together: a result is not lost on its way.
use relayra.Prelude.{
  ℕ, zero, suc, String, ◌≡◌, refl, sym, subst, Bool, true, false, List, [], ◌∷◌, ◌++◌, some,
  get_elem?, All, ◌⊎◌, inl, inr, Bool-cases, eq_iff, ◌==ₛ◌,
}
use relayra.Errors.{Result, ok, err}
use relayra.Models.{PollPayloadUp, PollPayloadDown}
use relayra.Codec.{Codec}
use relayra.Settings.{Settings}
use relayra.Redis.{Redis}
use relayra.Redis.Keys
use relayra.Redis.Keys.{Space}
use relayra.Redis.Actions.{State, Outcome}
use relayra.Redis.Actions.Triple.{Post}
use relayra.Redis.Actions.Always.{Always, Always-attempt}
use relayra.Redis.Frame.{Spares, Always-spared}
use relayra.Proxy.{Manager}
use relayra.Store.Queue.{enqueue_request, ack_requests, received_states, update_request_status}
use relayra.Store.Queue.Cleared.{clear_peer_queue-Always}
use relayra.Store.Peers.{delete_peer}
use relayra.Store.Queue.Frame.{lease_requests-Always, apply_request_states-Always}
use relayra.Store.Queue.Durable.History.{
  Call, enqueue, lease, apply, acknowledge, store, clear, unpair, mark, run_call,
}
use relayra.Store.Results.Kept.{
  IsStored, AllStored, AllStored-elsewhere, AllStored-spared, store_result-AllStored,
}
use relayra.Store.Sender.Pending.{IsPending}
use relayra.Server.Results.{Delivery}
use relayra.Server.Poll.{process_poll_payload}
use relayra.Server.Poll.Acknowledged.{process_poll_payload-AllStored, acknowledged-Post}
use relayra.Poller.Cycle.{replied, send_payload}
use relayra.Poller.Delivery.{
  DoesNotAck, execute-IsPending, build_payload_up-IsPending, send_payload-IsPending,
}
use relayra.Relay.{
  Nodes, Failure, seen_as, sent_back, Step, build, handle, deliver, fail, run, serve, Reach, here,
  next,
}

is_queue_kind : Space → Bool
is_queue_kind Keys.queue = true
is_queue_kind Keys.request = true
is_queue_kind _ = false

is_unpaired_kind : Space → Bool
is_unpaired_kind Keys.peer = true
is_unpaired_kind Keys.peers = true
is_unpaired_kind Keys.queue = true
is_unpaired_kind _ = false

module _ ⦃R : Redis⦄ ⦃C : Codec⦄ where
  open R use {Db}

  queues : (ids : List String) → Spares is_queue_kind (AllStored ids)
  unfolding is_queue_kind
  queues = AllStored-spared is_queue_kind (λ id. refl)

  peers : (ids : List String) → Spares is_unpaired_kind (AllStored ids)
  unfolding is_unpaired_kind
  peers = AllStored-spared is_unpaired_kind (λ id. refl)

  run_call-AllStored : (ids : List String) (call : Call) → Always (AllStored ids) (run_call call)
  unfolding enqueue_request ack_requests delete_peer update_request_status is_queue_kind
      is_unpaired_kind
  run_call-AllStored ids (enqueue peer_id req) =
      Always-attempt _ (Always-spared is_queue_kind (queues ids) _ (refl, (refl, tt)))
  run_call-AllStored ids (lease peer_id batch_size ttl now) = Always-attempt _ (
      lease_requests-Always (AllStored ids) (λ p m d h. AllStored-elsewhere _ ids d (λ _. refl) h)
        (λ id fs d h. AllStored-elsewhere _ ids d (λ _. refl) h) peer_id batch_size ttl now)
  run_call-AllStored ids (apply states now) = Always-attempt _ (
      apply_request_states-Always (AllStored ids)
        (λ p m d h. AllStored-elsewhere _ ids d (λ _. refl) h)
        (λ id fs d h. AllStored-elsewhere _ ids d (λ _. refl) h) states now)
  run_call-AllStored ids (acknowledge acked now) = Always-attempt _ (
      apply_request_states-Always (AllStored ids)
        (λ p m d h. AllStored-elsewhere _ ids d (λ _. refl) h)
        (λ id fs d h. AllStored-elsewhere _ ids d (λ _. refl) h) (received_states acked now) now)
  run_call-AllStored ids (store result ttl) =
      Always-attempt _ (store_result-AllStored ids result ttl)
  run_call-AllStored ids (clear p) = Always-attempt _ (
      clear_peer_queue-Always (AllStored ids) p (λ j d h. AllStored-elsewhere _ ids d (λ _. refl) h)
        (λ j d h. AllStored-elsewhere _ ids d (λ _. refl) h)
        (λ j d h. AllStored-elsewhere _ ids d (λ _. refl) h))
  run_call-AllStored ids (unpair p) =
      Always-attempt _ (Always-spared is_unpaired_kind (peers ids) _ (refl, (refl, (refl, tt))))
  run_call-AllStored ids (mark j status) =
      Always-attempt _ (Always-spared is_queue_kind (queues ids) _ (refl, tt))

  -- every answer that was sent acknowledges only what is stored
  abbrev AllAnswered : List PollPayloadDown → Db → Type 0
  AllAnswered answers d = All (λ down. AllStored down.ack_result_ids d) answers

  -- the result waits at the sender, or is stored at the listener
  abbrev pub IsHeld : String → Nodes → Type 0
  IsHeld id n = IsPending id n.sender ⊎ IsStored id n.listener

  record IsSafe (id : String) (n : Nodes) : Type 0 where
    held : IsHeld id n
    answered : AllAnswered n.answers n.listener

  -- a listener that keeps what is stored keeps the nodes safe
  module _ (d e : Db) (kept : (ids : List String) → AllStored ids d → AllStored ids e) where
    answers_kept : (answers : List PollPayloadDown) → AllAnswered answers d → AllAnswered answers e
    answers_kept [] h = tt
    answers_kept (down ∷ answers) (h, hs) = (kept down.ack_result_ids h, answers_kept answers hs)

    held_kept :
        (id : String) (s : Db) → IsPending id s ⊎ IsStored id d → IsPending id s ⊎ IsStored id e
    held_kept id s (inl waits) = inl waits
    held_kept id s (inr stored) = inr (kept (id ∷ []) (stored, tt)).0

  answer-AllAnswered :
      (r : Result (PollPayloadDown × List Delivery)) (answers : List PollPayloadDown) (d : Db)
      → Post (λ a e. AllStored a.0.ack_result_ids e) r d
      → AllAnswered answers d
      → AllAnswered (sent_back r ++ answers) d
  answer-AllAnswered (ok (down, _)) answers d h hs = (h, hs)
  answer-AllAnswered (err e) answers d h hs = hs

  answered_at :
      (answers : List PollPayloadDown) (i : ℕ) (down : PollPayloadDown) (d : Db)
      → get_elem? answers i ≡ some down
      → AllAnswered answers d
      → AllStored down.ack_result_ids d
  answered_at [] i down d found h = absurd (cc found)
  answered_at (x ∷ answers) zero down d found h =
      let same : x ≡ down = cc found in subst (λ a. AllStored a.ack_result_ids d) same h.0
  answered_at (x ∷ answers) (suc i) down d found h = answered_at answers i down d found h.1

  -- a result that is among those stored is stored; else each of them is another
  among :
      (id : String) (ids : List String) (d : Db)
      → AllStored ids d
      → IsStored id d ⊎ All (λ j. (j ==ₛ id) ≡ false) ids
  among id [] d h = inr tt
  among id (j ∷ ids) d (h, hs) = elim (Bool-cases (j ==ₛ id)) [
    | inl same ↦ inl (subst (λ k. IsStored k d) ((eq_iff j id).0 same) h)
    | inr other ↦ elim (among id ids d hs) [
      | inl stored ↦ inl stored
      | inr others ↦ inr (other, others)
    ]
  ]

  sender_keeps :
      (id : String) (s t d : Db)
      → (IsPending id s → IsPending id t)
      → IsPending id s ⊎ IsStored id d
      → IsPending id t ⊎ IsStored id d
  sender_keeps id s t d kept (inl waits) = inl (kept waits)
  sender_keeps id s t d kept (inr stored) = inr stored

  module _ (cfg : Settings) (creates : String → Bool) (m : Manager) (listener_id : String)
      (id : String) where
    seen_as-DoesNotAck : (failure : Failure) → DoesNotAck id (seen_as failure)
    seen_as-DoesNotAck Failure.unsent = tt
    seen_as-DoesNotAck Failure.unreachable = tt
    seen_as-DoesNotAck Failure.refused = tt
    seen_as-DoesNotAck Failure.unreadable = tt

    deliver-IsHeld :
        (a : Nodes) (up : PollPayloadUp) (down : PollPayloadDown) (now now_milli : ℕ)
        (net : List Outcome)
        → AllStored down.ack_result_ids a.listener
        → IsHeld id a
        → IsPending id
            (send_payload cfg listener_id now now_milli creates m up
              (replied down)
              (record { db = a.sender; net = net })).1.db
          ⊎ IsStored id a.listener
    deliver-IsHeld a up down now now_milli net stored held =
        elim (among id down.ack_result_ids a.listener stored) [
          | inl stored_there ↦ inr stored_there
          | inr others ↦
              sender_keeps id a.sender _ a.listener
                ((send_payload-IsPending id cfg listener_id now now_milli creates m up
                    (replied down) others).at
                  (record { db = a.sender; net = net }))
                held
        ]

    Step-IsSafe : {a b : Nodes} → Step cfg creates m listener_id a b → IsSafe id a → IsSafe id b
    Step-IsSafe {a} (build now now_milli e) safe = subst (IsSafe id) (sym e) (record {
      held =
          sender_keeps id a.sender _ a.listener
            (build_payload_up-IsPending id cfg listener_id now now_milli a.sender) safe.held;
      answered = safe.answered;
    })
    Step-IsSafe {a} (handle peer_id up wait_seconds now later net e) safe =
        let s : State Db = record { db = a.listener; net = net } in
        let r = process_poll_payload cfg peer_id up wait_seconds now later s in
        let kept = λ (ids : List String).
          (process_poll_payload-AllStored cfg ids peer_id up wait_seconds now later).at s in
        subst (IsSafe id) (sym e) (record {
          held = held_kept a.listener r.1.db kept id a.sender safe.held;
          answered =
              answer-AllAnswered r.0 a.answers r.1.db
                (acknowledged-Post cfg peer_id up wait_seconds now later s)
                (answers_kept a.listener r.1.db kept a.answers safe.answered);
        })
    Step-IsSafe {a} (deliver up i down now now_milli net found e) safe =
        subst (IsSafe id) (sym e) (record {
          held =
              deliver-IsHeld a up down now now_milli net
                (answered_at a.answers i down a.listener found safe.answered) safe.held;
          answered = safe.answered;
        })
    Step-IsSafe {a} (fail up failure now now_milli net e) safe = subst (IsSafe id) (sym e) (record {
      held =
          sender_keeps id a.sender _ a.listener
            ((send_payload-IsPending id cfg listener_id now now_milli creates m up (seen_as failure)
                (seen_as-DoesNotAck failure)).at
              (record { db = a.sender; net = net }))
            safe.held;
      answered = safe.answered;
    })
    Step-IsSafe {a} (run j result now now_milli done_at done_milli net e) safe =
        subst (IsSafe id) (sym e) (record {
          held =
              sender_keeps id a.sender _ a.listener
                ((execute-IsPending id cfg listener_id j result now now_milli done_at done_milli).at
                  (record { db = a.sender; net = net }))
                safe.held;
          answered = safe.answered;
        })
    Step-IsSafe {a} (serve call net e) safe =
        let s : State Db = record { db = a.listener; net = net } in
        let kept = λ (ids : List String). (run_call-AllStored ids call).at s in
        let after = (run_call call s).1.db in
        subst (IsSafe id) (sym e) (record {
          held = held_kept a.listener after kept id a.sender safe.held;
          answered = answers_kept a.listener after kept a.answers safe.answered;
        })

    Reach-IsSafe : {a b : Nodes} → Reach cfg creates m listener_id a b → IsSafe id a → IsSafe id b
    Reach-IsSafe here safe = safe
    Reach-IsSafe (next reached step) safe = Step-IsSafe step (Reach-IsSafe reached safe)

    -- A result that waits at the sender, before the listener has sent any answer, waits there or is
    -- stored at the listener after any sequence of these steps: polls over HTTP that are lost,
    -- handled or answered, answers that arrive late, twice or never, executions, and calls on the
    -- listener's queues and results. Any exchanges with Redis may fail in them but for those with
    -- which the sender builds a poll. Websocket sessions are not among the steps.
    pub Reach-IsHeld :
        (a b : Nodes)
        → a.answers ≡ []
        → IsPending id a.sender
        → Reach cfg creates m listener_id a b
        → IsHeld id b
    Reach-IsHeld a b silent waits reached =
        (Reach-IsSafe reached (record {
          held = inl waits;
          answered = subst (λ answers. AllAnswered answers a.listener) (sym silent) tt;
        })).held
