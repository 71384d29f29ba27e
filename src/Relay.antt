-- ===== src/Relay.antt =====
-- The listener and the sender together: internal/server/handlers.go and internal/poller/poller.go,
-- with a network between them that may lose, repeat, delay and reorder what is sent.
pub mod Safety
use relayra.Prelude.{ℕ, String, ◌≡◌, List, [], ◌∷◌, ◌++◌, Option, some, Bool, get_elem?}
use relayra.Errors.{Result, ok, err}
use relayra.Models.{RelayResult, PollPayloadUp, PollPayloadDown}
use relayra.Codec.{Codec}
use relayra.Settings.{Settings}
use relayra.Redis.{Redis}
use relayra.Redis.Actions.{State, Outcome, calm}
use relayra.Proxy.{Manager}
use relayra.Store.Queue.Durable.History.{Call, run_call}
use relayra.Server.Results.{Delivery}
use relayra.Server.Poll.{process_poll_payload}
use relayra.Poller.Incoming.{execute}
use relayra.Poller.Cycle.{Reply, replied, build_payload_up, send_payload}

-- how a poll can end without an answer
pub data Failure : Type 0 where
  unsent unreachable refused unreadable : Failure

abbrev pub seen_as : Failure → Reply
seen_as Failure.unsent = Reply.unsent
seen_as Failure.unreachable = Reply.unreachable
seen_as Failure.refused = Reply.refused
seen_as Failure.unreadable = Reply.unreadable

-- the answer that a call of the listener puts on the way
abbrev pub sent_back : Result (PollPayloadDown × List Delivery) → List PollPayloadDown
sent_back (ok (down, _)) = down ∷ []
sent_back (err _) = []

module _ ⦃R : Redis⦄ ⦃C : Codec⦄ where
  open R use {Db}

  -- the two databases, and the answers that the listener has ever sent
  pub record Nodes : Type 0 where
    pub sender : Db
    pub listener : Db
    pub answers : List PollPayloadDown

  -- the listener has handled a poll
  abbrev pub answer_poll : Nodes → Result (PollPayloadDown × List Delivery) × State Db → Nodes
  answer_poll a r = record a { listener = r.1.db; answers = sent_back r.0 ++ a.answers }

  module _ (cfg : Settings) (creates : String → Bool) (m : Manager) (listener_id : String) where
    -- One step of one of the two nodes. Exchanges with Redis may fail in each, but for those of
    -- `build`, which leases results.
    pub data Step (a b : Nodes) : Type 0 where
      -- the sender leases results and builds what it will send
      build :
          (now now_milli : ℕ)
          → b ≡ record a {
            sender = (build_payload_up cfg listener_id now now_milli (calm a.sender)).1.db;
          }
          → Step a b
      -- the listener handles a poll, of this sender or another
      handle :
          (peer_id : String) (up : PollPayloadUp) (wait_seconds now later : ℕ) (net : List Outcome)
          → b
            ≡ answer_poll a (
                process_poll_payload cfg peer_id up wait_seconds now later
                  (record { db = a.listener; net = net }))
          → Step a b
      -- an answer arrives, for the first time or again
      deliver :
          (up : PollPayloadUp) (i : ℕ) (down : PollPayloadDown) (now now_milli : ℕ)
          (net : List Outcome)
          → get_elem? a.answers i ≡ some down
          → b ≡ record a {
            sender =
                (send_payload cfg listener_id now now_milli creates m up
                  (replied down)
                  (record { db = a.sender; net = net })).1.db;
          }
          → Step a b
      -- a poll ends without an answer
      fail :
          (up : PollPayloadUp) (failure : Failure) (now now_milli : ℕ) (net : List Outcome)
          → b ≡ record a {
            sender =
                (send_payload cfg listener_id now now_milli creates m up
                  (seen_as failure)
                  (record { db = a.sender; net = net })).1.db;
          }
          → Step a b
      -- a thread of the sender executes a request
      run :
          (id : String) (result : RelayResult) (now now_milli done_at done_milli : ℕ)
          (net : List Outcome)
          → b ≡ record a {
            sender =
                (execute cfg listener_id id result now now_milli done_at done_milli
                  (record { db = a.sender; net = net })).1.db;
          }
          → Step a b
      -- a call on the listener's queues and results
      serve :
          (call : Call) (net : List Outcome)
          → b ≡ record a { listener = (run_call call (record { db = a.listener; net = net })).1.db }
          → Step a b

    pub data Reach (a : Nodes) : Nodes → Type 0 where
      here : Reach a a
      next : {b c : Nodes} → Reach a b → Step b c → Reach a c
