-- ===== src/Store/Outbox/Gaps.antt =====
-- internal/store/ws_outbox_redis.go: the gaps that `ListWSOutbox` looks for.
use relayra.Prelude.{ℕ, ◌+◌, String, ◌≡◌, List, [], ◌∷◌, arith}
use relayra.Errors.{ok}
use relayra.Models.{WsOutboxMessage}
use relayra.Redis.{Redis}
use relayra.Redis.Objects.{Member, numbered, named, ranked}
use relayra.Redis.Actions.{State, ◌>>=◌, later}
use relayra.Store.Outbox.{list_from, list_ws_outbox, page, index_key}

-- the messages have the numbers `from`, `from + 1`, and so on
abbrev pub Consecutive : ℕ → List WsOutboxMessage → Type 0
Consecutive from [] = Unit
Consecutive from (m ∷ ms) = (m.seq ≡ from) × Consecutive (from + 1) ms

module _ ⦃R : Redis⦄ where
  open R use {Db, look}

  list_from-Consecutive :
      (scope : String) (from : ℕ) (members : List Member) (s : State Db) (ms : List WsOutboxMessage)
      → (list_from scope from members s).0 ≡ ok ms
      → Consecutive from ms
  unfolding list_from ◌>>=◌
  list_from-Consecutive scope from [] s [] h = tt
  list_from-Consecutive scope from [] s (m ∷ ms) h = absurd (cc h)
  list_from-Consecutive scope from (numbered seq ∷ members) s [] h = tt
  list_from-Consecutive scope from (numbered seq ∷ members) s (m ∷ ms) h =
      ground
        (arith, list_from-Consecutive scope (from + 1) members (record s { net = later s.net }) ms)
  list_from-Consecutive scope from (named _ ∷ members) s ms h = absurd (cc h)

  -- Whatever the outbox holds and whatever exchange fails, a listing that succeeds gives the
  -- messages that follow the given number, one after another, with none left out between them.
  pub list_ws_outbox-Consecutive :
      (scope : String) (after limit : ℕ) (s : State Db) (ms : List WsOutboxMessage)
      → (list_ws_outbox scope after limit s).0 ≡ ok ms
      → Consecutive (after + 1) ms
  unfolding list_ws_outbox ◌>>=◌
  list_ws_outbox-Consecutive scope after limit s ms h = ground (
    arith,
    list_from-Consecutive scope (after + 1)
        (page limit after (ranked (look s.db (index_key scope)))) (record s { net = later s.net })
        ms,
  )
