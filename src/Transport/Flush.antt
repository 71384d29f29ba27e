-- ===== src/Transport/Flush.antt =====
-- flushOutbox of internal/server/websocket.go and of internal/poller/websocket.go, which are the same
-- but for the rebuilding of the outbox. Whether a message can be written to the connection is a
-- parameter. The loop has fuel for its rounds, and says where it is spent.
pub mod Ordered
use relayra.Prelude.{
  ℕ, zero, suc, String, Bool, true, false, Option, none, some, List, [], ◌∷◌, ◌++◌, leb,
  if◌then◌else◌,
}
use relayra.Errors.{Error, outbox_gap, Result, ok, err}
use relayra.Models.{WsMessage, WsOutboxMessage, WsSequenceState}
use relayra.Codec.{Codec}
use relayra.Redis.{Redis}
use relayra.Redis.Actions.{Exec, pure, try, catch, ◌>>=◌}
use relayra.Store.Outbox.{get_ws_sequence_state, list_ws_outbox}
use relayra.Transport.Outgoing.{decode_ws_outbox_message}

-- the messages that were written to the connection, and the number of the last
pub record Writer : Type 0 where
  pub last_sent_seq : ℕ
  pub written : List WsMessage

pub data FlushEnd : Type 0 where
  flushed flush_failed unfinished : FlushEnd

abbrev pub wrote : ℕ → WsMessage → Writer → Writer
wrote seq msg w = record { last_sent_seq = seq; written = w.written ++ msg ∷ [] }

abbrev pub is_gap : Error → Bool
is_gap outbox_gap = true
is_gap _ = false

module _ ⦃C : Codec⦄ (can_write : WsMessage → Bool) where
  abbrev pub write_one : Result WsMessage → ℕ → (Writer → Writer × Bool) → Writer → Writer × Bool
  write_one (err _) seq rest w = (w, false)
  write_one (ok msg) seq rest w = if can_write msg then rest (wrote seq msg w) else (w, false)

  -- whether all of the entries were written
  abbrev pub write_entries : List WsOutboxMessage → Writer → Writer × Bool
  write_entries [] w = (w, true)
  write_entries (entry ∷ entries) w =
      write_one (decode_ws_outbox_message entry) entry.seq (write_entries entries) w

module _ ⦃R : Redis⦄ ⦃C : Codec⦄ (scope : String) (can_write : WsMessage → Bool)
    (rebuild : ℕ → Exec R.Db (Unit {0})) where
  open R use {Db}

  abbrev pub Flush : Type 0
  Flush = Writer → Exec Db (Writer × FlushEnd)

  abbrev pub after_write : Writer × Bool → Flush → Exec Db (Writer × FlushEnd)
  after_write (w, true) rest = rest w
  after_write (w, false) rest = pure (w, flush_failed)

  abbrev pub after_repair : Option (Unit {0}) → Flush → Flush
  after_repair none rest w = pure (w, flush_failed)
  after_repair (some _) rest w = rest w

  unfoldable pub repair_gap : Bool → Flush → Flush
  repair_gap false rest w = pure (w, flush_failed)
  repair_gap true rest w = do repaired ← try (rebuild w.last_sent_seq); after_repair repaired rest w

  unfoldable pub after_list : Result (List WsOutboxMessage) → Flush → Flush
  unfolding repair_gap
  after_list (err e) rest w = repair_gap (is_gap e) rest w
  after_list (ok []) rest w = pure (w, flushed)
  after_list (ok (entry ∷ entries)) rest w =
      after_write (write_entries can_write (entry ∷ entries) w) rest

  unfoldable pub after_state : Option (Option WsSequenceState) → Flush → Flush
  unfolding after_list
  after_state none rest w = pure (w, flush_failed)
  after_state (some none) rest w = pure (w, flushed)
  after_state (some (some state)) rest w =
      if leb state.next_outbound_seq w.last_sent_seq
      then pure (w, flushed)
      else (do listed ← catch (list_ws_outbox scope w.last_sent_seq 64); after_list listed rest w)

  unfoldable pub flush_outbox : ℕ → Flush
  unfolding after_state
  flush_outbox zero w = pure (w, unfinished)
  flush_outbox (suc fuel) w =
      let rest = flush_outbox fuel in
      do state ← try (get_ws_sequence_state scope); after_state state rest w
