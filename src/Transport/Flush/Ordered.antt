-- ===== src/Transport/Flush/Ordered.antt =====
-- flushOutbox of both websocket sessions: the order of what is written.
use relayra.Prelude.{
  ℕ, zero, suc, ◌+◌, String, ◌≡◌, refl, sym, subst, ◌∙◌, Bool, true, false, Option, none, some,
  List, [], ◌∷◌, leb, Bool-cases, inl, inr,
}
use relayra.Errors.{Result, ok, err}
use relayra.Models.{WsMessage, WsOutboxMessage, WsSequenceState}
use relayra.Codec.{Codec}
use relayra.Redis.{Redis}
use relayra.Redis.Actions.{State, Exec, ◌>>=◌}
use relayra.Store.Outbox.{list_ws_outbox}
use relayra.Store.Outbox.Gaps.{Consecutive, list_ws_outbox-Consecutive}
use relayra.Transport.Outgoing.{decode_ws_outbox_message, with_seq}
use relayra.Transport.Flush.{
  Writer, FlushEnd, wrote, is_gap, write_one, write_entries, Flush, after_write, after_repair,
  repair_gap, after_list, after_state, flush_outbox,
}

-- one writer comes from another by writing messages, each with the number that follows the last
pub data Wrote (a : Writer) : Writer → Type 0 where
  here : Wrote a a
  next :
      {b : Writer}
      → Wrote a b
      → (msg : WsMessage) → msg.seq ≡ b.last_sent_seq + 1
      → Wrote a (wrote msg.seq msg b)

Wrote_trans : {a b c : Writer} → Wrote a b → Wrote b c → Wrote a c
Wrote_trans ab here = ab
Wrote_trans ab (next bc msg e) = next (Wrote_trans ab bc) msg e

module _ ⦃C : Codec⦄ (can_write : WsMessage → Bool) where
  decode-seq :
      (entry : WsOutboxMessage) (msg : WsMessage)
      → decode_ws_outbox_message entry ≡ ok msg
      → msg.seq ≡ entry.seq
  unfolding decode_ws_outbox_message
  decode-seq entry msg h = stamped (C.parse_message entry.payload) h
    where
      stamped : (o : Option WsMessage) → with_seq entry.seq o ≡ ok msg → msg.seq ≡ entry.seq
      stamped none e = absurd (cc e)
      stamped (some m) e = cc e

  write_one-Wrote :
      (entry : WsOutboxMessage) (r : Result WsMessage) (rest : Writer → Writer × Bool) (w : Writer)
      → decode_ws_outbox_message entry ≡ r
      → entry.seq ≡ w.last_sent_seq + 1
      → ((w' : Writer) → w'.last_sent_seq ≡ w.last_sent_seq + 1 → Wrote w' (rest w').0)
      → Wrote w (write_one can_write r entry.seq rest w).0
  write_one-Wrote entry (err e) rest w eq follows goes_on = here
  write_one-Wrote entry (ok msg) rest w eq follows goes_on = elim (Bool-cases (can_write msg)) [
    | inr stopped ↦ rw stopped here
    | inl done ↦
        let same : msg.seq ≡ entry.seq = decode-seq entry msg eq in
        rw done (
          subst (λ n. Wrote w (rest (wrote n msg w)).0) same
            (Wrote_trans (next here msg (same ∙ follows))
              (goes_on (wrote msg.seq msg w) (same ∙ follows))))
  ]

  write_entries-Wrote :
      (entries : List WsOutboxMessage) (w : Writer)
      → Consecutive (w.last_sent_seq + 1) entries
      → Wrote w (write_entries can_write entries w).0
  write_entries-Wrote [] w h = here
  write_entries-Wrote (entry ∷ entries) w h =
      write_one-Wrote entry _ (write_entries can_write entries) w refl h.0 (λ w' e.
        write_entries-Wrote entries w' (subst (λ n. Consecutive (n + 1) entries) (sym e) h.1))

module _ ⦃R : Redis⦄ ⦃C : Codec⦄ (scope : String) (can_write : WsMessage → Bool)
    (rebuild : ℕ → Exec R.Db (Unit {0})) where
  open R use {Db}

  -- the flush returns, and has written messages in order
  abbrev pub Writes : Writer → Result (Writer × FlushEnd) → Type 0
  Writes w (ok (w', _)) = Wrote w w'
  Writes w (err _) = ⊥

  Writes-trans :
      {w w' : Writer} (r : Result (Writer × FlushEnd)) → Wrote w w' → Writes w' r → Writes w r
  Writes-trans (ok (w'', e)) first rest = Wrote_trans first rest
  Writes-trans (err e) first rest = rest

  module _ (rest : Flush scope can_write rebuild)
      (goes_on : (w : Writer) (s : State Db) → Writes w (rest w s).0) where
    after_write-Writes :
        (w : Writer) (p : Writer × Bool) (s : State Db)
        → Wrote w p.0
        → Writes w (after_write scope can_write rebuild p rest s).0
    unfolding ◌>>=◌
    after_write-Writes w (w', true) s h = Writes-trans (rest w' s).0 h (goes_on w' s)
    after_write-Writes w (w', false) s h = h

    after_repair-Writes :
        (o : Option (Unit {0})) (w : Writer) (s : State Db)
        → Writes w (after_repair scope can_write rebuild o rest w s).0
    unfolding ◌>>=◌
    after_repair-Writes none w s = here
    after_repair-Writes (some _) w s = goes_on w s

    repair_gap-Writes :
        (b : Bool) (w : Writer) (s : State Db)
        → Writes w (repair_gap scope can_write rebuild b rest w s).0
    unfolding repair_gap ◌>>=◌
    repair_gap-Writes false w s = here
    repair_gap-Writes true w s = after_repair-Writes _ w (rebuild w.last_sent_seq s).1

    after_list-Writes :
        (r : Result (List WsOutboxMessage)) (w : Writer) (s s' : State Db)
        → (list_ws_outbox scope w.last_sent_seq 64 s).0 ≡ r
        → Writes w (after_list scope can_write rebuild r rest w s').0
    unfolding after_list ◌>>=◌
    after_list-Writes (err e) w s s' listed = repair_gap-Writes (is_gap e) w s'
    after_list-Writes (ok []) w s s' listed = here
    after_list-Writes (ok (entry ∷ entries)) w s s' listed =
        after_write-Writes w (write_entries can_write (entry ∷ entries) w) s' (
          write_entries-Wrote can_write (entry ∷ entries) w
            (list_ws_outbox-Consecutive scope w.last_sent_seq 64 s (entry ∷ entries) listed))

    after_state-Writes :
        (o : Option (Option WsSequenceState)) (w : Writer) (s : State Db)
        → Writes w (after_state scope can_write rebuild o rest w s).0
    unfolding after_state ◌>>=◌
    after_state-Writes none w s = here
    after_state-Writes (some none) w s = here
    after_state-Writes (some (some state)) w s =
        elim (Bool-cases (leb state.next_outbound_seq w.last_sent_seq)) [
          | inl sent ↦ rw sent here
          | inr more ↦
              rw more (after_list-Writes _ w s (list_ws_outbox scope w.last_sent_seq 64 s).1 refl)
        ]

  -- A flush writes to the connection, one after another and with none left out, the messages whose
  -- numbers follow the last that was sent, and remembers the last of them: whatever the outbox
  -- holds, however it is rebuilt where it has gaps, wherever writing stops, and whatever exchanges
  -- fail. Given any number of rounds, it returns.
  pub flush_outbox-Writes :
      (fuel : ℕ) (w : Writer) (s : State Db)
      → Writes w (flush_outbox scope can_write rebuild fuel w s).0
  unfolding flush_outbox ◌>>=◌
  flush_outbox-Writes zero w s = here
  flush_outbox-Writes (suc fuel) w s =
      after_state-Writes (flush_outbox scope can_write rebuild fuel)
        (λ w' s'. flush_outbox-Writes fuel w' s') _ w _
