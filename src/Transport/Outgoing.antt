-- ===== src/Transport/Outgoing.antt =====
-- internal/transport/wsoutbox.go: websocket messages on their way into the outbox and out of it.
use relayra.Prelude.{ℕ, suc, ◌+◌, String, ◌≡◌, refl, ap, ◌∙◌, Option, none, some}
use relayra.Errors.{message_required, invalid_json, Result, ok, err}
use relayra.Models.{WsMessage, WsOutboxMessage}
use relayra.Codec.{Codec}
use relayra.Redis.{Redis}
use relayra.Redis.Actions.{Exec, pure, raise, calm, ◌>>=◌}
use relayra.Store.Outbox.{append_ws_outbox, message_of, message_key}
use relayra.Store.Outbox.Contiguous.{IsContiguous, append_ws_outbox-IsContiguous}

abbrev pub with_seq : ℕ → Option WsMessage → Result WsMessage
with_seq seq none = err invalid_json
with_seq seq (some msg) = ok (record msg { seq = seq })

module _ ⦃C : Codec⦄ where
  open C use {json_message, parse_message, parse-json_message}

  unfoldable pub decode_ws_outbox_message : WsOutboxMessage → Result WsMessage
  decode_ws_outbox_message entry = with_seq entry.seq (parse_message entry.payload)

  module _ ⦃R : Redis⦄ where
    open R use {Db, look}

    -- The message is changed in place: it is returned as it then is.
    unfoldable pub enqueue_ws_message :
        String → Option WsMessage → String → ℕ → ℕ → Exec Db (ℕ × WsMessage)
    enqueue_ws_message scope none ref_id now_milli now = raise message_required
    enqueue_ws_message scope (some msg) ref_id now_milli now = do
      let stamped = record msg { sent_at = now_milli }
      seq ← append_ws_outbox scope stamped.type ref_id (json_message stamped) now
      pure (seq, record stamped { seq = seq })

    -- Where every exchange succeeds and a scope's outbox holds the `n` messages that follow `a`, a
    -- message that is put into the outbox gets the number `a + n + 1` and the time of the call, the
    -- outbox holds the `n + 1` messages that follow `a`, and its last entry decodes to that message.
    pub enqueue-decode :
        (d : Db) (scope : String) (a n : ℕ) (msg : WsMessage) (ref_id : String) (now_milli now : ℕ)
        → IsContiguous d scope a n
        → let seq = a + n + 1 in
          let sent = record msg { sent_at = now_milli; seq = seq } in
          (e : Db) × (enqueue_ws_message scope (some msg) ref_id now_milli now (calm d)
            ≡ (ok (seq, sent), calm e))
          × IsContiguous e scope a (suc n)
          × (decode_ws_outbox_message (message_of scope seq (look e (message_key scope seq)))
              ≡ ok sent)
    unfolding enqueue_ws_message decode_ws_outbox_message ◌>>=◌
    enqueue-decode d scope a n msg ref_id now_milli now h =
        let stamped = record msg { sent_at = now_milli } in
        let (e, ran, kept, last) =
          append_ws_outbox-IsContiguous d scope a n msg.type ref_id (json_message stamped) now h in
        (
          e,
          rw ran refl,
          kept,
          ap decode_ws_outbox_message last ∙ rw (parse-json_message stamped) refl,
        )
