-- ===== src/Tests/Outbox.antt =====
-- The theorems of Store/Outbox at concrete inputs.
use relayra.Prelude.{◌≡◌, refl, [], ◌∷◌, ap, arith}
use relayra.Errors.{ok}
use relayra.Models.{WsType}
use relayra.Redis.Actions.{calm, run_all}
use relayra.Redis.Objects.{rank, unrank}
use relayra.Store.Outbox.{
  append_ws_outbox, list_ws_outbox, ack_ws_outbox_through, reset_ws_outbox, message_of, message_key,
  append_script,
}
use relayra.Store.Outbox.Contiguous.{IsContiguous, append_ws_outbox-IsContiguous}
use relayra.Store.Outbox.Gaps.{Consecutive, list_ws_outbox-Consecutive}
use relayra.Store.Outbox.Repair.{
  messages, list_ws_outbox-messages, reset_ws_outbox-IsContiguous, reset-append-list,
}
use relayra.Store.Outbox.Ack.{ack_ws_outbox_through-IsContiguous}
use relayra.Tests.Memory.{Memory, empty, memory}

abbrev pub two_messages : Memory
two_messages =
    let d1 = run_all memory.write (append_script "s" WsType.push_request "r1" [] 5 empty).0 empty in
    run_all memory.write (append_script "s" WsType.push_request "r2" [] 6 d1).0 d1

pub two_messages-IsContiguous : IsContiguous two_messages "s" 0 2
unfolding rank unrank
two_messages-IsContiguous = record { index = refl; counter = refl; stored = (refl, (refl, tt)) }

append_ws_outbox-IsContiguous_example :
    (e : Memory) × (append_ws_outbox "s" WsType.push_request "r3" [] 7 (calm two_messages)
      ≡ (ok 3, calm e))
    × IsContiguous e "s" 0 3
    × (message_of "s" 3 (e (message_key "s" 3)) ≡ record {
      scope = "s";
      seq = 3;
      type = WsType.push_request;
      ref_id = "r3";
      payload = [];
      created_at = 7;
    })
append_ws_outbox-IsContiguous_example =
    append_ws_outbox-IsContiguous two_messages "s" 0 2 WsType.push_request "r3" [] 7
      two_messages-IsContiguous

list_ws_outbox-Consecutive_example : Consecutive 1 (messages two_messages "s" 0 2)
list_ws_outbox-Consecutive_example =
    list_ws_outbox-Consecutive "s" 0 10 (calm two_messages) (messages two_messages "s" 0 2) (
      ap (λ r. r.0)
        (list_ws_outbox-messages two_messages "s" 0 2 10 (omega arith) two_messages-IsContiguous))

list_ws_outbox-messages_example :
    list_ws_outbox "s" 0 1 (calm two_messages)
    ≡ (ok (messages two_messages "s" 0 1), calm two_messages)
list_ws_outbox-messages_example =
    list_ws_outbox-messages two_messages "s" 0 2 1 (omega arith) two_messages-IsContiguous

reset_ws_outbox-IsContiguous_example :
    (e : Memory) × (reset_ws_outbox "s" 9 7 (calm two_messages) ≡ (ok tt, calm e))
    × IsContiguous e "s" 9 0
reset_ws_outbox-IsContiguous_example = reset_ws_outbox-IsContiguous two_messages "s" 9 7

reset-append-list_example :
    (e : Memory) × (f : Memory) × (reset_ws_outbox "s" 9 7 (calm two_messages) ≡ (ok tt, calm e))
    × (append_ws_outbox "s" WsType.push_request "r3" [] 8 (calm e) ≡ (ok 10, calm f))
    × (list_ws_outbox "s" 9 5 (calm f) ≡ (
      ok (
          record {
            scope = "s";
            seq = 10;
            type = WsType.push_request;
            ref_id = "r3";
            payload = [];
            created_at = 8;
          }
          ∷ []),
      calm f,
    ))
reset-append-list_example =
    reset-append-list two_messages "s" 9 7 5 WsType.push_request "r3" [] 8 (omega arith)

ack_ws_outbox_through-IsContiguous_example :
    (e : Memory) × (ack_ws_outbox_through "s" 1 (calm two_messages)
      ≡ (ok (messages two_messages "s" 0 1), calm e))
    × IsContiguous e "s" 1 1
ack_ws_outbox_through-IsContiguous_example =
    ack_ws_outbox_through-IsContiguous two_messages "s" 0 1 1 two_messages-IsContiguous
