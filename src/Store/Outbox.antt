-- ===== src/Store/Outbox.antt =====
-- internal/store/ws_outbox_redis.go: the durable queue of websocket messages of one scope. Each has
-- a sequence number; the receiver acknowledges them up to a number.
pub mod Contiguous
pub mod Gaps
pub mod Repair
pub mod Ack
pub mod Frame
use relayra.Prelude.{
  ℕ, zero, suc, ◌+◌, String, Bool, ◌&&◌, Option, none, some, List, [], ◌∷◌, ◌++◌, ltb, leb, ◌==◌,
  if◌then◌else◌, length,
}
use relayra.Errors.{Error, outbox_gap, ok}
use relayra.Models.{WsOutboxMessage, WsSequenceState, WsType}
use relayra.Codec.{Bytes}
use relayra.Redis.{Redis, pipeline, pipeline_if_any}
use relayra.Redis.Keys
use relayra.Redis.Keys.{Key, key, numbered_key}
use relayra.Redis.Objects.{
  Object, absent, Command, Value, text, number, bytes, ws_type, numbered, Member, hset, del, zadd,
  zrem, fields, exists, ranked,
}
use relayra.Redis.Actions.{Exec, pure, raise, read, read_or, batch, attempt, ◌>>=◌, ◌>>◌}
use relayra.Store.Reads.{text_of, number_of, bytes_of, type_of}

abbrev pub state_key : String → Key
state_key scope = key Keys.ws_state scope

abbrev pub index_key : String → Key
index_key scope = key Keys.ws_outbox_index scope

abbrev pub message_key : String → ℕ → Key
message_key scope seq = numbered_key Keys.ws_outbox_msg scope seq

-- the message's entry in the index, and the message
abbrev pub put_message : String → ℕ → WsType → String → Bytes → ℕ → List Command
put_message scope seq type ref_id payload now =
    zadd (index_key scope) seq (numbered seq)
    ∷ hset (message_key scope seq) (
        (Keys.scope, text scope)
        ∷ (Keys.seq, number seq)
        ∷ (Keys.msg_type, ws_type type)
        ∷ (Keys.ref_id, text ref_id)
        ∷ (Keys.payload, bytes payload)
        ∷ (Keys.created_at, number now)
        ∷ [])
    ∷ []

abbrev pub message_of : String → ℕ → Object → WsOutboxMessage
message_of scope seq o = record {
  scope = scope;
  seq = seq;
  type = type_of (fields o Keys.msg_type);
  ref_id = text_of (fields o Keys.ref_id);
  payload = bytes_of (fields o Keys.payload);
  created_at = number_of (fields o Keys.created_at);
}

-- `ZRangeByScore` above a score: the first members, at most `limit`
abbrev pub above : ℕ → ℕ → List (ℕ × Member) → List Member
above zero after xs = []
above (suc limit) after [] = []
above (suc limit) after ((score, m) ∷ xs) =
    let rest = above limit after xs in
    let skip = above (suc limit) after xs in if ltb after score then m ∷ rest else skip

-- `Count`: the client sends no limit where it is 0
abbrev pub page : ℕ → ℕ → List (ℕ × Member) → List Member
page limit after xs = above (if limit == 0 then length xs else limit) after xs

-- `ZRangeByScore` up to a score
abbrev pub up_to : ℕ → List (ℕ × Member) → List Member
up_to bound [] = []
up_to bound ((score, m) ∷ xs) =
    let rest = up_to bound xs in if leb score bound then m ∷ rest else rest

module _ ⦃R : Redis⦄ where
  open R use {Db, look, write}

  unfoldable pub next_ws_outbound_seq : String → ℕ → Exec Db ℕ
  next_ws_outbound_seq scope now = do
    next_seq ← batch write (λ d.
        let seq = number_of (fields (look d (state_key scope)) Keys.next_outbound_seq) + 1 in
        (hset (state_key scope) ((Keys.next_outbound_seq, number seq) ∷ []) ∷ [], seq))
    attempt (pipeline (hset (state_key scope) ((Keys.updated_at, number now) ∷ []) ∷ []))
    pure next_seq

  unfoldable pub enqueue_ws_outbox : String → ℕ → WsType → String → Bytes → ℕ → Exec Db (Unit {0})
  enqueue_ws_outbox scope seq type ref_id payload now =
      pipeline (put_message scope seq type ref_id payload now)

  -- the number that `HINCRBY` gives
  abbrev pub next_seq : Db → String → ℕ
  next_seq d scope = number_of (fields (look d (state_key scope)) Keys.next_outbound_seq) + 1

  -- the commands of `appendWSOutboxScript`
  abbrev pub append_script : String → WsType → String → Bytes → ℕ → Db → List Command × ℕ
  append_script scope type ref_id payload now d =
      let seq = next_seq d scope in
      (
        hset (state_key scope) ((Keys.next_outbound_seq, number seq) ∷ [])
            ∷ hset (state_key scope) ((Keys.updated_at, number now) ∷ [])
            ∷ put_message scope seq type ref_id payload now,
        seq,
      )

  unfoldable pub append_ws_outbox : String → WsType → String → Bytes → ℕ → Exec Db ℕ
  append_ws_outbox scope type ref_id payload now =
      batch write (append_script scope type ref_id payload now)

  -- the loop of `ListWSOutbox`
  list_from : String → ℕ → List Member → Exec Db (List WsOutboxMessage)
  list_from scope expected_seq [] = pure []
  list_from scope expected_seq (numbered seq ∷ members) =
      let rest = list_from scope (expected_seq + 1) members in
      if seq == expected_seq
      then (do
        o ← read_or absent (λ d. look d (message_key scope seq))
        if exists o
            then (do more ← rest; pure (message_of scope seq o ∷ more))
            else raise outbox_gap)
      else raise outbox_gap
  list_from scope expected_seq (_ ∷ members) = raise outbox_gap

  unfoldable pub list_ws_outbox : String → ℕ → ℕ → Exec Db (List WsOutboxMessage)
  unfolding list_from
  list_ws_outbox scope after_seq limit = do
    members ← read (λ d. page limit after_seq (ranked (look d (index_key scope))))
    list_from scope (after_seq + 1) members

  -- The loop of `AckWSOutboxThrough`: the messages that are there, and the commands of its pipeline.
  collect_acked : String → List Member → Exec Db (List WsOutboxMessage × List Command)
  collect_acked scope [] = pure ([], [])
  collect_acked scope (numbered seq ∷ members) = do
    o ← read (λ d. look d (message_key scope seq))
    (acked, commands) ← collect_acked scope members
    pure (
      if exists o then message_of scope seq o ∷ acked else acked,
      del (message_key scope seq) ∷ commands,
    )
  collect_acked scope (_ ∷ members) = collect_acked scope members

  abbrev pub zrem_all : Key → List Member → List Command
  zrem_all k [] = []
  zrem_all k (m ∷ ms) = zrem k m ∷ zrem_all k ms

  unfoldable pub ack_ws_outbox_through : String → ℕ → Exec Db (List WsOutboxMessage)
  unfolding collect_acked
  ack_ws_outbox_through scope seq = do
    members ← read (λ d. up_to seq (ranked (look d (index_key scope))))
    (acked, commands) ← collect_acked scope members
    pipeline_if_any (commands ++ zrem_all (index_key scope) members)
    pure acked

  abbrev pub sequence_state_of : String → Object → Option WsSequenceState
  sequence_state_of scope o =
      if exists o
      then some (record {
        scope = scope;
        next_outbound_seq = number_of (fields o Keys.next_outbound_seq);
        last_received_seq = number_of (fields o Keys.last_received_seq);
        updated_at = number_of (fields o Keys.updated_at);
      })
      else none

  unfoldable pub get_ws_sequence_state : String → Exec Db (Option WsSequenceState)
  get_ws_sequence_state scope =
      read_or none (λ d. sequence_state_of scope (look d (state_key scope)))

  unfoldable pub set_ws_last_received_seq : String → ℕ → ℕ → Exec Db (Unit {0})
  set_ws_last_received_seq scope seq now = do
    current ← read (λ d. number_of (fields (look d (state_key scope)) Keys.last_received_seq))
    pipeline (
        hset (state_key scope) (
          (Keys.last_received_seq, number (if ltb seq current then current else seq))
          ∷ (Keys.updated_at, number now)
          ∷ [])
        ∷ [])

  abbrev pub del_messages : String → List Member → List Command
  del_messages scope [] = []
  del_messages scope (numbered seq ∷ members) =
      del (message_key scope seq) ∷ del_messages scope members
  del_messages scope (_ ∷ members) = del_messages scope members

  abbrev pub index_members : List (ℕ × Member) → List Member
  index_members [] = []
  index_members ((_, m) ∷ xs) = m ∷ index_members xs

  abbrev pub reset_commands : String → ℕ → ℕ → List Member → List Command
  reset_commands scope next_outbound_seq now members =
      del_messages scope members
      ++ (del (index_key scope)
          ∷ hset (state_key scope) (
              (Keys.next_outbound_seq, number next_outbound_seq)
              ∷ (Keys.updated_at, number now)
              ∷ [])
          ∷ [])

  unfoldable pub reset_ws_outbox : String → ℕ → ℕ → Exec Db (Unit {0})
  reset_ws_outbox scope next_outbound_seq now = do
    members ← read (λ d. index_members (ranked (look d (index_key scope))))
    pipeline (reset_commands scope next_outbound_seq now members)
