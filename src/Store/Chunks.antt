-- ===== src/Store/Chunks.antt =====
-- internal/store/redis_chunks.go: chunks are put together as they arrive, and each is answered with
-- a receipt that says which chunk comes next.
mod Assembly
pub mod Transfer
pub mod Integrity
pub mod Frame
use relayra.Prelude.{
  ℕ, zero, suc, ◌+◌, String, ◌≡◌, Bool, true, false, ◌&&◌, ◌||◌, not, Option, none, some, List, [],
  ◌∷◌, ◌++◌, ℤ, pos, ltb_ℤ, eq_ℤ, ◌==ₛ◌, if◌then◌else◌, length,
}
use relayra.Errors.{
  Error, chunk_ids_required, result_checksum_changed, result_total_changed, result_out_of_order,
  invalid_result_chunk, result_size_mismatch, result_checksum_mismatch, invalid_result,
}
use relayra.Models.{RelayRequest, RelayResult, TransportChunk, ChunkReceipt, ChunkCursor}
use relayra.Codec.{Codec, Bytes}
use relayra.Redis.{Redis, pipeline}
use relayra.Redis.Keys.{Key, key, the}
use relayra.Redis.Keys
use relayra.Redis.Objects.{
  Object, absent, Command, Value, text, number, integer, flag, bytes, named, hset, del, sadd, srem,
  expire, Hash, fields, exists, set_of, Member,
}
use relayra.Redis.Actions.{Exec, pure, raise, read, read_or, batch, attempt, ◌>>=◌, ◌>>◌}
use relayra.Store.Reads.{text_of, number_of, integer_of, flag_of, bytes_of}

-- what `HGetAll` of the transfer's state gives, with the defaults for an empty answer
pub record Partial : Type 0 where
  pub next_index : ℕ
  pub assembled : Bytes
  pub checksum : String  -- "" where it is not set
  pub total : Option ℤ

abbrev pub stored_total : Option Value → Option ℤ
stored_total (some (integer n)) = some n
stored_total _ = none

abbrev pub partial_of : Object → Partial
partial_of o = record {
  next_index = number_of (fields o Keys.next_index);
  assembled = bytes_of (fields o Keys.assembled);
  checksum = text_of (fields o Keys.checksum);
  total = stored_total (fields o Keys.total);
}

-- `state["checksum"] != "" && state["checksum"] != chunk.Checksum`
abbrev pub checksum_changed : Partial → TransportChunk → Bool
checksum_changed p chunk = not (p.checksum ==ₛ "") && not (p.checksum ==ₛ chunk.checksum)

abbrev pub total_differs : Option ℤ → ℤ → Bool
total_differs none t = false
total_differs (some n) t = not (eq_ℤ n t)

abbrev pub total_changed : Partial → TransportChunk → Bool
total_changed p chunk = total_differs p.total chunk.total

-- `nextIndex >= chunk.Total`
abbrev pub reaches : ℕ → ℤ → Bool
reaches n total = not (ltb_ℤ (pos n) total)

abbrev pub inbound_key : String → Key
inbound_key transfer_id = key Keys.inbound_chunk transfer_id

-- the commands of `queueChunkReceipt`
abbrev pub queue_chunk_receipt : ChunkReceipt → List Command
queue_chunk_receipt receipt =
    sadd (the Keys.chunk_receipts) (named receipt.transfer_id)
    ∷ hset (key Keys.chunk_receipt receipt.transfer_id) (
        (Keys.request_id, text receipt.request_id)
        ∷ (Keys.next_index, integer receipt.next_index)
        ∷ (Keys.completed, flag receipt.completed)
        ∷ (Keys.reset, flag receipt.reset)
        ∷ (Keys.error, text receipt.error)
        ∷ [])
    ∷ []

-- the commands that write the state of a transfer
abbrev pub save_chunk : TransportChunk → ℕ → Bytes → ℕ → ℕ → List Command
save_chunk chunk next_index assembled ttl now =
    hset (inbound_key chunk.transfer_id) (
      (Keys.request_id, text chunk.request_id)
      ∷ (Keys.kind, text chunk.kind)
      ∷ (Keys.next_index, number next_index)
      ∷ (Keys.total, integer chunk.total)
      ∷ (Keys.checksum, text chunk.checksum)
      ∷ (Keys.total_size, integer chunk.total_size)
      ∷ (Keys.assembled, bytes assembled)
      ∷ (Keys.updated_at, number now)
      ∷ [])
    ∷ expire (inbound_key chunk.transfer_id) ttl
    ∷ []

abbrev pub receipt_at : TransportChunk → ℕ → ChunkReceipt
receipt_at chunk next_index = record {
  transfer_id = chunk.transfer_id;
  request_id = chunk.request_id;
  next_index = pos next_index;
  completed = reaches next_index chunk.total;
  reset = false;
  error = "";
}

abbrev pub reset_receipt : TransportChunk → String → ChunkReceipt
reset_receipt chunk reason = record {
  transfer_id = chunk.transfer_id;
  request_id = chunk.request_id;
  next_index = pos 0;
  completed = false;
  reset = true;
  error = reason;
}

module _ ⦃R : Redis⦄ where
  open R use {Db, look}

  store_chunk_receipt : ChunkReceipt → Exec Db (Unit {0})
  store_chunk_receipt receipt = pipeline (queue_chunk_receipt receipt)

  reset_inbound_chunk : TransportChunk → String → Exec Db (ChunkReceipt × Option RelayRequest)
  reset_inbound_chunk chunk reason = do
    pipeline
        (del (inbound_key chunk.transfer_id) ∷ queue_chunk_receipt (reset_receipt chunk reason))
    pure (reset_receipt chunk reason, none)

  module _ ⦃C : Codec⦄ where
    open C use {from_base64, sha256_hex, parse_request, parse_result}

    -- the part of `StoreInboundChunk` after the chunk has been appended
    pub accept_chunk :
        TransportChunk → ℕ → Bytes → ℕ → ℕ → Exec Db (ChunkReceipt × Option RelayRequest)
    unfolding reset_inbound_chunk
    accept_chunk chunk next_index assembled ttl now =
        let save = save_chunk chunk next_index assembled ttl now in
        let receipt = receipt_at chunk next_index in
        if ltb_ℤ (pos next_index) chunk.total
        then (do pipeline (save ++ queue_chunk_receipt receipt); pure (receipt, none))
        else if not (eq_ℤ (pos (length assembled)) chunk.total_size)
        then reset_inbound_chunk chunk "reassembled payload size mismatch"
        else if not (sha256_hex assembled ==ₛ chunk.checksum)
        then reset_inbound_chunk chunk "reassembled payload checksum mismatch"
        else elim (parse_request assembled) [
          | none ↦ reset_inbound_chunk chunk "invalid reassembled request payload"
          | some req ↦ do
            pipeline
                (save ++ (queue_chunk_receipt receipt ++ del (inbound_key chunk.transfer_id) ∷ []))
            pure (receipt, some req)
        ]

    -- the part of `StoreInboundChunk` after the state of the transfer has been read
    pub place_chunk :
        TransportChunk → ℕ → ℕ → Partial → Exec Db (ChunkReceipt × Option RelayRequest)
    unfolding accept_chunk store_chunk_receipt
    place_chunk chunk ttl now p =
        if checksum_changed p chunk
        then reset_inbound_chunk chunk "checksum changed"
        else if total_changed p chunk
        then reset_inbound_chunk chunk "chunk total changed"
        else if ltb_ℤ chunk.index (pos p.next_index)
        then (do
          store_chunk_receipt (receipt_at chunk p.next_index)
          pure (receipt_at chunk p.next_index, none))
        else if ltb_ℤ (pos p.next_index) chunk.index
        then reset_inbound_chunk chunk "out-of-order chunk index"
        else elim (from_base64 chunk.payload) [
          | none ↦ reset_inbound_chunk chunk "invalid chunk payload"
          | some payload ↦ accept_chunk chunk (p.next_index + 1) (p.assembled ++ payload) ttl now
        ]

    unfoldable pub store_inbound_chunk :
        TransportChunk → ℕ → ℕ → Exec Db (ChunkReceipt × Option RelayRequest)
    unfolding place_chunk
    store_inbound_chunk chunk ttl now =
        if chunk.transfer_id ==ₛ "" || chunk.request_id ==ₛ "" then raise chunk_ids_required else do
          state ← read (λ d. look d (inbound_key chunk.transfer_id))
          place_chunk chunk ttl now (partial_of state)

    -- `r.Client.Del(ctx, stateKey)`, its error dropped, and an error of the code's own
    discard : TransportChunk → Error → Exec Db (Option RelayResult)
    discard chunk e = do attempt (pipeline (del (inbound_key chunk.transfer_id) ∷ [])); raise e

    accept_result_chunk : TransportChunk → ℕ → Bytes → ℕ → ℕ → Exec Db (Option RelayResult)
    unfolding discard
    accept_result_chunk chunk next_index assembled ttl now =
        let save = save_chunk chunk next_index assembled ttl now in
        if ltb_ℤ (pos next_index) chunk.total
        then (do pipeline save; pure none)
        else if not (eq_ℤ (pos (length assembled)) chunk.total_size)
        then discard chunk result_size_mismatch
        else if not (sha256_hex assembled ==ₛ chunk.checksum)
        then discard chunk result_checksum_mismatch
        else elim (parse_result assembled) [
          | none ↦ discard chunk invalid_result
          | some result ↦ do
            pipeline (save ++ del (inbound_key chunk.transfer_id) ∷ [])
            pure (some result)
        ]

    place_result_chunk : TransportChunk → ℕ → ℕ → Partial → Exec Db (Option RelayResult)
    unfolding accept_result_chunk
    place_result_chunk chunk ttl now p =
        if checksum_changed p chunk
        then discard chunk result_checksum_changed
        else if total_changed p chunk
        then discard chunk result_total_changed
        else if ltb_ℤ chunk.index (pos p.next_index)
        then pure none
        else if ltb_ℤ (pos p.next_index) chunk.index
        then discard chunk result_out_of_order
        else elim (from_base64 chunk.payload) [
          | none ↦ raise invalid_result_chunk
          | some payload ↦
              accept_result_chunk chunk (p.next_index + 1) (p.assembled ++ payload) ttl now
        ]

    -- chunk 0 begins a new attempt: what an earlier one left is dropped
    begin_transfer : TransportChunk → Exec Db (Unit {0})
    begin_transfer chunk =
        if eq_ℤ chunk.index (pos 0)
        then attempt (pipeline (del (inbound_key chunk.transfer_id) ∷ []))
        else pure tt

    unfoldable pub store_inbound_result_chunk :
        TransportChunk → ℕ → ℕ → Exec Db (Option RelayResult)
    unfolding place_result_chunk begin_transfer
    store_inbound_result_chunk chunk ttl now = do
      begin_transfer chunk
      state ← read (λ d. look d (inbound_key chunk.transfer_id))
      place_result_chunk chunk ttl now (partial_of state)

  abbrev receipt_of : String → Object → ChunkReceipt
  receipt_of transfer_id o = record {
    transfer_id = transfer_id;
    request_id = text_of (fields o Keys.request_id);
    next_index = integer_of (fields o Keys.next_index);
    completed = flag_of (fields o Keys.completed);
    reset = flag_of (fields o Keys.reset);
    error = text_of (fields o Keys.error);
  }

  abbrev keep_receipt : String → Object → List ChunkReceipt → List ChunkReceipt
  keep_receipt id o rest = if exists o then receipt_of id o ∷ rest else rest

  -- the loop of `ListChunkReceipts`
  receipts_from : List Member → Exec Db (List ChunkReceipt)
  receipts_from [] = pure []
  receipts_from (named id ∷ ids) = do
    o ← read_or absent (λ d. look d (key Keys.chunk_receipt id))
    rest ← receipts_from ids
    pure (keep_receipt id o rest)
  receipts_from (_ ∷ ids) = receipts_from ids

  unfoldable pub list_chunk_receipts : Exec Db (List ChunkReceipt)
  unfolding receipts_from
  list_chunk_receipts = do
    ids ← read (λ d. set_of (look d (the Keys.chunk_receipts)))
    receipts_from ids

  unfoldable pub delete_chunk_receipt : String → Exec Db (Unit {0})
  delete_chunk_receipt transfer_id = pipeline (
      srem (the Keys.chunk_receipts) (named transfer_id)
      ∷ del (key Keys.chunk_receipt transfer_id)
      ∷ [])

  unfoldable pub apply_chunk_receipt : ChunkReceipt → ℕ → Exec Db (Unit {0})
  apply_chunk_receipt receipt now =
      let next_index = if receipt.reset then pos 0 else receipt.next_index in
      pipeline (
        hset (key Keys.chunk_cursor receipt.transfer_id) (
          (Keys.request_id, text receipt.request_id)
          ∷ (Keys.next_index, integer next_index)
          ∷ (Keys.updated_at, number now)
          ∷ [])
        ∷ [])

  abbrev cursor_of : String → Object → Option ChunkCursor
  cursor_of transfer_id o =
      if exists o
      then some (record {
        transfer_id = transfer_id;
        request_id = text_of (fields o Keys.request_id);
        next_index = integer_of (fields o Keys.next_index);
        updated_at = number_of (fields o Keys.updated_at);
      })
      else none

  unfoldable pub get_chunk_cursor : String → Exec Db (Option ChunkCursor)
  get_chunk_cursor transfer_id =
      read_or none (λ d. cursor_of transfer_id (look d (key Keys.chunk_cursor transfer_id)))

  unfoldable pub delete_chunk_cursor : String → Exec Db (Unit {0})
  delete_chunk_cursor transfer_id = pipeline (del (key Keys.chunk_cursor transfer_id) ∷ [])
