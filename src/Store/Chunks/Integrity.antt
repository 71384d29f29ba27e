-- ===== src/Store/Chunks/Integrity.antt =====
-- internal/store/redis_chunks.go: the checks of `StoreInboundChunk` and
-- `StoreInboundResultChunk`.
use relayra.Prelude.{
  ℕ, ◌≡◌, Option, none, some, pos, length, arith, Option-cases, inl, inr, ◌+◌, ◌++◌, eq_iff,
}
use relayra.Errors.{ok, err, Result}
use relayra.Models.{RelayResult, RelayRequest, TransportChunk, ChunkReceipt}
use relayra.Codec.{Codec, Bytes}
use relayra.Redis.{Redis}
use relayra.Redis.Actions.{
  Outcome, answered, cut, read, answer, continue, next_outcome, State, later, ◌>>=◌,
}
use relayra.Store.Chunks.{
  Partial, partial_of, place_chunk, store_inbound_chunk, accept_chunk, accept_result_chunk,
  place_result_chunk, discard, begin_transfer, store_inbound_result_chunk, inbound_key,
}

module _ ⦃R : Redis⦄ ⦃C : Codec⦄ where
  open R use {Db, look}
  open C use {from_base64, parse_request, parse_result, sha256_hex}

  -- a payload that the checks of a chunk let through
  pub record Checked (chunk : TransportChunk) (req : RelayRequest) (payload : Bytes) : Type 0 where
    pub parses : parse_request payload ≡ some req
    pub sized : pos (length payload) ≡ chunk.total_size
    pub sealed : sha256_hex payload ≡ chunk.checksum

  abbrev payload_of : Partial → Option Bytes → Bytes
  payload_of p none = p.assembled
  payload_of p (some b) = p.assembled ++ b

  accept-Checked :
      (chunk : TransportChunk) (n : ℕ) (payload : Bytes) (ttl now : ℕ) (s : State Db)
      {receipt : ChunkReceipt} {req : RelayRequest}
      → (accept_chunk chunk n payload ttl now s).0 ≡ ok (receipt, some req)
      → Checked chunk req payload
  unfolding accept_chunk ◌>>=◌
  accept-Checked chunk n payload ttl now s h =
      ground (arith, eq_iff (sha256_hex payload) chunk.checksum)

  place-Checked :
      (chunk : TransportChunk) (ttl now : ℕ) (p : Partial) (s : State Db) {receipt : ChunkReceipt}
      {req : RelayRequest}
      → (place_chunk chunk ttl now p s).0 ≡ ok (receipt, some req)
      → Checked chunk req (payload_of p (from_base64 chunk.payload))
  unfolding place_chunk ◌>>=◌
  place-Checked chunk ttl now p s {receipt} {req} h =
      elim (Option-cases (from_base64 chunk.payload)) [
        | inl e ↦ absurd (ground (arith, e))
        | inr (b, e) ↦ rw e (
            ground (
              arith,
              e,
              accept-Checked chunk (p.next_index + 1) (p.assembled ++ b) ttl now s
                  {receipt = receipt} {req = req},
            ))
      ]

  -- A request that the store hands on was parsed from bytes that have the size and the checksum
  -- that its last chunk names, whatever the chunk, the state of the database and the failures.
  pub store_inbound_chunk-Checked :
      (chunk : TransportChunk) (ttl now : ℕ) (s : State Db) {receipt : ChunkReceipt}
      {req : RelayRequest}
      → (store_inbound_chunk chunk ttl now s).0 ≡ ok (receipt, some req)
      → (payload : Bytes) × Checked chunk req payload
  unfolding store_inbound_chunk ◌>>=◌
  store_inbound_chunk-Checked chunk ttl now s {receipt} {req} h =
      let p = partial_of (look s.db (inbound_key chunk.transfer_id)) in
      (
        payload_of p (from_base64 chunk.payload),
        ground (
          arith,
          place-Checked chunk ttl now p (record s { net = later s.net }) {receipt = receipt}
              {req = req},
        ),
      )

  -- a payload that the checks of a result's chunk let through
  pub record CheckedResult (chunk : TransportChunk) (result : RelayResult) (payload : Bytes)
      : Type 0 where
    pub parses : parse_result payload ≡ some result
    pub sized : pos (length payload) ≡ chunk.total_size
    pub sealed : sha256_hex payload ≡ chunk.checksum

  accept-CheckedResult :
      (chunk : TransportChunk) (n : ℕ) (payload : Bytes) (ttl now : ℕ) (s : State Db)
      {result : RelayResult}
      → (accept_result_chunk chunk n payload ttl now s).0 ≡ ok (some result)
      → CheckedResult chunk result payload
  unfolding accept_result_chunk discard ◌>>=◌
  accept-CheckedResult chunk n payload ttl now s h =
      ground (arith, eq_iff (sha256_hex payload) chunk.checksum)

  place-CheckedResult :
      (chunk : TransportChunk) (ttl now : ℕ) (p : Partial) (s : State Db) {result : RelayResult}
      → (place_result_chunk chunk ttl now p s).0 ≡ ok (some result)
      → CheckedResult chunk result (payload_of p (from_base64 chunk.payload))
  unfolding place_result_chunk discard ◌>>=◌
  place-CheckedResult chunk ttl now p s {result} h =
      elim (Option-cases (from_base64 chunk.payload)) [
        | inl e ↦ absurd (ground (arith, e))
        | inr (b, e) ↦ rw e (
            ground (
              arith,
              e,
              accept-CheckedResult chunk (p.next_index + 1) (p.assembled ++ b) ttl now s
                  {result = result},
            ))
      ]

  read-CheckedResult :
      (chunk : TransportChunk) (ttl now : ℕ) (d : Db) (s : State Db) (o : Outcome)
      {result : RelayResult}
      → (continue
          (answer o (look d (inbound_key chunk.transfer_id)))
          (λ state. place_result_chunk chunk ttl now (partial_of state))
          s).0
        ≡ ok (some result)
      → (payload : Bytes) × CheckedResult chunk result payload
  read-CheckedResult chunk ttl now d s (cut n) h = absurd (cc h)
  read-CheckedResult chunk ttl now d s answered h =
      let p = partial_of (look d (inbound_key chunk.transfer_id)) in
      (payload_of p (from_base64 chunk.payload), place-CheckedResult chunk ttl now p s h)

  begin-CheckedResult :
      (chunk : TransportChunk) (ttl now : ℕ) (begun : Result (Unit {0})) (s : State Db)
      {result : RelayResult}
      → (continue begun
          (λ _.
            read (λ d. look d (inbound_key chunk.transfer_id))
            >>= (λ state. place_result_chunk chunk ttl now (partial_of state)))
          s).0
        ≡ ok (some result)
      → (payload : Bytes) × CheckedResult chunk result payload
  unfolding ◌>>=◌
  begin-CheckedResult chunk ttl now (err e) s h = absurd (cc h)
  begin-CheckedResult chunk ttl now (ok _) s h =
      read-CheckedResult chunk ttl now s.db (record s { net = later s.net }) (next_outcome s.net) h

  -- A result that the store hands on was parsed from bytes that have the size and the checksum
  -- that its last chunk names, whatever the chunk, the state of the database and the failures.
  pub store_inbound_result_chunk-CheckedResult :
      (chunk : TransportChunk) (ttl now : ℕ) (s : State Db) {result : RelayResult}
      → (store_inbound_result_chunk chunk ttl now s).0 ≡ ok (some result)
      → (payload : Bytes) × CheckedResult chunk result payload
  unfolding store_inbound_result_chunk ◌>>=◌
  store_inbound_result_chunk-CheckedResult chunk ttl now s h =
      let (begun, s') = begin_transfer chunk s in begin-CheckedResult chunk ttl now begun s' h
