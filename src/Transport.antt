-- ===== src/Transport.antt =====
-- internal/transport/chunks.go: a payload that is larger than the chunk size travels in chunks.
pub mod Bounds
pub mod Cover
pub mod Outgoing
pub mod Flush
use relayra.Prelude.{
  ℕ, ◌+◌, ◌-◌, ◌*◌, ◌/◌, String, Bool, ◌||◌, List, ℤ, pos, ltb_ℤ, ltb, ◌==◌, if◌then◌else◌, length,
  take, drop, min, not,
}
use relayra.Errors.{Error, bad_chunk_size, chunk_out_of_range, Result, ok, err}
use relayra.Models.{
  RelayRequest, RelayResult, TransportChunk, kind_request, kind_result, request_transfer_id,
  result_transfer_id,
}
use relayra.Codec.{Codec, Bytes}

-- `(len(data) + chunkSize - 1) / chunkSize`, and 1 where that is 0
unfoldable pub total_chunks : ℕ → ℕ → ℕ
total_chunks len chunk_size =
    let total = (len + chunk_size - 1) / chunk_size in if total == 0 then 1 else total

-- `data[start:end]` of the chunk at an index, `end` cut at the length
unfoldable pub chunk_bytes : Bytes → ℕ → ℕ → Bytes
chunk_bytes content chunk_size index =
    let start = index * chunk_size in
    let end = min (start + chunk_size) (length content) in take (end - start) (drop start content)

module _ ⦃C : Codec⦄ where
  open C use {json_request, json_result, base64, sha256_hex}

  unfoldable pub request_payload : RelayRequest → Bytes
  request_payload req = json_request req

  unfoldable pub result_payload : RelayResult → Bytes
  result_payload result = json_result result

  unfoldable pub request_needs_chunking : RelayRequest → ℕ → Bool × ℕ
  unfolding request_payload
  request_needs_chunking req chunk_size =
      let size = length (request_payload req) in (ltb chunk_size size, size)

  unfoldable pub result_needs_chunking : RelayResult → ℕ → Bool × ℕ
  unfolding result_payload
  result_needs_chunking result chunk_size =
      let size = length (result_payload result) in (ltb chunk_size size, size)

  -- the envelope that both `…ChunkAt` fill, at an index that is known to be in range
  abbrev envelope : String → String → String → Bytes → ℕ → ℤ → ℕ → TransportChunk
  envelope transfer_id request_id kind content chunk_size index at = record {
    transfer_id = transfer_id;
    request_id = request_id;
    kind = kind;
    index = index;
    total = pos (total_chunks (length content) chunk_size);
    payload = base64 (chunk_bytes content chunk_size at);
    checksum = sha256_hex content;
    total_size = pos (length content);
  }

  abbrev at_index : String → String → String → Bytes → ℕ → ℤ → Result TransportChunk
  at_index transfer_id request_id kind content chunk_size (pos i) =
      if not (ltb i (total_chunks (length content) chunk_size))
      then err chunk_out_of_range
      else ok (envelope transfer_id request_id kind content chunk_size (pos i) i)
  at_index transfer_id request_id kind content chunk_size index = err chunk_out_of_range

  unfoldable pub request_chunk_at : RelayRequest → ℕ → ℤ → Result TransportChunk
  unfolding request_payload
  request_chunk_at req chunk_size index =
      if ltb chunk_size 1
      then err bad_chunk_size
      else at_index (request_transfer_id req.id) req.id kind_request (request_payload req)
          chunk_size index

  unfoldable pub result_chunk_at : RelayResult → ℕ → ℤ → Result TransportChunk
  unfolding result_payload
  result_chunk_at result chunk_size index =
      if ltb chunk_size 1
      then err bad_chunk_size
      else at_index (result_transfer_id result.request_id) result.request_id kind_result
          (result_payload result) chunk_size index
