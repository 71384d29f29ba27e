-- ===== src/Tests/Chunks.antt =====
-- The theorems of Transport and Store/Chunks at concrete inputs.
use relayra.Prelude.{
  ℕ, ◌*◌, ◌≤◌, ◌≡◌, refl, List, [], ◌∷◌, none, some, pos, false, length, arith, eq_refl,
}
use relayra.Errors.{ok}
use relayra.Models.{RelayRequest, TransportChunk, queued, kind_request, kind_result, RelayResult}
use relayra.Codec.{Bytes}
use relayra.Transport.{total_chunks}
use relayra.Transport.Bounds.{total_chunks_bounds}
use relayra.Transport.Cover.{first_chunks, chunks_cover}
use relayra.Redis.Keys
use relayra.Redis.Keys.{key}
use relayra.Redis.Objects.{absent, hash, assign, text, number, integer, bytes}
use relayra.Redis.Actions.{calm, ◌>>=◌}
use relayra.Store.Chunks.{
  store_inbound_chunk, store_inbound_result_chunk, receipt_at, reset_receipt,
}
use relayra.Store.Chunks.Transfer.{
  payload, total, sent, transfer_key, HasPrefix, send_first, request_transfer, duplicate_chunk,
  skipped_chunk,
}
use relayra.Store.Chunks.Integrity.{
  Checked, store_inbound_chunk-Checked, CheckedResult, store_inbound_result_chunk-CheckedResult,
}
use relayra.Tests.Memory.{Memory, empty, memory}
use relayra.Tests.Encodings.{codec}

total_chunks_bounds_example : (1 ≤ total_chunks 7 3) × (7 ≤ total_chunks 7 3 * 3)
total_chunks_bounds_example = total_chunks_bounds 7 3 (omega arith)

abbrev three_bytes : List ℕ
three_bytes = 5 ∷ 6 ∷ 7 ∷ []

chunks_cover_example :
    first_chunks three_bytes 2 (total_chunks (length three_bytes) 2) ≡ three_bytes
chunks_cover_example = chunks_cover three_bytes 2 (omega arith)

abbrev pub a_request : RelayRequest
a_request = record {
  id = "r1";
  destination_id = "p1";
  webhook_url = "";
  async = false;
  request = record { url = "http://u"; method = "GET"; headers = []; body = "" };
  status = queued;
  created_at = 5;
}

request_transfer_example :
    (e : Memory) × (send_first a_request 4 60 100 (total a_request 4 60 100) (calm empty)
      ≡ (ok (some a_request), calm e))
    × (e (transfer_key a_request 4 60 100) ≡ absent)
request_transfer_example = request_transfer a_request 4 60 100 (omega arith) (λ e. cc e) empty refl

-- two chunks have been taken
abbrev two_taken : Memory
two_taken _ = hash (
    assign (λ _. none)
      ((Keys.next_index, number 2)
        ∷ (Keys.assembled, bytes (first_chunks (payload a_request 4 60 100) 4 2))
        ∷ (Keys.checksum, text (codec.sha256_hex (payload a_request 4 60 100)))
        ∷ (Keys.total, integer (pos (total a_request 4 60 100)))
        ∷ []))

duplicate_chunk_example :
    (e : Memory) × (store_inbound_chunk (sent a_request 4 60 100 0) 60 100 (calm two_taken)
      ≡ (ok (receipt_at (sent a_request 4 60 100 0) 2, none), calm e))
    × HasPrefix a_request 4 60 100 e 2
    × (e (key Keys.request "r") ≡ two_taken (key Keys.request "r"))
duplicate_chunk_example =
    duplicate_chunk a_request 4 60 100 (omega arith) (λ e. cc e) two_taken 2 0
      (key Keys.request "r") refl (omega arith) refl refl

skipped_chunk_example :
    (e : Memory) × (store_inbound_chunk (sent a_request 4 60 100 3) 60 100 (calm two_taken)
      ≡ (ok (reset_receipt (sent a_request 4 60 100 3) "out-of-order chunk index", none), calm e))
    × (e (transfer_key a_request 4 60 100) ≡ absent)
skipped_chunk_example =
    skipped_chunk a_request 4 60 100 (omega arith) (λ e. cc e) two_taken 2 3 refl (omega arith)

-- a request in one chunk
abbrev whole : TransportChunk
whole = record {
  transfer_id = "t";
  request_id = "r1";
  kind = kind_request;
  index = pos 0;
  total = pos 1;
  payload = codec.base64 (payload a_request 4 60 100);
  checksum = codec.sha256_hex (payload a_request 4 60 100);
  total_size = pos (length (payload a_request 4 60 100));
}

whole_taken :
    (store_inbound_chunk whole 60 100 (calm empty)).0 ≡ ok (receipt_at whole 1, some a_request)
unfolding store_inbound_chunk ◌>>=◌
whole_taken = ground (
  arith,
  codec.from-base64 (payload a_request 4 60 100),
  codec.parse-json_request a_request,
  eq_refl (codec.sha256_hex (payload a_request 4 60 100)),
)

store_inbound_chunk-Checked_example : (bytes : Bytes) × Checked whole a_request bytes
store_inbound_chunk-Checked_example =
    store_inbound_chunk-Checked whole 60 100 (calm empty) {receipt = receipt_at whole 1}
      {req = a_request} whole_taken

abbrev pub a_result : RelayResult
a_result = record {
  request_id = "r1";
  status_code = 200;
  headers = [];
  body = "";
  error = "";
  duration = 1;
  executed_at = 9;
}

abbrev result_bytes : Bytes
result_bytes = codec.json_result a_result

-- a result in one chunk
abbrev whole_result : TransportChunk
whole_result = record {
  transfer_id = "t";
  request_id = "r1";
  kind = kind_result;
  index = pos 0;
  total = pos 1;
  payload = codec.base64 result_bytes;
  checksum = codec.sha256_hex result_bytes;
  total_size = pos (length result_bytes);
}

whole_result_taken :
    (store_inbound_result_chunk whole_result 60 100 (calm empty)).0 ≡ ok (some a_result)
unfolding store_inbound_result_chunk ◌>>=◌
whole_result_taken = ground (
  arith,
  codec.from-base64 result_bytes,
  codec.parse-json_result a_result,
  eq_refl (codec.sha256_hex result_bytes),
)

store_inbound_result_chunk-CheckedResult_example :
    (bytes : Bytes) × CheckedResult whole_result a_result bytes
store_inbound_result_chunk-CheckedResult_example =
    store_inbound_result_chunk-CheckedResult whole_result 60 100 (calm empty) {result = a_result}
      whole_result_taken
