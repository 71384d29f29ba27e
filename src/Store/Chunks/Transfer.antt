-- ===== src/Store/Chunks/Transfer.antt =====
-- internal/transport/chunks.go and internal/store/redis_chunks.go together: a request that is cut
-- at one node and put together at the other.
use relayra.Prelude.{
  ℕ, zero, suc, ◌+◌, ◌<◌, ◌≡◌, ◌≢◌, refl, ap, sym, ◌∙◌, false, ◌||◌, Option, none, some, [], ◌∷◌,
  ◌++◌, pos, ◌==ₛ◌, length, arith, eq_refl, eq_iff,
}
use relayra.Errors.{ok}
use relayra.Models.{
  RelayRequest, TransportChunk, ChunkReceipt, request_transfer_id, request_transfer_id-ne_empty,
  kind_request,
}
use relayra.Codec.{Codec, Bytes}
use relayra.Transport.{request_chunk_at, total_chunks, chunk_bytes}
use relayra.Transport.Bounds.{total_chunks_bounds}
use relayra.Transport.Cover.{first_chunks, chunks_cover}
use relayra.Redis.{Redis}
use relayra.Redis.Keys
use relayra.Redis.Keys.{Key, key, key_eq, the}
use relayra.Redis.Objects.{absent, del}
use relayra.Redis.Actions.{calm, Exec, pure, lift, ◌>>=◌, ◌>>◌, run_all}
use relayra.Store.Chunks.{
  Partial, partial_of, checksum_changed, total_changed, inbound_key, save_chunk,
  queue_chunk_receipt, receipt_at, reset_receipt, place_chunk, store_inbound_chunk,
}
use relayra.Store.Chunks.Assembly.{
  place-duplicate, place-skipped, place-middle, place-final, look-middle, look-final,
}

module _ ⦃R : Redis⦄ ⦃C : Codec⦄ (req : RelayRequest) (size ttl now : ℕ) where
  open R use {Db, look, write, look-write}
  open C use {
    json_request, base64, from-base64, from_base64, sha256_hex, parse_request, parse-json_request,
  }

  abbrev pub payload : Bytes
  payload = json_request req

  abbrev pub total : ℕ
  total = total_chunks (length payload) size

  abbrev pub transfer_key : Key
  transfer_key = inbound_key (request_transfer_id req.id)

  abbrev pub sent : ℕ → TransportChunk
  sent i = record {
    transfer_id = request_transfer_id req.id;
    request_id = req.id;
    kind = kind_request;
    index = pos i;
    total = pos total;
    payload = base64 (chunk_bytes payload size i);
    checksum = sha256_hex payload;
    total_size = pos (length payload);
  }

  -- what the receiver holds when it has the first `n` chunks
  abbrev pub expected : ℕ → Partial
  expected zero = record { next_index = 0; assembled = []; checksum = ""; total = none }
  expected (suc n) = record {
    next_index = suc n;
    assembled = first_chunks payload size (suc n);
    checksum = sha256_hex payload;
    total = some (pos total);
  }

  abbrev pub HasPrefix : Db → ℕ → Type 0
  HasPrefix d n = partial_of (look d transfer_key) ≡ expected n

  -- the sender cuts the next chunk, and the receiver takes it
  pub send : ℕ → Exec Db (Option RelayRequest)
  send n = do
    c ← lift (request_chunk_at req size (pos n))
    (_, r) ← store_inbound_chunk c ttl now
    pure r

  -- the first `n` chunks, in their order; the answer to the last
  pub send_first : ℕ → Exec Db (Option RelayRequest)
  send_first zero = pure none
  send_first (suc n) = do send_first n; send n

  module _ (sized : 0 < size) (named : req.id ≢ "") where
    request_chunk_at-sent : (i : ℕ) → i < total → request_chunk_at req size (pos i) ≡ ok (sent i)
    unfolding request_chunk_at
    request_chunk_at-sent i h = ground arith

    has_ids : (request_transfer_id req.id ==ₛ "" || req.id ==ₛ "") ≡ false
    has_ids = ground (
      arith,
      eq_iff (request_transfer_id req.id) "",
      eq_iff req.id "",
      request_transfer_id-ne_empty req.id,
    )

    checksum_kept : (n i : ℕ) → checksum_changed (expected n) (sent i) ≡ false
    checksum_kept zero i = refl
    checksum_kept (suc n) i = ground (arith, eq_refl (sha256_hex payload))

    total_kept : (n i : ℕ) → total_changed (expected n) (sent i) ≡ false
    total_kept zero i = refl
    total_kept (suc n) i = ground arith

    next_index-expected : (n : ℕ) → (expected n).next_index + 1 ≡ suc n
    next_index-expected zero = omega arith
    next_index-expected (suc n) = omega arith

    assembled-expected : (n : ℕ) → (expected n).assembled ≡ first_chunks payload size n
    assembled-expected zero = refl
    assembled-expected (suc n) = refl

    at_next : (n : ℕ) → n ≡ (expected n).next_index
    at_next zero = refl
    at_next (suc n) = refl

    -- `store_inbound_chunk`, once the state of the transfer is known
    store-place :
        (d : Db) (n i : ℕ)
        → HasPrefix d n
        → store_inbound_chunk (sent i) ttl now (calm d)
          ≡ place_chunk (sent i) ttl now (expected n) (calm d)
    unfolding store_inbound_chunk ◌>>=◌
    store-place d n i h = rw has_ids (ap (λ p. place_chunk (sent i) ttl now p (calm d)) h)

    send-store :
        (d e : Db) (n : ℕ) {r : ChunkReceipt} {o : Option RelayRequest}
        → n < total
        → store_inbound_chunk (sent n) ttl now (calm d) ≡ (ok (r, o), calm e)
        → send n (calm d) ≡ (ok o, calm e)
    unfolding send ◌>>=◌
    send-store d e n lt h = rw (request_chunk_at-sent n lt, h)

    send-middle :
        (d : Db) (n : ℕ)
        → HasPrefix d n
        → suc n < total
        → (e : Db) × (send n (calm d) ≡ (ok none, calm e)) × HasPrefix e (suc n)
    send-middle d n h lt =
        let c = sent n in
        let p = expected n in
        let b = chunk_bytes payload size n in
        (
          run_all write
              (save_chunk c (p.next_index + 1) (p.assembled ++ b) ttl now
                ++ queue_chunk_receipt (receipt_at c (p.next_index + 1)))
              d,
          send-store d _ n (omega arith) (
              store-place d n n h
              ∙ place-middle c ttl now p b d (checksum_kept n n) (total_kept n n)
                  (ap pos (at_next n)) (from-base64 b) (ground (arith, next_index-expected n))),
          look-middle c ttl now p b d ∙ ground (arith, next_index-expected n, assembled-expected n),
        )

    send-last :
        (d : Db) (n : ℕ)
        → HasPrefix d n
        → suc n ≡ total
        → (e : Db) × (send n (calm d) ≡ (ok (some req), calm e)) × (look e transfer_key ≡ absent)
    send-last d n h last =
        let c = sent n in
        let p = expected n in
        let b = chunk_bytes payload size n in
        let whole : p.assembled ++ b ≡ payload =
          rw (assembled-expected n)
            (ap (first_chunks payload size) last ∙ chunks_cover payload size sized) in
        (
          run_all write
              (save_chunk c (p.next_index + 1) (p.assembled ++ b) ttl now
                ++ (queue_chunk_receipt (receipt_at c (p.next_index + 1))
                    ++ del (inbound_key c.transfer_id) ∷ []))
              d,
          send-store d _ n (omega arith) (
              store-place d n n h
              ∙ place-final c ttl now p b d req (checksum_kept n n) (total_kept n n)
                  (ap pos (at_next n)) (from-base64 b) (ground (arith, next_index-expected n))
                  (rw whole) (rw whole) (rw whole (parse-json_request req))),
          look-final c ttl now p b d,
        )

    send_first-middle :
        (d : Db)
        → look d transfer_key ≡ absent
        → (n : ℕ) → n < total
        → (e : Db) × (send_first n (calm d) ≡ (ok none, calm e)) × HasPrefix e n
    unfolding send_first ◌>>=◌
    send_first-middle d start zero lt = (d, refl, rw start)
    send_first-middle d start (suc n) lt =
        let (e, ran, kept) = send_first-middle d start n (omega arith) in
        let (f, sent, more) = send-middle e n kept lt in (f, rw ran sent, more)

    send_first-last :
        (d : Db)
        → look d transfer_key ≡ absent
        → (n : ℕ) → n ≡ total
        → (e : Db) × (send_first n (calm d) ≡ (ok (some req), calm e))
          × (look e transfer_key ≡ absent)
    unfolding send_first ◌>>=◌
    send_first-last d start zero last =
        absurd (omega (arith, total_chunks_bounds (length payload) size sized))
    send_first-last d start (suc n) last =
        let (e, ran, kept) = send_first-middle d start n (omega arith) in
        let (f, sent, gone) = send-last e n kept last in (f, rw ran sent, gone)

    -- Where a transfer has left no state at the receiver and every exchange with Redis succeeds, a
    -- request with an id, cut into chunks of a size that is not 0 and stored from the first chunk to the last, comes
    -- out as the request that was sent, and the state of the transfer is gone.
    pub request_transfer :
        (d : Db)
        → look d transfer_key ≡ absent
        → (e : Db) × (send_first total (calm d) ≡ (ok (some req), calm e))
          × (look e transfer_key ≡ absent)
    request_transfer d start = send_first-last d start total refl

    -- Where every exchange succeeds, a chunk of a request with an id that arrives again, after `n`
    -- chunks of a size that is not 0 were taken, is answered with a receipt that asks
    -- for chunk `n`, gives no request a second time, and leaves the `n` chunks in place; of the
    -- database, only the set of receipts and the receipt of the transfer are written.
    pub duplicate_chunk :
        (d : Db) (n i : ℕ) (k : Key)
        → HasPrefix d n
        → i < n
        → key_eq (the Keys.chunk_receipts) k ≡ false
        → key_eq (key Keys.chunk_receipt (request_transfer_id req.id)) k ≡ false
        → (e : Db) × (store_inbound_chunk (sent i) ttl now (calm d)
            ≡ (ok (receipt_at (sent i) n, none), calm e))
          × HasPrefix e n
          × (look e k ≡ look d k)
    duplicate_chunk d n i k h lt not_set not_receipt = (
      run_all write (queue_chunk_receipt (receipt_at (sent i) n)) d,
      store-place d n i h
          ∙ place-duplicate (sent i) ttl now (expected n) [] d (checksum_kept n i) (total_kept n i)
              refl (sym (at_next n)) lt,
      simp look-write h,
      simp (look-write, not_set, not_receipt),
    )

    -- Where every exchange succeeds, a chunk of a request with an id that skips one or more, after
    -- `n` chunks of a size that is not 0 were taken, is refused with a receipt that asks for chunk 0 again, and the
    -- state of the transfer is dropped.
    pub skipped_chunk :
        (d : Db) (n i : ℕ)
        → HasPrefix d n
        → n < i
        → (e : Db) × (store_inbound_chunk (sent i) ttl now (calm d)
            ≡ (ok (reset_receipt (sent i) "out-of-order chunk index", none), calm e))
          × (look e transfer_key ≡ absent)
    skipped_chunk d n i h lt = (
      run_all write
          (del transfer_key
            ∷ queue_chunk_receipt (reset_receipt (sent i) "out-of-order chunk index"))
          d,
      store-place d n i h
          ∙ place-skipped (sent i) ttl now (expected n) [] d (checksum_kept n i) (total_kept n i)
              refl (sym (at_next n)) lt,
      simp (look-write, eq_refl),
    )
