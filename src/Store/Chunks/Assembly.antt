-- ===== src/Store/Chunks/Assembly.antt =====
-- internal/store/redis_chunks.go: the branches of `StoreInboundChunk`.
use relayra.Prelude.{
  ℕ, ◌+◌, ◌<◌, ◌≡◌, true, false, none, some, [], ◌∷◌, ◌++◌, pos, ltb_ℤ, length, arith, eq_refl,
}
use relayra.Errors.{ok}
use relayra.Models.{RelayRequest, TransportChunk}
use relayra.Codec.{Codec, Bytes}
use relayra.Redis.{Redis, look_after}
use relayra.Redis.Objects.{absent, del}
use relayra.Redis.Actions.{calm, ◌>>=◌, run_all}
use relayra.Store.Chunks.{
  Partial, partial_of, checksum_changed, total_changed, inbound_key, save_chunk,
  queue_chunk_receipt, receipt_at, reset_receipt, place_chunk,
}

module _ ⦃R : Redis⦄ ⦃C : Codec⦄ where
  open R use {Db, look, write, look-write}
  open C use {from_base64, sha256_hex, parse_request}

  module _ (c : TransportChunk) (ttl now : ℕ) (p : Partial) (payload : Bytes) where
    abbrev pub next : ℕ
    next = p.next_index + 1

    abbrev pub assembled : Bytes
    assembled = p.assembled ++ payload

    pub place-middle :
        (d : Db)
        → checksum_changed p c ≡ false
        → total_changed p c ≡ false
        → c.index ≡ pos p.next_index
        → from_base64 c.payload ≡ some payload
        → ltb_ℤ (pos next) c.total ≡ true
        → place_chunk c ttl now p (calm d) ≡ (
          ok (receipt_at c next, none),
          calm (
              run_all write
                (save_chunk c next assembled ttl now ++ queue_chunk_receipt (receipt_at c next))
                d),
        )
    unfolding place_chunk ◌>>=◌
    place-middle d h1 h2 h3 h4 h5 = ground arith

    pub place-final :
        (d : Db) (r : RelayRequest)
        → checksum_changed p c ≡ false
        → total_changed p c ≡ false
        → c.index ≡ pos p.next_index
        → from_base64 c.payload ≡ some payload
        → ltb_ℤ (pos next) c.total ≡ false
        → c.total_size ≡ pos (length assembled)
        → c.checksum ≡ sha256_hex assembled
        → parse_request assembled ≡ some r
        → place_chunk c ttl now p (calm d) ≡ (
          ok (receipt_at c next, some r),
          calm (
              run_all write
                (save_chunk c next assembled ttl now
                  ++ (queue_chunk_receipt (receipt_at c next)
                      ++ del (inbound_key c.transfer_id) ∷ []))
                d),
        )
    unfolding place_chunk ◌>>=◌
    place-final d r h1 h2 h3 h4 h5 h6 h7 h8 = ground (arith, eq_refl (sha256_hex assembled))

    -- what the transfer's key holds when the chunk has been kept
    pub look-middle :
        (d : Db)
        → partial_of (
            look_after d
              (save_chunk c next assembled ttl now ++ queue_chunk_receipt (receipt_at c next))
              (inbound_key c.transfer_id))
          ≡ record {
            next_index = next;
            assembled = assembled;
            checksum = c.checksum;
            total = some c.total;
          }
    look-middle d = simp (look-write, eq_refl)

    pub look-final :
        (d : Db)
        → look_after d
            (save_chunk c next assembled ttl now
              ++ (queue_chunk_receipt (receipt_at c next) ++ del (inbound_key c.transfer_id) ∷ []))
            (inbound_key c.transfer_id)
          ≡ absent
    look-final d = simp (look-write, eq_refl)

    pub place-duplicate :
        (d : Db) {i n : ℕ}
        → checksum_changed p c ≡ false
        → total_changed p c ≡ false
        → c.index ≡ pos i
        → p.next_index ≡ n
        → i < n
        → place_chunk c ttl now p (calm d) ≡ (
          ok (receipt_at c n, none),
          calm (run_all write (queue_chunk_receipt (receipt_at c n)) d),
        )
    unfolding place_chunk ◌>>=◌
    place-duplicate d h1 h2 h3 h4 h5 = ground arith

    pub place-skipped :
        (d : Db) {i n : ℕ}
        → checksum_changed p c ≡ false
        → total_changed p c ≡ false
        → c.index ≡ pos i
        → p.next_index ≡ n
        → n < i
        → place_chunk c ttl now p (calm d) ≡ (
          ok (reset_receipt c "out-of-order chunk index", none),
          calm (
              run_all write
                (del (inbound_key c.transfer_id)
                  ∷ queue_chunk_receipt (reset_receipt c "out-of-order chunk index"))
                d),
        )
    unfolding place_chunk ◌>>=◌
    place-skipped d h1 h2 h3 h4 h5 = ground arith
