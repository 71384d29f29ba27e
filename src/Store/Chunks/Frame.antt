-- ===== src/Store/Chunks/Frame.antt =====
-- internal/store/redis_chunks.go: what the calls on chunks leave alone, whatever exchanges fail.
use relayra.Prelude.{
  ℕ, ◌+◌, ◌++◌, String, refl, Bool, true, false, List, [], ◌∷◌, pos, ltb_ℤ, eq_ℤ, not, ◌==ₛ◌, ◌||◌,
  length, Option-cases, inl, inr,
}
use relayra.Models.{TransportChunk, ChunkReceipt}
use relayra.Codec.{Codec, Bytes}
use relayra.Redis.{Redis}
use relayra.Redis.Keys
use relayra.Redis.Keys.{Space}
use relayra.Redis.Objects.{Member}
use relayra.Redis.Frame.{Spares, Always-spared}
use relayra.Redis.Actions.Always.{
  Always, Always-pure, Always-raise, Always-read, Always-read_or, Always-either, Always-bind,
}
use relayra.Store.Chunks.{
  Partial, partial_of, reset_inbound_chunk, store_chunk_receipt, accept_chunk, place_chunk,
  store_inbound_chunk, receipts_from, list_chunk_receipts, delete_chunk_receipt,
  apply_chunk_receipt, checksum_changed, total_changed,
}

abbrev pub is_chunk_kind : Space → Bool
is_chunk_kind Keys.chunk_receipts = true
is_chunk_kind Keys.chunk_receipt = true
is_chunk_kind Keys.chunk_cursor = true
is_chunk_kind Keys.inbound_chunk = true
is_chunk_kind _ = false

module _ ⦃R : Redis⦄ {P : R.Db → Type 0} (spares : Spares is_chunk_kind P) where
  open R use {look}

  reset_inbound_chunk-Always :
      (chunk : TransportChunk) (reason : String) → Always P (reset_inbound_chunk chunk reason)
  unfolding reset_inbound_chunk
  reset_inbound_chunk-Always chunk reason =
      Always-bind _ _ (Always-spared is_chunk_kind spares _ (refl, (refl, (refl, tt))))
        (λ _. Always-pure _)

  module _ ⦃C : Codec⦄ where
    open C use {from_base64, parse_request, sha256_hex}

    parsed-Always :
        (chunk : TransportChunk) (n : ℕ) (assembled : Bytes) (ttl now : ℕ)
        → Always P (accept_chunk chunk n assembled ttl now)
    unfolding accept_chunk
    parsed-Always chunk n assembled ttl now =
        Always-either (ltb_ℤ (pos n) chunk.total)
          (Always-bind _ _ (Always-spared is_chunk_kind spares _ (refl, (refl, (refl, (refl, tt)))))
            (λ _. Always-pure _))
          (Always-either (not (eq_ℤ (pos (length assembled)) chunk.total_size))
            (reset_inbound_chunk-Always chunk _)
            (Always-either (not (sha256_hex assembled ==ₛ chunk.checksum))
              (reset_inbound_chunk-Always chunk _)
              (elim (Option-cases (parse_request assembled)) [
                | inl bad ↦ rw bad (reset_inbound_chunk-Always chunk _)
                | inr (req, good) ↦ rw good (
                    Always-bind _ _
                      (Always-spared is_chunk_kind spares _
                        (refl, (refl, (refl, (refl, (refl, tt))))))
                      (λ _. Always-pure _))
              ])))

    place_chunk-Always :
        (chunk : TransportChunk) (ttl now : ℕ) (p : Partial)
        → Always P (place_chunk chunk ttl now p)
    unfolding place_chunk store_chunk_receipt
    place_chunk-Always chunk ttl now p =
        Always-either (checksum_changed p chunk) (reset_inbound_chunk-Always chunk _) (
          Always-either (total_changed p chunk) (reset_inbound_chunk-Always chunk _) (
            Always-either (ltb_ℤ chunk.index (pos p.next_index))
              (Always-bind _ _ (Always-spared is_chunk_kind spares _ (refl, (refl, tt)))
                (λ _. Always-pure _))
              (Always-either (ltb_ℤ (pos p.next_index) chunk.index)
                (reset_inbound_chunk-Always chunk _)
                (elim (Option-cases (from_base64 chunk.payload)) [
                  | inl bad ↦ rw bad (reset_inbound_chunk-Always chunk _)
                  | inr (payload, good) ↦
                      rw good
                        (parsed-Always chunk (p.next_index + 1) (p.assembled ++ payload) ttl now)
                ]))))

    pub store_inbound_chunk-Always :
        (chunk : TransportChunk) (ttl now : ℕ) → Always P (store_inbound_chunk chunk ttl now)
    unfolding store_inbound_chunk
    store_inbound_chunk-Always chunk ttl now =
        Always-either (chunk.transfer_id ==ₛ "" || chunk.request_id ==ₛ "") (Always-raise _) (
          Always-bind _ _ (Always-read _)
            (λ state. place_chunk-Always chunk ttl now (partial_of state)))

  receipts_from-Always : (ids : List Member) → Always P (receipts_from ids)
  unfolding receipts_from
  receipts_from-Always [] = Always-pure _
  receipts_from-Always (Member.named id ∷ ids) =
      Always-bind _ _ (Always-read_or _ _)
        (λ o. Always-bind _ _ (receipts_from-Always ids) (λ rest. Always-pure _))
  receipts_from-Always (Member.numbered n ∷ ids) = receipts_from-Always ids

  pub list_chunk_receipts-Always : Always P list_chunk_receipts
  unfolding list_chunk_receipts
  list_chunk_receipts-Always = Always-bind _ _ (Always-read _) receipts_from-Always

  pub delete_chunk_receipt-Always : (id : String) → Always P (delete_chunk_receipt id)
  unfolding delete_chunk_receipt
  delete_chunk_receipt-Always id = Always-spared is_chunk_kind spares _ (refl, (refl, tt))

  pub apply_chunk_receipt-Always :
      (receipt : ChunkReceipt) (now : ℕ) → Always P (apply_chunk_receipt receipt now)
  unfolding apply_chunk_receipt
  apply_chunk_receipt-Always receipt now = Always-spared is_chunk_kind spares _ (refl, tt)
