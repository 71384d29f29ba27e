-- ===== src/Server/Outbound/Frame.antt =====
-- internal/server/handlers.go: what the making of an answer leaves alone.
use relayra.Prelude.{ℕ, String, List, [], ◌∷◌, ltb}
use relayra.Errors.{Result, ok, err}
use relayra.Models.{RelayRequest, TransportChunk}
use relayra.Codec.{Codec}
use relayra.Settings.{Settings}
use relayra.Redis.{Redis}
use relayra.Redis.Keys.{Field}
use relayra.Redis.Objects.{Member, Value, lrem, hset}
use relayra.Redis.Actions.Always.{
  Always, Always-pure, Always-raise, Always-read_or, Always-either, Always-bind,
}
use relayra.Store.Chunks.{get_chunk_cursor}
use relayra.Store.Queue.{queue_key, request_key}
use relayra.Store.Queue.Frame.{lease_requests-Always, list_active_leased_requests-Always}
use relayra.Server.Outbound.{
  Outbound, append_payload, active_payload, leased_payload, next_outbound_payload, take_chunk,
  is_out_of_range,
}

-- whatever the two kinds of writes of the queues keep
module _ ⦃R : Redis⦄ ⦃C : Codec⦄ (cfg : Settings) (P : R.Db → Type 0)
    (dropped : (p : String) (m : Member) (d : R.Db) → P d → P (R.write d (lrem (queue_key p) m)))
    (changed : (id : String) (fs : List (Field × Value)) (d : R.Db)
      → P d
      → P (R.write d (hset (request_key id) fs))) where
  take_chunk-Always :
      (out : Outbound) (chunk : Result TransportChunk) → Always P (take_chunk out chunk)
  take_chunk-Always out (ok chunk) = Always-pure _
  take_chunk-Always out (err e) =
      Always-either (is_out_of_range e) (Always-pure out) (Always-raise e)

  append_payload-Always :
      (req : RelayRequest) (out : Outbound) → Always P (append_payload cfg req out)
  unfolding append_payload get_chunk_cursor
  append_payload-Always req out = Always-either (ltb out.remaining 1) (Always-pure out) (
      Always-either _ (Always-pure _)
        (Always-bind _ _ (Always-read_or _ _) (λ cursor. take_chunk-Always out _)))

  active_payload-Always :
      (reqs : List RelayRequest) (out : Outbound) → Always P (active_payload cfg reqs out)
  unfolding active_payload
  active_payload-Always [] out = Always-pure out
  active_payload-Always (req ∷ reqs) out = Always-either (ltb out.remaining 1) (Always-pure out) (
      Always-either _ (active_payload-Always reqs out)
        (Always-bind _ _ (append_payload-Always req out) (λ out'. active_payload-Always reqs out')))

  leased_payload-Always :
      (reqs : List RelayRequest) (out : Outbound) → Always P (leased_payload cfg reqs out)
  unfolding leased_payload
  leased_payload-Always [] out = Always-pure out
  leased_payload-Always (req ∷ reqs) out =
      Always-either (ltb out.remaining 1) (Always-pure out)
        (Always-bind _ _ (append_payload-Always req out) (λ out'. leased_payload-Always reqs out'))

  pub next_outbound_payload-Always :
      (peer_id : String) (now : ℕ) → Always P (next_outbound_payload cfg peer_id now)
  unfolding next_outbound_payload
  next_outbound_payload-Always peer_id now =
      Always-bind _ _ (list_active_leased_requests-Always P dropped changed peer_id _ now)
        (λ active. Always-bind _ _ (active_payload-Always active _) (λ out.
          Always-either (ltb out.remaining 1) (Always-pure out) (
            Always-bind _ _ (lease_requests-Always P dropped changed peer_id _ _ now)
              (λ leased. leased_payload-Always leased out))))
