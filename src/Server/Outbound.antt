-- ===== src/Server/Outbound.antt =====
-- internal/server/handlers.go: which requests, and which chunks of large requests, the listener hands
-- to a peer that polls.
pub mod Frame
pub mod Size
use relayra.Prelude.{
  ℕ, ◌-◌, String, Bool, true, false, not, Option, none, some, List, [], ◌∷◌, ◌++◌, ℤ, pos, ltb,
  if◌then◌else◌,
}
use relayra.Errors.{Error, chunk_out_of_range, Result, ok, err}
use relayra.Models.{RelayRequest, TransportChunk, ChunkCursor, request_transfer_id}
use relayra.Codec.{Codec}
use relayra.Settings.{Settings, request_lease_duration}
use relayra.Redis.{Redis}
use relayra.Redis.Actions.{Exec, pure, raise, ◌>>=◌}
use relayra.Transport.{request_needs_chunking, request_chunk_at}
use relayra.Store.Chunks.{get_chunk_cursor}
use relayra.Store.Queue.{list_active_leased_requests, lease_requests}

-- what has been gathered, and how much more the batch takes
pub record Outbound : Type 0 where
  pub requests : List RelayRequest
  pub chunks : List TransportChunk
  pub remaining : ℕ

abbrev pub add_request : RelayRequest → Outbound → Outbound
add_request req out = record out {
  requests = out.requests ++ req ∷ [];
  remaining = out.remaining - 1;
}

abbrev pub add_chunk : TransportChunk → Outbound → Outbound
add_chunk chunk out = record out {
  chunks = out.chunks ++ chunk ∷ [];
  remaining = out.remaining - 1;
}

-- `strings.Contains(err.Error(), "out of range")`
abbrev pub is_out_of_range : Error → Bool
is_out_of_range chunk_out_of_range = true
is_out_of_range _ = false

abbrev pub next_index : Option ChunkCursor → ℤ
next_index none = pos 0
next_index (some cursor) = cursor.next_index

module _ ⦃R : Redis⦄ ⦃C : Codec⦄ where
  open R use {Db}

  -- a transfer whose chunks have all been sent gives nothing
  abbrev pub take_chunk : Outbound → Result TransportChunk → Exec Db Outbound
  take_chunk out (ok chunk) = pure (add_chunk chunk out)
  take_chunk out (err e) = if is_out_of_range e then pure out else raise e

  append_payload : Settings → RelayRequest → Outbound → Exec Db Outbound
  append_payload cfg req out =
      if ltb out.remaining 1
      then pure out
      else if not (request_needs_chunking req cfg.transport_chunk_size).0
      then pure (add_request req out)
      else (do
        cursor ← get_chunk_cursor (request_transfer_id req.id)
        take_chunk out (request_chunk_at req cfg.transport_chunk_size (next_index cursor)))

  -- the requests under a lease: only the transfers among them go on
  active_payload : Settings → List RelayRequest → Outbound → Exec Db Outbound
  unfolding append_payload
  active_payload cfg [] out = pure out
  active_payload cfg (req ∷ reqs) out =
      let rest = λ (o : Outbound). active_payload cfg reqs o in
      if ltb out.remaining 1
      then pure out
      else if not (request_needs_chunking req cfg.transport_chunk_size).0
      then rest out
      else (do out' ← append_payload cfg req out; rest out')

  leased_payload : Settings → List RelayRequest → Outbound → Exec Db Outbound
  unfolding append_payload
  leased_payload cfg [] out = pure out
  leased_payload cfg (req ∷ reqs) out =
      let rest = λ (o : Outbound). leased_payload cfg reqs o in
      if ltb out.remaining 1 then pure out else (do out' ← append_payload cfg req out; rest out')

  unfoldable pub next_outbound_payload : Settings → String → ℕ → Exec Db Outbound
  unfolding active_payload leased_payload
  next_outbound_payload cfg peer_id now = do
    active ← list_active_leased_requests peer_id cfg.poll_batch_size now
    out ←
        active_payload cfg active
          (record { requests = []; chunks = []; remaining = cfg.poll_batch_size })
    if ltb out.remaining 1 then pure out else (do
      leased ← lease_requests peer_id out.remaining (request_lease_duration cfg) now
      leased_payload cfg leased out)
