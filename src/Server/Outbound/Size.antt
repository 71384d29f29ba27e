-- ===== src/Server/Outbound/Size.antt =====
-- internal/server/handlers.go: how much a poll is answered with.
use relayra.Prelude.{
  ℕ, ◌+◌, ◌≤◌, String, ◌≡◌, arith, false, List, [], ◌∷◌, length, length-append, ltb, not,
  Bool-cases, inl, inr, subst,
}
use relayra.Errors.{Result, ok, err}
use relayra.Models.{RelayRequest, TransportChunk}
use relayra.Codec.{Codec}
use relayra.Settings.{Settings}
use relayra.Redis.{Redis}
use relayra.Redis.Actions.{State}
use relayra.Redis.Actions.Always.{Always-true}
use relayra.Redis.Actions.Triple.{
  Post, Triple, Triple-pure, Triple-raise, Triple-always, Triple-if, Triple-bind, Triple-known,
}
use relayra.Transport.{request_needs_chunking}
use relayra.Server.Outbound.{
  Outbound, add_request, add_chunk, append_payload, active_payload, leased_payload,
  next_outbound_payload, take_chunk, is_out_of_range,
}

-- what has been gathered and what is left make up the batch
abbrev IsSized : ℕ → Outbound → Type 0
IsSized size out = length out.requests + length out.chunks + out.remaining ≡ size

add_request-IsSized :
    (size : ℕ) (req : RelayRequest) (out : Outbound)
    → ltb out.remaining 1 ≡ false
    → IsSized size out
    → IsSized size (add_request req out)
add_request-IsSized size req out room h = ground (arith, length-append out.requests (req ∷ []))

add_chunk-IsSized :
    (size : ℕ) (chunk : TransportChunk) (out : Outbound)
    → ltb out.remaining 1 ≡ false
    → IsSized size out
    → IsSized size (add_chunk chunk out)
add_chunk-IsSized size chunk out room h = ground (arith, length-append out.chunks (chunk ∷ []))

module _ ⦃R : Redis⦄ ⦃C : Codec⦄ (cfg : Settings) (size : ℕ) where
  open R use {Db}

  take_chunk-IsSized :
      (out : Outbound) (chunk : Result TransportChunk)
      → ltb out.remaining 1 ≡ false
      → IsSized size out
      → Triple (λ _. Unit) (take_chunk out chunk) (λ o _. IsSized size o)
  take_chunk-IsSized out (ok chunk) room h =
      Triple-pure _ (λ d _. add_chunk-IsSized size chunk out room h)
  take_chunk-IsSized out (err e) room h =
      Triple-if (is_out_of_range e) _ _ (Triple-pure out (λ d _. h)) (Triple-raise e)

  append_payload-IsSized :
      (req : RelayRequest) (out : Outbound)
      → IsSized size out
      → Triple (λ _. Unit) (append_payload cfg req out) (λ o _. IsSized size o)
  unfolding append_payload
  append_payload-IsSized req out h = elim (Bool-cases (ltb out.remaining 1)) [
    | inl full ↦ rw full (Triple-pure out (λ d _. h))
    | inr room ↦ rw room (
        Triple-if (not (request_needs_chunking req cfg.transport_chunk_size).0) _ _
          (Triple-pure _ (λ d _. add_request-IsSized size req out room h))
          (Triple-bind (Triple-always (Always-true _)) (λ cursor. take_chunk-IsSized out _ room h)))
  ]

  active_payload-IsSized :
      (reqs : List RelayRequest) (out : Outbound)
      → IsSized size out
      → Triple (λ _. Unit) (active_payload cfg reqs out) (λ o _. IsSized size o)
  unfolding active_payload
  active_payload-IsSized [] out h = Triple-pure out (λ d _. h)
  active_payload-IsSized (req ∷ reqs) out h =
      Triple-if (ltb out.remaining 1) _ _ (Triple-pure out (λ d _. h)) (
        Triple-if (not (request_needs_chunking req cfg.transport_chunk_size).0) _ _
          (active_payload-IsSized reqs out h)
          (Triple-known (append_payload-IsSized req out h) (active_payload-IsSized reqs)))

  leased_payload-IsSized :
      (reqs : List RelayRequest) (out : Outbound)
      → IsSized size out
      → Triple (λ _. Unit) (leased_payload cfg reqs out) (λ o _. IsSized size o)
  unfolding leased_payload
  leased_payload-IsSized [] out h = Triple-pure out (λ d _. h)
  leased_payload-IsSized (req ∷ reqs) out h =
      Triple-if (ltb out.remaining 1) _ _ (Triple-pure out (λ d _. h))
        (Triple-known (append_payload-IsSized req out h) (leased_payload-IsSized reqs))

module _ ⦃R : Redis⦄ ⦃C : Codec⦄ (cfg : Settings) where
  open R use {Db}

  next_outbound_payload-IsSized :
      (peer_id : String) (now : ℕ)
      → Triple
          (λ _. Unit)
          (next_outbound_payload cfg peer_id now)
          (λ o _. IsSized cfg.poll_batch_size o)
  unfolding next_outbound_payload
  next_outbound_payload-IsSized peer_id now =
      let size = cfg.poll_batch_size in
      Triple-bind (Triple-always (Always-true _)) (λ active.
        Triple-known (active_payload-IsSized cfg size active _ (omega arith)) (λ out h.
          Triple-if (ltb out.remaining 1) _ _ (Triple-pure out (λ d _. h)) (
            Triple-bind (Triple-always (Always-true _))
              (λ leased. leased_payload-IsSized cfg size leased out h))))

  -- Whatever the database holds and whatever exchanges fail, an answer to a poll carries, requests
  -- and chunks together, no more than the batch size.
  pub next_outbound_payload_bounds :
      (peer_id : String) (now : ℕ) (s : State Db) {out : Outbound}
      → (next_outbound_payload cfg peer_id now s).0 ≡ ok out
      → length out.requests + length out.chunks ≤ cfg.poll_batch_size
  next_outbound_payload_bounds peer_id now s {out} answered =
      let size = cfg.poll_batch_size in
      let sized : IsSized size out =
        subst (λ r. Post (λ o _. IsSized size o) r (next_outbound_payload cfg peer_id now s).1.db)
          answered ((next_outbound_payload-IsSized peer_id now).at s tt) in
      omega (arith, sized)
