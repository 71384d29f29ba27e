-- ===== src/Errors.antt =====
-- The errors that the packages return, and fallible results. A message is named for what it says.
pub data Error : Type 0 where
  -- a Redis command failed, or its answer did not arrive
  unavailable : Error
  -- internal/transport/chunks.go
  bad_chunk_size chunk_out_of_range : Error
  -- internal/store
  chunk_ids_required request_not_found outbox_gap : Error
  result_checksum_changed result_total_changed result_out_of_order invalid_result_chunk : Error
  result_size_mismatch result_checksum_mismatch invalid_result : Error
  token_not_found invalid_token invalid_json pairing_token_not_found proxy_not_found : Error
  -- internal/proxy/manager.go
  invalid_proxy_url no_proxies all_proxies_exhausted : Error
  -- internal/crypto/encrypt.go
  timestamp_drift : Error
  -- internal/server/handlers.go
  unknown_peer decryption_failed encryption_failed : Error
  -- internal/poller and internal/server, the websocket sessions
  message_required payload_missing unsupported_type out_of_order_sequence peer_mismatch : Error
  send_failed read_failed : Error
  -- not returned: an index out of range, at which a goroutine panics
  index_panic : Error

pub data Result {ℓ} (A : Type ℓ) : Type ℓ where
  ok : A → Result A
  err : Error → Result A

infixl 10 ◌>>=◌
abbrev pub ◌>>=◌ {ℓ κ} : {A : Type ℓ} {B : Type κ} → Result A → (A → Result B) → Result B
ok a >>= f = f a
err e >>= f = err e
