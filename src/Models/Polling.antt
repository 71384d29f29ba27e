-- ===== src/Models/Polling.antt =====
-- internal/models/poll.go: what travels in a poll, before it is encrypted and after.
use relayra.Prelude.{ℕ, String, List, Option}
use relayra.Models.Messages.{
  RelayRequest, RelayResult, RequestSyncState, TransportChunk, ChunkReceipt, ProbeMessage,
}

pub record PollRequest : Type 0 where
  pub peer_id : String
  pub nonce : String
  pub timestamp : ℕ
  pub payload : String
  pub wait_seconds : ℕ

pub record PollResponse : Type 0 where
  pub nonce : String
  pub timestamp : ℕ
  pub payload : String

pub record PollPayloadUp : Type 0 where
  pub results : List RelayResult
  pub request_states : List RequestSyncState
  pub chunk_receipts : List ChunkReceipt
  pub probe : Option ProbeMessage

pub record PollPayloadDown : Type 0 where
  pub requests : List RelayRequest
  pub request_chunks : List TransportChunk
  pub ack_result_ids : List String
  pub probe : Option ProbeMessage
