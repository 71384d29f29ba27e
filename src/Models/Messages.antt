-- ===== src/Models/Messages.antt =====
-- internal/models/request.go, result.go, transport.go and websocket.go: the records. Times are
-- seconds since the epoch, 0 where Go's zero time stands. Header maps are lists of pairs.
use Prim.Native.String.{◌++◌ as append}
use Prim.Native.String.append
use relayra.Prelude.{ℕ, String, Bool, List, Option, ℤ, ◌≢◌}
use relayra.Models.Status.{RequestStatus}

pub record HttpRequest : Type 0 where
  pub url : String
  pub method : String
  pub headers : List (String × String)
  pub body : String

pub record RelayRequest : Type 0 where
  pub id : String
  pub destination_id : String
  pub webhook_url : String
  pub async : Bool
  pub request : HttpRequest
  pub status : RequestStatus
  pub created_at : ℕ

pub record RequestSyncState : Type 0 where
  pub request_id : String
  pub status : RequestStatus
  pub lease_until : ℕ
  pub updated_at : ℕ
  pub duplicate_ok : Bool

pub record RelayResult : Type 0 where
  pub request_id : String
  pub status_code : ℕ
  pub headers : List (String × String)
  pub body : String
  pub error : String
  pub duration : ℕ
  pub executed_at : ℕ

abbrev pub kind_request : String
kind_request = "request"

abbrev pub kind_result : String
kind_result = "result"

-- `payload` is base64. An index and the sizes come from the peer and may be negative.
pub record TransportChunk : Type 0 where
  pub transfer_id : String
  pub request_id : String
  pub kind : String
  pub index : ℤ
  pub total : ℤ
  pub payload : String
  pub checksum : String
  pub total_size : ℤ

pub record ChunkReceipt : Type 0 where
  pub transfer_id : String
  pub request_id : String
  pub next_index : ℤ
  pub completed : Bool
  pub reset : Bool
  pub error : String

pub record ProbeMessage : Type 0 where
  pub id : String
  pub sequence : ℕ
  pub sent_at : ℕ
  pub ack : Bool
  pub probe_only : Bool

pub record ChunkCursor : Type 0 where
  pub transfer_id : String
  pub request_id : String
  pub next_index : ℤ
  pub updated_at : ℕ

unfoldable pub request_transfer_id : String → String
request_transfer_id request_id = append request_id (append ":" kind_request)

unfoldable pub result_transfer_id : String → String
result_transfer_id request_id = append request_id (append ":" kind_result)

-- `WSMessage.Type`; any text but the source's eleven is `unsupported`.
pub data WsType : Type 0 where
  hello resume ack push_request push_chunk request_state result result_chunk : WsType
  chunk_receipt keepalive error : WsType
  unsupported : String → WsType

-- A sequence number or an acknowledgement that is absent, or is not positive, is 0.
pub record WsMessage : Type 0 where
  pub type : WsType
  pub peer_id : String
  pub seq : ℕ
  pub ack : ℕ
  pub last_received_seq : ℕ
  pub sent_at : ℕ
  pub request : Option RelayRequest
  pub chunk : Option TransportChunk
  pub request_state : Option RequestSyncState
  pub result : Option RelayResult
  pub result_chunk : Option TransportChunk
  pub chunk_receipt : Option ChunkReceipt
  pub probe : Option ProbeMessage
  pub error : String

pub record WsOutboxMessage : Type 0 where
  pub scope : String
  pub seq : ℕ
  pub type : WsType
  pub ref_id : String
  pub payload : List ℕ
  pub created_at : ℕ

pub record WsSequenceState : Type 0 where
  pub scope : String
  pub next_outbound_seq : ℕ
  pub last_received_seq : ℕ
  pub updated_at : ℕ

unfoldable pub listener_ws_scope : String → String
listener_ws_scope peer_id = append "listener:" peer_id

unfoldable pub sender_ws_scope : String → String
sender_ws_scope listener_peer_id = append "sender:" listener_peer_id

append-ne_empty : (s t : String) → t ≢ "" → append s t ≢ ""
append-ne_empty String.[] t h = rw append.nil h
append-ne_empty (String.◌∷◌ c s) t h = rw append.cons (λ e. cc e)

pub request_transfer_id-ne_empty : (id : String) → request_transfer_id id ≢ ""
unfolding request_transfer_id
request_transfer_id-ne_empty id = append-ne_empty id ":request" (λ e. cc e)
