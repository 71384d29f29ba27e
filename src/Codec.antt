-- ===== src/Codec.antt =====
-- The encodings that the packages call: encoding/json, encoding/base64 and crypto/sha256. They are
-- a parameter: what the code relies on is that a text decodes to what was encoded. Marshalling the
-- messages of internal/models cannot fail, so it is total.
use relayra.Prelude.{ℕ, ◌≡◌, String, Option, some, List}
use relayra.Models.{RelayRequest, RelayResult, WsMessage, ApiToken, PairingToken}

abbrev pub Bytes : Type 0
Bytes = List ℕ

pub record Codec : Type 0 where
  pub json_request : RelayRequest → Bytes
  pub parse_request : Bytes → Option RelayRequest
  pub parse-json_request : (r : RelayRequest) → parse_request (json_request r) ≡ some r
  pub json_result : RelayResult → Bytes
  pub parse_result : Bytes → Option RelayResult
  pub parse-json_result : (r : RelayResult) → parse_result (json_result r) ≡ some r
  pub json_message : WsMessage → Bytes
  pub parse_message : Bytes → Option WsMessage
  pub parse-json_message : (m : WsMessage) → parse_message (json_message m) ≡ some m
  pub base64 : Bytes → String
  pub from_base64 : String → Option Bytes
  pub from-base64 : (b : Bytes) → from_base64 (base64 b) ≡ some b
  pub sha256_hex : Bytes → String

-- The tokens as JSON. The hash of an API token is not written (`json:"-"`).
pub record TokenCodec : Type 0 where
  pub json_api_token : ApiToken → Bytes
  pub parse_api_token : Bytes → Option ApiToken
  pub parse-json_api_token :
      (t : ApiToken) → parse_api_token (json_api_token t) ≡ some (record t { token_hash = "" })
  pub json_pairing_token : PairingToken → Bytes
  pub parse_pairing_token : Bytes → Option PairingToken
  pub parse-json_pairing_token :
      (t : PairingToken) → parse_pairing_token (json_pairing_token t) ≡ some t
