-- ===== src/Tests/Encodings.antt =====
-- The encodings of the message records, and their codec.
use Prim.Native.Char.{Char, char, code}
use relayra.Prelude.{
  ℕ, zero, suc, String, ◌≡◌, refl, Option, none, some, List, [], ◌∷◌, ◌-◌, ℤ, pos, negsuc,
}
use relayra.Models.{
  HttpRequest, RelayRequest, RequestSyncState, RelayResult, RequestStatus, pending, queued, leased,
  received, executing, completed, failed, other, TransportChunk, ChunkReceipt, ProbeMessage, WsType,
  WsMessage,
}
use relayra.Codec.{Codec, Bytes}
use relayra.Tests.Serial.{Serial, decoded, get-one, both, via, number, option, many, string, bool}

-- the entry of a table, or else a default
abbrev entry : {A : Type 0} → ℕ → List A → A → A
entry n [] a = a
entry zero (x ∷ xs) a = x
entry (suc n) (x ∷ xs) a = entry n xs a

status_code : RequestStatus → ℕ × String
status_code pending = (0, "")
status_code queued = (1, "")
status_code leased = (2, "")
status_code received = (3, "")
status_code executing = (4, "")
status_code completed = (5, "")
status_code failed = (6, "")
status_code (other s) = (7, s)

of_status_code : ℕ × String → RequestStatus
of_status_code (n, s) =
    entry n (pending ∷ queued ∷ leased ∷ received ∷ executing ∷ completed ∷ failed ∷ other s ∷ [])
      (other s)

status_back : (a : RequestStatus) → of_status_code (status_code a) ≡ a
unfolding status_code of_status_code
status_back pending = refl
status_back queued = refl
status_back leased = refl
status_back received = refl
status_back executing = refl
status_back completed = refl
status_back failed = refl
status_back (other s) = refl

type_code : WsType → ℕ × String
type_code WsType.hello = (0, "")
type_code WsType.resume = (1, "")
type_code WsType.ack = (2, "")
type_code WsType.push_request = (3, "")
type_code WsType.push_chunk = (4, "")
type_code WsType.request_state = (5, "")
type_code WsType.result = (6, "")
type_code WsType.result_chunk = (7, "")
type_code WsType.chunk_receipt = (8, "")
type_code WsType.keepalive = (9, "")
type_code WsType.error = (10, "")
type_code (WsType.unsupported s) = (11, s)

of_type_code : ℕ × String → WsType
of_type_code (n, s) =
    entry n
      (WsType.hello ∷ WsType.resume ∷ WsType.ack ∷ WsType.push_request ∷ WsType.push_chunk
        ∷ WsType.request_state ∷ WsType.result ∷ WsType.result_chunk ∷ WsType.chunk_receipt
        ∷ WsType.keepalive ∷ WsType.error ∷ [])
      (WsType.unsupported s)

type_back : (a : WsType) → of_type_code (type_code a) ≡ a
unfolding type_code of_type_code
type_back WsType.hello = refl
type_back WsType.resume = refl
type_back WsType.ack = refl
type_back WsType.push_request = refl
type_back WsType.push_chunk = refl
type_back WsType.request_state = refl
type_back WsType.result = refl
type_back WsType.result_chunk = refl
type_back WsType.chunk_receipt = refl
type_back WsType.keepalive = refl
type_back WsType.error = refl
type_back (WsType.unsupported s) = refl

int_code : ℤ → ℕ × ℕ
int_code (pos n) = (0, n)
int_code (negsuc n) = (1, n)

of_int_code : ℕ × ℕ → ℤ
of_int_code (zero, n) = pos n
of_int_code (suc _, n) = negsuc n

int_back : (a : ℤ) → of_int_code (int_code a) ≡ a
unfolding int_code of_int_code
int_back (pos n) = refl
int_back (negsuc n) = refl

status : Serial RequestStatus
status = via status_code of_status_code status_back (both number string)

type : Serial WsType
type = via type_code of_type_code type_back (both number string)

int : Serial ℤ
int = via int_code of_int_code int_back (both number number)

headers : Serial (List (String × String))
headers = many (both string string)

http_request : Serial HttpRequest
http_request =
    via (λ r. (r.url, (r.method, (r.headers, r.body))))
      (λ t. record { url = t.0; method = t.1.0; headers = t.1.1.0; body = t.1.1.1 }) (λ r. refl)
      (both string (both string (both headers string)))

request : Serial RelayRequest
request =
    via
      (λ r. (
        r.id,
        (r.destination_id, (r.webhook_url, (r.async, (r.request, (r.status, r.created_at))))),
      ))
      (λ t. record {
        id = t.0;
        destination_id = t.1.0;
        webhook_url = t.1.1.0;
        async = t.1.1.1.0;
        request = t.1.1.1.1.0;
        status = t.1.1.1.1.1.0;
        created_at = t.1.1.1.1.1.1;
      })
      (λ r. refl)
      (both string (both string (both string (both bool (both http_request (both status number))))))

result : Serial RelayResult
result =
    via
      (λ r. (
        r.request_id,
        (r.status_code, (r.headers, (r.body, (r.error, (r.duration, r.executed_at))))),
      ))
      (λ t. record {
        request_id = t.0;
        status_code = t.1.0;
        headers = t.1.1.0;
        body = t.1.1.1.0;
        error = t.1.1.1.1.0;
        duration = t.1.1.1.1.1.0;
        executed_at = t.1.1.1.1.1.1;
      })
      (λ r. refl)
      (both string (both number (both headers (both string (both string (both number number))))))

chunk : Serial TransportChunk
chunk =
    via
      (λ r. (
        r.transfer_id,
        (r.request_id, (r.kind, (r.index, (r.total, (r.payload, (r.checksum, r.total_size)))))),
      ))
      (λ t. record {
        transfer_id = t.0;
        request_id = t.1.0;
        kind = t.1.1.0;
        index = t.1.1.1.0;
        total = t.1.1.1.1.0;
        payload = t.1.1.1.1.1.0;
        checksum = t.1.1.1.1.1.1.0;
        total_size = t.1.1.1.1.1.1.1;
      })
      (λ r. refl)
      (both string
        (both string (both string (both int (both int (both string (both string int)))))))

receipt : Serial ChunkReceipt
receipt =
    via (λ r. (r.transfer_id, (r.request_id, (r.next_index, (r.completed, (r.reset, r.error))))))
      (λ t. record {
        transfer_id = t.0;
        request_id = t.1.0;
        next_index = t.1.1.0;
        completed = t.1.1.1.0;
        reset = t.1.1.1.1.0;
        error = t.1.1.1.1.1;
      })
      (λ r. refl) (both string (both string (both int (both bool (both bool string)))))

probe : Serial ProbeMessage
probe =
    via (λ r. (r.id, (r.sequence, (r.sent_at, (r.ack, r.probe_only)))))
      (λ t. record {
        id = t.0;
        sequence = t.1.0;
        sent_at = t.1.1.0;
        ack = t.1.1.1.0;
        probe_only = t.1.1.1.1;
      })
      (λ r. refl) (both string (both number (both number (both bool bool))))

state : Serial RequestSyncState
state =
    via (λ r. (r.request_id, (r.status, (r.lease_until, (r.updated_at, r.duplicate_ok)))))
      (λ t. record {
        request_id = t.0;
        status = t.1.0;
        lease_until = t.1.1.0;
        updated_at = t.1.1.1.0;
        duplicate_ok = t.1.1.1.1;
      })
      (λ r. refl) (both string (both status (both number (both number bool))))

message : Serial WsMessage
message =
    via
      (λ r. (
        (r.type, (r.peer_id, (r.seq, (r.ack, (r.last_received_seq, r.sent_at))))),
        (
          r.request,
          (
            r.chunk,
            (r.request_state, (r.result, (r.result_chunk, (r.chunk_receipt, (r.probe, r.error))))),
          ),
        ),
      ))
      (λ t. record {
        type = t.0.0;
        peer_id = t.0.1.0;
        seq = t.0.1.1.0;
        ack = t.0.1.1.1.0;
        last_received_seq = t.0.1.1.1.1.0;
        sent_at = t.0.1.1.1.1.1;
        request = t.1.0;
        chunk = t.1.1.0;
        request_state = t.1.1.1.0;
        result = t.1.1.1.1.0;
        result_chunk = t.1.1.1.1.1.0;
        chunk_receipt = t.1.1.1.1.1.1.0;
        probe = t.1.1.1.1.1.1.1.0;
        error = t.1.1.1.1.1.1.1.1;
      })
      (λ r. refl)
      (both (both type (both string (both number (both number (both number number))))) (
        both (option request) (
          both (option chunk) (
            both (option state) (
              both (option result)
                (both (option chunk) (both (option receipt) (both (option probe) string))))))))

-- a number is as many letters `a`, and each ends in a `b`
abbrev letter_a : Char
letter_a = char 97 tt

abbrev letter_b : Char
letter_b = char 98 tt

letters : ℕ → String → String
letters zero s = String.◌∷◌ letter_b s
letters (suc n) s = String.◌∷◌ letter_a (letters n s)

spelled : Bytes → String
spelled [] = String.[]
spelled (n ∷ ns) = letters n (spelled ns)

-- one letter of a number, which the letters behind it go on with
abbrev letter : ℕ → Option Bytes → Option Bytes
letter _ none = none
letter zero (some []) = none
letter zero (some (n ∷ ns)) = some (suc n ∷ ns)
letter (suc _) (some ns) = some (zero ∷ ns)

read_letters : String → Option Bytes
read_letters String.[] = some []
read_letters (String.◌∷◌ c s) = letter (code c - 97) (read_letters s)

read-letters :
    (n : ℕ) (s : String) (ns : Bytes)
    → read_letters s ≡ some ns
    → read_letters (letters n s) ≡ some (n ∷ ns)
unfolding read_letters letters
read-letters zero s ns h = rw h
read-letters (suc n) s ns h = rw (read-letters n s ns h)

read_letters-spelled : (ns : Bytes) → read_letters (spelled ns) ≡ some ns
unfolding spelled read_letters
read_letters-spelled [] = refl
read_letters-spelled (n ∷ ns) = read-letters n (spelled ns) ns (read_letters-spelled ns)

instance pub codec : Codec
codec = record {
  json_request = λ r. request.put r [];
  parse_request = λ b. decoded (request.get b);
  parse-json_request = get-one request;
  json_result = λ r. result.put r [];
  parse_result = λ b. decoded (result.get b);
  parse-json_result = get-one result;
  json_message = λ m. message.put m [];
  parse_message = λ b. decoded (message.get b);
  parse-json_message = get-one message;
  base64 = spelled;
  from_base64 = read_letters;
  from-base64 = read_letters-spelled;
  sha256_hex = spelled;
}
