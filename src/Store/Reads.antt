-- ===== src/Store/Reads.antt =====
-- How the store reads fields back, with Go's zero value where a field is missing or is not of the
-- kind that is read (`strconv` then fails, and the code drops the error).
use relayra.Prelude.{ℕ, String, Bool, false, Option, some, List, [], ℤ, pos}
use relayra.Models.{RequestStatus, other, DeliveryStatus, unset, WsType, unsupported}
use relayra.Redis.Objects.{
  Value, text, number, integer, flag, bytes, texts, request_status, delivery, ws_type,
}

abbrev pub text_of : Option Value → String
text_of (some (text t)) = t
text_of _ = ""

abbrev pub number_of : Option Value → ℕ
number_of (some (number n)) = n
number_of _ = 0

abbrev pub integer_of : Option Value → ℤ
integer_of (some (integer n)) = n
integer_of _ = pos 0

abbrev pub flag_of : Option Value → Bool
flag_of (some (flag b)) = b
flag_of _ = false

abbrev pub bytes_of : Option Value → List ℕ
bytes_of (some (bytes b)) = b
bytes_of _ = []

abbrev pub texts_of : Option Value → List String
texts_of (some (texts l)) = l
texts_of _ = []

abbrev pub status_of : Option Value → RequestStatus
status_of (some (request_status s)) = s
status_of _ = other ""

abbrev pub delivery_of : Option Value → DeliveryStatus
delivery_of (some (delivery s)) = s
delivery_of _ = unset

abbrev pub type_of : Option Value → WsType
type_of (some (ws_type t)) = t
type_of _ = unsupported ""
