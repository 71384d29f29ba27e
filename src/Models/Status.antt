-- ===== src/Models/Status.antt =====
-- internal/models/request.go and result.go: the life of a request and of a result. A status is a
-- text in Go; any text but the source's seven is `other`.
use relayra.Prelude.{String, Bool, true, false}

pub data RequestStatus : Type 0 where
  pending queued leased received executing completed failed : RequestStatus
  other : String → RequestStatus

abbrev pub is_queued : RequestStatus → Bool
is_queued queued = true
is_queued _ = false

abbrev pub is_leased : RequestStatus → Bool
is_leased leased = true
is_leased _ = false

abbrev pub is_completed : RequestStatus → Bool
is_completed completed = true
is_completed _ = false

-- `ResultDeliveryStatus`; an unset field reads as `unset`.
pub data DeliveryStatus : Type 0 where
  result_pending result_leased result_acked unset : DeliveryStatus

abbrev pub is_result_leased : DeliveryStatus → Bool
is_result_leased result_leased = true
is_result_leased _ = false

-- `ResultStatus`
pub data ResultStatus : Type 0 where
  result_stored webhook_sent webhook_failed : ResultStatus
