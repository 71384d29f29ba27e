-- ===== src/Poller/Incoming.antt =====
-- internal/poller/poller.go and dispatcher.go: a request that arrives at the sender, and its
-- execution. The dispatcher's queues and threads are the order in which `execute` is called: that a
-- request is dispatched is what `handle_incoming_request` returns. The HTTP request itself is a
-- parameter, its result. The wake-up of the thread that writes (`NotifyOutbox`) is left out.
use relayra.Prelude.{
  ℕ, ◌+◌, String, Bool, true, false, ◌||◌, not, Option, none, some, leb, ◌==◌, if◌then◌else◌,
}
use relayra.Models.{
  RelayRequest, RelayResult, RequestSyncState, RequestStatus, received, executing, completed,
  is_completed,
}
use relayra.Codec.{Codec}
use relayra.Settings.{Settings, sender_request_lease_duration}
use relayra.Redis.{Redis}
use relayra.Redis.Actions.{Exec, pure, attempt, try, ◌>>=◌, ◌>>◌}
use relayra.Store.Sender.{
  get_sender_request_state, result_is_pending, store_sender_request_state, push_result,
}
use relayra.Poller.Events.{queue_sender_request_state_ws, queue_sender_result_ws}

-- `state.LeaseUntil.IsZero() || !state.LeaseUntil.After(now)`
abbrev pub lease_is_over : ℕ → ℕ → Bool
lease_is_over lease_until now = lease_until == 0 || leb lease_until now

-- the cases of the switch
abbrev pub should_dispatch : Option RequestSyncState → Bool → ℕ → Bool
should_dispatch none pending_result now = true
should_dispatch (some state) pending_result now =
    if is_completed state.status
    then false
    else if pending_result
    then false
    else lease_is_over state.lease_until now

-- a duplicate is reported with the status that it has
abbrev pub report_status : Option RequestSyncState → Bool → RequestStatus
report_status none dispatch = received
report_status (some state) dispatch = if not dispatch then state.status else received

abbrev pub sync_state : String → RequestStatus → ℕ → ℕ → RequestSyncState
sync_state id status lease_until now = record {
  request_id = id;
  status = status;
  lease_until = lease_until;
  updated_at = now;
  duplicate_ok = false;
}

module _ ⦃R : Redis⦄ ⦃C : Codec⦄ (cfg : Settings) (listener_id : String) where
  open R use {Db}

  abbrev pub lease_end : ℕ → ℕ
  lease_end now = now + sender_request_lease_duration cfg

  -- what is stored and reported of a request, once it is known whether to dispatch it
  unfoldable pub record_arrival : String → Option RequestSyncState → Bool → ℕ → ℕ → Exec Db Bool
  record_arrival id state pending_result now now_milli = do
    let dispatch = should_dispatch state pending_result now
    let sync = sync_state id (report_status state dispatch) (lease_end now) now
    store_sender_request_state (some sync) now
    attempt (queue_sender_request_state_ws listener_id now now_milli sync)
    pure dispatch

  unfoldable pub handle_incoming_request : RelayRequest → ℕ → ℕ → Exec Db Bool
  unfolding record_arrival
  handle_incoming_request req now now_milli = do
    state ← get_sender_request_state req.id
    pending_result ← result_is_pending req.id
    record_arrival req.id state pending_result now now_milli

  -- the state is stored and reported, each on its own
  unfoldable pub report : String → RequestStatus → ℕ → ℕ → Exec Db (Unit {0})
  report id status now now_milli = do
    let sync = sync_state id status (lease_end now) now
    attempt (store_sender_request_state (some sync) now)
    attempt (queue_sender_request_state_ws listener_id now now_milli sync)

  -- what follows the execution, with whether the result could be stored
  unfoldable pub after_push : RelayResult → String → Option (Unit {0}) → ℕ → ℕ → Exec Db (Unit {0})
  unfolding report
  after_push result id none done_at done_milli = pure tt
  after_push result id (some _) done_at done_milli = do
    attempt (
        queue_sender_result_ws listener_id done_at done_milli (some result)
          cfg.transport_chunk_size)
    report id completed done_at done_milli

  -- the result that `ExecuteRequest` gives is for the request
  unfoldable pub execute : String → RelayResult → ℕ → ℕ → ℕ → ℕ → Exec Db (Unit {0})
  unfolding report after_push
  execute id result now now_milli done_at done_milli = do
    report id executing now now_milli
    stored ← try (push_result result done_milli done_at)
    after_push result id stored done_at done_milli
