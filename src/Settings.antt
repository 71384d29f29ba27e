-- ===== src/Settings.antt =====
-- internal/config/config.go: the numbers of a configuration that the running node uses, and the
-- durations that are made of them. `Validate` lets no negative number through for them.
use relayra.Prelude.{ℕ, ◌+◌, Bool, ltb, if◌then◌else◌}

pub record Settings : Type 0 where
  pub poll_interval : ℕ
  pub poll_batch_size : ℕ
  pub request_timeout : ℕ
  pub long_poll_wait : ℕ
  pub transport_chunk_size : ℕ
  pub ws_idle_timeout : ℕ
  pub ws_reconnect_max_seconds : ℕ
  pub result_ttl : ℕ
  -- whether the transport mode is `websocket`
  pub uses_websocket : Bool

-- no lease is shorter than the execution of a request and half a minute
abbrev at_least_execution : Settings → ℕ → ℕ
at_least_execution cfg seconds =
    if ltb seconds (cfg.request_timeout + 30) then cfg.request_timeout + 30 else seconds

-- the listener's lease on a request
unfoldable pub request_lease_duration : Settings → ℕ
request_lease_duration cfg =
    let seconds = cfg.request_timeout + cfg.poll_interval + 30 in
    let ws_window = cfg.ws_idle_timeout + cfg.ws_reconnect_max_seconds in
    at_least_execution cfg (
      if ltb cfg.long_poll_wait ws_window
      then seconds + ws_window
      else seconds + cfg.long_poll_wait)

-- the sender's lease on a request that it executes
unfoldable pub sender_request_lease_duration : Settings → ℕ
sender_request_lease_duration cfg =
    let seconds = cfg.request_timeout + cfg.poll_interval + 30 in
    at_least_execution cfg (
      if cfg.uses_websocket
      then seconds + (cfg.ws_idle_timeout + cfg.ws_reconnect_max_seconds)
      else seconds + cfg.long_poll_wait)

-- the sender's lease on a result that it sends
unfoldable pub sender_result_lease_duration : Settings → ℕ
sender_result_lease_duration cfg =
    let seconds = cfg.request_timeout + cfg.poll_interval + 30 in
    at_least_execution cfg (
      if cfg.uses_websocket
      then seconds + (cfg.ws_idle_timeout + cfg.ws_reconnect_max_seconds)
      else seconds + cfg.long_poll_wait)
