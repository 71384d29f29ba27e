-- ===== src/Config.antt =====
-- internal/config/config.go: the configuration of a node, what `Validate` asks of it, and the
-- transport mode. An `int` of the file may be negative.
pub mod Valid
use relayra.Prelude.{
  String, Bool, true, false, ◌||◌, ◌&&◌, not, Option, none, some, List, [], ◌∷◌, ◌++◌, ltb, length,
  ◌==ₛ◌, ℤ, pos, ltb_ℤ, if◌then◌else◌,
}
use relayra.Text.{to_lower, trim_space}
use relayra.Store.Proxies.Hash.{utf8}

pub record Config : Type 0 where
  pub machine_id : String
  pub instance_name : String
  pub role : String
  pub storage_backend : String
  pub listen_port : ℤ
  pub redis_port : ℤ
  pub redis_pool_size : ℤ
  pub poll_interval : ℤ
  pub poll_batch_size : ℤ
  pub request_timeout : ℤ
  pub long_polling : Bool
  pub long_poll_wait : ℤ
  pub async_workers : ℤ
  pub transport_mode : String
  pub proxy_cooldown_seconds : ℤ
  pub transport_chunk_size_bytes : ℤ
  pub ws_ping_interval : ℤ
  pub ws_keepalive_interval : ℤ
  pub ws_write_timeout : ℤ
  pub ws_idle_timeout : ℤ
  pub ws_reconnect_base_seconds : ℤ
  pub ws_reconnect_max_seconds : ℤ
  pub ws_enable_long_poll_fallback : Bool
  pub allow_listener_execution : Bool
  pub result_ttl : ℤ

-- the errors of `Validate`, each named for the variable that it names
pub data Invalid : Type 0 where
  machine_id_required instance_name_required instance_name_too_long bad_role : Invalid
  bad_storage_backend bad_listen_port bad_redis_port bad_redis_pool_size : Invalid
  bad_poll_interval bad_poll_batch_size bad_request_timeout bad_long_poll_wait : Invalid
  bad_async_workers bad_transport_mode bad_proxy_cooldown bad_chunk_size : Invalid
  bad_ws_ping_interval bad_ws_keepalive_interval bad_ws_write_timeout bad_ws_idle_timeout : Invalid
  bad_ws_reconnect_base bad_ws_reconnect_max bad_result_ttl : Invalid

unfoldable pub normalize_transport_mode : String → String
normalize_transport_mode v =
    let mode = to_lower (trim_space v) in
    if mode ==ₛ "" || mode ==ₛ "interval"
    then mode
    else if mode ==ₛ "longpoll" || mode ==ₛ "long-poll" || mode ==ₛ "long_poll"
    then "long-poll"
    else if mode ==ₛ "websocket" || mode ==ₛ "ws"
    then "websocket"
    else mode

unfoldable pub normalized_transport_mode : Config → String
normalized_transport_mode c =
    let mode = normalize_transport_mode c.transport_mode in
    if mode ==ₛ "" then if c.long_polling then "long-poll" else "interval" else mode

abbrev pub is_mode : String → Bool
is_mode mode = mode ==ₛ "interval" || mode ==ₛ "long-poll" || mode ==ₛ "websocket"

abbrev pub is_backend : String → Bool
is_backend v = let b = to_lower (trim_space v) in b ==ₛ "redis" || b ==ₛ "sqlite"

abbrev pub is_role : String → Bool
is_role v = v ==ₛ "listener" || v ==ₛ "sender"

abbrev pub is_port : ℤ → Bool
is_port p = not (ltb_ℤ p (pos 1)) && not (ltb_ℤ (pos 65535) p)

-- the first check that fails stops with its error
abbrev pub first_failure : List (Bool × Invalid) → Option Invalid
first_failure [] = none
first_failure ((fails, e) ∷ checks) = if fails then some e else first_failure checks

-- whether each check fails, in the order of the code
unfoldable pub checks : Config → List (Bool × Invalid)
checks c =
    (c.machine_id ==ₛ "", machine_id_required)
    ∷ (c.instance_name ==ₛ "", instance_name_required)
    ∷ (ltb 32 (length (utf8 c.instance_name)), instance_name_too_long)
    ∷ (not (is_role c.role), bad_role)
    ∷ (not (is_backend c.storage_backend), bad_storage_backend)
    ∷ (not (is_port c.listen_port), bad_listen_port)
    ∷ (not (is_port c.redis_port), bad_redis_port)
    ∷ (ltb_ℤ c.redis_pool_size (pos 1), bad_redis_pool_size)
    ∷ (ltb_ℤ c.poll_interval (pos 1), bad_poll_interval)
    ∷ (ltb_ℤ c.poll_batch_size (pos 1), bad_poll_batch_size)
    ∷ (ltb_ℤ c.request_timeout (pos 1), bad_request_timeout)
    ∷ (ltb_ℤ c.long_poll_wait (pos 1), bad_long_poll_wait)
    ∷ (ltb_ℤ c.async_workers (pos 1), bad_async_workers)
    ∷ (not (is_mode (normalized_transport_mode c)), bad_transport_mode)
    ∷ (ltb_ℤ c.proxy_cooldown_seconds (pos 1), bad_proxy_cooldown)
    ∷ (ltb_ℤ c.transport_chunk_size_bytes (pos 1024), bad_chunk_size)
    ∷ (ltb_ℤ c.ws_ping_interval (pos 1), bad_ws_ping_interval)
    ∷ (ltb_ℤ c.ws_keepalive_interval (pos 1), bad_ws_keepalive_interval)
    ∷ (ltb_ℤ c.ws_write_timeout (pos 1), bad_ws_write_timeout)
    ∷ (ltb_ℤ c.ws_idle_timeout (pos 1), bad_ws_idle_timeout)
    ∷ (ltb_ℤ c.ws_reconnect_base_seconds (pos 1), bad_ws_reconnect_base)
    ∷ (ltb_ℤ c.ws_reconnect_max_seconds c.ws_reconnect_base_seconds, bad_ws_reconnect_max)
    ∷ (ltb_ℤ c.result_ttl (pos 1), bad_result_ttl)
    ∷ []

unfoldable pub validate : Config → Option Invalid
validate c = first_failure (checks c)
