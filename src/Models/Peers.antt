-- ===== src/Models/Peers.antt =====
-- internal/models/peer.go and api_token.go: the nodes that are paired, and the tokens of clients.
-- The times of a peer are Go's `time.Time`; those of tokens are seconds since the epoch.
use relayra.Prelude.{ℕ, String, List, ℤ, negsuc}

-- the seconds since the epoch, and the nanoseconds behind them
pub record Time : Type 0 where
  pub seconds : ℤ
  pub nanos : ℕ

-- `time.Unix(ts, 0)`
abbrev pub unix_time : ℤ → Time
unix_time ts = record { seconds = ts; nanos = 0 }

-- 1 January of the year 1, the time of `time.Time{}`
abbrev pub zero_time : Time
zero_time = unix_time (negsuc 62135596799)

-- 1 January of the year 0, the time that `time.Parse("", "")` gives
abbrev pub year_zero : Time
year_zero = unix_time (negsuc 62167219199)

pub record Peer : Type 0 where
  pub id : String
  pub name : String
  pub machine_id : String
  pub role : String
  pub address : String
  pub capabilities : List String
  pub encryption_key : List ℕ
  pub registered_at : Time
  pub last_seen : Time

pub record PairingToken : Type 0 where
  pub listener_addr : String
  pub listener_id : String
  pub listener_name : String
  pub secret : String
  pub expires_at : ℕ

pub record PairingRequest : Type 0 where
  pub secret : String
  pub machine_id : String
  pub name : String
  pub capabilities : List String

-- `token` is shown once, when it is made
pub record ApiToken : Type 0 where
  pub id : String
  pub name : String
  pub token : String
  pub token_hash : String
  pub created_at : ℕ
  pub last_used : ℕ
  pub usage_count : ℕ
