-- ===== src/Store/Proxies.antt =====
-- internal/store/redis_proxy.go: the proxies that the sender may use, in the order of their
-- priorities, and how often each has failed. A priority is a natural number here.
pub mod Hash
pub mod Shared
pub mod Frame
use relayra.Prelude.{
  ℕ, ◌+◌, String, Bool, false, not, Option, none, some, List, [], ◌∷◌, ltb, if◌then◌else◌, length,
}
use relayra.Errors.{proxy_not_found}
use relayra.Redis.{Redis, pipeline}
use relayra.Redis.Keys
use relayra.Redis.Keys.{Key, key, the}
use relayra.Redis.Objects.{
  Object, absent, Command, Value, number, named, Member, member_eq, hset, del, zadd, zrem, fields,
  exists, ranked,
}
use relayra.Redis.Actions.{Exec, pure, raise, read, read_or, batch, ◌>>=◌, ◌>>◌}
use relayra.Store.Reads.{number_of}
use relayra.Store.Proxies.Hash.{hash_url}

pub record ProxyRecord : Type 0 where
  pub url : String
  pub priority : ℕ
  pub fail_count : ℕ
  pub last_checked : Option ℕ  -- `none` is the zero time

pub record ProxyStatus : Type 0 where
  pub fail_count : ℕ
  pub last_checked : Option ℕ

abbrev pub proxy_list : Key
proxy_list = the Keys.proxy_list

abbrev pub status_key : String → Key
status_key url = key Keys.proxy_status (hash_url url)

abbrev pub time_of : Option Value → Option ℕ
time_of (some (number t)) = some t
time_of _ = none

abbrev pub record_of : String → ℕ → ProxyStatus → ProxyRecord
record_of url priority status = record {
  url = url;
  priority = priority;
  fail_count = status.fail_count;
  last_checked = status.last_checked;
}

-- `ZScore`
abbrev pub score_of : Member → List (ℕ × Member) → Option ℕ
score_of m [] = none
score_of m ((s, x) ∷ xs) = let rest = score_of m xs in if member_eq m x then some s else rest

module _ ⦃R : Redis⦄ where
  open R use {Db, look, write}

  unfoldable pub add_proxy : String → ℕ → Exec Db (Unit {0})
  add_proxy url priority = pipeline (zadd proxy_list priority (named url) ∷ [])

  unfoldable pub remove_proxy : String → Exec Db (Unit {0})
  remove_proxy url = pipeline (zrem proxy_list (named url) ∷ del (status_key url) ∷ [])

  -- each of the three reads may fail without a trace
  unfoldable pub get_proxy_status : String → Exec Db ProxyStatus
  get_proxy_status url = do
    o ← read_or absent (λ d. look d (status_key url))
    if not (exists o) then pure (record { fail_count = 0; last_checked = none }) else (do
      failures ← read_or 0 (λ d. number_of (fields (look d (status_key url)) Keys.fail_count))
      checked ← read_or none (λ d. time_of (fields (look d (status_key url)) Keys.last_checked))
      pure (record { fail_count = failures; last_checked = checked }))

  records_from : List (ℕ × Member) → Exec Db (List ProxyRecord)
  unfolding get_proxy_status
  records_from [] = pure []
  records_from ((priority, named url) ∷ members) = do
    status ← get_proxy_status url
    rest ← records_from members
    pure (record_of url priority status ∷ rest)
  records_from (_ ∷ members) = records_from members

  unfoldable pub list_proxy_records : Exec Db (List ProxyRecord)
  unfolding records_from
  list_proxy_records = do members ← read (λ d. ranked (look d proxy_list)); records_from members

  unfoldable pub mark_proxy_success : String → ℕ → Exec Db (Unit {0})
  mark_proxy_success url now = pipeline (
      hset (status_key url) ((Keys.fail_count, number 0) ∷ (Keys.last_checked, number now) ∷ [])
      ∷ [])

  unfoldable pub mark_proxy_failed : String → ℕ → Exec Db ℕ
  mark_proxy_failed url now = do
    batch write (λ d.
        let failures = number_of (fields (look d (status_key url)) Keys.fail_count) + 1 in
        (hset (status_key url) ((Keys.fail_count, number failures) ∷ []) ∷ [], failures))
    pipeline (hset (status_key url) ((Keys.last_checked, number now) ∷ []) ∷ [])
    read (λ d. number_of (fields (look d (status_key url)) Keys.fail_count))

  unfoldable pub reset_proxy_cooldown : String → ℕ → Exec Db (Unit {0})
  reset_proxy_cooldown url now = mark_proxy_success url now

  reset_from : ℕ → ℕ → List ProxyRecord → Exec Db ℕ
  reset_from now count [] = pure count
  reset_from now count (p ∷ proxies) =
      let skipped = reset_from now count proxies in
      let counted = reset_from now (count + 1) proxies in
      if ltb 0 p.fail_count then (do mark_proxy_success p.url now; counted) else skipped

  unfoldable pub reset_all_proxy_cooldowns : ℕ → Exec Db ℕ
  unfolding reset_from
  reset_all_proxy_cooldowns now = do proxies ← list_proxy_records; reset_from now 0 proxies

  abbrev replace_url : String → String → Option ℕ → Exec Db (Unit {0})
  replace_url old_url new_url none = raise proxy_not_found
  replace_url old_url new_url (some score) = pipeline (
      zrem proxy_list (named old_url)
      ∷ del (status_key old_url)
      ∷ zadd proxy_list score (named new_url)
      ∷ [])

  unfoldable pub update_proxy_url : String → String → Exec Db (Unit {0})
  update_proxy_url old_url new_url = do
    score ← read (λ d. score_of (named old_url) (ranked (look d proxy_list)))
    replace_url old_url new_url score

  unfoldable pub proxy_count : Exec Db ℕ
  proxy_count = read (λ d. length (ranked (look d proxy_list)))
