-- ===== src/Proxy.antt =====
-- internal/proxy/manager.go: which proxy the sender uses. Whether a URL parses, and whether a
-- transport can be made for it, is known to net/url and golang.org/x/net/proxy: two parameters. A
-- transport is known by its URL.
pub mod Choice
pub mod Frame
use relayra.Prelude.{
  ℕ, ◌+◌, String, Bool, false, ◌&&◌, not, Option, none, some, List, [], ◌∷◌, ltb, ◌==ₛ◌, ◌==◌,
  if◌then◌else◌,
}
use relayra.Errors.{invalid_proxy_url, no_proxies, all_proxies_exhausted}
use relayra.Redis.{Redis}
use relayra.Redis.Actions.{Exec, pure, raise, attempt, ◌>>=◌, ◌>>◌}
use relayra.Store.Proxies.{
  ProxyRecord, add_proxy, remove_proxy, list_proxy_records, mark_proxy_success, mark_proxy_failed,
  reset_all_proxy_cooldowns, update_proxy_url, proxy_count,
}

pub record Manager : Type 0 where
  pub cooldown : ℕ
  pub allow_direct : Bool

-- five minutes where no cooldown is given
unfoldable pub new_manager : ℕ → Bool → Manager
new_manager cooldown allow_direct = record {
  cooldown = if cooldown == 0 then 300 else cooldown;
  allow_direct = allow_direct;
}

pub record ProxyInfo : Type 0 where
  pub url : String
  pub priority : ℕ
  pub fail_count : ℕ
  pub last_checked : Option ℕ
  pub healthy : Bool

abbrev pub max_fail_count : ℕ
max_fail_count = 3

abbrev pub direct_url : String
direct_url = "direct"

abbrev pub info_of : ProxyRecord → ProxyInfo
info_of p = record {
  url = p.url;
  priority = p.priority;
  fail_count = p.fail_count;
  last_checked = p.last_checked;
  healthy = ltb p.fail_count max_fail_count;
}

abbrev pub infos_of : List ProxyRecord → List ProxyInfo
infos_of [] = []
infos_of (p ∷ ps) = info_of p ∷ infos_of ps

-- `time.Since(p.LastChecked) < m.cooldown`; the zero time is long ago
abbrev pub checked_within : ℕ → ℕ → Option ℕ → Bool
checked_within cooldown now none = false
checked_within cooldown now (some t) = ltb now (t + cooldown)

-- the proxies that are passed over
abbrev pub in_cooldown : Manager → ℕ → ProxyInfo → Bool
in_cooldown m now p = not p.healthy && checked_within m.cooldown now p.last_checked

module _ ⦃R : Redis⦄ where
  open R use {Db}

  unfoldable pub list_proxies : Exec Db (List ProxyInfo)
  list_proxies = do records ← list_proxy_records; pure (infos_of records)

  unfoldable pub add : (String → Bool) → String → ℕ → Exec Db (Unit {0})
  add parses url priority =
      if not (parses url) then raise invalid_proxy_url else add_proxy url priority

  unfoldable pub remove : String → Exec Db (Unit {0})
  remove url = remove_proxy url

  unfoldable pub mark_success : String → ℕ → Exec Db (Unit {0})
  mark_success url now =
      if url ==ₛ direct_url then pure tt else attempt (mark_proxy_success url now)

  unfoldable pub mark_failed : String → ℕ → Exec Db (Unit {0})
  mark_failed url now = if url ==ₛ direct_url then pure tt else attempt (mark_proxy_failed url now)

  -- the end of the loop of `GetTransport`
  abbrev exhausted : Manager → Exec Db String
  exhausted m = if m.allow_direct then pure direct_url else raise all_proxies_exhausted

  choose : (String → Bool) → Manager → ℕ → List ProxyInfo → Exec Db String
  choose creates m now [] = exhausted m
  choose creates m now (p ∷ proxies) =
      let rest = choose creates m now proxies in
      if in_cooldown m now p
      then rest
      else if creates p.url
      then pure p.url
      else (do mark_failed p.url now; rest)

  abbrev some_listed : (String → Bool) → Manager → ℕ → List ProxyInfo → Exec Db String
  unfolding choose
  some_listed creates m now [] = if m.allow_direct then pure direct_url else raise no_proxies
  some_listed creates m now (p ∷ proxies) = choose creates m now (p ∷ proxies)

  unfoldable pub get_transport : (String → Bool) → Manager → ℕ → Exec Db String
  unfolding some_listed
  get_transport creates m now = do proxies ← list_proxies; some_listed creates m now proxies

  -- the count that is taken first is not used, but an error of its listing is
  unfoldable pub reset_all_cooldowns : ℕ → Exec Db ℕ
  reset_all_cooldowns now = do list_proxies; reset_all_proxy_cooldowns now

  unfoldable pub reset_cooldown : String → ℕ → Exec Db (Unit {0})
  reset_cooldown url now = mark_success url now

  unfoldable pub update_url : String → String → Exec Db (Unit {0})
  update_url old_url new_url = update_proxy_url old_url new_url

  unfoldable pub count : Exec Db ℕ
  count = proxy_count
