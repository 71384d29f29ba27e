-- ===== src/Tests/Proxies.antt =====
-- The theorems of Store/Proxies and Proxy at concrete inputs.
use relayra.Prelude.{◌+◌, String, ◌≡◌, refl, Bool, true, List, [], ◌∷◌, some, none}
use relayra.Errors.{ok}
use relayra.Redis.Actions.{calm, run_all, ◌>>=◌}
use relayra.Redis.Objects.{rank, unrank, named, zadd}
use relayra.Store.Proxies.{proxy_list, mark_proxy_failed, get_proxy_status, list_proxy_records}
use relayra.Store.Proxies.Shared.{failures, mark_proxy_failed-shared}
use relayra.Proxy.{Manager, ProxyInfo, get_transport, list_proxies}
use relayra.Proxy.Choice.{value_or_none, choice, get_transport-choice}
use relayra.Tests.Memory.{Memory, empty, memory}

abbrev one_listed : Memory
one_listed = run_all memory.write (zadd proxy_list 1 (named "socks5://a") ∷ []) empty

mark_proxy_failed-shared_example :
    (e : Memory) × (mark_proxy_failed "socks5://a" 100 (calm one_listed)
      ≡ (ok (failures one_listed "socks5://b" + 1), calm e))
    × (get_proxy_status "socks5://b" (calm e) ≡ (
      ok (record { fail_count = failures one_listed "socks5://b" + 1; last_checked = some 100 }),
      calm e,
    ))
mark_proxy_failed-shared_example =
    mark_proxy_failed-shared one_listed "socks5://a" "socks5://b" 100 refl

abbrev pub manager : Manager
manager = record { cooldown = 300; allow_direct = true }

abbrev pub all_can : String → Bool
all_can _ = true

abbrev listed : List ProxyInfo
listed =
    record { url = "socks5://a"; priority = 1; fail_count = 0; last_checked = none; healthy = true }
    ∷ []

one_listed-list : (list_proxies (calm one_listed)).0 ≡ ok listed
unfolding list_proxies list_proxy_records get_proxy_status rank unrank ◌>>=◌
one_listed-list = refl

get_transport-choice_example :
    value_or_none all_can manager 100 (get_transport all_can manager 100 (calm one_listed)).0
    ≡ choice all_can manager 100 listed
get_transport-choice_example =
    get_transport-choice all_can manager 100 (calm one_listed) listed one_listed-list
