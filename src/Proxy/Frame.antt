-- ===== src/Proxy/Frame.antt =====
-- internal/proxy/manager.go: what the choice of a proxy leaves alone, whatever exchanges fail.
use relayra.Prelude.{ℕ, String, refl, Bool, true, false, List, [], ◌∷◌, ◌==ₛ◌}
use relayra.Redis.{Redis}
use relayra.Redis.Keys
use relayra.Redis.Keys.{Space}
use relayra.Redis.Frame.{Spares, Always-script, Always-spared}
use relayra.Redis.Actions.Always.{
  Always, Always-pure, Always-raise, Always-read, Always-attempt, Always-either, Always-bind,
}
use relayra.Store.Proxies.{mark_proxy_success, mark_proxy_failed}
use relayra.Store.Proxies.Frame.{list_proxy_records-Always}
use relayra.Proxy.{
  ProxyInfo, Manager, list_proxies, mark_success, mark_failed, choose, some_listed, get_transport,
  in_cooldown, direct_url,
}

abbrev pub is_proxy_kind : Space → Bool
is_proxy_kind Keys.proxy_list = true
is_proxy_kind Keys.proxy_status = true
is_proxy_kind _ = false

module _ ⦃R : Redis⦄ {P : R.Db → Type 0} (spares : Spares is_proxy_kind P) where
  pub mark_success-Always : (url : String) (now : ℕ) → Always P (mark_success url now)
  unfolding mark_success mark_proxy_success
  mark_success-Always url now =
      Always-either (url ==ₛ direct_url) (Always-pure tt)
        (Always-attempt _ (Always-spared is_proxy_kind spares _ (refl, tt)))

  pub mark_failed-Always : (url : String) (now : ℕ) → Always P (mark_failed url now)
  unfolding mark_failed mark_proxy_failed
  mark_failed-Always url now = Always-either (url ==ₛ direct_url) (Always-pure tt) (
      Always-attempt _ (
        Always-bind _ _ (Always-script is_proxy_kind spares _ (λ d. (refl, tt))) (λ _.
          Always-bind _ _ (Always-spared is_proxy_kind spares _ (refl, tt)) (λ _. Always-read _))))

  choose-Always :
      (creates : String → Bool) (m : Manager) (now : ℕ) (proxies : List ProxyInfo)
      → Always P (choose creates m now proxies)
  unfolding choose
  choose-Always creates m now [] = Always-either m.allow_direct (Always-pure _) (Always-raise _)
  choose-Always creates m now (p ∷ proxies) =
      Always-either (in_cooldown m now p) (choose-Always creates m now proxies) (
        Always-either (creates p.url) (Always-pure _) (
          Always-bind _ _ (mark_failed-Always p.url now)
            (λ _. choose-Always creates m now proxies)))

  some_listed-Always :
      (creates : String → Bool) (m : Manager) (now : ℕ) (proxies : List ProxyInfo)
      → Always P (some_listed creates m now proxies)
  unfolding some_listed
  some_listed-Always creates m now [] =
      Always-either m.allow_direct (Always-pure _) (Always-raise _)
  some_listed-Always creates m now (p ∷ proxies) = choose-Always creates m now (p ∷ proxies)

  pub get_transport-Always :
      (creates : String → Bool) (m : Manager) (now : ℕ) → Always P (get_transport creates m now)
  unfolding get_transport list_proxies
  get_transport-Always creates m now =
      Always-bind _ _ (Always-bind _ _ list_proxy_records-Always (λ records. Always-pure _))
        (some_listed-Always creates m now)
