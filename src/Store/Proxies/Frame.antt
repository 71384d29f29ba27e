-- ===== src/Store/Proxies/Frame.antt =====
-- internal/store/redis_proxy.go: to list the proxies changes nothing.
use relayra.Prelude.{ℕ, String, List, [], ◌∷◌, not}
use relayra.Redis.{Redis}
use relayra.Redis.Objects.{Member, exists}
use relayra.Redis.Actions.Always.{
  Always, Always-pure, Always-read, Always-read_or, Always-either, Always-bind,
}
use relayra.Store.Proxies.{get_proxy_status, records_from, list_proxy_records}

module _ ⦃R : Redis⦄ {P : R.Db → Type 0} where
  get_proxy_status-Always : (url : String) → Always P (get_proxy_status url)
  unfolding get_proxy_status
  get_proxy_status-Always url = Always-bind _ _ (Always-read_or _ _) (λ o.
      Always-either (not (exists o)) (Always-pure _) (
        Always-bind _ _ (Always-read_or _ _)
          (λ failures. Always-bind _ _ (Always-read_or _ _) (λ checked. Always-pure _))))

  records_from-Always : (members : List (ℕ × Member)) → Always P (records_from members)
  unfolding records_from
  records_from-Always [] = Always-pure _
  records_from-Always ((priority, Member.named url) ∷ members) =
      Always-bind _ _ (get_proxy_status-Always url)
        (λ status. Always-bind _ _ (records_from-Always members) (λ rest. Always-pure _))
  records_from-Always ((priority, Member.numbered n) ∷ members) = records_from-Always members

  pub list_proxy_records-Always : Always P list_proxy_records
  unfolding list_proxy_records
  list_proxy_records-Always = Always-bind _ _ (Always-read _) records_from-Always
