-- ===== src/Server/Results/Stores.antt =====
-- internal/server/handlers.go: the results of a poll are stored, and then listed.
use relayra.Prelude.{List, [], ◌∷◌, ◌++◌, Option, none, some, All, String}
use relayra.Models.{RelayResult}
use relayra.Codec.{Codec}
use relayra.Settings.{Settings}
use relayra.Redis.{Redis}
use relayra.Redis.Actions.Always.{
  Always, Always-true, Always-pure, Always-read, Always-try, Always-bind,
}
use relayra.Redis.Actions.Triple.{
  Tried, Triple, Triple-pure, Triple-always, Triple-and, Triple-try, Triple-mono, Triple-bind,
}
use relayra.Store.Queue.{get_request_webhook_url}
use relayra.Store.Results.Kept.{AllStored, store_result-AllStored, store_result-stores}
use relayra.Server.Results.{start_delivery, after_store, store_results}

All-append : {A : Type 0} (P : A → Type 0) (xs ys : List A) → All P xs → All P ys → All P (xs ++ ys)
All-append P [] ys hx hy = hy
All-append P (x ∷ xs) ys (h, hx) hy = (h, All-append P xs ys hx hy)

module _ ⦃R : Redis⦄ ⦃C : Codec⦄ (cfg : Settings) where
  open R use {Db}

  module _ (ids : List String) where
    start_delivery-AllStored :
        (result : RelayResult) → Always (AllStored ids) (start_delivery result)
    unfolding start_delivery get_request_webhook_url
    start_delivery-AllStored result =
        Always-bind _ _ (Always-try _ (Always-read _)) (λ url. Always-pure _)

    after_store-AllStored :
        (result : RelayResult) (stored : Option (Unit {0}))
        → Always (AllStored ids) (after_store result stored)
    unfolding after_store
    after_store-AllStored result none = Always-pure _
    after_store-AllStored result (some _) =
        Always-bind _ _ (start_delivery-AllStored result) (λ deliveries. Always-pure _)

    pub store_results-AllStored :
        (results : List RelayResult) → Always (AllStored ids) (store_results cfg results)
    unfolding store_results
    store_results-AllStored [] = Always-pure _
    store_results-AllStored (result ∷ results) =
        Always-bind _ _ (Always-try _ (store_result-AllStored ids result cfg.result_ttl)) (λ stored.
          Always-bind _ _ (after_store-AllStored result stored)
            (λ one. Always-bind _ _ (store_results-AllStored results) (λ more. Always-pure _)))

  -- a result is listed only once it is stored
  after_store-stores :
      (result : RelayResult) (stored : Option (Unit {0}))
      → Triple
          (Tried (λ _. Unit) (λ _ d. AllStored (result.request_id ∷ []) d) stored)
          (after_store result stored)
          (λ one d. AllStored one.0 d)
  unfolding after_store
  after_store-stores result none = Triple-pure _ (λ d h. tt)
  after_store-stores result (some _) =
      Triple-bind (Triple-always (start_delivery-AllStored (result.request_id ∷ []) result))
        (λ deliveries. Triple-pure _ (λ d h. h))

  pub store_results-stores :
      (results : List RelayResult)
      → Triple (λ _. Unit) (store_results cfg results) (λ listed d. AllStored listed.0 d)
  unfolding store_results
  store_results-stores [] = Triple-pure _ (λ d h. tt)
  store_results-stores (result ∷ results) =
      Triple-bind (Triple-try (store_result-stores result cfg.result_ttl) (Always-true _))
        (λ stored. Triple-bind (after_store-stores result stored) (λ one.
          Triple-bind
            (Triple-mono (λ d h. (tt, h)) (λ a d h. h)
              (Triple-and (store_results-stores results) (store_results-AllStored one.0 results)))
            (λ more. Triple-pure _ (λ d h. All-append _ one.0 more.0 h.1 h.0))))
