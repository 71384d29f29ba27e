-- ===== src/Store/Sender/Frame.antt =====
-- internal/store/queue.go and runtime_redis.go, the sender's half: what the calls on the states of
-- requests leave alone, whatever exchanges fail.
use relayra.Prelude.{ℕ, String, refl, Bool, true, false, Option, none, some, List, [], ◌∷◌}
use relayra.Models.{RequestSyncState}
use relayra.Redis.{Redis}
use relayra.Redis.Keys
use relayra.Redis.Keys.{Space}
use relayra.Redis.Objects.{Member}
use relayra.Redis.Frame.{Spares, Always-spared}
use relayra.Redis.Actions.Always.{Always, Always-pure, Always-read, Always-read_or, Always-bind}
use relayra.Store.Sender.{
  store_sender_request_state, get_sender_request_state, states_from, list_sender_request_states,
  result_is_pending,
}

abbrev pub is_sender_kind : Space → Bool
is_sender_kind Keys.sender_requests = true
is_sender_kind Keys.sender_request = true
is_sender_kind _ = false

module _ ⦃R : Redis⦄ {P : R.Db → Type 0} where
  pub get_sender_request_state-Always : (id : String) → Always P (get_sender_request_state id)
  unfolding get_sender_request_state
  get_sender_request_state-Always id = Always-read_or _ _

  pub result_is_pending-Always : (id : String) → Always P (result_is_pending id)
  unfolding result_is_pending
  result_is_pending-Always id = Always-read _

  states_from-Always : (ids : List Member) → Always P (states_from ids)
  unfolding states_from
  states_from-Always [] = Always-pure _
  states_from-Always (Member.named id ∷ ids) =
      Always-bind _ _ (get_sender_request_state-Always id)
        (λ state. Always-bind _ _ (states_from-Always ids) (λ rest. Always-pure _))
  states_from-Always (Member.numbered n ∷ ids) = states_from-Always ids

  pub list_sender_request_states-Always : Always P list_sender_request_states
  unfolding list_sender_request_states
  list_sender_request_states-Always = Always-bind _ _ (Always-read _) states_from-Always

  pub store_sender_request_state-Always :
      Spares is_sender_kind P
      → (state : Option RequestSyncState) (now : ℕ)
      → Always P (store_sender_request_state state now)
  unfolding store_sender_request_state
  store_sender_request_state-Always spares none now = Always-pure tt
  store_sender_request_state-Always spares (some state) now =
      Always-spared is_sender_kind spares _ (refl, (refl, tt))
