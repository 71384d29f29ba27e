-- ===== src/Store/Outbox/Frame.antt =====
-- internal/store/ws_outbox_redis.go and internal/transport/wsoutbox.go: what the calls on an outbox
-- leave alone, whatever exchanges fail.
use relayra.Prelude.{ℕ, String, refl, Bool, true, false}
use relayra.Models.{WsType}
use relayra.Codec.{Bytes}
use relayra.Redis.{Redis}
use relayra.Redis.Keys
use relayra.Redis.Keys.{Space}
use relayra.Redis.Frame.{Spares, Always-script}
use relayra.Redis.Actions.Always.{Always}
use relayra.Store.Outbox.{append_ws_outbox}

abbrev pub is_outbox_kind : Space → Bool
is_outbox_kind Keys.ws_state = true
is_outbox_kind Keys.ws_outbox_index = true
is_outbox_kind Keys.ws_outbox_msg = true
is_outbox_kind _ = false

module _ ⦃R : Redis⦄ {P : R.Db → Type 0} (spares : Spares is_outbox_kind P) where
  pub append_ws_outbox-Always :
      (scope : String) (type : WsType) (ref_id : String) (payload : Bytes) (now : ℕ)
      → Always P (append_ws_outbox scope type ref_id payload now)
  unfolding append_ws_outbox
  append_ws_outbox-Always scope type ref_id payload now =
      Always-script is_outbox_kind spares _ (λ d. (refl, (refl, (refl, (refl, tt)))))
