-- ===== src/Store/Sender/Pending/Frame.antt =====
-- internal/store/queue.go: what the storing of a result leaves alone, whatever exchanges fail.
use relayra.Prelude.{ℕ, refl, Bool, true, false}
use relayra.Models.{RelayResult}
use relayra.Codec.{Codec}
use relayra.Redis.{Redis}
use relayra.Redis.Keys
use relayra.Redis.Keys.{Space}
use relayra.Redis.Frame.{Spares, Always-spared}
use relayra.Redis.Actions.Always.{Always}
use relayra.Store.Sender.{push_result}

abbrev pub is_result_kind : Space → Bool
is_result_kind Keys.pending_results = true
is_result_kind Keys.pending_result = true
is_result_kind _ = false

module _ ⦃R : Redis⦄ ⦃C : Codec⦄ {P : R.Db → Type 0} (spares : Spares is_result_kind P) where
  pub push_result-Always :
      (result : RelayResult) (now_milli now : ℕ) → Always P (push_result result now_milli now)
  unfolding push_result
  push_result-Always result now_milli now = Always-spared is_result_kind spares _ (refl, (refl, tt))
