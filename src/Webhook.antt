-- ===== src/Webhook.antt =====
-- internal/webhook/delivery.go: how a result is sent to a webhook. What an attempt meets is a
-- parameter; the waiting between two attempts is left out.
pub mod Retries
use relayra.Prelude.{
  ℕ, zero, suc, ◌+◌, ◌-◌, String, Bool, ◌&&◌, Option, none, some, List, [], ◌∷◌, ltb, leb,
  get_elem?, if◌then◌else◌,
}
use relayra.Errors.{index_panic}
use relayra.Models.{ResultStatus}
use relayra.Codec.{Codec}
use relayra.Redis.{Redis}
use relayra.Redis.Actions.{Exec, pure, raise, attempt}
use relayra.Store.Results.{update_result_webhook_status}

-- what one attempt meets
pub data Attempt : Type 0 where
  -- there can be no request for the URL
  unsendable : Attempt
  -- no answer arrives
  unanswered : Attempt
  -- the status of an answer
  answered : ℕ → Attempt

-- the seconds between two attempts
abbrev pub backoffs : List ℕ
backoffs = 5 ∷ 15 ∷ 45 ∷ []

abbrev pub is_success : ℕ → Bool
is_success status = leb 200 status && ltb status 300

module _ ⦃R : Redis⦄ ⦃C : Codec⦄ (request_id : String) (max_retries : ℕ) (meets : ℕ → Attempt) where
  open R use {Db}

  -- the error of the store is not looked at
  unfoldable pub end_with : ResultStatus → Exec Db (Unit {0})
  end_with status = attempt (update_result_webhook_status request_id status)

  -- the index into `backoffs` is checked
  abbrev pub after_backoff : Option ℕ → Exec Db (Unit {0}) → Exec Db (Unit {0})
  after_backoff none rest = raise index_panic
  after_backoff (some _) rest = rest

  unfoldable pub retry : ℕ → Exec Db (Unit {0}) → Exec Db (Unit {0})
  unfolding end_with
  retry n rest =
      if ltb n max_retries
      then after_backoff (get_elem? backoffs (n - 1)) rest
      else end_with ResultStatus.webhook_failed

  unfoldable pub after_attempt : Attempt → ℕ → Exec Db (Unit {0}) → Exec Db (Unit {0})
  unfolding retry end_with
  after_attempt unsendable n rest = end_with ResultStatus.webhook_failed
  after_attempt unanswered n rest = retry n rest
  after_attempt (answered status) n rest =
      if is_success status then end_with ResultStatus.webhook_sent else retry n rest

  -- the attempts from one on, so many of them
  unfoldable pub attempts_from : ℕ → ℕ → Exec Db (Unit {0})
  unfolding after_attempt
  attempts_from zero n = pure tt
  attempts_from (suc left) n = after_attempt (meets n) n (attempts_from left (n + 1))

  unfoldable pub deliver : Exec Db (Unit {0})
  deliver = attempts_from max_retries 1
