-- ===== src/Webhook/Retries.antt =====
-- internal/webhook/delivery.go: how a delivery ends, for any number of attempts.
use relayra.Prelude.{
  ℕ, zero, suc, ◌+◌, ◌-◌, ◌≤◌, ◌<◌, min, String, ◌≡◌, refl, true, false, Option, none, some, ltb,
  leb, get_elem?, if◌then◌else◌, arith, subst, Bool-cases, inl, inr,
}
use relayra.Errors.{index_panic}
use relayra.Models.{ResultStatus}
use relayra.Codec.{Codec}
use relayra.Redis.{Redis}
use relayra.Redis.Actions.{State, Exec, raise, attempt}
use relayra.Store.Results.{update_result_webhook_status}
use relayra.Webhook.{
  Attempt, unsendable, unanswered, answered, backoffs, is_success, end_with, retry, after_attempt,
  attempts_from, deliver,
}

-- how a delivery can end
pub data Ending : Type 0 where
  delivered failed panicked : Ending

-- what an attempt decides by itself
abbrev pub decided : Attempt → Option Ending
decided unsendable = some failed
decided unanswered = none
decided (answered status) = if is_success status then some delivered else none

abbrev pub or_else : Option Ending → Ending → Ending
or_else none o = o
or_else (some o) _ = o

-- the first of some attempts that decides, or else the last word
abbrev pub first_decided : (ℕ → Attempt) → Ending → ℕ → ℕ → Ending
first_decided meets last zero n = last
first_decided meets last (suc count) n =
    or_else (decided (meets n)) (first_decided meets last count (n + 1))

module _ ⦃R : Redis⦄ ⦃C : Codec⦄ (id : String) (max_retries : ℕ) (meets : ℕ → Attempt) where
  open R use {Db}

  -- what each ending does to the result: it is marked as sent, or as failed, or it is left
  abbrev pub ends : Ending → Exec Db (Unit {0})
  ends delivered = attempt (update_result_webhook_status id ResultStatus.webhook_sent)
  ends failed = attempt (update_result_webhook_status id ResultStatus.webhook_failed)
  ends panicked = raise index_panic

  after_attempt_lem :
      (a : Attempt) (n : ℕ) (rest : Exec Db (Unit {0})) (s : State Db) (o : Ending)
      → retry id max_retries meets n rest s ≡ ends o s
      → after_attempt id max_retries meets a n rest s ≡ ends (or_else (decided a) o) s
  unfolding after_attempt end_with
  after_attempt_lem unsendable n rest s o h = refl
  after_attempt_lem unanswered n rest s o h = h
  after_attempt_lem (answered status) n rest s o h = elim (Bool-cases (is_success status)) [
    | inl good ↦ rw good refl
    | inr bad ↦ rw bad h
  ]

  retry-last :
      (n : ℕ) (rest : Exec Db (Unit {0})) (s : State Db)
      → max_retries ≤ n
      → retry id max_retries meets n rest s ≡ ends failed s
  unfolding retry end_with
  retry-last n rest s done =
      let last : ltb n max_retries ≡ false = ground (arith, done) in rw last refl

  -- there are three backoffs
  backoff_there : (n : ℕ) → n < 3 → (b : ℕ) × (get_elem? backoffs n ≡ some b)
  backoff_there zero h = (5, refl)
  backoff_there (suc zero) h = (15, refl)
  backoff_there (suc (suc zero)) h = (45, refl)
  backoff_there (suc (suc (suc n))) h = absurd (omega (arith, h))

  retry-next :
      (n : ℕ) (rest : Exec Db (Unit {0})) (s : State Db)
      → n < max_retries
      → n ≤ 3
      → 1 ≤ n
      → retry id max_retries meets n rest s ≡ rest s
  unfolding retry
  retry-next n rest s more few first =
      let again : ltb n max_retries ≡ true = ground (arith, more) in
      let (b, there) = backoff_there (n - 1) (omega (arith, few, first)) in rw (again, there) refl

  retry-panics :
      (n : ℕ) (rest : Exec Db (Unit {0})) (s : State Db)
      → n ≡ 4
      → 5 ≤ max_retries
      → retry id max_retries meets n rest s ≡ ends panicked s
  unfolding retry
  retry-panics n rest s four many =
      let again : ltb 4 max_retries ≡ true = ground (arith, many) in rw (four, again) refl

  attempts_from-failed :
      (left n : ℕ) (s : State Db)
      → n + left ≡ max_retries
      → 1 ≤ n
      → max_retries ≤ 4
      → attempts_from id max_retries meets (suc left) n s
        ≡ ends (first_decided meets failed (suc left) n) s
  unfolding attempts_from
  attempts_from-failed zero n s e first few =
      after_attempt_lem (meets n) n _ s failed (retry-last n _ s (omega (arith, e)))
  attempts_from-failed (suc left) n s e first few = after_attempt_lem (meets n) n _ s _ (
      rw
        (retry-next n (attempts_from id max_retries meets (suc left) (n + 1)) s (omega (arith, e))
          (omega (arith, e, few)) first)
        (attempts_from-failed left (n + 1) s (omega (arith, e)) (omega arith) few))

  attempts_from-panicked :
      (left count n : ℕ) (s : State Db)
      → count ≤ left
      → n + count ≡ 4
      → 1 ≤ n
      → 5 ≤ max_retries
      → attempts_from id max_retries meets (suc left) n s
        ≡ ends (first_decided meets panicked (suc count) n) s
  unfolding attempts_from
  attempts_from-panicked left zero n s enough e first many =
      let four : n ≡ 4 = omega (arith, e) in
      after_attempt_lem (meets n) n _ s panicked (retry-panics n _ s four many)
  attempts_from-panicked zero (suc count) n s enough e first many = absurd (omega (arith, enough))
  attempts_from-panicked (suc left) (suc count) n s enough e first many =
      after_attempt_lem (meets n) n _ s _ (
        rw
          (retry-next n (attempts_from id max_retries meets (suc left) (n + 1)) s
            (omega (arith, e, many)) (omega (arith, e)) first)
          (attempts_from-panicked left count (n + 1) s (omega (arith, enough)) (omega (arith, e))
            (omega arith) many))

  -- A delivery with one attempt or more does to the result what its first attempt that decides asks
  -- for, and nothing else: it marks the result as sent at a status in the two hundreds, and as
  -- failed where there can be no request. If none decides, it marks the result as failed when up to
  -- four attempts are allowed; when more are, it panics after the fourth and marks nothing. This is
  -- so whatever exchanges with Redis fail.
  pub deliver-first_decided :
      (s : State Db)
      → 1 ≤ max_retries
      → deliver id max_retries meets s
        ≡ ends
            (first_decided meets
              (if leb max_retries 4 then failed else panicked)
              (min max_retries 4)
              1)
            s
  unfolding deliver
  deliver-first_decided s some_attempts =
      let left = max_retries - 1 in
      let one_more : suc left ≡ max_retries = omega (arith, some_attempts) in
      elim (Bool-cases (leb max_retries 4)) [
        | inl few ↦
            let all : min max_retries 4 ≡ max_retries = ground (arith, few) in
            rw (few, all)
              (subst
                (λ k.
                  attempts_from id max_retries meets k 1 s
                  ≡ ends (first_decided meets failed k 1) s)
                one_more
                (attempts_from-failed left 1 s (omega (arith, one_more)) (omega arith)
                  (ground (arith, few))))
        | inr many ↦
            let four : min max_retries 4 ≡ 4 = ground (arith, many) in
            let five : 5 ≤ max_retries = ground (arith, many) in
            rw (many, four)
              (subst
                (λ k.
                  attempts_from id max_retries meets k 1 s
                  ≡ ends (first_decided meets panicked 4 1) s)
                one_more
                (attempts_from-panicked left 3 1 s (omega (arith, five)) refl (omega arith) five))
      ]
