-- ===== src/Store/Sender/Pending/History.antt =====
-- internal/store/queue.go and runtime_redis.go: the sender's calls on its results, in any order.
use relayra.Prelude.{ℕ, String, ◌≡◌, arith, List, [], ◌∷◌, eq_refl, false, ◌==ₛ◌, subst, sym, All}
use relayra.Errors.{ok}
use relayra.Models.{RelayResult}
use relayra.Codec.{Codec}
use relayra.Redis.{Redis}
use relayra.Redis.Objects.{named, unrank, ranked}
use relayra.Redis.Actions.{State, Outcome, Exec, pure, under, attempt, batch-ok, run_all, ◌>>◌}
use relayra.Redis.Actions.Always.{Always, Always-pure, Always-under, Always-attempt, Always-bind}
use relayra.Redis.Actions.Calm.{Ends-holds, AlwaysCalm-attempt}
use relayra.Store.Sender.{
  pending_set, push_result, push_commands, repush_results, ack_results, lease_results,
}
use relayra.Store.Sender.Pending.{
  IsPending, has-rank, push_result-IsPending, repush_results-IsPending, ack_results-IsPending,
  lease_results-IsPending,
}

-- the calls, each with the time that the clock shows
pub data Call : Type 0 where
  push : RelayResult → ℕ → ℕ → Call
  lease : ℕ → ℕ → ℕ → Call
  repush : List RelayResult → Call
  acknowledge : List String → Call

-- Exchanges of a call may fail, those of `LeaseResults` excepted, and the result is not acknowledged.
abbrev pub Allows : String → Call → List Outcome → Type 0
Allows id (lease _ _ _) net = net ≡ []
Allows id (acknowledge ids) net = All (λ j. (j ==ₛ id) ≡ false) ids
Allows id _ net = Unit

module _ ⦃R : Redis⦄ ⦃C : Codec⦄ where
  open R use {Db, look, write, look-write}
  open C use {json_result, parse-json_result}

  abbrev pub run_call : Call → Exec Db (Unit {0})
  run_call (push result now_milli now) = attempt (push_result result now_milli now)
  run_call (lease max_count ttl now) = attempt (lease_results max_count ttl now)
  run_call (repush results) = attempt (repush_results results)
  run_call (acknowledge ids) = attempt (ack_results ids)

  -- a call that fails does not stop the next one
  abbrev pub run_calls : List (Call × List Outcome) → Exec Db (Unit {0})
  run_calls [] = pure tt
  run_calls ((c, net) ∷ cs) = do under net (run_call c); run_calls cs

  module _ (id : String) where
    run_call-IsPending :
        (c : Call) (net : List Outcome)
        → Allows id c net
        → Always (IsPending id) (under net (run_call c))
    run_call-IsPending (push result now_milli now) net allowed =
        Always-under net _ (Always-attempt _ (push_result-IsPending id result now_milli now))
    run_call-IsPending (lease max_count ttl now) net allowed = record {
      at = λ s h.
          subst (λ n. IsPending id (run_call (lease max_count ttl now) (record s { net = n })).1.db)
            (sym allowed)
            (Ends-holds
              ((AlwaysCalm-attempt _ (lease_results-IsPending id max_count ttl now)).at s.db h));
    }
    run_call-IsPending (repush results) net allowed =
        Always-under net _ (Always-attempt _ (repush_results-IsPending id results))
    run_call-IsPending (acknowledge ids) net allowed =
        Always-under net _ (Always-attempt _ (ack_results-IsPending id ids allowed))

    run_calls-IsPending :
        (cs : List (Call × List Outcome))
        → All (λ c. Allows id c.0 c.1) cs
        → Always (IsPending id) (run_calls cs)
    run_calls-IsPending [] allowed = Always-pure tt
    run_calls-IsPending ((c, net) ∷ cs) allowed =
        Always-bind _ _ (run_call-IsPending c net allowed.0) (λ _. run_calls-IsPending cs allowed.1)

  after_push-IsPending :
      (result : RelayResult) (now_milli now : ℕ) (d : Db)
      → IsPending result.request_id
          (run_all write (push_commands result (json_result result) now_milli now) d)
  after_push-IsPending result now_milli now d =
      let m = named result.request_id in
      simp (look-write, eq_refl)
        (ground (
          arith,
          eq_refl result.request_id,
          parse-json_result result,
          has-rank m m now_milli (unrank m (ranked (look d pending_set))),
        ))

  -- Once `PushResult` has returned without an error, the result is in the set of those that wait,
  -- and its hash holds a result that can be read, after any sequence of the sender's calls
  -- (pushing, leasing, pushing back and acknowledging, of this and of other results, at any times)
  -- in which it is not acknowledged, whatever exchanges with Redis fail in the calls other than the
  -- leasing of results.
  pub pushed-IsPending :
      (result : RelayResult) (now_milli now : ℕ) (cs : List (Call × List Outcome)) (s : State Db)
      → All (λ c. Allows result.request_id c.0 c.1) cs
      → (push_result result now_milli now s).0 ≡ ok tt
      → IsPending result.request_id (run_calls cs (push_result result now_milli now s).1).1.db
  unfolding push_result
  pushed-IsPending result now_milli now cs s allowed h =
      (run_calls-IsPending result.request_id cs allowed).at (push_result result now_milli now s).1 (
        subst (IsPending result.request_id) (sym (batch-ok write _ s tt h))
          (after_push-IsPending result now_milli now s.db))
