-- ===== src/Store/Queue/Durable/States.antt =====
-- internal/store/runtime_redis.go: `ApplyRequestStates` and the requests that are kept.
use relayra.Prelude.{
  ℕ, String, ◌≡◌, Bool, true, false, ◌||◌, ◌&&◌, not, List, [], ◌∷◌, arith, eq_iff, ◌==ₛ◌, subst,
  Bool-cases, inl, inr,
}
use relayra.Models.{RequestSyncState, RequestStatus, is_completed}
use relayra.Codec.{Codec}
use relayra.Redis.{Redis}
use relayra.Redis.Keys
use relayra.Redis.Keys.{Key, key_eq, key}
use relayra.Redis.Objects.{exists, hset, number, request_status}
use relayra.Redis.Actions.{State}
use relayra.Redis.Actions.Always.{
  Always, Always-pure, Always-read, Always-if, Always-bind, Always-batch, Always-read-bind,
}
use relayra.Store.Queue.{
  request_key, apply_request_states, set_state, apply_found, apply_one, applied_status,
  lease_or_now, result_exists,
}
use relayra.Store.Results.{result_key}
use relayra.Store.Queue.Durable.{is_answered, IsKept, IsAnswered, IsKept-of_IsAnswered}

module _ ⦃R : Redis⦄ (peer_id id : String) where
  open R use {Db, look, write, look-write}

  IsKept-state :
      (d : Db) (j : String) (s : RequestStatus) (until : ℕ)
      → is_answered peer_id id d || (not (j ==ₛ id) || not (is_completed s)) ≡ true
      → IsKept peer_id id d
      → IsKept peer_id id (
          write d (
            hset
              (request_key j)
              ((Keys.status, request_status s) ∷ (Keys.lease_until, number until) ∷ [])))
  IsKept-state d j s until ok h = simp look-write (ground arith)

  module _ ⦃C : Codec⦄ where
    set_state-IsKept :
        (state : RequestSyncState) (now : ℕ) (stored : Bool)
        → (not (state.request_id ==ₛ id) || not (is_completed (applied_status state.status stored)))
          ≡ true
        → Always (IsKept peer_id id) (set_state state now stored)
    unfolding set_state
    set_state-IsKept state now stored ok = Always-batch write _ (λ d h. (
      h,
      IsKept-state d state.request_id (applied_status state.status stored)
          (lease_or_now state.lease_until now) (ground (arith, ok)) h,
    ))

    set_state-IsAnswered :
        (state : RequestSyncState) (now : ℕ) (stored : Bool)
        → Always (IsAnswered peer_id id) (set_state state now stored)
    unfolding set_state
    set_state-IsAnswered state now stored = Always-batch write _ (λ d h. (h, simp look-write h))

    -- `completed` is applied only where the result is stored
    set_completed-IsKept :
        (state : RequestSyncState) (now : ℕ) (s : State Db)
        → IsKept peer_id id s.db
        → IsKept peer_id id (set_state state now (result_exists s.db state.request_id) s).1.db
    set_completed-IsKept state now s h =
        elim (Bool-cases (state.request_id ==ₛ id && result_exists s.db state.request_id)) [
          | inl both ↦
              let e : state.request_id ≡ id = (eq_iff state.request_id id).0 (ground arith) in
              let answered : IsAnswered peer_id id s.db =
                subst (λ k. exists (look s.db (result_key k)) ≡ true) e (ground arith) in
              IsKept-of_IsAnswered peer_id id _ (
                (set_state-IsAnswered state now (result_exists s.db state.request_id)).at s
                  answered)
          | inr other ↦
              (set_state-IsKept state now (result_exists s.db state.request_id) (ground arith)).at s
                h
        ]

    apply_found-IsKept :
        (state : RequestSyncState) (now : ℕ) (found : Bool)
        → Always (IsKept peer_id id) (apply_found state now found)
    unfolding apply_found
    apply_found-IsKept state now found =
        Always-if (not found) _ _ (λ _. Always-pure tt)
          (λ _.
            Always-if (is_completed state.status) _ _
              (λ _. Always-read-bind _ _ (λ s h. set_completed-IsKept state now s h))
              (λ open_status. set_state-IsKept state now false (ground arith)))

    -- Whatever exchanges fail, applying the states that a sender reports, of whatever requests,
    -- keeps every request that is queued or answered so.
    pub apply_request_states-IsKept :
        (states : List RequestSyncState) (now : ℕ)
        → Always (IsKept peer_id id) (apply_request_states states now)
    unfolding apply_request_states apply_one
    apply_request_states-IsKept [] now = Always-pure tt
    apply_request_states-IsKept (state ∷ states) now =
        Always-bind _ _ (Always-bind _ _ (Always-read _) (apply_found-IsKept state now))
          (λ _. apply_request_states-IsKept states now)
