-- ===== src/Store/Peers/Pairing.antt =====
-- internal/store/peers.go: a token pairs once.
use relayra.Prelude.{
  ℕ, String, ◌≡◌, ◌≢◌, false, Option, none, some, List, [], ◌∷◌, ◌==ₛ◌, inl, inr, Bool-cases,
}
use relayra.Errors.{ok}
use relayra.Models.{PairingToken}
use relayra.Codec.{TokenCodec}
use relayra.Redis.{Redis}
use relayra.Redis.Keys.{key_eq_refl}
use relayra.Redis.Objects.{Value, bytes, value_of, del}
use relayra.Redis.Actions.{State, Outcome, Exec, pure, under, attempt, ◌>>◌}
use relayra.Redis.Actions.Always.{
  Always, Always-pure, Always-raise, Always-attempt, Always-bind, Always-batch, Always-under,
}
use relayra.Redis.Actions.Triple.{
  Triple, Triple-ok, Triple-raise, Triple-always, Triple-bind, Triple-batch,
}
use relayra.Store.Peers.{
  pairing_key, store_pairing_token, get_pairing_token, token_taken, pairing_parsed,
}

module _ ⦃R : Redis⦄ (secret_hash : String) where
  open R use {Db, look, write, look-write}

  -- no token stands behind the hash
  abbrev pub IsSpent : Db → Type 0
  IsSpent d = value_of (look d (pairing_key secret_hash)) ≡ none

  -- what can happen to the tokens: a new token has a secret of its own
  pub data Call : Type 0 where
    take : String → Call
    put : (hash : String) → PairingToken → ℕ → (hash ==ₛ secret_hash) ≡ false → Call

  module _ ⦃T : TokenCodec⦄ where
    open T use {parse_pairing_token}

    abbrev pub run_call : Call → Exec Db (Unit {0})
    run_call (take hash) = do attempt (get_pairing_token hash); pure tt
    run_call (put hash token ttl _) = attempt (store_pairing_token hash token ttl)

    abbrev pub run_calls : List (Call × List Outcome) → Exec Db (Unit {0})
    run_calls [] = pure tt
    run_calls ((c, net) ∷ cs) = do under net (run_call c); run_calls cs

    deleted : (hash : String) (d : Db) → IsSpent d → IsSpent (write d (del (pairing_key hash)))
    deleted hash d h = elim (Bool-cases (hash ==ₛ secret_hash)) [
      | inl same ↦ simp (look-write, same)
      | inr apart ↦ simp (look-write, apart) h
    ]

    pairing_parsed-Always : (o : Option PairingToken) → Always IsSpent (pairing_parsed o)
    pairing_parsed-Always none = Always-raise _
    pairing_parsed-Always (some token) = Always-pure token

    token_taken-Always : (v : Option Value) → Always IsSpent (token_taken v)
    token_taken-Always none = Always-raise _
    token_taken-Always (some (bytes json)) = pairing_parsed-Always (parse_pairing_token json)
    token_taken-Always (some _) = Always-raise _

    get_pairing_token-Always : (hash : String) → Always IsSpent (get_pairing_token hash)
    unfolding get_pairing_token
    get_pairing_token-Always hash =
        Always-bind _ _ (Always-batch write _ (λ d h. (h, deleted hash d h))) token_taken-Always

    run_call-Always : (c : Call) → Always IsSpent (run_call c)
    unfolding store_pairing_token
    run_call-Always (take hash) =
        Always-bind _ _ (Always-attempt _ (get_pairing_token-Always hash)) (λ _. Always-pure tt)
    run_call-Always (put hash token ttl other) = Always-attempt _ (
        Always-batch write _ (λ d h. (h, (simp (look-write, other) h, simp (look-write, other) h))))

    run_calls-Always : (cs : List (Call × List Outcome)) → Always IsSpent (run_calls cs)
    run_calls-Always [] = Always-pure tt
    run_calls-Always ((c, net) ∷ cs) =
        Always-bind _ _ (Always-under net _ (run_call-Always c)) (λ _. run_calls-Always cs)

    -- what is taken is gone
    get_pairing_token-IsSpent :
        Triple (λ _. Unit) (get_pairing_token secret_hash) (λ _ d. IsSpent d)
    unfolding get_pairing_token
    get_pairing_token-IsSpent =
        Triple-bind {Q = λ _ d. IsSpent d}
          (Triple-batch write _ (λ d _. simp (look-write, key_eq_refl (pairing_key secret_hash))))
          (λ v. Triple-always (token_taken-Always v))

    -- and is not taken again
    token_taken-none :
        (v : Option Value)
        → v ≡ none
        → Triple {A = PairingToken} (λ _. Unit) (token_taken v) (λ _ _. ⊥)
    token_taken-none none e = Triple-raise _
    token_taken-none (some v) e = absurd (cc e)

    get_pairing_token-refused : Triple IsSpent (get_pairing_token secret_hash) (λ _ _. ⊥)
    unfolding get_pairing_token
    get_pairing_token-refused =
        Triple-bind {Q = λ v _. v ≡ none} (Triple-batch write _ (λ d h. h))
          (λ v. record { at = λ s e. (token_taken-none v e).at s tt })

    -- A pairing token is given out once: when `GetPairingToken` has returned it, no later call
    -- returns a token for its hash, after any calls for it and for other hashes and any storings of
    -- tokens with other hashes, whatever exchanges fail.
    pub taken_once :
        (cs : List (Call × List Outcome)) (net : List Outcome) (s : State Db)
        (token again : PairingToken)
        → (get_pairing_token secret_hash s).0 ≡ ok token
        → (under net
            (get_pairing_token secret_hash)
            (run_calls cs (get_pairing_token secret_hash s).1).1).0
          ≢ ok again
    taken_once cs net s token again first second =
        let spent = Triple-ok token get_pairing_token-IsSpent s tt first in
        let s' = (run_calls cs (get_pairing_token secret_hash s).1).1 in
        Triple-ok again get_pairing_token-refused (record s' { net = net })
          ((run_calls-Always cs).at (get_pairing_token secret_hash s).1 spent) second
