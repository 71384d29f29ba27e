-- ===== src/Store/Tokens/Revoked.antt =====
-- internal/store/api_tokens.go: a token that was deleted.
use relayra.Prelude.{
  ℕ, String, ◌≡◌, ◌≢◌, Bool, true, false, Option, none, some, List, [], ◌∷◌, ◌==ₛ◌, if◌then◌else◌,
  inl, inr, eq_iff, subst, Bool-cases,
}
use relayra.Errors.{ok}
use relayra.Models.{ApiToken}
use relayra.Codec.{TokenCodec}
use relayra.Redis.{Redis}
use relayra.Redis.Keys
use relayra.Redis.Keys.{Key}
use relayra.Redis.Objects.{Command, del, srem, named, Value, text, bytes, value_of, set_value}
use relayra.Redis.Actions.{State, Outcome, Exec, pure, under, attempt, ◌>>=◌, ◌>>◌}
use relayra.Redis.Actions.Always.{
  Always, Through, Through-all, Always-true, Always-pure, Always-raise, Always-attempt, Always-bind,
  Always-batch, Always-under, Always-read,
}
use relayra.Redis.Actions.Triple.{
  Triple, Triple-ok, Triple-read, Always-known, Triple-pure, Triple-raise, Triple-always,
  Triple-bind, Triple-batch, Triple-mono,
}
use relayra.Store.Tokens.{
  token_key, hash_key, store_api_token, id_found, token_found, parsed, find_api_token, mark_used,
  validate_api_token, delete_commands, delete_api_token,
}

module _ ⦃R : Redis⦄ (id : String) where
  open R use {Db, look, write, look-write}

  -- there is nothing behind the token's identifier
  abbrev pub IsRevoked : Db → Type 0
  IsRevoked d = value_of (look d (token_key id)) ≡ none

  -- What can happen to the tokens, the reads of a validation being apart from its write or not: a
  -- validation that writes later has found another token, and a new token has an identifier of its
  -- own.
  pub data Call : Type 0 where
    validate : String → ℕ → Call
    find : String → Call
    finish : (j : String) → ApiToken → ℕ → (j ==ₛ id) ≡ false → Call
    delete : String → Call
    store : (t : ApiToken) → (t.id ==ₛ id) ≡ false → Call

  module _ ⦃T : TokenCodec⦄ where
    open T use {json_api_token, parse_api_token}

    abbrev pub run_call : Call → Exec Db (Unit {0})
    run_call (validate hash now) = do attempt (validate_api_token hash now); pure tt
    run_call (find hash) = do attempt (find_api_token hash); pure tt
    run_call (finish j t now _) = do attempt (mark_used j t now); pure tt
    run_call (delete j) = attempt (delete_api_token j)
    run_call (store t _) = attempt (store_api_token t)

    abbrev pub run_calls : List (Call × List Outcome) → Exec Db (Unit {0})
    run_calls [] = pure tt
    run_calls ((c, net) ∷ cs) = do under net (run_call c); run_calls cs

    set_other :
        (j : String) (v : Value) (d : Db)
        → (j ==ₛ id) ≡ false
        → IsRevoked d
        → IsRevoked (write d (set_value (token_key j) v))
    set_other j v d other h = simp (look-write, other) h

    id_found-Always : (v : Option Value) → Always IsRevoked (id_found v)
    id_found-Always none = Always-raise _
    id_found-Always (some (text j)) = Always-pure j
    id_found-Always (some _) = Always-raise _

    parsed-Always : (o : Option ApiToken) → Always IsRevoked (parsed o)
    parsed-Always none = Always-raise _
    parsed-Always (some t) = Always-pure t

    token_found-Always : (v : Option Value) → Always IsRevoked (token_found v)
    token_found-Always none = Always-raise _
    token_found-Always (some (bytes json)) = parsed-Always (parse_api_token json)
    token_found-Always (some _) = Always-raise _

    find_api_token-Always : (hash : String) → Always IsRevoked (find_api_token hash)
    unfolding find_api_token
    find_api_token-Always hash = Always-bind _ _ (Always-read _) (λ v.
        Always-bind _ _ (id_found-Always v) (λ j.
          Always-bind _ _ (Always-read _)
            (λ stored. Always-bind _ _ (token_found-Always stored) (λ t. Always-pure _))))

    -- behind the identifier itself nothing is found
    token_found-nothing :
        (j : String) (v : Option Value)
        → Triple {A = ApiToken}
            (λ d. IsRevoked d × (j ≡ id) × (v ≡ value_of (look d (token_key j))))
            (token_found v)
            (λ _ _. ⊥)
    token_found-nothing j none = Triple-raise _
    token_found-nothing j (some v) = record {
      at = λ s (revoked, same, read).
          let found = subst (λ k. some v ≡ value_of (look s.db (token_key k))) same read in
          absurd (cc (found, revoked));
    }

    -- so the token that is found behind a hash is another
    token_found-other :
        (j : String) (v : Option Value)
        → Triple {A = String × ApiToken}
            (λ d. IsRevoked d × (v ≡ value_of (look d (token_key j))))
            (token_found v >>= λ t. pure (j, t))
            (λ found d. IsRevoked d × ((found.0 ==ₛ id) ≡ false))
    token_found-other j v = elim (Bool-cases (j ==ₛ id)) [
      | inr other ↦
          Triple-mono (λ d h. h.0) (λ a d h. h)
            (Triple-bind (Triple-always (token_found-Always v))
              (λ t. Triple-pure _ (λ d h. (h, other))))
      | inl same ↦
          Triple-mono (λ d h. (h.0, (eq_iff j id).0 same, h.1)) (λ a d h. h)
            (Triple-bind (token_found-nothing j v) (λ t. record { at = λ s h. absurd h }))
    ]

    find_api_token-other :
        (hash : String)
        → Triple IsRevoked
            (find_api_token hash)
            (λ found d. IsRevoked d × ((found.0 ==ₛ id) ≡ false))
    unfolding find_api_token
    find_api_token-other hash = Triple-bind (Triple-always (Always-read _)) (λ v.
        Triple-bind (Triple-always (id_found-Always v))
          (λ j. Triple-bind (Triple-read _) (λ stored. token_found-other j stored)))

    mark_used-Always :
        (j : String) (t : ApiToken) (now : ℕ)
        → (j ==ₛ id) ≡ false
        → Always IsRevoked (mark_used j t now)
    unfolding mark_used
    mark_used-Always j t now other =
        Always-bind _ _
          (Always-attempt _ (Always-batch write _ (λ d h. (h, set_other j _ d other h))))
          (λ _. Always-pure _)

    validate_api_token-Always :
        (hash : String) (now : ℕ) → Always IsRevoked (validate_api_token hash now)
    unfolding validate_api_token
    validate_api_token-Always hash now =
        Always-known (find_api_token-Always hash) (find_api_token-other hash)
          (λ found other. mark_used-Always found.0 found.1 now other)

    deleted : (k : Key) (d : Db) → IsRevoked d → IsRevoked (write d (del k))
    deleted k d h = elim (Bool-cases (Keys.key_eq k (token_key id))) [
      | inl same ↦ simp (look-write, same)
      | inr apart ↦ simp (look-write, apart) h
    ]

    abbrev unlist_commands : String → ApiToken → List Command
    unlist_commands j t =
        srem (Keys.the Keys.api_tokens) (named j)
        ∷ (if t.token_hash ==ₛ "" then [] else del (hash_key t.token_hash) ∷ [])

    unlist_commands-Through :
        (j : String) (t : ApiToken) (d : Db)
        → IsRevoked d
        → Through IsRevoked write (unlist_commands j t) d
    unlist_commands-Through j t d h =
        (h, hash_deleted (t.token_hash ==ₛ "") _ (simp (look-write) h))
      where
        hash_deleted :
            (b : Bool) (d : Db)
            → IsRevoked d
            → Through IsRevoked write (if b then [] else del (hash_key t.token_hash) ∷ []) d
        hash_deleted true d h = h
        hash_deleted false d h = (h, deleted (hash_key t.token_hash) d h)

    delete_commands-Through :
        (j : String) (t : ApiToken) (d : Db)
        → IsRevoked d
        → Through IsRevoked write (delete_commands j t) d
    delete_commands-Through j t d h = (h, unlist_commands-Through j t _ (deleted (token_key j) d h))

    delete_api_token-Always : (j : String) → Always IsRevoked (delete_api_token j)
    unfolding delete_api_token
    delete_api_token-Always j = Always-bind _ _ (Always-read _) (λ stored.
        Always-bind _ _ (token_found-Always stored)
          (λ t. Always-batch write _ (λ d h. delete_commands-Through j t d h)))

    store_api_token-Always :
        (t : ApiToken) → (t.id ==ₛ id) ≡ false → Always IsRevoked (store_api_token t)
    unfolding store_api_token
    store_api_token-Always t other = Always-batch write _ (λ d h.
        let set = set_other t.id (bytes (json_api_token t)) d other h in
        (h, (set, (simp (look-write, other) h, simp (look-write, other) h))))

    run_call-Always : (c : Call) → Always IsRevoked (run_call c)
    run_call-Always (validate hash now) =
        Always-bind _ _ (Always-attempt _ (validate_api_token-Always hash now))
          (λ _. Always-pure tt)
    run_call-Always (find hash) =
        Always-bind _ _ (Always-attempt _ (find_api_token-Always hash)) (λ _. Always-pure tt)
    run_call-Always (finish j t now other) =
        Always-bind _ _ (Always-attempt _ (mark_used-Always j t now other)) (λ _. Always-pure tt)
    run_call-Always (delete j) = Always-attempt _ (delete_api_token-Always j)
    run_call-Always (store t other) = Always-attempt _ (store_api_token-Always t other)

    run_calls-Always : (cs : List (Call × List Outcome)) → Always IsRevoked (run_calls cs)
    run_calls-Always [] = Always-pure tt
    run_calls-Always ((c, net) ∷ cs) =
        Always-bind _ _ (Always-under net _ (run_call-Always c)) (λ _. run_calls-Always cs)

    -- a deletion that returns leaves nothing behind the identifier
    delete_api_token-IsRevoked : Triple (λ _. Unit) (delete_api_token id) (λ _ d. IsRevoked d)
    unfolding delete_api_token
    delete_api_token-IsRevoked = Triple-bind (Triple-always (Always-true _)) (λ stored.
        Triple-bind (Triple-always (Always-true (token_found stored))) (λ t.
          Triple-batch write _ (λ d _.
            let gone : IsRevoked (write d (del (token_key id))) =
              simp (look-write, Keys.key_eq_refl (token_key id)) in
            Through-all IsRevoked write (unlist_commands id t) (write d (del (token_key id)))
              (unlist_commands-Through id t _ gone))))

    -- a hash that leads to the identifier is refused
    id_found-same :
        (hash : String) (v : Option Value)
        → Triple
            (λ d.
              (IsRevoked d × (value_of (look d (hash_key hash)) ≡ some (text id)))
              × (v ≡ value_of (look d (hash_key hash))))
            (id_found v)
            (λ j d. IsRevoked d × (j ≡ id))
    id_found-same hash none = Triple-raise _
    id_found-same hash (some (text j)) =
        Triple-pure j (λ d ((revoked, leads), read). (revoked, cc (leads, read)))
    id_found-same hash (some v) = Triple-raise _

    validate_api_token-refused :
        (hash : String) (now : ℕ)
        → Triple
            (λ d. IsRevoked d × (value_of (look d (hash_key hash)) ≡ some (text id)))
            (validate_api_token hash now)
            (λ _ _. ⊥)
    unfolding validate_api_token find_api_token
    validate_api_token-refused hash now =
        Triple-bind {Q = λ _ _. ⊥}
          (Triple-bind (Triple-read _) (λ v. Triple-bind (id_found-same hash v) (λ j.
            Triple-bind (Triple-read _) (λ stored.
              Triple-bind
                (Triple-mono (λ d h. (h.0.0, h.0.1, h.1)) (λ _ _ h. h)
                  (token_found-nothing j stored))
                (λ _. record { at = λ s h. absurd h })))))
          (λ _. record { at = λ s h. absurd h })

    -- Once `DeleteAPIToken` has returned without an error, `ValidateAPIToken` returns no token for a
    -- hash that leads to its identifier, after any sequence of validations, deletions and storings of
    -- tokens with other identifiers, in which any exchanges fail, and in which the write of a
    -- validation may come later than its reads, but for one exception: a validation that had read this
    -- token before it was deleted does not write afterwards.
    pub deleted-refused :
        (cs : List (Call × List Outcome)) (hash : String) (now : ℕ) (net : List Outcome)
        → (s : State Db) (t : ApiToken) → (delete_api_token id s).0 ≡ ok tt
        → value_of (look (run_calls cs (delete_api_token id s).1).1.db (hash_key hash))
          ≡ some (text id)
        → (under net (validate_api_token hash now) (run_calls cs (delete_api_token id s).1).1).0
          ≢ ok t
    deleted-refused cs hash now net s t deleted leads returned =
        let revoked = Triple-ok tt delete_api_token-IsRevoked s tt deleted in
        let s' = (run_calls cs (delete_api_token id s).1).1 in
        Triple-ok t (validate_api_token-refused hash now) (record s' { net = net })
          ((run_calls-Always cs).at (delete_api_token id s).1 revoked, leads) returned
