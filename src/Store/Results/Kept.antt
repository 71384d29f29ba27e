-- ===== src/Store/Results/Kept.antt =====
-- internal/store/results.go: a result that is stored stays so.
use relayra.Prelude.{
  ℕ, String, ◌≡◌, refl, Bool, true, false, List, [], ◌∷◌, ◌++◌, arith, eq_refl, ◌==ₛ◌,
  if◌then◌else◌, All,
}
use relayra.Models.{RelayResult, completed, request_transfer_id}
use relayra.Codec.{Codec}
use relayra.Redis.{Redis}
use relayra.Redis.Keys
use relayra.Redis.Frame.{Spares}
use relayra.Redis.Keys.{Space, key_eq, key_eq-apart, key}
use relayra.Redis.Objects.{
  Command, named, exists, target, lrem, hset, del, set_value, expire, bytes, request_status,
}
use relayra.Redis.Actions.Always.{
  Always, Through, Through-all, Always-read, Always-try, Always-bind, Always-batch,
}
use relayra.Redis.Actions.Triple.{Triple, Triple-always, Triple-bind, Triple-batch}
use relayra.Store.Queue.{queue_key, request_key}
use relayra.Store.Results.{result_key, store_result, known_peer}

module _ ⦃R : Redis⦄ where
  open R use {Db, look, write, look-write}

  abbrev pub IsStored : String → Db → Type 0
  IsStored id d = exists (look d (result_key id)) ≡ true

  abbrev pub AllStored : List String → Db → Type 0
  AllStored ids d = All (λ id. IsStored id d) ids

  -- a command that keeps each stored result keeps all of them
  pub AllStored-write :
      (c : Command)
      → ((id : String) (d : Db) → IsStored id d → IsStored id (write d c))
      → (ids : List String) (d : Db) → AllStored ids d
      → AllStored ids (write d c)
  AllStored-write c kept [] d h = tt
  AllStored-write c kept (id ∷ ids) d (h, hs) = (kept id d h, AllStored-write c kept ids d hs)

  pub IsStored-elsewhere :
      (c : Command) (id : String) (d : Db)
      → key_eq (target c) (result_key id) ≡ false
      → IsStored id d
      → IsStored id (write d c)
  IsStored-elsewhere c id d apart h = simp (look-write, apart) h

  pub AllStored-elsewhere :
      (c : Command) (ids : List String) (d : Db)
      → ((id : String) → key_eq (target c) (result_key id) ≡ false)
      → AllStored ids d
      → AllStored ids (write d c)
  AllStored-elsewhere c ids d apart h =
      AllStored-write c (λ id d'. IsStored-elsewhere c id d' (apart id)) ids d h

  pub AllStored-spared :
      (sort : Space → Bool)
      → ((id : String) → sort (result_key id).space ≡ false)
      → (ids : List String) → Spares sort (AllStored ids)
  AllStored-spared sort not_result ids c of d h =
      AllStored-elsewhere c ids d
        (λ id. key_eq-apart sort (target c) (result_key id) of (not_result id)) h

  IsStored-set :
      (j : String) (json : List ℕ) (id : String) (d : Db)
      → IsStored id d
      → IsStored id (write d (set_value (result_key j) (bytes json)))
  IsStored-set j json id d h = simp look-write (ground arith)

  IsStored-expire :
      (j : String) (ttl : ℕ) (id : String) (d : Db)
      → IsStored id d
      → IsStored id (write d (expire (result_key j) ttl))
  IsStored-expire j ttl id d h = simp look-write (ground arith)

  IsStored-written :
      (j : String) (json : List ℕ) (d : Db)
      → IsStored j (write d (set_value (result_key j) (bytes json)))
  IsStored-written j json d = simp (look-write, eq_refl) refl

  -- the commands that follow the two on the result itself
  abbrev tail_commands : String → String → Bool → List Command
  tail_commands j p b =
      hset (request_key j) ((Keys.status, request_status completed) ∷ [])
      ∷ ((if b then [] else lrem (queue_key p) (named j) ∷ [])
          ++ del (key Keys.chunk_cursor (request_transfer_id j)) ∷ [])

  tail-AllStored :
      (ids : List String) (j p : String) (b : Bool) (d : Db)
      → AllStored ids d
      → Through (AllStored ids) write (tail_commands j p b) d
  tail-AllStored ids j p true d h =
      let done = AllStored-elsewhere (hset (request_key j) _) ids d (λ _. refl) h in
      (h, (done, AllStored-elsewhere (del _) ids _ (λ _. refl) done))
  tail-AllStored ids j p false d h =
      let done = AllStored-elsewhere (hset (request_key j) _) ids d (λ _. refl) h in
      let out = AllStored-elsewhere (lrem (queue_key p) (named j)) ids _ (λ _. refl) done in
      (h, (done, (out, AllStored-elsewhere (del _) ids _ (λ _. refl) out)))

  module _ ⦃C : Codec⦄ where
    open C use {json_result}

    -- Whatever exchanges fail, storing a result keeps those that are stored.
    pub store_result-AllStored :
        (ids : List String) (result : RelayResult) (ttl : ℕ)
        → Always (AllStored ids) (store_result result ttl)
    unfolding store_result
    store_result-AllStored ids result ttl = Always-bind _ _ (Always-try _ (Always-read _)) (λ peer.
        Always-batch write _ (λ d h.
          let j = result.request_id in
          let p = known_peer peer in
          let set =
            AllStored-write (set_value (result_key j) (bytes (json_result result)))
              (IsStored-set j (json_result result)) ids d h in
          let expiring =
            AllStored-write (expire (result_key j) ttl) (IsStored-expire j ttl) ids _ set in
          (h, (set, tail-AllStored ids j p (p ==ₛ "") _ expiring))))

    -- Where no error is returned, the result is stored.
    pub store_result-stores :
        (result : RelayResult) (ttl : ℕ)
        → Triple (λ _. Unit) (store_result result ttl) (λ _ d. AllStored (result.request_id ∷ []) d)
    unfolding store_result
    store_result-stores result ttl =
        Triple-bind (Triple-always (Always-try _ (Always-read _))) (λ peer.
          Triple-batch write _ (λ d h.
            let j = result.request_id in
            let p = known_peer peer in
            let set : AllStored (j ∷ []) _ = (IsStored-written j (json_result result) d, tt) in
            let expiring =
              AllStored-write (expire (result_key j) ttl) (IsStored-expire j ttl) (j ∷ []) _ set in
            Through-all (AllStored (j ∷ [])) write (tail_commands j p (p ==ₛ ""))
              (write (write d (set_value (result_key j) (bytes (json_result result))))
                (expire (result_key j) ttl))
              (tail-AllStored (j ∷ []) j p (p ==ₛ "") _ expiring)))
