-- ===== src/Store/Sender/Pending.antt =====
-- internal/store/queue.go and runtime_redis.go: what it is for a result to be pending, and the
-- sender's calls on its results.
pub mod History
pub mod Frame
use relayra.Prelude.{
  ℕ, ◌+◌, String, ◌≡◌, refl, arith, List, [], ◌∷◌, ◌++◌, eq_refl, eq_iff, true, false, ◌==ₛ◌, Bool,
  ◌&&◌, ◌||◌, if◌then◌else◌, leb, ltb, length, Option, none, some, Bool-cases, inl, inr, All, subst,
}
use relayra.Models.{RelayResult, result_pending, is_result_leased, request_transfer_id}
use relayra.Codec.{Codec, Bytes}
use relayra.Redis.{Redis}
use relayra.Redis.Keys
use relayra.Redis.Objects.{
  Object, Member, named, has, rank, unrank, ranked, member_eq, fields, exists, hset, zadd, zrem,
  del, srem, number, bytes, delivery, Command, target,
}
use relayra.Redis.Keys.{key, the, key_eq}
use relayra.Redis.Actions.{pure}
use relayra.Redis.Actions.Always.{Always, Through, Always-pure, Always-batch}
use relayra.Redis.Actions.Calm.{
  Ends, AlwaysCalm, AlwaysCalm-pure, AlwaysCalm-batch, AlwaysCalm-attempt, AlwaysCalm-if,
  AlwaysCalm-bind, AlwaysCalm-read-bind, AlwaysCalm-read_or-bind,
}
use relayra.Store.Reads.{bytes_of, number_of, delivery_of}
use relayra.Store.Sender.{
  pending_key, pending_set, sender_key, ranked_members, push_result, push_commands, repush_results,
  repush_commands, ack_results, ack_commands, lease_results, lease_result, results_from,
  result_found, renew_result, take_result, drop_result, add_result,
}

has-unrank :
    (a b : String) (xs : List (ℕ × Member))
    → (b ==ₛ a) ≡ false
    → has (named a) (ranked_members (unrank (named b) xs)) ≡ has (named a) (ranked_members xs)
unfolding has unrank
has-unrank a b [] h = refl
has-unrank a b ((s, named c) ∷ xs) h =
    ground (arith, has-unrank a b xs h, eq_iff a c, eq_iff b c, eq_iff b a)
has-unrank a b ((s, Member.numbered n) ∷ xs) h = ground (arith, has-unrank a b xs h)

has-rank :
    (m k : Member) (s : ℕ) (xs : List (ℕ × Member))
    → has m (ranked_members (rank s k xs)) ≡ (member_eq m k || has m (ranked_members xs))
unfolding has rank
has-rank m k s [] = refl
has-rank m k s ((t, x) ∷ xs) = ground (arith, has-rank m k s xs)

abbrev pub readable : Option RelayResult → Bool
readable none = false
readable (some _) = true

module _ ⦃R : Redis⦄ ⦃C : Codec⦄ (id : String) where
  open R use {Db, look, write, look-write}
  open C use {json_result, parse_result, parse-json_result}

  -- the result is in the set of those that wait, and its hash holds it
  abbrev pub is_pending : Db → Bool
  is_pending d =
      has (named id) (ranked_members (ranked (look d pending_set)))
      && (exists (look d (pending_key id))
          && readable (parse_result (bytes_of (fields (look d (pending_key id)) Keys.payload))))

  abbrev pub IsPending : Db → Type 0
  IsPending d = is_pending d ≡ true

  IsPending-zadd :
      (d : Db) (s : ℕ) (j : String)
      → IsPending d
      → IsPending (write d (zadd pending_set s (named j)))
  IsPending-zadd d s j h = simp look-write (
      ground (
        arith,
        has-rank (named id) (named j) s (unrank (named j) (ranked (look d pending_set))),
        has-unrank id j (ranked (look d pending_set)),
        eq_iff id j,
        eq_iff j id,
      ))

  IsPending-pushed :
      (d : Db) (result : RelayResult) (now : ℕ)
      → IsPending d
      → IsPending (
          write d (
            hset (pending_key result.request_id) (
              (Keys.payload, bytes (json_result result))
              ∷ (Keys.delivery_status, delivery result_pending)
              ∷ (Keys.lease_until, number 0)
              ∷ (Keys.updated_at, number now)
              ∷ [])))
  IsPending-pushed d result now h = simp look-write (ground (arith, parse-json_result result))

  pub push_result-IsPending :
      (result : RelayResult) (now_milli now : ℕ)
      → Always IsPending (push_result result now_milli now)
  unfolding push_result
  push_result-IsPending result now_milli now = Always-batch write _ (λ d h.
      let added = IsPending-zadd d now_milli result.request_id h in
      (h, (added, IsPending-pushed _ result now added)))

  repush_commands-Through :
      (results : List RelayResult) (d : Db)
      → IsPending d
      → Through IsPending write (repush_commands results) d
  repush_commands-Through [] d h = h
  repush_commands-Through (result ∷ results) d h =
      (h, repush_commands-Through results _ (simp look-write (ground arith)))

  pub repush_results-IsPending :
      (results : List RelayResult) → Always IsPending (repush_results results)
  unfolding repush_results
  repush_results-IsPending [] = Always-pure tt
  repush_results-IsPending (result ∷ results) =
      Always-batch write _ (repush_commands-Through (result ∷ results))

  IsPending-zrem :
      (d : Db) (j : String)
      → (j ==ₛ id) ≡ false
      → IsPending d
      → IsPending (write d (zrem pending_set (named j)))
  IsPending-zrem d j ne h =
      simp look-write (ground (arith, has-unrank id j (ranked (look d pending_set))))

  pub IsPending-elsewhere :
      (d : Db) (c : Command)
      → key_eq (target c) pending_set ≡ false
      → key_eq (target c) (pending_key id) ≡ false
      → IsPending d
      → IsPending (write d c)
  IsPending-elsewhere d c not_set not_hash h = simp (look-write, not_set, not_hash) h

  IsPending-del :
      (d : Db) (j : String)
      → (j ==ₛ id) ≡ false
      → IsPending d
      → IsPending (write d (del (pending_key j)))
  IsPending-del d j other h =
      IsPending-elsewhere d (del (pending_key j)) refl (ground (arith, other)) h

  ack_commands-Through :
      (ids : List String) (d : Db)
      → All (λ j. (j ==ₛ id) ≡ false) ids
      → IsPending d
      → Through IsPending write (ack_commands ids) d
  ack_commands-Through [] d others h = h
  ack_commands-Through (j ∷ ids) d (other, others) h =
      let out = IsPending-zrem d j other h in
      let gone = IsPending-del _ j other out in
      let left = IsPending-elsewhere _ (srem (the Keys.sender_requests) (named j)) refl refl gone in
      let forgotten = IsPending-elsewhere _ (del (sender_key j)) refl refl left in
      let t = request_transfer_id j in
      let receipt =
        IsPending-elsewhere _ (srem (the Keys.chunk_receipts) (named t)) refl refl forgotten in
      let unanswered = IsPending-elsewhere _ (del (key Keys.chunk_receipt t)) refl refl receipt in
      let done = IsPending-elsewhere _ (del (key Keys.inbound_chunk t)) refl refl unanswered in
      (
        h,
        (
          out,
          (
            gone,
            (left, (forgotten, (receipt, (unanswered, ack_commands-Through ids _ others done)))),
          ),
        ),
      )

  pub ack_results-IsPending :
      (ids : List String) → All (λ j. (j ==ₛ id) ≡ false) ids → Always IsPending (ack_results ids)
  unfolding ack_results
  ack_results-IsPending [] others = Always-pure tt
  ack_results-IsPending (j ∷ ids) others =
      Always-batch write _ (λ d h. ack_commands-Through (j ∷ ids) d others h)

  take_result-IsPending :
      (j : String) (until : ℕ) (o : Option RelayResult)
      → AlwaysCalm IsPending (take_result j until o)
  unfolding take_result
  take_result-IsPending j until none = AlwaysCalm-pure none
  take_result-IsPending j until (some result) =
      AlwaysCalm-bind _ _ (AlwaysCalm-batch write _ (λ d h. simp look-write (ground arith)))
        (λ _. AlwaysCalm-pure _)

  -- a result whose hash is gone is not pending
  drop_result-IsPending :
      (j : String) (d : Db)
      → exists (look d (pending_key j)) ≡ false
      → IsPending d
      → Ends IsPending (drop_result j) d
  unfolding drop_result
  drop_result-IsPending j d gone h = elim (Bool-cases (j ==ₛ id)) [
    | inl same ↦
        let e : j ≡ id = (eq_iff j id).0 same in
        let gone_id : exists (look d (pending_key id)) ≡ false =
          subst (λ k. exists (look d (pending_key k)) ≡ false) e gone in
        absurd (ground (arith, gone_id))
    | inr other ↦
        (AlwaysCalm-bind _ _
            (AlwaysCalm-attempt _
              (AlwaysCalm-batch write _ (λ d' h'. IsPending-zrem d' j other h')))
            (λ _. AlwaysCalm-pure _)).at
          d h
  ]

  result_found-IsPending :
      (j : String) (now ttl : ℕ) (d : Db)
      → IsPending d
      → Ends IsPending (result_found j now ttl (look d (pending_key j))) d
  unfolding result_found renew_result
  result_found-IsPending j now ttl d h = elim (Bool-cases (exists (look d (pending_key j)))) [
    | inl there ↦ rw there (
        (AlwaysCalm-read_or-bind _ _ _ (λ d' h'.
            let o = look d (pending_key j) in
            let lease = number_of (fields (look d' (pending_key j)) Keys.lease_until) in
            let leased = is_result_leased (delivery_of (fields o Keys.delivery_status)) in
            let stored = parse_result (bytes_of (fields o Keys.payload)) in
            (AlwaysCalm-if (leased && ltb now lease) (pure none) (take_result j (now + ttl) stored)
                (λ _. AlwaysCalm-pure none) (λ _. take_result-IsPending j (now + ttl) stored)).at
              d' h')).at
          d h)
    | inr gone ↦ rw gone (drop_result-IsPending j d gone h)
  ]

  results_from-IsPending :
      (max_count now ttl : ℕ) (results : List RelayResult) (ids : List Member)
      → AlwaysCalm IsPending (results_from max_count now ttl results ids)
  unfolding results_from lease_result
  results_from-IsPending max_count now ttl results [] = AlwaysCalm-pure results
  results_from-IsPending max_count now ttl results (named j ∷ ids) =
      AlwaysCalm-if (leb max_count (length results)) _ _ (λ _. AlwaysCalm-pure results)
        (λ _.
          AlwaysCalm-bind _ _ (AlwaysCalm-read_or-bind _ _ _ (result_found-IsPending j now ttl))
            (λ taken. results_from-IsPending max_count now ttl (add_result taken results) ids))
  results_from-IsPending max_count now ttl results (Member.numbered n ∷ ids) =
      results_from-IsPending max_count now ttl results ids

  pub lease_results-IsPending :
      (max_count ttl now : ℕ) → AlwaysCalm IsPending (lease_results max_count ttl now)
  unfolding lease_results
  lease_results-IsPending max_count ttl now = AlwaysCalm-read-bind _ _ (λ d h.
      (results_from-IsPending max_count now ttl []
          (ranked_members (ranked (look d pending_set)))).at
        d h)
