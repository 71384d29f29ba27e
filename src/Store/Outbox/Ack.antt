-- ===== src/Store/Outbox/Ack.antt =====
-- internal/store/ws_outbox_redis.go: `AckWSOutboxThrough`.
use relayra.Prelude.{
  ℕ, zero, suc, ◌+◌, ◌≤◌, ◌<◌, String, ◌≡◌, refl, ap, ◌∙◌, subst, false, List, [], ◌∷◌, ◌++◌, arith,
  eq_refl,
}
use relayra.Errors.{ok}
use relayra.Redis.{Redis, pipeline_if_any-calm, look_after}
use relayra.Redis.Keys
use relayra.Redis.Keys.{Key, key_eq}
use relayra.Redis.Objects.{numbered, ranked, del, zrem, Command, unrank, fields}
use relayra.Redis.Actions.{calm, ◌>>=◌, run_all, run_all-append}
use relayra.Store.Reads.{number_of}
use relayra.Store.Outbox.{
  state_key, index_key, message_key, up_to, collect_acked, ack_ws_outbox_through, zrem_all,
}
use relayra.Store.Outbox.Contiguous.{window, AllStored, IsContiguous}
use relayra.Store.Outbox.Repair.{window_members, messages}

up_to-below : (bound a n : ℕ) → bound ≤ a → up_to bound (window a n) ≡ []
up_to-below bound a zero h = refl
up_to-below bound a (suc n) h = ground (arith, up_to-below bound (a + 1) n)

up_to-window :
    (bound a k n m : ℕ) → bound ≡ a + k → m ≡ k + n → up_to bound (window a m) ≡ window_members a k
up_to-window bound a zero n m hb hm = up_to-below bound a m (omega arith)
up_to-window bound a (suc k) n zero hb hm = absurd (omega arith)
up_to-window bound a (suc k) n (suc m) hb hm =
    ground (arith, up_to-window bound (a + 1) k n m (omega arith) (omega arith))

unrank-after : (m a n : ℕ) → m ≤ a → unrank (numbered m) (window a n) ≡ window a n
unfolding unrank
unrank-after m a zero h = refl
unrank-after m a (suc n) h = ground (arith, unrank-after m (a + 1) n)

unrank-first : (a n : ℕ) → unrank (numbered (a + 1)) (window a (suc n)) ≡ window (a + 1) n
unfolding unrank
unrank-first a n = ground (arith, unrank-after (a + 1) (a + 1) n (omega arith))

window_of_eq : {a b m n : ℕ} → a ≡ b → m ≡ n → window a m ≡ window b n
window_of_eq p q = cc (p, q)

-- the commands that delete the first messages of a window
abbrev del_window : String → ℕ → ℕ → List Command
del_window scope a zero = []
del_window scope a (suc k) = del (message_key scope (a + 1)) ∷ del_window scope (a + 1) k

module _ ⦃R : Redis⦄ where
  open R use {Db, look, write, look-write}

  collect_acked-window :
      (d : Db) (scope : String) (a k n m : ℕ)
      → m ≡ k + n
      → AllStored d scope a m
      → collect_acked scope (window_members a k) (calm d)
        ≡ (ok (messages d scope a k, del_window scope a k), calm d)
  unfolding collect_acked ◌>>=◌
  collect_acked-window d scope a zero n m e h = refl
  collect_acked-window d scope a (suc k) n zero e h = absurd (omega arith)
  collect_acked-window d scope a (suc k) n (suc m) e h =
      rw (collect_acked-window d scope (a + 1) k n m (omega arith) h.1) (ground (arith, h.0))

  -- the pipeline of the acknowledgement, seen from each key
  index-del_window :
      (d : Db) (scope : String) (a k : ℕ)
      → look_after d (del_window scope a k) (index_key scope) ≡ look d (index_key scope)
  index-del_window d scope a zero = refl
  index-del_window d scope a (suc k) =
      index-del_window (write d (del (message_key scope (a + 1)))) scope (a + 1) k ∙ simp look-write

  state-del_window :
      (d : Db) (scope : String) (a k : ℕ)
      → look_after d (del_window scope a k) (state_key scope) ≡ look d (state_key scope)
  state-del_window d scope a zero = refl
  state-del_window d scope a (suc k) =
      state-del_window (write d (del (message_key scope (a + 1)))) scope (a + 1) k ∙ simp look-write

  message-del_window :
      (d : Db) (scope : String) (a k seq : ℕ)
      → a + k < seq
      → look_after d (del_window scope a k) (message_key scope seq) ≡ look d (message_key scope seq)
  message-del_window d scope a zero seq h = refl
  message-del_window d scope a (suc k) seq h =
      message-del_window (write d (del (message_key scope (a + 1)))) scope (a + 1) k seq
        (omega arith)
      ∙ simp look-write (ground arith)

  index-zrem_all :
      (d : Db) (scope : String) (a k n m : ℕ)
      → m ≡ k + n
      → ranked (look d (index_key scope)) ≡ window a m
      → ranked (look_after d (zrem_all (index_key scope) (window_members a k)) (index_key scope))
        ≡ window (a + k) n
  index-zrem_all d scope a zero n m e h =
      h ∙ window_of_eq {a = a} {b = a + 0} {m = m} {n = n} (omega arith) (omega arith)
  index-zrem_all d scope a (suc k) n zero e h = absurd (omega arith)
  index-zrem_all d scope a (suc k) n (suc m) e h =
      index-zrem_all (write d (zrem (index_key scope) (numbered (a + 1)))) scope (a + 1) k n m
        (omega arith) (simp (look-write, eq_refl) (rw h (unrank-first a m)))
      ∙ window_of_eq {a = a + 1 + k} {b = a + suc k} {m = n} {n = n} (omega arith) refl

  other-zrem_all :
      (d : Db) (scope : String) (a k : ℕ) (key : Key)
      → key_eq (index_key scope) key ≡ false
      → look_after d (zrem_all (index_key scope) (window_members a k)) key ≡ look d key
  other-zrem_all d scope a zero key h = refl
  other-zrem_all d scope a (suc k) key h =
      other-zrem_all (write d (zrem (index_key scope) (numbered (a + 1)))) scope (a + 1) k key h
      ∙ rw (look-write, h)

  AllStored-of_eq :
      (d : Db) (scope : String) {a b m n : ℕ}
      → a ≡ b
      → m ≡ n
      → AllStored d scope a m
      → AllStored d scope b n
  AllStored-of_eq d scope {a} {b} {m} {n} p q h =
      subst (λ x. AllStored d scope x n) p (subst (λ y. AllStored d scope a y) q h)

  AllStored-tail :
      (d : Db) (scope : String) (a k n m : ℕ)
      → m ≡ k + n
      → AllStored d scope a m
      → AllStored d scope (a + k) n
  AllStored-tail d scope a zero n m e h =
      AllStored-of_eq d scope {a = a} {b = a + 0} {m = m} {n = n} (omega arith) (omega arith) h
  AllStored-tail d scope a (suc k) n zero e h = absurd (omega arith)
  AllStored-tail d scope a (suc k) n (suc m) e h =
      AllStored-of_eq d scope {a = a + 1 + k} {b = a + suc k} {m = n} {n = n} (omega arith) refl
        (AllStored-tail d scope (a + 1) k n m (omega arith) h.1)

  AllStored-congr :
      (d e : Db) (scope : String) (a n : ℕ)
      → ((seq : ℕ) → a < seq → look e (message_key scope seq) ≡ look d (message_key scope seq))
      → AllStored d scope a n
      → AllStored e scope a n
  AllStored-congr d e scope a zero same h = tt
  AllStored-congr d e scope a (suc n) same h = (
    rw (same (a + 1) (omega arith)) h.0,
    AllStored-congr d e scope (a + 1) n (λ seq lt. same seq (omega arith)) h.1,
  )

  -- Where every exchange succeeds and the outbox holds the `k + n` messages that follow `a`, an acknowledgement of `a + k`
  -- returns the first `k` of them, and leaves the `n` that follow `a + k` and the counter.
  pub ack_ws_outbox_through-IsContiguous :
      (d : Db) (scope : String) (a k n : ℕ)
      → IsContiguous d scope a (k + n)
      → (e : Db) × (ack_ws_outbox_through scope (a + k) (calm d)
          ≡ (ok (messages d scope a k), calm e))
        × IsContiguous e scope (a + k) n
  unfolding ack_ws_outbox_through ◌>>=◌
  ack_ws_outbox_through-IsContiguous d scope a k n h =
      let dels = del_window scope a k in
      let zrems = zrem_all (index_key scope) (window_members a k) in
      let d1 = run_all write dels d in
      let e = run_all write (dels ++ zrems) d in
      let same_state : look e (state_key scope) ≡ look d (state_key scope) =
        rw run_all-append
          (other-zrem_all d1 scope a k (state_key scope) refl ∙ state-del_window d scope a k) in
      (
        run_all write (dels ++ zrems) d,
        rw (
          h.index,
          up_to-window (a + k) a k n (k + n) refl refl,
          collect_acked-window d scope a k n (k + n) refl h.stored,
          pipeline_if_any-calm (dels ++ zrems) d,
        ),
        record {
          index = rw run_all-append (
              index-zrem_all d1 scope a k n (k + n) refl
                (rw (index-del_window d scope a k) h.index));
          counter =
              ap (λ o. number_of (fields o Keys.next_outbound_seq) + 1) same_state
              ∙ (h.counter ∙ omega arith);
          stored =
              AllStored-congr d (run_all write (dels ++ zrems) d) scope (a + k) n
                (λ seq lt. rw run_all-append (
                  other-zrem_all d1 scope a k (message_key scope seq) refl
                  ∙ message-del_window d scope a k seq lt))
                (AllStored-tail d scope a k n (k + n) refl h.stored);
        },
      )
