-- ===== src/Store/Outbox/Contiguous.antt =====
-- internal/store/ws_outbox_redis.go: the outbox of a scope as a window of numbers, and
-- `AppendWSOutbox`.
use relayra.Prelude.{
  ℕ, zero, suc, ◌+◌, ◌<◌, String, ◌≡◌, refl, ap, ◌∙◌, subst, true, List, [], ◌∷◌, arith, eq_refl,
}
use relayra.Errors.{ok}
use relayra.Models.{WsType}
use relayra.Codec.{Bytes}
use relayra.Redis.{Redis, look_after}
use relayra.Redis.Objects.{Member, numbered, rank, unrank, ranked, exists}
use relayra.Redis.Actions.{calm, ◌>>=◌, run_all}
use relayra.Store.Outbox.{
  index_key, message_key, next_seq, append_script, append_ws_outbox, message_of,
}

-- the index of `n` messages that follow the number `a`
abbrev pub window : ℕ → ℕ → List (ℕ × Member)
window a zero = []
window a (suc n) = (a + 1, numbered (a + 1)) ∷ window (a + 1) n

unrank-window : (m a n : ℕ) → a + n < m → unrank (numbered m) (window a n) ≡ window a n
unfolding unrank
unrank-window m a zero h = refl
unrank-window m a (suc n) h = ground (arith, unrank-window m (a + 1) n)

-- the next message goes to the end of the index
rank-window : (m a n : ℕ) → m ≡ a + n + 1 → rank m (numbered m) (window a n) ≡ window a (suc n)
unfolding rank
rank-window m a zero h = ground arith
rank-window m a (suc n) h = ground (arith, rank-window m (a + 1) n)

module _ ⦃R : Redis⦄ where
  open R use {Db, look, write, look-write}

  abbrev pub AllStored : Db → String → ℕ → ℕ → Type 0
  AllStored d scope a zero = Unit
  AllStored d scope a (suc n) =
      (exists (look d (message_key scope (a + 1))) ≡ true) × AllStored d scope (a + 1) n

  -- the outbox of a scope holds the `n` messages that follow the number `a`, and the counter stands
  -- at the last of them
  pub record IsContiguous (d : Db) (scope : String) (a n : ℕ) : Type 0 where
    pub index : ranked (look d (index_key scope)) ≡ window a n
    pub counter : next_seq d scope ≡ a + n + 1
    pub stored : AllStored d scope a n

  index_after-append :
      (d : Db) (scope : String) (a n : ℕ) (type : WsType) (ref_id : String) (payload : Bytes)
      (now : ℕ)
      → IsContiguous d scope a n
      → ranked (look_after d (append_script scope type ref_id payload now d).0 (index_key scope))
        ≡ window a (n + 1)
  index_after-append d scope a n type ref_id payload now h =
      let seq = next_seq d scope in
      simp (look-write, eq_refl)
        (ground (arith, h.index, h.counter, unrank-window seq a n, rank-window seq a n))

  counter_after-append :
      (d : Db) (scope : String) (a n : ℕ) (type : WsType) (ref_id : String) (payload : Bytes)
      (now : ℕ)
      → IsContiguous d scope a n
      → next_seq (run_all write (append_script scope type ref_id payload now d).0 d) scope
        ≡ a + (n + 1) + 1
  counter_after-append d scope a n type ref_id payload now h =
      simp (look-write, eq_refl) (omega (arith, h.counter))

  AllStored-append :
      (d : Db) (scope : String) (type : WsType) (ref_id : String) (payload : Bytes) (now : ℕ)
      (b n : ℕ)
      → AllStored d scope b n
      → AllStored (run_all write (append_script scope type ref_id payload now d).0 d) scope b n
  AllStored-append d scope type ref_id payload now b zero h = tt
  AllStored-append d scope type ref_id payload now b (suc n) h = (
    simp (look-write, eq_refl) (ground (arith, h.0)),
    AllStored-append d scope type ref_id payload now (b + 1) n h.1,
  )

  AllStored-last :
      (d : Db) (scope : String) (b n : ℕ)
      → AllStored d scope b n
      → exists (look d (message_key scope (b + n + 1))) ≡ true
      → AllStored d scope b (suc n)
  AllStored-last d scope b zero h last =
      let e : b + 0 + 1 ≡ b + 1 = omega arith in
      (subst (λ k. exists (look d (message_key scope k)) ≡ true) e last, tt)
  AllStored-last d scope b (suc n) h last =
      let e : b + suc n + 1 ≡ b + 1 + n + 1 = omega arith in
      (
        h.0,
        AllStored-last d scope (b + 1) n h.1
            (subst (λ k. exists (look d (message_key scope k)) ≡ true) e last),
      )

  -- the message that `append_ws_outbox` writes
  written-append :
      (d : Db) (scope : String) (type : WsType) (ref_id : String) (payload : Bytes) (now : ℕ)
      → message_of scope (next_seq d scope) (
          look_after d
            (append_script scope type ref_id payload now d).0
            (message_key scope (next_seq d scope)))
        ≡ record {
          scope = scope;
          seq = next_seq d scope;
          type = type;
          ref_id = ref_id;
          payload = payload;
          created_at = now;
        }
  written-append d scope type ref_id payload now = simp (look-write, eq_refl) (ground arith)

  exists-append :
      (d : Db) (scope : String) (type : WsType) (ref_id : String) (payload : Bytes) (now : ℕ)
      → exists (
          look_after d
            (append_script scope type ref_id payload now d).0
            (message_key scope (next_seq d scope)))
        ≡ true
  exists-append d scope type ref_id payload now = simp (look-write, eq_refl) (ground arith)

  append-step :
      (d : Db) (scope : String) (a n : ℕ) (type : WsType) (ref_id : String) (payload : Bytes)
      (now : ℕ)
      → IsContiguous d scope a n
      → IsContiguous
          (run_all write (append_script scope type ref_id payload now d).0 d)
          scope
          a
          (suc n)
  append-step d scope a n type ref_id payload now h =
      let e = run_all write (append_script scope type ref_id payload now d).0 d in
      let at_end : next_seq d scope ≡ a + n + 1 = h.counter in
      let one : n + 1 ≡ suc n = omega arith in
      record {
        index = index_after-append d scope a n type ref_id payload now h ∙ ap (window a) one;
        counter = counter_after-append d scope a n type ref_id payload now h ∙ omega arith;
        stored =
            AllStored-last e scope a n
              (AllStored-append d scope type ref_id payload now a n h.stored)
              (subst (λ k. exists (look e (message_key scope k)) ≡ true) at_end
                (exists-append d scope type ref_id payload now));
      }

  -- Where every exchange succeeds and a scope's outbox holds the `n` messages that follow `a`, to append one gives it the
  -- number `a + n + 1`, and the outbox then holds the `n + 1` messages that follow `a`, the last of
  -- them the one that was given.
  pub append_ws_outbox-IsContiguous :
      (d : Db) (scope : String) (a n : ℕ) (type : WsType) (ref_id : String) (payload : Bytes)
      (now : ℕ)
      → IsContiguous d scope a n
      → (e : Db) × (append_ws_outbox scope type ref_id payload now (calm d)
          ≡ (ok (a + n + 1), calm e))
        × IsContiguous e scope a (suc n)
        × (message_of scope (a + n + 1) (look e (message_key scope (a + n + 1))) ≡ record {
          scope = scope;
          seq = a + n + 1;
          type = type;
          ref_id = ref_id;
          payload = payload;
          created_at = now;
        })
  unfolding append_ws_outbox ◌>>=◌
  append_ws_outbox-IsContiguous d scope a n type ref_id payload now h = (
    run_all write (append_script scope type ref_id payload now d).0 d,
    rw h.counter,
    append-step d scope a n type ref_id payload now h,
    subst
        (λ k.
          message_of scope k (
            look (run_all write (append_script scope type ref_id payload now d).0 d)
              (message_key scope k))
          ≡ record {
            scope = scope;
            seq = k;
            type = type;
            ref_id = ref_id;
            payload = payload;
            created_at = now;
          })
        h.counter (written-append d scope type ref_id payload now),
  )
