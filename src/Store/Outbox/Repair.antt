-- ===== src/Store/Outbox/Repair.antt =====
-- internal/store/ws_outbox_redis.go: `ListWSOutbox` and `ResetWSOutbox`.
use relayra.Prelude.{
  ℕ, zero, suc, ◌+◌, ◌≤◌, ◌<◌, min, String, ◌≡◌, refl, ap, subst, ◌∙◌, List, [], ◌∷◌, arith,
  eq_refl,
}
use relayra.Errors.{ok}
use relayra.Models.{WsOutboxMessage, WsType}
use relayra.Codec.{Bytes}
use relayra.Redis.{Redis}
use relayra.Redis.Objects.{Member, numbered, ranked}
use relayra.Redis.Actions.{calm, ◌>>=◌, run_all, run_all-append}
use relayra.Store.Outbox.{
  index_key, message_key, above, page, message_of, list_from, list_ws_outbox, append_ws_outbox,
  reset_ws_outbox, reset_commands, index_members,
}
use relayra.Store.Outbox.Contiguous.{window, AllStored, IsContiguous, append_ws_outbox-IsContiguous}

abbrev pub window_members : ℕ → ℕ → List Member
window_members a zero = []
window_members a (suc n) = numbered (a + 1) ∷ window_members (a + 1) n

above-window :
    (limit after a n : ℕ)
    → after ≤ a
    → above limit after (window a n) ≡ window_members a (min limit n)
above-window zero after a n h = let e : min 0 n ≡ 0 = omega arith in rw e
above-window (suc limit) after a zero h = let e : min (suc limit) 0 ≡ 0 = omega arith in rw e
above-window (suc limit) after a (suc n) h =
    let e : min (suc limit) (suc n) ≡ suc (min limit n) = omega arith in
    rw e (ground (arith, above-window limit after (a + 1) n (omega arith)))

page-positive :
    (limit after : ℕ) (xs : List (ℕ × Member))
    → 0 < limit
    → page limit after xs ≡ above limit after xs
page-positive limit after xs h = ground arith

module _ ⦃R : Redis⦄ where
  open R use {Db, look, write, look-write}

  -- the `n` messages that follow `a`
  abbrev pub messages : Db → String → ℕ → ℕ → List WsOutboxMessage
  messages d scope a zero = []
  messages d scope a (suc n) =
      message_of scope (a + 1) (look d (message_key scope (a + 1))) ∷ messages d scope (a + 1) n

  list_from-window :
      (d : Db) (scope : String) (a n k : ℕ)
      → AllStored d scope a n
      → k ≤ n
      → list_from scope (a + 1) (window_members a k) (calm d) ≡ (ok (messages d scope a k), calm d)
  unfolding list_from ◌>>=◌
  list_from-window d scope a n zero h le = refl
  list_from-window d scope a zero (suc k) h le = absurd (omega arith)
  list_from-window d scope a (suc n) (suc k) h le =
      ground (arith, h.0, list_from-window d scope (a + 1) n k h.1 (omega arith))

  -- Where every exchange succeeds and the outbox holds the `n` messages that follow `a`, a listing after `a` with a limit that
  -- is not 0 succeeds with the first of them, as many as there are and the limit allows, and
  -- changes nothing.
  pub list_ws_outbox-messages :
      (d : Db) (scope : String) (a n limit : ℕ)
      → 0 < limit
      → IsContiguous d scope a n
      → list_ws_outbox scope a limit (calm d) ≡ (ok (messages d scope a (min limit n)), calm d)
  unfolding list_ws_outbox ◌>>=◌
  list_ws_outbox-messages d scope a n limit some h =
      rw (h.index, page-positive limit a (window a n) some, above-window limit a a n (omega arith))
        (list_from-window d scope a n (min limit n) h.stored (omega arith))

  -- Where every exchange succeeds, a reset, whatever the outbox held, leaves it empty, with the counter at the given number.
  pub reset_ws_outbox-IsContiguous :
      (d : Db) (scope : String) (a now : ℕ)
      → (e : Db) × (reset_ws_outbox scope a now (calm d) ≡ (ok tt, calm e))
        × IsContiguous e scope a 0
  unfolding reset_ws_outbox ◌>>=◌
  reset_ws_outbox-IsContiguous d scope a now =
      let members = index_members (ranked (look d (index_key scope))) in
      (
        run_all write (reset_commands scope a now members) d,
        refl,
        record {
          index = rw run_all-append (simp (look-write, eq_refl));
          counter = rw run_all-append (simp (look-write, eq_refl) (omega arith));
          stored = tt;
        },
      )

  list_ws_outbox-one :
      (d : Db) (scope : String) (a limit : ℕ) (msg : WsOutboxMessage)
      → 0 < limit
      → IsContiguous d scope a 1
      → message_of scope (a + 1) (look d (message_key scope (a + 1))) ≡ msg
      → list_ws_outbox scope a limit (calm d) ≡ (ok (msg ∷ []), calm d)
  list_ws_outbox-one d scope a limit msg some kept same =
      let one_left : min limit 1 ≡ 1 = omega (arith, some) in
      list_ws_outbox-messages d scope a 1 limit some kept
      ∙ rw one_left (ap (λ m. (ok (m ∷ []), calm d)) same)

  abbrev appended : String → ℕ → WsType → String → Bytes → ℕ → WsOutboxMessage
  appended scope seq type ref_id payload created_at = record {
    scope = scope;
    seq = seq;
    type = type;
    ref_id = ref_id;
    payload = payload;
    created_at = created_at;
  }

  -- Where every exchange succeeds, after a reset to a number, whatever the outbox held, the message
  -- that is appended next takes the number that follows, and a listing from the number of the reset,
  -- with a limit that is not 0, meets no gap: it gives this message, as it was appended, and no other.
  pub reset-append-list :
      (d : Db) (scope : String) (a now limit : ℕ) (type : WsType) (ref_id : String)
      (payload : Bytes) (later : ℕ)
      → 0 < limit
      → (e : Db) × (f : Db) × (reset_ws_outbox scope a now (calm d) ≡ (ok tt, calm e))
        × (append_ws_outbox scope type ref_id payload later (calm e) ≡ (ok (a + 1), calm f))
        × (list_ws_outbox scope a limit (calm f) ≡ (
          ok (
              record {
                scope = scope;
                seq = a + 1;
                type = type;
                ref_id = ref_id;
                payload = payload;
                created_at = later;
              }
              ∷ []),
          calm f,
        ))
  reset-append-list d scope a now limit type ref_id payload later some =
      let (e, ran, kept) = reset_ws_outbox-IsContiguous d scope a now in
      let (f, ran_append, one, message) =
        append_ws_outbox-IsContiguous e scope a 0 type ref_id payload later kept in
      let first : a + 0 + 1 ≡ a + 1 = omega arith in
      let at_next =
        subst
          (λ n.
            message_of scope n (look f (message_key scope n))
            ≡ appended scope n type ref_id payload later)
          first message in
      (
        e,
        f,
        ran,
        ran_append ∙ ap (λ n. (ok n, calm f)) first,
        list_ws_outbox-one f scope a limit _ some one at_next,
      )
