-- ===== src/Server/Order.antt =====
-- internal/server/websocket.go: the order in which the messages of a session are handled.
use relayra.Prelude.{
  ℕ, zero, suc, ◌+◌, ◌≡◌, refl, sym, ◌∙◌, arith, List, [], ◌∷◌, ◌++◌, append-nil, append_assoc,
  true, false, ltb, leb, ◌==◌, if◌then◌else◌, ◌⊎◌, inl, inr, Bool-cases, Option, none, some, not,
  ◌&&◌, ◌==ₛ◌, subst,
}
use relayra.Errors.{Result, ok, err}
use relayra.Models.{WsMessage, ProbeMessage}
use relayra.Redis.{Redis}
use relayra.Redis.Actions.{State, Exec, ◌>>=◌}
use relayra.Server.{
  Session, Ending, cursor_failed, handling_failed, out_of_order, ack_failed, peer_mismatch,
  read_failure, note, send_ack, after_cursor, after_handling, handle, in_sequence, read_message,
  read_loop, is_ack, is_keepalive, answer_probe, after_ack,
}

-- the numbers of the messages that have one
abbrev pub seqs : List WsMessage → List ℕ
seqs [] = []
seqs (m ∷ ms) = let rest = seqs ms in if ltb 0 m.seq then m.seq ∷ rest else rest

-- the `n` numbers that follow `a`
abbrev pub count_from : ℕ → ℕ → List ℕ
count_from a zero = []
count_from a (suc n) = (a + 1) ∷ count_from (a + 1) n

-- The numbers of the handled messages are those there were and the `n` that follow `base`, and the
-- session stands at the last of them, or before it if that number could not be stored.
abbrev pub IsOrdered : ℕ → List ℕ → Result (Session × Ending) → Type 0
IsOrdered base done (ok (s, ending)) =
    (n : ℕ) × (seqs s.handled ≡ done ++ count_from base n)
    × ((s.last_received_seq ≡ base + n)
        ⊎ ((ending ≡ cursor_failed) × (s.last_received_seq + 1 ≡ base + n)))
IsOrdered base done (err e) = ⊥

seqs-note :
    (ms : List WsMessage) (m : WsMessage)
    → seqs (ms ++ m ∷ []) ≡ seqs ms ++ (if ltb 0 m.seq then m.seq ∷ [] else [])
seqs-note [] m = refl
seqs-note (x ∷ ms) m = ground (arith, seqs-note ms m)

noted :
    (ms : List WsMessage) (m : WsMessage) (base : ℕ)
    → m.seq ≡ base + 1
    → seqs (ms ++ m ∷ []) ≡ seqs ms ++ (base + 1) ∷ []
noted ms m base next =
    let numbered : ltb 0 m.seq ≡ true = ground (arith, next) in
    seqs-note ms m ∙ rw (numbered, next) refl

unnumbered :
    (ms : List WsMessage) (m : WsMessage) → ltb 0 m.seq ≡ false → seqs (ms ++ m ∷ []) ≡ seqs ms
unnumbered ms m h = seqs-note ms m ∙ rw h (append-nil (seqs ms))

stopped :
    (s : Session) (ending : Ending)
    → IsOrdered s.last_received_seq (seqs s.handled) (ok (s, ending))
stopped s ending = (0, sym (append-nil (seqs s.handled)), inl (omega arith))

-- one more number has been handled
IsOrdered-next :
    (base : ℕ) (done : List ℕ) (r : Result (Session × Ending))
    → IsOrdered (base + 1) (done ++ (base + 1) ∷ []) r
    → IsOrdered base done r
IsOrdered-next base done (err e) h = h
IsOrdered-next base done (ok (s, ending)) (n, listed, inl at) = (
  suc n,
  listed ∙ append_assoc done ((base + 1) ∷ []) (count_from (base + 1) n),
  inl (omega (arith, at)),
)
IsOrdered-next base done (ok (s, ending)) (n, listed, inr (stuck, at)) = (
  suc n,
  listed ∙ append_assoc done ((base + 1) ∷ []) (count_from (base + 1) n),
  inr (stuck, omega (arith, at)),
)

module _ ⦃R : Redis⦄ where
  open R use {Db}

  -- what follows keeps the order, from any session and state
  abbrev KeepsOrder : (Session → Exec Db (Session × Ending)) → Type 0
  KeepsOrder rest =
      (s : Session) (st : State Db) → IsOrdered s.last_received_seq (seqs s.handled) (rest s st).0

  module _ (handle_inbound : WsMessage → Exec Db (Unit {0})) (touch_peer : Exec Db (Unit {0}))
      (now now_milli : ℕ) where
    -- a message with the next number is noted, and the number is stored or not
    after_cursor-IsOrdered :
        (msg : WsMessage) (stored : Option (Unit {0})) (rest : Session → Exec Db (Session × Ending))
        → KeepsOrder rest
        → (s : Session) (st : State Db) → msg.seq ≡ s.last_received_seq + 1
        → IsOrdered s.last_received_seq
            (seqs s.handled)
            (after_cursor handle_inbound touch_peer now now_milli msg stored rest (note msg s) st).0
    unfolding ◌>>=◌
    after_cursor-IsOrdered msg none rest kept s st next =
        (1, noted s.handled msg s.last_received_seq next, inr (refl, omega arith))
    after_cursor-IsOrdered msg (some _) rest kept s st next =
        let s' = send_ack msg.seq now_milli (record (note msg s) { last_received_seq = msg.seq }) in
        let r = (rest s' st).0 in
        IsOrdered-next s.last_received_seq (seqs s.handled) r (
          subst (λ base. IsOrdered base (seqs s.handled ++ (s.last_received_seq + 1) ∷ []) r) next
            (subst (λ done. IsOrdered msg.seq done r) (noted s.handled msg s.last_received_seq next)
              (kept s' st)))

    after_handling-IsOrdered :
        (msg : WsMessage) (done : Option (Unit {0})) (rest : Session → Exec Db (Session × Ending))
        → KeepsOrder rest
        → (s : Session) (st : State Db) → (ltb 0 msg.seq ≡ true → msg.seq ≡ s.last_received_seq + 1)
        → IsOrdered s.last_received_seq
            (seqs s.handled)
            (after_handling handle_inbound touch_peer now now_milli msg done rest s st).0
    unfolding after_handling ◌>>=◌
    after_handling-IsOrdered msg none rest kept s st next = stopped s handling_failed
    after_handling-IsOrdered msg (some _) rest kept s st next = elim (Bool-cases (ltb 0 msg.seq)) [
      | inl numbered ↦ rw numbered (after_cursor-IsOrdered msg _ rest kept s _ (next numbered))
      | inr plain ↦ rw plain (
          subst (λ done. IsOrdered s.last_received_seq done (rest (note msg s) st).0)
            (unnumbered s.handled msg plain) (kept (note msg s) st))
    ]

    handle-IsOrdered :
        (msg : WsMessage) (rest : Session → Exec Db (Session × Ending))
        → KeepsOrder rest
        → (s : Session) (st : State Db) → (ltb 0 msg.seq ≡ true → msg.seq ≡ s.last_received_seq + 1)
        → IsOrdered s.last_received_seq
            (seqs s.handled)
            (handle handle_inbound touch_peer now now_milli msg rest s st).0
    unfolding handle ◌>>=◌
    handle-IsOrdered msg rest kept s st next = after_handling-IsOrdered msg _ rest kept s _ next

    in_sequence-KeepsOrder :
        (msg : WsMessage) (rest : Session → Exec Db (Session × Ending))
        → KeepsOrder rest
        → KeepsOrder (in_sequence handle_inbound touch_peer now now_milli msg rest)
    unfolding in_sequence ◌>>=◌
    in_sequence-KeepsOrder msg rest kept s st = elim (Bool-cases (ltb 0 msg.seq)) [
      | inr plain ↦ rw plain (
          handle-IsOrdered msg rest kept s st
            (λ numbered. absurd (ground (arith, plain, numbered))))
      | inl numbered ↦ elim (Bool-cases (leb msg.seq s.last_received_seq)) [
        | inl again ↦ rw (numbered, again) (kept (send_ack s.last_received_seq now_milli s) st)
        | inr fresh ↦ elim (Bool-cases (msg.seq == s.last_received_seq + 1)) [
          | inl next ↦
              rw (numbered, fresh, next)
                (handle-IsOrdered msg rest kept s st (λ _. ground (arith, next)))
          | inr skips ↦ rw (numbered, fresh, skips) (stopped s out_of_order)
        ]
      ]
    ]

    answer_probe-KeepsOrder :
        (probe : Option ProbeMessage) (rest : Session → Exec Db (Session × Ending))
        → KeepsOrder rest
        → KeepsOrder (λ s. rest (answer_probe probe now_milli s))
    answer_probe-KeepsOrder none rest kept s st = kept s st
    answer_probe-KeepsOrder (some probe) rest kept s st = elim (Bool-cases probe.ack) [
      | inl answer ↦ rw answer (kept s st)
      | inr asked ↦ rw asked (kept _ st)
    ]

    after_ack-KeepsOrder :
        (acked : Option (Unit {0})) (rest : Session → Exec Db (Session × Ending))
        → KeepsOrder rest
        → KeepsOrder (after_ack handle_inbound touch_peer now now_milli acked rest)
    unfolding ◌>>=◌
    after_ack-KeepsOrder none rest kept s st = stopped s ack_failed
    after_ack-KeepsOrder (some _) rest kept s st = kept s st

    read_message-KeepsOrder :
        (msg : WsMessage) (rest : Session → Exec Db (Session × Ending))
        → KeepsOrder rest
        → KeepsOrder (read_message handle_inbound touch_peer now now_milli msg rest)
    unfolding read_message ◌>>=◌
    read_message-KeepsOrder msg rest kept s st =
        elim (Bool-cases (not (msg.peer_id ==ₛ "") && not (msg.peer_id ==ₛ s.peer_id))) [
          | inl strange ↦ rw strange (stopped s peer_mismatch)
          | inr known ↦ elim (Bool-cases (is_ack msg.type)) [
            | inl acks ↦ rw (known, acks) (after_ack-KeepsOrder _ rest kept s _)
            | inr other ↦ elim (Bool-cases (is_keepalive msg.type)) [
              | inl alive ↦
                  rw (known, other, alive) (answer_probe-KeepsOrder msg.probe rest kept s _)
              | inr plain ↦ rw (known, other, plain) (in_sequence-KeepsOrder msg rest kept s _)
            ]
          ]
        ]

    -- Whatever messages are read, whatever handler is called, whatever the database holds and
    -- whatever exchanges fail, the loop ends with a reason; the numbers of the messages handled in
    -- it are those that follow the session's last number, one after another and each once; and the
    -- session's last number is then that of the last message handled, or the one before it where
    -- that number could not be stored.
    pub read_loop-IsOrdered :
        (msgs : List WsMessage) (s : Session) (st : State Db)
        → IsOrdered s.last_received_seq
            (seqs s.handled)
            (read_loop handle_inbound touch_peer now now_milli msgs s st).0
    unfolding read_loop ◌>>=◌
    read_loop-IsOrdered [] s st = stopped s read_failure
    read_loop-IsOrdered (msg ∷ msgs) s st =
        read_message-KeepsOrder msg (read_loop handle_inbound touch_peer now now_milli msgs)
          (read_loop-IsOrdered msgs) s st
