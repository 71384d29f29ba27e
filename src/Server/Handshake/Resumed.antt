-- ===== src/Server/Handshake/Resumed.antt =====
-- internal/server/websocket.go: where a session of a sender goes on.
use relayra.Prelude.{
  ℕ, String, ◌||◌, not, Option, none, some, List, [], ◌==ₛ◌, Bool-cases, inl, inr,
}
use relayra.Errors.{Result, ok, err}
use relayra.Models.{WsMessage, listener_ws_scope}
use relayra.Codec.{Codec}
use relayra.Settings.{Settings}
use relayra.Redis.{Redis}
use relayra.Redis.Actions.{State, Exec, next_outcome, answer_or, continue, pure, ◌>>=◌}
use relayra.Store.Outbox.{get_ws_sequence_state, sequence_state_of, state_key}
use relayra.Server.{Session, Ending}
use relayra.Server.Order.{IsOrdered, read_loop-IsOrdered}
use relayra.Server.Inbound.{session_loop}
use relayra.Server.Handshake.{
  opened, received_so_far, session_of, open_session, greet, handshake, run_session, web_socket,
  is_hello, is_resume, peer_of_hello,
}

module _ ⦃R : Redis⦄ ⦃C : Codec⦄ (cfg : Settings) (peer_id : String) (now now_milli : ℕ)
    (touch_peer : Exec R.Db (Unit {0})) (msgs : List WsMessage) where
  open R use {Db, look}

  -- a session, if there is one, is in order from a number on
  abbrev pub Resumes : ℕ → Result (Option (Session × Ending)) → Type 0
  Resumes base (ok none) = Unit
  Resumes base (ok (some ended)) = IsOrdered base [] (ok ended)
  Resumes base (err _) = ⊥

  ended-Resumes :
      (base : ℕ) (r : Result (Session × Ending)) (s : State Db)
      → IsOrdered base [] r
      → Resumes base (continue r (λ ended. pure (some ended)) s).0
  unfolding ◌>>=◌
  ended-Resumes base (ok ended) s h = h
  ended-Resumes base (err e) s h = h

  run_session-Resumes :
      (hello : WsMessage) (n : ℕ) (s : State Db)
      → Resumes n
          (run_session cfg peer_id now now_milli touch_peer msgs
            (opened
              (session_of peer_id hello n now_milli)
              (record { last_sent_seq = hello.last_received_seq; written = [] }))
            s).0
  unfolding run_session session_loop ◌>>=◌
  run_session-Resumes hello n s =
      ended-Resumes n _ _ (
        read_loop-IsOrdered _ touch_peer now now_milli msgs (session_of peer_id hello n now_milli)
          _)

  -- the number that is read from the database: 0 where there is none, or where it cannot be read
  abbrev pub number_read : State Db → ℕ
  number_read s =
      let scope = listener_ws_scope peer_id in
      received_so_far (
        answer_or none (next_outcome s.net) (sequence_state_of scope (look s.db (state_key scope))))

  greet-Resumes :
      (hello : Option WsMessage) (s : State Db)
      → Resumes
          (number_read s)
          ((greet cfg peer_id now now_milli hello
              >>= run_session cfg peer_id now now_milli touch_peer msgs)
            s).0
  unfolding greet open_session get_ws_sequence_state run_session ◌>>=◌
  greet-Resumes none s = tt
  greet-Resumes (some hello) s =
      elim (Bool-cases (not (is_hello hello.type || is_resume hello.type))) [
        | inl bad ↦ rw bad tt
        | inr good ↦ elim (Bool-cases (not (peer_of_hello peer_id hello ==ₛ peer_id))) [
          | inl other ↦ rw (good, other) tt
          | inr same ↦ rw (good, same) (run_session-Resumes hello _ _)
        ]
      ]

  -- Whatever a sender sends first and then, whatever the database holds and whatever exchanges fail,
  -- a connection ends without a session or with one in which the numbers of the messages handled
  -- are those that follow the number stored for the sender, one after another and each once; where
  -- that number cannot be read, they follow 0.
  pub web_socket-Resumes :
      (hello : Option WsMessage) (s : State Db)
      → Resumes (number_read s) (web_socket cfg peer_id now now_milli touch_peer hello msgs s).0
  unfolding web_socket handshake run_session ◌>>=◌
  web_socket-Resumes hello s = elim (Bool-cases (peer_id ==ₛ "")) [
    | inl missing ↦ rw missing tt
    | inr named ↦ rw named (greet-Resumes hello s)
  ]
