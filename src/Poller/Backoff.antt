-- ===== src/Poller/Backoff.antt =====
-- internal/poller/websocket.go: the time between two attempts to connect.
use relayra.Prelude.{
  ℕ, zero, suc, ◌+◌, ◌*◌, ◌%◌, ◌≤◌, ◌<◌, min, ◌≡◌, refl, ◌∙◌, ltb, arith, Bool-cases, inl, inr,
}
use relayra.Poller.Session.{less, next_web_socket_backoff}

-- the backoff after some more failures
abbrev pub after_failures : ℕ → ℕ → ℕ → ℕ
after_failures zero max_backoff current = current
after_failures (suc n) max_backoff current =
    after_failures n max_backoff (next_web_socket_backoff current max_backoff)

abbrev pub doubled : ℕ → ℕ → ℕ
doubled zero a = a
doubled (suc n) a = doubled n (a * 2)

doubled_mono : (n a b : ℕ) → a ≤ b → doubled n a ≤ doubled n b
doubled_mono zero a b h = h
doubled_mono (suc n) a b h = doubled_mono n (a * 2) (b * 2) (omega (arith, h))

doubled_grows : (n a : ℕ) → a ≤ doubled n a
doubled_grows zero a = omega arith
doubled_grows (suc n) a = omega (arith, doubled_grows n (a * 2))

less_lem : (a b : ℕ) → a < 9223372036854775808 → b < 9223372036854775808 → less a b ≡ ltb a b
unfolding less
less_lem a b small smaller =
    let left : (a + 9223372036854775808) % 18446744073709551616 ≡ a + 9223372036854775808 =
      omega (arith, small) in
    let right : (b + 9223372036854775808) % 18446744073709551616 ≡ b + 9223372036854775808 =
      omega (arith, smaller) in
    rw (left, right) (ground arith)

next_lem : (a b : ℕ) → a ≤ b → b ≤ 4611686018427387904 → next_web_socket_backoff a b ≡ min (a * 2) b
unfolding next_web_socket_backoff
next_lem a b h few =
    let first = less_lem a b (omega (arith, h, few)) (omega (arith, few)) in
    elim (Bool-cases (ltb a b)) [
      | inl more ↦
          let twice : a * 2 % 18446744073709551616 ≡ a * 2 = omega (arith, h, few) in
          let second = less_lem b (a * 2) (omega (arith, few)) (ground (arith, more, few)) in
          rw (first, more, twice, second) (ground (arith, h))
      | inr last ↦ rw (first, last) (ground (arith, h, last))
    ]

-- From a backoff that is no longer than the longest, which is at most 2 ^ 62 nanoseconds, the backoff
-- after `n` failures is the one doubled `n` times, but no longer than the longest.
pub after_failures-doubled :
    (n current max_backoff : ℕ)
    → current ≤ max_backoff
    → max_backoff ≤ 4611686018427387904
    → after_failures n max_backoff current ≡ min (doubled n current) max_backoff
after_failures-doubled zero current max_backoff h few = ground (arith, h)
after_failures-doubled (suc n) current max_backoff h few = rw (next_lem current max_backoff h few) (
    after_failures-doubled n (min (current * 2) max_backoff) max_backoff (omega arith) few ∙ capped)
  where
    capped :
        min (doubled n (min (current * 2) max_backoff)) max_backoff
        ≡ min (doubled n (current * 2)) max_backoff
    capped = elim (Bool-cases (ltb (current * 2) max_backoff)) [
      | inl short ↦
          let same : min (current * 2) max_backoff ≡ current * 2 = ground (arith, short) in
          rw same refl
      | inr long ↦
          let cap : min (current * 2) max_backoff ≡ max_backoff = ground (arith, long) in
          let grows = doubled_grows n max_backoff in
          let larger = doubled_mono n max_backoff (current * 2) (ground (arith, long)) in
          rw cap (omega (arith, grows, larger))
    ]
