-- ===== src/Crypto/Replay.antt =====
-- internal/crypto/encrypt.go: the timestamps that pass the replay check of `Decrypt`.
use relayra.Prelude.{
  ℕ, ◌+◌, ◌<◌, String, ◌≡◌, refl, Bool, true, false, ◌&&◌, leb, arith, List, [], ◌∷◌, if◌then◌else◌,
  Bool-cases, inl, inr,
}
use relayra.Errors.{timestamp_drift, Result, err}
use relayra.Crypto.{sign_bit, max_timestamp_drift, drifts, decrypt, timestamp_bytes}

near :
    (now timestamp : ℕ)
    → now < sign_bit
    → timestamp < sign_bit
    → leb now (timestamp + max_timestamp_drift) && leb timestamp (now + max_timestamp_drift) ≡ true
    → drifts now timestamp ≡ false
unfolding drifts
near now timestamp clock stamp h = grind arith

far :
    (now timestamp : ℕ)
    → now < sign_bit
    → timestamp < sign_bit
    → leb now (timestamp + max_timestamp_drift) && leb timestamp (now + max_timestamp_drift) ≡ false
    → drifts now timestamp ≡ true
unfolding drifts
far now timestamp clock stamp h = grind arith

opposite : (now : ℕ) → now < sign_bit → drifts now (now + sign_bit) ≡ false
unfolding drifts
opposite now clock = grind arith

-- within five minutes, before or after
abbrev pub within : ℕ → ℕ → Bool
within now timestamp =
    leb now (timestamp + max_timestamp_drift) && leb timestamp (now + max_timestamp_drift)

module _ (unseal : List ℕ → String → String → List ℕ → Result (List ℕ)) where
  -- For a clock and a timestamp that are not negative, `Decrypt` opens the text with the timestamp as
  -- authenticated bytes exactly where the timestamp is within five minutes of the clock, and else
  -- returns an error.
  pub decrypt-within :
      (key : List ℕ) (ciphertext nonce : String) (timestamp now : ℕ)
      → now < sign_bit
      → timestamp < sign_bit
      → decrypt unseal key ciphertext nonce timestamp now ≡ (
          if within now timestamp
          then unseal key ciphertext nonce (timestamp_bytes timestamp)
          else err timestamp_drift)
  unfolding decrypt
  decrypt-within key ciphertext nonce timestamp now clock stamp =
      elim (Bool-cases (within now timestamp)) [
        | inl allowed ↦ rw (near now timestamp clock stamp allowed, allowed) refl
        | inr refused ↦ rw (far now timestamp clock stamp refused, refused) refl
      ]

  -- At every clock that is not negative, the timestamp that lies 2 ^ 63 seconds from it (negative,
  -- as an int64) passes the replay check: the text is opened with eight zeros as authenticated
  -- bytes.
  pub decrypt-opposite :
      (key : List ℕ) (ciphertext nonce : String) (now : ℕ)
      → now < sign_bit
      → decrypt unseal key ciphertext nonce (now + sign_bit) now
        ≡ unseal key ciphertext nonce (0 ∷ 0 ∷ 0 ∷ 0 ∷ 0 ∷ 0 ∷ 0 ∷ 0 ∷ [])
  unfolding decrypt
  decrypt-opposite key ciphertext nonce now clock =
      let negative : leb sign_bit (now + sign_bit) ≡ true = grind arith in
      rw (opposite now clock, negative) refl
