-- ===== src/Crypto.antt =====
-- internal/crypto/encrypt.go: what `Decrypt` checks before it opens a text. An int64 is a number
-- below 2 ^ 64 in two's complement. Base64 and AES-GCM are a parameter, `unseal`, which is given the
-- key, the text, the nonce and the authenticated bytes.
pub mod Replay
pub mod Secret
use relayra.Prelude.{
  ℕ, ◌+◌, ◌-◌, ◌/◌, ◌%◌, String, Bool, ◌&&◌, not, List, [], ◌∷◌, ltb, leb, if◌then◌else◌,
}
use relayra.Errors.{timestamp_drift, Result, err}

abbrev pub modulus : ℕ
modulus = 18446744073709551616

abbrev pub sign_bit : ℕ
sign_bit = 9223372036854775808

abbrev pub is_negative : ℕ → Bool
is_negative a = leb sign_bit a

abbrev pub subtract : ℕ → ℕ → ℕ
subtract a b = (a + (modulus - b)) % modulus

abbrev pub negate : ℕ → ℕ
negate a = (modulus - a) % modulus

-- five minutes
abbrev pub max_timestamp_drift : ℕ
max_timestamp_drift = 300

-- whether the drift is larger than allowed, as int64 compares it
unfoldable pub drifts : ℕ → ℕ → Bool
drifts now timestamp =
    let drift = subtract now timestamp in
    let absolute = if is_negative drift then negate drift else drift in
    not (is_negative absolute) && ltb max_timestamp_drift absolute

-- big-endian; zeros where the timestamp is negative
abbrev pub timestamp_bytes : ℕ → List ℕ
timestamp_bytes timestamp =
    if is_negative timestamp
    then 0 ∷ 0 ∷ 0 ∷ 0 ∷ 0 ∷ 0 ∷ 0 ∷ 0 ∷ []
    else (timestamp / 72057594037927936)
      ∷ (timestamp / 281474976710656 % 256)
      ∷ (timestamp / 1099511627776 % 256)
      ∷ (timestamp / 4294967296 % 256)
      ∷ (timestamp / 16777216 % 256)
      ∷ (timestamp / 65536 % 256)
      ∷ (timestamp / 256 % 256)
      ∷ (timestamp % 256)
      ∷ []

module _ (unseal : List ℕ → String → String → List ℕ → Result (List ℕ)) where
  unfoldable pub decrypt : List ℕ → String → String → ℕ → ℕ → Result (List ℕ)
  unfolding drifts
  decrypt key ciphertext nonce timestamp now =
      if drifts now timestamp
      then err timestamp_drift
      else unseal key ciphertext nonce (timestamp_bytes timestamp)
