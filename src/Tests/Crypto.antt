-- ===== src/Tests/Crypto.antt =====
-- The theorems of Crypto at concrete inputs.
use relayra.Prelude.{ℕ, ◌+◌, String, ◌≡◌, List, [], ◌∷◌, if◌then◌else◌, arith}
use relayra.Errors.{timestamp_drift, Result, ok, err}
use relayra.Crypto.{decrypt, timestamp_bytes, sign_bit}
use relayra.Crypto.Replay.{within, decrypt-within, decrypt-opposite}

-- opens every text to its authenticated bytes
abbrev opens : List ℕ → String → String → List ℕ → Result (List ℕ)
opens key ciphertext nonce authenticated = ok authenticated

decrypt-within_example : decrypt opens [] "c" "n" 1700000400 1700000000 ≡ (
    if within 1700000000 1700000400
    then opens [] "c" "n" (timestamp_bytes 1700000400)
    else err timestamp_drift)
decrypt-within_example =
    decrypt-within opens [] "c" "n" 1700000400 1700000000 (omega arith) (omega arith)

decrypt-opposite_example :
    decrypt opens [] "c" "n" (1700000000 + sign_bit) 1700000000
    ≡ opens [] "c" "n" (0 ∷ 0 ∷ 0 ∷ 0 ∷ 0 ∷ 0 ∷ 0 ∷ 0 ∷ [])
decrypt-opposite_example = decrypt-opposite opens [] "c" "n" 1700000000 (omega arith)
