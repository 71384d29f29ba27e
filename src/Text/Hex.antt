-- ===== src/Text/Hex.antt =====
-- What the packages use of Go's `encoding/hex`: the bytes that a hexadecimal text stands for. The
-- text of some bytes is `hex` of Store/Proxies/Hash.
use Prim.Native.Char.{Char, code}
use relayra.Prelude.{
  ℕ, zero, suc, ◌+◌, ◌-◌, ◌*◌, ◌/◌, ◌%◌, ◌<◌, String, ◌≡◌, refl, ap, ◌∙◌, ◌&&◌, Option, none, some,
  List, [], ◌∷◌, leb, if◌then◌else◌, arith, All,
}
use relayra.Text.{chars}
use relayra.Store.Proxies.Hash.{digit, hex}

abbrev pub hex_value : Char → Option ℕ
hex_value c =
    if leb 48 (code c) && leb (code c) 57
    then some (code c - 48)
    else if leb 97 (code c) && leb (code c) 102
    then some (code c - 87)
    else if leb 65 (code c) && leb (code c) 70
    then some (code c - 55)
    else none

abbrev pub byte_before : Option ℕ → Option ℕ → List ℕ → List ℕ
byte_before (some high) (some low) rest = (high * 16 + low) ∷ rest
byte_before _ _ rest = []

-- the bytes up to the first pair of characters that are not both digits
abbrev pub decoded : List Char → List ℕ
decoded [] = []
decoded (c ∷ []) = []
decoded (c ∷ d ∷ cs) = byte_before (hex_value c) (hex_value d) (decoded cs)

-- `hex.DecodeString`, where its error is dropped
unfoldable pub decode_hex : String → List ℕ
decode_hex s = decoded (chars s)

hex_value-digit : (n : ℕ) → n < 16 → hex_value (digit n) ≡ some n
hex_value-digit zero h = refl
hex_value-digit (suc zero) h = refl
hex_value-digit (suc (suc zero)) h = refl
hex_value-digit (suc (suc (suc zero))) h = refl
hex_value-digit (suc (suc (suc (suc zero)))) h = refl
hex_value-digit (suc (suc (suc (suc (suc zero))))) h = refl
hex_value-digit (suc (suc (suc (suc (suc (suc zero)))))) h = refl
hex_value-digit (suc (suc (suc (suc (suc (suc (suc zero))))))) h = refl
hex_value-digit (suc (suc (suc (suc (suc (suc (suc (suc zero)))))))) h = refl
hex_value-digit (suc (suc (suc (suc (suc (suc (suc (suc (suc zero))))))))) h = refl
hex_value-digit (suc (suc (suc (suc (suc (suc (suc (suc (suc (suc zero)))))))))) h = refl
hex_value-digit (suc (suc (suc (suc (suc (suc (suc (suc (suc (suc (suc zero))))))))))) h = refl
hex_value-digit (suc (suc (suc (suc (suc (suc (suc (suc (suc (suc (suc (suc zero)))))))))))) h =
    refl
hex_value-digit (suc (suc (suc (suc (suc (suc (suc (suc (suc (suc (suc (suc (suc zero)))))))))))))
      h =
    refl
hex_value-digit
      (suc (suc (suc (suc (suc (suc (suc (suc (suc (suc (suc (suc (suc (suc zero)))))))))))))) h =
    refl
hex_value-digit
      (suc (suc (suc (suc (suc (suc (suc (suc (suc (suc (suc (suc (suc (suc (suc zero)))))))))))))))
      h =
    refl
hex_value-digit
      (suc
        (suc (suc (suc (suc (suc (suc (suc (suc (suc (suc (suc (suc (suc (suc (suc n))))))))))))))))
      h =
    absurd (omega (arith, h))

byte_lem :
    (b : ℕ) (rest : List ℕ)
    → b < 256
    → byte_before (hex_value (digit (b / 16))) (hex_value (digit (b % 16))) rest ≡ b ∷ rest
byte_lem b rest small =
    let high : hex_value (digit (b / 16)) ≡ some (b / 16) =
      hex_value-digit (b / 16) (omega (arith, small)) in
    let low : hex_value (digit (b % 16)) ≡ some (b % 16) = hex_value-digit (b % 16) (omega arith) in
    let whole : b / 16 * 16 + b % 16 ≡ b = omega arith in rw (high, low) (ap (λ n. n ∷ rest) whole)

-- bytes are read back from their text
pub decode_hex-hex : (bs : List ℕ) → All (λ b. b < 256) bs → decode_hex (hex bs) ≡ bs
unfolding decode_hex
decode_hex-hex [] small = refl
decode_hex-hex (b ∷ bs) (small, rest) =
    byte_lem b (decoded (chars (hex bs))) small ∙ ap (λ l. b ∷ l) (decode_hex-hex bs rest)
