-- ===== src/Store/Proxies/Hash.antt =====
-- internal/store/redis_proxy.go: `hashURL`, the name under which a proxy's status is kept.
use Prim.Native.Char.{Char, char}
use relayra.Prelude.{
  ℕ, zero, suc, ◌+◌, ◌/◌, ◌%◌, String, ◌≡◌, refl, ap, ◌∙◌, sym, List, [], ◌∷◌, ◌++◌, ltb,
  if◌then◌else◌, take,
}

-- the bytes of a character in UTF-8
abbrev utf8_code : ℕ → List ℕ
utf8_code n =
    if ltb n 128
    then n ∷ []
    else if ltb n 2048
    then (192 + n / 64) ∷ (128 + n % 64) ∷ []
    else if ltb n 65536
    then (224 + n / 4096) ∷ (128 + n / 64 % 64) ∷ (128 + n % 64) ∷ []
    else (240 + n / 262144) ∷ (128 + n / 4096 % 64) ∷ (128 + n / 64 % 64) ∷ (128 + n % 64) ∷ []

abbrev pub utf8 : String → List ℕ
utf8 String.[] = []
utf8 (String.◌∷◌ (char n _) s) = utf8_code n ++ utf8 s

abbrev nth_char : ℕ → List Char → Char
nth_char n [] = "0"
nth_char zero (c ∷ cs) = c
nth_char (suc n) (c ∷ cs) = nth_char n cs

abbrev pub digit : ℕ → Char
digit n = nth_char n (
    "0" ∷ "1" ∷ "2" ∷ "3" ∷ "4" ∷ "5" ∷ "6" ∷ "7" ∷ "8" ∷ "9" ∷ "a" ∷ "b" ∷ "c" ∷ "d" ∷ "e" ∷ "f"
    ∷ [])

-- `%x` of a text
abbrev pub hex : List ℕ → String
hex [] = String.[]
hex (b ∷ bs) = String.◌∷◌ (digit (b / 16)) (String.◌∷◌ (digit (b % 16)) (hex bs))

-- the first characters of a text, or all of it where it is shorter
abbrev first_chars : ℕ → String → String
first_chars zero s = String.[]
first_chars (suc n) String.[] = String.[]
first_chars (suc n) (String.◌∷◌ c s) = String.◌∷◌ c (first_chars n s)

-- a hexadecimal text has no blanks that could be trimmed
unfoldable pub hash_url : String → String
hash_url u = first_chars 16 (hex (utf8 u))

abbrev twice : ℕ → ℕ
twice zero = zero
twice (suc n) = suc (suc (twice n))

first_chars-hex : (n : ℕ) (bs : List ℕ) → first_chars (twice n) (hex bs) ≡ hex (take n bs)
first_chars-hex zero bs = refl
first_chars-hex (suc n) [] = refl
first_chars-hex (suc n) (b ∷ bs) =
    ap (λ s. String.◌∷◌ (digit (b / 16)) (String.◌∷◌ (digit (b % 16)) s)) (first_chars-hex n bs)

-- Two URLs that begin with the same eight bytes have one name.
pub hash_url-take : (u v : String) → take 8 (utf8 u) ≡ take 8 (utf8 v) → hash_url u ≡ hash_url v
unfolding hash_url
hash_url-take u v h = first_chars-hex 8 (utf8 u) ∙ (ap hex h ∙ sym (first_chars-hex 8 (utf8 v)))
