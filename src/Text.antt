-- ===== src/Text.antt =====
-- What the packages use of Go's `strings` and `strconv`: a text as its characters.
pub mod Hex
use Prim.Native.Char.{Char, code}
use relayra.Prelude.{
  ℕ, zero, suc, ◌/◌, ◌%◌, String, Bool, ◌&&◌, ◌||◌, Option, none, some, List, [], ◌∷◌, ◌++◌, ltb,
  leb, ◌==◌, if◌then◌else◌, ◌-◌, ◌≡◌, refl,
}

abbrev pub chars : String → List Char
chars String.[] = []
chars (String.◌∷◌ c s) = c ∷ chars s

abbrev pub of_chars : List Char → String
of_chars [] = String.[]
of_chars (c ∷ cs) = String.◌∷◌ c (of_chars cs)

-- `unicode.IsSpace`
abbrev pub is_space : ℕ → Bool
is_space c =
    (leb 9 c && leb c 13)
    || c == 32
    || c == 133
    || c == 160
    || c == 5760
    || (leb 8192 c && leb c 8202)
    || c == 8232
    || c == 8233
    || c == 8239
    || c == 8287
    || c == 12288

abbrev pub trim_left : List Char → List Char
trim_left [] = []
trim_left (c ∷ cs) = let rest = trim_left cs in if is_space (code c) then rest else c ∷ cs

-- the spaces at the end are those behind which nothing else is left
abbrev pub trim_right : List Char → List Char
trim_right [] = []
trim_right (c ∷ cs) = elim (trim_right cs) [
  | [] ↦ if is_space (code c) then [] else c ∷ []
  | d ∷ ds ↦ c ∷ d ∷ ds
]

-- `strings.TrimSpace`
unfoldable pub trim_space : String → String
trim_space s = of_chars (trim_right (trim_left (chars s)))

abbrev nth_char : ℕ → List Char → Char
nth_char n [] = "0"
nth_char zero (c ∷ cs) = c
nth_char (suc n) (c ∷ cs) = nth_char n cs

abbrev alphabet : List Char
alphabet =
    "a" ∷ "b" ∷ "c" ∷ "d" ∷ "e" ∷ "f" ∷ "g" ∷ "h" ∷ "i" ∷ "j" ∷ "k" ∷ "l" ∷ "m" ∷ "n" ∷ "o" ∷ "p"
    ∷ "q" ∷ "r" ∷ "s" ∷ "t" ∷ "u" ∷ "v" ∷ "w" ∷ "x" ∷ "y" ∷ "z" ∷ []

-- the letters of ASCII, and the two others whose lower case is in ASCII (U+0130 and U+212A)
abbrev lower_char : Char → Char
lower_char c =
    if leb 65 (code c) && leb (code c) 90
    then nth_char (code c - 65) alphabet
    else if code c == 304
    then "i"
    else if code c == 8490
    then "k"
    else c

abbrev lower_chars : List Char → List Char
lower_chars [] = []
lower_chars (c ∷ cs) = lower_char c ∷ lower_chars cs

-- `strings.ToLower`, for a text whose other capitals are those of ASCII
unfoldable pub to_lower : String → String
to_lower s = of_chars (lower_chars (chars s))

abbrev digit : ℕ → Char
digit n = nth_char n ("0" ∷ "1" ∷ "2" ∷ "3" ∷ "4" ∷ "5" ∷ "6" ∷ "7" ∷ "8" ∷ "9" ∷ [])

-- the digits of a number in front of a text; a round for each digit, so the number is enough fuel
decimal_from : ℕ → ℕ → String → String
decimal_from zero n out = out
decimal_from (suc fuel) n out =
    let one = String.◌∷◌ (digit (n % 10)) out in
    let rest = decimal_from fuel (n / 10) one in if ltb n 10 then one else rest

-- `%d` of a number that is not negative
unfoldable pub decimal : ℕ → String
unfolding decimal_from
decimal n = decimal_from (suc n) n ""

-- the rest of a text behind a prefix
abbrev pub behind : List Char → List Char → Option (List Char)
behind [] cs = some cs
behind (p ∷ ps) [] = none
behind (p ∷ ps) (c ∷ cs) = let rest = behind ps cs in if code p == code c then rest else none

-- `strings.HasPrefix` and `strings.TrimPrefix`
unfoldable pub strip_prefix : String → String → Option String
strip_prefix prefix s = elim (behind (chars prefix) (chars s)) [
  | none ↦ none
  | some cs ↦ some (of_chars cs)
]

-- `strings.Split` at one character: the part up to the first, and the parts behind it
abbrev pub split_chars : ℕ → List Char → List Char × List (List Char)
split_chars sep [] = ([], [])
split_chars sep (c ∷ cs) =
    let (part, parts) = split_chars sep cs in
    if code c == sep then ([], part ∷ parts) else (c ∷ part, parts)

-- `strings.Join`
abbrev pub join_chars : List Char → List String → List Char
join_chars sep [] = []
join_chars sep (s ∷ []) = chars s
join_chars sep (s ∷ t ∷ rest) = chars s ++ sep ++ join_chars sep (t ∷ rest)

unfoldable pub join : String → List String → String
join sep parts = of_chars (join_chars (chars sep) parts)

lower_example : to_lower (trim_space " \tWebSocket ") ≡ "websocket"
unfolding to_lower trim_space
lower_example = refl
