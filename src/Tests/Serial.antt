-- ===== src/Tests/Serial.antt =====
-- Reversible encodings in lists of numbers, which stand for encoding/json.
use Prim.Native.Nat.{Ordering, compare}
use Prim.Native.Char.{Char, char, IsLt}
use relayra.Prelude.{
  ℕ, zero, suc, String, ◌≡◌, refl, Bool, true, false, Option, none, some, List, [], ◌∷◌,
}
use relayra.Codec.{Bytes}

-- `put` writes in front of what follows
pub record Serial (A : Type 0) : Type 0 where
  pub put : A → Bytes → Bytes
  pub get : Bytes → Option (A × Bytes)
  pub get-put : (a : A) (rest : Bytes) → get (put a rest) ≡ some (a, rest)

pub decoded : {A : Type 0} → Option (A × Bytes) → Option A
decoded none = none
decoded (some (a, _)) = some a

pub get-one : {A : Type 0} (S : Serial A) (a : A) → decoded (S.get (S.put a [])) ≡ some a
unfolding decoded
get-one S a = rw (S.get-put a [])

module _ {A B : Type 0} where
  both_from : Option (A × Bytes) → (Bytes → Option (B × Bytes)) → Option ((A × B) × Bytes)
  both_from none get = none
  both_from (some (a, rest)) get = elim (get rest) [
    | none ↦ none
    | some (b, rest') ↦ some ((a, b), rest')
  ]

  both_from-put :
      (S : Serial A) (T : Serial B) (a : A) (b : B) (rest : Bytes)
      → both_from (S.get (S.put a (T.put b rest))) T.get ≡ some ((a, b), rest)
  unfolding both_from
  both_from-put S T a b rest = rw (S.get-put a (T.put b rest), both_from, T.get-put b rest)

  pub both : Serial A → Serial B → Serial (A × B)
  unfolding both_from
  both S T = record {
    put = λ p rest. S.put p.0 (T.put p.1 rest);
    get = λ bytes. both_from (S.get bytes) T.get;
    get-put = λ p rest. both_from-put S T p.0 p.1 rest;
  }

  along : (B → A) → Option (B × Bytes) → Option (A × Bytes)
  along g none = none
  along g (some (b, rest)) = some (g b, rest)

  pub via : (f : A → B) (g : B → A) → ((a : A) → g (f a) ≡ a) → Serial B → Serial A
  unfolding along
  via f g back S = record {
    put = λ a rest. S.put (f a) rest;
    get = λ bytes. along g (S.get bytes);
    get-put = λ a rest. rw (S.get-put (f a) rest, back a);
  }

next_number : Bytes → Option (ℕ × Bytes)
next_number [] = none
next_number (n ∷ rest) = some (n, rest)

pub number : Serial ℕ
unfolding next_number
number = record { put = λ n rest. n ∷ rest; get = next_number; get-put = λ n rest. refl }

module _ {A : Type 0} (S : Serial A) where
  put_list : List A → Bytes → Bytes
  put_list [] rest = 0 ∷ rest
  put_list (a ∷ xs) rest = 1 ∷ S.put a (put_list xs rest)

  put_option : Option A → Bytes → Bytes
  put_option none rest = 0 ∷ rest
  put_option (some a) rest = 1 ∷ S.put a rest

  get_option : Bytes → Option (Option A × Bytes)
  unfolding along
  get_option [] = none
  get_option (zero ∷ rest) = some (none, rest)
  get_option (suc _ ∷ rest) = along some (S.get rest)

  get_option-put : (o : Option A) (rest : Bytes) → get_option (put_option o rest) ≡ some (o, rest)
  unfolding get_option put_option along
  get_option-put none rest = refl
  get_option-put (some a) rest = rw (S.get-put a rest)

  pub option : Serial (Option A)
  option = record { put = put_option; get = get_option; get-put = get_option-put }

  -- a list, read with xs much fuel xs it has elements
  cons_from : Option (A × Bytes) → (Bytes → Option (List A × Bytes)) → Option (List A × Bytes)
  cons_from none get = none
  cons_from (some (a, rest)) get = elim (get rest) [
    | none ↦ none
    | some (xs, rest') ↦ some (a ∷ xs, rest')
  ]

  get_many : ℕ → Bytes → Option (List A × Bytes)
  unfolding cons_from
  get_many zero bytes = some ([], bytes)
  get_many (suc n) bytes = cons_from (S.get bytes) (get_many n)

  many_put : List A → Bytes → Bytes
  many_put [] rest = rest
  many_put (a ∷ xs) rest = S.put a (many_put xs rest)

  size : List A → ℕ
  size [] = 0
  size (a ∷ xs) = suc (size xs)

  get_counted : Bytes → Option (List A × Bytes)
  get_counted [] = none
  get_counted (n ∷ bytes) = get_many n bytes

  get_many-put :
      (xs : List A) (rest : Bytes) → get_many (size xs) (many_put xs rest) ≡ some (xs, rest)
  unfolding get_many many_put size cons_from
  get_many-put [] rest = refl
  get_many-put (a ∷ xs) rest = rw (S.get-put a (many_put xs rest), get_many-put xs rest)

  pub many : Serial (List A)
  unfolding get_counted
  many = record {
    put = λ xs rest. size xs ∷ many_put xs rest;
    get = get_counted;
    get-put = get_many-put;
  }

-- the number's proof that it is a character, from the comparisons it stands on
abbrev Lower : Ordering → Ordering → Type 0
Lower Ordering.lt o = IsLt o
Lower Ordering.eq _ = ⊥
Lower Ordering.gt _ = ⊥

abbrev Scalar : Ordering → Ordering → Ordering → Type 0
Scalar Ordering.lt _ _ = Unit
Scalar Ordering.eq o p = Lower o p
Scalar Ordering.gt o p = Lower o p

is_lower? : (o p : Ordering) → Option (Lower o p)
is_lower? Ordering.lt Ordering.lt = some tt
is_lower? Ordering.lt Ordering.eq = none
is_lower? Ordering.lt Ordering.gt = none
is_lower? Ordering.eq _ = none
is_lower? Ordering.gt _ = none

is_scalar? : (o p q : Ordering) → Option (Scalar o p q)
unfolding is_lower?
is_scalar? Ordering.lt p q = some tt
is_scalar? Ordering.eq p q = is_lower? p q
is_scalar? Ordering.gt p q = is_lower? p q

is_lower?-of : (o p : Ordering) (h : Lower o p) → is_lower? o p ≡ some h
unfolding is_lower?
is_lower?-of Ordering.lt Ordering.lt h = refl
is_lower?-of Ordering.lt Ordering.eq h = elim h [ ]
is_lower?-of Ordering.lt Ordering.gt h = elim h [ ]
is_lower?-of Ordering.eq p h = elim h [ ]
is_lower?-of Ordering.gt p h = elim h [ ]

is_scalar?-of : (o p q : Ordering) (h : Scalar o p q) → is_scalar? o p q ≡ some h
unfolding is_scalar?
is_scalar?-of Ordering.lt p q h = refl
is_scalar?-of Ordering.eq p q h = is_lower?-of p q h
is_scalar?-of Ordering.gt p q h = is_lower?-of p q h

char_of : (n : ℕ) → Option (Scalar (compare n 55296) (compare 57343 n) (compare n 1114112)) → Char
char_of n none = char 0 tt
char_of n (some h) = char n h

abbrev code_char : ℕ → Char
code_char n = char_of n (is_scalar? (compare n 55296) (compare 57343 n) (compare n 1114112))

abbrev char_code : Char → ℕ
char_code (char n _) = n

code_char-char_code : (c : Char) → code_char (char_code c) ≡ c
unfolding char_of
code_char-char_code (char n h) =
    rw (is_scalar?-of (compare n 55296) (compare 57343 n) (compare n 1114112) h)

codes : String → List ℕ
codes String.[] = []
codes (String.◌∷◌ c s) = char_code c ∷ codes s

of_codes : List ℕ → String
of_codes [] = ""
of_codes (n ∷ ns) = String.◌∷◌ (code_char n) (of_codes ns)

of_codes-codes : (s : String) → of_codes (codes s) ≡ s
unfolding codes of_codes
of_codes-codes String.[] = refl
of_codes-codes (String.◌∷◌ c s) = rw (code_char-char_code c, of_codes-codes s)

pub string : Serial String
string = via codes of_codes of_codes-codes (many number)

bit : Bool → ℕ
bit true = 1
bit false = 0

of_bit : ℕ → Bool
of_bit zero = false
of_bit (suc _) = true

of_bit-bit : (b : Bool) → of_bit (bit b) ≡ b
unfolding bit of_bit
of_bit-bit true = refl
of_bit-bit false = refl

pub bool : Serial Bool
bool = via bit of_bit of_bit-bit number
