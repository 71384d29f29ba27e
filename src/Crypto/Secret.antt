-- ===== src/Crypto/Secret.antt =====
-- internal/crypto/keys.go: the secret that two nodes share, and the key that each derives from it.
-- golang.org/x/crypto/hkdf is a parameter, which is given the secret and the salt.
use Prim.Native.Nat.{Ordering, compare as compare_ℕ}
use Prim.Native.Nat.compare as NatLaws
use Prim.Native.String.compare as TextLaws
use Prim.Native.Char.{code}
use Prim.Native.String.{compare, then as first_of, ◌++◌ as append}
use text.Mathlib.TextEquality.{path_by_compare}
use relayra.Prelude.{
  ℕ, zero, suc, ◌≡◌, refl, sym, String, Bool, true, false, Option, List, if◌then◌else◌,
}
use relayra.Codec.{Codec}
use relayra.Store.Proxies.Hash.{utf8}

unfoldable pub hash_secret : ⦃C : Codec⦄ → String → String
hash_secret ⦃C⦄ secret = C.sha256_hex (utf8 secret)

-- `a > b`, by the bytes of the texts
abbrev pub is_after : String → String → Bool
is_after a b = elim (compare a b) [ Ordering.gt ↦ true | _ ↦ false ]

abbrev pub salt : String → String → String
salt id_1 id_2 = append "relayra-v1|" (append id_1 (append "|" id_2))

unfoldable pub derive_key :
    (String → String → Option (List ℕ)) → String → String → String → Option (List ℕ)
derive_key hkdf shared_secret machine_id_1 machine_id_2 =
    if is_after machine_id_1 machine_id_2
    then hkdf shared_secret (salt machine_id_2 machine_id_1)
    else hkdf shared_secret (salt machine_id_1 machine_id_2)

abbrev opposite : Ordering → Ordering
opposite Ordering.lt = Ordering.gt
opposite Ordering.eq = Ordering.eq
opposite Ordering.gt = Ordering.lt

compare_ℕ-opposite : (m n : ℕ) → compare_ℕ n m ≡ opposite (compare_ℕ m n)
compare_ℕ-opposite zero zero = refl
compare_ℕ-opposite zero (suc n) = rw (NatLaws.zero-suc n, NatLaws.suc-zero n) refl
compare_ℕ-opposite (suc m) zero = rw (NatLaws.zero-suc m, NatLaws.suc-zero m) refl
compare_ℕ-opposite (suc m) (suc n) =
    rw (NatLaws.suc-suc m n, NatLaws.suc-suc n m) (compare_ℕ-opposite m n)

opposite-then : (o p : Ordering) → opposite (first_of o p) ≡ first_of (opposite o) (opposite p)
opposite-then Ordering.lt p = refl
opposite-then Ordering.eq p = refl
opposite-then Ordering.gt p = refl

compare-opposite : (s t : String) → compare t s ≡ opposite (compare s t)
compare-opposite String.[] String.[] = refl
compare-opposite String.[] (String.◌∷◌ d t) = rw (TextLaws.nil-cons d t, TextLaws.cons-nil d t) refl
compare-opposite (String.◌∷◌ c s) String.[] = rw (TextLaws.nil-cons c s, TextLaws.cons-nil c s) refl
compare-opposite (String.◌∷◌ c s) (String.◌∷◌ d t) =
    rw
      (
        TextLaws.cons-cons c d s t,
        TextLaws.cons-cons d c t s,
        compare_ℕ-opposite (code c) (code d),
        compare-opposite s t,
      )
      (sym (opposite-then _ _))

-- The key does not depend on which of the two nodes derives it: the identifiers of the machines may
-- be given in either order.
pub derive_key-swap :
    (hkdf : String → String → Option (List ℕ)) (shared_secret a b : String)
    → derive_key hkdf shared_secret a b ≡ derive_key hkdf shared_secret b a
unfolding derive_key
derive_key-swap hkdf shared_secret a b = by_order (compare a b) refl
  where
    by_order :
        (o : Ordering)
        → compare a b ≡ o
        → derive_key hkdf shared_secret a b ≡ derive_key hkdf shared_secret b a
    by_order Ordering.lt e =
        let behind : is_after b a ≡ true = rw (is_after, compare-opposite a b, e) refl in
        let before : is_after a b ≡ false = rw (is_after, e) refl in rw (before, behind) refl
    by_order Ordering.gt e =
        let before : is_after b a ≡ false = rw (is_after, compare-opposite a b, e) refl in
        let behind : is_after a b ≡ true = rw (is_after, e) refl in rw (before, behind) refl
    by_order Ordering.eq e = cc (path_by_compare a b e)
