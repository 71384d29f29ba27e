-- ===== src/Server/Auth/Protected.antt =====
-- internal/server/middleware.go: who gets through to a protected path.
use relayra.Prelude.{
  ℕ, String, ◌≡◌, ◌⊎◌, inl, inr, refl, ap, arith, Bool, true, false, Option, none, some, ◌==ₛ◌,
  if◌then◌else◌,
}
use relayra.Errors.{Error, Result, ok, err}
use relayra.Text.{strip_prefix}
use relayra.Models.{ApiToken}
use relayra.Codec.{Codec, TokenCodec}
use relayra.Redis.{Redis}
use relayra.Redis.Actions.{State, Exec, pure, result_option, ◌>>=◌}
use relayra.Store.Tokens.{hash_api_token, validate_api_token, api_token_count}
use relayra.Server.Auth.{
  Access, admitted, unauthorized, is_exempt, no_tokens, if_valid, check_token, check_header,
  authenticate,
}

module _ ⦃R : Redis⦄ ⦃C : Codec⦄ ⦃T : TokenCodec⦄ where
  open R use {Db}

  -- the header carries a token that is valid in a state
  abbrev pub HasToken : String → ℕ → State Db → Type 0
  HasToken auth_header now s =
      (token : String) × (t : ApiToken) × (strip_prefix "Bearer " auth_header ≡ some token)
      × ((validate_api_token (hash_api_token token) now s).0 ≡ ok t)

  valid-ok :
      (r : Result ApiToken) → if_valid (result_option r) ≡ admitted → (t : ApiToken) × (r ≡ ok t)
  valid-ok (ok t) h = (t, refl)
  valid-ok (err e) h = absurd (cc h)

  check_token-HasToken :
      (o : Option String) (now : ℕ) (s : State Db)
      → (check_token o now s).0 ≡ ok admitted
      → (token : String) × (t : ApiToken) × (o ≡ some token)
        × ((validate_api_token (hash_api_token token) now s).0 ≡ ok t)
  unfolding check_token ◌>>=◌
  check_token-HasToken none now s h = absurd (cc h)
  check_token-HasToken (some token) now s h =
      let (t, valid) = valid-ok (validate_api_token (hash_api_token token) now s).0 (cc h) in
      (token, t, refl, valid)

  refused_or :
      (b : Bool) (error : String) (m : Exec Db Access) (s : State Db)
      → ((if b then pure (unauthorized error) else m) s).0 ≡ ok admitted
      → (m s).0 ≡ ok admitted
  unfolding ◌>>=◌
  refused_or true error m s h = absurd (cc h)
  refused_or false error m s h = h

  admitted_or :
      (b : Bool) (m : Exec Db Access) (s : State Db)
      → ((if b then pure admitted else m) s).0 ≡ ok admitted
      → (b ≡ true) ⊎ ((m s).0 ≡ ok admitted)
  admitted_or true m s h = inl refl
  admitted_or false m s h = inr h

  check_header-HasToken :
      (auth_header : String) (now : ℕ) (s : State Db)
      → (check_header auth_header now s).0 ≡ ok admitted
      → HasToken auth_header now s
  unfolding check_header
  check_header-HasToken auth_header now s h =
      check_token-HasToken (strip_prefix "Bearer " auth_header) now s
        (refused_or (auth_header ==ₛ "") _ _ s h)

  no_tokens-ok :
      (r : Result ℕ) → no_tokens (result_option r) ≡ true → (r ≡ ok 0) ⊎ ((e : Error) × (r ≡ err e))
  no_tokens-ok (ok n) h = inl (let none_set : n ≡ 0 = ground (arith, h) in ap ok none_set)
  no_tokens-ok (err e) h = inr (e, refl)

  -- A request for a path that is not exempt gets through in three cases only: the count of the tokens
  -- is 0; the count fails, which lets it through whatever tokens exist; or its header carries a
  -- token that ValidateAPIToken returns without an error.
  pub authenticate-HasToken :
      (path auth_header : String) (now : ℕ) (s : State Db)
      → is_exempt path ≡ false
      → (authenticate path auth_header now s).0 ≡ ok admitted
      → ((api_token_count s).0 ≡ ok 0)
        ⊎ (((e : Error) × ((api_token_count s).0 ≡ err e))
            ⊎ HasToken auth_header now (api_token_count s).1)
  unfolding authenticate ◌>>=◌
  authenticate-HasToken path auth_header now s protected h =
      elim (admitted_or (is_exempt path) _ s h) [
        | inl exempt ↦ absurd (cc (exempt, protected))
        | inr counted ↦
            elim (admitted_or (no_tokens (result_option (api_token_count s).0)) _
              (api_token_count s).1 counted) [
                | inl none_set ↦ elim (no_tokens-ok (api_token_count s).0 none_set) [
                  | inl zero_there ↦ inl zero_there
                  | inr failed ↦ inr (inl failed)
                ]
                | inr checked ↦
                    inr (inr (check_header-HasToken auth_header now (api_token_count s).1 checked))
              ]
      ]
