-- ===== src/Store/Tokens.antt =====
-- internal/store/api_tokens.go: the tokens of the listener's clients. An identifier is made of
-- hexadecimal digits, so its key is none of those of hashes.
pub mod Revoked
use relayra.Prelude.{
  ℕ, ◌+◌, String, Bool, Option, none, some, List, [], ◌∷◌, ◌++◌, ◌==ₛ◌, if◌then◌else◌, length,
}
use relayra.Errors.{invalid_token, token_not_found, invalid_json}
use relayra.Models.{ApiToken}
use relayra.Codec.{Codec, TokenCodec}
use relayra.Redis.{Redis, pipeline}
use relayra.Redis.Keys
use relayra.Redis.Keys.{Key, key, the}
use relayra.Redis.Objects.{
  Command, Value, text, bytes, Member, named, del, sadd, srem, set_value, set_of, value_of,
}
use relayra.Redis.Actions.{Exec, pure, raise, read, read_or, attempt, ◌>>=◌, ◌>>◌}
use relayra.Store.Proxies.Hash.{utf8}

abbrev pub token_key : String → Key
token_key id = key Keys.api_token id

abbrev pub hash_key : String → Key
hash_key hash = key Keys.api_token_hash hash

unfoldable pub hash_api_token : ⦃C : Codec⦄ → String → String
hash_api_token ⦃C⦄ token = C.sha256_hex (utf8 token)

module _ ⦃R : Redis⦄ ⦃T : TokenCodec⦄ where
  open R use {Db, look}
  open T use {json_api_token, parse_api_token}

  unfoldable pub store_api_token : ApiToken → Exec Db (Unit {0})
  store_api_token t = pipeline (
      set_value (token_key t.id) (bytes (json_api_token t))
      ∷ sadd (the Keys.api_tokens) (named t.id)
      ∷ set_value (hash_key t.token_hash) (text t.id)
      ∷ [])

  abbrev pub id_found : Option Value → Exec Db String
  id_found (some (text id)) = pure id
  id_found _ = raise invalid_token

  abbrev pub parsed : Option ApiToken → Exec Db ApiToken
  parsed none = raise invalid_json
  parsed (some t) = pure t

  abbrev pub token_found : Option Value → Exec Db ApiToken
  token_found (some (bytes json)) = parsed (parse_api_token json)
  token_found _ = raise token_not_found

  -- the reads of `ValidateAPIToken`
  unfoldable pub find_api_token : String → Exec Db (String × ApiToken)
  find_api_token token_hash = do
    v ← read (λ d. value_of (look d (hash_key token_hash)))
    id ← id_found v
    stored ← read (λ d. value_of (look d (token_key id)))
    t ← token_found stored
    pure (id, t)

  abbrev pub used : ApiToken → ℕ → ApiToken
  used t now = record t { last_used = now; usage_count = t.usage_count + 1 }

  -- its write; an error is not looked at
  unfoldable pub mark_used : String → ApiToken → ℕ → Exec Db ApiToken
  mark_used id t now = do
    attempt (pipeline (set_value (token_key id) (bytes (json_api_token (used t now))) ∷ []))
    pure (used t now)

  unfoldable pub validate_api_token : String → ℕ → Exec Db ApiToken
  validate_api_token token_hash now = do (id, t) ← find_api_token token_hash; mark_used id t now

  -- a token that cannot be read or parsed is passed over
  abbrev pub listed : Option ApiToken → List ApiToken → List ApiToken
  listed none rest = rest
  listed (some t) rest = t ∷ rest

  abbrev pub parsed_if_there : Option Value → Option ApiToken
  parsed_if_there (some (bytes json)) = parse_api_token json
  parsed_if_there _ = none

  tokens_from : List Member → Exec Db (List ApiToken)
  tokens_from [] = pure []
  tokens_from (named id ∷ ids) = do
    v ← read_or none (λ d. value_of (look d (token_key id)))
    rest ← tokens_from ids
    pure (listed (parsed_if_there v) rest)
  tokens_from (_ ∷ ids) = tokens_from ids

  unfoldable pub list_api_tokens : Exec Db (List ApiToken)
  unfolding tokens_from
  list_api_tokens = do ids ← read (λ d. set_of (look d (the Keys.api_tokens))); tokens_from ids

  -- the hash is deleted where the token that was read has one
  abbrev pub delete_commands : String → ApiToken → List Command
  delete_commands id t =
      del (token_key id)
      ∷ srem (the Keys.api_tokens) (named id)
      ∷ (if t.token_hash ==ₛ "" then [] else del (hash_key t.token_hash) ∷ [])

  unfoldable pub delete_api_token : String → Exec Db (Unit {0})
  delete_api_token id = do
    stored ← read (λ d. value_of (look d (token_key id)))
    t ← token_found stored
    pipeline (delete_commands id t)

module _ ⦃R : Redis⦄ where
  open R use {Db, look}

  unfoldable pub api_token_count : Exec Db ℕ
  api_token_count = read (λ d. length (set_of (look d (the Keys.api_tokens))))
