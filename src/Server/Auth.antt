-- ===== src/Server/Auth.antt =====
-- internal/server/middleware.go: apiTokenAuthMiddleware, which asks for a token.
pub mod Protected
use relayra.Prelude.{
  ℕ, String, Bool, true, false, ◌||◌, Option, none, some, ◌==ₛ◌, ◌==◌, if◌then◌else◌,
}
use relayra.Text.{strip_prefix}
use relayra.Models.{ApiToken}
use relayra.Codec.{Codec, TokenCodec}
use relayra.Redis.{Redis}
use relayra.Redis.Actions.{Exec, pure, try, ◌>>=◌}
use relayra.Store.Tokens.{hash_api_token, validate_api_token, api_token_count}

pub data Access : Type 0 where
  -- the request goes on to its handler
  admitted : Access
  -- status 401, with an error
  unauthorized : String → Access

abbrev pub has_prefix : Option String → Bool
has_prefix none = false
has_prefix (some _) = true

-- the paths that need no token
unfoldable pub is_exempt : String → Bool
is_exempt path =
    path ==ₛ "/health"
    || path ==ₛ "/api/v1/poll"
    || path ==ₛ "/api/v1/pair"
    || path ==ₛ "/api/v1/ws"
    || has_prefix (strip_prefix "/api/v1/speedtest/" path)

-- an error of the count is not looked at, and leaves 0
abbrev pub no_tokens : Option ℕ → Bool
no_tokens none = true
no_tokens (some count) = count == 0

abbrev pub if_valid : Option ApiToken → Access
if_valid none = unauthorized "Invalid API token"
if_valid (some _) = admitted

module _ ⦃R : Redis⦄ ⦃C : Codec⦄ ⦃T : TokenCodec⦄ where
  open R use {Db}

  unfoldable pub check_token : Option String → ℕ → Exec Db Access
  check_token none now = pure (unauthorized "Invalid authorization format. Use: Bearer <token>")
  check_token (some token) now = do
    t ← try (validate_api_token (hash_api_token token) now)
    pure (if_valid t)

  -- a header that is missing is empty
  unfoldable pub check_header : String → ℕ → Exec Db Access
  unfolding check_token
  check_header auth_header now =
      if auth_header ==ₛ ""
      then pure (unauthorized "Authorization header required. Use: Authorization: Bearer <token>")
      else check_token (strip_prefix "Bearer " auth_header) now

  unfoldable pub authenticate : String → String → ℕ → Exec Db Access
  unfolding check_header
  authenticate path auth_header now = if is_exempt path then pure admitted else (do
    count ← try api_token_count
    if no_tokens count then pure admitted else check_header auth_header now)
