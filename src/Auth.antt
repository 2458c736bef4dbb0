-- ===== src/Auth.antt =====
-- internal/auth/api_key.go: API keys, and the middleware that reads and checks them.
--
-- A key that the program makes is ASCII, so that its bytes are its runes. A request is its headers;
-- an error that the middleware answers with, before it aborts the request, is the error of the call.
use Prim.Native.Char.{code}
use Prim.Native.String.{[], ◌∷◌}
use hate_sentry.Base.{
  ℕ, zero, suc, String, ◌==◌, leb, len, Option, none, some, str_eq, if◌then◌else◌,
}
use hate_sentry.Base.Text.{trim_space}
use hate_sentry.Errors.{raised, unauthorized_error, configuration_error}
use hate_sentry.Exec.{Exec, pure, raise, require, ◌>>=◌}
use hate_sentry.Crypto.{Crypto, with_random}

pub record ApiKeyPrincipal : Type 0 where
  pub client_id : ℕ
  pub user_id : ℕ
  pub name : String

abbrev pub ApiKeyAuthenticator : Type 0 → Type 0
ApiKeyAuthenticator W = String → Exec W ApiKeyPrincipal

abbrev pub first_runes : ℕ → String → String
first_runes zero s = []
first_runes (suc n) [] = []
first_runes (suc n) (c ∷ s) = c ∷ first_runes n s

-- `APIKeyPrefix`.
unfoldable pub api_key_prefix : String → String
unfolding trim_space
api_key_prefix key =
    let trimmed = trim_space key in if leb (len trimmed) 12 then trimmed else first_runes 12 trimmed

module _ {W : Type 0} (crypto : Crypto W) where
  -- `GenerateAPIKey`.
  unfoldable pub generate_api_key : Exec W String
  unfolding with_random
  generate_api_key = with_random crypto "hs_live_" "failed to generate api key"

  -- `HashAPIKey`.
  unfoldable pub hash_api_key : String → String
  unfolding trim_space
  hash_api_key key = crypto.sha256_hex (trim_space key)

-- `strings.SplitN(s, " ", 2)`, of a text with a space.
unfoldable pub split_space : String → Option (String × String)
split_space [] = none
split_space (c ∷ s) =
    let rest = split_space s in
    if code c == 32
    then some ([], s)
    else elim rest [ none ↦ none | some (before, after) ↦ some (c ∷ before, after) ]

abbrev authorization_key : Option (String × String) → String
authorization_key none = ""
authorization_key (some (scheme, key)) = if str_eq scheme "ApiKey" then trim_space key else ""

-- `extractAPIKey`.
unfoldable pub extract_api_key : (String → String) → String
unfolding trim_space split_space
extract_api_key header =
    let key = trim_space (header "X-API-Key") in
    if str_eq key ""
    then authorization_key (split_space (trim_space (header "Authorization")))
    else key

module _ {W : Type 0} (authenticator : Option (ApiKeyAuthenticator W))
    (header : String → String) where
  -- `APIKeyMiddleware`: the principal that the request goes on with.
  unfoldable pub api_key_middleware : Exec W ApiKeyPrincipal
  unfolding extract_api_key
  api_key_middleware =
      let key = extract_api_key header in
      if str_eq key "" then raise (raised (unauthorized_error "API key required")) else do
        authenticate ←
            require authenticator (configuration_error "api key authentication is not configured")
        authenticate key

  -- `AuthOrAPIKeyMiddleware`: without a key the JWT decides.
  unfoldable pub auth_or_api_key_middleware :
      {User : Type 0} → Exec W User → (ApiKeyPrincipal → User) → Exec W User
  unfolding extract_api_key api_key_middleware
  auth_or_api_key_middleware jwt of_principal =
      if str_eq (extract_api_key header) ""
      then jwt
      else do principal ← api_key_middleware; pure (of_principal principal)
