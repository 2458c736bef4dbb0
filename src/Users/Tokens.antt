-- ===== src/Users/Tokens.antt =====
-- internal/auth/jwt.go, password.go and middleware.go: tokens, passwords, and the middleware that
-- reads the claims of a request.
use hate_sentry.Base.{
  ℕ, String, Bool, true, false, ◌||◌, ◌+◌, ◌-◌, Option, none, some, List, [], ◌∷◌, ltb, leb, str_eq,
  if◌then◌else◌,
}
use hate_sentry.Base.Decimal.{itoa}
use hate_sentry.Errors.{
  Error, Result, ok, err, fail, raised, internal, with_details, error_text, invalid_token_error,
  expired_token_error, bad_request_error, unauthorized_error, forbidden_error, plain_error,
}
use hate_sentry.Exec.{Exec, raise, lift, run, ◌>>=◌}
use hate_sentry.Models.{Time}
use hate_sentry.Auth.{split_space}
use hate_sentry.Users.{Claims, TokenHeader, ParsedToken, Libraries, JwtManager}

-- The largest `time.Duration`, and one hour.
abbrev pub max_duration : ℕ
max_duration = 9223372036854775807

abbrev pub hour : ℕ
hour = 3600000000000

-- `time.Until(t) > lifetime - time.Hour`, where the clock shows `now`: the difference saturates.
unfoldable pub is_fresh : Time → Time → Time → Bool
is_fresh t now lifetime =
    let left = t - now in
    let gone = now - t in
    if leb now t
    then ltb lifetime ((if leb left max_duration then left else max_duration) + hour)
    else ltb (lifetime + (if leb gone max_duration then gone else max_duration + 1)) hour

-- A nil pointer is read: a panic, which ends the request.
abbrev nil_pointer : Error
nil_pointer = plain_error "runtime error: invalid memory address or nil pointer dereference"

abbrev expiry : Option Time → Result Time
expiry none = err nil_pointer
expiry (some t) = ok t

-- `err == nil`.
abbrev is_nil : Option Error → Bool
is_nil none = true
is_nil (some e) = false

module _ {W : Type 0} (libraries : Libraries W) where
  abbrev signed : Result String → Result String
  signed (ok token) = ok token
  signed (err e) = err (raised (with_details (internal "Failed to generate token") (error_text e)))

  module _ (manager : JwtManager) where
    -- The claims of a new token, of which the clock is read twice.
    unfoldable pub new_claims : ℕ → String → String → Time → Time → Claims
    unfolding itoa
    new_claims user_id username role before after = record {
      user_id = user_id;
      username = username;
      role = role;
      expires_at = some (libraries.numeric_date (before + manager.expire_time));
      issued_at = some (libraries.numeric_date after);
      issuer = manager.issuer;
      subject = itoa user_id;
    }

    -- `GenerateToken`.
    unfoldable pub generate_token : ℕ → String → String → Exec W String
    generate_token user_id username role = do
      before ← run libraries.now
      after ← run libraries.now
      lift (
          signed (
            libraries.signed_string (new_claims user_id username role before after) manager.secret))

    -- The function of the key: only HMAC has the secret.
    unfoldable pub key_of : TokenHeader → Result String
    key_of header =
        if header.is_hmac
        then ok manager.secret
        else fail (with_details (invalid_token_error "Unexpected signing method") header.alg)

    abbrev refused_token : Error → Error
    refused_token e =
        if libraries.is_token_expired e
        then raised (expired_token_error "Token has expired")
        else raised (with_details (invalid_token_error "Invalid token") (error_text e))

    abbrev valid_claims : Bool → Option Claims → Result Claims
    valid_claims true (some claims) = ok claims
    valid_claims _ _ = fail (invalid_token_error "Invalid token claims")

    abbrev claims_of : Result ParsedToken → Result Claims
    claims_of (err e) = err (refused_token e)
    claims_of (ok token) = valid_claims token.valid token.claims

    -- `ValidateToken`.
    unfoldable pub validate_token : String → Exec W Claims
    validate_token token w =
        let (parsed, w') = libraries.parse_with_claims token key_of w in (claims_of parsed, w')

    abbrev refreshed : Claims → Bool → Exec W String
    refreshed claims true =
        raise (raised (bad_request_error "Token is still valid, no need to refresh"))
    refreshed claims false = generate_token claims.user_id claims.username claims.role

    -- `RefreshToken`.
    unfoldable pub refresh_token : String → Exec W String
    refresh_token token = do
      claims ← validate_token token
      expires_at ← lift (expiry claims.expires_at)
      now ← run libraries.now
      refreshed claims (is_fresh expires_at now manager.expire_time)

    abbrev bearer_token : Option (String × String) → Result String
    bearer_token none = fail (unauthorized_error "Invalid authorization header format")
    bearer_token (some (scheme, token)) =
        if str_eq scheme "Bearer"
        then ok token
        else fail (unauthorized_error "Invalid authorization header format")

    -- `AuthMiddleware`: the claims that it sets in the context, with which the request goes on.
    -- An error of `ValidateToken` always is an `AppError`.
    unfoldable pub auth_middleware : String → Exec W Claims
    auth_middleware authorization =
        if str_eq authorization ""
        then raise (raised (unauthorized_error "Authorization header required"))
        else do token ← lift (bearer_token (split_space authorization)); validate_token token

  -- `HashPassword`.
  unfoldable pub hash_password : String → Exec W String
  hash_password password w =
      let (made, w') = libraries.generate_from_password password w in (hashed made, w')
    where
      hashed : Result String → Result String
      hashed (ok hash) = ok hash
      hashed (err e) =
          err (raised (with_details (internal "Failed to hash password") (error_text e)))

  -- `CheckPassword`.
  unfoldable pub check_password : String → String → Bool
  check_password password hash = is_nil (libraries.compare_hash_and_password hash password)

abbrev has_role : String → List String → Bool
has_role role [] = false
has_role role (r ∷ roles) = str_eq role r || has_role role roles

-- `RequireRole`, on the claims that the context holds: those with which the request goes on.
unfoldable pub require_role : List String → Option Claims → Result Claims
require_role roles none = fail (unauthorized_error "User not authenticated")
require_role roles (some claims) =
    if has_role claims.role roles
    then ok claims
    else fail (forbidden_error "Insufficient permissions")
