-- ===== src/Users/Accounts.antt =====
-- internal/handlers/auth.go: registration, login and the account of a user.
--
-- The mutex of `Register` only spares work: the database's lock orders registrations.
use Prim.Native.String.{[], ◌∷◌, ◌++◌}
use hate_sentry.Base.{
  ℕ, zero, suc, String, Bool, true, false, not, ◌||◌, ◌==◌, Option, none, some, ltb, len, str_eq,
  if◌then◌else◌,
}
use hate_sentry.Base.Text.{trim_space}
use hate_sentry.Errors.{
  Error, frames, Result, ok, err, fail, raised, internal, unauthorized_error, forbidden_error,
  validation_error, invalid_credentials_error, record_not_found_error, duplicate_record_error,
  plain_error, error_text,
}
use hate_sentry.Exec.{Exec, pure, raise, lift, ◌>>=◌, ◌>>◌}
use hate_sentry.Models.{User, SystemLock}
use hate_sentry.Database.{report, transaction, database_error_of}
use hate_sentry.Moderation.Repository.Loading.{app_error_chain}
use hate_sentry.Users.{
  Claims, Libraries, AuthHandler, RegisterRequest, LoginRequest, UserInfo, LoginResponse, Reply,
}
use hate_sentry.Users.Tokens.{generate_token, refresh_token, hash_password, check_password}

abbrev registration_bootstrap_lock_name : String
registration_bootstrap_lock_name = "auth:registration-bootstrap"

-- `registrationRoleForUserCount`.
unfoldable pub registration_role_for_user_count : ℕ → String
registration_role_for_user_count user_count = if user_count == 0 then "admin" else "user"

-- `validAdminBootstrapToken`; the comparison in constant time is one of equality.
unfoldable pub valid_admin_bootstrap_token : String → String → Bool
valid_admin_bootstrap_token provided_token configured_token =
    if str_eq (trim_space configured_token) ""
    then false
    else str_eq provided_token configured_token

-- The condition of the query, under `=` of the database.
abbrev pub same_name_or_email : (String → String → Bool) → RegisterRequest → User → Bool
same_name_or_email same_text req row =
    same_text row.username req.username || same_text row.email req.email

abbrev refuse_existing : Option User → Result (Unit {0})
refuse_existing none = ok tt
refuse_existing (some user) = fail (duplicate_record_error "Username or email already exists")

abbrev held : Option SystemLock → Result (Unit {0})
held (some lock) = ok tt
held none = err (
    database_error_of (plain_error "record not found")
      "Failed to acquire registration bootstrap lock")

-- `errors.As(err, &appErr)`, and otherwise the error that the handler makes.
abbrev or_app_error : Error → Option Error → Error
or_app_error other none = other
or_app_error other (some e) = e

abbrev hashed : Result String → Result String
hashed (ok hash) = ok hash
hashed (err e) =
    err (or_app_error (raised (internal "Failed to hash password")) (app_error_chain (frames e)))

abbrev registered : Result User → Result User
registered (ok user) = ok user
registered (err e) =
    err (or_app_error (database_error_of e "Failed to create user") (app_error_chain (frames e)))

abbrev pub user_info : User → UserInfo
user_info user = record {
  id = user.id;
  username = user.username;
  email = user.email;
  role = user.role;
}

abbrev pub found_account : Option User → Result User
found_account none = fail (invalid_credentials_error "Invalid email or password")
found_account (some user) = ok user

abbrev pub found_profile : Option User → Result User
found_profile none = fail (record_not_found_error "User not found")
found_profile (some user) = ok user

-- `auth.GetClaims` of the context, as the handlers use it.
abbrev user_claims : Option Claims → Result Claims
user_claims none = fail (unauthorized_error "User not authenticated")
user_claims (some claims) = ok claims

-- `s[n:]`, of a header whose runes are its bytes.
abbrev drop_bytes : ℕ → String → String
drop_bytes zero s = s
drop_bytes (suc n) [] = []
drop_bytes (suc n) (c ∷ s) = drop_bytes n s

module _ {W : Type 0} (libraries : Libraries W) (handler : AuthHandler W) where
  -- `lockRegistrationBootstrap`.
  unfoldable pub lock_registration_bootstrap : Exec W (Unit {0})
  lock_registration_bootstrap = do
    report "Failed to create registration bootstrap lock" (
        handler.db.ensure_lock
          (record { name = registration_bootstrap_lock_name; created_at = 0; updated_at = 0 }))
    found ←
        report "Failed to acquire registration bootstrap lock"
          (handler.db.hold_lock (λ row. str_eq row.name registration_bootstrap_lock_name))
    lift (held found)

  -- `ensureUserDoesNotExist`.
  unfoldable pub ensure_user_does_not_exist : RegisterRequest → Exec W (Unit {0})
  ensure_user_does_not_exist req = do
    found ←
        report "Failed to check existing user"
          (handler.db.users.first (same_name_or_email libraries.same_text req))
    lift (refuse_existing found)

  -- The role of a new user, when there are so many others.
  unfoldable pub role_for : RegisterRequest → ℕ → Result String
  unfolding registration_role_for_user_count valid_admin_bootstrap_token
  role_for req user_count =
      let role = registration_role_for_user_count user_count in
      if not (str_eq role "admin")
      then ok role
      else if valid_admin_bootstrap_token req.admin_bootstrap_token handler.admin_bootstrap_token
      then ok role
      else fail
          (forbidden_error "Valid admin bootstrap token is required to create the initial admin")

  -- `nextRegistrationRole`.
  unfoldable pub next_registration_role : RegisterRequest → Exec W String
  unfolding role_for
  next_registration_role req = do
    user_count ← report "Failed to count existing users" (handler.db.users.count (λ row. true))
    lift (role_for req user_count)

  -- `generateAPIKey`.
  unfoldable pub generate_api_key : Exec W String
  generate_api_key w = let (id, w') = libraries.new_uuid w in (ok ("hs_" ++ id), w')

  unfoldable pub new_user : RegisterRequest → String → String → String → User
  new_user req hashed_password role api_key = record {
    id = 0;
    created_at = 0;
    updated_at = 0;
    username = req.username;
    email = req.email;
    password = hashed_password;
    role = role;
    status = "active";
    api_key = api_key;
  }

  abbrev pub hashing : RegisterRequest → Exec W String
  hashing req w = let (r, w') = hash_password libraries req.password w in (hashed r, w')

  -- The body of the transaction, after its checks.
  unfoldable pub store_user : RegisterRequest → String → Exec W User
  unfolding generate_api_key
  store_user req role = do
    hashed_password ← hashing req
    api_key ← generate_api_key
    report "Failed to create user"
        (handler.db.users.create (new_user req hashed_password role api_key))

  -- The body of the transaction.
  unfoldable pub add_user : RegisterRequest → Exec W User
  add_user req = do
    lock_registration_bootstrap
    ensure_user_does_not_exist req
    role ← next_registration_role req
    store_user req role

  -- `createRegisteredUser`.
  unfoldable pub create_registered_user : RegisterRequest → Exec W User
  create_registered_user req w =
      let (r, w') = transaction handler.db (add_user req) w in (registered r, w')

  unfoldable pub login_response : User → Exec W LoginResponse
  login_response user = do
    token ← generate_token libraries handler.jwt_manager user.id user.username user.role
    pure (record { token = token; user = user_info user })

  -- `Register`, on what `ShouldBindJSON` made of the body.
  unfoldable pub register : Result RegisterRequest → Exec W (Reply LoginResponse)
  register (err e) = raise (raised (validation_error (error_text e)))
  register (ok req) = do
    user ← create_registered_user req
    response ← login_response user
    pure (record { http_status = 201; body = response })

  -- What `Login` asks of the account that it has found.
  unfoldable pub admit : LoginRequest → User → Result User
  unfolding check_password
  admit req user =
      if not (check_password libraries req.password user.password)
      then fail (invalid_credentials_error "Invalid email or password")
      else if not (str_eq user.status "active")
      then fail (forbidden_error "Account is not active")
      else ok user

  -- `Login`.
  unfoldable pub login : Result LoginRequest → Exec W (Reply LoginResponse)
  login (err e) = raise (raised (validation_error (error_text e)))
  login (ok req) = do
    found ←
        report "Failed to find user"
          (handler.db.users.first (λ row. libraries.same_text row.email req.email))
    user ← lift (found_account found)
    admitted ← lift (admit req user)
    response ← login_response admitted
    pure (record { http_status = 200; body = response })

  -- `RefreshToken`, of the `Authorization` header; an error of the manager always is an `AppError`.
  unfoldable pub refresh : String → Exec W (Reply String)
  refresh authorization =
      if str_eq authorization ""
      then raise (raised (unauthorized_error "Authorization header required"))
      else if ltb (len authorization) 7
      then raise (raised (unauthorized_error "Invalid authorization header format"))
      else do
        token ← refresh_token libraries handler.jwt_manager (drop_bytes 7 authorization)
        pure (record { http_status = 200; body = token })

  -- `GetProfile`.
  unfoldable pub get_profile : Option Claims → Exec W (Reply UserInfo)
  get_profile context = do
    claims ← lift (user_claims context)
    found ← report "Failed to find user" (handler.db.users.first (λ row. row.id == claims.user_id))
    user ← lift (found_profile found)
    pure (record { http_status = 200; body = user_info user })

  -- `RegenerateAPIKey`.
  unfoldable pub regenerate_api_key : Option Claims → Exec W (Reply String)
  unfolding generate_api_key
  regenerate_api_key context = do
    claims ← lift (user_claims context)
    new_api_key ← generate_api_key
    affected ← report "Failed to regenerate API key" (
        handler.db.users.updates (λ row. row.id == claims.user_id)
          (λ row. record row { api_key = new_api_key }))
    pure (record { http_status = 200; body = new_api_key })
