-- ===== src/Users.antt =====
-- internal/handlers/auth.go, internal/auth/{jwt,password,middleware}.go: users and their tokens.
--
-- What stands here are the records, and the libraries that the code calls: bcrypt, jwt and uuid.
-- A handler takes what gin has bound from the request, and answers with a status and a body; an
-- error that it responds with is the error of the call.
pub mod Tokens
pub mod Accounts
pub mod Registered
pub mod Created
pub mod Roles
pub mod Reached
pub mod Access
pub mod Logins
use hate_sentry.Base.{ℕ, String, Bool, Option}
use hate_sentry.Errors.{Error, Result}
use hate_sentry.Exec.{Exec}
use hate_sentry.Models.{Time}
use hate_sentry.Database.{Database}

-- `Claims`, with those of the registered claims that the program sets or reads.
pub record Claims : Type 0 where
  pub user_id : ℕ
  pub username : String
  pub role : String
  pub expires_at : Option Time
  pub issued_at : Option Time
  pub issuer : String
  pub subject : String

-- `jwt.Token` before its signature is verified: whether its method is a `*jwt.SigningMethodHMAC`,
-- and the text of its header's algorithm.
pub record TokenHeader : Type 0 where
  pub is_hmac : Bool
  pub alg : String

-- `jwt.Token` afterwards, with its claims when they are a `*Claims`.
pub record ParsedToken : Type 0 where
  pub claims : Option Claims
  pub valid : Bool

pub record Libraries (W : Type 0) : Type 0 where
  -- `time.Now`.
  pub now : W → Time × W
  -- `jwt.NewNumericDate(t).Time`.
  pub numeric_date : Time → Time
  -- `jwt.NewWithClaims(jwt.SigningMethodHS256, claims).SignedString(secret)`.
  pub signed_string : Claims → String → Result String
  -- `jwt.ParseWithClaims(token, &Claims{}, keyFunc)`, which reads the clock.
  pub parse_with_claims : String → (TokenHeader → Result String) → Exec W ParsedToken
  -- `errors.Is(err, jwt.ErrTokenExpired)`.
  pub is_token_expired : Error → Bool
  -- `bcrypt.GenerateFromPassword(password, bcrypt.DefaultCost)`, which draws a salt.
  pub generate_from_password : String → Exec W String
  -- `bcrypt.CompareHashAndPassword(hash, password)`.
  pub compare_hash_and_password : String → String → Option Error
  -- `uuid.New().String()`.
  pub new_uuid : W → String × W
  -- `=` of the database on names and addresses, under the collation of their columns, which may
  -- take letters of either case for the same.
  pub same_text : String → String → Bool

-- `JWTManager`. The lifetime is a number of nanoseconds that is not negative.
pub record JwtManager : Type 0 where
  pub secret : String
  pub expire_time : Time
  pub issuer : String

-- `AuthHandler`.
pub record AuthHandler (W : Type 0) : Type 0 where
  pub db : Database W
  pub jwt_manager : JwtManager
  pub admin_bootstrap_token : String

pub record RegisterRequest : Type 0 where
  pub username : String
  pub email : String
  pub password : String
  pub admin_bootstrap_token : String

pub record LoginRequest : Type 0 where
  pub email : String
  pub password : String

pub record UserInfo : Type 0 where
  pub id : ℕ
  pub username : String
  pub email : String
  pub role : String

pub record LoginResponse : Type 0 where
  pub token : String
  pub user : UserInfo

-- `c.JSON(status, body)`.
pub record Reply (Body : Type 0) : Type 0 where
  pub http_status : ℕ
  pub body : Body
