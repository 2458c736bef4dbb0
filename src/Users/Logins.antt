-- ===== src/Users/Logins.antt =====
-- internal/handlers/auth.go: who may log in, and what is told of a login that fails.
use hate_sentry.Base.{
  String, true, ◌≡◌, ◌≢◌, ◌⊎◌, inl, inr, refl, sym, ap, ◌∙◌, none, some, List, All, All-Occurs,
  Occurs, str_eq, eq_iff, Bool-cases, Option-cases,
}
use hate_sentry.Errors.{Error, ok, err, raised, invalid_credentials_error, Result-cases}
use hate_sentry.Models.{User}
use hate_sentry.Database.{database_error_of}
use hate_sentry.Users.{
  Claims, Libraries, JwtManager, AuthHandler, LoginRequest, UserInfo, LoginResponse, Reply,
}
use hate_sentry.Users.Tokens.{new_claims, generate_token, check_password}
use hate_sentry.Users.Accounts.{admit, login, login_response, user_info}
use hate_sentry.Users.Registered.{IsUserTable}
use hate_sentry.Users.Access.{generate_token-ok}

-- A token that is signed with the secret, for the id, the name and the role of a user.
abbrev pub IsTokenOf : {W : Type 0} → Libraries W → JwtManager → User → String → Type 0
IsTokenOf libraries manager user token =
    (claims : Claims) × (libraries.signed_string claims manager.secret ≡ ok token)
    × (claims.user_id ≡ user.id)
    × (claims.username ≡ user.username)
    × (claims.role ≡ user.role)

-- What is shown of a user.
abbrev pub Shows : User → UserInfo → Type 0
Shows user info =
    (info.id ≡ user.id)
    × (info.username ≡ user.username)
    × (info.email ≡ user.email)
    × (info.role ≡ user.role)

module _ {W : Type 0} (libraries : Libraries W) (handler : AuthHandler W) (rows : W → List User)
    (law : IsUserTable libraries handler.db rows) where
  admit-ok :
      (req : LoginRequest) (user : User) {admitted : User}
      → admit libraries handler req user ≡ ok admitted
      → (admitted ≡ user)
        × (libraries.compare_hash_and_password user.password req.password ≡ none)
        × (user.status ≡ "active")
  unfolding admit check_password
  admit-ok req user {admitted} h =
      elim (Option-cases (libraries.compare_hash_and_password user.password req.password)) [
        | inr (e, wrong) ↦ let refused : err _ ≡ ok admitted = rw wrong at h in cc
        | inl right ↦ elim (Bool-cases (str_eq user.status "active")) [
          | inr other ↦ let refused : err _ ≡ ok admitted = rw (right, other) at h in cc
          | inl active ↦
              let same : ok user ≡ ok admitted = rw (right, active) at h in
              (cc, right, (eq_iff user.status "active").0 active)
        ]
      ]

  response-ok :
      (user : User) (w : W) {response : LoginResponse}
      → (login_response libraries handler user w).0 ≡ ok response
      → Shows user response.user × IsTokenOf libraries handler.jwt_manager user response.token
  unfolding login_response new_claims
  response-ok user w {response} h =
      elim (Result-cases
        ((generate_token libraries handler.jwt_manager user.id user.username user.role w).0)) [
          | inr (e, failed) ↦ let refused : err _ ≡ ok response = rw failed at h in cc
          | inl (token, done) ↦
              let made : ok (record { token = token; user = user_info user }) ≡ ok response =
                rw done at h in
              let same : response ≡ record { token = token; user = user_info user } = cc in
              let (after, signed) =
                generate_token-ok libraries handler.jwt_manager user.id user.username user.role w
                  done in
              (
                rw same (refl, refl, refl, refl),
                (_, signed ∙ ap (λ r. ok (LoginResponse.token r)) (sym same), refl, refl, refl),
              )
        ]

  -- A login that succeeds is one of an active user in the table, whose address is that of the
  -- request under the collation of the database, and whose hash the password fits; the answer shows
  -- this user, and its token is signed for the user's id, name and role. The table of users is a list that transactions keep or restore.
  pub login-ok :
      (req : LoginRequest) (w : W) {reply : Reply LoginResponse}
      → (login libraries handler (ok req) w).0 ≡ ok reply
      → (user : User) × Occurs user (rows w)
        × (libraries.same_text user.email req.email ≡ true)
        × (libraries.compare_hash_and_password user.password req.password ≡ none)
        × (user.status ≡ "active")
        × Shows user reply.body.user
        × IsTokenOf libraries handler.jwt_manager user reply.body.token
  unfolding login
  login-ok req w {reply} h =
      let test = λ (row : User). libraries.same_text row.email req.email in
      elim (Result-cases ((handler.db.users.first test w).0)) [
        | inr (e, failed) ↦ let refused : err _ ≡ ok reply = rw failed at h in cc
        | inl (none, missing) ↦ let refused : err _ ≡ ok reply = rw missing at h in cc
        | inl (some user, found) ↦ elim (Result-cases (admit libraries handler req user)) [
          | inr (e, failed) ↦ let refused : err _ ≡ ok reply = rw (found, failed) at h in cc
          | inl (admitted, passed) ↦
              let w1 = (handler.db.users.first test w).1 in
              elim (Result-cases ((login_response libraries handler admitted w1).0)) [
                | inr (e, failed) ↦
                    let refused : err _ ≡ ok reply = rw (found, passed, failed) at h in cc
                | inl (response, done) ↦
                    let made : ok (record { http_status = 200; body = response }) ≡ ok reply =
                      rw (found, passed, done) at h in
                    let same : response ≡ reply.body = cc in
                    let (here, fits) = law.listed.first_found test w user found in
                    let (equal, right, active) = admit-ok req user passed in
                    let (shown, signed) = response-ok user w1 (rw (sym equal) done) in
                    (user, here, fits, right, active, rw (sym same) shown, rw (sym same) signed)
              ]
        ]
      ]

  -- Where no user whose address is that of the request, under the collation of the database, has a
  -- password that fits, a login fails, with one and the same error whether there is such a user or
  -- not, unless the table cannot be read. The table of users is a list that transactions keep or
  -- restore.
  pub login-refuses :
      (req : LoginRequest) (w : W)
      → All
          (λ (user : User).
            (libraries.same_text user.email req.email ≡ true)
            → (libraries.compare_hash_and_password user.password req.password ≢ none))
          (rows w)
      → ((login libraries handler (ok req) w).0
          ≡ err (raised (invalid_credentials_error "Invalid email or password")))
        ⊎ ((x : Error) × ((login libraries handler (ok req) w).0
              ≡ err (database_error_of x "Failed to find user")))
  unfolding login admit check_password
  login-refuses req w wrong =
      let test = λ (row : User). libraries.same_text row.email req.email in
      elim (Result-cases ((handler.db.users.first test w).0)) [
        | inr (e, failed) ↦ inr (e, rw failed refl)
        | inl (none, missing) ↦ inl (rw missing refl)
        | inl (some user, found) ↦
            let (here, fits) = law.listed.first_found test w user found in
            let bad = All-Occurs _ (rows w) wrong here fits in
            elim (Option-cases (libraries.compare_hash_and_password user.password req.password)) [
              | inl right ↦ absurd (bad right)
              | inr (e, differs) ↦ inl (rw (found, differs) refl)
            ]
      ]
