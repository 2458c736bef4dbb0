-- ===== src/Users/Reached.antt =====
-- internal/handlers/auth.go: what every run of the handlers keeps of the table of users.
use Prim.Native.String.{◌++◌}
use hate_sentry.Base.{ℕ, ◌==◌, String, ◌≡◌, inl, inr, refl, ◌∙◌, Option, none, some, List, [], ◌∷◌}
use hate_sentry.Errors.{Result, ok, err, Result-cases}
use hate_sentry.Exec.{Preserves, >>=-Preserves, lift-Preserves}
use hate_sentry.Models.{User}
use hate_sentry.Database.{report}
use hate_sentry.Users.{Libraries, AuthHandler, RegisterRequest, LoginRequest, Claims}
use hate_sentry.Users.Tokens.{generate_token}
use hate_sentry.Users.Accounts.{
  register, login, get_profile, regenerate_api_key, generate_api_key, login_response,
  create_registered_user, found_account, found_profile, admit,
}
use hate_sentry.Users.Created.{create_registered_user-ok, create_registered_user-err}
use hate_sentry.Users.Registered.{IsUserTable, IsRegistered}
use hate_sentry.Users.Roles.{
  Step, registering, logging_in, showing, renewing, Reach, start, later, WellFormed, WellFormed-map,
  renewed-SameAccount, differ-fresh,
}

module _ {W : Type 0} (libraries : Libraries W) (handler : AuthHandler W) (rows : W → List User)
    (law : IsUserTable libraries handler.db rows) where
  generate_token-Preserves :
      (id : ℕ) (name role : String)
      → Preserves rows (generate_token libraries handler.jwt_manager id name role)
  unfolding generate_token
  generate_token-Preserves id name role w = law.now_same ((libraries.now w).1) ∙ law.now_same w

  response-Preserves : (user : User) → Preserves rows (login_response libraries handler user)
  unfolding login_response
  response-Preserves user =
      >>=-Preserves rows (generate_token libraries handler.jwt_manager _ _ _) _
        (generate_token-Preserves user.id user.username user.role) (λ token w. refl)

  login-Preserves : (body : Result LoginRequest) → Preserves rows (login libraries handler body)
  unfolding login
  login-Preserves (err e) = λ w. refl
  login-Preserves (ok req) =
      >>=-Preserves rows (report _ (handler.db.users.first _)) _ (law.listed.first_same _) (λ found.
        lift-Preserves rows (found_account found) _ (λ user.
          lift-Preserves rows (admit libraries handler req user) _ (λ admitted.
            >>=-Preserves rows (login_response libraries handler admitted) _
              (response-Preserves admitted) (λ response w. refl))))

  get_profile-Preserves :
      (context : Option Claims) → Preserves rows (get_profile libraries handler context)
  unfolding get_profile
  get_profile-Preserves none = λ w. refl
  get_profile-Preserves (some claims) =
      >>=-Preserves rows (report _ (handler.db.users.first _)) _ (law.listed.first_same _)
        (λ found. lift-Preserves rows (found_profile found) _ (λ user w. refl))

  new_user-WellFormed :
      (req : RegisterRequest) (before : List User) (user : User)
      → IsRegistered libraries handler.admin_bootstrap_token req before user
      → WellFormed handler.admin_bootstrap_token before
      → WellFormed handler.admin_bootstrap_token (user ∷ before)
  new_user-WellFormed req [] user made h = elim made.has_role [
    | inl (_, role, filled, _) ↦ ((role, filled), tt, tt)
    | inr (others, _) ↦ absurd (others refl)
  ]
  new_user-WellFormed req (other ∷ before) user made h =
      let differ =
        differ-fresh libraries.same_text law.same_text_refl req user (other ∷ before)
          made.same_username made.same_email made.fresh in
      elim made.has_role [
        | inl (alone, _, _, _) ↦ let absent : ⊥ = cc in absurd absent
        | inr (_, role) ↦ (role, differ, h)
      ]

  create-WellFormed :
      (req : RegisterRequest) (w : W)
      → WellFormed handler.admin_bootstrap_token (rows w)
      → WellFormed handler.admin_bootstrap_token
          (rows ((create_registered_user libraries handler req w).1))
  create-WellFormed req w h =
      elim (Result-cases ((create_registered_user libraries handler req w).0)) [
        | inr (e, failed) ↦
            rw (create_registered_user-err libraries handler rows law req w failed) h
        | inl (user, done) ↦
            let (made, added) = create_registered_user-ok libraries handler rows law req w done in
            rw added (new_user-WellFormed req (rows w) user made h)
      ]

  register-after :
      (req : RegisterRequest) (w : W)
      → rows ((register libraries handler (ok req) w).1)
        ≡ rows ((create_registered_user libraries handler req w).1)
  unfolding register
  register-after req w = elim (Result-cases ((create_registered_user libraries handler req w).0)) [
    | inr (e, failed) ↦ rw failed refl
    | inl (user, done) ↦
        let w1 = (create_registered_user libraries handler req w).1 in
        rw done (
          >>=-Preserves rows (login_response libraries handler user) _ (response-Preserves user)
            (λ response v. refl) w1)
  ]

  renew-WellFormed :
      (context : Option Claims) (w : W)
      → WellFormed handler.admin_bootstrap_token (rows w)
      → WellFormed handler.admin_bootstrap_token
          (rows ((regenerate_api_key libraries handler context w).1))
  unfolding regenerate_api_key generate_api_key
  renew-WellFormed none w h = h
  renew-WellFormed (some claims) w h =
      let drawn = libraries.new_uuid w in
      let p = λ (row : User). row.id == claims.user_id in
      let f = λ (row : User). record row { api_key = "hs_" ++ drawn.0 } in
      let before : WellFormed handler.admin_bootstrap_token (rows drawn.1) =
        rw (law.uuid_same w) h in
      elim (Result-cases ((handler.db.users.updates p f drawn.1).0)) [
        | inr (e, failed) ↦ rw (failed, law.listed.updates_failed p f drawn.1 e failed) before
        | inl (n, updated) ↦
            let (t, changed) = law.listed.updates_rows p f drawn.1 n updated in
            rw (updated, changed)
              (WellFormed-map _ (renewed-SameAccount claims.user_id ("hs_" ++ drawn.0) t)
                handler.admin_bootstrap_token (rows drawn.1) before)
      ]

  Step-WellFormed :
      {v w : W}
      → Step libraries handler v w
      → WellFormed handler.admin_bootstrap_token (rows v)
      → WellFormed handler.admin_bootstrap_token (rows w)
  unfolding register
  Step-WellFormed {v} (registering (err e)) h = h
  Step-WellFormed {v} (registering (ok req)) h =
      rw (register-after req v) (create-WellFormed req v h)
  Step-WellFormed {v} (logging_in body) h = rw (login-Preserves body v) h
  Step-WellFormed {v} (showing context) h = rw (get_profile-Preserves context v) h
  Step-WellFormed {v} (renewing context) h = renew-WellFormed context v h

  -- Whatever requests reach the handlers after the table of users was empty, and whatever comes of
  -- them: the first user that was registered is an administrator, for whom a token was configured
  -- that is not blank, every later one is not, and no two users share a name or an address. The
  -- table of users is a list that transactions keep or restore.
  pub Reach-WellFormed :
      {w : W} → Reach libraries handler rows w → WellFormed handler.admin_bootstrap_token (rows w)
  Reach-WellFormed (start w empty) = rw empty tt
  Reach-WellFormed (later before step) = Step-WellFormed step (Reach-WellFormed before)
