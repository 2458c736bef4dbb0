-- ===== src/Users/Registered.antt =====
-- internal/handlers/auth.go: what a registration does to the table of users.
use hate_sentry.Base.{
  ℕ, suc, String, Bool, true, false, ◌==◌, ◌≡◌, ◌≢◌, ◌⊎◌, inl, inr, refl, sym, ap, ◌∙◌, none, some,
  List, [], ◌∷◌, length, All, str_eq, eq_iff, arith, Bool-cases,
}
use hate_sentry.Base.Text.{trim_space}
use hate_sentry.Errors.{ok, err, Result-cases}
use hate_sentry.Exec.{Preserves, >>=-Preserves}
use hate_sentry.Models.{Time, User, SystemLock}
use hate_sentry.Database.{Database, report}
use hate_sentry.Database.Listed.{IsListed, IsAtomic, count_of-all}
use hate_sentry.Users.{Libraries, AuthHandler, RegisterRequest}
use hate_sentry.Users.Accounts.{
  lock_registration_bootstrap, ensure_user_does_not_exist, next_registration_role, role_for,
  same_name_or_email, registration_role_for_user_count, valid_admin_bootstrap_token,
}

-- `Create` gives a user an id and times.
abbrev pub MadeUser : User → User → Type 0
MadeUser row made =
    (id : ℕ) × (t : Time) × (made ≡ record row { id = id; created_at = t; updated_at = t })

abbrev pub stamp_user : Time → User → User
stamp_user t row = record row { updated_at = t }

-- The table of users is a list that transactions keep or restore; locks, bcrypt, the clock and
-- uuid do not touch it. Equal texts are the same under every collation.
pub record IsUserTable {W : Type 0} (libraries : Libraries W) (db : Database W)
    (rows : W → List User) : Type 0 where
  pub listed : IsListed db.users MadeUser stamp_user rows
  pub atomic : IsAtomic db rows
  pub same_text_refl : (s : String) → libraries.same_text s s ≡ true
  pub ensure_lock_same : (lock : SystemLock) (w : W) → rows ((db.ensure_lock lock w).1) ≡ rows w
  pub hold_lock_same : (p : SystemLock → Bool) (w : W) → rows ((db.hold_lock p w).1) ≡ rows w
  pub hash_same :
      (password : String) (w : W) → rows ((libraries.generate_from_password password w).1) ≡ rows w
  pub now_same : (w : W) → rows ((libraries.now w).1) ≡ rows w
  pub uuid_same : (w : W) → rows ((libraries.new_uuid w).1) ≡ rows w

-- The role of a registration that follows so many others.
abbrev pub RoleOf : String → RegisterRequest → List User → String → Type 0
RoleOf configured_token req before role =
    ((before ≡ [])
      × (role ≡ "admin")
      × (trim_space configured_token ≢ "")
      × (req.admin_bootstrap_token ≡ configured_token))
    ⊎ (((before ≡ []) → ⊥) × (role ≡ "user"))

-- A user that a registration adds to those before.
pub record IsRegistered {W : Type 0} (libraries : Libraries W) (configured_token : String)
    (req : RegisterRequest) (before : List User) (user : User) : Type 0 where
  pub fresh : All (λ row. same_name_or_email libraries.same_text req row ≡ false) before
  pub same_username : user.username ≡ req.username
  pub same_email : user.email ≡ req.email
  pub is_active : user.status ≡ "active"
  pub has_role : RoleOf configured_token req before user.role
  pub has_hash : (v : W) × ((libraries.generate_from_password req.password v).0 ≡ ok user.password)

module _ {W : Type 0} (libraries : Libraries W) (handler : AuthHandler W) (rows : W → List User)
    (law : IsUserTable libraries handler.db rows) where
  pub lock-Preserves : Preserves rows (lock_registration_bootstrap libraries handler)
  unfolding lock_registration_bootstrap
  lock-Preserves =
      >>=-Preserves rows (report _ (handler.db.ensure_lock _)) _ (law.ensure_lock_same _) (λ a.
        >>=-Preserves rows (report _ (handler.db.hold_lock _)) _ (law.hold_lock_same _)
          (λ b w. refl))

  pub ensure-ok :
      (req : RegisterRequest) (w : W)
      → (ensure_user_does_not_exist libraries handler req w).0 ≡ ok tt
      → All (λ row. same_name_or_email libraries.same_text req row ≡ false) (rows w)
  unfolding ensure_user_does_not_exist
  ensure-ok req w h =
      elim (Result-cases
        ((handler.db.users.first (same_name_or_email libraries.same_text req) w).0)) [
          | inr (e, failed) ↦ let refused : err _ ≡ ok tt = rw failed at h in cc
          | inl (some row, found) ↦ let refused : err _ ≡ ok tt = rw found at h in cc
          | inl (none, missing) ↦
              law.listed.first_missing (same_name_or_email libraries.same_text req) w missing
        ]

  pub ensure-Preserves :
      (req : RegisterRequest) → Preserves rows (ensure_user_does_not_exist libraries handler req)
  unfolding ensure_user_does_not_exist
  ensure-Preserves req =
      >>=-Preserves rows (report _ (handler.db.users.first _)) _ (law.listed.first_same _)
        (λ a w. refl)

  pub role-Preserves :
      (req : RegisterRequest) → Preserves rows (next_registration_role libraries handler req)
  unfolding next_registration_role
  role-Preserves req =
      >>=-Preserves rows (report _ (handler.db.users.count _)) _ (law.listed.count_same _)
        (λ a w. refl)

  role_for-ok :
      (req : RegisterRequest) (before : List User) {role : String}
      → role_for libraries handler req (length before) ≡ ok role
      → RoleOf handler.admin_bootstrap_token req before role
  unfolding role_for registration_role_for_user_count valid_admin_bootstrap_token
  role_for-ok req [] {role} h =
      elim (Bool-cases (str_eq (trim_space handler.admin_bootstrap_token) "")) [
        | inl blank ↦ let refused : err _ ≡ ok role = rw blank at h in cc
        | inr filled ↦
            elim (Bool-cases (str_eq req.admin_bootstrap_token handler.admin_bootstrap_token)) [
              | inr other ↦ let refused : err _ ≡ ok role = rw (filled, other) at h in cc
              | inl same ↦
                  let made : ok "admin" ≡ ok role = rw (filled, same) at h in
                  let is_admin : role ≡ "admin" = cc in
                  inl (
                    refl,
                    is_admin,
                    (λ p.
                        let yes = (eq_iff (trim_space handler.admin_bootstrap_token) "").1 p in cc),
                    (eq_iff req.admin_bootstrap_token handler.admin_bootstrap_token).0 same,
                  )
            ]
      ]
  role_for-ok req (user ∷ before) {role} h =
      let others : (suc (length before) == 0) ≡ false = ground arith in
      let made : ok "user" ≡ ok role = rw others at h in
      let is_user : role ≡ "user" = cc in inr ((λ p. cc), is_user)

  pub role-ok :
      (req : RegisterRequest) (w : W) {role : String}
      → (next_registration_role libraries handler req w).0 ≡ ok role
      → RoleOf handler.admin_bootstrap_token req (rows w) role
  unfolding next_registration_role
  role-ok req w {role} h = elim (Result-cases ((handler.db.users.count (λ row. true) w).0)) [
    | inr (e, failed) ↦ let refused : err _ ≡ ok role = rw failed at h in cc
    | inl (n, counted) ↦
        let number = law.listed.count_rows (λ row. true) w n counted ∙ count_of-all (rows w) in
        let decided : role_for libraries handler req n ≡ ok role = rw counted at h in
        role_for-ok req (rows w) (ap (role_for libraries handler req) (sym number) ∙ decided)
  ]
