-- ===== src/Users/Created.antt =====
-- internal/handlers/auth.go: a registration, from its lock to its commit.
use Prim.Native.String.{◌++◌}
use hate_sentry.Base.{String, false, ◌≡◌, inl, inr, sym, ap, ◌∙◌, List, ◌∷◌, All}
use hate_sentry.Errors.{Error, ok, err, Result-cases}
use hate_sentry.Exec.{Preserves}
use hate_sentry.Models.{User}
use hate_sentry.Database.{transaction}
use hate_sentry.Database.Listed.{transaction-atomic}
use hate_sentry.Database.Transactions.{transaction-ok}
use hate_sentry.Users.Tokens.{hash_password}
use hate_sentry.Users.{Libraries, AuthHandler, RegisterRequest}
use hate_sentry.Users.Accounts.{
  lock_registration_bootstrap, ensure_user_does_not_exist, next_registration_role, store_user,
  add_user, create_registered_user, new_user, hashing, same_name_or_email, generate_api_key,
}
use hate_sentry.Users.Registered.{
  MadeUser, IsUserTable, RoleOf, IsRegistered, lock-Preserves, ensure-ok, ensure-Preserves,
  role-Preserves, role-ok,
}

module _ {W : Type 0} (libraries : Libraries W) (handler : AuthHandler W) (rows : W → List User)
    (law : IsUserTable libraries handler.db rows) where
  hashing-Preserves : (req : RegisterRequest) → Preserves rows (hashing libraries handler req)
  unfolding hash_password
  hashing-Preserves req w = law.hash_same req.password w

  hashing-ok :
      (req : RegisterRequest) (w : W) {hash : String}
      → (hashing libraries handler req w).0 ≡ ok hash
      → (libraries.generate_from_password req.password w).0 ≡ ok hash
  unfolding hash_password
  hashing-ok req w {hash} h =
      elim (Result-cases ((libraries.generate_from_password req.password w).0)) [
        | inr (e, failed) ↦ let refused : err _ ≡ ok hash = rw failed at h in cc
        | inl (made, hashed) ↦ let same : ok made ≡ ok hash = rw hashed at h in hashed ∙ same
      ]

  store-ok :
      (req : RegisterRequest) (role : String) (w : W) {user : User}
      → (store_user libraries handler req role w).0 ≡ ok user
      → (v : W) × (hash key : String) × ((libraries.generate_from_password req.password v).0
          ≡ ok hash)
        × MadeUser (new_user libraries handler req hash role key) user
        × (rows ((store_user libraries handler req role w).1) ≡ user ∷ rows w)
  unfolding store_user generate_api_key
  store-ok req role w {user} h = elim (Result-cases ((hashing libraries handler req w).0)) [
    | inr (e, failed) ↦ let refused : err _ ≡ ok user = rw failed at h in cc
    | inl (hash, made_hash) ↦
        let drawn = libraries.new_uuid ((hashing libraries handler req w).1) in
        let key = "hs_" ++ drawn.0 in
        let row = new_user libraries handler req hash role key in
        elim (Result-cases ((handler.db.users.create row drawn.1).0)) [
          | inr (e, failed) ↦ let refused : err _ ≡ ok user = rw (made_hash, failed) at h in cc
          | inl (made, stored) ↦
              let same : ok made ≡ ok user = rw (made_hash, stored) at h in
              let (is_made, added) = law.listed.create_row row user drawn.1 (stored ∙ same) in
              let kept =
                law.uuid_same ((hashing libraries handler req w).1) ∙ hashing-Preserves req w in
              (
                w,
                hash,
                key,
                hashing-ok req w made_hash,
                is_made,
                rw made_hash (added ∙ ap (λ before. user ∷ before) kept),
              )
        ]
  ]

  made_user_lem :
      (req : RegisterRequest) (role : String) (w : W) (before : List User) {user : User}
      → All (λ row. same_name_or_email libraries.same_text req row ≡ false) before
      → RoleOf handler.admin_bootstrap_token req before role
      → (store_user libraries handler req role w).0 ≡ ok user
      → IsRegistered libraries handler.admin_bootstrap_token req before user
        × (rows ((store_user libraries handler req role w).1) ≡ user ∷ rows w)
  unfolding new_user
  made_user_lem req role w before {user} fresh right_role h =
      let (v, hash, key, hashed, (id, t, made), added) = store-ok req role w h in
      (
        record {
          fresh = fresh;
          same_username = ap (λ u. User.username u) made;
          same_email = ap (λ u. User.email u) made;
          is_active = ap (λ u. User.status u) made;
          has_role = rw (ap (λ u. User.role u) made) right_role;
          has_hash = (v, hashed ∙ ap (λ u. ok (User.password u)) (sym made));
        },
        added,
      )

  add-ok :
      (req : RegisterRequest) (w : W) {user : User}
      → (add_user libraries handler req w).0 ≡ ok user
      → IsRegistered libraries handler.admin_bootstrap_token req (rows w) user
        × (rows ((add_user libraries handler req w).1) ≡ user ∷ rows w)
  unfolding add_user
  add-ok req w {user} h =
      elim (Result-cases ((lock_registration_bootstrap libraries handler w).0)) [
        | inr (e, failed) ↦ let refused : err _ ≡ ok user = rw failed at h in cc
        | inl (tt, locked) ↦
            let w1 = (lock_registration_bootstrap libraries handler w).1 in
            elim (Result-cases ((ensure_user_does_not_exist libraries handler req w1).0)) [
              | inr (e, failed) ↦ let refused : err _ ≡ ok user = rw (locked, failed) at h in cc
              | inl (tt, ensured) ↦
                  let w2 = (ensure_user_does_not_exist libraries handler req w1).1 in
                  elim (Result-cases ((next_registration_role libraries handler req w2).0)) [
                    | inr (e, failed) ↦
                        let refused : err _ ≡ ok user = rw (locked, ensured, failed) at h in cc
                    | inl (role, given) ↦
                        let w3 = (next_registration_role libraries handler req w2).1 in
                        let stored : (store_user libraries handler req role w3).0 ≡ ok user =
                          rw (locked, ensured, given) at h in
                        let kept1 = lock-Preserves libraries handler rows law w in
                        let kept2 = ensure-Preserves libraries handler rows law req w1 ∙ kept1 in
                        let kept3 = role-Preserves libraries handler rows law req w2 ∙ kept2 in
                        let fresh : All
                            (λ row. same_name_or_email libraries.same_text req row ≡ false)
                            (rows w) =
                          rw (sym kept1) (ensure-ok libraries handler rows law req w1 ensured) in
                        let right_role : RoleOf handler.admin_bootstrap_token req (rows w) role =
                          rw (sym kept2) (role-ok libraries handler rows law req w2 given) in
                        let (made, added) =
                          made_user_lem req role w3 (rows w) fresh right_role stored in
                        (
                          made,
                          rw (locked, ensured, given) (added ∙ ap (λ before. user ∷ before) kept3),
                        )
                  ]
            ]
      ]

  -- A registration that succeeds adds one user, whose name and address no user had, with the name,
  -- the address and a hash of the password of the request. The role is that of the administrator
  -- exactly if there was no user, and then the request carries the configured token, which is not
  -- blank; otherwise it is that of a user. The table of users is a list
  -- that transactions keep or restore.
  pub create_registered_user-ok :
      (req : RegisterRequest) (w : W) {user : User}
      → (create_registered_user libraries handler req w).0 ≡ ok user
      → IsRegistered libraries handler.admin_bootstrap_token req (rows w) user
        × (rows ((create_registered_user libraries handler req w).1) ≡ user ∷ rows w)
  unfolding create_registered_user
  create_registered_user-ok req w {user} h =
      elim (Result-cases ((transaction handler.db (add_user libraries handler req) w).0)) [
        | inr (e, failed) ↦ let refused : err _ ≡ ok user = rw failed at h in cc
        | inl (made, done) ↦
            let same : ok made ≡ ok user = rw done at h in
            let (v, added, after, begun, committed) =
              transaction-ok handler.db (add_user libraries handler req) w (done ∙ same) in
            let kept : rows v ≡ rows w = ap rows begun ∙ law.atomic.begun w in
            let (registered, grown) = add-ok req v added in
            let kept_after = law.atomic.committed _ committed in
            (
              rw (sym kept) registered,
              ap rows after ∙ kept_after ∙ grown ∙ ap (λ before. user ∷ before) kept,
            )
      ]

  pub create_registered_user-err :
      (req : RegisterRequest) (w : W) {e : Error}
      → (create_registered_user libraries handler req w).0 ≡ err e
      → rows ((create_registered_user libraries handler req w).1) ≡ rows w
  unfolding create_registered_user
  create_registered_user-err req w {e} h =
      elim (Result-cases ((transaction handler.db (add_user libraries handler req) w).0)) [
        | inl (user, done) ↦ let passed : ok user ≡ err e = rw done at h in cc
        | inr (x, failed) ↦
            transaction-atomic handler.db rows law.atomic (add_user libraries handler req) w failed
      ]
