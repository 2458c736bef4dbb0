-- ===== src/Users/Roles.antt =====
-- internal/handlers/auth.go: the roles in the table of users, after any run of its handlers.
use hate_sentry.Base.{
  ℕ, ◌==◌, String, Bool, true, false, ◌≡◌, ◌≢◌, inl, inr, refl, sym, ap, ◌∙◌, Option, List, [], ◌∷◌,
  map, All, arith, Bool-cases,
}
use hate_sentry.Base.Text.{trim_space}
use hate_sentry.Errors.{Result}
use hate_sentry.Models.{Time, User}
use hate_sentry.Database.Listed.{change}
use hate_sentry.Users.{Libraries, AuthHandler, RegisterRequest, LoginRequest, Claims}
use hate_sentry.Users.Accounts.{
  register, login, get_profile, regenerate_api_key, same_name_or_email,
}
use hate_sentry.Users.Registered.{stamp_user}

-- One request to a handler, whatever comes of it.
pub data Step {W : Type 0} (libraries : Libraries W) (handler : AuthHandler W) (w : W)
    : W → Type 0 where
  registering :
      (body : Result RegisterRequest)
      → Step libraries handler w ((register libraries handler body w).1)
  logging_in :
      (body : Result LoginRequest) → Step libraries handler w ((login libraries handler body w).1)
  showing :
      (context : Option Claims)
      → Step libraries handler w ((get_profile libraries handler context w).1)
  renewing :
      (context : Option Claims)
      → Step libraries handler w ((regenerate_api_key libraries handler context w).1)

-- A run of the handlers on the worlds of a table that was empty.
pub data Reach {W : Type 0} (libraries : Libraries W) (handler : AuthHandler W)
    (rows : W → List User) : W → Type 0 where
  start : (w : W) → rows w ≡ [] → Reach libraries handler rows w
  later :
      {v w : W}
      → Reach libraries handler rows v
      → Step libraries handler v w
      → Reach libraries handler rows w

-- The first user is the administrator, whom a token was configured for; no other one is.
abbrev pub RoleAmong : String → List User → String → Type 0
RoleAmong token [] role = (role ≡ "admin") × (trim_space token ≢ "")
RoleAmong token (other ∷ before) role = role ≡ "user"

abbrev pub Differs : User → User → Type 0
Differs user other = (other.username ≢ user.username) × (other.email ≢ user.email)

abbrev pub WellFormed : String → List User → Type 0
WellFormed token [] = Unit
WellFormed token (user ∷ before) =
    RoleAmong token before user.role × All (Differs user) before × WellFormed token before

-- What a change of API keys leaves alone.
abbrev pub SameAccount : (User → User) → Type 0
SameAccount f =
    (user : User)
    → ((f user).username ≡ user.username)
      × ((f user).email ≡ user.email)
      × ((f user).role ≡ user.role)

module _ (f : User → User) (same : SameAccount f) where
  differ-map :
      (user : User) (before : List User)
      → All (Differs user) before
      → All (Differs (f user)) (map f before)
  differ-map user [] h = tt
  differ-map user (other ∷ before) ((name, email), rest) =
      let (name1, email1, _) = same user in
      let (name2, email2, _) = same other in
      (
        ((λ p. name (sym name2 ∙ p ∙ name1)), (λ p. email (sym email2 ∙ p ∙ email1))),
        differ-map user before rest,
      )

  RoleAmong-map :
      (token : String) (before : List User) (user : User)
      → RoleAmong token before user.role
      → RoleAmong token (map f before) ((f user).role)
  RoleAmong-map token [] user (role, filled) = ((same user).2 ∙ role, filled)
  RoleAmong-map token (other ∷ before) user role = (same user).2 ∙ role

  pub WellFormed-map :
      (token : String) (users : List User) → WellFormed token users → WellFormed token (map f users)
  WellFormed-map token [] h = tt
  WellFormed-map token (user ∷ before) (role, differ, rest) = (
    RoleAmong-map token before user role,
    differ-map user before differ,
    WellFormed-map token before rest,
  )

pub renewed-SameAccount :
    (id : ℕ) (key : String) (t : Time)
    → SameAccount
        (change (λ row. row.id == id) (λ row. stamp_user t (record row { api_key = key })))
renewed-SameAccount id key t user = elim (Bool-cases (user.id == id)) [
  | inl here ↦ rw here (refl, refl, refl)
  | inr other ↦ rw other (refl, refl, refl)
]

-- Rows that a request fits none of differ from its user.
pub differ-fresh :
    (same_text : String → String → Bool)
    → ((s : String) → same_text s s ≡ true)
    → (req : RegisterRequest) (user : User) (before : List User) → user.username ≡ req.username
    → user.email ≡ req.email
    → All (λ row. same_name_or_email same_text req row ≡ false) before
    → All (Differs user) before
differ-fresh same_text same_refl req user [] name email h = tt
differ-fresh same_text same_refl req user (other ∷ before) name email (fresh, rest) = (
  (
    (λ p.
        let yes = ap (λ s. same_text s req.username) (p ∙ name) ∙ same_refl req.username in
        ground arith),
    (λ p.
        let yes = ap (λ s. same_text s req.email) (p ∙ email) ∙ same_refl req.email in
        ground arith),
  ),
  differ-fresh same_text same_refl req user before name email rest,
)
