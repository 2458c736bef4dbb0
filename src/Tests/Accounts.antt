-- ===== src/Tests/Accounts.antt =====
-- Users and their tokens, on a table that is a list.
use Prim.Native.String.{◌++◌}
use hate_sentry.Base.{
  suc, Bool, true, false, ◌≡◌, ◌⊎◌, inl, inr, refl, sym, ap, Option, none, some, List, [], ◌∷◌, map,
  length, All, Occurs, Bool-cases, str_eq, str_eq_refl, if◌then◌else◌,
}
use hate_sentry.Base.Text.{trim_space, trim_left, trim_right, is_space}
use hate_sentry.Errors.{Error, ok, err, raised, plain_error, invalid_credentials_error}
use hate_sentry.Models.{User}
use hate_sentry.Database.{Database, Table, database_error_of}
use hate_sentry.Database.Listed.{count_of, change}
use hate_sentry.Moderation.Types.{review_status_approved, decision_allow}
use hate_sentry.Users.{
  Libraries, JwtManager, AuthHandler, RegisterRequest, LoginRequest, LoginResponse, Reply,
}
use hate_sentry.Users.Tokens.{generate_token, hash_password, check_password}
use hate_sentry.Users.Accounts.{
  create_registered_user, add_user, lock_registration_bootstrap, ensure_user_does_not_exist,
  next_registration_role, role_for, registration_role_for_user_count, valid_admin_bootstrap_token,
  store_user, generate_api_key, new_user, register, login, login_response, admit, user_info,
}
use hate_sentry.Users.Registered.{stamp_user, IsUserTable, IsRegistered}
use hate_sentry.Users.Created.{create_registered_user-ok}
use hate_sentry.Users.Roles.{start, later, registering, WellFormed}
use hate_sentry.Users.Reached.{Reach-WellFormed}
use hate_sentry.Users.Logins.{IsTokenOf, Shows, login-ok, login-refuses}
use hate_sentry.Tests.Tables.{fixed_table}
use hate_sentry.Tests.Sample.{stored_request, stored_row, failed_delivery, approved_case}
use hate_sentry.Tests.Clients.{some_client}

-- The first row that fits.
abbrev found : {Row : Type 0} → (Row → Bool) → List Row → Option Row
found p [] = none
found p (row ∷ rows) = let rest = found p rows in if p row then some row else rest

module _ {Row : Type 0} (p : Row → Bool) where
  found-some :
      (rows : List Row) (row : Row) → found p rows ≡ some row → Occurs row rows × (p row ≡ true)
  found-some [] row h = cc
  found-some (first ∷ rows) row h = elim (Bool-cases (p first)) [
    | inl fits ↦
        let made : some first ≡ some row = rw fits at h in
        let same : row ≡ first = cc in (inl same, rw same fits)
    | inr other ↦
        let later : found p rows ≡ some row = rw other at h in
        let (here, fits) = found-some rows row later in (inr here, fits)
  ]

  found-none : (rows : List Row) → found p rows ≡ none → All (λ row. p row ≡ false) rows
  found-none [] h = tt
  found-none (first ∷ rows) h = elim (Bool-cases (p first)) [
    | inl fits ↦ let made : some first ≡ none = rw fits at h in cc
    | inr other ↦ let later : found p rows ≡ none = rw other at h in (other, found-none rows later)
  ]

abbrev Users : Type 0
Users = List User

abbrev user_table : Table Users User
user_table = record {
  create = λ row w.
      let made = record row { id = suc (length w); created_at = 5; updated_at = 5 } in
      (ok made, made ∷ w);
  first = λ p w. (ok (found p w), w);
  first_by = λ q w. (ok (found q.matches w), w);
  find = λ q w. (err (plain_error "not used"), w);
  save = λ row w. (err (plain_error "not used"), w);
  updates = λ p f w. (ok (count_of p w), map (change p (λ row. stamp_user 5 (f row))) w);
  count = λ p w. (ok (count_of p w), w);
}

abbrev user_database : Database Users
user_database = record {
  users = user_table;
  ensure_lock = λ lock w. (ok tt, w);
  hold_lock = λ p w. (
    ok (some (record { name = "auth:registration-bootstrap"; created_at = 0; updated_at = 0 })),
    w,
  );
  requests = fixed_table stored_request;
  results = fixed_table stored_row;
  review_cases = fixed_table (approved_case 3 2 review_status_approved decision_allow "" 5);
  clients = fixed_table some_client;
  deliveries = fixed_table failed_delivery;
  find_results_joined = λ q p w. (ok [], w);
  begin = λ w. (ok tt, w);
  commit = λ w. (ok tt, w);
  rollback = λ w v. w;
}

-- A clock that stands, and one token.
abbrev test_libraries : Libraries Users
test_libraries = record {
  now = λ w. (7, w);
  numeric_date = λ t. t;
  signed_string = λ claims secret. ok "token";
  parse_with_claims = λ token key w. (err (plain_error "not used"), w);
  is_token_expired = λ e. false;
  generate_from_password = λ password w. (ok ("hash:" ++ password), w);
  compare_hash_and_password = λ hash password.
      if str_eq hash ("hash:" ++ password) then none else some (plain_error "mismatch");
  new_uuid = λ w. ("uuid", w);
  same_text = str_eq;
}

abbrev test_manager : JwtManager
test_manager = record { secret = "s"; expire_time = 7200000000000; issuer = "hatesentry" }

abbrev test_handler : AuthHandler Users
test_handler = record {
  db = user_database;
  jwt_manager = test_manager;
  admin_bootstrap_token = "boot";
}

user_law : IsUserTable test_libraries user_database (λ w. w)
user_law = record {
  listed = record {
    create_row = λ row made w h.
        let same : record row { id = suc (length w); created_at = 5; updated_at = 5 } ≡ made = cc in
        ((suc (length w), 5, sym same), ap (λ r. r ∷ w) same);
    first_found = λ p w row h. let here : found p w ≡ some row = cc in found-some p w row here;
    first_missing = λ p w h. let gone : found p w ≡ none = cc in found-none p w gone;
    first_same = λ p w. refl;
    count_rows = λ p w n h. cc;
    count_same = λ p w. refl;
    updates_rows = λ p f w n h. (5, refl);
    updates_failed = λ p f w e h. cc;
  };
  atomic = record { begun = λ w. refl; committed = λ w h. refl; rolled_back = λ w v. refl };
  same_text_refl = str_eq_refl;
  ensure_lock_same = λ lock w. refl;
  hold_lock_same = λ p w. refl;
  hash_same = λ password w. refl;
  now_same = λ w. refl;
  uuid_same = λ w. refl;
}

abbrev ada_request : RegisterRequest
ada_request = record {
  username = "ada";
  email = "ada@example.org";
  password = "secret pass";
  admin_bootstrap_token = "boot";
}

abbrev bob_request : RegisterRequest
bob_request = record {
  username = "bob";
  email = "bob@example.org";
  password = "another pass";
  admin_bootstrap_token = "";
}

abbrev ada : User
ada = record {
  id = 1;
  created_at = 5;
  updated_at = 5;
  username = "ada";
  email = "ada@example.org";
  password = "hash:secret pass";
  role = "admin";
  status = "active";
  api_key = "hs_uuid";
}

abbrev bob : User
bob = record {
  id = 2;
  created_at = 5;
  updated_at = 5;
  username = "bob";
  email = "bob@example.org";
  password = "hash:another pass";
  role = "user";
  status = "active";
  api_key = "hs_uuid";
}

create_registered_user-ok_example :
    IsRegistered test_libraries "boot" bob_request (ada ∷ []) bob
    × ((create_registered_user test_libraries test_handler bob_request (ada ∷ [])).1
        ≡ bob ∷ ada ∷ [])
unfolding create_registered_user add_user lock_registration_bootstrap ensure_user_does_not_exist
    next_registration_role role_for registration_role_for_user_count valid_admin_bootstrap_token
    store_user generate_api_key hash_password new_user
create_registered_user-ok_example =
    create_registered_user-ok test_libraries test_handler (λ w. w) user_law bob_request (ada ∷ [])
      refl

Reach-WellFormed_example : WellFormed "boot" (record bob { api_key = "hs_uuid" } ∷ ada ∷ [])
unfolding register login_response generate_token create_registered_user add_user
    lock_registration_bootstrap ensure_user_does_not_exist next_registration_role role_for
    registration_role_for_user_count valid_admin_bootstrap_token store_user generate_api_key
    hash_password new_user trim_space trim_left trim_right is_space
Reach-WellFormed_example =
    Reach-WellFormed test_libraries test_handler (λ w. w) user_law
      (later (later (start [] refl) (registering (ok ada_request))) (registering (ok bob_request)))

abbrev ada_login : LoginRequest
ada_login = record { email = "ada@example.org"; password = "secret pass" }

abbrev ada_reply : Reply LoginResponse
ada_reply = record { http_status = 200; body = record { token = "token"; user = user_info ada } }

login-ok_example :
    (user : User) × Occurs user (bob ∷ ada ∷ [])
    × (str_eq user.email "ada@example.org" ≡ true)
    × (test_libraries.compare_hash_and_password user.password "secret pass" ≡ none)
    × (user.status ≡ "active")
    × Shows user (user_info ada)
    × IsTokenOf test_libraries test_manager user "token"
unfolding login admit check_password login_response generate_token
login-ok_example =
    login-ok test_libraries test_handler (λ w. w) user_law ada_login (bob ∷ ada ∷ [])
      {reply = ada_reply} refl

abbrev wrong_login : LoginRequest
wrong_login = record ada_login { password = "guess" }

login-refuses_example :
    ((login test_libraries test_handler (ok wrong_login) (bob ∷ ada ∷ [])).0
      ≡ err (raised (invalid_credentials_error "Invalid email or password")))
    ⊎ ((x : Error) × ((login test_libraries test_handler (ok wrong_login) (bob ∷ ada ∷ [])).0
          ≡ err (database_error_of x "Failed to find user")))
login-refuses_example =
    login-refuses test_libraries test_handler (λ w. w) user_law wrong_login (bob ∷ ada ∷ [])
      ((λ p. cc), ((λ p right. cc), tt))
