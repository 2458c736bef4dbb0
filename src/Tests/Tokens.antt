-- ===== src/Tests/Tokens.antt =====
-- Tokens, under a clock that the world is.
use hate_sentry.Base.{
  ◌&&◌, ◌==◌, ltb, String, Bool, true, false, ◌≡◌, refl, sym, ap, ◌∙◌, inl, inr, Option, none, some,
  Bool-cases, eq_iff, arith, str_eq,
}
use hate_sentry.Base.Decimal.{itoa, emit}
use hate_sentry.Errors.{Result, ok, err, plain_error}
use hate_sentry.Models.{Time}
use hate_sentry.Users.{Claims, ParsedToken, Libraries, JwtManager}
use hate_sentry.Users.Tokens.{
  new_claims, generate_token, validate_token, refresh_token, auth_middleware,
}
use hate_sentry.Users.Access.{IsJwt, auth_middleware-generate_token, refresh_token-generate_token}

abbrev test_claims : Claims
test_claims = record {
  user_id = 1;
  username = "ada";
  role = "admin";
  expires_at = some 7200000000007;
  issued_at = some 7;
  issuer = "hatesentry";
  subject = "1";
}

abbrev test_manager : JwtManager
test_manager = record { secret = "s"; expire_time = 7200000000000; issuer = "hatesentry" }

abbrev is_time : Time → Option Time → Bool
is_time t none = false
is_time t (some s) = s == t

abbrev is_test : Claims → Bool
is_test claims =
    (claims.user_id == 1)
    && str_eq claims.username "ada"
    && str_eq claims.role "admin"
    && is_time 7200000000007 claims.expires_at
    && is_time 7 claims.issued_at
    && str_eq claims.issuer "hatesentry"
    && str_eq claims.subject "1"

abbrev signed_by : Bool → Result String
signed_by true = ok "token"
signed_by false = err (plain_error "not used")

abbrev parsed : Bool → Result String → Result ParsedToken
parsed true (ok secret) = ok (record { claims = some test_claims; valid = true })
parsed true (err e) = err e
parsed false key = err (plain_error "token is expired")

-- The library signs one token.
abbrev token_libraries : Libraries Time
token_libraries = record {
  now = λ w. (w, w);
  numeric_date = λ t. t;
  signed_string = λ claims secret. signed_by (is_test claims);
  parse_with_claims = λ token key w.
      (parsed (ltb w 7200000000007) (key (record { is_hmac = true; alg = "HS256" })), w);
  is_token_expired = λ e. false;
  generate_from_password = λ password w. (err (plain_error "not used"), w);
  compare_hash_and_password = λ hash password. some (plain_error "not used");
  new_uuid = λ w. ("uuid", w);
  same_text = str_eq;
}

is_time-some : (t : Time) (o : Option Time) → is_time t o ≡ true → o ≡ some t
is_time-some t none h = cc
is_time-some t (some s) h = let same : s ≡ t = ground arith in ap some same

is_test-same : (claims : Claims) → is_test claims ≡ true → claims ≡ test_claims
is_test-same claims h =
    let id : claims.user_id ≡ 1 = ground arith in
    let name : claims.username ≡ "ada" = ground (arith, eq_iff claims.username "ada") in
    let role : claims.role ≡ "admin" = ground (arith, eq_iff claims.role "admin") in
    let late : claims.expires_at ≡ some 7200000000007 =
      is_time-some 7200000000007 claims.expires_at (ground arith) in
    let early : claims.issued_at ≡ some 7 = is_time-some 7 claims.issued_at (ground arith) in
    let issuer : claims.issuer ≡ "hatesentry" = ground (arith, eq_iff claims.issuer "hatesentry") in
    let subject : claims.subject ≡ "1" = ground (arith, eq_iff claims.subject "1") in cc

token_law : IsJwt token_libraries
token_law = record {
  parses = λ claims secret token key expiry w made expires early keyed.
      elim (Bool-cases (is_test claims)) [
        | inr other ↦ let refused : err _ ≡ ok token = rw other at made in cc
        | inl same ↦
            let equal = is_test-same claims same in
            let times : some expiry ≡ some 7200000000007 =
              sym expires ∙ ap (λ c. Claims.expires_at c) equal in
            let time : expiry ≡ 7200000000007 = cc in
            let soon : ltb w 7200000000007 ≡ true = ground arith in
            rw (soon, keyed (record { is_hmac = true; alg = "HS256" }) refl, equal) refl
      ];
  numeric_date_le = λ t. omega arith;
}

auth_middleware-generate_token_example :
    (claims : Claims) × ((auth_middleware token_libraries test_manager "Bearer token" 100).0
      ≡ ok claims)
    × (claims.user_id ≡ 1)
    × (claims.username ≡ "ada")
    × (claims.role ≡ "admin")
    × (claims.issuer ≡ "hatesentry")
    × (claims.subject ≡ itoa 1)
    × (claims.expires_at ≡ some 7200000000007)
unfolding generate_token new_claims itoa emit
auth_middleware-generate_token_example =
    auth_middleware-generate_token token_libraries test_manager token_law 1 "ada" "admin" 7 100
      {token = "token"} refl (omega arith)

refresh_token-generate_token_example :
    refresh_token token_libraries test_manager "token" 3600000000007
    ≡ generate_token token_libraries test_manager 1 "ada" "admin" 3600000000007
unfolding generate_token new_claims itoa emit validate_token
refresh_token-generate_token_example =
    refresh_token-generate_token token_libraries test_manager token_law 1 "ada" "admin" 7
      3600000000007 {token = "token"} (omega arith) refl (omega arith) (omega arith)
