-- ===== src/Users/Access.antt =====
-- internal/handlers/auth.go and internal/auth: who gets a token, and what a token is worth.
use Prim.Native.String.{◌∷◌, ◌++◌}
use hate_sentry.Base.{
  ℕ, ◌+◌, ◌<◌, ◌≤◌, String, true, false, ◌≡◌, inl, inr, refl, sym, ◌∙◌, some, str_eq, eq_iff, arith,
  Bool-cases,
}
use hate_sentry.Base.Decimal.{itoa}
use hate_sentry.Errors.{Result, ok, err, Result-cases}
use hate_sentry.Models.{Time}
use hate_sentry.Auth.{split_space}
use text.Mathlib.TextLemmas.{nil-append, cons-append, cons-ne-nil}
use hate_sentry.Users.{Claims, TokenHeader, Libraries, JwtManager}
use hate_sentry.Users.Tokens.{
  hour, is_fresh, new_claims, generate_token, key_of, validate_token, refresh_token,
  auth_middleware,
}

-- What is documented of the jwt library: a token that `SignedString` made parses, under a function
-- of the key that has the same secret for HMAC, as long as it has not expired; and a numeric date
-- is no later than the time that it is made of.
pub record IsJwt {W : Type 0} (libraries : Libraries W) : Type 0 where
  pub parses :
      (claims : Claims) (secret token : String) (key : TokenHeader → Result String) (expiry : Time)
      (w : W)
      → libraries.signed_string claims secret ≡ ok token
      → claims.expires_at ≡ some expiry
      → (libraries.now w).0 < expiry
      → ((header : TokenHeader) → header.is_hmac ≡ true → key header ≡ ok secret)
      → (libraries.parse_with_claims token key w).0
        ≡ ok (record { claims = some claims; valid = true })
  pub numeric_date_le : (t : Time) → libraries.numeric_date t ≤ t

bearer_runes :
    (token : String) → "Bearer " ++ token ≡ "B" ∷ "e" ∷ "a" ∷ "r" ∷ "e" ∷ "r" ∷ " " ∷ token
bearer_runes token =
    rw
      (
        cons-append "B" "earer " token,
        cons-append "e" "arer " token,
        cons-append "a" "rer " token,
        cons-append "r" "er " token,
        cons-append "e" "r " token,
        cons-append "r" " " token,
        cons-append " " "" token,
        nil-append token,
      )
      refl

split_space-bearer : (token : String) → split_space ("Bearer " ++ token) ≡ some ("Bearer", token)
unfolding split_space
split_space-bearer token = rw (bearer_runes token) refl

not_blank : (token : String) → str_eq ("Bearer " ++ token) "" ≡ false
not_blank token = elim (Bool-cases (str_eq ("Bearer " ++ token) "")) [
  | inr other ↦ other
  | inl same ↦
      absurd (cons-ne-nil _ _ (sym (bearer_runes token) ∙ (eq_iff ("Bearer " ++ token) "").0 same))
]

-- An hour after it was made, a token is no longer fresh.
is_fresh-stale :
    (expiry now lifetime made : Time)
    → hour ≤ lifetime
    → expiry ≤ made + lifetime
    → made + hour ≤ now
    → is_fresh expiry now lifetime ≡ false
unfolding is_fresh
is_fresh-stale expiry now lifetime made long short late = ground arith

module _ {W : Type 0} (libraries : Libraries W) (manager : JwtManager) where
  -- The token that `GenerateToken` returns is signed for these claims.
  pub generate_token-ok :
      (id : ℕ) (name role : String) (w : W) {token : String}
      → (generate_token libraries manager id name role w).0 ≡ ok token
      → (after : Time) × (libraries.signed_string
            (new_claims libraries manager id name role ((libraries.now w).0) after)
            manager.secret
          ≡ ok token)
  unfolding generate_token
  generate_token-ok id name role w {token} h =
      let after = (libraries.now ((libraries.now w).1)).0 in
      elim (Result-cases (
        libraries.signed_string
          (new_claims libraries manager id name role ((libraries.now w).0) after) manager.secret)) [
            | inr (e, failed) ↦ let refused : err _ ≡ ok token = rw failed at h in cc
            | inl (made, done) ↦
                let same : ok made ≡ ok token = rw done at h in (after, done ∙ same)
          ]

  module _ (law : IsJwt libraries) where
    validate_token-signed :
        (id : ℕ) (name role : String) (before after : Time) (v : W) {token : String}
        → libraries.signed_string
            (new_claims libraries manager id name role before after)
            manager.secret
          ≡ ok token
        → (libraries.now v).0 < libraries.numeric_date (before + manager.expire_time)
        → (validate_token libraries manager token v).0
          ≡ ok (new_claims libraries manager id name role before after)
    unfolding validate_token new_claims key_of
    validate_token-signed id name role before after v {token} made early =
        rw
          (law.parses _ manager.secret token (key_of libraries manager) _ v made refl early
            (λ header hmac. rw hmac refl))
          refl

    -- The middleware accepts a token that `GenerateToken` has returned, until it expires, and the
    -- request goes on with the user, name and role that the token was made for, and with its issuer,
    -- subject and expiry. What the jwt library signs it reads
    -- back, as its documentation says.
    pub auth_middleware-generate_token :
        (id : ℕ) (name role : String) (w v : W) {token : String}
        → (generate_token libraries manager id name role w).0 ≡ ok token
        → (libraries.now v).0 < libraries.numeric_date ((libraries.now w).0 + manager.expire_time)
        → (claims : Claims) × ((auth_middleware libraries manager ("Bearer " ++ token) v).0
            ≡ ok claims)
          × (claims.user_id ≡ id)
          × (claims.username ≡ name)
          × (claims.role ≡ role)
          × (claims.issuer ≡ manager.issuer)
          × (claims.subject ≡ itoa id)
          × (claims.expires_at
              ≡ some (libraries.numeric_date ((libraries.now w).0 + manager.expire_time)))
    unfolding auth_middleware split_space new_claims
    auth_middleware-generate_token id name role w v {token} h early =
        let (after, made) = generate_token-ok id name role w h in
        (
          new_claims libraries manager id name role ((libraries.now w).0) after,
          rw (split_space-bearer token)
              (rw (not_blank token) (validate_token-signed id name role _ after v made early)),
          refl,
          refl,
          refl,
          refl,
          refl,
          refl,
        )

    -- With a lifetime of an hour or more, a token can be exchanged for a new one of the same user
    -- from an hour after it was made, until it expires. What the jwt library signs it reads back, and
    -- a numeric date is no later than its time, as its documentation says.
    pub refresh_token-generate_token :
        (id : ℕ) (name role : String) (w v : W) {token : String}
        → hour ≤ manager.expire_time
        → (generate_token libraries manager id name role w).0 ≡ ok token
        → (libraries.now v).0 < libraries.numeric_date ((libraries.now w).0 + manager.expire_time)
        → (libraries.now w).0 + hour
          ≤ (libraries.now ((validate_token libraries manager token v).1)).0
        → refresh_token libraries manager token v
          ≡ generate_token libraries manager id name role
              ((libraries.now ((validate_token libraries manager token v).1)).1)
    unfolding refresh_token new_claims
    refresh_token-generate_token id name role w v {token} long h early late =
        let (after, made) = generate_token-ok id name role w h in
        let now = (libraries.now ((validate_token libraries manager token v).1)).0 in
        let expiry = libraries.numeric_date ((libraries.now w).0 + manager.expire_time) in
        let stale =
          is_fresh-stale expiry now manager.expire_time ((libraries.now w).0) long
            (law.numeric_date_le _) late in
        rw (validate_token-signed id name role _ after v made early) (rw stale refl)
