-- ===== src/Crypto.antt =====
-- What the program uses of crypto/rand, crypto/sha256, crypto/hmac and their text encodings: an
-- interface, and the shape that `auth.GenerateAPIKey` and `webhooks.GenerateSecret` share.
use Prim.Native.String.{◌++◌}
use hate_sentry.Base.{ℕ, String, List}
use hate_sentry.Errors.{Result, ok, err, internal, raised, with_details, error_text}
use hate_sentry.Exec.{Exec}

pub record Crypto (W : Type 0) : Type 0 where
  -- `rand.Read` of so many bytes.
  pub random : ℕ → Exec W (List ℕ)
  -- `base64.RawURLEncoding.EncodeToString`.
  pub base64_raw_url : List ℕ → String
  -- `hex.EncodeToString(sha256.Sum256(…))`.
  pub sha256_hex : String → String
  -- The same of the HMAC of a body under a secret.
  pub hmac_sha256_hex : String → String → String

module _ {W : Type 0} (crypto : Crypto W) (prefix message : String) where
  unfoldable pub encoded : Result (List ℕ) → Result String
  encoded (ok bytes) = ok (prefix ++ crypto.base64_raw_url bytes)
  encoded (err e) = err (raised (with_details (internal message) (error_text e)))

  -- 32 random bytes behind a prefix.
  unfoldable pub with_random : Exec W String
  unfolding encoded
  with_random w = let (bytes, w') = crypto.random 32 w in (encoded bytes, w')
