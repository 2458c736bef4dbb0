-- ===== src/Webhooks.antt =====
-- internal/webhooks/webhooks.go: secrets, signatures, callback addresses and the HTTP dispatcher.
pub mod Address
pub mod Dispatch
pub mod Sent
use Prim.Native.String.{◌++◌}
use hate_sentry.Base.{ℕ, String}
use hate_sentry.Base.Decimal.{itoa}
use hate_sentry.Errors.{Error, Result, ok, err, internal, raised, with_details, error_text}
use hate_sentry.Exec.{Exec}
use hate_sentry.Crypto.{Crypto, with_random}
use hate_sentry.Models.{Time}

module _ {W : Type 0} (crypto : Crypto W) where
  -- `GenerateSecret`.
  unfoldable pub generate_secret : Exec W String
  generate_secret = with_random crypto "whsec_" "failed to generate webhook secret"

  -- `Sign`, of a time in seconds.
  unfoldable pub sign : String → ℕ → String → String
  unfolding itoa
  sign secret timestamp body =
      "sha256=" ++ crypto.hmac_sha256_hex secret (itoa timestamp ++ "." ++ body)
