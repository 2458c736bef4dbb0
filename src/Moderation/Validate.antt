-- ===== src/Moderation/Validate.antt =====
-- internal/moderation/service.go: the limits, the input of a check, and identifiers in requests.
pub mod Checked
use Prim.Native.String.{◌++◌}
use hate_sentry.Base.{
  ℕ, zero, suc, String, len, Bool, not, ◌||◌, ◌&&◌, Option, none, some, str_eq, ltb, ◌==◌,
  if◌then◌else◌,
}
use hate_sentry.Base.Text.{trim_space}
use hate_sentry.Base.Decimal.{itoa, parse_uint, parse_int, Integer, nonnegative, negative}
use hate_sentry.Errors.{
  Result, ok, err, Error, raised, fail, reject_if, validation_error, unauthorized_error, ◌>>◌,
  ◌>>=◌,
}

abbrev pub default_source : String
default_source = "api"

abbrev pub max_content_length : ℕ
max_content_length = 10000

abbrev pub max_request_id_length : ℕ
max_request_id_length = 64

abbrev pub max_source_length : ℕ
max_source_length = 50

abbrev pub max_metadata_length : ℕ
max_metadata_length = 128

abbrev pub max_review_notes_len : ℕ
max_review_notes_len = 2000

unfoldable pub invalid : String → Error
invalid message = raised (validation_error message)

-- `fmt.Sprintf("… must not exceed %d characters", limit)`.
pub too_long : String → ℕ → Error
unfolding itoa
too_long field limit =
    raised (validation_error (field ++ " must not exceed " ++ itoa limit ++ " characters"))

abbrev pub unauthenticated : Error
unauthenticated = raised (unauthorized_error "User not authenticated")

-- A trimmed text of at most `limit` bytes.
unfoldable pub bounded : String → ℕ → String → Result (Unit {0})
bounded field limit s = reject_if (ltb limit (len s)) (too_long field limit)

pub record CheckInput : Type 0 where
  pub user_id : ℕ
  pub client_id : ℕ
  pub content : String
  pub source : String
  pub external_id : String
  pub actor_id : String

-- `validateCheckInput`.
unfoldable pub validate_check_input : CheckInput → Result CheckInput
unfolding bounded
validate_check_input input =
    let content = trim_space input.content in
    let source = trim_space input.source in
    let external_id = trim_space input.external_id in
    let actor_id = trim_space input.actor_id in
    let chosen : String = if str_eq source "" then default_source else source in
    do
      reject_if (input.user_id == 0) unauthenticated
      reject_if (str_eq content "") (invalid "content is required")
      bounded "content" max_content_length content
      bounded "source" max_source_length chosen
      bounded "external_id" max_metadata_length external_id
      bounded "actor_id" max_metadata_length actor_id
      ok (record input {
        content = content;
        source = chosen;
        external_id = external_id;
        actor_id = actor_id;
      })

-- `normalizeResultRequestID`.
unfoldable pub normalize_result_request_id : String → Result String
unfolding bounded
normalize_result_request_id request_id =
    let trimmed = trim_space request_id in
    do
      reject_if (str_eq trimmed "") (invalid "request_id is required")
      bounded "request_id" max_request_id_length trimmed
      ok trimmed

abbrev positive : Option ℕ → Error → Result ℕ
positive none e = err e
positive (some zero) e = err e
positive (some (suc n)) e = ok (suc n)

-- The shape that `parseReviewCaseID` and `parseWebhookDeliveryID` share.
unfoldable pub parse_id : String → String → Result ℕ
parse_id name id =
    let trimmed = trim_space id in
    do
      reject_if (str_eq trimmed "") (invalid (name ++ " id is required"))
      positive (parse_uint trimmed) (invalid (name ++ " id must be a positive integer"))

abbrev pub parse_review_case_id : String → Result ℕ
parse_review_case_id = parse_id "review case"

abbrev pub parse_webhook_delivery_id : String → Result ℕ
parse_webhook_delivery_id = parse_id "webhook delivery"

-- `optionalUint`, `optionalString`.
unfoldable pub optional_uint : ℕ → Option ℕ
optional_uint value = if value == 0 then none else some value

unfoldable pub optional_string : String → Option String
optional_string value = if str_eq value "" then none else some value

-- `clientExternalIDIdempotencyKey`.
unfoldable pub idempotency_key : ℕ → String → String
idempotency_key client_id external_id =
    if client_id == 0 || str_eq external_id "" then "" else itoa client_id ++ (":" ++ external_id)
