-- ===== src/Tests/Requests.antt =====
-- Inputs of requests, filters and cursors at concrete values.
use hate_sentry.Base.{◌≡◌, ◌≢◌, ◌↔◌, refl, ◌&&◌, ◌==◌, str_eq, if◌then◌else◌, some, arith, eq_iff}
use text.Mathlib.TextLemmas.{cons-ne-nil}
use hate_sentry.Errors.{ok, err}
use hate_sentry.Moderation.Types.{ReviewStatus}
use hate_sentry.Moderation.Validate.{CheckInput, validate_check_input, invalid}
use hate_sentry.Moderation.Validate.Checked.{
  IsChecked, validate_check_input-fixed_iff, idempotency_key-injective,
}
use hate_sentry.Moderation.Filters.{
  HistoryFilter, ReviewCaseCursor, CursorCodec, encode_review_case_cursor,
  decode_review_case_cursor,
}
use hate_sentry.Moderation.Filters.Cursor.{ReadsBack, decode-encode_review_case_cursor}

abbrev pub checked_input : CheckInput
checked_input = record {
  user_id = 1;
  client_id = 7;
  content = "hello";
  source = "api";
  external_id = "post-1";
  actor_id = "";
}

validate_check_input-fixed_iff_example :
    ((validate_check_input checked_input ≡ ok checked_input) ↔ IsChecked checked_input)
    × ((j : CheckInput) → validate_check_input checked_input ≡ ok j → validate_check_input j ≡ ok j)
validate_check_input-fixed_iff_example = validate_check_input-fixed_iff checked_input

idempotency_key-injective_example :
    (checked_input.client_id ≡ checked_input.client_id)
    × (checked_input.external_id ≡ checked_input.external_id)
idempotency_key-injective_example =
    idempotency_key-injective 7 7 "post-1" "post-1" (λ e. ground (arith, e)) (cons-ne-nil _ _) refl

abbrev history_filter : HistoryFilter
history_filter = record {
  decision = "block";
  client_id = some 7;
  external_id = "post-1";
  limit = 50;
}

-- A codec that knows one cursor.
abbrev cursor : ReviewCaseCursor
cursor = record { version = 1; status = "approved"; reviewed_at = 5; id = 3 }

abbrev codec : CursorCodec
codec = record {
  marshal = λ c.
      if c.version == 1 && str_eq c.status "approved" && c.reviewed_at == 5 && c.id == 3
      then ok "approved 5 3"
      else err (invalid "another cursor");
  unmarshal = λ s. ok cursor;
  encode_to_string = λ s. s;
  decode_string = λ s. ok s;
}

codec-ReadsBack : ReadsBack codec
codec-ReadsBack = record {
  json = λ c s h.
      let version : c.version ≡ 1 = ground arith in
      let status : c.status ≡ "approved" = ground (arith, eq_iff c.status "approved") in
      let at : c.reviewed_at ≡ 5 = ground arith in
      let id : c.id ≡ 3 = ground arith in rw (version, status, at, id) refl;
  base64 = λ s. refl;
}

decode-encode_review_case_cursor_example :
    (decode_review_case_cursor codec "approved 5 3" cursor.status ≡ ok cursor)
    × ((other : ReviewStatus)
        → cursor.status ≢ other
        → decode_review_case_cursor codec "approved 5 3" other ≡ err (invalid "cursor is invalid"))
unfolding encode_review_case_cursor
decode-encode_review_case_cursor_example =
    decode-encode_review_case_cursor codec codec-ReadsBack cursor "approved 5 3" refl
