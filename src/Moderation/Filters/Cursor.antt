-- ===== src/Moderation/Filters/Cursor.antt =====
-- The page cursor of the review history, and the filters that carry it.
use hate_sentry.Base.{
  ◌≡◌, ◌≢◌, inl, inr, ◌∙◌, String, str_eq, arith, if◌then◌else◌, str_eq_refl, str_eq_ne,
}
use hate_sentry.Errors.{ok, err, Result-cases}
use hate_sentry.Moderation.Types.{ReviewStatus}
use hate_sentry.Moderation.Validate.{invalid}
use hate_sentry.Moderation.Filters.{
  ReviewCaseCursor, CursorCodec, encode_review_case_cursor, decode_review_case_cursor,
  checked_cursor,
}

-- What `encoding/json` and `encoding/base64` promise: they read back what they wrote.
pub record ReadsBack (codec : CursorCodec) : Type 0 where
  pub json : (c : ReviewCaseCursor) (s : String) → codec.marshal c ≡ ok s → codec.unmarshal s ≡ ok c
  pub base64 : (s : String) → codec.decode_string (codec.encode_to_string s) ≡ ok s

-- A cursor that may leave the service.
pub record IsCursor (c : ReviewCaseCursor) : Type 0 where
  pub version : c.version ≡ 1
  pub id : c.id ≢ 0
  pub reviewed_at : c.reviewed_at ≢ 0

module _ (codec : CursorCodec) where
  encoded_parts :
      (c : ReviewCaseCursor) (t : String)
      → encode_review_case_cursor codec c ≡ ok t
      → IsCursor c × ((s : String) × (codec.marshal c ≡ ok s) × (t ≡ codec.encode_to_string s))
  unfolding encode_review_case_cursor
  encoded_parts c t h = elim (Result-cases (codec.marshal c)) [
    | inl (s, e) ↦ (
      record { version = ground arith; id = ground arith; reviewed_at = ground arith },
      (s, e, ground arith),
    )
    | inr (e, failed) ↦ absurd (ground arith)
  ]

  checked_same :
      (c : ReviewCaseCursor) (expected : ReviewStatus)
      → IsCursor c
      → checked_cursor expected (ok c)
        ≡ (if str_eq c.status expected then ok c else err (invalid "cursor is invalid"))
  checked_same c expected v = ground arith

  -- When JSON and base64 read back what they wrote, a cursor that the service hands out is read back
  -- unchanged for the same status, and refused as invalid for every other status.
  pub decode-encode_review_case_cursor :
      ReadsBack codec
      → (c : ReviewCaseCursor) (t : String) → encode_review_case_cursor codec c ≡ ok t
      → (decode_review_case_cursor codec t c.status ≡ ok c)
        × ((other : ReviewStatus)
            → c.status ≢ other
            → decode_review_case_cursor codec t other ≡ err (invalid "cursor is invalid"))
  unfolding decode_review_case_cursor
  decode-encode_review_case_cursor back c t h =
      let (v, (s, marshalled, t_eq)) = encoded_parts c t h in
      let read : (e : ReviewStatus)
          → decode_review_case_cursor codec t e
            ≡ (if str_eq c.status e then ok c else err (invalid "cursor is invalid")) =
        λ e.
          rw (t_eq, back.base64 s, decode_review_case_cursor)
            (rw (back.json c s marshalled) (checked_same c e v)) in
      (
        read c.status ∙ rw (str_eq_refl c.status),
        λ other ne. read other ∙ rw (str_eq_ne c.status other ne),
      )
