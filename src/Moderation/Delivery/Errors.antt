-- ===== src/Moderation/Delivery/Errors.antt =====
-- internal/moderation/service.go: what is shown and stored of a failed webhook delivery.
use Prim.Native.Char.{Char}
use Prim.Native.String.{◌++◌}
use text.Mathlib.TextLemmas.{cons-append, cons-ne-nil}
use hate_sentry.Base.{
  String, Option, none, some, true, false, Bool-cases, str_eq, str_eq_ne, ◌||◌, ◌==◌, ◌≡◌, refl,
  inl, inr,
}
use hate_sentry.Base.Text.{trim_space, trim_left, trim_right, trim_cons, is_space}
use hate_sentry.Base.Decimal.{itoa}
use hate_sentry.Errors.{Error, ErrorCode, wrap, frames}
use hate_sentry.Errors.Chain.{wrap-IsWrapped}
use hate_sentry.Moderation.Delivery.{
  delivery_status, has_deadline_exceeded, network_timeout, has_dns_error,
  safe_webhook_delivery_error, safe_stored_webhook_delivery_error, delivery_outcome, is_code,
  is_webhook_retry_conflict, is_conflict_error,
}

trim_cons-ne : (c : Char) (s : String) → is_space c ≡ false → str_eq (trim_cons c s) "" ≡ false
unfolding trim_cons
trim_cons-ne c String.[] h = rw h (str_eq_ne _ _ (cons-ne-nil c ""))
trim_cons-ne c (String.◌∷◌ d s) h = str_eq_ne _ _ (cons-ne-nil c _)

status_text-ne :
    (s : String) → str_eq (trim_space ("webhook returned HTTP status " ++ s)) "" ≡ false
unfolding trim_space trim_left trim_right is_space
status_text-ne s =
    rw (cons-append "w" "ebhook returned HTTP status " s)
      (trim_cons-ne "w" (trim_right ("ebhook returned HTTP status " ++ s)) refl)

-- What an operator reads of a delivery is what the attempt recorded: reading the stored error and
-- the stored HTTP status back gives the recorded text, for every error and for none.
pub safe_stored_webhook_delivery_error-delivery_outcome :
    (e : Option Error)
    → safe_stored_webhook_delivery_error
        ((delivery_outcome e).error_message)
        ((delivery_outcome e).http_status)
      ≡ (delivery_outcome e).error_message
unfolding safe_stored_webhook_delivery_error delivery_outcome safe_webhook_delivery_error trim_space
    trim_left trim_right trim_cons is_space
safe_stored_webhook_delivery_error-delivery_outcome none = refl
safe_stored_webhook_delivery_error-delivery_outcome (some e) =
    elim (Bool-cases (delivery_status (frames e) == 0)) [
      | inl zero_status ↦
          rw zero_status
            (elim (Bool-cases (has_deadline_exceeded (frames e) || network_timeout (frames e))) [
              | inl late ↦ rw late refl
              | inr other ↦ rw other (elim (Bool-cases (has_dns_error (frames e))) [
                | inl h ↦ rw h refl
                | inr h ↦ rw h refl
              ])
            ])
      | inr nonzero ↦ rw nonzero (rw (status_text-ne (itoa (delivery_status (frames e)))) refl)
    ]

-- Wrapping an error, with whatever code and message, leaves what is shown of it as a failed
-- delivery, and it is a conflict afterwards exactly if the new code is one: the code underneath no
-- longer counts.
pub safe_webhook_delivery_error-wrap :
    (e : Error) (code : ErrorCode) (message : String)
    → (outer : Error) × (wrap (some e) code message ≡ some outer)
      × (safe_webhook_delivery_error outer ≡ safe_webhook_delivery_error e)
      × (is_webhook_retry_conflict outer ≡ is_code code false)
      × (is_conflict_error outer ≡ is_code code true)
unfolding safe_webhook_delivery_error delivery_status has_deadline_exceeded network_timeout
    has_dns_error is_webhook_retry_conflict is_conflict_error
safe_webhook_delivery_error-wrap e code message =
    let (outer, wrapped, h) = wrap-IsWrapped e code message in
    (
      outer,
      wrapped,
      rw (h.own_eq, h.causes_eq) refl,
      rw (h.own_eq, h.code_eq) refl,
      rw (h.own_eq, h.code_eq) refl,
    )
