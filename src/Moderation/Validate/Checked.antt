-- ===== src/Moderation/Validate/Checked.antt =====
-- What validated input satisfies, and that keys of different requests differ.
use Prim.Native.String.{◌++◌ as concat}
use text.Mathlib.TextLemmas.{cons-append, cons-ne-nil, append_cancel_left}
use hate_sentry.Base.{
  ℕ, ◌≤◌, ◌≡◌, ◌≢◌, ◌↔◌, inl, inr, refl, sym, ap, ◌∙◌, String, len, str_eq, ◌==◌, arith, eq_iff,
  Bool-cases, if◌then◌else◌, ◌||◌,
}
use hate_sentry.Base.Text.{trim_space, trim_space_idem, is_space}
use hate_sentry.Base.Decimal.{itoa, split_digits, split-itoa-append}
use hate_sentry.Errors.{ok}
use hate_sentry.Moderation.Validate.{
  CheckInput, validate_check_input, idempotency_key, default_source, max_content_length,
  max_source_length, max_metadata_length,
}

-- A check that may go on: an authenticated user, content, and every text trimmed and within its
-- limit in bytes.
pub record IsChecked (i : CheckInput) : Type 0 where
  pub user : i.user_id ≢ 0
  pub content_given : i.content ≢ ""
  pub content_trimmed : trim_space i.content ≡ i.content
  pub content_fits : len i.content ≤ max_content_length
  pub source_given : i.source ≢ ""
  pub source_trimmed : trim_space i.source ≡ i.source
  pub source_fits : len i.source ≤ max_source_length
  pub external_id_trimmed : trim_space i.external_id ≡ i.external_id
  pub external_id_fits : len i.external_id ≤ max_metadata_length
  pub actor_id_trimmed : trim_space i.actor_id ≡ i.actor_id
  pub actor_id_fits : len i.actor_id ≤ max_metadata_length

-- `validateCheckInput` on an input that is already in order returns it.
IsChecked-fixed : (i : CheckInput) → IsChecked i → validate_check_input i ≡ ok i
unfolding validate_check_input
IsChecked-fixed i c =
    ground (arith, eq_iff (trim_space i.content) "", eq_iff (trim_space i.source) "")

abbrev chosen_source : String → String
chosen_source s = if str_eq (trim_space s) "" then default_source else trim_space s

chosen_source-trim_space : (s : String) → trim_space (chosen_source s) ≡ chosen_source s
chosen_source-trim_space s = elim (Bool-cases (str_eq (trim_space s) "")) [
  | inl blank ↦ rw blank default_trimmed
  | inr given ↦ rw given (trim_space_idem s)
]
  where
    default_trimmed : trim_space default_source ≡ default_source
    default_trimmed = unfold trim_space is_space in refl

chosen_source-ne-nil : (s : String) → chosen_source s ≢ ""
chosen_source-ne-nil s = elim (Bool-cases (str_eq (trim_space s) "")) [
  | inl blank ↦ rw blank (cons-ne-nil _ _)
  | inr given ↦ rw given (λ e. ground (arith, eq_iff (trim_space s) ""))
]

validate_check_input-IsChecked : (i j : CheckInput) → validate_check_input i ≡ ok j → IsChecked j
unfolding validate_check_input
validate_check_input-IsChecked i j h = record {
  user = ground arith;
  content_given = ground (arith, eq_iff (trim_space i.content) "");
  content_trimmed = ground (arith, trim_space_idem i.content);
  content_fits = ground arith;
  source_given =
      let source_eq : j.source ≡ chosen_source i.source = ground arith in
      λ e. chosen_source-ne-nil i.source (sym source_eq ∙ e);
  source_trimmed = ground (arith, chosen_source-trim_space i.source);
  source_fits = ground arith;
  external_id_trimmed = ground (arith, trim_space_idem i.external_id);
  external_id_fits = ground arith;
  actor_id_trimmed = ground (arith, trim_space_idem i.actor_id);
  actor_id_fits = ground arith;
}

-- A check is accepted unchanged exactly if it has a user and content and its texts are trimmed
-- and within their limits; and whatever validation returns, it would accept unchanged.
pub validate_check_input-fixed_iff :
    (i : CheckInput)
    → ((validate_check_input i ≡ ok i) ↔ IsChecked i)
      × ((j : CheckInput) → validate_check_input i ≡ ok j → validate_check_input j ≡ ok j)
validate_check_input-fixed_iff i = (
  (validate_check_input-IsChecked i i, IsChecked-fixed i),
  λ j h. IsChecked-fixed j (validate_check_input-IsChecked i j h),
)

split-colon : (s : String) (n : ℕ) → split_digits (concat ":" s) n ≡ (n, concat ":" s)
unfolding split_digits
split-colon s n =
    ap (λ u. split_digits u n) (cons-append ":" "" s)
    ∙ ap (λ u. (n, u)) (sym (cons-append ":" "" s))

split-key :
    (c : ℕ) (s : String) → split_digits (concat (itoa c) (concat ":" s)) 0 ≡ (c, concat ":" s)
split-key c s = split-itoa-append c (concat ":" s) ∙ split-colon s c

-- The key determines the client and the external id: two requests, the first of which has a client
-- and an external id, share a key only if they share both.
pub idempotency_key-injective :
    (c d : ℕ) (s t : String)
    → c ≢ 0
    → s ≢ ""
    → idempotency_key c s ≡ idempotency_key d t
    → (c ≡ d) × (s ≡ t)
unfolding idempotency_key split_digits
idempotency_key-injective c d s t hc hs e = elim (Bool-cases (d == 0 || str_eq t "")) [
  | inl without ↦
      let empty : concat (itoa c) (concat ":" s) ≡ "" = ground (arith, eq_iff s "") in
      absurd (hc (ap (λ p. p.0) (sym (split-key c s) ∙ ap (λ u. split_digits u 0) empty)))
  | inr with_key ↦
      let keys : concat (itoa c) (concat ":" s) ≡ concat (itoa d) (concat ":" t) =
        ground (arith, eq_iff s "") in
      let pairs : (c, concat ":" s) ≡ (d, concat ":" t) =
        sym (split-key c s) ∙ ap (λ u. split_digits u 0) keys ∙ split-key d t in
      (ap (λ p. p.0) pairs, append_cancel_left ":" s t (ap (λ p. p.1) pairs))
]
