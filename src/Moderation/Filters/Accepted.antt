-- ===== src/Moderation/Filters/Accepted.antt =====
-- Bounds of accepted list filters.
use hate_sentry.Base.{
  ℕ, zero, suc, ◌≤◌, ◌<◌, ◌≡◌, ◌⊎◌, inl, inr, refl, String, len, true, str_eq, arith, eq_iff,
  Bool-cases, some, none, Option,
}
use mathlib.Core.Path.{subst}
use hate_sentry.Base.Text.{trim_space}
use hate_sentry.Base.Decimal.{
  parse_int, parse_uint, parse_digits-lt, uint_limit, Integer, nonnegative, negative,
}
use hate_sentry.Errors.{ok, >>=-eq-ok}
use hate_sentry.Moderation.Types.{decision_allow, decision_review, decision_block}
use hate_sentry.Moderation.Validate.{bounded}
use hate_sentry.Moderation.Filters.{
  max_list_limit, default_list_limit, positive_limit, positive_filter, normalize_list_limit,
  normalize_optional_uint_filter, normalize_decision_filter, HistoryFilter,
  normalize_history_filter,
}

positive_limit_bounds :
    (max_limit n : ℕ) (o : Option Integer)
    → positive_limit max_limit o ≡ ok n
    → (1 ≤ n) × (n ≤ max_limit)
positive_limit_bounds m n none h = cc
positive_limit_bounds m n (some (nonnegative zero)) h = cc
positive_limit_bounds m n (some (nonnegative (suc k))) h = ground arith
positive_limit_bounds m n (some (negative k)) h = cc

-- An accepted page limit lies between 1 and the maximum, if the default does.
pub normalize_list_limit_bounds :
    (s : String) (default_limit max_limit n : ℕ)
    → 1 ≤ default_limit
    → default_limit ≤ max_limit
    → normalize_list_limit s default_limit max_limit ≡ ok n
    → (1 ≤ n) × (n ≤ max_limit)
unfolding normalize_list_limit
normalize_list_limit_bounds s d m n lo hi h = elim (Bool-cases (str_eq (trim_space s) "")) [
  | inl blank ↦ ground arith
  | inr given ↦ positive_limit_bounds m n (parse_int (trim_space s)) (ground arith)
]

-- No filter, or a positive number of 64 bits.
abbrev pub IsOptionalId : Option ℕ → Type 0
IsOptionalId none = Unit
IsOptionalId (some n) = (1 ≤ n) × (n < uint_limit)

positive_filter-IsOptionalId :
    (field : String) (p o : Option ℕ)
    → ((n : ℕ) → p ≡ some n → n < uint_limit)
    → positive_filter field p ≡ ok o
    → IsOptionalId o
positive_filter-IsOptionalId field none o b h = cc
positive_filter-IsOptionalId field (some zero) o b h = cc
positive_filter-IsOptionalId field (some (suc n)) o b h =
    let e : some (suc n) ≡ o = ground arith in subst IsOptionalId e (omega arith, b (suc n) refl)

normalize_optional_uint_filter-IsOptionalId :
    (s field : String) (o : Option ℕ)
    → normalize_optional_uint_filter s field ≡ ok o
    → IsOptionalId o
unfolding normalize_optional_uint_filter parse_uint
normalize_optional_uint_filter-IsOptionalId s field o h =
    elim (Bool-cases (str_eq (trim_space s) "")) [
      | inl blank ↦ subst IsOptionalId (nothing blank) tt
      | inr given ↦
          positive_filter-IsOptionalId field (parse_uint (trim_space s)) o
            (λ n e. parse_digits-lt uint_limit (trim_space s) e) (ground arith)
    ]
  where
    nothing : str_eq (trim_space s) "" ≡ true → none ≡ o
    nothing blank = ground arith

-- The actions that a history can be filtered by, and no filter.
abbrev pub IsDecisionFilter : String → Type 0
IsDecisionFilter d =
    (d ≡ "") ⊎ ((d ≡ decision_allow) ⊎ ((d ≡ decision_review) ⊎ (d ≡ decision_block)))

normalize_decision_filter-IsDecisionFilter :
    (s d : String) → normalize_decision_filter s ≡ ok d → IsDecisionFilter d
unfolding normalize_decision_filter
normalize_decision_filter-IsDecisionFilter s d h = ground (
  arith,
  eq_iff (trim_space s) "",
  eq_iff (trim_space s) decision_allow,
  eq_iff (trim_space s) decision_review,
  eq_iff (trim_space s) decision_block,
)

-- An accepted history filter asks for 1 to 100 rows, by an action or none, by a positive client id
-- or none, and by an external id of at most 128 bytes.
pub normalize_history_filter_sound :
    (decision client_id external_id limit : String) (f : HistoryFilter)
    → normalize_history_filter decision client_id external_id limit ≡ ok f
    → ((1 ≤ f.limit) × (f.limit ≤ 100))
      × IsDecisionFilter f.decision
      × IsOptionalId f.client_id
      × (len f.external_id ≤ 128)
unfolding normalize_history_filter
normalize_history_filter_sound decision client_id external_id limit f h =
    let (d, hd, rest) = >>=-eq-ok (normalize_decision_filter decision) _ h in
    let (c, hc, rest') = >>=-eq-ok (normalize_optional_uint_filter client_id "client_id") _ rest in
    let (_, fits, rest'') =
      >>=-eq-ok (bounded "external_id" 128 (trim_space external_id)) _ rest' in
    let (n, hn, last) =
      >>=-eq-ok (normalize_list_limit limit default_list_limit max_list_limit) _ rest'' in
    let d_eq : d ≡ f.decision = ground arith in
    let c_eq : c ≡ f.client_id = ground arith in
    let n_eq : n ≡ f.limit = ground arith in
    let bounds = normalize_list_limit_bounds limit 50 100 n (omega arith) (omega arith) hn in
    (
      (ground (arith, bounds), ground (arith, bounds)),
      subst IsDecisionFilter d_eq (normalize_decision_filter-IsDecisionFilter decision d hd),
      subst IsOptionalId c_eq
          (normalize_optional_uint_filter-IsOptionalId client_id "client_id" c hc),
      ground arith,
    )
