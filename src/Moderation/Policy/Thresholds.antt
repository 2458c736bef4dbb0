-- ===== src/Moderation/Policy/Thresholds.antt =====
-- What `Validate` and `Decide` of internal/moderation/policy.go promise about the two thresholds.
use hate_sentry.Base.{
  ℕ, ◌≤◌, ◌<◌, ◌≡◌, ◌≢◌, ◌↔◌, inl, inr, refl, String, true, false, str_eq, arith, eq_iff,
  Bool-cases, if◌then◌else◌, str_eq_ne, leb,
}
use hate_sentry.Base.Decimal.{nonnegative, negative}
use hate_sentry.Base.Text.{trim_space}
use hate_sentry.Float64.{Float64, nan, infinite, finite, units, float_le}
use hate_sentry.Errors.{ok}
use hate_sentry.Moderation.Types.{
  Decision, decision_allow, decision_review, decision_block, ProviderSuggestion, DecisionResult,
}
use hate_sentry.Moderation.Policy.{Policy, valid_score, validate, decision_of, decide}

abbrev pub score_of : ℕ → Float64
score_of n = finite (nonnegative n)

-- A valid score is a finite number between 0 and 1.
pub valid_score_iff :
    (s : Float64) → (valid_score s ≡ true) ↔ ((n : ℕ) × (s ≡ score_of n) × (n ≤ units))
unfolding valid_score
valid_score_iff s = (only s, λ (n, e, h). rw e (ground arith))
  where
    only : (s : Float64) → valid_score s ≡ true → (n : ℕ) × (s ≡ score_of n) × (n ≤ units)
    only nan h = cc
    only (infinite true) h = cc
    only (infinite false) h = cc
    only (finite (nonnegative n)) h = (n, refl, ground arith)
    only (finite (negative n)) h = cc

pub validate-version : (p : Policy) → validate p ≡ ok tt → trim_space p.version ≢ ""
unfolding validate
validate-version p h e = ground (arith, eq_iff (trim_space p.version) "")

pub validate-review : (p : Policy) → validate p ≡ ok tt → valid_score p.review_threshold ≡ true
unfolding validate
validate-review p h = ground arith

pub validate-block : (p : Policy) → validate p ≡ ok tt → valid_score p.block_threshold ≡ true
unfolding validate
validate-block p h = ground arith

pub validate-order :
    (p : Policy) → validate p ≡ ok tt → float_le p.block_threshold p.review_threshold ≡ false
unfolding validate
validate-order p h = ground arith

-- A policy with a name and two thresholds in order, in multiples of 2^-1074.
pub record IsValidPolicy (p : Policy) : Type 0 where
  pub review : ℕ
  pub block : ℕ
  pub named : trim_space p.version ≢ ""
  pub review_eq : p.review_threshold ≡ score_of review
  pub block_eq : p.block_threshold ≡ score_of block
  pub ordered : review < block
  pub bounded : block ≤ units

validate-IsValidPolicy : (p : Policy) → validate p ≡ ok tt → IsValidPolicy p
validate-IsValidPolicy p h =
    let (r, er, hr) = (valid_score_iff p.review_threshold).0 (validate-review p h) in
    let (b, eb, hb) = (valid_score_iff p.block_threshold).0 (validate-block p h) in
    record {
      review = r;
      block = b;
      named = validate-version p h;
      review_eq = er;
      block_eq = eb;
      ordered = ground (arith, validate-order p h);
      bounded = hb;
    }

IsValidPolicy-validate : (p : Policy) → IsValidPolicy p → validate p ≡ ok tt
unfolding validate
IsValidPolicy-validate p v =
    rw
      (
        str_eq_ne _ _ v.named,
        (valid_score_iff p.review_threshold).1
            (v.review, v.review_eq, omega (arith, v.ordered, v.bounded)),
        (valid_score_iff p.block_threshold).1 (v.block, v.block_eq, v.bounded),
        v.review_eq,
        v.block_eq,
      )
      (ground (arith, v.ordered))

-- `Validate` accepts a policy exactly if its version is not blank and its thresholds are finite,
-- in order, from 0 to 1, and different.
pub validate_iff : (p : Policy) → (validate p ≡ ok tt) ↔ IsValidPolicy p
validate_iff p = (validate-IsValidPolicy p, IsValidPolicy-validate p)

review_ne_block : ◌≢◌ {A = String} "review" "block"
review_ne_block = ground (arith, eq_iff "review" "block")

allow_ne_block : ◌≢◌ {A = String} "allow" "block"
allow_ne_block = ground (arith, eq_iff "allow" "block")

allow_ne_review : ◌≢◌ {A = String} "allow" "review"
allow_ne_review = ground (arith, eq_iff "allow" "review")

-- The three actions are different texts.
ruleset decision_facts = (arith, review_ne_block, allow_ne_block, allow_ne_review)

-- The action at a score, by the thresholds as numbers.
abbrev pub action : ℕ → ℕ → ℕ → Decision
action r b n =
    if leb b n then decision_block else if leb r n then decision_review else decision_allow

decision_of-action :
    (p : Policy) (v : IsValidPolicy p) (score : Float64) (n : ℕ)
    → score ≡ score_of n
    → decision_of p score ≡ action v.review v.block n
decision_of-action p v score n e = rw (e, v.review_eq, v.block_eq)

module _ (r b n : ℕ) where
  action-block : (action r b n ≡ decision_block) ↔ (b ≤ n)
  action-block = grind decision_facts

  action-review : (action r b n ≡ decision_review) ↔ ((r ≤ n) × (n < b))
  action-review = grind decision_facts

  action-allow : r < b → (action r b n ≡ decision_allow) ↔ (n < r)
  action-allow h = grind decision_facts

-- What `Decide` returns when it succeeds.
abbrev pub decided : Policy → ProviderSuggestion → DecisionResult
decided p s = record {
  decision = decision_of p s.risk_score;
  risk_score = s.risk_score;
  labels = s.labels;
  reason = s.reason;
  policy_version = p.version;
}

pub decide-decided :
    (p : Policy) (s : ProviderSuggestion)
    → validate p ≡ ok tt
    → valid_score s.risk_score ≡ true
    → decide p s ≡ ok (decided p s)
unfolding decide
decide-decided p s h k = rw (h, k)

decide-ok :
    (p : Policy) (s : ProviderSuggestion) (d : DecisionResult)
    → decide p s ≡ ok d
    → (validate p ≡ ok tt) × (valid_score s.risk_score ≡ true) × (d ≡ decided p s)
unfolding decide
decide-ok p s d h = ground arith

-- With a valid policy and a score n from 0 to 1, `Decide` succeeds: it blocks exactly from the
-- block threshold on, sends to review exactly from the review threshold up to there, allows
-- exactly below, and copies score, labels, reason and policy version.
pub decide_exact :
    (p : Policy) (s : ProviderSuggestion) (n : ℕ) (v : IsValidPolicy p)
    → s.risk_score ≡ score_of n
    → n ≤ units
    → (d : DecisionResult) × (decide p s ≡ ok d)
      × ((d.decision ≡ decision_block) ↔ (v.block ≤ n))
      × ((d.decision ≡ decision_review) ↔ ((v.review ≤ n) × (n < v.block)))
      × ((d.decision ≡ decision_allow) ↔ (n < v.review))
      × (d.risk_score ≡ s.risk_score)
      × (d.labels ≡ s.labels)
      × (d.reason ≡ s.reason)
      × (d.policy_version ≡ p.version)
decide_exact p s n v e h =
    let acts : decision_of p s.risk_score ≡ action v.review v.block n =
      decision_of-action p v s.risk_score n e in
    (
      decided p s,
      decide-decided p s ((validate_iff p).1 v) ((valid_score_iff s.risk_score).1 (n, e, h)),
      rw acts (action-block v.review v.block n),
      rw acts (action-review v.review v.block n),
      rw acts (action-allow v.review v.block n v.ordered),
      refl,
      refl,
      refl,
      refl,
    )

-- How severe an action is.
abbrev pub rank : Decision → ℕ
rank d = if str_eq d decision_block then 2 else if str_eq d decision_review then 1 else 0

rank_of_action :
    (r b n : ℕ) → rank (action r b n) ≡ (if leb b n then 2 else if leb r n then 1 else 0)
rank_of_action r b n = elim (Bool-cases (leb b n)) [
  | inl blocks ↦ rw blocks
  | inr below ↦ rw below (elim (Bool-cases (leb r n)) [ inl e ↦ rw e | inr e ↦ rw e ])
]

rank-action : (r b n m : ℕ) → n ≤ m → rank (action r b n) ≤ rank (action r b m)
rank-action r b n m h = ground (arith, rank_of_action r b n, rank_of_action r b m)

-- A higher score never gets a milder action, whatever else the two suggestions say.
pub decide_mono :
    (p : Policy) (s t : ProviderSuggestion) (d e : DecisionResult)
    → decide p s ≡ ok d
    → decide p t ≡ ok e
    → float_le s.risk_score t.risk_score ≡ true
    → rank d.decision ≤ rank e.decision
decide_mono p s t d e h k le =
    let (valid, hs, ds) = decide-ok p s d h in
    let (_, ht, dt) = decide-ok p t e k in
    let v = validate-IsValidPolicy p valid in
    let (n, en, _) = (valid_score_iff s.risk_score).0 hs in
    let (m, em, _) = (valid_score_iff t.risk_score).0 ht in
    rw (ds, dt, decision_of-action p v _ n en, decision_of-action p v _ m em)
      (rank-action v.review v.block n m (ground (arith, em, en)))

-- `Decide` fails exactly for a policy that `Validate` rejects or a score that is not a number from
-- 0 to 1.
pub decide-ok_iff :
    (p : Policy) (s : ProviderSuggestion)
    → ((d : DecisionResult) × (decide p s ≡ ok d))
      ↔ (IsValidPolicy p × ((n : ℕ) × (s.risk_score ≡ score_of n) × (n ≤ units)))
decide-ok_iff p s = (
  λ (d, h).
      let (valid, score, _) = decide-ok p s d h in
      (validate-IsValidPolicy p valid, (valid_score_iff s.risk_score).0 score),
  λ (v, n). (
    decided p s,
    decide-decided p s (IsValidPolicy-validate p v) ((valid_score_iff s.risk_score).1 n),
  ),
)
