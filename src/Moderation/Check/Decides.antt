-- ===== src/Moderation/Check/Decides.antt =====
-- internal/moderation/service.go and policy.go: an answer of `Check` follows a policy's thresholds.
use hate_sentry.Base.{ℕ, ◌≤◌, ◌<◌, String, some, ◌≡◌, ◌↔◌, ◌∙◌, sym, ap, ◌⊎◌, inl, inr}
use hate_sentry.Errors.{ok}
use hate_sentry.Moderation.Types.{DecisionResult, decision_allow, decision_review, decision_block}
use hate_sentry.Moderation.Policy.{Policy}
use hate_sentry.Moderation.Policy.Thresholds.{IsValidPolicy, score_of, decide_exact, decide-ok_iff}
use hate_sentry.Moderation.PolicySet.{PolicySet, policy_for_version}
use hate_sentry.Moderation.Validate.{CheckInput}
use hate_sentry.Moderation.Service.{System, Service, Repository, Analyzer}
use hate_sentry.Moderation.Outputs.{CheckOutput}
use hate_sentry.Moderation.Check.{check}
use hate_sentry.Moderation.Check.Rows.{KeepsCase, IsReplay, IsDecided}
use hate_sentry.Moderation.Check.Sound.{check_sound}

-- The answer is what the thresholds of a registered policy say about its score.
pub record FollowsPolicy {W : Type 0} (sys : System W) (policies : PolicySet) (out : CheckOutput)
    : Type 0 where
  pub version : String
  pub policy : Policy
  pub registered : policy_for_version sys.quote policies version ≡ ok policy
  pub valid : IsValidPolicy policy
  pub score : ℕ
  pub score_eq : out.risk_score ≡ score_of score
  pub version_eq : out.policy_version ≡ policy.version
  pub blocks : (out.decision ≡ decision_block) ↔ (valid.block ≤ score)
  pub reviews : (out.decision ≡ decision_review) ↔ ((valid.review ≤ score) × (score < valid.block))
  pub allows : (out.decision ≡ decision_allow) ↔ (score < valid.review)

ok_injective : {a b : DecisionResult} → ok a ≡ ok b → a ≡ b
ok_injective h = cc

IsDecided-FollowsPolicy :
    {W : Type 0} (sys : System W) (policies : PolicySet) (analyze : Analyzer W) (input : CheckInput)
    (out : CheckOutput)
    → IsDecided sys policies analyze input out
    → FollowsPolicy sys policies out
IsDecided-FollowsPolicy sys policies analyze input out h =
    let (valid, (n, score_eq, fits)) =
      (decide-ok_iff h.policy h.suggestion).0 (h.decision, h.decided_eq) in
    let (d, d_eq, blocks, reviews, allows, score, labels, reason, version) =
      decide_exact h.policy h.suggestion n valid score_eq fits in
    let same : d ≡ h.decision = ok_injective (sym d_eq ∙ h.decided_eq) in
    let decision_eq : out.decision ≡ d.decision = rw same h.decision_eq in
    record {
      version = h.version;
      policy = h.policy;
      registered = h.registered;
      valid = valid;
      score = n;
      score_eq = h.score_eq ∙ ap (λ r. DecisionResult.risk_score r) (sym same) ∙ score ∙ score_eq;
      version_eq = h.version_eq ∙ ap (λ r. DecisionResult.policy_version r) (sym same) ∙ version;
      blocks = rw decision_eq blocks;
      reviews = rw decision_eq reviews;
      allows = rw decision_eq allows;
    }

-- Every answer of `Check`, on a service with an analyzer and a repository, that is not a replay
-- follows a registered, valid policy: it blocks exactly from the policy's block threshold on, sends
-- to review exactly from the review threshold up to there, and allows exactly below; its score and
-- its version are the ones that decided. The repository keeps the status of the review case that it
-- stores.
pub check_decides :
    {W : Type 0} (sys : System W) (s : Service W) (repository : Repository W) (analyze : Analyzer W)
    → KeepsCase repository
    → s.repository ≡ some repository
    → s.analyzer ≡ some analyze
    → (raw : CheckInput) (w : W) (out : CheckOutput) → (check sys s raw w).0 ≡ ok out
    → ((input : CheckInput) × IsReplay sys repository input out) ⊎ FollowsPolicy sys s.policies out
check_decides sys s repository analyze law r a raw w out h =
    let (input, checked, answer) = check_sound sys s repository analyze law r a raw w out h in
    elim answer [
      | inl replay ↦ inl (input, replay)
      | inr now ↦ inr (IsDecided-FollowsPolicy sys s.policies analyze input out now)
    ]
