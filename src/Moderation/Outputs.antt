-- ===== src/Moderation/Outputs.antt =====
-- internal/moderation/service.go: what the service hands out, made from what is stored.
use hate_sentry.Base.{ℕ, String, Option, none, some, List, [], ◌∷◌, str_eq, if◌then◌else◌}
use hate_sentry.Base.Text.{trim_space}
use hate_sentry.Float64.{Float64}
use hate_sentry.Errors.{Result, ok, err, fail, internal, with_details, error_text, ◌>>=◌}
use hate_sentry.Models.{Time, ReviewCase}
use hate_sentry.Moderation.Types.{Decision, ReviewStatus}
use hate_sentry.Moderation.Service.{System, StoredResult, StoredReviewCase}

pub record CheckOutput : Type 0 where
  pub request_id : String
  pub decision : Decision
  pub risk_score : Float64
  pub labels : List String
  pub reason : String
  pub policy_version : String
  pub review_status : String
  pub final_decision : String
  pub reviewed_at : Option Time

pub record ResultOutput : Type 0 where
  pub request_id : String
  pub client_id : Option ℕ
  pub content : String
  pub source : String
  pub external_id : String
  pub actor_id : String
  pub status : String
  pub provider : String
  pub model : String
  pub decision : Decision
  pub risk_score : Float64
  pub labels : List String
  pub reason : String
  pub policy_version : String
  pub review_status : String
  pub final_decision : String
  pub reviewed_at : Option Time
  pub created_at : Time

pub record HistoryItemOutput : Type 0 where
  pub request_id : String
  pub client_id : Option ℕ
  pub content : String
  pub source : String
  pub external_id : String
  pub actor_id : String
  pub status : String
  pub provider : String
  pub model : String
  pub policy_decision : Decision
  pub review_status : ReviewStatus
  pub final_decision : Decision
  pub risk_score : Float64
  pub labels : List String
  pub reason : String
  pub policy_version : String
  pub created_at : Time

pub record ReviewCaseOutput : Type 0 where
  pub id : ℕ
  pub request_id : String
  pub user_id : ℕ
  pub client_id : Option ℕ
  pub content : String
  pub source : String
  pub external_id : String
  pub actor_id : String
  pub status : ReviewStatus
  pub policy_decision : Decision
  pub final_decision : Decision
  pub risk_score : Float64
  pub labels : List String
  pub reason : String
  pub policy_version : String
  pub reviewer_id : Option ℕ
  pub review_notes : String
  pub reviewed_at : Option Time
  pub created_at : Time

-- What the absence of a review case leaves in an output: zero values.
abbrev pub case_status : Option ReviewCase → String
case_status none = ""
case_status (some c) = c.status

abbrev pub case_final_decision : Option ReviewCase → String
case_final_decision none = ""
case_final_decision (some c) = c.final_decision

abbrev pub case_reviewed_at : Option ReviewCase → Option Time
case_reviewed_at none = none
case_reviewed_at (some c) = c.reviewed_at

module _ {W : Type 0} (sys : System W) where
  -- `decodeLabels`.
  unfoldable pub decode_labels : String → Result (List String)
  decode_labels labels_json =
      if str_eq (trim_space labels_json) ""
      then ok []
      else elim (sys.unmarshal_labels labels_json) [
        | ok labels ↦ ok labels
        | err e ↦ fail (with_details (internal "failed to decode moderation labels") (error_text e))
      ]

  -- `checkOutputFromStored`.
  unfoldable pub check_output_from_stored : StoredResult → Result CheckOutput
  check_output_from_stored stored = do
    labels ← decode_labels stored.result.labels
    ok (record {
      request_id = stored.result.request_id;
      decision = stored.result.decision;
      risk_score = stored.result.risk_score;
      labels = labels;
      reason = stored.result.reason;
      policy_version = stored.result.policy_version;
      review_status = case_status stored.review_case;
      final_decision = case_final_decision stored.review_case;
      reviewed_at = case_reviewed_at stored.review_case;
    })

  -- `resultOutputFromStored`.
  unfoldable pub result_output_from_stored : StoredResult → Result ResultOutput
  result_output_from_stored stored = do
    labels ← decode_labels stored.result.labels
    ok (record {
      request_id = stored.request.request_id;
      client_id = stored.request.client_id;
      content = stored.request.content;
      source = stored.request.source;
      external_id = stored.request.external_id;
      actor_id = stored.request.actor_id;
      status = stored.request.status;
      provider = stored.result.provider;
      model = stored.result.model;
      decision = stored.result.decision;
      risk_score = stored.result.risk_score;
      labels = labels;
      reason = stored.result.reason;
      policy_version = stored.result.policy_version;
      review_status = case_status stored.review_case;
      final_decision = case_final_decision stored.review_case;
      reviewed_at = case_reviewed_at stored.review_case;
      created_at = stored.result.created_at;
    })

  -- `historyItemOutputFromStored`.
  unfoldable pub history_item_output_from_stored : StoredResult → Result HistoryItemOutput
  history_item_output_from_stored stored = do
    labels ← decode_labels stored.result.labels
    ok (record {
      request_id = stored.request.request_id;
      client_id = stored.request.client_id;
      content = stored.request.content;
      source = stored.request.source;
      external_id = stored.request.external_id;
      actor_id = stored.request.actor_id;
      status = stored.request.status;
      provider = stored.result.provider;
      model = stored.result.model;
      policy_decision = stored.result.decision;
      review_status = case_status stored.review_case;
      final_decision = case_final_decision stored.review_case;
      risk_score = stored.result.risk_score;
      labels = labels;
      reason = stored.result.reason;
      policy_version = stored.result.policy_version;
      created_at = stored.result.created_at;
    })

  -- `mapReviewCaseOutput`.
  unfoldable pub map_review_case_output : StoredReviewCase → Result ReviewCaseOutput
  map_review_case_output stored = do
    labels ← decode_labels stored.result.labels
    ok (record {
      id = stored.review_case.id;
      request_id = stored.review_case.request_id;
      user_id = stored.review_case.user_id;
      client_id = stored.review_case.client_id;
      content = stored.request.content;
      source = stored.request.source;
      external_id = stored.request.external_id;
      actor_id = stored.request.actor_id;
      status = stored.review_case.status;
      policy_decision = stored.result.decision;
      final_decision = stored.review_case.final_decision;
      risk_score = stored.result.risk_score;
      labels = labels;
      reason = stored.result.reason;
      policy_version = stored.result.policy_version;
      reviewer_id = stored.review_case.reviewer_id;
      review_notes = stored.review_case.review_notes;
      reviewed_at = stored.review_case.reviewed_at;
      created_at = stored.review_case.created_at;
    })

-- The loops that map stored rows and stop at the first error.
unfoldable pub map_all : {A B : Type 0} → (A → Result B) → List A → Result (List B)
map_all f [] = ok []
map_all f (a ∷ rest) = do b ← f a; bs ← map_all f rest; ok (b ∷ bs)
