-- ===== src/Domain/RiskReport.antt =====
-- internal/domain/risk_report.go. A score and a confidence, `float64` in the source, are hundredths;
-- a ratio is a fraction. An empty recommendation is none.
use sentoris_proxy.Prelude.{ℕ, Bool, false, Option, none, some, List, [], ◌∷◌, ◌++◌, String}
use sentoris_proxy.Prelude.Int.{ℤ}
use sentoris_proxy.Domain.Value.{Value}

pub data RiskLevel : Type 0 where
  low medium high critical : RiskLevel

pub data ChangeType : Type 0 where
  value_change added removed : ChangeType

pub data Recommendation : Type 0 where
  approve review_required block_release : Recommendation

-- `part / whole`.
pub record Ratio : Type 0 where
  pub part : ℤ
  pub whole : ℕ

pub record TokenDiff : Type 0 where
  pub similarity_ratio : Ratio
  pub edit_distance : ℕ
  pub baseline_length : ℕ
  pub candidate_length : ℕ
  pub methodology : String

pub record FieldRisk : Type 0 where
  pub path : String
  pub old_value : Value
  pub new_value : Value
  pub risk_level : RiskLevel
  pub confidence : Option ℕ
  pub change_type : ChangeType

-- `EmbeddingModel` is written by nothing, and is left out.
pub record RiskAssessment : Type 0 where
  pub score : ℕ
  pub methodology : String
  pub confidence : Option ℕ
  pub fields : List FieldRisk
  pub recommendation : Option Recommendation
  pub recommendation_reasons : List String
  pub model_changed : Option Bool

-- `FocusFields` is written by the caller.
pub record RiskReport : Type 0 where
  pub baseline_trace_id : String
  pub candidate_trace_id : String
  pub model_changed : Bool
  pub focus_fields : List String
  pub token_diff : Option TokenDiff
  pub risk : Option RiskAssessment
  pub generated_at : String

unfoldable pub new_risk_report : (baseline_id candidate_id : String) → RiskReport
new_risk_report baseline_id candidate_id = record {
  baseline_trace_id = baseline_id;
  candidate_trace_id = candidate_id;
  model_changed = false;
  focus_fields = [];
  token_diff = none;
  risk = none;
  generated_at = "2026-01-01T00:00:00Z";
}

unfoldable pub set_token_similarity_with_edit_distance :
    Ratio → (edit_distance baseline_length candidate_length : ℕ) → RiskReport → RiskReport
set_token_similarity_with_edit_distance ratio d baseline_length candidate_length r = record r {
  token_diff = some (record {
    similarity_ratio = ratio;
    edit_distance = d;
    baseline_length = baseline_length;
    candidate_length = candidate_length;
    methodology = "normalized_levenshtein_v2";
  });
}

-- `&RiskAssessment{}`.
abbrev pub empty_assessment : RiskAssessment
empty_assessment = record {
  score = 0;
  methodology = "";
  confidence = none;
  fields = [];
  recommendation = none;
  recommendation_reasons = [];
  model_changed = none;
}

-- A new assessment takes the place of the one there is.
unfoldable pub set_risk_with_reasons : ℕ → Recommendation → List String → RiskReport → RiskReport
set_risk_with_reasons score recommendation reasons r = record r {
  risk = some (record empty_assessment {
    score = score;
    methodology = "embedding_cosine_v3";
    recommendation = some recommendation;
    recommendation_reasons = reasons;
  });
}

unfoldable pub assessment : RiskReport → RiskAssessment
assessment r = elim r.risk [ none ↦ empty_assessment | some a ↦ a ]

unfoldable pub add_field_risk : FieldRisk → RiskReport → RiskReport
unfolding assessment
add_field_risk f r =
    let a = assessment r in record r { risk = some (record a { fields = a.fields ++ (f ∷ []) }) }
