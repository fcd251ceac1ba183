-- ===== src/Diff/Differ.antt =====
-- `Differ` of internal/service/diff/differ.go: the risk score, the recommendation and the report of
-- two traces. `show` is `%d`, and `now` is the time at which the report is made.
mod Recommending
mod Score
mod Laws
mod Same
mod Tests
use Prim.Native.String.{◌++◌ as append}
use sentoris_proxy.Prelude.{
  ℕ, suc, ◌+◌, ◌-◌, ◌*◌, ◌/◌, max, Bool, true, false, not, ◌&&◌, ◌||◌, ◌==◌, ltb, leb, Option, none,
  some, List, [], ◌∷◌, ◌++◌, String, codes, contains, str_eq, if◌then◌else◌,
}
use sentoris_proxy.Prelude.Int.{ℤ, pos, negsuc, ltb_ℤ, scale, ◌-ℤ◌, sub_ℕ, pos_part, neg_part}
use sentoris_proxy.Domain.Value.{Value, null, integer, number, text, Fields, no_fields, field, get}
use sentoris_proxy.Domain.Trace.{Trace, Input, Output, Observations}
use sentoris_proxy.Domain.RiskReport.{
  RiskReport, RiskLevel, low, medium, high, critical, ChangeType, value_change, added, removed,
  Recommendation, approve, review_required, block_release, Ratio, FieldRisk, new_risk_report,
  set_token_similarity_with_edit_distance, set_risk_with_reasons, add_field_risk, assessment,
}
use sentoris_proxy.Diff.Levenshtein.{levenshtein_distance, byte_length}
use sentoris_proxy.Diff.Fields.{text_similarity, response_text, analyze_field_differences}

-- `1.0 - similarity`, over `whole`, then `*0.8 + 0.2` when the model has changed.
unfoldable pub base_risk : Ratio → Bool → Ratio
base_risk r model_changed =
    let base = pos r.whole -ℤ r.part in
    if model_changed
    then record { part = scale 8 base -ℤ scale 2 (pos 0 -ℤ pos r.whole); whole = 10 * r.whole }
    else record { part = base; whole = r.whole }

clamp : Ratio → ℕ
clamp r =
    if ltb_ℤ r.part (pos 0)
    then 0
    else if ltb_ℤ (pos r.whole) r.part
    then r.whole
    else pos_part r.part

-- In hundredths, rounded half away from 0.
unfoldable pub hundredths : Ratio → ℕ
unfolding clamp
hundredths base = (200 * clamp base + base.whole) / (2 * base.whole)

unfoldable pub calculate_risk_score : Ratio → Bool → ℕ
unfolding base_risk hundredths
calculate_risk_score r model_changed = hundredths (base_risk r model_changed)

level_is : RiskLevel → RiskLevel → Bool
level_is medium medium = true
level_is high high = true
level_is a b = false

unfoldable pub count_level : RiskLevel → List FieldRisk → ℕ
unfolding level_is
count_level level [] = 0
count_level level (f ∷ fs) =
    let others = count_level level fs in if level_is level f.risk_level then suc others else others

module _ (show : ℕ → String) where
  -- With the counts of fields at high and at medium risk.
  unfoldable pub recommend : (highs mediums score : ℕ) → Bool → Recommendation × List String
  recommend highs mediums score model_changed =
      if leb 2 highs
      then (block_release, append "Multiple high-risk fields detected: " (show highs) ∷ [])
      else if leb 1 highs
      then (review_required, append "High-risk field detected: " (show highs) ∷ [])
      else if leb 70 score
      then (block_release, "Risk score is critical (>= 0.7)" ∷ [])
      else if leb 30 score
      then (review_required, "Risk score requires review (>= 0.3)" ∷ [])
      else if leb 2 mediums
      then (review_required, append "Multiple medium-risk fields detected: " (show mediums) ∷ [])
      else if model_changed && leb 20 score
      then (review_required, "Model changed and risk score >= 0.2" ∷ [])
      else (approve, "Risk score is acceptable" ∷ [])

  unfoldable pub determine_recommendation_with_reasons :
      ℕ → Bool → RiskReport → Recommendation × List String
  unfolding recommend count_level assessment
  determine_recommendation_with_reasons score model_changed report =
      let fields = (assessment report).fields in
      recommend (count_level high fields) (count_level medium fields) score model_changed

  unfoldable pub determine_recommendation : ℕ → Bool → RiskReport → Recommendation
  unfolding determine_recommendation_with_reasons
  determine_recommendation score model_changed report =
      (determine_recommendation_with_reasons score model_changed report).0

-- The two last assignments to `report.Risk`.
unfoldable pub name_methodology : RiskReport → RiskReport
unfolding assessment
name_methodology report = record report {
  risk = some (record (assessment report) {
    methodology = "hybrid_edit_distance_model_change_v2";
    model_changed = some (report.model_changed);
  });
}

unfoldable pub early_report : Trace → Trace → RiskReport
early_report baseline candidate =
    set_risk_with_reasons 0 approve ("Both responses are empty" ∷ []) (
      set_token_similarity_with_edit_distance (record { part = pos 1; whole = 1 }) 0 0 0
        (record (new_risk_report baseline.trace_id candidate.trace_id) {
          model_changed = not (str_eq baseline.model candidate.model);
        }))

-- The early return of `Compare`.
unfoldable pub unless_empty : (old new : Option String) → (early report : RiskReport) → RiskReport
unless_empty none none early report = early
unless_empty old new early report = report

module _ (show : ℕ → String) (now : String) where
  -- What follows the analysis of the fields.
  unfoldable pub assess : Ratio → RiskReport → RiskReport
  unfolding calculate_risk_score determine_recommendation_with_reasons name_methodology
  assess ratio report =
      let score = calculate_risk_score ratio report.model_changed in
      let (recommendation, reasons) =
        determine_recommendation_with_reasons show score report.model_changed report in
      record (name_methodology (set_risk_with_reasons score recommendation reasons report)) {
        generated_at = now;
      }

module _ (deep_equal : Value → Value → Bool) (marshal : Value → Option String) (show : ℕ → String)
    (now : String) where
  -- The report up to the risk score.
  unfoldable pub compared : Trace → Trace → RiskReport
  unfolding text_similarity analyze_field_differences
  compared baseline candidate =
      let old = codes (response_text baseline.output.response) in
      let new = codes (response_text candidate.output.response) in
      let report = record (new_risk_report baseline.trace_id candidate.trace_id) {
        model_changed = not (str_eq baseline.model candidate.model);
      } in
      analyze_field_differences deep_equal marshal baseline candidate (
        set_token_similarity_with_edit_distance (text_similarity old new)
          (levenshtein_distance old new) (byte_length old) (byte_length new) report)

  unfoldable pub compare : Trace → Trace → RiskReport
  unfolding early_report compared assess unless_empty
  compare baseline candidate =
      unless_empty baseline.output.response candidate.output.response
        (early_report baseline candidate)
        (assess show now
          (text_similarity (codes (response_text baseline.output.response))
            (codes (response_text candidate.output.response)))
          (compared baseline candidate))
