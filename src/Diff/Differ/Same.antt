-- ===== src/Diff/Differ/Same.antt =====
-- The report of a trace compared with itself.
use sentoris_proxy.Prelude.{
  ℕ, ◌≡◌, refl, ◌∙◌, ap, Bool, true, false, not, Option, none, some, List, [], ◌∷◌, String, codes,
  eq_refl, ◌==◌, arith,
}
use sentoris_proxy.Prelude.Int.{ℤ, ltb_ℤ}
use sentoris_proxy.Domain.Value.{Value, null, text, Fields}
use sentoris_proxy.Domain.Trace.{Trace}
use sentoris_proxy.Domain.RiskReport.{
  Ratio, RiskReport, RiskAssessment, approve, set_risk_with_reasons, assessment,
}
use sentoris_proxy.Diff.Fields.{
  values_equal, param_risks, response_risks, model_risk, tokens_risks, cost_risks, finish_risks,
  params_of, value_at, text_similarity, response_text, field_risks,
}
use sentoris_proxy.Diff.Differ.{
  count_level, calculate_risk_score, recommend, determine_recommendation_with_reasons,
  name_methodology, early_report, unless_empty, compared, assess, compare,
}
use sentoris_proxy.Diff.Differ.Score.{score_of_self}
use sentoris_proxy.Diff.Differ.Laws.{compared-model_changed, compared-fields}

-- The release is approved with a score of 0.
abbrev Approves : RiskReport → Type 0
Approves r =
    (a : RiskAssessment) × (r.risk ≡ some a) × (a.score ≡ 0) × (a.recommendation ≡ some approve)

acceptable :
    (show : ℕ → String) (score : ℕ) (changed : Bool) (r : RiskReport)
    → score ≡ 0
    → changed ≡ false
    → (assessment r).fields ≡ []
    → (determine_recommendation_with_reasons show score changed r).0 ≡ approve
unfolding determine_recommendation_with_reasons recommend count_level
acceptable show score changed r zero_score same none_found = rw (zero_score, same, none_found) refl

assess-Approves :
    (show : ℕ → String) (now : String) (ratio : Ratio) (r : RiskReport)
    → r.model_changed ≡ false
    → (assessment r).fields ≡ []
    → calculate_risk_score ratio false ≡ 0
    → Approves (assess show now ratio r)
unfolding assess set_risk_with_reasons name_methodology assessment
assess-Approves show now ratio r same none_found zero_score =
    let zero = ap (calculate_risk_score ratio) same ∙ zero_score in
    (_, refl, zero, ap some (acceptable show _ r.model_changed r zero same none_found))

unless_empty-Approves :
    (o : Option String) (early report : RiskReport)
    → Approves early
    → Approves report
    → Approves (unless_empty o o early report)
unfolding unless_empty
unless_empty-Approves none early report p q = p
unless_empty-Approves (some s) early report p q = q

-- What a trace compared with itself gives.
module _ (deep_equal : Value → Value → Bool) (marshal : Value → Option String)
    (reflexive : (v : Value) → deep_equal v v ≡ true) where
  values_equal_self : (v : Value) → values_equal deep_equal marshal v v ≡ true
  unfolding values_equal
  values_equal_self null = refl
  values_equal_self v = rw (reflexive v) refl

  param_risks_self : (fs : Fields) (ks : List String) → param_risks deep_equal marshal fs fs ks ≡ []
  unfolding param_risks
  param_risks_self fs [] = refl
  param_risks_self fs (k ∷ ks) = rw (values_equal_self (value_at k fs)) (param_risks_self fs ks)

  response_risks_self : (o : Option String) → response_risks deep_equal marshal o o ≡ []
  unfolding response_risks
  response_risks_self none = refl
  response_risks_self (some s) = rw (values_equal_self (text s)) refl

  field_risks_self : (t : Trace) → field_risks deep_equal marshal t t ≡ []
  unfolding field_risks model_risk tokens_risks cost_risks finish_risks
  field_risks_self t =
      rw
        (
          eq_refl t.model,
          param_risks_self (params_of t.input.params),
          response_risks_self t.output.response,
          eq_refl t.output.finish_reason,
          same_tokens t.observations.tokens_count,
          same_cost t.observations.cost_estimated_usd,
        )
        refl
    where
      same_tokens : (n : ℕ) → n == n ≡ true
      same_tokens n = ground arith

      same_cost : (c : ℤ) → ltb_ℤ c c ≡ false
      same_cost c = ground arith

module _ (deep_equal : Value → Value → Bool) (marshal : Value → Option String) (show : ℕ → String)
    (now : String) where
  -- A trace compared with itself has no differing fields, a score of 0 and an approved release, where
  -- a deep comparison finds each value equal to itself.
  pub compare_self :
      ((v : Value) → deep_equal v v ≡ true)
      → (t : Trace)
      → (field_risks deep_equal marshal t t ≡ [])
        × (a : RiskAssessment) × ((compare deep_equal marshal show now t t).risk ≡ some a)
        × (a.score ≡ 0)
        × (a.recommendation ≡ some approve)
  unfolding compare early_report set_risk_with_reasons unless_empty
  compare_self reflexive t =
      let none_found = field_risks_self deep_equal marshal reflexive t in
      let (a, is_a, score, approved) =
        unless_empty-Approves t.output.response (early_report t t) _ (_, refl, refl, refl)
          (assess-Approves show now
            (text_similarity (codes (response_text t.output.response))
              (codes (response_text t.output.response)))
            (compared deep_equal marshal show now t t)
            (compared-model_changed deep_equal marshal show now t t ∙ ap not (eq_refl t.model))
            (compared-fields deep_equal marshal show now t t ∙ none_found)
            (score_of_self (codes (response_text t.output.response)))) in
      (none_found, a, is_a, score, approved)
