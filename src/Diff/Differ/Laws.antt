-- ===== src/Diff/Differ/Laws.antt =====
-- What the report of two traces says of their model, and of the fields that differ.
use mathlib.Core.List.{append_assoc, append-nil}
use sentoris_proxy.Prelude.{
  ℕ, sym, ◌≤◌, ◌≡◌, ◌≢◌, refl, ◌∙◌, max, Bool, true, not, ◌⊎◌, inl, inr, Option, none, some, List,
  [], ◌∷◌, ◌++◌, String, codes, str_eq, eq_iff, arith,
}
use sentoris_proxy.Domain.Value.{Value}
use sentoris_proxy.Domain.Trace.{Trace}
use sentoris_proxy.Domain.RiskReport.{
  Ratio, RiskReport, high, medium, RiskAssessment, FieldRisk, approve, add_field_risk,
  set_risk_with_reasons, assessment, new_risk_report, set_token_similarity_with_edit_distance,
}
use sentoris_proxy.Diff.Levenshtein.{levenshtein_distance, byte_length}
use sentoris_proxy.Diff.Fields.{
  similarity, text_similarity, response_text, add_field_risks, analyze_field_differences,
  field_risks,
}
use sentoris_proxy.Diff.Differ.{
  count_level, calculate_risk_score, recommend, determine_recommendation_with_reasons,
  name_methodology, unless_empty, compared, assess, compare,
}
use sentoris_proxy.Diff.Differ.Score.{score_of_changed}

add_field_risks-model_changed :
    (fs : List FieldRisk) (r : RiskReport) → (add_field_risks fs r).model_changed ≡ r.model_changed
unfolding add_field_risks add_field_risk
add_field_risks-model_changed [] r = refl
add_field_risks-model_changed (f ∷ fs) r = add_field_risks-model_changed fs (add_field_risk f r)

add_field_risks-fields :
    (fs : List FieldRisk) (r : RiskReport)
    → (assessment (add_field_risks fs r)).fields ≡ (assessment r).fields ++ fs
unfolding add_field_risks add_field_risk assessment
add_field_risks-fields [] r = sym (append-nil _)
add_field_risks-fields (f ∷ fs) r =
    add_field_risks-fields fs (add_field_risk f r) ∙ append_assoc (assessment r).fields (f ∷ []) fs

recommend-changed :
    (show : ℕ → String) (highs mediums score : ℕ)
    → 20 ≤ score
    → (recommend show highs mediums score true).0 ≢ approve
unfolding recommend
recommend-changed show highs mediums score h = ground arith

not_approved :
    (show : ℕ → String) (d m : ℕ) (changed : Bool) (r : RiskReport)
    → changed ≡ true
    → (determine_recommendation_with_reasons show
        (calculate_risk_score (similarity d m) changed)
        changed
        r).0
      ≢ approve
unfolding determine_recommendation_with_reasons
not_approved show d m changed r e = rw e (
    recommend-changed show (count_level high (assessment r).fields)
      (count_level medium (assessment r).fields) _ (score_of_changed d m))

some_inj : {A : Type 0} {a b : A} → some a ≡ some b → a ≡ b
some_inj e = cc

assess-changed :
    (show : ℕ → String) (now : String) (d m : ℕ) (r : RiskReport)
    → r.model_changed ≡ true
    → (a : RiskAssessment) × ((assess show now (similarity d m) r).risk ≡ some a)
      × (a.recommendation ≢ some approve)
unfolding assess set_risk_with_reasons name_methodology assessment
assess-changed show now d m r e =
    (_, refl, λ same. not_approved show d m r.model_changed r e (some_inj same))

assess-risk :
    (show : ℕ → String) (now : String) (ratio : Ratio) (r : RiskReport)
    → (a : RiskAssessment) × ((assess show now ratio r).risk ≡ some a)
      × (a.recommendation
          ≡ some (
              (recommend show
                (count_level high (assessment r).fields)
                (count_level medium (assessment r).fields)
                a.score
                r.model_changed).0))
      × (a.fields ≡ [])
unfolding assess set_risk_with_reasons name_methodology assessment
    determine_recommendation_with_reasons
assess-risk show now ratio r = (_, refl, refl, refl)

unless_empty-given :
    (old new : Option String) (early report : RiskReport)
    → (old ≢ none) ⊎ (new ≢ none)
    → unless_empty old new early report ≡ report
unfolding unless_empty
unless_empty-given none none early report (inl h) = absurd (h refl)
unless_empty-given none none early report (inr h) = absurd (h refl)
unless_empty-given none (some s) early report h = refl
unless_empty-given (some s) new early report h = refl

module _ (deep_equal : Value → Value → Bool) (marshal : Value → Option String) (show : ℕ → String)
    (now : String) where
  pub compared-model_changed :
      (baseline candidate : Trace)
      → (compared deep_equal marshal show now baseline candidate).model_changed
        ≡ not (str_eq baseline.model candidate.model)
  unfolding compared analyze_field_differences set_token_similarity_with_edit_distance
  compared-model_changed baseline candidate =
      add_field_risks-model_changed (field_risks deep_equal marshal baseline candidate) _

  -- If the model has changed and one of the traces has a response, the release is not approved.
  pub compare-model_changed :
      (baseline candidate : Trace)
      → baseline.model ≢ candidate.model
      → (baseline.output.response ≢ none) ⊎ (candidate.output.response ≢ none)
      → (a : RiskAssessment) × ((compare deep_equal marshal show now baseline candidate).risk
          ≡ some a)
        × (a.recommendation ≢ some approve)
  unfolding compare text_similarity
  compare-model_changed baseline candidate other given =
      rw (unless_empty-given baseline.output.response candidate.output.response _ _ given) (
        assess-changed show now
          (levenshtein_distance (codes (response_text baseline.output.response))
            (codes (response_text candidate.output.response)))
          (max (byte_length (codes (response_text baseline.output.response)))
            (byte_length (codes (response_text candidate.output.response))))
          (compared deep_equal marshal show now baseline candidate) changed)
    where
      changed : (compared deep_equal marshal show now baseline candidate).model_changed ≡ true
      changed =
          compared-model_changed baseline candidate
          ∙ ground (arith, eq_iff baseline.model candidate.model)

  pub compared-fields :
      (baseline candidate : Trace)
      → (assessment (compared deep_equal marshal show now baseline candidate)).fields
        ≡ field_risks deep_equal marshal baseline candidate
  unfolding compared analyze_field_differences set_token_similarity_with_edit_distance assessment
      new_risk_report
  compared-fields baseline candidate =
      add_field_risks-fields (field_risks deep_equal marshal baseline candidate) _

  -- If one of the traces has a response, the recommendation is made from the fields that are found to
  -- differ, and the report has none of them.
  pub compare-fields :
      (baseline candidate : Trace)
      → (baseline.output.response ≢ none) ⊎ (candidate.output.response ≢ none)
      → (a : RiskAssessment) × ((compare deep_equal marshal show now baseline candidate).risk
          ≡ some a)
        × (a.recommendation
            ≡ some (
                (recommend show
                  (count_level high (field_risks deep_equal marshal baseline candidate))
                  (count_level medium (field_risks deep_equal marshal baseline candidate))
                  a.score
                  (not (str_eq baseline.model candidate.model))).0))
        × (a.fields ≡ [])
  unfolding compare
  compare-fields baseline candidate given =
      rw (unless_empty-given baseline.output.response candidate.output.response _ _ given) (
        let judged =
          assess-risk show now
            (text_similarity (codes (response_text baseline.output.response))
              (codes (response_text candidate.output.response)))
            (compared deep_equal marshal show now baseline candidate) in
        (
          judged.0,
          judged.1,
          rw (compared-model_changed baseline candidate, compared-fields baseline candidate) at
              (judged.2),
          judged.3,
        ))
