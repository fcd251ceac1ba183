-- ===== src/Diff/Differ/Tests.antt =====
-- Small traces compared, with a deep comparison that knows texts and numbers apart only.
use sentoris_proxy.Prelude.{
  ℕ, ◌≤◌, ◌<◌, ◌≡◌, ◌≢◌, ◌↔◌, ◌⊎◌, refl, inl, Bool, true, false, not, Option, none, some, [],
  String, str_eq, eq_refl,
}
use sentoris_proxy.Prelude.Int.{scale, ◌-ℤ◌}
use sentoris_proxy.Diff.Levenshtein.{levenshtein_distance, byte_length}
use sentoris_proxy.Domain.Value.{Value, text}
use sentoris_proxy.Domain.Trace.{Trace, init, no_observations, no_constraints_applied}
use sentoris_proxy.Domain.RiskReport.{
  RiskReport, RiskAssessment, approve, review_required, block_release, high, medium, assessment,
  new_risk_report, set_risk_with_reasons, add_field_risk, set_token_similarity_with_edit_distance,
}
use sentoris_proxy.Diff.Fields.{field_risks}
use sentoris_proxy.Diff.Differ.{compare, recommend, determine_recommendation, count_level}
use sentoris_proxy.Diff.Differ.Recommending.{determine_recommendation_iff}
use sentoris_proxy.Diff.Differ.Laws.{compare-model_changed, compare-fields}
use sentoris_proxy.Diff.Differ.Same.{compare_self}

-- Texts are compared, and other values are found equal.
abbrev equal_texts : Value → Value → Bool
equal_texts (text a) (text b) = str_eq a b
equal_texts a b = true

equal_texts_self : (v : Value) → equal_texts v v ≡ true
equal_texts_self (text a) = eq_refl a
equal_texts_self v = refl

abbrev no_json : Value → Option String
no_json v = none

abbrev show_number : ℕ → String
show_number n = "n"

abbrev before : Trace
before = record {
  trace_id = "t";
  parent_id = none;
  session_id = none;
  execution_state = init;
  model = "m";
  input = record { prompt = text "hi"; params = none; metadata = none; seed = none };
  output = record { response = some "yes"; truncated = false; finish_reason = "stop" };
  observations = no_observations;
  proofs = record { audit_signature = ""; proof_type = ""; canonicalization_method = "" };
  constraints_applied = no_constraints_applied;
  created_at = 7;
  ttl_expire_at = none;
  extensions = none;
}

abbrev after : Trace
after = record before {
  model = "other";
  output = record { response = some "no"; truncated = false; finish_reason = "error" };
}

-- Two fields at high risk block the release.
two_high_risks :
    (assessment (compare equal_texts no_json show_number "now" before after)).recommendation
    ≡ some block_release
unfolding compare set_risk_with_reasons add_field_risk recommend field_risks new_risk_report
    set_token_similarity_with_edit_distance scale byte_length ◌-ℤ◌ levenshtein_distance
two_high_risks = refl

-- One field at high risk and a score of 90 hundredths do not.
high_score_reviewed : (recommend show_number 1 0 90 false).0 ≡ review_required
unfolding recommend
high_score_reviewed = refl

high_score_blocked : (recommend show_number 0 0 90 false).0 ≡ block_release
unfolding recommend
high_score_blocked = refl

abbrev fresh : RiskReport
fresh = new_risk_report "a" "b"

determine_recommendation_iff_example :
    ((determine_recommendation show_number 90 false fresh ≡ block_release) ↔ (
      (2 ≤ count_level high (assessment fresh).fields)
      ⊎ ((count_level high (assessment fresh).fields ≡ 0) × (70 ≤ 90))))
    × ((determine_recommendation show_number 90 false fresh ≡ approve) ↔ (
        (count_level high (assessment fresh).fields ≡ 0)
        × (count_level medium (assessment fresh).fields < 2)
        × (90 < 30)
        × (false ≡ true → 90 < 20)))
determine_recommendation_iff_example = determine_recommendation_iff show_number 90 false fresh

has_response : before.output.response ≢ none
has_response e = cc

compare-model_changed_example :
    (a : RiskAssessment) × ((compare equal_texts no_json show_number "now" before after).risk
      ≡ some a)
    × (a.recommendation ≢ some approve)
compare-model_changed_example =
    compare-model_changed equal_texts no_json show_number "now" before after (λ e. cc)
      (inl has_response)

compare-fields_example :
    (a : RiskAssessment) × ((compare equal_texts no_json show_number "now" before after).risk
      ≡ some a)
    × (a.recommendation
        ≡ some (
            (recommend show_number
              (count_level high (field_risks equal_texts no_json before after))
              (count_level medium (field_risks equal_texts no_json before after))
              a.score
              (not (str_eq "m" "other"))).0))
    × (a.fields ≡ [])
compare-fields_example =
    compare-fields equal_texts no_json show_number "now" before after (inl has_response)

compare_self_example :
    (field_risks equal_texts no_json before before ≡ [])
    × (a : RiskAssessment) × ((compare equal_texts no_json show_number "now" before before).risk
        ≡ some a)
    × (a.score ≡ 0)
    × (a.recommendation ≡ some approve)
compare_self_example = compare_self equal_texts no_json show_number "now" equal_texts_self before
