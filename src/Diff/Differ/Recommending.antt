-- ===== src/Diff/Differ/Recommending.antt =====
-- When a release is blocked, and when it is approved.
use sentoris_proxy.Prelude.{ℕ, ◌≤◌, ◌<◌, ◌≡◌, ◌↔◌, ◌⊎◌, Bool, true, String, arith}
use sentoris_proxy.Domain.RiskReport.{RiskReport, assessment, approve, block_release, high, medium}
use sentoris_proxy.Diff.Differ.{
  recommend, determine_recommendation, determine_recommendation_with_reasons, count_level,
}

recommend_iff :
    (show : ℕ → String) (highs mediums score : ℕ) (model_changed : Bool)
    → (((recommend show highs mediums score model_changed).0 ≡ block_release)
        ↔ ((2 ≤ highs) ⊎ ((highs ≡ 0) × (70 ≤ score))))
      × (((recommend show highs mediums score model_changed).0 ≡ approve)
          ↔ ((highs ≡ 0) × (mediums < 2) × (score < 30) × (model_changed ≡ true → score < 20)))
unfolding recommend
recommend_iff show highs mediums score model_changed = ground arith

-- A release is blocked if two fields are at high risk, or if none is and the score is at least 70
-- hundredths: one field at high risk takes a release with such a score from blocked to reviewed. It is
-- approved if no field is at high risk, at most one at medium risk, and the score is under 30
-- hundredths, and under 20 where the model has changed. There is no other case of either.
pub determine_recommendation_iff :
    (show : ℕ → String) (score : ℕ) (model_changed : Bool) (r : RiskReport)
    → ((determine_recommendation show score model_changed r ≡ block_release) ↔ (
        (2 ≤ count_level high (assessment r).fields)
        ⊎ ((count_level high (assessment r).fields ≡ 0) × (70 ≤ score))))
      × ((determine_recommendation show score model_changed r ≡ approve) ↔ (
          (count_level high (assessment r).fields ≡ 0)
          × (count_level medium (assessment r).fields < 2)
          × (score < 30)
          × (model_changed ≡ true → score < 20)))
unfolding determine_recommendation determine_recommendation_with_reasons
determine_recommendation_iff show score model_changed r = recommend_iff show _ _ score model_changed
