-- ===== src/Diff/Differ/Score.antt =====
-- How large the risk score is.
use native.Mathlib.Nat.{le-div_iff_mul-le, div-eq_of_lt}
use sentoris_proxy.Prelude.{
  ℕ, zero, suc, ◌+◌, ◌*◌, ◌≤◌, ◌<◌, ◌≡◌, refl, ap, max, true, false, List, arith,
}
use sentoris_proxy.Prelude.Int.{pos, scale, ◌-ℤ◌}
use sentoris_proxy.Diff.Levenshtein.{byte_length}
use sentoris_proxy.Diff.Levenshtein.Laws.{levenshtein_distance_self}
use sentoris_proxy.Diff.Fields.{similarity, text_similarity}
use sentoris_proxy.Diff.Differ.{base_risk, clamp, hundredths, calculate_risk_score}

minus_minus : (m d : ℕ) → pos m -ℤ (pos m -ℤ pos d) ≡ pos d
unfolding ◌-ℤ◌
minus_minus m d = ground arith

plus_changed : (m d : ℕ) → scale 8 (pos d) -ℤ scale 2 (pos 0 -ℤ pos m) ≡ pos (8 * d + 2 * m)
unfolding scale ◌-ℤ◌
plus_changed m d = ground arith

base_risk-changed :
    (m d : ℕ)
    → base_risk (record { part = pos m -ℤ pos d; whole = m }) true
      ≡ record { part = pos (8 * d + 2 * m); whole = 10 * m }
unfolding base_risk
base_risk-changed m d = rw (minus_minus m d, plus_changed m d) refl

base_risk-same :
    (m d : ℕ)
    → base_risk (record { part = pos m -ℤ pos d; whole = m }) false
      ≡ record { part = pos d; whole = m }
unfolding base_risk
base_risk-same m d = rw (minus_minus m d) refl

similarity-some : (d m : ℕ) → 0 < m → similarity d m ≡ record { part = pos m -ℤ pos d; whole = m }
unfolding similarity
similarity-some d m h = ground arith

similarity-none : (d : ℕ) → similarity d 0 ≡ record { part = pos 1 -ℤ pos 0; whole = 1 }
unfolding similarity ◌-ℤ◌
similarity-none d = refl

changed_score :
    (d m : ℕ)
    → calculate_risk_score (record { part = pos m -ℤ pos d; whole = m }) true
      ≡ hundredths (record { part = pos (8 * d + 2 * m); whole = 10 * m })
unfolding calculate_risk_score
changed_score d m = ap hundredths (base_risk-changed m d)

same_score :
    (d m : ℕ)
    → calculate_risk_score (record { part = pos m -ℤ pos d; whole = m }) false
      ≡ hundredths (record { part = pos d; whole = m })
unfolding calculate_risk_score
same_score d m = ap hundredths (base_risk-same m d)

-- A model that has changed is 20 hundredths of risk at least.
pub score_of_changed : (d m : ℕ) → 20 ≤ calculate_risk_score (similarity d m) true
unfolding hundredths clamp
score_of_changed d zero = rw (similarity-none d, changed_score 0 1) (omega arith)
score_of_changed d (suc n) =
    let m = suc n in
    rw (similarity-some d m (omega arith), changed_score d m)
      ((le-div_iff_mul-le (omega arith)).1 (ground arith))

score_of_same : (m : ℕ) → calculate_risk_score (similarity 0 m) false ≡ 0
unfolding hundredths clamp
score_of_same zero = rw (similarity-none 0, same_score 0 1) refl
score_of_same (suc n) =
    let m = suc n in
    rw (similarity-some 0 m (omega arith), same_score 0 m) (div-eq_of_lt (ground arith))

pub score_of_self : (cs : List ℕ) → calculate_risk_score (text_similarity cs cs) false ≡ 0
unfolding text_similarity
score_of_self cs =
    rw (levenshtein_distance_self cs) (score_of_same (max (byte_length cs) (byte_length cs)))
