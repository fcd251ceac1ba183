-- ===== src/Governance/Validation/Laws.antt =====
-- Which constraints the validation lets pass.
use sentoris_proxy.Prelude.{
  ◌≡◌, refl, ◌↔◌, ◌⊎◌, true, Option, none, some, String, Result, ok, err, ◌>>◌, eq_iff, arith,
}
use sentoris_proxy.Prelude.Int.{pos, ◌≤ℤ◌}
use sentoris_proxy.Governance.Constraints.{
  Constraints, BudgetConstraint, PrivacyConstraint, ReproducibilityConstraint, hard_stop,
  degrade_model, soft_alert, privacy_raw, privacy_masked, privacy_hash_only, reproducibility_none,
  reproducibility_bounded, reproducibility_strict,
}
use sentoris_proxy.Governance.Validation.{
  one_of, validate_budget, validate_privacy, validate_pair, validate_reproducibility,
  validate_constraint_combination, ConstraintError,
}

abbrev pub ValidBudget : Option BudgetConstraint → Type 0
ValidBudget none = Unit
ValidBudget (some b) =
    (pos 0 ≤ℤ b.limit_usd)
    × ((b.strategy ≡ hard_stop) ⊎ ((b.strategy ≡ degrade_model) ⊎ (b.strategy ≡ soft_alert)))

abbrev pub ValidPrivacy : Option PrivacyConstraint → Type 0
ValidPrivacy none = Unit
ValidPrivacy (some p) =
    (p.level ≡ privacy_raw) ⊎ ((p.level ≡ privacy_masked) ⊎ (p.level ≡ privacy_hash_only))

abbrev pub ValidReproducibility : Option ReproducibilityConstraint → Type 0
ValidReproducibility none = Unit
ValidReproducibility (some r) =
    (r.mode ≡ reproducibility_none)
    ⊎ ((r.mode ≡ reproducibility_bounded) ⊎ (r.mode ≡ reproducibility_strict))

abbrev pub Compatible : Option PrivacyConstraint → Option ReproducibilityConstraint → Type 0
Compatible (some p) (some r) = ¬ ((p.level ≡ privacy_hash_only) × (r.mode ≡ reproducibility_strict))
Compatible _ _ = Unit

one_of_iff : (a b c s : String) → (one_of a b c s ≡ true) ↔ ((s ≡ a) ⊎ ((s ≡ b) ⊎ (s ≡ c)))
unfolding one_of
one_of_iff a b c s = ground (arith, eq_iff s a, eq_iff s b, eq_iff s c)

validate_budget_iff : (b : Option BudgetConstraint) → (validate_budget b ≡ ok tt) ↔ ValidBudget b
unfolding validate_budget
validate_budget_iff none = (λ _. tt, λ _. refl)
validate_budget_iff (some b) =
    ground (arith, one_of_iff hard_stop degrade_model soft_alert b.strategy)

validate_privacy_iff :
    (p : Option PrivacyConstraint) → (validate_privacy p ≡ ok tt) ↔ ValidPrivacy p
unfolding validate_privacy
validate_privacy_iff none = (λ _. tt, λ _. refl)
validate_privacy_iff (some p) =
    ground (arith, one_of_iff privacy_raw privacy_masked privacy_hash_only p.level)

validate_reproducibility_iff :
    (r : Option ReproducibilityConstraint)
    → (validate_reproducibility r ≡ ok tt) ↔ ValidReproducibility r
unfolding validate_reproducibility
validate_reproducibility_iff none = (λ _. tt, λ _. refl)
validate_reproducibility_iff (some r) =
    ground
      (arith, one_of_iff reproducibility_none reproducibility_bounded reproducibility_strict r.mode)

validate_pair_iff :
    (p : Option PrivacyConstraint) (r : Option ReproducibilityConstraint)
    → (validate_pair p r ≡ ok tt) ↔ Compatible p r
unfolding validate_pair
validate_pair_iff none r = (λ _. tt, λ _. refl)
validate_pair_iff (some p) none = (λ _. tt, λ _. refl)
validate_pair_iff (some p) (some r) =
    ground (arith, eq_iff p.level privacy_hash_only, eq_iff r.mode reproducibility_strict)

>>_iff :
    (m k : Result ConstraintError (Unit {0})) {P Q : Type 0}
    → (m ≡ ok tt) ↔ P
    → (k ≡ ok tt) ↔ Q
    → ((m >> k) ≡ ok tt) ↔ (P × Q)
>>_iff (ok tt) k p q = (λ e. (p.0 refl, q.0 e), λ h. q.1 h.1)
>>_iff (err e) k p q = (λ h. cc, λ h. cc (p.1 h.0))

-- Constraints pass exactly when the limit is not negative, the strategy, the privacy level and the
-- mode are among the three known ones each, and hash-only privacy does not meet strict
-- reproducibility; a constraint that is absent asks nothing.
pub validate_constraint_combination_iff :
    (c : Constraints)
    → (validate_constraint_combination (some c) ≡ ok tt) ↔ (
        ValidBudget c.budget
        × (ValidPrivacy c.privacy
            × (Compatible c.privacy c.reproducibility × ValidReproducibility c.reproducibility)))
unfolding validate_constraint_combination
validate_constraint_combination_iff c = >>_iff _ _ (validate_budget_iff c.budget) (
    >>_iff _ _ (validate_privacy_iff c.privacy) (
      >>_iff _ _ (validate_pair_iff c.privacy c.reproducibility)
        (validate_reproducibility_iff c.reproducibility)))
