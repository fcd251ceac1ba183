-- ===== src/Governance/Validation.antt =====
-- `ValidateConstraintCombination` of internal/service/governance/evaluator.go. An error is a
-- constructor for each message, with the text that the message quotes.
pub mod Laws
mod Tests
use sentoris_proxy.Prelude.{
  Bool, not, ◌&&◌, ◌||◌, Option, none, some, String, Result, ok, err, ◌>>◌, ◌>>=◌, guard, str_eq,
}
use sentoris_proxy.Prelude.Int.{pos, ltb_ℤ}
use sentoris_proxy.Governance.Constraints.{
  Constraints, BudgetConstraint, PrivacyConstraint, ReproducibilityConstraint, hard_stop,
  degrade_model, soft_alert, privacy_raw, privacy_masked, privacy_hash_only, reproducibility_none,
  reproducibility_bounded, reproducibility_strict,
}

pub data ConstraintError : Type 0 where
  negative_limit : ConstraintError
  invalid_strategy : String → ConstraintError
  invalid_level : String → ConstraintError
  hash_only_strict : ConstraintError
  invalid_mode : String → ConstraintError

one_of : String → String → String → String → Bool
one_of a b c s = str_eq s a || (str_eq s b || str_eq s c)

validate_budget : Option BudgetConstraint → Result ConstraintError (Unit {0})
validate_budget none = ok tt
validate_budget (some b) = do
  guard (not (ltb_ℤ b.limit_usd (pos 0))) negative_limit
  guard (one_of hard_stop degrade_model soft_alert b.strategy) (invalid_strategy b.strategy)

validate_privacy : Option PrivacyConstraint → Result ConstraintError (Unit {0})
validate_privacy none = ok tt
validate_privacy (some p) =
    guard (one_of privacy_raw privacy_masked privacy_hash_only p.level) (invalid_level p.level)

validate_pair :
    Option PrivacyConstraint → Option ReproducibilityConstraint → Result ConstraintError (Unit {0})
validate_pair none r = ok tt
validate_pair (some p) none = ok tt
validate_pair (some p) (some r) =
    guard (not (str_eq p.level privacy_hash_only && str_eq r.mode reproducibility_strict))
      hash_only_strict

validate_reproducibility : Option ReproducibilityConstraint → Result ConstraintError (Unit {0})
validate_reproducibility none = ok tt
validate_reproducibility (some r) =
    guard (one_of reproducibility_none reproducibility_bounded reproducibility_strict r.mode)
      (invalid_mode r.mode)

-- `ValidateConstraintCombination`, with the checks in the order of the source.
pub validate_constraint_combination : Option Constraints → Result ConstraintError (Unit {0})
unfolding one_of validate_budget validate_privacy validate_pair validate_reproducibility
validate_constraint_combination none = ok tt
validate_constraint_combination (some c) = do
  validate_budget c.budget
  validate_privacy c.privacy
  validate_pair c.privacy c.reproducibility
  validate_reproducibility c.reproducibility
