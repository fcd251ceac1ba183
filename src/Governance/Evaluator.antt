-- ===== src/Governance/Evaluator.antt =====
-- The two evaluators of internal/service/governance/evaluator.go and the budget check of
-- budget_service.go. Amounts are integers of a unit of money; the buffer of a tenth of a percent is
-- counted in thousandths of it, so that the products and sums of the source are exact.
pub mod Laws
mod Tests
use sentoris_proxy.Prelude.{
  ℕ, Bool, true, false, not, ◌&&◌, ◌||◌, Option, none, some, List, [], ◌∷◌, ◌++◌, String, Result,
  ok, err, ◌>>=◌, ◌>>◌, guard, str_eq, if◌then◌else◌,
}
use sentoris_proxy.Prelude.Int.{ℤ, pos, ◌+ℤ◌, ◌-ℤ◌, leb_ℤ, ltb_ℤ, scale}
use sentoris_proxy.Domain.Value.{Fields, no_fields, field, number, boolean}
use sentoris_proxy.Domain.Trace.{
  PolicyDecision, allow, block, degrade, DegradeAction, switch_model, ErrorInfo, ConstraintsApplied,
  no_constraints_applied,
}
use sentoris_proxy.Governance.Constraints.{
  Constraints, BudgetConstraint, PrivacyConstraint, ReproducibilityConstraint, hard_stop,
  degrade_model, soft_alert, privacy_raw, privacy_masked, privacy_hash_only, reproducibility_none,
  reproducibility_bounded, reproducibility_strict,
}

-- `defaultBufferPercent`, 0.001, in thousandths.
abbrev pub buffer_permille : ℕ
buffer_permille = 1

-- `RemainingUSD` is in thousandths of the unit.
pub record BudgetResult : Type 0 where
  pub allowed : Bool
  pub limit_usd : ℤ
  pub consumed_usd : ℤ
  pub remaining_milli : ℤ
  pub buffer_applied : Bool

is_zero : ℤ → Bool
is_zero a = leb_ℤ a (pos 0) && leb_ℤ (pos 0) a

-- `limitUSD + limitUSD * s.defaultBufferPercent`, in thousandths.
effective_milli : ℤ → ℤ
effective_milli limit = scale 1000 limit +ℤ scale buffer_permille limit

pub check_budget : ℤ → ℤ → BudgetResult
unfolding is_zero effective_milli
check_budget limit cost =
    if is_zero limit
    then record {
      allowed = true;
      limit_usd = pos 0;
      consumed_usd = cost;
      remaining_milli = pos 0;
      buffer_applied = false;
    }
    else if leb_ℤ (effective_milli limit) (scale 1000 cost)
    then record {
      allowed = false;
      limit_usd = limit;
      consumed_usd = cost;
      remaining_milli = pos 0;
      buffer_applied = ltb_ℤ (pos 0) (scale buffer_permille limit);
    }
    else record {
      allowed = true;
      limit_usd = limit;
      consumed_usd = cost;
      remaining_milli = effective_milli limit -ℤ scale 1000 cost;
      buffer_applied = ltb_ℤ (pos 0) (scale buffer_permille limit);
    }

pub should_hard_stop : ℤ → ℤ → Bool
unfolding effective_milli
should_hard_stop limit cost = leb_ℤ (effective_milli limit) (scale 1000 cost)

-- `GetSafeErrorDetails`.
pub safe_error_details : BudgetResult → Fields
safe_error_details r =
    field "limit_usd" (number r.limit_usd)
      (field "buffer_applied" (boolean r.buffer_applied) no_fields)

pub record EvaluationResult : Type 0 where
  pub decision : PolicyDecision
  pub checks_passed : List String
  pub checks_failed : List String
  pub constraints_used : ConstraintsApplied
  pub error : Option ErrorInfo
  pub degrade_action : Option DegradeAction

-- The zero values of a new result.
pub initial : EvaluationResult
initial = record {
  decision = allow;
  checks_passed = [];
  checks_failed = [];
  constraints_used = no_constraints_applied;
  error = none;
  degrade_action = none;
}

pass : String → EvaluationResult → EvaluationResult
pass check r = record r { checks_passed = r.checks_passed ++ (check ∷ []) }

-- The names under which the two evaluators record the same checks.
pub record CheckNames : Type 0 where
  pub budget_passed : String
  pub budget_failed : String
  pub privacy_passed : String
  pub reproducibility_passed : String

degraded : EvaluationResult → EvaluationResult
unfolding pass
degraded r =
    let r' = pass "budget_check_degraded" r in
    record r' {
      decision = degrade;
      degrade_action = some switch_model;
      constraints_used = record (r'.constraints_used) { degrade_action = some switch_model };
    }

blocked : CheckNames → BudgetResult → EvaluationResult → EvaluationResult
unfolding safe_error_details
blocked names budget r = record r {
  decision = block;
  checks_failed = r.checks_failed ++ (names.budget_failed ∷ []);
  error = some (record {
    code = "SENTORIS_BUDGET_EXCEEDED";
    message = "Budget limit exceeded";
    details = some (safe_error_details budget);
  });
}

exceeded : CheckNames → BudgetConstraint → BudgetResult → EvaluationResult → EvaluationResult
unfolding pass degraded blocked
exceeded names b budget r =
    if str_eq b.strategy degrade_model
    then degraded r
    else if str_eq b.strategy soft_alert
    then record (pass "budget_check_soft_alert" r) { decision = allow }
    else blocked names budget r

note_budget : BudgetConstraint → ℤ → EvaluationResult → EvaluationResult
note_budget b cost r = record r {
  constraints_used = record (r.constraints_used) {
    budget_limit_usd = b.limit_usd;
    budget_strategy = b.strategy;
    budget_actual_usd = cost;
  };
}

eval_budget : CheckNames → ℤ → Option BudgetConstraint → EvaluationResult → EvaluationResult
unfolding exceeded note_budget pass
eval_budget names cost none r = r
eval_budget names cost (some b) r =
    let budget = check_budget b.limit_usd cost in
    note_budget b cost
      (if budget.allowed then pass names.budget_passed r else exceeded names b budget r)

eval_privacy : CheckNames → Option PrivacyConstraint → EvaluationResult → EvaluationResult
unfolding pass
eval_privacy names none r = r
eval_privacy names (some p) r = pass names.privacy_passed (record r {
  constraints_used = record (r.constraints_used) {
    privacy_level = p.level;
    privacy_masked_fields = p.masked_fields;
  };
})

eval_reproducibility :
    CheckNames → Option ReproducibilityConstraint → EvaluationResult → EvaluationResult
unfolding pass
eval_reproducibility names none r = r
eval_reproducibility names (some p) r = pass names.reproducibility_passed (record r {
  constraints_used = record (r.constraints_used) {
    reproducibility_mode = p.mode;
    reproducibility_seed = p.seed;
  };
})

-- The body that the two evaluators share, for constraints that may be nil.
pub evaluate_as : CheckNames → Option Constraints → ℤ → EvaluationResult
unfolding initial eval_budget eval_privacy eval_reproducibility
evaluate_as names none cost = initial
evaluate_as names (some c) cost =
    eval_reproducibility names c.reproducibility
      (eval_privacy names c.privacy (eval_budget names cost c.budget initial))

pub evaluate : Option Constraints → ℤ → EvaluationResult
unfolding evaluate_as
evaluate = evaluate_as (record {
  budget_passed = "budget_check";
  budget_failed = "budget_check";
  privacy_passed = "privacy_check";
  reproducibility_passed = "reproducibility_check";
})

pub evaluate_with_reproducibility : Option Constraints → ℤ → EvaluationResult
unfolding evaluate_as
evaluate_with_reproducibility = evaluate_as (record {
  budget_passed = "budget_ok";
  budget_failed = "budget_exceeded";
  privacy_passed = "privacy_constraint_applied";
  reproducibility_passed = "reproducibility_constraint_applied";
})
