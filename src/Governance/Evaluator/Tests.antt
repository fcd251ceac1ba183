-- ===== src/Governance/Evaluator/Tests.antt =====
-- Budgets of ten cents, in tenths of a cent, for each strategy.
use sentoris_proxy.Prelude.{◌≡◌, refl, ◌≢◌, true, not, none, some, String}
use sentoris_proxy.Prelude.Int.{◌+ℤ◌, scale, pos, ◌≤ℤ◌}
use sentoris_proxy.Governance.Constraints.{Constraints, BudgetConstraint, hard_stop, degrade_model}
use sentoris_proxy.Domain.Trace.{block, degrade}
use sentoris_proxy.Governance.Evaluator.{
  check_budget, should_hard_stop, evaluate, evaluate_as, CheckNames,
}
use sentoris_proxy.Governance.Evaluator.Laws.{should_hard_stop_lem, evaluate_as-decision, Decides}

abbrev ten_cents : String → BudgetConstraint
ten_cents strategy = record { limit_usd = pos 100; strategy = strategy }

abbrev only_budget : BudgetConstraint → Constraints
only_budget b = record { reproducibility = none; budget = some b; privacy = none }

abbrev names : CheckNames
names = record {
  budget_passed = "passed";
  budget_failed = "failed";
  privacy_passed = "privacy";
  reproducibility_passed = "reproducibility";
}

within_buffer : (check_budget (pos 100) (pos 100)).allowed ≡ true
unfolding check_budget ◌+ℤ◌ scale
within_buffer = refl

over_buffer : (evaluate (some (only_budget (ten_cents hard_stop))) (pos 101)).decision ≡ block
unfolding evaluate check_budget ◌+ℤ◌ scale
over_buffer = refl

degrades : (evaluate (some (only_budget (ten_cents degrade_model))) (pos 101)).decision ≡ degrade
unfolding evaluate check_budget ◌+ℤ◌ scale
degrades = refl

should_hard_stop_lem_example :
    ((pos 0 ≢ pos 0)
      → should_hard_stop (pos 0) (pos 5) ≡ not (check_budget (pos 0) (pos 5)).allowed)
    × (pos 0 ≡ pos 0 → (check_budget (pos 0) (pos 5)).allowed ≡ true)
    × (pos 0 ≡ pos 0 → pos 0 ≤ℤ pos 5 → should_hard_stop (pos 0) (pos 5) ≡ true)
should_hard_stop_lem_example = should_hard_stop_lem (pos 0) (pos 5)

evaluate_as-decision_example :
    Decides
      (ten_cents hard_stop)
      (pos 101)
      (evaluate_as names (some (only_budget (ten_cents hard_stop))) (pos 101))
evaluate_as-decision_example =
    evaluate_as-decision names (only_budget (ten_cents hard_stop)) (ten_cents hard_stop) (pos 101)
      refl
