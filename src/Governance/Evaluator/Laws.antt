-- ===== src/Governance/Evaluator/Laws.antt =====
-- What the evaluators decide, and how the two budget tests relate.
use sentoris_proxy.Prelude.{
  ◌+◌, ◌*◌, ◌<◌, ◌≡◌, refl, ◌∙◌, ◌≢◌, ◌↔◌, true, false, not, Option, none, some, eq_iff, arith,
}
use sentoris_proxy.Prelude.Int.{
  ℤ, pos, ◌≤ℤ◌, ◌<ℤ◌, pos_part, neg_part, scale, +ℤ_parts, -ℤ_parts, scale_parts,
}
use sentoris_proxy.Governance.Constraints.{
  Constraints, BudgetConstraint, degrade_model, soft_alert, get_budget_limit,
}
use sentoris_proxy.Domain.Trace.{allow, block, degrade, switch_model}
use sentoris_proxy.Governance.Evaluator.{
  is_zero, effective_milli, check_budget, should_hard_stop, EvaluationResult, CheckNames, initial,
  eval_budget, eval_privacy, eval_reproducibility, evaluate_as, evaluate,
}

effective_milli_parts :
    (limit : ℤ)
    → pos_part (effective_milli limit) + 1001 * neg_part limit
      ≡ neg_part (effective_milli limit) + 1001 * pos_part limit
unfolding effective_milli
effective_milli_parts limit = omega (
  arith,
  +ℤ_parts (scale 1000 limit) (scale 1 limit),
  scale_parts 1000 limit,
  scale_parts 1 limit,
)

-- A positive limit allows exactly the costs below the limit and a tenth of a percent of it; what then
-- remains is positive.
pub check_budget_lem :
    (limit cost : ℤ)
    → pos 0 <ℤ limit
    → let r = check_budget limit cost in
      ((r.allowed ≡ true) ↔ (
        1000 * pos_part cost + 1001 * neg_part limit
        < 1001 * pos_part limit + 1000 * neg_part cost))
      × (r.allowed ≡ true → pos 0 <ℤ r.remaining_milli)
unfolding check_budget is_zero
check_budget_lem limit cost h =
    let e = effective_milli_parts limit in
    let c = scale_parts 1000 cost in
    ground (arith, -ℤ_parts (effective_milli limit) (scale 1000 cost))

-- Where the limit is not zero, `ShouldHardStop` holds exactly when the budget check refuses. A limit
-- of zero means no limit to the check, and yet `ShouldHardStop` holds of every cost from zero on.
pub should_hard_stop_lem :
    (limit cost : ℤ)
    → ((limit ≢ pos 0) → should_hard_stop limit cost ≡ not (check_budget limit cost).allowed)
      × (limit ≡ pos 0 → (check_budget limit cost).allowed ≡ true)
      × (limit ≡ pos 0 → pos 0 ≤ℤ cost → should_hard_stop limit cost ≡ true)
unfolding check_budget is_zero should_hard_stop
should_hard_stop_lem limit cost =
    let c = scale_parts 1000 cost in
    let e = effective_milli_parts limit in (ground arith, ground arith, ground arith)

-- The part of the evaluation that the privacy and reproducibility constraints have no say in.
pub record SameDecision (r s : EvaluationResult) : Type 0 where
  pub same_decision : r.decision ≡ s.decision
  pub same_error : r.error ≡ s.error
  pub same_action : r.degrade_action ≡ s.degrade_action

eval_privacy-SameDecision :
    (names : CheckNames) (c : Constraints) (r : EvaluationResult)
    → SameDecision (eval_reproducibility names c.reproducibility (eval_privacy names c.privacy r)) r
unfolding eval_privacy eval_reproducibility
eval_privacy-SameDecision names c r = ground arith

-- What a result says of a budget and a cost.
abbrev pub Decides : BudgetConstraint → ℤ → EvaluationResult → Type 0
Decides b cost r =
    ((r.decision ≡ block) ↔ (
      ((check_budget b.limit_usd cost).allowed ≡ false)
      × (b.strategy ≢ degrade_model)
      × (b.strategy ≢ soft_alert)))
    × ((r.decision ≡ degrade)
        ↔ (((check_budget b.limit_usd cost).allowed ≡ false) × (b.strategy ≡ degrade_model)))
    × ((r.decision ≡ block) ↔ (r.error ≢ none))
    × ((r.decision ≡ degrade) ↔ (r.degrade_action ≡ some switch_model))

eval_budget-Decides :
    (names : CheckNames) (b : BudgetConstraint) (cost : ℤ)
    → Decides b cost (eval_budget names cost (some b) initial)
unfolding eval_budget initial
eval_budget-Decides names b cost =
    ground (arith, eq_iff b.strategy degrade_model, eq_iff b.strategy soft_alert)

Decides-SameDecision :
    (b : BudgetConstraint) (cost : ℤ) (r s : EvaluationResult)
    → SameDecision r s
    → Decides b cost s
    → Decides b cost r
Decides-SameDecision b cost r s same d =
    rw (same.same_decision, same.same_error, same.same_action) d

-- A request is blocked exactly when a budget is given that refuses the cost, and its strategy is
-- neither to degrade nor to alert; it is degraded exactly when the budget refuses the cost and the
-- strategy is to degrade. An error is reported with a block and only then, and the model is switched
-- with a degradation and only then.
pub evaluate_as-decision :
    (names : CheckNames) (c : Constraints) (b : BudgetConstraint) (cost : ℤ)
    → c.budget ≡ some b
    → Decides b cost (evaluate_as names (some c) cost)
unfolding evaluate_as
evaluate_as-decision names c b cost e = rw e (
    Decides-SameDecision b cost _ _ (eval_privacy-SameDecision names c _)
      (eval_budget-Decides names b cost))

limit_of : Option BudgetConstraint → ℤ
limit_of o = elim o [ none ↦ pos 0 | some b ↦ b.limit_usd ]

check_budget-zero_cost : (limit : ℤ) → pos 0 ≤ℤ limit → (check_budget limit (pos 0)).allowed ≡ true
unfolding check_budget is_zero
check_budget-zero_cost limit h =
    let e = effective_milli_parts limit in let c = scale_parts 1000 (pos 0) in ground arith

eval_budget-zero_cost :
    (names : CheckNames) (o : Option BudgetConstraint)
    → pos 0 ≤ℤ limit_of o
    → (eval_budget names (pos 0) o initial).decision ≡ allow
unfolding eval_budget initial limit_of
eval_budget-zero_cost names none h = refl
eval_budget-zero_cost names (some b) h = rw (check_budget-zero_cost b.limit_usd h) refl

evaluate_as-zero_cost :
    (names : CheckNames) (c : Constraints)
    → pos 0 ≤ℤ get_budget_limit c
    → (evaluate_as names (some c) (pos 0)).decision ≡ allow
unfolding evaluate_as get_budget_limit limit_of
evaluate_as-zero_cost names c h =
    (eval_privacy-SameDecision names c _).same_decision ∙ eval_budget-zero_cost names c.budget h

-- Nothing has been spent at a cost of zero, and every limit that is not negative allows it.
pub evaluate-zero_cost :
    (c : Constraints) → pos 0 ≤ℤ get_budget_limit c → (evaluate (some c) (pos 0)).decision ≡ allow
unfolding evaluate
evaluate-zero_cost c h = evaluate_as-zero_cost _ c h
