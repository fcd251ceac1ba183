-- ===== src/Governance/Validation/Tests.antt =====
-- Constraints that the validation takes and refuses.
use sentoris_proxy.Prelude.{◌≡◌, refl, none, some, [], false, err}
use sentoris_proxy.Prelude.Int.{pos, negsuc}
use sentoris_proxy.Governance.Constraints.{Constraints}
use sentoris_proxy.Governance.Validation.{
  validate_constraint_combination, negative_limit, hash_only_strict,
}

abbrev conflicting : Constraints
conflicting = record {
  reproducibility = some (record { mode = "strict"; seed = none });
  budget = some (record { limit_usd = pos 5; strategy = "hard_stop" });
  privacy =
      some
        (record { level = "hash_only"; strategy = ""; masked_fields = []; deterministic = false });
}

conflict_is_refused : validate_constraint_combination (some conflicting) ≡ err hash_only_strict
unfolding validate_constraint_combination
conflict_is_refused = refl

negative_limit_is_refused :
    validate_constraint_combination (
      some (record conflicting {
        budget = some (record { limit_usd = negsuc 0; strategy = "hard_stop" });
      }))
    ≡ err negative_limit
unfolding validate_constraint_combination
negative_limit_is_refused = refl
