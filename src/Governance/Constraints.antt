-- ===== src/Governance/Constraints.antt =====
-- internal/domain/constraints.go and the constants of internal/domain/trace.go. A field of a string
-- type can hold any text; an optional structure is a nil pointer or a value. `Extensions` is read by
-- nothing here and is left out.
use sentoris_proxy.Prelude.{Bool, Option, none, some, List, String, str_eq, if◌then◌else◌}
use sentoris_proxy.Prelude.Int.{ℤ, pos}

abbrev pub privacy_raw : String
privacy_raw = "raw"

abbrev pub privacy_masked : String
privacy_masked = "masked"

abbrev pub privacy_hash_only : String
privacy_hash_only = "hash_only"

abbrev pub reproducibility_none : String
reproducibility_none = "none"

abbrev pub reproducibility_bounded : String
reproducibility_bounded = "bounded"

abbrev pub reproducibility_strict : String
reproducibility_strict = "strict"

abbrev pub hard_stop : String
hard_stop = "hard_stop"

abbrev pub degrade_model : String
degrade_model = "degrade_model"

abbrev pub soft_alert : String
soft_alert = "soft_alert"

pub record ReproducibilityConstraint : Type 0 where
  pub mode : String
  pub seed : Option ℤ

pub record BudgetConstraint : Type 0 where
  pub limit_usd : ℤ
  pub strategy : String

pub record PrivacyConstraint : Type 0 where
  pub level : String
  pub strategy : String
  pub masked_fields : List String
  pub deterministic : Bool

pub record Constraints : Type 0 where
  pub reproducibility : Option ReproducibilityConstraint
  pub budget : Option BudgetConstraint
  pub privacy : Option PrivacyConstraint

-- `if x != nil && x.f != "" { return x.f }; return default`.
or_default : String → String → String
or_default value default = if str_eq value "" then default else value

unfoldable pub get_privacy_level : Constraints → String
unfolding or_default
get_privacy_level c = elim c.privacy [
  | none ↦ privacy_raw
  | some p ↦ or_default p.level privacy_raw
]

unfoldable pub get_budget_limit : Constraints → ℤ
get_budget_limit c = elim c.budget [ none ↦ pos 0 | some b ↦ b.limit_usd ]

unfoldable pub get_budget_strategy : Constraints → String
unfolding or_default
get_budget_strategy c = elim c.budget [
  | none ↦ hard_stop
  | some b ↦ or_default b.strategy hard_stop
]

unfoldable pub get_reproducibility_mode : Constraints → String
unfolding or_default
get_reproducibility_mode c = elim c.reproducibility [
  | none ↦ reproducibility_none
  | some r ↦ or_default r.mode reproducibility_none
]
