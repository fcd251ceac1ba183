-- ===== src/Transport/Headers/Tests.antt =====
-- A request with a budget and two capabilities, one of which is supported.
use sentoris_proxy.Prelude.{◌≡◌, refl, true, false, none, some, List, [], ◌∷◌, String, contains}
use sentoris_proxy.Prelude.Texts.{trim_space}
use sentoris_proxy.Prelude.Int.{pos}
use sentoris_proxy.Domain.Trace.{allow}
use sentoris_proxy.Governance.Evaluator.{evaluate}
use sentoris_proxy.Transport.Headers.{
  SentorisHeaders, to_constraints, negotiate_capabilities, parse_capabilities,
}
use sentoris_proxy.Transport.Headers.Laws.{evaluate-to_constraints}

abbrev wanted : List String
wanted = "audit" ∷ ("replay" ∷ [])

abbrev offered : List String
offered = "streaming" ∷ ("audit" ∷ [])

parsed : parse_capabilities " audit, replay ," ≡ wanted
unfolding parse_capabilities trim_space
parsed = refl

agreed : negotiate_capabilities wanted offered ≡ "audit" ∷ []
unfolding negotiate_capabilities contains
agreed = refl

abbrev limited : SentorisHeaders
limited = record {
  version = "1.0";
  capabilities = wanted;
  action = "";
  baseline_ref = "";
  budget_limit = pos 1;
  budget_strategy = "hard_stop";
  privacy_level = "masked";
  diff_output = false;
  focus_fields = [];
  override_model = "";
  seed = none;
  repeatability = true;
  repeatability_id = "";
}

evaluate-to_constraints_example :
    (evaluate (some (to_constraints limited)) (pos 0)).decision ≡ allow
evaluate-to_constraints_example = evaluate-to_constraints limited
