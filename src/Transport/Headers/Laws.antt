-- ===== src/Transport/Headers/Laws.antt =====
-- What the headers promise the evaluation, and the capabilities that are agreed on.
use sentoris_proxy.Prelude.{◌≡◌, ◌↔◌, true, some, List, [], ◌∷◌, String, contains, arith, In}
use sentoris_proxy.Prelude.Int.{pos, ◌≤ℤ◌}
use sentoris_proxy.Domain.Trace.{allow}
use sentoris_proxy.Governance.Constraints.{get_budget_limit}
use sentoris_proxy.Governance.Evaluator.{evaluate}
use sentoris_proxy.Governance.Evaluator.Laws.{evaluate-zero_cost}
use sentoris_proxy.Transport.Headers.{SentorisHeaders, to_constraints, negotiate_capabilities}

limit_nonneg : (h : SentorisHeaders) → pos 0 ≤ℤ get_budget_limit (to_constraints h)
unfolding get_budget_limit to_constraints
limit_nonneg h = ground arith

-- The policy check of a request made from headers runs at a cost of zero, and so allows every
-- request, whatever the headers say.
pub evaluate-to_constraints :
    (h : SentorisHeaders) → (evaluate (some (to_constraints h)) (pos 0)).decision ≡ allow
evaluate-to_constraints h = evaluate-zero_cost (to_constraints h) (limit_nonneg h)

-- What is agreed on is what is both asked for and supported.
pub negotiate_capabilities_iff :
    (requested supported : List String) (c : String)
    → In c (negotiate_capabilities requested supported)
      ↔ (In c requested × (contains supported c ≡ true))
unfolding negotiate_capabilities
negotiate_capabilities_iff requested supported c =
    (negotiated requested, λ h. agreed requested h.0 h.1)
  where
    negotiated :
        (rs : List String)
        → In c (negotiate_capabilities rs supported)
        → In c rs × (contains supported c ≡ true)
    negotiated [] h = absurd h
    negotiated (r ∷ rs) h = ground (arith, negotiated rs)

    agreed :
        (rs : List String)
        → In c rs
        → contains supported c ≡ true
        → In c (negotiate_capabilities rs supported)
    agreed [] h e = h
    agreed (r ∷ rs) h e = ground (arith, agreed rs)
