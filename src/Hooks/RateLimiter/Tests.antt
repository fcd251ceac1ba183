-- ===== src/Hooks/RateLimiter/Tests.antt =====
-- A limit of two requests, and three requests of one session within a second.
use sentoris_proxy.Prelude.{
  ℕ, ◌+◌, ◌≡◌, arith, false, refl, min, none, some, List, [], ◌∷◌, length, lookup,
}
use sentoris_proxy.Domain.Value.{null}
use sentoris_proxy.Domain.Trace.{Trace, init, no_observations, no_constraints_applied}
use sentoris_proxy.Hooks.RateLimiter.{RateLimiter, new_rate_limiter_hook_with_limit, limit_of}
use sentoris_proxy.Hooks.RateLimiter.Laws.{admitted, admitted_within_minute}

abbrev one_trace : Trace
one_trace = record {
  trace_id = "a";
  parent_id = none;
  session_id = some "s";
  execution_state = init;
  model = "m";
  input = record { prompt = null; params = none; metadata = none; seed = none };
  output = record { response = none; truncated = false; finish_reason = "" };
  observations = no_observations;
  proofs = record { audit_signature = ""; proof_type = ""; canonicalization_method = "" };
  constraints_applied = no_constraints_applied;
  created_at = 1;
  ttl_expire_at = none;
  extensions = none;
}

abbrev limiter : RateLimiter
limiter = new_rate_limiter_hook_with_limit 2

abbrev later : List ℕ
later = 6 ∷ (7 ∷ [])

admitted_within_minute_example :
    (admitted (5 ∷ later) one_trace limiter).1 ≡ min (length later + 1) (limit_of limiter)
unfolding new_rate_limiter_hook_with_limit lookup
admitted_within_minute_example =
    admitted_within_minute limiter one_trace 5 later refl (omega arith, (omega arith, tt))

two_of_three : (admitted (5 ∷ later) one_trace limiter).1 ≡ 2
unfolding new_rate_limiter_hook_with_limit limit_of
two_of_three = admitted_within_minute_example
