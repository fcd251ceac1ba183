-- ===== src/Upstream/Breaker/Tests.antt =====
-- Runs of the breaker, in a world that is a clock: a failing call takes ten ticks.
use sentoris_proxy.Prelude.{ℕ, ◌+◌, ◌<◌, ◌≡◌, refl, Result, err, arith}
use sentoris_proxy.Upstream.Breaker.{
  closed, open_state, CircuitBreaker, new_circuit_breaker, breaker_open, execute, execute_times,
}
use sentoris_proxy.Upstream.Breaker.Laws.{
  IsConsistent, execute-IsConsistent, execute_refuses, execute_times_opens,
}

abbrev ticks : ℕ → ℕ
ticks w = w

abbrev failing : ℕ → ℕ × Result ℕ ℕ
failing w = (w + 10, err 7)

abbrev fresh : CircuitBreaker
fresh = new_circuit_breaker 2 100

abbrev opened : CircuitBreaker
opened = record {
  failure_threshold = 2;
  timeout = 100;
  state = open_state;
  failure_count = 2;
  last_failure = 50;
}

two_failures_open : (execute_times ticks 2 fresh failing 0).0.state ≡ open_state
unfolding execute_times execute new_circuit_breaker
two_failures_open = refl

execute-IsConsistent_example : IsConsistent (execute ticks opened failing 60).0
execute-IsConsistent_example = execute-IsConsistent ticks opened failing 60 (ground arith)

execute_refuses_example : execute ticks opened failing 150 ≡ (opened, 150, err breaker_open)
execute_refuses_example = execute_refuses ticks opened failing 150 refl (omega arith)

execute_times_opens_example :
    let cb' = (execute_times ticks 2 fresh failing 0).0 in
    (2 < 2 → (cb'.state ≡ closed) × (cb'.failure_count ≡ 2))
    × (0 < 2 → ◌≡◌ {A = ℕ} 2 2 → cb'.state ≡ open_state)
unfolding new_circuit_breaker
execute_times_opens_example =
    execute_times_opens ticks failing (λ w. (w + 10, 7, refl)) 2 fresh 0 refl
