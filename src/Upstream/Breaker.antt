-- ===== src/Upstream/Breaker.antt =====
-- `CircuitBreaker` of internal/adapter/upstream/fault_tolerant_client.go. The world `W` is all that
-- lies outside the breaker; `clock` reads `time.Now()` from it, in nanoseconds.
pub mod Laws
mod Tests
use sentoris_proxy.Prelude.{
  ℕ, zero, suc, ◌+◌, ◌-◌, Bool, true, false, Result, ok, err, ltb, leb, if◌then◌else◌,
}

pub data CircuitState : Type 0 where
  closed open_state half_open : CircuitState

pub record CircuitBreaker : Type 0 where
  pub failure_threshold : ℕ
  pub timeout : ℕ
  pub state : CircuitState
  pub failure_count : ℕ
  pub last_failure : ℕ

pub new_circuit_breaker : ℕ → ℕ → CircuitBreaker
new_circuit_breaker threshold timeout = record {
  failure_threshold = threshold;
  timeout = timeout;
  state = closed;
  failure_count = 0;
  last_failure = 0;
}

-- An error of `Execute`: its own refusal, or what the function returned.
pub data BreakerError {ℓ} (E : Type ℓ) : Type ℓ where
  breaker_open : BreakerError E
  failed : E → BreakerError E

-- The first `if`: the state in which the function is called, or none for the refusal.
admits : CircuitState → (elapsed timeout : ℕ) → Bool
admits open_state elapsed timeout = ltb timeout elapsed
admits _ elapsed timeout = true

entry_state : CircuitState → CircuitState
entry_state open_state = half_open
entry_state s = s

-- What follows a non-nil error, at the time that is read after the call.
on_failure : CircuitBreaker → ℕ → CircuitBreaker
on_failure cb now =
    let count = cb.failure_count + 1 in
    record cb {
      failure_count = count;
      last_failure = now;
      state = if leb cb.failure_threshold count then open_state else cb.state;
    }

close_half_open : CircuitState → CircuitState
close_half_open half_open = closed
close_half_open s = s

on_success : CircuitBreaker → CircuitBreaker
unfolding close_half_open
on_success cb = record cb { state = close_half_open cb.state; failure_count = 0 }

module _ {W E A : Type 0} (clock : W → ℕ) where
  -- The rest of `Execute` after `fn()` has returned.
  settle : CircuitBreaker → W × Result E A → CircuitBreaker × W × Result (BreakerError E) A
  unfolding on_failure on_success
  settle cb (w, ok a) = (on_success cb, w, ok a)
  settle cb (w, err e) = (on_failure cb (clock w), w, err (failed e))

  pub execute :
      CircuitBreaker → (W → W × Result E A) → W → CircuitBreaker × W × Result (BreakerError E) A
  unfolding settle admits entry_state
  execute cb fn w =
      if admits cb.state (clock w - cb.last_failure) cb.timeout
      then settle (record cb { state = entry_state cb.state }) (fn w)
      else (cb, w, err breaker_open)

  -- The same function handed to the breaker `n` times, one call after another.
  pub execute_times : ℕ → CircuitBreaker → (W → W × Result E A) → W → CircuitBreaker × W
  execute_times zero cb fn w = (cb, w)
  execute_times (suc n) cb fn w = let (cb', w', _) = execute cb fn w in execute_times n cb' fn w'
