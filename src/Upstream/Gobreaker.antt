-- ===== src/Upstream/Gobreaker.antt =====
-- `CircuitBreakerClient` of internal/adapter/upstream/circuit_breaker.go. The breaker is a library of
-- another project: its `Execute` is a parameter, and so are the wrapped client and `time.Sleep`.
mod Laws
mod Tests
use sentoris_proxy.Prelude.{
  ℕ, zero, suc, ◌+◌, ◌*◌, Bool, ◌&&◌, Option, none, some, Result, ok, err, leb, if◌then◌else◌,
}

-- The counts that the library hands to `ReadyToTrip`.
pub record Counts : Type 0 where
  pub requests : ℕ
  pub total_failures : ℕ

-- `counts.Requests >= 5 && failureRatio >= 0.5`, with the quotient multiplied out.
pub ready_to_trip : Counts → Bool
ready_to_trip counts = leb 5 counts.requests && leb counts.requests (2 * counts.total_failures)

-- `failed to ... after %d retries: %w`.
pub data RetryError (E : Type 0) : Type 0 where
  after_retries : ℕ → Option E → RetryError E

-- The body of the loop once the call has answered: return the value, or go on by `again`.
after_call :
    {W E A : Type 0}
    → (E → W → W × Result (RetryError E) A)
    → W × Result E A
    → W × Result (RetryError E) A
after_call again (w, ok value) = (w, ok value)
after_call again (w, err e) = again e w

module _ {W : Type 0} (sleep : ℕ → W → W) (max_retries retry_delay : ℕ) where
  -- `if retry <= c.maxRetries { time.Sleep(c.retryDelay) }`.
  pub pause : ℕ → W → W
  pause retry w = if leb retry max_retries then sleep retry_delay w else w

  -- The loop `for retry <= c.maxRetries`, with `rounds` rounds left.
  pub retry_from :
      {E A : Type 0}
      → (rounds retry : ℕ) → Option E
      → (W → W × Result E A)
      → W
      → W × Result (RetryError E) A
  unfolding pause after_call
  retry_from zero retry last call w = (w, err (after_retries max_retries last))
  retry_from (suc rounds) retry last call w =
      after_call (λ e w'. retry_from rounds (retry + 1) (some e) call (pause (retry + 1) w'))
        (call w)

  pub with_retries : {E A : Type 0} → (W → W × Result E A) → W → W × Result (RetryError E) A
  unfolding retry_from
  with_retries call w = retry_from (max_retries + 1) 0 none call w

  -- The three calls of the client. Only two of them pass through the breaker.
  pub get_pricing :
      {E Model Price : Type 0}
      → (Model → W → W × Result E Price)
      → Model
      → W
      → W × Result (RetryError E) Price
  unfolding with_retries
  get_pricing client model = with_retries (client model)

  pub chat :
      {E Request Reply : Type 0}
      → ((W → W × Result E Reply) → W → W × Result E Reply)
      → (Request → W → W × Result E Reply)
      → Request
      → W
      → W × Result (RetryError E) Reply
  unfolding with_retries
  chat execute client req = with_retries (execute (client req))

  pub stream_chat :
      {E Request Stream : Type 0}
      → ((W → W × Result E Stream) → W → W × Result E Stream)
      → (Request → W → W × Result E Stream)
      → Request
      → W
      → W × Result (RetryError E) Stream
  unfolding with_retries
  stream_chat execute client req = with_retries (execute (client req))
