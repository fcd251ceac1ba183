-- ===== src/Upstream/FaultTolerant.antt =====
-- `FaultTolerantUpstreamClient` of internal/adapter/upstream/fault_tolerant_client.go. The wrapped
-- client and `time.Sleep` act on a world `W`, from which `clock` reads the time: all are parameters.
mod Laws
mod Search
mod Tests
use sentoris_proxy.Prelude.{
  ℕ, zero, suc, ◌+◌, ◌-◌, ◌*◌, Bool, true, false, ◌&&◌, ◌||◌, Option, none, some, List, [], ◌∷◌,
  Result, ok, err, ltb, leb, ◌==◌, length, if◌then◌else◌, codes,
}
use sentoris_proxy.Upstream.Breaker.{
  CircuitBreaker, new_circuit_breaker, BreakerError, breaker_open, failed, execute,
}

-- What the code asks of an `error`: the bytes of its text, and what `errors.Is` reports of it.
pub record UpstreamError : Type 0 where
  pub message : List ℕ
  pub deadline_exceeded : Bool
  pub canceled : Bool

-- `s == substr`.
pub same_bytes : List ℕ → List ℕ → Bool
same_bytes [] [] = true
same_bytes [] (y ∷ ys) = false
same_bytes (x ∷ xs) [] = false
same_bytes (x ∷ xs) (y ∷ ys) = x == y && same_bytes xs ys

-- `s[i:i+len(substr)] == substr`, where `s` begins at the place `i`.
pub matches_here : List ℕ → List ℕ → Bool
matches_here s [] = true
matches_here [] (y ∷ ys) = false
matches_here (x ∷ xs) (y ∷ ys) = x == y && matches_here xs ys

-- The loop of `containsHelper`, with the number of places `i` that are left.
pub contains_from : ℕ → List ℕ → List ℕ → Bool
contains_from zero s substr = false
contains_from (suc rounds) [] substr = matches_here [] substr
contains_from (suc rounds) (x ∷ xs) substr =
    matches_here (x ∷ xs) substr || contains_from rounds xs substr

pub contains_helper : List ℕ → List ℕ → Bool
unfolding contains_from matches_here
contains_helper s substr = contains_from (length s + 1 - length substr) s substr

pub contains_bytes : List ℕ → List ℕ → Bool
unfolding same_bytes contains_helper
contains_bytes s substr =
    leb (length substr) (length s)
    && (same_bytes s substr || (ltb 0 (length s) && contains_helper s substr))

-- `isRetryable` of an error that is not nil.
pub is_retryable : UpstreamError → Bool
unfolding contains_bytes
is_retryable e =
    e.deadline_exceeded
    || (e.canceled
        || (contains_bytes e.message (codes "timeout")
            || (contains_bytes e.message (codes "temporary")
                || contains_bytes e.message (codes "connection reset"))))

abbrev pub retry_step : ℕ
retry_step = 100_000_000

-- `return nil, lastErr`: with no error it is a nil response and a nil error.
give_up : {A : Type 0} → Option UpstreamError → Result UpstreamError (Option A)
give_up none = ok none
give_up (some e) = err e

-- What `Chat` hands back. `result.(*ChatResponse)` panics on a nil interface.
pub data ChatOutcome (A : Type 0) : Type 0 where
  response : A → ChatOutcome A
  failure : BreakerError UpstreamError → ChatOutcome A
  panics : ChatOutcome A

unwrap : {A : Type 0} → Result (BreakerError UpstreamError) (Option A) → ChatOutcome A
unwrap (ok (some a)) = response a
unwrap (ok none) = panics
unwrap (err e) = failure e

-- The body of the loop once the client has answered: return, go on by `again`, or break.
after_call :
    {W A : Type 0}
    → (UpstreamError → W → W × Result UpstreamError (Option A))
    → W × Result UpstreamError A
    → W × Result UpstreamError (Option A)
after_call again (w, ok resp) = (w, ok (some resp))
after_call again (w, err e) = if is_retryable e then again e w else (w, err e)

module _ {W A : Type 0} (call : W → W × Result UpstreamError A) (sleep : ℕ → W → W) where
  -- The loop over the attempts: `rest` of them are left, and `i` are done.
  pub attempts : (rest i : ℕ) → Option UpstreamError → W → W × Result UpstreamError (Option A)
  unfolding give_up after_call
  attempts zero i last w = (w, give_up last)
  attempts (suc rest) i last w =
      after_call (λ e w'. attempts rest (i + 1) (some e) (sleep ((i + 1) * retry_step) w')) (call w)

  -- `Chat`: the whole loop is one call to the breaker.
  pub chat :
      (clock : W → ℕ) (max_retries : ℕ) → CircuitBreaker → W → CircuitBreaker × W × ChatOutcome A
  unfolding attempts unwrap
  chat clock max_retries cb w =
      let (cb', w', r) = execute clock cb (attempts max_retries 0 none) w in (cb', w', unwrap r)

-- The breaker of a new client, and its number of attempts.
pub new_breaker : CircuitBreaker
new_breaker = new_circuit_breaker 5 30_000_000_000

abbrev pub default_retries : ℕ
default_retries = 3
