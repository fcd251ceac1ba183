-- ===== src/Upstream/FaultTolerant/Laws.antt =====
-- How often the client is tried, how long the loop waits, and what a caller gets.
use sentoris_proxy.Prelude.{
  ℕ, zero, suc, ◌+◌, ◌*◌, ◌≤◌, ◌<◌, ◌≡◌, refl, ◌≢◌, inl, inr, true, false, Option, none, some,
  Result, ok, err, arith, ◌⊎◌, is_ok, if◌then◌else◌, Bool-cases,
}
use sentoris_proxy.Upstream.Counting.{IsCounted, call_effect}
use sentoris_proxy.Upstream.Breaker.{CircuitBreaker, BreakerError}
use sentoris_proxy.Upstream.Breaker.Laws.{execute_answer, execute-failure_count}
use sentoris_proxy.Upstream.FaultTolerant.{
  UpstreamError, is_retryable, retry_step, panics, unwrap, attempts, chat,
}

-- The waits of `rest` attempts that all fail, after `i` others.
unfoldable pub backoff_total : (rest i : ℕ) → ℕ
backoff_total zero i = 0
backoff_total (suc rest) i = (i + 1) * retry_step + backoff_total rest (i + 1)

Call-cases :
    {W A : Type 0} (p : W × Result UpstreamError A)
    → ((w' : W) × (a : A) × (p ≡ (w', ok a))) ⊎ ((w' : W) × (e : UpstreamError) × (p ≡ (w', err e)))
Call-cases (w', ok a) = inl (w', a, refl)
Call-cases (w', err e) = inr (w', e, refl)

module _ {W A : Type 0} (call : W → W × Result UpstreamError A) (sleep : ℕ → W → W) where
  attempts_on_ok :
      (rest i : ℕ) (last : Option UpstreamError) (w w' : W) (a : A)
      → call w ≡ (w', ok a)
      → attempts call sleep (suc rest) i last w ≡ (w', ok (some a))
  unfolding attempts
  attempts_on_ok rest i last w w' a e = rw (e, attempts) refl

  attempts_on_err :
      (rest i : ℕ) (last : Option UpstreamError) (w w' : W) (x : UpstreamError)
      → call w ≡ (w', err x)
      → attempts call sleep (suc rest) i last w ≡ (
          if is_retryable x
          then attempts call sleep rest (i + 1) (some x) (sleep ((i + 1) * retry_step) w')
          else (w', err x))
  unfolding attempts
  attempts_on_err rest i last w w' x e = rw (e, attempts) refl

  module _ (calls slept : W → ℕ) (counted : IsCounted call sleep calls slept) where
    open counted use {sleep_calls, sleep_slept}

    -- The loop makes at most `rest` calls, and sleeps no longer than the growing pauses of 100 ms,
    -- 200 ms, ... that follow them.
    pub attempts_bounded :
        (rest i : ℕ) (last : Option UpstreamError) (w : W)
        → let w' = (attempts call sleep rest i last w).0 in
          (calls w' ≤ calls w + rest) × (slept w' ≤ slept w + backoff_total rest i)
    unfolding backoff_total
    attempts_bounded zero i last w = unfold attempts in omega arith
    attempts_bounded (suc rest) i last w = elim (Call-cases (call w)) [
      | inl (w', a, e) ↦
          let c = call_effect call sleep calls slept counted w w' (ok a) e in
          rw (attempts_on_ok rest i last w w' a e) (omega arith)
      | inr (w', x, e) ↦
          let c = call_effect call sleep calls slept counted w w' (err x) e in
          let d = (i + 1) * retry_step in
          rw (attempts_on_err rest i last w w' x e) (elim (Bool-cases (is_retryable x)) [
            | inl t ↦ rw t (
                omega (
                  arith,
                  sleep_calls d w',
                  sleep_slept d w',
                  attempts_bounded rest (i + 1) (some x) (sleep d w'),
                ))
            | inr f ↦ rw f (omega arith)
          ])
    ]

    -- A client that always fails with an error to be retried is called exactly `rest` times, with
    -- every pause taken, and if there was an attempt the last error is returned.
    pub attempts_exhausted :
        ((w : W)
          → (w' : W) × (x : UpstreamError) × (call w ≡ (w', err x)) × (is_retryable x ≡ true))
        → (rest i : ℕ) (last : Option UpstreamError) (w : W)
        → let (w', r) = attempts call sleep rest i last w in
          (calls w' ≡ calls w + rest)
          × (slept w' ≡ slept w + backoff_total rest i)
          × (0 < rest → is_ok r ≡ false)
    unfolding backoff_total
    attempts_exhausted always zero i last w =
        unfold attempts in (omega arith, omega arith, λ h. absurd (omega arith))
    attempts_exhausted always (suc rest) i last w =
        let (w', x, e, t) = always w in
        let c = call_effect call sleep calls slept counted w w' (err x) e in
        let d = (i + 1) * retry_step in
        rw (attempts_on_err rest i last w w' x e) (
          rw t (
            let ih = attempts_exhausted always rest (i + 1) (some x) (sleep d w') in
            (
              omega (arith, sleep_calls d w', ih.0),
              omega (arith, sleep_slept d w', ih.1),
              λ _. last_error rest (i + 1) x (sleep d w') ih.2,
            )))
      where
        last_error :
            (rest i : ℕ) (x : UpstreamError) (w : W)
            → (0 < rest → is_ok (attempts call sleep rest i (some x) w).1 ≡ false)
            → is_ok (attempts call sleep rest i (some x) w).1 ≡ false
        last_error zero i x w h = unfold attempts in refl
        last_error (suc rest) i x w h = h (omega arith)

  attempts_answer_step :
      (rest i : ℕ) (last : Option UpstreamError) (w : W)
      → ((x : UpstreamError) (w' : W) → (attempts call sleep rest (i + 1) (some x) w').1 ≢ ok none)
      → (attempts call sleep (suc rest) i last w).1 ≢ ok none
  attempts_answer_step rest i last w later = elim (Call-cases (call w)) [
    | inl (w', a, e) ↦ rw (attempts_on_ok rest i last w w' a e) (λ h. cc)
    | inr (w', y, e) ↦
        rw (attempts_on_err rest i last w w' y e) (elim (Bool-cases (is_retryable y)) [
          | inl t ↦ rw t (later y (sleep ((i + 1) * retry_step) w'))
          | inr f ↦ rw f (λ h. cc)
        ])
  ]

  -- After a first error the loop never returns a nil response with a nil error.
  attempts_answer :
      (rest i : ℕ) (x : UpstreamError) (w : W) → (attempts call sleep rest i (some x) w).1 ≢ ok none
  attempts_answer zero i x w = unfold attempts in λ h. cc
  attempts_answer (suc rest) i x w =
      attempts_answer_step rest i (some x) w (attempts_answer rest (i + 1))

  -- With at least one attempt, the type assertion at the end of `Chat` never panics.
  pub chat_never_panics :
      (clock : W → ℕ) (max_retries : ℕ) (cb : CircuitBreaker) (w : W)
      → 0 < max_retries
      → (chat call sleep clock max_retries cb w).2 ≢ panics
  unfolding chat
  chat_never_panics clock zero cb w h p = absurd (omega arith)
  chat_never_panics clock (suc n) cb w h p =
      attempts_answer_step n 0 none w (attempts_answer n 1)
        (execute_answer clock cb (attempts call sleep (suc n) 0 none) w none (unwrap_panics _ p))
    where
      unwrap_panics :
          (r : Result (BreakerError UpstreamError) (Option A)) → unwrap r ≡ panics → r ≡ ok none
      unwrap_panics (ok (some a)) e = unfold unwrap in cc
      unwrap_panics (ok none) e = refl
      unwrap_panics (err x) e = unfold unwrap in cc

  -- All the attempts of one `Chat` count as one failure of the breaker at most.
  pub chat-failure_count :
      (clock : W → ℕ) (max_retries : ℕ) (cb : CircuitBreaker) (w : W)
      → (chat call sleep clock max_retries cb w).0.failure_count ≤ cb.failure_count + 1
  unfolding chat
  chat-failure_count clock max_retries cb w =
      execute-failure_count clock cb (attempts call sleep max_retries 0 none) w
