-- ===== src/Upstream/Breaker/Laws.antt =====
-- What the breaker of fault_tolerant_client.go keeps, and when it opens, refuses and closes.
use sentoris_proxy.Prelude.{
  ℕ, zero, suc, ◌+◌, ◌-◌, ◌≤◌, ◌<◌, ◌≡◌, refl, inl, inr, true, false, Result, ok, err, arith, leb,
  is_ok, Bool-cases,
}
use sentoris_proxy.Upstream.Breaker.{
  CircuitState, closed, open_state, half_open, CircuitBreaker, new_circuit_breaker, BreakerError,
  breaker_open, failed, admits, entry_state, on_failure, on_success, settle, execute, execute_times,
}

-- A closed breaker has counted fewer failures than its threshold, any other at least as many.
pub record IsConsistent (cb : CircuitBreaker) : Type 0 where
  pub closed_below : cb.state ≡ closed → cb.failure_count < cb.failure_threshold
  pub open_reached : cb.state ≡ open_state → cb.failure_threshold ≤ cb.failure_count
  pub half_open_reached : cb.state ≡ half_open → cb.failure_threshold ≤ cb.failure_count
  pub threshold_pos : 0 < cb.failure_threshold

new_circuit_breaker-IsConsistent :
    (threshold timeout : ℕ) → 0 < threshold → IsConsistent (new_circuit_breaker threshold timeout)
unfolding new_circuit_breaker
new_circuit_breaker-IsConsistent threshold timeout h = ground arith

module _ {W E A : Type 0} (clock : W → ℕ) where
  settle-IsConsistent :
      (cb : CircuitBreaker) (s : CircuitState) (r : W × Result E A)
      → (entry_state cb.state ≡ s)
      → IsConsistent cb
      → IsConsistent (settle clock (record cb { state = s }) r).0
  unfolding settle entry_state on_success on_failure
  settle-IsConsistent cb s (w, ok a) e h = ground arith
  settle-IsConsistent cb s (w, err x) e h = ground arith

  -- Whatever the function does, a call of `Execute` keeps the breaker consistent.
  pub execute-IsConsistent :
      (cb : CircuitBreaker) (fn : W → W × Result E A) (w : W)
      → IsConsistent cb
      → IsConsistent (execute clock cb fn w).0
  unfolding execute
  execute-IsConsistent cb fn w h =
      elim (Bool-cases (admits cb.state (clock w - cb.last_failure) cb.timeout)) [
        | inl e ↦ rw e (settle-IsConsistent cb (entry_state cb.state) (fn w) refl h)
        | inr e ↦ rw e h
      ]

  -- An open breaker whose timeout has not passed returns its own error: it does not call the
  -- function, so neither the world nor the breaker changes.
  pub execute_refuses :
      (cb : CircuitBreaker) (fn : W → W × Result E A) (w : W)
      → cb.state ≡ open_state
      → clock w ≤ cb.last_failure + cb.timeout
      → execute clock cb fn w ≡ (cb, w, err breaker_open)
  unfolding execute admits
  execute_refuses cb fn w s h = ground arith

  -- An open breaker whose timeout has passed calls the function once: success closes it with a count
  -- of zero, and an error opens it again, with the timeout counted from the time of that error.
  pub execute_probes :
      (cb : CircuitBreaker) (fn : W → W × Result E A) (w w' : W) (r : Result E A)
      → cb.state ≡ open_state
      → IsConsistent cb
      → cb.last_failure + cb.timeout < clock w
      → fn w ≡ (w', r)
      → let (cb', w'', _) = execute clock cb fn w in
        (w'' ≡ w')
        × (is_ok r ≡ true → (cb'.state ≡ closed) × (cb'.failure_count ≡ 0))
        × (is_ok r ≡ false → (cb'.state ≡ open_state) × (cb'.last_failure ≡ clock w'))
  unfolding execute admits entry_state settle on_success on_failure
  execute_probes cb fn w w' (ok a) s c h e = ground arith
  execute_probes cb fn w w' (err x) s c h e = ground arith

  -- What one failing call does to a breaker that is not open.
  execute_fails :
      (cb : CircuitBreaker) (fn : W → W × Result E A) (w w' : W) (x : E)
      → cb.state ≡ closed
      → fn w ≡ (w', err x)
      → execute clock cb fn w ≡ (on_failure cb (clock w'), w', err (failed x))
  unfolding execute admits settle entry_state
  execute_fails cb fn w w' x s e = rw (s, admits, entry_state) (rw (e, settle) (ground arith))

  execute_times_fails :
      (n : ℕ) (cb : CircuitBreaker) (fn : W → W × Result E A) (w w' : W) (x : E)
      → cb.state ≡ closed
      → fn w ≡ (w', err x)
      → execute_times clock (suc n) cb fn w ≡ execute_times clock n (on_failure cb (clock w')) fn w'
  unfolding execute_times
  execute_times_fails n cb fn w w' x s e = rw (execute_fails cb fn w w' x s e, execute_times)

  -- A value that `Execute` returns is the function's own.
  pub execute_answer :
      (cb : CircuitBreaker) (fn : W → W × Result E A) (w : W) (a : A)
      → (execute clock cb fn w).2 ≡ ok a
      → (fn w).1 ≡ ok a
  unfolding execute
  execute_answer cb fn w a e =
      elim (Bool-cases (admits cb.state (clock w - cb.last_failure) cb.timeout)) [
        | inl t ↦ settle_answer _ (fn w) a (rw t at e)
        | inr f ↦ refused (rw f at e)
      ]
    where
      settle_answer :
          (cb : CircuitBreaker) (r : W × Result E A) (a : A)
          → (settle clock cb r).2 ≡ ok a
          → r.1 ≡ ok a
      settle_answer cb (w, ok b) a e = unfold settle in cc
      settle_answer cb (w, err x) a e = unfold settle in cc

      refused : ◌≡◌ {A = Result (BreakerError E) A} (err breaker_open) (ok a) → (fn w).1 ≡ ok a
      refused e = cc

  -- A call of `Execute` counts at most one failure.
  pub execute-failure_count :
      (cb : CircuitBreaker) (fn : W → W × Result E A) (w : W)
      → (execute clock cb fn w).0.failure_count ≤ cb.failure_count + 1
  unfolding execute
  execute-failure_count cb fn w =
      elim (Bool-cases (admits cb.state (clock w - cb.last_failure) cb.timeout)) [
        | inl t ↦ rw t (settled _ (fn w))
        | inr f ↦ rw f (omega arith)
      ]
    where
      settled :
          (cb : CircuitBreaker) (r : W × Result E A)
          → (settle clock cb r).0.failure_count ≤ cb.failure_count + 1
      settled cb (w, ok b) = unfold settle on_success in omega arith
      settled cb (w, err x) = unfold settle on_failure in omega arith

  execute_times_none :
      (cb : CircuitBreaker) (fn : W → W × Result E A) (w : W)
      → execute_times clock zero cb fn w ≡ (cb, w)
  unfolding execute_times
  execute_times_none cb fn w = refl

  module _ (fn : W → W × Result E A)
      (always : (w : W) → (w' : W) × (x : E) × (fn w ≡ (w', err x))) where
    -- From a closed breaker, `n` failing calls in a row leave it closed with `n` more failures
    -- counted if that stays below the threshold, and open if that reaches the threshold exactly.
    pub execute_times_opens :
        (n : ℕ) (cb : CircuitBreaker) (w : W)
        → cb.state ≡ closed
        → let cb' = (execute_times clock n cb fn w).0 in
          (cb.failure_count + n < cb.failure_threshold
            → (cb'.state ≡ closed) × (cb'.failure_count ≡ cb.failure_count + n))
          × (0 < n → cb.failure_count + n ≡ cb.failure_threshold → cb'.state ≡ open_state)
    unfolding on_failure
    execute_times_opens zero cb w s = rw (execute_times_none cb fn w) (ground arith)
    execute_times_opens (suc zero) cb w s =
        let (w', x, e) = always w in
        rw (execute_times_fails zero cb fn w w' x s e, execute_times_none) (ground arith)
    execute_times_opens (suc (suc n)) cb w s =
        let (w', x, e) = always w in
        rw (execute_times_fails (suc n) cb fn w w' x s e)
          (elim (Bool-cases (leb cb.failure_threshold (cb.failure_count + 1))) [
            | inl reached ↦ ground arith
            | inr below ↦
                let keeps : (on_failure cb (clock w')).state ≡ closed = ground arith in
                let ih = execute_times_opens (suc n) (on_failure cb (clock w')) w' keeps in
                (λ h. ground (arith, ih.0 (omega arith)), λ h k. ih.1 (omega arith) (omega arith))
          ])
