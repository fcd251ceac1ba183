-- ===== src/Upstream/Gobreaker/Laws.antt =====
-- How the retry loop of circuit_breaker.go ends, for clients that stay down and for those that recover.
use sentoris_proxy.Prelude.{
  ℕ, zero, suc, ◌+◌, ◌*◌, ◌≤◌, ◌<◌, ◌≡◌, refl, inl, inr, true, false, Option, none, some, Result,
  ok, err, leb, arith, is_ok, le→leb, Bool-cases,
}
use native.Mathlib.Numerals.{add-one}
use sentoris_proxy.Upstream.Counting.{IsCounted, call_effect}
use sentoris_proxy.Upstream.Gobreaker.{pause, retry_from, with_retries}

module _ {W : Type 0} (sleep : ℕ → W → W) (max_retries retry_delay : ℕ) {E A : Type 0}
    (call : W → W × Result E A) where
  retry_from_err :
      (rounds retry : ℕ) (last : Option E) (w w' : W) (e : E)
      → call w ≡ (w', err e)
      → retry_from sleep max_retries retry_delay (suc rounds) retry last call w
        ≡ retry_from sleep max_retries retry_delay rounds
            (retry + 1)
            (some e)
            call
            (pause sleep max_retries retry_delay (retry + 1) w')
  unfolding retry_from
  retry_from_err rounds retry last w w' e h = rw (h, retry_from) refl

  retry_from_ok :
      (rounds retry : ℕ) (last : Option E) (w w' : W) (a : A)
      → call w ≡ (w', ok a)
      → retry_from sleep max_retries retry_delay (suc rounds) retry last call w ≡ (w', ok a)
  unfolding retry_from
  retry_from_ok rounds retry last w w' a h = rw (h, retry_from) refl

  module _ (calls slept : W → ℕ) (counted : IsCounted call sleep calls slept)
      (always : (w : W) → (w' : W) × (e : E) × (call w ≡ (w', err e))) where
    retry_from_exhausted :
        (rounds retry : ℕ) (last : Option E) (w : W)
        → retry + rounds ≡ max_retries
        → let (w', r) = retry_from sleep max_retries retry_delay (suc rounds) retry last call w in
          (calls w' ≡ calls w + suc rounds)
          × (slept w' ≡ slept w + rounds * retry_delay)
          × (is_ok r ≡ false)
    retry_from_exhausted zero retry last w h =
        let (w', e, q) = always w in
        let c = call_effect call sleep calls slept counted w w' (err e) q in
        rw (retry_from_err zero retry last w w' e q)
          (unfold retry_from pause in (ground arith, ground arith, refl))
    retry_from_exhausted (suc rounds) retry last w h =
        let (w', e, q) = always w in
        let c = call_effect call sleep calls slept counted w w' (err e) q in
        let slow : pause sleep max_retries retry_delay (retry + 1) w' ≡ sleep retry_delay w' =
          unfold pause in rw (le→leb (retry + 1) max_retries (omega arith)) in
        let ih =
          retry_from_exhausted rounds (retry + 1) (some e) (sleep retry_delay w') (omega arith) in
        rw (retry_from_err (suc rounds) retry last w w' e q) (
          rw slow (
            omega (arith, ih.0, counted.sleep_calls retry_delay w'),
            omega (arith, ih.1, counted.sleep_slept retry_delay w'),
            ih.2,
          ))

    -- A client that always fails is called `maxRetries + 1` times, with `maxRetries` equal pauses
    -- between the calls, and the result is an error.
    pub with_retries_exhausted :
        (w : W)
        → let (w', r) = with_retries sleep max_retries retry_delay call w in
          (calls w' ≡ calls w + (max_retries + 1))
          × (slept w' ≡ slept w + max_retries * retry_delay)
          × (is_ok r ≡ false)
    unfolding with_retries
    with_retries_exhausted w = rw add-one (retry_from_exhausted max_retries 0 none w (omega arith))

  -- A client whose next `down w` calls fail and that then answers.
  pub record Recovers (down : W → ℕ) : Type 0 where
    pub fails :
        (w : W) → 0 < down w → (w' : W) × (e : E) × (call w ≡ (w', err e)) × (down w' + 1 ≡ down w)
    pub answers : (w : W) → down w ≡ 0 → (w' : W) × (a : A) × (call w ≡ (w', ok a))
    pub sleep_down : (d : ℕ) (w : W) → down (sleep d w) ≡ down w

  module _ (down : W → ℕ) (recovers : Recovers down) where
    open recovers use {fails, answers, sleep_down}

    pause_down : (retry : ℕ) (w : W) → down (pause sleep max_retries retry_delay retry w) ≡ down w
    unfolding pause
    pause_down retry w = ground (arith, sleep_down retry_delay w)

    retry_from_recovers :
        (rounds retry : ℕ) (last : Option E) (w : W)
        → down w < rounds
        → is_ok (retry_from sleep max_retries retry_delay rounds retry last call w).1 ≡ true
    retry_from_recovers zero retry last w h = absurd (omega arith)
    retry_from_recovers (suc rounds) retry last w h = elim (Bool-cases (leb 1 (down w))) [
      | inl t ↦
          let (w', e, q, less) = fails w (ground arith) in
          rw (retry_from_err rounds retry last w w' e q) (
            retry_from_recovers rounds (retry + 1) (some e)
              (pause sleep max_retries retry_delay (retry + 1) w')
              (omega (arith, pause_down (retry + 1) w')))
      | inr f ↦
          let (w', a, q) = answers w (ground arith) in
          rw (retry_from_ok rounds retry last w w' a q) refl
    ]

    -- A client that answers after at most `maxRetries` failures is always answered from.
    pub with_retries_recovers :
        (w : W)
        → down w ≤ max_retries
        → is_ok (with_retries sleep max_retries retry_delay call w).1 ≡ true
    unfolding with_retries
    with_retries_recovers w h = retry_from_recovers (max_retries + 1) 0 none w (omega arith)
