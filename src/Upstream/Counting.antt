-- ===== src/Upstream/Counting.antt =====
-- A world in which a client's calls can be counted, and the time slept added up.
use sentoris_proxy.Prelude.{ℕ, ◌+◌, ◌≡◌}
use mathlib.Core.Path.{subst}

pub record IsCounted {W R : Type 0} (call : W → W × R) (sleep : ℕ → W → W) (calls slept : W → ℕ)
    : Type 0 where
  pub call_calls : (w : W) → calls (call w).0 ≡ calls w + 1
  pub call_slept : (w : W) → slept (call w).0 ≡ slept w
  pub sleep_calls : (d : ℕ) (w : W) → calls (sleep d w) ≡ calls w
  pub sleep_slept : (d : ℕ) (w : W) → slept (sleep d w) ≡ slept w + d

pub call_effect :
    {W R : Type 0} (call : W → W × R) (sleep : ℕ → W → W) (calls slept : W → ℕ)
    → IsCounted call sleep calls slept
    → (w w' : W) (r : R) → call w ≡ (w', r)
    → (calls w' ≡ calls w + 1) × (slept w' ≡ slept w)
call_effect call sleep calls slept counted w w' r e = (
  subst (λ p. calls p.0 ≡ calls w + 1) e (counted.call_calls w),
  subst (λ p. slept p.0 ≡ slept w) e (counted.call_slept w),
)
