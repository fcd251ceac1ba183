-- ===== src/Storage/Budget/Rounding.antt =====
-- What is relied on of the rounding of float64 arithmetic, the type of the amounts of `MemoryBudgetStore`.
use sentoris_proxy.Prelude.{ℕ, ◌≡◌}
use sentoris_proxy.Prelude.Int.{ℤ, pos, ◌+ℤ◌, ◌≤ℤ◌}

-- Two amounts are no further apart than `slack`.
abbrev pub Near : (slack : ℕ) → ℤ → ℤ → Type 0
Near slack a b = (a ≤ℤ b +ℤ pos slack) × (b ≤ℤ a +ℤ pos slack)

-- An amount lies between -limit and limit.
abbrev pub Within : (limit : ℕ) → ℤ → Type 0
Within limit a = (a ≤ℤ pos limit) × (pos 0 ≤ℤ a +ℤ pos limit)

-- IEEE 754: rounding keeps zero and the order, and up to `limit` it moves an amount by no more than
-- `slack`, half of the distance of neighbours there: 2^-46 dollars for amounts up to 256 dollars.
pub record Rounds (rd : ℤ → ℤ) (limit slack : ℕ) : Type 0 where
  pub zero_kept : rd (pos 0) ≡ pos 0
  pub monotone : (a b : ℤ) → a ≤ℤ b → rd a ≤ℤ rd b
  pub near : (a : ℤ) → Within limit a → Near slack (rd a) a
