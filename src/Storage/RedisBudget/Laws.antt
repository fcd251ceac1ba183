-- ===== src/Storage/RedisBudget/Laws.antt =====
-- What is reserved stays within the budget, and what a caller is told of the rest.
use sentoris_proxy.Prelude.{
  ◌≡◌, refl, ◌⊎◌, inl, inr, Bool-cases, true, false, Option, none, String, ok, arith,
}
use sentoris_proxy.Prelude.Int.{ℤ, pos, ◌≤ℤ◌, ◌+ℤ◌, ◌-ℤ◌, leb_ℤ, +ℤ_parts, -ℤ_parts}
use sentoris_proxy.Storage.RedisBudget.{
  Account, number_at, available, reserve, reserve_script, get_remaining,
}

-- The reserved amount is within the budget.
abbrev pub IsWithin : Account → Type 0
IsWithin a = number_at a.reserved ≤ℤ number_at a.budget

-- A reservation that succeeds leaves the reserved amount within the budget; one that does not leaves
-- the account as it was.
pub reserve-IsWithin :
    (amount : ℤ) (a : Account)
    → let (after, outcome) = reserve none amount a in
      ((outcome ≡ ok true) × IsWithin after) ⊎ ((outcome ≡ ok false) × (after ≡ a))
unfolding reserve reserve_script available number_at
reserve-IsWithin amount a = elim (Bool-cases (leb_ℤ amount (available a))) [
  | inl fits ↦ rw fits (inl (refl, within fits))
  | inr over ↦ rw over (inr (refl, refl))
]
  where
    within :
        leb_ℤ amount (number_at a.budget -ℤ number_at a.reserved) ≡ true
        → (number_at a.reserved +ℤ amount) ≤ℤ number_at a.budget
    within fits = ground (
      arith,
      +ℤ_parts (number_at a.reserved) amount,
      -ℤ_parts (number_at a.budget) (number_at a.reserved),
    )

-- A caller that has no error is told that nothing is left, whatever the account holds.
pub get_remaining_zero :
    (truncate : ℤ → ℤ) (parse : String → Option ℤ) (a : Account)
    → get_remaining truncate parse none a ≡ ok (pos 0)
unfolding get_remaining
get_remaining_zero truncate parse a = refl
