-- ===== src/Storage/Budget/Solvent.antt =====
-- A store whose amounts fit its budget up to an excess, and how much a call adds to the excess.
use sentoris_proxy.Prelude.{ℕ, ◌+◌, ◌*◌, inl, inr, Bool-cases, String}
use sentoris_proxy.Prelude.Int.{ℤ, pos, ◌+ℤ◌, ◌-ℤ◌, ◌≤ℤ◌, ltb_ℤ, int_laws, not-ltb→le_ℤ}
use sentoris_proxy.Storage.Budget.{MemoryBudgetStore, get_remaining, reserve, commit, rollback}
use sentoris_proxy.Storage.Budget.Rounding.{Near, Rounds}

-- No amount is negative, and what is set aside and what is spent are together no more than the budget
-- and `excess`.
pub record IsSolvent (excess : ℕ) (s : MemoryBudgetStore) : Type 0 where
  pub budget_nonneg : pos 0 ≤ℤ s.budget
  pub reserved_nonneg : pos 0 ≤ℤ s.reserved
  pub used_nonneg : pos 0 ≤ℤ s.used
  pub within : s.reserved +ℤ s.used ≤ℤ s.budget +ℤ pos excess

module _ (rd : ℤ → ℤ) (limit slack : ℕ) (r : Rounds rd limit slack) where
  rounded_nonneg : (a : ℤ) → pos 0 ≤ℤ a → pos 0 ≤ℤ rd a
  rounded_nonneg a h = rw r.zero_kept at (r.monotone (pos 0) a h)

  -- What remains is the budget without what is set aside and spent, up to two roundings.
  pub get_remaining-Near :
      (s : MemoryBudgetStore) (session_id : String) (excess : ℕ)
      → IsSolvent excess s
      → s.budget +ℤ pos (excess + 6 * slack) ≤ℤ pos limit
      → Near (2 * slack) (get_remaining rd s session_id) (s.budget -ℤ s.reserved -ℤ s.used)
  unfolding get_remaining
  get_remaining-Near s session_id excess h room =
      let first = r.near (s.budget -ℤ s.reserved) (omega (int_laws, h)) in
      let second = r.near (rd (s.budget -ℤ s.reserved) -ℤ s.used) (omega (int_laws, h, first)) in
      omega (int_laws, first, second)

  -- What a grant adds to fits the budget up to the two roundings of the comparison.
  pub fits_budget :
      (s : MemoryBudgetStore) (session_id : String) (amount : ℤ) (excess : ℕ)
      → IsSolvent excess s
      → s.budget +ℤ pos (excess + 6 * slack) ≤ℤ pos limit
      → amount ≤ℤ get_remaining rd s session_id
      → s.reserved +ℤ amount +ℤ s.used ≤ℤ s.budget +ℤ pos (2 * slack)
  fits_budget s session_id amount excess h room fits =
      omega (int_laws, get_remaining-Near s session_id excess h room)

  pub reserve-IsSolvent :
      (s : MemoryBudgetStore) (session_id : String) (amount : ℤ) (excess : ℕ)
      → s.budget +ℤ pos (excess + 6 * slack) ≤ℤ pos limit
      → pos 0 ≤ℤ amount
      → IsSolvent excess s
      → IsSolvent (excess + 3 * slack) (reserve rd s session_id amount).0
  unfolding reserve get_remaining
  reserve-IsSolvent s session_id amount excess room p h =
      elim (Bool-cases (ltb_ℤ (rd (rd (s.budget -ℤ s.reserved) -ℤ s.used)) amount)) [
        | inl short ↦ rw short (omega (int_laws, h))
        | inr enough ↦
            let fits =
              fits_budget s session_id amount excess h room
                (not-ltb→le_ℤ (get_remaining rd s session_id) amount enough) in
            let near = r.near (s.reserved +ℤ amount) (omega (int_laws, fits)) in
            let nonneg = rounded_nonneg (s.reserved +ℤ amount) (omega int_laws) in
            rw enough (omega (int_laws, fits, near, nonneg))
      ]

  pub commit-IsSolvent :
      (s : MemoryBudgetStore) (session_id : String) (amount : ℤ) (excess : ℕ)
      → s.budget +ℤ pos (excess + 6 * slack) ≤ℤ pos limit
      → pos 0 ≤ℤ amount
      → amount ≤ℤ s.reserved
      → IsSolvent excess s
      → IsSolvent (excess + 3 * slack) (commit rd s session_id amount)
  unfolding commit
  commit-IsSolvent s session_id amount excess room p q h =
      let spent = r.near (s.used +ℤ amount) (omega (int_laws, h)) in
      let left = r.near (s.reserved -ℤ amount) (omega (int_laws, h)) in
      let spent_nonneg = rounded_nonneg (s.used +ℤ amount) (omega int_laws) in
      let left_nonneg = rounded_nonneg (s.reserved -ℤ amount) (omega int_laws) in
      omega (int_laws, spent, left, spent_nonneg, left_nonneg)

  pub rollback-IsSolvent :
      (s : MemoryBudgetStore) (session_id : String) (amount : ℤ) (excess : ℕ)
      → s.budget +ℤ pos (excess + 6 * slack) ≤ℤ pos limit
      → pos 0 ≤ℤ amount
      → amount ≤ℤ s.reserved
      → IsSolvent excess s
      → IsSolvent (excess + 3 * slack) (rollback rd s session_id amount)
  unfolding rollback
  rollback-IsSolvent s session_id amount excess room p q h =
      let left = r.near (s.reserved -ℤ amount) (omega (int_laws, h)) in
      let left_nonneg = rounded_nonneg (s.reserved -ℤ amount) (omega int_laws) in
      omega (int_laws, left, left_nonneg)
