-- ===== src/Storage/BudgetStore.antt =====
-- The interface `BudgetStore` of internal/adapter/storage/storage.go, and the store in memory as one.
-- An error is its message.
use sentoris_proxy.Prelude.{Bool, Option, none, String, Result, ok}
use sentoris_proxy.Prelude.Int.{ℤ}
use sentoris_proxy.Storage.Budget.{MemoryBudgetStore, exact}
use sentoris_proxy.Storage.Budget

-- Of the seven methods those that its clients call, on the states `S` of the store.
pub record BudgetStore (S : Type 0) : Type 0 where
  pub reserve : String → ℤ → S → S × Result String Bool
  pub commit : String → ℤ → S → S × Option String
  pub rollback : String → ℤ → S → S × Option String
  pub get_remaining : String → S → Result String ℤ
  pub set_budget : String → ℤ → S → S × Option String

-- The store in memory, with the rounding `rd` of its sums.
abbrev pub rounding_budget_store : (ℤ → ℤ) → BudgetStore MemoryBudgetStore
rounding_budget_store rd = record {
  reserve = λ id amount s. let (s', granted) = Budget.reserve rd s id amount in (s', ok granted);
  commit = λ id amount s. (Budget.commit rd s id amount, none);
  rollback = λ id amount s. (Budget.rollback rd s id amount, none);
  get_remaining = λ id s. ok (Budget.get_remaining rd s id);
  set_budget = λ id amount s. (Budget.set_budget s id amount, none);
}

-- The store in memory, on amounts whose sums are not rounded.
abbrev pub memory_budget_store : BudgetStore MemoryBudgetStore
memory_budget_store = rounding_budget_store exact
