-- ===== src/Governance/Interceptor/Tests.antt =====
-- A stream of two chunks of one token each over a small budget.
use sentoris_proxy.Prelude.{ℕ, ◌≡◌, refl, none, List, [], ◌∷◌, codes, err}
use sentoris_proxy.Prelude.Int.{pos, ◌+ℤ◌, ◌-ℤ◌}
use sentoris_proxy.Storage.Budget.{MemoryBudgetStore, reserve}
use sentoris_proxy.Storage.BudgetStore.{memory_budget_store}
use sentoris_proxy.Router.ModelRouter.{ModelRouter, new_model_router, get_pricing, find_by_model}
use sentoris_proxy.Governance.Interceptor.{
  Interceptor, new_interceptor, budget_exceeded, estimate_tokens, estimate_cost, intercept,
  intercept_all, handle_budget_exceeded,
}
use sentoris_proxy.Governance.Interceptor.Laws.{Settles, intercept_all-Settles}

abbrev router : ModelRouter
router = new_model_router none

abbrev hard : Interceptor
hard = new_interceptor (pos 1) "hard_stop" "m" "s"

abbrev small : MemoryBudgetStore
small = record { budget = pos 5_000; reserved = pos 0; used = pos 0 }

abbrev chunks : List (List ℕ)
chunks = codes "abcd" ∷ (codes "ef" ∷ [])

tokens_of_mixed : estimate_tokens (0x4e2d ∷ codes "abc") ≡ 2
unfolding estimate_tokens
tokens_of_mixed = refl

second_chunk_is_refused :
    (intercept_all memory_budget_store router chunks hard small).2 ≡ err budget_exceeded
unfolding intercept_all intercept estimate_cost estimate_tokens new_interceptor new_model_router
    get_pricing find_by_model handle_budget_exceeded reserve ◌+ℤ◌ ◌-ℤ◌
second_chunk_is_refused = refl

intercept_all-Settles_example :
    Settles small (intercept_all memory_budget_store router chunks hard small)
unfolding new_interceptor
intercept_all-Settles_example = intercept_all-Settles router chunks hard small refl
