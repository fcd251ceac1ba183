-- ===== src/Storage/Budget/Tests.antt =====
-- Stores in units of 2^-57 dollars, whose sums are rounded to 53 bits, ties to even.
use sentoris_proxy.Prelude.{
  ℕ, suc, ◌+◌, ◌*◌, ◌/◌, ◌%◌, ◌≤◌, ◌≡◌, refl, ◌↔◌, true, false, ltb, if◌then◌else◌, arith,
}
use sentoris_proxy.Prelude.Int.{ℤ, pos, negsuc, ◌+ℤ◌, ◌-ℤ◌, ◌≤ℤ◌, sub_ℕ}
use sentoris_proxy.Storage.Budget.{
  MemoryBudgetStore, exact, new_memory_budget_store, get_remaining, reserve, commit, rollback,
  set_budget,
}
use sentoris_proxy.Storage.Budget.Rounding.{Near, Rounds}
use sentoris_proxy.Storage.Budget.Solvent.{IsSolvent}
use sentoris_proxy.Storage.Budget.Laws.{
  here, next, reserves, commits, reserve_lem, Reach-IsSolvent, reserve-settle, rollback_twice,
}

abbrev two_to_53 : ℕ
two_to_53 = 9_007_199_254_740_992

-- The nearest number of 53 bits, below 2^55.
nearest : ℕ → ℕ
nearest n =
    if ltb n two_to_53
    then n
    else if ltb n (2 * two_to_53)
    then 2 * ((n + n / 2 % 2) / 2)
    else 4 * ((n + 1 + n / 4 % 2) / 4)

nearest_near : (n : ℕ) → (nearest n ≤ n + 2) × (n ≤ nearest n + 2)
unfolding nearest
nearest_near n = ground arith

nearest_zero : nearest 0 ≡ 0
unfolding nearest
nearest_zero = refl

nearest_mono : (m n : ℕ) → m ≤ n → nearest m ≤ nearest n
unfolding nearest
nearest_mono m n h = ground arith

nearest_ℤ : ℤ → ℤ
nearest_ℤ (pos n) = pos (nearest n)
nearest_ℤ (negsuc n) = sub_ℕ 0 (nearest (suc n))

abbrev top : ℕ
top = 4 * two_to_53

nearest_ℤ-mono : (a b : ℤ) → a ≤ℤ b → nearest_ℤ a ≤ℤ nearest_ℤ b
unfolding nearest_ℤ
nearest_ℤ-mono (pos m) (pos n) h = omega (arith, nearest_mono m n)
nearest_ℤ-mono (negsuc m) (pos n) h = ground arith
nearest_ℤ-mono (pos m) (negsuc n) h = absurd (omega arith)
nearest_ℤ-mono (negsuc m) (negsuc n) h = ground (arith, nearest_mono (suc n) (suc m))

nearest_ℤ-Near : (a : ℤ) → Near 2 (nearest_ℤ a) a
unfolding nearest_ℤ ◌+ℤ◌
nearest_ℤ-Near (pos n) = ground (arith, nearest_near n)
nearest_ℤ-Near (negsuc n) = ground (arith, nearest_near (suc n))

nearest_ℤ-Rounds : Rounds nearest_ℤ top 2
unfolding nearest_ℤ
nearest_ℤ-Rounds = record {
  zero_kept = rw nearest_zero refl;
  monotone = nearest_ℤ-mono;
  near = λ a _. nearest_ℤ-Near a;
}

-- The budget is 0.11 dollars, of which 0.04 are set aside.
abbrev store : MemoryBudgetStore
store = record {
  budget = pos 15_852_670_688_344_146;
  reserved = pos 5_764_607_523_034_235;
  used = pos 0;
}

abbrev seven_cents : ℤ
seven_cents = pos 10_088_063_165_309_912

store-IsSolvent : IsSolvent 0 store
unfolding ◌+ℤ◌
store-IsSolvent = ground arith

-- A reservation of 0.07 dollars is granted, and what is reserved exceeds the budget by one rounding.
granted_above_budget :
    reserve nearest_ℤ store "s" seven_cents
    ≡ (record store { reserved = pos 15_852_670_688_344_148 }, true)
unfolding reserve nearest_ℤ nearest ◌+ℤ◌ ◌-ℤ◌
granted_above_budget = refl

new_memory_budget_store-IsSolvent : (unit : ℕ) → IsSolvent 0 (new_memory_budget_store unit)
unfolding new_memory_budget_store ◌+ℤ◌
new_memory_budget_store-IsSolvent unit = ground arith

too_much : (reserve exact (new_memory_budget_store 100) "s" (pos 10_001)).1 ≡ false
unfolding reserve ◌-ℤ◌ new_memory_budget_store
too_much = refl

sessions_share_the_budget :
    get_remaining exact (set_budget store "a" (pos 5_764_607_523_034_240)) "b" ≡ pos 5
unfolding get_remaining set_budget ◌-ℤ◌
sessions_share_the_budget = refl

reserve_lem_example :
    let (s', granted) = reserve nearest_ℤ store "s" seven_cents in
    ((granted ≡ true) ↔ (seven_cents ≤ℤ get_remaining nearest_ℤ store "s"))
    × (granted ≡ true
        → Near 10
            (get_remaining nearest_ℤ s' "s")
            (get_remaining nearest_ℤ store "s" -ℤ seven_cents))
    × (granted ≡ false → s' ≡ store)
unfolding ◌+ℤ◌
reserve_lem_example =
    reserve_lem nearest_ℤ top 2 nearest_ℤ-Rounds store "s" seven_cents 0 store-IsSolvent
      (omega arith) (omega arith)

abbrev committed : MemoryBudgetStore
committed = commit nearest_ℤ (reserve nearest_ℤ store "a" seven_cents).0 "b" (pos 4)

Reach-IsSolvent_example : (committed.budget ≡ store.budget) × IsSolvent 12 committed
unfolding reserve commit nearest_ℤ nearest ◌+ℤ◌ ◌-ℤ◌
Reach-IsSolvent_example =
    Reach-IsSolvent nearest_ℤ top 2 nearest_ℤ-Rounds {s = store} (omega arith) store-IsSolvent (
      next (next here (reserves "a" seven_cents (omega arith)))
        (commits "b" (pos 4) (omega arith) (omega arith)))

reserve-settle_example :
    let s' = (reserve nearest_ℤ store "s" seven_cents).0 in
    let back = rollback nearest_ℤ s' "s" seven_cents in
    let spent = commit nearest_ℤ s' "s" seven_cents in
    ((back.budget ≡ store.budget) × (back.used ≡ store.used) × Near 4 back.reserved store.reserved)
    × (nearest_ℤ store.reserved ≡ store.reserved
        → nearest_ℤ (store.reserved +ℤ seven_cents) ≡ store.reserved +ℤ seven_cents
        → back ≡ store)
    × ((spent.budget ≡ store.budget)
        × Near 2 spent.used (store.used +ℤ seven_cents)
        × Near 4 spent.reserved store.reserved)
unfolding get_remaining nearest_ℤ nearest ◌+ℤ◌ ◌-ℤ◌
reserve-settle_example =
    reserve-settle nearest_ℤ top 2 nearest_ℤ-Rounds store "s" seven_cents 0 store-IsSolvent
      (omega arith) (omega arith) (omega arith)

rollback_twice_example :
    let s' = (reserve exact store "s" (pos 30)).0 in
    get_remaining exact (rollback exact (rollback exact s' "s" (pos 30)) "s" (pos 30)) "s"
    ≡ get_remaining exact store "s" +ℤ pos 30
unfolding get_remaining ◌-ℤ◌
rollback_twice_example = rollback_twice store "s" (pos 30) (omega arith)
