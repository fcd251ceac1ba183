-- ===== src/Governance/Interceptor/Laws.antt =====
-- A whole stream of chunks over the budget store in memory, and how it is settled at its end.
use sentoris_proxy.Prelude.{
  ℕ, ◌≡◌, refl, sym, ap, ◌∙◌, ◌⊎◌, inl, inr, Bool, Bool-cases, true, false, List, [], ◌∷◌, ◌++◌,
  Result, ok, err, length, arith, ◌+◌, ◌*◌, ◌/◌, ◌≤◌,
}
use sentoris_proxy.Prelude.Int.{ℤ, pos, ◌+ℤ◌, ◌-ℤ◌, ◌≤ℤ◌, ltb_ℤ, int_laws}
use sentoris_proxy.Storage.Budget.{MemoryBudgetStore, commit, rollback}
use sentoris_proxy.Storage.BudgetStore.{memory_budget_store}
use sentoris_proxy.Router.ModelRouter.{ModelRouter}
use sentoris_proxy.Governance.Interceptor.{
  Interceptor, InterceptError, budget_exceeded, estimate_tokens, quarter_tokens, is_chinese,
  release, commit_stream, rollback_stream, go_on, intercept_all,
}
use sentoris_proxy.Governance.Interceptor.Balance.{
  Balanced, Outcome, intercept-Outcome, release-Balanced, zero_of_not_pos, add_zero, add_sub,
  store_ext,
}

go_on-Outcome :
    (router : ModelRouter) (before : MemoryBudgetStore) (rest : List (List ℕ)) (i : Interceptor)
    (p : MemoryBudgetStore × Interceptor × Result InterceptError Bool)
    → ((s : MemoryBudgetStore) (j : Interceptor)
        → Balanced before s j
        → Outcome before j (intercept_all memory_budget_store router rest j s))
    → Outcome before i p
    → Outcome before i (go_on (λ j s. intercept_all memory_budget_store router rest j s) p)
unfolding go_on
go_on-Outcome router before rest i (s, j, ok true) ih (inl h) = ih s j h.1
go_on-Outcome router before rest i (s, j, ok true) ih (inr h) = absurd (cc (h.0))
go_on-Outcome router before rest i (s, j, ok false) ih o = o
go_on-Outcome router before rest i (s, j, err e) ih o = o

intercept_all-Outcome :
    (router : ModelRouter) (before : MemoryBudgetStore) (contents : List (List ℕ)) (i : Interceptor)
    (s : MemoryBudgetStore)
    → Balanced before s i
    → Outcome before i (intercept_all memory_budget_store router contents i s)
unfolding intercept_all
intercept_all-Outcome router before [] i s b = inl (refl, b)
intercept_all-Outcome router before (content ∷ rest) i s b =
    go_on-Outcome router before rest i _
      (λ s' j b'. intercept_all-Outcome router before rest j s' b')
      (intercept-Outcome router before s i content b)

commit-Balanced :
    (before s : MemoryBudgetStore) (i : Interceptor)
    → Balanced before s i
    → (commit_stream memory_budget_store i s).0
      ≡ record before { used = before.used +ℤ i.reserved_amount }
unfolding commit_stream commit
commit-Balanced before s i b = elim (Bool-cases (ltb_ℤ (pos 0) i.reserved_amount)) [
  | inl some_reserved ↦ rw some_reserved (
      store_ext b.same_budget (rw b.set_aside (add_sub before.reserved i.reserved_amount))
        (ap (λ u. u +ℤ i.reserved_amount) b.same_used))
  | inr none_reserved ↦
      let zero_reserved = zero_of_not_pos i.reserved_amount none_reserved b.nonneg in
      rw none_reserved (
        store_ext b.same_budget
          (b.set_aside ∙ add_zero before.reserved i.reserved_amount zero_reserved)
          (b.same_used ∙ sym (add_zero before.used i.reserved_amount zero_reserved)))
]

rollback-release :
    (s : MemoryBudgetStore) (i : Interceptor)
    → (rollback_stream memory_budget_store i s).0 ≡ release memory_budget_store i s
unfolding rollback_stream release
rollback-release s i = elim (Bool-cases (ltb_ℤ (pos 0) i.reserved_amount)) [
  | inl some_reserved ↦ rw some_reserved
  | inr none_reserved ↦ rw none_reserved
]

release_again :
    (before : MemoryBudgetStore) (i : Interceptor)
    → pos 0 ≤ℤ i.reserved_amount
    → release memory_budget_store i before
      ≡ record before { reserved = before.reserved -ℤ i.reserved_amount }
unfolding release rollback
release_again before i p = elim (Bool-cases (ltb_ℤ (pos 0) i.reserved_amount)) [
  | inl some_reserved ↦ rw some_reserved
  | inr none_reserved ↦
      let zero_reserved = zero_of_not_pos i.reserved_amount none_reserved p in
      rw none_reserved
        (ap (λ (r : ℤ). record before { reserved = r }) (rw zero_reserved (omega int_laws)))
]

-- How a stream that started with nothing reserved can be settled.
abbrev pub Settles :
    MemoryBudgetStore → MemoryBudgetStore × Interceptor × Result InterceptError Bool → Type 0
Settles before (s, i, r) =
    ((r ≡ ok true)
      × ((commit_stream memory_budget_store i s).0
          ≡ record before { used = before.used +ℤ i.reserved_amount })
      × ((rollback_stream memory_budget_store i s).0 ≡ before))
    ⊎ ((r ≡ err budget_exceeded)
        × (s ≡ before)
        × ((rollback_stream memory_budget_store i s).0
            ≡ record before { reserved = before.reserved -ℤ i.reserved_amount }))

Outcome-Settles :
    (before : MemoryBudgetStore) (j : Interceptor)
    (p : MemoryBudgetStore × Interceptor × Result InterceptError Bool)
    → Outcome before j p
    → Settles before p
Outcome-Settles before j (s, i, r) (inl (e, b)) =
    inl (e, commit-Balanced before s i b, rollback-release s i ∙ release-Balanced before s i b)
Outcome-Settles before j (s, i, r) (inr (e, same, p)) =
    inr (e, same, rw same (rollback-release before i ∙ release_again before i p))

-- Over the store in memory where no sum is rounded, a stream of chunks that begins with nothing
-- reserved either passes whole, and then a commit moves what it reserved to what is used and nothing
-- else, and a rollback restores the store; or it is stopped with the error, the store is then what it
-- was before the stream, and a rollback by the caller gives back the reserved amount a second time.
pub intercept_all-Settles :
    (router : ModelRouter) (contents : List (List ℕ)) (i : Interceptor) (before : MemoryBudgetStore)
    → i.reserved_amount ≡ pos 0
    → Settles before (intercept_all memory_budget_store router contents i before)
intercept_all-Settles router contents i before h = Outcome-Settles before i _ (
    intercept_all-Outcome router before contents i before (record {
      same_budget = refl;
      same_used = refl;
      set_aside = sym (add_zero before.reserved i.reserved_amount h);
      nonneg = rw h (omega int_laws);
    }))

quarter_tokens-append :
    (xs ys : List ℕ) → quarter_tokens (xs ++ ys) ≡ quarter_tokens xs + quarter_tokens ys
unfolding quarter_tokens
quarter_tokens-append [] ys = omega arith
quarter_tokens-append (x ∷ xs) ys = omega (arith, quarter_tokens-append xs ys)

quarter_tokens-bounds :
    (xs : List ℕ) → (length xs ≤ quarter_tokens xs) × (quarter_tokens xs ≤ 2 * length xs)
unfolding quarter_tokens is_chinese
quarter_tokens-bounds [] = omega arith
quarter_tokens-bounds (x ∷ xs) = ground (arith, quarter_tokens-bounds xs)

-- A text of n characters is estimated at no less than the n / 4 tokens and no more than the n / 2
-- tokens of its two scripts, each rounded up, and cutting it into two chunks raises the estimate by
-- one token at most and never lowers it.
pub estimate_tokens_bounds :
    (xs ys : List ℕ)
    → ((length xs + 3) / 4 ≤ estimate_tokens xs)
      × (estimate_tokens xs ≤ (length xs + 1) / 2)
      × (estimate_tokens (xs ++ ys) ≤ estimate_tokens xs + estimate_tokens ys)
      × (estimate_tokens xs + estimate_tokens ys ≤ estimate_tokens (xs ++ ys) + 1)
unfolding estimate_tokens
estimate_tokens_bounds xs ys = omega (arith, quarter_tokens-append xs ys, quarter_tokens-bounds xs)
