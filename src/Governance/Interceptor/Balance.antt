-- ===== src/Governance/Interceptor/Balance.antt =====
-- A stream over the budget store in memory: what its chunks reserve, and how it is settled.
use sentoris_proxy.Prelude.{
  ℕ, ◌≡◌, refl, ◌∙◌, ◌⊎◌, inl, inr, Bool, Bool-cases, true, false, Option, none, some, List, String,
  Result, ok, err, str_eq, arith,
}
use sentoris_proxy.Prelude.Int.{
  ℤ, pos, ◌+ℤ◌, ◌-ℤ◌, ◌≤ℤ◌, ltb_ℤ, int_laws, eq_of_parts, not-ltb→le_ℤ,
}
use sentoris_proxy.Storage.Budget.{MemoryBudgetStore, exact, reserve, rollback}
use sentoris_proxy.Storage.BudgetStore.{memory_budget_store}
use sentoris_proxy.Router.ModelRouter.{ModelRouter, get_degrade_model}
use sentoris_proxy.Governance.Interceptor.{
  Interceptor, InterceptError, budget_exceeded, estimate_cost, release, degrade_to,
  handle_budget_exceeded, settle_reserve, intercept,
}

-- What the stream has reserved is set aside in the store, on top of what was there before.
pub record Balanced (before s : MemoryBudgetStore) (i : Interceptor) : Type 0 where
  pub same_budget : s.budget ≡ before.budget
  pub same_used : s.used ≡ before.used
  pub set_aside : s.reserved ≡ before.reserved +ℤ i.reserved_amount
  pub nonneg : pos 0 ≤ℤ i.reserved_amount

pub store_ext :
    {s t : MemoryBudgetStore}
    → s.budget ≡ t.budget
    → s.reserved ≡ t.reserved
    → s.used ≡ t.used
    → s ≡ t
store_ext b r u = λ k. record { budget = b k; reserved = r k; used = u k }

pub zero_of_not_pos : (a : ℤ) → ltb_ℤ (pos 0) a ≡ false → pos 0 ≤ℤ a → a ≡ pos 0
zero_of_not_pos a h p = omega (arith, not-ltb→le_ℤ (pos 0) a h, eq_of_parts a (pos 0))

pub add_zero : (a b : ℤ) → b ≡ pos 0 → a +ℤ b ≡ a
add_zero a b h = rw h (omega int_laws)

pub add_sub : (a b : ℤ) → a +ℤ b -ℤ b ≡ a
add_sub a b = omega int_laws

-- A release gives back exactly what the stream had set aside.
pub release-Balanced :
    (before s : MemoryBudgetStore) (i : Interceptor)
    → Balanced before s i
    → release memory_budget_store i s ≡ before
unfolding release rollback
release-Balanced before s i b = elim (Bool-cases (ltb_ℤ (pos 0) i.reserved_amount)) [
  | inl some_reserved ↦ rw some_reserved (
      store_ext b.same_budget (rw b.set_aside (add_sub before.reserved i.reserved_amount))
        b.same_used)
  | inr none_reserved ↦
      let zero_reserved = zero_of_not_pos i.reserved_amount none_reserved b.nonneg in
      rw none_reserved (
        store_ext b.same_budget
          (b.set_aside ∙ add_zero before.reserved i.reserved_amount zero_reserved) b.same_used)
]

-- A chunk is let through and the books still balance, or it is refused and nothing is set aside any
-- more, though the stream still counts what it had reserved.
abbrev pub Outcome :
    MemoryBudgetStore
    → Interceptor
    → MemoryBudgetStore × Interceptor × Result InterceptError Bool
    → Type 0
Outcome before i (s', i', r) =
    ((r ≡ ok true) × Balanced before s' i')
    ⊎ ((r ≡ err budget_exceeded) × (s' ≡ before) × (pos 0 ≤ℤ i'.reserved_amount))

exceeded-Outcome :
    (router : ModelRouter) (before s : MemoryBudgetStore) (i : Interceptor)
    → Balanced before s i
    → Outcome before i (handle_budget_exceeded memory_budget_store router i s)
unfolding handle_budget_exceeded
exceeded-Outcome router before s i b = elim (Bool-cases (str_eq i.strategy "hard_stop")) [
  | inl hard ↦ rw hard stopped
  | inr soft ↦ elim (Bool-cases (str_eq i.strategy "degrade")) [
    | inl degrade ↦ rw (soft, degrade) (inl (refl, kept (get_degrade_model router i.model)))
    | inr no_degrade ↦ elim (Bool-cases (str_eq i.strategy "soft_alert")) [
      | inl alert ↦ rw (soft, no_degrade, alert) (inl (refl, b))
      | inr other ↦ rw (soft, no_degrade, other) stopped
    ]
  ]
]
  where
    stopped : Outcome before i (release memory_budget_store i s, i, err budget_exceeded)
    stopped = inr (refl, release-Balanced before s i b, b.nonneg)

    kept : (o : Option String) → Balanced before s (degrade_to memory_budget_store o i)
    kept none = b
    kept (some model) = record {
      same_budget = b.same_budget;
      same_used = b.same_used;
      set_aside = b.set_aside;
      nonneg = b.nonneg;
    }

reserve_granted :
    (s : MemoryBudgetStore) (id : String) (amount : ℤ)
    → ltb_ℤ (s.budget -ℤ s.reserved -ℤ s.used) amount ≡ false
    → reserve exact s id amount ≡ (record s { reserved = s.reserved +ℤ amount }, true)
unfolding reserve
reserve_granted s id amount h = rw h

reserve_refused :
    (s : MemoryBudgetStore) (id : String) (amount : ℤ)
    → ltb_ℤ (s.budget -ℤ s.reserved -ℤ s.used) amount ≡ true
    → reserve exact s id amount ≡ (s, false)
unfolding reserve
reserve_refused s id amount h = rw h

grow : (a b c : ℤ) → a +ℤ b +ℤ c ≡ a +ℤ (b +ℤ c)
grow a b c = omega int_laws

grow_nonneg : (a : ℤ) (n : ℕ) → pos 0 ≤ℤ a → pos 0 ≤ℤ a +ℤ pos n
grow_nonneg a n h = omega int_laws

granted-Balanced :
    (before s : MemoryBudgetStore) (i : Interceptor) (n : ℕ)
    → Balanced before s i
    → Balanced before
        (record s { reserved = s.reserved +ℤ pos n })
        (record i { reserved_amount = i.reserved_amount +ℤ pos n })
granted-Balanced before s i n b = record {
  same_budget = b.same_budget;
  same_used = b.same_used;
  set_aside = rw b.set_aside (grow before.reserved i.reserved_amount (pos n));
  nonneg = grow_nonneg i.reserved_amount n b.nonneg;
}

-- `pos n` stands for the cost that is reserved.
reserve-Outcome :
    (router : ModelRouter) (before s : MemoryBudgetStore) (i : Interceptor) (n : ℕ)
    → Balanced before s i
    → Outcome before i (
        settle_reserve memory_budget_store router i
          (pos n)
          (memory_budget_store.reserve i.session_id (pos n) s))
unfolding settle_reserve
reserve-Outcome router before s i n b =
    elim (Bool-cases (ltb_ℤ (s.budget -ℤ s.reserved -ℤ s.used) (pos n))) [
      | inl short ↦
          rw (reserve_refused s i.session_id (pos n) short) (exceeded-Outcome router before s i b)
      | inr enough ↦
          rw (reserve_granted s i.session_id (pos n) enough)
            (inl (refl, granted-Balanced before s i n b))
    ]

pub intercept-Outcome :
    (router : ModelRouter) (before s : MemoryBudgetStore) (i : Interceptor) (content : List ℕ)
    → Balanced before s i
    → Outcome before i (intercept memory_budget_store router i content s)
unfolding intercept estimate_cost
intercept-Outcome router before s i content b = elim (Bool-cases (ltb_ℤ (pos 0) i.budget_limit)) [
  | inl limited ↦ rw limited (reserve-Outcome router before s i _ b)
  | inr unlimited ↦ rw unlimited (inl (refl, b))
]
