-- ===== src/Transport/Chat/Handler/Settling.antt =====
-- What a request does to the budget of its session, over the budget store in memory.
use sentoris_proxy.Prelude.{
  arith, ◌≡◌, refl, ap, ◌∙◌, ◌⊎◌, inl, inr, Bool, Bool-cases, true, false, Option, none, some,
  String, ok, str_eq,
}
use sentoris_proxy.Prelude.Int.{ℤ, pos, ◌+ℤ◌, ◌-ℤ◌, ltb_ℤ, int_laws}
use sentoris_proxy.Hooks.{
  HookChain, HookCall, chain_pre_execute, chain_post_stream, chain_on_failure,
}
use sentoris_proxy.Router.ModelRouter.{ProviderConfig}
use sentoris_proxy.Storage.Budget.{MemoryBudgetStore, reserve, commit, rollback, set_budget}
use sentoris_proxy.Storage.BudgetStore.{BudgetStore, memory_budget_store}
use sentoris_proxy.Transport.Headers.{SentorisHeaders}
use sentoris_proxy.Transport.Chat.{
  ChatRequest, ChatResponse, Services, Server, Job, move, enter, store_update, run_hooks, on_chain,
  run_handler, fail_job, apply_transitions,
}
use sentoris_proxy.Transport.Chat.Stages.{
  Ids, Reply, Reservation, refused, proceed, after_reserve, reserve_budget, amount_to_reserve,
  note_response, roll_back_budget, commit_budget, with_budgets,
}
use sentoris_proxy.Transport.Chat.Handler.{
  sign_trace, conclude, reply_with, finish, upstream_failed, refuse, begin, start, prepare,
  handle_request,
}
use sentoris_proxy.Transport.Chat.Handler.Path.{started, with_world, handle_request-ends}
use sentoris_proxy.Transport.Chat.Handler.States.{
  Failed, Finalized, no_provider-Failed, over_budget-Failed, upstream_failed-Failed,
  finish-Finalized, started_state, started-Chain,
}

module _ {T S W : Type 0} (sv : Services T S W) where
  budgets-on_chain :
      (handler : HookChain W → HookCall W) (o : Option (HookChain W)) (j : Job T S W)
      → (on_chain sv handler o j).server.budgets ≡ j.server.budgets
  unfolding on_chain run_handler
  budgets-on_chain handler none j = refl
  budgets-on_chain handler (some c) j = refl

  budgets-run_hooks :
      (handler : HookChain W → HookCall W) (j : Job T S W)
      → (run_hooks sv handler j).server.budgets ≡ j.server.budgets
  unfolding run_hooks
  budgets-run_hooks handler j = budgets-on_chain handler sv.hook_chain j

  module _ (h : SentorisHeaders) (req : ChatRequest) (ids : Ids) where
    budgets-started :
        (server : Server T S W) → (started sv h req ids server).server.budgets ≡ server.budgets
    unfolding start prepare begin store_update enter move
    budgets-started server = budgets-run_hooks chain_pre_execute _

    budgets-upstream_failed :
        (b : Bool) (amount : ℤ) (e : String) (j : Job T S W)
        → (upstream_failed sv ids b amount e j).0.server.budgets
          ≡ (roll_back_budget sv b ids.session_id amount j).server.budgets
    unfolding upstream_failed store_update fail_job apply_transitions enter move
    budgets-upstream_failed b amount e j = budgets-run_hooks chain_on_failure _

    budgets-sign_trace : (j : Job T S W) → (sign_trace sv j).server.budgets ≡ j.server.budgets
    unfolding sign_trace
    budgets-sign_trace j = ground arith

    budgets-conclude : (j : Job T S W) → (conclude sv j).server.budgets ≡ j.server.budgets
    unfolding conclude store_update
    budgets-conclude j = budgets-run_hooks chain_post_stream _ ∙ budgets-sign_trace _

    budgets-reply_with :
        (resp : ChatResponse) (j : Job T S W)
        → (reply_with sv h req ids resp j).0.server.budgets ≡ j.server.budgets
    unfolding reply_with
    budgets-reply_with resp j = elim (Bool-cases req.stream) [
      | inl streamed ↦ rw streamed refl
      | inr whole ↦ rw whole (budgets-conclude j)
    ]

    budgets-finish :
        (b : Bool) (resp : ChatResponse) (j : Job T S W)
        → (finish sv h req ids b resp j).0.server.budgets
          ≡ (commit_budget sv b ids.session_id resp.cost_usd j).server.budgets
    unfolding finish note_response apply_transitions enter move
    budgets-finish b resp j = budgets-reply_with _ _

-- The budget after `SetBudget` alone.
abbrev pub limited : ℤ → MemoryBudgetStore → MemoryBudgetStore
limited limit before = record before { budget = limit }

-- What is known of a reservation over the store in memory.
abbrev Reserves : ℤ → MemoryBudgetStore → ProviderConfig → Reservation MemoryBudgetStore → Type 0
Reserves limit before config (refused s) = s ≡ limited limit before
Reserves limit before config (proceed b s) =
    (b ≡ true)
    × (s ≡ record (limited limit before) { reserved = before.reserved +ℤ amount_to_reserve config })

reserve_budget-Reserves :
    (limit : ℤ) (session_id : String) (config : ProviderConfig) (before : MemoryBudgetStore)
    → ltb_ℤ (pos 0) limit ≡ true
    → str_eq session_id "" ≡ false
    → Reserves limit before config (
        reserve_budget
          (some memory_budget_store)
          session_id
          limit
          (amount_to_reserve config)
          before)
unfolding reserve_budget after_reserve reserve set_budget
reserve_budget-Reserves limit session_id config before positive named =
    rw (positive, named)
      (elim (Bool-cases
        (ltb_ℤ (limit -ℤ before.reserved -ℤ before.used) (amount_to_reserve config))) [
          | inl short ↦ rw short refl
          | inr enough ↦ rw enough (refl, refl)
        ])

reservation-Reserves :
    (limit : ℤ) (session_id : String) (config : ProviderConfig) (before : MemoryBudgetStore)
    (o : Option (BudgetStore MemoryBudgetStore)) (s : MemoryBudgetStore)
    → o ≡ some memory_budget_store
    → s ≡ before
    → ltb_ℤ (pos 0) limit ≡ true
    → str_eq session_id "" ≡ false
    → Reserves limit before config (reserve_budget o session_id limit (amount_to_reserve config) s)
reservation-Reserves limit session_id config before o s store same positive named =
    rw (store, same) (reserve_budget-Reserves limit session_id config before positive named)

give_back : (a b : ℤ) → a +ℤ b -ℤ b ≡ a
give_back a b = omega int_laws

module _ {T W : Type 0} (sv : Services T MemoryBudgetStore W) (h : SentorisHeaders)
    (req : ChatRequest) (ids : Ids) where
  -- The ways in which a request with a budget limit can leave the store that was `before`.
  abbrev pub Settled : MemoryBudgetStore → Job T MemoryBudgetStore W × Reply → Type 0
  Settled before p =
      (Failed sv p
        × ((p.0.server.budgets ≡ before) ⊎ (p.0.server.budgets ≡ limited h.budget_limit before)))
      ⊎ (Finalized sv req p
          × ((config : ProviderConfig) × (resp : ChatResponse) × (w : W) × (w' : W) × (sv.upstream
                  config.base_url req w
                ≡ (w', ok resp))
              × (p.0.server.budgets ≡ record (limited h.budget_limit before) {
                reserved = before.reserved +ℤ amount_to_reserve config -ℤ resp.cost_usd;
                used = before.used +ℤ resp.cost_usd;
              })))

  roll_back_reserved :
      (before : MemoryBudgetStore) (config : ProviderConfig) (b : Bool)
      (j : Job T MemoryBudgetStore W)
      → sv.budget_store ≡ some memory_budget_store
      → str_eq ids.session_id "" ≡ false
      → Reserves h.budget_limit before config (proceed b j.server.budgets)
      → (roll_back_budget sv b ids.session_id (amount_to_reserve config) j).server.budgets
        ≡ limited h.budget_limit before
  unfolding roll_back_budget with_budgets rollback
  roll_back_reserved before config b j store named q =
      rw (store, q.0, named, q.1)
        (ap (λ (r : ℤ). record (limited h.budget_limit before) { reserved = r })
          (give_back before.reserved (amount_to_reserve config)))

  commit_reserved :
      (before : MemoryBudgetStore) (config : ProviderConfig) (b : Bool) (cost : ℤ)
      (j : Job T MemoryBudgetStore W)
      → sv.budget_store ≡ some memory_budget_store
      → str_eq ids.session_id "" ≡ false
      → Reserves h.budget_limit before config (proceed b j.server.budgets)
      → (commit_budget sv b ids.session_id cost j).server.budgets
        ≡ record (limited h.budget_limit before) {
          reserved = before.reserved +ℤ amount_to_reserve config -ℤ cost;
          used = before.used +ℤ cost;
        }
  unfolding commit_budget with_budgets commit
  commit_reserved before config b cost j store named q = rw (store, q.0, named, q.1) refl

  -- A request with a positive limit and a session, over the store in memory where no sum is
  -- rounded. If it fails, the budget is the old one or the new limit, and what is reserved and used is
  -- as before. If the provider answers, the cost is added to what is used and taken off what is
  -- reserved, on top of the estimate: the difference of the estimate and the cost stays reserved.
  pub handle_request-Settled :
      (server : Server T MemoryBudgetStore W)
      → sv.budget_store ≡ some memory_budget_store
      → ltb_ℤ (pos 0) h.budget_limit ≡ true
      → str_eq ids.session_id "" ≡ false
      → Settled server.budgets (handle_request sv h req ids server)
  unfolding with_budgets refuse store_update fail_job apply_transitions enter move
  handle_request-Settled server store positive named =
      let at = started_state sv h req ids server in
      let c = started-Chain sv h req ids server in
      let same = budgets-started sv h req ids server in
      let j = started sv h req ids server in
      handle_request-ends sv h req ids (Reserves h.budget_limit server.budgets)
        (Settled server.budgets) server
        (record {
          on_no_provider = inl (no_provider-Failed sv h req ids server, inl same);
          on_refused = λ config s q. inl (over_budget-Failed sv h req ids server s, inr q);
          on_failure = λ config b s w e q _ _.
              let called = with_world sv h req ids w (with_budgets sv s j) in
              inl (
                upstream_failed-Failed sv h req ids b _ e called at c,
                inr (
                    budgets-upstream_failed sv h req ids b _ e called
                    ∙ roll_back_reserved server.budgets config b called store named q),
              );
          on_answer = λ config b s w resp q w₀ e.
              let called = with_world sv h req ids w (with_budgets sv s j) in
              inr (
                finish-Finalized sv h req ids b resp called at c,
                (
                  config,
                  resp,
                  w₀,
                  w,
                  e,
                  budgets-finish sv h req ids b resp called
                      ∙ commit_reserved server.budgets config b resp.cost_usd called store named q,
                ),
              );
        })
        (λ config.
          reservation-Reserves h.budget_limit ids.session_id config server.budgets sv.budget_store
            j.server.budgets store same positive named)
