-- ===== src/Transport/Chat/Handler/Path.antt =====
-- The ways through the handler: a predicate that holds at each of its ends holds of the whole.
use sentoris_proxy.Prelude.{◌≡◌, refl, Bool, Option, none, some, [], String, Result, ok, err}
use sentoris_proxy.Prelude.Int.{pos}
use sentoris_proxy.Domain.Trace.{PolicyDecision, allow, block, degrade}
use sentoris_proxy.Errors.{budget_exceeded, provider_not_found}
use sentoris_proxy.Governance.Evaluator.{EvaluationResult, evaluate}
use sentoris_proxy.Router.ModelRouter.{ProviderConfig}
use sentoris_proxy.Transport.Headers.{SentorisHeaders, to_constraints}
use sentoris_proxy.Transport.Headers.Laws.{evaluate-to_constraints}
use sentoris_proxy.Transport.Chat.{
  ChatRequest, ChatResponse, Services, Server, Job, handle_error, note_error,
}
use sentoris_proxy.Transport.Chat.Stages.{
  Ids, amount_to_reserve, Reservation, refused, proceed, reserve_budget, Reply, with_budgets,
}
use sentoris_proxy.Transport.Chat.Handler.{
  finish, upstream_failed, refuse, after_call, after_reservation, after_choice, start,
  execute_request, after_decision, prepare, handle_request,
}

module _ {T S W : Type 0} (sv : Services T S W) (h : SentorisHeaders) (req : ChatRequest)
    (ids : Ids) where
  -- The job of a request that is let through, when a provider is looked for.
  abbrev pub started : Server T S W → Job T S W
  started server =
      start sv (evaluate (some (to_constraints h)) (pos 0)) (prepare sv h req ids server)

  abbrev pub with_world : W → Job T S W → Job T S W
  with_world w j = record j { server = record (j.server) { world = w } }

  -- The ends of a request from the job `j` on, where `Q` is known of the reservation.
  pub record Ends (Q : ProviderConfig → Reservation S → Type 0) (P : Job T S W × Reply → Type 0)
      (j : Job T S W) : Type 0 where
    pub on_no_provider : P (
        refuse sv
          (note_error "PROVIDER_NOT_FOUND" "Model not found")
          (handle_error [] "Model not found" 404 provider_not_found)
          j)
    pub on_refused :
        (config : ProviderConfig) (s : S)
        → Q config (refused s)
        → P (
            refuse sv
              (note_error "BUDGET_EXCEEDED" "Budget limit exceeded")
              (handle_error [] "Budget limit exceeded" 429 budget_exceeded)
              (with_budgets sv s j))
    pub on_failure :
        (config : ProviderConfig) (did_reserve : Bool) (s : S) (w : W) (e : String)
        → Q config (proceed did_reserve s)
        → (before : W) → sv.upstream config.base_url req before ≡ (w, err e)
        → P (
            upstream_failed sv ids did_reserve
              (amount_to_reserve config)
              e
              (with_world w (with_budgets sv s j)))
    pub on_answer :
        (config : ProviderConfig) (did_reserve : Bool) (s : S) (w : W) (resp : ChatResponse)
        → Q config (proceed did_reserve s)
        → (before : W) → sv.upstream config.base_url req before ≡ (w, ok resp)
        → P (finish sv h req ids did_reserve resp (with_world w (with_budgets sv s j)))

  module _ (Q : ProviderConfig → Reservation S → Type 0) (P : Job T S W × Reply → Type 0) where
    call-ends :
        (j : Job T S W)
        → Ends Q P j
        → (config : ProviderConfig) (did_reserve : Bool) (s : S) → Q config (proceed did_reserve s)
        → (before : W) (r : W × Result String ChatResponse)
        → sv.upstream config.base_url req before ≡ r
        → P (after_call sv h req ids did_reserve (amount_to_reserve config) (with_budgets sv s j) r)
    unfolding after_call
    call-ends j ends config did_reserve s q before (w, ok resp) e =
        ends.on_answer config did_reserve s w resp q before e
    call-ends j ends config did_reserve s q before (w, err message) e =
        ends.on_failure config did_reserve s w message q before e

    reservation-ends :
        (j : Job T S W)
        → Ends Q P j
        → (config : ProviderConfig) (r : Reservation S) → Q config r
        → P (after_reservation sv h req ids config j r)
    unfolding after_reservation
    reservation-ends j ends config (refused s) q = ends.on_refused config s q
    reservation-ends j ends config (proceed did_reserve s) q =
        call-ends j ends config did_reserve s q j.server.world _ refl

    choice-ends :
        (j : Job T S W)
        → Ends Q P j
        → ((config : ProviderConfig)
            → Q config (
                reserve_budget sv.budget_store ids.session_id h.budget_limit
                  (amount_to_reserve config)
                  j.server.budgets))
        → (o : Option ProviderConfig) → P (after_choice sv h req ids j o)
    unfolding after_choice
    choice-ends j ends q none = ends.on_no_provider
    choice-ends j ends q (some config) = reservation-ends j ends config _ (q config)

    decision-ends :
        (r : EvaluationResult) (j : Job T S W) (d : PolicyDecision)
        → d ≡ allow
        → P (execute_request sv h req ids r j)
        → P (after_decision sv h req ids r j d)
    unfolding after_decision
    decision-ends r j allow e p = p
    decision-ends r j degrade e p = p
    decision-ends r j block e p = absurd (no_block e)
      where
        no_block : block ≡ allow → ⊥
        no_block e = cc

    pub handle_request-ends :
        (server : Server T S W)
        → Ends Q P (started server)
        → ((config : ProviderConfig)
            → Q config (
                reserve_budget sv.budget_store ids.session_id h.budget_limit
                  (amount_to_reserve config)
                  (started server).server.budgets))
        → P (handle_request sv h req ids server)
    unfolding handle_request execute_request
    handle_request-ends server ends q =
        decision-ends _ (prepare sv h req ids server) _ (evaluate-to_constraints h)
          (choice-ends (started server) ends q _)
