-- ===== src/Transport/Chat/Handler/States.antt =====
-- The transitions that the handler records, the status of its answer, and the trace it stores last.
use sentoris_proxy.Prelude.{
  ℕ, arith, ◌≡◌, refl, Map, ◌∙◌, sym, ap, ◌⊎◌, inl, inr, Bool, Bool-cases, true, not, ◌&&◌, Option,
  none, some, List, [], ◌∷◌, String, if◌then◌else◌,
}
use sentoris_proxy.Prelude.Int.{ℤ}
use sentoris_proxy.Domain.Trace.{
  Trace, ExecutionState, unset, init, constraint_eval, executing, validation, finalized, failed,
  StateTransition, can_go,
}
use sentoris_proxy.Errors.{
  new_sentoris_error, wrap_error, http_status_code, status_of, budget_exceeded, provider_not_found,
}
use sentoris_proxy.Hooks.{
  HookChain, HookCall, chain_pre_execute, chain_post_stream, chain_on_failure,
}
use sentoris_proxy.Transport.Headers.{SentorisHeaders}
use sentoris_proxy.Transport.Recorder.{record_transition}
use sentoris_proxy.Transport.Chat.{
  ChatRequest, ChatResponse, Response, Services, Server, Job, move, enter, store_update, run_hooks,
  run_handler, on_chain, fail_job, apply_transitions, handle_error, handle_sentoris_error,
  handle_error_with_message, as_sentoris_error, note_error,
}
use sentoris_proxy.Transport.Chat.Stages.{
  Ids, Reply, answers, panics, note_response, roll_back_budget, commit_budget, with_budgets,
}
use sentoris_proxy.Transport.Chat.Handler.{
  streaming_response, sign_trace, conclude, completion, reply_with, finish, upstream_failed, refuse,
  begin, start, prepare, handle_request,
}
use sentoris_proxy.Transport.Chat.Handler.Path.{started, with_world, handle_request-ends}

-- The first transition of a request, and those of the protocol.
unfoldable pub is_legal : ExecutionState → ExecutionState → Bool
unfolding can_go
is_legal unset init = true
is_legal from to = can_go from to

-- The transitions lead from the first state to the last, each a legal one from where the one before
-- ended.
abbrev pub Chain : ExecutionState → List StateTransition → ExecutionState → Type 0
Chain s [] e = s ≡ e
Chain s (t ∷ ts) e = (t.from ≡ s) × (is_legal s t.to ≡ true) × Chain t.to ts e

Chain-record_transition :
    (s from to : ExecutionState) (now : ℕ) (ts : List StateTransition)
    → is_legal from to ≡ true
    → Chain s ts from
    → Chain s (record_transition from to now ts) to
unfolding record_transition
Chain-record_transition s from to now [] legal c = (sym c, rw c legal, refl)
Chain-record_transition s from to now (t ∷ ts) legal c =
    (c.0, c.1, Chain-record_transition t.to from to now ts legal c.2)

module _ {T S W : Type 0} (sv : Services T S W) where
  move-Chain :
      (from to : ExecutionState) (j : Job T S W)
      → is_legal from to ≡ true
      → Chain unset j.transitions from
      → Chain unset (move sv from to j).transitions to
  unfolding move
  move-Chain from to j legal c = Chain-record_transition unset from to _ j.transitions legal c

  transitions-on_chain :
      (handler : HookChain W → HookCall W) (o : Option (HookChain W)) (j : Job T S W)
      → (on_chain sv handler o j).transitions ≡ j.transitions
  unfolding on_chain run_handler
  transitions-on_chain handler none j = refl
  transitions-on_chain handler (some c) j = refl

  transitions-run_hooks :
      (handler : HookChain W → HookCall W) (j : Job T S W)
      → (run_hooks sv handler j).transitions ≡ j.transitions
  unfolding run_hooks
  transitions-run_hooks handler j = transitions-on_chain handler sv.hook_chain j

  -- A request that ends in FAILED, and is answered with an error.
  abbrev pub Failed : Job T S W × Reply → Type 0
  Failed (j, panics) = ⊥
  Failed (j, answers r) = Chain unset j.transitions failed × ((r.status ≡ 429) ⊎ (r.status ≡ 500))

  -- A request that ends in FINALIZED: a success, but for a stream that cannot be flushed.
  abbrev pub Finalized : ChatRequest → Job T S W × Reply → Type 0
  Finalized req (j, panics) = ⊥
  Finalized req (j, answers r) =
      Chain unset j.transitions finalized
      × (r.status ≡ (if req.stream && not sv.can_flush then 500 else 200))

  module _ (h : SentorisHeaders) (req : ChatRequest) (ids : Ids) where
    begin-Chain : (server : Server T S W) → Chain unset (begin sv h req ids server).transitions init
    unfolding begin is_legal
    begin-Chain server = move-Chain unset init _ refl refl

    prepare-Chain :
        (server : Server T S W)
        → Chain unset (prepare sv h req ids server).transitions constraint_eval
    unfolding prepare store_update enter is_legal
    prepare-Chain server = move-Chain init constraint_eval _ refl (
        rw (transitions-run_hooks chain_pre_execute (begin sv h req ids server))
          (begin-Chain server))

    pub started-Chain :
        (server : Server T S W) → Chain unset (started sv h req ids server).transitions executing
    unfolding start store_update enter is_legal
    started-Chain server = move-Chain constraint_eval executing _ refl (prepare-Chain server)

    pub started_state :
        (server : Server T S W) → (started sv h req ids server).trace.execution_state ≡ executing
    unfolding start store_update enter
    started_state server = refl

    fail_job-Chain :
        (note : Trace → Trace) (j : Job T S W)
        → j.trace.execution_state ≡ executing
        → Chain unset j.transitions executing
        → Chain unset (fail_job sv note j).transitions failed
    unfolding fail_job apply_transitions enter is_legal
    fail_job-Chain note j at c = move-Chain j.trace.execution_state failed j (rw at refl) (rw at c)

    refuse-Failed :
        (note : Trace → Trace) (r : Response) (j : Job T S W)
        → j.trace.execution_state ≡ executing
        → Chain unset j.transitions executing
        → (r.status ≡ 429) ⊎ (r.status ≡ 500)
        → Failed (refuse sv note r j)
    unfolding refuse store_update
    refuse-Failed note r j at c status = (fail_job-Chain note j at c, status)

    roll_back-same :
        (b : Bool) (amount : ℤ) (j : Job T S W)
        → ((roll_back_budget sv b ids.session_id amount j).trace ≡ j.trace)
          × ((roll_back_budget sv b ids.session_id amount j).transitions ≡ j.transitions)
    unfolding roll_back_budget with_budgets
    roll_back-same b amount j = ground arith

    commit-same :
        (b : Bool) (cost : ℤ) (j : Job T S W)
        → ((commit_budget sv b ids.session_id cost j).trace ≡ j.trace)
          × ((commit_budget sv b ids.session_id cost j).transitions ≡ j.transitions)
    unfolding commit_budget with_budgets
    commit-same b cost j = ground arith

    pub upstream_failed-Failed :
        (b : Bool) (amount : ℤ) (e : String) (j : Job T S W)
        → j.trace.execution_state ≡ executing
        → Chain unset j.transitions executing
        → Failed (upstream_failed sv ids b amount e j)
    unfolding upstream_failed store_update handle_error_with_message handle_sentoris_error
        as_sentoris_error wrap_error http_status_code status_of new_sentoris_error
    upstream_failed-Failed b amount e j at c =
        let same = roll_back-same b amount j in
        (
          rw (transitions-run_hooks chain_on_failure _)
              (fail_job-Chain _ _ (rw same.0 at) (rw same.1 c)),
          inr refl,
        )

    status-streaming_response :
        (headers : Map String) (trace : Trace) (resp : ChatResponse)
        → (streaming_response sv headers trace resp).status
          ≡ (if not sv.can_flush then 500 else 200)
    unfolding streaming_response handle_error handle_sentoris_error new_sentoris_error
        http_status_code status_of
    status-streaming_response headers trace resp = ground arith

    transitions-sign_trace : (j : Job T S W) → (sign_trace sv j).transitions ≡ j.transitions
    unfolding sign_trace
    transitions-sign_trace j = ground arith

    transitions-conclude : (j : Job T S W) → (conclude sv j).transitions ≡ j.transitions
    unfolding conclude store_update
    transitions-conclude j = transitions-run_hooks chain_post_stream _ ∙ transitions-sign_trace _

    reply_with-Finalized :
        (resp : ChatResponse) (j : Job T S W)
        → Chain unset j.transitions finalized
        → Finalized req (reply_with sv h req ids resp j)
    unfolding reply_with completion
    reply_with-Finalized resp j c = elim (Bool-cases req.stream) [
      | inl streamed ↦ rw streamed (c, status-streaming_response _ j.trace resp)
      | inr whole ↦ rw whole (rw (transitions-conclude j) c, refl)
    ]

    validated-Chain :
        (j : Job T S W)
        → j.trace.execution_state ≡ executing
        → Chain unset j.transitions executing
        → Chain unset (move sv j.trace.execution_state validation j).transitions validation
    unfolding is_legal
    validated-Chain j at c = move-Chain j.trace.execution_state validation j (rw at refl) (rw at c)

    committed-Chain :
        (b : Bool) (resp : ChatResponse) (j : Job T S W)
        → j.trace.execution_state ≡ executing
        → Chain unset j.transitions executing
        → let committed = commit_budget sv b ids.session_id resp.cost_usd j in
          Chain unset
            (move sv committed.trace.execution_state validation committed).transitions
            validation
    committed-Chain b resp j at c =
        let same = commit-same b resp.cost_usd j in
        validated-Chain _ (ap (λ t. t.execution_state) same.0 ∙ at) (rw same.1 c)

    pub finish-Finalized :
        (b : Bool) (resp : ChatResponse) (j : Job T S W)
        → j.trace.execution_state ≡ executing
        → Chain unset j.transitions executing
        → Finalized req (finish sv h req ids b resp j)
    unfolding finish note_response apply_transitions enter is_legal
    finish-Finalized b resp j at c =
        reply_with-Finalized _ _
          (move-Chain validation finalized _ refl (committed-Chain b resp j at c))

    pub no_provider-Failed :
        (server : Server T S W)
        → Failed (
            refuse sv
              (note_error "PROVIDER_NOT_FOUND" "Model not found")
              (handle_error [] "Model not found" 404 provider_not_found)
              (started sv h req ids server))
    unfolding handle_error handle_sentoris_error new_sentoris_error http_status_code status_of
    no_provider-Failed server =
        refuse-Failed _ _ (started sv h req ids server) (started_state server)
          (started-Chain server) (inr refl)

    pub over_budget-Failed :
        (server : Server T S W) (s : S)
        → Failed (
            refuse sv
              (note_error "BUDGET_EXCEEDED" "Budget limit exceeded")
              (handle_error [] "Budget limit exceeded" 429 budget_exceeded)
              (with_budgets sv s (started sv h req ids server)))
    unfolding with_budgets handle_error handle_sentoris_error new_sentoris_error http_status_code
        status_of
    over_budget-Failed server s =
        refuse-Failed _ _ (with_budgets sv s (started sv h req ids server)) (started_state server)
          (started-Chain server) (inl refl)

    -- Whatever the hooks, the stores and the provider do, the transitions that the handler records for
    -- a decoded request are legal ones from the first to the last, and end in FAILED or in FINALIZED.
    -- In FAILED the answer has the status 429 or 500; in FINALIZED it has the status 200, except for a
    -- stream over a connection that cannot be flushed, which is answered with 500. No request panics.
    pub handle_request-states :
        (server : Server T S W)
        → Failed (handle_request sv h req ids server)
          ⊎ Finalized req (handle_request sv h req ids server)
    unfolding with_budgets
    handle_request-states server =
        let at = started_state server in
        let c = started-Chain server in
        let reserved = λ (s : S). with_budgets sv s (started sv h req ids server) in
        handle_request-ends sv h req ids (λ config r. Unit {0}) (λ p. Failed p ⊎ Finalized req p)
          server
          (record {
            on_no_provider = inl (no_provider-Failed server);
            on_refused = λ config s q. inl (over_budget-Failed server s);
            on_failure = λ config b s w e q _ _.
                inl (upstream_failed-Failed b _ e (with_world sv h req ids w (reserved s)) at c);
            on_answer = λ config b s w resp q _ _.
                inr (finish-Finalized b resp (with_world sv h req ids w (reserved s)) at c);
          })
          (λ config. tt)
