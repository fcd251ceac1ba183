-- ===== src/Transport/Chat/Handler/Tests.antt =====
-- One provider, a journal for a store of traces, and the store of budgets in memory.
use sentoris_proxy.Prelude.{
  ℕ, ◌≡◌, refl, ◌≢◌, ◌⊎◌, Bool, true, false, Option, none, some, List, [], ◌∷◌, String, ok, err,
  contains, insert, delete,
}
use sentoris_proxy.Prelude.Int.{ℤ, pos, ◌+ℤ◌, ◌-ℤ◌}
use sentoris_proxy.Domain.Trace.{Trace}
use sentoris_proxy.Hooks.{new_hook_chain, chain_post_stream, chain_pre_execute, execute_hooks}
use sentoris_proxy.Transport.Headers.Laws.{evaluate-to_constraints}
use sentoris_proxy.Router.ModelRouter.{find_by_model, ModelRouter, new_model_router, put_provider}
use sentoris_proxy.Storage.Budget.{MemoryBudgetStore, reserve, commit, set_budget}
use sentoris_proxy.Storage.BudgetStore.{memory_budget_store}
use sentoris_proxy.Transport.Headers.{SentorisHeaders, parse_sentoris_headers, is_version_supported}
use sentoris_proxy.Transport.Chat.{
  ChatRequest, ChatResponse, Services, Server, run_hooks, on_chain, apply_transitions, enter, move,
  store_update,
}
use sentoris_proxy.Transport.Chat.Stages.{
  Ids, or_text, reserve_budget, choose_provider, amount_to_reserve, commit_budget, note_response,
  with_budgets, after_reserve,
}
use sentoris_proxy.Transport.Chat.Handler.{
  after_decision, execute_request, after_choice, after_reservation, after_call, finish, reply_with,
  conclude, sign_trace, start, prepare, begin, HttpRequest, override_seed, handle_request,
  handle_chat_completions,
}
use sentoris_proxy.Transport.Chat.Handler.States.{Failed, Finalized, handle_request-states}
use sentoris_proxy.Transport.Chat.Handler.Settling.{Settled, handle_request-Settled}
use sentoris_proxy.Transport.Chat.Handler.Storing.{Stored, handle_request-Stored}
use sentoris_proxy.Transport.Chat.Handler.Guards.{TurnedAway, handle_chat_completions_lem}

abbrev router : ModelRouter
router =
    put_provider "p"
      (record {
        base_url = "http://p";
        auth_header = "";
        models = "m" ∷ [];
        input_per_1k = 0;
        output_per_1k = 3_000;
      })
      (new_model_router none)

abbrev resp : ChatResponse
resp = record {
  model = "m";
  content = "hello";
  finish_reason = "stop";
  tokens_used = 50;
  cost_usd = pos 500;
}

abbrev services : Services (List Trace) MemoryBudgetStore ℕ
services = record {
  save = λ t ts. t ∷ ts;
  update = λ t ts. t ∷ ts;
  budget_store = some memory_budget_store;
  hook_chain = some (new_hook_chain "");
  upstream = λ url req w. (w, ok resp);
  sign = none;
  apply_masking = λ level content. none;
  format_amount = λ a. "0";
  clock = λ n. n;
  can_flush = true;
  router = router;
}

abbrev headers : String → SentorisHeaders
headers model = record {
  version = "1.0";
  capabilities = "tracing" ∷ [];
  action = "";
  baseline_ref = "";
  budget_limit = pos 100_000;
  budget_strategy = "hard_stop";
  privacy_level = "raw";
  diff_output = false;
  focus_fields = [];
  override_model = model;
  seed = none;
  repeatability = false;
  repeatability_id = "";
}

abbrev request : Bool → ChatRequest
request stream = record { model = "m"; messages = []; stream = stream; params = none; seed = none }

abbrev ids : Ids
ids = record { trace_id = "trace_a"; session_id = "sess_b" }

abbrev server : Server (List Trace) MemoryBudgetStore ℕ
server = record {
  traces = [];
  budgets = record { budget = pos 0; reserved = pos 0; used = pos 0 };
  world = 0;
  readings = 0;
}

handle_request-states_example :
    let p = handle_request services (headers "") (request false) ids server in
    Failed services p ⊎ Finalized services (request false) p
handle_request-states_example =
    handle_request-states services (headers "") (request false) ids server

handle_request-Settled_example :
    Settled services
      (headers "")
      (request false)
      ids
      server.budgets
      (handle_request services (headers "") (request false) ids server)
handle_request-Settled_example =
    handle_request-Settled services (headers "") (request false) ids server refl refl refl

handle_request-Stored_example :
    Stored services
      (headers "")
      (request true)
      ids
      (handle_request services (headers "") (request true) ids server)
handle_request-Stored_example =
    handle_request-Stored services (headers "") (request true) ids server

abbrev no_number : String → Option ℤ
no_number s = none

abbrev shown : String → String
shown v = v

abbrev bare : HttpRequest
bare = record { method = "POST"; get_header = λ name. ""; body = ok (request false) }

handle_chat_completions_lem_example :
    let h = parse_sentoris_headers no_number no_number bare.get_header in
    let p = handle_chat_completions services no_number no_number shown bare ids server in
    ((req : ChatRequest)
      → bare.method ≡ "POST"
      → is_version_supported h ≡ true
      → bare.body ≡ ok req
      → p ≡ (
        (handle_request services h (override_seed h req) ids server).0.server,
        some (handle_request services h (override_seed h req) ids server).0,
        (handle_request services h (override_seed h req) ids server).1,
      ))
    × ((bare.method ≢ "POST") → TurnedAway services no_number no_number shown server p)
    × (bare.method ≡ "POST"
        → is_version_supported h ≡ false
        → TurnedAway services no_number no_number shown server p)
    × ((e : String)
        → bare.method ≡ "POST"
        → is_version_supported h ≡ true
        → bare.body ≡ err e
        → TurnedAway services no_number no_number shown server p)
handle_chat_completions_lem_example =
    handle_chat_completions_lem services no_number no_number shown bare ids server

-- Of the 13000 that were set aside, 500 were spent and 12500 stay reserved.
estimate_stays_reserved :
    (handle_request services (headers "") (request false) ids server).0.server.budgets
    ≡ record { budget = pos 100_000; reserved = pos 12_500; used = pos 500 }
unfolding handle_request after_decision execute_request after_choice after_reservation after_call
    reserve_budget choose_provider find_by_model put_provider new_model_router contains
    amount_to_reserve finish commit_budget reply_with conclude run_hooks on_chain new_hook_chain
    chain_post_stream chain_pre_execute execute_hooks sign_trace note_response apply_transitions
    enter move store_update start prepare begin with_budgets after_reserve reserve set_budget commit
    ◌+ℤ◌ ◌-ℤ◌ insert delete or_text
estimate_stays_reserved = rw (evaluate-to_constraints (headers "")) refl
