-- ===== src/Transport/Chat/Handler.antt =====
-- The handler of internal/transport/http/handler.go, one definition for each part of
-- `handleChatCompletions`, in its order.
mod Path
mod States
mod Settling
mod Storing
mod Guards
mod Tests
use sentoris_proxy.Prelude.{
  ℕ, ◌+◌, ◌*◌, ◌-◌, ◌/◌, ◌==◌, Bool, true, false, ◌&&◌, not, Option, none, some, List, [], ◌∷◌,
  String, Result, ok, err, str_eq, Map, insert, if◌then◌else◌,
}
use sentoris_proxy.Prelude.Int.{ℤ, pos, ◌-ℤ◌, ltb_ℤ}
use sentoris_proxy.Domain.Value.{no_fields, messages}
use sentoris_proxy.Domain.Trace.{
  Trace, PolicyDecision, unset, init, constraint_eval, executing, validation, finalized, allow,
  block, degrade, ConstraintsApplied, no_observations, no_constraints_applied, ErrorInfo,
}
use sentoris_proxy.Errors.{
  SentorisError, budget_exceeded, invalid_constraint, internal_error, invalid_method, invalid_input,
  provider_not_found, upstream_error,
}
use sentoris_proxy.Governance.Constraints.{privacy_raw}
use sentoris_proxy.Governance.Evaluator.{EvaluationResult, evaluate}
use sentoris_proxy.Hooks.{chain_pre_execute, chain_post_stream, chain_on_failure}
use sentoris_proxy.Router.ModelRouter.{ModelRouter, ProviderConfig, find_by_model, default_config}
use sentoris_proxy.Storage.BudgetStore.{BudgetStore}
use sentoris_proxy.Transport.Headers.{
  SentorisHeaders, parse_sentoris_headers, is_version_supported, to_constraints,
  get_negotiated_capabilities,
}
use sentoris_proxy.Transport.Chat.Stages.{
  Ids, or_text, new_trace, note_evaluation, note_refusal, choose_provider, amount_to_reserve,
  Reservation, refused, proceed, reserve_budget, Reply, answers, panics, with_budgets,
  roll_back_budget, commit_budget, answer_headers, mask, note_response,
}
use sentoris_proxy.Transport.Chat.{
  ChatRequest, ChatResponse, Body, completion_body, event_stream, Response, Services, Server, Job,
  handle_error, handle_error_with_message, other, set_response_headers, set_error_response_headers,
  move, enter, store_update, apply_transitions, run_hooks, fail_job, note_error,
}

module _ {T S W : Type 0} (sv : Services T S W) where
  -- `handleStreamingResponse`, after which the handler returns.
  unfoldable pub streaming_response : Map String → Trace → ChatResponse → Response
  streaming_response headers trace resp =
      let set = insert "X-Sentoris-Trace-ID" trace.trace_id (
        insert "Transfer-Encoding" "chunked" (
          insert "Connection" "keep-alive" (
            insert "Cache-Control" "no-cache"
              (insert "Content-Type" "text/event-stream" headers)))) in
      if sv.can_flush
      then record {
        status = 200;
        headers = set;
        body = event_stream trace.trace_id trace.model resp;
      }
      else handle_error set "Streaming not supported" 500 internal_error

  unfoldable pub sign_trace : Job T S W → Job T S W
  sign_trace j = elim sv.sign [
    | none ↦ j
    | some sign ↦ elim (sign j.trace) [
      | err e ↦ j
      | ok signature ↦ record j {
        trace = record (j.trace) {
          proofs = record (j.trace.proofs) { audit_signature = signature };
        };
      }
    ]
  ]

  -- What follows an answer that is not a stream.
  unfoldable pub conclude : Job T S W → Job T S W
  unfolding sign_trace
  conclude j =
      let read = record j { server = record (j.server) { readings = j.server.readings + 1 } } in
      store_update sv (run_hooks sv chain_post_stream (sign_trace read))

  unfoldable pub completion : Map String → Ids → (now : ℕ) → ChatResponse → Response
  completion headers ids now resp = record {
    status = 200;
    headers = insert "Content-Type" "application/json" headers;
    body = completion_body ids.trace_id (now / 1_000_000_000) resp;
  }

  unfoldable pub reply_with :
      SentorisHeaders → ChatRequest → Ids → ChatResponse → Job T S W → Job T S W × Reply
  reply_with h req ids resp j =
      let headers = answer_headers sv h ids.trace_id ids.session_id resp j.server.budgets in
      if req.stream
      then (j, answers (streaming_response headers j.trace resp))
      else (conclude j, answers (completion headers ids (sv.clock j.server.readings) resp))

  unfoldable pub finish :
      SentorisHeaders → ChatRequest → Ids → Bool → ChatResponse → Job T S W → Job T S W × Reply
  finish h req ids did_reserve resp j =
      let masked = mask sv h resp in
      let committed = commit_budget sv did_reserve ids.session_id resp.cost_usd j in
      let checked = move sv committed.trace.execution_state validation committed in
      let done = enter sv finalized (move sv validation finalized checked) in
      reply_with h req ids masked (note_response sv h masked done)

  unfoldable pub upstream_failed : Ids → Bool → ℤ → String → Job T S W → Job T S W × Reply
  upstream_failed ids did_reserve amount e j =
      let rolled = roll_back_budget sv did_reserve ids.session_id amount j in
      let failed_job = fail_job sv (note_error "UPSTREAM_ERROR" e) rolled in
      (
        store_update sv (run_hooks sv chain_on_failure failed_job),
        answers (
            handle_error_with_message (set_error_response_headers ids.trace_id)
              "Upstream request failed" 502 (other e)),
      )

  unfoldable pub after_call :
      SentorisHeaders
      → ChatRequest
      → Ids
      → (did_reserve : Bool) → (reserved_amount : ℤ) → Job T S W
      → W × Result String ChatResponse
      → Job T S W × Reply
  after_call h req ids did_reserve amount j (w, ok resp) =
      finish h req ids did_reserve resp (record j { server = record (j.server) { world = w } })
  after_call h req ids did_reserve amount j (w, err e) =
      upstream_failed ids did_reserve amount e
        (record j { server = record (j.server) { world = w } })

  -- A request that fails before a provider is asked.
  unfoldable pub refuse : (note : Trace → Trace) → Response → Job T S W → Job T S W × Reply
  refuse note response j = (store_update sv (fail_job sv note j), answers response)

  unfoldable pub after_reservation :
      SentorisHeaders
      → ChatRequest
      → Ids
      → ProviderConfig
      → Job T S W
      → Reservation S
      → Job T S W × Reply
  unfolding after_call
  after_reservation h req ids config j (refused s) =
      refuse (note_error "BUDGET_EXCEEDED" "Budget limit exceeded")
        (handle_error [] "Budget limit exceeded" 429 budget_exceeded) (with_budgets sv s j)
  after_reservation h req ids config j (proceed did_reserve s) =
      after_call h req ids did_reserve (amount_to_reserve config) (with_budgets sv s j)
        (sv.upstream config.base_url req j.server.world)

  unfoldable pub after_choice :
      SentorisHeaders → ChatRequest → Ids → Job T S W → Option ProviderConfig → Job T S W × Reply
  unfolding after_reservation
  after_choice h req ids j none =
      refuse (note_error "PROVIDER_NOT_FOUND" "Model not found")
        (handle_error [] "Model not found" 404 provider_not_found) j
  after_choice h req ids j (some config) = after_reservation h req ids config j (
      reserve_budget sv.budget_store ids.session_id h.budget_limit (amount_to_reserve config)
        j.server.budgets)

  blocked_code : ErrorInfo → Response
  blocked_code e =
      handle_error [] e.message 429 (
        if str_eq e.code "SENTORIS_INVALID_CONSTRAINT" then invalid_constraint else budget_exceeded)

  block_request : EvaluationResult → Job T S W → Job T S W × Reply
  unfolding blocked_code
  block_request r j =
      let stored = store_update sv (fail_job sv (note_refusal r) j) in
      elim r.error [ none ↦ (stored, panics) | some e ↦ (stored, answers (blocked_code e)) ]

  -- A request that is let through, up to its second update.
  unfoldable pub start : EvaluationResult → Job T S W → Job T S W
  start r j =
      let noted = record j { trace = note_evaluation r j.trace } in
      store_update sv (enter sv executing (move sv constraint_eval executing noted))

  unfoldable pub execute_request :
      SentorisHeaders → ChatRequest → Ids → EvaluationResult → Job T S W → Job T S W × Reply
  unfolding after_choice
  execute_request h req ids r j =
      after_choice h req ids (start r j)
        (choose_provider sv.router (or_text req.model h.override_model))

  unfoldable pub after_decision :
      SentorisHeaders
      → ChatRequest
      → Ids
      → EvaluationResult
      → Job T S W
      → PolicyDecision
      → Job T S W × Reply
  unfolding block_request
  after_decision h req ids r j block = block_request r j
  after_decision h req ids r j degrade = execute_request h req ids r j
  after_decision h req ids r j allow = execute_request h req ids r j

  -- The trace as it is first saved.
  unfoldable pub begin : SentorisHeaders → ChatRequest → Ids → Server T S W → Job T S W
  begin h req ids server =
      let created = sv.clock (server.readings + 1) in
      let trace = new_trace ids created h req in
      let j = move sv unset init (record { server = server; trace = trace; transitions = [] }) in
      record j {
        server = record (j.server) {
          readings = j.server.readings + 1;
          traces = sv.save trace j.server.traces;
        };
      }

  -- A request that is decoded, up to its first update.
  unfoldable pub prepare : SentorisHeaders → ChatRequest → Ids → Server T S W → Job T S W
  prepare h req ids server = store_update sv (
      enter sv constraint_eval
        (move sv init constraint_eval (run_hooks sv chain_pre_execute (begin h req ids server))))

  unfoldable pub handle_request :
      SentorisHeaders → ChatRequest → Ids → Server T S W → Job T S W × Reply
  handle_request h req ids server =
      let r = evaluate (some (to_constraints h)) (pos 0) in
      after_decision h req ids r (prepare h req ids server) r.decision

-- `r.Method`, the headers and the body as `json.NewDecoder` reads it.
pub record HttpRequest : Type 0 where
  pub method : String
  pub get_header : String → String
  pub body : Result String ChatRequest

unfoldable pub override_seed : SentorisHeaders → ChatRequest → ChatRequest
override_seed h req = elim h.seed [ none ↦ req | some s ↦ record req { seed = some s } ]

-- A request turned away before it has a trace leaves the server as it is: its job is none.
module _ {T S W : Type 0} (sv : Services T S W) (parse_float parse_int : String → Option ℤ)
    (show_unsupported : String → String) where
  unfoldable pub handle_chat_completions :
      HttpRequest → Ids → Server T S W → Server T S W × Option (Job T S W) × Reply
  unfolding override_seed
  handle_chat_completions r ids server =
      let h = parse_sentoris_headers parse_float parse_int r.get_header in
      if not (str_eq r.method "POST")
      then (server, none, answers (handle_error [] "Method not allowed" 405 invalid_method))
      else if not (is_version_supported h)
      then (server, none, answers (handle_error [] (show_unsupported h.version) 400 invalid_input))
      else elim r.body [
        | err e ↦ (
          server,
          none,
          answers (handle_error_with_message [] "Invalid request body" 400 (other e)),
        )
        | ok req ↦
            let (j, reply) = handle_request sv h (override_seed h req) ids server in
            (j.server, some j, reply)
      ]
