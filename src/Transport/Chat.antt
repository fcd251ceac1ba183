-- ===== src/Transport/Chat.antt =====
-- `handleChatCompletions` of internal/transport/http/handler.go: its parts, and the state they share.
-- A request's own state is a `Job`; the server's stores, the hooks' world and the clock's readings so
-- far are a `Server`. Amounts are millionths of a dollar, so that prices for a thousand tokens and
-- the cost of a token are whole. What lies outside is a field of `Services`.
pub mod Stages
pub mod Handler
use sentoris_proxy.Prelude.{
  ℕ, ◌+◌, ◌*◌, ◌-◌, ◌/◌, ◌==◌, Bool, true, false, Option, none, some, List, [], ◌∷◌, String, Result,
  ok, err, str_eq, Map, insert, if◌then◌else◌,
}
use Prim.Native.String.{◌++◌ as append}
use sentoris_proxy.Prelude.Int.{ℤ, pos, ◌-ℤ◌, ltb_ℤ}
use sentoris_proxy.Domain.Value.{Fields, no_fields, Message, messages}
use sentoris_proxy.Domain.Trace.{
  Trace, ExecutionState, unset, init, constraint_eval, executing, validation, finalized, failed,
  StateTransition, ErrorInfo, Observations, no_observations, no_constraints_applied,
}
use sentoris_proxy.Errors.{
  SentorisError, ErrorCode, new_sentoris_error, wrap_error, internal_error, http_status_code,
}
use sentoris_proxy.Hooks.{HookChain, HookCall}
use sentoris_proxy.Storage.BudgetStore.{BudgetStore}
use sentoris_proxy.Router.ModelRouter.{ModelRouter, ProviderConfig}
use sentoris_proxy.Transport.Recorder.{Recorder, record_transition, apply_to_observations}

pub record ChatRequest : Type 0 where
  pub model : String
  pub messages : List Message
  pub stream : Bool
  pub params : Option Fields
  pub seed : Option ℤ

pub record ChatResponse : Type 0 where
  pub model : String
  pub content : String
  pub finish_reason : String
  pub tokens_used : ℕ
  pub cost_usd : ℤ

-- What a body is encoded from.
pub data Body : Type 0 where
  error_body : SentorisError → Body
  completion_body : (trace_id : String) → (created : ℕ) → ChatResponse → Body
  event_stream : (trace_id model : String) → ChatResponse → Body

pub record Response : Type 0 where
  pub status : ℕ
  pub headers : Map String
  pub body : Body

-- The stores of traces `T` and budgets `S`, and the world `W` of hooks and providers. The errors of
-- `save` and `update` are dropped. `upstream` is `Chat` of a client for a base URL, whose errors are
-- those of the HTTP and JSON libraries, by their text. `apply_masking` is none where it fails.
pub record Services (T S W : Type 0) : Type 0 where
  pub save : Trace → T → T
  pub update : Trace → T → T
  pub budget_store : Option (BudgetStore S)
  pub hook_chain : Option (HookChain W)
  pub upstream : String → ChatRequest → W → W × Result String ChatResponse
  pub sign : Option (Trace → Result String String)
  pub apply_masking : (level content : String) → Option String
  pub format_amount : ℤ → String
  pub clock : ℕ → ℕ
  pub can_flush : Bool
  pub router : ModelRouter

pub record Server (T S W : Type 0) : Type 0 where
  pub traces : T
  pub budgets : S
  pub world : W
  pub readings : ℕ

pub record Job (T S W : Type 0) : Type 0 where
  pub server : Server T S W
  pub trace : Trace
  pub transitions : Recorder

-- `handleSentorisError`: `handleError` has a status code among its arguments and does not use it.
unfoldable pub handle_sentoris_error : Map String → SentorisError → Response
unfolding http_status_code
handle_sentoris_error headers e = record {
  status = http_status_code e;
  headers = insert "Content-Type" "application/json" headers;
  body = error_body e;
}

unfoldable pub handle_error : Map String → String → (status_code : ℕ) → ErrorCode → Response
unfolding handle_sentoris_error new_sentoris_error
handle_error headers message status_code code =
    handle_sentoris_error headers (new_sentoris_error code message)

-- The kinds of `error` that `handleErrorWithMessage` tells apart.
pub data GoError : Type 0 where
  sentoris : SentorisError → GoError
  bare_code : ErrorCode → GoError
  other : String → GoError

unfoldable pub as_sentoris_error : GoError → String → SentorisError
unfolding new_sentoris_error wrap_error
as_sentoris_error (sentoris e) message = e
as_sentoris_error (bare_code code) message = new_sentoris_error code message
as_sentoris_error (other underlying) message = wrap_error underlying internal_error message

unfoldable pub handle_error_with_message :
    Map String → String → (status_code : ℕ) → GoError → Response
unfolding handle_sentoris_error as_sentoris_error
handle_error_with_message headers message status_code e =
    handle_sentoris_error headers (as_sentoris_error e message)

-- `strings.Join(cs, ",")`.
join_commas : List String → String
join_commas [] = ""
join_commas (c ∷ []) = c
join_commas (c ∷ (d ∷ ds)) = append c (append "," (join_commas (d ∷ ds)))

insert_remaining : (ℤ → String) → Option ℤ → Map String → Map String
insert_remaining format_amount none headers = headers
insert_remaining format_amount (some r) headers =
    insert "Sentoris-Budget-Remaining" (format_amount r) headers

insert_accepted : List String → Map String → Map String
unfolding join_commas
insert_accepted [] headers = headers
insert_accepted (c ∷ cs) headers = insert "Sentoris-Accepted" (join_commas (c ∷ cs)) headers

unfoldable pub set_response_headers :
    (ℤ → String) → String → ℤ → Option ℤ → List String → Map String
unfolding insert_remaining insert_accepted
set_response_headers format_amount trace_id cost remaining accepted =
    let first =
      insert "Sentoris-Cost-Consumed" (format_amount cost)
        (insert "Sentoris-Trace-Id" trace_id (insert "Sentoris-Version" "1.0" [])) in
    insert_accepted accepted (insert_remaining format_amount remaining first)

unfoldable pub set_error_response_headers : String → Map String
set_error_response_headers trace_id =
    let first = insert "Sentoris-Version" "1.0" [] in
    insert "Sentoris-Accepted" ""
      (if str_eq trace_id "" then first else insert "Sentoris-Trace-Id" trace_id first)

module _ {T S W : Type 0} (sv : Services T S W) where
  -- `RecordTransition`, with a reading of the clock.
  unfoldable pub move : ExecutionState → ExecutionState → Job T S W → Job T S W
  unfolding record_transition
  move from to j = record j {
    transitions = record_transition from to (sv.clock j.server.readings) j.transitions;
    server = record (j.server) { readings = j.server.readings + 1 };
  }

  -- `trace.ExecutionState = s`.
  unfoldable pub enter : ExecutionState → Job T S W → Job T S W
  enter s j = record j { trace = record (j.trace) { execution_state = s } }

  unfoldable pub store_update : Job T S W → Job T S W
  store_update j = record j {
    server = record (j.server) { traces = sv.update j.trace j.server.traces };
  }

  -- `ApplyToObservations` to the trace's observations.
  unfoldable pub apply_transitions : Job T S W → Job T S W
  unfolding apply_to_observations
  apply_transitions j = record j {
    trace = record (j.trace) {
      observations = apply_to_observations j.transitions j.trace.observations;
    };
  }

  run_handler : HookCall W → Job T S W → Job T S W
  run_handler handler j =
      let (w, trace, _) = handler j.trace j.server.world in
      record j { trace = trace; server = record (j.server) { world = w } }

  unfoldable pub on_chain :
      (HookChain W → HookCall W) → Option (HookChain W) → Job T S W → Job T S W
  unfolding run_handler
  on_chain handler none j = j
  on_chain handler (some c) j = run_handler (handler c) j

  -- The hooks where there is a chain; an error that they report is logged.
  unfoldable pub run_hooks : (HookChain W → HookCall W) → Job T S W → Job T S W
  unfolding on_chain
  run_hooks handler j = on_chain handler sv.hook_chain j

  -- What the ways to fail have in common, up to what is done with the trace: `note` is what the trace
  -- is given besides its state and its transitions.
  unfoldable pub fail_job : (note : Trace → Trace) → Job T S W → Job T S W
  unfolding move enter apply_transitions
  fail_job note j =
      let moved = enter failed (move j.trace.execution_state failed j) in
      apply_transitions (record moved { trace = note moved.trace })

-- `trace.Observations.Error = &domain.ErrorInfo{Code: code, Message: message}`.
unfoldable pub note_error : (code message : String) → Trace → Trace
note_error code message trace = record trace {
  observations = record (trace.observations) {
    error = some (record { code = code; message = message; details = none });
  };
}
