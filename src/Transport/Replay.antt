-- ===== src/Transport/Replay.antt =====
-- `handleReplayEval` of internal/transport/http/handler.go: a stored trace is run again, and the two are
-- compared. What lies outside is a field of `ReplayServices`; the errors of the two saves are dropped.
mod Laws
mod Tests
use sentoris_proxy.Prelude.{
  ℕ, Bool, true, false, not, Option, none, some, List, [], ◌∷◌, String, Map, Result, ok, err,
  str_eq, contains, insert, if◌then◌else◌,
}
use sentoris_proxy.Prelude.Int.{ℤ, pos}
use sentoris_proxy.Domain.Value.{Value, null, messages, Message, Fields}
use sentoris_proxy.Domain.Trace.{
  Trace, finalized, fill_defaults, no_observations, no_constraints_applied,
}
use sentoris_proxy.Domain.RiskReport.{RiskReport}
use sentoris_proxy.Errors.{invalid_method, baseline_not_found, internal_error}
use sentoris_proxy.Router.ModelRouter.{ModelRouter, ProviderConfig, get_provider}
use sentoris_proxy.Transport.Chat.{
  ChatRequest, ChatResponse, Response, handle_error, handle_error_with_message, other,
}
use sentoris_proxy.Transport.Headers.{SentorisHeaders}

pub record ReplayRequest : Type 0 where
  pub baseline_trace_id : String
  pub model : String
  pub focus_fields : List String
  pub params : Option Fields
  pub reproducibility : String

-- The stores of traces `T` and of reports `R`, and the world `W` of providers. `get` is none for an
-- error, `sign` is none where the signing fails, `decode` reads the body, and `show` is `%v`.
pub record ReplayServices (T R W : Type 0) : Type 0 where
  pub get : String → T → Option Trace
  pub save : Trace → T → T
  pub save_report : Option (RiskReport → R → R)
  pub upstream : String → ChatRequest → W → W × Result String ChatResponse
  pub sign : Option (Trace → Option String)
  pub compare_traces : Trace → Trace → RiskReport
  pub show : Value → String
  pub router : ModelRouter

pub record ReplayServer (T R W : Type 0) : Type 0 where
  pub traces : T
  pub reports : R
  pub world : W

-- The fresh identifiers and the time of the candidate.
pub record Fresh : Type 0 where
  pub trace_id : String
  pub session_id : String
  pub now : ℕ

-- An error, or the status 200 with headers and a report.
pub data ReplayReply : Type 0 where
  failed_with : Response → ReplayReply
  replayed : Map String → RiskReport → ReplayReply

unfoldable pub model_to_use : Trace → ReplayRequest → SentorisHeaders → String
model_to_use baseline req h =
    if not (str_eq req.model "")
    then req.model
    else if not (str_eq h.override_model "")
    then h.override_model
    else baseline.model

unfoldable pub focus_of : List String → List String → List String
focus_of [] from_header = from_header
focus_of (f ∷ fs) from_header = f ∷ fs

-- The loop over the providers.
unfoldable pub provider_with : String → Map ProviderConfig → Option ProviderConfig
provider_with model [] = none
provider_with model ((name, config) ∷ providers) =
    let others = provider_with model providers in
    if contains config.models model then some config else others

unfoldable pub or_default_provider : ModelRouter → Option ProviderConfig → Option ProviderConfig
unfolding get_provider
or_default_provider router (some config) = some config
or_default_provider router none =
    if str_eq router.default_provider "" then none else get_provider router router.default_provider

unfoldable pub find_provider : String → ModelRouter → Option ProviderConfig
unfolding provider_with or_default_provider
find_provider model router = or_default_provider router (provider_with model router.providers)

unfoldable pub replay_messages : (Value → String) → Value → List Message
replay_messages show null = []
replay_messages show (messages ms) = ms
replay_messages show prompt = record { role = "user"; content = show prompt } ∷ []

-- `reproducibility` with its default.
unfoldable pub reproducibility_of : String → String
reproducibility_of s = if str_eq s "" then "bounded" else s

unfoldable pub mode_of : String → String
mode_of s = if str_eq s "none" then "none" else if str_eq s "strict" then "strict" else "bounded"

unfoldable pub seed_or_default : Option ℤ → ℤ
seed_or_default none = pos 42
seed_or_default (some seed) = seed

unfoldable pub replay_seed : String → Option ℤ → Option ℤ
unfolding seed_or_default
replay_seed reproducibility seed =
    if str_eq reproducibility "none" then none else some (seed_or_default seed)

unfoldable pub params_or : Option Fields → Option Fields → Option Fields
params_or none given = given
params_or (some params) given = some params

unfoldable pub chat_request : (Value → String) → String → Trace → ReplayRequest → ChatRequest
unfolding replay_messages reproducibility_of replay_seed params_or
chat_request show model baseline req = record {
  model = model;
  messages = replay_messages show baseline.input.prompt;
  stream = false;
  params = params_or req.params baseline.input.params;
  seed = replay_seed (reproducibility_of req.reproducibility) baseline.input.seed;
}

unfoldable pub candidate_trace : Fresh → Trace → ReplayRequest → ChatRequest → ChatResponse → Trace
unfolding mode_of reproducibility_of fill_defaults
candidate_trace ids baseline req sent resp = fill_defaults (record {
  trace_id = ids.trace_id;
  parent_id = some (baseline.trace_id);
  session_id = some (ids.session_id);
  execution_state = finalized;
  model = sent.model;
  input = record {
    prompt = baseline.input.prompt;
    params = sent.params;
    metadata = baseline.input.metadata;
    seed = sent.seed;
  };
  output = record {
    response = some (resp.content);
    truncated = false;
    finish_reason = resp.finish_reason;
  };
  observations = record no_observations {
    tokens_count = resp.tokens_used;
    cost_estimated_usd = resp.cost_usd;
  };
  proofs = record { audit_signature = ""; proof_type = ""; canonicalization_method = "" };
  constraints_applied = record no_constraints_applied {
    reproducibility_mode = mode_of (reproducibility_of req.reproducibility);
  };
  created_at = ids.now;
  ttl_expire_at = none;
  extensions = none;
})

-- `setReplayResponseHeaders` and the content type.
unfoldable pub replay_headers : (trace_id baseline_id : String) → Bool → Map String
replay_headers trace_id baseline_id model_changed =
    let version = insert "Sentoris-Trace-Id" trace_id (insert "Sentoris-Version" "1.0" []) in
    let reference =
      if str_eq baseline_id ""
      then version
      else insert "Sentoris-Baseline-Ref" baseline_id version in
    insert "Content-Type" "application/json"
      (if model_changed then insert "Sentoris-Model-Changed" "true" reference else reference)

-- `if len(focusFields) > 0 { … }`.
unfoldable pub with_focus : List String → RiskReport → RiskReport
with_focus [] report = report
with_focus (f ∷ fs) report = record report { focus_fields = f ∷ fs }

module _ {T R W : Type 0} (sv : ReplayServices T R W) where
  -- `if err == nil { … }`.
  pub with_sign : Option (Trace → Option String) → Trace → Trace
  with_sign none t = t
  with_sign (some sign) t = elim (sign t) [
    | none ↦ t
    | some s ↦ record t { proofs = record (t.proofs) { audit_signature = s } }
  ]

  pub save_to : Option (RiskReport → R → R) → RiskReport → R → R
  save_to none report reports = reports
  save_to (some save) report reports = save report reports

  -- What follows a call of the provider that has no error.
  unfoldable pub conclude_replay :
      Fresh
      → Trace
      → ReplayRequest
      → (focus : List String) → ChatRequest
      → ChatResponse
      → ReplayServer T R W
      → ReplayServer T R W × ReplayReply
  unfolding candidate_trace with_sign save_to replay_headers with_focus
  conclude_replay ids baseline req focus sent resp server =
      let candidate = with_sign sv.sign (candidate_trace ids baseline req sent resp) in
      let report = with_focus focus (sv.compare_traces baseline candidate) in
      (
        record server {
          traces = sv.save candidate server.traces;
          reports = save_to sv.save_report report server.reports;
        },
        replayed
            (replay_headers ids.trace_id baseline.trace_id (not (str_eq sent.model baseline.model)))
            report,
      )

  answer_replay :
      Fresh
      → Trace
      → ReplayRequest
      → (focus : List String) → ChatRequest
      → ReplayServer T R W
      → Result String ChatResponse
      → ReplayServer T R W × ReplayReply
  unfolding conclude_replay
  answer_replay ids baseline req focus sent server (err e) =
      (server, failed_with (handle_error [] "Failed to execute LLM request" 500 internal_error))
  answer_replay ids baseline req focus sent server (ok resp) =
      conclude_replay ids baseline req focus sent resp server

  replay_at :
      Fresh
      → SentorisHeaders
      → ReplayRequest
      → Trace
      → ReplayServer T R W
      → Option ProviderConfig
      → ReplayServer T R W × ReplayReply
  unfolding answer_replay chat_request model_to_use focus_of
  replay_at ids h req baseline server none =
      (server, failed_with (handle_error [] "Failed to get provider" 500 internal_error))
  replay_at ids h req baseline server (some config) =
      let sent = chat_request sv.show (model_to_use baseline req h) baseline req in
      let called = sv.upstream config.base_url sent server.world in
      answer_replay ids baseline req (focus_of req.focus_fields h.focus_fields) sent
        (record server { world = called.0 }) called.1

  replay_found :
      Fresh
      → SentorisHeaders
      → ReplayRequest
      → ReplayServer T R W
      → Option Trace
      → ReplayServer T R W × ReplayReply
  unfolding replay_at find_provider model_to_use
  replay_found ids h req server none =
      (server, failed_with (handle_error [] "Baseline trace not found" 404 baseline_not_found))
  replay_found ids h req server (some baseline) =
      replay_at ids h req baseline server (find_provider (model_to_use baseline req h) sv.router)

  -- The body is what the decoder makes of it, or its error.
  unfoldable pub handle_replay_eval :
      Fresh
      → (method : String) → SentorisHeaders
      → Result String ReplayRequest
      → ReplayServer T R W
      → ReplayServer T R W × ReplayReply
  unfolding replay_found
  handle_replay_eval ids method h (err e) server = (
    server,
    failed_with (
        if str_eq method "POST"
        then handle_error_with_message [] "Invalid request body" 400 (other e)
        else handle_error [] "Method not allowed" 405 invalid_method),
  )
  handle_replay_eval ids method h (ok req) server =
      if str_eq method "POST"
      then replay_found ids h req server (sv.get req.baseline_trace_id server.traces)
      else (server, failed_with (handle_error [] "Method not allowed" 405 invalid_method))
