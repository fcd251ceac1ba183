-- ===== src/Transport/Replay/Tests.antt =====
-- Replays over a store of one trace, with one provider.
use sentoris_proxy.Prelude.{
  ◌≡◌, ◌⊎◌, refl, false, none, some, List, [], ◌∷◌, ok, contains, str_eq, if◌then◌else◌, ℕ,
}
use sentoris_proxy.Prelude.Int.{pos}
use sentoris_proxy.Domain.Trace.{Trace}
use sentoris_proxy.Domain.RiskReport.{RiskReport, new_risk_report}
use sentoris_proxy.Audit.Signer.{sign}
use sentoris_proxy.Audit.Signer.Tests.{no_digits, as_is, show_time, plain, digest}
use sentoris_proxy.Router.ModelRouter.{new_model_router}
use sentoris_proxy.Transport.Headers.{SentorisHeaders}
use sentoris_proxy.Transport.Chat.{ChatResponse}
use sentoris_proxy.Transport.Replay.{
  ReplayRequest, ReplayServices, ReplayServer, Fresh, handle_replay_eval, replay_seed,
  find_provider, focus_of,
}
use sentoris_proxy.Transport.Replay.Laws.{
  IsRefused, IsReplayOf, handle_replay_eval_lem, signed_text,
}

abbrev answer : ChatResponse
answer = record {
  model = "m";
  content = "yes";
  finish_reason = "stop";
  tokens_used = 2;
  cost_usd = pos 1;
}

abbrev report_of : Trace → Trace → RiskReport
report_of a b = new_risk_report a.trace_id b.trace_id

abbrev services : ReplayServices (List Trace) (List RiskReport) ℕ
services = record {
  get = λ trace_id traces. if str_eq trace_id "t" then some plain else none;
  save = λ t traces. t ∷ traces;
  save_report = some (λ r reports. r ∷ reports);
  upstream = λ base_url req calls. (calls, ok answer);
  sign = some (λ t. signed_text (sign as_is no_digits no_digits digest show_time (some t)));
  compare_traces = report_of;
  show = λ v. "prompt";
  router = record (new_model_router none) {
    providers =
        (
          "p",
          record {
            base_url = "u";
            auth_header = "";
            models = "m" ∷ [];
            input_per_1k = 1;
            output_per_1k = 1;
          },
        )
        ∷ [];
  };
}

abbrev request : ReplayRequest
request = record {
  baseline_trace_id = "t";
  model = "";
  focus_fields = "output.response" ∷ [];
  params = none;
  reproducibility = "";
}

abbrev no_headers : SentorisHeaders
no_headers = record {
  version = "1.0";
  capabilities = [];
  action = "";
  baseline_ref = "";
  budget_limit = pos 0;
  budget_strategy = "";
  privacy_level = "";
  diff_output = false;
  focus_fields = [];
  override_model = "";
  seed = none;
  repeatability = false;
  repeatability_id = "";
}

abbrev server : ReplayServer (List Trace) (List RiskReport) ℕ
server = record { traces = []; reports = []; world = 0 }

abbrev ids : Fresh
ids = record { trace_id = "c"; session_id = "s"; now = 9 }

default_seed : replay_seed "bounded" none ≡ some (pos 42)
unfolding replay_seed
default_seed = refl

handle_replay_eval_lem_example :
    IsRefused services server
      (handle_replay_eval services ids "POST" no_headers (ok request) server)
    ⊎ IsReplayOf services
        ("output.response" ∷ [])
        (some plain)
        server
        (handle_replay_eval services ids "POST" no_headers (ok request) server)
unfolding focus_of
handle_replay_eval_lem_example =
    handle_replay_eval_lem services ids "POST" no_headers request server

unknown_model_without_default : find_provider "other" services.router ≡ none
unfolding find_provider contains new_model_router
unknown_model_without_default = refl
