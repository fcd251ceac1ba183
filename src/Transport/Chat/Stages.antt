-- ===== src/Transport/Chat/Stages.antt =====
-- What `handleChatCompletions` of internal/transport/http/handler.go does to the trace and to the
-- budget, piece by piece.
use sentoris_proxy.Prelude.{
  ℕ, ◌+◌, ◌*◌, ◌-◌, ◌/◌, ◌==◌, Bool, true, false, ◌&&◌, not, Option, none, some, [], ◌∷◌, String,
  Result, ok, err, str_eq, Map, if◌then◌else◌,
}
use sentoris_proxy.Prelude.Int.{ℤ, pos, ◌-ℤ◌, ltb_ℤ}
use sentoris_proxy.Domain.Value.{no_fields, messages}
use sentoris_proxy.Domain.Trace.{
  Trace, init, allow, block, degrade, ConstraintsApplied, no_observations, no_constraints_applied,
}
use sentoris_proxy.Governance.Constraints.{privacy_raw}
use sentoris_proxy.Governance.Evaluator.{EvaluationResult}
use sentoris_proxy.Router.ModelRouter.{ModelRouter, ProviderConfig, find_by_model, default_config}
use sentoris_proxy.Storage.BudgetStore.{BudgetStore}
use sentoris_proxy.Transport.Headers.{SentorisHeaders, get_negotiated_capabilities}
use sentoris_proxy.Transport.Chat.{
  ChatRequest, ChatResponse, Response, Services, Job, set_response_headers, apply_transitions,
}

-- The two identifiers that are drawn at random for a request.
pub record Ids : Type 0 where
  pub trace_id : String
  pub session_id : String

unfoldable pub or_text : String → String → String
or_text default s = if str_eq s "" then default else s

unfoldable pub new_trace : Ids → (created_at : ℕ) → SentorisHeaders → ChatRequest → Trace
unfolding or_text
new_trace ids created_at h req = record {
  trace_id = ids.trace_id;
  parent_id = none;
  session_id = some ids.session_id;
  execution_state = init;
  model = or_text req.model h.override_model;
  input = record {
    prompt = messages req.messages;
    params = req.params;
    metadata = some no_fields;
    seed = none;
  };
  output = record { response = none; truncated = false; finish_reason = "" };
  observations = no_observations;
  proofs = record { audit_signature = ""; proof_type = ""; canonicalization_method = "" };
  constraints_applied = no_constraints_applied;
  created_at = created_at;
  ttl_expire_at = none;
  extensions = none;
}

note_constraints : ConstraintsApplied → EvaluationResult → Trace → Trace
note_constraints used r trace = record trace {
  constraints_applied = record used {
    policy_evaluation = some (record {
      decision = some r.decision;
      checks_passed = r.checks_passed;
      negotiated_capabilities = [];
    });
  };
}

-- The trace of a request that the evaluation lets through.
unfoldable pub note_evaluation : EvaluationResult → Trace → Trace
unfolding note_constraints
note_evaluation r trace = elim r.decision [
  | degrade ↦ elim r.degrade_action [
    | none ↦ note_constraints r.constraints_used r trace
    | some a ↦
        note_constraints (record (r.constraints_used) { degrade_action = some a }) r
          (record trace { observations = record (trace.observations) { degrade_action = some a } })
  ]
  | allow ↦ note_constraints r.constraints_used r trace
  | block ↦ note_constraints r.constraints_used r trace
]

unfoldable pub note_refusal : EvaluationResult → Trace → Trace
unfolding note_constraints
note_refusal r trace =
    note_constraints r.constraints_used r
      (record trace { observations = record (trace.observations) { error = r.error } })

-- The provider that lists the model, or the default one.
unfoldable pub choose_provider : ModelRouter → String → Option ProviderConfig
choose_provider router model = elim (find_by_model model router.providers) [
  | some (name, config) ↦ some config
  | none ↦ default_config router
]

or_price : ℕ → ℕ → ℕ
or_price default p = if p == 0 then default else p

-- A thousand tokens in and four thousand out.
unfoldable pub amount_to_reserve : ProviderConfig → ℤ
unfolding or_price
amount_to_reserve config =
    pos (or_price 1_000 config.input_per_1k + 4 * or_price 2_000 config.output_per_1k)

-- How the part that reserves a budget ends.
pub data Reservation (S : Type 0) : Type 0 where
  refused : S → Reservation S
  proceed : (did_reserve : Bool) → S → Reservation S

unfoldable pub after_reserve : {S : Type 0} → S × Result String Bool → Reservation S
after_reserve (s, err e) = proceed true s
after_reserve (s, ok true) = proceed true s
after_reserve (s, ok false) = refused s

unfoldable pub reserve_budget :
    {S : Type 0} → Option (BudgetStore S) → String → (limit amount : ℤ) → S → Reservation S
unfolding after_reserve
reserve_budget none session_id limit amount s = proceed false s
reserve_budget (some store) session_id limit amount s =
    if ltb_ℤ (pos 0) limit && not (str_eq session_id "")
    then after_reserve (store.reserve session_id amount (store.set_budget session_id limit s).0)
    else proceed false s

-- What a request ends in: an answer, or the panic of a nil error's message.
pub data Reply : Type 0 where
  answers : Response → Reply
  panics : Reply

module _ {T S W : Type 0} (sv : Services T S W) where
  unfoldable pub with_budgets : S → Job T S W → Job T S W
  with_budgets s j = record j { server = record (j.server) { budgets = s } }

  unfoldable pub roll_back_budget : Bool → String → ℤ → Job T S W → Job T S W
  unfolding with_budgets
  roll_back_budget did_reserve session_id amount j = elim sv.budget_store [
    | none ↦ j
    | some store ↦
        if did_reserve && not (str_eq session_id "")
        then with_budgets (store.rollback session_id amount j.server.budgets).0 j
        else j
  ]

  unfoldable pub commit_budget : Bool → String → ℤ → Job T S W → Job T S W
  unfolding with_budgets
  commit_budget did_reserve session_id cost j = elim sv.budget_store [
    | none ↦ j
    | some store ↦
        if did_reserve && not (str_eq session_id "")
        then with_budgets (store.commit session_id cost j.server.budgets).0 j
        else j
  ]

  -- What is left after the cost, as the store has it or as it is computed.
  remaining_after : SentorisHeaders → String → ChatResponse → S → ℤ
  remaining_after h session_id resp s = elim sv.budget_store [
    | none ↦ h.budget_limit -ℤ resp.cost_usd
    | some store ↦
        if str_eq session_id ""
        then h.budget_limit -ℤ resp.cost_usd
        else elim (store.get_remaining session_id s) [
          | ok r ↦ r
          | err e ↦ h.budget_limit -ℤ resp.cost_usd
        ]
  ]

  unfoldable pub answer_headers : SentorisHeaders → String → String → ChatResponse → S → Map String
  unfolding remaining_after
  answer_headers h trace_id session_id resp s =
      set_response_headers sv.format_amount trace_id resp.cost_usd
        (if ltb_ℤ (pos 0) h.budget_limit then some (remaining_after h session_id resp s) else none)
        (get_negotiated_capabilities h ("streaming" ∷ ("tracing" ∷ ("audit" ∷ []))))

  unfoldable pub mask : SentorisHeaders → ChatResponse → ChatResponse
  mask h resp =
      if str_eq h.privacy_level privacy_raw
      then resp
      else elim (sv.apply_masking h.privacy_level resp.content) [
        | none ↦ resp
        | some masked ↦ record resp { content = masked }
      ]

  latency_ms : Job T S W → ℕ
  latency_ms j = (sv.clock j.server.readings - j.trace.created_at) / 1_000_000

  -- The trace once the transitions to the end are recorded.
  unfoldable pub note_response : SentorisHeaders → ChatResponse → Job T S W → Job T S W
  unfolding apply_transitions latency_ms
  note_response h resp j =
      let done = record j {
        trace = record (j.trace) {
          output = record {
            response = some resp.content;
            truncated = false;
            finish_reason = resp.finish_reason;
          };
          observations = record no_observations {
            tokens_count = resp.tokens_used;
            cost_estimated_usd = resp.cost_usd;
            latency_ms = latency_ms j;
          };
        };
        server = record (j.server) { readings = j.server.readings + 1 };
      } in
      let applied = apply_transitions sv done in
      let used = applied.trace.constraints_applied in
      let limited =
        if ltb_ℤ (pos 0) h.budget_limit
        then record used { budget_limit_usd = h.budget_limit; budget_actual_usd = resp.cost_usd }
        else used in
      record applied {
        trace = record (applied.trace) {
          constraints_applied = record limited { privacy_level = h.privacy_level };
        };
      }
