-- ===== src/Domain/Trace.antt =====
-- internal/domain/trace.go. A time is a number of nanoseconds, and 0 is the zero time. The execution
-- state is the empty text, here `unset`, or one of the six constants: the program makes no other.
pub mod Laws
mod Tests
use sentoris_proxy.Prelude.{
  ℕ, Bool, true, false, not, ◌&&◌, ◌||◌, ◌==◌, Option, none, some, List, [], ◌∷◌, ◌++◌, String,
  Result, ok, err, ◌>>=◌, ◌>>◌, guard, str_eq, if◌then◌else◌,
}
use sentoris_proxy.Prelude.Int.{ℤ, pos}
use sentoris_proxy.Domain.Value.{Value, null, Fields}

pub data ExecutionState : Type 0 where
  unset init constraint_eval executing validation finalized failed : ExecutionState

pub data PolicyDecision : Type 0 where
  allow block degrade : PolicyDecision

pub data DegradeAction : Type 0 where
  switch_model : DegradeAction

pub record Input : Type 0 where
  pub prompt : Value
  pub params : Option Fields
  pub metadata : Option Fields
  pub seed : Option ℤ

pub record Output : Type 0 where
  pub response : Option String
  pub truncated : Bool
  pub finish_reason : String

pub record StateTransition : Type 0 where
  pub from : ExecutionState
  pub to : ExecutionState
  pub timestamp : ℕ

pub record ErrorInfo : Type 0 where
  pub code : String
  pub message : String
  pub details : Option Fields

-- `InternalMetrics` is written and read by nothing, and is left out.
pub record Observations : Type 0 where
  pub tokens_count : ℕ
  pub cost_estimated_usd : ℤ
  pub latency_ms : ℕ
  pub state_transitions : List StateTransition
  pub error : Option ErrorInfo
  pub degrade_action : Option DegradeAction

pub record Proofs : Type 0 where
  pub audit_signature : String
  pub proof_type : String
  pub canonicalization_method : String

-- An empty decision is none.
pub record PolicyEvaluation : Type 0 where
  pub decision : Option PolicyDecision
  pub checks_passed : List String
  pub negotiated_capabilities : List String

pub record ConstraintsApplied : Type 0 where
  pub budget_limit_usd : ℤ
  pub budget_actual_usd : ℤ
  pub budget_strategy : String
  pub privacy_level : String
  pub privacy_masked_fields : List String
  pub reproducibility_mode : String
  pub reproducibility_seed : Option ℤ
  pub policy_evaluation : Option PolicyEvaluation
  pub degrade_action : Option DegradeAction
  pub negotiated_capabilities : List String

pub record Trace : Type 0 where
  pub trace_id : String
  pub parent_id : Option String
  pub session_id : Option String
  pub execution_state : ExecutionState
  pub model : String
  pub input : Input
  pub output : Output
  pub observations : Observations
  pub proofs : Proofs
  pub constraints_applied : ConstraintsApplied
  pub created_at : ℕ
  pub ttl_expire_at : Option ℕ
  pub extensions : Option Fields

-- The zero values of the parts of a trace.
abbrev pub no_observations : Observations
no_observations = record {
  tokens_count = 0;
  cost_estimated_usd = pos 0;
  latency_ms = 0;
  state_transitions = [];
  error = none;
  degrade_action = none;
}

abbrev pub no_constraints_applied : ConstraintsApplied
no_constraints_applied = record {
  budget_limit_usd = pos 0;
  budget_actual_usd = pos 0;
  budget_strategy = "";
  privacy_level = "";
  privacy_masked_fields = [];
  reproducibility_mode = "";
  reproducibility_seed = none;
  policy_evaluation = none;
  degrade_action = none;
  negotiated_capabilities = [];
}

unfoldable pub is_valid : Trace → Bool
is_valid t = not (str_eq t.trace_id "") && (not (str_eq t.model "") && not (t.created_at == 0))

or_text : String → String → String
or_text default s = if str_eq s "" then default else s

unfoldable pub fill_defaults : Trace → Trace
unfolding or_text
fill_defaults t = record t {
  proofs = record (t.proofs) {
    proof_type = or_text "hash_chain" t.proofs.proof_type;
    canonicalization_method = or_text "rfc8785" t.proofs.canonicalization_method;
  };
  output = record (t.output) { finish_reason = or_text "stop" t.output.finish_reason };
}

-- The fields that `ValidateSchema` can name.
pub data ValidationError : Type 0 where
  trace_id_required model_required created_at_required : ValidationError

unfoldable pub validate_schema : Trace → Result ValidationError (Unit {0})
validate_schema t = do
  guard (not (str_eq t.trace_id "")) trace_id_required
  guard (not (str_eq t.model "")) model_required
  guard (not (t.created_at == 0)) created_at_required

-- `now` is what the clock shows.
unfoldable pub add_state_transition : (now : ℕ) → ExecutionState → ExecutionState → Trace → Trace
add_state_transition now from to t = record t {
  observations = record (t.observations) {
    state_transitions =
        t.observations.state_transitions ++ (record { from = from; to = to; timestamp = now } ∷ []);
  };
  execution_state = to;
}

unfoldable pub is_final : ExecutionState → Bool
is_final finalized = true
is_final failed = true
is_final _ = false

unfoldable pub is_final_state : Trace → Bool
unfolding is_final
is_final_state t = is_final t.execution_state

-- The `switch` of `CanTransitionTo`, on the state and the state to go to.
unfoldable pub can_go : ExecutionState → ExecutionState → Bool
can_go init constraint_eval = true
can_go constraint_eval executing = true
can_go constraint_eval failed = true
can_go executing validation = true
can_go executing failed = true
can_go validation finalized = true
can_go validation failed = true
can_go _ _ = false

unfoldable pub can_transition_to : Trace → ExecutionState → Bool
unfolding can_go
can_transition_to t to = can_go t.execution_state to
