-- ===== src/Audit/Signer.antt =====
-- internal/service/audit/signer.go: what of a trace is signed, and how a signature is checked. The
-- package jcs is Jcs; `format_time` is `Format(time.RFC3339Nano)`, and the layout of numbers, the order
-- of keys and SHA-256 in hexadecimal are libraries'. A map is built field by field.
pub mod Laws
pub mod Tests
use sentoris_proxy.Prelude.{
  ℕ, Bool, true, false, Option, none, some, List, [], ◌∷◌, String, Result, ok, err, ◌>>=◌, str_eq,
  ltb, if◌then◌else◌,
}
use sentoris_proxy.Prelude.Int.{ℤ, pos, ltb_ℤ}
use sentoris_proxy.Domain.Value.{
  Value, null, boolean, integer, number, text, strings, maps, object, Fields, no_fields, field,
  Maps, no_maps, map_item, put,
}
use sentoris_proxy.Domain.Trace.{
  Trace, ExecutionState, unset, init, constraint_eval, executing, validation, finalized, failed,
  PolicyDecision, allow, block, degrade, Input, Output, Observations, StateTransition, ErrorInfo,
  Proofs, ConstraintsApplied, PolicyEvaluation,
}
use sentoris_proxy.Jcs.{JcsError, canonicalize_and_hash}
use sentoris_proxy.Jcs.Text.{sanitize_response}
use sentoris_proxy.Jcs.Strip.{drop_internal, strip_non_signature_fields}

state_text : ExecutionState → String
state_text unset = ""
state_text init = "INIT"
state_text constraint_eval = "CONSTRAINT_EVAL"
state_text executing = "EXECUTING"
state_text validation = "VALIDATION"
state_text finalized = "FINALIZED"
state_text failed = "FAILED"

decision_text : PolicyDecision → String
decision_text allow = "allow"
decision_text block = "block"
decision_text degrade = "degrade"

-- `if present { m[k] = v }`, before the fields that are set later.
when : Bool → String → Value → Fields → Fields
when true k v m = field k v m
when false k v m = m

when_text : String → String → Fields → Fields
unfolding when
when_text k s m = if str_eq s "" then m else field k (text s) m

when_strings : String → List String → Fields → Fields
when_strings k [] m = m
when_strings k (s ∷ ss) m = field k (strings (s ∷ ss)) m

pub when_some : String → Option Value → Fields → Fields
when_some k none m = m
when_some k (some v) m = field k v m

pub text_of : Option String → Option Value
text_of none = none
text_of (some s) = some (text s)

object_of : Option Fields → Option Value
object_of none = none
object_of (some fs) = some (object fs)

not_nil : Value → Option Value
not_nil null = none
not_nil v = some v

unfoldable pub input_to_map : Input → Fields
unfolding when_some not_nil object_of
input_to_map i = when_some "prompt" (not_nil i.prompt) (
    when_some "params" (object_of i.params) (when_some "metadata" (object_of i.metadata) no_fields))

response_of : Output → Option Value
response_of o = elim o.response [
  | none ↦ none
  | some r ↦ some (text (if o.truncated then sanitize_response r else r))
]

unfoldable pub output_to_map : Output → Fields
unfolding when_some response_of when_text
output_to_map o =
    when_some "response" (response_of o) (
      field "truncated" (boolean o.truncated) (when_text "finish_reason" o.finish_reason no_fields))

module _ (format_time : ℕ → String) where
  transition_maps : List StateTransition → Maps
  unfolding state_text
  transition_maps [] = no_maps
  transition_maps (st ∷ sts) =
      map_item
        (field "from" (text (state_text st.from)) (
          field "to" (text (state_text st.to))
            (field "timestamp" (text (format_time st.timestamp)) no_fields)))
        (transition_maps sts)

  transitions_of : List StateTransition → Option Value
  unfolding transition_maps
  transitions_of [] = none
  transitions_of (st ∷ sts) = some (maps (transition_maps (st ∷ sts)))

  error_of : Option ErrorInfo → Option Value
  unfolding when_some object_of
  error_of none = none
  error_of (some e) = some (
      object (
        field "code" (text e.code)
          (field "message" (text e.message) (when_some "details" (object_of e.details) no_fields))))

  unfoldable pub observations_to_map : Observations → Fields
  unfolding when when_some transitions_of error_of
  observations_to_map o =
      when (ltb 0 o.tokens_count) "tokens_count" (integer (pos o.tokens_count)) (
        when (ltb_ℤ (pos 0) o.cost_estimated_usd) "cost_estimated_usd" (number o.cost_estimated_usd)
          (when (ltb 0 o.latency_ms) "latency_ms" (integer (pos o.latency_ms)) (
            when_some "state_transitions" (transitions_of o.state_transitions)
              (when_some "error" (error_of o.error) no_fields))))

unfoldable pub proofs_to_map : Proofs → Fields
unfolding when_text
proofs_to_map p = field "audit_signature" (text p.audit_signature) (
    when_text "proof_type" p.proof_type
      (when_text "canonicalization_method" p.canonicalization_method no_fields))

decision_of : Option PolicyDecision → Option Value
unfolding decision_text
decision_of none = none
decision_of (some d) = some (text (decision_text d))

evaluation_of : Option PolicyEvaluation → Option Value
unfolding when_some when_strings decision_of
evaluation_of none = none
evaluation_of (some pe) = some (
    object (
      when_some "decision" (decision_of pe.decision) (
        when_strings "checks_passed" pe.checks_passed
          (when_strings "negotiated_capabilities" pe.negotiated_capabilities no_fields))))

unfoldable pub constraints_applied_to_map : ConstraintsApplied → Fields
unfolding when when_text when_strings when_some evaluation_of
constraints_applied_to_map ca =
    when (ltb_ℤ (pos 0) ca.budget_limit_usd) "budget_limit_usd" (number ca.budget_limit_usd) (
      when (ltb_ℤ (pos 0) ca.budget_actual_usd) "budget_actual_usd" (number ca.budget_actual_usd) (
        when_text "budget_strategy" ca.budget_strategy (
          when_text "privacy_level" ca.privacy_level (
            when_strings "privacy_masked_fields" ca.privacy_masked_fields (
              when_text "reproducibility_mode" ca.reproducibility_mode
                (when_some "policy_evaluation" (evaluation_of ca.policy_evaluation) no_fields))))))

-- The extensions that are no internal fields, if there are any.
some_fields : Fields → Option Value
some_fields no_fields = none
some_fields (field k v rest) = some (object (field k v rest))

extensions_of : Option Fields → Option Value
unfolding some_fields
extensions_of none = none
extensions_of (some fs) = some_fields (drop_internal fs)

time_of : (ℕ → String) → Option ℕ → Option Value
time_of format_time none = none
time_of format_time (some at) = some (text (format_time at))

unfoldable pub trace_to_map : (ℕ → String) → Trace → Fields
unfolding when_some text_of time_of extensions_of state_text
trace_to_map format_time t = field "trace_id" (text t.trace_id) (
    when_some "parent_id" (text_of t.parent_id) (
      when_some "session_id" (text_of t.session_id) (
        field "execution_state" (text (state_text t.execution_state)) (
          field "model" (text t.model) (
            field "input" (object (input_to_map t.input)) (
              field "output" (object (output_to_map t.output)) (
                field "observations" (object (observations_to_map format_time t.observations)) (
                  field "proofs" (object (proofs_to_map t.proofs)) (
                    field "constraints_applied"
                      (object (constraints_applied_to_map t.constraints_applied))
                      (field "created_at" (text (format_time t.created_at)) (
                        when_some "ttl_expire_at" (time_of format_time t.ttl_expire_at)
                          (when_some "extensions" (extensions_of t.extensions) no_fields))))))))))))

pub data SignError : Type 0 where
  trace_nil : SignError
  canonicalization_failed : JcsError → SignError
  signature_empty : SignError

wrap : {A : Type 0} → Result JcsError A → Result SignError A
wrap (ok a) = ok a
wrap (err e) = err (canonicalization_failed e)

-- `trace.Proofs.AuditSignature = s`.
unfoldable pub with_signature : String → Trace → Trace
with_signature s t = record t { proofs = record (t.proofs) { audit_signature = s } }

module _ (sort : List String → List String) (show_int show_float : ℤ → List ℕ)
    (compute_sha256_hex : List ℕ → String) (format_time : ℕ → String) where
  -- `Sign` of a trace that is not nil.
  unfoldable pub sign_trace : Trace → Result SignError String
  unfolding wrap
  sign_trace t = wrap (
      canonicalize_and_hash sort show_int show_float compute_sha256_hex
        (object (strip_non_signature_fields (trace_to_map format_time (with_signature "" t)))))

  unfoldable pub sign : Option Trace → Result SignError String
  sign none = err trace_nil
  sign (some t) = sign_trace t

  unfoldable pub verify : Option Trace → Result SignError Bool
  verify none = err trace_nil
  verify (some t) =
      if str_eq t.proofs.audit_signature ""
      then err signature_empty
      else do computed ← sign_trace t; ok (str_eq computed t.proofs.audit_signature)
