-- ===== src/Domain/Trace/Tests.antt =====
-- A trace that goes from INIT to EXECUTING.
use sentoris_proxy.Prelude.{ℕ, ◌≤◌, ◌≡◌, refl, none, true, false}
use sentoris_proxy.Domain.Value.{null}
use sentoris_proxy.Domain.Trace.{
  Trace, ExecutionState, init, constraint_eval, executing, no_observations, no_constraints_applied,
  is_final_state, can_transition_to, add_state_transition,
}
use sentoris_proxy.Domain.Trace.Laws.{Moves, here, move, Moves-bounded}

abbrev fresh : Trace
fresh = record {
  trace_id = "t";
  parent_id = none;
  session_id = none;
  execution_state = init;
  model = "m";
  input = record { prompt = null; params = none; metadata = none; seed = none };
  output = record { response = none; truncated = false; finish_reason = "" };
  observations = no_observations;
  proofs = record { audit_signature = ""; proof_type = ""; canonicalization_method = "" };
  constraints_applied = no_constraints_applied;
  created_at = 7;
  ttl_expire_at = none;
  extensions = none;
}

abbrev evaluated : Trace
evaluated = add_state_transition 8 init constraint_eval fresh

two-Moves : Moves fresh 2 (add_state_transition 9 evaluated.execution_state executing evaluated)
unfolding add_state_transition can_transition_to
two-Moves = move 9 executing (move 8 constraint_eval here refl) refl

Moves-bounded_example :
    (2 ≤ 4)
    × (is_final_state fresh ≡ true → ◌≡◌ {A = ℕ} 2 0)
    × ((to : ExecutionState)
        → is_final_state (add_state_transition 9 evaluated.execution_state executing evaluated)
          ≡ true
        → can_transition_to
            (add_state_transition 9 evaluated.execution_state executing evaluated)
            to
          ≡ false)
Moves-bounded_example = Moves-bounded two-Moves

no_way_back : can_transition_to evaluated init ≡ false
unfolding can_transition_to add_state_transition
no_way_back = refl
