-- ===== src/Transport/Recorder.antt =====
-- `StateTransitionRecorder` of internal/transport/http/state_transitions.go. The source reads the
-- clock for each transition; here the time is an argument.
use sentoris_proxy.Prelude.{ℕ, List, [], ◌∷◌, ◌++◌}
use sentoris_proxy.Domain.Trace.{
  ExecutionState, unset, init, constraint_eval, executing, validation, finalized, failed,
  StateTransition, Observations,
}

abbrev pub Recorder : Type 0
Recorder = List StateTransition

unfoldable pub record_transition : ExecutionState → ExecutionState → (now : ℕ) → Recorder → Recorder
record_transition from to now r = r ++ (record { from = from; to = to; timestamp = now } ∷ [])

-- The state that the last transition went to, or the default where there is none.
unfoldable pub last_state : ExecutionState → Recorder → ExecutionState
last_state default [] = default
last_state default (t ∷ ts) = last_state t.to ts

pub record_init : ℕ → Recorder → Recorder
record_init = record_transition unset init

pub record_constraint_eval : ℕ → Recorder → Recorder
unfolding last_state
record_constraint_eval now r = record_transition (last_state init r) constraint_eval now r

pub record_executing : ℕ → Recorder → Recorder
unfolding last_state
record_executing now r = record_transition (last_state constraint_eval r) executing now r

pub record_validation : ℕ → Recorder → Recorder
record_validation = record_transition executing validation

pub record_finalized : ℕ → Recorder → Recorder
unfolding last_state
record_finalized now r = record_transition (last_state validation r) finalized now r

pub record_failed : ℕ → Recorder → Recorder
unfolding last_state
record_failed now r = record_transition (last_state executing r) failed now r

unfoldable pub apply_to_observations : Recorder → Observations → Observations
apply_to_observations r o = record o { state_transitions = r }
