-- ===== src/Domain/Trace/Laws.antt =====
-- The life of a trace as its state machine allows it, and the checks of a trace.
use sentoris_proxy.Prelude.{ℕ, zero, suc, ◌+◌, ◌≤◌, ◌≡◌, true, false, arith}
use sentoris_proxy.Domain.Trace.{
  ExecutionState, init, constraint_eval, executing, validation, Trace, is_final, is_final_state,
  can_go, can_transition_to, add_state_transition,
}

-- A trace that moves only where `CanTransitionTo` allows it, counted in moves.
pub data Moves (t : Trace) : ℕ → Trace → Type 0 where
  here : Moves t zero t
  move :
      {n : ℕ} {u : Trace} (now : ℕ) (to : ExecutionState)
      → Moves t n u
      → can_transition_to u to ≡ true
      → Moves t (suc n) (add_state_transition now u.execution_state to u)

-- How many moves a state can still make.
abbrev rank : ExecutionState → ℕ
rank init = 4
rank constraint_eval = 3
rank executing = 2
rank validation = 1
rank _ = 0

can_go-rank : (s t : ExecutionState) → can_go s t ≡ true → rank t + 1 ≤ rank s
unfolding can_go
can_go-rank s t h = ground arith

Moves-rank :
    {t u : Trace} {n : ℕ} → Moves t n u → n + rank u.execution_state ≤ rank t.execution_state
unfolding add_state_transition can_transition_to
Moves-rank here = omega arith
Moves-rank (move {u = u} now to m h) =
    omega (arith, Moves-rank m, can_go-rank u.execution_state to h)

-- From any state a trace makes at most four moves that `CanTransitionTo` allows, and a state that is
-- final allows none.
pub Moves-bounded :
    {t u : Trace} {n : ℕ}
    → Moves t n u
    → (n ≤ 4)
      × (is_final_state t ≡ true → n ≡ 0)
      × ((to : ExecutionState) → is_final_state u ≡ true → can_transition_to u to ≡ false)
unfolding is_final_state is_final can_transition_to can_go
Moves-bounded {t} {u} m = (
  omega (arith, Moves-rank m, rank-le t.execution_state),
  λ f. omega (arith, Moves-rank m, rank-final t.execution_state f),
  λ to f. ground arith,
)
  where
    rank-le : (s : ExecutionState) → rank s ≤ 4
    rank-le s = ground arith

    rank-final : (s : ExecutionState) → is_final s ≡ true → rank s ≤ 0
    rank-final s f = ground arith
