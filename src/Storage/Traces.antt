-- ===== src/Storage/Traces.antt =====
-- `MemoryTraceStore` of internal/adapter/storage/storage.go. The lock makes each method one step. The
-- map holds pointers; a trace here is what stands behind one when the method is called.
pub mod Recent
pub mod Laws
mod Tests
use sentoris_proxy.Prelude.{
  ℕ, zero, suc, ◌+◌, Bool, true, false, ◌&&◌, Option, none, some, List, [], ◌∷◌, String, Result, ok,
  err, str_eq, ltb, length, take, Map, lookup, insert, delete, keep, holds, values, if◌then◌else◌,
  not,
}
use sentoris_proxy.Domain.Trace.{
  Trace, ExecutionState, unset, init, constraint_eval, executing, validation, finalized, failed,
}

pub data TraceError : Type 0 where
  trace_not_found : String → TraceError

abbrev pub MemoryTraceStore : Type 0
MemoryTraceStore = Map Trace

abbrev pub new_memory_trace_store : MemoryTraceStore
new_memory_trace_store = []

unfoldable pub save : MemoryTraceStore → Trace → MemoryTraceStore
save s trace = insert trace.trace_id trace s

or_missing : String → Option Trace → Result TraceError Trace
or_missing id none = err (trace_not_found id)
or_missing id (some trace) = ok trace

unfoldable pub get_trace : MemoryTraceStore → String → Result TraceError Trace
unfolding or_missing
get_trace s id = or_missing id (lookup id s)

unfoldable pub update_trace :
    MemoryTraceStore → Trace → MemoryTraceStore × Result TraceError (Unit {0})
update_trace s trace =
    if holds trace.trace_id s
    then (insert trace.trace_id trace s, ok tt)
    else (s, err (trace_not_found trace.trace_id))

unfoldable pub delete_trace : MemoryTraceStore → String → MemoryTraceStore
delete_trace s id = delete id s

in_session : String → Option String → Bool
in_session session_id none = false
in_session session_id (some id) = str_eq id session_id

pub list_by_session : MemoryTraceStore → String → List Trace
unfolding in_session
list_by_session [] session_id = []
list_by_session ((k, trace) ∷ s) session_id =
    let rest = list_by_session s session_id in
    if in_session session_id trace.session_id then trace ∷ rest else rest

-- `trace.TTLExpireAt != nil && trace.TTLExpireAt.Before(now)`.
unfoldable pub is_expired : (now : ℕ) → Trace → Bool
is_expired now trace = elim trace.ttl_expire_at [ none ↦ false | some at ↦ ltb at now ]

count_expired : (now : ℕ) → MemoryTraceStore → ℕ
count_expired now [] = 0
count_expired now ((k, trace) ∷ s) =
    let rest = count_expired now s in if is_expired now trace then rest + 1 else rest

-- `CleanupExpired`, at the time `now`: the store, and the number of traces deleted.
unfoldable pub cleanup_expired : (now : ℕ) → MemoryTraceStore → MemoryTraceStore × ℕ
unfolding count_expired
cleanup_expired now s = (keep (λ trace. not (is_expired now trace)) s, count_expired now s)

-- One round of the inner loop of `ListRecent`: the trace at place `i` changes place with each later
-- one that is more recent. It hands back the trace that ends at place `i`, and those after it.
pub settle_place : Trace → List Trace → Trace × List Trace
settle_place x [] = (x, [])
settle_place x (y ∷ ys) =
    let later = ltb x.created_at y.created_at in
    let (first, rest) = settle_place (if later then y else x) ys in
    (first, (if later then x else y) ∷ rest)

-- The outer loop, with fuel for the places.
pub exchange_sort : ℕ → List Trace → List Trace
unfolding settle_place
exchange_sort zero xs = xs
exchange_sort (suc places) [] = []
exchange_sort (suc places) (x ∷ xs) =
    let (first, rest) = settle_place x xs in first ∷ exchange_sort places rest

-- A negative limit, at which the slice expression panics, is no `limit` here.
pub list_recent : MemoryTraceStore → (limit : ℕ) → List Trace
unfolding exchange_sort
list_recent s limit =
    let traces = values s in
    let sorted = exchange_sort (length traces) traces in
    if ltb limit (length sorted) then take limit sorted else sorted

pub count : MemoryTraceStore → ℕ
count s = length s

same_state : ExecutionState → ExecutionState → Bool
same_state init init = true
same_state constraint_eval constraint_eval = true
same_state executing executing = true
same_state validation validation = true
same_state finalized finalized = true
same_state failed failed = true
same_state _ _ = false

pub count_in_state : ExecutionState → MemoryTraceStore → ℕ
unfolding same_state
count_in_state state [] = 0
count_in_state state ((k, trace) ∷ s) =
    let rest = count_in_state state s in
    if same_state trace.execution_state state then rest + 1 else rest

pub record Stats : Type 0 where
  pub total : ℕ
  pub in_init : ℕ
  pub in_constraint_eval : ℕ
  pub in_executing : ℕ
  pub in_validation : ℕ
  pub in_finalized : ℕ
  pub in_failed : ℕ

pub get_stats : MemoryTraceStore → Stats
unfolding count_in_state
get_stats s = record {
  total = length s;
  in_init = count_in_state init s;
  in_constraint_eval = count_in_state constraint_eval s;
  in_executing = count_in_state executing s;
  in_validation = count_in_state validation s;
  in_finalized = count_in_state finalized s;
  in_failed = count_in_state failed s;
}
