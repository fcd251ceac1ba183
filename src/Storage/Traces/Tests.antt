-- ===== src/Storage/Traces/Tests.antt =====
-- A store of two traces, one of which has expired at time 50.
use mathlib.Core.List.{Perm}
use sentoris_proxy.Prelude.{
  ℕ, ◌≡◌, refl, Option, none, some, false, List, [], ◌∷◌, String, ok, err, length, take, IsMap,
  values, insert, holds,
}
use sentoris_proxy.Domain.Value.{null}
use sentoris_proxy.Domain.Trace.{Trace, executing, no_observations, no_constraints_applied}
use sentoris_proxy.Storage.Traces.{
  MemoryTraceStore, trace_not_found, save, get_trace, update_trace, delete_trace, cleanup_expired,
  list_recent, list_by_session, get_stats, count, new_memory_trace_store,
}
use sentoris_proxy.Storage.Traces.Recent.{IsSorted, list_recent_lem}
use sentoris_proxy.Storage.Traces.Laws.{
  view, put, replace, remove, forget_expired, trace_store-view,
}

abbrev trace_at : String → ℕ → Option ℕ → Trace
trace_at id created ttl = record {
  trace_id = id;
  parent_id = none;
  session_id = some "s";
  execution_state = executing;
  model = "m";
  input = record { prompt = null; params = none; metadata = none; seed = none };
  output = record { response = none; truncated = false; finish_reason = "" };
  observations = no_observations;
  proofs = record { audit_signature = ""; proof_type = ""; canonicalization_method = "" };
  constraints_applied = no_constraints_applied;
  created_at = created;
  ttl_expire_at = ttl;
  extensions = none;
}

abbrev two : MemoryTraceStore
two = ("a", trace_at "a" 1 (some 40)) ∷ (("b", trace_at "b" 2 none) ∷ [])

saved : save (save new_memory_trace_store (trace_at "a" 1 (some 40))) (trace_at "b" 2 none) ≡ two
unfolding save insert
saved = refl

recent_first : list_recent two 1 ≡ trace_at "b" 2 none ∷ []
unfolding list_recent
recent_first = refl

by_session : length (list_by_session two "s") ≡ count two
unfolding list_by_session count
by_session = refl

stats_of_two : (get_stats two).in_executing ≡ 2
unfolding get_stats
stats_of_two = refl

two-IsMap : IsMap two
unfolding holds
two-IsMap = (refl, (refl, tt))

trace_store-view_example :
    let s = two in
    let trace = trace_at "a" 3 none in
    (view (save s trace) ≡ put trace (view s))
    × (view (update_trace s trace).0 ≡ replace trace (view s))
    × ((update_trace s trace).1 ≡ elim (view s trace.trace_id) [
      | none ↦ err (trace_not_found trace.trace_id)
      | some old ↦ ok tt
    ])
    × (view (delete_trace s "b") ≡ remove "b" (view s))
    × (view (cleanup_expired 50 s).0 ≡ forget_expired 50 (view s))
    × (get_trace s "b" ≡ elim (view s "b") [ none ↦ err (trace_not_found "b") | some t ↦ ok t ])
    × IsMap (save s trace)
    × IsMap (update_trace s trace).0
    × IsMap (delete_trace s "b")
    × IsMap (cleanup_expired 50 s).0
trace_store-view_example = trace_store-view two (trace_at "a" 3 none) "b" 50 two-IsMap

list_recent_lem_example :
    (xs : List Trace) × Perm xs (values two) × IsSorted xs × (list_recent two 1 ≡ take 1 xs)
list_recent_lem_example = list_recent_lem two 1
