-- ===== src/Storage/Traces/Laws.antt =====
-- The store against what it promises: a partial function from trace identifiers to traces.
use mathlib.Core.Path.{fun_ext}
use sentoris_proxy.Prelude.{
  ℕ, ◌+◌, ◌≤◌, ◌≡◌, refl, sym, ◌∙◌, Bool, true, false, not, Option, none, some, [], ◌∷◌, String, ok,
  err, str_eq, arith, length, lookup, keep, holds, retain, IsMap, lookup-insert, lookup-delete,
  lookup-keep, insert-IsMap, delete-IsMap, keep-IsMap, lookup-holds, holds-lookup, if◌then◌else◌,
  inl, inr, Bool-cases,
}
use sentoris_proxy.Domain.Trace.{Trace}
use sentoris_proxy.Storage.Traces.{
  MemoryTraceStore, trace_not_found, save, or_missing, get_trace, update_trace, delete_trace,
  is_expired, cleanup_expired, count_expired,
}

abbrev pub View : Type 0
View = String → Option Trace

abbrev pub view : MemoryTraceStore → View
view s id = lookup id s

-- The promised operations.
abbrev pub put : Trace → View → View
put trace v id = if str_eq trace.trace_id id then some trace else v id

abbrev pub replace : Trace → View → View
replace trace v id = elim (v trace.trace_id) [ none ↦ v id | some old ↦ put trace v id ]

abbrev pub remove : String → View → View
remove id v j = if str_eq id j then none else v j

abbrev pub forget_expired : (now : ℕ) → View → View
forget_expired now v id = retain (λ trace. not (is_expired now trace)) (v id)

update_missing :
    (s : MemoryTraceStore) (trace : Trace)
    → holds trace.trace_id s ≡ false
    → update_trace s trace ≡ (s, err (trace_not_found trace.trace_id))
unfolding update_trace
update_missing s trace h = rw h

update_stored :
    (s : MemoryTraceStore) (trace : Trace)
    → holds trace.trace_id s ≡ true
    → update_trace s trace ≡ (save s trace, ok tt)
unfolding update_trace save
update_stored s trace h = rw h

view-save : (s : MemoryTraceStore) (trace : Trace) → view (save s trace) ≡ put trace (view s)
unfolding save
view-save s trace = fun_ext (λ id. lookup-insert trace.trace_id id trace s)

replace_held :
    (trace old : Trace) (v : View) → v trace.trace_id ≡ some old → replace trace v ≡ put trace v
replace_held trace old v e = fun_ext (λ id. rw (e, replace))

replace_absent : (trace : Trace) (v : View) → v trace.trace_id ≡ none → replace trace v ≡ v
replace_absent trace v e = fun_ext (λ id. rw (e, replace))

view-update :
    (s : MemoryTraceStore) (trace : Trace) → view (update_trace s trace).0 ≡ replace trace (view s)
view-update s trace = elim (Bool-cases (holds trace.trace_id s)) [
  | inl stored ↦
      let found = holds-lookup trace.trace_id s stored in
      rw (update_stored s trace stored)
        (view-save s trace ∙ sym (replace_held trace found.0 (view s) found.1))
  | inr missing ↦
      rw (update_missing s trace missing)
        (sym (replace_absent trace (view s) (lookup-holds trace.trace_id s missing)))
]

-- The store is a partial function from identifiers to traces: saving puts a trace under its
-- identifier, updating does so where one is held and otherwise changes nothing and reports an error,
-- deleting and cleaning up take out what they should and no more, and reading gives what is held. No
-- operation ever makes an identifier stand twice.
pub trace_store-view :
    (s : MemoryTraceStore) (trace : Trace) (id : String) (now : ℕ)
    → IsMap s
    → (view (save s trace) ≡ put trace (view s))
      × (view (update_trace s trace).0 ≡ replace trace (view s))
      × ((update_trace s trace).1 ≡ elim (view s trace.trace_id) [
        | none ↦ err (trace_not_found trace.trace_id)
        | some old ↦ ok tt
      ])
      × (view (delete_trace s id) ≡ remove id (view s))
      × (view (cleanup_expired now s).0 ≡ forget_expired now (view s))
      × (get_trace s id ≡ elim (view s id) [ none ↦ err (trace_not_found id) | some t ↦ ok t ])
      × IsMap (save s trace)
      × IsMap (update_trace s trace).0
      × IsMap (delete_trace s id)
      × IsMap (cleanup_expired now s).0
trace_store-view s trace id now h = (
  view-save s trace,
  view-update s trace,
  update_answer,
  unfold delete_trace in fun_ext (λ j. lookup-delete id j s),
  unfold cleanup_expired in fun_ext (λ j. lookup-keep _ j s h),
  unfold get_trace in found (lookup id s),
  unfold save in insert-IsMap _ trace s h,
  update_map,
  unfold delete_trace in delete-IsMap id s h,
  unfold cleanup_expired in keep-IsMap _ s h,
)
  where
    found :
        (o : Option Trace)
        → or_missing id o ≡ elim o [ none ↦ err (trace_not_found id) | some t ↦ ok t ]
    found none = unfold or_missing in refl
    found (some t) = unfold or_missing in refl

    update_answer : (update_trace s trace).1 ≡ elim (view s trace.trace_id) [
      | none ↦ err (trace_not_found trace.trace_id)
      | some old ↦ ok tt
    ]
    update_answer = elim (Bool-cases (holds trace.trace_id s)) [
      | inl stored ↦ rw (update_stored s trace stored, (holds-lookup trace.trace_id s stored).1)
      | inr missing ↦ rw (update_missing s trace missing, lookup-holds trace.trace_id s missing)
    ]

    update_map : IsMap (update_trace s trace).0
    update_map = elim (Bool-cases (holds trace.trace_id s)) [
      | inl stored ↦ rw (update_stored s trace stored) (unfold save in insert-IsMap _ trace s h)
      | inr missing ↦ rw (update_missing s trace missing) h
    ]

abbrev fresh_at : ℕ → Trace → Bool
fresh_at now trace = not (is_expired now trace)

count_expired-keep :
    (now : ℕ) (s : MemoryTraceStore)
    → count_expired now s + length (keep (fresh_at now) s) ≡ length s
unfolding count_expired keep
count_expired-keep now [] = omega arith
count_expired-keep now ((k, trace) ∷ s) = ground (arith, count_expired-keep now s)

count_expired-again :
    (now : ℕ) (s : MemoryTraceStore) (earlier : ℕ)
    → earlier ≤ now
    → count_expired earlier (keep (fresh_at now) s) ≡ 0
unfolding count_expired keep is_expired
count_expired-again now [] earlier h = refl
count_expired-again now ((k, trace) ∷ s) earlier h =
    ground (arith, count_expired-again now s earlier h)

-- The number that a cleanup reports is the number of traces that it takes out, and a second cleanup
-- whose clock shows no later time takes out none.
pub cleanup_expired_count :
    (now earlier : ℕ) (s : MemoryTraceStore)
    → earlier ≤ now
    → let (kept, deleted) = cleanup_expired now s in
      (deleted + length kept ≡ length s) × ((cleanup_expired earlier kept).1 ≡ 0)
unfolding cleanup_expired
cleanup_expired_count now earlier s h =
    (count_expired-keep now s, count_expired-again now s earlier h)
