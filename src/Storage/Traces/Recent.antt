-- ===== src/Storage/Traces/Recent.antt =====
-- The exchange sort of `ListRecent`.
use mathlib.Core.Path.{subst}
use mathlib.Core.List.{Perm}
use mathlib.Core.List.Perm
use sentoris_proxy.Prelude.{
  ℕ, zero, suc, ◌≤◌, ◌≡◌, refl, sym, true, false, List, [], ◌∷◌, inl, inr, Bool-cases, arith, ltb,
  length, take, All, values, take-all, not-ltb→le, if◌then◌else◌, ltb→lt,
}
use sentoris_proxy.Domain.Trace.{Trace}
use sentoris_proxy.Storage.Traces.{MemoryTraceStore, settle_place, exchange_sort, list_recent}

abbrev pub NotAfter : Trace → Trace → Type 0
NotAfter x y = y.created_at ≤ x.created_at

-- The most recent first.
abbrev pub IsSorted : List Trace → Type 0
IsSorted [] = Unit
IsSorted (x ∷ xs) = All (NotAfter x) xs × IsSorted xs

settle_place-perm :
    (x : Trace) (xs : List Trace) → Perm ((settle_place x xs).0 ∷ (settle_place x xs).1) (x ∷ xs)
unfolding settle_place
settle_place-perm x [] = Perm.refl _
settle_place-perm x (y ∷ ys) = elim (Bool-cases (ltb x.created_at y.created_at)) [
  | inl later ↦ rw later (Perm.trans (Perm.swap _ _ _) (Perm.cons x (settle_place-perm y ys)))
  | inr no_later ↦ rw no_later (
      Perm.trans (Perm.swap _ _ _)
        (Perm.trans (Perm.cons y (settle_place-perm x ys)) (Perm.swap _ _ _)))
]

-- One step of the round, in each of its branches.
settle_later :
    (x y : Trace) (ys : List Trace)
    → ltb x.created_at y.created_at ≡ true
    → settle_place x (y ∷ ys) ≡ ((settle_place y ys).0, x ∷ (settle_place y ys).1)
unfolding settle_place
settle_later x y ys later = rw later

settle_no_later :
    (x y : Trace) (ys : List Trace)
    → ltb x.created_at y.created_at ≡ false
    → settle_place x (y ∷ ys) ≡ ((settle_place x ys).0, y ∷ (settle_place x ys).1)
unfolding settle_place
settle_no_later x y ys no_later = rw no_later

abbrev Tops : Trace → Trace × List Trace → Type 0
Tops x p = NotAfter p.0 x × All (NotAfter p.0) p.1

settle_place-max : (x : Trace) (xs : List Trace) → Tops x (settle_place x xs)
settle_place-max x [] = unfold settle_place in (omega arith, tt)
settle_place-max x (y ∷ ys) = elim (Bool-cases (ltb x.created_at y.created_at)) [
  | inl later ↦
      let ih = settle_place-max y ys in
      let below : NotAfter (settle_place y ys).0 x = omega (arith, ltb→lt _ _ later, ih.0) in
      subst (Tops x) (sym (settle_later x y ys later)) (below, (below, ih.1))
  | inr no_later ↦
      let ih = settle_place-max x ys in
      let below : NotAfter (settle_place x ys).0 y = omega (arith, not-ltb→le _ _ no_later, ih.0) in
      subst (Tops x) (sym (settle_no_later x y ys no_later)) (ih.0, (below, ih.1))
]

settle_place-All :
    (P : Trace → Type 0) (x : Trace) (xs : List Trace)
    → P x
    → All P xs
    → P (settle_place x xs).0 × All P (settle_place x xs).1
unfolding settle_place
settle_place-All P x [] p ps = (p, tt)
settle_place-All P x (y ∷ ys) p ps = elim (Bool-cases (ltb x.created_at y.created_at)) [
  | inl later ↦ rw later (let ih = settle_place-All P y ys ps.0 ps.1 in (ih.0, (p, ih.1)))
  | inr no_later ↦ rw no_later (let ih = settle_place-All P x ys p ps.1 in (ih.0, (ps.0, ih.1)))
]

exchange_sort-All :
    (P : Trace → Type 0) (n : ℕ) (xs : List Trace) → All P xs → All P (exchange_sort n xs)
unfolding exchange_sort
exchange_sort-All P zero xs ps = ps
exchange_sort-All P (suc n) [] ps = ps
exchange_sort-All P (suc n) (x ∷ xs) ps =
    let settled = settle_place-All P x xs ps.0 ps.1 in
    (settled.0, exchange_sort-All P n _ settled.1)

settle_place-length : (x : Trace) (xs : List Trace) → length (settle_place x xs).1 ≡ length xs
unfolding settle_place
settle_place-length x [] = refl
settle_place-length x (y ∷ ys) = ground (arith, settle_place-length x ys, settle_place-length y ys)

exchange_sort-perm : (n : ℕ) (xs : List Trace) → Perm (exchange_sort n xs) xs
unfolding exchange_sort
exchange_sort-perm zero xs = Perm.refl xs
exchange_sort-perm (suc n) [] = Perm.refl []
exchange_sort-perm (suc n) (x ∷ xs) =
    Perm.trans (Perm.cons _ (exchange_sort-perm n _)) (settle_place-perm x xs)

exchange_sort-IsSorted : (n : ℕ) (xs : List Trace) → length xs ≤ n → IsSorted (exchange_sort n xs)
unfolding exchange_sort
exchange_sort-IsSorted zero [] h = tt
exchange_sort-IsSorted zero (x ∷ xs) h = absurd (omega arith)
exchange_sort-IsSorted (suc n) [] h = tt
exchange_sort-IsSorted (suc n) (x ∷ xs) h = (
  exchange_sort-All (NotAfter (settle_place x xs).0) n _ (settle_place-max x xs).1,
  exchange_sort-IsSorted n _ (omega (arith, settle_place-length x xs)),
)

limited : (n : ℕ) (xs : List Trace) → (if ltb n (length xs) then take n xs else xs) ≡ take n xs
limited n xs = elim (Bool-cases (ltb n (length xs))) [
  | inl longer ↦ rw longer
  | inr fits ↦ rw fits (sym (take-all n xs (not-ltb→le _ _ fits)))
]

-- The most recent traces are the first ones, as many as the limit lets through, of an arrangement of
-- all the stored traces in which none comes before a more recent one.
pub list_recent_lem :
    (s : MemoryTraceStore) (limit : ℕ)
    → (xs : List Trace) × Perm xs (values s) × IsSorted xs × (list_recent s limit ≡ take limit xs)
unfolding list_recent
list_recent_lem s limit =
    let sorted = exchange_sort (length (values s)) (values s) in
    (
      sorted,
      exchange_sort-perm _ (values s),
      exchange_sort-IsSorted _ (values s) (omega arith),
      limited limit sorted,
    )
