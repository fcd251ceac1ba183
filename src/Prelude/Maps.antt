-- ===== src/Prelude/Maps.antt =====
-- A Go map with string keys as an association list. The order of the list stands for the order of
-- iteration, which Go leaves open; `insert` and `delete` are `m[k] = v` and `delete(m, k)`.
use Prim.Native.String.{String}
use mathlib.Core.Path.{◌≡◌, refl}
use mathlib.Core.Bool.{Bool, true, false, ◌||◌}
use mathlib.Core.List.{List, [], ◌∷◌}
use mathlib.Core.Option
use mathlib.Core.Option.{Option, none, some}
use native.Mathlib.Omega.{arith}
use text.Mathlib.Text.{◌==◌ as str_eq}
use text.Mathlib.TextEquality.{eq_iff}
use sentoris_proxy.Prelude.Tests.{if◌then◌else◌, Bool-cases}
use mathlib.Core.Logic.{inl, inr}

abbrev pub Map {ℓ} : Type ℓ → Type ℓ
Map V = List (String × V)

module _ {ℓ} {V : Type ℓ} where
  unfoldable pub delete : String → Map V → Map V
  delete key [] = []
  delete key ((name, held) ∷ others) =
      let kept = delete key others in if str_eq name key then kept else (name, held) ∷ kept

  unfoldable pub lookup : String → Map V → Option V
  lookup key [] = none
  lookup key ((name, held) ∷ others) = if str_eq name key then some held else lookup key others

  unfoldable pub insert : String → V → Map V → Map V
  insert key new [] = (key, new) ∷ []
  insert key new ((name, held) ∷ others) =
      if str_eq name key then (key, new) ∷ others else (name, held) ∷ insert key new others

  pub lookup-delete :
      (key other : String) (entries : Map V)
      → lookup other (delete key entries)
        ≡ (if str_eq key other then none else lookup other entries)
  unfolding delete lookup
  lookup-delete key other [] = ground arith
  lookup-delete key other ((name, held) ∷ rest) =
      ground
        (arith, eq_iff name key, eq_iff name other, eq_iff key other, lookup-delete key other rest)

  pub lookup-insert :
      (key other : String) (new : V) (entries : Map V)
      → lookup other (insert key new entries)
        ≡ (if str_eq key other then some new else lookup other entries)
  unfolding insert lookup
  lookup-insert key other new [] = refl
  lookup-insert key other new ((name, held) ∷ rest) = ground (
    arith,
    eq_iff name key,
    eq_iff name other,
    eq_iff key other,
    lookup-insert key other new rest,
  )

-- The values, in the order of iteration.
abbrev pub values {ℓ} : {V : Type ℓ} → Map V → List V
values [] = []
values ((k, v) ∷ m) = v ∷ values m

module _ {ℓ κ} {V : Type ℓ} {U : Type κ} where
  -- A write through each pointer that the map holds.
  unfoldable pub map_values : (V → U) → Map V → Map U
  map_values f [] = []
  map_values f ((k, v) ∷ m) = (k, f v) ∷ map_values f m

  pub lookup-map_values :
      (f : V → U) (k : String) (m : Map V) → lookup k (map_values f m) ≡ Option.map f (lookup k m)
  unfolding lookup map_values
  lookup-map_values f k [] = refl
  lookup-map_values f k ((j, v) ∷ m) = ground (arith, lookup-map_values f k m)

module _ {ℓ} {V : Type ℓ} where
  -- A write through the pointer that the map holds at `k`, if there is one.
  unfoldable pub update : String → (V → V) → Map V → Map V
  update k f [] = []
  update k f ((j, v) ∷ m) = if str_eq j k then (j, f v) ∷ m else (j, v) ∷ update k f m

  pub lookup-update :
      (k j : String) (f : V → V) (m : Map V)
      → lookup j (update k f m) ≡ (if str_eq k j then Option.map f (lookup j m) else lookup j m)
  unfolding lookup update
  lookup-update k j f [] = ground arith
  lookup-update k j f ((i, w) ∷ m) =
      ground (arith, eq_iff k j, eq_iff i k, eq_iff i j, lookup-update k j f m)

-- What is kept of a value that may be absent.
abbrev pub retain {ℓ} : {V : Type ℓ} → (V → Bool) → Option V → Option V
retain p none = none
retain p (some v) = if p v then some v else none

module _ {ℓ} {V : Type ℓ} where
  -- `_, ok := m[k]`.
  unfoldable pub holds : String → Map V → Bool
  holds k [] = false
  holds k ((j, v) ∷ m) = str_eq j k || holds k m

  -- A map holds no key twice.
  abbrev pub IsMap : Map V → Type 0
  IsMap [] = Unit
  IsMap ((k, v) ∷ m) = (holds k m ≡ false) × IsMap m

  -- `delete(m, k)` for each `k` in the map whose value fails the test.
  unfoldable pub keep : (V → Bool) → Map V → Map V
  keep p [] = []
  keep p ((k, v) ∷ m) = let kept = keep p m in if p v then (k, v) ∷ kept else kept

  pub lookup-holds : (k : String) (m : Map V) → holds k m ≡ false → lookup k m ≡ none
  unfolding lookup holds
  lookup-holds k [] h = refl
  lookup-holds k ((j, v) ∷ m) h = ground (arith, lookup-holds k m)

  pub holds-insert :
      (k j : String) (v : V) (m : Map V)
      → holds j (insert k v m) ≡ (if str_eq k j then true else holds j m)
  unfolding insert holds
  holds-insert k j v [] = ground arith
  holds-insert k j v ((i, w) ∷ m) =
      ground (arith, eq_iff k j, eq_iff i k, eq_iff i j, holds-insert k j v m)

  pub insert-IsMap : (k : String) (v : V) (m : Map V) → IsMap m → IsMap (insert k v m)
  unfolding insert holds
  insert-IsMap k v [] h = ground arith
  insert-IsMap k v ((j, w) ∷ m) h =
      ground (arith, insert-IsMap k v m h.1, holds-insert k j v m, eq_iff j k, eq_iff k j)

  holds-keep :
      (p : V → Bool) (k : String) (m : Map V) → holds k m ≡ false → holds k (keep p m) ≡ false
  unfolding keep holds
  holds-keep p k [] h = refl
  holds-keep p k ((j, v) ∷ m) h = ground (arith, holds-keep p k m)

  pub keep-IsMap : (p : V → Bool) (m : Map V) → IsMap m → IsMap (keep p m)
  unfolding keep holds
  keep-IsMap p [] h = tt
  keep-IsMap p ((j, v) ∷ m) h = ground (arith, keep-IsMap p m h.1, holds-keep p j m)

  pub holds-delete_all :
      (k j : String) (m : Map V) → holds j (delete k m) ≡ (if str_eq k j then false else holds j m)
  unfolding delete holds
  holds-delete_all k j [] = ground arith
  holds-delete_all k j ((i, v) ∷ m) =
      ground (arith, eq_iff k j, eq_iff i k, eq_iff i j, holds-delete_all k j m)

  pub holds-lookup : (k : String) (m : Map V) → holds k m ≡ true → (v : V) × (lookup k m ≡ some v)
  unfolding holds lookup
  holds-lookup k [] h = absurd (no_key h)
    where
      no_key : false ≡ true → ⊥
      no_key e = cc
  holds-lookup k ((j, v) ∷ m) h = elim (Bool-cases (str_eq j k)) [
    | inl here ↦ (v, rw here)
    | inr later ↦ rw later (holds-lookup k m (rw later at h))
  ]

  holds-delete : (k j : String) (m : Map V) → holds j m ≡ false → holds j (delete k m) ≡ false
  unfolding delete holds
  holds-delete k j [] h = refl
  holds-delete k j ((i, v) ∷ m) h = ground (arith, holds-delete k j m)

  pub delete-IsMap : (k : String) (m : Map V) → IsMap m → IsMap (delete k m)
  unfolding delete holds
  delete-IsMap k [] h = tt
  delete-IsMap k ((j, v) ∷ m) h = ground (arith, delete-IsMap k m h.1, holds-delete k j m)

  pub lookup-keep :
      (p : V → Bool) (k : String) (m : Map V)
      → IsMap m
      → lookup k (keep p m) ≡ retain p (lookup k m)
  unfolding keep lookup holds
  lookup-keep p k [] h = refl
  lookup-keep p k ((j, v) ∷ m) h =
      ground (arith, eq_iff j k, lookup-keep p k m h.1, lookup-holds j m h.0)
