-- ===== src/Router/ModelRouter/Models.antt =====
-- `GetAllModels` against the search by model.
use sentoris_proxy.Prelude.{
  ◌≡◌, refl, ◌↔◌, ◌≢◌, inl, inr, Bool, Bool-cases, true, false, ◌||◌, none, List, [], ◌∷◌, ◌++◌,
  String, str_eq, eq_iff, contains, arith, Map,
}
use sentoris_proxy.Router.ModelRouter.{
  ProviderConfig, ModelRouter, find_by_model, add_models, all_models, get_all_models,
}

-- No text stands twice.
abbrev pub Distinct : List String → Type 0
Distinct [] = Unit
Distinct (x ∷ xs) = (contains xs x ≡ false) × Distinct xs

contains-snoc :
    (xs : List String) (y m : String) → contains (xs ++ (y ∷ [])) m ≡ (contains xs m || str_eq y m)
unfolding contains
contains-snoc [] y m = ground arith
contains-snoc (x ∷ xs) y m = ground (arith, contains-snoc xs y m)

Distinct-snoc :
    (xs : List String) (y : String)
    → Distinct xs
    → contains xs y ≡ false
    → Distinct (xs ++ (y ∷ []))
unfolding contains
Distinct-snoc [] y d h = (refl, tt)
Distinct-snoc (x ∷ xs) y d h =
    ground (arith, contains-snoc xs y x, Distinct-snoc xs y d.1, eq_iff x y, eq_iff y x)

add_models-contains :
    (ms seen : List String) (m : String)
    → contains (add_models seen ms) m ≡ (contains seen m || contains ms m)
unfolding add_models contains
add_models-contains [] seen m = ground arith
add_models-contains (x ∷ ms) seen m = elim (Bool-cases (contains seen x)) [
  | inl old ↦ ground (arith, add_models-contains ms seen m, eq_iff x m)
  | inr new ↦ ground (arith, add_models-contains ms (seen ++ (x ∷ [])) m, contains-snoc seen x m)
]

add_models-Distinct : (ms seen : List String) → Distinct seen → Distinct (add_models seen ms)
unfolding add_models
add_models-Distinct [] seen d = d
add_models-Distinct (x ∷ ms) seen d = elim (Bool-cases (contains seen x)) [
  | inl old ↦ rw old (add_models-Distinct ms seen d)
  | inr new ↦ rw new (add_models-Distinct ms (seen ++ (x ∷ [])) (Distinct-snoc seen x d new))
]

-- Whether some provider lists the model.
abbrev lists : String → Map ProviderConfig → Bool
lists m [] = false
lists m ((name, config) ∷ rest) = contains config.models m || lists m rest

find_by_model-lists :
    (m : String) (ps : Map ProviderConfig) → (lists m ps ≡ true) ↔ (find_by_model m ps ≢ none)
unfolding find_by_model
find_by_model-lists m [] = ground arith
find_by_model-lists m ((name, config) ∷ rest) = ground (arith, find_by_model-lists m rest)

all_models-contains :
    (ps : Map ProviderConfig) (seen : List String) (m : String)
    → contains (all_models seen ps) m ≡ (contains seen m || lists m ps)
unfolding all_models
all_models-contains [] seen m = ground arith
all_models-contains ((name, config) ∷ ps) seen m = ground (
  arith,
  all_models-contains ps (add_models seen config.models) m,
  add_models-contains config.models seen m,
)

all_models-Distinct :
    (ps : Map ProviderConfig) (seen : List String) → Distinct seen → Distinct (all_models seen ps)
unfolding all_models
all_models-Distinct [] seen d = d
all_models-Distinct ((name, config) ∷ ps) seen d =
    all_models-Distinct ps (add_models seen config.models)
      (add_models-Distinct config.models seen d)

-- The list of all models names no model twice, and names a model exactly when the search for a
-- provider of that model finds one.
pub get_all_models_lem :
    (r : ModelRouter)
    → Distinct (get_all_models r)
      × ((m : String)
          → (contains (get_all_models r) m ≡ true) ↔ (find_by_model m r.providers ≢ none))
unfolding get_all_models contains
get_all_models_lem r = (
  all_models-Distinct r.providers [] tt,
  λ m. ground (arith, all_models-contains r.providers [] m, find_by_model-lists m r.providers),
)
