-- ===== src/Router/ModelRouter/Laws.antt =====
-- A router whose clients match its providers: what every operation keeps, and what it is good for.
use sentoris_proxy.Prelude.{
  ◌≡◌, refl, ◌∙◌, sym, ap, ◌⊎◌, inl, inr, Bool-cases, true, Option, none, some, List, [], ◌∷◌,
  String, eq_iff, ok, err, arith, Map, holds, holds-insert, holds-delete_all, holds-lookup,
  Option-cases,
}
use sentoris_proxy.Storage.Provider.{MemoryProviderStore}
use sentoris_proxy.Storage.Provider
use sentoris_proxy.Router.ModelRouter.{
  ProviderConfig, Client, ModelRouter, no_provider_for, new_model_router, put_provider, of_stored,
  load_all, load_from, load_from_store, with_store, add_provider, set_default_provider,
  find_by_model, get_client, client_of, by_prefix, prefix_of, add_degrade_mapping, drop_provider,
  remove_provider,
}

-- Providers and clients stand under the same names.
abbrev pub Paired : ModelRouter → Type 0
Paired r = (name : String) → holds name r.clients ≡ holds name r.providers

with_store-Paired :
    (f : MemoryProviderStore → MemoryProviderStore) (r : ModelRouter)
    → Paired r
    → Paired (with_store f r)
unfolding with_store
with_store-Paired f r p name = elim (Option-cases r.provider_store) [
  | inl no_store ↦ rw no_store (p name)
  | inr store ↦ rw store.1 (p name)
]

put_provider-Paired :
    (name : String) (config : ProviderConfig) (r : ModelRouter)
    → Paired r
    → Paired (put_provider name config r)
unfolding put_provider
put_provider-Paired name config r p other =
    holds-insert name other _ r.clients
    ∙ (rw (p other) (sym (holds-insert name other config r.providers)))

load_all-Paired :
    (ps : List Provider.ProviderConfig) (r : ModelRouter) → Paired r → Paired (load_all ps r)
unfolding load_all
load_all-Paired [] r p = p
load_all-Paired (q ∷ ps) r p = elim (Bool-cases q.is_default) [
  | inl marked ↦ rw marked (load_all-Paired ps _ (put_provider-Paired q.name (of_stored q) r p))
  | inr plain ↦ rw plain (load_all-Paired ps _ (put_provider-Paired q.name (of_stored q) r p))
]

load_from-Paired :
    (store : Option MemoryProviderStore) (r : ModelRouter) → Paired r → Paired (load_from store r).0
unfolding load_from
load_from-Paired none r p = p
load_from-Paired (some store) r p = load_all-Paired _ r p

remove_provider-Paired :
    (name : String) (r : ModelRouter) → Paired r → Paired (remove_provider name r).0
unfolding remove_provider
remove_provider-Paired name r p = elim (Bool-cases (holds name r.providers)) [
  | inl known ↦ rw known (with_store-Paired _ (drop_provider name r) dropped)
  | inr unknown ↦ rw unknown p
]
  where
    dropped : Paired (drop_provider name r)
    dropped other =
        unfold drop_provider in
        (holds-delete_all name other r.clients
          ∙ (rw (p other) (sym (holds-delete_all name other r.providers))))

-- The operations that change a router.
pub data Step (r : ModelRouter) : ModelRouter → Type 0 where
  adds : (name : String) (config : ProviderConfig) → Step r (add_provider name config r)
  removes : (name : String) → Step r (remove_provider name r).0
  sets_default : (name : String) → Step r (set_default_provider name r)
  loads : Step r (load_from_store r).0
  maps_degrade : (high low : String) → Step r (add_degrade_mapping high low r)

pub data Reach (r : ModelRouter) : ModelRouter → Type 0 where
  here : Reach r r
  next : {s t : ModelRouter} → Reach r s → Step s t → Reach r t

Step-Paired : {r s : ModelRouter} → Step r s → Paired r → Paired s
unfolding add_provider set_default_provider add_degrade_mapping load_from_store
Step-Paired {r} (adds name config) p = with_store-Paired _ _ (put_provider-Paired name config r p)
Step-Paired {r} (removes name) p = remove_provider-Paired name r p
Step-Paired {r} (sets_default name) p = with_store-Paired _ (record r { default_provider = name }) p
Step-Paired {r} loads p = load_from-Paired r.provider_store r p
Step-Paired {r} (maps_degrade high low) p = p

Reach-Paired : {r s : ModelRouter} → Reach r s → Paired r → Paired s
Reach-Paired here p = p
Reach-Paired (next r st) p = Step-Paired st (Reach-Paired r p)

find_by_model-holds :
    (model : String) (m : Map ProviderConfig) (name : String) (config : ProviderConfig)
    → find_by_model model m ≡ some (name, config)
    → holds name m ≡ true
unfolding find_by_model holds
find_by_model-holds model [] name config e = cc
find_by_model-holds model ((k, c) ∷ m) name config e =
    ground (arith, find_by_model-holds model m name config, eq_iff k name)

-- What `GetClient` answers: a client that is not nil, or an error where no provider lists the model.
abbrev pub Answers : ModelRouter → String → Type 0
Answers r model =
    ((c : Client) × (get_client r model ≡ ok (some c)))
    ⊎ ((find_by_model model r.providers ≡ none)
        × (get_client r model ≡ err (no_provider_for model)))

Paired-Answers : (r : ModelRouter) (model : String) → Paired r → Answers r model
unfolding get_client
Paired-Answers r model p = elim (Option-cases (find_by_model model r.providers)) [
  | inr found ↦
      let held = find_by_model-holds model r.providers found.0.0 found.0.1 found.1 in
      let client = holds-lookup found.0.0 r.clients (p found.0.0 ∙ held) in
      inl (client.0, rw (found.1, get_client) (ap ok client.1))
  | inl none_lists ↦ elim (Option-cases (by_prefix (prefix_of model) r.clients)) [
    | inr named ↦ inl (named.0, rw (none_lists, get_client, named.1) (unfold client_of in refl))
    | inl unnamed ↦
        inr (none_lists, rw (none_lists, get_client, unnamed) (unfold client_of in refl))
  ]
]

-- Whatever providers were added, removed, loaded from the store or made the default, in any order, a
-- new router that went through it answers each model with a client that is not nil, or with an error
-- and then only where no provider lists the model.
pub get_client-Answers :
    {r : ModelRouter} (store : Option MemoryProviderStore)
    → Reach (new_model_router store) r
    → (model : String) → Answers r model
unfolding new_model_router holds
get_client-Answers {r} store reached model =
    Paired-Answers r model (Reach-Paired reached (λ name. refl))
