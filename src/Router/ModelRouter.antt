-- ===== src/Router/ModelRouter.antt =====
-- internal/service/router/model_router.go. A price is a number of millionths of a dollar. Making the
-- HTTP client of a provider does nothing but keep its arguments, so that a client is these. The
-- persistent store is the one in memory; the router looks at none of the store's errors but those
-- of `GetByName`.
pub mod Laws
pub mod Models
mod Tests
use sentoris_proxy.Prelude.Texts.{split}
use sentoris_proxy.Prelude.{
  ℕ, Bool, true, false, ◌||◌, ◌==◌, Option, none, some, List, [], ◌∷◌, ◌++◌, String, Result, ok,
  err, str_eq, contains, Map, lookup, insert, delete, holds, if◌then◌else◌,
}
use sentoris_proxy.Storage.Provider.{MemoryProviderStore}
use sentoris_proxy.Storage.Provider

pub record ProviderConfig : Type 0 where
  pub base_url : String
  pub auth_header : String
  pub models : List String
  pub input_per_1k : ℕ
  pub output_per_1k : ℕ

pub record Client : Type 0 where
  pub name : String
  pub base_url : String
  pub auth_header : String

pub record ModelRouter : Type 0 where
  pub providers : Map ProviderConfig
  pub clients : Map Client
  pub default_provider : String
  pub degrade_map : Map String
  pub provider_store : Option MemoryProviderStore

pub data RouterError : Type 0 where
  store_not_set : RouterError
  no_provider_for : String → RouterError
  no_pricing_for : String → RouterError
  router_provider_not_found : String → RouterError

unfoldable pub new_model_router : Option MemoryProviderStore → ModelRouter
new_model_router store = record {
  providers = [];
  clients = [];
  default_provider = "";
  degrade_map = [];
  provider_store = store;
}

-- The two assignments that add a provider, and the client made for it.
unfoldable pub put_provider : String → ProviderConfig → ModelRouter → ModelRouter
put_provider name config r = record r {
  providers = insert name config r.providers;
  clients =
      insert name
        (record { name = name; base_url = config.base_url; auth_header = config.auth_header })
        r.clients;
}

of_stored : Provider.ProviderConfig → ProviderConfig
of_stored p = record {
  base_url = p.base_url;
  auth_header = p.auth_header;
  models = p.models;
  input_per_1k = p.input_price_per_1k;
  output_per_1k = p.output_price_per_1k;
}

-- The loop of `LoadFromStore`.
unfoldable pub load_all : List Provider.ProviderConfig → ModelRouter → ModelRouter
unfolding of_stored
load_all [] r = r
load_all (p ∷ ps) r =
    let r' = put_provider p.name (of_stored p) r in
    load_all ps (if p.is_default then record r' { default_provider = p.name } else r')

load_from : Option MemoryProviderStore → ModelRouter → ModelRouter × Option RouterError
load_from none r = (r, some store_not_set)
load_from (some store) r = (load_all (Provider.list store) r, none)

unfoldable pub load_from_store : ModelRouter → ModelRouter × Option RouterError
unfolding load_from
load_from_store r = load_from r.provider_store r

to_stored : String → Bool → ProviderConfig → Provider.ProviderConfig
to_stored name is_default config = record {
  name = name;
  base_url = config.base_url;
  auth_header = config.auth_header;
  models = config.models;
  input_price_per_1k = config.input_per_1k;
  output_price_per_1k = config.output_per_1k;
  is_default = is_default;
}

-- `if r.providerStore != nil { … }`.
with_store : (MemoryProviderStore → MemoryProviderStore) → ModelRouter → ModelRouter
with_store f r = elim r.provider_store [
  | none ↦ r
  | some store ↦ record r { provider_store = some (f store) }
]

unfoldable pub add_provider : String → ProviderConfig → ModelRouter → ModelRouter
unfolding to_stored with_store
add_provider name config r =
    with_store
      (λ store. Provider.save store (to_stored name (str_eq name r.default_provider) config))
      (put_provider name config r)

-- `GetByName`, and if it finds the provider, `Save` with its mark set to `b`.
re_mark : Bool → String → MemoryProviderStore → MemoryProviderStore
re_mark b name store = elim (Provider.get_by_name store name) [
  | ok config ↦ Provider.save store (record config { is_default = b })
  | err e ↦ store
]

unfoldable pub set_default_provider : String → ModelRouter → ModelRouter
unfolding re_mark with_store
set_default_provider name r =
    with_store
      (λ store.
        re_mark true name
          (if str_eq r.default_provider "" then store else re_mark false r.default_provider store))
      (record r { default_provider = name })

-- The loops over the providers and their models: the first provider that lists the model.
unfoldable pub find_by_model : String → Map ProviderConfig → Option (String × ProviderConfig)
find_by_model model [] = none
find_by_model model ((name, config) ∷ rest) =
    let later = find_by_model model rest in
    if contains config.models model then some (name, config) else later

-- `parts[0]` where there are two parts.
unfoldable pub prefix : List String → Option String
prefix (a ∷ (b ∷ [])) = some a
prefix _ = none

prefix_of : String → Option String
unfolding prefix split
prefix_of model = prefix (split b'/' model)

client_of : Option Client → String → Result RouterError (Option Client)
client_of (some c) model = ok (some c)
client_of none model = err (no_provider_for model)

by_prefix : {A : Type 0} → Option String → Map A → Option A
by_prefix none m = none
by_prefix (some name) m = lookup name m

-- A client that the map lacks is nil, `none`, where the provider was found by its models.
unfoldable pub get_client : ModelRouter → String → Result RouterError (Option Client)
unfolding prefix_of client_of by_prefix
get_client r model = elim (find_by_model model r.providers) [
  | some (name, config) ↦ ok (lookup name r.clients)
  | none ↦ client_of (by_prefix (prefix_of model) r.clients) model
]

abbrev pub default_input_price : ℕ
default_input_price = 1_000

abbrev pub default_output_price : ℕ
default_output_price = 2_000

pub record Pricing : Type 0 where
  pub input : ℕ
  pub output : ℕ
  pub error : Option RouterError

priced : ProviderConfig → Pricing
priced config = record { input = config.input_per_1k; output = config.output_per_1k; error = none }

unfoldable pub default_config : ModelRouter → Option ProviderConfig
default_config r =
    if str_eq r.default_provider "" then none else lookup r.default_provider r.providers

default_pricing : Option ProviderConfig → String → Pricing
unfolding priced
default_pricing (some config) model = priced config
default_pricing none model = record {
  input = default_input_price;
  output = default_output_price;
  error = some (no_pricing_for model);
}

prefix_pricing : Option ProviderConfig → Pricing → Pricing
unfolding priced
prefix_pricing (some config) otherwise = priced config
prefix_pricing none otherwise = otherwise

unfoldable pub get_pricing : ModelRouter → String → Pricing
unfolding prefix_of by_prefix priced default_config default_pricing prefix_pricing
get_pricing r model = elim (find_by_model model r.providers) [
  | some (name, config) ↦ priced config
  | none ↦
      prefix_pricing (by_prefix (prefix_of model) r.providers)
        (default_pricing (default_config r) model)
]

unfoldable pub add_degrade_mapping : String → String → ModelRouter → ModelRouter
add_degrade_mapping high low r = record r { degrade_map = insert high low r.degrade_map }

unfoldable pub get_degrade_model : ModelRouter → String → Option String
get_degrade_model r model = lookup model r.degrade_map

unfoldable pub get_provider : ModelRouter → String → Option ProviderConfig
get_provider r name = lookup name r.providers

-- The inner and the outer loop of `GetAllModels`, with the models seen so far.
unfoldable pub add_models : List String → List String → List String
add_models seen [] = seen
add_models seen (m ∷ ms) = add_models (if contains seen m then seen else seen ++ (m ∷ [])) ms

unfoldable pub all_models : List String → Map ProviderConfig → List String
unfolding add_models
all_models seen [] = seen
all_models seen ((name, config) ∷ rest) = all_models (add_models seen config.models) rest

unfoldable pub get_all_models : ModelRouter → List String
unfolding all_models
get_all_models r = all_models [] r.providers

drop_provider : String → ModelRouter → ModelRouter
drop_provider name r = record r {
  providers = delete name r.providers;
  clients = delete name r.clients;
  default_provider = if str_eq r.default_provider name then "" else r.default_provider;
}

unfoldable pub remove_provider : String → ModelRouter → ModelRouter × Option RouterError
unfolding drop_provider with_store
remove_provider name r =
    if holds name r.providers
    then (with_store (λ store. Provider.delete_provider store name) (drop_provider name r), none)
    else (r, some (router_provider_not_found name))
