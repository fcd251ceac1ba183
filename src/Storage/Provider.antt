-- ===== src/Storage/Provider.antt =====
-- `MemoryProviderStore` of internal/adapter/storage/provider_store.go. The lock makes each method one
-- step. A write to a field of a stored configuration is a write through the pointer in the map.
pub mod Laws
mod Tests
use sentoris_proxy.Prelude.{
  ℕ, Bool, true, false, Option, none, some, List, [], ◌∷◌, String, Result, ok, err, Map, lookup,
  insert, delete, update, map_values, values, if◌then◌else◌,
}

pub record ProviderConfig : Type 0 where
  pub name : String
  pub base_url : String
  pub auth_header : String
  pub models : List String
  pub input_price_per_1k : ℕ
  pub output_price_per_1k : ℕ
  pub is_default : Bool

pub data ProviderError : Type 0 where
  provider_not_found : String → ProviderError
  no_default_provider : ProviderError

abbrev pub MemoryProviderStore : Type 0
MemoryProviderStore = Map ProviderConfig

abbrev pub new_memory_provider_store : MemoryProviderStore
new_memory_provider_store = []

unfoldable pub save : MemoryProviderStore → ProviderConfig → MemoryProviderStore
save s config = insert config.name config s

or_not_found : String → Option ProviderConfig → Result ProviderError ProviderConfig
or_not_found name none = err (provider_not_found name)
or_not_found name (some config) = ok config

unfoldable pub get_by_name : MemoryProviderStore → String → Result ProviderError ProviderConfig
unfolding or_not_found
get_by_name s name = or_not_found name (lookup name s)

abbrev pub list : MemoryProviderStore → List ProviderConfig
list s = values s

pub delete_provider : MemoryProviderStore → String → MemoryProviderStore
unfolding delete
delete_provider s name = delete name s

pub get_default : MemoryProviderStore → Result ProviderError ProviderConfig
get_default [] = err no_default_provider
get_default ((k, config) ∷ s) =
    let rest = get_default s in if config.is_default then ok config else rest

set_flag : Bool → ProviderConfig → ProviderConfig
set_flag b config = record config { is_default = b }

-- The end of `SetDefault`, on the store whose marks are cleared.
mark :
    String
    → MemoryProviderStore
    → Option ProviderConfig
    → MemoryProviderStore × Result ProviderError (Unit {0})
mark name s none = (s, err (provider_not_found name))
mark name s (some config) = (update name (set_flag true) s, ok tt)

-- All the marks are cleared before the provider is looked for.
pub set_default :
    MemoryProviderStore → String → MemoryProviderStore × Result ProviderError (Unit {0})
unfolding set_flag mark
set_default s name =
    let cleared = map_values (set_flag false) s in mark name cleared (lookup name cleared)
