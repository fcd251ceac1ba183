-- ===== src/Storage/Provider/Tests.antt =====
-- Two providers, and the default mark moved between them.
use sentoris_proxy.Prelude.{
  ◌≡◌, refl, Bool, true, false, none, some, [], String, ok, err, lookup, insert,
}
use sentoris_proxy.Storage.Provider.{
  ProviderConfig, provider_not_found, no_default_provider, MemoryProviderStore,
  new_memory_provider_store, save, get_by_name, get_default, set_default, delete_provider,
}
use sentoris_proxy.Storage.Provider.Laws.{set_default-get_default}

abbrev provider : String → Bool → ProviderConfig
provider name marked = record {
  name = name;
  base_url = "";
  auth_header = "";
  models = [];
  input_price_per_1k = 1;
  output_price_per_1k = 2;
  is_default = marked;
}

abbrev two : MemoryProviderStore
two = save (save new_memory_provider_store (provider "openai" true)) (provider "qwen" false)

default_of_two : get_default two ≡ ok (provider "openai" true)
unfolding get_default save insert
default_of_two = refl

deleted : get_by_name (delete_provider two "qwen") "qwen" ≡ err (provider_not_found "qwen")
unfolding get_by_name delete_provider save insert lookup
deleted = refl

set_default-get_default_example :
    let (s', r) = set_default two "qwen" in
    ((c : ProviderConfig)
      → lookup "qwen" two ≡ some c
      → (r ≡ ok tt) × (get_default s' ≡ ok (record c { is_default = true })))
    × (lookup "qwen" two ≡ none
        → (r ≡ err (provider_not_found "qwen")) × (get_default s' ≡ err no_default_provider))
set_default-get_default_example = set_default-get_default two "qwen"
