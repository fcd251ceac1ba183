-- ===== src/Router/ModelRouter/Tests.antt =====
-- A router over a store of one default provider.
use sentoris_proxy.Prelude.{◌≡◌, refl, true, none, some, [], ◌∷◌, contains, lookup, insert}
use sentoris_proxy.Prelude.Texts.{split}
use sentoris_proxy.Storage.Provider.{MemoryProviderStore}
use sentoris_proxy.Router.ModelRouter.{
  ProviderConfig, ModelRouter, new_model_router, load_from_store, load_all, put_provider,
  get_pricing, find_by_model, add_degrade_mapping, get_degrade_model,
}

abbrev openai : ProviderConfig
openai = record {
  base_url = "https://a";
  auth_header = "k";
  models = "gpt" ∷ ("mini" ∷ []);
  input_per_1k = 3_000;
  output_per_1k = 6_000;
}

abbrev stored : MemoryProviderStore
stored =
    (
      "openai",
      record {
        name = "openai";
        base_url = "https://a";
        auth_header = "k";
        models = "gpt" ∷ ("mini" ∷ []);
        input_price_per_1k = 3_000;
        output_price_per_1k = 6_000;
        is_default = true;
      },
    )
    ∷ []

abbrev loaded : ModelRouter
loaded = (load_from_store (new_model_router (some stored))).0

loads_default : loaded.default_provider ≡ "openai"
unfolding load_from_store load_all put_provider new_model_router
loads_default = refl

splits : split b'/' "openai/gpt" ≡ "openai" ∷ ("gpt" ∷ [])
unfolding split
splits = refl

prices_by_default : (get_pricing loaded "other").input ≡ 3_000
unfolding get_pricing find_by_model load_from_store load_all put_provider new_model_router contains
    lookup insert
prices_by_default = refl

prices_unknown : (get_pricing (new_model_router none) "other").output ≡ 2_000
unfolding get_pricing find_by_model new_model_router lookup
prices_unknown = refl

degrades : get_degrade_model (add_degrade_mapping "gpt" "mini" loaded) "gpt" ≡ some "mini"
unfolding get_degrade_model add_degrade_mapping load_from_store load_all put_provider
    new_model_router lookup insert
degrades = refl
