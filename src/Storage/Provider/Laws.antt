-- ===== src/Storage/Provider/Laws.antt =====
-- The default mark of the provider store, and what lookups see after a save or a deletion.
use sentoris_proxy.Prelude.{
  ◌≡◌, refl, true, false, none, some, [], ◌∷◌, String, ok, err, lookup, update, map_values,
  lookup-map_values, arith,
}
use sentoris_proxy.Storage.Provider.{
  ProviderConfig, provider_not_found, no_default_provider, MemoryProviderStore, get_default,
  set_flag, mark, set_default,
}

get_default-cleared :
    (s : MemoryProviderStore)
    → get_default (map_values (set_flag false) s) ≡ err no_default_provider
unfolding get_default map_values set_flag
get_default-cleared [] = refl
get_default-cleared ((k, c) ∷ s) = get_default-cleared s

get_default-update :
    (s : MemoryProviderStore) (name : String) (c : ProviderConfig)
    → lookup name s ≡ some c
    → get_default (update name (set_flag true) (map_values (set_flag false) s))
      ≡ ok (set_flag true c)
unfolding get_default map_values set_flag update lookup
get_default-update [] name c h = cc
get_default-update ((k, d) ∷ s) name c h = ground (arith, get_default-update s name c)

-- `SetDefault` of a stored provider makes that one the default, whatever was marked before. Of a
-- provider that is not stored it returns an error, and no provider is the default any more.
pub set_default-get_default :
    (s : MemoryProviderStore) (name : String)
    → let (s', r) = set_default s name in
      ((c : ProviderConfig)
        → lookup name s ≡ some c
        → (r ≡ ok tt) × (get_default s' ≡ ok (record c { is_default = true })))
      × (lookup name s ≡ none
          → (r ≡ err (provider_not_found name)) × (get_default s' ≡ err no_default_provider))
unfolding set_default
set_default-get_default s name = (
  λ c h.
      let found : lookup name (map_values (set_flag false) s) ≡ some (set_flag false c) =
        rw (lookup-map_values (set_flag false) name s) (rw h) in
      rw (found, mark) (refl, unfold set_flag in get_default-update s name c h),
  λ h.
      let missing : lookup name (map_values (set_flag false) s) ≡ none =
        rw (lookup-map_values (set_flag false) name s) (rw h) in
      rw (missing, mark) (refl, get_default-cleared s),
)
