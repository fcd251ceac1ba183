-- ===== src/Security/KeyManager.antt =====
-- internal/service/security/key_manager.go: the pools of keys of the providers, and the API keys. The
-- secret and the RSA keys are the packages' matter. A use count, an `int64` in the source, is a number
-- below 2^63 - 1, so the first key that is looked at is taken.
mod Laws
mod Tests
use sentoris_proxy.Prelude.{
  ℕ, suc, ◌+◌, Bool, true, ltb, Option, none, some, List, [], ◌∷◌, ◌++◌, map, String, Result, ok,
  err, ◌>>=◌, str_eq, Map, lookup, insert, contains, if◌then◌else◌,
}

pub record KeyPool : Type 0 where
  pub keys : List String
  pub usage : Map ℕ
  pub provider : String

unfoldable pub new_key_pool : String → KeyPool
new_key_pool provider = record { keys = []; usage = []; provider = provider }

unfoldable pub add_key : String → KeyPool → KeyPool
add_key key p = record p { keys = p.keys ++ (key ∷ []); usage = insert key 0 p.usage }

pub data PoolError : Type 0 where
  no_keys : PoolError
  provider_not_found : String → PoolError

-- `minUsage`, with the maximum of an `int64` as none, and `selectedKey`.
pub record Selected : Type 0 where
  pub least : Option ℕ
  pub key : String

abbrev is_below : ℕ → Option ℕ → Bool
is_below uses none = true
is_below uses (some n) = ltb uses n

-- The loop over the use counts.
unfoldable pub select : Selected → Map ℕ → Selected
select s [] = s
select s ((key, uses) ∷ usage) =
    select (if is_below uses s.least then record { least = some uses; key = key } else s) usage

-- `p.usage[key]++`, which begins a count that is missing.
unfoldable pub count_use : String → Map ℕ → Map ℕ
count_use key usage = insert key (elim (lookup key usage) [ none ↦ 1 | some n ↦ suc n ]) usage

unfoldable pub choose : String → KeyPool → String × KeyPool
unfolding count_use
choose key p = (key, record p { usage = count_use key p.usage })

unfoldable pub next_key_of : List String → KeyPool → Result PoolError (String × KeyPool)
unfolding select choose
next_key_of [] p = err no_keys
next_key_of (first_key ∷ keys) p =
    let selected = (select (record { least = none; key = "" }) p.usage).key in
    ok (choose (if str_eq selected "" then first_key else selected) p)

unfoldable pub next_key : KeyPool → Result PoolError (String × KeyPool)
unfolding next_key_of
next_key p = next_key_of p.keys p

pub record KeyManager : Type 0 where
  pub api_keys : List String
  pub key_pools : Map KeyPool

unfoldable pub new_key_manager : KeyManager
unfolding new_key_pool
new_key_manager = record {
  api_keys = [];
  key_pools =
      ("openai", new_key_pool "openai")
      ∷ (("deepseek", new_key_pool "deepseek") ∷ (("qwen", new_key_pool "qwen") ∷ []));
}

unfoldable pub pool_of : String → KeyManager → KeyPool
unfolding new_key_pool
pool_of provider km = elim (lookup provider km.key_pools) [
  | none ↦ new_key_pool provider
  | some pool ↦ pool
]

unfoldable pub add_provider_key : (provider key : String) → KeyManager → KeyManager
unfolding add_key pool_of
add_provider_key provider key km = record km {
  key_pools = insert provider (add_key key (pool_of provider km)) km.key_pools;
}

-- The pool is behind a pointer, so the manager has it as `Next` leaves it.
unfoldable pub get_provider_key : String → KeyManager → Result PoolError (String × KeyManager)
unfolding next_key
get_provider_key provider km = elim (lookup provider km.key_pools) [
  | none ↦ err (provider_not_found provider)
  | some pool ↦ do
    (key, used) ← next_key pool
    ok (key, record km { key_pools = insert provider used km.key_pools })
]

unfoldable pub list_providers : KeyManager → List String
list_providers km = map (λ entry. entry.0) km.key_pools

unfoldable pub add_api_key : String → KeyManager → KeyManager
add_api_key api_key km = record km { api_keys = km.api_keys ++ (api_key ∷ []) }

unfoldable pub validate_api_key : String → KeyManager → Bool
unfolding contains
validate_api_key api_key km = contains km.api_keys api_key

unfoldable pub list_api_keys : KeyManager → List String
list_api_keys km = km.api_keys
