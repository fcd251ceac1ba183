-- ===== src/Security/KeyManager/Tests.antt =====
-- A pool of two keys, the first of which has been used once.
use sentoris_proxy.Prelude.{
  ℕ, suc, ◌≤◌, ◌≡◌, refl, true, some, [], ◌∷◌, String, ok, err, lookup, insert, holds, eq_iff,
  str_eq, if◌then◌else◌, arith,
}
use sentoris_proxy.Security.KeyManager.{
  KeyPool, next_key, new_key_pool, add_key, no_keys, new_key_manager, get_provider_key,
  provider_not_found, add_api_key, validate_api_key,
}
use sentoris_proxy.Security.KeyManager.Laws.{IsWellKept, IsEven, next_key_lem, next_key-IsEven}

abbrev pool : KeyPool
pool = record { keys = "a" ∷ ("b" ∷ []); usage = ("a", 1) ∷ (("b", 0) ∷ []); provider = "openai" }

pool-IsWellKept : IsWellKept pool
unfolding holds
pool-IsWellKept = (λ e. cc, λ e. cc, (refl, (refl, tt)), refl)

pool-IsEven : IsEven pool
unfolding lookup
pool-IsEven j k m n p q = ground (arith, eq_iff "a" j, eq_iff "b" j, eq_iff "a" k, eq_iff "b" k)

empty_pool_has_no_key : next_key (new_key_pool "openai") ≡ err no_keys
unfolding next_key new_key_pool
empty_pool_has_no_key = refl

unknown_provider : get_provider_key "other" new_key_manager ≡ err (provider_not_found "other")
unfolding get_provider_key new_key_manager lookup
unknown_provider = refl

-- A key that is added again has its count set back.
key_added_twice : (add_key "a" pool).usage ≡ ("a", 0) ∷ (("b", 0) ∷ [])
unfolding add_key insert
key_added_twice = refl

known_api_key : validate_api_key "k" (add_api_key "k" new_key_manager) ≡ true
unfolding validate_api_key add_api_key new_key_manager
known_api_key = refl

next_key_lem_example :
    (key : String) × (used : KeyPool) × (n : ℕ) × (next_key pool ≡ ok (key, used))
    × (lookup key pool.usage ≡ some n)
    × ((j : String) → (m : ℕ) → lookup j pool.usage ≡ some m → n ≤ m)
    × ((j : String)
        → lookup j used.usage ≡ (if str_eq key j then some (suc n) else lookup j pool.usage))
    × IsWellKept used
next_key_lem_example = next_key_lem pool pool-IsWellKept

next_key-IsEven_example :
    (key : String) × (used : KeyPool) × (next_key pool ≡ ok (key, used))
    × IsEven used
    × IsWellKept used
next_key-IsEven_example = next_key-IsEven pool pool-IsWellKept pool-IsEven
