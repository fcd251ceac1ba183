-- ===== src/Transport/Auth/Tests.antt =====
-- Headers against a store of one key, a list of one key, and a check that takes the token jwt.
use sentoris_proxy.Prelude.{◌≡◌, ◌↔◌, refl, Bool, Option, some, [], ◌∷◌, String, str_eq}
use sentoris_proxy.Prelude.Texts.{split}
use sentoris_proxy.Security.KeyManager.{KeyManager}
use sentoris_proxy.Transport.Auth.{unauthorized, served, auth_middleware, api_key_middleware}
use sentoris_proxy.Transport.Auth.Laws.{IsAccepted, auth_middleware_iff}

abbrev is_jwt : String → Bool
is_jwt s = str_eq s "jwt"

abbrev db : Option (String → Bool)
db = some (λ s. str_eq s "stored")

abbrev manager : KeyManager
manager = record { api_keys = "listed" ∷ []; key_pools = [] }

listed_key : auth_middleware is_jwt db manager "ApiKey listed" ≡ served
unfolding auth_middleware
listed_key = refl

two_spaces :
    auth_middleware is_jwt db manager "ApiKey  listed"
    ≡ unauthorized "Invalid authorization header format"
unfolding auth_middleware
two_spaces = refl

basic : auth_middleware is_jwt db manager "Basic x" ≡ unauthorized "Unsupported authorization type"
unfolding auth_middleware
basic = refl

no_api_key : api_key_middleware ("k" ∷ []) "" ≡ unauthorized "X-API-Key header required"
unfolding api_key_middleware
no_api_key = refl

auth_middleware_iff_example : (auth_middleware is_jwt db manager "Bearer jwt" ≡ served) ↔ (
    (auth_type : String) × (token : String) × (split b' ' "Bearer jwt" ≡ auth_type ∷ (token ∷ []))
    × IsAccepted is_jwt db manager auth_type token)
auth_middleware_iff_example = auth_middleware_iff is_jwt db manager "Bearer jwt"
