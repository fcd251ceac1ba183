-- ===== src/Transport/Auth.antt =====
-- internal/transport/http/middleware/auth.go: whether a request is served. `validate_jwt` is whether
-- ValidateJWT has no error, and `verify` whether Verify of the store of API keys has none.
mod Laws
mod Tests
use sentoris_proxy.Prelude.{
  Bool, true, false, Option, none, some, List, [], ◌∷◌, String, str_eq, contains, ◌||◌,
  if◌then◌else◌,
}
use sentoris_proxy.Prelude.Texts.{split}
use sentoris_proxy.Security.KeyManager.{KeyManager, validate_api_key}

-- An error with the status 401, or the next handler.
pub data AuthReply : Type 0 where
  unauthorized : String → AuthReply
  served : AuthReply

unfoldable pub serve_if : Bool → String → AuthReply
serve_if true message = served
serve_if false message = unauthorized message

unfoldable pub stored_key : Option (String → Bool) → String → Bool
stored_key none token = false
stored_key (some verify) token = verify token

module _ (validate_jwt : String → Bool) (store : Option (String → Bool)) (km : KeyManager) where
  -- The switch on the type.
  unfoldable pub authenticate : (auth_type token : String) → AuthReply
  unfolding serve_if stored_key validate_api_key
  authenticate auth_type token =
      if str_eq auth_type "Bearer"
      then serve_if (validate_jwt token) "Invalid JWT token"
      else if str_eq auth_type "ApiKey"
      then serve_if (stored_key store token || validate_api_key token km) "Invalid API Key"
      else unauthorized "Unsupported authorization type"

  unfoldable pub authenticate_parts : List String → AuthReply
  unfolding authenticate
  authenticate_parts (auth_type ∷ (token ∷ [])) = authenticate auth_type token
  authenticate_parts parts = unauthorized "Invalid authorization header format"

  unfoldable pub auth_middleware : (auth_header : String) → AuthReply
  unfolding authenticate_parts split
  auth_middleware auth_header =
      if str_eq auth_header ""
      then unauthorized "Authorization header required"
      else authenticate_parts (split b' ' auth_header)

unfoldable pub api_key_middleware : (valid_api_keys : List String) → (api_key : String) → AuthReply
unfolding serve_if contains
api_key_middleware valid_api_keys api_key =
    if str_eq api_key ""
    then unauthorized "X-API-Key header required"
    else serve_if (contains valid_api_keys api_key) "Invalid API Key"
