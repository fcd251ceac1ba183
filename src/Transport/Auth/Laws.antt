-- ===== src/Transport/Auth/Laws.antt =====
-- Which requests are served.
use sentoris_proxy.Prelude.{
  ◌≡◌, sym, ◌∙◌, ◌↔◌, ◌⊎◌, refl, inl, inr, Bool, Bool-cases, true, false, Option, none, some, List,
  [], ◌∷◌, String, str_eq, eq_iff, contains, In, ◌||◌, arith,
}
use sentoris_proxy.Prelude.Texts.{split}
use sentoris_proxy.Security.KeyManager.{KeyManager, validate_api_key}
use sentoris_proxy.Transport.Auth.{
  unauthorized, served, serve_if, stored_key, authenticate, authenticate_parts, auth_middleware,
}

clash : false ≡ true → ⊥
clash e = cc

contains-In : (ss : List String) (s : String) → contains ss s ≡ true → In s ss
unfolding contains
contains-In [] s h = absurd (clash h)
contains-In (t ∷ ss) s h = elim (Bool-cases (str_eq t s)) [
  | inl e ↦ inl (ground (arith, eq_iff t s))
  | inr e ↦ inr (contains-In ss s (rw e at h))
]

In-contains : (ss : List String) (s : String) → In s ss → contains ss s ≡ true
unfolding contains
In-contains [] s h = absurd h
In-contains (t ∷ ss) s (inl e) = ground (arith, eq_iff t s)
In-contains (t ∷ ss) s (inr h) = ground (arith, In-contains ss s h)

refused : {message : String} → unauthorized message ≡ served → ⊥
refused e = cc

-- There is a store, and it verifies the token.
abbrev pub IsStored : Option (String → Bool) → String → Type 0
IsStored store token = (verify : String → Bool) × (store ≡ some verify) × (verify token ≡ true)

stored_key_iff :
    (store : Option (String → Bool)) (token : String)
    → (stored_key store token ≡ true) ↔ IsStored store token
unfolding stored_key
stored_key_iff none token = (λ e. absurd (clash e), λ (verify, e, h). absurd (missing e))
  where
    missing : {verify : String → Bool} → none ≡ some verify → ⊥
    missing e = cc
stored_key_iff (some verify) token = (λ h. (verify, refl, h), λ (other, e, h). agree other e ∙ h)
  where
    agree : (other : String → Bool) → some verify ≡ some other → verify token ≡ other token
    agree other e = cc

-- What lets a token through.
abbrev pub IsAccepted :
    (String → Bool) → Option (String → Bool) → KeyManager → (auth_type token : String) → Type 0
IsAccepted validate_jwt store km auth_type token =
    ((auth_type ≡ "Bearer") × (validate_jwt token ≡ true))
    ⊎ ((auth_type ≡ "ApiKey") × (IsStored store token ⊎ In token km.api_keys))

module _ (validate_jwt : String → Bool) (store : Option (String → Bool)) (km : KeyManager) where
  serves : (b : Bool) (message : String) → (serve_if b message ≡ served) ↔ (b ≡ true)
  unfolding serve_if
  serves true message = (λ e. refl, λ e. refl)
  serves false message = (λ e. cc, λ e. cc)

  either_key :
      (token : String)
      → ((stored_key store token || contains km.api_keys token) ≡ true)
        ↔ ((stored_key store token ≡ true) ⊎ (contains km.api_keys token ≡ true))
  either_key token = ground arith

  -- The type is Bearer in the first, ApiKey in the second and another in the third.
  accepted_bearer :
      (auth_type token : String)
      → str_eq auth_type "Bearer" ≡ true
      → IsAccepted validate_jwt store km auth_type token
      → validate_jwt token ≡ true
  accepted_bearer auth_type token bearer (inl (_, valid)) = valid
  accepted_bearer auth_type token bearer (inr (is_key, _)) =
      let both : str_eq "ApiKey" "Bearer" ≡ true = (rw is_key at bearer) in absurd (clash both)

  accepted_key :
      (auth_type token : String)
      → str_eq auth_type "Bearer" ≡ false
      → IsAccepted validate_jwt store km auth_type token
      → (stored_key store token || contains km.api_keys token) ≡ true
  accepted_key auth_type token other (inl (is_bearer, _)) =
      let both : true ≡ false = sym ((eq_iff auth_type "Bearer").1 is_bearer) ∙ other in
      absurd (clash (sym both))
  accepted_key auth_type token other (inr (_, inl stored)) =
      (either_key token).1 (inl ((stored_key_iff store token).1 stored))
  accepted_key auth_type token other (inr (_, inr listed)) =
      (either_key token).1 (inr (In-contains km.api_keys token listed))

  accepted_other :
      (auth_type token : String)
      → str_eq auth_type "Bearer" ≡ false
      → str_eq auth_type "ApiKey" ≡ false
      → IsAccepted validate_jwt store km auth_type token
      → ⊥
  accepted_other auth_type token p q (inl (e, _)) = clash (sym p ∙ (eq_iff auth_type "Bearer").1 e)
  accepted_other auth_type token p q (inr (e, _)) = clash (sym q ∙ (eq_iff auth_type "ApiKey").1 e)

  key-IsAccepted :
      (auth_type token : String)
      → auth_type ≡ "ApiKey"
      → (stored_key store token ≡ true) ⊎ (contains km.api_keys token ≡ true)
      → IsAccepted validate_jwt store km auth_type token
  key-IsAccepted auth_type token e (inl stored) =
      inr (e, inl ((stored_key_iff store token).0 stored))
  key-IsAccepted auth_type token e (inr listed) =
      inr (e, inr (contains-In km.api_keys token listed))

  authenticate_iff :
      (auth_type token : String)
      → (authenticate validate_jwt store km auth_type token ≡ served)
        ↔ IsAccepted validate_jwt store km auth_type token
  unfolding authenticate validate_api_key
  authenticate_iff auth_type token = elim (Bool-cases (str_eq auth_type "Bearer")) [
    | inl bearer ↦ rw bearer (
      λ e. inl ((eq_iff auth_type "Bearer").0 bearer, (serves (validate_jwt token) _).0 e),
      λ a. (serves (validate_jwt token) _).1 (accepted_bearer auth_type token bearer a),
    )
    | inr other ↦ elim (Bool-cases (str_eq auth_type "ApiKey")) [
      | inl api_key ↦
          rw (other, api_key)
            (
              λ e.
                  key-IsAccepted auth_type token ((eq_iff auth_type "ApiKey").0 api_key)
                    ((either_key token).0 ((serves _ _).0 e)),
              λ a. (serves _ _).1 (accepted_key auth_type token other a),
            )
      | inr unknown ↦
          rw (other, unknown)
            (λ e. absurd (refused e), λ a. absurd (accepted_other auth_type token other unknown a))
    ]
  ]

  parts_served :
      (parts : List String)
      → authenticate_parts validate_jwt store km parts ≡ served
      → (auth_type : String) × (token : String) × (parts ≡ auth_type ∷ (token ∷ []))
        × IsAccepted validate_jwt store km auth_type token
  unfolding authenticate_parts
  parts_served [] e = absurd (refused e)
  parts_served (a ∷ []) e = absurd (refused e)
  parts_served (a ∷ (t ∷ [])) e = (a, t, refl, (authenticate_iff a t).0 e)
  parts_served (a ∷ (t ∷ (u ∷ rest))) e = absurd (refused e)

  -- A request is served if its header is a type and a token with one space between: Bearer and a valid
  -- JWT, or ApiKey and a key that the store verifies or the key manager lists. No other is.
  pub auth_middleware_iff :
      (auth_header : String)
      → (auth_middleware validate_jwt store km auth_header ≡ served) ↔ (
          (auth_type : String) × (token : String) × (split b' ' auth_header
            ≡ auth_type ∷ (token ∷ []))
          × IsAccepted validate_jwt store km auth_type token)
  unfolding auth_middleware authenticate_parts split
  auth_middleware_iff auth_header = elim (Bool-cases (str_eq auth_header "")) [
    | inl empty ↦ rw empty (
      λ e. absurd (refused e),
      λ (a, t, parts, _). absurd (no_parts a t (rw ((eq_iff auth_header "").0 empty) at parts)),
    )
    | inr given ↦ rw given (
      parts_served (split b' ' auth_header),
      λ (a, t, parts, accepted). rw parts ((authenticate_iff a t).1 accepted),
    )
  ]
    where
      no_parts : (a t : String) → split b' ' "" ≡ a ∷ (t ∷ []) → ⊥
      no_parts a t e = cc
