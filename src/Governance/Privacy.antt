-- ===== src/Governance/Privacy.antt =====
-- `PrivacyService` of internal/service/governance/budget_service.go. `compute_sha256_hex` is SHA-256 in
-- hexadecimal, `marshal` and `unmarshal` are encoding/json's, and
-- `replace` is `ReplaceAllString` of the pattern with a name. `pattern_names` are the names in the order
-- in which the map of patterns is iterated.
pub mod Paths
mod Laws
mod Tests
use sentoris_proxy.Prelude.{
  ℕ, zero, suc, Bool, true, false, ◌&&◌, ◌||◌, ◌==◌, Option, none, some, List, [], ◌∷◌, map, String,
  str_eq, if◌then◌else◌,
}
use sentoris_proxy.Prelude.Int.{ℤ, pos, negsuc}
use sentoris_proxy.Prelude.Texts.{split, trim, trim_space, starts_with_char, ends_with_char}
use sentoris_proxy.Domain.Value.{
  Value, null, boolean, integer, number, text, strings, messages, array, maps, object, Items,
  no_items, item, Fields, no_fields, field,
}
use sentoris_proxy.Governance.Constraints.{privacy_masked, privacy_hash_only}
use sentoris_proxy.Governance.Privacy.Paths.{mask_paths}

unfoldable pub replacement_of : String → String
replacement_of name =
    if str_eq name "email"
    then "[EMAIL_REDACTED]"
    else if str_eq name "phone"
    then "[PHONE_REDACTED]"
    else if str_eq name "ssn"
    then "[SSN_REDACTED]"
    else if str_eq name "credit_card"
    then "[CREDIT_CARD_REDACTED]"
    else if str_eq name "ip_address"
    then "[IP_REDACTED]"
    else "[REDACTED]"

module _ (replace : (name replacement content : String) → String) where
  unfoldable pub mask_string_with_pii : List String → String → String
  unfolding replacement_of
  mask_string_with_pii [] s = s
  mask_string_with_pii (name ∷ names) s =
      mask_string_with_pii names (replace name (replacement_of name) s)

module _ (mask_string : String → String) (marshal : Value → Option String)
    (unmarshal : String → Option Value) where
  or_text_value : String → Option Value → Value
  or_text_value s none = text s
  or_text_value s (some v) = v

  -- What is left of a value of another type, from its JSON.
  mask_json : Value → Option String → Value
  unfolding or_text_value
  mask_json v none = v
  mask_json v (some json) = or_text_value (mask_string json) (unmarshal (mask_string json))

  unfoldable mutual
    unfolding mask_json

    pub mask_fields_with_pii : Value → Value
    mask_fields_with_pii (text s) = text (mask_string s)
    mask_fields_with_pii (strings ss) = strings (map mask_string ss)
    mask_fields_with_pii (array items) = array (mask_items_with_pii items)
    mask_fields_with_pii (object fs) = object (mask_entries_with_pii fs)
    mask_fields_with_pii v = mask_json v (marshal v)

    pub mask_items_with_pii : Items → Items
    mask_items_with_pii no_items = no_items
    mask_items_with_pii (item v rest) = item (mask_fields_with_pii v) (mask_items_with_pii rest)

    pub mask_entries_with_pii : Fields → Fields
    mask_entries_with_pii no_fields = no_fields
    mask_entries_with_pii (field k v rest) =
        field k (mask_fields_with_pii v) (mask_entries_with_pii rest)

  -- The content as JSON reads it back, or itself.
  read_back : Value → Option String → Option Value
  read_back content none = none
  read_back content (some json) = unmarshal json

  unfoldable pub mask_fields_with_json_path : (String → Option ℤ) → List String → Value → Value
  unfolding mask_fields_with_pii read_back mask_paths
  mask_fields_with_json_path scan_int [] content = mask_fields_with_pii content
  mask_fields_with_json_path scan_int (path ∷ paths) content =
      elim (read_back content (marshal content)) [
        | none ↦ content
        | some decoded ↦ mask_paths scan_int (path ∷ paths) decoded
      ]

unfoldable pub hash_content :
    (compute_sha256_hex : String → String) → (marshal : Value → Option String) → Value → Value
hash_content compute_sha256_hex marshal (text s) = text (compute_sha256_hex s)
hash_content compute_sha256_hex marshal (strings ss) = strings (map compute_sha256_hex ss)
hash_content compute_sha256_hex marshal v = elim (marshal v) [
  | none ↦ v
  | some json ↦ text (compute_sha256_hex json)
]

pub record MaskingResult : Type 0 where
  pub original_content : Value
  pub masked_content : Value
  pub masked_fields : List String
  pub algorithm_version : String

masked_result : (original_content masked_content : Value) → List String → MaskingResult
masked_result original_content masked_content masked_fields = record {
  original_content = original_content;
  masked_content = masked_content;
  masked_fields = masked_fields;
  algorithm_version = "v1.0";
}

-- `by_path` and `by_hash` are what the two levels do; another level leaves the content.
unfoldable pub apply_masking :
    (by_path : List String → Value → Value)
    → (by_hash : Value → Value) → (level : String) → Value
    → (masked_fields : List String) → MaskingResult
unfolding masked_result
apply_masking by_path by_hash level content masked_fields =
    if str_eq level privacy_masked
    then masked_result content (by_path masked_fields content) masked_fields
    else if str_eq level privacy_hash_only
    then masked_result content (by_hash content) masked_fields
    else masked_result null content masked_fields

unfoldable pub apply_masking_with_strategy :
    (by_pii : Value → Value)
    → (by_path : List String → Value → Value) → (by_hash : Value → Value)
    → (level strategy : String) → Value
    → (masked_fields : List String) → MaskingResult
unfolding apply_masking
apply_masking_with_strategy by_pii by_path by_hash level strategy content masked_fields =
    apply_masking (if str_eq strategy "regex" then (λ paths. by_pii) else by_path) by_hash level
      content masked_fields
