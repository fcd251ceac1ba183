-- ===== src/Jcs/Strip.antt =====
-- `StripNonSignatureFields` of pkg/jcs/canonical.go and what it calls. A nil that an extension holds
-- is dropped, and an extensions object that is left empty is dropped whole.
pub mod Laws
use sentoris_proxy.Prelude.{ℕ, Bool, true, false, ◌||◌, not, List, String, str_eq, if◌then◌else◌}
use sentoris_proxy.Prelude.Texts.{starts_with_char}
use sentoris_proxy.Domain.Value.{
  Value, null, boolean, integer, number, text, strings, messages, array, maps, object, Items,
  no_items, item, Fields, no_fields, field, Maps, no_maps, map_item,
}

abbrev pub is_internal : String → Bool
is_internal k = starts_with_char b'_' k

-- The fields whose key has no underscore in front.
unfoldable pub drop_internal : Fields → Fields
drop_internal no_fields = no_fields
drop_internal (field k v rest) =
    let kept = drop_internal rest in if is_internal k then kept else field k v kept

unfoldable pub strip_extension_field : Value → Value
unfolding drop_internal
strip_extension_field (object fs) = object (drop_internal fs)
strip_extension_field v = v

-- `!= nil`.
unfoldable pub is_nil : Value → Bool
is_nil null = true
is_nil v = false

-- The loop over the extensions.
unfoldable pub strip_extensions : Fields → Fields
unfolding strip_extension_field is_nil
strip_extensions no_fields = no_fields
strip_extensions (field k v rest) =
    let kept = strip_extensions rest in
    if is_internal k || is_nil (strip_extension_field v)
    then kept
    else field k (strip_extension_field v) kept

-- `if len(strippedExt) > 0 { result[k] = strippedExt }`.
unfoldable pub add_extensions : String → Fields → Fields → Fields
add_extensions k no_fields kept = kept
add_extensions k (field j v fs) kept = field k (object (field j v fs)) kept

unfoldable pub is_dropped : String → Bool
is_dropped k = str_eq k "internal_metrics" || is_internal k

unfoldable mutual
  unfolding strip_extensions add_extensions is_dropped

  pub strip_non_signature_fields : Fields → Fields
  strip_non_signature_fields no_fields = no_fields
  strip_non_signature_fields (field k v rest) =
      let kept = strip_non_signature_fields rest in
      if is_dropped k then kept else strip_field k v kept

  pub strip_field : String → Value → Fields → Fields
  strip_field k (object fs) kept =
      let stripped = strip_non_signature_fields fs in
      if str_eq k "extensions"
      then add_extensions k (strip_extensions fs) kept
      else field k (object stripped) kept
  strip_field k (array items) kept = field k (array (strip_items items)) kept
  strip_field k v kept = field k v kept

  pub strip_items : Items → Items
  strip_items no_items = no_items
  strip_items (item v rest) = item (strip_item v) (strip_items rest)

  pub strip_item : Value → Value
  strip_item (object fs) = object (strip_non_signature_fields fs)
  strip_item v = v
