-- ===== src/Governance/Privacy/Paths.antt =====
-- The masking along paths of `PrivacyService`, internal/service/governance/budget_service.go. `scan_int`
-- is `Sscanf` with `%d`.
use sentoris_proxy.Prelude.{
  ℕ, zero, suc, Bool, ◌&&◌, ◌||◌, ◌==◌, Option, some, List, [], ◌∷◌, String, str_eq, if◌then◌else◌,
}
use sentoris_proxy.Prelude.Int.{ℤ, pos}
use sentoris_proxy.Prelude.Texts.{split, trim, trim_space, starts_with_char, ends_with_char}
use sentoris_proxy.Domain.Value.{
  Value, text, array, object, Items, no_items, item, Fields, no_fields, field,
}

unfoldable mutual
  pub mask_value : Value → Value
  mask_value (array items) = array (mask_items items)
  mask_value (object fs) = object (mask_all_fields fs)
  mask_value v = text "[REDACTED]"

  pub mask_items : Items → Items
  mask_items no_items = no_items
  mask_items (item v rest) = item (mask_value v) (mask_items rest)

  pub mask_all_fields : Fields → Fields
  mask_all_fields no_fields = no_fields
  mask_all_fields (field k v rest) = field k (mask_value v) (mask_all_fields rest)

-- `f` on each value of a map, on that of one key, on each element, on one element.
unfoldable pub every_field : (Value → Value) → Fields → Fields
every_field f no_fields = no_fields
every_field f (field k v rest) = field k (f v) (every_field f rest)

unfoldable pub one_field : String → (Value → Value) → Fields → Fields
one_field key f no_fields = no_fields
one_field key f (field k v rest) =
    let others = one_field key f rest in
    if str_eq k key then field k (f v) rest else field k v others

unfoldable pub every_item : (Value → Value) → Items → Items
every_item f no_items = no_items
every_item f (item v rest) = item (f v) (every_item f rest)

unfoldable pub one_item : ℕ → (Value → Value) → Items → Items
one_item n f no_items = no_items
one_item zero f (item v rest) = item (f v) rest
one_item (suc n) f (item v rest) = item v (one_item n f rest)

-- An index that the scan gives, where there is one that is not negative.
at_index : Option ℤ → (Value → Value) → Items → Items
unfolding one_item
at_index (some (pos n)) f items = one_item n f items
at_index other f items = items

is_bracket : ℕ → Bool
is_bracket c = c == b'[' || c == b']'

module _ (scan_int : String → Option ℤ) where
  unfoldable pub mask_array : String → (Value → Value) → Items → Items
  unfolding every_item at_index is_bracket
  mask_array part f items =
      if starts_with_char b'[' part && ends_with_char b']' part
      then (let inner = trim is_bracket part in
          if str_eq inner "*" || str_eq inner ""
          then every_item f items
          else at_index (scan_int inner) f items)
      else if str_eq part "*"
      then every_item f items
      else items

  -- The parts that are left, in place of the index.
  unfoldable pub traverse_and_mask : List String → Value → Value
  unfolding mask_value every_field one_field mask_array
  traverse_and_mask [] v = mask_value v
  traverse_and_mask (part ∷ parts) (object fs) = object (
      if str_eq part "*"
      then every_field (traverse_and_mask parts) fs
      else one_field part (traverse_and_mask parts) fs)
  traverse_and_mask (part ∷ parts) (array items) =
      array (mask_array part (traverse_and_mask parts) items)
  traverse_and_mask (part ∷ parts) v = v

  -- `strings.TrimPrefix(path, "$.")`.
  trim_root : String → String
  trim_root String.[] = ""
  trim_root (String.◌∷◌ c String.[]) = String.◌∷◌ c ""
  trim_root (String.◌∷◌ c (String.◌∷◌ d path)) =
      if starts_with_char b'$' (String.◌∷◌ c "") && starts_with_char b'.' (String.◌∷◌ d "")
      then path
      else String.◌∷◌ c (String.◌∷◌ d path)

  unfoldable pub mask_field_by_path : String → Value → Value
  unfolding traverse_and_mask trim_root split
  mask_field_by_path path = traverse_and_mask (split b'.' (trim_root path))

  -- The loop over the paths.
  unfoldable pub mask_paths : List String → Value → Value
  unfolding mask_field_by_path trim_space
  mask_paths [] content = content
  mask_paths (path ∷ paths) content =
      let trimmed = trim_space path in
      mask_paths paths (if str_eq trimmed "" then content else mask_field_by_path trimmed content)
