-- ===== src/Governance/Privacy/Tests.antt =====
-- Contents masked along paths, with a scan that knows the digit 1.
use mathlib.Core.Option
use sentoris_proxy.Prelude.{
  ◌≡◌, refl, Option, none, some, List, [], ◌∷◌, String, str_eq, if◌then◌else◌,
}
use sentoris_proxy.Prelude.Int.{ℤ, pos}
use sentoris_proxy.Prelude.Texts.{starts_with_char, ends_with_char}
use sentoris_proxy.Domain.Value.{Value, text, array, object, no_items, item, no_fields, field}
use sentoris_proxy.Governance.Privacy.Paths.{
  mask_value, mask_field_by_path, mask_paths, traverse_and_mask,
}
use sentoris_proxy.Governance.Privacy.Laws.{at_path, Apart, traverse_and_mask_lem}

abbrev scan_one : String → Option ℤ
scan_one s = if str_eq s "1" then some (pos 1) else none

abbrev user : Value
user = object (
    field "user" (object (field "name" (text "Ann") (field "role" (text "admin") no_fields)))
      (field "tags" (array (item (text "x") (item (text "y") no_items))) no_fields))

second_tag_masked :
    mask_paths scan_one (" $.tags.[1] " ∷ []) user
    ≡ object (
        field "user"
          (object (field "name" (text "Ann") (field "role" (text "admin") no_fields)))
          (field "tags" (array (item (text "x") (item (text "[REDACTED]") no_items))) no_fields))
unfolding mask_paths starts_with_char ends_with_char
second_tag_masked = refl

-- The form that the source's comment gives for arrays is one part, which is no key.
comment_form_masks_nothing : mask_field_by_path scan_one "$.tags[*]" user ≡ user
unfolding mask_field_by_path starts_with_char
comment_form_masks_nothing = refl

traverse_and_mask_lem_example :
    (at_path ("user" ∷ ("name" ∷ [])) (traverse_and_mask scan_one ("user" ∷ ("name" ∷ [])) user)
      ≡ Option.map mask_value (at_path ("user" ∷ ("name" ∷ [])) user))
    × ((qs : List String)
        → Apart ("user" ∷ ("name" ∷ [])) qs
        → at_path qs (traverse_and_mask scan_one ("user" ∷ ("name" ∷ [])) user) ≡ at_path qs user)
traverse_and_mask_lem_example =
    traverse_and_mask_lem scan_one ("user" ∷ ("name" ∷ [])) user (refl, (refl, tt))
