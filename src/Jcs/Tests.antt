-- ===== src/Jcs/Tests.antt =====
-- Canonical forms of small values, with numbers left out, and a sort of the keys a and b.
use mathlib.Core.List.{foldr, Perm}
use mathlib.Core.List.Perm
use sentoris_proxy.Prelude.{
  ℕ, ◌≡◌, refl, ap, Bool, Bool-cases, inl, inr, lookup, true, false, ◌||◌, List, [], ◌∷◌, ◌++◌,
  String, ok, err, some, str_eq, eq_iff, codes, if◌then◌else◌, arith,
}
use sentoris_proxy.Prelude.Int.{ℤ}
use sentoris_proxy.Prelude.Texts.{starts_with_char}
use sentoris_proxy.Domain.Value.{
  null, boolean, strings, array, object, no_items, item, Fields, no_fields, field, get,
}
use sentoris_proxy.Jcs.{canonicalize, keys, unsupported_type}
use sentoris_proxy.Jcs.Text.{canonicalize_string, sanitize_response}
use sentoris_proxy.Jcs.Strip.{strip_non_signature_fields, is_dropped}
use sentoris_proxy.Jcs.Reading.{read_json_string, read-canonicalize_string}

-- Which of a and b have been seen.
see : String → Bool × Bool → Bool × Bool
see k (a, b) = (a || str_eq k "a", b || str_eq k "b")

listed : Bool × Bool → List String
listed (a, b) = (if a then "a" ∷ [] else []) ++ (if b then "b" ∷ [] else [])

abbrev sort_ab : List String → List String
sort_ab ks = listed (foldr see (false, false) ks)

see-see : (j k : String) (s : Bool × Bool) → see j (see k s) ≡ see k (see j s)
unfolding see
see-see j k (a, b) = ground arith

sort_ab-perm : (xs ys : List String) → Perm xs ys → sort_ab xs ≡ sort_ab ys
sort_ab-perm xs ys p = ap listed (Perm.foldr-eq (hlevel) see see-see p (false, false))

abbrev show_nothing : ℤ → List ℕ
show_nothing n = []

abbrev ab : Fields
ab = field "a" null (field "b" (boolean true) no_fields)

abbrev ba : Fields
ba = field "b" (boolean true) (field "a" null no_fields)

same_ab : (k : String) → get k ab ≡ get k ba
unfolding get
same_ab k = elim (Bool-cases (str_eq "a" k)) [
  | inl is_a ↦ rw (is_a, ← (eq_iff "a" k).0 is_a) refl
  | inr other ↦ rw other refl
]

form_of_ba :
    canonicalize sort_ab show_nothing show_nothing (object ba)
    ≡ ok (codes "{\"a\":null,\"b\":true}")
unfolding canonicalize listed see keys lookup canonicalize_string
form_of_ba = refl

no_form_of_strings :
    canonicalize sort_ab show_nothing show_nothing (array (item (strings ("a" ∷ [])) no_items))
    ≡ err (unsupported_type "[]string")
unfolding canonicalize
no_form_of_strings = refl

escapes : canonicalize_string (codes "a\"\n") ≡ codes "\"a\\\"\\n\""
unfolding canonicalize_string
escapes = refl

form_feed : canonicalize_string (12 ∷ []) ≡ codes "\"\\u000c\""
unfolding canonicalize_string
form_feed = refl

sanitized : sanitize_response "a\tb" ≡ "a\tb"
unfolding sanitize_response
sanitized = refl

stripped :
    strip_non_signature_fields (field "_trace" null (field "extensions" (object ab) no_fields))
    ≡ field "extensions" (object (field "b" (boolean true) no_fields)) no_fields
unfolding strip_non_signature_fields is_dropped starts_with_char
stripped = refl

read-canonicalize_string_example :
    read_json_string (canonicalize_string (codes "a\"") ++ codes ",")
    ≡ some (codes "a\"", codes ",")
read-canonicalize_string_example = read-canonicalize_string (codes "a\"") (codes ",")
