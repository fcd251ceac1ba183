-- ===== src/Jcs/Strip/Laws.antt =====
-- What is left after stripping: it is done at once, and a field that is kept is found.
use mathlib.Core.Option
use sentoris_proxy.Prelude.{
  ◌≡◌, refl, eq_iff, ◌∙◌, ap, Bool, Bool-cases, true, false, inl, inr, Option, some, String, str_eq,
  if◌then◌else◌, arith,
}
use sentoris_proxy.Domain.Value.{
  Value, array, object, Items, no_items, item, Fields, no_fields, field, get,
}
use sentoris_proxy.Jcs.Strip.{
  drop_internal, strip_extension_field, strip_extensions, add_extensions, is_dropped,
  strip_non_signature_fields, strip_field, strip_items, strip_item,
}

drop_internal-drop_internal : (fs : Fields) → drop_internal (drop_internal fs) ≡ drop_internal fs
unfolding drop_internal
drop_internal-drop_internal no_fields = refl
drop_internal-drop_internal (field k v rest) = ground (arith, drop_internal-drop_internal rest)

strip_extension_field-twice :
    (v : Value) → strip_extension_field (strip_extension_field v) ≡ strip_extension_field v
unfolding strip_extension_field
strip_extension_field-twice (object fs) = ap object (drop_internal-drop_internal fs)
strip_extension_field-twice v = refl

strip_extensions-strip_extensions :
    (fs : Fields) → strip_extensions (strip_extensions fs) ≡ strip_extensions fs
unfolding strip_extensions
strip_extensions-strip_extensions no_fields = refl
strip_extensions-strip_extensions (field k v rest) =
    ground (arith, strip_extensions-strip_extensions rest, strip_extension_field-twice v)

-- What a stripped field becomes when the fields are stripped once more.
add-strip :
    (k : String) (fs kept : Fields)
    → is_dropped k ≡ false
    → str_eq k "extensions" ≡ true
    → strip_extensions fs ≡ fs
    → strip_non_signature_fields kept ≡ kept
    → strip_non_signature_fields (add_extensions k fs kept) ≡ add_extensions k fs kept
unfolding add_extensions strip_non_signature_fields
add-strip k no_fields kept d e s ih = ih
add-strip k (field j v fs) kept d e s ih = rw (d, e, s, ih) refl

mutual
  unfolding strip_non_signature_fields strip_field

  strip-strip :
      (fs : Fields)
      → strip_non_signature_fields (strip_non_signature_fields fs) ≡ strip_non_signature_fields fs
  strip-strip no_fields = refl
  strip-strip (field k v rest) = elim (Bool-cases (is_dropped k)) [
    | inl dropped ↦ rw dropped (strip-strip rest)
    | inr held ↦
        rw held (strip-strip_field k v (strip_non_signature_fields rest) held (strip-strip rest))
  ]

  strip-strip_field :
      (k : String) (v : Value) (kept : Fields)
      → is_dropped k ≡ false
      → strip_non_signature_fields kept ≡ kept
      → strip_non_signature_fields (strip_field k v kept) ≡ strip_field k v kept
  strip-strip_field k (object fs) kept d ih = elim (Bool-cases (str_eq k "extensions")) [
    | inl ext ↦
        rw ext
          (add-strip k (strip_extensions fs) kept d ext (strip_extensions-strip_extensions fs) ih)
    | inr other ↦ rw (other, d, other, strip-strip fs, ih) refl
  ]
  strip-strip_field k (array items) kept d ih = rw (d, strip_items-strip_items items, ih) refl
  strip-strip_field k v kept d ih = rw (d, ih) refl

  strip_items-strip_items : (xs : Items) → strip_items (strip_items xs) ≡ strip_items xs
  strip_items-strip_items no_items = refl
  strip_items-strip_items (item v rest) =
      rw (strip_item-strip_item v, strip_items-strip_items rest) refl

  strip_item-strip_item : (v : Value) → strip_item (strip_item v) ≡ strip_item v
  strip_item-strip_item (object fs) = rw (strip-strip fs) refl
  strip_item-strip_item v = refl

-- What is stripped has nothing more to strip.
pub strip_non_signature_fields_idem :
    (fs : Fields)
    → strip_non_signature_fields (strip_non_signature_fields fs) ≡ strip_non_signature_fields fs
strip_non_signature_fields_idem fs = strip-strip fs

-- What a field that is no extensions object is stripped to.
unfoldable pub strip_value : Value → Value
strip_value (object fs) = object (strip_non_signature_fields fs)
strip_value (array items) = array (strip_items items)
strip_value v = v

get-add_extensions :
    (j k : String) (fs kept : Fields)
    → str_eq j k ≡ false
    → get k (add_extensions j fs kept) ≡ get k kept
unfolding add_extensions get
get-add_extensions j k no_fields kept h = refl
get-add_extensions j k (field i v fs) kept h = rw h refl

get-strip_field :
    (j k : String) (v : Value) (kept : Fields)
    → str_eq k "extensions" ≡ false
    → get k (strip_field j v kept) ≡ (if str_eq j k then some (strip_value v) else get k kept)
unfolding strip_field strip_value get
get-strip_field j k (object fs) kept h = elim (Bool-cases (str_eq j "extensions")) [
  | inl ext ↦
      let other = differs j k ext h in
      rw (ext, other) (get-add_extensions j k (strip_extensions fs) kept other)
  | inr plain ↦ rw plain refl
]
  where
    differs :
        (j k : String)
        → str_eq j "extensions" ≡ true
        → str_eq k "extensions" ≡ false
        → str_eq j k ≡ false
    differs j k e h = ground (arith, eq_iff j "extensions", eq_iff k "extensions", eq_iff j k)
get-strip_field j k v kept h = refl

-- A field that is not dropped and is no extensions object is still there, itself stripped.
pub get-strip :
    (k : String) (fs : Fields)
    → is_dropped k ≡ false
    → str_eq k "extensions" ≡ false
    → get k (strip_non_signature_fields fs) ≡ Option.map strip_value (get k fs)
unfolding strip_non_signature_fields get
get-strip k no_fields d h = refl
get-strip k (field j v rest) d h = elim (Bool-cases (is_dropped j)) [
  | inl dropped ↦ let other = differs j k dropped d in rw (dropped, other) (get-strip k rest d h)
  | inr held ↦ rw held (
      get-strip_field j k v (strip_non_signature_fields rest) h
      ∙ rest_of (str_eq j k) v (get k rest) (get-strip k rest d h))
]
  where
    clash : {b : Bool} → b ≡ true → b ≡ false → ⊥
    clash p q = cc

    differs : (j k : String) → is_dropped j ≡ true → is_dropped k ≡ false → str_eq j k ≡ false
    differs j k d e = elim (Bool-cases (str_eq j k)) [
      | inl same ↦ absurd (clash (rw ((eq_iff j k).0 same) at d) e)
      | inr other ↦ other
    ]

    rest_of :
        {o : Option Value} (b : Bool) (w : Value) (p : Option Value)
        → o ≡ Option.map strip_value p
        → (if b then some (strip_value w) else o) ≡ Option.map strip_value (if b then some w else p)
    rest_of true w p h = refl
    rest_of false w p h = h
