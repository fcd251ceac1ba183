-- ===== src/Jcs.antt =====
-- pkg/jcs/canonical.go: a value of the program as canonical JSON, which is a list of code points. The
-- layout of numbers is the package fmt's: `show_int` and `show_float` are what `canonicalizeNumber`
-- writes for the two kinds of numbers. `sort` is `sort.Strings`.
pub mod Text
pub mod Strip
pub mod Laws
pub mod Failing
mod Reading
mod Tests
use sentoris_proxy.Prelude.{
  ℕ, Bool, true, false, Option, none, some, List, [], ◌∷◌, ◌++◌, map, String, Result, ok, err,
  ◌>>=◌, codes, Map, lookup, if◌then◌else◌,
}
use sentoris_proxy.Prelude.Int.{ℤ}
use sentoris_proxy.Domain.Value.{
  Value, null, boolean, integer, number, text, strings, messages, array, maps, object, Items,
  no_items, item, Fields, no_fields, field, Maps, no_maps, map_item,
}
use sentoris_proxy.Jcs.Text.{canonicalize_string}

-- The type that `unsupported type: %T` names.
pub data JcsError : Type 0 where
  unsupported_type : String → JcsError

abbrev pub Canonical : Type 0
Canonical = Result JcsError (List ℕ)

-- The members that are left, with a comma before each but the first.
join_members : Bool → List (Canonical) → Canonical
join_members first [] = ok []
join_members first (m ∷ ms) = do
  cv ← m
  rest ← join_members false ms
  ok ((if first then [] else b',' ∷ []) ++ (cv ++ rest))

bracketed : (open_bracket close_bracket : ℕ) → List Canonical → Canonical
unfolding join_members
bracketed open_bracket close_bracket ms = do
  inner ← join_members true ms
  ok (open_bracket ∷ (inner ++ (close_bracket ∷ [])))

-- One member of an object: `obj[k]` of a key that the object lacks would be nil.
member : Map Canonical → String → Canonical
member table k = do
  cv ← elim (lookup k table) [ none ↦ ok (codes "null") | some c ↦ c ]
  ok (canonicalize_string (codes k) ++ (b':' ∷ cv))

members : Map Canonical → List String → List Canonical
unfolding member
members table [] = []
members table (k ∷ ks) = member table k ∷ members table ks

unfoldable pub keys : Fields → List String
keys no_fields = []
keys (field k v rest) = k ∷ keys rest

-- The loop of `canonicalizeObject` over the sorted keys. `table` has the form of each field, which
-- the loop asks for in that order.
pub write_object : (List String → List String) → Map Canonical → List String → Canonical
unfolding bracketed members
write_object sort table ks = bracketed b'{' b'}' (members table (sort ks))

module _ (sort : List String → List String) (show_int show_float : ℤ → List ℕ) where
  unfoldable mutual
    unfolding write_object bracketed

    pub canonicalize : Value → Canonical
    canonicalize null = ok (codes "null")
    canonicalize (boolean true) = ok (codes "true")
    canonicalize (boolean false) = ok (codes "false")
    canonicalize (integer n) = ok (show_int n)
    canonicalize (number n) = ok (show_float n)
    canonicalize (text s) = ok (canonicalize_string (codes s))
    canonicalize (strings ss) = err (unsupported_type "[]string")
    canonicalize (messages ms) = err (unsupported_type "[]upstream.Message")
    canonicalize (array items) = bracketed b'[' b']' (canonicalize_items items)
    canonicalize (maps ms) = bracketed b'[' b']' (canonicalize_maps ms)
    canonicalize (object fs) = write_object sort (canonicalize_fields fs) (keys fs)

    pub canonicalize_items : Items → List Canonical
    canonicalize_items no_items = []
    canonicalize_items (item v rest) = canonicalize v ∷ canonicalize_items rest

    pub canonicalize_maps : Maps → List Canonical
    canonicalize_maps no_maps = []
    canonicalize_maps (map_item fs rest) =
        write_object sort (canonicalize_fields fs) (keys fs) ∷ canonicalize_maps rest

    pub canonicalize_fields : Fields → Map Canonical
    canonicalize_fields no_fields = []
    canonicalize_fields (field k v rest) = (k, canonicalize v) ∷ canonicalize_fields rest

-- `CanonicalizeAndHash`, over SHA-256 in hexadecimal; its error is passed on.
unfoldable pub canonicalize_and_hash :
    (sort : List String → List String) (show_int show_float : ℤ → List ℕ)
    → (compute_sha256_hex : List ℕ → String) → Value
    → Result JcsError String
canonicalize_and_hash sort show_int show_float compute_sha256_hex v = do
  canonical ← canonicalize sort show_int show_float v
  ok (compute_sha256_hex canonical)
