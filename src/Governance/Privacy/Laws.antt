-- ===== src/Governance/Privacy/Laws.antt =====
-- What masking along a path changes, and what it leaves.
use mathlib.Core.Option
use sentoris_proxy.Prelude.{
  ◌≡◌, refl, false, inl, inr, Option, ◌⊎◌, eq_refl, none, some, List, [], ◌∷◌, String, All, str_eq,
  eq_iff, if◌then◌else◌, arith,
}
use sentoris_proxy.Prelude.Int.{ℤ}
use sentoris_proxy.Domain.Value.{
  Value, text, array, object, Items, no_items, item, Fields, no_fields, field, get,
}
use sentoris_proxy.Governance.Privacy.Paths.{
  mask_value, mask_items, mask_all_fields, one_field, traverse_and_mask,
}

under : (Value → Option Value) → Option Value → Option Value
under f none = none
under f (some v) = f v

-- The value at the end of a path of keys.
pub at_path : List String → Value → Option Value
unfolding under
at_path [] v = some v
at_path (k ∷ ks) (object fs) = under (at_path ks) (get k fs)
at_path (k ∷ ks) v = none

get-one_field :
    (key : String) (f : Value → Value) (fs : Fields) (k : String)
    → get k (one_field key f fs) ≡ (if str_eq key k then Option.map f (get k fs) else get k fs)
unfolding get one_field
get-one_field key f no_fields k = ground arith
get-one_field key f (field j v rest) k =
    ground (arith, get-one_field key f rest k, eq_iff key k, eq_iff j key, eq_iff j k)

-- The parts are keys: none is the wildcard.
abbrev pub IsKey : String → Type 0
IsKey part = str_eq part "*" ≡ false

-- The paths part ways at some key.
abbrev pub Apart : List String → List String → Type 0
Apart [] qs = ⊥
Apart (p ∷ ps) [] = ⊥
Apart (p ∷ ps) (q ∷ qs) = (str_eq p q ≡ false) ⊎ ((p ≡ q) × Apart ps qs)

module _ (scan_int : String → Option ℤ) where
  at_path-masked :
      (parts : List String) (v : Value)
      → All IsKey parts
      → at_path parts (traverse_and_mask scan_int parts v) ≡ Option.map mask_value (at_path parts v)
  unfolding at_path traverse_and_mask
  at_path-masked [] v keys = refl
  at_path-masked (part ∷ parts) (object fs) (key, keys) =
      rw (key, get-one_field part (traverse_and_mask scan_int parts) fs part, eq_refl part)
        (inside (λ w. at_path-masked parts w keys) (get part fs))
    where
      inside :
          ((w : Value)
            → at_path parts (traverse_and_mask scan_int parts w)
              ≡ Option.map mask_value (at_path parts w))
          → (o : Option Value)
          → under (at_path parts) (Option.map (traverse_and_mask scan_int parts) o)
            ≡ Option.map mask_value (under (at_path parts) o)
      inside each none = refl
      inside each (some w) = each w
  at_path-masked (part ∷ parts) v keys = refl

  at_path-kept :
      (parts qs : List String) (v : Value)
      → All IsKey parts
      → Apart parts qs
      → at_path qs (traverse_and_mask scan_int parts v) ≡ at_path qs v
  unfolding at_path traverse_and_mask
  at_path-kept [] qs v keys apart = absurd apart
  at_path-kept (p ∷ ps) [] v keys apart = absurd apart
  at_path-kept (p ∷ ps) (q ∷ qs) (object fs) (key, keys) (inl differ) =
      rw (key, get-one_field p (traverse_and_mask scan_int ps) fs q, differ) refl
  at_path-kept (p ∷ ps) (q ∷ qs) (object fs) (key, keys) (inr (same, apart)) =
      rw (key, get-one_field p (traverse_and_mask scan_int ps) fs q, same, eq_refl q)
        (inside (λ w. at_path-kept ps qs w keys apart) (get q fs))
    where
      inside :
          ((w : Value) → at_path qs (traverse_and_mask scan_int ps w) ≡ at_path qs w)
          → (o : Option Value)
          → under (at_path qs) (Option.map (traverse_and_mask scan_int ps) o) ≡ under (at_path qs) o
      inside each none = refl
      inside each (some w) = each w
  at_path-kept (p ∷ ps) (q ∷ qs) v keys apart = refl

  -- Masking along a path of keys masks the value at its end, if there is one, and leaves the value at
  -- the end of every path of keys that parts ways with it.
  pub traverse_and_mask_lem :
      (parts : List String) (v : Value)
      → All IsKey parts
      → (at_path parts (traverse_and_mask scan_int parts v)
          ≡ Option.map mask_value (at_path parts v))
        × ((qs : List String)
            → Apart parts qs
            → at_path qs (traverse_and_mask scan_int parts v) ≡ at_path qs v)
  traverse_and_mask_lem parts v keys =
      (at_path-masked parts v keys, λ qs apart. at_path-kept parts qs v keys apart)

-- Every leaf is the text `[REDACTED]`.
abbrev mutual
  pub IsRedacted : Value → Type 0
  IsRedacted (array items) = AreRedacted items
  IsRedacted (object fs) = HasRedacted fs
  IsRedacted (text s) = s ≡ "[REDACTED]"
  IsRedacted v = ⊥

  pub AreRedacted : Items → Type 0
  AreRedacted no_items = Unit
  AreRedacted (item v rest) = IsRedacted v × AreRedacted rest

  pub HasRedacted : Fields → Type 0
  HasRedacted no_fields = Unit
  HasRedacted (field k v rest) = IsRedacted v × HasRedacted rest

mutual
  unfolding mask_value

  -- A masked value has no leaf but the text `[REDACTED]`.
  pub mask_value-IsRedacted : (v : Value) → IsRedacted (mask_value v)
  mask_value-IsRedacted (array items) = mask_items-AreRedacted items
  mask_value-IsRedacted (object fs) = mask_all_fields-HasRedacted fs
  mask_value-IsRedacted v = refl

  mask_items-AreRedacted : (items : Items) → AreRedacted (mask_items items)
  mask_items-AreRedacted no_items = tt
  mask_items-AreRedacted (item v rest) = (mask_value-IsRedacted v, mask_items-AreRedacted rest)

  mask_all_fields-HasRedacted : (fs : Fields) → HasRedacted (mask_all_fields fs)
  mask_all_fields-HasRedacted no_fields = tt
  mask_all_fields-HasRedacted (field k v rest) =
      (mask_value-IsRedacted v, mask_all_fields-HasRedacted rest)
