-- ===== src/Domain/Value.antt =====
-- What an `any` of the program holds: the values that it builds or that a decoder makes of JSON. Each
-- constructor is one dynamic type, since the code branches on these; a `float64` is an integer of a
-- fixed small unit. A map's fields stand in the order in which it is iterated.
use sentoris_proxy.Prelude.{Bool, String, List, Option, none, some, str_eq, if◌then◌else◌}
use sentoris_proxy.Prelude.Int.{ℤ}

-- `Message` of internal/adapter/upstream/client.go.
pub record Message : Type 0 where
  pub role : String
  pub content : String

mutual
  pub data Value : Type 0 where
    null : Value
    boolean : Bool → Value
    integer : ℤ → Value
    number : ℤ → Value
    text : String → Value
    strings : List String → Value
    messages : List Message → Value
    array : Items → Value
    maps : Maps → Value
    object : Fields → Value

  pub data Items : Type 0 where
    no_items : Items
    item : Value → Items → Items

  pub data Fields : Type 0 where
    no_fields : Fields
    field : String → Value → Fields → Fields

  pub data Maps : Type 0 where
    no_maps : Maps
    map_item : Fields → Maps → Maps

-- `m[key] = v`.
unfoldable pub put : String → Value → Fields → Fields
put key v no_fields = field key v no_fields
put key v (field k w rest) = if str_eq k key then field key v rest else field k w (put key v rest)

unfoldable pub get : String → Fields → Option Value
get key no_fields = none
get key (field k v rest) = if str_eq k key then some v else get key rest
