-- ===== src/Json/Value.antt =====
-- The values that encoding/json prints, and the assignments to a `map[string]interface{}` that
-- internal/kea/config.go makes. A map is a list of fields in the order of their first assignment.
use kea_dhcp_operator.Base.{
  String, Bool, true, Option, none, some, List, [], ◌∷◌, ◌==◌, if◌then◌else◌,
}
use kea_dhcp_operator.Base.Int.{ℤ}

mutual
  pub data Json : Type 0 where
    null : Json
    boolean : Bool → Json
    number : ℤ → Json
    text : String → Json
    array : Items → Json
    object : Object → Json

  pub data Items : Type 0 where
    nil : Items
    cons : Json → Items → Items

  pub data Object : Type 0 where
    end : Object
    field : String → Json → Object → Object

-- m[key], if it is there.
unfoldable pub get : String → Object → Option Json
get key end = none
get key (field k v m) = if k == key then some v else get key m

-- m[key] = val
unfoldable pub set : String → Json → Object → Object
set key val end = field key val end
set key val (field k v m) = if k == key then field k val m else field k v (set key val m)

-- `if val != nil { m[key] = val }`, for what a renderer returns.
unfoldable pub set_if_some : String → Option Json → Object → Object
set_if_some key none m = m
set_if_some key (some val) m = set key val m

-- A pointer of the spec is an `Option`, and its value is read through it.
unfoldable pub set_if_not_nil {ℓ} : {A : Type ℓ} → String → (A → Json) → Option A → Object → Object
set_if_not_nil key to_json none m = m
set_if_not_nil key to_json (some val) m = set key (to_json val) m

unfoldable pub set_if_not_empty : String → String → Object → Object
set_if_not_empty key val m = if val == "" then m else set key (text val) m

-- len(m) > 0
abbrev pub is_end : Object → Bool
is_end end = true
is_end (field k v m) = Bool.false

-- The items of a slice, each printed by `to_json`.
abbrev pub items {ℓ} : {A : Type ℓ} → (A → Json) → List A → Items
items to_json [] = nil
items to_json (x ∷ xs) = cons (to_json x) (items to_json xs)

abbrev pub array_of {ℓ} : {A : Type ℓ} → (A → Json) → List A → Json
array_of to_json xs = array (items to_json xs)

-- `if len(xs) > 0 { m[key] = xs }`
unfoldable pub set_if_any {ℓ} : {A : Type ℓ} → String → (A → Json) → List A → Object → Object
set_if_any key to_json [] m = m
set_if_any key to_json (x ∷ xs) m = set key (array_of to_json (x ∷ xs)) m
