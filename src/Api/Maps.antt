-- ===== src/Api/Maps.antt =====
-- A `map[string]string` of Go: its entries, each key once.
use kea_dhcp_operator.Base.{
  String, ◌≡◌, refl, Option, none, some, List, [], ◌∷◌, ◌==◌, if◌then◌else◌, eq_iff, arith,
}

abbrev pub StringMap : Type 0
StringMap = List (String × String)

-- m[key]
unfoldable pub data_at : String → StringMap → Option String
data_at key [] = none
data_at key ((k, v) ∷ kvs) = if k == key then some v else data_at key kvs

-- m[key] = value
unfoldable pub put : String → String → StringMap → StringMap
put key value [] = (key, value) ∷ []
put key value ((k, v) ∷ kvs) =
    let rest = put key value kvs in if k == key then (k, value) ∷ kvs else (k, v) ∷ rest

pub data_at-put :
    (key value other : String) (kvs : StringMap)
    → data_at other (put key value kvs) ≡ (if key == other then some value else data_at other kvs)
unfolding data_at put
data_at-put key value other [] = refl
data_at-put key value other ((k, v) ∷ kvs) =
    ground (arith, eq_iff k key, eq_iff k other, eq_iff key other, data_at-put key value other kvs)
