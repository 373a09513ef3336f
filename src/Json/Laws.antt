-- ===== src/Json/Laws.antt =====
-- What a lookup finds after an assignment.
use kea_dhcp_operator.Base.{
  String, false, ◌≡◌, refl, Option, none, some, List, [], ◌∷◌, arith, eq_iff, ◌==◌, or_else,
  if◌then◌else◌,
}
use kea_dhcp_operator.Json.Value.{
  Json, text, Object, end, field, get, set, set_if_some, set_if_not_nil, set_if_not_empty,
  set_if_any, array_of,
}

-- What an assignment that depends on its value stores.
abbrev pub pointed {ℓ} : {A : Type ℓ} → (A → Json) → Option A → Option Json
pointed to_json none = none
pointed to_json (some a) = some (to_json a)

unfoldable pub nonempty : String → Option Json
nonempty s = if s == "" then none else some (text s)

abbrev pub any_of {ℓ} : {A : Type ℓ} → (A → Json) → List A → Option Json
any_of to_json [] = none
any_of to_json (x ∷ xs) = some (array_of to_json (x ∷ xs))

module _ (j k : String) where
  pub get-set : (v : Json) (m : Object) → get j (set k v m) ≡ (if k == j then some v else get j m)
  unfolding get set
  get-set v end = refl
  get-set v (field i w m) = ground (arith, eq_iff k j, eq_iff i k, eq_iff i j, get-set v m)

  pub get-set_if_some :
      (v : Option Json) (m : Object)
      → get j (set_if_some k v m) ≡ (if k == j then or_else v (get j m) else get j m)
  unfolding set_if_some
  get-set_if_some none m = ground arith
  get-set_if_some (some v) m = get-set v m

  pub get-set_if_not_nil {ℓ} :
      {A : Type ℓ} (f : A → Json) (v : Option A) (m : Object)
      → get j (set_if_not_nil k f v m)
        ≡ (if k == j then or_else (pointed f v) (get j m) else get j m)
  unfolding set_if_not_nil
  get-set_if_not_nil f none m = ground arith
  get-set_if_not_nil f (some v) m = get-set (f v) m

  pub get-set_if_not_empty :
      (v : String) (m : Object)
      → get j (set_if_not_empty k v m)
        ≡ (if k == j then or_else (nonempty v) (get j m) else get j m)
  unfolding set_if_not_empty nonempty
  get-set_if_not_empty v m = ground (arith, get-set (text v) m)

  pub get-set_if_any {ℓ} :
      {A : Type ℓ} (f : A → Json) (xs : List A) (m : Object)
      → get j (set_if_any k f xs m) ≡ (if k == j then or_else (any_of f xs) (get j m) else get j m)
  unfolding set_if_any
  get-set_if_any f [] m = ground arith
  get-set_if_any f (x ∷ xs) m = get-set (array_of f (x ∷ xs)) m

pub get-end : (j : String) → get j end ≡ none
unfolding get
get-end j = refl

pub ruleset get_laws =
    (get-end, get-set, get-set_if_some, get-set_if_not_nil, get-set_if_not_empty, get-set_if_any)

pub nonempty-text : (s : String) → (s == "") ≡ false → nonempty s ≡ some (text s)
unfolding nonempty
nonempty-text s h = rw h
