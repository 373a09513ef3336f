-- ===== src/Resources/Labels.antt =====
-- The labels of internal/resources/names.go, and how a selector of Kubernetes reads them.
use kea_dhcp_operator.Base.{
  String, Bool, true, false, ◌≡◌, Option, none, some, [], ◌∷◌, ◌==◌, ◌&&◌, arith,
}
use kea_dhcp_operator.Api.Maps.{StringMap, data_at}

unfoldable pub common_labels : String → String → StringMap
common_labels cr_name component =
    ("app.kubernetes.io/name", "kea")
    ∷ ("app.kubernetes.io/instance", cr_name)
    ∷ ("app.kubernetes.io/component", component)
    ∷ ("app.kubernetes.io/managed-by", "kea-operator")
    ∷ ("app.kubernetes.io/part-of", "kea-dhcp")
    ∷ []

abbrev holds : String → Option String → Bool
holds v none = false
holds v (some w) = w == v

-- A selector takes the pods that have each of its labels with its value.
unfoldable pub selects : StringMap → StringMap → Bool
unfolding data_at
selects [] labels = true
selects ((k, v) ∷ selector) labels = holds v (data_at k labels) && selects selector labels

-- The labels of one custom resource and component select the pods of that one, and no others.
pub selects-common_labels :
    (cr_name component cr_name' component' : String)
    → selects (common_labels cr_name component) (common_labels cr_name' component')
      ≡ cr_name' == cr_name && component' == component
unfolding common_labels selects data_at
selects-common_labels cr_name component cr_name' component' = ground arith
