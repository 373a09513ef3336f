-- ===== src/Resources/Names.antt =====
-- The names of Kubernetes objects: internal/resources/names.go, statefulset.go and configmap.go. An
-- ordinal, an int that counts replicas from 0, is a natural number.
use Prim.Native.Nat.{ℕ}
use kea_dhcp_operator.Base.{String, ◌≢◌, ◌≡◌, ◌<>◌, append_cancel_left, ◌==◌, if◌then◌else◌}
use kea_dhcp_operator.Base.Decimal.{decimal, decimal-injective}

unfoldable pub config_map_name : String → String → String
config_map_name cr_name component = cr_name <> ("-" <> component)

unfoldable pub service_name : String → String → String
service_name cr_name component = cr_name <> ("-" <> component)

unfoldable pub stateful_set_name : String → String → String
stateful_set_name cr_name component = cr_name <> ("-" <> component)

unfoldable pub headless_service_name : String → String → String
headless_service_name cr_name component = cr_name <> ("-" <> (component <> "-hl"))

unfoldable pub per_pod_service_name : String → String → ℕ → String
per_pod_service_name cr_name component ordinal =
    cr_name <> ("-" <> (component <> ("-" <> decimal ordinal)))

unfoldable pub ha_config_map_name : String → String → ℕ → String
ha_config_map_name cr_name component ordinal =
    cr_name <> ("-" <> (component <> ("-" <> decimal ordinal)))

unfoldable pub deployment_name : String → String → String
deployment_name cr_name component = cr_name <> ("-" <> component)

unfoldable pub service_account_name : String → String
service_account_name cr_name = cr_name <> "-kea"

unfoldable pub stork_metrics_service_name : String → String → String
stork_metrics_service_name cr_name component = cr_name <> ("-" <> (component <> "-stork"))

unfoldable pub stork_route_name : String → String → String
unfolding stork_metrics_service_name
stork_route_name cr_name component = stork_metrics_service_name cr_name component

unfoldable pub pod_monitor_name : String → String → String
pod_monitor_name cr_name component = cr_name <> ("-" <> component)

unfoldable pub stork_admin_secret_name : String → String
stork_admin_secret_name cr_name = cr_name <> "-stork-admin"

unfoldable pub stork_server_token_secret_name : String → String
stork_server_token_secret_name cr_name = cr_name <> "-stork-server-token"

-- The file of a component's configuration.
unfoldable pub config_file_name : String → String
config_file_name component =
    if component == "dhcp4"
    then "kea-dhcp4.conf"
    else if component == "dhcp6"
    then "kea-dhcp6.conf"
    else if component == "ctrl-agent"
    then "kea-ctrl-agent.conf"
    else if component == "ddns"
    then "kea-dhcp-ddns.conf"
    else "kea-" <> (component <> ".conf")

module _ (cr_name component : String) where
  pub ha_config_map_name-injective :
      (i j : ℕ)
      → ha_config_map_name cr_name component i ≡ ha_config_map_name cr_name component j
      → i ≡ j
  unfolding ha_config_map_name
  ha_config_map_name-injective i j h = decimal-injective i j (
      append_cancel_left "-" _ _ (
        append_cancel_left component _ _
          (append_cancel_left "-" _ _ (append_cancel_left cr_name _ _ h))))

  -- The ConfigMaps of different replicas have different names.
  pub ha_config_map_name-distinct :
      (i j : ℕ)
      → i ≢ j
      → ha_config_map_name cr_name component i ≢ ha_config_map_name cr_name component j
  ha_config_map_name-distinct i j apart same = apart (ha_config_map_name-injective i j same)
