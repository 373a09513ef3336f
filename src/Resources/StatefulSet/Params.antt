-- ===== src/Resources/StatefulSet/Params.antt =====
-- The parameters and the constants of internal/resources/statefulset.go.
use kea_dhcp_operator.Base.{ℕ, String, Bool, Option, List}
use kea_dhcp_operator.Json.{Json}
use kea_dhcp_operator.Api.Kube.{Affinity, EnvVar, LocalObjectReference}
use kea_dhcp_operator.Api.Maps.{StringMap}
use kea_dhcp_operator.Resources.Stork.{StorkSidecarParams}

abbrev pub active_config_volume_name : String
active_config_volume_name = "kea-active-config"

abbrev pub active_config_mount_path : String
active_config_mount_path = "/etc/kea/active"

abbrev pub configs_base_mount_path : String
configs_base_mount_path = "/etc/kea/configs"

abbrev pub default_init_container_image : String
default_init_container_image = "docker.io/busybox:1.37"

pub record StatefulSetParams : Type 0 where
  pub namespace : String
  pub cr_name : String
  pub component : String
  pub command : String
  pub config_file_name : String
  pub image : String
  pub image_pull_policy : String
  pub replicas : Option ℕ
  pub resources : Json
  pub host_network : Bool
  pub node_selector : StringMap
  pub tolerations : List Json
  pub affinity : Option Affinity
  pub tls_secret_name : String
  pub service_account_name : String
  pub config_hash : String
  pub image_pull_secrets : List LocalObjectReference
  pub pod_annotations : StringMap
  pub config_map_names : List (ℕ × String)
  pub peer_hostname_map : StringMap
  pub nad_interface : String
  pub nad_subnet : String
  pub peer_addresses : List (ℕ × String)
  pub init_container_image : String
  pub stork_agent : Option StorkSidecarParams
  pub secret_env_vars : List EnvVar
