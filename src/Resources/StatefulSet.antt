-- ===== src/Resources/StatefulSet.antt =====
-- internal/resources/statefulset.go: the StatefulSet of high availability. A Go map is ranged over in no
-- fixed order: its entries stand here in the order in which one run visits them. `Replicas`, an int32
-- that the API server keeps at 1 at least, is a natural number, and so are ordinals.
pub mod Params
pub mod Volumes
pub mod Scripts
pub mod OrdinalNames
pub mod Pods
use kea_dhcp_operator.Base.{
  ℕ, zero, suc, String, Bool, true, false, Option, none, some, List, [], ◌∷◌, ◌++◌, ◌<>◌, ◌==◌,
  ◌&&◌, not, is_empty, eqb, get_or, if◌then◌else◌, when,
}
use kea_dhcp_operator.Base.Int.{ℤ, pos}
use kea_dhcp_operator.Base.Decimal.{decimal}
use kea_dhcp_operator.Json.{Json, Object, text, number, array, object, field, end, cons, nil}
use kea_dhcp_operator.Api.Kube.{Affinity, EnvVar, LocalObjectReference}
use kea_dhcp_operator.Api.Maps.{StringMap, put}
use kea_dhcp_operator.Api.Workloads.{
  Container, StatefulSet, Volume, VolumeMount, config_map, empty_dir, secret,
}
use kea_dhcp_operator.Resources.Deployment.{
  is_ok, volume_mount, kea_capabilities, sidecar, shared_namespace,
}
use kea_dhcp_operator.Resources.Images.{
  default_image_for_component, lease_volume_name, lease_mount_path, tls_volume_name, tls_mount_path,
  config_hash_annotation,
}
use kea_dhcp_operator.Resources.Labels.{common_labels}
use kea_dhcp_operator.Resources.Names.{stateful_set_name, headless_service_name, ha_config_map_name}
use kea_dhcp_operator.Resources.StatefulSet.Params.{
  active_config_volume_name, active_config_mount_path, configs_base_mount_path,
  default_init_container_image, StatefulSetParams,
}
use kea_dhcp_operator.Resources.StatefulSet.Volumes.{
  name_at, ordinal_volume_name, replica_count, ordinal_config_map, ordinal_volumes, ordinal_mounts,
  stateful_set_volumes, init_volume_mounts, main_volume_mounts,
}
use kea_dhcp_operator.Resources.StatefulSet.Scripts.{
  resolve_peer, resolve_peers, expand_secrets, address_cases, config_dst, init_script, start_kea,
  case_script, auto_script, stateful_set_command,
}
use kea_dhcp_operator.Resources.Stork.{
  StorkSidecarParams, config_mount_path, run_mount_path, run_volume_name, drop_all,
}
use kea_dhcp_operator.Resources.Validate.{validate_nad_shell_inputs}

unfoldable pub label_object : StringMap → Object
label_object [] = end
label_object ((k, v) ∷ labels) = field k (text v) (label_object labels)

-- Peers go to different nodes if there are enough.
unfoldable pub peer_anti_affinity : StringMap → Json
unfolding label_object
peer_anti_affinity labels = object (
    field "preferredDuringSchedulingIgnoredDuringExecution"
      (array (
        cons
          (object (
            field "weight" (number (pos 100)) (
              field "podAffinityTerm"
                (object (
                  field "labelSelector"
                    (object (field "matchLabels" (object (label_object labels)) end))
                    (field "topologyKey" (text "kubernetes.io/hostname") end)))
                end)))
          nil))
      end)

abbrev node_affinity_of : Option Affinity → Option Json
node_affinity_of none = none
node_affinity_of (some a) = a.node_affinity

abbrev pod_affinity_of : Option Affinity → Option Json
pod_affinity_of none = none
pod_affinity_of (some a) = a.pod_affinity

-- The user's affinities to nodes and to pods stay, the anti-affinity is always this one.
unfoldable pub ha_affinity : StringMap → Option Affinity → Affinity
unfolding peer_anti_affinity
ha_affinity labels user = record {
  node_affinity = node_affinity_of user;
  pod_affinity = pod_affinity_of user;
  pod_anti_affinity = some (peer_anti_affinity labels);
}

module _ (p : StatefulSetParams) where
  unfoldable pub init_container : Container
  unfolding init_script init_volume_mounts
  init_container = record {
    name = "config-selector";
    image =
        if p.init_container_image == ""
        then default_init_container_image
        else p.init_container_image;
    image_pull_policy = "";
    command = "sh" ∷ "-c" ∷ init_script p ∷ [];
    env = p.secret_env_vars;
    resources = object end;
    ports = [];
    volume_mounts = init_volume_mounts p;
    readiness_probe = none;
    liveness_probe = none;
    capabilities = drop_all;
  }

  unfoldable pub main_container : Container
  unfolding stateful_set_command main_volume_mounts
  main_container = record {
    name = p.component;
    image = if p.image == "" then default_image_for_component p.component else p.image;
    image_pull_policy = p.image_pull_policy;
    command = stateful_set_command p;
    env = [];
    resources = p.resources;
    ports = [];
    volume_mounts = main_volume_mounts (not (p.tls_secret_name == ""));
    readiness_probe = none;
    liveness_probe = none;
    capabilities = kea_capabilities p.nad_interface;
  }

  unfoldable pub build_stateful_set : StatefulSet
  unfolding init_container main_container stateful_set_volumes ha_affinity common_labels
      replica_count
  build_stateful_set = record {
    meta = record {
      name = stateful_set_name p.cr_name p.component;
      namespace = p.namespace;
      labels = common_labels p.cr_name p.component;
    };
    spec = record {
      service_name = headless_service_name p.cr_name p.component;
      pod_management_policy = "Parallel";
      replicas = some (pos (replica_count p));
      match_labels = common_labels p.cr_name p.component;
      template = record {
        labels = common_labels p.cr_name p.component;
        annotations = put config_hash_annotation p.config_hash p.pod_annotations;
        spec = record {
          service_account_name = p.service_account_name;
          host_network = p.host_network;
          share_process_namespace = shared_namespace p.stork_agent;
          init_containers = init_container ∷ [];
          containers = main_container ∷ sidecar p.stork_agent active_config_volume_name;
          volumes = stateful_set_volumes p (not (p.tls_secret_name == ""));
          node_selector = p.node_selector;
          tolerations = p.tolerations;
          affinity = some (ha_affinity (common_labels p.cr_name p.component) p.affinity);
          image_pull_secrets = p.image_pull_secrets;
        };
      };
    };
  }
