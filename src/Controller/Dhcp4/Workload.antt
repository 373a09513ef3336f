-- ===== src/Controller/Dhcp4/Workload.antt =====
-- internal/controller/keadhcp4server_controller.go: the parameters of the two workloads, a Deployment or
-- the StatefulSet of high availability. url.Parse with Hostname is a parameter.
use kea_dhcp_operator.Controller.Dhcp4.Credentials.{credentials}
use kea_dhcp_operator.Controller.Dhcp4.Nad.{nad_interface, nad_subnet}
use kea_dhcp_operator.Base.Decimal.{decimal}
use kea_dhcp_operator.Resources.Validate.{validate_hostname}
use kea_dhcp_operator.Resources.Images.{default_command_for_component}
use kea_dhcp_operator.Resources.StatefulSet.Params.{StatefulSetParams}
use kea_dhcp_operator.Resources.Deployment.{DeploymentParams}
use kea_dhcp_operator.Controller.Steps.{replicas_or_one}
use kea_dhcp_operator.Resources.Names.{
  per_pod_service_name, ha_config_map_name, config_file_name, service_account_name, config_map_name,
}
use kea_dhcp_operator.Resources.Stork.{StorkSidecarParams}
use kea_dhcp_operator.Base.Int.{pos_part}
use kea_dhcp_operator.Api.Maps.{StringMap, put}
use kea_dhcp_operator.Api.Ha.{HaPeer}
use kea_dhcp_operator.Controller.Pods.{pod_params, PodParams, ha_tls}
use kea_dhcp_operator.Api.Dhcp4.{KeaDhcp4Server}
use kea_dhcp_operator.Base.{
  ℕ, zero, suc, String, Option, none, some, ok, error, [], ◌∷◌, List, if◌then◌else◌, ◌<>◌, Result,
  ◌==◌,
}

unfoldable pub dhcp4_pod_params : KeaDhcp4Server → PodParams
unfolding pod_params
dhcp4_pod_params server =
    pod_params server.spec.container.image server.spec.host_network server.spec.placement
      (ha_tls server.spec.high_availability)

-- `reconcileDhcp4Deployment`
unfoldable pub dhcp4_deployment_params :
    KeaDhcp4Server → String → Option StorkSidecarParams → DeploymentParams
unfolding dhcp4_pod_params
dhcp4_deployment_params server config_hash stork_agent = record {
  namespace = server.meta.namespace;
  cr_name = server.meta.name;
  component = "dhcp4";
  command = default_command_for_component "dhcp4";
  config_file_name = config_file_name "dhcp4";
  config_map_name = config_map_name server.meta.name "dhcp4";
  image = (dhcp4_pod_params server).image;
  image_pull_policy = server.spec.container.image_pull_policy;
  replicas = some (replicas_or_one server.spec.replicas);
  resources = server.spec.container.resources;
  host_network = (dhcp4_pod_params server).host_network;
  node_selector = (dhcp4_pod_params server).node_selector;
  tolerations = (dhcp4_pod_params server).tolerations;
  affinity = (dhcp4_pod_params server).affinity;
  tls_secret_name = (dhcp4_pod_params server).tls_secret_name;
  service_account_name = service_account_name server.meta.name;
  config_hash = config_hash;
  image_pull_secrets = server.spec.container.image_pull_secrets;
  pod_annotations = (dhcp4_pod_params server).pod_annotations;
  nad_interface = nad_interface server;
  nad_subnet = nad_subnet server;
  stork_agent = stork_agent;
  secret_env_vars = (credentials server.spec).0;
}

-- `cmNames`, from an ordinal on.
unfoldable pub config_map_names : String → ℕ → ℕ → List (ℕ × String)
config_map_names cr_name i zero = []
config_map_names cr_name i (suc n) =
    (i, ha_config_map_name cr_name "dhcp4" i) ∷ config_map_names cr_name (suc i) n

-- `peerAddresses`, from an index on.
unfoldable pub peer_addresses : ℕ → List HaPeer → List (ℕ × String)
peer_addresses i [] = []
peer_addresses i (p ∷ ps) =
    let rest = peer_addresses (suc i) ps in if p.address == "" then rest else (i, p.address) ∷ rest

-- The stable host name of the pod of an ordinal.
unfoldable pub per_pod_host : KeaDhcp4Server → ℕ → String
per_pod_host server i =
    per_pod_service_name server.meta.name "dhcp4" i
    <> "."
    <> server.meta.namespace
    <> ".svc.cluster.local"

-- `replicas`, which the API server keeps at 1 at least.
unfoldable pub dhcp4_replicas : KeaDhcp4Server → ℕ
dhcp4_replicas server = pos_part (replicas_or_one server.spec.replicas)

abbrev pub peers_of : KeaDhcp4Server → List HaPeer
peers_of server = elim (server.spec.high_availability) [ none ↦ [] | some ha ↦ ha.peers ]

module _ (hostname_of : String → Option String) (server : KeaDhcp4Server) where
  abbrev pub add_host : ℕ → Option String → StringMap → Result StringMap
  add_host i none hosts = ok hosts
  add_host i (some host) hosts = elim (validate_hostname host) [
    | ok u ↦ ok (put host (per_pod_host server i) hosts)
    | error e ↦ error ("HA peer " <> decimal i <> " URL: " <> e)
  ]

  -- The loop that fills `peerHostnameMap`, from an index on: a URL that cannot be parsed is skipped, a
  -- host name that is not safe for the shell ends the reconciliation.
  unfoldable pub peer_hosts : ℕ → List HaPeer → StringMap → Result StringMap
  peer_hosts i [] hosts = ok hosts
  peer_hosts i (p ∷ ps) hosts = elim (add_host i (hostname_of p.url) hosts) [
    | ok hosts' ↦ peer_hosts (suc i) ps hosts'
    | error e ↦ error e
  ]

-- `sp` of `reconcileDhcp4HAWorkload`
unfoldable pub dhcp4_stateful_set_params :
    KeaDhcp4Server → String → StringMap → Option StorkSidecarParams → StatefulSetParams
unfolding dhcp4_pod_params
dhcp4_stateful_set_params server config_hash hosts stork_agent = record {
  namespace = server.meta.namespace;
  cr_name = server.meta.name;
  component = "dhcp4";
  command = default_command_for_component "dhcp4";
  config_file_name = config_file_name "dhcp4";
  image = (dhcp4_pod_params server).image;
  image_pull_policy = server.spec.container.image_pull_policy;
  replicas = some (dhcp4_replicas server);
  resources = server.spec.container.resources;
  host_network = (dhcp4_pod_params server).host_network;
  node_selector = (dhcp4_pod_params server).node_selector;
  tolerations = (dhcp4_pod_params server).tolerations;
  affinity = (dhcp4_pod_params server).affinity;
  tls_secret_name = (dhcp4_pod_params server).tls_secret_name;
  service_account_name = service_account_name server.meta.name;
  config_hash = config_hash;
  image_pull_secrets = server.spec.container.image_pull_secrets;
  pod_annotations = (dhcp4_pod_params server).pod_annotations;
  config_map_names = config_map_names server.meta.name 0 (dhcp4_replicas server);
  peer_hostname_map = hosts;
  nad_interface = nad_interface server;
  nad_subnet = nad_subnet server;
  peer_addresses = peer_addresses 0 (peers_of server);
  init_container_image = "";
  stork_agent = stork_agent;
  secret_env_vars = (credentials server.spec).0;
}
