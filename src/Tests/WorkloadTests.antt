-- ===== src/Tests/WorkloadTests.antt =====
-- Witnesses of the builders of workloads and Services.
use kea_dhcp_operator.Controller.Steps.Addresses.{cluster_ip-reconcile_resource}
use kea_dhcp_operator.Tests.Servers.{named}
use kea_dhcp_operator.Controller.Client.{found, ◌>>◌, wrap}
use kea_dhcp_operator.Tests.Cluster.{Objects, cluster, cluster-TakesEffect}
use kea_dhcp_operator.Resources.StatefulSet.Pods.{build_stateful_set-IsWellFormed}
use kea_dhcp_operator.Resources.Deployment.Pods.{build_deployment-IsWellFormed}
use kea_dhcp_operator.Resources.Selectors.{
  selects-build_deployment, pod_labels, selects-build_per_pod_service,
}
use kea_dhcp_operator.Resources.StatefulSet.{build_stateful_set}
use kea_dhcp_operator.Controller.Setup.{kea_scc}
use kea_dhcp_operator.Resources.StatefulSet.Params.{StatefulSetParams}
use kea_dhcp_operator.Controller.Setup.Allowed.{allows, allows-build_deployment}
use kea_dhcp_operator.Resources.Deployment.{DeploymentParams, build_deployment}
use kea_dhcp_operator.Resources.WellFormed.{IsWellFormed}
use kea_dhcp_operator.Resources.Services.{
  build_service, ServiceParams, build_per_pod_service, build_stork_metrics_service,
  build_pod_monitor, build_headless_service,
}
use kea_dhcp_operator.Resources.Labels.{selects, common_labels}
use kea_dhcp_operator.Resources.Stork.{StorkSidecarParams, sidecar_params}
use kea_dhcp_operator.Api.Kube.{secret_key_ref, EnvVar}
use kea_dhcp_operator.Base.Int.{ℤ, pos}
use kea_dhcp_operator.Json.{null}
use kea_dhcp_operator.Tests.Specs.{stork}
use kea_dhcp_operator.Api.Workloads.{Service}
use kea_dhcp_operator.Controller.Objects.{service, reconcile_resource, key_of}
use kea_dhcp_operator.Base.{◌≡◌, false, true, some, none, [], ◌∷◌, refl}

abbrev agent : StorkSidecarParams
agent = sidecar_params stork "secret"

abbrev password : EnvVar
password = record {
  name = "KEA_LEASE_DB_PASSWORD";
  source = secret_key_ref (record { name = "db"; key = "password" });
}

abbrev deployment4 : DeploymentParams
deployment4 = record {
  namespace = "net";
  cr_name = "site";
  component = "dhcp4";
  command = "kea-dhcp4";
  config_file_name = "kea-dhcp4.conf";
  config_map_name = "site-dhcp4-config";
  image = "";
  image_pull_policy = "";
  replicas = some (pos 1);
  resources = null;
  host_network = false;
  node_selector = [];
  tolerations = [];
  affinity = none;
  tls_secret_name = "certs";
  service_account_name = "site-kea";
  config_hash = "abc";
  image_pull_secrets = [];
  pod_annotations = ("team", "network") ∷ [];
  nad_interface = "net1";
  nad_subnet = "10.0.0.0/24";
  stork_agent = some agent;
  secret_env_vars = password ∷ [];
}

abbrev pub stateful4 : StatefulSetParams
stateful4 = record {
  namespace = "net";
  cr_name = "site";
  component = "dhcp4";
  command = "kea-dhcp4";
  config_file_name = "kea-dhcp4.conf";
  image = "";
  image_pull_policy = "";
  replicas = some 2;
  resources = null;
  host_network = true;
  node_selector = [];
  tolerations = [];
  affinity = none;
  tls_secret_name = "certs";
  service_account_name = "site-kea";
  config_hash = "abc";
  image_pull_secrets = [];
  pod_annotations = ("team", "network") ∷ [];
  config_map_names = (0, "site-dhcp4-config-0") ∷ [];
  peer_hostname_map = ("kea-1.net", "site-dhcp4-0.net.svc.cluster.local") ∷ [];
  nad_interface = "net1";
  nad_subnet = "10.0.0.0/24";
  peer_addresses = (0, "10.0.0.2") ∷ [];
  init_container_image = "";
  stork_agent = some agent;
  secret_env_vars = password ∷ [];
}

abbrev pub control : ServiceParams
control = record {
  namespace = "net";
  cr_name = "site";
  component = "dhcp4";
  port = pos 8000;
  protocol = "TCP";
}

deployment_example : IsWellFormed (build_deployment deployment4).spec.template.spec
deployment_example = build_deployment-IsWellFormed deployment4

stateful_set_example : IsWellFormed (build_stateful_set stateful4).spec.template.spec
stateful_set_example = build_stateful_set-IsWellFormed stateful4

service_example :
    (selects
        (build_deployment (record deployment4 { component = "dhcp6" })).spec.match_labels
        (build_deployment deployment4).spec.template.labels
      ≡ false)
    × (selects
          (build_service control).spec.selector
          (build_deployment deployment4).spec.template.labels
        ≡ true)
    × ((agent_port prometheus_port : ℤ)
        → selects
            (build_stork_metrics_service (record {
              namespace = "net";
              cr_name = "site";
              component = "dhcp4";
              agent_port = agent_port;
              prometheus_port = prometheus_port;
            })).spec.selector
            (build_deployment deployment4).spec.template.labels
          ≡ true)
    × (selects
          (build_pod_monitor "net" "site" "dhcp4").spec.match_labels
          (build_deployment deployment4).spec.template.labels
        ≡ true)
service_example =
    selects-build_deployment control deployment4 (record deployment4 { component = "dhcp6" })

per_pod_example :
    (selects (build_per_pod_service control 1).spec.selector (pod_labels stateful4 1) ≡ true)
    × (selects (build_headless_service control).spec.selector (pod_labels stateful4 1) ≡ true)
per_pod_example = selects-build_per_pod_service stateful4 control 1 1 refl refl

allowed_example :
    (allows kea_scc (build_deployment deployment4).spec.template.spec ≡ true)
    × (allows kea_scc (build_stateful_set stateful4).spec.template.spec ≡ false)
allowed_example = allows-build_deployment deployment4 stateful4

abbrev live_service : Service
live_service = record {
  meta = record { name = "site-dhcp4"; namespace = "net"; labels = [] };
  spec = record (build_service control).spec {
    cluster_ip = "10.96.0.7";
    cluster_ips = "10.96.0.7" ∷ [];
  };
}

abbrev served : Objects
served k = found (service live_service)

addresses_kept_example :
    cluster.get
      (key_of (service (build_service control)))
      (reconcile_resource cluster named (service (build_service control)) served).1
    ≡ found (
        service (record {
          meta = record {
            name = "site-dhcp4";
            namespace = "net";
            labels = common_labels "site" "dhcp4";
          };
          spec = record {
            cluster_ip = "10.96.0.7";
            cluster_ips = "10.96.0.7" ∷ [];
            publish_not_ready_addresses = false;
            selector = common_labels "site" "dhcp4";
            ports = (build_service control).spec.ports;
          };
        }))
addresses_kept_example =
    cluster_ip-reconcile_resource cluster cluster-TakesEffect named control live_service served refl
      (unfold reconcile_resource ◌>>◌ wrap in refl)
