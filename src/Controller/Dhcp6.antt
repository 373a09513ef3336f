-- ===== src/Controller/Dhcp6.antt =====
-- internal/controller/keadhcp6server_controller.go: `Reconcile`. High availability changes the
-- configuration only: the workload is a Deployment.
pub mod Deployed
pub mod Success
use kea_dhcp_operator.Base.Int.{pos}
use kea_dhcp_operator.Resources.Names.{
  deployment_name, config_map_name, config_file_name, service_account_name,
}
use kea_dhcp_operator.Render.Dhcp4.{DbCredentials}
use kea_dhcp_operator.Api.Kube.{EnvVar}
use kea_dhcp_operator.Controller.Stork.{resolve_stork_agent}
use kea_dhcp_operator.Resources.Images.{default_command_for_component}
use kea_dhcp_operator.Resources.Deployment.{DeploymentParams}
use kea_dhcp_operator.Controller.Status.{component_status}
use kea_dhcp_operator.Controller.Dhcp4.Peers.{fill_peer_urls}
use kea_dhcp_operator.Resources.Stork.{StorkSidecarParams}
use kea_dhcp_operator.Controller.Dhcp4.Credentials.{
  db_credential_env_vars, hosts_envs, hosts_credentials, secret_of,
}
use kea_dhcp_operator.Controller.Environment.{Environment}
use kea_dhcp_operator.Controller.Pods.{pod_params, PodParams, peer_port, ha_tls, get_secret_in}
use kea_dhcp_operator.Api.Dhcp6.{KeaDhcp6Server, KeaDhcp6ServerStatus, KeaDhcp6ServerSpec}
use kea_dhcp_operator.Controller.Steps.{
  ready_replicas, State, config_map_step, control_service_step, render_failed, service_account_step,
  render_error, stork_monitoring_step, scc_step, reading, deployment_step, update_status,
  replicas_or_one, config_rendered,
}
use kea_dhcp_operator.Controller.Objects.{deployments}
use kea_dhcp_operator.Render.Dhcp6.{render_json, Dhcp6ConfigRenderer}
use kea_dhcp_operator.Base.{String, Option, none, some, ◌++◌, ok, error, ℕ, Result, List, []}
use kea_dhcp_operator.Controller.Client.{
  ◌>>◌, found, not_found, get_failed, done, failed, OwnerApi, Run, Fetched, wrap,
}

-- Step 3: the renderer with its placeholders, and the environment of the container.
unfoldable pub dhcp6_credentials : KeaDhcp6ServerSpec → List EnvVar × Dhcp6ConfigRenderer
unfolding db_credential_env_vars hosts_envs hosts_credentials
dhcp6_credentials spec = (
  lease.0 ++ (hosts.0 ++ hosts_envs 0 spec.hosts_databases),
  record {
    spec = spec;
    lease_db_creds = lease.1;
    hosts_db_creds = hosts.1;
    hosts_dbs_creds = hosts_credentials 0 spec.hosts_databases [];
  },
)
  where
    lease : List EnvVar × DbCredentials
    lease = db_credential_env_vars "KEA_LEASE_DB" (secret_of spec.lease_database)

    hosts : List EnvVar × DbCredentials
    hosts = db_credential_env_vars "KEA_HOSTS_DB" (secret_of spec.hosts_database)

-- Step 2: the server with the URLs of its peers filled in.
unfoldable pub with_dhcp6_peer_urls : KeaDhcp6Server → KeaDhcp6Server
with_dhcp6_peer_urls server = record server {
  spec = record server.spec {
    high_availability =
        fill_peer_urls server.meta.namespace server.meta.name "dhcp6"
          (peer_port server.spec.control_socket) server.spec.high_availability;
  };
}

unfoldable pub dhcp6_pod_params : KeaDhcp6Server → PodParams
unfolding pod_params
dhcp6_pod_params server =
    pod_params server.spec.container.image server.spec.host_network server.spec.placement
      (ha_tls server.spec.high_availability)

unfoldable pub dhcp6_deployment_params :
    KeaDhcp6Server → String → Option StorkSidecarParams → DeploymentParams
unfolding dhcp6_pod_params dhcp6_credentials
dhcp6_deployment_params server config_hash stork_agent = record {
  namespace = server.meta.namespace;
  cr_name = server.meta.name;
  component = "dhcp6";
  command = default_command_for_component "dhcp6";
  config_file_name = config_file_name "dhcp6";
  config_map_name = config_map_name server.meta.name "dhcp6";
  image = (dhcp6_pod_params server).image;
  image_pull_policy = server.spec.container.image_pull_policy;
  replicas = some (replicas_or_one server.spec.replicas);
  resources = server.spec.container.resources;
  host_network = (dhcp6_pod_params server).host_network;
  node_selector = (dhcp6_pod_params server).node_selector;
  tolerations = (dhcp6_pod_params server).tolerations;
  affinity = (dhcp6_pod_params server).affinity;
  tls_secret_name = (dhcp6_pod_params server).tls_secret_name;
  service_account_name = service_account_name server.meta.name;
  config_hash = config_hash;
  image_pull_secrets = server.spec.container.image_pull_secrets;
  pod_annotations = (dhcp6_pod_params server).pod_annotations;
  nad_interface = "";
  nad_subnet = "";
  stork_agent = stork_agent;
  secret_env_vars = (dhcp6_credentials server.spec).0;
}

-- `updateDhcp6Status`, up to the call that stores it.
unfoldable pub dhcp6_status : String → String → ℕ → KeaDhcp6Server → KeaDhcp6ServerStatus
dhcp6_status now config_hash ready server = record {
  component =
      component_status now config_hash (config_map_name server.meta.name "dhcp6")
        server.meta.generation (pos ready) (replicas_or_one server.spec.replicas)
        (config_rendered now server.status.component);
}

module _ {Objects : Type 0} (env : Environment Objects) where
  -- `resolveDhcp6StorkAgent`
  unfoldable pub dhcp6_stork_agent :
      {Owners : Type 0} → KeaDhcp6Server → State Objects Owners → Option StorkSidecarParams
  dhcp6_stork_agent server w =
      resolve_stork_agent env.get_stork env.list_storks (get_secret_in env.client w.objects)
        server.meta.namespace server.spec.stork

  -- The configuration of a server whose peers are filled in.
  unfoldable pub dhcp6_config : KeaDhcp6Server → Result String
  unfolding dhcp6_credentials
  dhcp6_config server = env.print (render_json env.unmarshal (dhcp6_credentials server.spec).1)

module _ {Objects Owners : Type 0} (env : Environment Objects)
    (api : OwnerApi Owners KeaDhcp6Server KeaDhcp6ServerStatus) (now : String) where
  -- Steps 7 to 9.
  unfoldable pub after_dhcp6_deployment :
      KeaDhcp6Server → String → Option StorkSidecarParams → Run (State Objects Owners)
  unfolding dhcp6_status
  after_dhcp6_deployment server config_hash agent =
      control_service_step env.client server.meta "dhcp6" server.spec.control_socket
      >> stork_monitoring_step env.client server.meta env.is_open_shift "dhcp6" agent
      >> reading
          (ready_replicas env.client server.meta deployments
            (deployment_name server.meta.name "dhcp6"))
          (λ ready.
            wrap "updating status"
              (update_status api server (dhcp6_status now config_hash ready server)))

  unfoldable pub reconcile_rendered_dhcp6 : KeaDhcp6Server → String → Run (State Objects Owners)
  unfolding dhcp6_deployment_params dhcp6_stork_agent after_dhcp6_deployment
  reconcile_rendered_dhcp6 server config_json =
      config_map_step env.client server.meta "dhcp6" config_json
      >> service_account_step env.client server.meta "dhcp6"
      >> scc_step env.client server.meta env.is_open_shift
      >> reading (dhcp6_stork_agent env server) (λ agent.
        deployment_step env.client server.meta
          (dhcp6_deployment_params server (env.compute_hash config_json) agent)
        >> after_dhcp6_deployment server (env.compute_hash config_json) agent)

  abbrev pub dhcp6_rendered : KeaDhcp6Server → Result String → Run (State Objects Owners)
  dhcp6_rendered server (ok config_json) = reconcile_rendered_dhcp6 server config_json
  dhcp6_rendered server (error e) =
      render_failed api server
        (record server.status { component = render_error now e server.status.component }) e

  unfoldable pub reconcile_dhcp6_server : KeaDhcp6Server → Run (State Objects Owners)
  unfolding with_dhcp6_peer_urls dhcp6_config reconcile_rendered_dhcp6
  reconcile_dhcp6_server server =
      let filled = with_dhcp6_peer_urls server in dhcp6_rendered filled (dhcp6_config env filled)

  abbrev pub dhcp6_fetched : Fetched KeaDhcp6Server → Run (State Objects Owners)
  dhcp6_fetched (found server) w = reconcile_dhcp6_server server w
  dhcp6_fetched not_found w = (done, w)
  dhcp6_fetched (get_failed e) w = (failed e, w)

  unfoldable pub reconcile_dhcp6_request : String → String → Run (State Objects Owners)
  unfolding reconcile_dhcp6_server
  reconcile_dhcp6_request namespace name w = dhcp6_fetched (api.get namespace name w.owners) w
