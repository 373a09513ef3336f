-- ===== src/Controller/Ddns.antt =====
-- internal/controller/keadhcpddns_controller.go: `Reconcile`, from step 3 on.
pub mod Deployed
use kea_dhcp_operator.Resources.Names.{
  deployment_name, config_map_name, config_file_name, service_account_name,
}
use kea_dhcp_operator.Controller.Secrets.{ddns_secrets}
use kea_dhcp_operator.Resources.Images.{default_command_for_component}
use kea_dhcp_operator.Render.Ddns.{render_ddns_json}
use kea_dhcp_operator.Controller.Status.{component_status}
use kea_dhcp_operator.Base.Int.{ℤ, pos}
use kea_dhcp_operator.Resources.Deployment.{DeploymentParams}
use kea_dhcp_operator.Api.Ddns.{KeaDhcpDdns, KeaDhcpDdnsStatus}
use kea_dhcp_operator.Controller.Environment.{Environment}
use kea_dhcp_operator.Controller.Pods.{pod_params, PodParams}
use kea_dhcp_operator.Controller.Steps.{
  ready_replicas, State, config_map_step, skip, reading, render_failed, render_error,
  service_account_step, service_step, scc_step, update_status, replicas_or_one, deployment_step,
  config_rendered, service_params,
}
use kea_dhcp_operator.Controller.Objects.{deployments}
use kea_dhcp_operator.Base.{String, Option, none, some, ◌++◌, ok, error, ℕ, Result}
use kea_dhcp_operator.Controller.Client.{
  ◌>>◌, found, not_found, get_failed, done, failed, OwnerApi, Run, Fetched, wrap,
}

unfoldable pub ddns_deployment_params : KeaDhcpDdns → String → DeploymentParams
unfolding pod_params
ddns_deployment_params ddns config_hash = record {
  namespace = ddns.meta.namespace;
  cr_name = ddns.meta.name;
  component = "ddns";
  command = default_command_for_component "ddns";
  config_file_name = config_file_name "ddns";
  config_map_name = config_map_name ddns.meta.name "ddns";
  image = pod.image;
  image_pull_policy = ddns.spec.container.image_pull_policy;
  replicas = some (replicas_or_one ddns.spec.replicas);
  resources = ddns.spec.container.resources;
  host_network = pod.host_network;
  node_selector = pod.node_selector;
  tolerations = pod.tolerations;
  affinity = pod.affinity;
  tls_secret_name = pod.tls_secret_name;
  service_account_name = service_account_name ddns.meta.name;
  config_hash = config_hash;
  image_pull_secrets = ddns.spec.container.image_pull_secrets;
  pod_annotations = pod.pod_annotations;
  nad_interface = "";
  nad_subnet = "";
  stork_agent = none;
  secret_env_vars = (ddns_secrets ddns.spec).0;
}
  where
    pod : PodParams
    pod = pod_params ddns.spec.container.image none ddns.spec.placement none

-- Step 8, up to the call that stores the status.
unfoldable pub ddns_status : String → String → ℕ → KeaDhcpDdns → KeaDhcpDdnsStatus
ddns_status now config_hash ready ddns = record {
  component =
      component_status now config_hash (config_map_name ddns.meta.name "ddns") ddns.meta.generation
        (pos ready) (replicas_or_one ddns.spec.replicas)
        (config_rendered now ddns.status.component);
}

module _ {Objects : Type 0} (env : Environment Objects) where
  abbrev pub ddns_service_at :
      {Owners : Type 0} → KeaDhcpDdns → Option ℤ → Run (State Objects Owners)
  ddns_service_at ddns none = skip
  ddns_service_at ddns (some port) =
      service_step env.client ddns.meta (service_params ddns.meta "ddns" port "UDP")

  -- Step 7: a Service only if there is a port.
  unfoldable pub ddns_service_step : {Owners : Type 0} → KeaDhcpDdns → Run (State Objects Owners)
  ddns_service_step ddns = ddns_service_at ddns ddns.spec.port

  unfoldable pub ddns_config : KeaDhcpDdns → Result String
  ddns_config ddns = env.print (render_ddns_json env.unmarshal (ddns_secrets ddns.spec).1)

module _ {Objects Owners : Type 0} (env : Environment Objects)
    (api : OwnerApi Owners KeaDhcpDdns KeaDhcpDdnsStatus) (now : String) where
  -- Steps 7 and 8.
  unfoldable pub after_ddns_deployment : KeaDhcpDdns → String → Run (State Objects Owners)
  unfolding ddns_service_step ddns_status
  after_ddns_deployment ddns config_hash =
      ddns_service_step env ddns
      >> reading
          (ready_replicas env.client ddns.meta deployments (deployment_name ddns.meta.name "ddns"))
          (λ ready.
            wrap "updating status"
              (update_status api ddns (ddns_status now config_hash ready ddns)))

  unfoldable pub reconcile_rendered_ddns : KeaDhcpDdns → String → Run (State Objects Owners)
  unfolding ddns_deployment_params after_ddns_deployment
  reconcile_rendered_ddns ddns config_json =
      config_map_step env.client ddns.meta "ddns" config_json
      >> service_account_step env.client ddns.meta "ddns"
      >> scc_step env.client ddns.meta env.is_open_shift
      >> deployment_step env.client ddns.meta
          (ddns_deployment_params ddns (env.compute_hash config_json))
      >> after_ddns_deployment ddns (env.compute_hash config_json)

  abbrev pub ddns_rendered : KeaDhcpDdns → Result String → Run (State Objects Owners)
  ddns_rendered ddns (ok config_json) = reconcile_rendered_ddns ddns config_json
  ddns_rendered ddns (error e) =
      render_failed api ddns
        (record ddns.status { component = render_error now e ddns.status.component }) e

  abbrev pub ddns_fetched : Fetched KeaDhcpDdns → Run (State Objects Owners)
  ddns_fetched (found ddns) w = ddns_rendered ddns (ddns_config env ddns) w
  ddns_fetched not_found w = (done, w)
  ddns_fetched (get_failed e) w = (failed e, w)

  unfoldable pub reconcile_ddns_request : String → String → Run (State Objects Owners)
  unfolding ddns_config reconcile_rendered_ddns
  reconcile_ddns_request namespace name w = ddns_fetched (api.get namespace name w.owners) w
