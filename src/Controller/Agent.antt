-- ===== src/Controller/Agent.antt =====
-- internal/controller/keacontrolagent_controller.go: `Reconcile`, from step 3 on.
pub mod Deployed
use kea_dhcp_operator.Base.Int.{pos}
use kea_dhcp_operator.Resources.Names.{
  deployment_name, config_map_name, config_file_name, service_account_name,
}
use kea_dhcp_operator.Controller.Secrets.{agent_secrets}
use kea_dhcp_operator.Render.ControlAgent.{render_agent_json}
use kea_dhcp_operator.Resources.Images.{default_command_for_component}
use kea_dhcp_operator.Controller.Status.{component_status}
use kea_dhcp_operator.Resources.Deployment.{DeploymentParams}
use kea_dhcp_operator.Api.ControlAgent.{KeaControlAgent, KeaControlAgentStatus}
use kea_dhcp_operator.Controller.Environment.{Environment}
use kea_dhcp_operator.Controller.Pods.{pod_params, PodParams}
use kea_dhcp_operator.Controller.Steps.{
  ready_replicas, State, service_step, config_map_step, reading, render_failed,
  service_account_step, render_error, scc_step, update_status, replicas_or_one, deployment_step,
  config_rendered, service_params,
}
use kea_dhcp_operator.Controller.Objects.{deployments}
use kea_dhcp_operator.Base.{String, Option, none, some, ◌++◌, ok, error, ℕ, Result, get_or}
use kea_dhcp_operator.Controller.Client.{
  ◌>>◌, found, not_found, get_failed, done, failed, OwnerApi, Run, Fetched, wrap,
}

unfoldable pub agent_deployment_params : KeaControlAgent → String → DeploymentParams
unfolding pod_params
agent_deployment_params agent config_hash = record {
  namespace = agent.meta.namespace;
  cr_name = agent.meta.name;
  component = "ctrl-agent";
  command = default_command_for_component "ctrl-agent";
  config_file_name = config_file_name "ctrl-agent";
  config_map_name = config_map_name agent.meta.name "ctrl-agent";
  image = pod.image;
  image_pull_policy = agent.spec.container.image_pull_policy;
  replicas = some (replicas_or_one agent.spec.replicas);
  resources = agent.spec.container.resources;
  host_network = pod.host_network;
  node_selector = pod.node_selector;
  tolerations = pod.tolerations;
  affinity = pod.affinity;
  tls_secret_name = pod.tls_secret_name;
  service_account_name = service_account_name agent.meta.name;
  config_hash = config_hash;
  image_pull_secrets = agent.spec.container.image_pull_secrets;
  pod_annotations = pod.pod_annotations;
  nad_interface = "";
  nad_subnet = "";
  stork_agent = none;
  secret_env_vars = (agent_secrets agent.spec).0;
}
  where
    pod : PodParams
    pod = pod_params agent.spec.container.image none agent.spec.placement agent.spec.tls

-- Step 8, up to the call that stores the status.
unfoldable pub agent_status : String → String → ℕ → KeaControlAgent → KeaControlAgentStatus
agent_status now config_hash ready agent = record {
  component =
      component_status now config_hash (config_map_name agent.meta.name "ctrl-agent")
        agent.meta.generation (pos ready) (replicas_or_one agent.spec.replicas)
        (config_rendered now agent.status.component);
}

module _ {Objects : Type 0} (env : Environment Objects) where
  -- Step 7: there is always a Service.
  unfoldable pub agent_service_step :
      {Owners : Type 0} → KeaControlAgent → Run (State Objects Owners)
  agent_service_step agent =
      service_step env.client agent.meta
        (service_params agent.meta "ctrl-agent" (get_or agent.spec.http_port (pos 8000)) "TCP")

  unfoldable pub agent_config : KeaControlAgent → Result String
  agent_config agent = env.print (render_agent_json env.unmarshal (agent_secrets agent.spec).1)

module _ {Objects Owners : Type 0} (env : Environment Objects)
    (api : OwnerApi Owners KeaControlAgent KeaControlAgentStatus) (now : String) where
  -- Steps 7 and 8.
  unfoldable pub after_agent_deployment : KeaControlAgent → String → Run (State Objects Owners)
  unfolding agent_service_step agent_status
  after_agent_deployment agent config_hash =
      agent_service_step env agent
      >> reading
          (ready_replicas env.client agent.meta deployments
            (deployment_name agent.meta.name "ctrl-agent"))
          (λ ready.
            wrap "updating status"
              (update_status api agent (agent_status now config_hash ready agent)))

  unfoldable pub reconcile_rendered_agent : KeaControlAgent → String → Run (State Objects Owners)
  unfolding agent_deployment_params after_agent_deployment
  reconcile_rendered_agent agent config_json =
      config_map_step env.client agent.meta "ctrl-agent" config_json
      >> service_account_step env.client agent.meta "ctrl-agent"
      >> scc_step env.client agent.meta env.is_open_shift
      >> deployment_step env.client agent.meta
          (agent_deployment_params agent (env.compute_hash config_json))
      >> after_agent_deployment agent (env.compute_hash config_json)

  abbrev pub agent_rendered : KeaControlAgent → Result String → Run (State Objects Owners)
  agent_rendered agent (ok config_json) = reconcile_rendered_agent agent config_json
  agent_rendered agent (error e) =
      render_failed api agent
        (record agent.status { component = render_error now e agent.status.component }) e

  abbrev pub agent_fetched : Fetched KeaControlAgent → Run (State Objects Owners)
  agent_fetched (found agent) w = agent_rendered agent (agent_config env agent) w
  agent_fetched not_found w = (done, w)
  agent_fetched (get_failed e) w = (failed e, w)

  unfoldable pub reconcile_agent_request : String → String → Run (State Objects Owners)
  unfolding agent_config reconcile_rendered_agent
  reconcile_agent_request namespace name w = agent_fetched (api.get namespace name w.owners) w
