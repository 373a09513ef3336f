-- ===== src/Tests/ReconcileTests.antt =====
-- Witnesses of the reconciliations, in a cluster in memory that has no objects yet.
use kea_dhcp_operator.Controller.Steps.InPlace.{RunsOn}
use kea_dhcp_operator.Tests.Servers.{
  named, standard4, server6, control_agent, ddns, empty, api4, api6, agents, ddns_api, no_parse,
  no_host,
}
use kea_dhcp_operator.Controller.Dhcp6.Success.{outcome-reconcile_dhcp6_request}
use kea_dhcp_operator.Controller.Dhcp6.Deployed.{
  deployed-reconcile_dhcp6_request, failed-reconcile_dhcp6_request,
}
use kea_dhcp_operator.Controller.Dhcp4.Deployed.{
  deployed-reconcile_dhcp4_request, failed-reconcile_dhcp4_request,
}
use kea_dhcp_operator.Controller.Agent.Deployed.{deployed-reconcile_agent_request}
use kea_dhcp_operator.Controller.Ddns.Deployed.{deployed-reconcile_ddns_request}
use kea_dhcp_operator.Controller.Dhcp4.Workload.{dhcp4_deployment_params}
use kea_dhcp_operator.Controller.Status.{is_ready_status}
use kea_dhcp_operator.Controller.Steps.Standard.{built_config_map, reconciled, prepared}
use kea_dhcp_operator.Controller.Environment.{Environment}
use kea_dhcp_operator.Controller.Conditions.{find_condition, merged}
use kea_dhcp_operator.Resources.Deployment.{build_deployment}
use kea_dhcp_operator.Controller.Dhcp6.{
  with_dhcp6_peer_urls, reconcile_dhcp6_request, dhcp6_stork_agent, dhcp6_deployment_params,
  dhcp6_status, after_dhcp6_deployment, reconcile_rendered_dhcp6, dhcp6_config,
  reconcile_dhcp6_server,
}
use kea_dhcp_operator.Controller.Agent.{
  reconcile_agent_request, agent_deployment_params, after_agent_deployment, agent_status,
  reconcile_rendered_agent, agent_config, agent_service_step,
}
use kea_dhcp_operator.Controller.Ddns.{
  reconcile_ddns_request, after_ddns_deployment, ddns_status, ddns_deployment_params,
  reconcile_rendered_ddns, ddns_config, ddns_service_step,
}
use kea_dhcp_operator.Controller.Stork.{resolve_stork_agent}
use kea_dhcp_operator.Api.Common.{ComponentStatus}
use kea_dhcp_operator.Controller.Dhcp4.Peers.{fill_peer_urls, fill_peer_url}
use kea_dhcp_operator.Controller.Dhcp4.Reconcile.{
  reconcile_dhcp4_request, with_dhcp4_peer_urls, after_dhcp4_workload, reconcile_standard_dhcp4,
  dhcp4_config, reconcile_filled_dhcp4, dhcp4_stork_agent, dhcp4_status,
}
use kea_dhcp_operator.Api.ControlAgent.{KeaControlAgent}
use kea_dhcp_operator.Controller.Steps.{
  State, reading, own, config_map_step, service_account_step, scc_step, deployment_step,
  service_step, control_service_step, stork_monitoring_step, on_objects, when_run, skip,
  passed_over, update_status, render_error,
}
use kea_dhcp_operator.Api.Dhcp6.{KeaDhcp6Server}
use kea_dhcp_operator.Api.Dhcp4.{KeaDhcp4Server}
use kea_dhcp_operator.Api.Ddns.{KeaDhcpDdns}
use kea_dhcp_operator.Controller.Objects.{reconcile_resource, deployment, key_of, Resource}
use kea_dhcp_operator.Controller.Client.{done, ◌>>◌, wrap, failed, found, Outcome}
use kea_dhcp_operator.Tests.Cluster.{
  Objects, environment, no_objects, cluster, cluster-TakesEffect, as_is, cluster-NeverFails,
}
use kea_dhcp_operator.Tests.Specs.{component}
use kea_dhcp_operator.Base.{refl, none, ◌≡◌, error, false, true, some}

abbrev run4 : Outcome × State Objects KeaDhcp4Server
run4 =
    reconcile_dhcp4_request environment api4 no_parse no_host "now" "net" "site" (empty standard4)

ends4 : run4.0 ≡ done
unfolding reconcile_dhcp4_request with_dhcp4_peer_urls fill_peer_urls dhcp4_stork_agent
    resolve_stork_agent after_dhcp4_workload reconcile_standard_dhcp4 dhcp4_config
    reconcile_filled_dhcp4 reading own reconcile_resource config_map_step service_account_step
    scc_step deployment_step service_step control_service_step stork_monitoring_step ◌>>◌ wrap
    on_objects when_run skip passed_over update_status
ends4 = refl

abbrev config_map4 : Resource
config_map4 = built_config_map standard4.meta "dhcp4" "{}"

abbrev workload4 : Resource
workload4 = deployment (
    build_deployment (
      dhcp4_deployment_params standard4 "{}" (
        dhcp4_stork_agent environment standard4
          (prepared cluster named "dhcp4" "{}" true (empty standard4)))))

deployed4_example :
    (cluster.get (key_of config_map4) run4.1.objects
      ≡ found (reconciled cluster as_is config_map4 no_objects))
    × (cluster.get (key_of workload4) run4.1.objects
        ≡ found (reconciled cluster as_is workload4 no_objects))
    × RunsOn
        (build_deployment (
          dhcp4_deployment_params standard4 "{}" (
            dhcp4_stork_agent environment standard4
              (prepared cluster named "dhcp4" "{}" true (empty standard4)))))
        (key_of config_map4).name
        "{}"
    × (api4.update_status standard4
          (dhcp4_status environment api4 no_parse no_host "now" standard4 "{}" 1)
          standard4
        ≡ (done, run4.1.owners))
deployed4_example =
    deployed-reconcile_dhcp4_request environment api4 no_parse no_host "now" cluster-TakesEffect
      "net" "site" "{}" standard4 (empty standard4) refl refl (unfold dhcp4_config in refl) ends4

abbrev run6 : Outcome × State Objects KeaDhcp6Server
run6 = reconcile_dhcp6_request environment api6 "now" "net" "site" (empty server6)

ends6 : run6.0 ≡ done
unfolding reconcile_dhcp6_request with_dhcp6_peer_urls fill_peer_urls dhcp6_stork_agent
    resolve_stork_agent after_dhcp6_deployment reconcile_rendered_dhcp6 dhcp6_config
    reconcile_dhcp6_server reading own reconcile_resource config_map_step service_account_step
    scc_step deployment_step service_step control_service_step stork_monitoring_step ◌>>◌ wrap
    on_objects when_run skip passed_over update_status
ends6 = refl

abbrev config_map6 : Resource
config_map6 = built_config_map (with_dhcp6_peer_urls server6).meta "dhcp6" "{}"

abbrev workload6 : Resource
workload6 = deployment (
    build_deployment (
      dhcp6_deployment_params (with_dhcp6_peer_urls server6) "{}" (
        dhcp6_stork_agent environment (with_dhcp6_peer_urls server6)
          (prepared cluster named "dhcp6" "{}" true (empty server6)))))

deployed6_example :
    (cluster.get (key_of config_map6) run6.1.objects
      ≡ found (reconciled cluster as_is config_map6 no_objects))
    × (cluster.get (key_of workload6) run6.1.objects
        ≡ found (reconciled cluster as_is workload6 no_objects))
    × RunsOn
        (build_deployment (
          dhcp6_deployment_params (with_dhcp6_peer_urls server6) "{}" (
            dhcp6_stork_agent environment
              (with_dhcp6_peer_urls server6)
              (prepared cluster named "dhcp6" "{}" true (empty server6)))))
        (key_of config_map6).name
        "{}"
    × (api6.update_status
          (with_dhcp6_peer_urls server6)
          (dhcp6_status "now" "{}" 1 (with_dhcp6_peer_urls server6))
          server6
        ≡ (done, run6.1.owners))
unfolding with_dhcp6_peer_urls
deployed6_example =
    deployed-reconcile_dhcp6_request environment api6 "now" cluster-TakesEffect "net" "site" "{}"
      server6 (empty server6) refl (unfold dhcp6_config in refl) ends6

abbrev run_agent : Outcome × State Objects KeaControlAgent
run_agent = reconcile_agent_request environment agents "now" "net" "site" (empty control_agent)

ends_agent : run_agent.0 ≡ done
unfolding reconcile_agent_request after_agent_deployment reconcile_rendered_agent agent_config
    agent_service_step reading own reconcile_resource config_map_step service_account_step scc_step
    deployment_step service_step control_service_step stork_monitoring_step ◌>>◌ wrap on_objects
    when_run skip passed_over update_status
ends_agent = refl

abbrev config_map_agent : Resource
config_map_agent = built_config_map control_agent.meta "ctrl-agent" "{}"

abbrev workload_agent : Resource
workload_agent = deployment (build_deployment (agent_deployment_params control_agent "{}"))

deployed_agent_example :
    (cluster.get (key_of config_map_agent) run_agent.1.objects
      ≡ found (reconciled cluster as_is config_map_agent no_objects))
    × (cluster.get (key_of workload_agent) run_agent.1.objects
        ≡ found (reconciled cluster as_is workload_agent no_objects))
    × RunsOn
        (build_deployment (agent_deployment_params control_agent "{}"))
        (key_of config_map_agent).name
        "{}"
    × (agents.update_status control_agent (agent_status "now" "{}" 1 control_agent) control_agent
        ≡ (done, run_agent.1.owners))
deployed_agent_example =
    deployed-reconcile_agent_request environment agents "now" cluster-TakesEffect "net" "site" "{}"
      control_agent (empty control_agent) refl (unfold agent_config in refl) ends_agent

abbrev run_ddns : Outcome × State Objects KeaDhcpDdns
run_ddns = reconcile_ddns_request environment ddns_api "now" "net" "site" (empty ddns)

ends_ddns : run_ddns.0 ≡ done
unfolding reconcile_ddns_request after_ddns_deployment reconcile_rendered_ddns ddns_config
    ddns_service_step reading own reconcile_resource config_map_step service_account_step scc_step
    deployment_step service_step control_service_step stork_monitoring_step ◌>>◌ wrap on_objects
    when_run skip passed_over update_status
ends_ddns = refl

abbrev config_map_ddns : Resource
config_map_ddns = built_config_map ddns.meta "ddns" "{}"

abbrev workload_ddns : Resource
workload_ddns = deployment (build_deployment (ddns_deployment_params ddns "{}"))

deployed_ddns_example :
    (cluster.get (key_of config_map_ddns) run_ddns.1.objects
      ≡ found (reconciled cluster as_is config_map_ddns no_objects))
    × (cluster.get (key_of workload_ddns) run_ddns.1.objects
        ≡ found (reconciled cluster as_is workload_ddns no_objects))
    × RunsOn
        (build_deployment (ddns_deployment_params ddns "{}"))
        (key_of config_map_ddns).name
        "{}"
    × (ddns_api.update_status ddns (ddns_status "now" "{}" 1 ddns) ddns ≡ (done, run_ddns.1.owners))
deployed_ddns_example =
    deployed-reconcile_ddns_request environment ddns_api "now" cluster-TakesEffect "net" "site" "{}"
      ddns (empty ddns) refl (unfold ddns_config in refl) ends_ddns

-- A printer that refuses.
abbrev refusing : Environment Objects
refusing = record environment { print = λ j. error "unsupported value" }

abbrev rejected : ComponentStatus
rejected = render_error "now" "unsupported value" component

failed4_example :
    (reconcile_dhcp4_request refusing api4 no_parse no_host "now" "net" "site" (empty standard4) ≡ (
      failed "rendering config: unsupported value",
      empty (record standard4 { status = record standard4.status { component = rejected } }),
    ))
    × (is_ready_status rejected ≡ false)
    × (find_condition "ConfigurationValid" rejected.conditions
        ≡ some (merged "now" "ConfigurationValid" "False" "RenderError" "unsupported value" none))
unfolding find_condition
failed4_example =
    failed-reconcile_dhcp4_request refusing api4 no_parse no_host "now" "net" "site"
      "unsupported value" standard4 (empty standard4) refl refl (unfold dhcp4_config in refl)

failed6_example :
    (reconcile_dhcp6_request refusing api6 "now" "net" "site" (empty server6) ≡ (
      failed "rendering config: unsupported value",
      empty (record (with_dhcp6_peer_urls server6) {
        status = record server6.status { component = rejected };
      }),
    ))
    × (is_ready_status rejected ≡ false)
    × (find_condition "ConfigurationValid" rejected.conditions
        ≡ some (merged "now" "ConfigurationValid" "False" "RenderError" "unsupported value" none))
unfolding find_condition with_dhcp6_peer_urls fill_peer_urls fill_peer_url
failed6_example =
    failed-reconcile_dhcp6_request refusing api6 "now" "net" "site" "unsupported value" server6
      (empty server6) refl (unfold dhcp6_config in refl)

outcome6_example : run6.0 ≡ done
unfolding dhcp6_config
outcome6_example =
    outcome-reconcile_dhcp6_request environment cluster-NeverFails api6 "now" (λ server st s. refl)
      "net" "site" server6 (empty server6) refl
