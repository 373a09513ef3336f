-- ===== src/Tests/HaTests.antt =====
-- Witnesses of the reconciliation of a DHCPv4 server with high availability.
use kea_dhcp_operator.Resources.StatefulSet.{build_stateful_set}
use kea_dhcp_operator.Resources.Names.{ha_config_map_name, config_file_name}
use kea_dhcp_operator.Controller.Dhcp4.HaWritten.{config_map_key, get-dhcp4_ha_configs}
use kea_dhcp_operator.Controller.Dhcp4.HaWorkload.{set_of, hosts_of}
use kea_dhcp_operator.Tests.Servers.{standard4, empty, api4, no_parse, named}
use kea_dhcp_operator.Controller.Dhcp4.SafeHosts.{IsPlain, IsPlain-peer_hosts}
use kea_dhcp_operator.Controller.Dhcp4.HaDeployed.{
  with_account, deployed_ha-reconcile_dhcp4_request,
}
use kea_dhcp_operator.Api.Maps.{StringMap, put, data_at}
use kea_dhcp_operator.Controller.Dhcp4.Success.{outcome-reconcile_dhcp4_request}
use kea_dhcp_operator.Resources.Validate.{is_safe_name, some_chars, all_chars, validate_hostname}
use kea_dhcp_operator.Controller.Dhcp4.Workload.{
  peer_hosts, per_pod_host, peers_of, dhcp4_replicas, dhcp4_stateful_set_params,
}
use kea_dhcp_operator.Controller.Steps.Standard.{reconciled}
use kea_dhcp_operator.Controller.Dhcp4.Peers.{fill_peer_urls, fill_peer_url}
use kea_dhcp_operator.Controller.Dhcp4.Reconcile.{
  reconcile_dhcp4_request, with_dhcp4_peer_urls, dhcp4_stork_agent, dhcp4_status, dhcp4_ha_configs,
  data_in,
}
use kea_dhcp_operator.Controller.Steps.{State}
use kea_dhcp_operator.Api.Dhcp4.{KeaDhcp4Server}
use kea_dhcp_operator.Controller.Objects.{key_of, Resource, reconcile_resource}
use kea_dhcp_operator.Controller.Client.{done, found, Outcome, ◌>>◌, wrap}
use kea_dhcp_operator.Tests.Cluster.{
  Objects, environment, no_objects, cluster, cluster-TakesEffect, as_is, cluster-NeverFails,
}
use kea_dhcp_operator.Tests.Specs.{spec4}
use kea_dhcp_operator.Base.Int.{pos}
use kea_dhcp_operator.Base.{String, refl, ◌≡◌, [], Option, some, ok, All, arith}

-- Two peers, and the host names in their URLs.
abbrev replicated4 : KeaDhcp4Server
replicated4 = record standard4 { spec = record spec4 { replicas = some (pos 2) } }

abbrev peer_host : String → Option String
peer_host _ = some "kea-1.net"

abbrev run_ha : Outcome × State Objects KeaDhcp4Server
run_ha =
    reconcile_dhcp4_request environment api4 no_parse peer_host "now" "net" "site"
      (empty replicated4)

outcome_ha_example : run_ha.0 ≡ done
unfolding with_dhcp4_peer_urls fill_peer_urls peer_hosts validate_hostname is_safe_name some_chars
    all_chars fill_peer_url
outcome_ha_example =
    outcome-reconcile_dhcp4_request environment cluster-NeverFails api4 no_parse peer_host "now"
      (λ server st s. refl) "net" "site" replicated4 (empty replicated4) refl

abbrev filled_ha : KeaDhcp4Server
filled_ha = with_dhcp4_peer_urls replicated4

abbrev configured_ha : String × Objects
configured_ha = dhcp4_ha_configs environment filled_ha no_objects

abbrev workload_ha : StringMap → Resource
workload_ha hosts =
    set_of filled_ha configured_ha.0
      (dhcp4_stork_agent environment filled_ha (
        with_account environment filled_ha
          (record { objects = configured_ha.1; owners = replicated4 })))
      hosts

deployed_ha_example :
    (hosts : StringMap) × (hosts_of peer_host filled_ha ≡ ok hosts)
    × (cluster.get (key_of (workload_ha hosts)) run_ha.1.objects
        ≡ found (reconciled cluster as_is (workload_ha hosts) configured_ha.1))
    × (data_at "kea.openshift.io/config-hash"
          (build_stateful_set (
            dhcp4_stateful_set_params filled_ha configured_ha.0 hosts (
              dhcp4_stork_agent environment filled_ha (
                with_account environment filled_ha (record {
                  objects = configured_ha.1;
                  owners = replicated4;
                }))))).spec.template.annotations
        ≡ some configured_ha.0)
    × (api4.update_status filled_ha
          (dhcp4_status environment api4 no_parse peer_host "now" filled_ha configured_ha.0 1)
          replicated4
        ≡ (done, run_ha.1.owners))
deployed_ha_example =
    deployed_ha-reconcile_dhcp4_request environment api4 no_parse peer_host "now"
      cluster-TakesEffect "net" "site" replicated4 (empty replicated4) refl refl outcome_ha_example

-- 36 is the code of $.
safe_hosts_example :
    All
      (IsPlain 36 refl)
      (put "kea-1.net" (per_pod_host filled_ha 1) (put "kea-1.net" (per_pod_host filled_ha 0) []))
unfolding with_dhcp4_peer_urls peer_hosts fill_peer_urls validate_hostname
safe_hosts_example =
    IsPlain-peer_hosts 36 refl peer_host filled_ha 0 (peers_of filled_ha) [] _ refl tt

written_example :
    data_in (
      cluster.get
        (config_map_key named (ha_config_map_name "site" "dhcp4" 1))
        (dhcp4_ha_configs environment replicated4 no_objects).1)
    ≡ some (record { file_name = config_file_name "dhcp4"; content = "{}" })
written_example =
    get-dhcp4_ha_configs environment cluster-TakesEffect (λ d. refl) replicated4 1 no_objects
      (unfold dhcp4_replicas in omega arith) refl tt (unfold reconcile_resource ◌>>◌ wrap in refl)
