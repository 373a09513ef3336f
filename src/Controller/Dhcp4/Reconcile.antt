-- ===== src/Controller/Dhcp4/Reconcile.antt =====
-- internal/controller/keadhcp4server_controller.go: `Reconcile`.
use kea_dhcp_operator.Resources.Names.{stateful_set_name, deployment_name}
use kea_dhcp_operator.Controller.Dhcp4.Status.{update_dhcp4_status}
use kea_dhcp_operator.Resources.StatefulSet.{build_stateful_set}
use kea_dhcp_operator.Resources.Labels.{common_labels}
use kea_dhcp_operator.Base.Decimal.{decimal}
use kea_dhcp_operator.Controller.Dhcp4.Nad.{Ipv4}
use kea_dhcp_operator.Controller.Pods.{get_secret_in, peer_port}
use kea_dhcp_operator.Controller.Dhcp4.Credentials.{credentials}
use kea_dhcp_operator.Controller.Stork.{resolve_stork_agent}
use kea_dhcp_operator.Controller.Dhcp4.HaConfigs.{reconcile_ha_configs, ConfigMapData, ConfigMapApi}
use kea_dhcp_operator.Controller.Dhcp4.Peers.{fill_peer_urls}
use kea_dhcp_operator.Resources.Services.{
  ServiceParams, config_map_meta, build_headless_service, build_per_pod_service,
}
use kea_dhcp_operator.Resources.Stork.{StorkSidecarParams}
use kea_dhcp_operator.Api.Kube.{ObjectMeta}
use kea_dhcp_operator.Controller.Environment.{Environment}
use kea_dhcp_operator.Api.Dhcp4.{KeaDhcp4Server, KeaDhcp4ServerStatus}
use kea_dhcp_operator.Api.Maps.{StringMap}
use kea_dhcp_operator.Controller.Dhcp4.Workload.{
  peers_of, dhcp4_replicas, peer_hosts, dhcp4_stateful_set_params, dhcp4_deployment_params,
}
use kea_dhcp_operator.Controller.Steps.{
  ready_replicas, State, service_params, skip, own, config_map_step, render_failed,
  control_service_step, service_account_step, config_rendered, stork_monitoring_step, scc_step,
  render_error, update_status, reading, deployment_step,
}
use kea_dhcp_operator.Controller.Objects.{
  config_map, config_maps, service, stateful_set, stateful_sets, deployments, reconcile_resource,
  Client, Resource,
}
use kea_dhcp_operator.Render.Dhcp4.{render_json}
use kea_dhcp_operator.Base.{
  ℕ, zero, suc, String, Option, none, some, ok, error, ◌∷◌, [], Result, ◌<>◌, if◌then◌else◌,
  is_some,
}
use kea_dhcp_operator.Controller.Client.{
  ◌>>◌, found, not_found, get_failed, done, failed, Fetched, Run, OwnerApi, wrap,
}

-- Step 2: the server with the URLs of its peers filled in.
unfoldable pub with_dhcp4_peer_urls : KeaDhcp4Server → KeaDhcp4Server
with_dhcp4_peer_urls server = record server {
  spec = record server.spec {
    high_availability =
        fill_peer_urls server.meta.namespace server.meta.name "dhcp4"
          (peer_port server.spec.control_socket) server.spec.high_availability;
  };
}

abbrev entry_of : StringMap → Option ConfigMapData
entry_of [] = none
entry_of ((file_name, content) ∷ entries) =
    some (record { file_name = file_name; content = content })

abbrev pub data_in : Fetched Resource → Option ConfigMapData
data_in (found (config_map d)) = entry_of d.entries
data_in r = none

-- The ConfigMaps of a server, as the loop over the ordinals writes them.
abbrev pub config_maps_of : {Objects : Type 0} → Client Objects → ObjectMeta → ConfigMapApi Objects
config_maps_of client owner = record {
  get = λ name s.
      data_in
        (client.get (record { kind = config_maps; namespace = owner.namespace; name = name }) s);
  reconcile_resource = λ name d s.
      reconcile_resource client owner
        (config_map (record {
          meta = config_map_meta name owner.namespace (common_labels owner.name "dhcp4");
          entries = (d.file_name, d.content) ∷ [];
        }))
        s;
}

abbrev pub dhcp4_service_params : KeaDhcp4Server → ServiceParams
dhcp4_service_params server =
    service_params server.meta "dhcp4" (peer_port server.spec.control_socket) "TCP"

module _ {Objects : Type 0} (env : Environment Objects) where
  -- `resolveDhcp4StorkAgent`
  unfoldable pub dhcp4_stork_agent :
      {Owners : Type 0} → KeaDhcp4Server → State Objects Owners → Option StorkSidecarParams
  dhcp4_stork_agent server w =
      resolve_stork_agent env.get_stork env.list_storks (get_secret_in env.client w.objects)
        server.meta.namespace server.spec.stork

  -- The one configuration of a server without high availability.
  unfoldable pub dhcp4_config : KeaDhcp4Server → Result String
  dhcp4_config server = env.print (render_json env.unmarshal (credentials server.spec).1)

  -- The hash of all configurations, and the objects with their ConfigMaps.
  unfoldable pub dhcp4_ha_configs : KeaDhcp4Server → Objects → String × Objects
  dhcp4_ha_configs server s =
      reconcile_ha_configs (config_maps_of env.client server.meta) env.unmarshal env.print
        env.compute_hash server.meta.name "dhcp4" (credentials server.spec).1 (peers_of server)
        (dhcp4_replicas server) s

  module _ {Owners : Type 0} (server : KeaDhcp4Server) where
    -- The loop over the ordinals: a Service for each pod.
    unfoldable pub per_pod_services : ℕ → ℕ → Run (State Objects Owners)
    per_pod_services i zero = skip
    per_pod_services i (suc n) =
        wrap ("reconciling per-pod Service for ordinal " <> decimal i) (
          own env.client server.meta
            (service (build_per_pod_service (dhcp4_service_params server) i)))
        >> per_pod_services (suc i) n

    abbrev pub stateful_set_with :
        String → Option StorkSidecarParams → Result StringMap → Run (State Objects Owners)
    stateful_set_with config_hash agent (ok hosts) = wrap "reconciling StatefulSet" (
        own env.client server.meta (
          stateful_set
            (build_stateful_set (dhcp4_stateful_set_params server config_hash hosts agent))))
    stateful_set_with config_hash agent (error e) = λ w. (failed e, w)

    -- `reconcileDhcp4HAWorkload`
    unfoldable pub ha_workload :
        (String → Option String) → String → Option StorkSidecarParams → Run (State Objects Owners)
    unfolding per_pod_services
    ha_workload hostname_of config_hash agent =
        wrap "reconciling headless Service" (
          own env.client server.meta
            (service (build_headless_service (dhcp4_service_params server))))
        >> per_pod_services 0 (dhcp4_replicas server)
        >> stateful_set_with config_hash agent
            (peer_hosts hostname_of server 0 (peers_of server) [])

module _ {Objects Owners : Type 0} (env : Environment Objects)
    (api : OwnerApi Owners KeaDhcp4Server KeaDhcp4ServerStatus)
    (parse_cidr_v4 : String → Option Ipv4) (hostname_of : String → Option String)
    (now : String) where
  abbrev pub with_rendered : KeaDhcp4Server → KeaDhcp4Server
  with_rendered server = record server {
    status = record server.status { component = config_rendered now server.status.component };
  }

  -- `updateDhcp4Status` with what the earlier steps have set.
  unfoldable pub dhcp4_status : KeaDhcp4Server → String → ℕ → KeaDhcp4ServerStatus
  unfolding update_dhcp4_status
  dhcp4_status server config_hash ready =
      update_dhcp4_status parse_cidr_v4 now "dhcp4" config_hash ready (dhcp4_replicas server)
        (with_rendered server)

  -- Steps 7 to 9, for the ready replicas of the workload.
  unfoldable pub after_dhcp4_workload :
      KeaDhcp4Server → String → Option StorkSidecarParams → ℕ → Run (State Objects Owners)
  unfolding dhcp4_status
  after_dhcp4_workload server config_hash agent ready =
      control_service_step env.client server.meta "dhcp4" server.spec.control_socket
      >> stork_monitoring_step env.client server.meta env.is_open_shift "dhcp4" agent
      >> wrap "updating status" (update_status api server (dhcp4_status server config_hash ready))

  -- Standard mode, with the configuration that is rendered.
  unfoldable pub reconcile_standard_dhcp4 : KeaDhcp4Server → String → Run (State Objects Owners)
  unfolding after_dhcp4_workload
  reconcile_standard_dhcp4 server config_json =
      config_map_step env.client server.meta "dhcp4" config_json
      >> service_account_step env.client server.meta "dhcp4"
      >> scc_step env.client server.meta env.is_open_shift
      >> reading (dhcp4_stork_agent env server) (λ agent.
        deployment_step env.client server.meta
          (dhcp4_deployment_params server (env.compute_hash config_json) agent)
        >> reading
            (ready_replicas env.client server.meta deployments
              (deployment_name server.meta.name "dhcp4"))
            (after_dhcp4_workload server (env.compute_hash config_json) agent))

  -- High availability, after the ConfigMaps of the ordinals.
  unfoldable pub reconcile_ha_dhcp4 : KeaDhcp4Server → String → Run (State Objects Owners)
  unfolding after_dhcp4_workload ha_workload
  reconcile_ha_dhcp4 server config_hash =
      service_account_step env.client server.meta "dhcp4"
      >> scc_step env.client server.meta env.is_open_shift
      >> reading (dhcp4_stork_agent env server) (λ agent.
        ha_workload env server hostname_of config_hash agent
        >> reading
            (ready_replicas env.client server.meta stateful_sets
              (stateful_set_name server.meta.name "dhcp4"))
            (after_dhcp4_workload server config_hash agent))

  abbrev pub dhcp4_rendered : KeaDhcp4Server → Result String → Run (State Objects Owners)
  dhcp4_rendered server (ok config_json) = reconcile_standard_dhcp4 server config_json
  dhcp4_rendered server (error e) =
      render_failed api server
        (record server.status { component = render_error now e server.status.component }) e

  abbrev pub after_ha_configs : KeaDhcp4Server → String × Objects → Run (State Objects Owners)
  after_ha_configs server (config_hash, s) w =
      reconcile_ha_dhcp4 server config_hash (record w { objects = s })

  -- With the peers filled in.
  unfoldable pub reconcile_filled_dhcp4 : KeaDhcp4Server → Run (State Objects Owners)
  unfolding dhcp4_config reconcile_standard_dhcp4 reconcile_ha_dhcp4 dhcp4_ha_configs
  reconcile_filled_dhcp4 server =
      if is_some server.spec.high_availability
      then (λ w. after_ha_configs server (dhcp4_ha_configs env server w.objects) w)
      else dhcp4_rendered server (dhcp4_config env server)

  abbrev pub dhcp4_fetched : Fetched KeaDhcp4Server → Run (State Objects Owners)
  dhcp4_fetched (found server) w = reconcile_filled_dhcp4 (with_dhcp4_peer_urls server) w
  dhcp4_fetched not_found w = (done, w)
  dhcp4_fetched (get_failed e) w = (failed e, w)

  unfoldable pub reconcile_dhcp4_request : String → String → Run (State Objects Owners)
  unfolding reconcile_filled_dhcp4
  reconcile_dhcp4_request namespace name w = dhcp4_fetched (api.get namespace name w.owners) w
