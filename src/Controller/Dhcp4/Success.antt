-- ===== src/Controller/Dhcp4/Success.antt =====
-- Reconciliations of a DHCPv4 server in which no call fails, in both modes.
use kea_dhcp_operator.Controller.Dhcp4.Reconcile.{
  per_pod_services, reconcile_standard_dhcp4, ha_workload, reconcile_ha_dhcp4,
  reconcile_dhcp4_request, after_dhcp4_workload, dhcp4_rendered, reconcile_filled_dhcp4,
  stateful_set_with, with_dhcp4_peer_urls, dhcp4_stork_agent, dhcp4_config, dhcp4_fetched,
}
use kea_dhcp_operator.Controller.Dhcp4.Workload.{peer_hosts, peers_of, dhcp4_replicas}
use kea_dhcp_operator.Resources.Stork.{StorkSidecarParams}
use kea_dhcp_operator.Controller.Dhcp4.Nad.{Ipv4}
use kea_dhcp_operator.Api.Dhcp4.{KeaDhcp4Server, KeaDhcp4ServerStatus}
use kea_dhcp_operator.Api.Maps.{StringMap}
use kea_dhcp_operator.Controller.Environment.{Environment}
use kea_dhcp_operator.Controller.Steps.{State, reading}
use kea_dhcp_operator.Controller.Steps.Errors.{render_failed_lem}
use kea_dhcp_operator.Controller.Steps.Success.{
  rendered_outcome, NeverFails, Succeeds-reading, Succeeds-skip, Succeeds-own,
  Succeeds-service_account_step, Succeeds-standard, Succeeds-control_service_step,
  Succeeds-scc_step, Succeeds-stork_monitoring_step, Succeeds-update_status,
}
use kea_dhcp_operator.Controller.Client.{
  done, failed, found, Outcome, Ends, Succeeds, Succeeds->>, Ends->>, Ends-then, Succeeds-wrap,
  OwnerApi,
}
use kea_dhcp_operator.Base.{
  String, ok, error, zero, suc, refl, inl, inr, [], Bool-cases, is_some, ap, ◌∙◌, Result, Option,
  ◌≡◌, ℕ, if◌then◌else◌,
}

-- How a reconciliation with high availability ends: the host names of the peers decide.
abbrev pub hosts_outcome : Result StringMap → Outcome
hosts_outcome (ok hosts) = done
hosts_outcome (error e) = failed e

module _ {Objects Owners : Type 0} (env : Environment Objects) (law : NeverFails env.client)
    (api : OwnerApi Owners KeaDhcp4Server KeaDhcp4ServerStatus)
    (parse_cidr_v4 : String → Option Ipv4) (hostname_of : String → Option String) (now : String)
    (stores : (server : KeaDhcp4Server) (st : KeaDhcp4ServerStatus) (s : Owners)
      → (api.update_status server st s).0 ≡ done) where
  Succeeds-after_dhcp4_workload :
      (server : KeaDhcp4Server) (config_hash : String) (agent : Option StorkSidecarParams)
      (ready : ℕ)
      → Succeeds (
          after_dhcp4_workload env api parse_cidr_v4 hostname_of now server config_hash agent ready)
  unfolding after_dhcp4_workload
  Succeeds-after_dhcp4_workload server config_hash agent ready =
      Succeeds->> _ _
        (Succeeds-control_service_step env.client law server.meta "dhcp4"
          server.spec.control_socket)
        (Succeeds->> _ _
          (Succeeds-stork_monitoring_step env.client law server.meta env.is_open_shift "dhcp4"
            agent)
          (Succeeds-update_status api server _ (stores server _)))

  Succeeds-reconcile_standard_dhcp4 :
      (server : KeaDhcp4Server) (config_json : String)
      → Succeeds (reconcile_standard_dhcp4 env api parse_cidr_v4 hostname_of now server config_json)
  unfolding reconcile_standard_dhcp4
  Succeeds-reconcile_standard_dhcp4 server config_json =
      Succeeds-standard env.client law server.meta "dhcp4" config_json env.is_open_shift _ _ _
        (λ agent.
          Succeeds-reading _ _ (λ ready. Succeeds-after_dhcp4_workload server _ agent ready))

  rendered-outcome :
      (server : KeaDhcp4Server) (r : Result String)
      → Ends (rendered_outcome r) (dhcp4_rendered env api parse_cidr_v4 hostname_of now server r)
  rendered-outcome server (ok config_json) w =
      Succeeds-reconcile_standard_dhcp4 server config_json w
  rendered-outcome server (error e) w = ap (λ r. r.0) (render_failed_lem api server _ e w)

  Succeeds-per_pod_services :
      (server : KeaDhcp4Server) (i n : ℕ)
      → Succeeds {World = State Objects Owners} (per_pod_services env server i n)
  unfolding per_pod_services
  Succeeds-per_pod_services server i zero = Succeeds-skip
  Succeeds-per_pod_services server i (suc n) =
      Succeeds->> _ _ (Succeeds-wrap _ _ (Succeeds-own env.client law server.meta _))
        (Succeeds-per_pod_services server (suc i) n)

  stateful_set-outcome :
      (server : KeaDhcp4Server) (config_hash : String) (agent : Option StorkSidecarParams)
      (r : Result StringMap)
      → Ends {World = State Objects Owners}
          (hosts_outcome r)
          (stateful_set_with env server config_hash agent r)
  stateful_set-outcome server config_hash agent (ok hosts) w =
      Succeeds-wrap _ _ (Succeeds-own env.client law server.meta _) w
  stateful_set-outcome server config_hash agent (error e) w = refl

  abbrev hosts_of : KeaDhcp4Server → Result StringMap
  hosts_of server = peer_hosts hostname_of server 0 (peers_of server) []

  ha_workload-outcome :
      (server : KeaDhcp4Server) (config_hash : String) (agent : Option StorkSidecarParams)
      → Ends {World = State Objects Owners}
          (hosts_outcome (hosts_of server))
          (ha_workload env server hostname_of config_hash agent)
  unfolding ha_workload
  ha_workload-outcome server config_hash agent =
      Ends->> _ _ _ (Succeeds-wrap _ _ (Succeeds-own env.client law server.meta _)) (
        Ends->> _ _ _ (Succeeds-per_pod_services server 0 (dhcp4_replicas server))
          (stateful_set-outcome server config_hash agent (hosts_of server)))

  ha-outcome :
      (server : KeaDhcp4Server) (config_hash : String)
      → Ends
          (hosts_outcome (hosts_of server))
          (reconcile_ha_dhcp4 env api parse_cidr_v4 hostname_of now server config_hash)
  unfolding reconcile_ha_dhcp4 reading
  ha-outcome server config_hash =
      Ends->> _ _ _ (Succeeds-service_account_step env.client law server.meta "dhcp4") (
        Ends->> _ _ _ (Succeeds-scc_step env.client law server.meta env.is_open_shift) (λ w.
          let agent = dhcp4_stork_agent env server w in
          Ends-then _ _ _ (ha_workload-outcome server config_hash agent)
            (Succeeds-reading _
              (after_dhcp4_workload env api parse_cidr_v4 hostname_of now server config_hash agent)
              (Succeeds-after_dhcp4_workload server config_hash agent))
            w))

  -- If no call of the client fails and the status can be stored, a reconciliation of a DHCPv4 server
  -- that is there ends without an error when, without high availability, its configuration can be
  -- printed and, with it, the host names of all peers are safe; otherwise it ends with the error of that.
  pub outcome-reconcile_dhcp4_request :
      (namespace name : String) (server : KeaDhcp4Server) (w : State Objects Owners)
      → api.get namespace name w.owners ≡ found server
      → let filled = with_dhcp4_peer_urls server in
        (reconcile_dhcp4_request env api parse_cidr_v4 hostname_of now namespace name w).0 ≡ (
          if is_some filled.spec.high_availability
          then hosts_outcome (peer_hosts hostname_of filled 0 (peers_of filled) [])
          else rendered_outcome (dhcp4_config env filled))
  unfolding reconcile_dhcp4_request reconcile_filled_dhcp4
  outcome-reconcile_dhcp4_request namespace name server w there =
      let filled = with_dhcp4_peer_urls server in
      ap (λ x. (dhcp4_fetched env api parse_cidr_v4 hostname_of now x w).0) there
      ∙ elim (Bool-cases (is_some filled.spec.high_availability)) [
        | inl ha ↦ rw ha (ha-outcome filled _ _)
        | inr standard_mode ↦ rw standard_mode (rendered-outcome filled (dhcp4_config env filled) w)
      ]
